-- ===== src/Transport/Reassembler.antt =====
-- crates/ticktape-transport/src/reassembler.rs: from lossy, repeated, reordered packets back to the
-- frames in order.
pub mod Invariant
pub mod Order
pub mod Gap
pub mod Limits
mod Tests
use ticktape.Base.{
  ℕ, zero, suc, ◌+◌, ◌-◌, ◌*◌, max, Bool, true, false, ◌||◌, not, Option, none, some, List, [], ◌∷◌,
  ◌++◌, ltb, ◌==◌, if◌then◌else◌, length, ok, err, ◌>>=◌,
}
use ticktape.Base.Result.{Result}
use ticktape.Base.BTreeMap.{get, contains_key, insert, remove, first_key, pop_last}
use ticktape.Core.Frame.{Frame}
use ticktape.Transport.{TransportError, session_mismatch, Packet, data_packet, heartbeat, session}

abbrev pub pending_cap : ℕ
pending_cap = 64 * 1024

pub record Reassembler : Type 0 where
  -- Locked on the first packet.
  pub locked : Option ℕ
  -- The next seq to deliver.
  pub next : ℕ
  pub pending : List (ℕ × Frame)
  pub announced_next : ℕ
  pub packets_seen : ℕ

pub new : ℕ → Reassembler
new from = record {
  locked = none;
  next = max from 1;
  pending = [];
  announced_next = max from 1;
  packets_seen = 0;
}

pub next_expected : Reassembler → ℕ
next_expected r = r.next

-- `saturating_sub(1)`
pub announced_high_water : Reassembler → ℕ
announced_high_water r = r.announced_next - 1

-- One frame of a data packet: announced, and buffered unless it is a duplicate.
pub buffer : Reassembler → Frame → Reassembler
buffer r f = record r {
  announced_next = max r.announced_next (f.seq + 1);
  pending =
      if ltb f.seq r.next || contains_key f.seq r.pending
      then r.pending
      else insert f.seq f r.pending;
}

pub buffer_all : Reassembler → List Frame → Reassembler
buffer_all r [] = r
buffer_all r (f ∷ fs) = buffer_all (buffer r f) fs

-- `while self.pending.len() > PENDING_CAP { self.pending.pop_last(); }`: a round for each entry at
-- most.
pub trim : ℕ → List (ℕ × Frame) → List (ℕ × Frame)
trim zero m = m
trim (suc fuel) m = elim (ltb pending_cap (length m)) [ true ↦ trim fuel (pop_last m) | false ↦ m ]

pub accept : Reassembler → Packet → Reassembler
accept r (heartbeat s next_seq) = record r { announced_next = max r.announced_next next_seq }
accept r (data_packet s frames) =
    let r' = buffer_all r frames in record r' { pending = trim (length r'.pending) r'.pending }

-- The session check: the first packet locks the stream.
pub lock : Option ℕ → ℕ → Result TransportError (Option ℕ)
lock none got = ok (some got)
lock (some expected) got =
    if not (expected == got) then err (session_mismatch expected got) else ok (some expected)

pub ingest : Reassembler → Packet → Result TransportError Reassembler
unfolding lock
ingest r packet = do
  locked ← lock r.locked (session packet)
  ok (accept (record r { locked = locked; packets_seen = r.packets_seen + 1 }) packet)

pub next_frame : Reassembler → Option (Frame × Reassembler)
next_frame r = elim (get r.next r.pending) [
  | none ↦ none
  | some f ↦ some (f, record r { next = r.next + 1; pending = remove r.next r.pending })
]

pub known_until : Option ℕ → ℕ → ℕ
known_until none announced_next = announced_next
known_until (some first_pending) announced_next = first_pending

-- The missing range: its first seq and its length.
pub gap : Reassembler → Option (ℕ × ℕ)
unfolding known_until
gap r =
    let until = known_until (first_key r.pending) r.announced_next in
    if ltb r.next until then some (r.next, until - r.next) else none

-- What the socket layer does with it: feed packets in, pop frames out.
pub data Event : Type 0 where
  feed : Packet → Event
  pop : Event

-- A refused packet changes nothing.
abbrev pub after : Reassembler → Result TransportError Reassembler → Reassembler
after r (ok r') = r'
after r (err e) = r

abbrev pub popped : Reassembler → Option (Frame × Reassembler) → Reassembler × List Frame
popped r none = (r, [])
popped r (some (f, r')) = (r', f ∷ [])

pub step : Reassembler → Event → Reassembler × List Frame
step r (feed packet) = (after r (ingest r packet), [])
step r pop = popped r (next_frame r)

-- A history of packets and pops: the final state and the frames delivered.
pub run : Reassembler → List Event → Reassembler × List Frame
run r [] = (r, [])
run r (e ∷ es) = let (r', now) = step r e in let (r'', later) = run r' es in (r'', now ++ later)
