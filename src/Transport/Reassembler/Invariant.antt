-- ===== src/Transport/Reassembler/Invariant.antt =====
-- What the reassembler keeps at every step.
use ticktape.Base.{
  ℕ, zero, suc, ◌+◌, max, ◌<◌, ◌≤◌, ◌≡◌, refl, inl, inr, true, false, ◌||◌, Option, List, [], ◌∷◌,
  ltb, length, All, arith, Bool-cases, Option-cases, Result-cases, ltb_false→le,
}
use ticktape.Base.BTreeMap.{
  get, contains_key, remove, pop_last, Ascending, Ascending-weaken, insert-Ascending,
  pop_last-Ascending, remove-Ascending_first, All-insert, All-remove, All-pop_last, length-pop_last,
  length-remove_le,
}
use native.Mathlib.Nat.{le_trans}
use ticktape.Core.Frame.{Frame}
use ticktape.Transport.{Packet, data_packet, heartbeat, session}
use ticktape.Transport.Reassembler.{
  Reassembler, pending_cap, new, buffer, buffer_all, trim, accept, lock, ingest, next_frame, Event,
  feed, pop, after, popped, step,
}

known_weaken :
    (a b : ℕ) (m : List (ℕ × Frame))
    → a ≤ b
    → All (λ (p : ℕ × Frame). p.0 < a) m
    → All (λ (p : ℕ × Frame). p.0 < b) m
known_weaken a b [] h l = tt
known_weaken a b (p ∷ m) h l = (omega arith, known_weaken a b m h l.1)

-- `Genuine` is what is known of the frames that arrive.
module _ (Genuine : Frame → Type 0) where
  abbrev pub Entry : ℕ × Frame → Type 0
  Entry p = (p.1.seq ≡ p.0) × Genuine p.1

  -- The buffer is ordered from `next` on, and each entry is a frame under its own seq.
  pub record Buffered (r : Reassembler) : Type 0 where
    pub sorted : Ascending r.next r.pending
    pub entries : All Entry r.pending
    pub known : All (λ (p : ℕ × Frame). p.0 < r.announced_next) r.pending

  pub record Inv (r : Reassembler) : Type 0 where
    pub buffered : Buffered r
    pub bounded : length r.pending ≤ pending_cap

  buffer-Buffered : (r : Reassembler) (f : Frame) → Genuine f → Buffered r → Buffered (buffer r f)
  unfolding buffer
  buffer-Buffered r f g v = elim (Bool-cases (ltb f.seq r.next || contains_key f.seq r.pending)) [
    | inl duplicate ↦ rw duplicate (record {
      sorted = v.sorted;
      entries = v.entries;
      known =
          known_weaken r.announced_next (max r.announced_next (f.seq + 1)) r.pending (omega arith)
            v.known;
    })
    | inr fresh ↦ rw fresh (record {
      sorted = insert-Ascending f.seq r.next f r.pending (ground arith) v.sorted;
      entries = All-insert Entry f.seq f r.pending (refl, g) v.entries;
      known =
          All-insert (λ (p : ℕ × Frame). p.0 < max r.announced_next (f.seq + 1)) f.seq f r.pending
            (omega arith)
            (known_weaken r.announced_next (max r.announced_next (f.seq + 1)) r.pending
              (omega arith) v.known);
    })
  ]

  pub buffer_all-Buffered :
      (r : Reassembler) (fs : List Frame) → All Genuine fs → Buffered r → Buffered (buffer_all r fs)
  unfolding buffer_all
  buffer_all-Buffered r [] g v = v
  buffer_all-Buffered r (f ∷ fs) g v =
      buffer_all-Buffered (buffer r f) fs g.1 (buffer-Buffered r f g.0 v)

trim-over :
    (fuel : ℕ) (m : List (ℕ × Frame))
    → ltb pending_cap (length m) ≡ true
    → trim (suc fuel) m ≡ trim fuel (pop_last m)
unfolding trim
trim-over fuel m e = rw (trim, e)

trim-fits :
    (fuel : ℕ) (m : List (ℕ × Frame)) → ltb pending_cap (length m) ≡ false → trim (suc fuel) m ≡ m
unfolding trim
trim-fits fuel m e = rw (trim, e)

-- What dropping the last entry keeps, `trim` keeps.
pub trim-keeps :
    (P : List (ℕ × Frame) → Type 0) (fuel : ℕ) (m : List (ℕ × Frame))
    → ((m : List (ℕ × Frame)) → ltb pending_cap (length m) ≡ true → P m → P (pop_last m))
    → P m
    → P (trim fuel m)
trim-keeps P zero m keep h = unfold trim in h
trim-keeps P (suc fuel) m keep h = elim (Bool-cases (ltb pending_cap (length m))) [
  | inl over ↦ rw (trim-over fuel m over) (trim-keeps P fuel (pop_last m) keep (keep m over h))
  | inr fits ↦ rw (trim-fits fuel m fits) h
]

-- As many rounds as there are entries bring the buffer below its cap.
trim-bounded :
    (fuel : ℕ) (m : List (ℕ × Frame))
    → length m ≤ fuel + pending_cap
    → length (trim fuel m) ≤ pending_cap
trim-bounded zero m h = unfold trim in omega arith
trim-bounded (suc fuel) [] h = rw (trim-fits fuel [] refl) (omega arith)
trim-bounded (suc fuel) (p ∷ m) h = elim (Bool-cases (ltb pending_cap (length (p ∷ m)))) [
  | inl over ↦
      rw (trim-over fuel (p ∷ m) over)
        (trim-bounded fuel (pop_last (p ∷ m)) (omega (arith, length-pop_last p m)))
  | inr fits ↦ rw (trim-fits fuel (p ∷ m) fits) (ltb_false→le _ _ fits)
]

-- The frames of a packet are genuine.
abbrev pub GenuinePacket : (Frame → Type 0) → Packet → Type 0
GenuinePacket Genuine (data_packet s frames) = All Genuine frames
GenuinePacket Genuine (heartbeat s next_seq) = Unit {0}

module _ (Genuine : Frame → Type 0) where
  accept-Inv :
      (r : Reassembler) (p : Packet)
      → GenuinePacket Genuine p
      → Inv Genuine r
      → Inv Genuine (accept r p)
  unfolding accept
  accept-Inv r (heartbeat s next_seq) g v = record {
    buffered = record {
      sorted = v.buffered.sorted;
      entries = v.buffered.entries;
      known =
          known_weaken r.announced_next (max r.announced_next next_seq) r.pending (omega arith)
            v.buffered.known;
    };
    bounded = v.bounded;
  }
  accept-Inv r (data_packet s frames) g v =
      let r' = buffer_all r frames in
      let b = buffer_all-Buffered Genuine r frames g v.buffered in
      record {
        buffered = record {
          sorted =
              trim-keeps (Ascending r'.next) (length r'.pending) r'.pending
                (λ m _. pop_last-Ascending r'.next m) b.sorted;
          entries =
              trim-keeps (All (Entry Genuine)) (length r'.pending) r'.pending
                (λ m _. All-pop_last (Entry Genuine) m) b.entries;
          known =
              trim-keeps (All (λ (p : ℕ × Frame). p.0 < r'.announced_next)) (length r'.pending)
                r'.pending (λ m _. All-pop_last (λ (p : ℕ × Frame). p.0 < r'.announced_next) m)
                b.known;
        };
        bounded = trim-bounded (length r'.pending) r'.pending (omega arith);
      }

  pub relock-Inv :
      (r : Reassembler) (l : Option ℕ) (n : ℕ)
      → Inv Genuine r
      → Inv Genuine (record r { locked = l; packets_seen = n })
  relock-Inv r l n v = record {
    buffered = record {
      sorted = v.buffered.sorted;
      entries = v.buffered.entries;
      known = v.buffered.known;
    };
    bounded = v.bounded;
  }

  ingest-Inv :
      (r : Reassembler) (p : Packet)
      → GenuinePacket Genuine p
      → Inv Genuine r
      → Inv Genuine (after r (ingest r p))
  unfolding ingest
  ingest-Inv r p g v = elim (Result-cases (lock r.locked (session p))) [
    | inl (l, e) ↦ rw e (accept-Inv _ p g (relock-Inv r l (r.packets_seen + 1) v))
    | inr (x, e) ↦ rw e v
  ]

  -- The state after the frame at `next` was popped.
  popped-Inv :
      (r : Reassembler)
      → Inv Genuine r
      → Inv Genuine (record r { next = r.next + 1; pending = remove r.next r.pending })
  popped-Inv r v = record {
    buffered = record {
      sorted =
          Ascending-weaken (r.next + 1) (suc r.next) (remove r.next r.pending) (omega arith)
            (remove-Ascending_first r.next r.pending v.buffered.sorted);
      entries = All-remove (Entry Genuine) r.next r.pending v.buffered.entries;
      known =
          All-remove (λ (p : ℕ × Frame). p.0 < r.announced_next) r.next r.pending v.buffered.known;
    };
    bounded = le_trans (length-remove_le r.next r.pending) v.bounded;
  }

  pop-Inv : (r : Reassembler) → Inv Genuine r → Inv Genuine (popped r (next_frame r)).0
  unfolding next_frame
  pop-Inv r v = elim (Option-cases (get r.next r.pending)) [
    | inl e ↦ rw (e, next_frame) v
    | inr (f, e) ↦ rw (e, next_frame) (popped-Inv r v)
  ]

  abbrev pub GenuineEvent : Event → Type 0
  GenuineEvent (feed p) = GenuinePacket Genuine p
  GenuineEvent pop = Unit {0}

  pub step-Inv :
      (r : Reassembler) (e : Event) → GenuineEvent e → Inv Genuine r → Inv Genuine (step r e).0
  unfolding step
  step-Inv r (feed p) g v = ingest-Inv r p g v
  step-Inv r pop g v = pop-Inv r v

  pub new-Inv : (from : ℕ) → Inv Genuine (new from)
  unfolding new
  new-Inv from = record {
    buffered = record { sorted = tt; entries = tt; known = tt };
    bounded = omega arith;
  }
