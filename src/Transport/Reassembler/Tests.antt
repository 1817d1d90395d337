-- ===== src/Transport/Reassembler/Tests.antt =====
-- Runs of reassembler.rs, after its unit tests.
use ticktape.Base.{
  ℕ, ◌+◌, ◌≡◌, ◌≤◌, ◌<◌, refl, max, none, some, inl, inr, List, [], ◌∷◌, length, ok, arith,
}
use ticktape.Base.BTreeMap.{get, contains_key, insert, remove, first_key}
use ticktape.Core.Frame.{Frame, input}
use ticktape.Transport.{data_packet, session}
use ticktape.Transport.Reassembler.{
  Reassembler, pending_cap, new, next_expected, buffer, buffer_all, trim, accept, lock, ingest, gap,
  next_frame, feed, pop, Event, run, step,
}
use ticktape.Transport.Reassembler.Invariant.{Inv}
use ticktape.Transport.Reassembler.Order.{IsFrom, frames_from, run-in_order}
use ticktape.Transport.Reassembler.Gap.{IsMissing, Intact, gap-none, gap-some, ingest-next_frame}
use ticktape.Transport.Reassembler.Limits.{run-pending_bounded}

-- The publisher's frames.
abbrev stream : ℕ → Frame
stream n = record { seq = n; timestamp = n; stream_id = 1; kind = input; payload = [] }

abbrev history : List Event
history =
    feed (data_packet 7 (stream 3 ∷ stream 4 ∷ []))
    ∷ pop
    ∷ feed (data_packet 7 (stream 1 ∷ stream 2 ∷ []))
    ∷ feed (data_packet 7 (stream 2 ∷ stream 3 ∷ []))
    ∷ pop
    ∷ pop
    ∷ pop
    ∷ []

reorder : (run (new 1) history).1 ≡ stream 1 ∷ stream 2 ∷ stream 3 ∷ []
unfolding run new ingest accept buffer_all buffer trim lock session next_frame step get contains_key
    insert remove
reorder = refl

-- Joined in mid-stream: the frames before are reported missing.
abbrev late : Reassembler
late = record {
  locked = some 7;
  next = 1;
  pending = (100, stream 100) ∷ [];
  announced_next = 101;
  packets_seen = 1;
}

late_ingested : ingest (new 1) (data_packet 7 (stream 100 ∷ [])) ≡ ok late
unfolding new ingest accept buffer_all buffer trim lock session get contains_key insert
late_ingested = refl

late-Inv : Inv (IsFrom stream) late
late-Inv = record {
  buffered = record { sorted = omega arith; entries = ((refl, refl), tt); known = omega arith };
  bounded = omega arith;
}

late-gap : gap late ≡ some (1, 99)
unfolding gap first_key
late-gap = refl

gap-some_example : ◌≡◌ {A = ℕ} 1 1 × (0 < 99) × (1 + 99 ≤ 101) × IsMissing late.pending 1 99
gap-some_example = gap-some late late-Inv 1 99 late-gap

abbrev idle : Reassembler
idle = record late { pending = []; announced_next = 1 }

idle-Inv : Inv (IsFrom stream) idle
idle-Inv = record {
  buffered = record { sorted = tt; entries = tt; known = tt };
  bounded = omega arith;
}

idle-gap : gap idle ≡ none
unfolding gap first_key
idle-gap = refl

gap-none_example : Intact idle.pending idle.next idle.announced_next
gap-none_example = gap-none idle idle-Inv idle-gap

run-in_order_example :
    ((run (new 1) history).1 ≡ frames_from stream (max 1 1) (length (run (new 1) history).1))
    × (next_expected (run (new 1) history).0 ≡ max 1 1 + length (run (new 1) history).1)
run-in_order_example =
    run-in_order stream 1 history
      ((refl, (refl, tt)), (tt, ((refl, (refl, tt)), ((refl, (refl, tt)), (tt, (tt, (tt, tt)))))))

filled : Reassembler
unfolding accept buffer_all buffer trim
filled = accept (record late { packets_seen = 2 }) (data_packet 7 (stream 2 ∷ stream 1 ∷ []))

late-filled : ingest late (data_packet 7 (stream 2 ∷ stream 1 ∷ [])) ≡ ok filled
unfolding filled ingest lock session
late-filled = refl

ingest-next_frame_example :
    (f : Frame) × (r : Reassembler) × (next_frame filled ≡ some (f, r)) × (r.next ≡ 1 + 1)
ingest-next_frame_example =
    ingest-next_frame late filled 7 (stream 2 ∷ stream 1 ∷ []) late-Inv (refl, (refl, tt))
      (inr (inl refl)) late-filled

run-pending_bounded_example : length (run (new 1) history).0.pending ≤ pending_cap
run-pending_bounded_example = run-pending_bounded 1 history
