-- ===== src/Transport/Reassembler/Order.antt =====
-- The frames come out in order, each once, and they are the publisher's.
use ticktape.Base.{
  ℕ, zero, suc, ◌+◌, max, ◌≡◌, refl, sym, ap, ap₂, ◌∙◌, inl, inr, List, [], ◌∷◌, ◌++◌, length,
  length-append, All, arith, Option-cases, Result-cases,
}
use ticktape.Base.BTreeMap.{get, All-get}
use ticktape.Core.Frame.{Frame}
use ticktape.Transport.{Packet, data_packet, heartbeat, session}
use ticktape.Transport.Reassembler.{
  Reassembler, new, next_expected, next_frame, lock, buffer, buffer_all, accept, ingest, Event,
  feed, pop, after, popped, step, run,
}
use ticktape.Transport.Reassembler.Invariant.{Inv, GenuineEvent, step-Inv, new-Inv}

-- The publisher's frames from seq `from` on.
abbrev pub frames_from : (ℕ → Frame) → ℕ → ℕ → List Frame
frames_from stream from zero = []
frames_from stream from (suc n) = stream from ∷ frames_from stream (from + 1) n

-- A frame of the publisher's stream.
abbrev pub IsFrom : (ℕ → Frame) → Frame → Type 0
IsFrom stream f = f ≡ stream f.seq

buffer_all-next : (r : Reassembler) (fs : List Frame) → (buffer_all r fs).next ≡ r.next
unfolding buffer_all buffer
buffer_all-next r [] = refl
buffer_all-next r (f ∷ fs) = buffer_all-next (buffer r f) fs

pub accept-next : (r : Reassembler) (p : Packet) → (accept r p).next ≡ r.next
unfolding accept
accept-next r (heartbeat s next_seq) = refl
accept-next r (data_packet s frames) = buffer_all-next r frames

-- A packet, accepted or refused, delivers nothing by itself.
ingest-next : (r : Reassembler) (p : Packet) → (after r (ingest r p)).next ≡ r.next
unfolding ingest
ingest-next r p = elim (Result-cases (lock r.locked (session p))) [
  | inl (l, e) ↦ rw e (accept-next (record r { locked = l; packets_seen = r.packets_seen + 1 }) p)
  | inr (x, e) ↦ rw e
]

frames_from-append :
    (stream : ℕ → Frame) (from m n : ℕ)
    → frames_from stream from m ++ frames_from stream (from + m) n ≡ frames_from stream from (m + n)
frames_from-append stream from zero n = shift from n
  where
    shift : (a b : ℕ) → frames_from stream (a + 0) b ≡ frames_from stream a (0 + b)
    shift a b = ap₂ (frames_from stream) (omega arith) (omega arith)
frames_from-append stream from (suc m) n =
    ap (λ l. stream from ∷ l)
      (ap (λ l. frames_from stream (from + 1) m ++ l) (shift from m n)
        ∙ frames_from-append stream (from + 1) m n)
    ∙ ap (frames_from stream from) (count m n)
  where
    shift : (a b c : ℕ) → frames_from stream (a + suc b) c ≡ frames_from stream (a + 1 + b) c
    shift a b c = ap₂ (frames_from stream) (omega arith) refl

    count : (a b : ℕ) → suc (a + b) ≡ suc a + b
    count a b = omega arith

module _ (stream : ℕ → Frame) where
  -- What one event delivers, and how far it moves the stream.
  record Delivers (r : Reassembler) (out : Reassembler × List Frame) : Type 0 where
    frames : out.1 ≡ frames_from stream r.next (length out.1)
    moved : out.0.next ≡ r.next + length out.1

  pop-Delivers : (r : Reassembler) → Inv (IsFrom stream) r → Delivers r (popped r (next_frame r))
  unfolding next_frame
  pop-Delivers r v = elim (Option-cases (get r.next r.pending)) [
    | inl e ↦ rw (e, next_frame) (record { frames = refl; moved = omega arith })
    | inr (f, e) ↦
        let (seq, same) = All-get _ r.next f r.pending e v.buffered.entries in
        rw (e, next_frame)
          (record { frames = ap (λ g. g ∷ []) (same ∙ ap stream seq); moved = refl })
  ]

  step-Delivers : (r : Reassembler) (e : Event) → Inv (IsFrom stream) r → Delivers r (step r e)
  unfolding step
  step-Delivers r (feed p) v = record { frames = refl; moved = omega (arith, ingest-next r p) }
  step-Delivers r pop v = pop-Delivers r v

  joined :
      (from next : ℕ) (xs ys : List Frame)
      → xs ≡ frames_from stream from (length xs)
      → next ≡ from + length xs
      → ys ≡ frames_from stream next (length ys)
      → xs ++ ys ≡ frames_from stream from (length (xs ++ ys))
  joined from next xs ys p e q =
      ap₂ (λ u v. u ++ v) p (q ∙ ap (λ k. frames_from stream k (length ys)) e)
      ∙ frames_from-append stream from (length xs) (length ys)
      ∙ ap (frames_from stream from) (sym (length-append xs ys))

  run-Delivers :
      (r : Reassembler) (es : List Event)
      → All (GenuineEvent (IsFrom stream)) es
      → Inv (IsFrom stream) r
      → Delivers r (run r es)
  unfolding run
  run-Delivers r [] g v = record { frames = refl; moved = omega arith }
  run-Delivers r (e ∷ es) g v =
      let r' = (step r e).0 in
      let d = step-Delivers r e v in
      let later = run-Delivers r' es g.1 (step-Inv (IsFrom stream) r e g.0 v) in
      record {
        frames = joined r.next r'.next (step r e).1 (run r' es).1 d.frames d.moved later.frames;
        moved = omega (arith, d.moved, later.moved, length-append (step r e).1 (run r' es).1);
      }

  -- Fed any packets of one publisher, repeated, reordered or partly lost, and popped at any time,
  -- the reassembler delivers exactly the publisher's stream from the requested seq on, in order,
  -- without gap or repetition, and expects the frame after the last delivered one.
  pub run-in_order :
      (from : ℕ) (es : List Event)
      → All (GenuineEvent (IsFrom stream)) es
      → let out = run (new from) es in
        (out.1 ≡ frames_from stream (max from 1) (length out.1))
        × (next_expected out.0 ≡ max from 1 + length out.1)
  unfolding new next_expected
  run-in_order from es g =
      let d = run-Delivers (new from) es g (new-Inv (IsFrom stream) from) in (d.frames, d.moved)
