-- ===== src/Transport/Reassembler/Limits.antt =====
-- The session lock, and the bound on buffered frames.
use ticktape.Base.{
  ℕ, ◌+◌, ◌≤◌, ◌≡◌, ◌≢◌, refl, sym, ap, ◌∙◌, Option, none, some, List, [], ◌∷◌, length, All, ok,
  err, >>=-eq-ok, arith,
}
use ticktape.Core.Frame.{Frame}
use ticktape.Transport.{session_mismatch, Packet, data_packet, heartbeat, session}
use ticktape.Transport.Reassembler.{
  Reassembler, pending_cap, new, buffer, buffer_all, accept, lock, ingest, Event, feed, pop, step,
  run,
}
use ticktape.Transport.Reassembler.Invariant.{Inv, GenuineEvent, step-Inv, new-Inv}

buffer_all-locked : (r : Reassembler) (fs : List Frame) → (buffer_all r fs).locked ≡ r.locked
unfolding buffer_all buffer
buffer_all-locked r [] = refl
buffer_all-locked r (f ∷ fs) = buffer_all-locked (buffer r f) fs

accept-locked : (r : Reassembler) (p : Packet) → (accept r p).locked ≡ r.locked
unfolding accept
accept-locked r (heartbeat s next_seq) = refl
accept-locked r (data_packet s frames) = buffer_all-locked r frames

lock-ok : (l l' : Option ℕ) (got : ℕ) → lock l got ≡ ok l' → l' ≡ some got
unfolding lock
lock-ok none l' got e = ground arith
lock-ok (some expected) l' got e = ground arith

lock-foreign :
    (expected got : ℕ)
    → expected ≢ got
    → lock (some expected) got ≡ err (session_mismatch expected got)
unfolding lock
lock-foreign expected got other = ground arith

ingest-locked :
    (r r' : Reassembler) (p : Packet) → ingest r p ≡ ok r' → r'.locked ≡ some (session p)
unfolding ingest
ingest-locked r r' p e =
    let (l, locked, done) = >>=-eq-ok (lock r.locked (session p)) _ e in
    let r₁ : Reassembler = record r { locked = l; packets_seen = r.packets_seen + 1 } in
    let same : accept r₁ p ≡ r' = ground arith in
    sym (ap (λ (q : Reassembler). q.locked) same)
    ∙ accept-locked r₁ p
    ∙ lock-ok r.locked l (session p) locked

-- Once a packet is accepted, a packet of another session is refused with an error that names both
-- sessions.
pub ingest_foreign :
    (r r' : Reassembler) (p q : Packet)
    → ingest r p ≡ ok r'
    → session p ≢ session q
    → ingest r' q ≡ err (session_mismatch (session p) (session q))
unfolding ingest
ingest_foreign r r' p q e other =
    let foreign : lock r'.locked (session q) ≡ err (session_mismatch (session p) (session q)) =
      ap (λ l. lock l (session q)) (ingest-locked r r' p e)
      ∙ lock-foreign (session p) (session q) other in
    rw foreign

run-Inv :
    (Genuine : Frame → Type 0) (r : Reassembler) (es : List Event)
    → All (GenuineEvent Genuine) es
    → Inv Genuine r
    → Inv Genuine (run r es).0
unfolding run
run-Inv Genuine r [] g v = v
run-Inv Genuine r (e ∷ es) g v = run-Inv Genuine (step r e).0 es g.1 (step-Inv Genuine r e g.0 v)

AnyFrame : Frame → Type 0
AnyFrame f = Unit {0}

any_frames : (fs : List Frame) → All AnyFrame fs
unfolding AnyFrame
any_frames [] = tt
any_frames (f ∷ fs) = (tt, any_frames fs)

any_event : (e : Event) → GenuineEvent AnyFrame e
any_event (feed (data_packet s frames)) = any_frames frames
any_event (feed (heartbeat s next_seq)) = tt
any_event pop = tt

any_events : (es : List Event) → All (GenuineEvent AnyFrame) es
any_events [] = tt
any_events (e ∷ es) = (any_event e, any_events es)

-- Whatever packets arrive, the reassembler never holds more out-of-order frames than its cap
-- between two calls.
pub run-pending_bounded :
    (from : ℕ) (es : List Event) → length (run (new from) es).0.pending ≤ pending_cap
run-pending_bounded from es =
    (run-Inv AnyFrame (new from) es (any_events es) (new-Inv AnyFrame from)).bounded
