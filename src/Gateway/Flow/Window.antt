-- ===== src/Gateway/Flow/Window.antt =====
-- The window of unacknowledged commands.
use ticktape.Base.{
  ℕ, suc, ◌+◌, max, ◌<◌, ◌≤◌, ◌≡◌, refl, List, [], ◌∷◌, length, length-append, arith,
}
use native.Mathlib.Nat.{le_trans}
use ticktape.Gateway.Flow.{
  accept, duplicate, throttled, SessionFlow, resume, admit, on_acked, Event, command, acked,
  admitted, run,
}

pub record IsBounded (window : ℕ) (f : SessionFlow) : Type 0 where
  pub fixed : f.window ≡ window
  pub ready : 1 ≤ f.window
  pub within : f.outstanding ≤ f.window

admit-IsBounded :
    (w client_seq : ℕ) (f : SessionFlow) → IsBounded w f → IsBounded w (admit f client_seq).0
unfolding admit
admit-IsBounded w client_seq f v = ground arith

on_acked-IsBounded : (w : ℕ) (f : SessionFlow) → IsBounded w f → IsBounded w (on_acked f)
unfolding on_acked
on_acked-IsBounded w f v = ground arith

run-IsBounded :
    (w : ℕ) (f : SessionFlow) (es : List Event) → IsBounded w f → IsBounded w (run f es).0
unfolding run
run-IsBounded w f [] v = v
run-IsBounded w f (command client_seq ∷ es) v =
    run-IsBounded w (admit f client_seq).0 es (admit-IsBounded w client_seq f v)
run-IsBounded w f (acked ∷ es) v = run-IsBounded w (on_acked f) es (on_acked-IsBounded w f v)

-- How many acknowledgements a history has.
abbrev pub acks : List Event → ℕ
acks [] = 0
acks (command client_seq ∷ es) = acks es
acks (acked ∷ es) = suc (acks es)

length-admitted :
    (f : SessionFlow) (client_seq : ℕ)
    → f.outstanding + length (admitted (admit f client_seq).1 client_seq)
      ≡ (admit f client_seq).0.outstanding
unfolding admit
length-admitted f client_seq = ground arith

-- A slot is taken for each sequenced command, and an acknowledgement frees one at most.
run-outstanding :
    (f : SessionFlow) (es : List Event)
    → f.outstanding + length (run f es).1 ≤ (run f es).0.outstanding + acks es
unfolding run on_acked
run-outstanding f [] = omega arith
run-outstanding f (command client_seq ∷ es) = omega (
  arith,
  length-admitted f client_seq,
  length-append (admitted (admit f client_seq).1 client_seq) (run (admit f client_seq).0 es).1,
  run-outstanding (admit f client_seq).0 es,
)
run-outstanding f (acked ∷ es) = omega (arith, run-outstanding (on_acked f) es)

-- After any history of a resumed session, the commands that were sequenced and are not acknowledged
-- yet are no more than the requested window, or than one if none was requested.
pub length-run-resume_le :
    (last_admitted window : ℕ) (es : List Event)
    → length (run (resume last_admitted window) es).1 ≤ max window 1 + acks es
unfolding resume
length-run-resume_le last_admitted window es =
    let f = resume last_admitted window in
    let v =
      run-IsBounded (max window 1) f es
        (record { fixed = refl; ready = omega arith; within = omega arith }) in
    omega (arith, run-outstanding f es, v.fixed, v.within)

-- In a session whose commands in flight fit its window, a throttled command is not consumed: the
-- same one is admitted after one acknowledgement.
pub throttled_retry :
    (w client_seq : ℕ) (f : SessionFlow)
    → IsBounded w f
    → (admit f client_seq).1 ≡ throttled
    → (admit (on_acked (admit f client_seq).0) client_seq).1 ≡ accept
unfolding admit on_acked
throttled_retry w client_seq f v h = ground arith

admit-next_le : (f : SessionFlow) (client_seq : ℕ) → f.next ≤ (admit f client_seq).0.next
unfolding admit
admit-next_le f client_seq = ground arith

run-next_le : (f : SessionFlow) (es : List Event) → f.next ≤ (run f es).0.next
unfolding run on_acked
run-next_le f [] = omega arith
run-next_le f (command client_seq ∷ es) =
    le_trans (admit-next_le f client_seq) (run-next_le (admit f client_seq).0 es)
run-next_le f (acked ∷ es) = run-next_le (on_acked f) es

accepted-next :
    (f : SessionFlow) (client_seq : ℕ)
    → (admit f client_seq).1 ≡ accept
    → client_seq < (admit f client_seq).0.next
unfolding admit
accepted-next f client_seq h = ground arith

behind :
    (f : SessionFlow) (client_seq : ℕ) → client_seq < f.next → (admit f client_seq).1 ≡ duplicate
unfolding admit
behind f client_seq h = ground arith

-- A command that was admitted once is a duplicate for the rest of the session, whatever comes
-- between.
pub admitted_once :
    (f : SessionFlow) (client_seq : ℕ) (es : List Event)
    → (admit f client_seq).1 ≡ accept
    → (admit (run (admit f client_seq).0 es).0 client_seq).1 ≡ duplicate
admitted_once f client_seq es h =
    behind (run (admit f client_seq).0 es).0 client_seq
      (omega (arith, run-next_le (admit f client_seq).0 es, accepted-next f client_seq h))
