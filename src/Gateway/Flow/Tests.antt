-- ===== src/Gateway/Flow/Tests.antt =====
-- Runs of flow.rs, after its unit tests.
use ticktape.Base.{◌+◌, ◌≤◌, ◌≡◌, refl, max, [], ◌∷◌, length, arith}
use ticktape.Gateway.Flow.{
  accept, duplicate, throttled, SessionFlow, new, resume, admit, on_acked, command, acked, run,
}
use ticktape.Gateway.Flow.ExactlyOnce.{consecutive, exactly_once}
use ticktape.Gateway.Flow.Window.{acks, length-run-resume_le, throttled_retry, admitted_once}

-- Retries, a gap and a full window.
gaps_are_errors :
    (run
      (new 2)
      (command 1 ∷ command 3 ∷ command 1 ∷ command 2 ∷ command 3 ∷ acked ∷ command 3 ∷ [])).1
    ≡ 1 ∷ 2 ∷ 3 ∷ []
unfolding run new admit on_acked
gaps_are_errors = refl

resume_duplicate : (admit (resume 41 4) 41).1 ≡ duplicate
unfolding admit resume
resume_duplicate = refl

exactly_once_example :
    ((run (resume 41 4) (command 42 ∷ command 42 ∷ command 43 ∷ [])).1
      ≡ consecutive
          (41 + 1)
          (length (run (resume 41 4) (command 42 ∷ command 42 ∷ command 43 ∷ [])).1))
    × ((run (resume 41 4) (command 42 ∷ command 42 ∷ command 43 ∷ [])).0.next
        ≡ 41 + 1 + length (run (resume 41 4) (command 42 ∷ command 42 ∷ command 43 ∷ [])).1)
exactly_once_example = exactly_once 41 4 (command 42 ∷ command 42 ∷ command 43 ∷ [])

length-run-resume_le_example :
    length (run (resume 0 0) (command 1 ∷ command 2 ∷ acked ∷ [])).1
    ≤ max 0 1 + acks (command 1 ∷ command 2 ∷ acked ∷ [])
length-run-resume_le_example = length-run-resume_le 0 0 (command 1 ∷ command 2 ∷ acked ∷ [])

abbrev full : SessionFlow
full = record { next = 2; window = 1; outstanding = 1 }

full_throttled : (admit full 2).1 ≡ throttled
unfolding admit
full_throttled = refl

throttled_retry_example : (admit (on_acked (admit full 2).0) 2).1 ≡ accept
throttled_retry_example =
    throttled_retry 1 2 full (record { fixed = refl; ready = omega arith; within = omega arith })
      full_throttled

first_accepted : (admit (new 8) 1).1 ≡ accept
unfolding admit new
first_accepted = refl

admitted_once_example : (admit (run (admit (new 8) 1).0 (acked ∷ command 2 ∷ [])).0 1).1 ≡ duplicate
admitted_once_example = admitted_once (new 8) 1 (acked ∷ command 2 ∷ []) first_accepted
