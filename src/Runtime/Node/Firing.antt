-- ===== src/Runtime/Node/Firing.antt =====
-- The rounds of fire_due_timers.
use ticktape.Base.{ℕ, suc, ◌≡◌, refl, none, some, [], ◌++◌, ok}
use ticktape.Base.Method.{proceed, returns, ◌>>=◌}
use ticktape.Core.Codec.{Codec}
use ticktape.Core.Service.{Service}
use ticktape.Runtime.Timer
use ticktape.Runtime.Timer.{TimerWheel}
use ticktape.Runtime.Node.{Node, LogOps, fire, fire_due_timers}

module _ {Config State Input Output Snapshot Failure Log : Type 0}
    (app : Service Config State Input Output Snapshot Failure) (codec : Codec Input)
    (ops : LogOps Log) (fuel : ℕ) (n : Node State Output Log) where
  pub fire_due_timers-idle :
      Timer.pop_due n.timers n.last_timestamp ≡ none
      → fire_due_timers app codec ops (suc fuel) n ≡ (ok [], n)
  unfolding fire_due_timers
  fire_due_timers-idle idle = rw (idle, fire_due_timers) refl

  pub fire_due_timers-due :
      (id : ℕ) (w : TimerWheel)
      → Timer.pop_due n.timers n.last_timestamp ≡ some (id, w)
      → fire_due_timers app codec ops (suc fuel) n
        ≡ proceed
            (fire app codec ops id (record n { timers = w }))
            (λ released. fire_due_timers app codec ops fuel >>= λ more. returns (released ++ more))
  unfolding fire_due_timers
  fire_due_timers-due id w due = rw (due, fire_due_timers) refl
