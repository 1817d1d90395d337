-- ===== src/Runtime/Node/Live.antt =====
-- A live node and a replay of its journal, for calls that sequence one frame at a time.
pub mod Frames
pub mod Calls
pub mod Submits
pub mod History
use ticktape.Base.{
  ℕ, ◌^◌, ◌<◌, ◌≡◌, ◌∙◌, refl, ap, some, List, [], ◌∷◌, ◌++◌, All, ok, ==_iff, arith, ◌==◌,
  if◌then◌else◌, Bool-cases, inl, inr, ◌+◌,
}
use ticktape.Base.Result.{Result}
use ticktape.Base.BTreeMap
use ticktape.Core.Codec.{Codec}
use ticktape.Core.Codec.Law.{IsCodec}
use ticktape.Core.Frame.{Frame}
use ticktape.Core.Service.{Service, Ctx, TimerReq}
use ticktape.Journal.{JournalError}
use ticktape.Runtime.Timer
use ticktape.Runtime.Timer.{TimerWheel}
use ticktape.Runtime.Timer.Wheel.{IsValid, new-IsValid, apply-IsValid, get-cancel, get-set}
use ticktape.Runtime.Node.{Node, LogOps, apply_ops}
use ticktape.Runtime.Node.Replay.{Rebuilt, replay, at_genesis}

-- The journal holds the frames `fs`.
abbrev pub Holding : Type 0 → Type 1
Holding Log = Log → List Frame → Type 0

-- What the node relies on: an append that succeeds adds its frames at the end.
pub record IsLog {Log : Type 0} (ops : LogOps Log) (Stores : Holding Log) : Type 0 where
  pub appends :
      (log log' : Log) (fs : List Frame) (f : Frame)
      → Stores log fs
      → ops.append f log ≡ (ok tt, log')
      → Stores log' (fs ++ (f ∷ []))
  pub appends_batch :
      (log log' : Log) (fs gs : List Frame)
      → Stores log fs
      → ops.append_batch gs log ≡ (ok tt, log')
      → Stores log' (fs ++ gs)

-- A timer id is a u64.
abbrev pub IdFits : TimerReq → Type 0
IdFits (TimerReq.set id at) = id < 256 ^ 8
IdFits (TimerReq.cancel id) = id < 256 ^ 8

-- The steps of the service ask for timers with u64 ids.
pub record IsTyped {Config State Input Output Snapshot Failure : Type 0}
    (app : Service Config State Input Output Snapshot Failure) : Type 0 where
  pub apply_fits :
      (seq : ℕ) (input : Input) (s s' : State) (ctx ctx' : Ctx Output)
      → All IdFits ctx.timers
      → app.apply seq input s ctx ≡ ok (s', ctx')
      → All IdFits ctx'.timers
  pub on_timer_fits :
      (id : ℕ) (s s' : State) (ctx ctx' : Ctx Output)
      → All IdFits ctx.timers
      → app.on_timer id s ctx ≡ ok (s', ctx')
      → All IdFits ctx'.timers

-- The wheel is in order, and its ids fit.
pub record IsWheel (w : TimerWheel) : Type 0 where
  pub valid : IsValid w
  pub fits : (id : ℕ) (armed : ℕ × ℕ) → BTreeMap.get id w.by_id ≡ some armed → id < 256 ^ 8

apply-IsWheel :
    (w : TimerWheel) (op : TimerReq) (seq : ℕ)
    → IsWheel w
    → IdFits op
    → IsWheel (Timer.apply w op seq)
unfolding Timer.apply
apply-IsWheel w (TimerReq.set id at) seq h f = record {
  valid = apply-IsValid w (TimerReq.set id at) seq h.valid;
  fits = λ j armed e. elim (Bool-cases (id == j)) [
    | inl same ↦ ground (arith, f, same)
    | inr other ↦ h.fits j armed (ground (arith, e, other, get-set w id at seq h.valid j))
  ];
}
apply-IsWheel w (TimerReq.cancel id) seq h f = record {
  valid = apply-IsValid w (TimerReq.cancel id) seq h.valid;
  fits = λ j armed e. elim (Bool-cases (id == j)) [
    | inl same ↦ ground (arith, f, same)
    | inr other ↦ h.fits j armed (ground (arith, e, other, get-cancel w id h.valid j))
  ];
}

pub apply_ops-IsWheel :
    (w : TimerWheel) (ops : List TimerReq) (seq : ℕ)
    → IsWheel w
    → All IdFits ops
    → IsWheel (apply_ops w ops seq)
unfolding apply_ops
apply_ops-IsWheel w [] seq h f = h
apply_ops-IsWheel w (op ∷ ops) seq h f =
    apply_ops-IsWheel (Timer.apply w op seq) ops seq (apply-IsWheel w op seq h f.0) f.1

pub new-IsWheel : IsWheel Timer.new
unfolding Timer.new BTreeMap.get
new-IsWheel = record { valid = new-IsValid; fits = λ id armed e. cc }
