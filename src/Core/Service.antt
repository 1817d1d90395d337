-- ===== src/Core/Service.antt =====
-- crates/ticktape-core/src/service.rs: what a service may touch while it is applied.
use ticktape.Base.{Bool, ℕ, true, false, List, [], ◌∷◌, ◌++◌}
use ticktape.Base.Result.{Result}
use ticktape.Core.Seq.{Seq}

pub data TimerReq : Type 0 where
  set : ℕ → ℕ → TimerReq
  cancel : ℕ → TimerReq

-- The outputs of one step, in the order of the pushes.
pub record OutBuf (O : Type 0) : Type 0 where
  pub items : List O

module _ {O : Type 0} where
  unfoldable pub new_buf : OutBuf O
  new_buf = record { items = [] }

  unfoldable pub push : OutBuf O → O → OutBuf O
  push buf out = record { items = buf.items ++ (out ∷ []) }

  -- What was pushed, and the emptied buffer.
  unfoldable pub drain : OutBuf O → OutBuf O × List O
  drain buf = (record { items = [] }, buf.items)

  unfoldable pub is_empty : OutBuf O → Bool
  is_empty buf = elim buf.items [ [] ↦ true | ◌∷◌ out items ↦ false ]

-- The two buffers, in the order of the pushes.
pub record Ctx (O : Type 0) : Type 0 where
  pub seq : ℕ
  pub now : ℕ
  pub outputs : OutBuf O
  pub timers : List TimerReq

module _ {O : Type 0} where
  unfoldable pub emit : Ctx O → O → Ctx O
  unfolding push
  emit ctx out = record ctx { outputs = push ctx.outputs out }

  unfoldable pub set_timer : Ctx O → ℕ → ℕ → Ctx O
  set_timer ctx id at = record ctx { timers = ctx.timers ++ (TimerReq.set id at ∷ []) }

  unfoldable pub cancel_timer : Ctx O → ℕ → Ctx O
  cancel_timer ctx id = record ctx { timers = ctx.timers ++ (TimerReq.cancel id ∷ []) }

-- The contract of an application, with its state and the ways in which it can fail.
pub record Service (Config State Input Output Snapshot Failure : Type 0) : Type 0 where
  pub schema_version : ℕ
  pub genesis : Config → State
  pub apply : Seq → Input → State → Ctx Output → Result Failure (State × Ctx Output)
  pub on_timer : ℕ → State → Ctx Output → Result Failure (State × Ctx Output)
  pub snapshot : State → Snapshot
  pub restore : Snapshot → Config → State
