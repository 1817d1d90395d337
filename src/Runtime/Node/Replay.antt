-- ===== src/Runtime/Node/Replay.antt =====
-- crates/ticktape-runtime/src/lib.rs: open_with and replay_step, where no snapshot was found.
use ticktape.Base.{
  ℕ, ◌+◌, List, [], ◌∷◌, ok, err, Option, none, some, ltb, if◌then◌else◌, ◌>>=◌, ◌≡◌, refl, ◌++◌,
  Result-cases, inl, inr,
}
use ticktape.Base.Result.{Result}
use ticktape.Core.Codec.{Codec, CodecError, decode_all, u64_codec}
use ticktape.Core.Frame.{Frame, FrameKind}
use ticktape.Core.Service.{Service, Ctx}
use ticktape.Runtime.Timer
use ticktape.Runtime.Timer.{TimerWheel}
use ticktape.Runtime.Commit
use ticktape.Runtime.Commit.{CommitConfig, CommitState}
use ticktape.Runtime.Node.{
  Node, NodeError, panicked, corrupt_input, uncovered_history, step_context, apply_ops,
}

-- What the replay rebuilds.
pub record Rebuilt (State : Type 0) : Type 0 where
  pub service : State
  pub wheel : TimerWheel
  pub last_timestamp : ℕ
  pub inputs_replayed : ℕ

-- `map_err(|err| NodeError::CorruptInput { seq, err })`
abbrev pub at_seq {κ} :
    {Failure : Type 0} {A : Type κ} → ℕ → Result CodecError A → Result (NodeError Failure) A
at_seq seq (ok a) = ok a
at_seq seq (err e) = err (corrupt_input seq e)

module _ {Config State Input Output Snapshot Failure : Type 0}
    (app : Service Config State Input Output Snapshot Failure) (codec : Codec Input) where
  -- The outputs are dropped, and the timer requests go into the wheel.
  abbrev pub replayed_step :
      Rebuilt State
      → Frame
      → Result Failure (State × Ctx Output)
      → Result (NodeError Failure) (Rebuilt State)
  replayed_step r frame (ok (service, ctx)) = ok (record r {
    service = service;
    wheel = apply_ops r.wheel ctx.timers frame.seq;
    last_timestamp = frame.timestamp;
  })
  replayed_step r frame (err failure) = err (panicked failure)

  unfoldable pub replay_step :
      Rebuilt State
      → Frame
      → (State → Ctx Output → Result Failure (State × Ctx Output))
      → Result (NodeError Failure) (Rebuilt State)
  unfolding step_context apply_ops
  replay_step r frame step = replayed_step r frame (step r.service (step_context frame))

  abbrev pub one_input : Rebuilt State → Rebuilt State
  one_input r = record r { inputs_replayed = r.inputs_replayed + 1 }

  unfoldable pub replay_kind :
      Rebuilt State → Frame → FrameKind → Result (NodeError Failure) (Rebuilt State)
  unfolding replay_step
  replay_kind r frame FrameKind.input = do
    input ← at_seq frame.seq (decode_all codec frame.payload)
    replay_step (one_input r) frame (app.apply frame.seq input)
  replay_kind r frame FrameKind.timer_fired = do
    id ← at_seq frame.seq (decode_all u64_codec frame.payload)
    replay_step (record r { wheel = Timer.cancel r.wheel id }) frame (app.on_timer id)
  replay_kind r frame _ = ok (record r { last_timestamp = frame.timestamp })

  unfoldable pub replay_frame : Rebuilt State → Frame → Result (NodeError Failure) (Rebuilt State)
  unfolding replay_kind
  replay_frame r frame = replay_kind r frame frame.kind

  unfoldable pub replay : Rebuilt State → List Frame → Result (NodeError Failure) (Rebuilt State)
  unfolding replay_frame
  replay r [] = ok r
  replay r (frame ∷ frames) = replay_frame r frame >>= λ r'. replay r' frames

  abbrev pub at_genesis : Config → Rebuilt State
  at_genesis config = record {
    service = app.genesis config;
    wheel = Timer.new;
    last_timestamp = 0;
    inputs_replayed = 0;
  }

  abbrev pub commit_state : Option CommitConfig → ℕ → Option (CommitState Output)
  commit_state none seq = none
  commit_state (some config) seq = some (Commit.new config seq)

  -- A node over a journal that was opened with `frames`, from `first_seq` to `last_seq`.
  unfoldable pub open_node :
      {Log : Type 0}
      → Config
      → ℕ
      → Option CommitConfig
      → Log
      → List Frame
      → ℕ
      → ℕ
      → Result (NodeError Failure) (Node State Output Log)
  unfolding replay
  open_node config stream_id commit log frames first_seq last_seq =
      if ltb 1 first_seq
      then err (uncovered_history first_seq)
      else (replay (at_genesis config) frames >>= λ r. ok (record {
        service = r.service;
        log = log;
        stream_id = stream_id;
        seq = last_seq;
        last_timestamp = r.last_timestamp;
        published = [];
        commit = commit_state commit last_seq;
        timers = r.wheel;
      }))

  pub replay-append :
      (r : Rebuilt State) (fs gs : List Frame)
      → replay r (fs ++ gs) ≡ (replay r fs >>= λ r'. replay r' gs)
  unfolding replay
  replay-append r [] gs = refl
  replay-append r (f ∷ fs) gs = elim (Result-cases (replay_frame r f)) [
    | inl found ↦ let (r', e) = found in rw e (replay-append r' fs gs)
    | inr lost ↦ let (x, e) = lost in rw e refl
  ]
