-- ===== src/Runtime/Node.antt =====
-- crates/ticktape-runtime/src/lib.rs: the sequencer and the host of the service, for a node that
-- takes no snapshots (`snapshot_every: None`, the default). The journal is an interface; what the
-- clock says is an argument of the calls that read it.
pub mod Replay
pub mod Firing
pub mod Termination
mod Tests
pub mod Live
pub mod Restart
pub mod Anchor
use ticktape.Base.{
  ℕ, zero, suc, ◌+◌, ◌%◌, max, Bool, true, false, Option, none, some, List, [], ◌∷◌, ◌++◌, length,
  ok, err, ltb, if◌then◌else◌,
}
use ticktape.Base.Result
use ticktape.Base.Result.{Result}
use ticktape.Base.Method.{Method, returns, fails, proceed, ◌>>=◌, ◌>>◌}
use ticktape.Base.BTreeMap
use ticktape.Core.Codec.{
  Codec, CodecError, encode_to_vec, decode_all, tuple3_codec, u32_codec, u64_codec,
}
use ticktape.Core.Frame
use ticktape.Core.Frame.{Frame, FrameKind}
use ticktape.Core.Service.{Service, Ctx, TimerReq}
use ticktape.Journal.{JournalError}
use ticktape.Runtime.Timer
use ticktape.Runtime.Timer.{TimerWheel}
use ticktape.Runtime.Commit
use ticktape.Runtime.Commit.{CommitState}

-- The node's errors; the last three are a panic of the service, the panic of `Frame::new`, and the
-- end of the model's fuel.
pub data NodeError (Failure : Type 0) : Type 0 where
  journal : JournalError → NodeError Failure
  corrupt_input : ℕ → CodecError → NodeError Failure
  uncovered_history : ℕ → NodeError Failure
  panicked : Failure → NodeError Failure
  payload_too_large out_of_fuel : NodeError Failure

-- What the node asks of its journal.
pub record LogOps (Log : Type 0) : Type 0 where
  pub append : Frame → Method Log JournalError (Unit {0})
  pub append_batch : List Frame → Method Log JournalError (Unit {0})

pub record Node (State Output Log : Type 0) : Type 0 where
  pub service : State
  pub log : Log
  pub stream_id : ℕ
  pub seq : ℕ
  pub last_timestamp : ℕ
  -- What the subscribers of the bus have received.
  pub published : List Frame
  pub commit : Option (CommitState Output)
  pub timers : TimerWheel

-- The context of a step, over empty buffers.
unfoldable pub step_context : {O : Type 0} → Frame → Ctx O
step_context frame = record {
  seq = frame.seq;
  now = frame.timestamp;
  outputs = record { items = [] };
  timers = [];
}

-- `for op in timer_ops.drain(..) { wheel.apply(op, seq) }`
unfoldable pub apply_ops : TimerWheel → List TimerReq → ℕ → TimerWheel
apply_ops wheel [] seq = wheel
apply_ops wheel (op ∷ ops) seq = apply_ops (Timer.apply wheel op seq) ops seq

-- The outputs of the released entries, in seq order.
abbrev pub flat {ℓ} : {O : Type ℓ} → List (ℕ × List O) → List O
flat [] = []
flat ((seq, outs) ∷ m) = outs ++ flat m

module _ {Config State Input Output Snapshot Failure Log : Type 0}
    (app : Service Config State Input Output Snapshot Failure) (codec : Codec Input)
    (ops : LogOps Log) where
  abbrev pub Host : Type 0
  Host = Node State Output Log

  -- The fields that staging a frame moves on.
  abbrev pub advanced : ℕ → ℕ → Host → Host
  advanced seq now n = record n { seq = seq; last_timestamp = now }

  unfoldable pub staged : ℕ → ℕ → Option Frame → Method Host (NodeError Failure) Frame
  staged seq now none n = (err payload_too_large, n)
  staged seq now (some frame) n = (ok frame, advanced seq now n)

  -- The next seq, and a time that never runs backwards.
  unfoldable pub stage_frame : FrameKind → List ℕ → ℕ → Method Host (NodeError Failure) Frame
  unfolding staged
  stage_frame kind payload at n =
      let seq = n.seq + 1 in
      let now = max at n.last_timestamp in
      staged seq now (Frame.new seq now n.stream_id kind payload) n

  abbrev pub lifted :
      Host → Result JournalError (Unit {0}) × Log → Result (NodeError Failure) (Unit {0}) × Host
  lifted n (ok unit, log) = (ok tt, record n { log = log })
  lifted n (err e, log) = (err (journal e), record n { log = log })

  abbrev pub on_log :
      Method Log JournalError (Unit {0}) → Method Host (NodeError Failure) (Unit {0})
  on_log call n = lifted n (call n.log)

  unfoldable pub sequence_at : FrameKind → List ℕ → ℕ → Method Host (NodeError Failure) Frame
  unfolding stage_frame
  sequence_at kind payload at = do
    frame ← stage_frame kind payload at
    on_log (ops.append frame)
    returns frame

  -- A step of the service: its call on a state and a context.
  abbrev pub Step : Type 0
  Step = State → Ctx Output → Result Failure (State × Ctx Output)

  abbrev pub stepped :
      Frame → Result Failure (State × Ctx Output) → Method Host (NodeError Failure) (List Output)
  stepped frame (ok (service, ctx)) n = (
    ok ctx.outputs.items,
    record n { service = service; timers = apply_ops n.timers ctx.timers frame.seq },
  )
  stepped frame (err failure) n = (err (panicked failure), n)

  unfoldable pub run_step : Frame → Step → Method Host (NodeError Failure) (List Output)
  unfolding step_context apply_ops
  run_step frame step n = stepped frame (step n.service (step_context frame)) n

  abbrev pub route :
      Frame → List Output → Option (CommitState Output) → Option (CommitState Output) × List Output
  route frame outputs none = (none, outputs)
  route frame outputs (some state) =
      let (state', released) = Commit.withhold state frame.seq outputs in
      (some state', flat released)

  -- Publish the frame, and release or withhold its outputs.
  unfoldable pub finish_frame : Frame → List Output → Method Host (NodeError Failure) (List Output)
  finish_frame frame outputs n =
      let (commit, released) = route frame outputs n.commit in
      (ok released, record n { published = n.published ++ (frame ∷ []); commit = commit })

  unfoldable pub fire : ℕ → Method Host (NodeError Failure) (List Output)
  unfolding sequence_at run_step finish_frame
  fire id n =
      (do
        frame ← sequence_at FrameKind.timer_fired (encode_to_vec u64_codec id) n.last_timestamp
        outputs ← run_step frame (app.on_timer id)
        finish_frame frame outputs)
        n

  -- Fire every timer that is due at the sequenced time.
  unfoldable pub fire_due_timers : ℕ → Method Host (NodeError Failure) (List Output)
  unfolding fire
  fire_due_timers zero n = (err out_of_fuel, n)
  fire_due_timers (suc fuel) n = elim (Timer.pop_due n.timers n.last_timestamp) [
    | none ↦ (ok [], n)
    | some (id, timers) ↦
        proceed (fire id (record n { timers = timers }))
          (λ released. fire_due_timers fuel >>= λ more. returns (released ++ more))
  ]

  -- Sequence, journal and apply one input at the time `now`.
  unfoldable pub submit : ℕ → ℕ → Input → Method Host (NodeError Failure) (ℕ × List Output)
  unfolding fire_due_timers
  submit fuel now input = do
    frame ← sequence_at FrameKind.input (encode_to_vec codec input) now
    outputs ← run_step frame (app.apply frame.seq input)
    released ← finish_frame frame outputs
    more ← fire_due_timers fuel
    returns (frame.seq, released ++ more)

  unfoldable pub stage_all : List Input → ℕ → Method Host (NodeError Failure) (List Frame)
  unfolding stage_frame
  stage_all [] now = returns []
  stage_all (input ∷ inputs) now = do
    frame ← stage_frame FrameKind.input (encode_to_vec codec input) now
    frames ← stage_all inputs now
    returns (frame ∷ frames)

  -- `for (input, frame) in inputs.iter().zip(frames.iter())`
  unfoldable pub apply_all :
      ℕ → List Input → List Frame → Method Host (NodeError Failure) (List (ℕ × List Output))
  unfolding fire_due_timers
  apply_all fuel (input ∷ inputs) (frame ∷ frames) = do
    outputs ← run_step frame (app.apply frame.seq input)
    released ← finish_frame frame outputs
    more ← fire_due_timers fuel
    results ← apply_all fuel inputs frames
    returns ((frame.seq, released ++ more) ∷ results)
  apply_all fuel _ _ = returns []

  unfoldable pub submit_batch :
      ℕ → ℕ → List Input → Method Host (NodeError Failure) (List (ℕ × List Output))
  unfolding stage_all apply_all
  submit_batch fuel now [] = returns []
  submit_batch fuel now (input ∷ inputs) = do
    frames ← stage_all (input ∷ inputs) now
    on_log (ops.append_batch frames)
    apply_all fuel (input ∷ inputs) frames

  -- `note_self_progress`
  abbrev pub noted_self : Option (CommitState Output) → ℕ → Option (CommitState Output)
  noted_self none seq = none
  noted_self (some state) seq = some (Commit.noted state state.self_replica seq)

  abbrev pub announced : Frame → Host → Host
  announced frame n = record n {
    published = n.published ++ (frame ∷ []);
    commit = noted_self n.commit frame.seq;
  }

  -- A sequenced tick, which may make timers due.
  unfoldable pub tick : ℕ → ℕ → Method Host (NodeError Failure) ℕ
  unfolding sequence_at fire_due_timers
  tick fuel now = do
    frame ← sequence_at FrameKind.tick [] now
    λ n. (ok tt, announced frame n)
    more ← fire_due_timers fuel
    returns frame.seq

  -- The fence of a new leader, with its payload `(epoch, first_seq, schema_version)`.
  unfoldable pub fence : ℕ → ℕ → Method Host (NodeError Failure) ℕ
  unfolding sequence_at
  fence now epoch n =
      let fields : ℕ × ℕ × ℕ = (epoch, n.seq + 1, app.schema_version) in
      let payload = encode_to_vec (tuple3_codec u64_codec u64_codec u32_codec) fields in
      (do
        frame ← sequence_at FrameKind.epoch_change payload now
        λ k. (ok tt, announced frame k)
        returns frame.seq)
        n

  abbrev pub acknowledged :
      Option (CommitState Output) → ℕ → ℕ → Option (CommitState Output) × List (ℕ × List Output)
  acknowledged none replica seq = (none, [])
  acknowledged (some state) replica seq =
      let (state', released) = Commit.acknowledge state replica seq in (some state', released)

  unfoldable pub record_ack : ℕ → ℕ → Host → Host × List (ℕ × List Output)
  record_ack replica seq n =
      let (commit, released) = acknowledged n.commit replica seq in
      (record n { commit = commit }, released)
