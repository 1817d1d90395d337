-- ===== src/Runtime/Node/Anchor.antt =====
-- crates/ticktape-runtime/src/lib.rs: the start of open_with, which picks a snapshot to recover
-- from, and its replay of the frames behind that snapshot.
pub mod Steps
pub mod Rebuilds
mod Tests
use ticktape.Base.{
  ℕ, ◌+◌, ◌<◌, ◌≤◌, ◌≡◌, refl, sym, ap, ◌∙◌, Option, none, some, List, [], ◌∷◌, ◌++◌, All, ok, err,
  ltb, leb, true, false, if◌then◌else◌, ◌>>=◌, arith, Result-cases, inl, inr, length, ◌^◌,
}
use ticktape.Base.Result.{Result}
use ticktape.Core.Codec.{
  Codec, CodecError, encode_to_vec, decode_all, tuple2_codec, tuple3_codec, vec_codec, u64_codec,
}
use ticktape.Core.Codec.Law.{IsCodec, decode_all-encode_to_vec}
use ticktape.Core.Codec.Instances.{int-IsCodec}
use ticktape.Core.Codec.Tuples.{tuple2-IsCodec, tuple3-IsCodec}
use ticktape.Core.Codec.Containers.{vec-IsCodec}
use ticktape.Core.Frame.{Frame, FrameKind}
use ticktape.Core.Service.{Service, Ctx}
use ticktape.Journal.Snapshots.{LoadedSnapshot}
use ticktape.Runtime.Timer
use ticktape.Runtime.Timer.{TimerWheel}
use ticktape.Runtime.Timer.Wheel.{IsValid}
use ticktape.Runtime.Timer.Snapshot.{restore-snapshot}
use ticktape.Runtime.Node.{NodeError, uncovered_history}
use ticktape.Runtime.Node.Replay.{
  Rebuilt, replay, replay_frame, replay_kind, replay_step, replayed_step, at_seq, one_input,
  at_genesis, replay-append,
}

-- `Vec<(u64, u64, u64)>`
abbrev pub wheel_codec : Codec (List (ℕ × ℕ × ℕ))
wheel_codec = vec_codec (tuple3_codec u64_codec u64_codec u64_codec)

-- `SnapshotPayload`
abbrev pub payload_codec :
    {Snapshot : Type 0} → Codec Snapshot → Codec (Snapshot × List (ℕ × ℕ × ℕ))
payload_codec snapshots = tuple2_codec snapshots wheel_codec

-- Where the recovery starts.
pub record Anchor (State : Type 0) : Type 0 where
  pub service : State
  pub wheel : TimerWheel
  pub from_seq : ℕ

module _ {Config State Input Output Snapshot Failure : Type 0}
    (app : Service Config State Input Output Snapshot Failure) (codec : Codec Input)
    (snapshots : Codec Snapshot) (config : Config) where
  -- A payload that does not decode is passed over.
  unfoldable pub restored :
      ℕ
      → Result CodecError (Snapshot × List (ℕ × ℕ × ℕ))
      → Option (Anchor State)
      → Option (Anchor State)
  restored seq (ok (service, wheel)) older =
      some (record {
        service = app.restore service config;
        wheel = Timer.restore wheel;
        from_seq = seq;
      })
  restored seq (err e) older = older

  -- The first of the candidates that decodes and that the journal can continue.
  unfoldable pub find_anchor : ℕ → List LoadedSnapshot → Option (Anchor State)
  unfolding restored
  find_anchor journal_first [] = none
  find_anchor journal_first (snap ∷ older) =
      let rest = find_anchor journal_first older in
      if ltb (snap.seq + 1) journal_first
      then rest
      else restored snap.seq (decode_all (payload_codec snapshots) snap.payload) rest

  unfoldable pub anchor_or_genesis :
      ℕ → Option (Anchor State) → Result (NodeError Failure) (Anchor State)
  anchor_or_genesis journal_first (some anchor) = ok anchor
  anchor_or_genesis journal_first none =
      if ltb 1 journal_first
      then err (uncovered_history journal_first)
      else ok (record { service = app.genesis config; wheel = Timer.new; from_seq = 0 })

  -- A frame that the snapshot captured moves the time on only.
  unfoldable pub replay_frame_after :
      ℕ → Rebuilt State → Frame → Result (NodeError Failure) (Rebuilt State)
  replay_frame_after from_seq r frame =
      if leb frame.seq from_seq
      then ok (record r { last_timestamp = frame.timestamp })
      else replay_frame app codec r frame

  unfoldable pub replay_after :
      ℕ → Rebuilt State → List Frame → Result (NodeError Failure) (Rebuilt State)
  unfolding replay_frame_after
  replay_after from_seq r [] = ok r
  replay_after from_seq r (frame ∷ frames) =
      replay_frame_after from_seq r frame >>= λ r'. replay_after from_seq r' frames

  -- What open_with rebuilds from the candidates and the frames of the journal.
  unfoldable pub rebuild :
      ℕ → List LoadedSnapshot → List Frame → Result (NodeError Failure) (Rebuilt State)
  unfolding find_anchor anchor_or_genesis replay_after
  rebuild journal_first candidates frames = do
    anchor ← anchor_or_genesis journal_first (find_anchor journal_first candidates)
    replay_after anchor.from_seq
        (record {
          service = anchor.service;
          wheel = anchor.wheel;
          last_timestamp = 0;
          inputs_replayed = 0;
        })
        frames

  -- Two rebuilt states that differ in the count of replayed inputs at most.
  pub record SameState (r r' : Rebuilt State) : Type 0 where
    pub service : r.service ≡ r'.service
    pub wheel : r.wheel ≡ r'.wheel
    pub time : r.last_timestamp ≡ r'.last_timestamp
