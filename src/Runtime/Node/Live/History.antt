-- ===== src/Runtime/Node/Live/History.antt =====
-- Histories of calls, and the node that is opened after them.
use ticktape.Base.{
  length-append, arith, ℕ, ◌≡◌, ◌∙◌, refl, sym, ap, subst, Option, List, [], ◌∷◌, ◌++◌, ok, err,
  ◌>>=◌, All,
}
use ticktape.Base.Result.{Result}
use ticktape.Base.Method.{Method, proceed, proceed-eq-ok, returns}
use ticktape.Core.Codec.{Codec}
use ticktape.Core.Codec.Law.{IsCodec}
use ticktape.Core.Frame.{Frame, FrameKind}
use ticktape.Core.Service.{Service}
use ticktape.Runtime.Commit.{CommitConfig}
use ticktape.Runtime.Node.{
  Node, NodeError, LogOps, fire_due_timers, submit, tick, fence, announced, sequence_at,
}
use ticktape.Runtime.Node.Replay.{
  Rebuilt, replay, replay_frame, replay_kind, at_genesis, replay-append, open_node, commit_state,
}
use ticktape.Runtime.Node.Live.{Holding, IsLog, IsTyped, IsWheel, new-IsWheel}
use ticktape.Runtime.Node.Live.Frames.{Live, sequence_at-Sequenced}
use ticktape.Runtime.Node.Live.Calls.{Grows}
use ticktape.Runtime.Node.Live.Submits.{fire_due_timers-Grows, submit-Live, after_more, unchanged}

-- The calls that sequence frames one at a time, each with what the clock says.
pub data Call (Input : Type 0) : Type 0 where
  submits : ℕ → Input → Call Input
  ticks : ℕ → Call Input
  fences : ℕ → ℕ → Call Input

module _ {Config State Input Output Snapshot Failure Log : Type 0}
    (app : Service Config State Input Output Snapshot Failure) (codec : Codec Input)
    (ops : LogOps Log) where
  abbrev dropped {ℓ} :
      {A : Type ℓ}
      → Result (NodeError Failure) A × Node State Output Log
      → Result (NodeError Failure) (Unit {0}) × Node State Output Log
  dropped (ok a, n) = (ok tt, n)
  dropped (err e, n) = (err e, n)

  unfoldable pub make :
      ℕ → Call Input → Method (Node State Output Log) (NodeError Failure) (Unit {0})
  make fuel (submits now input) n = dropped (submit app codec ops fuel now input n)
  make fuel (ticks now) n = dropped (tick app codec ops fuel now n)
  make fuel (fences now epoch) n = dropped (fence app codec ops now epoch n)

  -- The calls, one after the other, as long as they succeed.
  unfoldable pub run :
      ℕ → List (Call Input) → Method (Node State Output Log) (NodeError Failure) (Unit {0})
  unfolding make
  run fuel [] n = (ok tt, n)
  run fuel (call ∷ calls) n = proceed (make fuel call n) (λ _. run fuel calls)

abbrev pub IsCall : {Input : Type 0} → (Input → Type 0) → Call Input → Type 0
IsCall IsInput (submits now input) = IsInput input
IsCall IsInput (ticks now) = Unit {0}
IsCall IsInput (fences now epoch) = Unit {0}

module _ {Config State Input Output Snapshot Failure Log : Type 0}
    (app : Service Config State Input Output Snapshot Failure) (codec : Codec Input)
    (ops : LogOps Log) (Stores : Holding Log) (config : Config) (law : IsLog ops Stores)
    (typed : IsTyped app) where
  abbrev H : Type 0
  H = Node State Output Log

  abbrev L : H → List Frame → Type 0
  L = Live app codec ops Stores config

  abbrev G : H → List Frame → Type 0
  G = Grows app codec ops Stores config law typed

  abbrev with_time : Rebuilt State → Frame → Rebuilt State
  with_time r frame = record r { last_timestamp = frame.timestamp }

  -- A frame without a step of the service only moves the time on.
  announced-Live :
      (kind : FrameKind) (payload : List ℕ) (now : ℕ) (n n1 : H) (fs : List Frame) (frame : Frame)
      → ((r : Rebuilt State) → replay_kind app codec r frame kind ≡ ok (with_time r frame))
      → L n fs
      → sequence_at app codec ops kind payload now n ≡ (ok frame, n1)
      → L (announced app codec ops frame n1) (fs ++ (frame ∷ []))
  unfolding replay replay_frame
  announced-Live kind payload now n n1 fs frame plain live e =
      let sq = sequence_at-Sequenced app codec ops Stores config kind payload now n n1 frame e in
      let r = live.rebuilt in
      record {
        stored =
            subst (λ l. Stores l (fs ++ (frame ∷ []))) (sym (ap (λ (k : H). k.log) sq.after))
              (law.appends n.log sq.log' fs frame live.stored sq.appended);
        rebuilt = with_time r frame;
        replayed =
            replay-append app codec (at_genesis app codec config) fs (frame ∷ [])
            ∙ ap (λ x. x >>= λ k. replay app codec k (frame ∷ [])) live.replayed
            ∙ ap (λ x. x >>= λ k. ok k) (ap (replay_kind app codec r frame) sq.kind_is ∙ plain r);
        same_service = live.same_service ∙ ap (λ (k : H). k.service) (sym sq.after);
        same_wheel = live.same_wheel ∙ ap (λ (k : H). k.timers) (sym sq.after);
        same_time = sq.time_is ∙ ap (λ (k : H). k.last_timestamp) (sym sq.after);
        same_seq =
            omega
              (arith, ap (λ (k : H). k.seq) sq.after, live.same_seq, length-append fs (frame ∷ []));
        wheel = subst IsWheel (ap (λ (k : H). k.timers) (sym sq.after)) live.wheel;
      }

  tick-Live :
      (fuel now : ℕ) (n n' : H) (fs : List Frame) (answer : ℕ)
      → L n fs
      → tick app codec ops fuel now n ≡ (ok answer, n')
      → G n' fs
  unfolding tick replay_kind
  tick-Live fuel now n n' fs answer live e =
      let (frame, n1, sq, e1) = proceed-eq-ok _ _ e in
      let (more, n2, fired, e2) =
        proceed-eq-ok (fire_due_timers app codec ops fuel (announced app codec ops frame n1))
          (λ more. returns frame.seq) e1 in
      let last = ap (λ (x : Result (NodeError Failure) ℕ × H). x.1) e2 in
      let ticked = announced-Live FrameKind.tick [] now n n1 fs frame (λ r. refl) live sq in
      after_more app codec ops Stores config law typed (announced app codec ops frame n1) n' fs
        (frame ∷ [], ticked)
        (λ gs l.
          subst (λ k. G k gs) last
            (fire_due_timers-Grows app codec ops Stores config law typed fuel _ n2 gs more l fired))

  fence-Live :
      (now epoch : ℕ) (n n' : H) (fs : List Frame) (answer : ℕ)
      → L n fs
      → fence app codec ops now epoch n ≡ (ok answer, n')
      → G n' fs
  unfolding fence replay_kind
  fence-Live now epoch n n' fs answer live e =
      let (frame, n1, sq, e1) = proceed-eq-ok _ _ e in
      let last = ap (λ (x : Result (NodeError Failure) ℕ × H). x.1) e1 in
      (
        frame ∷ [],
        subst (λ k. L k (fs ++ (frame ∷ []))) last
            (announced-Live FrameKind.epoch_change _ now n n1 fs frame (λ r. refl) live sq),
      )

  dropped-ok :
      {A : Type 0} (r : Result (NodeError Failure) A × H) (n : H)
      → dropped app codec ops r ≡ (ok tt, n)
      → (a : A) × (r ≡ (ok a, n))
  dropped-ok (ok a, k) n e = (a, cc)
  dropped-ok (err x, k) n e = cc

  module _ {IsInput : Input → Type 0} (coded : IsCodec codec IsInput) (fuel : ℕ) where
    make-Grows :
        (call : Call Input) (n n' : H) (fs : List Frame)
        → IsCall IsInput call
        → L n fs
        → make app codec ops fuel call n ≡ (ok tt, n')
        → G n' fs
    unfolding make
    make-Grows (submits now input) n n' fs v live e =
        let (answer, e') = dropped-ok (submit app codec ops fuel now input n) n' e in
        submit-Live app codec ops Stores config law typed coded fuel now input n n' fs answer v live
          e'
    make-Grows (ticks now) n n' fs v live e =
        let (answer, e') = dropped-ok (tick app codec ops fuel now n) n' e in
        tick-Live fuel now n n' fs answer live e'
    make-Grows (fences now epoch) n n' fs v live e =
        let (answer, e') = dropped-ok (fence app codec ops now epoch n) n' e in
        fence-Live now epoch n n' fs answer live e'

    run-Grows :
        (calls : List (Call Input)) (n n' : H) (fs : List Frame)
        → All (IsCall IsInput) calls
        → L n fs
        → run app codec ops fuel calls n ≡ (ok tt, n')
        → G n' fs
    unfolding run
    run-Grows [] n n' fs v live e =
        subst (λ k. G k fs) (ap (λ (x : Result (NodeError Failure) (Unit {0}) × H). x.1) e)
          (unchanged app codec ops Stores config law typed n fs live)
    run-Grows (call ∷ calls) n n' fs v live e =
        let (unit, n1, made, e1) =
          proceed-eq-ok (make app codec ops fuel call n) (λ _. run app codec ops fuel calls) e in
        after_more app codec ops Stores config law typed n1 n' fs
          (make-Grows call n n1 fs v.0 live made) (λ gs l. run-Grows calls n1 n' gs v.1 l e1)

  opened_empty :
      (stream_id : ℕ) (commit : Option CommitConfig) (log : Log) (n : H)
      → Stores log []
      → open_node app codec config stream_id commit log [] 1 0 ≡ ok n
      → L n []
  unfolding open_node replay
  opened_empty stream_id commit log n empty e =
      let here = unwrapped e in
      record {
        stored = subst (λ l. Stores l []) (ap (λ (k : H). k.log) here) empty;
        rebuilt = at_genesis app codec config;
        replayed = refl;
        same_service = ap (λ (k : H). k.service) here;
        same_wheel = ap (λ (k : H). k.timers) here;
        same_time = ap (λ (k : H). k.last_timestamp) here;
        same_seq = ap (λ (k : H). k.seq) (sym here);
        wheel = subst IsWheel (ap (λ (k : H). k.timers) here) new-IsWheel;
      }
    where
      unwrapped : {a b : H} → ◌≡◌ {A = Result (NodeError Failure) H} (ok a) (ok b) → a ≡ b
      unwrapped e = cc

  -- A node that is opened from the journal of a live node has its service, timers and time.
  pub Reopens : H → Option CommitConfig → ℕ → Type 0
  Reopens n commit stream_id =
      (fs : List Frame) × (n' : H) × Stores n.log fs
      × (open_node app codec config stream_id commit n.log fs 1 n.seq ≡ ok n')
      × (n'.service ≡ n.service)
      × (n'.timers ≡ n.timers)
      × (n'.last_timestamp ≡ n.last_timestamp)

  Live-Reopens :
      (n : H) (fs : List Frame) (commit : Option CommitConfig) (stream_id : ℕ)
      → L n fs
      → Reopens n commit stream_id
  unfolding Reopens open_node
  Live-Reopens n fs commit stream_id live = (
    fs,
    record {
      service = live.rebuilt.service;
      log = n.log;
      stream_id = stream_id;
      seq = n.seq;
      last_timestamp = live.rebuilt.last_timestamp;
      published = [];
      commit = commit_state app codec commit n.seq;
      timers = live.rebuilt.wheel;
    },
    live.stored,
    rw live.replayed refl,
    live.same_service,
    live.same_wheel,
    live.same_time,
  )

  pub run-Live :
      {IsInput : Input → Type 0} (coded : IsCodec codec IsInput) (fuel : ℕ)
      (calls : List (Call Input)) (stream_id : ℕ) (commit : Option CommitConfig) (log : Log)
      (n n' : H)
      → Stores log []
      → All (IsCall IsInput) calls
      → open_node app codec config stream_id commit log [] 1 0 ≡ ok n
      → run app codec ops fuel calls n ≡ (ok tt, n')
      → (fs : List Frame) × L n' fs
  run-Live coded fuel calls stream_id commit log n n' empty valid opened ran =
      run-Grows coded fuel calls n n' [] valid (opened_empty stream_id commit log n empty opened)
        ran

  -- If a node that was opened on an empty journal has taken inputs one at a time (by submit), ticks
  -- and fences, the node that is opened from its journal has the same service state, pending timers
  -- and sequenced time. Batches of inputs are not covered. This holds if no call has failed, the
  -- inputs are valid, the service asks for timers with u64 ids, the codec of the inputs keeps the
  -- codec laws, and the journal adds to its frames what it accepts.
  pub run-Reopens :
      {IsInput : Input → Type 0} (coded : IsCodec codec IsInput) (fuel : ℕ)
      (calls : List (Call Input)) (stream_id : ℕ) (commit : Option CommitConfig) (log : Log)
      (n n' : H)
      → Stores log []
      → All (IsCall IsInput) calls
      → open_node app codec config stream_id commit log [] 1 0 ≡ ok n
      → run app codec ops fuel calls n ≡ (ok tt, n')
      → Reopens n' commit stream_id
  run-Reopens coded fuel calls stream_id commit log n n' empty valid opened ran =
      let (fs, live) = run-Live coded fuel calls stream_id commit log n n' empty valid opened ran in
      Live-Reopens n' fs commit stream_id live
