-- ===== src/Runtime/Node/Live/Frames.antt =====
-- One sequenced frame, live and replayed.
use ticktape.Base.{
  length, length-append, arith, ℕ, ◌+◌, ◌≡◌, ◌∙◌, refl, sym, ap, subst, max, Option, none, some,
  List, [], ◌∷◌, ◌++◌, All, ok, err, ◌>>=◌,
}
use ticktape.Base.Result.{Result}
use ticktape.Base.Method.{proceed-eq-ok}
use ticktape.Core.Codec.{Codec}
use ticktape.Core.Frame.{Frame, FrameKind}
use ticktape.Core.Frame.Layout.{new-eq-some}
use ticktape.Core.Service.{Service, Ctx}
use ticktape.Journal.{JournalError}
use ticktape.Runtime.Timer.{TimerWheel}
use ticktape.Runtime.Node.{
  Node, LogOps, staged, stage_frame, sequence_at, lifted, stepped, apply_ops,
}
use ticktape.Runtime.Node.Replay.{
  Rebuilt, replay, replay_frame, replayed_step, at_genesis, replay-append,
}
use ticktape.Runtime.Node.Live.{Holding, IsLog, IdFits, IsWheel, apply_ops-IsWheel}

module _ {Config State Input Output Snapshot Failure Log : Type 0}
    (app : Service Config State Input Output Snapshot Failure) (codec : Codec Input)
    (ops : LogOps Log) (Stores : Holding Log) (config : Config) where
  abbrev H : Type 0
  H = Node State Output Log

  -- The journal holds `fs`, which the seq counts, and replaying them gives the service, the wheel
  -- and the time.
  pub record Live (n : H) (fs : List Frame) : Type 0 where
    pub stored : Stores n.log fs
    pub rebuilt : Rebuilt State
    pub replayed : replay app codec (at_genesis app codec config) fs ≡ ok rebuilt
    pub same_service : rebuilt.service ≡ n.service
    pub same_wheel : rebuilt.wheel ≡ n.timers
    pub same_time : rebuilt.last_timestamp ≡ n.last_timestamp
    pub same_seq : n.seq ≡ length fs
    pub wheel : IsWheel n.timers

  -- A frame that was sequenced at `at`, and the node after it.
  pub record Sequenced (kind : FrameKind) (payload : List ℕ) (at : ℕ) (n : H) (frame : Frame)
      (n1 : H) : Type 0 where
    pub log' : Log
    pub appended : ops.append frame n.log ≡ (ok tt, log')
    pub kind_is : frame.kind ≡ kind
    pub payload_is : frame.payload ≡ payload
    pub time_is : frame.timestamp ≡ max at n.last_timestamp
    pub after :
        n1 ≡ record n { seq = n.seq + 1; last_timestamp = max at n.last_timestamp; log = log' }

  staged-ok :
      (seq now : ℕ) (made : Option Frame) (n s : H) (f : Frame)
      → staged app codec ops seq now made n ≡ (ok f, s)
      → (made ≡ some f) × (s ≡ record n { seq = seq; last_timestamp = now })
  unfolding staged
  staged-ok seq now none n s f e = (cc, cc)
  staged-ok seq now (some g) n s f e = (cc, cc)

  lifted-ok :
      (n s : H) (r : Result JournalError (Unit {0}) × Log) (u : Unit {0})
      → lifted app codec ops n r ≡ (ok u, s)
      → (log : Log) × (r ≡ (ok tt, log)) × (s ≡ record n { log = log })
  lifted-ok n s (ok tt, log) u e = (log, refl, cc)
  lifted-ok n s (err x, log) u e = (log, cc, cc)

  pub sequence_at-Sequenced :
      (kind : FrameKind) (payload : List ℕ) (at : ℕ) (n n1 : H) (frame : Frame)
      → sequence_at app codec ops kind payload at n ≡ (ok frame, n1)
      → Sequenced kind payload at n frame n1
  unfolding sequence_at stage_frame
  sequence_at-Sequenced kind payload at n n1 frame e =
      let (f, s, st, e1) = proceed-eq-ok (stage_frame app codec ops kind payload at n) _ e in
      let (u, s1, lf, e2) = proceed-eq-ok (lifted app codec ops s (ops.append f s.log)) _ e1 in
      let (made, here) = staged-ok (n.seq + 1) (max at n.last_timestamp) _ n s f st in
      let (log, app', there) = lifted-ok s s1 (ops.append f s.log) u lf in
      let (fields, fits) = new-eq-some _ _ _ _ _ f made in
      let same : f ≡ frame = cc in
      let last : s1 ≡ n1 = cc in
      record {
        log' = log;
        appended = rw (sym same) (ap (λ (k : H). ops.append f k.log) (sym here) ∙ app');
        kind_is = ap (λ (k : Frame). k.kind) (sym same ∙ fields);
        payload_is = ap (λ (k : Frame). k.payload) (sym same ∙ fields);
        time_is = ap (λ (k : Frame). k.timestamp) (sym same ∙ fields);
        after = sym last ∙ there ∙ ap (λ (k : H). record k { log = log }) here;
      }

  -- What a step of the service left.
  pub stepped-ok :
      (frame : Frame) (r : Result Failure (State × Ctx Output)) (n s : H) (outs : List Output)
      → stepped app codec ops frame r n ≡ (ok outs, s)
      → (service : State) × (ctx : Ctx Output) × (r ≡ ok (service, ctx))
        × (s ≡ record n { service = service; timers = apply_ops n.timers ctx.timers frame.seq })
  stepped-ok frame (ok (service, ctx)) n s outs e = (service, ctx, refl, cc)
  stepped-ok frame (err x) n s outs e = cc

  -- The replay of one more frame, whose step is `result`.
  pub step-Live :
      (n n2 : H) (fs : List Frame) (frame : Frame) (log' : Log) (timers : TimerWheel)
      (result : Result Failure (State × Ctx Output)) (r0 : Rebuilt State) (service : State)
      (ctx : Ctx Output) (live : Live n fs)
      → ops.append frame n.log ≡ (ok tt, log')
      → IsLog ops Stores
      → replay_frame app codec live.rebuilt frame ≡ replayed_step app codec r0 frame result
      → r0.wheel ≡ timers
      → result ≡ ok (service, ctx)
      → All IdFits ctx.timers
      → IsWheel timers
      → n2.log ≡ log'
      → n2.service ≡ service
      → n2.timers ≡ apply_ops timers ctx.timers frame.seq
      → n2.last_timestamp ≡ frame.timestamp
      → n2.seq ≡ n.seq + 1
      → Live n2 (fs ++ (frame ∷ []))
  unfolding replay
  step-Live n n2 fs frame log' timers result r0 service ctx live appended law rf rw_ ok_ fit whl lg
        sv tm ts sq =
      record {
        stored =
            subst (λ l. Stores l (fs ++ (frame ∷ []))) (sym lg)
              (law.appends n.log log' fs frame live.stored appended);
        rebuilt = record r0 {
          service = service;
          wheel = apply_ops r0.wheel ctx.timers frame.seq;
          last_timestamp = frame.timestamp;
        };
        replayed =
            replay-append app codec (at_genesis app codec config) fs (frame ∷ [])
            ∙ ap (λ r. r >>= λ k. replay app codec k (frame ∷ [])) live.replayed
            ∙ ap (λ r. r >>= λ k. ok k) (rf ∙ ap (replayed_step app codec r0 frame) ok_);
        same_service = sym sv;
        same_wheel = ap (λ w. apply_ops w ctx.timers frame.seq) rw_ ∙ sym tm;
        same_time = sym ts;
        same_seq = omega (arith, sq, live.same_seq, length-append fs (frame ∷ []));
        wheel = subst IsWheel (sym tm) (apply_ops-IsWheel timers ctx.timers frame.seq whl fit);
      }
