-- ===== src/Runtime/Node/Live/Calls.antt =====
-- Each call of the node keeps the live state and the replay in agreement.
use ticktape.Base.{
  ℕ, ◌≡◌, ◌∙◌, sym, ap, subst, some, List, [], ◌∷◌, ◌++◌, ok, ◌>>=◌, arith, append_assoc,
}
use ticktape.Base.Result.{Result}
use ticktape.Base.Method.{proceed-eq-ok}
use ticktape.Core.Codec.{Codec, encode_to_vec, decode_all, u64_codec}
use ticktape.Core.Codec.Law.{IsCodec, decode_all-encode_to_vec}
use ticktape.Core.Codec.Instances.{int-IsCodec}
use ticktape.Core.Frame.{Frame, FrameKind}
use ticktape.Core.Service.{Service}
use ticktape.Runtime.Timer
use ticktape.Runtime.Timer.{TimerWheel}
use ticktape.Runtime.Timer.Wheel.{cancel-IsValid, get-cancel}
use ticktape.Runtime.Timer.Due.{pop_due-some, pop_due-cancel}
use ticktape.Runtime.Node.{
  Node, NodeError, LogOps, run_step, finish_frame, fire, step_context, apply_ops,
}
use ticktape.Runtime.Node.Replay.{
  Rebuilt, replay_frame, replay_kind, replay_step, replayed_step, one_input, at_seq,
}
use ticktape.Runtime.Node.Live.{Holding, IsLog, IsTyped, IsWheel}
use ticktape.Runtime.Node.Live.Frames.{
  Live, Sequenced, sequence_at-Sequenced, stepped-ok, step-Live,
}

module _ {Config State Input Output Snapshot Failure Log : Type 0}
    (app : Service Config State Input Output Snapshot Failure) (codec : Codec Input)
    (ops : LogOps Log) (Stores : Holding Log) (config : Config) (law : IsLog ops Stores)
    (typed : IsTyped app) where
  abbrev H : Type 0
  H = Node State Output Log

  abbrev L : H → List Frame → Type 0
  L = Live app codec ops Stores config

  replay_frame-input :
      (r : Rebuilt State) (frame : Frame) (input : Input)
      → frame.kind ≡ FrameKind.input
      → decode_all codec frame.payload ≡ ok input
      → replay_frame app codec r frame
        ≡ replayed_step app codec
            (one_input app codec r)
            frame
            (app.apply frame.seq input r.service (step_context frame))
  unfolding replay_frame replay_kind replay_step
  replay_frame-input r frame input k d =
      ap (replay_kind app codec r frame) k
      ∙ ap
          (λ x. at_seq frame.seq x >>= λ i.
            replay_step app codec (one_input app codec r) frame (app.apply frame.seq i))
          d

  replay_frame-timer_fired :
      (r : Rebuilt State) (frame : Frame) (id : ℕ)
      → frame.kind ≡ FrameKind.timer_fired
      → decode_all u64_codec frame.payload ≡ ok id
      → replay_frame app codec r frame
        ≡ replayed_step app codec
            (record r { wheel = Timer.cancel r.wheel id })
            frame
            (app.on_timer id r.service (step_context frame))
  unfolding replay_frame replay_kind replay_step
  replay_frame-timer_fired r frame id k d =
      ap (replay_kind app codec r frame) k
      ∙ ap
          (λ x. at_seq frame.seq x >>= λ i.
            replay_step app codec (record r { wheel = Timer.cancel r.wheel i }) frame
              (app.on_timer i))
          d

  -- An input, sequenced and applied.
  pub input-Live :
      {IsInput : Input → Type 0} (coded : IsCodec codec IsInput) (n n1 n2 : H) (fs : List Frame)
      (frame : Frame) (input : Input) (now : ℕ) (outs : List Output)
      → IsInput input
      → L n fs
      → Sequenced app codec ops Stores config FrameKind.input
          (encode_to_vec codec input)
          now
          n
          frame
          n1
      → run_step app codec ops frame (app.apply frame.seq input) n1 ≡ (ok outs, n2)
      → L n2 (fs ++ (frame ∷ []))
  unfolding run_step step_context
  input-Live coded n n1 n2 fs frame input now outs v live sq e =
      let (service, ctx, done, here) =
        stepped-ok app codec ops Stores config frame _ n1 n2 outs e in
      let read = ap (decode_all codec) sq.payload_is ∙ decode_all-encode_to_vec coded input v in
      let same = live.same_service ∙ ap (λ (k : H). k.service) (sym sq.after) in
      let result = ap (λ s. app.apply frame.seq input s (step_context frame)) same ∙ done in
      step-Live app codec ops Stores config n n2 fs frame sq.log' n.timers _
        (one_input app codec live.rebuilt) service ctx live sq.appended law
        (replay_frame-input live.rebuilt frame input sq.kind_is read) live.same_wheel result
        (typed.apply_fits frame.seq input _ service (step_context frame) ctx tt result) live.wheel
        (ap (λ (k : H). k.log)
          (here
            ∙ ap
                (λ (k : H). record k {
                  service = service;
                  timers = apply_ops k.timers ctx.timers frame.seq;
                })
                sq.after))
        (ap (λ (k : H). k.service) here)
        (ap (λ (k : H). k.timers) here
          ∙ ap (λ (k : H). apply_ops k.timers ctx.timers frame.seq) sq.after)
        (ap (λ (k : H). k.last_timestamp) here
          ∙ ap (λ (k : H). k.last_timestamp) sq.after
          ∙ sym sq.time_is)
        (ap (λ (k : H). k.seq) here ∙ ap (λ (k : H). k.seq) sq.after)

  cancel-IsWheel : (w : TimerWheel) (id : ℕ) → IsWheel w → IsWheel (Timer.cancel w id)
  cancel-IsWheel w id h = record {
    valid = cancel-IsValid w id h.valid;
    fits = λ j armed e. h.fits j armed (ground (arith, e, get-cancel w id h.valid j));
  }

  -- A due timer, sequenced and handled.
  timer-Live :
      (n n1 n2 : H) (fs : List Frame) (frame : Frame) (id : ℕ) (w : TimerWheel) (outs : List Output)
      → L n fs
      → Timer.pop_due n.timers n.last_timestamp ≡ some (id, w)
      → Sequenced app codec ops Stores config FrameKind.timer_fired
          (encode_to_vec u64_codec id)
          n.last_timestamp
          (record n { timers = w })
          frame
          n1
      → run_step app codec ops frame (app.on_timer id) n1 ≡ (ok outs, n2)
      → L n2 (fs ++ (frame ∷ []))
  unfolding run_step step_context
  timer-Live n n1 n2 fs frame id w outs live popped sq e =
      let (service, ctx, done, here) =
        stepped-ok app codec ops Stores config frame _ n1 n2 outs e in
      let fires = pop_due-some n.timers n.last_timestamp live.wheel.valid id w popped in
      let gone = pop_due-cancel n.timers n.last_timestamp live.wheel.valid id w popped in
      let fit = live.wheel.fits id (fires.at, fires.seq) fires.armed in
      let read =
        ap (decode_all u64_codec) sq.payload_is ∙ decode_all-encode_to_vec (int-IsCodec 8) id fit in
      let same = live.same_service ∙ ap (λ (k : H). k.service) (sym sq.after) in
      let result = ap (λ s. app.on_timer id s (step_context frame)) same ∙ done in
      step-Live app codec ops Stores config n n2 fs frame sq.log' w _
        (record live.rebuilt { wheel = Timer.cancel live.rebuilt.wheel id }) service ctx live
        sq.appended law (replay_frame-timer_fired live.rebuilt frame id sq.kind_is read)
        (ap (λ x. Timer.cancel x id) live.same_wheel ∙ sym gone) result
        (typed.on_timer_fits id _ service (step_context frame) ctx tt result)
        (subst IsWheel (sym gone) (cancel-IsWheel n.timers id live.wheel))
        (ap (λ (k : H). k.log)
          (here
            ∙ ap
                (λ (k : H). record k {
                  service = service;
                  timers = apply_ops k.timers ctx.timers frame.seq;
                })
                sq.after))
        (ap (λ (k : H). k.service) here)
        (ap (λ (k : H). k.timers) here
          ∙ ap (λ (k : H). apply_ops k.timers ctx.timers frame.seq) sq.after)
        (ap (λ (k : H). k.last_timestamp) here
          ∙ ap (λ (k : H). k.last_timestamp) sq.after
          ∙ sym sq.time_is)
        (ap (λ (k : H). k.seq) here ∙ ap (λ (k : H). k.seq) sq.after)

  -- Publishing a frame and releasing its outputs touches nothing that a replay rebuilds.
  pub finish_frame-Live :
      (n n' : H) (fs : List Frame) (frame : Frame) (outs released : List Output)
      → L n fs
      → finish_frame app codec ops frame outs n ≡ (ok released, n')
      → L n' fs
  unfolding finish_frame
  finish_frame-Live n n' fs frame outs released live e =
      let here = ap (λ (x : Result (NodeError Failure) (List Output) × H). x.1) e in
      record {
        stored = subst (λ l. Stores l fs) (ap (λ (k : H). k.log) here) live.stored;
        rebuilt = live.rebuilt;
        replayed = live.replayed;
        same_service = live.same_service ∙ ap (λ (k : H). k.service) here;
        same_wheel = live.same_wheel ∙ ap (λ (k : H). k.timers) here;
        same_time = live.same_time ∙ ap (λ (k : H). k.last_timestamp) here;
        same_seq = ap (λ (k : H). k.seq) (sym here) ∙ live.same_seq;
        wheel = subst IsWheel (ap (λ (k : H). k.timers) here) live.wheel;
      }

  -- The journal has grown to the frames of a live node.
  abbrev pub Grows : H → List Frame → Type 0
  Grows n fs = (gs : List Frame) × L n (fs ++ gs)

  pub fire-Live :
      (n n' : H) (fs : List Frame) (id : ℕ) (w : TimerWheel) (released : List Output)
      → L n fs
      → Timer.pop_due n.timers n.last_timestamp ≡ some (id, w)
      → fire app codec ops id (record n { timers = w }) ≡ (ok released, n')
      → Grows n' fs
  unfolding fire
  fire-Live n n' fs id w released live popped e =
      let (frame, n1, sq, e1) = proceed-eq-ok _ _ e in
      let (outs, n2, st, e2) = proceed-eq-ok _ _ e1 in
      let s =
        sequence_at-Sequenced app codec ops Stores config FrameKind.timer_fired _ _ _ n1 frame sq in
      (
        frame ∷ [],
        finish_frame-Live n2 n' (fs ++ (frame ∷ [])) frame outs released
            (timer-Live n n1 n2 fs frame id w outs live popped s st) e2,
      )

  pub Grows-trans : (n : H) (fs gs : List Frame) → Grows n (fs ++ gs) → Grows n fs
  Grows-trans n fs gs (hs, live) = (gs ++ hs, subst (L n) (append_assoc fs gs hs) live)
