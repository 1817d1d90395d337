-- ===== src/Runtime/Node/Live/Submits.antt =====
-- Submitting, ticking and fencing: the journal grows, and its replay gives the live state.
use ticktape.Base.{
  ℕ, zero, suc, ◌≡◌, ◌∙◌, sym, ap, subst, List, [], ◌∷◌, ◌++◌, ok, append-nil, Option-cases, inl,
  inr,
}
use ticktape.Base.Result.{Result}
use ticktape.Base.Method.{proceed-eq-ok, returns, ◌>>=◌}
use ticktape.Core.Codec.{Codec}
use ticktape.Core.Codec.Law.{IsCodec}
use ticktape.Core.Frame.{Frame, FrameKind}
use ticktape.Core.Service.{Service}
use ticktape.Runtime.Timer
use ticktape.Runtime.Node.{Node, NodeError, LogOps, finish_frame, fire_due_timers, submit}
use ticktape.Runtime.Node.Firing.{fire_due_timers-idle, fire_due_timers-due}
use ticktape.Runtime.Node.Live.{Holding, IsLog, IsTyped}
use ticktape.Runtime.Node.Live.Frames.{Live, sequence_at-Sequenced}
use ticktape.Runtime.Node.Live.Calls.{Grows, Grows-trans, input-Live, finish_frame-Live, fire-Live}

module _ {Config State Input Output Snapshot Failure Log : Type 0}
    (app : Service Config State Input Output Snapshot Failure) (codec : Codec Input)
    (ops : LogOps Log) (Stores : Holding Log) (config : Config) (law : IsLog ops Stores)
    (typed : IsTyped app) where
  abbrev H : Type 0
  H = Node State Output Log

  abbrev L : H → List Frame → Type 0
  L = Live app codec ops Stores config

  abbrev G : H → List Frame → Type 0
  G = Grows app codec ops Stores config law typed

  pub unchanged : (n : H) (fs : List Frame) → L n fs → G n fs
  unchanged n fs live = ([], subst (L n) (sym (append-nil fs)) live)

  pub after_more :
      (n n' : H) (fs : List Frame) → G n fs → ((gs : List Frame) → L n gs → G n' gs) → G n' fs
  after_more n n' fs (gs, live) k =
      Grows-trans app codec ops Stores config law typed n' fs gs (k (fs ++ gs) live)

  pub fire_due_timers-Grows :
      (fuel : ℕ) (n n' : H) (fs : List Frame) (released : List Output)
      → L n fs
      → fire_due_timers app codec ops fuel n ≡ (ok released, n')
      → G n' fs
  unfolding fire_due_timers
  fire_due_timers-Grows zero n n' fs released live e = cc
  fire_due_timers-Grows (suc fuel) n n' fs released live e =
      elim (Option-cases (Timer.pop_due n.timers n.last_timestamp)) [
        | inl idle ↦
            let stays = sym (fire_due_timers-idle app codec ops fuel n idle) ∙ e in
            subst (λ k. G k fs)
              (ap (λ (x : Result (NodeError Failure) (List Output) × H). x.1) stays)
              (unchanged n fs live)
        | inr ((id, w), due) ↦
            let goes = sym (fire_due_timers-due app codec ops fuel n id w due) ∙ e in
            let (outs, n1, fired, e1) = proceed-eq-ok _ _ goes in
            let (more, n2, rest, e2) = proceed-eq-ok _ _ e1 in
            let last = ap (λ (x : Result (NodeError Failure) (List Output) × H). x.1) e2 in
            after_more n1 n' fs
              (fire-Live app codec ops Stores config law typed n n1 fs id w outs live due fired)
              (λ gs l. subst (λ k. G k gs) last (fire_due_timers-Grows fuel n1 n2 gs more l rest))
      ]

  -- While the journal keeps what it accepts and the input codec keeps the codec laws, a valid input
  -- that was submitted leaves a node whose service, timers and sequenced time are what replaying
  -- its journal from the start gives.
  pub submit-Live :
      {IsInput : Input → Type 0} (coded : IsCodec codec IsInput) (fuel now : ℕ) (input : Input)
      (n n' : H) (fs : List Frame) (answer : ℕ × List Output)
      → IsInput input
      → L n fs
      → submit app codec ops fuel now input n ≡ (ok answer, n')
      → G n' fs
  unfolding submit
  submit-Live coded fuel now input n n' fs answer v live e =
      let (frame, n1, sq, e1) = proceed-eq-ok _ _ e in
      let (outs, n2, st, e2) = proceed-eq-ok _ _ e1 in
      let (released, n3, fin, e3) =
        proceed-eq-ok (finish_frame app codec ops frame outs n2)
          (λ released.
            fire_due_timers app codec ops fuel >>= λ more. returns (frame.seq, released ++ more))
          e2 in
      let (more, n4, fired, e4) =
        proceed-eq-ok (fire_due_timers app codec ops fuel n3)
          (λ more. returns (frame.seq, released ++ more)) e3 in
      let last = ap (λ (x : Result (NodeError Failure) (ℕ × List Output) × H). x.1) e4 in
      let s =
        sequence_at-Sequenced app codec ops Stores config FrameKind.input _ now n n1 frame sq in
      let applied =
        input-Live app codec ops Stores config law typed coded n n1 n2 fs frame input now outs v
          live s st in
      let finished =
        finish_frame-Live app codec ops Stores config law typed n2 n3 (fs ++ (frame ∷ [])) frame
          outs released applied fin in
      after_more n3 n' fs (frame ∷ [], finished)
        (λ gs l. subst (λ k. G k gs) last (fire_due_timers-Grows fuel n3 n4 gs more l fired))
