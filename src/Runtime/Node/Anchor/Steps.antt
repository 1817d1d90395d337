-- ===== src/Runtime/Node/Anchor/Steps.antt =====
-- Replaying behind a snapshot, and the steps of a replay.
use ticktape.Base.{
  ℕ, ◌+◌, ◌<◌, ◌≤◌, ◌≡◌, refl, sym, ap, ◌∙◌, List, [], ◌∷◌, ◌++◌, All, ok, err, leb, true, false,
  ◌>>=◌, arith, Result-cases, inl, inr,
}
use ticktape.Base.Result.{Result}
use ticktape.Core.Codec.{Codec, decode_all, u64_codec}
use ticktape.Core.Frame.{Frame, FrameKind}
use ticktape.Core.Service.{Service, Ctx}
use ticktape.Runtime.Timer
use ticktape.Runtime.Timer.{TimerWheel}
use ticktape.Runtime.Node.{NodeError}
use ticktape.Runtime.Node.Anchor.{replay_after, replay_frame_after}
use ticktape.Runtime.Node.Replay.{
  Rebuilt, replay, replay_frame, replay_kind, replay_step, replayed_step, at_seq, one_input,
}

module _ {Config State Input Output Snapshot Failure : Type 0}
    (app : Service Config State Input Output Snapshot Failure) (codec : Codec Input)
    (snapshots : Codec Snapshot) (config : Config) where
  abbrev pub counted : ℕ → Rebuilt State → Rebuilt State
  counted count r = record r { inputs_replayed = count }

  pub unwrapped :
      {r s : Rebuilt State}
      → ◌≡◌ {A = Result (NodeError Failure) (Rebuilt State)} (ok r) (ok s)
      → r ≡ s
  unwrapped e = cc

  pub bind-ok :
      {A : Type 0} (o : Result (NodeError Failure) A)
      (f : A → Result (NodeError Failure) (Rebuilt State)) (s : Rebuilt State)
      → (o >>= f) ≡ ok s
      → (a : A) × (o ≡ ok a) × (f a ≡ ok s)
  bind-ok (ok a) f s e = (a, refl, e)
  bind-ok (err x) f s e = cc

  -- The count of the replayed inputs matters to nothing else.
  unfoldable pub Counted : Result (NodeError Failure) (Rebuilt State) → Rebuilt State → Type 0
  Counted outcome s = (count : ℕ) × (outcome ≡ ok (counted count s))

  step-Counted :
      (r s : Rebuilt State) (frame : Frame) (result : Result Failure (State × Ctx Output)) (c : ℕ)
      → replayed_step app codec r frame result ≡ ok s
      → Counted (replayed_step app codec (counted c r) frame result) s
  unfolding Counted
  step-Counted r s frame (ok (service, ctx)) c e = (c, ap (λ x. x >>= λ k. ok (counted c k)) e)
  step-Counted r s frame (err x) c e = cc

  bind-Counted :
      {A : Type 0} (o : Result (NodeError Failure) A)
      (f g : A → Result (NodeError Failure) (Rebuilt State)) (s : Rebuilt State)
      → ((a : A) → f a ≡ ok s → Counted (g a) s)
      → (o >>= f) ≡ ok s
      → Counted (o >>= g) s
  unfolding Counted
  bind-Counted (ok a) f g s h e = h a e
  bind-Counted (err x) f g s h e = cc

  kind-Counted :
      (r s : Rebuilt State) (frame : Frame) (c : ℕ) (kind : FrameKind)
      → replay_kind app codec r frame kind ≡ ok s
      → Counted (replay_kind app codec (counted c r) frame kind) s
  unfolding Counted replay_kind replay_step
  kind-Counted r s frame c FrameKind.input e =
      bind-Counted (at_seq frame.seq (decode_all codec frame.payload)) _ _ s
        (λ x made. step-Counted (one_input app codec r) s frame _ (c + 1) made) e
  kind-Counted r s frame c FrameKind.timer_fired e =
      bind-Counted (at_seq frame.seq (decode_all u64_codec frame.payload)) _ _ s
        (λ id made. step-Counted (record r { wheel = Timer.cancel r.wheel id }) s frame _ c made) e
  kind-Counted r s frame c _ e = (c, ap (λ x. x >>= λ k. ok (counted c k)) e)

  pub replay-Counted :
      (r s : Rebuilt State) (frames : List Frame) (c : ℕ)
      → replay app codec r frames ≡ ok s
      → Counted (replay app codec (counted c r) frames) s
  unfolding replay replay_frame Counted
  replay-Counted r s [] c e = (c, ap (λ x. x >>= λ k. ok (counted c k)) e)
  replay-Counted r s (frame ∷ frames) c e =
      let (r', made, rest) = bind-ok (replay_kind app codec r frame frame.kind) _ s e in
      let (count, here) = kind-Counted r r' frame c frame.kind made in
      let (last, done) = replay-Counted r' s frames count rest in
      (last, ap (λ o. o >>= λ k. replay app codec k frames) here ∙ done)

  -- The time after `frames`.
  abbrev pub time_of : ℕ → List Frame → ℕ
  time_of t [] = t
  time_of t (frame ∷ frames) = time_of frame.timestamp frames

  pub replay_after-captured :
      (k : ℕ) (r : Rebuilt State) (frames : List Frame)
      → All (λ f. f.seq ≤ k) frames
      → replay_after app codec snapshots config k r frames
        ≡ ok (record r { last_timestamp = time_of r.last_timestamp frames })
  unfolding replay_after replay_frame_after
  replay_after-captured k r [] h = refl
  replay_after-captured k r (frame ∷ frames) h =
      let old : leb frame.seq k ≡ true = ground (arith, h.0) in
      rw old (replay_after-captured k (record r { last_timestamp = frame.timestamp }) frames h.1)

  pub replay_after-behind :
      (k : ℕ) (r : Rebuilt State) (frames : List Frame)
      → All (λ f. k < f.seq) frames
      → replay_after app codec snapshots config k r frames ≡ replay app codec r frames
  unfolding replay_after replay_frame_after replay
  replay_after-behind k r [] h = refl
  replay_after-behind k r (frame ∷ frames) h =
      let fresh : leb frame.seq k ≡ false = ground (arith, h.0) in
      rw fresh (
        ap (λ g. replay_frame app codec r frame >>= g)
          (λ i. λ r'. replay_after-behind k r' frames h.1 i))

  pub replay_after-append :
      (k : ℕ) (r : Rebuilt State) (fs gs : List Frame)
      → replay_after app codec snapshots config k r (fs ++ gs) ≡ (
          replay_after app codec snapshots config k r fs >>= λ r'.
          replay_after app codec snapshots config k r' gs)
  unfolding replay_after
  replay_after-append k r [] gs = refl
  replay_after-append k r (f ∷ fs) gs =
      elim (Result-cases (replay_frame_after app codec snapshots config k r f)) [
        | inl found ↦ let (r', e) = found in rw e (replay_after-append k r' fs gs)
        | inr lost ↦ let (x, e) = lost in rw e refl
      ]

  step-time :
      (r s : Rebuilt State) (frame : Frame) (result : Result Failure (State × Ctx Output))
      → replayed_step app codec r frame result ≡ ok s
      → s.last_timestamp ≡ frame.timestamp
  step-time r s frame (ok (service, ctx)) e =
      ap (λ (k : Rebuilt State). k.last_timestamp) (sym (unwrapped e))
  step-time r s frame (err x) e = cc

  kind-time :
      (r s : Rebuilt State) (frame : Frame) (kind : FrameKind)
      → replay_kind app codec r frame kind ≡ ok s
      → s.last_timestamp ≡ frame.timestamp
  unfolding replay_kind replay_step
  kind-time r s frame FrameKind.input e =
      let (x, read, made) = bind-ok (at_seq frame.seq (decode_all codec frame.payload)) _ s e in
      step-time (one_input app codec r) s frame _ made
  kind-time r s frame FrameKind.timer_fired e =
      let (id, read, made) =
        bind-ok (at_seq frame.seq (decode_all u64_codec frame.payload)) _ s e in
      step-time (record r { wheel = Timer.cancel r.wheel id }) s frame _ made
  kind-time r s frame _ e = ap (λ (k : Rebuilt State). k.last_timestamp) (sym (unwrapped e))

  pub replay-time :
      (r s : Rebuilt State) (frames : List Frame)
      → replay app codec r frames ≡ ok s
      → s.last_timestamp ≡ time_of r.last_timestamp frames
  unfolding replay replay_frame
  replay-time r s [] e = ap (λ (k : Rebuilt State). k.last_timestamp) (sym (unwrapped e))
  replay-time r s (frame ∷ frames) e =
      let (r', made, rest) = bind-ok (replay_kind app codec r frame frame.kind) _ s e in
      replay-time r' s frames rest
      ∙ ap (λ t. time_of t frames) (kind-time r r' frame frame.kind made)
