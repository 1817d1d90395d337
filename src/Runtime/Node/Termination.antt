-- ===== src/Runtime/Node/Termination.antt =====
-- The loop that fires due timers, for a service whose timers come due later.
pub mod OnJournal
mod Tests
use ticktape.Base.{
  ℕ, zero, suc, ◌^◌, ◌+◌, ◌≤◌, ◌<◌, ◌≡◌, ◌∙◌, refl, ap, max, none, List, [], ◌∷◌, ◌++◌, All, ok,
  arith, length, Option-cases, inl, inr,
}
use ticktape.Base.Result.{Result}
use ticktape.Core.Bytes.{IsByte, length-to_le_bytes, to_le_bytes-IsByte}
use ticktape.Core.Codec.{Codec, encode_to_vec, int_codec, u64_codec}
use ticktape.Core.Frame.{Frame, FrameKind, max_payload_len}
use ticktape.Core.Frame.Layout
use ticktape.Core.Frame.Layout.{new-some}
use ticktape.Core.Service.{Service, Ctx, TimerReq}
use ticktape.Runtime.Timer
use ticktape.Runtime.Timer.{TimerWheel}
use ticktape.Runtime.Timer.Wheel.{IsValid, apply-IsValid}
use ticktape.Runtime.Timer.Due.{pop_due-some}
use ticktape.Runtime.Timer.Pending.{due_count, Later, due_count-apply, due_count-pop_due}
use ticktape.Runtime.Node.{
  Node, NodeError, LogOps, staged, stage_frame, sequence_at, run_step, finish_frame, fire,
  fire_due_timers, step_context, apply_ops, route,
}
use ticktape.Runtime.Node.Firing.{fire_due_timers-idle, fire_due_timers-due}

pub apply_ops-IsValid :
    (w : TimerWheel) (reqs : List TimerReq) (seq : ℕ) → IsValid w → IsValid (apply_ops w reqs seq)
unfolding apply_ops
apply_ops-IsValid w [] seq v = v
apply_ops-IsValid w (op ∷ reqs) seq v =
    apply_ops-IsValid (Timer.apply w op seq) reqs seq (apply-IsValid w op seq v)

pub due_count-apply_ops :
    (now : ℕ) (w : TimerWheel) (reqs : List TimerReq) (seq : ℕ)
    → All (Later now) reqs
    → due_count now (apply_ops w reqs seq) ≤ due_count now w
unfolding apply_ops
due_count-apply_ops now w [] seq h = omega arith
due_count-apply_ops now w (op ∷ reqs) seq h = omega (
  arith,
  due_count-apply now seq w op h.0,
  due_count-apply_ops now (Timer.apply w op seq) reqs seq h.1,
)

id_payload-fits : (id : ℕ) → length (encode_to_vec u64_codec id) ≤ max_payload_len
unfolding encode_to_vec int_codec
id_payload-fits id = omega (arith, length-to_le_bytes 8 id)

id_payload-bytes : (id : ℕ) → All IsByte (encode_to_vec u64_codec id)
unfolding encode_to_vec int_codec
id_payload-bytes id = to_le_bytes-IsByte 8 id

-- A service whose timers neither panic nor ask for a timer that is due at once.
pub record IsPatient {Config State Input Output Snapshot Failure : Type 0}
    (app : Service Config State Input Output Snapshot Failure) : Type 0 where
  pub answers :
      (id : ℕ) (s : State) (frame : Frame)
      → (s' : State) × (ctx : Ctx Output) × (app.on_timer id s (step_context frame) ≡ ok (s', ctx))
        × All (Later frame.timestamp) ctx.timers

-- A journal that takes a valid frame, when it is ready for the seq of that frame, and is ready for
-- the next one then.
pub record IsTaking {Log : Type 0} (ops : LogOps Log) (Ready : ℕ → Log → Type 0) : Type 0 where
  pub takes :
      (f : Frame) (log : Log)
      → Layout.IsValid f
      → Ready f.seq log
      → (log' : Log) × (ops.append f log ≡ (ok tt, log')) × Ready (f.seq + 1) log'

-- What the frames of a node need to be valid for `rounds` more of them.
pub record HasRoom {State Output Log : Type 0} (Ready : ℕ → Log → Type 0) (rounds : ℕ)
    (n : Node State Output Log) : Type 0 where
  pub ready : Ready (n.seq + 1) n.log
  pub seq_fits : n.seq + rounds < 256 ^ 8
  pub time_fits : n.last_timestamp < 256 ^ 8
  pub stream_fits : n.stream_id < 256 ^ 2

module _ {Config State Input Output Snapshot Failure Log : Type 0}
    (app : Service Config State Input Output Snapshot Failure) (codec : Codec Input)
    (ops : LogOps Log) (Ready : ℕ → Log → Type 0) (taking : IsTaking ops Ready)
    (patient : IsPatient app) where
  abbrev H : Type 0
  H = Node State Output Log

  abbrev made : H → FrameKind → List ℕ → Frame
  made n kind payload = record {
    seq = n.seq + 1;
    timestamp = n.last_timestamp;
    stream_id = n.stream_id;
    kind = kind;
    payload = payload;
  }

  abbrev after : H → Log → H
  after n log = record n { seq = n.seq + 1; log = log }

  made-IsValid :
      (rounds : ℕ) (kind : FrameKind) (payload : List ℕ) (n : H)
      → HasRoom Ready (suc rounds) n
      → length payload ≤ max_payload_len
      → All IsByte payload
      → Layout.IsValid (made n kind payload)
  made-IsValid rounds kind payload n room fits bytes = record {
    seq_fits = omega (arith, room.seq_fits);
    timestamp_fits = room.time_fits;
    stream_fits = room.stream_fits;
    payload_fits = fits;
    payload_bytes = bytes;
  }

  -- Sequencing at the node's own time.
  sequence_at-after :
      (rounds : ℕ) (kind : FrameKind) (payload : List ℕ) (n : H)
      → HasRoom Ready (suc rounds) n
      → length payload ≤ max_payload_len
      → All IsByte payload
      → (log : Log) × (sequence_at app codec ops kind payload n.last_timestamp n
          ≡ (ok (made n kind payload), after n log))
        × Ready (n.seq + 1 + 1) log
  unfolding sequence_at stage_frame staged
  sequence_at-after rounds kind payload n room fits bytes =
      let frame = made n kind payload in
      let (log, app', ready) =
        taking.takes frame n.log (made-IsValid rounds kind payload n room fits bytes) room.ready in
      let now : max n.last_timestamp n.last_timestamp ≡ n.last_timestamp = omega arith in
      (
        log,
        rw now (
            rw (new-some (n.seq + 1) n.last_timestamp n.stream_id kind payload fits)
              (rw app' refl)),
        ready,
      )

  -- One firing: the time stands still, and no more timers are due than before.
  record Fired (rounds : ℕ) (n : H) (r : Result (NodeError Failure) (List Output) × H)
      : Type 0 where
    outs : List Output
    n' : H
    succeeded : r ≡ (ok outs, n')
    same_time : n'.last_timestamp ≡ n.last_timestamp
    room : HasRoom Ready rounds n'
    valid : IsValid n'.timers
    no_more : due_count n.last_timestamp n'.timers ≤ due_count n.last_timestamp n.timers

  fire-Fired :
      (rounds id : ℕ) (n : H)
      → HasRoom Ready (suc rounds) n
      → IsValid n.timers
      → Fired rounds n (fire app codec ops id n)
  unfolding fire run_step finish_frame encode_to_vec
  fire-Fired rounds id n room v =
      let payload = encode_to_vec u64_codec id in
      let frame = made n FrameKind.timer_fired payload in
      let (log, sq, ready) =
        sequence_at-after rounds FrameKind.timer_fired payload n room (id_payload-fits id)
          (id_payload-bytes id) in
      let (s', ctx, done, later) = patient.answers id n.service frame in
      record {
        outs = (route app codec ops frame ctx.outputs.items n.commit).1;
        n' = record (after n log) {
          service = s';
          timers = apply_ops n.timers ctx.timers frame.seq;
          published = n.published ++ (frame ∷ []);
          commit = (route app codec ops frame ctx.outputs.items n.commit).0;
        };
        succeeded = rw sq (rw done refl);
        same_time = refl;
        room = record {
          ready = ready;
          seq_fits = omega (arith, room.seq_fits);
          time_fits = room.time_fits;
          stream_fits = room.stream_fits;
        };
        valid = apply_ops-IsValid n.timers ctx.timers frame.seq v;
        no_more = due_count-apply_ops n.last_timestamp n.timers ctx.timers frame.seq later;
      }

  fewer_left :
      (fuel : ℕ) (n : H) (w : TimerWheel) (n' : H)
      → n'.last_timestamp ≡ n.last_timestamp
      → due_count n.last_timestamp n'.timers ≤ due_count n.last_timestamp w
      → suc (due_count n.last_timestamp w) ≡ due_count n.last_timestamp n.timers
      → due_count n.last_timestamp n.timers < suc fuel
      → due_count n'.last_timestamp n'.timers < fuel
  fewer_left fuel n w n' same less fewer h =
      omega (arith, ap (λ t. due_count t n'.timers) same, less, fewer, h)

  -- If the handler of the service neither panics nor asks for a timer that is due at once, and the
  -- journal is ready for the next frame and takes valid frames in seq order, the loop that fires
  -- timers returns within one round more than there are due timers, and leaves none due. The seqs
  -- of these rounds, the time and the stream id fit their fields.
  pub fire_due_timers-returns :
      (fuel : ℕ) (n : H)
      → HasRoom Ready fuel n
      → IsValid n.timers
      → due_count n.last_timestamp n.timers < fuel
      → (outs : List Output) × (n' : H) × (fire_due_timers app codec ops fuel n ≡ (ok outs, n'))
        × (Timer.pop_due n'.timers n'.last_timestamp ≡ none)
  fire_due_timers-returns zero n room v h = absurd (omega arith)
  fire_due_timers-returns (suc fuel) n room v h =
      elim (Option-cases (Timer.pop_due n.timers n.last_timestamp)) [
        | inl idle ↦ ([], n, fire_due_timers-idle app codec ops fuel n idle, idle)
        | inr ((id, w), due) ↦
            let fires = pop_due-some n.timers n.last_timestamp v id w due in
            let f =
              fire-Fired fuel id (record n { timers = w })
                (record {
                  ready = room.ready;
                  seq_fits = room.seq_fits;
                  time_fits = room.time_fits;
                  stream_fits = room.stream_fits;
                })
                fires.valid in
            let fewer = due_count-pop_due n.last_timestamp id n.timers w v due in
            let (more, n', rest, done) =
              fire_due_timers-returns fuel f.n' f.room f.valid
                (fewer_left fuel n w f.n' f.same_time f.no_more fewer h) in
            (
              f.outs ++ more,
              n',
              fire_due_timers-due app codec ops fuel n id w due ∙ rw f.succeeded (rw rest refl),
              done,
            )
      ]
