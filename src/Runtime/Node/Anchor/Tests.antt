-- ===== src/Runtime/Node/Anchor/Tests.antt =====
-- A snapshot behind the first of two frames.
use ticktape.Base.{ℕ, ◌+◌, ◌≡◌, refl, ap, ◌>>=◌, [], ◌∷◌, ok, arith}
use ticktape.Core.Bytes.{to_le_bytes, from_le_bytes}
use ticktape.Core.Codec.{u64_codec, encode_to_vec, decode_all, int_codec, take_bytes}
use ticktape.Core.Codec.Instances.{int-IsCodec}
use ticktape.Core.Frame.{Frame, FrameKind}
use ticktape.Core.Service.{Service}
use ticktape.Journal.Snapshots.{LoadedSnapshot}
use ticktape.Runtime.Timer
use ticktape.Runtime.Timer.Wheel.{new-IsValid}
use ticktape.Base.Result.{Result}
use ticktape.Runtime.Node.{NodeError}
use ticktape.Runtime.Node.Replay.{Rebuilt, replay, at_genesis}
use ticktape.Runtime.Node.Anchor.{
  rebuild, payload_codec, SameState, anchor_or_genesis, replay_after,
}
use ticktape.Runtime.Node.Anchor.Rebuilds.{rebuild-SameState, WheelFits, find_anchor-taken}

-- An input is added to the state.
abbrev adding : Service (Unit {0}) ℕ ℕ ℕ ℕ (Unit {0})
adding = record {
  schema_version = 0;
  genesis = λ config. 0;
  apply = λ seq x s ctx. ok (s + x, ctx);
  on_timer = λ id s ctx. ok (s, ctx);
  snapshot = λ s. s;
  restore = λ s config. s;
}

abbrev input_at : ℕ → ℕ → Frame
input_at n x = record {
  seq = n;
  timestamp = 10 + n;
  stream_id = 1;
  kind = FrameKind.input;
  payload = encode_to_vec u64_codec x;
}

abbrev state_at : ℕ → ℕ → Rebuilt ℕ
state_at n total = record {
  service = total;
  wheel = Timer.new;
  last_timestamp = 10 + n;
  inputs_replayed = n;
}

abbrev at_one : LoadedSnapshot
at_one = record {
  seq = 1;
  epoch = 0;
  payload = encode_to_vec (payload_codec u64_codec) (5, Timer.snapshot Timer.new);
}

replays_one :
    replay adding u64_codec (at_genesis adding u64_codec tt) (input_at 1 5 ∷ []) ≡ ok (state_at 1 5)
unfolding replay encode_to_vec decode_all int_codec take_bytes to_le_bytes from_le_bytes
replays_one = refl

replays_two :
    replay adding u64_codec (at_genesis adding u64_codec tt) (input_at 1 5 ∷ input_at 2 3 ∷ [])
    ≡ ok (state_at 2 8)
unfolding replay encode_to_vec decode_all int_codec take_bytes to_le_bytes from_le_bytes
replays_two = refl

new-WheelFits : WheelFits Timer.new
unfolding Timer.new Timer.snapshot
new-WheelFits = (omega arith, tt)

rebuild-SameState_example :
    (r' : Rebuilt ℕ) × (rebuild adding u64_codec u64_codec tt 1
        (at_one ∷ [])
        (input_at 1 5 ∷ input_at 2 3 ∷ [])
      ≡ ok r')
    × SameState adding u64_codec u64_codec tt r' (state_at 2 8)
rebuild-SameState_example =
    rebuild-SameState adding u64_codec u64_codec tt (int-IsCodec 8) (state_at 1 5) at_one refl
      (omega arith, new-WheelFits) new-IsValid refl [] (input_at 1 5 ∷ []) (input_at 2 3 ∷ [])
      (state_at 2 8) [] 1 replays_one (omega arith) (omega arith, tt) (omega arith, tt)
      (omega arith) replays_two

-- The journal lost every frame, the snapshot at time 11 is there: the sequenced time starts over.
time_after_loss :
    ◌≡◌ {A = Result (NodeError (Unit {0})) (Rebuilt ℕ)}
      (rebuild adding u64_codec u64_codec tt 1 (at_one ∷ []) [])
      (ok (record { service = 5; wheel = Timer.new; last_timestamp = 0; inputs_replayed = 0 }))
unfolding rebuild anchor_or_genesis replay_after
time_after_loss =
    ap
      (λ a. anchor_or_genesis adding u64_codec u64_codec tt 1 a >>= λ anchor.
        replay_after adding u64_codec u64_codec tt anchor.from_seq
          (record {
            service = anchor.service;
            wheel = anchor.wheel;
            last_timestamp = 0;
            inputs_replayed = 0;
          })
          [])
      (find_anchor-taken adding u64_codec u64_codec tt (int-IsCodec 8) (state_at 1 5) at_one refl
        (omega arith, new-WheelFits) new-IsValid refl 1 [] (omega arith))
