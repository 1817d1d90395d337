-- ===== src/Cluster/Epoch.antt =====
-- crates/ticktape-cluster/src/epoch.rs: the fence that a new leader sequences first.
pub mod RoundTrip
mod Tests
use ticktape.Base.{ℕ, Option, List, leb, if◌then◌else◌, length, ok, ◌>>=◌}
use ticktape.Base.Result.{Result}
use ticktape.Core.Codec.{
  CodecError, Codec, u32_codec, u64_codec, tuple2_codec, tuple3_codec, encode_to_vec, decode_all,
}
use ticktape.Core.Frame.{Frame, epoch_change}
use ticktape.Core.Frame

pub record EpochChange : Type 0 where
  pub epoch : ℕ
  -- The seq of the fence itself.
  pub first_seq : ℕ
  pub schema_version : ℕ

abbrev pub fence_codec : Codec (ℕ × ℕ × ℕ)
fence_codec = tuple3_codec u64_codec u64_codec u32_codec

-- The payload that was written before there was a schema version.
abbrev pub legacy_codec : Codec (ℕ × ℕ)
legacy_codec = tuple2_codec u64_codec u64_codec

-- `Frame::new` panics on a payload above the cap: no frame.
pub to_frame : EpochChange → ℕ → ℕ → Option Frame
to_frame e timestamp stream_id =
    Frame.new e.first_seq timestamp stream_id epoch_change
      (encode_to_vec fence_codec (e.epoch, e.first_seq, e.schema_version))

pub fence_of : ℕ × ℕ × ℕ → EpochChange
fence_of p = record { epoch = p.0; first_seq = p.1; schema_version = p.2 }

pub legacy_fence_of : ℕ × ℕ → EpochChange
legacy_fence_of p = record { epoch = p.0; first_seq = p.1; schema_version = 0 }

pub from_frame : Frame → Result CodecError EpochChange
unfolding fence_of legacy_fence_of
from_frame frame =
    if leb 20 (length frame.payload)
    then (decode_all fence_codec frame.payload >>= λ p. ok (fence_of p))
    else (decode_all legacy_codec frame.payload >>= λ p. ok (legacy_fence_of p))
