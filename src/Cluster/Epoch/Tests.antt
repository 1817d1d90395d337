-- ===== src/Cluster/Epoch/Tests.antt =====
-- Runs of epoch.rs.
use ticktape.Base.{◌≡◌, refl, some, [], ◌∷◌, ◌++◌, ok, arith}
use ticktape.Core.Bytes.{from_le_bytes}
use ticktape.Core.Codec.{decode_all, int_codec, tuple2_codec, tuple3_codec, take_bytes}
use ticktape.Core.Frame.{Frame, epoch_change, to_bytes, read_from}
use ticktape.Cluster.Epoch.{EpochChange, to_frame, from_frame, fence_of, legacy_fence_of}
use ticktape.Cluster.Epoch.RoundTrip.{IsPayloadOf, fence-read_from, from_frame-exact}

abbrev fence : EpochChange
fence = record { epoch = 3; first_seq = 41; schema_version = 2 }

fence-read_from_example :
    (f : Frame) × (to_frame fence 1000 7 ≡ some f)
    × (read_from (to_bytes f ++ (0 ∷ [])) ≡ ok (f, 0 ∷ []))
    × (from_frame f ≡ ok fence)
fence-read_from_example =
    fence-read_from fence 1000 7 (0 ∷ []) (omega arith) (omega arith) (omega arith)

-- A fence that was written before there were schema versions.
abbrev old_frame : Frame
old_frame = record {
  seq = 41;
  timestamp = 1000;
  stream_id = 7;
  kind = epoch_change;
  payload = 3 ∷ 0 ∷ 0 ∷ 0 ∷ 0 ∷ 0 ∷ 0 ∷ 0 ∷ 41 ∷ 0 ∷ 0 ∷ 0 ∷ 0 ∷ 0 ∷ 0 ∷ 0 ∷ [];
}

abbrev old_fence : EpochChange
old_fence = record { epoch = 3; first_seq = 41; schema_version = 0 }

read_old_fence : from_frame old_frame ≡ ok old_fence
unfolding from_frame fence_of legacy_fence_of decode_all int_codec tuple2_codec tuple3_codec
    take_bytes from_le_bytes
read_old_fence = refl

from_frame-exact_example : IsPayloadOf old_fence old_frame.payload
from_frame-exact_example = from_frame-exact old_frame old_fence (omega arith) read_old_fence
