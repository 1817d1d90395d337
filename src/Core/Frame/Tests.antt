-- ===== src/Core/Frame/Tests.antt =====
-- Runs of frame.rs, after its unit tests.
use ticktape.Base.{ℕ, ◌≡◌, refl, List, [], ◌∷◌, ◌++◌, drop, ok, err, arith}
use ticktape.Core.Bytes.{to_le_bytes, from_le_bytes}
use ticktape.Core.Crc32c.{crc32c_sw}
use ticktape.Core.Frame.{
  Frame, FrameError, input, header, write_to, to_bytes, to_u16, from_u16, read_payload, read_from,
}
use ticktape.Core.Frame.Layout.{IsValid}
use ticktape.Core.Frame.RoundTrip.{read_from-to_bytes}
use ticktape.Core.Frame.Truncation.{read_from_truncated}
use ticktape.Core.Frame.Exact.{read_from-exact}

abbrev sample : Frame
sample = record {
  seq = 42;
  timestamp = 1_700_000_000_000_000_000;
  stream_id = 7;
  kind = input;
  payload = b'h' ∷ b'i' ∷ [];
}

sample-IsValid : IsValid sample
sample-IsValid = omega arith

read_from-to_bytes_example : read_from (to_bytes sample ++ (9 ∷ [])) ≡ ok (sample, 9 ∷ [])
read_from-to_bytes_example = read_from-to_bytes sample sample-IsValid (9 ∷ [])

abbrev sample_head : List ℕ
sample_head =
    42 ∷ 0 ∷ 0 ∷ 0 ∷ 0 ∷ 0 ∷ 0 ∷ 0 ∷ 0 ∷ 0 ∷ 42 ∷ 54 ∷ 254 ∷ 156 ∷ 151 ∷ 23 ∷ 7 ∷ 0 ∷ 1 ∷ 0 ∷ 2 ∷ 0
    ∷ 0 ∷ 0 ∷ 15 ∷ 88 ∷ 244 ∷ 64 ∷ 104 ∷ 105 ∷ 194 ∷ 217 ∷ 157 ∷ []

sample_bytes : to_bytes sample ≡ sample_head ++ (245 ∷ [])
unfolding to_bytes write_to header to_le_bytes to_u16 crc32c_sw
sample_bytes = refl

-- A flipped bit inside the seq is found by the header checksum.
header_corruption : read_from (43 ∷ drop 1 (sample_head ++ (245 ∷ []))) ≡ err FrameError.header_crc
unfolding to_le_bytes from_le_bytes crc32c_sw read_from
header_corruption = refl

read_sample : read_from (sample_head ++ (245 ∷ [])) ≡ ok (sample, [])
unfolding from_le_bytes crc32c_sw read_from read_payload from_u16
read_sample = refl

read_from_truncated_example : read_from sample_head ≡ err FrameError.truncated
read_from_truncated_example =
    read_from_truncated sample 245 sample_head [] sample-IsValid sample_bytes

read_from-exact_example : IsValid sample × (sample_head ++ (245 ∷ []) ≡ to_bytes sample ++ [])
read_from-exact_example =
    read_from-exact (sample_head ++ (245 ∷ [])) sample [] (omega arith) read_sample
