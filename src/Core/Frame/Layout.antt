-- ===== src/Core/Frame/Layout.antt =====
-- Where the fields of a written frame lie.
use ticktape.Base.{
  ℕ, ◌+◌, ◌%◌, ◌^◌, ◌<◌, ◌≤◌, ◌≡◌, refl, ap, ◌∙◌, some, List, ◌++◌, length, length-append, All,
  take, drop, slice, arith, append_assoc,
}
use ticktape.Core.Bytes.{IsByte, to_le_bytes}
use ticktape.Core.Crc32c.{crc32c_sw}
use ticktape.Core.Frame.{
  FrameKind, Frame, to_u16, from_u16, header, new, write_to, to_bytes, encoded_len, max_payload_len,
}

pub record IsValid (f : Frame) : Type 0 where
  pub seq_fits : f.seq < 256 ^ 8
  pub timestamp_fits : f.timestamp < 256 ^ 8
  pub stream_fits : f.stream_id < 256 ^ 2
  pub payload_fits : length f.payload ≤ max_payload_len
  pub payload_bytes : All IsByte f.payload

pub from_u16-to_u16 : (k : FrameKind) → from_u16 (to_u16 k) ≡ some k
unfolding from_u16 to_u16
from_u16-to_u16 FrameKind.input = refl
from_u16-to_u16 _ = refl

pub to_u16-lt : (k : FrameKind) → to_u16 k < 256 ^ 2
unfolding to_u16
to_u16-lt FrameKind.input = omega arith
to_u16-lt _ = omega arith

pub length-header : (f : Frame) → length (header f) ≡ 24
unfolding header to_le_bytes
length-header f = refl

-- `encoded_len` is the number of bytes that `to_bytes` makes.
pub length-to_bytes : (f : Frame) → length (to_bytes f) ≡ encoded_len f
unfolding to_bytes encoded_len header to_le_bytes
length-to_bytes f = omega (arith, length-append f.payload (to_le_bytes 4 (crc32c_sw f.payload)))

-- The frame's bytes in front of `rest`, bracketed to the right.
unfoldable pub framed : Frame → List ℕ → List ℕ
framed f rest =
    header f
    ++ (to_le_bytes 4 (crc32c_sw (header f))
        ++ (f.payload ++ (to_le_bytes 4 (crc32c_sw f.payload) ++ rest)))

pub to_bytes-framed : (f : Frame) (rest : List ℕ) → to_bytes f ++ rest ≡ framed f rest
unfolding to_bytes framed
to_bytes-framed f rest =
    append_assoc (header f) _ rest
    ∙ ap (λ t. header f ++ t)
        (append_assoc (to_le_bytes 4 (crc32c_sw (header f))) _ rest
          ∙ ap (λ t. to_le_bytes 4 (crc32c_sw (header f)) ++ t) (append_assoc f.payload _ rest))

-- A payload within the cap makes a frame.
pub new-some :
    (seq timestamp stream_id : ℕ) (kind : FrameKind) (payload : List ℕ)
    → length payload ≤ max_payload_len
    → new seq timestamp stream_id kind payload
      ≡ some (record {
        seq = seq;
        timestamp = timestamp;
        stream_id = stream_id;
        kind = kind;
        payload = payload;
      })
unfolding new
new-some seq timestamp stream_id kind payload h = ground arith

-- A frame that was made has the arguments as its fields, and its payload is within the cap.
pub new-eq-some :
    (seq timestamp stream_id : ℕ) (kind : FrameKind) (payload : List ℕ) (f : Frame)
    → new seq timestamp stream_id kind payload ≡ some f
    → (f ≡ record {
      seq = seq;
      timestamp = timestamp;
      stream_id = stream_id;
      kind = kind;
      payload = payload;
    })
      × (length payload ≤ max_payload_len)
unfolding new
new-eq-some seq timestamp stream_id kind payload f e = ground arith

-- `write_to` appends.
pub write_to-append : (f : Frame) (out : List ℕ) → write_to f out ≡ out ++ to_bytes f
unfolding to_bytes write_to
write_to-append f out = refl

module _ (f : Frame) (rest : List ℕ) where
  pub framed-header : take 24 (framed f rest) ≡ header f
  unfolding framed header to_le_bytes
  framed-header = refl

  pub framed-crc : slice 24 28 (framed f rest) ≡ to_le_bytes 4 (crc32c_sw (header f))
  unfolding framed header to_le_bytes
  framed-crc = refl

  pub framed-len : slice 20 24 (framed f rest) ≡ to_le_bytes 4 (length f.payload % 2 ^ 32)
  unfolding framed header to_le_bytes
  framed-len = refl

  pub framed-kind : slice 18 20 (framed f rest) ≡ to_le_bytes 2 (to_u16 f.kind)
  unfolding framed header to_le_bytes
  framed-kind = refl

  pub framed-stream : slice 16 18 (framed f rest) ≡ to_le_bytes 2 f.stream_id
  unfolding framed header to_le_bytes
  framed-stream = refl

  pub framed-timestamp : slice 8 16 (framed f rest) ≡ to_le_bytes 8 f.timestamp
  unfolding framed header to_le_bytes
  framed-timestamp = refl

  pub framed-seq : slice 0 8 (framed f rest) ≡ to_le_bytes 8 f.seq
  unfolding framed header to_le_bytes
  framed-seq = refl

  pub framed-tail :
      drop 28 (framed f rest) ≡ f.payload ++ (to_le_bytes 4 (crc32c_sw f.payload) ++ rest)
  unfolding framed header to_le_bytes
  framed-tail = refl

  pub length-framed : length (framed f rest) ≡ encoded_len f + length rest
  unfolding framed header to_le_bytes encoded_len
  length-framed =
      omega (arith, length-append f.payload (to_le_bytes 4 (crc32c_sw f.payload) ++ rest))
