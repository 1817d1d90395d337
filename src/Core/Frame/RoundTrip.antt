-- ===== src/Core/Frame/RoundTrip.antt =====
-- Reading back a written frame.
use ticktape.Base.{
  ℕ, ◌+◌, ◌-◌, ◌^◌, ◌<◌, ◌≤◌, ◌≡◌, refl, sym, ap, ◌∙◌, some, List, ◌++◌, length, take, drop, slice,
  ok, arith, take_append, drop_append, drop-drop,
}
use native.Mathlib.Nat.{mod-eq_of_lt}
use ticktape.Core.Bytes.{to_le_bytes, from_le_bytes, from_le_bytes-to_le_bytes, length-to_le_bytes}
use ticktape.Core.Crc32c.{crc32c_sw, crc32c_sw-lt}
use ticktape.Core.Frame.{
  FrameKind, Frame, from_u16, header, to_bytes, read_payload, read_from, encoded_len,
  max_payload_len,
}
use ticktape.Core.Frame.Layout.{
  IsValid, from_u16-to_u16, to_u16-lt, framed, to_bytes-framed, framed-header, framed-crc,
  framed-len, framed-kind, framed-stream, framed-timestamp, framed-seq, framed-tail, length-framed,
}

-- What lies behind the header of a buffer: a payload, four bytes and the rest.
record HasTail (buf payload crc rest : List ℕ) : Type 0 where
  tail : drop 28 buf ≡ payload ++ (crc ++ rest)
  four : length crc ≡ 4

module _ {buf payload crc rest : List ℕ} (t : HasTail buf payload crc rest) (n : ℕ)
    (e : n ≡ length payload) where
  behind_payload : (k : ℕ) → k ≡ 28 + n → drop k buf ≡ crc ++ rest
  behind_payload k ek =
      drop-drop 28 n k buf ek ∙ ap (drop n) t.tail ∙ drop_append payload (crc ++ rest) n e

  slice-payload : slice 28 (28 + n) buf ≡ payload
  slice-payload =
      ap (take (28 + n - 28)) t.tail ∙ take_append payload (crc ++ rest) (28 + n - 28) (omega arith)

  slice-crc : slice (28 + n + 4 - 4) (28 + n + 4) buf ≡ crc
  slice-crc =
      ap (take (28 + n + 4 - (28 + n + 4 - 4))) (behind_payload _ (omega arith))
      ∙ take_append crc rest _ (omega (arith, t.four))

  drop-total : drop (28 + n + 4) buf ≡ rest
  drop-total =
      drop-drop (28 + n) 4 (28 + n + 4) buf refl
      ∙ ap (drop 4) (behind_payload _ refl)
      ∙ drop_append crc rest 4 (sym t.four)

-- The guards of `read_from`, passed one by one.
pub read_from-passes :
    (buf : List ℕ) (kind : FrameKind) (n : ℕ)
    → 28 ≤ length buf
    → crc32c_sw (take 24 buf) ≡ from_le_bytes (slice 24 28 buf)
    → from_le_bytes (slice 20 24 buf) ≡ n
    → n ≤ max_payload_len
    → from_u16 (from_le_bytes (slice 18 20 buf)) ≡ some kind
    → read_from buf ≡ read_payload buf kind n
unfolding read_from
read_from-passes buf kind n long crc len fits k = ground arith

read_payload-passes :
    (buf payload rest : List ℕ) (kind : FrameKind) (n : ℕ)
    → 28 + n + 4 ≤ length buf
    → slice 28 (28 + n) buf ≡ payload
    → crc32c_sw payload ≡ from_le_bytes (slice (28 + n + 4 - 4) (28 + n + 4) buf)
    → drop (28 + n + 4) buf ≡ rest
    → read_payload buf kind n
      ≡ ok (
        record {
          seq = from_le_bytes (slice 0 8 buf);
          timestamp = from_le_bytes (slice 8 16 buf);
          stream_id = from_le_bytes (slice 16 18 buf);
          kind = kind;
          payload = payload;
        },
        rest,
      )
unfolding read_payload
read_payload-passes buf payload rest kind n long p crc r = ground arith

-- A number written by `to_le_bytes` and found again in a slice.
pub field_read : (w v : ℕ) (bs : List ℕ) → v < 256 ^ w → bs ≡ to_le_bytes w v → from_le_bytes bs ≡ v
field_read w v bs h e = ap from_le_bytes e ∙ from_le_bytes-to_le_bytes w v h

module _ (f : Frame) (v : IsValid f) (rest : List ℕ) where
  framed-HasTail : HasTail (framed f rest) f.payload (to_le_bytes 4 (crc32c_sw f.payload)) rest
  framed-HasTail = record { tail = framed-tail f rest; four = length-to_le_bytes 4 _ }

  pub framed-payload_len : from_le_bytes (slice 20 24 (framed f rest)) ≡ length f.payload
  framed-payload_len =
      field_read 4 (length f.payload) _ (omega (arith, v.payload_fits))
        (framed-len f rest ∙ ap (to_le_bytes 4) (mod-eq_of_lt (omega (arith, v.payload_fits))))

  read_payload-framed : read_payload (framed f rest) f.kind (length f.payload) ≡ ok (f, rest)
  read_payload-framed =
      let t = framed-HasTail in
      let n = length f.payload in
      read_payload-passes (framed f rest) f.payload rest f.kind n
        (unfold encoded_len in omega (arith, length-framed f rest)) (slice-payload t n refl)
        (sym (field_read 4 _ _ (crc32c_sw-lt f.payload) (slice-crc t n refl))) (drop-total t n refl)
      ∙ λ i. ok (
        record f {
          seq = field_read 8 f.seq _ v.seq_fits (framed-seq f rest) i;
          timestamp = field_read 8 f.timestamp _ v.timestamp_fits (framed-timestamp f rest) i;
          stream_id = field_read 2 f.stream_id _ v.stream_fits (framed-stream f rest) i;
        },
        rest,
      )

  -- Reading the bytes of a valid frame, followed by anything, returns that frame and leaves what
  -- follows.
  pub read_from-to_bytes : read_from (to_bytes f ++ rest) ≡ ok (f, rest)
  read_from-to_bytes =
      ap read_from (to_bytes-framed f rest)
      ∙ read_from-passes (framed f rest) f.kind (length f.payload)
          (unfold encoded_len in omega (arith, length-framed f rest))
          (ap crc32c_sw (framed-header f rest)
            ∙ sym (field_read 4 _ _ (crc32c_sw-lt (header f)) (framed-crc f rest)))
          framed-payload_len v.payload_fits
          (ap from_u16 (field_read 2 _ _ (to_u16-lt f.kind) (framed-kind f rest))
            ∙ from_u16-to_u16 f.kind)
      ∙ read_payload-framed
