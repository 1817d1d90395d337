-- ===== src/Core/Frame/Exact.antt =====
-- What `read_from` accepts.
use ticktape.Base.{
  ℕ, ◌+◌, ◌-◌, ◌%◌, ◌^◌, ◌<◌, ◌≤◌, ◌≡◌, refl, sym, ap, subst, ◌∙◌, some, List, ◌++◌, length, All,
  take, drop, slice, ok, arith, take_append, length-slice, length-drop, slice-append-drop,
  All-slice, ap₂,
}
use native.Mathlib.Nat.{mod-eq_of_lt}
use ticktape.Core.Bytes.{
  IsByte, to_le_bytes, from_le_bytes, to_le_bytes-from_le_bytes, from_le_bytes-lt,
}
use ticktape.Core.Crc32c.{crc32c_sw}
use ticktape.Core.Frame.{
  FrameKind, Frame, to_u16, from_u16, header, to_bytes, read_payload, read_from, max_payload_len,
}
use ticktape.Core.Frame.Layout.{IsValid, framed, to_bytes-framed, length-header}

from_u16-exact : (v : ℕ) (k : FrameKind) → from_u16 v ≡ some k → to_u16 k ≡ v
unfolding from_u16 to_u16
from_u16-exact v k e = ground arith

-- The guards that an accepted frame has passed, and its fields.
record Accepted (buf : List ℕ) (f : Frame) (rest : List ℕ) : Type 0 where
  header_crc : crc32c_sw (take 24 buf) ≡ from_le_bytes (slice 24 28 buf)
  len : ℕ
  len_field : from_le_bytes (slice 20 24 buf) ≡ len
  fits : len ≤ max_payload_len
  kind_field : from_u16 (from_le_bytes (slice 18 20 buf)) ≡ some f.kind
  whole : 28 + len + 4 ≤ length buf
  seq_field : from_le_bytes (slice 0 8 buf) ≡ f.seq
  timestamp_field : from_le_bytes (slice 8 16 buf) ≡ f.timestamp
  stream_field : from_le_bytes (slice 16 18 buf) ≡ f.stream_id
  payload_field : slice 28 (28 + len) buf ≡ f.payload
  payload_crc : crc32c_sw f.payload ≡ from_le_bytes (slice (28 + len + 4 - 4) (28 + len + 4) buf)
  behind : drop (28 + len + 4) buf ≡ rest

header-Accepted :
    (buf : List ℕ) (out : Frame × List ℕ)
    → read_from buf ≡ ok out
    → (kind : FrameKind) × (crc32c_sw (take 24 buf) ≡ from_le_bytes (slice 24 28 buf))
      × (from_le_bytes (slice 20 24 buf) ≤ max_payload_len)
      × (from_u16 (from_le_bytes (slice 18 20 buf)) ≡ some kind)
      × (read_payload buf kind (from_le_bytes (slice 20 24 buf)) ≡ ok out)
unfolding read_from
header-Accepted buf out e = ground arith

payload-Accepted :
    (buf : List ℕ) (kind : FrameKind) (n : ℕ) (f : Frame) (rest : List ℕ)
    → crc32c_sw (take 24 buf) ≡ from_le_bytes (slice 24 28 buf)
    → from_le_bytes (slice 20 24 buf) ≡ n
    → n ≤ max_payload_len
    → from_u16 (from_le_bytes (slice 18 20 buf)) ≡ some kind
    → read_payload buf kind n ≡ ok (f, rest)
    → Accepted buf f rest
unfolding read_payload
payload-Accepted buf kind n f rest c l m k e = record {
  header_crc = c;
  len = n;
  len_field = l;
  fits = m;
  kind_field = ground arith;
  whole = ground arith;
  seq_field = ground arith;
  timestamp_field = ground arith;
  stream_field = ground arith;
  payload_field = ground arith;
  payload_crc = ground arith;
  behind = ground arith;
}

field_exact :
    (w a b v : ℕ) (buf : List ℕ)
    → All IsByte buf
    → a + w ≡ b
    → b ≤ length buf
    → from_le_bytes (slice a b buf) ≡ v
    → (slice a b buf ≡ to_le_bytes w v) × (v < 256 ^ w)
field_exact w a b v buf h e long val =
    let bytes = All-slice IsByte a b buf h in
    let len : length (slice a b buf) ≡ w = omega (arith, length-slice a b buf (omega arith) long) in
    (
      sym (to_le_bytes-from_le_bytes (slice a b buf) bytes) ∙ ap₂ to_le_bytes len val,
      subst (λ n. v < 256 ^ n) len
          (subst (λ u. u < 256 ^ length (slice a b buf)) val
            (from_le_bytes-lt (slice a b buf) bytes)),
    )

-- Two pieces next to each other, replaced by what they are.
piece :
    {front back : List ℕ} (a b : ℕ) (buf : List ℕ)
    → a ≤ b
    → slice a b buf ≡ front
    → drop b buf ≡ back
    → drop a buf ≡ front ++ back
piece a b buf h e r = slice-append-drop a b buf h ∙ ap₂ (λ x y. x ++ y) e r

module _ (buf : List ℕ) (f : Frame) (rest : List ℕ) (bytes : All IsByte buf)
    (a : Accepted buf f rest) where
  payload_len : length f.payload ≡ a.len
  payload_len =
      sym (ap length a.payload_field)
      ∙ omega (arith, length-slice 28 (28 + a.len) buf (omega arith) (omega (arith, a.whole)))

  Accepted-IsValid : IsValid f
  Accepted-IsValid = record {
    seq_fits = (field_exact 8 0 8 f.seq buf bytes refl (omega (arith, a.whole)) a.seq_field).1;
    timestamp_fits =
        (field_exact 8 8 16 f.timestamp buf bytes refl (omega (arith, a.whole))
          a.timestamp_field).1;
    stream_fits =
        (field_exact 2 16 18 f.stream_id buf bytes refl (omega (arith, a.whole)) a.stream_field).1;
    payload_fits = omega (arith, payload_len, a.fits);
    payload_bytes = subst (All IsByte) a.payload_field (All-slice IsByte 28 (28 + a.len) buf bytes);
  }

  len_bytes : slice 20 24 buf ≡ to_le_bytes 4 (length f.payload % 2 ^ 32)
  len_bytes =
      (field_exact 4 20 24 a.len buf bytes refl (omega (arith, a.whole)) a.len_field).0
      ∙ ap (to_le_bytes 4)
          (sym payload_len ∙ sym (mod-eq_of_lt (omega (arith, payload_len, a.fits))))

  kind_bytes : slice 18 20 buf ≡ to_le_bytes 2 (to_u16 f.kind)
  kind_bytes =
      (field_exact 2 18 20 (to_u16 f.kind) buf bytes refl (omega (arith, a.whole))
        (sym (from_u16-exact _ f.kind a.kind_field))).0

  -- The five fields of the header stand at the front, one after the other.
  header_front : drop 0 buf ≡ header f ++ drop 24 buf
  unfolding header to_le_bytes
  header_front =
      piece 0 8 buf (omega arith)
        (field_exact 8 0 8 f.seq buf bytes refl (omega (arith, a.whole)) a.seq_field).0
        (piece 8 16 buf (omega arith)
          (field_exact 8 8 16 f.timestamp buf bytes refl (omega (arith, a.whole))
            a.timestamp_field).0
          (piece 16 18 buf (omega arith)
            (field_exact 2 16 18 f.stream_id buf bytes refl (omega (arith, a.whole))
              a.stream_field).0
            (piece 18 20 buf (omega arith) kind_bytes
              (piece 20 24 buf (omega arith) len_bytes refl))))

  header_bytes : take 24 buf ≡ header f
  header_bytes =
      ap (take 24) header_front ∙ take_append (header f) (drop 24 buf) 24 (sym (length-header f))

  Accepted-framed : buf ≡ framed f rest
  unfolding framed
  Accepted-framed =
      header_front
      ∙ ap (λ t. header f ++ t)
          (piece 24 28 buf (omega arith)
            (field_exact 4 24 28 (crc32c_sw (header f)) buf bytes refl (omega (arith, a.whole))
              (sym a.header_crc ∙ ap crc32c_sw header_bytes)).0
            (piece 28 (28 + a.len) buf (omega arith) a.payload_field (
              piece (28 + a.len) (28 + a.len + 4) buf (omega arith)
                (field_exact 4 (28 + a.len) (28 + a.len + 4) (crc32c_sw f.payload) buf bytes refl
                  a.whole
                  (sym (
                    a.payload_crc
                    ∙ ap (λ k. from_le_bytes (slice k (28 + a.len + 4) buf)) (omega arith)))).0
                a.behind)))

-- Every frame that is read from a byte buffer is valid, and the buffer is its encoding followed by
-- the rest: no other bytes are accepted for it.
pub read_from-exact :
    (buf : List ℕ) (f : Frame) (rest : List ℕ)
    → All IsByte buf
    → read_from buf ≡ ok (f, rest)
    → IsValid f × (buf ≡ to_bytes f ++ rest)
read_from-exact buf f rest bytes e =
    let (kind, crc, fits, k, more) = header-Accepted buf (f, rest) e in
    let a = payload-Accepted buf kind _ f rest crc refl fits k more in
    (
      Accepted-IsValid buf f rest bytes a,
      Accepted-framed buf f rest bytes a ∙ sym (to_bytes-framed f rest),
    )

-- A frame that is read uses up bytes.
pub read_from-shorter :
    (buf : List ℕ) (f : Frame) (rest : List ℕ)
    → read_from buf ≡ ok (f, rest)
    → length rest + 32 ≤ length buf
read_from-shorter buf f rest e =
    let (kind, crc, fits, k, more) = header-Accepted buf (f, rest) e in
    let a = payload-Accepted buf kind _ f rest crc refl fits k more in
    omega (arith, a.whole, ap length a.behind, length-drop (28 + a.len + 4) buf)
