-- ===== src/Core/Frame/Truncation.antt =====
-- A frame that is cut short.
use ticktape.Base.{
  ℕ, ◌+◌, ◌<◌, ◌≤◌, ◌≡◌, sym, ap, ◌∙◌, List, [], ◌∷◌, ◌++◌, ltb, length, length-append, take, slice,
  err, arith, append-nil, slice_front, take_front, inl, inr, Bool-cases, lt→ltb, ltb→lt,
  ltb_false→le,
}
use ticktape.Core.Bytes.{from_le_bytes}
use ticktape.Core.Crc32c.{crc32c_sw, crc32c_sw-lt}
use ticktape.Core.Frame.{
  FrameKind, Frame, FrameError, from_u16, header, to_bytes, read_payload, read_from, encoded_len,
}
use ticktape.Core.Frame.Layout.{
  IsValid, from_u16-to_u16, to_u16-lt, framed, to_bytes-framed, framed-header, framed-crc,
  framed-kind, length-to_bytes,
}
use ticktape.Core.Frame.RoundTrip.{read_from-passes, field_read, framed-payload_len}

read_from-short : (buf : List ℕ) → length buf < 28 → read_from buf ≡ err FrameError.truncated
unfolding read_from
read_from-short buf h = rw (lt→ltb (length buf) 28 h)

read_payload-short :
    (buf : List ℕ) (kind : FrameKind) (n : ℕ)
    → length buf < 28 + n + 4
    → read_payload buf kind n ≡ err FrameError.truncated
unfolding read_payload
read_payload-short buf kind n h = rw (lt→ltb (length buf) (28 + n + 4) h)

module _ (f : Frame) (v : IsValid f) (front more : List ℕ) (cut : front ++ more ≡ framed f []) where
  front-slice : (a b : ℕ) → a ≤ b → b ≤ length front → slice a b front ≡ slice a b (framed f [])
  front-slice a b h k = sym (slice_front a b front more h k) ∙ ap (slice a b) cut

  -- The header is whole, and what it announces is not there.
  read_from-cut_payload :
      28 ≤ length front → length front < encoded_len f → read_from front ≡ err FrameError.truncated
  read_from-cut_payload long short =
      read_from-passes front f.kind (length f.payload) long
        (ap crc32c_sw
            (sym (take_front front more 24 (omega arith)) ∙ ap (take 24) cut ∙ framed-header f [])
          ∙ sym (
              field_read 4 _ _ (crc32c_sw-lt (header f))
                (front-slice 24 28 (omega arith) long ∙ framed-crc f [])))
        (ap from_le_bytes (front-slice 20 24 (omega arith) (omega arith))
          ∙ framed-payload_len f v [])
        v.payload_fits
        (ap from_u16 (
            field_read 2 _ _ (to_u16-lt f.kind)
              (front-slice 18 20 (omega arith) (omega arith) ∙ framed-kind f []))
          ∙ from_u16-to_u16 f.kind)
      ∙ read_payload-short front f.kind (length f.payload) (unfold encoded_len in omega arith)

-- Every proper prefix of the bytes of a valid frame reads as truncated, never as a frame or as
-- corrupt.
pub read_from_truncated :
    (f : Frame) (x : ℕ) (front back : List ℕ)
    → IsValid f
    → to_bytes f ≡ front ++ (x ∷ back)
    → read_from front ≡ err FrameError.truncated
read_from_truncated f x front back v e = elim (Bool-cases (ltb (length front) 28)) [
  | inl short ↦ read_from-short front (ltb→lt _ _ short)
  | inr long ↦
      read_from-cut_payload f v front (x ∷ back)
        (sym e ∙ sym (append-nil (to_bytes f)) ∙ to_bytes-framed f []) (ltb_false→le _ _ long)
        (omega (arith, length-append front (x ∷ back), length-to_bytes f, ap length e))
]
