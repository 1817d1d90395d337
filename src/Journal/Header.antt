-- ===== src/Journal/Header.antt =====
-- The header of a segment, written and parsed.
use ticktape.Base.{
  ℕ, ◌^◌, ◌<◌, ◌≤◌, ◌≡◌, refl, ap, ◌∙◌, sym, true, List, ◌++◌, length, length-append, drop, slice,
  ok, arith,
}
use ticktape.Core.Bytes.{to_le_bytes, from_le_bytes}
use ticktape.Core.Crc32c.{crc32c_sw, crc32c_sw-lt}
use ticktape.Core.Frame.RoundTrip.{field_read}
use ticktape.Transport.Wire.{eq_bytes}
use ticktape.Journal.{header_fields, segment_header_bytes, segment_magic, parse_segment_header}

pub length-segment_header_bytes : (n e : ℕ) → length (segment_header_bytes n e) ≡ 28
unfolding segment_header_bytes header_fields to_le_bytes
length-segment_header_bytes n e = refl

module _ (n e : ℕ) (rest : List ℕ) where
  headed-fields : slice 0 24 (segment_header_bytes n e ++ rest) ≡ header_fields n e
  unfolding segment_header_bytes header_fields to_le_bytes
  headed-fields = refl

  headed-version : from_le_bytes (slice 4 8 (segment_header_bytes n e ++ rest)) ≡ 1
  unfolding segment_header_bytes header_fields to_le_bytes from_le_bytes
  headed-version = refl

  headed-magic : eq_bytes (slice 0 4 (segment_header_bytes n e ++ rest)) segment_magic ≡ true
  unfolding segment_header_bytes header_fields to_le_bytes
  headed-magic = refl

  headed-crc :
      slice 24 28 (segment_header_bytes n e ++ rest) ≡ to_le_bytes 4 (crc32c_sw (header_fields n e))
  unfolding segment_header_bytes header_fields to_le_bytes
  headed-crc = refl

  headed-first : slice 8 16 (segment_header_bytes n e ++ rest) ≡ to_le_bytes 8 n
  unfolding segment_header_bytes header_fields to_le_bytes
  headed-first = refl

  headed-epoch : slice 16 24 (segment_header_bytes n e ++ rest) ≡ to_le_bytes 8 e
  unfolding segment_header_bytes header_fields to_le_bytes
  headed-epoch = refl

  pub headed-rest : drop 28 (segment_header_bytes n e ++ rest) ≡ rest
  unfolding segment_header_bytes header_fields to_le_bytes
  headed-rest = refl

parse_segment_header-passes :
    (path n e : ℕ) (bytes : List ℕ)
    → 28 ≤ length bytes
    → eq_bytes (slice 0 4 bytes) segment_magic ≡ true
    → from_le_bytes (slice 4 8 bytes) ≡ 1
    → crc32c_sw (slice 0 24 bytes) ≡ from_le_bytes (slice 24 28 bytes)
    → from_le_bytes (slice 8 16 bytes) ≡ n
    → from_le_bytes (slice 16 24 bytes) ≡ e
    → parse_segment_header path bytes ≡ ok (record { first_seq = n; epoch = e })
unfolding parse_segment_header
parse_segment_header-passes path n e bytes long m v c f g = ground arith

-- The header of a segment, followed by anything, is parsed to its seq and epoch.
pub parse_segment_header-segment_header_bytes :
    (path n e : ℕ) (rest : List ℕ)
    → n < 256 ^ 8
    → e < 256 ^ 8
    → parse_segment_header path (segment_header_bytes n e ++ rest)
      ≡ ok (record { first_seq = n; epoch = e })
parse_segment_header-segment_header_bytes path n e rest hn he =
    parse_segment_header-passes path n e (segment_header_bytes n e ++ rest)
      (omega
        (arith, length-append (segment_header_bytes n e) rest, length-segment_header_bytes n e))
      (headed-magic n e rest) (headed-version n e rest)
      (ap crc32c_sw (headed-fields n e rest)
        ∙ sym (field_read 4 _ _ (crc32c_sw-lt (header_fields n e)) (headed-crc n e rest)))
      (field_read 8 n _ hn (headed-first n e rest)) (field_read 8 e _ he (headed-epoch n e rest))
