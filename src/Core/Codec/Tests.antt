-- ===== src/Core/Codec/Tests.antt =====
-- Runs of codec.rs, after its unit tests.
use ticktape.Base.{◌≡◌, refl, true, [], ◌∷◌, ok, err, arith}
use ticktape.Core.Bytes.{to_le_bytes, from_le_bytes}
use ticktape.Core.Codec.{
  encode_to_vec, decode_all, take_bytes, int_codec, u8_codec, u16_codec, u32_codec, string_codec,
  vec_codec, tuple2_codec, encode_len, decode_len, decode_items, unexpected_eof, trailing_bytes,
}
use ticktape.Core.Codec.Utf8.{is_utf8}
use ticktape.Core.Codec.Law.{decode_all-encode_to_vec}
use ticktape.Core.Codec.Instances.{int-IsCodec}

-- The wire contract of canonical_bytes_are_stable: 0x0102u16 and "ab".
stable_bytes :
    encode_to_vec (tuple2_codec u16_codec string_codec) (0x0102, b'a' ∷ b'b' ∷ [])
    ≡ 0x02 ∷ 0x01 ∷ 2 ∷ 0 ∷ 0 ∷ 0 ∷ b'a' ∷ b'b' ∷ []
unfolding encode_to_vec tuple2_codec int_codec string_codec encode_len to_le_bytes
stable_bytes = refl

short_u32 : decode_all u32_codec (1 ∷ 2 ∷ 3 ∷ []) ≡ err unexpected_eof
unfolding decode_all int_codec take_bytes
short_u32 = refl

long_u16 : decode_all u16_codec (1 ∷ 2 ∷ 3 ∷ []) ≡ err (trailing_bytes 1)
unfolding decode_all int_codec take_bytes
long_u16 = refl

-- A length prefix of u32::MAX over two bytes ends at once, without a huge allocation.
corrupt_prefix :
    decode_all (vec_codec u8_codec) (0xff ∷ 0xff ∷ 0xff ∷ 0xff ∷ b'a' ∷ b'b' ∷ [])
    ≡ err unexpected_eof
unfolding decode_all vec_codec decode_len int_codec take_bytes decode_items from_le_bytes
corrupt_prefix = refl

utf8_accents : is_utf8 (0x68 ∷ 0xc3 ∷ 0xa9 ∷ []) ≡ true
unfolding is_utf8
utf8_accents = refl

round_trip_300 : decode_all u16_codec (encode_to_vec u16_codec 300) ≡ ok 300
round_trip_300 = decode_all-encode_to_vec (int-IsCodec 2) 300 (omega arith)

decode_300 : decode_all u16_codec (44 ∷ 1 ∷ []) ≡ ok 300
unfolding decode_all int_codec take_bytes from_le_bytes
decode_300 = refl
