-- ===== src/Core/Codec.antt =====
-- crates/ticktape-core/src/codec.rs: the traits Encode and Decode and their implementations.
-- `encode` appends to the buffer it is given; `decode` returns the value with the bytes that follow
-- it. Integers are natural numbers below 256 ^ size; a String is its bytes.
pub mod Law
pub mod Instances
pub mod Tuples
pub mod Containers
pub mod Utf8
mod Tests
use ticktape.Base.{
  ℕ, zero, suc, ◌+◌, ◌^◌, ◌%◌, Bool, true, false, Option, none, some, List, [], ◌∷◌, ◌++◌, ltb,
  ◌==◌, if◌then◌else◌, length, take, drop, ok, err, ◌>>=◌,
}
use ticktape.Base.Result.{Result}
use ticktape.Core.Bytes.{to_le_bytes, from_le_bytes}
use ticktape.Core.Seq.{Seq, Timestamp}
use Prim.Native.String.{String}
use Utf8.{is_utf8}

pub data CodecError : Type 0 where
  unexpected_eof : CodecError
  invalid_value : String → CodecError
  invalid_utf8 : CodecError
  trailing_bytes : ℕ → CodecError

pub record Codec (A : Type 0) : Type 0 where
  pub encode : A → List ℕ → List ℕ
  pub encoded_len : A → ℕ
  pub decode : List ℕ → Result CodecError (A × List ℕ)

module _ {A : Type 0} (c : Codec A) where
  unfoldable pub encode_to_vec : A → List ℕ
  encode_to_vec a = c.encode a []

  unfoldable pub decode_all : List ℕ → Result CodecError A
  decode_all buf = do
    (value, buf') ← c.decode buf
    if length buf' == 0 then ok value else err (trailing_bytes (length buf'))

-- The first `n` bytes and the rest.
unfoldable pub take_bytes : List ℕ → ℕ → Result CodecError (List ℕ × List ℕ)
take_bytes buf n = if ltb (length buf) n then err unexpected_eof else ok (take n buf, drop n buf)

-- An unsigned integer of `size` bytes.
unfoldable pub int_codec : ℕ → Codec ℕ
int_codec size = record {
  encode = λ v out. out ++ to_le_bytes size v;
  encoded_len = λ v. size;
  decode = λ buf. do
    (bytes, buf') ← take_bytes buf size
    ok (from_le_bytes bytes, buf');
}

abbrev pub u8_codec : Codec ℕ
u8_codec = int_codec 1

abbrev pub u16_codec : Codec ℕ
u16_codec = int_codec 2

abbrev pub u32_codec : Codec ℕ
u32_codec = int_codec 4

abbrev pub u64_codec : Codec ℕ
u64_codec = int_codec 8

-- Seq and Timestamp are encoded as their number.
abbrev pub seq_codec : Codec Seq
seq_codec = u64_codec

abbrev pub timestamp_codec : Codec Timestamp
timestamp_codec = u64_codec

abbrev pub bool_byte : Bool → ℕ
bool_byte false = 0
bool_byte true = 1

pub bool_of_tag : ℕ → List ℕ → Result CodecError (Bool × List ℕ)
bool_of_tag tag buf =
    if tag == 0
    then ok (false, buf)
    else if tag == 1
    then ok (true, buf)
    else err (invalid_value "bool tag")

unfoldable pub bool_codec : Codec Bool
bool_codec = record {
  encode = λ b out. out ++ (bool_byte b ∷ []);
  encoded_len = λ b. 1;
  decode = λ buf. do
    (tag, buf') ← u8_codec.decode buf
    bool_of_tag tag buf';
}

unfoldable pub unit_codec : Codec (Unit {0})
unit_codec = record { encode = λ u out. out; encoded_len = λ u. 0; decode = λ buf. ok (tt, buf) }

-- `len as u32` keeps the low 32 bits.
pub encode_len : ℕ → List ℕ → List ℕ
encode_len len out = u32_codec.encode (len % 2 ^ 32) out

pub decode_len : List ℕ → Result CodecError (ℕ × List ℕ)
decode_len buf = u32_codec.decode buf

unfoldable pub string_codec : Codec (List ℕ)
string_codec = record {
  encode = λ s out. encode_len (length s) out ++ s;
  encoded_len = λ s. 4 + length s;
  decode = λ buf. do
    (len, buf') ← decode_len buf
    (bytes, rest) ← take_bytes buf' len
    if is_utf8 bytes then ok (bytes, rest) else err invalid_utf8;
}

module _ {A : Type 0} (c : Codec A) where
  -- `for item in self { item.encode(out) }`
  pub encode_items : List A → List ℕ → List ℕ
  encode_items [] out = out
  encode_items (x ∷ xs) out = encode_items xs (c.encode x out)

  pub items_len : List A → ℕ
  items_len [] = 0
  items_len (x ∷ xs) = c.encoded_len x + items_len xs

  -- `for _ in 0..len { items.push(T::decode(buf)?) }`
  pub decode_items : ℕ → List A → List ℕ → Result CodecError (List A × List ℕ)
  decode_items zero items buf = ok (items, buf)
  decode_items (suc n) items buf = do
    (x, buf') ← c.decode buf
    decode_items n (items ++ (x ∷ [])) buf'

  unfoldable pub vec_codec : Codec (List A)
  vec_codec = record {
    encode = λ xs out. encode_items xs (encode_len (length xs) out);
    encoded_len = λ xs. 4 + items_len xs;
    decode = λ buf. do
      (len, buf') ← decode_len buf
      decode_items len [] buf';
  }

  pub encode_option : Option A → List ℕ → List ℕ
  encode_option none out = out ++ (0 ∷ [])
  encode_option (some v) out = c.encode v (out ++ (1 ∷ []))

  pub option_len : Option A → ℕ
  option_len none = 1
  option_len (some v) = 1 + c.encoded_len v

  pub decode_some : List ℕ → Result CodecError (Option A × List ℕ)
  decode_some buf = do (v, buf') ← c.decode buf; ok (some v, buf')

  pub option_of_tag : ℕ → List ℕ → Result CodecError (Option A × List ℕ)
  unfolding decode_some
  option_of_tag tag buf =
      if tag == 0
      then ok (none, buf)
      else if tag == 1
      then decode_some buf
      else err (invalid_value "Option tag")

  pub decode_option : List ℕ → Result CodecError (Option A × List ℕ)
  unfolding option_of_tag
  decode_option buf = do (tag, buf') ← u8_codec.decode buf; option_of_tag tag buf'

  unfoldable pub option_codec : Codec (Option A)
  option_codec = record { encode = encode_option; encoded_len = option_len; decode = decode_option }

-- The tuple implementations, field by field in declaration order.
module _ {A B : Type 0} (a : Codec A) (b : Codec B) where
  unfoldable pub tuple2_codec : Codec (A × B)
  tuple2_codec = record {
    encode = λ p out. b.encode p.1 (a.encode p.0 out);
    encoded_len = λ p. a.encoded_len p.0 + b.encoded_len p.1;
    decode = λ buf. do
      (x, buf₁) ← a.decode buf
      (y, buf₂) ← b.decode buf₁
      ok ((x, y), buf₂);
  }

module _ {A B C : Type 0} (a : Codec A) (b : Codec B) (c : Codec C) where
  unfoldable pub tuple3_codec : Codec (A × B × C)
  tuple3_codec = record {
    encode = λ p out. c.encode p.2 (b.encode p.1 (a.encode p.0 out));
    encoded_len = λ p. a.encoded_len p.0 + b.encoded_len p.1 + c.encoded_len p.2;
    decode = λ buf. do
      (x, buf₁) ← a.decode buf
      (y, buf₂) ← b.decode buf₁
      (z, buf₃) ← c.decode buf₂
      ok ((x, y, z), buf₃);
  }
