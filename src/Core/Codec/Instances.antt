-- ===== src/Core/Codec/Instances.antt =====
-- The implementations of Encode and Decode keep the codec laws.
use ticktape.Base.{
  ℕ, ◌%◌, ◌^◌, ◌<◌, ◌≡◌, refl, sym, ap, subst, ◌∙◌, Bool, true, false, List, [], ◌∷◌, ◌++◌, length,
  All, ok, arith, append-nil, >>=-eq-ok_pair, All-append_left,
}
use native.Mathlib.Nat.{mod-eq_of_lt}
use ticktape.Core.Bytes.{
  IsByte, to_le_bytes, from_le_bytes, length-to_le_bytes, to_le_bytes-IsByte,
  from_le_bytes-to_le_bytes, from_le_bytes-lt, to_le_bytes-from_le_bytes,
}
use ticktape.Core.Codec.{
  int_codec, u8_codec, u32_codec, bool_codec, bool_of_tag, bool_byte, unit_codec, take_bytes,
  encode_len, decode_len,
}
use ticktape.Core.Codec.Law.{IsCodec, take_bytes-append, take_bytes-exact}

abbrev pub FitsBytes : ℕ → ℕ → Type 0
FitsBytes size v = v < 256 ^ size

int-exact :
    (size v : ℕ) (buf rest : List ℕ)
    → All IsByte buf
    → (int_codec size).decode buf ≡ ok (v, rest)
    → FitsBytes size v × (buf ≡ to_le_bytes size v ++ rest)
unfolding int_codec
int-exact size v buf rest h e =
    let (bs, r, read, done) = >>=-eq-ok_pair (take_bytes buf size) _ e in
    let (n, split) = take_bytes-exact buf bs r size read in
    let byte : All IsByte bs = All-append_left IsByte bs r (subst (All IsByte) split h) in
    let val : from_le_bytes bs ≡ v = ground arith in
    let tail : r ≡ rest = ground arith in
    (
      rw (← val, n) (from_le_bytes-lt bs byte),
      rw (← val, ← tail, n, to_le_bytes-from_le_bytes bs byte) split,
    )

-- The codec of an unsigned integer of any number of bytes keeps the codec laws for the numbers that
-- fit it.
pub int-IsCodec : (size : ℕ) → IsCodec (int_codec size) (FitsBytes size)
unfolding int_codec
int-IsCodec size = record {
  appends = λ v out. refl;
  bytes = λ v h. to_le_bytes-IsByte size v;
  len = λ v h. length-to_le_bytes size v;
  reads = λ v rest h.
      rw (take_bytes-append (to_le_bytes size v) rest size (sym (length-to_le_bytes size v)))
        (rw (from_le_bytes-to_le_bytes size v h));
  exact = λ v buf rest h e. int-exact size v buf rest h e;
}

-- A tag byte, as the tests on it meet it.
pub u8-reads : (v : ℕ) (rest : List ℕ) → v < 256 → u8_codec.decode (v ∷ rest) ≡ ok (v, rest)
unfolding to_le_bytes
u8-reads v rest h =
    ap (λ b. u8_codec.decode (b ∷ rest)) (sym (mod-eq_of_lt h))
    ∙ unfold int_codec in (int-IsCodec 1).reads v rest h

pub u8-exact :
    (v : ℕ) (buf rest : List ℕ)
    → All IsByte buf
    → u8_codec.decode buf ≡ ok (v, rest)
    → (v < 256) × (buf ≡ v ∷ rest)
unfolding to_le_bytes
u8-exact v buf rest h e =
    let (small, split) = int-exact 1 v buf rest h e in
    let small' : v < 256 = omega arith in (small', split ∙ ap (λ b. b ∷ rest) (mod-eq_of_lt small'))

bool-exact :
    (v : Bool) (buf rest : List ℕ)
    → All IsByte buf
    → bool_codec.decode buf ≡ ok (v, rest)
    → Unit {0} × (buf ≡ bool_byte v ∷ rest)
unfolding bool_codec bool_of_tag
bool-exact v buf rest h e =
    let (tag, r, read, done) = >>=-eq-ok_pair (u8_codec.decode buf) _ e in
    let (small, split) = u8-exact tag buf r h read in (tt, ground arith)

bool-IsByte : (b : Bool) → All IsByte (bool_byte b ∷ [])
bool-IsByte true = omega arith
bool-IsByte false = omega arith

bool-reads : (b : Bool) (rest : List ℕ) → bool_codec.decode (bool_byte b ∷ rest) ≡ ok (b, rest)
unfolding bool_codec bool_of_tag
bool-reads true rest = rw (u8-reads 1 rest (omega arith))
bool-reads false rest = rw (u8-reads 0 rest (omega arith))

pub bool-IsCodec : IsCodec bool_codec (λ b. Unit {0})
unfolding bool_codec
bool-IsCodec = record {
  appends = λ b out. refl;
  bytes = λ b h. bool-IsByte b;
  len = λ b h. refl;
  reads = λ b rest h. bool-reads b rest;
  exact = λ b buf rest h e. bool-exact b buf rest h e;
}

pub unit-IsCodec : IsCodec unit_codec (λ u. Unit {0})
unfolding unit_codec
unit-IsCodec = record {
  appends = λ u out. sym (append-nil out);
  bytes = λ u h. tt;
  len = λ u h. refl;
  reads = λ u rest h. refl;
  exact = λ u buf rest h e. (tt, ground arith);
}

pub len-reads :
    (n : ℕ) (rest : List ℕ) → n < 2 ^ 32 → decode_len (encode_len n [] ++ rest) ≡ ok (n, rest)
unfolding decode_len encode_len
len-reads n rest h =
    ap (λ k. u32_codec.decode (u32_codec.encode k [] ++ rest)) (mod-eq_of_lt h)
    ∙ (int-IsCodec 4).reads n rest h

pub len-exact :
    (n : ℕ) (buf rest : List ℕ)
    → All IsByte buf
    → decode_len buf ≡ ok (n, rest)
    → (n < 2 ^ 32) × (buf ≡ encode_len n [] ++ rest)
unfolding decode_len encode_len
len-exact n buf rest h e =
    let (small, split) = (int-IsCodec 4).exact n buf rest h e in
    (small, split ∙ ap (λ k. u32_codec.encode k [] ++ rest) (sym (mod-eq_of_lt small)))

pub encode_len-append : (n : ℕ) (out : List ℕ) → encode_len n out ≡ out ++ encode_len n []
unfolding encode_len
encode_len-append n out = (int-IsCodec 4).appends (n % 2 ^ 32) out

pub encode_len-IsByte : (n : ℕ) → All IsByte (encode_len n [])
unfolding encode_len
encode_len-IsByte n = (int-IsCodec 4).bytes (n % 2 ^ 32) (omega arith)

pub length-encode_len : (n : ℕ) → length (encode_len n []) ≡ 4
unfolding encode_len int_codec
length-encode_len n = length-to_le_bytes 4 (n % 2 ^ 32)
