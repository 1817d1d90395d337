-- ===== src/Core/Codec/Law.antt =====
-- What a codec owes: `IsCodec c IsValid` for the values that `IsValid` picks out.
use ticktape.Base.{
  ℕ, ◌≡◌, ap, subst, ◌∙◌, List, [], ◌++◌, length, All, ok, arith, take-append-drop, length-take,
  take_append, drop_append, length-append, append-nil, >>=-eq-ok_pair, eq-nil_of_length,
  All-append_right,
}
use ticktape.Core.Bytes.{IsByte}
use ticktape.Core.Codec.{Codec, encode_to_vec, decode_all, take_bytes}

pub record IsCodec {A : Type 0} (c : Codec A) (IsValid : A → Type 0) : Type 0 where
  -- `encode` appends.
  pub appends : (a : A) (out : List ℕ) → c.encode a out ≡ out ++ c.encode a []
  pub bytes : (a : A) → IsValid a → All IsByte (c.encode a [])
  -- `encoded_len` is what `encode` writes.
  pub len : (a : A) → IsValid a → length (c.encode a []) ≡ c.encoded_len a
  -- `decode` reads back what `encode` wrote, and leaves what follows.
  pub reads : (a : A) (rest : List ℕ) → IsValid a → c.decode (c.encode a [] ++ rest) ≡ ok (a, rest)
  -- What `decode` accepts is the encoding of its result: no value has two encodings.
  pub exact :
      (a : A) (buf rest : List ℕ)
      → All IsByte buf
      → c.decode buf ≡ ok (a, rest)
      → IsValid a × (buf ≡ c.encode a [] ++ rest)

-- The bytes behind a decoded value.
pub rest-IsByte : (xs buf rest : List ℕ) → buf ≡ xs ++ rest → All IsByte buf → All IsByte rest
rest-IsByte xs buf rest e h = All-append_right IsByte xs rest (subst (All IsByte) e h)

pub take_bytes-append :
    (xs rest : List ℕ) (n : ℕ) → n ≡ length xs → take_bytes (xs ++ rest) n ≡ ok (xs, rest)
unfolding take_bytes
take_bytes-append xs rest n e =
    ground (arith, length-append xs rest, take_append xs rest n, drop_append xs rest n)

pub take_bytes-exact :
    (buf xs rest : List ℕ) (n : ℕ)
    → take_bytes buf n ≡ ok (xs, rest)
    → (n ≡ length xs) × (buf ≡ xs ++ rest)
unfolding take_bytes
take_bytes-exact buf xs rest n e = ground (arith, take-append-drop n buf, length-take n buf)

module _ {A : Type 0} {c : Codec A} {IsValid : A → Type 0} (law : IsCodec c IsValid) where
  -- `decode_all` inverts `encode_to_vec`.
  pub decode_all-encode_to_vec : (a : A) → IsValid a → decode_all c (encode_to_vec c a) ≡ ok a
  unfolding decode_all encode_to_vec
  decode_all-encode_to_vec a v = rw (← append-nil (c.encode a [])) (rw (law.reads a [] v))

  -- For a codec that keeps the laws, a byte buffer that decode_all accepts is exactly encode_to_vec
  -- of the value it returns, which is valid.
  pub decode_all-exact :
      (a : A) (buf : List ℕ)
      → All IsByte buf
      → decode_all c buf ≡ ok a
      → IsValid a × (buf ≡ encode_to_vec c a)
  unfolding decode_all encode_to_vec
  decode_all-exact a buf h e =
      let (v, rest, read, done) = >>=-eq-ok_pair (c.decode buf) _ e in
      let empty : rest ≡ [] = eq-nil_of_length rest (ground arith) in
      let same : v ≡ a = ground arith in
      let (valid, split) = law.exact a buf rest h (rw (← same) read) in
      (valid, split ∙ rw empty (append-nil (c.encode a [])))

  -- Two values never share an encoding.
  pub encode_to_vec-injective :
      (a b : A) → IsValid a → IsValid b → encode_to_vec c a ≡ encode_to_vec c b → a ≡ b
  encode_to_vec-injective a b v w e =
      cc (decode_all-encode_to_vec a v, decode_all-encode_to_vec b w, ap (decode_all c) e)
