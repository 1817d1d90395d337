-- ===== src/Core/Codec/Containers.antt =====
-- Vec, Option and String keep the codec laws.
use ticktape.Base.{
  ℕ, zero, suc, ◌^◌, ◌<◌, ◌≡◌, refl, sym, ap, subst, ◌∙◌, true, Option, none, some, List, [], ◌∷◌,
  ◌++◌, length, All, ok, arith, inl, inr, Bool-cases, ◌==◌, length-append, append-nil, append_assoc,
  >>=-eq-ok_pair, All-append, All-append_left,
}
use ticktape.Core.Bytes.{IsByte}
use ticktape.Core.Codec.{
  Codec, u8_codec, string_codec, encode_len, decode_len, take_bytes, encode_items, items_len,
  decode_items, vec_codec, encode_option, option_len, decode_some, option_of_tag, decode_option,
  option_codec,
}
use ticktape.Core.Codec.Utf8.{is_utf8}
use ticktape.Core.Codec.Law.{IsCodec, take_bytes-append, take_bytes-exact, rest-IsByte}
use ticktape.Core.Codec.Instances.{
  u8-reads, u8-exact, len-reads, len-exact, encode_len-append, encode_len-IsByte, length-encode_len,
}

module _ {A : Type 0} {c : Codec A} {IsValid : A → Type 0} (law : IsCodec c IsValid) where
  encode_items-append :
      (xs : List A) (out : List ℕ) → encode_items c xs out ≡ out ++ encode_items c xs []
  unfolding encode_items
  encode_items-append [] out = sym (append-nil out)
  encode_items-append (x ∷ xs) out =
      encode_items-append xs (c.encode x out)
      ∙ ap (λ o. o ++ encode_items c xs []) (law.appends x out)
      ∙ append_assoc out (c.encode x []) (encode_items c xs [])
      ∙ ap (λ o. out ++ o) (sym (encode_items-append xs (c.encode x [])))

  encode_items-cons :
      (x : A) (xs : List A) → encode_items c (x ∷ xs) [] ≡ c.encode x [] ++ encode_items c xs []
  unfolding encode_items
  encode_items-cons x xs = encode_items-append xs (c.encode x [])

  encode_items-IsByte : (xs : List A) → All IsValid xs → All IsByte (encode_items c xs [])
  encode_items-IsByte [] h = unfold encode_items in tt
  encode_items-IsByte (x ∷ xs) h =
      rw (encode_items-cons x xs)
        (All-append IsByte _ _ (law.bytes x h.0) (encode_items-IsByte xs h.1))

  length-encode_items :
      (xs : List A) → All IsValid xs → length (encode_items c xs []) ≡ items_len c xs
  unfolding items_len
  length-encode_items [] h = unfold encode_items in refl
  length-encode_items (x ∷ xs) h = rw (encode_items-cons x xs) (
      omega (
        arith,
        length-append (c.encode x []) (encode_items c xs []),
        law.len x h.0,
        length-encode_items xs h.1,
      ))

  decode_items-step :
      (x : A) (n : ℕ) (acc : List A) (rest : List ℕ)
      → IsValid x
      → decode_items c (suc n) acc (c.encode x [] ++ rest) ≡ decode_items c n (acc ++ (x ∷ [])) rest
  unfolding decode_items
  decode_items-step x n acc rest h = rw (law.reads x rest h)

  decode_items-reads :
      (xs acc : List A) (rest : List ℕ)
      → All IsValid xs
      → decode_items c (length xs) acc (encode_items c xs [] ++ rest) ≡ ok (acc ++ xs, rest)
  decode_items-reads [] acc rest h = unfold decode_items encode_items in rw (append-nil acc)
  decode_items-reads (x ∷ xs) acc rest h =
      ap (λ b. decode_items c (suc (length xs)) acc b)
        (rw (encode_items-cons x xs) (append_assoc (c.encode x []) (encode_items c xs []) rest))
      ∙ decode_items-step x (length xs) acc (encode_items c xs [] ++ rest) h.0
      ∙ decode_items-reads xs (acc ++ (x ∷ [])) rest h.1
      ∙ ap (λ ys. ok (ys, rest)) (append_assoc acc (x ∷ []) xs)

  -- What a loop of `n` rounds read.
  record ItemsRead (n : ℕ) (acc ys : List A) (buf rest : List ℕ) : Type 0 where
    items : List A
    same : ys ≡ acc ++ items
    count : length items ≡ n
    valid : All IsValid items
    split : buf ≡ encode_items c items [] ++ rest

  ItemsRead-cons :
      (n : ℕ) (acc ys : List A) (buf buf' rest : List ℕ) (x : A)
      → IsValid x
      → buf ≡ c.encode x [] ++ buf'
      → ItemsRead n (acc ++ (x ∷ [])) ys buf' rest
      → ItemsRead (suc n) acc ys buf rest
  ItemsRead-cons n acc ys buf buf' rest x v split r = record {
    items = x ∷ r.items;
    same = r.same ∙ append_assoc acc (x ∷ []) r.items;
    count = ap suc r.count;
    valid = (v, r.valid);
    split =
        split
        ∙ ap (λ b. c.encode x [] ++ b) r.split
        ∙ sym (append_assoc (c.encode x []) (encode_items c r.items []) rest)
        ∙ ap (λ b. b ++ rest) (sym (encode_items-cons x r.items));
  }

  decode_items-split :
      (n : ℕ) (acc : List A) (buf : List ℕ) {out : List A × List ℕ}
      → decode_items c (suc n) acc buf ≡ ok out
      → (x : A) × (buf' : List ℕ) × (c.decode buf ≡ ok (x, buf'))
        × (decode_items c n (acc ++ (x ∷ [])) buf' ≡ ok out)
  unfolding decode_items
  decode_items-split n acc buf e = >>=-eq-ok_pair (c.decode buf) _ e

  decode_items-exact :
      (n : ℕ) (acc ys : List A) (buf rest : List ℕ)
      → All IsByte buf
      → decode_items c n acc buf ≡ ok (ys, rest)
      → ItemsRead n acc ys buf rest
  decode_items-exact zero acc ys buf rest h e = record {
    items = [];
    same = rw (append-nil acc) (unfold decode_items in ground arith);
    count = refl;
    valid = tt;
    split = unfold decode_items encode_items in ground arith;
  }
  decode_items-exact (suc n) acc ys buf rest h e =
      let (x, buf', read, more) = decode_items-split n acc buf e in
      let (v, split) = law.exact x buf buf' h read in
      ItemsRead-cons n acc ys buf buf' rest x v split
        (decode_items-exact n (acc ++ (x ∷ [])) ys buf' rest (rest-IsByte _ buf buf' split h) more)

  VecRead : List A → List ℕ → List ℕ → Type 0
  VecRead xs buf rest =
      ((length xs < 2 ^ 32) × All IsValid xs)
      × (buf ≡ encode_items c xs (encode_len (length xs) []) ++ rest)

  ItemsRead-vec :
      (n : ℕ) (xs : List A) (buf buf' rest : List ℕ)
      → n < 2 ^ 32
      → buf ≡ encode_len n [] ++ buf'
      → ItemsRead n [] xs buf' rest
      → VecRead xs buf rest
  unfolding VecRead
  ItemsRead-vec n xs buf buf' rest small split r =
      subst (λ ys. VecRead ys buf rest) (sym r.same)
        (
          (omega (arith, r.count), r.valid),
          split
              ∙ ap (λ b. encode_len n [] ++ b) r.split
              ∙ sym (append_assoc (encode_len n []) (encode_items c r.items []) rest)
              ∙ ap (λ b. b ++ rest)
                  (ap (λ k. encode_len k [] ++ encode_items c r.items []) (sym r.count)
                    ∙ sym (encode_items-append r.items (encode_len (length r.items) []))),
        )

  vec-exact :
      (xs : List A) (buf rest : List ℕ)
      → All IsByte buf
      → (vec_codec c).decode buf ≡ ok (xs, rest)
      → VecRead xs buf rest
  unfolding vec_codec
  vec-exact xs buf rest h e =
      let (n, buf', read, more) = >>=-eq-ok_pair (decode_len buf) _ e in
      let (small, split) = len-exact n buf buf' h read in
      ItemsRead-vec n xs buf buf' rest small split
        (decode_items-exact n [] xs buf' rest (rest-IsByte _ buf buf' split h) more)

  vec-appends :
      (xs : List A) (out : List ℕ) → (vec_codec c).encode xs out ≡ out ++ (vec_codec c).encode xs []
  unfolding vec_codec
  vec-appends xs out =
      encode_items-append xs (encode_len (length xs) out)
      ∙ ap (λ o. o ++ encode_items c xs []) (encode_len-append (length xs) out)
      ∙ append_assoc out (encode_len (length xs) []) (encode_items c xs [])
      ∙ ap (λ o. out ++ o) (sym (encode_items-append xs (encode_len (length xs) [])))

  vec-reads :
      (xs : List A) (rest : List ℕ)
      → length xs < 2 ^ 32
      → All IsValid xs
      → (vec_codec c).decode ((vec_codec c).encode xs [] ++ rest) ≡ ok (xs, rest)
  unfolding vec_codec
  vec-reads xs rest h v =
      ap (vec_codec c).decode (
        ap (λ b. b ++ rest) (encode_items-append xs (encode_len (length xs) []))
        ∙ append_assoc (encode_len (length xs) []) (encode_items c xs []) rest)
      ∙ rw (len-reads (length xs) (encode_items c xs [] ++ rest) h)
          (decode_items-reads xs [] rest v)

  -- If the codec of the items keeps the codec laws, so does that of Vec, for the vectors of valid
  -- items that are shorter than 2 ^ 32: encode appends, writes bytes, as many as encoded_len says,
  -- decode reads them back and leaves what follows, and what decode accepts is the encoding of its
  -- result.
  pub vec-IsCodec : IsCodec (vec_codec c) (λ xs. (length xs < 2 ^ 32) × All IsValid xs)
  unfolding vec_codec VecRead
  vec-IsCodec = record {
    appends = vec-appends;
    bytes = λ xs h.
        rw (encode_items-append xs (encode_len (length xs) []))
          (All-append IsByte _ _ (encode_len-IsByte (length xs)) (encode_items-IsByte xs h.1));
    len = λ xs h. rw (encode_items-append xs (encode_len (length xs) [])) (
        omega (
          arith,
          length-append (encode_len (length xs) []) (encode_items c xs []),
          length-encode_len (length xs),
          length-encode_items xs h.1,
        ));
    reads = λ xs rest h. vec-reads xs rest h.0 h.1;
    exact = λ xs buf rest h e. vec-exact xs buf rest h e;
  }

  -- An optional value.
  abbrev pub ValidOption : Option A → Type 0
  ValidOption none = Unit {0}
  ValidOption (some v) = IsValid v

  OptionRead : Option A → List ℕ → List ℕ → Type 0
  OptionRead o buf rest = ValidOption o × (buf ≡ encode_option c o [] ++ rest)

  none-OptionRead : (buf rest : List ℕ) → buf ≡ 0 ∷ rest → OptionRead none buf rest
  unfolding OptionRead encode_option
  none-OptionRead buf rest e = (tt, e)

  some-OptionRead :
      (v : A) (buf buf' rest : List ℕ)
      → All IsByte buf'
      → buf ≡ 1 ∷ buf'
      → c.decode buf' ≡ ok (v, rest)
      → OptionRead (some v) buf rest
  unfolding OptionRead encode_option
  some-OptionRead v buf buf' rest h e read =
      let (valid, split) = law.exact v buf' rest h read in
      (valid, e ∙ ap (λ b. 1 ∷ b) split ∙ ap (λ b. b ++ rest) (sym (law.appends v (1 ∷ []))))

  tagged-OptionRead :
      (tag : ℕ) (o : Option A) (buf buf' rest : List ℕ)
      → All IsByte buf'
      → buf ≡ tag ∷ buf'
      → option_of_tag c tag buf' ≡ ok (o, rest)
      → OptionRead o buf rest
  unfolding decode_some
  tagged-OptionRead tag o buf buf' rest h split e = elim (Bool-cases (tag == 1)) [
    | inl one ↦
        let (v, rest', read, done) =
          >>=-eq-ok_pair {B = Option A × List ℕ} (c.decode buf')
            (λ (p : A × List ℕ). ok (some p.0, p.1)) {b = (o, rest)}
            (unfold option_of_tag in ground arith) in
        let same : some v ≡ o = ground arith in
        let tail : rest' ≡ rest = ground arith in
        subst (λ p. OptionRead p buf rest) same
          (some-OptionRead v buf buf' rest h (ground arith) (read ∙ ap (λ t. ok (v, t)) tail))
    | inr other ↦
        let empty : none ≡ o = unfold option_of_tag in ground arith in
        let zero_tag : tag ≡ 0 = unfold option_of_tag in ground arith in
        let tail : buf' ≡ rest = unfold option_of_tag in ground arith in
        subst (λ p. OptionRead p buf rest) empty (none-OptionRead buf rest (ground arith))
  ]

  option-exact :
      (o : Option A) (buf rest : List ℕ)
      → All IsByte buf
      → decode_option c buf ≡ ok (o, rest)
      → OptionRead o buf rest
  unfolding decode_option
  option-exact o buf rest h e =
      let (tag, buf', read, more) = >>=-eq-ok_pair (u8_codec.decode buf) _ e in
      let (small, split) = u8-exact tag buf buf' h read in
      tagged-OptionRead tag o buf buf' rest (rest-IsByte (tag ∷ []) buf buf' split h) split more

  option-appends :
      (o : Option A) (out : List ℕ) → encode_option c o out ≡ out ++ encode_option c o []
  unfolding encode_option
  option-appends none out = refl
  option-appends (some v) out =
      law.appends v (out ++ (1 ∷ []))
      ∙ append_assoc out (1 ∷ []) (c.encode v [])
      ∙ ap (λ o. out ++ o) (sym (law.appends v (1 ∷ [])))

  option-reads :
      (o : Option A) (rest : List ℕ)
      → ValidOption o
      → decode_option c (encode_option c o [] ++ rest) ≡ ok (o, rest)
  unfolding encode_option decode_option decode_some
  option-reads none rest h = rw (u8-reads 0 rest (omega arith))
  option-reads (some v) rest h =
      ap (decode_option c) (ap (λ b. b ++ rest) (law.appends v (1 ∷ [])))
      ∙ rw (u8-reads 1 (c.encode v [] ++ rest) (omega arith)) (rw (law.reads v rest h))

  option-IsByte : (o : Option A) → ValidOption o → All IsByte (encode_option c o [])
  unfolding encode_option
  option-IsByte none h = omega arith
  option-IsByte (some v) h =
      rw (law.appends v (1 ∷ [])) (All-append IsByte (1 ∷ []) _ (omega arith) (law.bytes v h))

  length-encode_option :
      (o : Option A) → ValidOption o → length (encode_option c o []) ≡ option_len c o
  unfolding encode_option option_len
  length-encode_option none h = refl
  length-encode_option (some v) h = rw (law.appends v (1 ∷ [])) (omega (arith, law.len v h))

  -- If a codec keeps the codec laws, so does that of the optional values, for none and for the
  -- valid values.
  pub option-IsCodec : IsCodec (option_codec c) ValidOption
  unfolding option_codec OptionRead
  option-IsCodec = record {
    appends = option-appends;
    bytes = option-IsByte;
    len = length-encode_option;
    reads = option-reads;
    exact = option-exact;
  }

-- A String whose bytes are well-formed UTF-8 and whose length fits the prefix.
abbrev pub ValidString : List ℕ → Type 0
ValidString s = (length s < 2 ^ 32) × (is_utf8 s ≡ true) × All IsByte s

string-reads :
    (s rest : List ℕ)
    → ValidString s
    → string_codec.decode (string_codec.encode s [] ++ rest) ≡ ok (s, rest)
unfolding string_codec
string-reads s rest (fits, utf8, byte) =
    ap string_codec.decode (append_assoc (encode_len (length s) []) s rest)
    ∙ rw (len-reads (length s) (s ++ rest) fits)
        (rw (take_bytes-append s rest (length s) refl) (rw utf8))

string-exact :
    (s buf rest : List ℕ)
    → All IsByte buf
    → string_codec.decode buf ≡ ok (s, rest)
    → ValidString s × (buf ≡ (encode_len (length s) [] ++ s) ++ rest)
unfolding string_codec
string-exact s buf rest h e =
    let (n, buf', read, more) = >>=-eq-ok_pair (decode_len buf) _ e in
    let (small, split) = len-exact n buf buf' h read in
    let (bs, rest', took, done) = >>=-eq-ok_pair (take_bytes buf' n) _ more in
    let (count, split') = take_bytes-exact buf' bs rest' n took in
    let h' : All IsByte buf' = rest-IsByte _ buf buf' split h in
    let byte : All IsByte bs = All-append_left IsByte bs rest' (subst (All IsByte) split' h') in
    let utf8 : is_utf8 bs ≡ true = ground arith in
    let same : bs ≡ s = ground arith in
    let tail : rest' ≡ rest = ground arith in
    (
      subst ValidString same (omega arith, utf8, byte),
      split
          ∙ ap (λ b. encode_len n [] ++ b) (split' ∙ ap (λ t. bs ++ t) tail)
          ∙ ap (λ k. encode_len k [] ++ (bs ++ rest)) count
          ∙ ap (λ t. encode_len (length t) [] ++ (t ++ rest)) same
          ∙ sym (append_assoc (encode_len (length s) []) s rest),
    )

-- The codec of String keeps the codec laws for the well-formed UTF-8 byte strings that are shorter
-- than 2 ^ 32.
string-IsCodec : IsCodec string_codec ValidString
unfolding string_codec
string-IsCodec = record {
  appends = λ s out.
      ap (λ o. o ++ s) (encode_len-append (length s) out)
      ∙ append_assoc out (encode_len (length s) []) s;
  bytes = λ s h. All-append IsByte _ _ (encode_len-IsByte (length s)) h.2;
  len = λ s h.
      omega (arith, length-append (encode_len (length s) []) s, length-encode_len (length s));
  reads = string-reads;
  exact = string-exact;
}
