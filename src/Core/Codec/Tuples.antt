-- ===== src/Core/Codec/Tuples.antt =====
-- The tuple implementations keep the codec laws.
use ticktape.Base.{
  ℕ, ◌≡◌, sym, ap, subst, ◌∙◌, List, [], ◌++◌, All, ok, arith, length-append, append_assoc,
  >>=-eq-ok_pair, All-append,
}
use ticktape.Core.Bytes.{IsByte}
use ticktape.Core.Codec.{Codec, tuple2_codec, tuple3_codec}
use ticktape.Core.Codec.Law.{IsCodec, rest-IsByte}

module _ {A B : Type 0} {a : Codec A} {b : Codec B} {P : A → Type 0} {Q : B → Type 0}
    (la : IsCodec a P) (lb : IsCodec b Q) where
  tuple2-exact :
      (p : A × B) (buf rest : List ℕ)
      → All IsByte buf
      → (tuple2_codec a b).decode buf ≡ ok (p, rest)
      → (P p.0 × Q p.1) × (buf ≡ b.encode p.1 (a.encode p.0 []) ++ rest)
  unfolding tuple2_codec
  tuple2-exact p buf rest h e =
      let (x, buf₁, read₁, more₁) = >>=-eq-ok_pair (a.decode buf) _ e in
      let (y, buf₂, read₂, done) = >>=-eq-ok_pair (b.decode buf₁) _ more₁ in
      let (v, split₁) = la.exact x buf buf₁ h read₁ in
      let (w, split₂) = lb.exact y buf₁ buf₂ (rest-IsByte _ buf buf₁ split₁ h) read₂ in
      let same₁ : x ≡ p.0 = ground arith in
      let same₂ : y ≡ p.1 = ground arith in
      let tail : buf₂ ≡ rest = ground arith in
      (
        (subst P same₁ v, subst Q same₂ w),
        split₁
            ∙ ap (λ t. a.encode x [] ++ t) (split₂ ∙ ap (λ t. b.encode y [] ++ t) tail)
            ∙ sym (append_assoc (a.encode x []) (b.encode y []) rest)
            ∙ ap (λ t. t ++ rest) (sym (lb.appends y (a.encode x [])))
            ∙ ap (λ k. b.encode y (a.encode k []) ++ rest) same₁
            ∙ ap (λ k. b.encode k (a.encode p.0 []) ++ rest) same₂,
      )

  pub tuple2-IsCodec : IsCodec (tuple2_codec a b) (λ p. P p.0 × Q p.1)
  unfolding tuple2_codec
  tuple2-IsCodec = record {
    appends = λ p out.
        lb.appends p.1 (a.encode p.0 out)
        ∙ ap (λ o. o ++ b.encode p.1 []) (la.appends p.0 out)
        ∙ append_assoc out (a.encode p.0 []) (b.encode p.1 [])
        ∙ ap (λ o. out ++ o) (sym (lb.appends p.1 (a.encode p.0 [])));
    bytes = λ p h.
        rw (lb.appends p.1 (a.encode p.0 []))
          (All-append IsByte _ _ (la.bytes p.0 h.0) (lb.bytes p.1 h.1));
    len = λ p h. rw (lb.appends p.1 (a.encode p.0 [])) (
        omega (
          arith,
          length-append (a.encode p.0 []) (b.encode p.1 []),
          la.len p.0 h.0,
          lb.len p.1 h.1,
        ));
    reads = λ p rest h.
        rw (lb.appends p.1 (a.encode p.0 []), append_assoc (a.encode p.0 []) (b.encode p.1 []) rest)
          (rw (la.reads p.0 (b.encode p.1 [] ++ rest) h.0) (rw (lb.reads p.1 rest h.1)));
    exact = tuple2-exact;
  }

module _ {A B C : Type 0} {a : Codec A} {b : Codec B} {c : Codec C} {P : A → Type 0}
    {Q : B → Type 0} {R : C → Type 0} (la : IsCodec a P) (lb : IsCodec b Q) (lc : IsCodec c R) where
  -- The bytes of a triple, bracketed to the right.
  tuple3_bytes :
      (x : A) (y : B) (z : C) (out : List ℕ)
      → c.encode z (b.encode y (a.encode x out))
        ≡ out ++ (a.encode x [] ++ (b.encode y [] ++ c.encode z []))
  tuple3_bytes x y z out =
      lc.appends z (b.encode y (a.encode x out))
      ∙ ap (λ o. o ++ c.encode z [])
          (lb.appends y (a.encode x out) ∙ ap (λ o. o ++ b.encode y []) (la.appends x out))
      ∙ append_assoc (out ++ a.encode x []) (b.encode y []) (c.encode z [])
      ∙ append_assoc out (a.encode x []) (b.encode y [] ++ c.encode z [])

  tuple3_front :
      (x : A) (y : B) (z : C) (rest : List ℕ)
      → c.encode z (b.encode y (a.encode x [])) ++ rest
        ≡ a.encode x [] ++ (b.encode y [] ++ (c.encode z [] ++ rest))
  tuple3_front x y z rest =
      ap (λ o. o ++ rest) (tuple3_bytes x y z [])
      ∙ append_assoc (a.encode x []) (b.encode y [] ++ c.encode z []) rest
      ∙ ap (λ o. a.encode x [] ++ o) (append_assoc (b.encode y []) (c.encode z []) rest)

  tuple3-exact :
      (p : A × B × C) (buf rest : List ℕ)
      → All IsByte buf
      → (tuple3_codec a b c).decode buf ≡ ok (p, rest)
      → (P p.0 × Q p.1 × R p.2) × (buf ≡ c.encode p.2 (b.encode p.1 (a.encode p.0 [])) ++ rest)
  unfolding tuple3_codec
  tuple3-exact p buf rest h e =
      let (x, buf₁, read₁, more₁) = >>=-eq-ok_pair (a.decode buf) _ e in
      let (y, buf₂, read₂, more₂) = >>=-eq-ok_pair (b.decode buf₁) _ more₁ in
      let (z, buf₃, read₃, done) = >>=-eq-ok_pair (c.decode buf₂) _ more₂ in
      let (u, split₁) = la.exact x buf buf₁ h read₁ in
      let h₁ = rest-IsByte _ buf buf₁ split₁ h in
      let (v, split₂) = lb.exact y buf₁ buf₂ h₁ read₂ in
      let (w, split₃) = lc.exact z buf₂ buf₃ (rest-IsByte _ buf₁ buf₂ split₂ h₁) read₃ in
      let same₁ : x ≡ p.0 = ground arith in
      let same₂ : y ≡ p.1 = ground arith in
      let same₃ : z ≡ p.2 = ground arith in
      let tail : buf₃ ≡ rest = ground arith in
      (
        (subst P same₁ u, subst Q same₂ v, subst R same₃ w),
        split₁
            ∙ ap (λ t. a.encode x [] ++ t) (split₂ ∙ ap (λ t. b.encode y [] ++ t) split₃)
            ∙ sym (tuple3_front x y z buf₃)
            ∙ ap (λ t. c.encode z (b.encode y (a.encode x [])) ++ t) tail
            ∙ ap (λ k. c.encode z (b.encode y (a.encode k [])) ++ rest) same₁
            ∙ ap (λ k. c.encode z (b.encode k (a.encode p.0 [])) ++ rest) same₂
            ∙ ap (λ k. c.encode k (b.encode p.1 (a.encode p.0 [])) ++ rest) same₃,
      )

  -- If three codecs keep the codec laws, so does that of the triples, for the triples of valid
  -- values.
  pub tuple3-IsCodec : IsCodec (tuple3_codec a b c) (λ p. P p.0 × Q p.1 × R p.2)
  unfolding tuple3_codec
  tuple3-IsCodec = record {
    appends = λ p out.
        tuple3_bytes p.0 p.1 p.2 out ∙ ap (λ o. out ++ o) (sym (tuple3_bytes p.0 p.1 p.2 []));
    bytes = λ p h. rw (tuple3_bytes p.0 p.1 p.2 []) (
        All-append IsByte _ _ (la.bytes p.0 h.0)
          (All-append IsByte _ _ (lb.bytes p.1 h.1) (lc.bytes p.2 h.2)));
    len = λ p h. rw (tuple3_bytes p.0 p.1 p.2 []) (
        omega (
          arith,
          length-append (a.encode p.0 []) (b.encode p.1 [] ++ c.encode p.2 []),
          length-append (b.encode p.1 []) (c.encode p.2 []),
          la.len p.0 h.0,
          lb.len p.1 h.1,
          lc.len p.2 h.2,
        ));
    reads = λ p rest h. rw (tuple3_front p.0 p.1 p.2 rest) (
        rw (la.reads p.0 (b.encode p.1 [] ++ (c.encode p.2 [] ++ rest)) h.0)
          (rw (lb.reads p.1 (c.encode p.2 [] ++ rest) h.1) (rw (lc.reads p.2 rest h.2))));
    exact = tuple3-exact;
  }
