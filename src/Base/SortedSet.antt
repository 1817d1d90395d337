-- ===== src/Base/SortedSet.antt =====
-- std::collections::BTreeSet over any ordered type: a list in strictly ascending order.
use mathlib.Core.Path.{◌≡◌, refl, sym, ap₂, subst, ◌∙◌}
use mathlib.Core.Logic.{◌↔◌, ◌⊎◌, inl, inr}
use mathlib.Core.Bool.{Bool, true, false}
use mathlib.Core.List.{List, [], ◌∷◌}
use native.Mathlib.Omega.{arith}
use ticktape.Base.Tests.{if◌then◌else◌, Bool-cases}
use ticktape.Base.Lists.{All, All-map}

-- A strict total order as a test.
pub record TotalOrder (A : Type 0) : Type 0 where
  pub before : A → A → Bool
  pub irreflexive : (a : A) → before a a ≡ false
  pub transitive : (a b c : A) → before a b ≡ true → before b c ≡ true → before a c ≡ true
  pub total : (a b : A) → before a b ≡ false → before b a ≡ false → a ≡ b

module _ {A : Type 0} where
  abbrev pub Contains : A → List A → Type 0
  Contains x [] = ⊥
  Contains x (y ∷ s) = (x ≡ y) ⊎ Contains x s

module _ {A : Type 0} (o : TotalOrder A) where
  unfoldable pub insert : A → List A → List A
  insert k [] = k ∷ []
  insert k (j ∷ s) =
      if o.before k j then k ∷ j ∷ s else if o.before j k then j ∷ insert k s else j ∷ s

  unfoldable pub remove : A → List A → List A
  remove k [] = []
  remove k (j ∷ s) = if o.before k j then j ∷ s else if o.before j k then j ∷ remove k s else s

  -- Every element comes after `j`.
  abbrev pub After : A → A → Type 0
  After j x = o.before j x ≡ true

  abbrev pub Sorted : List A → Type 0
  Sorted [] = Unit {0}
  Sorted (j ∷ s) = All (After j) s × Sorted s

  pub Contains-All : (P : A → Type 0) (x : A) (s : List A) → All P s → Contains x s → P x
  Contains-All P x [] a c = absurd c
  Contains-All P x (y ∷ s) a (inl e) = subst P (sym e) a.0
  Contains-All P x (y ∷ s) a (inr c) = Contains-All P x s a.1 c

  All-insert : (P : A → Type 0) (k : A) (s : List A) → P k → All P s → All P (insert k s)
  unfolding insert
  All-insert P k [] h a = (h, tt)
  All-insert P k (j ∷ s) h a = ground (arith, All-insert P k s h a.1)

  All-remove : (P : A → Type 0) (k : A) (s : List A) → All P s → All P (remove k s)
  unfolding remove
  All-remove P k [] a = tt
  All-remove P k (j ∷ s) a = ground (arith, All-remove P k s a.1)

  After-trans : (k j : A) (s : List A) → All (After j) s → After k j → All (After k) s
  After-trans k j s a less = All-map (After j) (After k) (λ x. o.transitive k j x less) s a

  pub insert-Sorted : (k : A) (s : List A) → Sorted s → Sorted (insert k s)
  unfolding insert
  insert-Sorted k [] h = (tt, tt)
  insert-Sorted k (j ∷ s) h =
      ground (arith, After-trans k j s h.0, All-insert (After j) k s, insert-Sorted k s h.1)

  pub remove-Sorted : (k : A) (s : List A) → Sorted s → Sorted (remove k s)
  unfolding remove
  remove-Sorted k [] h = tt
  remove-Sorted k (j ∷ s) h = ground (arith, All-remove (After j) k s h.0, remove-Sorted k s h.1)

  pub Contains-insert : (x k : A) (s : List A) → Contains x (insert k s) ↔ ((x ≡ k) ⊎ Contains x s)
  unfolding insert
  Contains-insert x k [] = ground arith
  Contains-insert x k (j ∷ s) = ground (arith, Contains-insert x k s, o.total k j)

  -- What comes after `k` is not `k`.
  After-apart : (k x : A) (s : List A) → All (After k) s → Contains x s → x ≡ k → ⊥
  After-apart k x s a c e = cc (o.irreflexive k, e, Contains-All (After k) x s a c)

  -- Nothing comes before the first element.
  pub Sorted-first :
      (k x : A) (s : List A) → Sorted (k ∷ s) → Contains x (k ∷ s) → o.before x k ≡ false
  Sorted-first k x s h (inl e) = cc (o.irreflexive k, e)
  Sorted-first k x s h (inr c) = elim (Bool-cases (o.before x k)) [
    | inl less ↦ cc (o.transitive k x k (Contains-All (After k) x s h.0 c) less, o.irreflexive k)
    | inr more ↦ more
  ]

  pub Contains-remove :
      (x k : A) (s : List A) → Sorted s → Contains x (remove k s) ↔ (Contains x s × (x ≡ k → ⊥))
  unfolding remove
  Contains-remove x k [] h = ground arith
  Contains-remove x k (j ∷ s) h = ground (
    arith,
    Contains-remove x k s h.1,
    After-apart j x s h.0,
    After-apart k x s,
    After-trans k j s h.0,
    o.total k j,
    o.irreflexive j,
    o.irreflexive k,
  )

  -- Two ascending lists with the same elements are one list.
  pub Sorted-ext :
      (s t : List A)
      → Sorted s
      → Sorted t
      → ((x : A) → Contains x s → Contains x t)
      → ((x : A) → Contains x t → Contains x s)
      → s ≡ t
  Sorted-ext [] [] h k f g = refl
  Sorted-ext [] (y ∷ t) h k f g = absurd (g y (inl refl))
  Sorted-ext (x ∷ s) [] h k f g = absurd (f x (inl refl))
  Sorted-ext (x ∷ s) (y ∷ t) h k f g =
      let same : x ≡ y = first in
      ap₂ (λ a l. a ∷ l) same
        (Sorted-ext s t h.1 k.1 (λ z c. rest_of z x s t h.0 same c (f z (inr c)))
          (λ z c. rest_of z y t s k.0 (sym same) c (g z (inr c))))
    where
      rest_of :
          (z x : A) (s t : List A) {y : A}
          → All (After x) s
          → x ≡ y
          → Contains z s
          → (z ≡ y) ⊎ Contains z t
          → Contains z t
      rest_of z x s t a e c (inl hit) = absurd (After-apart x z s a c (hit ∙ sym e))
      rest_of z x s t a e c (inr there) = there

      first : x ≡ y
      first = elim (f x (inl refl)) [
        | inl e ↦ e
        | inr c ↦ elim (g y (inl refl)) [
          | inl e ↦ sym e
          | inr d ↦ absurd (
              After-apart y y (y ∷ [])
                (
                  o.transitive y x y (Contains-All (After y) x t k.0 c)
                      (Contains-All (After x) y s h.0 d),
                  tt,
                )
                (inl refl) refl)
        ]
      ]
