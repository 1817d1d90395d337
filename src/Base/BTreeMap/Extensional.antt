-- ===== src/Base/BTreeMap/Extensional.antt =====
-- A map is known by its entries.
use Prim.Native.Nat.{ℕ, suc, ◌≤◌}
use mathlib.Core.Path.{◌≡◌, refl, sym, ap, ap₂, subst, ◌∙◌}
use mathlib.Core.Logic.{◌≢◌}
use mathlib.Core.Option.{none, some}
use mathlib.Core.List.{List, [], ◌∷◌}
use native.Mathlib.Omega.{arith}
use ticktape.Base.BTreeMap.{get, get_below, Ascending}

module _ {V : Type 0} where
  get_head : (j : ℕ) (w : V) (m : List (ℕ × V)) → get j ((j, w) ∷ m) ≡ some w
  unfolding get
  get_head j w m = ground arith

  get_past : (j k : ℕ) (w : V) (m : List (ℕ × V)) → k ≢ j → get k ((j, w) ∷ m) ≡ get k m
  unfolding get
  get_past j k w m h = ground arith

  get_nil : (k : ℕ) → get {V = V} k [] ≡ none
  unfolding get
  get_nil k = refl

  -- The least keys of two maps with the same entries are the same.
  head_le :
      (i j : ℕ) (v w : V) (m m' : List (ℕ × V))
      → Ascending (suc j) m'
      → get i ((i, v) ∷ m) ≡ get i ((j, w) ∷ m')
      → j ≤ i
  unfolding get
  head_le i j v w m m' t e = ground (arith, get_below i (suc j) m' t)

  tail_get :
      (i k : ℕ) (v w : V) (m m' : List (ℕ × V))
      → Ascending (suc i) m
      → Ascending (suc i) m'
      → get k ((i, v) ∷ m) ≡ get k ((i, w) ∷ m')
      → get k m ≡ get k m'
  unfolding get
  tail_get i k v w m m' s t e = ground (arith, get_below k (suc i) m, get_below k (suc i) m')

  -- Two maps with the same entries are one map.
  pub get-ext :
      (n : ℕ) (m m' : List (ℕ × V))
      → Ascending n m
      → Ascending n m'
      → ((k : ℕ) → get k m ≡ get k m')
      → m ≡ m'
  get-ext n [] [] s t e = refl
  get-ext n [] ((j, w) ∷ m') s t e = cc (e j, get_head j w m', get_nil j)
  get-ext n ((i, v) ∷ m) [] s t e = cc (e i, get_head i v m, get_nil i)
  get-ext n ((i, v) ∷ m) ((j, w) ∷ m') s t e =
      let same : i ≡ j =
        omega (arith, head_le i j v w m m' t.1 (e i), head_le j i w v m' m s.1 (sym (e j))) in
      let t' : Ascending (suc i) m' = subst (λ n. Ascending (suc n) m') (sym same) t.1 in
      let e' : (k : ℕ) → get k ((i, v) ∷ m) ≡ get k ((i, w) ∷ m') =
        λ k. e k ∙ ap (λ n. get k ((n, w) ∷ m')) (sym same) in
      let vals : v ≡ w = cc (get_head i v m, e' i, get_head i w m') in
      ap₂ (λ p l. p ∷ l) (ap₂ (λ n u. (n, u)) same vals)
        (get-ext (suc i) m m' s.1 t' (λ k. tail_get i k v w m m' s.1 t' (e' k)))
