-- ===== src/Base/BTreeSet.antt =====
-- std::collections::BTreeSet of numbers: a list in ascending order.
use Prim.Native.Nat.{ℕ, suc, ◌+◌, ◌≤◌, ◌<◌}
use mathlib.Core.Path.{◌≡◌, refl}
use mathlib.Core.Logic.{◌⊎◌, inl, inr}
use mathlib.Core.List.{List, [], ◌∷◌}
use native.Mathlib.Omega.{arith}
use ticktape.Base.Tests.{ltb, ◌==◌, if◌then◌else◌, trichotomy}
use ticktape.Base.Lists.{length, All}

unfoldable pub insert : ℕ → List ℕ → List ℕ
insert k [] = k ∷ []
insert k (j ∷ s) = if ltb k j then k ∷ j ∷ s else if j == k then j ∷ s else j ∷ insert k s

abbrev pub Contains : ℕ → List ℕ → Type 0
Contains k [] = ⊥
Contains k (j ∷ s) = (k ≡ j) ⊎ Contains k s

-- Strictly ascending from `n` on.
abbrev pub Ascending : ℕ → List ℕ → Type 0
Ascending n [] = Unit {0}
Ascending n (k ∷ s) = (n ≤ k) × Ascending (suc k) s

pub insert-Ascending : (k n : ℕ) (s : List ℕ) → n ≤ k → Ascending n s → Ascending n (insert k s)
unfolding insert
insert-Ascending k n [] h a = (h, tt)
insert-Ascending k n (j ∷ s) h a = ground (arith, insert-Ascending k (suc j) s)

pub All-insert {κ} : (P : ℕ → Type κ) (k : ℕ) (s : List ℕ) → P k → All P s → All P (insert k s)
unfolding insert
All-insert P k [] h a = (h, tt)
All-insert P k (j ∷ s) h a = ground (arith, All-insert P k s h a.1)

pub insert-Contains : (k j : ℕ) (s : List ℕ) → Contains j (insert k s) → (j ≡ k) ⊎ Contains j s
unfolding insert
insert-Contains k j [] c = c
insert-Contains k j (i ∷ s) c = ground (arith, insert-Contains k j s)

-- Two sets below `v` with nothing in common: they have `v` elements at most.
pub disjoint_length :
    (n v : ℕ) (xs ys : List ℕ)
    → Ascending n xs
    → Ascending n ys
    → All (λ x. x < v) xs
    → All (λ y. y < v) ys
    → n ≤ v
    → ((k : ℕ) → Contains k xs → Contains k ys → ⊥)
    → length xs + length ys + n ≤ v
disjoint_length n v [] [] ax ay bx by h d = omega arith
disjoint_length n v [] (y ∷ ys) ax ay bx by h d =
    omega (arith, disjoint_length (suc y) v [] ys tt ay.1 bx by.1 by.0 (λ k p q. d k p (inr q)))
disjoint_length n v (x ∷ xs) [] ax ay bx by h d =
    omega (arith, disjoint_length (suc x) v xs [] ax.1 tt bx.1 by bx.0 (λ k p q. d k (inr p) q))
disjoint_length n v (x ∷ xs) (y ∷ ys) ax ay bx by h d = elim (trichotomy x y) [
  | inl lt ↦ omega (
    arith,
    disjoint_length (suc x) v xs (y ∷ ys) ax.1 (lt, ay.1) bx.1 by bx.0 (λ k p q. d k (inr p) q),
  )
  | inr (inl eq) ↦ absurd (d x (inl refl) (inl eq))
  | inr (inr gt) ↦ omega (
    arith,
    disjoint_length (suc y) v (x ∷ xs) ys (gt, ax.1) ay.1 bx by.1 by.0 (λ k p q. d k p (inr q)),
  )
]
