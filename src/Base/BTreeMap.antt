-- ===== src/Base/BTreeMap.antt =====
-- std::collections::BTreeMap over u64/u32 keys: an association list in ascending key order.
pub mod Extensional
use Prim.Native.Nat.{ℕ, suc, ◌≤◌, ◌<◌}
use mathlib.Core.Path.{◌≡◌, refl, ap, ap₂, subst₂}
use mathlib.Core.Logic.{inl, inr}
use mathlib.Core.Bool.{Bool, true, false}
use mathlib.Core.Option.{Option, none, some}
use mathlib.Core.List.{List, [], ◌∷◌}
use native.Mathlib.Omega.{arith}
use ticktape.Base.Tests.{ltb, ◌==◌, if◌then◌else◌, Bool-cases}
use ticktape.Base.Lists.{length, All}

module _ {ℓ} {V : Type ℓ} where
  unfoldable pub get : ℕ → List (ℕ × V) → Option V
  get k [] = none
  get k ((j, v) ∷ m) = if j == k then some v else get k m

  unfoldable pub contains_key : ℕ → List (ℕ × V) → Bool
  contains_key k m = elim (get k m) [ none ↦ false | some v ↦ true ]

  unfoldable pub insert : ℕ → V → List (ℕ × V) → List (ℕ × V)
  insert k v [] = (k, v) ∷ []
  insert k v ((j, w) ∷ m) =
      if ltb k j then (k, v) ∷ (j, w) ∷ m else if j == k then (k, v) ∷ m else (j, w) ∷ insert k v m

  unfoldable pub remove : ℕ → List (ℕ × V) → List (ℕ × V)
  remove k [] = []
  remove k ((j, w) ∷ m) = if j == k then m else (j, w) ∷ remove k m

  unfoldable pub first_key : List (ℕ × V) → Option ℕ
  first_key [] = none
  first_key ((k, v) ∷ m) = some k

  unfoldable pub last_key : List (ℕ × V) → Option ℕ
  last_key [] = none
  last_key ((k, v) ∷ []) = some k
  last_key (p ∷ q ∷ m) = last_key (q ∷ m)

  -- All but the entry with the greatest key.
  unfoldable pub pop_last : List (ℕ × V) → List (ℕ × V)
  pop_last [] = []
  pop_last (p ∷ []) = []
  pop_last (p ∷ q ∷ m) = p ∷ pop_last (q ∷ m)

  -- The keys ascend strictly, from `n` on.
  abbrev pub Ascending : ℕ → List (ℕ × V) → Type 0
  Ascending n [] = Unit {0}
  Ascending n ((k, v) ∷ m) = (n ≤ k) × Ascending (suc k) m

  pub Ascending-weaken : (a b : ℕ) (m : List (ℕ × V)) → a ≤ b → Ascending b m → Ascending a m
  Ascending-weaken a b [] h s = tt
  Ascending-weaken a b ((k, v) ∷ m) h s = (omega arith, s.1)

  pub get-insert :
      (k j : ℕ) (v : V) (m : List (ℕ × V))
      → get j (insert k v m) ≡ (if k == j then some v else get j m)
  unfolding get insert
  get-insert k j v [] = refl
  get-insert k j v ((i, w) ∷ m) = ground (arith, get-insert k j v m)

  pub contains_key-get : (k : ℕ) (m : List (ℕ × V)) → contains_key k m ≡ false → get k m ≡ none
  unfolding contains_key
  contains_key-get k m h = ground arith

  pub contains_key-get-some :
      (k : ℕ) (m : List (ℕ × V)) → contains_key k m ≡ true → (v : V) × (get k m ≡ some v)
  unfolding contains_key
  contains_key-get-some k m h = ground arith

  pub get_below : (k n : ℕ) (m : List (ℕ × V)) → Ascending n m → k < n → get k m ≡ none
  unfolding get
  get_below k n [] s h = refl
  get_below k n ((j, v) ∷ m) s h = ground (arith, get_below k (suc j) m)

  pub get-remove :
      (k j n : ℕ) (m : List (ℕ × V))
      → Ascending n m
      → get j (remove k m) ≡ (if k == j then none else get j m)
  unfolding get remove
  get-remove k j n [] s = ground arith
  get-remove k j n ((i, w) ∷ m) s = ground (arith, get-remove k j (suc i) m, get_below j (suc i) m)

  pub insert-Ascending :
      (k n : ℕ) (v : V) (m : List (ℕ × V)) → n ≤ k → Ascending n m → Ascending n (insert k v m)
  unfolding insert
  insert-Ascending k n v [] h s = (h, tt)
  insert-Ascending k n v ((j, w) ∷ m) h s = ground (arith, insert-Ascending k (suc j) v m)

  pub remove-Ascending : (k n : ℕ) (m : List (ℕ × V)) → Ascending n m → Ascending n (remove k m)
  unfolding remove
  remove-Ascending k n [] s = tt
  remove-Ascending k n ((j, w) ∷ m) s =
      ground (arith, remove-Ascending k (suc j) m, Ascending-weaken n (suc j) m)

  pub pop_last-Ascending : (n : ℕ) (m : List (ℕ × V)) → Ascending n m → Ascending n (pop_last m)
  unfolding pop_last
  pop_last-Ascending n [] s = tt
  pop_last-Ascending n (p ∷ []) s = tt
  pop_last-Ascending n (p ∷ q ∷ m) s = (s.0, pop_last-Ascending (suc p.0) (q ∷ m) s.1)

  pub length-pop_last : (p : ℕ × V) (m : List (ℕ × V)) → length (pop_last (p ∷ m)) ≡ length m
  unfolding pop_last
  length-pop_last p [] = refl
  length-pop_last p (q ∷ m) = ap suc (length-pop_last q m)

  -- What `pop_last` leaves was there before.
  pub get-pop_last :
      (k : ℕ) (v : V) (m : List (ℕ × V)) → get k (pop_last m) ≡ some v → get k m ≡ some v
  unfolding get pop_last
  get-pop_last k v [] h = h
  get-pop_last k v (p ∷ []) h = cc
  get-pop_last k v ((j, w) ∷ q ∷ m) h = ground (arith, get-pop_last k v (q ∷ m))

  -- The least key survives while another entry is there to be dropped.
  pub first_key-pop_last :
      (p q : ℕ × V) (m : List (ℕ × V)) → first_key (pop_last (p ∷ q ∷ m)) ≡ some p.0
  unfolding first_key pop_last
  first_key-pop_last p q m = refl

  pub remove-Ascending_first :
      (n : ℕ) (m : List (ℕ × V)) → Ascending n m → Ascending (suc n) (remove n m)
  unfolding remove
  remove-Ascending_first n [] s = tt
  remove-Ascending_first n ((j, w) ∷ m) s = ground (arith, remove-Ascending n (suc j) m s.1)

  pub All-insert {κ} :
      (P : ℕ × V → Type κ) (k : ℕ) (v : V) (m : List (ℕ × V))
      → P (k, v)
      → All P m
      → All P (insert k v m)
  unfolding insert
  All-insert P k v [] h a = (h, tt)
  All-insert P k v ((j, w) ∷ m) h a = ground (arith, All-insert P k v m h a.1)

  pub All-remove {κ} :
      (P : ℕ × V → Type κ) (k : ℕ) (m : List (ℕ × V)) → All P m → All P (remove k m)
  unfolding remove
  All-remove P k [] a = tt
  All-remove P k ((j, w) ∷ m) a = ground (arith, All-remove P k m a.1)

  pub All-pop_last {κ} : (P : ℕ × V → Type κ) (m : List (ℕ × V)) → All P m → All P (pop_last m)
  unfolding pop_last
  All-pop_last P [] a = tt
  All-pop_last P (p ∷ []) a = tt
  All-pop_last P (p ∷ q ∷ m) a = (a.0, All-pop_last P (q ∷ m) a.1)

  pub All-get {κ} :
      (P : ℕ × V → Type κ) (k : ℕ) (v : V) (m : List (ℕ × V))
      → get k m ≡ some v
      → All P m
      → P (k, v)
  unfolding get
  All-get P k v [] e a = cc
  All-get P k v ((j, w) ∷ m) e a = elim (Bool-cases (j == k)) [
    | inl hit ↦
        let key : j ≡ k = ground arith in
        let val : w ≡ v = ground arith in subst₂ (λ x y. P (x, y)) key val a.0
    | inr miss ↦ All-get P k v m (ground arith) a.1
  ]

  pub length-remove :
      (k : ℕ) (v : V) (m : List (ℕ × V)) → get k m ≡ some v → suc (length (remove k m)) ≡ length m
  unfolding get remove
  length-remove k v [] e = cc
  length-remove k v ((j, w) ∷ m) e = ground (arith, length-remove k v m)

  pub length-remove_le : (k : ℕ) (m : List (ℕ × V)) → length (remove k m) ≤ length m
  unfolding remove
  length-remove_le k [] = omega arith
  length-remove_le k ((j, w) ∷ m) = ground (arith, length-remove_le k m)

  -- In a map whose keys start at `n`, the entry at `n` stands first.
  pub first_entry :
      (n : ℕ) (v : V) (m : List (ℕ × V))
      → Ascending n m
      → get n m ≡ some v
      → (rest : List (ℕ × V)) × (m ≡ (n, v) ∷ rest)
  unfolding get
  first_entry n v [] s e = cc
  first_entry n v ((j, w) ∷ m) s e =
      let key : j ≡ n = ground (arith, get_below n (suc j) m s.1) in
      let val : w ≡ v = ground (arith, get_below n (suc j) m s.1) in
      (m, ap₂ (λ x y. (x, y) ∷ m) key val)
