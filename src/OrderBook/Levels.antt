-- ===== src/OrderBook/Levels.antt =====
-- What becomes of the prices and of the shares of one side when a level changes.
use ticktape.Base.{
  ℕ, suc, ◌+◌, ◌≡◌, ◌⊎◌, sym, ap, subst, ◌∙◌, none, some, List, [], ◌∷◌, arith, ◌==◌, if◌then◌else◌,
  length, inl, inr, true, Bool-cases,
}
use ticktape.Base.BTreeMap.{
  get, insert, remove, Ascending, get_below, get-insert, get-remove, insert-Ascending,
  remove-Ascending, length-remove,
}
use ticktape.OrderBook.{Resting, Levels, settle, level_shares, side_shares}

-- An order with this id rests in the level.
abbrev pub Holds : ℕ → List Resting → Type 0
Holds id [] = ⊥
Holds id (o ∷ l) = (id ≡ o.id) ⊎ Holds id l

-- The order rests at this price.
abbrev pub Resides : ℕ → ℕ → Levels → Type 0
Resides id price m = (level : List Resting) × (get price m ≡ some level) × Holds id level

abbrev pub HasLevel : ℕ → Levels → Type 0
HasLevel price m = (level : List Resting) × (get price m ≡ some level)

length-insert :
    (n k : ℕ) (l old : List Resting) (m : Levels)
    → Ascending n m
    → get k m ≡ some old
    → length (insert k l m) ≡ length m
unfolding get insert
length-insert n k l old [] s e = cc
length-insert n k l old ((j, w) ∷ m) s e =
    ground (arith, length-insert (suc j) k l old m s.1, get_below k (suc j) m s.1)

pub insert-shares :
    (n k : ℕ) (l old : List Resting) (m : Levels)
    → Ascending n m
    → get k m ≡ some old
    → side_shares (insert k l m) + level_shares old ≡ side_shares m + level_shares l
unfolding get insert
insert-shares n k l old [] s e = cc
insert-shares n k l old ((j, w) ∷ m) s e =
    ground (arith, insert-shares (suc j) k l old m s.1, get_below k (suc j) m s.1)

pub insert_new-shares :
    (k : ℕ) (l : List Resting) (m : Levels)
    → get k m ≡ none
    → side_shares (insert k l m) ≡ side_shares m + level_shares l
unfolding get insert
insert_new-shares k l [] e = omega arith
insert_new-shares k l ((j, w) ∷ m) e = ground (arith, insert_new-shares k l m)

remove-shares :
    (k : ℕ) (old : List Resting) (m : Levels)
    → get k m ≡ some old
    → side_shares (remove k m) + level_shares old ≡ side_shares m
unfolding get remove
remove-shares k old [] e = cc
remove-shares k old ((j, w) ∷ m) e = ground (arith, remove-shares k old m)

module _ (price : ℕ) (m : Levels) (s : Ascending 0 m) where
  at_price : (level : List Resting) → get price (insert price level m) ≡ some level
  at_price level = get-insert price price level m ∙ ground arith

  settle-nil : settle price [] m ≡ remove price (insert price [] m)
  unfolding settle
  settle-nil = rw (at_price [])

  settle-cons :
      (o : Resting) (level : List Resting) → settle price (o ∷ level) m ≡ insert price (o ∷ level) m
  unfolding settle
  settle-cons o level = rw (at_price (o ∷ level))

  pub settle-Ascending : (level : List Resting) → Ascending 0 (settle price level m)
  settle-Ascending [] =
      rw settle-nil (remove-Ascending price 0 _ (insert-Ascending price 0 [] m (omega arith) s))
  settle-Ascending (o ∷ level) =
      rw (settle-cons o level) (insert-Ascending price 0 (o ∷ level) m (omega arith) s)

  -- The level is at its price, unless it is empty; the others stay.
  pub get-settle_nil : (j : ℕ) → get j (settle price [] m) ≡ (if price == j then none else get j m)
  get-settle_nil j =
      ap (get j) settle-nil
      ∙ get-remove price j 0 _ (insert-Ascending price 0 [] m (omega arith) s)
      ∙ ground (arith, get-insert price j [] m)

  pub get-settle_cons :
      (j : ℕ) (o : Resting) (level : List Resting)
      → get j (settle price (o ∷ level) m) ≡ (if price == j then some (o ∷ level) else get j m)
  get-settle_cons j o level = ap (get j) (settle-cons o level) ∙ get-insert price j (o ∷ level) m

  module _ (old : List Resting) (e : get price m ≡ some old) where
    pub settle-shares :
        (level : List Resting)
        → side_shares (settle price level m) + level_shares old ≡ side_shares m + level_shares level
    settle-shares [] = rw settle-nil (
        omega (
          arith,
          insert-shares 0 price [] old m s e,
          remove-shares price [] (insert price [] m) (at_price []),
        ))
    settle-shares (o ∷ level) =
        rw (settle-cons o level) (insert-shares 0 price (o ∷ level) old m s e)

    pub length-settle_nil : suc (length (settle price [] m)) ≡ length m
    length-settle_nil = rw settle-nil (
        omega (
          arith,
          length-insert 0 price [] old m s e,
          length-remove price [] (insert price [] m) (at_price []),
        ))

    same_level : (p : ℕ) (l : List Resting) → (price == p) ≡ true → get p m ≡ some l → l ≡ old
    same_level p l hit here =
        let key : price ≡ p = ground arith in cc (e, here, ap (λ k. get k m) key)

    -- The orders that stay in the level, and those at other prices, are found where they were.
    pub settle-Resides :
        (level : List Resting) (id p : ℕ)
        → (Holds id old → Holds id level)
        → Resides id p m
        → Resides id p (settle price level m)
    settle-Resides [] id p keep (l, here, held) = elim (Bool-cases (price == p)) [
      | inl hit ↦ absurd (keep (subst (Holds id) (same_level p l hit here) held))
      | inr other ↦ (l, get-settle_nil p ∙ rw other here, held)
    ]
    settle-Resides (o ∷ level) id p keep (l, here, held) = elim (Bool-cases (price == p)) [
      | inl hit ↦ (
        o ∷ level,
        get-settle_cons p o level ∙ rw hit,
        keep (subst (Holds id) (same_level p l hit here) held),
      )
      | inr other ↦ (l, get-settle_cons p o level ∙ rw other here, held)
    ]

    pub settle-HasLevel :
        (level : List Resting) (p : ℕ) → HasLevel p (settle price level m) → HasLevel p m
    settle-HasLevel [] p (l, here) = (l, ground (arith, get-settle_nil p))
    settle-HasLevel (o ∷ level) p (l, here) = elim (Bool-cases (price == p)) [
      | inl hit ↦ let key : price ≡ p = ground arith in (old, ap (λ k. get k m) (sym key) ∙ e)
      | inr other ↦ (l, ground (arith, get-settle_cons p o level))
    ]
