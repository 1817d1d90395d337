-- ===== src/OrderBook/Matching/Prices.antt =====
-- The best price of a side, and why matching stops.
use ticktape.Base.{
  ℕ, suc, ◌≤◌, ◌<◌, ◌≡◌, inl, inr, refl, subst, true, Option, none, some, List, [], ◌∷◌, arith, ltb,
  ◌==◌, Bool-cases,
}
use ticktape.Base.BTreeMap.{get, first_key, last_key, Ascending, get_below}
use ticktape.OrderBook.{Side, buy, sell, Resting, Levels}
use ticktape.OrderBook.Levels.{HasLevel}
use ticktape.OrderBook.Matching.{best, stop_at, next_price}

-- `p` is at least as good as `q` for a taker.
abbrev pub AtLeast : Side → ℕ → ℕ → Type 0
AtLeast sell p q = p ≤ q
AtLeast buy p q = q ≤ p

-- The taker's limit excludes the price.
abbrev pub Excluded : Side → ℕ → ℕ → Type 0
Excluded sell limit q = limit < q
Excluded buy limit q = q < limit

-- What the best price is.
abbrev pub IsBest : Side → Levels → Option ℕ → Type 0
IsBest side m none = (q : ℕ) → HasLevel q m → ⊥
IsBest side m (some p) = HasLevel p m × ((q : ℕ) → HasLevel q m → AtLeast side p q)

pub first-IsBest : (n : ℕ) (m : Levels) → Ascending n m → IsBest sell m (first_key m)
unfolding first_key get
first-IsBest n [] s = λ q h. cc (h.1)
first-IsBest n ((k, l) ∷ m) s =
    ((l, ground arith), λ q h. ground (arith, h.1, get_below q (suc k) m s.1))

-- A lower price in front does not change the highest one.
cons-IsBest :
    (k : ℕ) (l : List Resting) (p : ℕ × List Resting) (m : Levels) (o : Option ℕ)
    → Ascending (suc k) (p ∷ m)
    → IsBest buy (p ∷ m) o
    → IsBest buy ((k, l) ∷ p ∷ m) o
unfolding get
cons-IsBest k l p m none s h = absurd (h p.0 (p.1, ground arith))
cons-IsBest k l p m (some r) s ((l', there), top) =
    let below : suc k ≤ r = above k r l' (p ∷ m) s there in
    (
      (l', ground arith),
      λ q h. elim (Bool-cases (k == q)) [
        | inl hit ↦ ground arith
        | inr other ↦ top q (h.0, ground arith)
      ],
    )
  where
    above :
        (k r : ℕ) (l : List Resting) (m : Levels)
        → Ascending (suc k) m
        → get r m ≡ some l
        → suc k ≤ r
    above k r l m s e = ground (arith, get_below r (suc k) m s)

pub last-IsBest : (n : ℕ) (m : Levels) → Ascending n m → IsBest buy m (last_key m)
unfolding last_key get
last-IsBest n [] s = λ q h. cc (h.1)
last-IsBest n ((k, l) ∷ []) s = ((l, ground arith), λ q h. ground (arith, h.1))
last-IsBest n ((k, l) ∷ p ∷ m) s = cons-IsBest k l p m _ s.1 (last-IsBest (suc k) (p ∷ m) s.1)

best-IsBest : (side : Side) (m : Levels) → Ascending 0 m → IsBest side m (best side m)
unfolding best
best-IsBest sell m s = first-IsBest 0 m s
best-IsBest buy m s = last-IsBest 0 m s

stop_at-some :
    (side : Side) (limit p : ℕ) (m : Levels) (o : Option ℕ)
    → IsBest side m o
    → stop_at side limit o ≡ some p
    → HasLevel p m
unfolding stop_at
stop_at-some side limit p m none h e = cc e
stop_at-some side limit p m (some r) h e =
    let same : r ≡ p = ground arith in subst (λ k. HasLevel k m) same h.0

stop_at-none :
    (side : Side) (limit : ℕ) (m : Levels) (o : Option ℕ)
    → IsBest side m o
    → stop_at side limit o ≡ none
    → (q : ℕ) → HasLevel q m
    → Excluded side limit q
unfolding stop_at
stop_at-none side limit m none h e q l = absurd (h q l)
stop_at-none sell limit m (some r) h e q l = ground (arith, h.1 q l)
stop_at-none buy limit m (some r) h e q l = ground (arith, h.1 q l)

module _ (side : Side) (limit qty : ℕ) (m : Levels) (s : Ascending 0 m) where
  pub next_price-some :
      (p : ℕ) → next_price side limit qty m ≡ some p → (ltb 0 qty ≡ true) × HasLevel p m
  unfolding next_price
  next_price-some p e =
      let more : ltb 0 qty ≡ true = ground arith in
      (more, stop_at-some side limit p m (best side m) (best-IsBest side m s) (ground arith))

  -- Matching stops when nothing is left to fill, or when the limit excludes every level.
  pub next_price-none :
      next_price side limit qty m ≡ none
      → ltb 0 qty ≡ true
      → (q : ℕ) → HasLevel q m
      → Excluded side limit q
  unfolding next_price
  next_price-none e more =
      stop_at-none side limit m (best side m) (best-IsBest side m s) (ground arith)

-- Nothing to fill, or no level: matching stops.
pub next_price-filled : (side : Side) (limit : ℕ) (m : Levels) → next_price side limit 0 m ≡ none
unfolding next_price
next_price-filled side limit m = refl

pub next_price-nil : (side : Side) (limit qty : ℕ) → next_price side limit qty [] ≡ none
unfolding next_price stop_at best first_key last_key
next_price-nil buy limit qty = ground arith
next_price-nil sell limit qty = ground arith
