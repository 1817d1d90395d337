-- ===== src/OrderBook/Commands/Rest.antt =====
-- What remains of a taker rests on the book.
use ticktape.Base.{
  ℕ, ◌+◌, ◌<◌, ◌≡◌, ◌⊎◌, inl, inr, refl, sym, ap, subst, ◌∙◌, Option, some, List, [], ◌∷◌, ◌++◌,
  arith, ◌==◌, if◌then◌else◌, Bool-cases, Option-cases,
}
use ticktape.Base.BTreeMap.{get, insert, get-insert, Ascending, insert-Ascending}
use ticktape.OrderBook.{
  Side, buy, sell, Resting, Levels, OrderBook, levels, level_shares, side_shares,
}
use ticktape.OrderBook.Levels.{Holds, Resides, HasLevel, insert-shares, insert_new-shares}
use ticktape.OrderBook.Matching.Prices.{Excluded}
use ticktape.OrderBook.Invariant.{
  IsSound, IsValid, revise-levels, levels-with_levels, resting_shares-revise,
}
use ticktape.OrderBook.Commands.{or_default, push_back, rested}

Holds-append_left :
    (id : ℕ) (l : List Resting) (o : Resting) → Holds id l → Holds id (l ++ (o ∷ []))
Holds-append_left id [] o h = absurd h
Holds-append_left id (x ∷ l) o (inl e) = inl e
Holds-append_left id (x ∷ l) o (inr h) = inr (Holds-append_left id l o h)

Holds-append_last : (l : List Resting) (o : Resting) → Holds o.id (l ++ (o ∷ []))
Holds-append_last [] o = inl refl
Holds-append_last (x ∷ l) o = inr (Holds-append_last l o)

level_shares-append :
    (l : List Resting) (o : Resting) → level_shares (l ++ (o ∷ [])) ≡ level_shares l + o.qty
level_shares-append [] o = omega arith
level_shares-append (x ∷ l) o = omega (arith, level_shares-append l o)

-- The side for whose makers a taker looks.
abbrev pub maker : Side → Side
maker buy = sell
maker sell = buy

module _ (price : ℕ) (o : Resting) (m : Levels) (s : Ascending 0 m) where
  push_back-Ascending : Ascending 0 (push_back price o m)
  unfolding push_back
  push_back-Ascending = insert-Ascending price 0 _ m (omega arith) s

  get-push_back :
      (j : ℕ)
      → get j (push_back price o m)
        ≡ (if price == j then some (or_default (get price m) ++ (o ∷ [])) else get j m)
  unfolding push_back
  get-push_back j = get-insert price j _ m

  push_back-shares : side_shares (push_back price o m) ≡ side_shares m + o.qty
  unfolding push_back
  push_back-shares = elim (Option-cases (get price m)) [
    | inl fresh ↦ rw fresh (omega (arith, insert_new-shares price (o ∷ []) m fresh))
    | inr (l, here) ↦
        rw here
          (omega (arith, insert-shares 0 price (l ++ (o ∷ [])) l m s here, level_shares-append l o))
  ]

  push_back-new : Resides o.id price (push_back price o m)
  push_back-new =
      (_, get-push_back price ∙ ground arith, Holds-append_last (or_default (get price m)) o)

  push_back-Resides : (id p : ℕ) → Resides id p m → Resides id p (push_back price o m)
  push_back-Resides id p (l, here, held) = elim (Bool-cases (price == p)) [
    | inl hit ↦
        let key : price ≡ p = ground arith in
        let there : get price m ≡ some l = ap (λ k. get k m) key ∙ here in
        (l ++ (o ∷ []), get-push_back p ∙ rw (hit, there), Holds-append_left id l o held)
    | inr other ↦ (l, get-push_back p ∙ rw other here, held)
  ]

  push_back-HasLevel : (p : ℕ) → HasLevel p (push_back price o m) → (p ≡ price) ⊎ HasLevel p m
  push_back-HasLevel p (l, here) = elim (Bool-cases (price == p)) [
    | inl hit ↦ inl (ground arith)
    | inr other ↦ inr (l, ground (arith, get-push_back p))
  ]

-- An order that rests at a price which excludes all makers leaves the book uncrossed.
rested-uncrossed :
    (side : Side) (id price qty : ℕ) (b : OrderBook)
    → IsSound qty b
    → ((q : ℕ) → HasLevel q (levels (maker side) b) → Excluded (maker side) price q)
    → (bid ask : ℕ) → HasLevel bid (rested id side price qty b).bids
    → HasLevel ask (rested id side price qty b).asks
    → bid < ask
unfolding rested
rested-uncrossed buy id price qty b v clear bid ask hb ha =
    elim (push_back-HasLevel price _ b.bids (v.sorted buy) bid hb) [
      | inl e ↦ omega (arith, clear ask ha)
      | inr old ↦ v.uncrossed bid ask old ha
    ]
rested-uncrossed sell id price qty b v clear bid ask hb ha =
    elim (push_back-HasLevel price _ b.asks (v.sorted sell) ask ha) [
      | inl e ↦ omega (arith, clear bid hb)
      | inr old ↦ v.uncrossed bid ask hb old
    ]

module _ (id : ℕ) (side : Side) (price qty : ℕ) (b : OrderBook) (v : IsSound qty b) where
  abbrev order : Resting
  order = record { id = id; qty = qty }

  abbrev pushed : Levels
  pushed = push_back price order (levels side b)

  new_place :
      (k : ℕ) (s : Side) (p : ℕ)
      → id ≡ k
      → ◌≡◌ {A = Option (Side × ℕ)} (some (side, price)) (some (s, p))
      → Resides k p (levels s (rested id side price qty b))
  unfolding rested
  new_place k s p same e =
      let place : ◌≡◌ {A = Side × ℕ} (side, price) (s, p) = cc e in
      let there : Resides id price (levels side (rested id side price qty b)) =
        subst (Resides id price) (sym (levels-with_levels side pushed _))
          (push_back-new price order (levels side b) (v.sorted side)) in
      subst (λ (at : Side × ℕ). Resides k at.1 (levels at.0 (rested id side price qty b))) place
        (subst (λ n. Resides n price (levels side (rested id side price qty b))) same there)

  rested-indexed :
      (k : ℕ) (s : Side) (p : ℕ)
      → get k (insert id (side, price) b.index) ≡ some (s, p)
      → Resides k p (levels s (rested id side price qty b))
  unfolding rested
  rested-indexed k s p e = elim (Bool-cases (id == k)) [
    | inl hit ↦
        new_place k s p (ground arith) (ground (arith, get-insert id k (side, price) b.index))
    | inr other ↦
        revise-levels pushed (insert id (side, price) b.index) b.traded_shares b.canceled_shares b
          (Resides k p) side s (push_back-Resides price order (levels side b) (v.sorted side) k p)
          (v.indexed k s p (ground (arith, get-insert id k (side, price) b.index)))
  ]

  pub rested-IsValid :
      ((q : ℕ) → HasLevel q (levels (maker side) b) → Excluded (maker side) price q)
      → IsValid (rested id side price qty b)
  unfolding rested
  rested-IsValid clear = record {
    sorted = λ s.
        revise-levels pushed (insert id (side, price) b.index) b.traded_shares b.canceled_shares b
          (Ascending 0) side s (push_back-Ascending price order (levels side b)) (v.sorted s);
    index_sorted = insert-Ascending id 0 (side, price) b.index (omega arith) v.index_sorted;
    conserved = omega (
      arith,
      v.conserved,
      push_back-shares price order (levels side b) (v.sorted side),
      resting_shares-revise pushed (insert id (side, price) b.index) b.traded_shares
          b.canceled_shares b side,
    );
    indexed = rested-indexed;
    uncrossed = rested-uncrossed side id price qty b v clear;
  }
