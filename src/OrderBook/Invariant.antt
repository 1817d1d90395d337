-- ===== src/OrderBook/Invariant.antt =====
-- What holds of the book between two commands, and while a taker is matched.
use ticktape.Base.{ℕ, ◌+◌, ◌*◌, ◌<◌, ◌≡◌, refl, some, List, arith}
use ticktape.Base.BTreeMap.{get, Ascending}
use ticktape.OrderBook.{
  Side, buy, sell, Resting, Levels, OrderBook, genesis, levels, with_levels, settle, level_shares,
  side_shares, resting_shares,
}
use ticktape.OrderBook.Levels.{
  Holds, Resides, HasLevel, settle-Ascending, settle-shares, settle-Resides, settle-HasLevel,
}

-- `in_flight` shares are in the hands of the taker.
pub record IsSound (in_flight : ℕ) (b : OrderBook) : Type 0 where
  pub sorted : (s : Side) → Ascending 0 (levels s b)
  pub index_sorted : Ascending 0 b.index
  -- Every accepted share is traded, counted for both sides, canceled, resting or in flight.
  pub conserved :
      b.accepted_shares ≡ 2 * b.traded_shares + b.canceled_shares + resting_shares b + in_flight
  -- An indexed order rests where the index says.
  pub indexed :
      (id : ℕ) (s : Side) (price : ℕ)
      → get id b.index ≡ some (s, price)
      → Resides id price (levels s b)
  pub uncrossed : (bid ask : ℕ) → HasLevel bid b.bids → HasLevel ask b.asks → bid < ask

-- Between two commands nothing is in flight.
abbrev pub IsValid : OrderBook → Type 0
IsValid b = IsSound 0 b

abbrev revise : Side → Levels → List (ℕ × (Side × ℕ)) → ℕ → ℕ → OrderBook → OrderBook
revise side m index traded canceled b =
    with_levels side m
      (record b { index = index; traded_shares = traded; canceled_shares = canceled })

module _ (m : Levels) (index : List (ℕ × (Side × ℕ))) (traded canceled : ℕ) (b : OrderBook) where
  pub revise-levels :
      (P : Levels → Type 0) (side s : Side)
      → (P (levels side b) → P m)
      → P (levels s b)
      → P (levels s (revise side m index traded canceled b))
  revise-levels P buy buy f h = f h
  revise-levels P buy sell f h = h
  revise-levels P sell buy f h = h
  revise-levels P sell sell f h = f h

  pub levels-revise :
      (P : Levels → Type 0) (side s : Side)
      → (P m → P (levels side b))
      → P (levels s (revise side m index traded canceled b))
      → P (levels s b)
  levels-revise P buy buy f h = f h
  levels-revise P buy sell f h = h
  levels-revise P sell buy f h = h
  levels-revise P sell sell f h = f h

  pub resting_shares-revise :
      (side : Side)
      → resting_shares (revise side m index traded canceled b) + side_shares (levels side b)
        ≡ resting_shares b + side_shares m
  unfolding resting_shares
  resting_shares-revise buy = omega arith
  resting_shares-revise sell = omega arith

-- A level of `b` becomes `level`: the shares that leave it are accounted for, and the orders that
-- leave it leave the index.
pub settle-IsSound :
    (n n' : ℕ) (b : OrderBook) (side : Side) (price : ℕ) (old level : List Resting)
    (index : List (ℕ × (Side × ℕ))) (traded canceled : ℕ)
    → IsSound n b
    → get price (levels side b) ≡ some old
    → Ascending 0 index
    → ((id : ℕ) (place : Side × ℕ)
        → get id index ≡ some place
        → (get id b.index ≡ some place) × (Holds id old → Holds id level))
    → 2 * traded + canceled + level_shares level + n'
      ≡ 2 * b.traded_shares + b.canceled_shares + level_shares old + n
    → IsSound n' (revise side (settle price level (levels side b)) index traded canceled b)
settle-IsSound n n' b side price old level index traded canceled v e a kept sum =
    let m = levels side b in
    let m' = settle price level m in
    record {
      sorted = λ s.
          revise-levels m' index traded canceled b (Ascending 0) side s
            (λ h. settle-Ascending price m h level) (v.sorted s);
      index_sorted = a;
      conserved = omega (
        arith,
        v.conserved,
        settle-shares price m (v.sorted side) old e level,
        resting_shares-revise m' index traded canceled b side,
      );
      indexed = λ id s p h.
          let (before, stays) = kept id (s, p) h in
          revise-levels m' index traded canceled b (Resides id p) side s
            (settle-Resides price m (v.sorted side) old e level id p stays)
            (v.indexed id s p before);
      uncrossed = λ bid ask hb ha.
          v.uncrossed bid ask
            (levels-revise m' index traded canceled b (HasLevel bid) side buy
              (settle-HasLevel price m (v.sorted side) old e level bid) hb)
            (levels-revise m' index traded canceled b (HasLevel ask) side sell
              (settle-HasLevel price m (v.sorted side) old e level ask) ha);
    }

pub levels-with_levels :
    (side : Side) (m : Levels) (b : OrderBook) → levels side (with_levels side m b) ≡ m
levels-with_levels buy m b = refl
levels-with_levels sell m b = refl

-- The empty book.
pub genesis-IsValid : IsValid genesis
unfolding genesis resting_shares get
genesis-IsValid = record {
  sorted = λ s. elim s as (λ k. Ascending 0 (levels k genesis)) [ buy ↦ tt | sell ↦ tt ];
  index_sorted = tt;
  conserved = refl;
  indexed = λ id s price h. cc h;
  uncrossed = λ bid ask hb ha. cc (hb.1);
}
