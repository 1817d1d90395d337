-- ===== src/OrderBook/Snapshot/RoundTrip/Index.antt =====
-- The index that a restored book has.
use ticktape.Base.{
  ℕ, suc, ◌≡◌, refl, sym, subst, ◌∙◌, inl, inr, none, some, List, [], ◌∷◌, ◌++◌, arith, Bool-cases,
  ◌⊎◌, ◌==◌, Option-cases,
}
use ticktape.Base.BTreeMap.{get, insert, get-insert, get_below, Ascending, insert-Ascending}
use ticktape.Base.BTreeMap.Extensional.{get-ext}
use ticktape.OrderBook.{Side, buy, sell, Resting, Levels, OrderBook, levels, with_levels}
use ticktape.OrderBook.Levels.{Holds, Resides}
use ticktape.OrderBook.Invariant.{IsValid}
use ticktape.OrderBook.Snapshot.{
  level_rows, serialize, snapshot, restore_orders, restore_levels, restore,
}
use ticktape.OrderBook.Snapshot.RoundTrip.{restore-SameSides}

abbrev pub Index : Type 0
Index = List (ℕ × (Side × ℕ))

-- Every entry of `index` is one of `all`.
abbrev Within : Index → Index → Type 0
Within all index = (k : ℕ) (place : Side × ℕ) → get k index ≡ some place → get k all ≡ some place

insert-Within :
    (all index : Index) (id : ℕ) (place : Side × ℕ)
    → get id all ≡ some place
    → Within all index
    → Within all (insert id place index)
insert-Within all index id place there h k q e = elim (Bool-cases (id == k)) [
  | inl hit ↦ ground (arith, e, hit, there, get-insert id k place index)
  | inr miss ↦ h k q (ground (arith, e, miss, get-insert id k place index))
]

-- The entry for `k` is there.
abbrev Present : ℕ → Index → Type 0
Present k index = (place : Side × ℕ) × (get k index ≡ some place)

insert-Present :
    (k id : ℕ) (place : Side × ℕ) (index : Index)
    → Present k index
    → Present k (insert id place index)
insert-Present k id place index (q, e) = elim (Bool-cases (id == k)) [
  | inl hit ↦ (place, get-insert id k place index ∙ rw hit)
  | inr miss ↦ (q, get-insert id k place index ∙ rw miss e)
]

insert-Present_self :
    (k id : ℕ) (place : Side × ℕ) (index : Index) → k ≡ id → Present k (insert id place index)
insert-Present_self k id place index same =
    (place, get-insert id k place index ∙ ground (arith, same))

-- What a part of the restoring does to the index: it keeps the order, adds entries of `all` only,
-- and loses none.
record Extends (all index index' : Index) : Type 0 where
  ascending : Ascending 0 index'
  within : Within all index'
  keeps : (k : ℕ) → Present k index → Present k index'

restore_orders-Extends :
    (all : Index) (side : Side) (price : ℕ) (l acc : List Resting) (index : Index)
    → ((id : ℕ) → Holds id l → get id all ≡ some (side, price))
    → Ascending 0 index
    → Within all index
    → Extends all index (restore_orders side price (level_rows l) acc index).1
unfolding restore_orders
restore_orders-Extends all side price [] acc index listed a w = record {
  ascending = a;
  within = w;
  keeps = λ k p. p;
}
restore_orders-Extends all side price (o ∷ l) acc index listed a w =
    let rest =
      restore_orders-Extends all side price l (acc ++ (o ∷ [])) (insert o.id (side, price) index)
        (λ id h. listed id (inr h)) (insert-Ascending o.id 0 (side, price) index (omega arith) a)
        (insert-Within all index o.id (side, price) (listed o.id (inl refl)) w) in
    record {
      ascending = rest.ascending;
      within = rest.within;
      keeps = λ k p. rest.keeps k (insert-Present k o.id (side, price) index p);
    }

restore_orders-Present :
    (all : Index) (side : Side) (price : ℕ) (l acc : List Resting) (index : Index) (k : ℕ)
    → ((id : ℕ) → Holds id l → get id all ≡ some (side, price))
    → Ascending 0 index
    → Within all index
    → Holds k l
    → Present k (restore_orders side price (level_rows l) acc index).1
unfolding restore_orders
restore_orders-Present all side price [] acc index k listed a w h = absurd h
restore_orders-Present all side price (o ∷ l) acc index k listed a w (inr h) =
    restore_orders-Present all side price l (acc ++ (o ∷ [])) (insert o.id (side, price) index) k
      (λ id q. listed id (inr q)) (insert-Ascending o.id 0 (side, price) index (omega arith) a)
      (insert-Within all index o.id (side, price) (listed o.id (inl refl)) w) h
restore_orders-Present all side price (o ∷ l) acc index k listed a w (inl same) =
    let rest =
      restore_orders-Extends all side price l (acc ++ (o ∷ [])) (insert o.id (side, price) index)
        (λ id q. listed id (inr q)) (insert-Ascending o.id 0 (side, price) index (omega arith) a)
        (insert-Within all index o.id (side, price) (listed o.id (inl refl)) w) in
    rest.keeps k (insert-Present_self k o.id (side, price) index same)

-- An order that rests in the rows of a side, with its place in `all`.
abbrev ListedIn : Index → Side → Levels → Type 0
ListedIn all side m = (id price : ℕ) → Resides id price m → get id all ≡ some (side, price)

Resides-later :
    (id price p n : ℕ) (l : List Resting) (m : Levels)
    → Ascending n ((p, l) ∷ m)
    → Resides id price m
    → Resides id price ((p, l) ∷ m)
unfolding get
Resides-later id price p n l m a (level, here, held) = elim (Bool-cases (p == price)) [
  | inl hit ↦
      let gone : get price m ≡ none = ground (arith, hit, get_below price (suc p) m a.1) in
      absurd (cc (gone, here))
  | inr miss ↦ (level, ground (arith, miss, here), held)
]

Resides-first : (id p : ℕ) (l : List Resting) (m : Levels) → Holds id l → Resides id p ((p, l) ∷ m)
unfolding get
Resides-first id p l m h = (l, ground arith, h)

Resides-split :
    (id price p : ℕ) (l : List Resting) (m : Levels)
    → Resides id price ((p, l) ∷ m)
    → Holds id l ⊎ Resides id price m
unfolding get
Resides-split id price p l m (level, here, held) = elim (Bool-cases (p == price)) [
  | inl hit ↦
      let same : l ≡ level = ground (arith, hit, here) in inl (subst (Holds id) (sym same) held)
  | inr miss ↦ inr (level, ground (arith, miss, here), held)
]

with_levels-index :
    (side : Side) (m : Levels) (b : OrderBook) → (with_levels side m b).index ≡ b.index
with_levels-index buy m b = refl
with_levels-index sell m b = refl

module _ (all : Index) (side : Side) (p : ℕ) (l : List Resting) (m : Levels) (b : OrderBook) (n : ℕ)
    (a : Ascending n ((p, l) ∷ m)) (listed : ListedIn all side ((p, l) ∷ m))
    (ai : Ascending 0 b.index) (w : Within all b.index) where
  abbrev row : List Resting × Index
  row = restore_orders side p (level_rows l) [] b.index

  abbrev next : OrderBook
  next = with_levels side (insert p row.0 (levels side b)) (record b { index = row.1 })

  next-index : next.index ≡ row.1
  next-index = with_levels-index side (insert p row.0 (levels side b)) (record b { index = row.1 })

  row-Extends : Extends all b.index row.1
  row-Extends =
      restore_orders-Extends all side p l [] b.index
        (λ id h. listed id p (Resides-first id p l m h)) ai w

  row-Present : (k : ℕ) → Holds k l → Present k row.1
  row-Present k h =
      restore_orders-Present all side p l [] b.index k
        (λ id q. listed id p (Resides-first id p l m q)) ai w h

  next-Extends : Extends all b.index next.index
  next-Extends = subst (Extends all b.index) (sym next-index) row-Extends

  next-Present : (k : ℕ) → Holds k l → Present k next.index
  next-Present k h = subst (Present k) (sym next-index) (row-Present k h)

  listed_later : ListedIn all side m
  listed_later id price h = listed id price (Resides-later id price p n l m a h)

restore_levels-Extends :
    (all : Index) (side : Side) (m : Levels) (b : OrderBook) (n : ℕ)
    → Ascending n m
    → ListedIn all side m
    → Ascending 0 b.index
    → Within all b.index
    → Extends all b.index (restore_levels side (serialize m) b).index
unfolding restore_levels
restore_levels-Extends all side [] b n a listed ai w = record {
  ascending = ai;
  within = w;
  keeps = λ k p. p;
}
restore_levels-Extends all side ((p, l) ∷ m) b n a listed ai w =
    let first = next-Extends all side p l m b n a listed ai w in
    let rest =
      restore_levels-Extends all side m (next all side p l m b n a listed ai w) (suc p) a.1
        (listed_later all side p l m b n a listed ai w) first.ascending first.within in
    record {
      ascending = rest.ascending;
      within = rest.within;
      keeps = λ k q. rest.keeps k (first.keeps k q);
    }

-- Every order that rests in the rows gets its entry.
restore_levels-Present :
    (all : Index) (side : Side) (m : Levels) (b : OrderBook) (n k price : ℕ)
    → Ascending n m
    → ListedIn all side m
    → Ascending 0 b.index
    → Within all b.index
    → Resides k price m
    → Present k (restore_levels side (serialize m) b).index
unfolding restore_levels get
restore_levels-Present all side [] b n k price a listed ai w (level, here, held) = cc here
restore_levels-Present all side ((p, l) ∷ m) b n k price a listed ai w h =
    let first = next-Extends all side p l m b n a listed ai w in
    let b' = next all side p l m b n a listed ai w in
    let later = listed_later all side p l m b n a listed ai w in
    elim (Resides-split k price p l m h) [
      | inl held ↦
          (restore_levels-Extends all side m b' (suc p) a.1 later first.ascending
              first.within).keeps
            k (next-Present all side p l m b n a listed ai w k held)
      | inr rest ↦
          restore_levels-Present all side m b' (suc p) k price a.1 later first.ascending
            first.within rest
    ]

-- Every resting order is indexed at its place.
pub record IsListed (b : OrderBook) : Type 0 where
  pub listed_bids : (id price : ℕ) → Resides id price b.bids → get id b.index ≡ some (buy, price)
  pub listed_asks : (id price : ℕ) → Resides id price b.asks → get id b.index ≡ some (sell, price)

module _ (b : OrderBook) (v : IsValid b) (listed : IsListed b) where
  abbrev empty : OrderBook
  empty = record b { bids = []; asks = []; index = [] }

  abbrev half : OrderBook
  half = restore_levels buy (serialize b.bids) empty

  empty-Within : Within b.index []
  unfolding get
  empty-Within k place e = cc

  half-Extends : Extends b.index [] half.index
  half-Extends =
      restore_levels-Extends b.index buy b.bids empty 0 (v.sorted buy) listed.listed_bids tt
        empty-Within

  abbrev full : OrderBook
  full = restore_levels sell (serialize b.asks) half

  full-Extends : Extends b.index half.index full.index
  full-Extends =
      restore_levels-Extends b.index sell b.asks half 0 (v.sorted sell) listed.listed_asks
        half-Extends.ascending half-Extends.within

  full-Present :
      (k : ℕ) (side : Side) (price : ℕ) → get k b.index ≡ some (side, price) → Present k full.index
  full-Present k buy price e = full-Extends.keeps k (
      restore_levels-Present b.index buy b.bids empty 0 k price (v.sorted buy) listed.listed_bids tt
        empty-Within (v.indexed k buy price e))
  full-Present k sell price e =
      restore_levels-Present b.index sell b.asks half 0 k price (v.sorted sell) listed.listed_asks
        half-Extends.ascending half-Extends.within (v.indexed k sell price e)

  full-get : (k : ℕ) → get k full.index ≡ get k b.index
  full-get k = elim (Option-cases (get k b.index)) [
    | inl absent ↦ elim (Option-cases (get k full.index)) [
      | inl gone ↦ gone ∙ sym absent
      | inr (place, there) ↦ there ∙ sym (full-Extends.within k place there)
    ]
    | inr (place, there) ↦
        let (q, e) = full-Present k place.0 place.1 there in e ∙ sym (full-Extends.within k q e)
  ]

  full-index : full.index ≡ b.index
  full-index = get-ext 0 full.index b.index full-Extends.ascending v.index_sorted full-get

-- Restoring the snapshot of a valid book in which every resting order is indexed at its place gives
-- back that very book: both sides with every queue in order, the index and the ledger.
pub restore-snapshot_book : (b : OrderBook) → IsValid b → IsListed b → restore (snapshot b) ≡ b
unfolding restore snapshot
restore-snapshot_book b v listed =
    let same = restore-SameSides b v in
    λ i. record {
      bids = same.same_bids i;
      asks = same.same_asks i;
      index = full-index b v listed i;
      accepted_shares = same.same_accepted i;
      traded_shares = same.same_traded i;
      canceled_shares = same.same_canceled i;
    }
