-- ===== src/OrderBook/Commands/Withdraw.antt =====
-- Taking an indexed order off the book.
use ticktape.Base.{
  ℕ, ◌+◌, ◌≡◌, ◌≢◌, inl, inr, false, some, List, [], ◌∷◌, arith, ◌==◌, Bool-cases, ok,
}
use ticktape.Base.BTreeMap.{get, remove, get-remove, Ascending, remove-Ascending}
use ticktape.OrderBook.{Side, Resting, OrderBook, levels, level_shares}
use ticktape.OrderBook.Levels.{Holds}
use ticktape.OrderBook.Invariant.{IsValid, settle-IsSound}
use ticktape.OrderBook.Commands.{take_order, withdrawn, withdraw}

-- The first order with this id is taken; the others stay.
record Taken (id : ℕ) (level : List Resting) : Type 0 where
  order : Resting
  left : List Resting
  taken : take_order id level ≡ some (order, left)
  shares : level_shares left + order.qty ≡ level_shares level
  stay : (k : ℕ) → k ≢ id → Holds k level → Holds k left

Taken-cons :
    (id : ℕ) (o : Resting) (l : List Resting) → (o.id == id) ≡ false → Taken id l → Taken id (o ∷ l)
unfolding take_order
Taken-cons id o l other t = record {
  order = t.order;
  left = o ∷ t.left;
  taken = rw (other, t.taken);
  shares = omega (arith, t.shares);
  stay = λ k ne h. elim h [ inl hit ↦ inl hit | inr there ↦ inr (t.stay k ne there) ];
}

take_order-Taken : (id : ℕ) (level : List Resting) → Holds id level → Taken id level
take_order-Taken id [] h = absurd h
take_order-Taken id (o ∷ l) h = elim (Bool-cases (o.id == id)) [
  | inl hit ↦ record {
    order = o;
    left = l;
    taken = unfold take_order in rw hit;
    shares = omega arith;
    stay = λ k ne there. elim there [ inl e ↦ absurd (ne (ground arith)) | inr t ↦ t ];
  }
  | inr other ↦ elim h [
    | inl e ↦ absurd (ground arith)
    | inr there ↦ Taken-cons id o l other (take_order-Taken id l there)
  ]
]

still_indexed :
    (id k : ℕ) (place : Side × ℕ) (index : List (ℕ × (Side × ℕ)))
    → Ascending 0 index
    → get k (remove id index) ≡ some place
    → (get k index ≡ some place) × (k ≢ id)
still_indexed id k place index s e = ground (arith, get-remove id k 0 index s)

withdrawn-IsValid :
    (id : ℕ) (side : Side) (price : ℕ) (b : OrderBook) (level : List Resting) (t : Taken id level)
    → IsValid b
    → get price (levels side b) ≡ some level
    → IsValid (withdrawn id side price b t.order t.left)
unfolding withdrawn
withdrawn-IsValid id side price b level t v here =
    settle-IsSound 0 0 b side price level t.left (remove id b.index) b.traded_shares
      (b.canceled_shares + t.order.qty) v here (remove-Ascending id 0 b.index v.index_sorted)
      (λ k place g.
        let (before, other) = still_indexed id k place b.index v.index_sorted g in
        (before, t.stay k other))
      (omega (arith, t.shares))

withdraw-eq :
    (id : ℕ) (side : Side) (price : ℕ) (b : OrderBook) (level : List Resting) (t : Taken id level)
    → get price (levels side b) ≡ some level
    → withdraw id (side, price) b ≡ ok (withdrawn id side price b t.order t.left, t.order)
unfolding withdraw
withdraw-eq id side price b level t here = rw (here, t.taken)

-- An order that the index of a valid book names can be withdrawn.
pub withdraw-ok :
    (id : ℕ) (side : Side) (price : ℕ) (b : OrderBook)
    → IsValid b
    → get id b.index ≡ some (side, price)
    → (s : OrderBook × Resting) × (withdraw id (side, price) b ≡ ok s) × IsValid s.0
withdraw-ok id side price b v e =
    let (level, here, held) = v.indexed id side price e in
    let t = take_order-Taken id level held in
    (
      (withdrawn id side price b t.order t.left, t.order),
      withdraw-eq id side price b level t here,
      withdrawn-IsValid id side price b level t v here,
    )
