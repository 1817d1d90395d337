-- ===== src/OrderBook/Snapshot.antt =====
-- The canonical snapshot of the book.
pub mod RoundTrip
use ticktape.Base.{
  ℕ, suc, ◌≤◌, ◌≡◌, refl, sym, ap, subst, ◌∙◌, List, [], ◌∷◌, ◌++◌, arith, append-nil, append_assoc,
  ltb, ◌==◌, if◌then◌else◌,
}
use ticktape.Base.BTreeMap.{insert, Ascending}
use ticktape.OrderBook.{Side, buy, sell, Resting, Levels, OrderBook, levels, with_levels}
use ticktape.OrderBook.Invariant.{IsValid}

pub record BookSnapshot : Type 0 where
  pub bids : List (ℕ × List (ℕ × ℕ))
  pub asks : List (ℕ × List (ℕ × ℕ))
  pub accepted_shares : ℕ
  pub traded_shares : ℕ
  pub canceled_shares : ℕ

abbrev pub level_rows : List Resting → List (ℕ × ℕ)
level_rows [] = []
level_rows (o ∷ l) = (o.id, o.qty) ∷ level_rows l

abbrev pub serialize : Levels → List (ℕ × List (ℕ × ℕ))
serialize [] = []
serialize ((price, level) ∷ m) = (price, level_rows level) ∷ serialize m

pub snapshot : OrderBook → BookSnapshot
snapshot b = record {
  bids = serialize b.bids;
  asks = serialize b.asks;
  accepted_shares = b.accepted_shares;
  traded_shares = b.traded_shares;
  canceled_shares = b.canceled_shares;
}

-- `for (id, qty) in orders`: the level and the index.
pub restore_orders :
    Side
    → ℕ
    → List (ℕ × ℕ)
    → List Resting
    → List (ℕ × (Side × ℕ))
    → List Resting × List (ℕ × (Side × ℕ))
restore_orders side price [] level index = (level, index)
restore_orders side price ((id, qty) ∷ orders) level index =
    restore_orders side price orders (level ++ (record { id = id; qty = qty } ∷ []))
      (insert id (side, price) index)

-- `for (price, orders) in levels`
pub restore_levels : Side → List (ℕ × List (ℕ × ℕ)) → OrderBook → OrderBook
unfolding restore_orders
restore_levels side [] b = b
restore_levels side ((price, orders) ∷ rows) b =
    let restored = restore_orders side price orders [] b.index in
    restore_levels side rows
      (with_levels side (insert price restored.0 (levels side b)) (record b { index = restored.1 }))

pub restore : BookSnapshot → OrderBook
unfolding restore_levels
restore snap = restore_levels sell snap.asks (
    restore_levels buy snap.bids (record {
      bids = [];
      asks = [];
      index = [];
      accepted_shares = snap.accepted_shares;
      traded_shares = snap.traded_shares;
      canceled_shares = snap.canceled_shares;
    }))
