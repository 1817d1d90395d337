-- ===== src/OrderBook/Snapshot/RoundTrip.antt =====
-- Restoring a snapshot: the sides, the ledger and the index.
pub mod Index
use ticktape.Base.{
  ℕ, suc, ◌≤◌, ◌≡◌, refl, sym, ap, subst, ◌∙◌, List, [], ◌∷◌, ◌++◌, arith, append-nil, append_assoc,
}
use ticktape.Base.BTreeMap.{insert, Ascending}
use ticktape.OrderBook.{Side, buy, sell, Resting, Levels, OrderBook}
use ticktape.OrderBook.Invariant.{IsValid}
use ticktape.OrderBook.Snapshot.{
  level_rows, serialize, snapshot, restore_orders, restore_levels, restore,
}

restore_orders-level :
    (side : Side) (price : ℕ) (l acc : List Resting) (index : List (ℕ × (Side × ℕ)))
    → (restore_orders side price (level_rows l) acc index).0 ≡ acc ++ l
unfolding restore_orders
restore_orders-level side price [] acc index = sym (append-nil acc)
restore_orders-level side price (o ∷ l) acc index =
    restore_orders-level side price l (acc ++ (o ∷ [])) (insert o.id (side, price) index)
    ∙ append_assoc acc (o ∷ []) l

Ascending-le :
    (n k : ℕ) (v : List Resting) (front m : Levels) → Ascending n (front ++ ((k, v) ∷ m)) → n ≤ k
Ascending-le n k v [] m s = s.0
Ascending-le n k v ((j, w) ∷ front) m s = omega (arith, s.0, Ascending-le (suc j) k v front m s.1)

-- A key beyond all others is inserted at the end.
insert-last :
    (n k : ℕ) (v : List Resting) (front m : Levels)
    → Ascending n (front ++ ((k, v) ∷ m))
    → insert k v front ≡ front ++ ((k, v) ∷ [])
unfolding insert
insert-last n k v [] m s = refl
insert-last n k v ((j, w) ∷ front) m s =
    ground (arith, insert-last (suc j) k v front m s.1, Ascending-le (suc j) k v front m s.1)

-- What `restore_levels` leaves alone.
record SameLedger (b b' : OrderBook) : Type 0 where
  accepted_same : b'.accepted_shares ≡ b.accepted_shares
  traded_same : b'.traded_shares ≡ b.traded_shares
  canceled_same : b'.canceled_shares ≡ b.canceled_shares

restore_levels-SameLedger :
    (side : Side) (rows : List (ℕ × List (ℕ × ℕ))) (b : OrderBook)
    → SameLedger b (restore_levels side rows b)
unfolding restore_levels
restore_levels-SameLedger side [] b = record {
  accepted_same = refl;
  traded_same = refl;
  canceled_same = refl;
}
restore_levels-SameLedger side ((price, orders) ∷ rows) b =
    let rest = restore_levels-SameLedger side rows _ in
    record {
      accepted_same = rest.accepted_same;
      traded_same = rest.traded_same;
      canceled_same = rest.canceled_same;
    }

-- One row of the snapshot is put behind the rows before it.
insert_row :
    (side : Side) (price : ℕ) (level : List Resting) (index : List (ℕ × (Side × ℕ)))
    (m front rows : Levels)
    → Ascending 0 (front ++ ((price, level) ∷ rows))
    → m ≡ front
    → insert price (restore_orders side price (level_rows level) [] index).0 m
      ≡ front ++ ((price, level) ∷ [])
insert_row side price level index m front rows s e =
    ap (λ l. insert price l m) (restore_orders-level side price level [] index)
    ∙ ap (insert price level) e
    ∙ insert-last 0 price level front rows s

module _ (price : ℕ) (level : List Resting) (m front : Levels)
    (s : Ascending 0 (front ++ ((price, level) ∷ m))) where
  regrouped : Ascending 0 ((front ++ ((price, level) ∷ [])) ++ m)
  regrouped = subst (Ascending 0) (sym (append_assoc front ((price, level) ∷ []) m)) s

restore_levels-bids :
    (m front : Levels) (b : OrderBook)
    → Ascending 0 (front ++ m)
    → b.bids ≡ front
    → (restore_levels buy (serialize m) b).bids ≡ front ++ m
unfolding restore_levels
restore_levels-bids [] front b s e = e ∙ sym (append-nil front)
restore_levels-bids ((price, level) ∷ m) front b s e =
    restore_levels-bids m (front ++ ((price, level) ∷ [])) _ (regrouped price level m front s)
      (insert_row buy price level b.index b.bids front m s e)
    ∙ append_assoc front ((price, level) ∷ []) m

restore_levels-asks :
    (m front : Levels) (b : OrderBook)
    → Ascending 0 (front ++ m)
    → b.asks ≡ front
    → (restore_levels sell (serialize m) b).asks ≡ front ++ m
unfolding restore_levels
restore_levels-asks [] front b s e = e ∙ sym (append-nil front)
restore_levels-asks ((price, level) ∷ m) front b s e =
    restore_levels-asks m (front ++ ((price, level) ∷ [])) _ (regrouped price level m front s)
      (insert_row sell price level b.index b.asks front m s e)
    ∙ append_assoc front ((price, level) ∷ []) m

-- A side is restored without touching the other one.
asks_untouched :
    (rows : List (ℕ × List (ℕ × ℕ))) (b : OrderBook) → (restore_levels buy rows b).asks ≡ b.asks
unfolding restore_levels
asks_untouched [] b = refl
asks_untouched ((price, orders) ∷ rows) b = asks_untouched rows _

bids_untouched :
    (rows : List (ℕ × List (ℕ × ℕ))) (b : OrderBook) → (restore_levels sell rows b).bids ≡ b.bids
unfolding restore_levels
bids_untouched [] b = refl
bids_untouched ((price, orders) ∷ rows) b = bids_untouched rows _

-- The sides and the ledger of a restored book.
pub record SameSides (b b' : OrderBook) : Type 0 where
  pub same_bids : b'.bids ≡ b.bids
  pub same_asks : b'.asks ≡ b.asks
  pub same_accepted : b'.accepted_shares ≡ b.accepted_shares
  pub same_traded : b'.traded_shares ≡ b.traded_shares
  pub same_canceled : b'.canceled_shares ≡ b.canceled_shares
  pub same_snapshot : snapshot b' ≡ snapshot b

pub restore-SameSides : (b : OrderBook) → IsValid b → SameSides b (restore (snapshot b))
unfolding restore snapshot
restore-SameSides b v =
    let empty : OrderBook = record b { bids = []; asks = []; index = [] } in
    let half = restore_levels buy (serialize b.bids) empty in
    let bids_back = restore_levels-bids b.bids [] empty (v.sorted buy) refl in
    let asks_back =
      restore_levels-asks b.asks [] half (v.sorted sell)
        (asks_untouched (serialize b.bids) empty) in
    let first = restore_levels-SameLedger buy (serialize b.bids) empty in
    let second = restore_levels-SameLedger sell (serialize b.asks) half in
    let bids_same = bids_untouched (serialize b.asks) half ∙ bids_back in
    record {
      same_bids = bids_same;
      same_asks = asks_back;
      same_accepted = second.accepted_same ∙ first.accepted_same;
      same_traded = second.traded_same ∙ first.traded_same;
      same_canceled = second.canceled_same ∙ first.canceled_same;
      same_snapshot = λ i. record {
        bids = serialize (bids_same i);
        asks = serialize (asks_back i);
        accepted_shares = (second.accepted_same ∙ first.accepted_same) i;
        traded_shares = (second.traded_same ∙ first.traded_same) i;
        canceled_shares = (second.canceled_same ∙ first.canceled_same) i;
      };
    }
