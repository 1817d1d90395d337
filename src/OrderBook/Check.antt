-- ===== src/OrderBook/Check.antt =====
-- The invariants that the simulator checks after every step, and the depth view.
use ticktape.Base.{
  ℕ, ◌+◌, ◌*◌, ◌%◌, ◌^◌, ◌<◌, ◌≡◌, refl, Bool, true, false, not, ◌&&◌, Option, none, some, List, [],
  ◌∷◌, ◌++◌, take, leb, ◌==◌, length, ok, ◌>>=◌, ◌>>◌, reject_if, arith,
}
use ticktape.Base.Result.{Result}
use ticktape.Base.BTreeMap.{get}
use ticktape.OrderBook.{Side, buy, sell, Resting, Levels, OrderBook, is_empty, resting_shares}
use ticktape.OrderBook.Invariant.{IsValid}
use ticktape.OrderBook.Commands.{best_bid, best_ask}
use ticktape.OrderBook.Commands.History.{IsValid-Fair}

pub data Violation : Type 0 where
  crossed : ℕ → ℕ → Violation
  conservation_broken : Violation
  empty_level zero_qty out_of_sync : ℕ → Violation
  wrong_count : ℕ → ℕ → Violation

abbrev pub check_best : Option ℕ → Option ℕ → Result Violation (Unit {0})
check_best none ask = ok tt
check_best (some bid) none = ok tt
check_best (some bid) (some ask) = reject_if (leb ask bid) (crossed bid ask)

abbrev pub same_side : Side → Side → Bool
same_side buy buy = true
same_side buy sell = false
same_side sell buy = false
same_side sell sell = true

-- `self.index.get(&order.id) != Some(&(side, price))`
abbrev pub is_at : Option (Side × ℕ) → Side → ℕ → Bool
is_at none side price = false
is_at (some (s, p)) side price = same_side s side && (p == price)

-- One level's orders, counted.
pub check_orders : List (ℕ × (Side × ℕ)) → Side → ℕ → List Resting → ℕ → Result Violation ℕ
check_orders index side price [] counted = ok counted
check_orders index side price (o ∷ l) counted = do
  reject_if (o.qty == 0) (zero_qty o.id)
  reject_if (not (is_at (get o.id index) side price)) (out_of_sync o.id)
  check_orders index side price l (counted + 1)

pub check_levels : List (ℕ × (Side × ℕ)) → Side → Levels → ℕ → Result Violation ℕ
unfolding check_orders
check_levels index side [] counted = ok counted
check_levels index side ((price, level) ∷ m) counted = do
  reject_if (is_empty level) (empty_level price)
  counted' ← check_orders index side price level counted
  check_levels index side m counted'

-- Index and book agree; no empty levels and no orders of zero.
pub check_structure : OrderBook → Result Violation (Unit {0})
unfolding check_levels
check_structure b = do
  bids ← check_levels b.index buy b.bids 0
  counted ← check_levels b.index sell b.asks bids
  reject_if (not (counted == length b.index)) (wrong_count (length b.index) counted)

pub check : OrderBook → Result Violation (Unit {0})
unfolding check_structure
check b = do
  check_best (best_bid b) (best_ask b)
  reject_if (not (b.accepted_shares == 2 * b.traded_shares + b.canceled_shares + resting_shares b))
      conservation_broken
  check_structure b

check_best-ok :
    (bid ask : Option ℕ)
    → ((b a : ℕ) → bid ≡ some b → ask ≡ some a → b < a)
    → check_best bid ask ≡ ok tt
check_best-ok none ask h = refl
check_best-ok (some b) none h = refl
check_best-ok (some b) (some a) h = ground (arith, h b a refl refl)

-- For a valid book the check of the simulator never reports a crossed book or broken share
-- conservation: what it answers is what its check of the structure answers.
pub check-eq-structure : (b : OrderBook) → IsValid b → check b ≡ check_structure b
unfolding check
check-eq-structure b v =
    let fair = IsValid-Fair b v in
    rw (check_best-ok (best_bid b) (best_ask b) fair.uncrossed) (ground (arith, fair.conserved))

-- `sum::<Qty>()` keeps 32 bits, where it does not panic.
abbrev pub level_depth : List Resting → ℕ
level_depth [] = 0
level_depth (o ∷ l) = (o.qty + level_depth l) % 2 ^ 32

abbrev pub depths : Levels → List (ℕ × ℕ)
depths [] = []
depths ((price, level) ∷ m) = (price, level_depth level) ∷ depths m

abbrev pub reverse : Levels → Levels
reverse [] = []
reverse (row ∷ m) = reverse m ++ (row ∷ [])

-- The best `n` levels of both sides, best first.
pub depth : OrderBook → ℕ → List (ℕ × ℕ) × List (ℕ × ℕ)
depth b n = (depths (take n (reverse b.bids)), depths (take n b.asks))
