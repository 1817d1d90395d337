-- ===== src/OrderBook.antt =====
-- examples/orderbook/src/lib.rs: a central limit order book with price-time priority.
pub mod Matching
pub mod Commands
pub mod Levels
pub mod Invariant
pub mod Snapshot
pub mod Check
pub mod Application
use ticktape.Base.{
  ℕ, ◌+◌, ◌-◌, min, Bool, true, false, Option, none, some, List, [], ◌∷◌, ◌++◌, map, ltb, ◌==◌,
  if◌then◌else◌, length, ok, err, ◌>>=◌, ok_or,
}
use ticktape.Base.Result.{Result}
use ticktape.Base.BTreeMap.{get, contains_key, insert, remove, first_key, last_key}
use ticktape.Core.Service.{Ctx, emit, set_timer, cancel_timer}

pub data Side : Type 0 where
  buy sell : Side

pub data Cmd : Type 0 where
  submit : ℕ → Side → ℕ → ℕ → Cmd
  -- With the time at which what rests of it expires.
  submit_gtd : ℕ → Side → ℕ → ℕ → ℕ → Cmd
  cancel : ℕ → Cmd

pub data Reject : Type 0 where
  zero_qty duplicate_id unknown_order : Reject

pub data Evt : Type 0 where
  accepted : ℕ → Evt
  -- Taker, maker, price, quantity.
  trade : ℕ → ℕ → ℕ → ℕ → Evt
  canceled expired : ℕ → ℕ → Evt
  rejected : ℕ → Reject → Evt

pub record Resting : Type 0 where
  pub id : ℕ
  pub qty : ℕ

-- The message of a failed `expect`.
pub data Panic : Type 0 where
  no_level no_order : Panic

abbrev pub Levels : Type 0
Levels = List (ℕ × List Resting)

pub record OrderBook : Type 0 where
  pub bids : Levels
  pub asks : Levels
  -- Where each resting order sits.
  pub index : List (ℕ × (Side × ℕ))
  pub accepted_shares : ℕ
  pub traded_shares : ℕ
  pub canceled_shares : ℕ

pub genesis : OrderBook
genesis = record {
  bids = [];
  asks = [];
  index = [];
  accepted_shares = 0;
  traded_shares = 0;
  canceled_shares = 0;
}

-- `side_mut`, to read and to write.
abbrev pub levels : Side → OrderBook → Levels
levels buy b = b.bids
levels sell b = b.asks

abbrev pub with_levels : Side → Levels → OrderBook → OrderBook
with_levels side m b = record b {
  bids = elim side [ buy ↦ m | sell ↦ b.bids ];
  asks = elim side [ buy ↦ b.asks | sell ↦ m ];
}

abbrev pub is_empty : List Resting → Bool
is_empty [] = true
is_empty (o ∷ l) = false

abbrev pub empty_at : Option (List Resting) → Bool
empty_at none = false
empty_at (some level) = is_empty level

-- The map after the level at `price` has become `level`: an emptied level goes.
pub settle : ℕ → List Resting → Levels → Levels
settle price level m =
    let m' = insert price level m in if empty_at (get price m') then remove price m' else m'

abbrev pub level_shares : List Resting → ℕ
level_shares [] = 0
level_shares (o ∷ l) = o.qty + level_shares l

abbrev pub side_shares : Levels → ℕ
side_shares [] = 0
side_shares ((price, level) ∷ m) = level_shares level + side_shares m

pub resting_shares : OrderBook → ℕ
resting_shares b = side_shares b.bids + side_shares b.asks
