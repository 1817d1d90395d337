-- ===== src/OrderBook/Commands.antt =====
-- The commands of the book, its timer, and its snapshot.
pub mod Rest
pub mod Withdraw
pub mod Sound
pub mod History
mod Tests
use ticktape.Base.{
  ℕ, ◌+◌, ◌-◌, min, Bool, true, false, Option, none, some, List, [], ◌∷◌, ◌++◌, map, ltb, ◌==◌,
  if◌then◌else◌, length, ok, err, ◌>>=◌, ok_or,
}
use ticktape.Base.Result.{Result}
use ticktape.Base.BTreeMap.{get, contains_key, insert, remove, first_key, last_key}
use ticktape.Core.Service.{Ctx, emit, set_timer, cancel_timer}
use ticktape.OrderBook.{
  Side, buy, sell, Cmd, Evt, accepted, canceled, expired, rejected, zero_qty, duplicate_id,
  unknown_order, Resting, Panic, no_level, no_order, Levels, OrderBook, levels, with_levels, settle,
}
use ticktape.OrderBook.Matching.{match_against_asks, match_against_bids}

-- `entry(price).or_default()`
abbrev pub or_default : Option (List Resting) → List Resting
or_default none = []
or_default (some level) = level

pub push_back : ℕ → Resting → Levels → Levels
push_back price order m = insert price (or_default (get price m) ++ (order ∷ [])) m

abbrev pub arm_expiry : ℕ → Option ℕ → Ctx Evt → Ctx Evt
arm_expiry id none ctx = ctx
arm_expiry id (some at) ctx = set_timer ctx id at

-- `qty` shares of an order rest on the book.
pub rested : ℕ → Side → ℕ → ℕ → OrderBook → OrderBook
unfolding push_back
rested id side price qty b =
    with_levels side (push_back price (record { id = id; qty = qty }) (levels side b))
      (record b { index = insert id (side, price) b.index })

-- What remains of an order after matching.
pub rest_order : ℕ → Side → ℕ → Option ℕ → OrderBook × Ctx Evt × ℕ → OrderBook × Ctx Evt
unfolding rested
rest_order id side price expire_at (b, ctx, remaining) =
    if ltb 0 remaining
    then (rested id side price remaining b, arm_expiry id expire_at ctx)
    else (b, ctx)

abbrev pub match_against :
    Side → ℕ → ℕ → ℕ → OrderBook → Ctx Evt → Result Panic (OrderBook × Ctx Evt × ℕ)
match_against buy taker limit qty b ctx = match_against_asks taker limit qty b ctx
match_against sell taker limit qty b ctx = match_against_bids taker limit qty b ctx

-- A submission that passed the checks.
pub enter : ℕ → Side → ℕ → ℕ → Option ℕ → OrderBook → Ctx Evt → Result Panic (OrderBook × Ctx Evt)
unfolding rest_order
enter id side price qty expire_at b ctx = do
  s ←
      match_against side id price qty (record b { accepted_shares = b.accepted_shares + qty })
        (emit ctx (accepted id))
  ok (rest_order id side price expire_at s)

pub submit : ℕ → Side → ℕ → ℕ → Option ℕ → OrderBook → Ctx Evt → Result Panic (OrderBook × Ctx Evt)
unfolding enter
submit id side price qty expire_at b ctx =
    if qty == 0
    then ok (b, emit ctx (rejected id zero_qty))
    else if contains_key id b.index
    then ok (b, emit ctx (rejected id duplicate_id))
    else enter id side price qty expire_at b ctx

-- `iter().position(|o| o.id == id)` and `remove(pos)`
pub take_order : ℕ → List Resting → Option (Resting × List Resting)
take_order id [] = none
take_order id (o ∷ l) =
    if o.id == id
    then some (o, l)
    else elim (take_order id l) [ none ↦ none | some (found, l') ↦ some (found, o ∷ l') ]

-- An order leaves the book and its level becomes `level`; its shares are canceled.
pub withdrawn : ℕ → Side → ℕ → OrderBook → Resting → List Resting → OrderBook
withdrawn id side price b order level =
    with_levels side (settle price level (levels side b))
      (record b { index = remove id b.index; canceled_shares = b.canceled_shares + order.qty })

pub withdraw : ℕ → Side × ℕ → OrderBook → Result Panic (OrderBook × Resting)
unfolding take_order withdrawn
withdraw id (side, price) b = do
  level ← ok_or (get price (levels side b)) no_level
  (order, level') ← ok_or (take_order id level) no_order
  ok (withdrawn id side price b order level', order)

pub cancel : ℕ → OrderBook → Ctx Evt → Result Panic (OrderBook × Ctx Evt)
unfolding withdraw
cancel id b ctx = elim (get id b.index) [
  | none ↦ ok (b, emit ctx (rejected id unknown_order))
  | some place ↦
      withdraw id place b >>= λ s. ok (s.0, emit (cancel_timer ctx id) (canceled id s.1.qty))
]

pub on_timer : ℕ → OrderBook → Ctx Evt → Result Panic (OrderBook × Ctx Evt)
unfolding withdraw
on_timer id b ctx = elim (get id b.index) [
  | none ↦ ok (b, ctx)
  | some place ↦ withdraw id place b >>= λ s. ok (s.0, emit ctx (expired id s.1.qty))
]

pub apply : Cmd → OrderBook → Ctx Evt → Result Panic (OrderBook × Ctx Evt)
unfolding submit cancel
apply (Cmd.submit id side price qty) b ctx = submit id side price qty none b ctx
apply (Cmd.submit_gtd id side price qty expire_at) b ctx =
    submit id side price qty (some expire_at) b ctx
apply (Cmd.cancel id) b ctx = cancel id b ctx

pub best_bid : OrderBook → Option ℕ
best_bid b = last_key b.bids

pub best_ask : OrderBook → Option ℕ
best_ask b = first_key b.asks

pub resting_orders : OrderBook → ℕ
resting_orders b = length b.index

pub has_order : OrderBook → ℕ → Bool
has_order b id = contains_key id b.index
