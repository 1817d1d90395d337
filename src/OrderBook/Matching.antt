-- ===== src/OrderBook/Matching.antt =====
-- Matching a taker against the best levels of the other side.
pub mod Fills
pub mod Sound
pub mod Prices
use ticktape.Base.{
  ℕ, zero, suc, ◌+◌, ◌-◌, min, Bool, true, false, Option, none, some, List, [], ◌∷◌, ◌++◌, map, ltb,
  ◌==◌, if◌then◌else◌, length, ok, err, ◌>>=◌, ok_or,
}
use ticktape.Base.Result.{Result}
use ticktape.Base.BTreeMap.{get, contains_key, insert, remove, first_key, last_key}
use ticktape.Core.Service.{Ctx, emit, set_timer, cancel_timer}
use ticktape.OrderBook.{
  Side, buy, sell, Evt, trade, Resting, Panic, no_level, Levels, OrderBook, levels, with_levels,
  settle,
}

-- One level while it is filled, and what `fill_level` gathers.
pub record Fill : Type 0 where
  pub level : List Resting
  pub qty : ℕ
  pub traded_here : ℕ
  pub filled_ids : List ℕ
  pub ctx : Ctx Evt

-- The round of the loop that meets `maker` in front.
unfoldable pub fill_one : ℕ → ℕ → Fill → Resting → List Resting → Fill
fill_one taker price f maker rest =
    let fill = min f.qty maker.qty in
    let gone = (maker.qty - fill) == 0 in
    record f {
      level = if gone then rest else record maker { qty = maker.qty - fill } ∷ rest;
      qty = f.qty - fill;
      traded_here = f.traded_here + fill;
      filled_ids = if gone then f.filled_ids ++ (maker.id ∷ []) else f.filled_ids;
      ctx = emit f.ctx (trade taker maker.id price fill);
    }

unfoldable pub fill_front : ℕ → ℕ → Fill → List Resting → Option Fill
unfolding fill_one
fill_front taker price f [] = none
fill_front taker price f (maker ∷ rest) = some (fill_one taker price f maker rest)

-- `while qty > 0 { let Some(maker) = level.front_mut() else { break } … }`: a round for each maker
-- at most.
unfoldable pub fill_loop : ℕ → ℕ → ℕ → Fill → Fill
fill_loop zero taker price f = f
fill_loop (suc fuel) taker price f = elim (ltb 0 f.qty) [
  | false ↦ f
  | true ↦ elim (fill_front taker price f f.level) [
    | none ↦ f
    | some f' ↦ fill_loop fuel taker price f'
  ]
]

-- `for id in &filled_ids`
unfoldable pub forget_all : List ℕ → List (ℕ × (Side × ℕ)) → List (ℕ × (Side × ℕ))
forget_all [] index = index
forget_all (id ∷ ids) index = forget_all ids (remove id index)

unfoldable pub cancel_timers : List ℕ → Ctx Evt → Ctx Evt
cancel_timers [] ctx = ctx
cancel_timers (id ∷ ids) ctx = cancel_timers ids (cancel_timer ctx id)

-- The book and the context after a level was filled, and the taker's unfilled rest.
unfoldable pub filled : Side → ℕ → OrderBook → Fill → OrderBook × Ctx Evt × ℕ
filled side price b f = (
  with_levels side (settle price f.level (levels side b)) (record b {
    traded_shares = b.traded_shares + f.traded_here;
    index = forget_all f.filled_ids b.index;
  }),
  cancel_timers f.filled_ids f.ctx,
  f.qty,
)

unfoldable pub fill_level :
    Side → ℕ → ℕ → ℕ → OrderBook → Ctx Evt → Result Panic (OrderBook × Ctx Evt × ℕ)
unfolding fill_loop filled
fill_level side price taker qty b ctx = do
  level ← ok_or (get price (levels side b)) no_level
  let f : Fill = record { level = level; qty = qty; traded_here = 0; filled_ids = []; ctx = ctx }
  ok (filled side price b (fill_loop (length level) taker price f))

-- The best price of the makers.
unfoldable pub best : Side → Levels → Option ℕ
best sell m = first_key m
best buy m = last_key m

-- `best > limit` for asks, `best < limit` for bids.
abbrev pub beyond : Side → ℕ → ℕ → Bool
beyond sell price limit = ltb limit price
beyond buy price limit = ltb price limit

-- `None` is a `break`.
unfoldable pub stop_at : Side → ℕ → Option ℕ → Option ℕ
stop_at side limit none = none
stop_at side limit (some price) = if beyond side price limit then none else some price

-- The best price that may be matched now.
unfoldable pub next_price : Side → ℕ → ℕ → Levels → Option ℕ
unfolding best stop_at
next_price side limit qty m = if ltb 0 qty then stop_at side limit (best side m) else none

-- `while qty > 0 { … }` of `match_against_asks` and `match_against_bids`: a round for each level at
-- most.
unfoldable pub match_loop :
    ℕ → Side → ℕ → ℕ → ℕ → OrderBook → Ctx Evt → Result Panic (OrderBook × Ctx Evt × ℕ)
match_loop zero side taker limit qty b ctx = ok (b, ctx, qty)
match_loop (suc fuel) side taker limit qty b ctx =
    elim (next_price side limit qty (levels side b)) [
      | none ↦ ok (b, ctx, qty)
      | some price ↦ fill_level side price taker qty b ctx >>= λ s.
          match_loop fuel side taker limit s.2 s.0 s.1
    ]

unfoldable pub match_against_asks :
    ℕ → ℕ → ℕ → OrderBook → Ctx Evt → Result Panic (OrderBook × Ctx Evt × ℕ)
unfolding match_loop
match_against_asks taker limit qty b ctx = match_loop (length b.asks) sell taker limit qty b ctx

unfoldable pub match_against_bids :
    ℕ → ℕ → ℕ → OrderBook → Ctx Evt → Result Panic (OrderBook × Ctx Evt × ℕ)
unfolding match_loop
match_against_bids taker limit qty b ctx = match_loop (length b.bids) buy taker limit qty b ctx
