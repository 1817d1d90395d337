-- ===== src/OrderBook/Commands/History.antt =====
-- Whole histories of the book: commands and expiries in any order.
use ticktape.Base.{ℕ, ◌+◌, ◌*◌, ◌<◌, ◌≡◌, refl, subst, some, List, [], ◌∷◌, arith, ok, ◌>>=◌}
use ticktape.Base.Result.{Result}
use ticktape.Core.Service.{Ctx}
use ticktape.OrderBook.{buy, sell, Cmd, Evt, Panic, OrderBook, genesis, resting_shares}
use ticktape.OrderBook.Invariant.{IsValid, genesis-IsValid}
use ticktape.OrderBook.Matching.Prices.{first-IsBest, last-IsBest, IsBest}
use ticktape.OrderBook.Commands.{apply, on_timer, best_bid, best_ask}
use ticktape.OrderBook.Commands.Sound.{Succeeds, apply-Succeeds, on_timer-Succeeds}

-- What the sequencer delivers to the book.
pub data Event : Type 0 where
  command : Cmd → Event
  timer_fired : ℕ → Event

unfoldable pub step : Event → OrderBook → Ctx Evt → Result Panic (OrderBook × Ctx Evt)
unfolding apply on_timer
step (command cmd) b ctx = apply cmd b ctx
step (timer_fired id) b ctx = on_timer id b ctx

unfoldable pub run : List Event → OrderBook → Ctx Evt → Result Panic (OrderBook × Ctx Evt)
unfolding step
run [] b ctx = ok (b, ctx)
run (e ∷ es) b ctx = step e b ctx >>= λ s. run es s.0 s.1

step-Succeeds : (e : Event) (b : OrderBook) (ctx : Ctx Evt) → IsValid b → Succeeds (step e b ctx)
unfolding step
step-Succeeds (command cmd) b ctx v = apply-Succeeds cmd b ctx v
step-Succeeds (timer_fired id) b ctx v = on_timer-Succeeds id b ctx v

pub run-Succeeds :
    (es : List Event) (b : OrderBook) (ctx : Ctx Evt) → IsValid b → Succeeds (run es b ctx)
unfolding run
run-Succeeds [] b ctx v = ((b, ctx), refl, v)
run-Succeeds (e ∷ es) b ctx v =
    let (s, done, valid) = step-Succeeds e b ctx v in
    let (s', rest, valid') = run-Succeeds es s.0 s.1 valid in (s', rw done rest, valid')

-- What an exchange promises of its book.
pub record Fair (b : OrderBook) : Type 0 where
  pub conserved : b.accepted_shares ≡ 2 * b.traded_shares + b.canceled_shares + resting_shares b
  pub uncrossed : (bid ask : ℕ) → best_bid b ≡ some bid → best_ask b ≡ some ask → bid < ask

pub IsValid-Fair : (b : OrderBook) → IsValid b → Fair b
unfolding best_bid best_ask
IsValid-Fair b v = record {
  conserved = omega (arith, v.conserved);
  uncrossed = λ bid ask hb ha.
      v.uncrossed bid ask (subst (IsBest buy b.bids) hb (last-IsBest 0 b.bids (v.sorted buy))).0
        (subst (IsBest sell b.asks) ha (first-IsBest 0 b.asks (v.sorted sell))).0;
}

-- Every history of commands and expiries from the empty book runs without a panic, and the book it
-- ends in has each accepted share traded (for both sides), canceled or resting, and its best bid
-- below its best ask.
pub run-Fair :
    (es : List Event) (ctx : Ctx Evt)
    → (s : OrderBook × Ctx Evt) × (run es genesis ctx ≡ ok s) × Fair s.0
run-Fair es ctx =
    let (s, done, valid) = run-Succeeds es genesis ctx genesis-IsValid in
    (s, done, IsValid-Fair s.0 valid)
