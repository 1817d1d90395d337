-- ===== src/OrderBook/Commands/Tests.antt =====
-- Runs of the order book.
use ticktape.Base.{◌≡◌, refl, sym, subst, List, [], ◌∷◌, ok, Bool-cases, inl, inr, ◌==◌, arith}
use ticktape.Base.BTreeMap
use ticktape.Core.Service.{Ctx, emit, set_timer, cancel_timer, TimerReq}
use ticktape.OrderBook.{
  buy, sell, Cmd, Evt, accepted, trade, expired, rejected, unknown_order, OrderBook, genesis,
  settle,
}
use ticktape.OrderBook.Invariant.{IsValid, genesis-IsValid}
use ticktape.OrderBook.Matching
use ticktape.OrderBook.Commands.{
  apply, on_timer, submit, enter, rest_order, rested, push_back, cancel, withdraw, withdrawn,
  take_order,
}
use ticktape.OrderBook.Commands.Sound.{Succeeds, apply-Succeeds}
use ticktape.OrderBook.Commands.History.{Event, command, timer_fired, step, run, run-Fair, Fair}
use ticktape.OrderBook.Commands.History.{run-Succeeds}
use ticktape.OrderBook.Snapshot.{snapshot, restore}
use ticktape.OrderBook.Snapshot.RoundTrip.Index.{IsListed, restore-snapshot_book}
use ticktape.OrderBook.Levels.{Holds}
use ticktape.Base.{subst}

abbrev idle : Ctx Evt
idle = record { seq = 1; now = 1000; outputs = record { items = [] }; timers = [] }

-- Two offers; a buyer takes the better one, and the rest of the order expires.
abbrev trading_day : List Event
trading_day =
    command (Cmd.submit 1 sell 101 50)
    ∷ command (Cmd.submit 2 sell 100 30)
    ∷ command (Cmd.submit_gtd 3 buy 100 40 2000)
    ∷ timer_fired 3
    ∷ command (Cmd.cancel 3)
    ∷ []

abbrev offers : OrderBook
offers = record {
  bids = [];
  asks = (101, record { id = 1; qty = 50 } ∷ []) ∷ [];
  index = (1, (sell, 101)) ∷ [];
  accepted_shares = 120;
  traded_shares = 30;
  canceled_shares = 10;
}

abbrev report : Ctx Evt
report = record {
  seq = 1;
  now = 1000;
  outputs = record {
    items =
        accepted 1
        ∷ accepted 2
        ∷ accepted 3
        ∷ trade 3 2 100 30
        ∷ expired 3 10
        ∷ rejected 3 unknown_order
        ∷ [];
  };
  timers = TimerReq.cancel 2 ∷ TimerReq.set 3 2000 ∷ [];
}

run-trading_day : run trading_day genesis idle ≡ ok (offers, report)
unfolding run step apply submit enter rest_order rested push_back cancel on_timer withdraw withdrawn
    take_order genesis settle emit set_timer cancel_timer BTreeMap.get BTreeMap.insert
    BTreeMap.remove BTreeMap.contains_key BTreeMap.first_key BTreeMap.last_key Matching.fill_one
    Matching.fill_front Matching.fill_loop Matching.forget_all Matching.cancel_timers
    Matching.filled Matching.fill_level Matching.best Matching.stop_at Matching.next_price
    Matching.match_loop Matching.match_against_asks Matching.match_against_bids
run-trading_day = refl

run-Fair_example : (s : OrderBook × Ctx Evt) × (run trading_day genesis idle ≡ ok s) × Fair s.0
run-Fair_example = run-Fair trading_day idle

abbrev first_offer : Cmd
first_offer = Cmd.submit 1 sell 101 50

apply-Succeeds_example : Succeeds (apply first_offer genesis idle)
apply-Succeeds_example = apply-Succeeds first_offer genesis idle genesis-IsValid

offers-IsValid : IsValid offers
offers-IsValid =
    let (s, done, valid) = run-Succeeds trading_day genesis idle genesis-IsValid in
    let same : s ≡ (offers, report) = cc (done, run-trading_day) in
    subst (λ (t : OrderBook × Ctx Evt). IsValid t.0) same valid

offers-IsListed : IsListed offers
unfolding BTreeMap.get
offers-IsListed = record {
  listed_bids = λ id price h. cc (h.1);
  listed_asks = λ id price h. elim (Bool-cases (101 == price)) [
    | inl hit ↦
        let level : record { id = 1; qty = 50 } ∷ [] ≡ h.0 = ground (arith, hit, h.1) in
        elim (subst (Holds id) (sym level) h.2) [
          | inl first ↦ ground (arith, first, hit)
          | inr none_else ↦ absurd none_else
        ]
    | inr miss ↦ absurd (cc (h.1, miss))
  ];
}

restore-snapshot_book_example : restore (snapshot offers) ≡ offers
restore-snapshot_book_example = restore-snapshot_book offers offers-IsValid offers-IsListed
