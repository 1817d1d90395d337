-- ===== src/OrderBook/Commands/Sound.antt =====
-- No command and no timer makes the book panic, and each leaves it valid.
use ticktape.Base.{
  ℕ, ◌+◌, ◌≡◌, inl, inr, refl, sym, subst, Option, none, some, arith, ltb, ◌==◌, Bool-cases,
  Option-cases, ok,
}
use ticktape.Base.Result.{Result}
use ticktape.Base.BTreeMap.{get, contains_key, Ascending}
use ticktape.Core.Service.{Ctx, emit}
use ticktape.OrderBook.{
  Side, buy, sell, Cmd, Evt, accepted, Panic, OrderBook, levels, resting_shares,
}
use ticktape.OrderBook.Levels.{Resides}
use ticktape.OrderBook.Invariant.{IsSound, IsValid}
use ticktape.OrderBook.Matching.{next_price}
use ticktape.OrderBook.Matching.Prices.{next_price-none}
use ticktape.OrderBook.Matching.Sound.{Ends, match_against_asks-ok, match_against_bids-ok}
use ticktape.OrderBook.Commands.{rest_order, match_against, enter, submit, cancel, on_timer, apply}
use ticktape.OrderBook.Commands.Rest.{maker, rested-IsValid}
use ticktape.OrderBook.Commands.Withdraw.{withdraw-ok}

-- The command was carried out, and the book it leaves is valid.
abbrev pub Succeeds : Result Panic (OrderBook × Ctx Evt) → Type 0
Succeeds r = (s : OrderBook × Ctx Evt) × (r ≡ ok s) × IsValid s.0

accept_shares : ℕ → OrderBook → OrderBook
accept_shares qty b = record b { accepted_shares = b.accepted_shares + qty }

levels-accept_shares :
    (qty : ℕ) (b : OrderBook) (s : Side) → levels s (accept_shares qty b) ≡ levels s b
unfolding accept_shares
levels-accept_shares qty b buy = refl
levels-accept_shares qty b sell = refl

-- An accepted order is in flight.
accept_shares-IsSound : (qty : ℕ) (b : OrderBook) → IsValid b → IsSound qty (accept_shares qty b)
unfolding accept_shares resting_shares
accept_shares-IsSound qty b v = record {
  sorted = λ s. subst (Ascending 0) (sym (levels-accept_shares qty b s)) (v.sorted s);
  index_sorted = v.index_sorted;
  conserved = omega (arith, v.conserved);
  indexed =
      λ id s p e. subst (Resides id p) (sym (levels-accept_shares qty b s)) (v.indexed id s p e);
  uncrossed = v.uncrossed;
}

match_against-ok :
    (side : Side) (taker limit qty : ℕ) (b : OrderBook) (ctx : Ctx Evt)
    → IsSound qty b
    → Ends (maker side) limit qty b (match_against side taker limit qty b ctx)
match_against-ok buy taker limit qty b ctx v = match_against_asks-ok taker limit qty b ctx v
match_against-ok sell taker limit qty b ctx v = match_against_bids-ok taker limit qty b ctx v

rest_order-IsValid :
    (id : ℕ) (side : Side) (price : ℕ) (expire_at : Option ℕ) (b : OrderBook) (ctx : Ctx Evt)
    (n : ℕ)
    → IsSound n b
    → next_price (maker side) price n (levels (maker side) b) ≡ none
    → IsValid (rest_order id side price expire_at (b, ctx, n)).0
unfolding rest_order
rest_order-IsValid id side price expire_at b ctx n v stopped = elim (Bool-cases (ltb 0 n)) [
  | inl more ↦ rw more (
      rested-IsValid id side price n b v (
        next_price-none (maker side) price n (levels (maker side) b) (v.sorted (maker side)) stopped
          more))
  | inr done ↦ rw done (subst (λ k. IsSound k b) (ground arith) v)
]

enter-Succeeds :
    (id : ℕ) (side : Side) (price qty : ℕ) (expire_at : Option ℕ) (b : OrderBook) (ctx : Ctx Evt)
    → IsValid b
    → Succeeds (enter id side price qty expire_at b ctx)
unfolding enter accept_shares
enter-Succeeds id side price qty expire_at b ctx v =
    let (s, matched, m) =
      match_against-ok side id price qty (accept_shares qty b) (emit ctx (accepted id))
        (accept_shares-IsSound qty b v) in
    (
      rest_order id side price expire_at s,
      rw matched,
      rest_order-IsValid id side price expire_at s.0 s.1 s.2 m.matched.sound m.stopped,
    )

submit-Succeeds :
    (id : ℕ) (side : Side) (price qty : ℕ) (expire_at : Option ℕ) (b : OrderBook) (ctx : Ctx Evt)
    → IsValid b
    → Succeeds (submit id side price qty expire_at b ctx)
unfolding submit
submit-Succeeds id side price qty expire_at b ctx v = elim (Bool-cases (qty == 0)) [
  | inl zero_qty ↦ rw zero_qty (_, refl, v)
  | inr some_qty ↦ elim (Bool-cases (contains_key id b.index)) [
    | inl known ↦ rw (some_qty, known) (_, refl, v)
    | inr fresh ↦ rw (some_qty, fresh) (enter-Succeeds id side price qty expire_at b ctx v)
  ]
]

cancel-Succeeds : (id : ℕ) (b : OrderBook) (ctx : Ctx Evt) → IsValid b → Succeeds (cancel id b ctx)
unfolding cancel
cancel-Succeeds id b ctx v = elim (Option-cases (get id b.index)) [
  | inl unknown ↦ rw (cancel, unknown) (_, refl, v)
  | inr ((side, price), e) ↦
      let (s, done, valid) = withdraw-ok id side price b v e in
      rw (cancel, e, done) (_, refl, valid)
]

-- In a valid book no command panics, and the book that it leaves is valid: levels and index are in
-- order, shares are conserved, each indexed order rests where the index says, and every bid is
-- below every ask.
pub apply-Succeeds :
    (cmd : Cmd) (b : OrderBook) (ctx : Ctx Evt) → IsValid b → Succeeds (apply cmd b ctx)
unfolding apply
apply-Succeeds (Cmd.submit id side price qty) b ctx v =
    submit-Succeeds id side price qty none b ctx v
apply-Succeeds (Cmd.submit_gtd id side price qty at) b ctx v =
    submit-Succeeds id side price qty (some at) b ctx v
apply-Succeeds (Cmd.cancel id) b ctx v = cancel-Succeeds id b ctx v

-- In a valid book no expiry panics, and the book that it leaves is valid.
pub on_timer-Succeeds :
    (id : ℕ) (b : OrderBook) (ctx : Ctx Evt) → IsValid b → Succeeds (on_timer id b ctx)
unfolding on_timer
on_timer-Succeeds id b ctx v = elim (Option-cases (get id b.index)) [
  | inl unknown ↦ rw (on_timer, unknown) (_, refl, v)
  | inr ((side, price), e) ↦
      let (s, done, valid) = withdraw-ok id side price b v e in
      rw (on_timer, e, done) (_, refl, valid)
]
