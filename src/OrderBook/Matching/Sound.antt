-- ===== src/OrderBook/Matching/Sound.antt =====
-- Matching keeps the book sound, never panics, and stops only when it has to.
use ticktape.Base.{
  ℕ, zero, suc, ◌+◌, ◌≤◌, ◌≡◌, ◌⊎◌, inl, inr, refl, ap, ◌∙◌, none, some, List, [], ◌∷◌, arith,
  length, Option-cases, eq-nil_of_length, ok,
}
use ticktape.Base.Result.{Result}
use ticktape.Base.BTreeMap.{get, remove, Ascending, get-remove, remove-Ascending}
use ticktape.Base.SortedSet.{Contains}
use ticktape.Core.Service.{Ctx}
use ticktape.OrderBook.{Side, buy, sell, Evt, Resting, Panic, OrderBook, levels, settle}
use ticktape.OrderBook.Levels.{HasLevel, settle-HasLevel, length-settle_nil}
use ticktape.OrderBook.Invariant.{IsSound, settle-IsSound, levels-revise, levels-with_levels}
use ticktape.OrderBook.Matching.{
  Fill, fill_loop, forget_all, filled, fill_level, next_price, match_loop, match_against_asks,
  match_against_bids,
}
use ticktape.OrderBook.Matching.Fills.{Fills, Done, fill_loop-Fills}
use ticktape.OrderBook.Matching.Prices.{next_price-some, next_price-filled, next_price-nil}

forget_all-Ascending :
    (ids : List ℕ) (index : List (ℕ × (Side × ℕ)))
    → Ascending 0 index
    → Ascending 0 (forget_all ids index)
unfolding forget_all
forget_all-Ascending [] index s = s
forget_all-Ascending (id ∷ ids) index s =
    forget_all-Ascending ids (remove id index) (remove-Ascending id 0 index s)

-- What is still indexed was indexed before, and is not among the forgotten.
get-forget_all :
    (ids : List ℕ) (index : List (ℕ × (Side × ℕ))) (id : ℕ) (place : Side × ℕ)
    → Ascending 0 index
    → get id (forget_all ids index) ≡ some place
    → (get id index ≡ some place) × (Contains id ids → ⊥)
unfolding forget_all
get-forget_all [] index id place s e = (e, λ c. c)
get-forget_all (k ∷ ids) index id place s e =
    let (held, other) =
      get-forget_all ids (remove k index) id place (remove-Ascending k 0 index s) e in
    ground (arith, get-remove k id 0 index s)

-- From `b` with `qty` in flight to `b'` with `qty'`: nothing new on the book or in the index.
pub record Matches (qty : ℕ) (b : OrderBook) (qty' : ℕ) (b' : OrderBook) : Type 0 where
  pub sound : IsSound qty' b'
  pub known :
      (id : ℕ) (place : Side × ℕ) → get id b'.index ≡ some place → get id b.index ≡ some place
  pub prices : (s : Side) (p : ℕ) → HasLevel p (levels s b') → HasLevel p (levels s b)

Matches-trans :
    (q : ℕ) (b : OrderBook) (q' : ℕ) (b' : OrderBook) (q'' : ℕ) (b'' : OrderBook)
    → Matches q b q' b'
    → Matches q' b' q'' b''
    → Matches q b q'' b''
Matches-trans q b q' b' q'' b'' x y = record {
  sound = y.sound;
  known = λ id place e. x.known id place (y.known id place e);
  prices = λ s p h. x.prices s p (y.prices s p h);
}

module _ (side : Side) (price qty : ℕ) (b : OrderBook) (ctx : Ctx Evt) (level : List Resting)
    (v : IsSound qty b) (e : get price (levels side b) ≡ some level) where
  abbrev start : Fill
  start = record { level = level; qty = qty; traded_here = 0; filled_ids = []; ctx = ctx }

  filled-Matches : (f : Fill) → Fills start f → Matches qty b f.qty (filled side price b f).0
  unfolding filled
  filled-Matches f h = record {
    sound =
        settle-IsSound qty f.qty b side price level f.level (forget_all f.filled_ids b.index)
          (b.traded_shares + f.traded_here) b.canceled_shares v e
          (forget_all-Ascending f.filled_ids b.index v.index_sorted)
          (λ id place g.
            let (before, out) = get-forget_all f.filled_ids b.index id place v.index_sorted g in
            (
              before,
              λ held. elim (h.kept id held) [ inl there ↦ there | inr gone ↦ absurd (out gone) ],
            ))
          (omega (arith, h.taken, h.sold));
    known = λ id place g. (get-forget_all f.filled_ids b.index id place v.index_sorted g).0;
    prices = λ s p g.
        levels-revise (settle price f.level (levels side b)) (forget_all f.filled_ids b.index)
          (b.traded_shares + f.traded_here) b.canceled_shares b (HasLevel p) side s
          (settle-HasLevel price (levels side b) (v.sorted side) level e f.level p) g;
  }

  filled-progress :
      (f : Fill)
      → Done f
      → (f.qty ≡ 0)
        ⊎ (suc (length (levels side (filled side price b f).0)) ≡ length (levels side b))
  unfolding filled
  filled-progress f (inl over) = inl over
  filled-progress f (inr empty) = inr (
      ap (λ m. suc (length m))
        (levels-with_levels side _ _ ∙ ap (λ l. settle price l (levels side b)) empty)
      ∙ length-settle_nil price (levels side b) (v.sorted side) level e)

-- One level: the book stays sound, and the taker is filled or the level is gone.
record LevelDone (side : Side) (qty : ℕ) (b : OrderBook) (s : OrderBook × Ctx Evt × ℕ)
    : Type 0 where
  matched : Matches qty b s.2 s.0
  progress : (s.2 ≡ 0) ⊎ (suc (length (levels side s.0)) ≡ length (levels side b))

fill_level-ok :
    (side : Side) (price taker qty : ℕ) (b : OrderBook) (ctx : Ctx Evt)
    → IsSound qty b
    → HasLevel price (levels side b)
    → (s : OrderBook × Ctx Evt × ℕ) × (fill_level side price taker qty b ctx ≡ ok s)
      × LevelDone side qty b s
unfolding fill_level filled
fill_level-ok side price taker qty b ctx v (level, e) =
    let f₀ = start side price qty b ctx level v e in
    let (fills, done) = fill_loop-Fills (length level) taker price f₀ (inl (omega arith)) in
    let f = fill_loop (length level) taker price f₀ in
    (
      filled side price b f,
      rw e,
      record {
        matched = filled-Matches side price qty b ctx level v e f fills;
        progress = filled-progress side price qty b ctx level v e f done;
      },
    )

-- Matching is over.
pub record Matched (side : Side) (limit qty : ℕ) (b : OrderBook) (s : OrderBook × Ctx Evt × ℕ)
    : Type 0 where
  pub matched : Matches qty b s.2 s.0
  pub stopped : next_price side limit s.2 (levels side s.0) ≡ none

abbrev pub Ends : Side → ℕ → ℕ → OrderBook → Result Panic (OrderBook × Ctx Evt × ℕ) → Type 0
Ends side limit qty b r = (s : OrderBook × Ctx Evt × ℕ) × (r ≡ ok s) × Matched side limit qty b s

module _ (side : Side) (taker limit qty : ℕ) (b : OrderBook) (ctx : Ctx Evt) where
  match_loop-stop :
      (fuel : ℕ)
      → next_price side limit qty (levels side b) ≡ none
      → match_loop fuel side taker limit qty b ctx ≡ ok (b, ctx, qty)
  unfolding match_loop
  match_loop-stop zero e = refl
  match_loop-stop (suc fuel) e = rw (match_loop, e)

  match_loop-next :
      (fuel price : ℕ) (s : OrderBook × Ctx Evt × ℕ)
      → next_price side limit qty (levels side b) ≡ some price
      → fill_level side price taker qty b ctx ≡ ok s
      → match_loop (suc fuel) side taker limit qty b ctx
        ≡ match_loop fuel side taker limit s.2 s.0 s.1
  unfolding match_loop
  match_loop-next fuel price s e f = rw (match_loop, e, f)

  stopped-Ends :
      (fuel : ℕ)
      → IsSound qty b
      → next_price side limit qty (levels side b) ≡ none
      → Ends side limit qty b (match_loop fuel side taker limit qty b ctx)
  stopped-Ends fuel v e = (
    (b, ctx, qty),
    match_loop-stop fuel e,
    record {
      matched = record { sound = v; known = λ id place g. g; prices = λ s p h. h };
      stopped = e;
    },
  )

  -- Without a level or without shares there is no next price.
  out_of_fuel :
      (length (levels side b) ≤ 0) ⊎ (qty ≡ 0) → next_price side limit qty (levels side b) ≡ none
  out_of_fuel (inl h) =
      ap (next_price side limit qty) (eq-nil_of_length (levels side b) (omega arith))
      ∙ next_price-nil side limit qty
  out_of_fuel (inr e) =
      ap (λ q. next_price side limit q (levels side b)) e
      ∙ next_price-filled side limit (levels side b)

-- A round for each level is enough.
pub match_loop-ok :
    (fuel : ℕ) (side : Side) (taker limit qty : ℕ) (b : OrderBook) (ctx : Ctx Evt)
    → (length (levels side b) ≤ fuel) ⊎ (qty ≡ 0)
    → IsSound qty b
    → Ends side limit qty b (match_loop fuel side taker limit qty b ctx)
match_loop-ok zero side taker limit qty b ctx h v =
    stopped-Ends side taker limit qty b ctx zero v (out_of_fuel side taker limit qty b ctx h)
match_loop-ok (suc fuel) side taker limit qty b ctx h v =
    elim (Option-cases (next_price side limit qty (levels side b))) [
      | inl over ↦ stopped-Ends side taker limit qty b ctx (suc fuel) v over
      | inr (price, next) ↦
          let (more, there) =
            next_price-some side limit qty (levels side b) (v.sorted side) price next in
          let (s, filled_ok, done) = fill_level-ok side price taker qty b ctx v there in
          let (s', rest_ok, matched) =
            match_loop-ok fuel side taker limit s.2 s.0 s.1 (ground (arith, done.progress))
              done.matched.sound in
          (
            s',
            match_loop-next side taker limit qty b ctx fuel price s next filled_ok ∙ rest_ok,
            record {
              matched = Matches-trans qty b s.2 s.0 s'.2 s'.0 done.matched matched.matched;
              stopped = matched.stopped;
            },
          )
    ]

module _ (taker limit qty : ℕ) (b : OrderBook) (ctx : Ctx Evt) (v : IsSound qty b) where
  pub match_against_asks-ok : Ends sell limit qty b (match_against_asks taker limit qty b ctx)
  unfolding match_against_asks
  match_against_asks-ok =
      match_loop-ok (length b.asks) sell taker limit qty b ctx (inl (omega arith)) v

  pub match_against_bids-ok : Ends buy limit qty b (match_against_bids taker limit qty b ctx)
  unfolding match_against_bids
  match_against_bids-ok =
      match_loop-ok (length b.bids) buy taker limit qty b ctx (inl (omega arith)) v
