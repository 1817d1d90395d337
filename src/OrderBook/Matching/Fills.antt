-- ===== src/OrderBook/Matching/Fills.antt =====
-- What filling one level does, and that its loop ends.
use ticktape.Base.{
  ℕ, zero, suc, ◌+◌, ◌≤◌, ◌≡◌, ◌⊎◌, inl, inr, refl, sym, ap, subst, ◌∙◌, Bool, true, false, none,
  some, List, [], ◌∷◌, ◌++◌, arith, ltb, if◌then◌else◌, length, Bool-cases, eq-nil_of_length,
}
use ticktape.Base.SortedSet.{Contains}
use ticktape.OrderBook.{Resting, level_shares}
use ticktape.OrderBook.Levels.{Holds}
use ticktape.OrderBook.Matching.{Fill, fill_one, fill_front, fill_loop}

-- From `f` to `f'`, shares went from the level and from the taker into the trades, and the orders
-- that left the level are noted.
pub record Fills (f f' : Fill) : Type 0 where
  pub taken : f'.qty + f'.traded_here ≡ f.qty + f.traded_here
  pub sold : level_shares f'.level + f'.traded_here ≡ level_shares f.level + f.traded_here
  pub kept : (id : ℕ) → Holds id f.level → Holds id f'.level ⊎ Contains id f'.filled_ids
  pub noted : (id : ℕ) → Contains id f.filled_ids → Contains id f'.filled_ids

Fills-refl : (f : Fill) → Fills f f
Fills-refl f = record { taken = refl; sold = refl; kept = λ id h. inl h; noted = λ id c. c }

Fills-trans : (f g h : Fill) → Fills f g → Fills g h → Fills f h
Fills-trans f g h a b = record {
  taken = b.taken ∙ a.taken;
  sold = b.sold ∙ a.sold;
  kept = λ id held. elim (a.kept id held) [
    | inl there ↦ b.kept id there
    | inr gone ↦ inr (b.noted id gone)
  ];
  noted = λ id c. b.noted id (a.noted id c);
}

Contains-append_left : (id : ℕ) (xs ys : List ℕ) → Contains id xs → Contains id (xs ++ ys)
Contains-append_left id [] ys c = absurd c
Contains-append_left id (x ∷ xs) ys (inl e) = inl e
Contains-append_left id (x ∷ xs) ys (inr c) = inr (Contains-append_left id xs ys c)

Contains-append_last : (id : ℕ) (xs : List ℕ) → Contains id (xs ++ (id ∷ []))
Contains-append_last id [] = inl refl
Contains-append_last id (x ∷ xs) = inr (Contains-append_last id xs)

-- The level and the notes after a round, by whether the maker is used up.
after_round :
    (id : ℕ) (gone : Bool) (maker left : Resting) (rest : List Resting) (ids : List ℕ)
    → left.id ≡ maker.id
    → Holds id (maker ∷ rest)
    → Holds id (if gone then rest else left ∷ rest)
      ⊎ Contains id (if gone then ids ++ (maker.id ∷ []) else ids)
after_round id true maker left rest ids e (inl hit) =
    inr (
      subst (λ n. Contains n (ids ++ (maker.id ∷ []))) (sym hit)
        (Contains-append_last maker.id ids))
after_round id true maker left rest ids e (inr there) = inl there
after_round id false maker left rest ids e (inl hit) = inl (inl (hit ∙ sym e))
after_round id false maker left rest ids e (inr there) = inl (inr there)

notes_kept :
    (id : ℕ) (gone : Bool) (maker : Resting) (ids : List ℕ)
    → Contains id ids
    → Contains id (if gone then ids ++ (maker.id ∷ []) else ids)
notes_kept id true maker ids c = Contains-append_left id ids _ c
notes_kept id false maker ids c = c

module _ (taker price : ℕ) (f : Fill) (maker : Resting) (rest : List Resting)
    (e : f.level ≡ maker ∷ rest) where
  fill_one-Fills : Fills f (fill_one taker price f maker rest)
  unfolding fill_one
  fill_one-Fills = record {
    taken = omega arith;
    sold = ground (arith, ap level_shares e);
    kept = λ id h. after_round id _ maker _ rest f.filled_ids refl (subst (Holds id) e h);
    noted = λ id c. notes_kept id _ maker f.filled_ids c;
  }

  -- The round used up the maker, or the taker.
  fill_one-progress :
      (suc (length (fill_one taker price f maker rest).level) ≡ length f.level)
      ⊎ ((fill_one taker price f maker rest).qty ≡ 0)
  unfolding fill_one
  fill_one-progress = ground (arith, ap length e)

-- Enough rounds for the level, or nothing left to fill.
abbrev Enough : ℕ → Fill → Type 0
Enough fuel f = (length f.level ≤ fuel) ⊎ (f.qty ≡ 0)

abbrev pub Done : Fill → Type 0
Done f = (f.qty ≡ 0) ⊎ (f.level ≡ [])

-- A round or the end.
round :
    (taker price : ℕ) (f : Fill) (level : List Resting)
    → f.level ≡ level
    → ((fill_front taker price f level ≡ none) × (f.level ≡ []))
      ⊎ ((f' : Fill) × (fill_front taker price f level ≡ some f')
          × Fills f f'
          × ((suc (length f'.level) ≡ length f.level) ⊎ (f'.qty ≡ 0)))
unfolding fill_front
round taker price f [] e = inl (refl, e)
round taker price f (maker ∷ rest) e = inr (
  fill_one taker price f maker rest,
  refl,
  fill_one-Fills taker price f maker rest e,
  fill_one-progress taker price f maker rest e,
)

module _ (fuel taker price : ℕ) (f : Fill) where
  fill_loop-stop : ltb 0 f.qty ≡ false → fill_loop (suc fuel) taker price f ≡ f
  unfolding fill_loop
  fill_loop-stop h = ground (arith, h)

  fill_loop-over : fill_front taker price f f.level ≡ none → fill_loop (suc fuel) taker price f ≡ f
  unfolding fill_loop
  fill_loop-over h = ground (arith, h)

  fill_loop-next :
      (f' : Fill)
      → ltb 0 f.qty ≡ true
      → fill_front taker price f f.level ≡ some f'
      → fill_loop (suc fuel) taker price f ≡ fill_loop fuel taker price f'
  unfolding fill_loop
  fill_loop-next f' h e = ground (arith, h, e)

abbrev FillsAll : Fill → Fill → Type 0
FillsAll f f' = Fills f f' × Done f'

-- The loop ends because the taker or the level is used up, never for want of fuel.
pub fill_loop-Fills :
    (fuel taker price : ℕ) (f : Fill) → Enough fuel f → FillsAll f (fill_loop fuel taker price f)
fill_loop-Fills zero taker price f h = unfold fill_loop in (Fills-refl f, none_left f h)
  where
    none_left : (f : Fill) → Enough 0 f → Done f
    none_left f (inl e) = inr (eq-nil_of_length f.level (omega arith))
    none_left f (inr e) = inl e
fill_loop-Fills (suc fuel) taker price f h = elim (Bool-cases (ltb 0 f.qty)) [
  | inl more ↦ elim (round taker price f f.level refl) [
    | inl (over, empty) ↦
        subst (FillsAll f) (sym (fill_loop-over fuel taker price f over)) (Fills-refl f, inr empty)
    | inr (f', next, fills, progress) ↦
        let (later, done) = fill_loop-Fills fuel taker price f' (ground arith) in
        subst (FillsAll f) (sym (fill_loop-next fuel taker price f f' more next))
          (Fills-trans f f' _ fills later, done)
  ]
  | inr enough ↦
      subst (FillsAll f) (sym (fill_loop-stop fuel taker price f enough))
        (Fills-refl f, inl (ground arith))
]
