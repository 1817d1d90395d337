-- ===== src/Runtime/Timer/Due.antt =====
-- Which timer fires, and that firing ends.
use ticktape.Base.{
  ℕ, ◌≡◌, ◌≤◌, ◌<◌, ◌⊎◌, inl, inr, refl, sym, ap, subst, ◌∙◌, false, none, some, List, [], ◌∷◌,
  arith, ◌==◌, if◌then◌else◌, length, suc,
}
use ticktape.Base.BTreeMap
use ticktape.Base.SortedSet
use ticktape.Base.SortedSet.{Contains, Sorted, Contains-All}
use ticktape.Runtime.Timer.{
  Key, TimerWheel, by_deadline, lexicographic, pop_front, pop_due, len, cancel, disarm,
}
use ticktape.Runtime.Timer.Wheel.{IsValid, removed-IsValid}

-- The timer at the front of the firing order, popped.
abbrev popped : TimerWheel → Key → TimerWheel
popped w (at, seq, id) = record {
  by_id = BTreeMap.remove id w.by_id;
  order = SortedSet.remove by_deadline (at, seq, id) w.order;
}

-- What a successful pop found.
record Front (w : TimerWheel) (now id : ℕ) (w' : TimerWheel) : Type 0 where
  at : ℕ
  seq : ℕ
  rest : List Key
  order : w.order ≡ (at, seq, id) ∷ rest
  due : at ≤ now
  after : w' ≡ popped w (at, seq, id)

pop_front-Front :
    (w : TimerWheel) (now : ℕ) (order : List Key) (id : ℕ) (w' : TimerWheel)
    → w.order ≡ order
    → pop_front w now order ≡ some (id, w')
    → Front w now id w'
unfolding pop_front
pop_front-Front w now [] id w' e h = cc
pop_front-Front w now ((at, seq, i) ∷ rest) id w' e h =
    let same : i ≡ id = ground arith in
    record {
      at = at;
      seq = seq;
      rest = rest;
      order = e ∙ ap (λ n. (at, seq, n) ∷ rest) same;
      due = ground arith;
      after = sym (ground arith) ∙ ap (λ n. popped w (at, seq, n)) same;
    }

nothing_due :
    (w : TimerWheel) (now : ℕ) (order : List Key)
    → pop_front w now order ≡ none
    → (order ≡ []) ⊎ ((k : Key) × (rest : List Key) × (order ≡ k ∷ rest) × (now < k.0))
unfolding pop_front
nothing_due w now [] h = inl refl
nothing_due w now ((at, seq, i) ∷ rest) h = inr ((at, seq, i), rest, refl, ground arith)

-- No armed timer comes before the front of the firing order.
before-front :
    (w : TimerWheel) (k : Key) (rest : List Key)
    → IsValid w
    → w.order ≡ k ∷ rest
    → (at seq id : ℕ) → BTreeMap.get id w.by_id ≡ some (at, seq)
    → lexicographic (at, seq, id) k ≡ false
unfolding by_deadline
before-front w k rest v e at seq id armed =
    SortedSet.Sorted-first by_deadline k (at, seq, id) rest (subst (Sorted by_deadline) e v.sorted)
      (subst (Contains (at, seq, id)) e (v.ordered at seq id armed))

not_before :
    (at seq id : ℕ) (k : Key) {now : ℕ}
    → lexicographic (at, seq, id) k ≡ false
    → now < k.0
    → now < at
not_before at seq id (b, t, j) h late = ground arith

-- Timer `id` fires at `now`, and `w'` is left.
pub record Fires (w : TimerWheel) (now id : ℕ) (w' : TimerWheel) : Type 0 where
  pub at : ℕ
  pub seq : ℕ
  pub armed : BTreeMap.get id w.by_id ≡ some (at, seq)
  pub due : at ≤ now
  -- No armed timer has an earlier deadline, or the same one and an earlier seq or id.
  pub first :
      (a s i : ℕ)
      → BTreeMap.get i w.by_id ≡ some (a, s)
      → lexicographic (a, s, i) (at, seq, id) ≡ false
  pub gone : (j : ℕ) → BTreeMap.get j w'.by_id ≡ (if id == j then none else BTreeMap.get j w.by_id)
  pub fewer : suc (len w') ≡ len w
  pub valid : IsValid w'

module _ (w : TimerWheel) (now : ℕ) (v : IsValid w) where
  -- In a wheel whose two indexes agree, the timer that is popped at a time was armed and is due, no
  -- armed timer comes before it in the order of deadline, seq and id, exactly it is gone after, one
  -- timer fewer is pending, and the two indexes agree again.
  pub pop_due-some : (id : ℕ) (w' : TimerWheel) → pop_due w now ≡ some (id, w') → Fires w now id w'
  unfolding len
  pop_due-some id w' h =
      let f = pop_front-Front w now w.order id w' refl (unfold pop_due in h) in
      let armed =
        v.listed f.at f.seq id (subst (Contains (f.at, f.seq, id)) (sym f.order) (inl refl)) in
      record {
        at = f.at;
        seq = f.seq;
        armed = armed;
        due = f.due;
        first = before-front w (f.at, f.seq, id) f.rest v f.order;
        gone = λ j.
            ap (λ (u : TimerWheel). BTreeMap.get j u.by_id) f.after
            ∙ BTreeMap.get-remove id j 0 w.by_id v.ids;
        fewer =
            ap (λ (u : TimerWheel). suc (length u.by_id)) f.after
            ∙ BTreeMap.length-remove id (f.at, f.seq) w.by_id armed;
        valid = subst IsValid (sym f.after) (removed-IsValid w f.at f.seq id v armed);
      }

  -- In a wheel whose two indexes agree, if nothing is popped at a time, every armed timer has its
  -- deadline after it.
  pub pop_due-none :
      pop_due w now ≡ none → (at seq id : ℕ) → BTreeMap.get id w.by_id ≡ some (at, seq) → now < at
  pop_due-none h at seq id armed = elim (nothing_due w now w.order (unfold pop_due in h)) [
    | inl empty ↦ absurd (subst (Contains (at, seq, id)) empty (v.ordered at seq id armed))
    | inr (k, rest, front, late) ↦
        not_before at seq id k (before-front w k rest v front at seq id armed) late
  ]

  -- Popping a timer leaves the wheel that cancelling it leaves.
  pub pop_due-cancel : (id : ℕ) (w' : TimerWheel) → pop_due w now ≡ some (id, w') → w' ≡ cancel w id
  unfolding cancel disarm
  pop_due-cancel id w' h =
      let f = pop_front-Front w now w.order id w' refl (unfold pop_due in h) in
      let held =
        v.listed f.at f.seq id (subst (Contains (f.at, f.seq, id)) (sym f.order) (inl refl)) in
      f.after ∙ ap (disarm w id) (sym held)
