-- ===== src/Runtime/Timer/Pending.antt =====
-- How many timers are due at a time.
use ticktape.Base.{
  ℕ, suc, ◌≤◌, ◌<◌, ◌≡◌, ◌∙◌, ap, Option, none, some, List, [], ◌∷◌, leb, arith, ◌==◌,
  if◌then◌else◌, inl, inr, Bool-cases,
}
use ticktape.Base.BTreeMap
use ticktape.Core.Service.{TimerReq}
use ticktape.Runtime.Timer.{TimerWheel, pop_due, apply, set, cancel, disarm, arm}
use ticktape.Runtime.Timer.Wheel.{IsValid}
use ticktape.Runtime.Timer.Due.{pop_due-some, pop_due-cancel}

unfoldable pub due_entries : ℕ → List (ℕ × (ℕ × ℕ)) → ℕ
due_entries now [] = 0
due_entries now ((id, (at, seq)) ∷ m) =
    let rest = due_entries now m in if leb at now then suc rest else rest

unfoldable pub due_count : ℕ → TimerWheel → ℕ
unfolding due_entries
due_count now w = due_entries now w.by_id

due_entries-remove :
    (now id : ℕ) (m : List (ℕ × (ℕ × ℕ)))
    → due_entries now (BTreeMap.remove id m) ≤ due_entries now m
unfolding due_entries BTreeMap.remove
due_entries-remove now id [] = omega arith
due_entries-remove now id ((j, (at, seq)) ∷ m) = ground (arith, due_entries-remove now id m)

due_entries-remove_due :
    (now id at seq : ℕ) (m : List (ℕ × (ℕ × ℕ)))
    → BTreeMap.get id m ≡ some (at, seq)
    → at ≤ now
    → suc (due_entries now (BTreeMap.remove id m)) ≡ due_entries now m
unfolding due_entries BTreeMap.remove BTreeMap.get
due_entries-remove_due now id at seq [] e h = cc
due_entries-remove_due now id at seq ((j, (a, s)) ∷ m) e h = elim (Bool-cases (j == id)) [
  | inl hit ↦ ground (arith, e, hit)
  | inr miss ↦
      ground (arith, miss, due_entries-remove_due now id at seq m (ground (arith, e, miss)) h)
]

due_entries-insert :
    (now id at seq : ℕ) (m : List (ℕ × (ℕ × ℕ)))
    → now < at
    → due_entries now (BTreeMap.insert id (at, seq) m) ≤ due_entries now m
unfolding due_entries BTreeMap.insert
due_entries-insert now id at seq [] h = ground arith
due_entries-insert now id at seq ((j, (a, s)) ∷ m) h =
    ground (arith, due_entries-insert now id at seq m h)

-- A request that makes no timer due at `now`.
abbrev pub Later : ℕ → TimerReq → Type 0
Later now (TimerReq.set id at) = now < at
Later now (TimerReq.cancel id) = Unit {0}

due_count-disarm :
    (now id : ℕ) (w : TimerWheel) (armed : Option (ℕ × ℕ))
    → due_count now (disarm w id armed) ≤ due_count now w
unfolding due_count disarm
due_count-disarm now id w none = omega arith
due_count-disarm now id w (some (at, seq)) = due_entries-remove now id w.by_id

pub due_count-apply :
    (now seq : ℕ) (w : TimerWheel) (op : TimerReq)
    → Later now op
    → due_count now (apply w op seq) ≤ due_count now w
unfolding apply set cancel arm due_count
due_count-apply now seq w (TimerReq.set id at) h =
    let armed = BTreeMap.get id w.by_id in
    omega (
      arith,
      due_count-disarm now id w armed,
      due_entries-insert now id at seq (disarm w id armed).by_id h,
    )
due_count-apply now seq w (TimerReq.cancel id) h =
    due_count-disarm now id w (BTreeMap.get id w.by_id)

-- A popped timer was one of those that were due.
pub due_count-pop_due :
    (now id : ℕ) (w w' : TimerWheel)
    → IsValid w
    → pop_due w now ≡ some (id, w')
    → suc (due_count now w') ≡ due_count now w
unfolding due_count cancel disarm
due_count-pop_due now id w w' v e =
    let f = pop_due-some w now v id w' e in
    ap (λ (u : TimerWheel). suc (due_entries now u.by_id))
      (pop_due-cancel w now v id w' e ∙ ap (disarm w id) f.armed)
    ∙ due_entries-remove_due now id f.at f.seq w.by_id f.armed f.due
