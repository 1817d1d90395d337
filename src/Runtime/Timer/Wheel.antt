-- ===== src/Runtime/Timer/Wheel.antt =====
-- The two indexes of the timer wheel agree, whatever is done to it.
use ticktape.Base.{
  ℕ, ◌≡◌, ap, ◌∙◌, if◌then◌else◌, ◌↔◌, inl, inr, refl, none, some, List, [], ◌∷◌, arith,
  Option-cases, ◌==◌,
}
use ticktape.Base.BTreeMap
use ticktape.Base.BTreeMap.{Ascending}
use ticktape.Base.SortedSet
use ticktape.Base.SortedSet.{Contains, Sorted}
use ticktape.Runtime.Timer.{
  Key, TimerWheel, by_deadline, new, disarm, cancel, arm, set, apply, set_all,
}
use ticktape.Core.Service.{TimerReq}

-- `order` holds exactly the timers of `by_id`, in the firing order.
pub record IsValid (w : TimerWheel) : Type 0 where
  pub ids : Ascending 0 w.by_id
  pub sorted : Sorted by_deadline w.order
  pub listed :
      (at seq id : ℕ) → Contains (at, seq, id) w.order → BTreeMap.get id w.by_id ≡ some (at, seq)
  pub ordered :
      (at seq id : ℕ) → BTreeMap.get id w.by_id ≡ some (at, seq) → Contains (at, seq, id) w.order

pub new-IsValid : IsValid new
unfolding new
new-IsValid = record {
  ids = tt;
  sorted = tt;
  listed = λ at seq id c. absurd c;
  ordered = λ at seq id e. unfold BTreeMap.get in cc e;
}

-- Which entries the two indexes hold after a removal and an insertion.
get-removed :
    (k j : ℕ) (m : List (ℕ × (ℕ × ℕ))) {v w : ℕ × ℕ}
    → Ascending 0 m
    → BTreeMap.get k m ≡ some v
    → (BTreeMap.get j (BTreeMap.remove k m) ≡ some w)
      ↔ ((BTreeMap.get j m ≡ some w) × ((j ≡ k) → ⊥))
get-removed k j m s e = ground (arith, BTreeMap.get-remove k j 0 m s)

pub removed-IsValid :
    (w : TimerWheel) (at seq id : ℕ)
    → IsValid w
    → BTreeMap.get id w.by_id ≡ some (at, seq)
    → IsValid (record {
      by_id = BTreeMap.remove id w.by_id;
      order = SortedSet.remove by_deadline (at, seq, id) w.order;
    })
removed-IsValid w at seq id v e = record {
  ids = BTreeMap.remove-Ascending id 0 w.by_id v.ids;
  sorted = SortedSet.remove-Sorted by_deadline (at, seq, id) w.order v.sorted;
  listed = λ a s i c.
      let (held, other) =
        (SortedSet.Contains-remove by_deadline (a, s, i) (at, seq, id) w.order v.sorted).0 c in
      (get-removed id i w.by_id v.ids e).1 (
        v.listed a s i held,
        λ same. other (same_timer w a s i at seq id (v.listed a s i held) e same),
      );
  ordered = λ a s i f.
      let (held, other) = (get-removed id i w.by_id v.ids e).0 f in
      (SortedSet.Contains-remove by_deadline (a, s, i) (at, seq, id) w.order v.sorted).1
        (v.ordered a s i held, λ same. other (ap (λ (k : Key). k.2) same));
}
  where
    same_timer :
        (w : TimerWheel) (a s i at seq id : ℕ)
        → BTreeMap.get i w.by_id ≡ some (a, s)
        → BTreeMap.get id w.by_id ≡ some (at, seq)
        → i ≡ id
        → (◌≡◌ {A = Key} (a, s, i) (at, seq, id))
    same_timer w a s i at seq id f e same =
        let pairs : ◌≡◌ {A = ℕ × ℕ} (a, s) (at, seq) = cc (f, e, same) in
        λ j. ((pairs j).0, (pairs j).1, same j)

pub arm-IsValid :
    (w : TimerWheel) (id at seq : ℕ)
    → IsValid w
    → BTreeMap.get id w.by_id ≡ none
    → IsValid (arm w id at seq)
unfolding arm
arm-IsValid w id at seq v e = record {
  ids = BTreeMap.insert-Ascending id 0 (at, seq) w.by_id (omega arith) v.ids;
  sorted = SortedSet.insert-Sorted by_deadline (at, seq, id) w.order v.sorted;
  listed = λ a s i c. ground (
    arith,
    (SortedSet.Contains-insert by_deadline (a, s, i) (at, seq, id) w.order).0 c,
    BTreeMap.get-insert id i (at, seq) w.by_id,
    v.listed a s i,
  );
  ordered = λ a s i f. ground (
    arith,
    (SortedSet.Contains-insert by_deadline (a, s, i) (at, seq, id) w.order).1,
    BTreeMap.get-insert id i (at, seq) w.by_id,
    v.ordered a s i,
  );
}

module _ (w : TimerWheel) (id : ℕ) (v : IsValid w) where
  pub cancel-IsValid : IsValid (cancel w id)
  unfolding cancel disarm
  cancel-IsValid = elim (Option-cases (BTreeMap.get id w.by_id)) [
    | inl idle ↦ rw idle v
    | inr ((at, seq), armed) ↦ rw armed (removed-IsValid w at seq id v armed)
  ]

  -- `cancel` forgets `id` and nothing else.
  pub get-cancel :
      (j : ℕ)
      → BTreeMap.get j (cancel w id).by_id ≡ (if id == j then none else BTreeMap.get j w.by_id)
  unfolding cancel disarm
  get-cancel j = elim (Option-cases (BTreeMap.get id w.by_id)) [
    | inl idle ↦ rw idle (ground arith)
    | inr (k, armed) ↦ rw armed (BTreeMap.get-remove id j 0 w.by_id v.ids)
  ]

pub cancel-none : (w : TimerWheel) (id : ℕ) → IsValid w → BTreeMap.get id (cancel w id).by_id ≡ none
cancel-none w id v = get-cancel w id v id ∙ ground arith

module _ (w : TimerWheel) (id at set_at : ℕ) (v : IsValid w) where
  set-arm : set w id at set_at ≡ arm (cancel w id) id at set_at
  unfolding set cancel
  set-arm = refl

  pub set-IsValid : IsValid (set w id at set_at)
  set-IsValid =
      rw set-arm
        (arm-IsValid (cancel w id) id at set_at (cancel-IsValid w id v) (cancel-none w id v))

  -- `set` replaces what was known of `id`, and nothing else.
  pub get-set :
      (j : ℕ)
      → BTreeMap.get j (set w id at set_at).by_id
        ≡ (if id == j then some (at, set_at) else BTreeMap.get j w.by_id)
  unfolding arm
  get-set j =
      ap (λ (u : TimerWheel). BTreeMap.get j u.by_id) set-arm
      ∙ BTreeMap.get-insert id j (at, set_at) (cancel w id).by_id
      ∙ ground (arith, get-cancel w id v j)

-- Arming, re-arming or cancelling any timer keeps the two indexes of the wheel in agreement: both
-- in order, with the same timers.
pub apply-IsValid :
    (w : TimerWheel) (req : TimerReq) (set_at : ℕ) → IsValid w → IsValid (apply w req set_at)
unfolding apply
apply-IsValid w (TimerReq.set id at) set_at v = set-IsValid w id at set_at v
apply-IsValid w (TimerReq.cancel id) set_at v = cancel-IsValid w id v

pub set_all-IsValid : (w : TimerWheel) (es : List Key) → IsValid w → IsValid (set_all w es)
unfolding set_all
set_all-IsValid w [] v = v
set_all-IsValid w ((id, at, seq) ∷ es) v =
    set_all-IsValid (set w id at seq) es (set-IsValid w id at seq v)
