-- ===== src/Runtime/Timer/Snapshot.antt =====
-- A snapshot keeps the whole wheel.
use ticktape.Base.{
  ℕ, suc, ◌≡◌, refl, sym, ap, ◌∙◌, none, some, Option, List, [], ◌∷◌, arith, ◌==◌, if◌then◌else◌,
}
use ticktape.Base.BTreeMap
use ticktape.Base.BTreeMap.{Ascending, Ascending-weaken}
use ticktape.Base.BTreeMap.Extensional.{get-ext}
use ticktape.Base.SortedSet
use ticktape.Base.SortedSet.{Sorted, Contains}
use ticktape.Runtime.Timer.{
  Key, TimerWheel, by_deadline, new, set, set_all, restore, snapshot, entries,
}
use ticktape.Runtime.Timer.Wheel.{IsValid, new-IsValid, set_all-IsValid, get-set, set-IsValid}

abbrev or_else : Option (ℕ × ℕ) → Option (ℕ × ℕ) → Option (ℕ × ℕ)
or_else none rest = rest
or_else (some k) rest = some k

or_else-none : (o : Option (ℕ × ℕ)) → or_else o none ≡ o
or_else-none none = refl
or_else-none (some k) = refl

-- The entry of `m` for `j`, or else `rest`.
abbrev over : List (ℕ × (ℕ × ℕ)) → ℕ → Option (ℕ × ℕ) → Option (ℕ × ℕ)
over [] j rest = rest
over ((id, k) ∷ m) j rest = over m j (if id == j then some k else rest)

get-set_all :
    (w : TimerWheel) (m : List (ℕ × (ℕ × ℕ))) (j : ℕ)
    → IsValid w
    → BTreeMap.get j (set_all w (entries m)).by_id ≡ over m j (BTreeMap.get j w.by_id)
unfolding set_all
get-set_all w [] j v = refl
get-set_all w ((id, (at, seq)) ∷ m) j v =
    get-set_all (set w id at seq) m j (set-IsValid w id at seq v)
    ∙ ap (over m j) (get-set w id at seq v j)

over-get :
    (n j : ℕ) (m : List (ℕ × (ℕ × ℕ))) (rest : Option (ℕ × ℕ))
    → Ascending n m
    → over m j rest ≡ or_else (BTreeMap.get j m) rest
unfolding BTreeMap.get
over-get n j [] rest s = refl
over-get n j ((id, k) ∷ m) rest s =
    over-get (suc id) j m (if id == j then some k else rest) s.1
    ∙ ground (arith, BTreeMap.get_below j (suc id) m s.1)

-- A wheel is determined by its timers.
pub IsValid-ext : (w w' : TimerWheel) → IsValid w → IsValid w' → w.by_id ≡ w'.by_id → w ≡ w'
IsValid-ext w w' v v' e = λ i. record { by_id = e i; order = orders i }
  where
    moved :
        (w w' : TimerWheel)
        → IsValid w
        → IsValid w'
        → w.by_id ≡ w'.by_id
        → (k : Key) → Contains k w.order
        → Contains k w'.order
    moved w w' v v' e (at, seq, id) c =
        v'.ordered at seq id (ap (λ m. BTreeMap.get id m) (sym e) ∙ v.listed at seq id c)

    orders : w.order ≡ w'.order
    orders =
        SortedSet.Sorted-ext by_deadline w.order w'.order v.sorted v'.sorted (moved w w' v v' e)
          (moved w' w v' v (sym e))

pub restore-IsValid : (es : List Key) → IsValid (restore es)
unfolding restore
restore-IsValid es = set_all-IsValid new es new-IsValid

-- Restoring the snapshot of a wheel whose two indexes agree gives that wheel, the firing order
-- included.
pub restore-snapshot : (w : TimerWheel) → IsValid w → restore (snapshot w) ≡ w
unfolding restore snapshot new BTreeMap.get
restore-snapshot w v = IsValid-ext (restore (snapshot w)) w (restore-IsValid (snapshot w)) v (
    get-ext 0 _ w.by_id (restore-IsValid (snapshot w)).ids v.ids (λ k.
      get-set_all new w.by_id k new-IsValid
      ∙ over-get 0 k w.by_id none v.ids
      ∙ or_else-none (BTreeMap.get k w.by_id)))
