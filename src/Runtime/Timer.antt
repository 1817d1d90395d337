-- ===== src/Runtime/Timer.antt =====
-- crates/ticktape-runtime/src/timer.rs: the sequencer's timers.
pub mod Wheel
pub mod Due
pub mod Pending
pub mod Snapshot
mod Tests
use ticktape.Base.{
  ℕ, ◌≡◌, Bool, true, false, Option, none, some, List, [], ◌∷◌, ltb, if◌then◌else◌, length, arith,
}
use ticktape.Base.BTreeMap
use ticktape.Core.Service.{TimerReq}
use ticktape.Base.SortedSet
use ticktape.Base.SortedSet.{TotalOrder}

-- The deadline, the seq at which the timer was armed, its id.
abbrev pub Key : Type 0
Key = ℕ × ℕ × ℕ

-- Rust's order on tuples.
abbrev pub lexicographic : Key → Key → Bool
lexicographic (a, s, i) (b, t, j) =
    if ltb a b
    then true
    else if ltb b a
    then false
    else if ltb s t
    then true
    else if ltb t s
    then false
    else ltb i j

pub lexicographic-irreflexive : (k : Key) → lexicographic k k ≡ false
lexicographic-irreflexive (a, s, i) = ground arith

pub lexicographic-transitive :
    (x y z : Key) → lexicographic x y ≡ true → lexicographic y z ≡ true → lexicographic x z ≡ true
lexicographic-transitive (a, s, i) (b, t, j) (c, u, k) h g = ground arith

pub lexicographic-total :
    (x y : Key) → lexicographic x y ≡ false → lexicographic y x ≡ false → x ≡ y
lexicographic-total (a, s, i) (b, t, j) h g = ground arith

unfoldable pub by_deadline : TotalOrder Key
by_deadline = record {
  before = lexicographic;
  irreflexive = lexicographic-irreflexive;
  transitive = lexicographic-transitive;
  total = lexicographic-total;
}

pub record TimerWheel : Type 0 where
  -- `id → (deadline, seq it was armed at)`
  pub by_id : List (ℕ × (ℕ × ℕ))
  -- The firing order.
  pub order : List Key

unfoldable pub new : TimerWheel
new = record { by_id = []; order = [] }

-- The wheel without `id`, where it is pending as `armed`.
unfoldable pub disarm : TimerWheel → ℕ → Option (ℕ × ℕ) → TimerWheel
disarm w id none = w
disarm w id (some (at, seq)) = record {
  by_id = BTreeMap.remove id w.by_id;
  order = SortedSet.remove by_deadline (at, seq, id) w.order;
}

-- Cancel `id` if pending.
unfoldable pub cancel : TimerWheel → ℕ → TimerWheel
unfolding disarm
cancel w id = disarm w id (BTreeMap.get id w.by_id)

unfoldable pub arm : TimerWheel → ℕ → ℕ → ℕ → TimerWheel
arm w id at set_at = record {
  by_id = BTreeMap.insert id (at, set_at) w.by_id;
  order = SortedSet.insert by_deadline (at, set_at, id) w.order;
}

-- Arm or re-arm `id`; re-arming replaces the old deadline.
unfoldable pub set : TimerWheel → ℕ → ℕ → ℕ → TimerWheel
unfolding disarm arm
set w id at set_at = arm (disarm w id (BTreeMap.get id w.by_id)) id at set_at

unfoldable pub apply : TimerWheel → TimerReq → ℕ → TimerWheel
unfolding set cancel
apply w (TimerReq.set id at) set_at = set w id at set_at
apply w (TimerReq.cancel id) set_at = cancel w id

-- `self.order.iter().next()?`, the deadline test, and the removal.
unfoldable pub pop_front : TimerWheel → ℕ → List Key → Option (ℕ × TimerWheel)
pop_front w now [] = none
pop_front w now ((at, seq, id) ∷ rest) =
    if ltb now at
    then none
    else some (
      id,
      record {
        by_id = BTreeMap.remove id w.by_id;
        order = SortedSet.remove by_deadline (at, seq, id) w.order;
      },
    )

-- The earliest timer that is due at `now`, and the wheel without it.
unfoldable pub pop_due : TimerWheel → ℕ → Option (ℕ × TimerWheel)
unfolding pop_front
pop_due w now = pop_front w now w.order

abbrev pub entries : List (ℕ × (ℕ × ℕ)) → List (ℕ × ℕ × ℕ)
entries [] = []
entries ((id, (at, seq)) ∷ m) = (id, at, seq) ∷ entries m

-- `(id, deadline, seq)` in id order.
unfoldable pub snapshot : TimerWheel → List (ℕ × ℕ × ℕ)
snapshot w = entries w.by_id

pub set_all : TimerWheel → List (ℕ × ℕ × ℕ) → TimerWheel
unfolding set
set_all w [] = w
set_all w ((id, at, seq) ∷ es) = set_all (set w id at seq) es

pub restore : List (ℕ × ℕ × ℕ) → TimerWheel
unfolding new set_all
restore es = set_all new es

pub len : TimerWheel → ℕ
len w = length w.by_id
