-- ===== src/Runtime/Timer/Tests.antt =====
-- Runs of the timer wheel.
use ticktape.Base.{◌≡◌, refl, none, some, [], ◌∷◌}
use ticktape.Base.BTreeMap
use ticktape.Base.SortedSet
use ticktape.Runtime.Timer.{
  TimerWheel, new, apply, pop_due, set, disarm, arm, pop_front, by_deadline, set_all, restore,
  snapshot,
}
use ticktape.Runtime.Timer.Wheel.{IsValid, apply-IsValid}
use ticktape.Runtime.Timer.Due.{Fires, pop_due-some}
use ticktape.Runtime.Timer.Snapshot.{restore-IsValid, restore-snapshot}
use ticktape.Core.Service.{TimerReq}

-- Timer 7 is due at 30, the timers 2 and 9 at 20; 2 was armed after 9.
abbrev three : TimerWheel
three = restore ((2, 20, 6) ∷ (7, 30, 4) ∷ (9, 20, 5) ∷ [])

abbrev three_left : TimerWheel
three_left = record {
  by_id = (2, (20, 6)) ∷ (7, (30, 4)) ∷ [];
  order = (20, 6, 2) ∷ (30, 4, 7) ∷ [];
}

three-IsValid : IsValid three
three-IsValid = restore-IsValid _

three_fires : pop_due three 25 ≡ some (9, three_left)
unfolding pop_due pop_front restore set_all set arm disarm new BTreeMap.get BTreeMap.insert
    BTreeMap.remove SortedSet.insert SortedSet.remove by_deadline
three_fires = refl

three_early : pop_due three 19 ≡ none
unfolding pop_due pop_front restore set_all set arm disarm new BTreeMap.get BTreeMap.insert
    BTreeMap.remove SortedSet.insert SortedSet.remove by_deadline
three_early = refl

three_armed : BTreeMap.get 7 three.by_id ≡ some (30, 4)
unfolding restore set_all set arm disarm new BTreeMap.get BTreeMap.insert BTreeMap.remove
    SortedSet.insert SortedSet.remove by_deadline
three_armed = refl

apply-IsValid_example : IsValid (apply three (TimerReq.set 7 10) 8)
apply-IsValid_example = apply-IsValid three (TimerReq.set 7 10) 8 three-IsValid

pop_due-some_example : Fires three 25 9 three_left
pop_due-some_example = pop_due-some three 25 three-IsValid 9 three_left three_fires

restore-snapshot_example : restore (snapshot three) ≡ three
restore-snapshot_example = restore-snapshot three three-IsValid
