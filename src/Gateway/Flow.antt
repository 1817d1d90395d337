-- ===== src/Gateway/Flow.antt =====
-- crates/ticktape-gateway/src/flow.rs: dedup, gap detection and the window of one session.
pub mod ExactlyOnce
pub mod Window
mod Tests
use ticktape.Base.{ℕ, ◌+◌, ◌-◌, max, ltb, leb, if◌then◌else◌, List, [], ◌∷◌, ◌++◌}

pub data Admit : Type 0 where
  accept duplicate throttled : Admit
  gap : ℕ → Admit

pub record SessionFlow : Type 0 where
  pub next : ℕ
  pub window : ℕ
  pub outstanding : ℕ

pub resume : ℕ → ℕ → SessionFlow
resume last_admitted window = record {
  next = last_admitted + 1;
  window = max window 1;
  outstanding = 0;
}

pub new : ℕ → SessionFlow
unfolding resume
new window = resume 0 window

-- The session after a command, and the verdict on it.
pub admit : SessionFlow → ℕ → SessionFlow × Admit
admit f client_seq =
    if ltb client_seq f.next
    then (f, duplicate)
    else if ltb f.next client_seq
    then (f, gap f.next)
    else if leb f.window f.outstanding
    then (f, throttled)
    else (record f { next = f.next + 1; outstanding = f.outstanding + 1 }, accept)

-- `saturating_sub(1)`
pub on_acked : SessionFlow → SessionFlow
on_acked f = record f { outstanding = f.outstanding - 1 }

-- What a session meets: a command of its client, or the acknowledgement of an admitted one.
pub data Event : Type 0 where
  command : ℕ → Event
  acked : Event

abbrev pub admitted : Admit → ℕ → List ℕ
admitted accept client_seq = client_seq ∷ []
admitted _ client_seq = []

-- The session after a history, with the commands that were sequenced.
pub run : SessionFlow → List Event → SessionFlow × List ℕ
run f [] = (f, [])
run f (command client_seq ∷ es) =
    let (f', verdict) = admit f client_seq in
    let (f'', later) = run f' es in (f'', admitted verdict client_seq ++ later)
run f (acked ∷ es) = run (on_acked f) es
