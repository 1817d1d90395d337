-- ===== src/Cluster/Commit.antt =====
-- crates/ticktape-cluster/src/commit.rs: the commit watermark of tier 2.
pub mod Watermark
mod Tests
use ticktape.Base.{
  ℕ, zero, suc, ◌-◌, max, Option, none, some, List, [], ◌∷◌, map, ltb, leb, if◌then◌else◌, length,
  get_or,
}
use ticktape.Base.BTreeMap.{get, insert}
use ticktape.Cluster.{majority}

pub record CommitTracker : Type 0 where
  pub high_waters : List (ℕ × ℕ)
  pub voters : ℕ

pub new : ℕ → CommitTracker
new voters = record { high_waters = []; voters = voters }

-- `or_insert(Seq::GENESIS)`
abbrev pub or_genesis : Option ℕ → ℕ
or_genesis none = 0
or_genesis (some seq) = seq

abbrev pub values : List (ℕ × ℕ) → List ℕ
values [] = []
values ((replica, seq) ∷ m) = seq ∷ values m

-- `sort_unstable_by(|a, b| b.cmp(a))`
pub insert_desc : ℕ → List ℕ → List ℕ
insert_desc x [] = x ∷ []
insert_desc x (y ∷ ys) = if leb y x then x ∷ y ∷ ys else y ∷ insert_desc x ys

pub sort_desc : List ℕ → List ℕ
unfolding insert_desc
sort_desc [] = []
sort_desc (x ∷ xs) = insert_desc x (sort_desc xs)

-- The majority-th highest high water; genesis while no majority has answered.
unfoldable pub committed : CommitTracker → ℕ
unfolding majority sort_desc
committed t =
    let needed = majority t.voters in
    if ltb (length t.high_waters) needed
    then 0
    else get_or (sort_desc (values t.high_waters)) (needed - 1) 0

-- The tracker after an acknowledgement.
unfoldable pub acked : CommitTracker → ℕ → ℕ → CommitTracker
acked t replica seq = record t {
  high_waters = insert replica (max (or_genesis (get replica t.high_waters)) seq) t.high_waters;
}

unfoldable pub record_ack : CommitTracker → ℕ → ℕ → CommitTracker × ℕ
unfolding acked
record_ack t replica seq = (acked t replica seq, committed (acked t replica seq))
