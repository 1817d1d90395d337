-- ===== src/Runtime/Commit.antt =====
-- crates/ticktape-runtime/src/lib.rs: CommitState, the outputs that wait for a quorum.
pub mod Release
pub mod Quorum
mod Tests
use ticktape.Base.{
  ℕ, suc, ◌+◌, ◌-◌, ◌/◌, max, Option, none, some, List, [], ◌∷◌, ◌++◌, ltb, leb, if◌then◌else◌,
  length, get_or,
}
use ticktape.Base.BTreeMap.{get, insert}
use ticktape.Cluster.Commit.{or_genesis, values, sort_desc}

pub record CommitConfig : Type 0 where
  pub voters : ℕ
  pub self_replica : ℕ

pub record CommitState (O : Type 0) : Type 0 where
  pub voters : ℕ
  pub self_replica : ℕ
  pub high_waters : List (ℕ × ℕ)
  -- The outputs of applied inputs by seq.
  pub pending : List (ℕ × List O)
  pub committed : ℕ

-- `split_off(&mark.next())`: what stays below, and what is split off.
abbrev pub up_to {ℓ} : {V : Type ℓ} → ℕ → List (ℕ × V) → List (ℕ × V)
up_to mark [] = []
up_to mark ((k, v) ∷ m) = let rest = up_to mark m in if leb k mark then (k, v) ∷ rest else []

abbrev pub above {ℓ} : {V : Type ℓ} → ℕ → List (ℕ × V) → List (ℕ × V)
above mark [] = []
above mark ((k, v) ∷ m) = let rest = above mark m in if leb k mark then rest else (k, v) ∷ m

module _ {O : Type 0} where
  unfoldable pub new : CommitConfig → ℕ → CommitState O
  new config self_seq = record {
    voters = config.voters;
    self_replica = config.self_replica;
    high_waters = (config.self_replica, self_seq) ∷ [];
    pending = [];
    committed = self_seq;
  }

  -- `record`: a high water never goes back.
  unfoldable pub noted : CommitState O → ℕ → ℕ → CommitState O
  noted s replica seq = record s {
    high_waters = insert replica (max (or_genesis (get replica s.high_waters)) seq) s.high_waters;
  }

  unfoldable pub watermark : CommitState O → ℕ
  watermark s =
      let needed = s.voters / 2 + 1 in
      if ltb (length s.high_waters) needed
      then 0
      else get_or (sort_desc (values s.high_waters)) (needed - 1) 0

  unfoldable pub drained : CommitState O → ℕ → CommitState O × List (ℕ × List O)
  drained s mark =
      if leb mark s.committed
      then (s, [])
      else (record s { committed = mark; pending = above mark s.pending }, up_to mark s.pending)

  -- Advance to the watermark, and release what it has passed.
  unfoldable pub drain_committed : CommitState O → CommitState O × List (ℕ × List O)
  unfolding drained watermark
  drain_committed s = drained s (watermark s)

  -- A leader's own frame: its outputs wait until a majority holds it.
  unfoldable pub withhold : CommitState O → ℕ → List O → CommitState O × List (ℕ × List O)
  unfolding noted drain_committed
  withhold s seq outputs =
      let s' = record s { pending = insert seq outputs s.pending } in
      drain_committed (noted s' s.self_replica seq)

  -- A follower's acknowledgement.
  unfoldable pub acknowledge : CommitState O → ℕ → ℕ → CommitState O × List (ℕ × List O)
  unfolding noted drain_committed
  acknowledge s replica seq = drain_committed (noted s replica seq)
