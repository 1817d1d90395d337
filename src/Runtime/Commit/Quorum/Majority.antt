-- ===== src/Runtime/Commit/Quorum/Majority.antt =====
-- The watermark of a history, and the majority behind it.
use ticktape.Base.{ℕ, ◌*◌, ◌<◌, ◌≡◌, List, ◌++◌, All}
use ticktape.Base.BTreeMap.{Ascending}
use ticktape.Cluster.Commit.{values}
use ticktape.Cluster.Commit.Watermark.{count_ge}
use ticktape.Runtime.Commit.{CommitState}

module _ {O : Type 0} where
  -- More than half as many replicas as there are voters have acknowledged `seq`.
  abbrev pub Held : ℕ → CommitState O → ℕ → Type 0
  Held voters s seq = voters < 2 * count_ge seq (values s.high_waters)

  -- The group: its size, and one high water for each replica that was heard.
  pub record IsGroup (voters : ℕ) (s : CommitState O) : Type 0 where
    pub size : s.voters ≡ voters
    pub replicas : Ascending 0 s.high_waters

  pub record ReleasedByQuorum (voters : ℕ) (added : List (ℕ × List O))
      (r : CommitState O × List (ℕ × List O)) : Type 0 where
    pub group : IsGroup voters r.0
    pub conserved : r.1 ++ r.0.pending ≡ added
    pub held : All (λ p. Held voters r.0 p.0) r.1
    pub waiting : All (λ p. ¬ Held voters r.0 p.0) r.0.pending
