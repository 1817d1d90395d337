-- ===== src/Runtime/Commit/Release.antt =====
-- Outputs under quorum commit: what is released, when, and in which order.
use ticktape.Base.{
  ℕ, suc, ◌≤◌, ◌≡◌, refl, List, [], ◌∷◌, ◌++◌, All, leb, arith, Bool-cases, inl, inr,
}
use ticktape.Base.BTreeMap.{Ascending, Ascending-weaken}
use ticktape.Cluster.{majority}
use ticktape.Cluster.Commit.{CommitTracker, committed, values}
use ticktape.Cluster.Commit.Watermark.{count_ge, committed_iff}
use ticktape.Runtime.Commit.{CommitState, watermark, drained, up_to, above}

count_ge-above :
    (top : ℕ) (m : List (ℕ × ℕ)) → All (λ w. w.1 ≤ top) m → count_ge (suc top) (values m) ≡ 0
unfolding count_ge
count_ge-above top [] h = refl
count_ge-above top ((r, w) ∷ m) h = ground (arith, h.0, count_ge-above top m h.1)

module _ {ℓ} {V : Type ℓ} where
  up_to-above :
      (mark : ℕ) (n : ℕ) (m : List (ℕ × V)) → Ascending n m → up_to mark m ++ above mark m ≡ m
  up_to-above mark n [] h = refl
  up_to-above mark n ((k, v) ∷ m) h = ground (arith, up_to-above mark (suc k) m h.1)

  up_to-le : (mark : ℕ) (m : List (ℕ × V)) → All (λ p. p.0 ≤ mark) (up_to mark m)
  up_to-le mark [] = tt
  up_to-le mark ((k, v) ∷ m) = ground (arith, up_to-le mark m)

  above-Ascending :
      (mark n : ℕ) (m : List (ℕ × V)) → Ascending n m → Ascending (suc mark) (above mark m)
  above-Ascending mark n [] h = tt
  above-Ascending mark n ((k, v) ∷ m) h =
      ground (arith, h.0, h.1, above-Ascending mark (suc k) m h.1)

  above-below :
      (mark top : ℕ) (m : List (ℕ × V))
      → All (λ p. p.0 ≤ top) m
      → All (λ p. p.0 ≤ top) (above mark m)
  above-below mark top [] h = tt
  above-below mark top ((k, v) ∷ m) h = ground (arith, h.0, h.1, above-below mark top m h.1)

module _ {O : Type 0} where
  abbrev pub tracker : CommitState O → CommitTracker
  tracker s = record { high_waters = s.high_waters; voters = s.voters }

  -- The watermark is that of the cluster's commit tracker.
  pub watermark-committed : (s : CommitState O) → watermark s ≡ committed (tracker s)
  unfolding watermark committed majority
  watermark-committed s = refl

  -- All high waters and all waiting seqs are at most `top`, the seq of the last frame, and the
  -- waiting seqs ascend above what is committed.
  pub record IsValid (top : ℕ) (s : CommitState O) : Type 0 where
    pub waters : All (λ w. w.1 ≤ top) s.high_waters
    pub waiting : Ascending (suc s.committed) s.pending
    pub below : All (λ p. p.0 ≤ top) s.pending
    pub reached : s.committed ≤ top

  pub watermark-le :
      (top : ℕ) (s : CommitState O) → All (λ w. w.1 ≤ top) s.high_waters → watermark s ≤ top
  unfolding majority
  watermark-le top s h = ground (
    arith,
    watermark-committed s,
    (committed_iff (tracker s) (suc top) (omega arith)).0,
    count_ge-above top s.high_waters h,
  )

  -- What one drain released, and what it left.
  pub record Drained (top mark : ℕ) (s : CommitState O) (r : CommitState O × List (ℕ × List O))
      : Type 0 where
    pub conserved : r.1 ++ r.0.pending ≡ s.pending
    pub backed : All (λ p. p.0 ≤ mark) r.1
    pub same_waters : watermark r.0 ≡ watermark s
    pub prompt : Ascending (suc mark) r.0.pending
    pub valid : IsValid top r.0

  pub drained-Drained :
      (top mark : ℕ) (s : CommitState O)
      → IsValid top s
      → mark ≤ top
      → Drained top mark s (drained s mark)
  unfolding drained watermark
  drained-Drained top mark s v h = elim (Bool-cases (leb mark s.committed)) [
    | inl still ↦ rw still (record {
      conserved = refl;
      backed = tt;
      same_waters = refl;
      prompt =
          Ascending-weaken (suc mark) (suc s.committed) s.pending (ground (arith, still)) v.waiting;
      valid = v;
    })
    | inr moves ↦ rw moves (record {
      conserved = up_to-above mark (suc s.committed) s.pending v.waiting;
      backed = up_to-le mark s.pending;
      same_waters = refl;
      prompt = above-Ascending mark (suc s.committed) s.pending v.waiting;
      valid = record {
        waters = v.waters;
        waiting = above-Ascending mark (suc s.committed) s.pending v.waiting;
        below = above-below mark top s.pending v.below;
        reached = h;
      };
    })
  ]
