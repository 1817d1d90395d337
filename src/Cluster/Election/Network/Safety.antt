-- ===== src/Cluster/Election/Network/Safety.antt =====
-- No epoch has two leaders.
use ticktape.Base.{ℕ, ◌+◌, ◌≤◌, ◌≡◌, ◌≢◌, inl, inr, sym, subst, ◌∙◌, length, arith, trichotomy}
use ticktape.Base.BTreeSet.{Contains, disjoint_length}
use ticktape.Cluster.{majority}
use ticktape.Cluster.Election.{Election, outcome, won}
use ticktape.Cluster.Election.Network.{Cluster, Sent, Reach}
use ticktape.Cluster.Election.Network.Invariant.{Inv, Reach-Inv, granting}

pub won-majority :
    (e : Election) {epoch sync_to : ℕ}
    → outcome e ≡ won epoch sync_to
    → (epoch ≡ e.epoch) × (e.needed ≤ length e.granters) × (sync_to ≡ e.sync_to)
unfolding outcome
won-majority e h = ground arith

-- Two bids for one epoch share no granter.
granters_apart :
    (epoch : ℕ → ℕ) (s : Cluster) (c d k : ℕ)
    → Inv epoch s
    → epoch c ≡ epoch d
    → Contains k (s.election c).granters
    → Contains k (s.election d).granters
    → c ≡ d
granters_apart epoch s c d k v same p q =
    let (hw, sent, _) = v.backed c k p in
    let (hw', sent', _) = v.backed d k q in
    v.once k c d (epoch c) hw hw' sent
      (subst (λ e. Sent (granting k d e hw') s.sent) (sym same) sent')

pub two_majorities : (n a b : ℕ) → majority n ≤ a → majority n ≤ b → a + b ≤ n → ⊥
unfolding majority
two_majorities n a b h k l = omega arith

-- Two bids for one epoch that both hold a majority are one bid.
winners_agree :
    (epoch : ℕ → ℕ) (s : Cluster) (c d : ℕ)
    → Inv epoch s
    → epoch c ≡ epoch d
    → majority s.voters ≤ length (s.election c).granters
    → majority s.voters ≤ length (s.election d).granters
    → ¬ (c ≢ d)
winners_agree epoch s c d v same p q apart = two_majorities s.voters _ _ p q (
    omega (
      arith,
      disjoint_length 0 s.voters (s.election c).granters (s.election d).granters (v.counted c).0
          (v.counted d).0 (v.counted c).1 (v.counted d).1 (omega arith)
          (λ k x y. apart (granters_apart epoch s c d k v same x y)),
    ))

-- In every state that the election network reaches, while messages are lost, repeated and
-- reordered, two candidates that have won the same epoch are one candidate.
pub at_most_one_winner :
    {voters : ℕ} {epoch : ℕ → ℕ} {s : Cluster} {e sync sync' : ℕ} (c d : ℕ)
    → Reach voters epoch s
    → outcome (s.election c) ≡ won e sync
    → outcome (s.election d) ≡ won e sync'
    → c ≡ d
at_most_one_winner {epoch = epoch} {s = s} c d r wc wd =
    let v = Reach-Inv r in
    let (ec, mc, _) = won-majority (s.election c) wc in
    let (ed, md, _) = won-majority (s.election d) wd in
    let same : epoch c ≡ epoch d = sym (v.bid c).0 ∙ sym ec ∙ ed ∙ (v.bid d).0 in
    let agree =
      winners_agree epoch s c d v same
        (subst (λ n. n ≤ length (s.election c).granters) (v.bid c).1 mc)
        (subst (λ n. n ≤ length (s.election d).granters) (v.bid d).1 md) in
    elim (trichotomy c d) [
      | inl lt ↦ absurd (agree (λ e. omega arith))
      | inr (inl eq) ↦ eq
      | inr (inr gt) ↦ absurd (agree (λ e. omega arith))
    ]
