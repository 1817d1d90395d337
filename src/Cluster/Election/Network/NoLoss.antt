-- ===== src/Cluster/Election/Network/NoLoss.antt =====
-- A winner syncs far enough: nothing committed is lost on failover.
use ticktape.Base.{
  ℕ, suc, ◌<◌, ◌≤◌, ◌≡◌, inl, inr, refl, sym, ap, subst, List, [], ◌∷◌, leb, ltb, if◌then◌else◌,
  length, All, arith, Bool-cases, leb, ltb→lt, ltb_false→le,
}
use native.Mathlib.Nat.{le_trans}
use ticktape.Base.BTreeMap
use ticktape.Base.BTreeSet.{Contains, Ascending, disjoint_length}
use ticktape.Cluster.{majority}
use ticktape.Cluster.Commit.{CommitTracker, or_genesis, values, committed}
use ticktape.Cluster.Commit.Watermark.{count_ge, committed_iff}
use ticktape.Cluster.Election.{Acceptor, VoteRequest, grant, handle, request, outcome, won}
use ticktape.Cluster.Election.Network.{
  Cluster, Message, Sent, Reach, here, step, votes, delivers, observes, fences, start, vote,
  deliver, observe, fence,
}
use ticktape.Cluster.Election.Network.Invariant.{Inv, Reach-Inv, granting, handle-grant}
use ticktape.Cluster.Election.Network.Safety.{won-majority, two_majorities}

-- The replicas whose high water reaches `s`.
abbrev holders : ℕ → List (ℕ × ℕ) → List ℕ
holders s [] = []
holders s ((k, w) ∷ m) = if leb s w then k ∷ holders s m else holders s m

length-holders : (s : ℕ) (m : List (ℕ × ℕ)) → length (holders s m) ≡ count_ge s (values m)
length-holders s [] = refl
length-holders s ((k, w) ∷ m) = ground (arith, length-holders s m)

Ascending-weaken : (a b : ℕ) (s : List ℕ) → a ≤ b → Ascending b s → Ascending a s
Ascending-weaken a b [] h l = tt
Ascending-weaken a b (k ∷ s) h l = (omega arith, l.1)

holders-Ascending :
    (s n : ℕ) (m : List (ℕ × ℕ)) → BTreeMap.Ascending n m → Ascending n (holders s m)
holders-Ascending s n [] h = tt
holders-Ascending s n ((k, w) ∷ m) h =
    ground (arith, holders-Ascending s (suc k) m h.1, Ascending-weaken n (suc k) (holders s m))

abbrev pub KeysBelow : ℕ → List (ℕ × ℕ) → Type 0
KeysBelow v m = All (λ p. p.0 < v) m

holders-below : (s v : ℕ) (m : List (ℕ × ℕ)) → KeysBelow v m → All (λ k. k < v) (holders s m)
holders-below s v [] h = tt
holders-below s v ((k, w) ∷ m) h = ground (arith, holders-below s v m h.1)

Contains-ge : (k n : ℕ) (s : List ℕ) → Ascending n s → Contains k s → n ≤ k
Contains-ge k n [] a c = absurd c
Contains-ge k n (j ∷ s) a (inl e) = omega arith
Contains-ge k n (j ∷ s) a (inr c) = omega (arith, Contains-ge k (suc j) s a.1 c)

holders-get :
    (s k n : ℕ) (m : List (ℕ × ℕ))
    → BTreeMap.Ascending n m
    → Contains k (holders s m)
    → s ≤ or_genesis (BTreeMap.get k m)
unfolding BTreeMap.get
holders-get s k n [] a h = absurd h
holders-get s k n ((j, w) ∷ m) a h = ground (
  arith,
  holders-get s k (suc j) m a.1,
  Contains-ge k (suc j) (holders s m) (holders-Ascending s (suc j) m a.1),
)

-- `P` held of the voter, the candidate and the acceptor's state at each vote of a history.
abbrev pub AtVotes :
    {voters : ℕ} {epoch : ℕ → ℕ} {s : Cluster}
    → (ℕ → ℕ → Acceptor → Type 0)
    → Reach voters epoch s
    → Type 0
AtVotes P here = Unit {0}
AtVotes P (step {s = s} r (votes i c lt)) = AtVotes P r × P i c (s.acceptor i)
AtVotes P (step r (delivers m sent)) = AtVotes P r
AtVotes P (step r (observes i seq)) = AtVotes P r
AtVotes P (step r (fences i seq)) = AtVotes P r

-- The acceptor had seen what its replica acknowledged to the tracker, when it granted to `winner`.
abbrev pub Covers : (ℕ → ℕ) → CommitTracker → ℕ → ℕ → ℕ → Acceptor → Type 0
Covers epoch t winner i c a =
    c ≡ winner → a.promised < epoch c → or_genesis (BTreeMap.get i t.high_waters) ≤ a.high_water

-- The tracker speaks of the cluster's voters, and no replica that granted to the winner had
-- acknowledged more than its acceptor had seen then.
pub record Vouched {voters : ℕ} {epoch : ℕ → ℕ} {s : Cluster} (r : Reach voters epoch s)
    (winner : ℕ) (t : CommitTracker) : Type 0 where
  pub voters_same : t.voters ≡ s.voters
  pub keys : BTreeMap.Ascending 0 t.high_waters × KeysBelow s.voters t.high_waters
  pub honest : AtVotes (Covers epoch t winner) r

-- A grant says how far its acceptor has seen.
handle-high_water :
    (a : Acceptor) (r : VoteRequest) (e hw : ℕ) → (handle a r).1 ≡ grant e hw → hw ≡ a.high_water
unfolding handle
handle-high_water a r e hw h = ground arith

vote-Covers :
    (epoch : ℕ → ℕ) (s : Cluster) (t : CommitTracker) (i c k winner e hw : ℕ)
    → Inv epoch s
    → Covers epoch t winner i c (s.acceptor i)
    → granting k winner e hw
      ≡ record { from = i; to = c; reply = (handle (s.acceptor i) (request (s.election c))).1 }
    → or_genesis (BTreeMap.get k t.high_waters) ≤ hw
unfolding request
vote-Covers epoch s t i c k winner e hw v covers p =
    let from : k ≡ i = ap (λ (m : Message). m.from) p in
    let to : winner ≡ c = ap (λ (m : Message). m.to) p in
    let said = sym (ap (λ (m : Message). m.reply) p) in
    let seen = handle-high_water (s.acceptor i) (request (s.election c)) e hw said in
    let g = handle-grant (s.acceptor i) (request (s.election c)) e hw said in
    let le = covers (sym to) (omega (arith, g.1, g.0, (v.bid c).0)) in
    omega (arith, seen, le, ap (λ j. or_genesis (BTreeMap.get j t.high_waters)) from)

grants-cover :
    {voters : ℕ} {epoch : ℕ → ℕ} {s : Cluster} (r : Reach voters epoch s) (t : CommitTracker)
    (winner : ℕ)
    → AtVotes (Covers epoch t winner) r
    → (k e hw : ℕ) → Sent (granting k winner e hw) s.sent
    → or_genesis (BTreeMap.get k t.high_waters) ≤ hw
unfolding start vote deliver observe fence
grants-cover here t winner h k e hw sent = absurd sent
grants-cover (step {s = s} r (votes i c lt)) t winner h k e hw (inl p) =
    vote-Covers _ s t i c k winner e hw (Reach-Inv r) h.1 p
grants-cover (step r (votes i c lt)) t winner h k e hw (inr q) =
    grants-cover r t winner h.0 k e hw q
grants-cover (step r (delivers m sent)) t winner h k e hw q = grants-cover r t winner h k e hw q
grants-cover (step r (observes i seq)) t winner h k e hw q = grants-cover r t winner h k e hw q
grants-cover (step r (fences i seq)) t winner h k e hw q = grants-cover r t winner h k e hw q

-- Nobody who granted to the winner holds more than the winner syncs to.
granter-holds-le :
    {voters : ℕ} {epoch : ℕ → ℕ} {s : Cluster} (r : Reach voters epoch s) (t : CommitTracker)
    (c k : ℕ)
    → Vouched r c t
    → Contains k (s.election c).granters
    → or_genesis (BTreeMap.get k t.high_waters) ≤ (s.election c).sync_to
granter-holds-le {epoch = epoch} r t c k h p =
    let (hw, sent, le) = (Reach-Inv r).backed c k p in
    le_trans (grants-cover r t c h.honest k (epoch c) hw sent) le

-- A majority of granters and a majority of holders meet.
majorities_meet :
    {voters : ℕ} {epoch : ℕ → ℕ} {s : Cluster} (r : Reach voters epoch s) (t : CommitTracker)
    (c w : ℕ)
    → Vouched r c t
    → majority s.voters ≤ length (s.election c).granters
    → majority s.voters ≤ count_ge w (values t.high_waters)
    → ¬ ((s.election c).sync_to < w)
majorities_meet {s = s} r t c w h p q short =
    let v = Reach-Inv r in
    two_majorities s.voters _ _ p q (
      omega (
        arith,
        length-holders w t.high_waters,
        disjoint_length 0 s.voters (s.election c).granters (holders w t.high_waters) (v.counted c).0
            (holders-Ascending w 0 t.high_waters h.keys.0) (v.counted c).1
            (holders-below w s.voters t.high_waters h.keys.1) (omega arith)
            (λ k x y.
              omega
                (arith, granter-holds-le r t c k h x, holders-get w k 0 t.high_waters h.keys.0 y)),
      ))

-- In every state that the election network reaches, a winner must sync at least to the commit
-- watermark of any tracker of the cluster's voters, if no replica that granted to this winner had
-- acknowledged more to the tracker than its acceptor had seen when it granted.
pub committed-le-sync_to :
    {voters : ℕ} {epoch : ℕ → ℕ} {s : Cluster} {e sync : ℕ} (c : ℕ) (t : CommitTracker)
    (r : Reach voters epoch s)
    → outcome (s.election c) ≡ won e sync
    → Vouched r c t
    → committed t ≤ sync
committed-le-sync_to {s = s} c t r w h =
    let v = Reach-Inv r in
    let (_, m, same) = won-majority (s.election c) w in
    let grants = subst (λ n. n ≤ length (s.election c).granters) (v.bid c).1 m in
    subst (λ k. committed t ≤ k) (sym same)
      (elim (Bool-cases (ltb (s.election c).sync_to (committed t))) [
        | inl short ↦
            let lt = ltb→lt _ _ short in
            absurd (
              majorities_meet r t c (committed t) h grants
                (subst (λ n. majority n ≤ count_ge (committed t) (values t.high_waters))
                  h.voters_same ((committed_iff t (committed t) (omega arith)).0 (omega arith)))
                lt)
        | inr covered ↦ ltb_false→le _ _ covered
      ])
