-- ===== src/Cluster/Election/Network/Invariant.antt =====
-- What every reachable state of the election network keeps.
use ticktape.Base.{
  ℕ, ◌<◌, ◌≤◌, ◌≡◌, ◌⊎◌, inl, inr, refl, sym, ap, subst, ◌∙◌, ◌==◌, All, arith, Bool-cases, ==_iff,
}
use native.Mathlib.Nat.{le_trans}
use ticktape.Base.BTreeSet.{
  insert, Contains, Ascending, insert-Contains, insert-Ascending, All-insert,
}
use ticktape.Cluster.{majority}
use ticktape.Cluster.Election.{
  VoteRequest, VoteReply, grant, reject, Acceptor, Election, observe_seq, reset_high_water, handle,
  new, request, tally, on_reply,
}
use ticktape.Cluster.Election.Network.{
  Message, Cluster, update, Sent, start, vote, deliver, observe, fence, Step, votes, delivers,
  observes, fences, Reach, here, step,
}

abbrev pub granting : ℕ → ℕ → ℕ → ℕ → Message
granting i c e hw = record { from = i; to = c; reply = grant e hw }

pub record Inv (epoch : ℕ → ℕ) (s : Cluster) : Type 0 where
  pub bid : (c : ℕ) → ((s.election c).epoch ≡ epoch c) × ((s.election c).needed ≡ majority s.voters)
  -- Every counted grant was sent, and the candidate syncs at least as far as it says.
  pub backed :
      (c i : ℕ)
      → Contains i (s.election c).granters
      → (hw : ℕ) × Sent (granting i c (epoch c) hw) s.sent × (hw ≤ (s.election c).sync_to)
  pub counted :
      (c : ℕ)
      → Ascending 0 (s.election c).granters × All (λ i. i < s.voters) (s.election c).granters
  -- An acceptor has promised every epoch that it granted.
  pub promised :
      (i c e hw : ℕ)
      → Sent (granting i c e hw) s.sent
      → (i < s.voters) × (e ≡ epoch c) × (e ≤ (s.acceptor i).promised)
  -- It granted each epoch to one candidate.
  pub once :
      (i c d e hw hw' : ℕ)
      → Sent (granting i c e hw) s.sent
      → Sent (granting i d e hw') s.sent
      → c ≡ d

pub handle-grant :
    (a : Acceptor) (r : VoteRequest) (e hw : ℕ)
    → (handle a r).1 ≡ grant e hw
    → (e ≡ r.epoch) × (a.promised < e) × ((handle a r).0.promised ≡ e)
unfolding handle
handle-grant a r e hw h = ground arith

pub handle-promised : (a : Acceptor) (r : VoteRequest) → a.promised ≤ (handle a r).0.promised
unfolding handle
handle-promised a r = ground arith

-- A new grant is for the epoch of its candidate, and above all that its acceptor has promised.
fresh :
    (s : Cluster) (i c j d e hw : ℕ)
    → granting j d e hw
      ≡ record { from = i; to = c; reply = (handle (s.acceptor i) (request (s.election c))).1 }
    → (j ≡ i)
      × (d ≡ c)
      × (e ≡ (s.election c).epoch)
      × ((s.acceptor i).promised < e)
      × ((handle (s.acceptor i) (request (s.election c))).0.promised ≡ e)
unfolding request
fresh s i c j d e hw h =
    let g =
      handle-grant (s.acceptor i) (request (s.election c)) e hw
        (sym (ap (λ (m : Message). m.reply) h)) in
    (ap (λ (m : Message). m.from) h, ap (λ (m : Message). m.to) h, g.0, g.1, g.2)

vote-once :
    (epoch : ℕ → ℕ) (s : Cluster) (i c : ℕ)
    → Inv epoch s
    → (j d d' e hw hw' : ℕ) → Sent (granting j d e hw) (vote s i c).sent
    → Sent (granting j d' e hw') (vote s i c).sent
    → d ≡ d'
unfolding vote
vote-once epoch s i c v j d d' e hw hw' (inl p) (inl q) =
    ap (λ (m : Message). m.to) p ∙ sym (ap (λ (m : Message). m.to) q)
vote-once epoch s i c v j d d' e hw hw' (inl p) (inr q) =
    let f = fresh s i c j d e hw p in
    absurd (
      omega (
        arith,
        f.3,
        (v.promised i d' e hw' (subst (λ k. Sent (granting k d' e hw') s.sent) f.0 q)).2,
      ))
vote-once epoch s i c v j d d' e hw hw' (inr p) (inl q) =
    let f = fresh s i c j d' e hw' q in
    absurd (
      omega
        (arith, f.3, (v.promised i d e hw (subst (λ k. Sent (granting k d e hw) s.sent) f.0 p)).2))
vote-once epoch s i c v j d d' e hw hw' (inr p) (inr q) = v.once j d d' e hw hw' p q

pub update_at {ℓ} :
    {A : Type ℓ} (f : ℕ → A) (k : ℕ) (a : A) (j : ℕ)
    → ((k ≡ j) × (update f k a j ≡ a)) ⊎ (update f k a j ≡ f j)
update_at f k a j = elim (Bool-cases (k == j)) [
  | inl hit ↦ inl ((==_iff k j).0 hit, rw hit)
  | inr miss ↦ inr (rw miss)
]

update_self {ℓ} : {A : Type ℓ} (f : ℕ → A) (k : ℕ) (a : A) → update f k a k ≡ a
update_self f k a = rw ((==_iff k k).1 refl)

-- The promise of acceptor `j` only grows.
update-promised :
    (s : Cluster) (i j : ℕ) (a : Acceptor)
    → (s.acceptor i).promised ≤ a.promised
    → (s.acceptor j).promised ≤ (update s.acceptor i a j).promised
update-promised s i j a h = elim (update_at s.acceptor i a j) [
  | inl (same, hit) ↦ rw (hit, ← same) h
  | inr miss ↦ rw miss (omega arith)
]

vote-promised :
    (epoch : ℕ → ℕ) (s : Cluster) (i c : ℕ)
    → i < s.voters
    → Inv epoch s
    → (j d e hw : ℕ) → Sent (granting j d e hw) (vote s i c).sent
    → (j < s.voters) × (e ≡ epoch d) × (e ≤ ((vote s i c).acceptor j).promised)
unfolding vote
vote-promised epoch s i c h v j d e hw (inl p) =
    let f = fresh s i c j d e hw p in
    (
      rw f.0 h,
      f.2 ∙ (v.bid c).0 ∙ ap epoch (sym f.1),
      rw (f.0, update_self s.acceptor i _, f.4) (omega arith),
    )
vote-promised epoch s i c h v j d e hw (inr p) =
    let (small, same, old) = v.promised j d e hw p in
    (
      small,
      same,
      le_trans old
          (update-promised s i j _ (handle-promised (s.acceptor i) (request (s.election c)))),
    )

vote-Inv :
    (epoch : ℕ → ℕ) (s : Cluster) (i c : ℕ) → i < s.voters → Inv epoch s → Inv epoch (vote s i c)
unfolding vote
vote-Inv epoch s i c h v = record {
  bid = v.bid;
  backed = λ d j m. let (hw, sent, le) = v.backed d j m in (hw, inr sent, le);
  counted = v.counted;
  promised = vote-promised epoch s i c h v;
  once = vote-once epoch s i c v;
}

-- Who is in the tally after a reply.
tally-Contains :
    (e : Election) (from i : ℕ) (reply : VoteReply)
    → Contains i (tally e from reply).granters
    → ((i ≡ from) × ((hw : ℕ) × (reply ≡ grant e.epoch hw))) ⊎ Contains i e.granters
unfolding tally
tally-Contains e from i (grant epoch hw) m = elim (Bool-cases (epoch == e.epoch)) [
  | inl same ↦
      let m' : Contains i (insert from e.granters) = rw same at m in
      elim (insert-Contains from i e.granters m') [
        | inl new ↦ inl (new, (hw, ap (λ k. grant k hw) ((==_iff _ _).0 same)))
        | inr old ↦ inr old
      ]
  | inr other ↦ inr (ground arith)
]
tally-Contains e from i (reject promised) m = inr m

tally-counted :
    (e : Election) (from voters : ℕ) (reply : VoteReply)
    → ((hw : ℕ) → reply ≡ grant e.epoch hw → from < voters)
    → Ascending 0 e.granters × All (λ i. i < voters) e.granters
    → Ascending 0 (tally e from reply).granters
      × All (λ i. i < voters) (tally e from reply).granters
unfolding tally
tally-counted e from voters (grant epoch hw) h c = elim (Bool-cases (epoch == e.epoch)) [
  | inl same ↦ rw same (
    insert-Ascending from 0 e.granters (omega arith) c.0,
    All-insert (λ i. i < voters) from e.granters (h hw (ap (λ k. grant k hw) ((==_iff _ _).0 same)))
        c.1,
  )
  | inr other ↦ rw other c
]
tally-counted e from voters (reject promised) h c = c

tally-sync :
    (e : Election) (from : ℕ) (reply : VoteReply) → e.sync_to ≤ (tally e from reply).sync_to
unfolding tally
tally-sync e from (grant epoch hw) = ground arith
tally-sync e from (reject promised) = omega arith

tally-granted :
    (e : Election) (from hw : ℕ) (reply : VoteReply)
    → reply ≡ grant e.epoch hw
    → hw ≤ (tally e from reply).sync_to
unfolding tally
tally-granted e from hw (grant epoch hw') h = ground arith
tally-granted e from hw (reject promised) h = cc

tally-bid :
    (e : Election) (from : ℕ) (reply : VoteReply)
    → ((tally e from reply).epoch ≡ e.epoch) × ((tally e from reply).needed ≡ e.needed)
unfolding tally
tally-bid e from (grant epoch hw) = ground arith
tally-bid e from (reject promised) = (refl, refl)

module _ (epoch : ℕ → ℕ) (s : Cluster) (m : Message) (sent : Sent m s.sent) (v : Inv epoch s) where
  -- A delivered grant for the candidate's own epoch is one of those sent.
  delivered-grant :
      (hw : ℕ)
      → m.reply ≡ grant (s.election m.to).epoch hw
      → Sent (granting m.from m.to (epoch m.to) hw) s.sent
  delivered-grant hw e =
      subst (λ k. Sent (granting m.from m.to k hw) s.sent) (v.bid m.to).0
        (subst (λ r. Sent (record { from = m.from; to = m.to; reply = r }) s.sent) e sent)

  deliver-Election :
      (P : ℕ → Election → Type 0)
      → ((c : ℕ) → P c (s.election c))
      → P m.to (tally (s.election m.to) m.from m.reply)
      → (c : ℕ) → P c ((deliver s m).election c)
  unfolding deliver on_reply
  deliver-Election P old new c =
      elim (update_at s.election m.to (tally (s.election m.to) m.from m.reply) c) [
        | inl (same, hit) ↦
            rw hit (subst (λ k. P k (tally (s.election m.to) m.from m.reply)) same new)
        | inr miss ↦ rw miss (old c)
      ]

  deliver-Inv : Inv epoch (deliver s m)
  unfolding deliver
  deliver-Inv = record {
    bid =
        deliver-Election (λ c e. (e.epoch ≡ epoch c) × (e.needed ≡ majority s.voters)) v.bid
          (let (a, b) = tally-bid (s.election m.to) m.from m.reply in
            (a ∙ (v.bid m.to).0, b ∙ (v.bid m.to).1));
    backed =
        deliver-Election
          (λ c e.
            (i : ℕ)
            → Contains i e.granters
            → (hw : ℕ) × Sent (granting i c (epoch c) hw) s.sent × (hw ≤ e.sync_to))
          v.backed
          (λ i h. elim (tally-Contains (s.election m.to) m.from i m.reply h) [
            | inl (same, (hw, e)) ↦ (
              hw,
              subst (λ k. Sent (granting k m.to (epoch m.to) hw) s.sent) (sym same)
                  (delivered-grant hw e),
              tally-granted (s.election m.to) m.from hw m.reply e,
            )
            | inr old ↦
                let (hw, mail, le) = v.backed m.to i old in
                (hw, mail, le_trans le (tally-sync (s.election m.to) m.from m.reply))
          ]);
    counted =
        deliver-Election (λ c e. Ascending 0 e.granters × All (λ i. i < s.voters) e.granters)
          v.counted
          (tally-counted (s.election m.to) m.from s.voters m.reply
            (λ hw e. (v.promised m.from m.to _ hw (delivered-grant hw e)).0) (v.counted m.to));
    promised = v.promised;
    once = v.once;
  }

observe-promised :
    (s : Cluster) (i j seq : ℕ)
    → (s.acceptor j).promised ≤ (update s.acceptor i (observe_seq (s.acceptor i) seq) j).promised
unfolding observe_seq
observe-promised s i j seq = update-promised s i j (observe_seq (s.acceptor i) seq) (omega arith)

fence-promised :
    (s : Cluster) (i j seq : ℕ)
    → (s.acceptor j).promised
      ≤ (update s.acceptor i (reset_high_water (s.acceptor i) seq) j).promised
unfolding reset_high_water
fence-promised s i j seq = update-promised s i j (reset_high_water (s.acceptor i) seq) (omega arith)

pub Step-Inv : (epoch : ℕ → ℕ) {s t : Cluster} → Step s t → Inv epoch s → Inv epoch t
unfolding observe fence deliver
Step-Inv epoch {s = s} (votes i c h) v = vote-Inv epoch s i c h v
Step-Inv epoch {s = s} (delivers m sent) v = deliver-Inv epoch s m sent v
Step-Inv epoch {s = s} (observes i seq) v = record {
  bid = v.bid;
  backed = v.backed;
  counted = v.counted;
  promised = λ j d e hw p.
      let (a, b, c) = v.promised j d e hw p in (a, b, le_trans c (observe-promised s i j seq));
  once = v.once;
}
Step-Inv epoch {s = s} (fences i seq) v = record {
  bid = v.bid;
  backed = v.backed;
  counted = v.counted;
  promised = λ j d e hw p.
      let (a, b, c) = v.promised j d e hw p in (a, b, le_trans c (fence-promised s i j seq));
  once = v.once;
}

start-Inv : (voters : ℕ) (epoch : ℕ → ℕ) → Inv epoch (start voters epoch)
unfolding start
start-Inv voters epoch = record {
  bid = λ c. (refl, refl);
  backed = λ c i m. absurd m;
  counted = λ c. (tt, tt);
  promised = λ i c e hw p. absurd p;
  once = λ i c d e hw hw' p q. absurd p;
}

-- Every reachable state of the network keeps the promises.
pub Reach-Inv : {voters : ℕ} {epoch : ℕ → ℕ} {s : Cluster} → Reach voters epoch s → Inv epoch s
Reach-Inv {voters} {epoch} here = start-Inv voters epoch
Reach-Inv {epoch = epoch} (step r st) = Step-Inv epoch st (Reach-Inv r)
