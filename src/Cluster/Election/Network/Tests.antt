-- ===== src/Cluster/Election/Network/Tests.antt =====
-- A run of election.rs: three voters, and candidates 0 and 1 that both bid for epoch 1. Acceptors 0
-- and 1 hear 0 first, and 0 hears 1 as well; the two grants arrive, one of them twice.
use ticktape.Base.{ℕ, ◌≤◌, ◌≡◌, refl, inl, inr, [], ◌∷◌, arith}
use ticktape.Base.BTreeMap.{get}
use ticktape.Base.BTreeSet.{insert}
use ticktape.Cluster.Commit.{CommitTracker, committed}
use ticktape.Cluster.Election.{
  grant, outcome, won, request, handle, on_reply, observe_seq, new, new_acceptor,
}
use ticktape.Cluster.Election.Network.{
  Cluster, Message, start, vote, observe, deliver, votes, observes, delivers, Reach, here, step,
}
use ticktape.Cluster.Election.Network.Safety.{at_most_one_winner}
use ticktape.Cluster.Election.Network.NoLoss.{Vouched, committed-le-sync_to}

abbrev bids : ℕ → ℕ
bids c = 1

abbrev from_0 : Message
from_0 = record { from = 0; to = 0; reply = grant 1 7 }

abbrev from_1 : Message
from_1 = record { from = 1; to = 0; reply = grant 1 0 }

-- Acceptor 0 has journaled up to 7.
abbrev voted : Cluster
voted = vote (vote (vote (observe (start 3 bids) 0 7) 0 0) 1 0) 0 1

abbrev decided : Cluster
decided = deliver (deliver (deliver voted from_0) from_1) from_0

voted-Reach : Reach 3 bids voted
unfolding start vote observe
voted-Reach =
    step
      (step (step (step here (observes 0 7)) (votes 0 0 (omega arith))) (votes 1 0 (omega arith)))
      (votes 0 1 (omega arith))

decided-Reach : Reach 3 bids decided
unfolding start vote observe observe_seq deliver handle request new new_acceptor
decided-Reach =
    step
      (step (step voted-Reach (delivers from_0 (inr (inr (inl refl)))))
        (delivers from_1 (inr (inl refl))))
      (delivers from_0 (inr (inr (inl refl))))

decided_won : outcome (decided.election 0) ≡ won 1 7
unfolding start vote observe observe_seq deliver handle request on_reply outcome new new_acceptor
    insert
decided_won = refl

at_most_one_winner_example : ◌≡◌ {A = ℕ} 0 0
at_most_one_winner_example = at_most_one_winner 0 0 decided-Reach decided_won decided_won

-- Replicas 0 and 2 acknowledged up to 5 and 9; one of them granted.
abbrev tracker : CommitTracker
tracker = record { high_waters = (0, 5) ∷ (2, 9) ∷ []; voters = 3 }

tracker-Vouched : Vouched decided-Reach 0 tracker
unfolding start vote observe deliver observe_seq handle request new new_acceptor get decided-Reach
    voted-Reach
tracker-Vouched = record {
  voters_same = refl;
  keys = (omega arith, omega arith);
  honest = (
    ((tt, λ same above. omega arith), λ same above. omega arith),
    λ same above. absurd (cc same),
  );
}

committed-le-sync_to_example : committed tracker ≤ 7
committed-le-sync_to_example =
    committed-le-sync_to 0 tracker decided-Reach decided_won tracker-Vouched
