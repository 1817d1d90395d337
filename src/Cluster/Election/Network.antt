-- ===== src/Cluster/Election/Network.antt =====
-- Acceptors and candidates over a network that may lose, repeat and reorder messages.
-- A candidate is one bid: its number stands for the process and the attempt.
pub mod Invariant
pub mod Safety
pub mod NoLoss
mod Tests
use ticktape.Base.{
  ℕ, zero, suc, ◌+◌, ◌<◌, ◌≤◌, ◌≡◌, ◌≢◌, ◌⊎◌, inl, inr, refl, List, [], ◌∷◌, ◌==◌, if◌then◌else◌,
  length, All, arith,
}
use ticktape.Base.BTreeSet
use ticktape.Cluster.{majority}
use ticktape.Cluster.Election.{
  VoteReply, grant, reject, Acceptor, Election, new_acceptor, observe_seq, reset_high_water, handle,
  new, request, tally, on_reply, outcome, ElectionOutcome, won,
}

-- A reply on its way: from an acceptor to a candidate.
pub record Message : Type 0 where
  pub from : ℕ
  pub to : ℕ
  pub reply : VoteReply

pub record Cluster : Type 0 where
  pub voters : ℕ
  pub acceptor : ℕ → Acceptor
  pub election : ℕ → Election
  -- Every reply ever sent: the network may deliver any of them, at any time, again and again.
  pub sent : List Message

abbrev pub update {ℓ} : {A : Type ℓ} → (ℕ → A) → ℕ → A → ℕ → A
update f k a j = if k == j then a else f j

abbrev pub Sent : Message → List Message → Type 0
Sent m [] = ⊥
Sent m (n ∷ ms) = (m ≡ n) ⊎ Sent m ms

-- Candidate `c` starts a bid for `epoch (c)`; nothing is promised yet.
pub start : ℕ → (ℕ → ℕ) → Cluster
unfolding new new_acceptor
start voters epoch = record {
  voters = voters;
  acceptor = λ i. new_acceptor;
  election = λ c. new (epoch c) voters;
  sent = [];
}

-- Acceptor `i` answers the request of candidate `c`.
pub vote : Cluster → ℕ → ℕ → Cluster
vote s i c =
    let answer = handle (s.acceptor i) (request (s.election c)) in
    record s {
      acceptor = update s.acceptor i answer.0;
      sent = record { from = i; to = c; reply = answer.1 } ∷ s.sent;
    }

-- A reply reaches its candidate.
pub deliver : Cluster → Message → Cluster
deliver s m = record s {
  election = update s.election m.to (on_reply (s.election m.to) m.from m.reply).0;
}

pub observe : Cluster → ℕ → ℕ → Cluster
observe s i seq = record s { acceptor = update s.acceptor i (observe_seq (s.acceptor i) seq) }

pub fence : Cluster → ℕ → ℕ → Cluster
fence s i seq = record s { acceptor = update s.acceptor i (reset_high_water (s.acceptor i) seq) }

pub data Step (s : Cluster) : Cluster → Type 0 where
  votes : (i c : ℕ) → i < s.voters → Step s (vote s i c)
  delivers : (m : Message) → Sent m s.sent → Step s (deliver s m)
  observes : (i seq : ℕ) → Step s (observe s i seq)
  fences : (i seq : ℕ) → Step s (fence s i seq)

pub data Reach (voters : ℕ) (epoch : ℕ → ℕ) : Cluster → Type 0 where
  here : Reach voters epoch (start voters epoch)
  step : {s t : Cluster} → Reach voters epoch s → Step s t → Reach voters epoch t
