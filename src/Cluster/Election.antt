-- ===== src/Cluster/Election.antt =====
-- crates/ticktape-cluster/src/election.rs: epoch leases by majority grant.
pub mod Network
use ticktape.Base.{ℕ, max, Bool, true, false, List, [], ltb, leb, ◌==◌, if◌then◌else◌, length}
use ticktape.Base.BTreeSet.{insert}
use ticktape.Cluster.{majority}

pub record VoteRequest : Type 0 where
  pub epoch : ℕ

pub data VoteReply : Type 0 where
  grant : ℕ → ℕ → VoteReply
  reject : ℕ → VoteReply

pub record Acceptor : Type 0 where
  pub promised : ℕ
  pub high_water : ℕ

unfoldable pub new_acceptor : Acceptor
new_acceptor = record { promised = 0; high_water = 0 }

pub observe_seq : Acceptor → ℕ → Acceptor
observe_seq a seq = record a { high_water = max a.high_water seq }

pub reset_high_water : Acceptor → ℕ → Acceptor
reset_high_water a seq = record a { high_water = seq }

-- The acceptor after a request, and its answer.
unfoldable pub handle : Acceptor → VoteRequest → Acceptor × VoteReply
handle a request =
    if ltb a.promised request.epoch
    then (record a { promised = request.epoch }, grant request.epoch a.high_water)
    else (a, reject a.promised)

pub data ElectionOutcome : Type 0 where
  pending : ElectionOutcome
  won : ℕ → ℕ → ElectionOutcome
  lost_to : ℕ → ElectionOutcome

pub record Election : Type 0 where
  pub epoch : ℕ
  pub needed : ℕ
  pub granters : List ℕ
  pub sync_to : ℕ
  pub highest_promised : ℕ
  pub lost : Bool

pub new : ℕ → ℕ → Election
unfolding majority
new epoch voters = record {
  epoch = epoch;
  needed = majority voters;
  granters = [];
  sync_to = 0;
  highest_promised = 0;
  lost = false;
}

pub request : Election → VoteRequest
request e = record { epoch = e.epoch }

pub outcome : Election → ElectionOutcome
outcome e =
    if leb e.needed (length e.granters)
    then won e.epoch e.sync_to
    else if e.lost
    then lost_to e.highest_promised
    else pending

-- The tally after one reply.
pub tally : Election → ℕ → VoteReply → Election
tally e from (grant epoch high_water) =
    if epoch == e.epoch
    then record e { granters = insert from e.granters; sync_to = max e.sync_to high_water }
    else e
tally e from (reject promised) = record e {
  highest_promised = max e.highest_promised promised;
  lost = if leb e.epoch promised then true else e.lost;
}

pub on_reply : Election → ℕ → VoteReply → Election × ElectionOutcome
unfolding tally outcome
on_reply e from reply = (tally e from reply, outcome (tally e from reply))
