-- ===== src/Cluster/Commit/Tests.antt =====
-- Runs of commit.rs: the tracker of five voters in its unit test watermark_is_majority_th_highest.
use ticktape.Base.{◌≤◌, ◌≡◌, ◌↔◌, refl, [], ◌∷◌, arith}
use ticktape.Base.BTreeMap.{insert, get}
use ticktape.Cluster.{majority}
use ticktape.Cluster.Commit.{CommitTracker, values, committed, record_ack}
use ticktape.Cluster.Commit.Watermark.{
  count_ge, committed_iff, committed-record_acks_le, record_acks,
}

abbrev five : CommitTracker
five = record { high_waters = (0, 10) ∷ (1, 8) ∷ (2, 5) ∷ (3, 2) ∷ []; voters = 5 }

five-committed : committed five ≡ 5
unfolding committed
five-committed = refl

five_caught_up : (record_ack five 3 7).1 ≡ 7
unfolding record_ack committed insert get
five_caught_up = refl

committed_iff_example : (5 ≤ committed five) ↔ (majority 5 ≤ count_ge 5 (values five.high_waters))
committed_iff_example = committed_iff five 5 (omega arith)

committed-record_acks_le_example :
    committed five ≤ committed (record_acks five ((3, 7) ∷ (0, 4) ∷ []))
committed-record_acks_le_example = committed-record_acks_le five ((3, 7) ∷ (0, 4) ∷ [])
