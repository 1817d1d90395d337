-- ===== src/Cluster.antt =====
-- crates/ticktape-cluster: quorums, elections and the commit watermark.
pub mod Commit
pub mod Election
pub mod Epoch
pub mod Persist
use ticktape.Base.{ℕ, ◌+◌, ◌/◌}

-- The smallest number of voters that is more than half of `n`.
unfoldable pub majority : ℕ → ℕ
majority n = n / 2 + 1
