-- ===== src/Runtime/Commit/Tests.antt =====
-- A leader of three voters.
use ticktape.Base.{ℕ, List, [], ◌∷◌}
use ticktape.Runtime.Commit.{CommitConfig}
use ticktape.Runtime.Commit.Quorum.{Event, sequenced, acknowledged}

abbrev three : CommitConfig
three = record { voters = 3; self_replica = 0 }

abbrev events : List (Event ℕ)
events =
    sequenced 1 (10 ∷ [])
    ∷ sequenced 2 (20 ∷ [])
    ∷ acknowledged 1 1
    ∷ sequenced 3 (30 ∷ [])
    ∷ acknowledged 2 3
    ∷ []
