-- ===== src/Cluster/Persist/Tests.antt =====
-- Runs of persist.rs.
use ticktape.Base.{ℕ, ◌≡◌, ◌≤◌, refl, List, ok, err, arith}
use ticktape.Base.Result.{Result}
use ticktape.Cluster.Election.{Acceptor, VoteRequest, grant, reject, handle}
use ticktape.Cluster.Persist.{PersistError, io, record_of, contents, open_acceptor, handle_durably}
use ticktape.Cluster.Persist.Remembered.{granted-Remembered}

abbrev writes : List ℕ → Result PersistError (Unit {0})
writes bytes = ok tt

abbrev fails : List ℕ → Result PersistError (Unit {0})
fails bytes = err io

abbrev idle : Acceptor
idle = record { promised = 2; high_water = 40 }

abbrev for_5 : VoteRequest
for_5 = record { epoch = 5 }

granted_5 : (handle_durably writes idle for_5).1 ≡ ok (grant 5 40)
unfolding handle_durably handle
granted_5 = refl

-- Without the record there is no grant.
failed_5 : (handle_durably fails idle for_5).1 ≡ err io
unfolding handle_durably handle
failed_5 = refl

granted-Remembered_example :
    (writes (record_of 5) ≡ ok tt)
    × (b : Acceptor) × (open_acceptor (contents (record_of 5)) ≡ ok b)
    × ((later : VoteRequest) → later.epoch ≤ 5 → (handle b later).1 ≡ reject 5)
granted-Remembered_example = granted-Remembered writes idle for_5 5 40 (omega arith) granted_5
