-- ===== src/Cluster/Persist/OnDisk/Tests.antt =====
-- Runs of persist.rs on the simulated disk.
use ticktape.Base.{◌≡◌, ◌≤◌, refl, false, [], ◌∷◌, ok, arith}
use ticktape.Base.BTreeMap.{contains_key, get, insert}
use ticktape.Sim.Rng.{Rng}
use ticktape.Sim.Storage.{
  SimStorage, crash, create_new, truncate, open_append, update, write_all, sync_data,
}
use ticktape.Cluster.Election.{Acceptor, VoteRequest, grant, reject, handle}
use ticktape.Cluster.Persist
use ticktape.Cluster.Persist.OnDisk.{handle_on_disk, open_on_disk}
use ticktape.Cluster.Persist.OnDisk.Survives.{handle_on_disk-crash}

-- The record of the promise 2, and another file with bytes that are not synced.
abbrev disk : SimStorage
disk = record {
  files =
      (3, record { synced = Persist.record_of 2; unsynced = [] })
      ∷ (5, record { synced = []; unsynced = 1 ∷ [] })
      ∷ [];
  epoch = 0;
}

abbrev promised_2 : Acceptor
promised_2 = record { promised = 2; high_water = 40 }

abbrev for_9 : VoteRequest
for_9 = record { epoch = 9 }

abbrev seeded : Rng
seeded = record { state = 42 }

granted_9 : (handle_on_disk 3 promised_2 for_9 disk).0.1 ≡ ok (grant 9 40)
unfolding handle_on_disk Persist.handle_durably handle create_new contains_key get truncate
    open_append update write_all sync_data
granted_9 = refl

-- On an empty disk the file is created.
granted_new :
    (handle_on_disk 3 promised_2 for_9 (record { files = []; epoch = 0 })).0.1 ≡ ok (grant 9 40)
unfolding handle_on_disk Persist.handle_durably handle create_new contains_key get write_all insert
    sync_data update
granted_new = refl

handle_on_disk-crash_example :
    (b : Acceptor) × (open_on_disk 3
        (crash false (handle_on_disk 3 promised_2 for_9 disk).1 seeded).0
      ≡ ok b)
    × ((later : VoteRequest) → later.epoch ≤ 9 → (handle b later).1 ≡ reject 9)
handle_on_disk-crash_example =
    handle_on_disk-crash 3 promised_2 for_9 disk 9 40 seeded (omega arith) granted_9
