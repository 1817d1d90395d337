-- ===== src/Journal/Snapshots/Tests.antt =====
-- Snapshots on a small disk.
use ticktape.Base.{ℕ, ◌≡◌, false, none, some, List, [], ◌∷◌, take, ok, arith}
use ticktape.Sim.Rng.{Rng}
use ticktape.Sim.Storage.{SimStorage, FileData, crash}
use ticktape.Journal.Snapshots.{
  LoadedSnapshot, snapshot_bytes, write, parse_snapshot, load_latest, prune_keep_newest,
}
use ticktape.Journal.Snapshots.Bytes.{parse_snapshot-torn, length-snapshot_bytes}
use ticktape.Journal.Snapshots.Latest.{write-crash}
use ticktape.Journal.Snapshots.Retention.{prune_keep_newest-newest}

abbrev holding : List ℕ → FileData
holding bytes = record { synced = bytes; unsynced = [] }

-- Two snapshots, and what a crash left of a third one.
abbrev three : SimStorage
three = record {
  files =
      (10, holding (snapshot_bytes 10 0 (1 ∷ [])))
      ∷ (20, holding (snapshot_bytes 20 0 (2 ∷ [])))
      ∷ (30, holding (take 33 (snapshot_bytes 30 0 (3 ∷ []))))
      ∷ [];
  epoch = 0;
}

abbrev forty : LoadedSnapshot
forty = record { seq = 40; epoch = 0; payload = 7 ∷ 8 ∷ [] }

abbrev rng : Rng
rng = record { state = 42 }

write-crash_example :
    let r = write 40 0 (7 ∷ 8 ∷ []) three in
    (r.0 ≡ ok tt)
    × (load_latest 99 (crash false r.1 rng).0 ≡ (ok (some forty), (crash false r.1 rng).0))
write-crash_example =
    write-crash 40 0 (7 ∷ 8 ∷ []) three 99 rng (omega arith, (omega arith, (omega arith, tt)))
      (omega arith) (omega arith) (omega arith) (omega arith)

-- Only the torn file is kept.
prune_keep_newest-newest_example : prune_keep_newest 1 three ≡ (
  ok (some 30),
  record { files = (30, holding (take 33 (snapshot_bytes 30 0 (3 ∷ [])))) ∷ []; epoch = 0 },
)
prune_keep_newest-newest_example = prune_keep_newest-newest 1 three

parse_snapshot-torn_example : parse_snapshot (take 33 (snapshot_bytes 40 0 (7 ∷ 8 ∷ []))) ≡ none
parse_snapshot-torn_example =
    parse_snapshot-torn 40 0 (7 ∷ 8 ∷ []) 33 (omega arith)
      (omega (arith, length-snapshot_bytes 40 0 (7 ∷ 8 ∷ [])))
