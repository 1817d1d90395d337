-- ===== src/Journal/Snapshots.antt =====
-- crates/ticktape-journal/src/snapshot.rs: the store of snapshots, on the simulated disk. Its disk
-- holds the `.snap` files only, which every operation picks out by their extension, and a
-- snapshot's path is the number that names it: the paths are listed in their order.
pub mod Bytes
pub mod Latest
pub mod Retention
mod Tests
use ticktape.Base.{
  ℕ, ◌+◌, ◌-◌, ◌%◌, ◌^◌, max, Bool, not, Option, none, some, List, [], ◌∷◌, ◌++◌, ltb, leb, ◌==◌,
  if◌then◌else◌, length, take, drop, slice, ok, err,
}
use ticktape.Base.Result.{Result}
use ticktape.Base.Method.{Method, returns, proceed, ◌>>=◌, ◌>>◌}
use ticktape.Core.Bytes.{to_le_bytes, from_le_bytes}
use ticktape.Core.Crc32c.{crc32c_sw}
use ticktape.Transport.Wire.{eq_bytes}
use ticktape.Sim.Storage.{
  IoError, SimStorage, create_new, write_all, sync_data, sync_dir, list_dir, read, remove_file,
}
use mathlib.Core.List.{reverse, head?}

-- "TKTS"
abbrev pub snapshot_magic : List ℕ
snapshot_magic = 84 ∷ 75 ∷ 84 ∷ 83 ∷ []

abbrev pub format_version : ℕ
format_version = 1

abbrev pub snapshot_header_len : ℕ
snapshot_header_len = 32

pub record LoadedSnapshot : Type 0 where
  pub seq : ℕ
  pub epoch : ℕ
  pub payload : List ℕ

-- Bytes [0, 28), which the header checksum covers.
unfoldable pub snapshot_fields : ℕ → ℕ → List ℕ → List ℕ
snapshot_fields seq epoch payload =
    snapshot_magic
    ++ (to_le_bytes 4 format_version
        ++ (to_le_bytes 8 seq ++ (to_le_bytes 8 epoch ++ to_le_bytes 4 (length payload % 256 ^ 4))))

-- The file that `write` writes.
unfoldable pub snapshot_bytes : ℕ → ℕ → List ℕ → List ℕ
unfolding snapshot_fields
snapshot_bytes seq epoch payload =
    let fields = snapshot_fields seq epoch payload in
    fields ++ (to_le_bytes 4 (crc32c_sw fields) ++ (payload ++ to_le_bytes 4 (crc32c_sw payload)))

-- The store's methods fail with the errors of the disk only.
unfoldable pub write : ℕ → ℕ → List ℕ → Method SimStorage IoError (Unit {0})
unfolding snapshot_bytes
write seq epoch payload = do
  file ← create_new seq
  write_all file (snapshot_bytes seq epoch payload)
  sync_data file
  sync_dir

-- Behind the header, which is valid.
unfoldable pub parse_payload : List ℕ → ℕ → Option LoadedSnapshot
parse_payload bytes payload_len =
    let total = snapshot_header_len + payload_len + 4 in
    let payload = slice snapshot_header_len (snapshot_header_len + payload_len) bytes in
    if ltb (length bytes) total
    then none
    else if not (crc32c_sw payload == from_le_bytes (slice (total - 4) total bytes))
    then none
    else some (record {
      seq = from_le_bytes (slice 8 16 bytes);
      epoch = from_le_bytes (slice 16 24 bytes);
      payload = payload;
    })

unfoldable pub parse_snapshot : List ℕ → Option LoadedSnapshot
unfolding parse_payload
parse_snapshot bytes =
    if ltb (length bytes) (snapshot_header_len + 4)
    then none
    else if not (eq_bytes (slice 0 4 bytes) snapshot_magic)
    then none
    else if not (from_le_bytes (slice 4 8 bytes) == format_version)
    then none
    else if not (crc32c_sw (slice 0 28 bytes) == from_le_bytes (slice 28 32 bytes))
    then none
    else parse_payload bytes (from_le_bytes (slice 24 28 bytes))

unfoldable pub not_after : ℕ → Option LoadedSnapshot → Option LoadedSnapshot
not_after max_seq none = none
not_after max_seq (some snap) = if leb snap.seq max_seq then some snap else none

-- What a file is worth: an unreadable one is skipped, like an unusable one.
unfoldable pub usable : ℕ → Result IoError (List ℕ) → Option LoadedSnapshot
unfolding parse_snapshot not_after
usable max_seq (ok bytes) = not_after max_seq (parse_snapshot bytes)
usable max_seq (err e) = none

abbrev pub first_or : Option LoadedSnapshot → Option LoadedSnapshot → Option LoadedSnapshot
first_or none rest = rest
first_or (some snap) rest = some snap

abbrev pub pushed_in_front : Option LoadedSnapshot → List LoadedSnapshot → List LoadedSnapshot
pushed_in_front none rest = rest
pushed_in_front (some snap) rest = snap ∷ rest

unfoldable pub latest : ℕ → SimStorage → List ℕ → Option LoadedSnapshot
unfolding usable
latest max_seq s [] = none
latest max_seq s (p ∷ ps) = first_or (usable max_seq (read p s).0) (latest max_seq s ps)

unfoldable pub load_latest : ℕ → Method SimStorage IoError (Option LoadedSnapshot)
unfolding latest
load_latest max_seq = do found ← list_dir; λ s. (ok (latest max_seq s (reverse found)), s)

unfoldable pub candidates : ℕ → SimStorage → List ℕ → List LoadedSnapshot
unfolding usable
candidates max_seq s [] = []
candidates max_seq s (p ∷ ps) =
    pushed_in_front (usable max_seq (read p s).0) (candidates max_seq s ps)

unfoldable pub load_candidates : ℕ → Method SimStorage IoError (List LoadedSnapshot)
unfolding candidates
load_candidates max_seq = do found ← list_dir; λ s. (ok (candidates max_seq s (reverse found)), s)

unfoldable pub purge : ℕ → List ℕ → Method SimStorage IoError (Unit {0})
purge max_seq [] = returns tt
purge max_seq (p ∷ ps) =
    let rest = purge max_seq ps in if ltb max_seq p then remove_file p >> rest else rest

-- Delete every snapshot above `max_seq`.
unfoldable pub purge_after : ℕ → Method SimStorage IoError (Unit {0})
unfolding purge
purge_after max_seq = do found ← list_dir; purge max_seq found; sync_dir

abbrev pub greatest : List ℕ → ℕ
greatest [] = 0
greatest (p ∷ ps) = max p (greatest ps)

unfoldable pub high_water_seq : Method SimStorage IoError ℕ
high_water_seq = do found ← list_dir; returns (greatest found)

unfoldable pub remove_all : List ℕ → Method SimStorage IoError (Unit {0})
remove_all [] = returns tt
remove_all (p ∷ ps) = remove_file p >> remove_all ps

-- Keep the newest snapshots, and say which is the oldest of them.
unfoldable pub prune : ℕ → List ℕ → Method SimStorage IoError (Option ℕ)
unfolding remove_all
prune keep entries =
    let over = length entries - keep in
    if ltb keep (length entries)
    then remove_all (take over entries) >> sync_dir >> returns (head? (drop over entries))
    else returns (head? entries)

unfoldable pub prune_keep_newest : ℕ → Method SimStorage IoError (Option ℕ)
unfolding prune
prune_keep_newest keep = list_dir >>= prune (max keep 1)
