-- ===== src/Journal/Snapshots/Latest.antt =====
-- Which snapshot is loaded.
use ticktape.Base.{
  ℕ, zero, suc, ◌^◌, ◌<◌, ◌≤◌, ◌≡◌, refl, sym, ap, ◌∙◌, inl, inr, false, Option, none, some, List,
  [], ◌∷◌, ◌++◌, All, length, take, ok, arith, append-nil, Bool-cases, ◌==◌,
}
use ticktape.Base.Result.{Result}
use ticktape.Base.Method.{proceed, ◌>>◌}
use ticktape.Base.BTreeMap.{get, insert}
use ticktape.Sim.Rng.{Rng}
use ticktape.Sim.Storage.{
  FileData, Files, SimStorage, SimFile, IoError, paths, read, list_dir, empty_file, update,
  sync_dir, crash, crash_files, crash_file, tear, appended, flushed, create_new, write_all,
  sync_data, contents,
}
use ticktape.Sim.Storage.Calls.{create_new-absent, write_all-live, sync_data-live}
use ticktape.Journal.Snapshots.{
  LoadedSnapshot, snapshot_bytes, write, parse_snapshot, not_after, usable, first_or,
  pushed_in_front, latest, load_latest, candidates, load_candidates,
}
use ticktape.Journal.Snapshots.Bytes.{parse_snapshot-snapshot_bytes}
use mathlib.Core.List.{reverse, reverse-append, head?}

first_or-head? :
    (found : Option LoadedSnapshot) (rest : List LoadedSnapshot)
    → first_or found (head? rest) ≡ head? (pushed_in_front found rest)
first_or-head? none rest = refl
first_or-head? (some snap) rest = refl

latest-eq-head? :
    (max_seq : ℕ) (s : SimStorage) (ps : List ℕ)
    → latest max_seq s ps ≡ head? (candidates max_seq s ps)
unfolding latest candidates
latest-eq-head? max_seq s [] = refl
latest-eq-head? max_seq s (p ∷ ps) =
    ap (first_or (usable max_seq (read p s).0)) (latest-eq-head? max_seq s ps)
    ∙ first_or-head? (usable max_seq (read p s).0) (candidates max_seq s ps)

-- The newest snapshot that `load_latest` gives is the first candidate of recovery, whatever is on
-- the disk, and neither of them changes the disk or fails.
pub load_latest-eq-head? :
    (max_seq : ℕ) (s : SimStorage)
    → (all : List LoadedSnapshot) × (load_candidates max_seq s ≡ (ok all, s))
      × (load_latest max_seq s ≡ (ok (head? all), s))
unfolding load_latest load_candidates list_dir
load_latest-eq-head? max_seq s = (
  candidates max_seq s (reverse (paths s.files)),
  refl,
  ap (λ o. (ok o, s)) (latest-eq-head? max_seq s (reverse (paths s.files))),
)

-- A file that was synced survives power loss as it is.
crash_file-synced :
    (bytes : List ℕ) (rng : Rng)
    → (crash_file false (record { synced = bytes; unsynced = [] }) rng).0
      ≡ record { synced = bytes; unsynced = [] }
unfolding crash_file tear
crash_file-synced bytes rng =
    ap (λ l. record { synced = l; unsynced = [] })
      (ap (λ t. bytes ++ t) (take_nil _) ∙ append-nil bytes)
  where
    take_nil : (k : ℕ) → take {A = ℕ} k [] ≡ []
    take_nil zero = refl
    take_nil (suc k) = refl

pub get-crash_files :
    (path : ℕ) (bytes : List ℕ) (files : Files) (rng : Rng)
    → get path files ≡ some (record { synced = bytes; unsynced = [] })
    → get path (crash_files false files rng).0 ≡ some (record { synced = bytes; unsynced = [] })
unfolding get crash_files
get-crash_files path bytes [] rng h = h
get-crash_files path bytes ((p, d) ∷ files) rng h = elim (Bool-cases (p == path)) [
  | inl hit ↦
      let same : d ≡ record { synced = bytes; unsynced = [] } = ground (arith, h, hit) in
      ground (arith, hit, ap (λ x. (crash_file false x rng).0) same ∙ crash_file-synced bytes rng)
  | inr miss ↦ ground (arith, miss, h, get-crash_files path bytes files (crash_file false d rng).1)
]

paths-crash_files :
    (files : Files) (rng : Rng) → paths (crash_files false files rng).0 ≡ paths files
unfolding crash_files
paths-crash_files [] rng = refl
paths-crash_files ((p, d) ∷ files) rng =
    ap (λ ps. p ∷ ps) (paths-crash_files files (crash_file false d rng).1)

-- All snapshots are older than `seq`.
abbrev pub AllBefore : ℕ → Files → Type 0
AllBefore seq = All (λ e. e.0 < seq)

insert-last :
    (seq : ℕ) (d : FileData) (files : Files)
    → AllBefore seq files
    → insert seq d files ≡ files ++ ((seq, d) ∷ [])
unfolding insert
insert-last seq d [] h = refl
insert-last seq d ((p, e) ∷ files) h = ground (arith, h.0, insert-last seq d files h.1)

get-absent : (seq : ℕ) (files : Files) → AllBefore seq files → get seq files ≡ none
unfolding get
get-absent seq [] h = refl
get-absent seq ((p, e) ∷ files) h = ground (arith, h.0, get-absent seq files h.1)

get-last :
    (seq : ℕ) (d : FileData) (files : Files)
    → AllBefore seq files
    → get seq (files ++ ((seq, d) ∷ [])) ≡ some d
unfolding get
get-last seq d [] h = ground arith
get-last seq d ((p, e) ∷ files) h = ground (arith, h.0, get-last seq d files h.1)

update-last :
    (seq : ℕ) (d : FileData) (f : FileData → FileData) (files : Files)
    → AllBefore seq files
    → update seq f (files ++ ((seq, d) ∷ [])) ≡ files ++ ((seq, f d) ∷ [])
unfolding update
update-last seq d f [] h = ground arith
update-last seq d f ((p, e) ∷ files) h = ground (arith, h.0, update-last seq d f files h.1)

paths-append : (files more : Files) → paths (files ++ more) ≡ paths files ++ paths more
paths-append [] more = refl
paths-append ((p, d) ∷ files) more = ap (λ ps. p ∷ ps) (paths-append files more)

module _ (seq epoch : ℕ) (payload : List ℕ) (s : SimStorage) (before : AllBefore seq s.files) where
  abbrev file : SimFile
  file = record { path = seq; epoch = s.epoch }

  abbrev holding : FileData → SimStorage
  holding d = record s { files = s.files ++ ((seq, d) ∷ []) }

  abbrev bytes : List ℕ
  bytes = snapshot_bytes seq epoch payload

  abbrev pub durable : FileData
  durable = record { synced = bytes; unsynced = [] }

  create_new-holding : create_new seq s ≡ (ok file, holding empty_file)
  create_new-holding =
      create_new-absent seq s (get-absent seq s.files before)
      ∙ ap (λ fs. (ok file, record s { files = fs })) (insert-last seq empty_file s.files before)

  write_all-holding :
      write_all file bytes (holding empty_file) ≡ (ok tt, holding (appended bytes empty_file))
  write_all-holding =
      write_all-live file (holding empty_file) empty_file refl
        (get-last seq empty_file s.files before) bytes
      ∙ ap (λ fs. (ok tt, record s { files = fs }))
          (update-last seq empty_file (appended bytes) s.files before)

  sync_data-holding :
      sync_data file (holding (appended bytes empty_file)) ≡ (ok tt, holding durable)
  unfolding empty_file
  sync_data-holding =
      let d = appended bytes empty_file in
      sync_data-live file (holding d) d refl (get-last seq d s.files before)
      ∙ ap (λ fs. (ok tt, record s { files = fs })) (update-last seq d flushed s.files before)

  -- Where every other snapshot is older, the write succeeds and leaves the snapshot durable.
  write-durable : write seq epoch payload s ≡ (ok tt, holding durable)
  unfolding write sync_dir
  write-durable =
      ap (λ r. proceed r (λ f. write_all f bytes >> (sync_data f >> sync_dir))) create_new-holding
      ∙ ap (λ r. proceed r (λ _. sync_data file >> sync_dir)) write_all-holding
      ∙ ap (λ r. proceed r (λ _. sync_dir)) sync_data-holding

  latest-durable :
      (max_seq : ℕ) (s' : SimStorage) (older : List ℕ)
      → seq < 256 ^ 8
      → epoch < 256 ^ 8
      → length payload < 256 ^ 4
      → seq ≤ max_seq
      → get seq s'.files ≡ some durable
      → latest max_seq s' (seq ∷ older)
        ≡ some (record { seq = seq; epoch = epoch; payload = payload })
  unfolding latest usable not_after read
  latest-durable max_seq s' older hs he hp le found =
      let snap : LoadedSnapshot = record { seq = seq; epoch = epoch; payload = payload } in
      let kept : not_after max_seq (some snap) ≡ some snap = ground (arith, le) in
      ap (λ c. first_or (usable max_seq (contents c)) (latest max_seq s' older)) found
      ∙ ap (λ b. first_or (not_after max_seq (parse_snapshot b)) (latest max_seq s' older))
          (append-nil bytes)
      ∙ ap (λ o. first_or (not_after max_seq o) (latest max_seq s' older))
          (parse_snapshot-snapshot_bytes seq epoch payload hs he hp)
      ∙ ap (λ o. first_or o (latest max_seq s' older)) kept

-- A snapshot that was written survives power loss and is the one that is loaded from then on, if it
-- is newer than those that were there, its numbers fit their fields, and the limit is not below it.
pub write-crash :
    (seq epoch : ℕ) (payload : List ℕ) (s : SimStorage) (max_seq : ℕ) (rng : Rng)
    → AllBefore seq s.files
    → seq < 256 ^ 8
    → epoch < 256 ^ 8
    → length payload < 256 ^ 4
    → seq ≤ max_seq
    → let r = write seq epoch payload s in
      (r.0 ≡ ok tt)
      × (load_latest max_seq (crash false r.1 rng).0 ≡ (
        ok (some (record { seq = seq; epoch = epoch; payload = payload })),
        (crash false r.1 rng).0,
      ))
unfolding load_latest list_dir crash
write-crash seq epoch payload s max_seq rng before hs he hp le =
    let done = write-durable seq epoch payload s before in
    let d = durable seq epoch payload s before in
    let t = holding seq epoch payload s before d in
    let left = (crash false t rng).0 in
    let listed : reverse (paths left.files) ≡ seq ∷ reverse (paths s.files) =
      ap reverse (paths-crash_files t.files rng ∙ paths-append s.files ((seq, d) ∷ []))
      ∙ reverse-append (paths s.files) (seq ∷ []) in
    (
      ap (λ r. r.0) done,
      ap
            (λ (r : Result IoError (Unit {0}) × SimStorage).
              load_latest max_seq (crash false r.1 rng).0)
            done
          ∙ ap (λ ps. (ok (latest max_seq left ps), left)) listed
          ∙ ap (λ o. (ok o, left))
              (latest-durable seq epoch payload s before max_seq left (reverse (paths s.files)) hs
                he hp le
                (get-crash_files seq (bytes seq epoch payload s before) t.files rng
                  (get-last seq d s.files before)))
          ∙ ap
              (λ (r : Result IoError (Unit {0}) × SimStorage). (
                ok (some (record { seq = seq; epoch = epoch; payload = payload })),
                (crash false r.1 rng).0,
              ))
              (sym done),
    )
