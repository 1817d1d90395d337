-- ===== src/Cluster/Persist/OnDisk/Survives.antt =====
-- A grant of persist.rs survives power loss on the simulated disk.
use ticktape.Base.{
  ℕ, ◌^◌, ◌<◌, ◌≤◌, ◌≡◌, refl, sym, ap, ◌∙◌, none, some, List, true, false, ltb, ok, arith,
  Option-cases, inl, inr, append-nil, Bool-cases, [], ◌>>=◌,
}
use ticktape.Base.Method.{proceed, ◌>>◌}
use ticktape.Sim.Storage
use ticktape.Base.BTreeMap.{get, insert, get-insert}
use ticktape.Sim.Rng.{Rng}
use ticktape.Sim.Storage.{
  FileData, SimStorage, SimFile, empty_file, create_new, truncate, open_append, write_all,
  sync_data, read, crash, appended, flushed, cut, update,
}
use ticktape.Sim.Storage.Calls.{
  create_new-absent, create_new-there, truncate-there, open_append-there, write_all-live,
  sync_data-live, get-update,
}
use ticktape.Journal.Snapshots.Latest.{get-crash_files}
use ticktape.Cluster.Election.{Acceptor, VoteRequest, grant, reject, handle}
use ticktape.Cluster.Persist.{record_of, contents, open_acceptor, recovered, handle_durably}
use ticktape.Cluster.Persist.Remembered.{
  parse_record-record_of, recovered-promised, handle-stale, handle_durably-raised,
  handle_durably-stale, written_first,
}
use ticktape.Cluster.Persist.OnDisk.{
  state_file, or_truncated, persist, disk_after, handle_on_disk, open_on_disk, read_outcome,
  from_io,
}

module _ (path : ℕ) (s : SimStorage) where
  abbrev handle_of : SimFile
  handle_of = record { path = path; epoch = s.epoch }

  -- The disk with an empty record file.
  Emptied : SimStorage → Type 0
  Emptied s' = (s'.epoch ≡ s.epoch) × (get path s'.files ≡ some empty_file)

  state_file-created :
      get path s.files ≡ none
      → (s' : SimStorage) × (state_file path s ≡ (ok handle_of, s')) × Emptied s'
  unfolding state_file or_truncated Emptied
  state_file-created absent = (
    record s { files = insert path empty_file s.files },
    ap (λ r. or_truncated path r.0 r.1) (create_new-absent path s absent),
    (refl, ground (arith, get-insert path path empty_file s.files)),
  )

  state_file-cut :
      (d : FileData)
      → get path s.files ≡ some d
      → (s' : SimStorage) × (state_file path s ≡ (ok handle_of, s')) × Emptied s'
  unfolding state_file or_truncated Emptied empty_file
  state_file-cut d there =
      let s' : SimStorage = record s { files = update path (cut 0) s.files } in
      let empty = get-update path (cut 0) d s.files there in
      (
        s',
        ap (λ r. or_truncated path r.0 r.1) (create_new-there path s d there)
            ∙ ap (λ r. proceed r (λ _. open_append path)) (truncate-there path s 0 d there)
            ∙ open_append-there path s' (cut 0 d) empty,
        (refl, empty),
      )

  state_file-Emptied : (s' : SimStorage) × (state_file path s ≡ (ok handle_of, s')) × Emptied s'
  state_file-Emptied = elim (Option-cases (get path s.files)) [
    | inl absent ↦ state_file-created absent
    | inr there ↦ state_file-cut there.0 there.1
  ]

  abbrev durable : List ℕ → FileData
  durable bytes = record { synced = bytes; unsynced = [] }

  -- Whatever is on the disk, the record is written and durable.
  pub persist-durable :
      (bytes : List ℕ)
      → (s' : SimStorage) × (persist path bytes s ≡ (ok tt, s'))
        × (get path s'.files ≡ some (durable bytes))
  unfolding persist Emptied empty_file
  persist-durable bytes =
      let (e, made, (same, empty)) = state_file-Emptied in
      let w : SimStorage = record e { files = update path (appended bytes) e.files } in
      let held = get-update path (appended bytes) empty_file e.files empty in
      (
        record w { files = update path flushed w.files },
        ap (λ r. proceed r (λ f. write_all f bytes >> sync_data f)) made
            ∙ ap (λ r. proceed r (λ _. sync_data handle_of))
                (write_all-live handle_of e empty_file same empty bytes)
            ∙ sync_data-live handle_of w (appended bytes empty_file) same held,
        get-update path flushed (appended bytes empty_file) w.files held,
      )

-- The record that a raised promise left behind is read after power loss.
open_on_disk-crash :
    (path e : ℕ) (s : SimStorage) (rng : Rng)
    → e < 256 ^ 8
    → get path s.files ≡ some (record { synced = record_of e; unsynced = [] })
    → open_on_disk path (crash false s rng).0 ≡ ok (recovered e)
unfolding open_on_disk read crash open_acceptor
open_on_disk-crash path e s rng fits h =
    ap (λ o. open_acceptor (read_outcome (Storage.contents o)))
      (get-crash_files path (record_of e) s.files rng h)
    ∙ ap (λ b. open_acceptor (contents b)) (append-nil (record_of e))
    ∙ ap (λ r. r >>= λ promised. ok (recovered promised)) (parse_record-record_of e fits)

handle-raised :
    (a : Acceptor) (request : VoteRequest)
    → ltb a.promised request.epoch ≡ true
    → (handle a request).0.promised ≡ request.epoch
unfolding handle
handle-raised a request h = ground (arith, h)

disk_after-raised :
    (path : ℕ) (a a' : Acceptor) (s : SimStorage) (e : ℕ)
    → a'.promised ≡ e
    → ltb a.promised e ≡ true
    → disk_after path a a' s ≡ (persist path (record_of e) s).1
unfolding disk_after
disk_after-raised path a a' s e same raised = rw (same, raised) refl

-- A grant has written its record to the disk.
granted_disk :
    (path : ℕ) (a : Acceptor) (request : VoteRequest) (s : SimStorage) (e high_water : ℕ)
    → (handle_on_disk path a request s).0.1 ≡ ok (grant e high_water)
    → (handle_on_disk path a request s).1 ≡ (persist path (record_of e) s).1
unfolding handle_on_disk handle_durably
granted_disk path a request s e high_water h =
    let write = λ (bytes : List ℕ). from_io (persist path bytes s).0 in
    elim (Bool-cases (ltb a.promised request.epoch)) [
      | inl raised ↦
          let same =
            (written_first (write (record_of request.epoch)) request.epoch e high_water a.high_water
              (sym (handle_durably-raised write a request raised) ∙ h)).1 in
          disk_after-raised path a (handle a request).0 s request.epoch
            (handle-raised a request raised) raised
          ∙ ap (λ n. (persist path (record_of n) s).1) same
      | inr stale ↦ absurd (cc (handle_durably-stale write a request stale, h))
    ]

-- On the simulated disk, where a created file is durable at once, a grant survives power loss:
-- after an acceptor with its file granted an epoch below 2 ^ 64 and power was lost without damage
-- to a surviving byte, an acceptor is opened from the file and rejects every request for that epoch
-- or an earlier one. This holds whatever was on the disk before.
pub handle_on_disk-crash :
    (path : ℕ) (a : Acceptor) (request : VoteRequest) (s : SimStorage) (e high_water : ℕ)
    (rng : Rng)
    → e < 256 ^ 8
    → (handle_on_disk path a request s).0.1 ≡ ok (grant e high_water)
    → (b : Acceptor) × (open_on_disk path (crash false (handle_on_disk path a request s).1 rng).0
        ≡ ok b)
      × ((later : VoteRequest) → later.epoch ≤ e → (handle b later).1 ≡ reject e)
handle_on_disk-crash path a request s e high_water rng fits h =
    let (s', wrote, held) = persist-durable path s (record_of e) in
    let left = granted_disk path a request s e high_water h ∙ ap (λ r. r.1) wrote in
    (
      recovered e,
      open_on_disk-crash path e (handle_on_disk path a request s).1 rng fits
          (ap (λ d. get path d.files) left ∙ held),
      λ later old. handle-stale (recovered e) e later (recovered-promised e) old,
    )
