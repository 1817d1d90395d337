-- ===== src/Journal.antt =====
-- crates/ticktape-journal/src/lib.rs: the segmented, append-only log of frames, on the simulated
-- disk of crates/ticktape-sim/src/storage.rs. The directory holds segments only, and the reusable
-- encode buffer, which every call clears first, is not part of the state.
pub mod Recovery
pub mod Header
pub mod Scanned
pub mod Log
pub mod Opened
pub mod Reopened
pub mod Writer
pub mod Appends
pub mod Crash
pub mod Durable
pub mod First
pub mod Filled
pub mod Restarted
pub mod Terminates
pub mod Compaction
pub mod Refusal
pub mod Snapshots
mod Tests
use ticktape.Base.{
  ℕ, ◌+◌, ◌-◌, ◌≤◌, Bool, true, false, not, ◌&&◌, Option, none, some, List, [], ◌∷◌, ◌++◌, ltb, leb,
  ◌==◌, if◌then◌else◌, length, take, slice, ok, err,
}
use ticktape.Base.Result
use ticktape.Base.Result.{Result, reject_if}
use ticktape.Base.Method.{Method, returns, fails, proceed, ◌>>=◌, ◌>>◌}
use ticktape.Core.Bytes.{to_le_bytes, from_le_bytes}
use ticktape.Core.Crc32c.{crc32c_sw}
use ticktape.Core.Frame.{Frame, FrameError, encoded_len, write_to}
use ticktape.Core.Frame.Runs.{write_frames}
use ticktape.Transport.Wire.{eq_bytes}
use ticktape.Sim.Storage
use ticktape.Sim.Storage.{IoError, SimStorage, SimFile}

-- "TKTJ"
abbrev pub segment_magic : List ℕ
segment_magic = 84 ∷ 75 ∷ 84 ∷ 74 ∷ []

abbrev pub format_version : ℕ
format_version = 1

abbrev pub segment_header_len : ℕ
segment_header_len = 28

pub data FsyncPolicy : Type 0 where
  every_frame never : FsyncPolicy
  micros : ℕ → FsyncPolicy

-- Without the directory, which is the whole disk.
pub record JournalConfig : Type 0 where
  pub segment_bytes : ℕ
  pub fsync : FsyncPolicy

-- The texts of `bad`.
pub data HeaderFault : Type 0 where
  too_short bad_magic crc_mismatch : HeaderFault
  unsupported_version : ℕ → HeaderFault

pub data JournalError : Type 0 where
  io : IoError → JournalError
  corrupt : ℕ → ℕ → FrameError → JournalError
  bad_segment_header : ℕ → HeaderFault → JournalError
  non_contiguous_seq : ℕ → ℕ → ℕ → JournalError
  out_of_order_append : ℕ → ℕ → JournalError

pub record OpenSegment : Type 0 where
  pub file : SimFile
  pub size : ℕ
  pub frames : ℕ

pub record Journal : Type 0 where
  pub config : JournalConfig
  pub storage : SimStorage
  pub current : Option OpenSegment
  pub last_seq : ℕ
  pub epoch : ℕ
  -- In microseconds, as all times of the journal.
  pub last_sync : ℕ
  pub dirty : Bool

-- Bytes [0, 24), which the header checksum covers.
unfoldable pub header_fields : ℕ → ℕ → List ℕ
header_fields first_seq epoch =
    segment_magic
    ++ (to_le_bytes 4 format_version ++ (to_le_bytes 8 first_seq ++ to_le_bytes 8 epoch))

unfoldable pub segment_header_bytes : ℕ → ℕ → List ℕ
unfolding header_fields
segment_header_bytes first_seq epoch =
    let fields = header_fields first_seq epoch in fields ++ to_le_bytes 4 (crc32c_sw fields)

pub record SegmentHeader : Type 0 where
  pub first_seq : ℕ
  pub epoch : ℕ

unfoldable pub parse_segment_header : ℕ → List ℕ → Result JournalError SegmentHeader
parse_segment_header path bytes =
    let version = from_le_bytes (slice 4 8 bytes) in
    if ltb (length bytes) segment_header_len
    then err (bad_segment_header path too_short)
    else if not (eq_bytes (slice 0 4 bytes) segment_magic)
    then err (bad_segment_header path bad_magic)
    else if not (version == format_version)
    then err (bad_segment_header path (unsupported_version version))
    else if not (crc32c_sw (slice 0 24 bytes) == from_le_bytes (slice 24 28 bytes))
    then err (bad_segment_header path crc_mismatch)
    else ok (record {
      first_seq = from_le_bytes (slice 8 16 bytes);
      epoch = from_le_bytes (slice 16 24 bytes);
    })

-- `From<io::Error>`, in a call through the journal's storage.
abbrev pub lifted {ℓ} :
    {A : Type ℓ} → Journal → Result IoError A × SimStorage → Result JournalError A × Journal
lifted j (ok a, s) = (ok a, record j { storage = s })
lifted j (err e, s) = (err (io e), record j { storage = s })

abbrev pub on_storage {ℓ} :
    {A : Type ℓ} → Method SimStorage IoError A → Method Journal JournalError A
on_storage call j = lifted j (call j.storage)

-- A change of the journal's own fields.
abbrev pub assign : (Journal → Journal) → Method Journal JournalError (Unit {0})
assign change j = (ok tt, change j)

unfoldable pub sync_open : Option OpenSegment → Bool → Method Journal JournalError (Unit {0})
sync_open (some seg) true = do
  on_storage (Storage.sync_data seg.file)
  assign (λ j. record j { dirty = false })
sync_open (some seg) false = returns tt
sync_open none dirty = returns tt

-- Force outstanding appends to stable storage, at the time `now`.
unfoldable pub sync : ℕ → Method Journal JournalError (Unit {0})
unfolding sync_open
sync now j = (sync_open j.current j.dirty >> assign (λ k. record k { last_sync = now })) j

-- The fsync policy after a write.
unfoldable pub maybe_sync : ℕ → FsyncPolicy → Method Journal JournalError (Unit {0})
unfolding sync
maybe_sync now every_frame = sync now
maybe_sync now (micros window) =
    λ j. if leb window (now - j.last_sync) then sync now j else (ok tt, j)
maybe_sync now never = returns tt

abbrev pub new_segment : SimFile → Option OpenSegment
new_segment file = some (record { file = file; size = segment_header_len; frames = 0 })

-- A fresh active segment, its header durable.
unfoldable pub start_segment : ℕ → Method Journal JournalError (Unit {0})
start_segment first_seq j =
    (do
      file ← on_storage (Storage.create_new first_seq)
      on_storage (Storage.write_all file (segment_header_bytes first_seq j.epoch))
      on_storage (Storage.sync_data file)
      on_storage Storage.sync_dir
      assign (λ k. record k { current = new_segment file }))
      j

-- Seal the outgoing segment's bytes before a new one is started.
unfoldable pub roll_segment : ℕ → ℕ → Method Journal JournalError (Unit {0})
unfolding sync start_segment
roll_segment now first_seq = sync now >> start_segment first_seq

-- Whether `n` more bytes need a new segment.
unfoldable pub needs_roll : Option OpenSegment → ℕ → ℕ → Bool
needs_roll none n limit = true
needs_roll (some seg) n limit = ltb 0 seg.frames && ltb limit (seg.size + n)

unfoldable pub grown : Option OpenSegment → ℕ → ℕ → Option OpenSegment
grown none bytes frames = none
grown (some seg) bytes frames =
    some (record seg { size = seg.size + bytes; frames = seg.frames + frames })

-- The write into the open segment; there is one after the roll.
unfoldable pub write_open : Option OpenSegment → List ℕ → Method Journal JournalError (Unit {0})
write_open none bytes = returns tt
write_open (some seg) bytes = on_storage (Storage.write_all seg.file bytes)

-- One write of `count` frames that need `room`, the last of them `last`, and the policy after it.
unfoldable pub commit_bytes : ℕ → ℕ → List ℕ → ℕ → ℕ → ℕ → Method Journal JournalError (Unit {0})
unfolding needs_roll grown write_open roll_segment maybe_sync
commit_bytes now room bytes count first last j =
    (do
      if needs_roll j.current room j.config.segment_bytes
          then roll_segment now first
          else returns tt
      λ k. write_open k.current bytes k
      assign (λ k. record k {
        current = grown k.current (length bytes) count;
        last_seq = last;
        dirty = true;
      })
      maybe_sync now j.config.fsync)
      j

-- Append one frame, whose seq must be the next one.
unfoldable pub append : ℕ → Frame → Method Journal JournalError (Unit {0})
unfolding commit_bytes
append now frame j =
    let expected = j.last_seq + 1 in
    if not (frame.seq == expected)
    then (err (out_of_order_append expected frame.seq), j)
    else commit_bytes now (encoded_len frame) (write_to frame []) 1 frame.seq frame.seq j

-- Whether the run is gapless from `expected` on.
unfoldable pub check_run : ℕ → List Frame → Result JournalError (Unit {0})
check_run expected [] = ok tt
check_run expected (f ∷ fs) =
    if not (f.seq == expected)
    then err (out_of_order_append expected f.seq)
    else check_run (f.seq + 1) fs

abbrev pub last_of : ℕ → List Frame → ℕ
last_of seq [] = seq
last_of seq (f ∷ fs) = last_of f.seq fs

unfoldable pub commit_run :
    ℕ → List Frame → Result JournalError (Unit {0}) → Method Journal JournalError (Unit {0})
unfolding commit_bytes write_frames
commit_run now [] checked = returns tt
commit_run now (f ∷ fs) (err e) = fails e
commit_run now (f ∷ fs) (ok unit) =
    let bytes = write_frames (f ∷ fs) [] in
    commit_bytes now (length bytes) bytes (length (f ∷ fs)) f.seq (last_of f.seq fs)

-- Append a run with one write and one application of the fsync policy.
unfoldable pub append_batch : ℕ → List Frame → Method Journal JournalError (Unit {0})
unfolding check_run commit_run
append_batch now fs j = commit_run now fs (check_run (j.last_seq + 1) fs) j

-- `removed += 1`
abbrev pub one_more : Result JournalError ℕ × Journal → Result JournalError ℕ × Journal
one_more (ok n, j) = (ok (n + 1), j)
one_more (err e, j) = (err e, j)

-- Remove each segment whose successor starts at most one after the cutoff.
unfoldable pub remove_covered : ℕ → List ℕ → Method Journal JournalError ℕ
remove_covered cutoff [] j = (ok 0, j)
remove_covered cutoff (p ∷ []) j = (ok 0, j)
remove_covered cutoff (p ∷ q ∷ ps) j =
    let rest = remove_covered cutoff (q ∷ ps) in
    if leb q (cutoff + 1)
    then proceed (on_storage (Storage.remove_file p) j) (λ _ k. one_more (rest k))
    else (ok 0, j)

-- Compaction, which never removes the last segment.
unfoldable pub compact_below : ℕ → Method Journal JournalError ℕ
unfolding remove_covered
compact_below cutoff = do
  segments ← on_storage Storage.list_dir
  removed ← remove_covered cutoff segments
  if ltb 0 removed then on_storage Storage.sync_dir else returns tt
  returns removed

-- Start over at `next_seq`, dropping the segments below it.
unfoldable pub reseat_to : ℕ → ℕ → Method Journal JournalError (Unit {0})
unfolding sync start_segment compact_below
reseat_to now next_seq = do
  sync now
  start_segment next_seq
  assign (λ k. record k { last_seq = next_seq - 1 })
  removed ← compact_below (next_seq - 1)
  returns tt

unfoldable pub segment_count : Journal → ℕ
segment_count j = length (Storage.paths j.storage.files)
