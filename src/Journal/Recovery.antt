-- ===== src/Journal/Recovery.antt =====
-- open_inner of crates/ticktape-journal/src/lib.rs: the scan of the segments.
use ticktape.Base.{
  ℕ, zero, suc, ◌+◌, ◌-◌, Bool, true, false, not, Option, none, some, List, [], ◌∷◌, ◌++◌, ◌==◌,
  if◌then◌else◌, length, drop, ok, err,
}
use ticktape.Base.Result.{Result}
use ticktape.Base.Method.{Method, returns, fails, ◌>>=◌, ◌>>◌}
use ticktape.Core.Frame.{Frame, read_from}
use ticktape.Sim.Storage
use ticktape.Sim.Storage.{IoError, SimStorage, SimFile}
use ticktape.Journal.{
  JournalConfig, JournalError, Journal, OpenSegment, SegmentHeader, parse_segment_header,
  segment_header_len, io, corrupt, non_contiguous_seq,
}

-- How the scan of a segment ends: at its end or at a torn tail, with the seq that is due next, or
-- at an error. Running out of fuel is an end of the model's own.
pub data Scan : Type 0 where
  at_end : ℕ → Scan
  torn_at : ℕ → ℕ → Scan
  failed : JournalError → Scan
  out_of_fuel : Scan

-- The frames of a segment behind its header, and how the scan ends. `size` is the segment's length.
unfoldable pub scan : ℕ → ℕ → Bool → ℕ → ℕ → List ℕ → List Frame × Scan
scan zero path is_last size expected cursor = ([], out_of_fuel)
scan (suc fuel) path is_last size expected [] = ([], at_end expected)
scan (suc fuel) path is_last size expected (b ∷ cursor) = elim (read_from (b ∷ cursor)) [
  | ok (frame, rest) ↦
      let more = scan fuel path is_last size (frame.seq + 1) rest in
      if not (frame.seq == expected)
      then ([], failed (non_contiguous_seq path expected frame.seq))
      else (frame ∷ more.0, more.1)
  | err e ↦
      let offset = size - length (b ∷ cursor) in
      ([], if is_last then torn_at offset expected else failed (corrupt path offset e))
]

-- How opening stops: with the code's error or, in the model, without fuel.
pub data Stop : Type 0 where
  error : JournalError → Stop
  no_fuel : Stop

-- The loop's variables, with the frames delivered so far.
pub record Progress : Type 0 where
  pub frames : List Frame
  pub expected_next : ℕ
  pub truncated : Bool
  pub epoch : ℕ

abbrev pub io_stop {ℓ} : {A : Type ℓ} → Result IoError A × SimStorage → Result Stop A × SimStorage
io_stop (ok a, s) = (ok a, s)
io_stop (err e, s) = (err (error (io e)), s)

abbrev pub io_call {ℓ} : {A : Type ℓ} → Method SimStorage IoError A → Method SimStorage Stop A
io_call call s = io_stop (call s)

abbrev pub parsed : Result JournalError SegmentHeader → Method SimStorage Stop SegmentHeader
parsed (ok h) = returns h
parsed (err e) = fails (error e)

-- The loop's variables after a segment; a torn tail is cut off.
unfoldable pub after_scan : ℕ → Progress → ℕ → List Frame × Scan → Method SimStorage Stop Progress
after_scan path p epoch (frames, at_end next) =
    returns (record p { frames = p.frames ++ frames; expected_next = next; epoch = epoch })
after_scan path p epoch (frames, torn_at offset next) = do
  io_call (Storage.truncate path offset)
  returns (record {
    frames = p.frames ++ frames;
    expected_next = next;
    truncated = true;
    epoch = epoch;
  })
after_scan path p epoch (frames, failed e) = fails (error e)
after_scan path p epoch (frames, out_of_fuel) = fails no_fuel

unfoldable pub scan_contents :
    Bool → Bool → ℕ → Progress → List ℕ → SegmentHeader → Method SimStorage Stop Progress
unfolding scan after_scan
scan_contents is_first is_last path p bytes header =
    let expected = if is_first then header.first_seq else p.expected_next in
    if not (header.first_seq == expected)
    then fails (error (non_contiguous_seq path expected header.first_seq))
    else after_scan path p header.epoch (
        scan (suc (length bytes)) path is_last (length bytes) expected
          (drop segment_header_len bytes))

unfoldable pub scan_segment : Bool → Bool → ℕ → Progress → Method SimStorage Stop Progress
unfolding scan_contents
scan_segment is_first is_last path p = do
  bytes ← io_call (Storage.read path)
  header ← parsed (parse_segment_header path bytes)
  scan_contents is_first is_last path p bytes header

abbrev pub is_nil {ℓ} : {A : Type ℓ} → List A → Bool
is_nil [] = true
is_nil (x ∷ xs) = false

unfoldable pub scan_segments : Bool → List ℕ → Progress → Method SimStorage Stop Progress
unfolding scan_segment
scan_segments is_first [] p = returns p
scan_segments is_first (path ∷ rest) p =
    scan_segment is_first (is_nil rest) path p >>= scan_segments false rest

-- The last segment, open for appending; `count` gates the next roll only.
unfoldable pub reopen : List ℕ → ℕ → Method SimStorage Stop (Option OpenSegment)
reopen [] count = returns none
reopen (path ∷ []) count = do
  file ← io_call (Storage.open_append path)
  size ← io_call (Storage.len file)
  returns (some (record { file = file; size = size; frames = count }))
reopen (path ∷ next ∷ rest) count = reopen (next ∷ rest) count

pub record Recovered : Type 0 where
  pub journal : Journal
  pub frames : List Frame
  pub first_seq : ℕ
  pub truncated_torn_tail : Bool

abbrev pub first_of : List Frame → ℕ → ℕ
first_of [] seq = seq
first_of (f ∷ fs) seq = f.seq

unfoldable pub recovered :
    JournalConfig → ℕ → Progress → Option OpenSegment → SimStorage → Recovered
recovered config now p current s =
    let last_seq = p.expected_next - 1 in
    record {
      journal = record {
        config = config;
        storage = s;
        current = current;
        last_seq = last_seq;
        epoch = p.epoch;
        last_sync = now;
        dirty = false;
      };
      frames = p.frames;
      first_seq = first_of p.frames (last_seq + 1);
      truncated_torn_tail = p.truncated;
    }

abbrev pub at_start : Progress
at_start = record { frames = []; expected_next = 1; truncated = false; epoch = 0 }

-- Open the journal at the time `now`, with the frames it delivers.
unfoldable pub open_with : JournalConfig → ℕ → Method SimStorage Stop Recovered
unfolding scan_segments reopen recovered
open_with config now = do
  io_call Storage.create_dir_all
  segments ← io_call Storage.list_dir
  p ← scan_segments true segments at_start
  current ← reopen segments (length p.frames)
  λ s. (ok (recovered config now p current s), s)
