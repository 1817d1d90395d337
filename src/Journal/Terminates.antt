-- ===== src/Journal/Terminates.antt =====
-- Opening a journal comes to an end, whatever is on the disk.
use ticktape.Base.{
  ℕ, suc, ◌≢◌, refl, Bool, true, false, List, [], ◌∷◌, length, length-drop, drop, ok, err, arith,
  ◌==◌, if◌then◌else◌, Bool-cases, inl, inr,
}
use ticktape.Base.Result.{Result}
use ticktape.Base.Method.{Method, proceed}
use ticktape.Core.Frame.{Frame}
use ticktape.Sim.Storage
use ticktape.Sim.Storage.{SimStorage, IoError}
use ticktape.Journal.{JournalConfig, JournalError, SegmentHeader, parse_segment_header}
use ticktape.Journal.Recovery.{
  Stop, no_fuel, error, Scan, at_end, torn_at, failed, out_of_fuel, Progress, after_scan,
  scan_contents, scan_segment, scan_segments, is_nil, reopen, at_start, open_with, io_stop, parsed,
}
use ticktape.Journal.Scanned.{scan-ne-out_of_fuel}

-- The method did not run out of fuel.
abbrev Ended {ℓ} : {A : Type ℓ} → Result Stop A × SimStorage → Type ℓ
Ended r = r.0 ≢ err no_fuel

module _ {A B : Type 0} where
  proceed-Ended :
      (r : Result Stop A × SimStorage) (rest : A → Method SimStorage Stop B)
      → Ended r
      → ((a : A) (s : SimStorage) → Ended (rest a s))
      → Ended (proceed r rest)
  proceed-Ended (ok a, s) rest h k = k a s
  proceed-Ended (err (error e), s) rest h k = λ e. cc
  proceed-Ended (err no_fuel, s) rest h k = absurd (h refl)

io_stop-Ended : {A : Type 0} (r : Result IoError A × SimStorage) → Ended (io_stop r)
io_stop-Ended (ok a, s) = λ e. cc
io_stop-Ended (err e, s) = λ e. cc

parsed-Ended : (r : Result JournalError SegmentHeader) (s : SimStorage) → Ended (parsed r s)
parsed-Ended (ok h) s = λ e. cc
parsed-Ended (err e) s = λ e. cc

after_scan-Ended :
    (path epoch : ℕ) (p : Progress) (r : List Frame × Scan) (s : SimStorage)
    → r.1 ≢ out_of_fuel
    → Ended (after_scan path p epoch r s)
unfolding after_scan
after_scan-Ended path epoch p (frames, at_end next) s h = λ e. cc
after_scan-Ended path epoch p (frames, torn_at offset next) s h =
    proceed-Ended (io_stop (Storage.truncate path offset s)) _
      (io_stop-Ended (Storage.truncate path offset s)) (λ a k e. cc)
after_scan-Ended path epoch p (frames, failed x) s h = λ e. cc
after_scan-Ended path epoch p (frames, out_of_fuel) s h = absurd (h refl)

scan_contents-Ended :
    (is_first is_last : Bool) (path : ℕ) (p : Progress) (bytes : List ℕ) (header : SegmentHeader)
    (s : SimStorage)
    → Ended (scan_contents is_first is_last path p bytes header s)
unfolding scan_contents
scan_contents-Ended is_first is_last path p bytes header s =
    let expected = if is_first then header.first_seq else p.expected_next in
    elim (Bool-cases (header.first_seq == expected)) [
      | inl due ↦ rw due (
          after_scan-Ended path header.epoch p _ s (
            scan-ne-out_of_fuel path is_last (length bytes) (suc (length bytes)) expected
              (drop 28 bytes) (omega (arith, length-drop 28 bytes))))
      | inr other ↦ rw other (λ e. cc)
    ]

scan_segment-Ended :
    (is_first is_last : Bool) (path : ℕ) (p : Progress) (s : SimStorage)
    → Ended (scan_segment is_first is_last path p s)
unfolding scan_segment
scan_segment-Ended is_first is_last path p s =
    proceed-Ended (io_stop (Storage.read path s)) _ (io_stop-Ended (Storage.read path s))
      (λ bytes t.
        proceed-Ended (parsed (parse_segment_header path bytes) t) _
          (parsed-Ended (parse_segment_header path bytes) t)
          (λ header u. scan_contents-Ended is_first is_last path p bytes header u))

scan_segments-Ended :
    (is_first : Bool) (segments : List ℕ) (p : Progress) (s : SimStorage)
    → Ended (scan_segments is_first segments p s)
unfolding scan_segments
scan_segments-Ended is_first [] p s = λ e. cc
scan_segments-Ended is_first (path ∷ rest) p s =
    proceed-Ended (scan_segment is_first (is_nil rest) path p s) _
      (scan_segment-Ended is_first (is_nil rest) path p s)
      (λ q t. scan_segments-Ended false rest q t)

reopen-Ended : (segments : List ℕ) (count : ℕ) (s : SimStorage) → Ended (reopen segments count s)
unfolding reopen
reopen-Ended [] count s = λ e. cc
reopen-Ended (path ∷ []) count s =
    proceed-Ended (io_stop (Storage.open_append path s)) _
      (io_stop-Ended (Storage.open_append path s))
      (λ file t.
        proceed-Ended (io_stop (Storage.len file t)) _ (io_stop-Ended (Storage.len file t))
          (λ n u e. cc))
reopen-Ended (path ∷ next ∷ rest) count s = reopen-Ended (next ∷ rest) count s

-- Whatever is on the disk, opening the journal comes to an end: the fuel of the model, one more
-- than the bytes of a segment, is never used up.
pub open_with-ne-no_fuel :
    (config : JournalConfig) (now : ℕ) (s : SimStorage) → (open_with config now s).0 ≢ err no_fuel
unfolding open_with
open_with-ne-no_fuel config now s =
    proceed-Ended (io_stop (Storage.create_dir_all s)) _ (io_stop-Ended (Storage.create_dir_all s))
      (λ _ t.
        proceed-Ended (io_stop (Storage.list_dir t)) _ (io_stop-Ended (Storage.list_dir t))
          (λ segments u.
            proceed-Ended (scan_segments true segments at_start u) _
              (scan_segments-Ended true segments at_start u)
              (λ p v.
                proceed-Ended (reopen segments (length p.frames) v) _
                  (reopen-Ended segments (length p.frames) v) (λ current w e. cc))))
