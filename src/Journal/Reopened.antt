-- ===== src/Journal/Reopened.antt =====
-- Opening the journal of a log, with a clean end or with a torn one.
use ticktape.Base.{
  ℕ, ◌+◌, ◌-◌, ◌<◌, ◌≡◌, refl, ap, ap₂, ◌∙◌, Bool, true, false, some, List, [], ◌∷◌, ◌++◌, length,
  ok, err, arith,
}
use ticktape.Base.Method.{proceed}
use ticktape.Base.BTreeMap.{get}
use ticktape.Core.Frame.{Frame, FrameError, read_from}
use ticktape.Sim.Storage
use ticktape.Sim.Storage.{SimStorage, SimFile, FileData, combined, file_len, cut, paths, update}
use ticktape.Sim.Storage.Calls.{open_append-there, len-live, get-update, truncate-there}
use ticktape.Journal.{JournalConfig, OpenSegment}
use ticktape.Journal.Recovery.{
  Scan, scan, at_end, torn_at, Progress, Recovered, after_scan, scan_segments, reopen, recovered,
  at_start, open_with,
}
use ticktape.Journal.Scanned.{scan-end, scan-torn}
use ticktape.Journal.Log.{
  Sealed, image, start, sealed_frames, AllSealed, Found, Found-image, get-image,
}
use ticktape.Journal.Opened.{Contents, passed, scan_segment-after, scan_segments-image}

abbrev pub reopened : ℕ → ℕ → FileData → ℕ → OpenSegment
reopened path epoch d count = record {
  file = record { path = path; epoch = epoch };
  size = file_len d;
  frames = count;
}

reopen-last :
    (path count : ℕ) (d : FileData) (s : SimStorage)
    → get path s.files ≡ some d
    → reopen (path ∷ []) count s ≡ (ok (some (reopened path s.epoch d count)), s)
unfolding reopen
reopen-last path count d s g =
    let file : SimFile = record { path = path; epoch = s.epoch } in
    rw (open_append-there path s d g) (rw (len-live file s d refl g) refl)

-- The active segment is reopened under its name, with its size.
reopen-image :
    (n count : ℕ) (ss : List Sealed) (d d' : FileData) (s : SimStorage)
    → get (start n ss) s.files ≡ some d'
    → reopen (paths (image n ss d)) count s
      ≡ (ok (some (reopened (start n ss) s.epoch d' count)), s)
unfolding reopen
reopen-image n count [] d d' s g = reopen-last n count d' s g
reopen-image n count (x ∷ []) d d' s g = reopen-image (n + length x.frames) count [] d d' s g
reopen-image n count (x ∷ y ∷ ss) d d' s g =
    reopen-image (n + length x.frames) count (y ∷ ss) d d' s g

-- The frames of a log with the frames `fs` in its active segment.
abbrev pub all_frames : List Sealed → List Frame → List Frame
all_frames ss fs = sealed_frames ss ++ fs

module _ (config : JournalConfig) (now n e : ℕ) (ss : List Sealed) (fs : List Frame) (tail : List ℕ)
    (d : FileData) (s : SimStorage) (files : s.files ≡ image n ss d) (sealed : AllSealed n ss) where
  abbrev due : ℕ
  due = start n ss + length fs

  -- The answer of `open_with`, where it leaves `d'` in the active segment and the storage as `s'`.
  abbrev pub found : Bool → FileData → SimStorage → Recovered
  found torn d' s' =
      recovered config now
        (record { frames = all_frames ss fs; expected_next = due; truncated = torn; epoch = e })
        (some (reopened (start n ss) s'.epoch d' (length (all_frames ss fs)))) s'

  open_with-scanned :
      (torn : Bool) (d' : FileData) (s' : SimStorage)
      → scan_segments true (paths s.files) at_start s
        ≡ (ok (passed at_start (all_frames ss fs) due torn e), s')
      → get (start n ss) s'.files ≡ some d'
      → open_with config now s ≡ (ok (found torn d' s'), s')
  unfolding open_with Storage.create_dir_all Storage.list_dir
  open_with-scanned torn d' s' h g = rw h (
      rw
        (ap (λ m. reopen (paths m) (length (all_frames ss fs)) s') files
          ∙ reopen-image n (length (all_frames ss fs)) ss d d' s' g)
        refl)

  -- The scan of all segments is what the scan of the active one leaves.
  scan_segments-active :
      (end : Scan)
      → Contents (start n ss) e fs tail (combined d)
      → ((k : ℕ)
          → length tail < k
          → scan k (start n ss) true (length (combined d)) due tail ≡ ([], end))
      → (q : Progress) × (scan_segments true (paths s.files) at_start s
          ≡ proceed (after_scan (start n ss) q e (fs, end) s) (scan_segments false []))
        × (q.frames ≡ sealed_frames ss)
        × (q.truncated ≡ false)
  unfolding scan_segments
  scan_segments-active end c t =
      let there : Found s.files (image n ss d) = rw files (Found-image n ss d sealed) in
      let (b, q, h, ex, fr, tr) = scan_segments-image true n ss d at_start s there sealed tt in
      (
        q,
        ap (λ m. scan_segments true (paths m) at_start s) files
            ∙ h
            ∙ ap (λ r. proceed r (scan_segments false []))
                (scan_segment-after b true (start n ss) (start n ss) e q s d fs tail end
                  (rw files (get-image n ss d sealed)) c ex t),
        fr,
        tr,
      )

  scan_segments-clean :
      (q : Progress)
      → q.frames ≡ sealed_frames ss
      → q.truncated ≡ false
      → proceed (after_scan (start n ss) q e (fs, at_end due) s) (scan_segments false [])
        ≡ (ok (passed at_start (all_frames ss fs) due false e), s)
  unfolding scan_segments after_scan
  scan_segments-clean q fr tr =
      ap₂
        (λ l t.
          (ok (record { frames = l ++ fs; expected_next = due; truncated = t; epoch = e }), s))
        fr tr

  -- A log that ends with a whole frame is opened as it is.
  pub open_with-clean :
      Contents (start n ss) e fs tail (combined d)
      → tail ≡ []
      → open_with config now s ≡ (ok (found false d s), s)
  open_with-clean c nil =
      let (q, h, fr, tr) = scan_segments-active (at_end due) c (λ k lt.
        ap (scan k (start n ss) true (length (combined d)) due) nil
        ∙ scan-end (start n ss) true _ due k (omega arith)) in
      open_with-scanned false d s (h ∙ scan_segments-clean q fr tr)
        (rw files (get-image n ss d sealed))

  -- The storage after the torn tail has been cut off.
  abbrev kept_len : ℕ
  kept_len = length (combined d) - length tail

  abbrev pub trimmed : SimStorage
  trimmed = record s { files = update (start n ss) (cut kept_len) s.files }

  scan_segments-torn :
      (q : Progress)
      → q.frames ≡ sealed_frames ss
      → proceed (after_scan (start n ss) q e (fs, torn_at kept_len due) s) (scan_segments false [])
        ≡ (ok (passed at_start (all_frames ss fs) due true e), trimmed)
  unfolding scan_segments after_scan
  scan_segments-torn q fr =
      rw (truncate-there (start n ss) s kept_len d (rw files (get-image n ss d sealed))) (
        ap
          (λ l. (
            ok (record { frames = l ++ fs; expected_next = due; truncated = true; epoch = e }),
            trimmed,
          ))
          fr)

  -- A log with a torn tail is opened with the frames in front of it, and the tail is cut off.
  pub open_with-torn :
      (x : FrameError)
      → Contents (start n ss) e fs tail (combined d)
      → 0 < length tail
      → read_from tail ≡ err x
      → open_with config now s ≡ (ok (found true (cut kept_len d) trimmed), trimmed)
  open_with-torn x c l r =
      let (q, h, fr, tr) =
        scan_segments-active (torn_at kept_len due) c
          (λ k lt. scan-torn (start n ss) _ due k tail x l r (omega arith)) in
      open_with-scanned true (cut kept_len d) trimmed (h ∙ scan_segments-torn q fr)
        (get-update (start n ss) (cut kept_len) d s.files (rw files (get-image n ss d sealed)))
