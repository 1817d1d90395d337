-- ===== src/Journal/Opened.antt =====
-- What opening a journal finds, for the files of a log.
use ticktape.Base.{
  ℕ, suc, ◌+◌, ◌^◌, ◌<◌, ◌≡◌, refl, sym, ap, ◌∙◌, Bool, true, false, some, List, [], ◌∷◌, ◌++◌,
  length, length-append, drop, arith, append-nil, append_assoc,
}
use ticktape.Base.BTreeMap.{get}
use ticktape.Base.Method.{proceed}
use ticktape.Core.Frame.{Frame}
use ticktape.Core.Frame.Runs.{Contiguous, frames_bytes}
use ticktape.Sim.Storage
use ticktape.Sim.Storage.{SimStorage, SimFile, FileData, Files, combined, file_len, cut, paths}
use ticktape.Journal.{segment_header_bytes, parse_segment_header}
use ticktape.Journal.Header.{headed-rest, parse_segment_header-segment_header_bytes}
use ticktape.Journal.Recovery.{
  Scan, scan, at_end, Progress, after_scan, scan_contents, scan_segment, scan_segments, is_nil,
}
use ticktape.Journal.Scanned.{scan-frames, scan-end}
use ticktape.Journal.Log.{
  Sealed, sealed_data, image, start, sealed_frames, IsSealed, AllSealed, Found,
}

-- The contents of a segment: its header, frames, and a tail that the scan leaves.
pub record Contents (n e : ℕ) (fs : List Frame) (tail bytes : List ℕ) : Type 0 where
  pub first_fits : n < 256 ^ 8
  pub epoch_fits : e < 256 ^ 8
  pub gapless : Contiguous n fs
  pub layout : bytes ≡ segment_header_bytes n e ++ (frames_bytes fs ++ tail)

-- The first segment may start anywhere, the others where the one before has ended.
abbrev pub Expected : Bool → ℕ → Progress → Type 0
Expected true n p = Unit {0}
Expected false n p = p.expected_next ≡ n

scan_contents-after :
    (is_first is_last : Bool) (path n e : ℕ) (p : Progress) (bytes : List ℕ) (s : SimStorage)
    (r : List Frame × Scan)
    → Expected is_first n p
    → scan (suc (length bytes)) path is_last (length bytes) n (drop 28 bytes) ≡ r
    → scan_contents is_first is_last path p bytes (record { first_seq = n; epoch = e }) s
      ≡ after_scan path p e r s
unfolding scan_contents
scan_contents-after true is_last path n e p bytes s r x h = ground (arith, h)
scan_contents-after false is_last path n e p bytes s r x h = ground (arith, h, x)

module _ (is_first is_last : Bool) (path n e : ℕ) (p : Progress) (s : SimStorage) (d : FileData)
    (fs : List Frame) (tail : List ℕ) (end : Scan) where
  pub scan_segment-after :
      get path s.files ≡ some d
      → Contents n e fs tail (combined d)
      → Expected is_first n p
      → ((k : ℕ)
          → length tail < k
          → scan k path is_last (length (combined d)) (n + length fs) tail ≡ ([], end))
      → scan_segment is_first is_last path p s ≡ after_scan path p e (fs, end) s
  unfolding scan_segment Storage.read
  scan_segment-after g c x t =
      let bytes = combined d in
      let body = frames_bytes fs ++ tail in
      let behind = ap (drop 28) c.layout ∙ headed-rest n e body in
      rw g (
        rw
          (ap (parse_segment_header path) c.layout
            ∙ parse_segment_header-segment_header_bytes path n e body c.first_fits c.epoch_fits)
          (scan_contents-after is_first is_last path n e p bytes s (fs, end) x
            (ap (scan (suc (length bytes)) path is_last (length bytes) n) behind
              ∙ scan-frames path is_last (length bytes) (suc (length bytes)) n fs tail end c.gapless
                  (omega (arith, ap length c.layout, length-append (segment_header_bytes n e) body))
                  t)))

-- The loop's variables after the segments of a log, and after its last one.
abbrev pub passed : Progress → List Frame → ℕ → Bool → ℕ → Progress
passed p fs next torn e = record {
  frames = p.frames ++ fs;
  expected_next = next;
  truncated = torn;
  epoch = e;
}

passed-passed :
    (p : Progress) (fs gs : List Frame) (n m e e' : ℕ) (t u : Bool)
    → passed (passed p fs n t e) gs m u e' ≡ passed p (fs ++ gs) m u e'
passed-passed p fs gs n m e e' t u =
    ap (λ l. record { frames = l; expected_next = m; truncated = u; epoch = e' })
      (append_assoc p.frames fs gs)

sealed_data-Contents :
    (n : ℕ) (s : Sealed)
    → IsSealed n s
    → Contents n s.epoch s.frames [] (combined (sealed_data n s))
sealed_data-Contents n s h = record {
  first_fits = h.first_fits;
  epoch_fits = h.epoch_fits;
  gapless = h.gapless;
  layout =
      append-nil _
      ∙ ap (λ t. segment_header_bytes n s.epoch ++ t) (sym (append-nil (frames_bytes s.frames)));
}

is_nil-paths-image :
    (n : ℕ) (ss : List Sealed) (d : FileData) → is_nil (paths (image n ss d)) ≡ false
is_nil-paths-image n [] d = refl
is_nil-paths-image n (s ∷ ss) d = refl

-- A sealed segment in front is scanned to its end.
scan_segments-sealed :
    (is_first : Bool) (n : ℕ) (x : Sealed) (rest : List ℕ) (p : Progress) (s : SimStorage)
    → get n s.files ≡ some (sealed_data n x)
    → IsSealed n x
    → Expected is_first n p
    → is_nil rest ≡ false
    → scan_segments is_first (n ∷ rest) p s
      ≡ scan_segments false rest (passed p x.frames (n + length x.frames) p.truncated x.epoch) s
unfolding scan_segments after_scan
scan_segments-sealed is_first n x rest p s g h ex nil =
    ap (λ b. proceed (scan_segment is_first b n p s) (scan_segments false rest)) nil
    ∙ ap (λ r. proceed r (scan_segments false rest))
        (scan_segment-after is_first false n n x.epoch p s (sealed_data n x) x.frames []
          (at_end (n + length x.frames)) g (sealed_data-Contents n x h) ex
          (λ k lt. scan-end n false _ (n + length x.frames) k (omega arith)))

-- The scan of a log comes down to the scan of its active segment.
pub scan_segments-image :
    (is_first : Bool) (n : ℕ) (ss : List Sealed) (d : FileData) (p : Progress) (s : SimStorage)
    → Found s.files (image n ss d)
    → AllSealed n ss
    → Expected is_first n p
    → (b : Bool) × (q : Progress) × (scan_segments is_first (paths (image n ss d)) p s
        ≡ scan_segments b (start n ss ∷ []) q s)
      × Expected b (start n ss) q
      × (q.frames ≡ p.frames ++ sealed_frames ss)
      × (q.truncated ≡ p.truncated)
scan_segments-image is_first n [] d p s f h ex =
    (is_first, p, refl, ex, sym (append-nil p.frames), refl)
scan_segments-image is_first n (x ∷ ss) d p s f h ex =
    let next = n + length x.frames in
    let p' = passed p x.frames next p.truncated x.epoch in
    let (b, q, e, ex', fs, t) = scan_segments-image false next ss d p' s f.1 h.1 refl in
    (
      b,
      q,
      scan_segments-sealed is_first n x (paths (image next ss d)) p s f.0 h.0 ex
            (is_nil-paths-image next ss d)
          ∙ e,
      ex',
      fs ∙ append_assoc p.frames x.frames (sealed_frames ss),
      t,
    )
