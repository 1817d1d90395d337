-- ===== src/Journal/Scanned.antt =====
-- What the scan of a segment finds.
use ticktape.Base.{
  ℕ, zero, suc, ◌+◌, ◌-◌, ◌<◌, ◌≡◌, refl, sym, ap, ◌∙◌, ◌≢◌, Bool, true, List, [], ◌∷◌, ◌++◌,
  length, ok, err, arith, append_assoc, Result-cases, inl, inr,
}
use ticktape.Core.Frame.{Frame, FrameError, read_from, to_bytes}
use ticktape.Core.Frame.Runs.{Contiguous, frames_bytes}
use ticktape.Core.Frame.RoundTrip.{read_from-to_bytes}
use ticktape.Core.Frame.Exact.{read_from-shorter}
use ticktape.Journal.Recovery.{Scan, scan, at_end, torn_at, out_of_fuel}

module _ (path : ℕ) (is_last : Bool) (size : ℕ) where
  scan-frame :
      (fuel : ℕ) (f : Frame) (cursor rest : List ℕ)
      → read_from cursor ≡ ok (f, rest)
      → scan (suc fuel) path is_last size f.seq cursor ≡ (
        f ∷ (scan fuel path is_last size (f.seq + 1) rest).0,
        (scan fuel path is_last size (f.seq + 1) rest).1,
      )
  unfolding scan
  scan-frame fuel f [] rest e = absurd (omega (arith, read_from-shorter [] f rest e))
  scan-frame fuel f (b ∷ cursor) rest e = rw (e, scan) (ground arith)

  -- Valid frames that follow each other are found, up to what stands behind them.
  pub scan-frames :
      (fuel n : ℕ) (fs : List Frame) (tail : List ℕ) (end : Scan)
      → Contiguous n fs
      → length (frames_bytes fs ++ tail) < fuel
      → ((k : ℕ) → length tail < k → scan k path is_last size (n + length fs) tail ≡ ([], end))
      → scan fuel path is_last size n (frames_bytes fs ++ tail) ≡ (fs, end)
  scan-frames fuel n [] tail end c h t =
      ap (λ m. scan fuel path is_last size m tail) (omega arith) ∙ t fuel h
  scan-frames zero n (f ∷ fs) tail end c h t = absurd (omega arith)
  scan-frames (suc fuel) n (f ∷ fs) tail end (e, v, c) h t =
      let cursor = (to_bytes f ++ frames_bytes fs) ++ tail in
      let found =
        ap read_from (append_assoc (to_bytes f) (frames_bytes fs) tail)
        ∙ read_from-to_bytes f v (frames_bytes fs ++ tail) in
      ap (λ m. scan (suc fuel) path is_last size m cursor) (sym e)
      ∙ scan-frame fuel f cursor _ found
      ∙ ap (λ r. (f ∷ r.0, r.1))
          (ap (λ m. scan fuel path is_last size (m + 1) (frames_bytes fs ++ tail)) e
            ∙ scan-frames fuel (n + 1) fs tail end c
                (omega (arith, read_from-shorter cursor f (frames_bytes fs ++ tail) found))
                (λ k lt. ap (λ m. scan k path is_last size m tail) (omega arith) ∙ t k lt))

  pub scan-end : (n k : ℕ) → 0 < k → scan k path is_last size n [] ≡ ([], at_end n)
  unfolding scan
  scan-end n zero h = absurd (omega arith)
  scan-end n (suc k) h = refl

  -- With more fuel than bytes the scan comes to an end.
  pub scan-ne-out_of_fuel :
      (fuel n : ℕ) (cursor : List ℕ)
      → length cursor < fuel
      → (scan fuel path is_last size n cursor).1 ≢ out_of_fuel
  unfolding scan
  scan-ne-out_of_fuel zero n cursor h = absurd (omega arith)
  scan-ne-out_of_fuel (suc fuel) n [] h = λ e. cc
  scan-ne-out_of_fuel (suc fuel) n (b ∷ cursor) h = elim (Result-cases (read_from (b ∷ cursor))) [
    | inl found ↦
        let ((f, rest), e) = found in
        rw (e, scan)
          (ground (
            arith,
            scan-ne-out_of_fuel fuel (f.seq + 1) rest
                (omega (arith, read_from-shorter (b ∷ cursor) f rest e)),
          ))
    | inr lost ↦ let (e, p) = lost in rw (p, scan) (ground arith)
  ]

pub scan-torn :
    (path size n k : ℕ) (tail : List ℕ) (e : FrameError)
    → 0 < length tail
    → read_from tail ≡ err e
    → 0 < k
    → scan k path true size n tail ≡ ([], torn_at (size - length tail) n)
unfolding scan
scan-torn path size n k [] e l r h = absurd (omega arith)
scan-torn path size n zero (b ∷ tail) e l r h = absurd (omega arith)
scan-torn path size n (suc k) (b ∷ tail) e l r h = rw (r, scan) refl
