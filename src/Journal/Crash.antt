-- ===== src/Journal/Crash.antt =====
-- A crash, and the journal that is opened after it.
pub mod Recovers
use ticktape.Base.{
  ℕ, zero, suc, ◌+◌, ◌-◌, ◌<◌, ◌≤◌, ◌≡◌, ◌⊎◌, inl, inr, refl, sym, ap, ap₂, ◌∙◌, Bool, true, false,
  Option, List, [], ◌∷◌, ◌++◌, ltb, length, length-append, length-take, length-drop, take, drop,
  take-append-drop, take_behind, take_append, take_front, ok, err, arith, append-nil, append_assoc,
  Bool-cases, ltb→lt, ltb_false→le,
}
use ticktape.Base.Method.{Method}
use ticktape.Core.Frame.{Frame, FrameError, read_from, to_bytes}
use ticktape.Core.Frame.Runs.{Contiguous, frames_bytes, frames_bytes-append}
use ticktape.Core.Frame.Truncation.{read_from_truncated}
use ticktape.Sim.Rng.{Rng}
use ticktape.Sim.Storage.{
  SimStorage, FileData, Files, combined, crash_file, crash_files, crash, tear,
}
use ticktape.Journal.{JournalConfig, Journal, segment_header_bytes}
use ticktape.Journal.Log.{Sealed, sealed_data, image, start, sealed_frames, AllSealed}
use ticktape.Journal.Writer.{Active, active_frames, active_data, Holds}
use ticktape.Journal.Recovery.{Recovered, open_with}
use ticktape.Journal.Opened.{Contents}
use ticktape.Journal.Reopened.{open_with-clean, open_with-torn}

-- What is left of a file in a crash without torn sectors.
abbrev pub survivor : FileData → ℕ → FileData
survivor d k = record { synced = d.synced ++ take k d.unsynced; unsynced = [] }

crash_file-survivor :
    (d : FileData) (rng : Rng) → (k : ℕ) × ((crash_file false d rng).0 ≡ survivor d k)
unfolding crash_file tear
crash_file-survivor d rng = (_, refl)

take-nil {ℓ} : {A : Type ℓ} (k : ℕ) → take {A = A} k [] ≡ []
take-nil zero = refl
take-nil (suc k) = refl

-- Sealed segments are durable.
crash_file-sealed :
    (n : ℕ) (s : Sealed) (rng : Rng) → (crash_file false (sealed_data n s) rng).0 ≡ sealed_data n s
crash_file-sealed n s rng =
    let (k, e) = crash_file-survivor (sealed_data n s) rng in
    e
    ∙ ap (λ l. record { synced = l; unsynced = [] })
        (ap (λ t. (sealed_data n s).synced ++ t) (take-nil k) ∙ append-nil (sealed_data n s).synced)

pub crash_files-image :
    (n : ℕ) (ss : List Sealed) (d : FileData) (rng : Rng)
    → (k : ℕ) × ((crash_files false (image n ss d) rng).0 ≡ image n ss (survivor d k))
unfolding crash_files
crash_files-image n [] d rng =
    let (k, e) = crash_file-survivor d rng in (k, ap (λ x. (n, x) ∷ []) e)
crash_files-image n (s ∷ ss) d rng =
    let (k, e) =
      crash_files-image (n + length s.frames) ss d (crash_file false (sealed_data n s) rng).1 in
    (k, ap₂ (λ x m. (n, x) ∷ m) (crash_file-sealed n s rng) e)

-- Where a cut through the bytes of valid frames lies: behind some of them, and what it leaves of
-- the next one is not a frame.
pub record Cut (fs : List Frame) (k : ℕ) : Type 0 where
  pub whole : List Frame
  pub lost : List Frame
  pub torn : List ℕ
  pub split : fs ≡ whole ++ lost
  pub layout : take k (frames_bytes fs) ≡ frames_bytes whole ++ torn
  pub unreadable : (torn ≡ []) ⊎ ((0 < length torn) × (read_from torn ≡ err FrameError.truncated))

cut_in_frame :
    (n k : ℕ) (f : Frame) (fs : List Frame)
    → Contiguous n (f ∷ fs)
    → k < length (to_bytes f)
    → Cut (f ∷ fs) k
cut_in_frame n k f fs c h = record {
  whole = [];
  lost = f ∷ fs;
  torn = take k (to_bytes f);
  split = refl;
  layout = take_front (to_bytes f) (frames_bytes fs) k (omega arith);
  unreadable = go k refl (drop k (to_bytes f)) refl;
}
  where
    go :
        (m : ℕ)
        → m ≡ k
        → (back : List ℕ) → drop k (to_bytes f) ≡ back
        → (take k (to_bytes f) ≡ [])
          ⊎ ((0 < length (take k (to_bytes f)))
              × (read_from (take k (to_bytes f)) ≡ err FrameError.truncated))
    go zero e back b = inl (ap (λ j. take j (to_bytes f)) (sym e))
    go (suc m) e [] b = absurd (omega (arith, ap length b, length-drop k (to_bytes f)))
    go (suc m) e (x ∷ back) b = inr (
      omega (arith, e, length-take k (to_bytes f) (omega arith)),
      read_from_truncated f x (take k (to_bytes f)) back c.1
          (sym (take-append-drop k (to_bytes f)) ∙ ap (λ t. take k (to_bytes f) ++ t) b),
    )

pub cut_frames : (n k : ℕ) (fs : List Frame) → Contiguous n fs → Cut fs k
cut_frames n k [] c = record {
  whole = [];
  lost = [];
  torn = [];
  split = refl;
  layout = take-nil k;
  unreadable = inl refl;
}
cut_frames n k (f ∷ fs) c = elim (Bool-cases (ltb k (length (to_bytes f)))) [
  | inl inside ↦ cut_in_frame n k f fs c (ltb→lt _ _ inside)
  | inr behind ↦
      let rest = cut_frames (n + 1) (k - length (to_bytes f)) fs c.2 in
      record {
        whole = f ∷ rest.whole;
        lost = rest.lost;
        torn = rest.torn;
        split = ap (λ l. f ∷ l) rest.split;
        layout =
            take_behind (to_bytes f) (frames_bytes fs) k (ltb_false→le _ _ behind)
            ∙ ap (λ t. to_bytes f ++ t) rest.layout
            ∙ sym (append_assoc (to_bytes f) (frames_bytes rest.whole) rest.torn);
        unreadable = rest.unreadable;
      }
]
