-- ===== src/Journal/Crash/Recovers.antt =====
-- What is recovered after power loss.
use ticktape.Base.{
  ℕ, ◌+◌, ◌-◌, ◌<◌, ◌≡◌, inl, inr, refl, sym, ap, subst, ◌∙◌, Bool, true, false, List, [], ◌∷◌,
  ◌++◌, length, length-append, ok, arith, append-nil, append_assoc,
}
use ticktape.Base.Result.{Result}
use ticktape.Core.Frame.{Frame, FrameError}
use ticktape.Core.Frame.Runs.{Contiguous, frames_bytes, frames_bytes-append}
use ticktape.Sim.Rng.{Rng}
use ticktape.Sim.Storage.{SimStorage, FileData, combined, cut, crash, crash_files}
use ticktape.Journal.{JournalConfig, Journal, segment_header_bytes}
use ticktape.Journal.Log.{Sealed, image, start, sealed_frames, le-start}
use ticktape.Journal.Writer.{Active, active_frames, active_data, Holds}
use ticktape.Journal.Recovery.{Stop, Recovered, recovered, open_with, first_of}
use ticktape.Journal.Opened.{Contents}
use ticktape.Journal.Reopened.{open_with-clean, open_with-torn, found, trimmed}
use ticktape.Journal.Crash.{survivor, crash_files-image, Cut, cut_frames}

-- Opening succeeded with the frames `kept` and a prefix of `volatile`, and goes on behind them;
-- `next` is the seq that was due before.
pub record Recovers (kept volatile : List Frame) (next : ℕ)
    (outcome : Result Stop Recovered × SimStorage) : Type 0 where
  pub answer : Recovered
  pub survived : List Frame
  pub lost : List Frame
  pub opened : outcome ≡ (ok answer, answer.journal.storage)
  pub split : volatile ≡ survived ++ lost
  pub frames : answer.frames ≡ kept ++ survived
  pub resumes : answer.journal.last_seq + 1 + length lost ≡ next
  pub first : answer.first_seq ≡ first_of answer.frames (answer.journal.last_seq + 1)

append-Contiguous_left : (n : ℕ) (fs gs : List Frame) → Contiguous n (fs ++ gs) → Contiguous n fs
append-Contiguous_left n [] gs c = tt
append-Contiguous_left n (f ∷ fs) gs c = (c.0, c.1, append-Contiguous_left (n + 1) fs gs c.2)

append-Contiguous_right :
    (n m : ℕ) (fs gs : List Frame) → m ≡ n + length fs → Contiguous n (fs ++ gs) → Contiguous m gs
append-Contiguous_right n m [] gs e c = subst (λ q. Contiguous q gs) (omega (arith, e)) c
append-Contiguous_right n m (f ∷ fs) gs e c =
    append-Contiguous_right (n + 1) m fs gs (omega arith) c.2

module _ (n : ℕ) (ss : List Sealed) (a : Active) (j : Journal) (h : Holds n ss a j)
    (positive : 0 < n) (config : JournalConfig) (now k : ℕ) (s : SimStorage)
    (files : s.files ≡ image n ss (survivor (active_data (start n ss) a) k)) where
  abbrev c : Cut a.volatile k
  c =
      cut_frames (start n ss + length a.kept) k a.volatile
        (append-Contiguous_right (start n ss) _ a.kept a.volatile refl h.gapless)

  abbrev left : List Frame
  left = a.kept ++ c.whole

  abbrev d : FileData
  d = survivor (active_data (start n ss) a) k

  all_split : active_frames a ≡ left ++ c.lost
  all_split = ap (λ v. a.kept ++ v) c.split ∙ sym (append_assoc a.kept c.whole c.lost)

  d-Contents : Contents (start n ss) a.epoch left c.torn (combined d)
  d-Contents = record {
    first_fits = h.first_fits;
    epoch_fits = h.epoch_fits;
    gapless = append-Contiguous_left (start n ss) left c.lost (rw (sym all_split) h.gapless);
    layout =
        append-nil d.synced
        ∙ append_assoc (segment_header_bytes (start n ss) a.epoch) (frames_bytes a.kept) _
        ∙ ap (λ t. segment_header_bytes (start n ss) a.epoch ++ t)
            (ap (λ t. frames_bytes a.kept ++ t) c.layout
              ∙ sym (append_assoc (frames_bytes a.kept) (frames_bytes c.whole) c.torn)
              ∙ ap (λ t. t ++ c.torn) (sym (frames_bytes-append a.kept c.whole)));
  }

  found-Recovers :
      (torn : Bool) (d' : FileData) (s' : SimStorage)
      → open_with config now s
        ≡ (ok (found config now n a.epoch ss left c.torn d s files h.sealed torn d' s'), s')
      → Recovers (sealed_frames ss ++ a.kept) a.volatile (j.last_seq + 1) (open_with config now s)
  unfolding recovered
  found-Recovers torn d' s' e = record {
    answer = found config now n a.epoch ss left c.torn d s files h.sealed torn d' s';
    survived = c.whole;
    lost = c.lost;
    opened = e;
    split = c.split;
    frames = sym (append_assoc (sealed_frames ss) a.kept c.whole);
    resumes =
        omega
          (arith, positive, le-start n ss, h.last, ap length all_split, length-append left c.lost);
    first = refl;
  }

  pub open_with-Recovers :
      Recovers (sealed_frames ss ++ a.kept) a.volatile (j.last_seq + 1) (open_with config now s)
  open_with-Recovers = elim c.unreadable [
    | inl nil ↦
        found-Recovers false d s
          (open_with-clean config now n a.epoch ss left c.torn d s files h.sealed d-Contents nil)
    | inr torn ↦
        found-Recovers true (cut (length (combined d) - length c.torn) d)
          (trimmed config now n a.epoch ss left c.torn d s files h.sealed)
          (open_with-torn config now n a.epoch ss left c.torn d s files h.sealed
            FrameError.truncated d-Contents torn.0 torn.1)
  ]

-- After power loss that damages no surviving byte, a journal whose files hold a gapless log is
-- opened with all its durable frames and a prefix of the others, in order, also when the cut goes
-- through a frame. The last seq of the opened journal is behind that of the lost journal by the
-- number of lost frames.
pub open_with-crash :
    (n : ℕ) (ss : List Sealed) (a : Active) (j : Journal) (config : JournalConfig) (now : ℕ)
    (rng : Rng)
    → 0 < n
    → Holds n ss a j
    → Recovers
        (sealed_frames ss ++ a.kept)
        a.volatile
        (j.last_seq + 1)
        (open_with config now (crash false j.storage rng).0)
unfolding crash
open_with-crash n ss a j config now rng positive h =
    let (k, e) = crash_files-image n ss (active_data (start n ss) a) rng in
    open_with-Recovers n ss a j h positive config now k (crash false j.storage rng).0
      (ap (λ m. (crash_files false m rng).0) h.files ∙ e)
