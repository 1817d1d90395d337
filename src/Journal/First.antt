-- ===== src/Journal/First.antt =====
-- The first frames of a journal that was opened on an empty disk.
use ticktape.Base.{
  ℕ, ◌+◌, ◌^◌, ◌<◌, ◌≡◌, refl, sym, ap, ◌∙◌, true, none, List, [], ◌∷◌, length, ok, arith,
  append-nil,
}
use ticktape.Base.Method.{proceed}
use ticktape.Base.BTreeMap.{get, insert}
use ticktape.Core.Frame.{Frame, to_bytes, write_to, encoded_len}
use ticktape.Core.Frame.Layout.{IsValid, write_to-append}
use ticktape.Core.Frame.Runs.{Contiguous, frames_bytes, write_frames, write_frames-append}
use ticktape.Sim.Storage.{empty_file}
use ticktape.Journal.{
  Journal, append, append_batch, commit_run, sync, sync_open, roll_segment, commit_bytes,
  needs_roll, start_segment, last_of,
}
use ticktape.Journal.Writer.{Holds, fresh}
use ticktape.Journal.Writer.Segments.{started, start_segment-started, started-Holds}
use ticktape.Journal.Writer.Commits.{Took, after_roll-Took}
use ticktape.Journal.Appends.{check_run-ok, last_of-run}

module _ (j : Journal) (now : ℕ) (f : Frame) (fs : List Frame)
    (run : Contiguous (j.last_seq + 1) (f ∷ fs)) (nothing : j.current ≡ none)
    (empty : j.storage.files ≡ []) (fits : j.epoch < 256 ^ 8) where
  abbrev pub stamped : Journal
  stamped = record j { last_sync = now }

  sync-stamped : sync now j ≡ (ok tt, stamped)
  unfolding sync sync_open
  sync-stamped = rw nothing refl

  pub first_absent : get f.seq stamped.storage.files ≡ none
  unfolding get
  first_absent = ap (get f.seq) empty

  pub first_placed : insert f.seq empty_file stamped.storage.files ≡ (f.seq, empty_file) ∷ []
  unfolding insert
  first_placed = ap (insert f.seq empty_file) empty

  abbrev pub first_started : Journal
  first_started = started f.seq f.seq [] stamped first_absent first_placed tt refl

  first-Holds : Holds f.seq [] (fresh j.epoch) first_started
  first-Holds =
      started-Holds f.seq f.seq [] stamped first_absent first_placed tt refl run.1.seq_fits fits
        (sym run.0)

  first_rolled : roll_segment now f.seq j ≡ (ok tt, first_started)
  unfolding roll_segment
  first_rolled =
      ap (λ r. proceed r (λ _. start_segment f.seq)) sync-stamped
      ∙ start_segment-started f.seq f.seq [] stamped first_absent first_placed tt refl

  first_needs_roll : (room : ℕ) → needs_roll j.current room j.config.segment_bytes ≡ true
  unfolding needs_roll
  first_needs_roll room = ap (λ o. needs_roll o room j.config.segment_bytes) nothing

  some_frames : 0 < length (f ∷ fs)
  some_frames = omega arith

  commit_first-Took :
      (room : ℕ) (bytes : List ℕ) (last : ℕ)
      → bytes ≡ frames_bytes (f ∷ fs)
      → last ≡ j.last_seq + length (f ∷ fs)
      → Took f.seq []
          (fresh j.epoch)
          first_started
          (f ∷ fs)
          (commit_bytes now room bytes (length (f ∷ fs)) f.seq last j)
  unfolding commit_bytes
  commit_first-Took room bytes last encoded ends = rw (first_needs_roll room) (
      rw first_rolled (
        after_roll-Took f.seq [] (fresh j.epoch) first_started first-Holds (f ∷ fs) bytes last
          encoded run some_frames ends now j.config.fsync refl))

  -- The first run starts a log at its seq.
  pub append_batch_first-Took :
      Took f.seq [] (fresh j.epoch) first_started (f ∷ fs) (append_batch now (f ∷ fs) j)
  unfolding append_batch commit_run
  append_batch_first-Took =
      let bytes = write_frames (f ∷ fs) [] in
      rw (check_run-ok (j.last_seq + 1) (f ∷ fs) run) (
        commit_first-Took (length bytes) bytes (last_of f.seq fs) (write_frames-append (f ∷ fs) [])
          (last_of-run j.last_seq f fs run))

-- The first frame starts a log at its seq.
pub append_first-Took :
    (j : Journal) (now : ℕ) (f : Frame) (v : IsValid f) (at : f.seq ≡ j.last_seq + 1)
    (nothing : j.current ≡ none) (empty : j.storage.files ≡ []) (fits : j.epoch < 256 ^ 8)
    → Took f.seq []
        (fresh j.epoch)
        (first_started j now f [] (at, v, tt) nothing empty fits)
        (f ∷ [])
        (append now f j)
unfolding append
append_first-Took j now f v at nothing empty fits = ground (
  arith,
  at,
  commit_first-Took j now f [] (at, v, tt) nothing empty fits (encoded_len f) (write_to f []) f.seq
      (write_to-append f [] ∙ sym (append-nil (to_bytes f))) (omega (arith, at)),
)
