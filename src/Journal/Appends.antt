-- ===== src/Journal/Appends.antt =====
-- Appending to a journal that holds a log.
use ticktape.Base.{
  ℕ, ◌+◌, ◌<◌, ◌≡◌, refl, sym, ap, subst, ◌∙◌, inl, inr, true, false, List, [], ◌∷◌, length, ok,
  arith, append-nil, append_assoc, Bool-cases,
}
use ticktape.Base.Result.{Result}
use ticktape.Core.Frame.{Frame, to_bytes, write_to, encoded_len}
use ticktape.Core.Frame.Layout.{IsValid}
use ticktape.Core.Frame.Runs.{Contiguous, frames_bytes, write_frames, write_frames-append}
use ticktape.Core.Frame.Layout.{write_to-append}
use ticktape.Journal.{
  Journal, JournalError, needs_roll, commit_bytes, append, append_batch, check_run, commit_run,
  last_of,
}
use ticktape.Journal.Log.{Sealed, sealed_frames}
use ticktape.Journal.Log.Grown.{with_sealed, sealed_frames-with_sealed}
use ticktape.Journal.Writer.{Active, active_frames, Holds, fresh}
use ticktape.Journal.Writer.Writes.{roll_segment-Holds, retired}
use ticktape.Journal.Writer.Commits.{Took, Took-rolled, after_roll-Took, needs_roll-filled}

module _ (n : ℕ) (ss : List Sealed) (a : Active) (j : Journal) (h : Holds n ss a j) (now : ℕ)
    (f : Frame) (fs : List Frame) (run : Contiguous (j.last_seq + 1) (f ∷ fs)) where
  some_frames : 0 < length (f ∷ fs)
  some_frames = omega arith

  module _ (room : ℕ) (bytes : List ℕ) (last : ℕ) (encoded : bytes ≡ frames_bytes (f ∷ fs))
      (ends : last ≡ j.last_seq + length (f ∷ fs)) where
    abbrev committed : Result JournalError (Unit {0}) × Journal
    committed = commit_bytes now room bytes (length (f ∷ fs)) f.seq last j

    committed_in_place :
        needs_roll j.current room j.config.segment_bytes ≡ false → Took n ss a j (f ∷ fs) committed
    unfolding commit_bytes
    committed_in_place e = rw e (
        after_roll-Took n ss a j h (f ∷ fs) bytes last encoded run some_frames ends now
          j.config.fsync refl)

    committed_after_roll :
        needs_roll j.current room j.config.segment_bytes ≡ true
        → 0 < length (active_frames a)
        → Took n ss a j (f ∷ fs) committed
    unfolding commit_bytes
    committed_after_roll e filled =
        let old = retired n ss a j h now filled in
        let ss' = with_sealed ss old in
        let more = sealed_frames-with_sealed ss old in
        let (k, rolled, hk, c, l) =
          roll_segment-Holds n ss a j h now filled f.seq run.0 (run.1.seq_fits) in
        let run' : Contiguous (k.last_seq + 1) (f ∷ fs) = rw l run in
        rw e (
          rw rolled (
            Took-rolled (append-nil (sealed_frames ss') ∙ more)
              (append-nil (sealed_frames ss')
                ∙ more
                ∙ sym (append_assoc (sealed_frames ss) a.kept a.volatile))
              c
              (after_roll-Took n ss' (fresh j.epoch) k hk (f ∷ fs) bytes last encoded run'
                some_frames (ends ∙ ap (λ m. m + length (f ∷ fs)) (sym l)) now j.config.fsync
                (ap (λ x. x.fsync) (sym c)))))

    pub commit_bytes-Took : Took n ss a j (f ∷ fs) committed
    commit_bytes-Took = elim (Bool-cases (needs_roll j.current room j.config.segment_bytes)) [
      | inl roll ↦
          committed_after_roll roll (needs_roll-filled n ss a j h room j.config.segment_bytes roll)
      | inr stay ↦ committed_in_place stay
    ]

pub check_run-ok : (n : ℕ) (fs : List Frame) → Contiguous n fs → check_run n fs ≡ ok tt
unfolding check_run
check_run-ok n [] c = refl
check_run-ok n (f ∷ fs) c =
    let rest : Contiguous (f.seq + 1) fs = subst (λ m. Contiguous (m + 1) fs) (sym c.0) c.2 in
    ground (arith, c.0, check_run-ok (f.seq + 1) fs rest)

pub last_of-run :
    (n : ℕ) (f : Frame) (fs : List Frame)
    → Contiguous (n + 1) (f ∷ fs)
    → last_of f.seq fs ≡ n + length (f ∷ fs)
last_of-run n f [] c = ground (arith, c.0)
last_of-run n f (g ∷ fs) c = ground (arith, c.0, last_of-run (n + 1) g fs c.2)

-- The next frame is taken, and so is a run.
pub append-Took :
    (n : ℕ) (ss : List Sealed) (a : Active) (j : Journal) (now : ℕ) (f : Frame)
    → Holds n ss a j
    → IsValid f
    → f.seq ≡ j.last_seq + 1
    → Took n ss a j (f ∷ []) (append now f j)
unfolding append
append-Took n ss a j now f h v e = ground (
  arith,
  e,
  commit_bytes-Took n ss a j h now f [] (e, v, tt) (encoded_len f) (write_to f []) f.seq
      (write_to-append f [] ∙ sym (append-nil (to_bytes f))) (omega (arith, e)),
)

pub append_batch-Took :
    (n : ℕ) (ss : List Sealed) (a : Active) (j : Journal) (now : ℕ) (f : Frame) (fs : List Frame)
    → Holds n ss a j
    → Contiguous (j.last_seq + 1) (f ∷ fs)
    → Took n ss a j (f ∷ fs) (append_batch now (f ∷ fs) j)
unfolding append_batch commit_run
append_batch-Took n ss a j now f fs h run =
    let bytes = write_frames (f ∷ fs) [] in
    rw (check_run-ok (j.last_seq + 1) (f ∷ fs) run) (
      commit_bytes-Took n ss a j h now f fs run (length bytes) bytes (last_of f.seq fs)
        (write_frames-append (f ∷ fs) []) (last_of-run j.last_seq f fs run))
