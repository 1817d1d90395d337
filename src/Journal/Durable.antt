-- ===== src/Journal/Durable.antt =====
-- Appended frames and power loss.
use ticktape.Base.{
  ℕ, ◌+◌, ◌<◌, ◌≡◌, refl, sym, ap, ap₂, ◌∙◌, false, List, [], ◌∷◌, ◌++◌, length, ok, arith,
  append-nil,
}
use ticktape.Base.Result.{Result}
use ticktape.Core.Frame.{Frame}
use ticktape.Core.Frame.Runs.{Contiguous}
use ticktape.Sim.Rng.{Rng}
use ticktape.Sim.Storage.{crash}
use ticktape.Journal.{Journal, JournalConfig, JournalError, every_frame, append_batch}
use ticktape.Journal.Log.{Sealed, sealed_frames}
use ticktape.Journal.Writer.{Active, active_frames, Holds}
use ticktape.Journal.Writer.Commits.{Took}
use ticktape.Journal.Appends.{append_batch-Took}
use ticktape.Journal.Recovery.{Recovered, open_with}
use ticktape.Journal.Crash.Recovers.{open_with-crash}

nil-append {ℓ} : {A : Type ℓ} (xs ys : List A) → [] ≡ xs ++ ys → (xs ≡ []) × (ys ≡ [])
nil-append [] ys e = (refl, sym e)
nil-append (x ∷ xs) ys e = absurd (omega (arith, ap length e))

module _ (n : ℕ) (ss : List Sealed) (a : Active) (j : Journal) (positive : 0 < n) (fs : List Frame)
    (every : j.config.fsync ≡ every_frame) where
  -- Nothing that was taken under `EveryFrame` is lost.
  Took-crash :
      (r : Result JournalError (Unit {0}) × Journal) (config : JournalConfig) (now : ℕ) (rng : Rng)
      → Took n ss a j fs r
      → (answer : Recovered) × (open_with config now (crash false r.1.storage rng).0
          ≡ (ok answer, answer.journal.storage))
        × (answer.frames ≡ (sealed_frames ss ++ active_frames a) ++ fs)
        × (answer.journal.last_seq ≡ r.1.last_seq)
  Took-crash r config now rng t =
      let back = open_with-crash n t.sealed' t.active' t.journal' config now rng positive t.holds in
      let gone = t.all_durable every in
      let none_left = nil-append back.survived back.lost (sym gone ∙ back.split) in
      let same : t.journal' ≡ r.1 = sym (ap (λ x. x.1) t.succeeded) in
      (
        back.answer,
        ap (λ k. open_with config now (crash false k.storage rng).0) (sym same) ∙ back.opened,
        back.frames
            ∙ ap₂ (λ x y. (sealed_frames t.sealed' ++ t.active'.kept) ++ x) none_left.0 gone
            ∙ append-nil (sealed_frames t.sealed' ++ t.active'.kept)
            ∙ ap (λ x. sealed_frames t.sealed' ++ x)
                (sym (ap (λ v. t.active'.kept ++ v) gone ∙ append-nil t.active'.kept))
            ∙ t.stored,
        omega (arith, back.resumes, ap length none_left.1, ap (λ k. k.last_seq) same),
      )

-- A batch that was appended under `EveryFrame` survives power loss: opening the journal then gives
-- all frames before it and the batch, in order, and the journal continues behind it. This holds for
-- a journal whose files hold a gapless log, with a batch of valid frames from the next seq on, and
-- if no surviving byte is damaged.
pub append_batch-crash :
    (n : ℕ) (ss : List Sealed) (a : Active) (j : Journal) (now later : ℕ) (f : Frame)
    (fs : List Frame) (config : JournalConfig) (rng : Rng)
    → 0 < n
    → Holds n ss a j
    → j.config.fsync ≡ every_frame
    → Contiguous (j.last_seq + 1) (f ∷ fs)
    → let r = append_batch now (f ∷ fs) j in
      (r.0 ≡ ok tt)
      × (answer : Recovered) × (open_with config later (crash false r.1.storage rng).0
          ≡ (ok answer, answer.journal.storage))
      × (answer.frames ≡ (sealed_frames ss ++ active_frames a) ++ (f ∷ fs))
      × (answer.journal.last_seq ≡ r.1.last_seq)
append_batch-crash n ss a j now later f fs config rng positive h every run =
    let t = append_batch-Took n ss a j now f fs h run in
    let (answer, opened, frames, last) =
      Took-crash n ss a j positive (f ∷ fs) every (append_batch now (f ∷ fs) j) config later rng
        t in
    (ap (λ x. x.0) t.succeeded, answer, opened, frames, last)
