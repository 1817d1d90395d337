-- ===== src/Journal/Restarted.antt =====
-- Power loss under `EveryFrame`, and the journal that is opened then.
use ticktape.Base.{
  ℕ, ◌+◌, ◌<◌, ◌≡◌, refl, sym, ap, ◌∙◌, inl, inr, false, none, List, [], ◌∷◌, ◌++◌, length, ok,
  arith, append-nil, append_assoc, length-append,
}
use ticktape.Core.Frame.{Frame}
use ticktape.Core.Frame.Runs.{Contiguous}
use ticktape.Sim.Rng.{Rng}
use ticktape.Sim.Storage.{SimStorage, crash, crash_files, create_dir_all, list_dir}
use ticktape.Journal.{Journal, JournalConfig}
use ticktape.Journal.Log.{Sealed, sealed_frames, AllSealed, start}
use ticktape.Journal.Writer.{active_frames}
use ticktape.Journal.Recovery.{Recovered, recovered, open_with, at_start, first_of}
use ticktape.Journal.Crash.Recovers.{open_with-crash}
use ticktape.Journal.Filled.{Filled}

open_with-empty :
    (config : JournalConfig) (now : ℕ) (s : SimStorage)
    → s.files ≡ []
    → open_with config now s ≡ (ok (recovered config now at_start none s), s)
unfolding open_with create_dir_all list_dir
open_with-empty config now s e = rw e refl

crash-empty : (s : SimStorage) (rng : Rng) → s.files ≡ [] → (crash false s rng).0.files ≡ []
unfolding crash crash_files
crash-empty s rng e = rw e refl

first_of-front :
    (n last : ℕ) (fs gs : List Frame)
    → Contiguous n fs
    → 0 < length fs
    → first_of (fs ++ gs) last ≡ n
first_of-front n last [] gs c h = absurd (omega arith)
first_of-front n last (f ∷ fs) gs c h = c.0

-- A log that is not empty starts at its first seq.
first_of-log :
    (n last : ℕ) (ss : List Sealed) (fs : List Frame)
    → AllSealed n ss
    → Contiguous (start n ss) fs
    → 0 < length (sealed_frames ss ++ fs)
    → first_of (sealed_frames ss ++ fs) last ≡ n
first_of-log n last [] fs h c filled =
    ap (λ l. first_of l last) (sym (append-nil fs)) ∙ first_of-front n last fs [] c filled
first_of-log n last (s ∷ ss) fs h c filled =
    ap (λ l. first_of l last) (append_assoc s.frames (sealed_frames ss) fs)
    ∙ first_of-front n last s.frames (sealed_frames ss ++ fs) h.0.gapless h.0.filled

-- All frames that were taken come back.
pub record Restarted (fs : List Frame) (outcome : Recovered) : Type 0 where
  pub frames : outcome.frames ≡ fs
  pub first : outcome.first_seq ≡ 1
  pub last : outcome.journal.last_seq ≡ length fs

pub start-length : (n : ℕ) (ss : List Sealed) → start n ss ≡ n + length (sealed_frames ss)
start-length n [] = omega arith
start-length n (s ∷ ss) =
    omega (arith, start-length (n + length s.frames) ss, length-append s.frames (sealed_frames ss))

nothing_lost {ℓ} : {A : Type ℓ} (xs ys : List A) → [] ≡ xs ++ ys → (xs ≡ []) × (ys ≡ [])
nothing_lost [] ys e = (refl, sym e)
nothing_lost (x ∷ xs) ys e = absurd (omega (arith, ap length e))

pub Filled-crash :
    (j : Journal) (fs : List Frame) (config : JournalConfig) (now : ℕ) (rng : Rng)
    → Filled j fs
    → (answer : Recovered) × (open_with config now (crash false j.storage rng).0
        ≡ (ok answer, answer.journal.storage))
      × Restarted fs answer
unfolding recovered
Filled-crash j fs config now rng (inl (fr, none_yet)) = (
  _,
  open_with-empty config now _ (crash-empty j.storage rng fr.empty),
  record { frames = sym none_yet; first = refl; last = sym (ap length none_yet) },
)
Filled-crash j fs config now rng (inr l) =
    let back = open_with-crash 1 l.sealed l.active j config now rng (omega arith) l.holds in
    let all : active_frames l.active ≡ l.active.kept =
      ap (λ v. l.active.kept ++ v) l.durable ∙ append-nil l.active.kept in
    let none_survived = nothing_lost back.survived back.lost (sym l.durable ∙ back.split) in
    let whole =
      back.frames
      ∙ ap (λ x. (sealed_frames l.sealed ++ l.active.kept) ++ x) none_survived.0
      ∙ append-nil (sealed_frames l.sealed ++ l.active.kept)
      ∙ ap (λ x. sealed_frames l.sealed ++ x) (sym all) in
    (
      back.answer,
      back.opened,
      record {
        frames = whole ∙ sym l.frames;
        first =
            back.first
            ∙ ap (λ x. first_of x (back.answer.journal.last_seq + 1)) whole
            ∙ first_of-log 1 (back.answer.journal.last_seq + 1) l.sealed (active_frames l.active)
                l.holds.sealed l.holds.gapless (omega (arith, l.some_frames, ap length l.frames));
        last = omega (
          arith,
          back.resumes,
          ap length none_survived.1,
          l.holds.last,
          start-length 1 l.sealed,
          length-append (sealed_frames l.sealed) (active_frames l.active),
          ap length l.frames,
        );
      },
    )
