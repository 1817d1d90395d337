-- ===== src/Journal/Filled.antt =====
-- A journal under `EveryFrame` and the frames it holds, from the first append on.
use ticktape.Base.{
  ℕ, ◌+◌, ◌^◌, ◌<◌, ◌≡◌, ◌≢◌, ◌⊎◌, inl, inr, refl, sym, ap, subst, ◌∙◌, none, List, [], ◌∷◌, ◌++◌,
  All, ok, err, arith, ◌==◌, Bool-cases, append-nil, length, length-append, ==_iff,
}
use ticktape.Base.Result.{Result, Result-cases}
use ticktape.Core.Frame.{Frame}
use ticktape.Core.Frame.Layout.{IsValid}
use ticktape.Core.Frame.Runs.{Contiguous}
use ticktape.Journal.{
  Journal, JournalError, append, append_batch, check_run, commit_run, every_frame,
  out_of_order_append,
}
use ticktape.Journal.Log.{Sealed, sealed_frames}
use ticktape.Journal.Writer.{Active, active_frames, Holds}
use ticktape.Journal.Writer.Commits.{Took}
use ticktape.Journal.Appends.{append-Took, append_batch-Took}
use ticktape.Journal.First.{append_first-Took, append_batch_first-Took}
use ticktape.Journal.Refusal.{append_out_of_order}

-- Opened on an empty disk, and not written yet.
pub record IsFresh (j : Journal) : Type 0 where
  pub nothing : j.current ≡ none
  pub empty : j.storage.files ≡ []
  pub unstarted : j.last_seq ≡ 0
  pub every : j.config.fsync ≡ every_frame
  pub fits : j.epoch < 256 ^ 8

pub record Logged (j : Journal) (fs : List Frame) : Type 0 where
  pub sealed : List Sealed
  pub active : Active
  pub holds : Holds 1 sealed active j
  pub frames : fs ≡ sealed_frames sealed ++ active_frames active
  pub some_frames : 0 < length fs
  pub every : j.config.fsync ≡ every_frame
  pub durable : active.volatile ≡ []

abbrev pub Filled : Journal → List Frame → Type 0
Filled j fs = (IsFresh j × (fs ≡ [])) ⊎ Logged j fs

-- The journal after a call that took `gs`.
Took-Logged :
    (n : ℕ) (ss : List Sealed) (a : Active) (j j' : Journal) (fs gs : List Frame)
    (r : Result JournalError (Unit {0}) × Journal)
    → n ≡ 1
    → fs ≡ sealed_frames ss ++ active_frames a
    → 0 < length gs
    → j.config.fsync ≡ every_frame
    → Took n ss a j gs r
    → r ≡ (ok tt, j')
    → Logged j' (fs ++ gs)
Took-Logged n ss a j j' fs gs r one e filled every t ret =
    let same : t.journal' ≡ j' = ap (λ x. x.1) (sym t.succeeded ∙ ret) in
    subst (λ k. Logged k (fs ++ gs)) same
      (record {
        sealed = t.sealed';
        active = t.active';
        holds = subst (λ m. Holds m t.sealed' t.active' t.journal') one t.holds;
        frames = ap (λ l. l ++ gs) e ∙ sym t.stored;
        some_frames = omega (arith, filled, length-append fs gs);
        every = ap (λ c. c.fsync) t.same_config ∙ every;
        durable = t.all_durable every;
      })

ok_or_refused :
    {x : JournalError} {k k' : Journal}
    → ◌≡◌ {A = Result JournalError (Unit {0}) × Journal} (err x, k) (ok tt, k')
    → ⊥
ok_or_refused e = cc

append-due :
    (now : ℕ) (f : Frame) (j j' : Journal) → append now f j ≡ (ok tt, j') → f.seq ≡ j.last_seq + 1
append-due now f j j' e = elim (Bool-cases (f.seq == j.last_seq + 1)) [
  | inl due ↦ (==_iff f.seq (j.last_seq + 1)).0 due
  | inr other ↦
      let apart : f.seq ≢ j.last_seq + 1 = ground (arith, other) in
      absurd (ok_or_refused (sym (append_out_of_order now f [] j apart).0 ∙ e))
]

-- A run that passes the check is gapless.
check_run-Contiguous :
    (n : ℕ) (fs : List Frame) → check_run n fs ≡ ok tt → All IsValid fs → Contiguous n fs
unfolding check_run
check_run-Contiguous n [] e v = tt
check_run-Contiguous n (f ∷ fs) e v = elim (Bool-cases (f.seq == n)) [
  | inl due ↦
      let at : f.seq ≡ n = (==_iff f.seq n).0 due in
      let rest : check_run (f.seq + 1) fs ≡ ok tt = sym (rw due refl) ∙ e in
      (
        at,
        v.0,
        subst (λ m. Contiguous (m + 1) fs) at (check_run-Contiguous (f.seq + 1) fs rest v.1),
      )
  | inr other ↦
      let stopped : check_run n (f ∷ fs) ≡ err (out_of_order_append n f.seq) = rw other refl in
      absurd (refused (sym stopped ∙ e))
]
  where
    refused : {x : JournalError} → ◌≡◌ {A = Result JournalError (Unit {0})} (err x) (ok tt) → ⊥
    refused e = cc

append_batch-due :
    (now : ℕ) (f : Frame) (fs : List Frame) (j j' : Journal)
    → append_batch now (f ∷ fs) j ≡ (ok tt, j')
    → check_run (j.last_seq + 1) (f ∷ fs) ≡ ok tt
unfolding append_batch commit_run
append_batch-due now f fs j j' e = elim (Result-cases (check_run (j.last_seq + 1) (f ∷ fs))) [
  | inl found ↦ found.1
  | inr lost ↦ absurd (ok_or_refused (ap (λ c. commit_run now (f ∷ fs) c j) (sym lost.1) ∙ e))
]

-- Frames that were accepted are the last ones that the journal holds.
pub append-Filled :
    (now : ℕ) (f : Frame) (j j' : Journal) (fs : List Frame)
    → IsValid f
    → Filled j fs
    → append now f j ≡ (ok tt, j')
    → Filled j' (fs ++ (f ∷ []))
append-Filled now f j j' fs v (inl (fr, none_yet)) e =
    let due = append-due now f j j' e in
    inr (
      Took-Logged f.seq [] _ _ j' fs (f ∷ []) _ (omega (arith, due, fr.unstarted)) none_yet
        (omega arith) fr.every (append_first-Took j now f v due fr.nothing fr.empty fr.fits) e)
append-Filled now f j j' fs v (inr l) e = inr (
    Took-Logged 1 l.sealed l.active j j' fs (f ∷ []) _ refl l.frames (omega arith) l.every
      (append-Took 1 l.sealed l.active j now f l.holds v (append-due now f j j' e)) e)

pub append_batch-Filled :
    (now : ℕ) (gs : List Frame) (j j' : Journal) (fs : List Frame)
    → All IsValid gs
    → Filled j fs
    → append_batch now gs j ≡ (ok tt, j')
    → Filled j' (fs ++ gs)
unfolding append_batch commit_run
append_batch-Filled now [] j j' fs v h e =
    let same : j ≡ j' = ap (λ (r : Result JournalError (Unit {0}) × Journal). r.1) e in
    subst (λ l. Filled j' l) (sym (append-nil fs)) (subst (λ k. Filled k fs) same h)
append_batch-Filled now (g ∷ gs) j j' fs v (inl (fr, none_yet)) e =
    let run = check_run-Contiguous (j.last_seq + 1) (g ∷ gs) (append_batch-due now g gs j j' e) v in
    inr (
      Took-Logged g.seq [] _ _ j' fs (g ∷ gs) _ (omega (arith, run.0, fr.unstarted)) none_yet
        (omega arith) fr.every (append_batch_first-Took j now g gs run fr.nothing fr.empty fr.fits)
        e)
append_batch-Filled now (g ∷ gs) j j' fs v (inr l) e =
    let run = check_run-Contiguous (j.last_seq + 1) (g ∷ gs) (append_batch-due now g gs j j' e) v in
    inr (
      Took-Logged 1 l.sealed l.active j j' fs (g ∷ gs) _ refl l.frames (omega arith) l.every
        (append_batch-Took 1 l.sealed l.active j now g gs l.holds run) e)
