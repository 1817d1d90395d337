-- ===== src/Journal/Compaction.antt =====
-- What compaction removes.
use ticktape.Base.{
  ℕ, ◌+◌, ◌≤◌, ◌≡◌, refl, sym, ap, subst, ◌∙◌, Bool, true, false, List, [], ◌∷◌, ◌++◌, ltb, leb,
  length, All, ok, arith, if◌then◌else◌, Bool-cases, inl, inr,
}
use ticktape.Base.Result.{Result}
use ticktape.Base.Method.{proceed, returns, ◌>>◌}
use ticktape.Base.BTreeMap.{get, remove}
use ticktape.Core.Frame.{Frame}
use ticktape.Core.Frame.Runs.{Contiguous}
use ticktape.Sim.Storage
use ticktape.Sim.Storage.{SimStorage, FileData, Files, paths, if_present}
use ticktape.Journal.{
  Journal, JournalError, remove_covered, compact_below, one_more, lifted, on_storage,
}
use ticktape.Journal.Log.{Sealed, image, start}
use ticktape.Journal.Writer.{Active, active_data, Holds}

abbrev pub UpTo : ℕ → List Frame → Type 0
UpTo cutoff = All (λ f. f.seq ≤ cutoff)

run-UpTo :
    (n cutoff : ℕ) (fs : List Frame) → Contiguous n fs → n + length fs ≤ cutoff + 1 → UpTo cutoff fs
run-UpTo n cutoff [] c h = tt
run-UpTo n cutoff (f ∷ fs) c h = (omega (arith, c.0), run-UpTo (n + 1) cutoff fs c.2 (omega arith))

-- The journal holds the log without the segments of `gone`, in the same active segment.
pub record Compacted (n : ℕ) (ss : List Sealed) (a : Active) (j : Journal) (cutoff : ℕ)
    (r : Result JournalError ℕ × Journal) : Type 0 where
  pub gone : List Sealed
  pub left : List Sealed
  pub journal' : Journal
  pub succeeded : r ≡ (ok (length gone), journal')
  pub split : ss ≡ gone ++ left
  pub covered : All (λ s. UpTo cutoff s.frames) gone
  pub holds : Holds (start n gone) left a journal'
  pub same_last : journal'.last_seq ≡ j.last_seq

untouched :
    (n : ℕ) (ss : List Sealed) (a : Active) (j : Journal) (cutoff : ℕ)
    → Holds n ss a j
    → Compacted n ss a j cutoff (ok 0, j)
untouched n ss a j cutoff h = record {
  gone = [];
  left = ss;
  journal' = j;
  succeeded = refl;
  split = refl;
  covered = tt;
  holds = h;
  same_last = refl;
}

module _ (n : ℕ) (s : Sealed) (ss : List Sealed) (a : Active) (j : Journal)
    (h : Holds n (s ∷ ss) a j) where
  abbrev next : ℕ
  next = n + length s.frames

  abbrev without : Journal
  without = record j {
    storage = record j.storage { files = image next ss (active_data (start next ss) a) };
  }

  without-Holds : Holds next ss a without
  without-Holds = record {
    files = refl;
    sealed = h.sealed.1;
    first_fits = h.first_fits;
    epoch_fits = h.epoch_fits;
    next_epoch_fits = h.next_epoch_fits;
    gapless = h.gapless;
    last = h.last;
    size = h.size;
    count = h.count;
    opened = h.opened;
    counted = h.counted;
    clean = h.clean;
  }

  remove_file-first : on_storage (Storage.remove_file n) j ≡ (ok tt, without)
  unfolding Storage.remove_file remove get
  remove_file-first =
      ap (λ fs. lifted j (if_present (get n fs) (remove n fs) j.storage)) h.files ∙ ground arith

paths-image :
    (n : ℕ) (ss : List Sealed) (d : FileData) → (rest : List ℕ) × (paths (image n ss d) ≡ n ∷ rest)
paths-image n [] d = ([], refl)
paths-image n (s ∷ ss) d = (paths (image (n + length s.frames) ss d), refl)

remove_covered-over :
    (p q cutoff : ℕ) (rest : List ℕ) (j : Journal)
    → leb q (cutoff + 1) ≡ true
    → remove_covered cutoff (p ∷ q ∷ rest) j
      ≡ proceed
          (on_storage (Storage.remove_file p) j)
          (λ _ k. one_more (remove_covered cutoff (q ∷ rest) k))
unfolding remove_covered
remove_covered-over p q cutoff rest j e = rw e refl

remove_covered-stop :
    (p q cutoff : ℕ) (rest : List ℕ) (j : Journal)
    → leb q (cutoff + 1) ≡ false
    → remove_covered cutoff (p ∷ q ∷ rest) j ≡ (ok 0, j)
unfolding remove_covered
remove_covered-stop p q cutoff rest j e = rw e refl

-- One segment more is gone.
one_more-Compacted :
    (n : ℕ) (s : Sealed) (ss : List Sealed) (a : Active) (j : Journal) (cutoff : ℕ)
    (h : Holds n (s ∷ ss) a j) (r : Result JournalError ℕ × Journal)
    → UpTo cutoff s.frames
    → Compacted (n + length s.frames) ss a (without n s ss a j h) cutoff r
    → Compacted n (s ∷ ss) a j cutoff (one_more r)
one_more-Compacted n s ss a j cutoff h r up t = record {
  gone = s ∷ t.gone;
  left = t.left;
  journal' = t.journal';
  succeeded = ap one_more t.succeeded ∙ ap (λ m. (ok m, t.journal')) (omega arith);
  split = ap (λ l. s ∷ l) t.split;
  covered = (up, t.covered);
  holds = t.holds;
  same_last = t.same_last;
}

remove_covered-Compacted :
    (n : ℕ) (ss : List Sealed) (a : Active) (j : Journal) (cutoff : ℕ)
    → Holds n ss a j
    → Compacted n ss a j cutoff
        (remove_covered cutoff (paths (image n ss (active_data (start n ss) a))) j)
unfolding remove_covered
remove_covered-Compacted n [] a j cutoff h = untouched n [] a j cutoff h
remove_covered-Compacted n (s ∷ ss) a j cutoff h =
    let q = n + length s.frames in
    let d = active_data (start q ss) a in
    let (rest, e) = paths-image q ss d in
    let j' = without n s ss a j h in
    let all = ap (λ ps. remove_covered cutoff (n ∷ ps) j) e in
    elim (Bool-cases (leb q (cutoff + 1))) [
      | inl over ↦
          subst (Compacted n (s ∷ ss) a j cutoff)
            (sym (
              all
              ∙ remove_covered-over n q cutoff rest j over
              ∙ ap (λ r. proceed r (λ _ k. one_more (remove_covered cutoff (q ∷ rest) k)))
                  (remove_file-first n s ss a j h)
              ∙ ap (λ ps. one_more (remove_covered cutoff ps j')) (sym e)))
            (one_more-Compacted n s ss a j cutoff h _
              (run-UpTo n cutoff s.frames h.sealed.0.gapless (ground (arith, over)))
              (remove_covered-Compacted q ss a j' cutoff (without-Holds n s ss a j h)))
      | inr stop ↦
          subst (Compacted n (s ∷ ss) a j cutoff)
            (sym (all ∙ remove_covered-stop n q cutoff rest j stop))
            (untouched n (s ∷ ss) a j cutoff h)
    ]

sync_dir-returns :
    (b : Bool) (m : ℕ) (k : Journal)
    → ((if b then on_storage Storage.sync_dir else returns tt) >> returns m) k ≡ (ok m, k)
unfolding Storage.sync_dir
sync_dir-returns true m k = refl
sync_dir-returns false m k = refl

-- In a journal whose files hold a gapless log, compaction removes some of the oldest segments,
-- which hold seqs up to the cutoff only, and keeps the rest of the log, the active segment
-- included.
pub compact_below-Compacted :
    (n : ℕ) (ss : List Sealed) (a : Active) (j : Journal) (cutoff : ℕ)
    → Holds n ss a j
    → Compacted n ss a j cutoff (compact_below cutoff j)
unfolding compact_below Storage.list_dir
compact_below-Compacted n ss a j cutoff h =
    let t = remove_covered-Compacted n ss a j cutoff h in
    record {
      gone = t.gone;
      left = t.left;
      journal' = t.journal';
      succeeded =
          ap
            (λ m. proceed (remove_covered cutoff (paths m) j) (λ removed.
              (if ltb 0 removed then on_storage Storage.sync_dir else returns tt)
              >> returns removed))
            h.files
          ∙ ap
              (λ r. proceed r (λ removed.
                (if ltb 0 removed then on_storage Storage.sync_dir else returns tt)
                >> returns removed))
              t.succeeded
          ∙ sync_dir-returns (ltb 0 (length t.gone)) (length t.gone) t.journal';
      split = t.split;
      covered = t.covered;
      holds = t.holds;
      same_last = t.same_last;
    }
