-- ===== src/Journal/Snapshots/Retention.antt =====
-- Which snapshots are deleted.
use ticktape.Base.{
  ℕ, zero, suc, ◌-◌, ◌<◌, ◌≤◌, ◌≡◌, refl, sym, ap, ap₂, ◌∙◌, inl, inr, some, [], ◌∷◌, ◌++◌,
  All-append, length, take, drop, ltb, if◌then◌else◌, max, ok, arith, append_assoc, Bool-cases,
  ltb_false→le,
}
use ticktape.Base.Method.{proceed, returns, ◌>>◌}
use ticktape.Base.BTreeMap.{get, remove, Ascending}
use ticktape.Sim.Storage.{
  FileData, Files, SimStorage, paths, list_dir, sync_dir, remove_file, if_present,
}
use ticktape.Journal.Snapshots.{purge, purge_after, remove_all, prune, prune_keep_newest}
use ticktape.Journal.Snapshots.Latest.{AllBefore}
use mathlib.Core.List.{head?}

-- The snapshots that are not newer than `max_seq`.
abbrev pub kept_up_to : ℕ → Files → Files
kept_up_to max_seq [] = []
kept_up_to max_seq ((p, d) ∷ files) =
    if ltb max_seq p then kept_up_to max_seq files else (p, d) ∷ kept_up_to max_seq files

get-between :
    (p : ℕ) (d : FileData) (front rest : Files)
    → AllBefore p front
    → get p (front ++ ((p, d) ∷ rest)) ≡ some d
unfolding get
get-between p d [] rest h = ground arith
get-between p d ((q, e) ∷ front) rest h = ground (arith, h.0, get-between p d front rest h.1)

remove-between :
    (p : ℕ) (d : FileData) (front rest : Files)
    → AllBefore p front
    → remove p (front ++ ((p, d) ∷ rest)) ≡ front ++ rest
unfolding remove
remove-between p d [] rest h = ground arith
remove-between p d ((q, e) ∷ front) rest h = ground (arith, h.0, remove-between p d front rest h.1)

remove_file-between :
    (p : ℕ) (d : FileData) (front rest : Files) (s : SimStorage)
    → s.files ≡ front ++ ((p, d) ∷ rest)
    → AllBefore p front
    → remove_file p s ≡ (ok tt, record s { files = front ++ rest })
unfolding remove_file
remove_file-between p d front rest s e h =
    ap (λ fs. if_present (get p fs) (remove p fs) s) e
    ∙ ap₂ (λ o fs. if_present o fs s) (get-between p d front rest h)
        (remove-between p d front rest h)

AllBefore-weaken : (a b : ℕ) (files : Files) → a ≤ b → AllBefore a files → AllBefore b files
AllBefore-weaken a b [] le h = tt
AllBefore-weaken a b ((p, d) ∷ files) le h = (omega (arith, h.0), AllBefore-weaken a b files le h.1)

purge-kept :
    (max_seq n : ℕ) (front rest : Files) (s : SimStorage)
    → s.files ≡ front ++ rest
    → AllBefore n front
    → Ascending n rest
    → purge max_seq (paths rest) s ≡ (ok tt, record s { files = front ++ kept_up_to max_seq rest })
unfolding purge
purge-kept max_seq n front [] s e h a = ap (λ fs. (ok tt, record s { files = fs })) e
purge-kept max_seq n front ((p, d) ∷ rest) s e h a = elim (Bool-cases (ltb max_seq p)) [
  | inl newer ↦ rw newer (
      ap (λ r. proceed r (λ _. purge max_seq (paths rest)))
        (remove_file-between p d front rest s e (AllBefore-weaken n p front a.0 h))
      ∙ purge-kept max_seq (suc p) front rest (record s { files = front ++ rest }) refl
          (AllBefore-weaken n (suc p) front (omega (arith, a.0)) h) a.1)
  | inr older ↦ rw older (
      purge-kept max_seq (suc p) (front ++ ((p, d) ∷ [])) rest s
        (e ∙ sym (append_assoc front ((p, d) ∷ []) rest))
        (All-append (λ x. x.0 < suc p) front ((p, d) ∷ [])
          (AllBefore-weaken n (suc p) front (omega (arith, a.0)) h) (omega arith, tt))
        a.1
      ∙ ap (λ fs. (ok tt, record s { files = fs }))
          (append_assoc front ((p, d) ∷ []) (kept_up_to max_seq rest)))
]

-- Purging deletes the snapshots above the limit and no others, and does not fail.
pub purge_after-kept :
    (max_seq n : ℕ) (s : SimStorage)
    → Ascending n s.files
    → purge_after max_seq s ≡ (ok tt, record s { files = kept_up_to max_seq s.files })
unfolding purge_after list_dir sync_dir
purge_after-kept max_seq n s a =
    ap (λ r. proceed r (λ _. sync_dir)) (purge-kept max_seq n [] s.files s refl tt a)

remove_all-front :
    (k : ℕ) (files : Files) (s : SimStorage)
    → s.files ≡ files
    → remove_all (take k (paths files)) s ≡ (ok tt, record s { files = drop k files })
unfolding remove_all
remove_all-front zero files s e = ap (λ fs. (ok tt, record s { files = fs })) e
remove_all-front (suc k) [] s e = ap (λ fs. (ok tt, record s { files = fs })) e
remove_all-front (suc k) ((p, d) ∷ files) s e =
    ap (λ r. proceed r (λ _. remove_all (take k (paths files))))
      (remove_file-between p d [] files s e tt)
    ∙ remove_all-front k files (record s { files = files }) refl

paths-drop : (k : ℕ) (files : Files) → drop k (paths files) ≡ paths (drop k files)
paths-drop zero files = refl
paths-drop (suc k) [] = refl
paths-drop (suc k) ((p, d) ∷ files) = paths-drop k files

length-paths : (files : Files) → length (paths files) ≡ length files
length-paths [] = refl
length-paths ((p, d) ∷ files) = ap suc (length-paths files)

-- The last `keep` files, and at least one.
abbrev pub newest : ℕ → Files → Files
newest keep files = drop (length files - max keep 1) files

prune-newest :
    (keep : ℕ) (s : SimStorage)
    → prune keep (paths s.files) s ≡ (
      ok (head? (paths (drop (length s.files - keep) s.files))),
      record s { files = drop (length s.files - keep) s.files },
    )
unfolding prune sync_dir
prune-newest keep s =
    let over = length s.files - keep in
    ap
      (λ m.
        (if ltb keep m
            then remove_all (take (m - keep) (paths s.files))
              >> sync_dir
              >> returns (head? (drop (m - keep) (paths s.files)))
            else returns (head? (paths s.files)))
          s)
      (length-paths s.files)
    ∙ elim (Bool-cases (ltb keep (length s.files))) [
      | inl more ↦ rw more (
          ap
            (λ r.
              proceed (proceed r (λ _. sync_dir))
                (λ _. returns (head? (drop over (paths s.files)))))
            (remove_all-front over s.files s refl)
          ∙ ap (λ ps. (ok (head? ps), record s { files = drop over s.files }))
              (paths-drop over s.files))
      | inr few ↦
          let whole : over ≡ 0 = omega (arith, ltb_false→le keep (length s.files) few) in
          rw few (rw whole refl)
    ]

-- Pruning leaves exactly the `keep` files of the greatest seqs, valid or not, at least one if there
-- is any, deletes the others without failing, and returns the least seq that is left.
pub prune_keep_newest-newest :
    (keep : ℕ) (s : SimStorage)
    → prune_keep_newest keep s
      ≡ (ok (head? (paths (newest keep s.files))), record s { files = newest keep s.files })
unfolding prune_keep_newest list_dir
prune_keep_newest-newest keep s = prune-newest (max keep 1) s
