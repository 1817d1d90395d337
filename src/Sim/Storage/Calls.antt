-- ===== src/Sim/Storage/Calls.antt =====
-- What each call of the simulated disk comes to when the file is there and the handle is live.
use ticktape.Base.{
  ℕ, ◌≡◌, refl, ap, ◌∙◌, none, some, List, [], ◌∷◌, ◌==◌, ok, err, arith, Bool-cases, inl, inr,
}
use ticktape.Base.BTreeMap.{get, insert, contains_key}
use ticktape.Sim.Storage.{
  FileData, Files, SimStorage, SimFile, already_exists, update, with_file, with_data, write_all,
  sync_data, len, open_append, create_new, truncate, empty_file, appended, flushed, cut, file_len,
}

pub update-same : (path : ℕ) (files : Files) → update path (λ d. d) files ≡ files
unfolding update
update-same path [] = refl
update-same path ((p, d) ∷ files) = ground (arith, update-same path files)

pub get-update :
    (path : ℕ) (f : FileData → FileData) (d : FileData) (files : Files)
    → get path files ≡ some d
    → get path (update path f files) ≡ some (f d)
unfolding get update
get-update path f d [] h = cc
get-update path f d ((p, e) ∷ files) h = elim (Bool-cases (p == path)) [
  | inl hit ↦ ground (arith, h)
  | inr miss ↦ ground (arith, h, get-update path f d files)
]

module _ (file : SimFile) (s : SimStorage) (d : FileData) (live : s.epoch ≡ file.epoch)
    (there : get file.path s.files ≡ some d) where
  with_data-live {ℓ} :
      {R : Type ℓ} (change : FileData → FileData) (result : FileData → R)
      → with_data file change result s
        ≡ (ok (result d), record s { files = update file.path change s.files })
  unfolding with_data with_file
  with_data-live change result =
      ground (arith, live, ap (λ o. with_file file change result o s) there)

  pub write_all-live :
      (buf : List ℕ)
      → write_all file buf s ≡ (ok tt, record s { files = update file.path (appended buf) s.files })
  unfolding write_all
  write_all-live buf = with_data-live (appended buf) (λ x. tt)

  pub sync_data-live :
      sync_data file s ≡ (ok tt, record s { files = update file.path flushed s.files })
  unfolding sync_data
  sync_data-live = with_data-live flushed (λ x. tt)

  pub len-live : len file s ≡ (ok (file_len d), s)
  unfolding len
  len-live =
      with_data-live (λ x. x) file_len
      ∙ ap (λ fs. (ok (file_len d), record s { files = fs })) (update-same file.path s.files)

module _ (path : ℕ) (s : SimStorage) where
  pub open_append-there :
      (d : FileData)
      → get path s.files ≡ some d
      → open_append path s ≡ (ok (record { path = path; epoch = s.epoch }), s)
  unfolding open_append contains_key
  open_append-there d h = ground (arith, h)

  pub truncate-there :
      (n : ℕ) (d : FileData)
      → get path s.files ≡ some d
      → truncate path n s ≡ (ok tt, record s { files = update path (cut n) s.files })
  unfolding truncate
  truncate-there n d h = rw h refl

  pub create_new-absent :
      get path s.files ≡ none
      → create_new path s ≡ (
        ok (record { path = path; epoch = s.epoch }),
        record s { files = insert path empty_file s.files },
      )
  unfolding create_new contains_key
  create_new-absent h = ground (arith, h)

  pub create_new-there :
      (d : FileData) → get path s.files ≡ some d → create_new path s ≡ (err already_exists, s)
  unfolding create_new contains_key
  create_new-there d h = ground (arith, h)
