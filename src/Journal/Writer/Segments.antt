-- ===== src/Journal/Writer/Segments.antt =====
-- Syncing the active segment, and starting another.
use ticktape.Base.{
  ℕ, ◌+◌, ◌^◌, ◌<◌, ◌≡◌, refl, sym, ap, ap₂, ◌∙◌, Bool, true, false, none, some, List, [], ◌++◌, ok,
  arith, append-nil, append_assoc,
}
use ticktape.Base.Result.{Result}
use ticktape.Base.Method.{proceed, ◌>>◌}
use ticktape.Base.BTreeMap.{get, insert}
use ticktape.Core.Frame.Runs.{frames_bytes, frames_bytes-append}
use ticktape.Sim.Storage
use ticktape.Sim.Storage.{
  SimStorage, SimFile, FileData, Files, combined, empty_file, flushed, appended, update, sync_dir,
}
use ticktape.Sim.Storage.Calls.{sync_data-live, write_all-live, create_new-absent}
use ticktape.Journal.{
  Journal, JournalError, OpenSegment, segment_header_bytes, sync_open, sync, start_segment,
  new_segment, lifted, on_storage, assign,
}
use ticktape.Journal.Log.{Sealed, image, start, AllSealed, get-image, update-image}
use ticktape.Journal.Writer.{Active, active_data, open_file, Holds, fresh, settled}

flushed-active_data : (n : ℕ) (a : Active) → flushed (active_data n a) ≡ active_data n (settled a)
flushed-active_data n a =
    ap (λ l. record { synced = l; unsynced = [] })
      (append_assoc (segment_header_bytes n a.epoch) (frames_bytes a.kept) (frames_bytes a.volatile)
        ∙ ap (λ t. segment_header_bytes n a.epoch ++ t)
            (sym (frames_bytes-append a.kept a.volatile)))

module _ (n : ℕ) (ss : List Sealed) (a : Active) (j : Journal) (h : Holds n ss a j) (now : ℕ) where
  pub there : get (start n ss) j.storage.files ≡ some (active_data (start n ss) a)
  there = ap (get (start n ss)) h.files ∙ get-image n ss (active_data (start n ss) a) h.sealed

  -- The journal after a sync: the flag is down and the files are settled.
  abbrev pub synced : Journal
  synced = record j {
    storage = record j.storage { files = image n ss (active_data (start n ss) (settled a)) };
    last_sync = now;
    dirty = false;
  }

  flushed_files :
      update (start n ss) flushed j.storage.files
      ≡ image n ss (active_data (start n ss) (settled a))
  flushed_files =
      ap (update (start n ss) flushed) h.files
      ∙ update-image n ss (active_data (start n ss) a) flushed h.sealed
      ∙ ap (image n ss) (flushed-active_data (start n ss) a)

  settled_already :
      a.volatile ≡ [] → j.storage.files ≡ image n ss (active_data (start n ss) (settled a))
  settled_already e =
      h.files
      ∙ ap (λ b. image n ss (active_data (start n ss) b))
          (ap₂ (λ k v. record { epoch = a.epoch; kept = k; volatile = v })
            (sym (ap (λ v. a.kept ++ v) e ∙ append-nil a.kept)) e)

  abbrev segment : OpenSegment
  segment = record { file = open_file (start n ss) j; size = h.size; frames = h.count }

  abbrev stamped :
      Result JournalError (Unit {0}) × Journal → Result JournalError (Unit {0}) × Journal
  stamped r = proceed r (λ _. assign (λ k. record k { last_sync = now }))

  sync_open-settled :
      (b : Bool) → j.dirty ≡ b → stamped (sync_open (some segment) b j) ≡ (ok tt, synced)
  unfolding sync_open
  sync_open-settled true dirty =
      ap (λ r. stamped (proceed (lifted j r) (λ _. assign (λ k. record k { dirty = false }))))
        (sync_data-live (open_file (start n ss) j) j.storage (active_data (start n ss) a) refl
          there)
      ∙ ap (λ fs. (ok tt, record synced { storage = record j.storage { files = fs } }))
          flushed_files
  sync_open-settled false clean =
      ap₂ (λ fs d. (ok tt, record synced { storage = record j.storage { files = fs }; dirty = d }))
        (settled_already (h.clean clean)) clean

  pub sync-synced : sync now j ≡ (ok tt, synced)
  unfolding sync
  sync-synced = ap (λ o. stamped (sync_open o j.dirty j)) h.opened ∙ sync_open-settled j.dirty refl

  pub synced-Holds : Holds n ss (settled a) synced
  synced-Holds = record {
    files = refl;
    sealed = h.sealed;
    first_fits = h.first_fits;
    epoch_fits = h.epoch_fits;
    next_epoch_fits = h.next_epoch_fits;
    gapless = rw append-nil h.gapless;
    last = rw append-nil h.last;
    size = h.size;
    count = h.count;
    opened = h.opened;
    counted = λ lt. rw append-nil (h.counted lt);
    clean = λ _. refl;
  }

-- A new active segment behind the sealed ones.
module _ (n p : ℕ) (ss : List Sealed) (j : Journal) (absent : get p j.storage.files ≡ none)
    (placed : insert p empty_file j.storage.files ≡ image n ss empty_file) (sealed : AllSealed n ss)
    (at : start n ss ≡ p) where
  abbrev handle : SimFile
  handle = record { path = p; epoch = j.storage.epoch }

  abbrev pub started : Journal
  started = record j {
    storage = record j.storage { files = image n ss (active_data (start n ss) (fresh j.epoch)) };
    current = new_segment handle;
  }

  abbrev storage_with : FileData → SimStorage
  storage_with d = record j.storage { files = image n ss d }

  changed :
      (d : FileData) (f : FileData → FileData)
      → record j.storage { files = update p f (image n ss d) } ≡ storage_with (f d)
  changed d f =
      ap (λ fs. record j.storage { files = fs })
        (ap (λ q. update q f (image n ss d)) (sym at) ∙ update-image n ss d f sealed)

  live : (d : FileData) → get p (image n ss d) ≡ some d
  live d = ap (λ q. get q (image n ss d)) (sym at) ∙ get-image n ss d sealed

  created : Storage.create_new p j.storage ≡ (ok handle, storage_with empty_file)
  created =
      create_new-absent p j.storage absent
      ∙ ap (λ fs. (ok handle, record j.storage { files = fs })) placed

  abbrev header : List ℕ
  header = segment_header_bytes p j.epoch

  written :
      Storage.write_all handle header (storage_with empty_file)
      ≡ (ok tt, storage_with (appended header empty_file))
  written =
      write_all-live handle (storage_with empty_file) empty_file refl (live empty_file) header
      ∙ ap (λ s. (ok tt, s)) (changed empty_file (appended header))

  settled_header :
      Storage.sync_data handle (storage_with (appended header empty_file))
      ≡ (ok tt, storage_with (flushed (appended header empty_file)))
  settled_header =
      sync_data-live handle (storage_with (appended header empty_file)) (appended header empty_file)
        refl (live (appended header empty_file))
      ∙ ap (λ s. (ok tt, s)) (changed (appended header empty_file) flushed)

  abbrev journal_with : FileData → Journal
  journal_with d = record j { storage = storage_with d }

  durable_header : flushed (appended header empty_file) ≡ active_data (start n ss) (fresh j.epoch)
  unfolding empty_file
  durable_header =
      ap (λ l. record { synced = l; unsynced = [] })
        (ap (λ q. segment_header_bytes q j.epoch) (sym at)
          ∙ sym (append-nil (segment_header_bytes (start n ss) j.epoch)))

  pub start_segment-started : start_segment p j ≡ (ok tt, started)
  unfolding start_segment sync_dir
  start_segment-started =
      ap
        (λ r. proceed (lifted j r) (λ file. do
          on_storage (Storage.write_all file header)
          on_storage (Storage.sync_data file)
          on_storage Storage.sync_dir
          assign (λ k. record k { current = new_segment file })))
        created
      ∙ ap
          (λ r. proceed (lifted (journal_with empty_file) r) (λ _. do
            on_storage (Storage.sync_data handle)
            on_storage Storage.sync_dir
            assign (λ k. record k { current = new_segment handle })))
          written
      ∙ ap
          (λ r. proceed (lifted (journal_with (appended header empty_file)) r) (λ _. do
            on_storage Storage.sync_dir
            assign (λ k. record k { current = new_segment handle })))
          settled_header
      ∙ ap (λ d. (ok tt, record (journal_with d) { current = new_segment handle })) durable_header

  pub started-Holds :
      p < 256 ^ 8 → j.epoch < 256 ^ 8 → j.last_seq + 1 ≡ p → Holds n ss (fresh j.epoch) started
  started-Holds fits e l = record {
    files = refl;
    sealed = sealed;
    first_fits = rw at fits;
    epoch_fits = e;
    next_epoch_fits = e;
    gapless = tt;
    last = omega (arith, at);
    size = 28;
    count = 0;
    opened =
        ap
          (λ q.
            some (record {
              file = record { path = q; epoch = j.storage.epoch };
              size = 28;
              frames = 0;
            }))
          (sym at);
    counted = λ lt. absurd (omega arith);
    clean = λ _. refl;
  }
