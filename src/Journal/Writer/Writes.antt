-- ===== src/Journal/Writer/Writes.antt =====
-- Rolling a segment, and the write into the open one.
use ticktape.Base.{
  ℕ, ◌+◌, ◌-◌, ◌^◌, ◌<◌, ◌≡◌, ◌≢◌, ◌⊎◌, inl, inr, refl, sym, ap, ◌∙◌, true, some, List, ◌++◌, leb,
  length, length-append, ok, arith, append_assoc, Bool-cases,
}
use ticktape.Base.Method.{proceed}
use ticktape.Core.Frame.{Frame}
use ticktape.Core.Frame.Runs.{Contiguous, frames_bytes, frames_bytes-append, append-Contiguous}
use ticktape.Sim.Storage.{empty_file, appended, update}
use ticktape.Sim.Storage.Calls.{write_all-live}
use ticktape.Journal.{
  FsyncPolicy, every_frame, never, micros, Journal, OpenSegment, sync, maybe_sync, roll_segment,
  start_segment, write_open, grown, lifted,
}
use ticktape.Journal.Log.{Sealed, sealed_data, image, start, IsSealed, update-image}
use ticktape.Journal.Log.Grown.{
  with_sealed, start-with_sealed, with_sealed-AllSealed, insert-image, get-image_absent,
}
use ticktape.Journal.Writer.{Active, active_frames, active_data, open_file, Holds, fresh, settled}
use ticktape.Journal.Writer.Segments.{
  there, synced, sync-synced, started, start_segment-started, started-Holds,
}

pub maybe_sync-either :
    (now : ℕ) (policy : FsyncPolicy) (j : Journal)
    → (maybe_sync now policy j ≡ sync now j)
      ⊎ ((maybe_sync now policy j ≡ (ok tt, j)) × (policy ≢ every_frame))
unfolding maybe_sync
maybe_sync-either now every_frame j = inl refl
maybe_sync-either now (micros window) j = elim (Bool-cases (leb window (now - j.last_sync))) [
  | inl over ↦ inl (rw over refl)
  | inr still ↦ inr (rw still refl, λ e. cc)
]
maybe_sync-either now never j = inr (refl, λ e. cc)

module _ (n : ℕ) (ss : List Sealed) (a : Active) (j : Journal) (h : Holds n ss a j) (now : ℕ)
    (filled : 0 < length (active_frames a)) where
  abbrev pub retired : Sealed
  retired = record { epoch = a.epoch; frames = active_frames a }

  retired-IsSealed : IsSealed (start n ss) retired
  retired-IsSealed = record {
    first_fits = h.first_fits;
    epoch_fits = h.epoch_fits;
    gapless = h.gapless;
    filled = filled;
  }

  retired_data : active_data (start n ss) (settled a) ≡ sealed_data (start n ss) retired
  retired_data = refl

  abbrev before_roll : Journal
  before_roll = synced n ss a j h now

  -- A roll seals the active segment and starts an empty one at the next seq.
  pub roll_segment-Holds :
      (p : ℕ)
      → p ≡ j.last_seq + 1
      → p < 256 ^ 8
      → (k : Journal) × (roll_segment now p j ≡ (ok tt, k))
        × Holds n (with_sealed ss retired) (fresh j.epoch) k
        × (k.config ≡ j.config)
        × (k.last_seq ≡ j.last_seq)
  unfolding roll_segment
  roll_segment-Holds p e fits =
      let at_end : p ≡ start n ss + length retired.frames = omega (arith, h.last) in
      let absent =
        get-image_absent n p ss (sealed_data (start n ss) retired) h.sealed (omega arith) in
      let placed = insert-image retired empty_file n p ss h.sealed filled at_end in
      let all = with_sealed-AllSealed n ss retired h.sealed retired-IsSealed in
      let at = start-with_sealed n ss retired ∙ sym at_end in
      (
        started n p (with_sealed ss retired) before_roll absent placed all at,
        ap (λ r. proceed r (λ _. start_segment p)) (sync-synced n ss a j h now)
            ∙ start_segment-started n p (with_sealed ss retired) before_roll absent placed all at,
        started-Holds n p (with_sealed ss retired) before_roll absent placed all at fits
            h.next_epoch_fits (sym e),
        refl,
        refl,
      )

-- The journal after the write of `fs`, before the policy.
module _ (n : ℕ) (ss : List Sealed) (a : Active) (j : Journal) (h : Holds n ss a j)
    (fs : List Frame) (bytes : List ℕ) (last : ℕ) (encoded : bytes ≡ frames_bytes fs)
    (run : Contiguous (j.last_seq + 1) fs) (some_frames : 0 < length fs)
    (ends : last ≡ j.last_seq + length fs) where
  abbrev pub longer : Active
  longer = record a { volatile = a.volatile ++ fs }

  abbrev pub counted_segment : OpenSegment
  counted_segment = record {
    file = open_file (start n ss) j;
    size = h.size + length bytes;
    frames = h.count + length fs;
  }

  abbrev pub written : Journal
  written = record j {
    storage = record j.storage { files = image n ss (active_data (start n ss) longer) };
    current = some counted_segment;
    last_seq = last;
    dirty = true;
  }

  abbrev wrote : Journal
  wrote = record j {
    storage = record j.storage { files = image n ss (active_data (start n ss) longer) };
  }

  abbrev pub segment : OpenSegment
  segment = record { file = open_file (start n ss) j; size = h.size; frames = h.count }

  longer_files :
      update (start n ss) (appended bytes) j.storage.files
      ≡ image n ss (active_data (start n ss) longer)
  longer_files =
      ap (update (start n ss) (appended bytes)) h.files
      ∙ update-image n ss (active_data (start n ss) a) (appended bytes) h.sealed
      ∙ ap (λ l. image n ss (record (active_data (start n ss) a) { unsynced = l }))
          (ap (λ t. frames_bytes a.volatile ++ t) encoded ∙ sym (frames_bytes-append a.volatile fs))

  pub write_open-wrote : write_open j.current bytes j ≡ (ok tt, wrote)
  unfolding write_open
  write_open-wrote =
      ap (λ o. write_open o bytes j) h.opened
      ∙ ap (lifted j) (
          write_all-live (open_file (start n ss) j) j.storage (active_data (start n ss) a) refl
            (there n ss a j h 0) bytes)
      ∙ ap (λ m. (ok tt, record j { storage = record j.storage { files = m } })) longer_files

  pub grown-counted : grown j.current (length bytes) (length fs) ≡ some counted_segment
  unfolding grown
  grown-counted = ap (λ o. grown o (length bytes) (length fs)) h.opened

  longer-frames : active_frames longer ≡ active_frames a ++ fs
  longer-frames = sym (append_assoc a.kept a.volatile fs)

  pub written-Holds : Holds n ss longer written
  written-Holds = record {
    files = refl;
    sealed = h.sealed;
    first_fits = h.first_fits;
    epoch_fits = h.epoch_fits;
    next_epoch_fits = h.next_epoch_fits;
    gapless =
        rw longer-frames (
          append-Contiguous (start n ss) (j.last_seq + 1) (active_frames a) fs h.gapless h.last
            run);
    last = omega (arith, ends, h.last, ap length longer-frames, length-append (active_frames a) fs);
    size = h.size + length bytes;
    count = h.count + length fs;
    opened = refl;
    counted = λ lt.
        omega (arith, ap length longer-frames, length-append (active_frames a) fs, some_frames);
    clean = λ e. cc;
  }
