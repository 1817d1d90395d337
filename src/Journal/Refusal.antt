-- ===== src/Journal/Refusal.antt =====
-- Appends that are refused.
use ticktape.Base.{
  ℕ, ◌+◌, ◌<◌, ◌≡◌, ◌≢◌, refl, ap, ◌∙◌, false, true, some, List, ◌∷◌, ok, err, arith, ◌==◌, ==_iff,
}
use ticktape.Base.Method.{proceed}
use ticktape.Base.BTreeMap.{get}
use ticktape.Core.Frame.{Frame, encoded_len}
use ticktape.Sim.Storage.{FileData, already_exists}
use ticktape.Sim.Storage.Calls.{create_new-there}
use ticktape.Journal.{
  Journal, OpenSegment, io, out_of_order_append, append, append_batch, check_run, commit_run,
  commit_bytes, needs_roll, roll_segment, start_segment, sync, sync_open,
}

ne→==_false : (a b : ℕ) → a ≢ b → (a == b) ≡ false
ne→==_false a b h = ground arith

-- A frame with another seq than the next one is refused and changes nothing, alone and in front of
-- a batch.
pub append_out_of_order :
    (now : ℕ) (f : Frame) (fs : List Frame) (j : Journal)
    → f.seq ≢ j.last_seq + 1
    → (append now f j ≡ (err (out_of_order_append (j.last_seq + 1) f.seq), j))
      × (append_batch now (f ∷ fs) j ≡ (err (out_of_order_append (j.last_seq + 1) f.seq), j))
unfolding append append_batch check_run commit_run
append_out_of_order now f fs j h =
    let other = ne→==_false f.seq (j.last_seq + 1) h in (rw other refl, rw other refl)

module _ (now : ℕ) (f : Frame) (j : Journal) (seg : OpenSegment) (d : FileData)
    (due : f.seq ≡ j.last_seq + 1) (opened : j.current ≡ some seg) (clean : j.dirty ≡ false)
    (counted : 0 < seg.frames) (large : j.config.segment_bytes < seg.size + encoded_len f)
    (there : get f.seq j.storage.files ≡ some d) where
  abbrev stamped : Journal
  stamped = record j { last_sync = now }

  sync-stamped : sync now j ≡ (ok tt, stamped)
  unfolding sync sync_open
  sync-stamped =
      ap (λ o. proceed (sync_open o j.dirty j) (λ _ k. (ok tt, record k { last_sync = now })))
        opened
      ∙ ap (λ b. proceed (sync_open (some seg) b j) (λ _ k. (ok tt, record k { last_sync = now })))
          clean

  start_segment-there : start_segment f.seq stamped ≡ (err (io already_exists), stamped)
  unfolding start_segment
  start_segment-there = rw (create_new-there f.seq j.storage d there) refl

  roll_segment-there : roll_segment now f.seq j ≡ (err (io already_exists), stamped)
  unfolding roll_segment
  roll_segment-there =
      ap (λ r. proceed r (λ _. start_segment f.seq)) sync-stamped ∙ start_segment-there

  large_needs_roll : needs_roll j.current (encoded_len f) j.config.segment_bytes ≡ true
  unfolding needs_roll
  large_needs_roll =
      ap (λ o. needs_roll o (encoded_len f) j.config.segment_bytes) opened
      ∙ ground (arith, counted, large)

  append-refused : append now f j ≡ (err (io already_exists), stamped)
  unfolding append commit_bytes
  append-refused =
      rw ((==_iff f.seq (j.last_seq + 1)).1 due) (rw large_needs_roll (rw roll_segment-there refl))

  -- If the frame counter of the open segment is positive, nothing waits to be synced, the next
  -- frame would overflow the segment, and there is a file with the name of the segment to come, the
  -- frame is refused with an error and the disk is not changed.
  pub append_segment_exists :
      ((append now f j).0 ≡ err (io already_exists)) × ((append now f j).1.storage ≡ j.storage)
  append_segment_exists = (ap (λ r. r.0) append-refused, ap (λ r. r.1.storage) append-refused)
