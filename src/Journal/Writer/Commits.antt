-- ===== src/Journal/Writer/Commits.antt =====
-- One commit of a run of frames: the roll, the write, and the fsync policy.
use ticktape.Base.{
  ℕ, ◌+◌, ◌<◌, ◌≡◌, inl, inr, refl, sym, ap, ◌∙◌, true, some, List, [], ◌++◌, length, ok, arith,
  append-nil, append_assoc,
}
use ticktape.Base.Result.{Result}
use ticktape.Base.Method.{proceed, ◌>>◌}
use ticktape.Core.Frame.{Frame}
use ticktape.Core.Frame.Runs.{Contiguous, frames_bytes}
use ticktape.Journal.{
  FsyncPolicy, every_frame, Journal, JournalError, OpenSegment, maybe_sync, write_open, grown,
  needs_roll,
}
use ticktape.Journal.Log.{Sealed, start, sealed_frames}
use ticktape.Journal.Writer.{Active, active_frames, open_file, Holds, settled}
use ticktape.Journal.Writer.Segments.{synced, sync-synced, synced-Holds}
use ticktape.Journal.Writer.Writes.{
  maybe_sync-either, longer, written, write_open-wrote, grown-counted, written-Holds,
}

-- A journal that took `fs` in addition to what it held.
pub record Took (n : ℕ) (ss : List Sealed) (a : Active) (j : Journal) (fs : List Frame)
    (r : Result JournalError (Unit {0}) × Journal) : Type 0 where
  pub sealed' : List Sealed
  pub active' : Active
  pub journal' : Journal
  pub succeeded : r ≡ (ok tt, journal')
  pub holds : Holds n sealed' active' journal'
  pub stored :
      sealed_frames sealed' ++ active_frames active' ≡ (sealed_frames ss ++ active_frames a) ++ fs
  -- What is durable stays so, and more may be.
  pub more : List Frame
  pub durable : sealed_frames sealed' ++ active'.kept ≡ (sealed_frames ss ++ a.kept) ++ more
  pub all_durable : j.config.fsync ≡ every_frame → active'.volatile ≡ []
  pub same_config : journal'.config ≡ j.config

-- The write and the policy, in the active segment that is there.
module _ (n : ℕ) (ss : List Sealed) (a : Active) (j : Journal) (h : Holds n ss a j)
    (fs : List Frame) (bytes : List ℕ) (last : ℕ) (encoded : bytes ≡ frames_bytes fs)
    (run : Contiguous (j.last_seq + 1) fs) (some_frames : 0 < length fs)
    (ends : last ≡ j.last_seq + length fs) (now : ℕ) (policy : FsyncPolicy)
    (same : policy ≡ j.config.fsync) where
  abbrev pub after_roll : Result JournalError (Unit {0}) × Journal
  after_roll =
      (do
        λ k. write_open k.current bytes k
        λ k. (
          ok tt,
          record k {
            current = grown k.current (length bytes) (length fs);
            last_seq = last;
            dirty = true;
          },
        )
        maybe_sync now policy)
        j

  abbrev w : Journal
  w = written n ss a j h fs bytes last encoded run some_frames ends

  abbrev l : Active
  l = longer n ss a j h fs bytes last encoded run some_frames ends

  w-Holds : Holds n ss l w
  w-Holds = written-Holds n ss a j h fs bytes last encoded run some_frames ends

  after_roll-written : after_roll ≡ maybe_sync now policy w
  after_roll-written =
      ap
        (λ r. proceed r (λ _ k. maybe_sync now policy (record k {
          current = grown k.current (length bytes) (length fs);
          last_seq = last;
          dirty = true;
        })))
        (write_open-wrote n ss a j h fs bytes last encoded run some_frames ends)
      ∙ ap (λ o. maybe_sync now policy (record w { current = o }))
          (grown-counted n ss a j h fs bytes last encoded run some_frames ends)

  stored_longer : sealed_frames ss ++ active_frames l ≡ (sealed_frames ss ++ active_frames a) ++ fs
  stored_longer =
      ap (λ t. sealed_frames ss ++ t) (sym (append_assoc a.kept a.volatile fs))
      ∙ sym (append_assoc (sealed_frames ss) (active_frames a) fs)

  pub after_roll-Took : Took n ss a j fs after_roll
  after_roll-Took = elim (maybe_sync-either now policy w) [
    | inl synced_now ↦ record {
      sealed' = ss;
      active' = settled l;
      journal' = synced n ss l w w-Holds now;
      succeeded = after_roll-written ∙ synced_now ∙ sync-synced n ss l w w-Holds now;
      holds = synced-Holds n ss l w w-Holds now;
      stored = ap (λ t. sealed_frames ss ++ t) (append-nil (active_frames l)) ∙ stored_longer;
      more = l.volatile;
      durable = sym (append_assoc (sealed_frames ss) a.kept l.volatile);
      all_durable = λ _. refl;
      same_config = refl;
    }
    | inr still ↦ record {
      sealed' = ss;
      active' = l;
      journal' = w;
      succeeded = after_roll-written ∙ still.0;
      holds = w-Holds;
      stored = stored_longer;
      more = [];
      durable = sym (append-nil (sealed_frames ss ++ a.kept));
      all_durable = λ e. absurd (still.1 (same ∙ e));
      same_config = refl;
    }
  ]

needs_roll-some :
    (seg : OpenSegment) (room limit : ℕ) → needs_roll (some seg) room limit ≡ true → 0 < seg.frames
unfolding needs_roll
needs_roll-some seg room limit e = ground arith

-- Only a segment with frames is rolled.
pub needs_roll-filled :
    (n : ℕ) (ss : List Sealed) (a : Active) (j : Journal) (h : Holds n ss a j) (room limit : ℕ)
    → needs_roll j.current room limit ≡ true
    → 0 < length (active_frames a)
needs_roll-filled n ss a j h room limit e =
    let segment : OpenSegment = record {
      file = open_file (start n ss) j;
      size = h.size;
      frames = h.count;
    } in
    h.counted
      (needs_roll-some segment room limit (ap (λ o. needs_roll o room limit) (sym h.opened) ∙ e))

-- What a roll in front of the write leaves of the statement.
pub Took-rolled :
    {n : ℕ} {ss ss1 : List Sealed} {a a1 : Active} {j j1 : Journal} {fs : List Frame}
    {r : Result JournalError (Unit {0}) × Journal}
    → sealed_frames ss1 ++ active_frames a1 ≡ sealed_frames ss ++ active_frames a
    → sealed_frames ss1 ++ a1.kept ≡ (sealed_frames ss ++ a.kept) ++ a.volatile
    → j1.config ≡ j.config
    → Took n ss1 a1 j1 fs r
    → Took n ss a j fs r
Took-rolled {a = a} {fs = fs} all kept c t = record {
  sealed' = t.sealed';
  active' = t.active';
  journal' = t.journal';
  succeeded = t.succeeded;
  holds = t.holds;
  stored = t.stored ∙ ap (λ l. l ++ fs) all;
  more = a.volatile ++ t.more;
  durable = t.durable ∙ ap (λ l. l ++ t.more) kept ∙ append_assoc _ a.volatile t.more;
  all_durable = λ e. t.all_durable (ap (λ k. k.fsync) c ∙ e);
  same_config = t.same_config ∙ c;
}
