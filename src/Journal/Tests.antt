-- ===== src/Journal/Tests.antt =====
-- Journals on small inputs.
use ticktape.Base.{ℕ, ◌<◌, ◌≡◌, ◌≢◌, refl, false, true, none, some, [], ◌∷◌, ok, err, arith}
use ticktape.Core.Bytes.{to_le_bytes}
use ticktape.Core.Frame.{Frame, FrameKind, encoded_len}
use ticktape.Core.Frame.Layout.{IsValid}
use ticktape.Sim.Storage.{SimStorage, crash, already_exists, create_dir_all, list_dir}
use ticktape.Journal.{
  Journal, JournalConfig, io, every_frame, segment_header_bytes, append, append_batch,
  compact_below,
}
use ticktape.Journal.Log.{Sealed, image}
use ticktape.Journal.Writer.{Active, active_data, Holds, fresh}
use ticktape.Journal.Recovery.{Recovered, recovered, no_fuel, open_with}
use ticktape.Journal.Crash.Recovers.{Recovers, open_with-crash}
use ticktape.Journal.Durable.{append_batch-crash}
use ticktape.Journal.Reopened.{open_with-clean}
use ticktape.Journal.Refusal.{append_segment_exists}
use ticktape.Base.BTreeMap.{get}
use ticktape.Journal.Terminates.{open_with-ne-no_fuel}
use ticktape.Journal.Compaction.{Compacted, compact_below-Compacted}

abbrev config : JournalConfig
config = record { segment_bytes = 40; fsync = every_frame }

abbrev empty_disk : SimStorage
empty_disk = record { files = []; epoch = 0 }

abbrev empty_journal : Journal
empty_journal = record {
  config = config;
  storage = empty_disk;
  current = none;
  last_seq = 0;
  epoch = 0;
  last_sync = 7;
  dirty = false;
}

-- An empty directory is opened as an empty journal.
opens_empty : open_with config 7 empty_disk ≡ (
  ok (record { journal = empty_journal; frames = []; first_seq = 1; truncated_torn_tail = false }),
  empty_disk,
)
unfolding open_with create_dir_all list_dir
opens_empty = refl

abbrev frame_at : ℕ → Frame
frame_at n = record {
  seq = n;
  timestamp = 1000;
  stream_id = 1;
  kind = FrameKind.input;
  payload = 10 ∷ 20 ∷ [];
}

frame_at-IsValid : (n : ℕ) → n < 1000 → IsValid (frame_at n)
frame_at-IsValid n h = record {
  seq_fits = omega arith;
  timestamp_fits = omega arith;
  stream_fits = omega arith;
  payload_fits = omega arith;
  payload_bytes = (omega arith, (omega arith, tt));
}

abbrev sealed_one : Sealed
sealed_one = record { epoch = 0; frames = frame_at 1 ∷ [] }

abbrev active_two : Active
active_two = record { epoch = 0; kept = frame_at 2 ∷ []; volatile = [] }

-- Two segments of one frame each.
abbrev two_segments : Journal
two_segments = record {
  config = config;
  storage = record { files = image 1 (sealed_one ∷ []) (active_data 2 active_two); epoch = 0 };
  current = some (record { file = record { path = 2; epoch = 0 }; size = 62; frames = 1 });
  last_seq = 2;
  epoch = 0;
  last_sync = 0;
  dirty = false;
}

two_segments-Holds : Holds 1 (sealed_one ∷ []) active_two two_segments
two_segments-Holds = record {
  files = refl;
  sealed = (
    record {
      first_fits = omega arith;
      epoch_fits = omega arith;
      gapless = (refl, frame_at-IsValid 1 (omega arith), tt);
      filled = omega arith;
    },
    tt,
  );
  first_fits = omega arith;
  epoch_fits = omega arith;
  next_epoch_fits = omega arith;
  gapless = (refl, frame_at-IsValid 2 (omega arith), tt);
  last = refl;
  size = 62;
  count = 1;
  opened = refl;
  counted = λ _. omega arith;
  clean = λ _. refl;
}

append_batch-crash_example :
    let r = append_batch 5 (frame_at 3 ∷ frame_at 4 ∷ []) two_segments in
    (r.0 ≡ ok tt)
    × (answer : Recovered) × (open_with config 9 (crash false r.1.storage (record { state = 42 })).0
        ≡ (ok answer, answer.journal.storage))
    × (answer.frames ≡ frame_at 1 ∷ frame_at 2 ∷ frame_at 3 ∷ frame_at 4 ∷ [])
    × (answer.journal.last_seq ≡ r.1.last_seq)
append_batch-crash_example =
    append_batch-crash 1 (sealed_one ∷ []) active_two two_segments 5 9 (frame_at 3)
      (frame_at 4 ∷ []) config (record { state = 42 }) (omega arith) two_segments-Holds refl
      (refl, frame_at-IsValid 3 (omega arith), (refl, frame_at-IsValid 4 (omega arith), tt))

-- Frame 3 is written and not synced.
abbrev active_volatile : Active
active_volatile = record { epoch = 0; kept = frame_at 2 ∷ []; volatile = frame_at 3 ∷ [] }

abbrev unsynced : Journal
unsynced = record {
  config = config;
  storage = record { files = image 1 (sealed_one ∷ []) (active_data 2 active_volatile); epoch = 0 };
  current = some (record { file = record { path = 2; epoch = 0 }; size = 96; frames = 2 });
  last_seq = 3;
  epoch = 0;
  last_sync = 0;
  dirty = true;
}

unsynced-Holds : Holds 1 (sealed_one ∷ []) active_volatile unsynced
unsynced-Holds = record {
  files = refl;
  sealed = two_segments-Holds.sealed;
  first_fits = omega arith;
  epoch_fits = omega arith;
  next_epoch_fits = omega arith;
  gapless = (refl, frame_at-IsValid 2 (omega arith), (refl, frame_at-IsValid 3 (omega arith), tt));
  last = refl;
  size = 96;
  count = 2;
  opened = refl;
  counted = λ _. omega arith;
  clean = λ e. cc e;
}

open_with-crash_example :
    Recovers
      (frame_at 1 ∷ frame_at 2 ∷ [])
      (frame_at 3 ∷ [])
      4
      (open_with config 9 (crash false unsynced.storage (record { state = 42 })).0)
open_with-crash_example =
    open_with-crash 1 (sealed_one ∷ []) active_volatile unsynced config 9 (record { state = 42 })
      (omega arith) unsynced-Holds

open_with-ne-no_fuel_example : (open_with config 7 two_segments.storage).0 ≢ err no_fuel
open_with-ne-no_fuel_example = open_with-ne-no_fuel config 7 two_segments.storage

compact_below-Compacted_example :
    Compacted 1 (sealed_one ∷ []) active_two two_segments 1 (compact_below 1 two_segments)
compact_below-Compacted_example =
    compact_below-Compacted 1 (sealed_one ∷ []) active_two two_segments 1 two_segments-Holds

-- The active segment is empty and an older one is not: the count of all frames, which the reopened
-- journal takes for that of its segment, makes a large frame roll to the file that is there.
abbrev stuck_disk : SimStorage
stuck_disk = record { files = image 1 (sealed_one ∷ []) (active_data 2 (fresh 0)); epoch = 0 }

abbrev stuck : Journal
stuck = record {
  config = config;
  storage = stuck_disk;
  current = some (record { file = record { path = 2; epoch = 0 }; size = 28; frames = 1 });
  last_seq = 1;
  epoch = 0;
  last_sync = 7;
  dirty = false;
}

opens_stuck : open_with config 7 stuck_disk ≡ (
  ok (record {
    journal = stuck;
    frames = frame_at 1 ∷ [];
    first_seq = 1;
    truncated_torn_tail = false;
  }),
  stuck_disk,
)
unfolding segment_header_bytes to_le_bytes recovered
opens_stuck =
    open_with-clean config 7 1 0 (sealed_one ∷ []) [] [] (active_data 2 (fresh 0)) stuck_disk refl
      two_segments-Holds.sealed
      (record { first_fits = omega arith; epoch_fits = omega arith; gapless = tt; layout = refl })
      refl

stuck_refuses :
    ((append 8 (frame_at 2) stuck).0 ≡ err (io already_exists))
    × ((append 8 (frame_at 2) stuck).1.storage ≡ stuck_disk)
unfolding encoded_len get
stuck_refuses =
    append_segment_exists 8 (frame_at 2) stuck
      (record { file = record { path = 2; epoch = 0 }; size = 28; frames = 1 })
      (active_data 2 (fresh 0)) refl refl refl (omega arith) (omega arith) refl
