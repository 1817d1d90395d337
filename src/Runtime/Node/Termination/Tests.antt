-- ===== src/Runtime/Node/Termination/Tests.antt =====
-- A node with one due timer, on a journal that holds one frame.
use ticktape.Base.{
  ℕ, ◌+◌, ◌<◌, ◌≡◌, refl, ap, false, none, List, [], ◌∷◌, length, length-append, ok, arith,
}
use ticktape.Base.BTreeMap
use ticktape.Core.Codec.{u64_codec}
use ticktape.Core.Frame.{Frame, FrameKind}
use ticktape.Core.Frame.Layout
use ticktape.Core.Service.{Service}
use ticktape.Journal.{Journal, every_frame, append}
use ticktape.Journal.First.{append_first-Took, first_started}
use ticktape.Journal.Log.{sealed_frames}
use ticktape.Journal.Restarted.{start-length}
use ticktape.Journal.Writer.{active_frames, fresh}
use ticktape.Journal.Writer.Commits.{Took}
use ticktape.Runtime.Timer
use ticktape.Runtime.Timer.Wheel.{new-IsValid, set-IsValid}
use ticktape.Runtime.Timer.Wheel
use ticktape.Runtime.Timer.Pending.{due_count}
use ticktape.Runtime.Node.{Node, fire_due_timers, step_context}
use ticktape.Runtime.Node.Restart.{NodeJournal, journal_ops}
use ticktape.Runtime.Node.Termination.{IsPatient, HasRoom, fire_due_timers-returns}
use ticktape.Runtime.Node.Termination.OnJournal.{IsNext, journal_ops-IsTaking}

-- It counts the timers that fired.
abbrev counting : Service (Unit {0}) ℕ ℕ ℕ ℕ (Unit {0})
counting = record {
  schema_version = 0;
  genesis = λ config. 0;
  apply = λ seq x s ctx. ok (s, ctx);
  on_timer = λ id s ctx. ok (s + 1, ctx);
  snapshot = λ s. s;
  restore = λ s config. s;
}

counting-IsPatient : IsPatient counting
unfolding step_context
counting-IsPatient = record { answers = λ id s frame. (s + 1, step_context frame, refl, tt) }

abbrev empty_journal : Journal
empty_journal = record {
  config = record { segment_bytes = 40; fsync = every_frame };
  storage = record { files = []; epoch = 0 };
  current = none;
  last_seq = 0;
  epoch = 0;
  last_sync = 0;
  dirty = false;
}

abbrev frame_1 : Frame
frame_1 = record { seq = 1; timestamp = 9; stream_id = 1; kind = FrameKind.tick; payload = [] }

frame_1-IsValid : Layout.IsValid frame_1
frame_1-IsValid = record {
  seq_fits = omega arith;
  timestamp_fits = omega arith;
  stream_fits = omega arith;
  payload_fits = omega arith;
  payload_bytes = tt;
}

abbrev first_append :
    Took 1 []
      (fresh 0)
      (first_started empty_journal 5 frame_1 [] (refl, frame_1-IsValid, tt) refl refl (omega arith))
      (frame_1 ∷ [])
      (append 5 frame_1 empty_journal)
first_append =
    append_first-Took empty_journal 5 frame_1 frame_1-IsValid refl refl refl (omega arith)

-- Its journal has taken the frame; timer 7 was to fire at 8.
abbrev waiting : Node ℕ ℕ NodeJournal
waiting = record {
  service = 0;
  log = record { journal = first_append.journal'; clock = λ k. k; taken = frame_1 ∷ [] };
  stream_id = 1;
  seq = 1;
  last_timestamp = 9;
  published = [];
  commit = none;
  timers = Timer.set Timer.new 7 8 1;
}

waiting-IsNext : IsNext 2 waiting.log
waiting-IsNext = record {
  first = 1;
  sealed = first_append.sealed';
  active = first_append.active';
  holds = first_append.holds;
  next = omega (
    arith,
    first_append.holds.last,
    start-length 1 first_append.sealed',
    length-append (sealed_frames first_append.sealed') (active_frames first_append.active'),
    ap length first_append.stored,
  );
}

waiting-HasRoom : HasRoom IsNext 3 waiting
waiting-HasRoom = record {
  ready = waiting-IsNext;
  seq_fits = omega arith;
  time_fits = omega arith;
  stream_fits = omega arith;
}

waiting-IsValid : Wheel.IsValid waiting.timers
waiting-IsValid = set-IsValid Timer.new 7 8 1 new-IsValid

waiting-due_count : due_count 9 waiting.timers < 3
unfolding due_count Timer.set Timer.new BTreeMap.insert BTreeMap.get
waiting-due_count = omega arith

fire_due_timers-returns_example :
    (outs : List ℕ) × (n' : Node ℕ ℕ NodeJournal) × (fire_due_timers counting u64_codec journal_ops
        3 waiting
      ≡ (ok outs, n'))
    × (Timer.pop_due n'.timers n'.last_timestamp ≡ none)
fire_due_timers-returns_example =
    fire_due_timers-returns counting u64_codec journal_ops IsNext journal_ops-IsTaking
      counting-IsPatient 3 waiting waiting-HasRoom waiting-IsValid waiting-due_count
