-- ===== src/Runtime/Node/Restart/Tests.antt =====
-- A crash of a small node.
use ticktape.Base.{ℕ, ◌+◌, ◌≡◌, refl, subst, none, List, [], ◌∷◌, All, ok, arith, false}
use ticktape.Base.BTreeMap
use ticktape.Core.Bytes.{to_le_bytes}
use ticktape.Core.Codec.{u64_codec, encode_to_vec, int_codec}
use ticktape.Core.Codec.Instances.{int-IsCodec}
use ticktape.Core.Frame
use ticktape.Core.Frame.{Frame, write_to}
use ticktape.Core.Frame.Layout.{IsValid}
use ticktape.Core.Service.{Service, Ctx}
use ticktape.Sim.Storage
use ticktape.Journal.{Journal, JournalConfig, every_frame, append}
use ticktape.Journal.Filled.{IsFresh}
use ticktape.Runtime.Timer
use ticktape.Runtime.Node.{Node, submit, tick}
use ticktape.Runtime.Node.Replay.{open_node}
use ticktape.Runtime.Node.Live.{IsTyped, IdFits}
use ticktape.Runtime.Node.Live.History.{Call, submits, make, run}
use ticktape.Runtime.Node.Restart.{NodeJournal, journal_ops, Restarts, run-Restarts}

-- An input is added to the state.
abbrev adding : Service (Unit {0}) ℕ ℕ ℕ ℕ (Unit {0})
adding = record {
  schema_version = 0;
  genesis = λ config. 0;
  apply = λ seq x s ctx. ok (s + x, ctx);
  on_timer = λ id s ctx. ok (s, ctx);
  snapshot = λ s. s;
  restore = λ s config. s;
}

adding-IsTyped : IsTyped adding
adding-IsTyped = record {
  apply_fits = λ seq x s s' ctx ctx' h e.
      let same : ctx ≡ ctx' = cc in subst (λ (c : Ctx ℕ). All IdFits c.timers) same h;
  on_timer_fits = λ id s s' ctx ctx' h e.
      let same : ctx ≡ ctx' = cc in subst (λ (c : Ctx ℕ). All IdFits c.timers) same h;
}

abbrev config : JournalConfig
config = record { segment_bytes = 40; fsync = every_frame }

abbrev empty_journal : Journal
empty_journal = record {
  config = config;
  storage = record { files = []; epoch = 0 };
  current = none;
  last_seq = 0;
  epoch = 0;
  last_sync = 0;
  dirty = false;
}

empty_journal-IsFresh : IsFresh empty_journal
empty_journal-IsFresh = record {
  nothing = refl;
  empty = refl;
  unstarted = refl;
  every = refl;
  fits = omega arith;
}

abbrev opened : Node ℕ ℕ NodeJournal
opened = record {
  service = 0;
  log = record { journal = empty_journal; clock = λ k. k; taken = [] };
  stream_id = 1;
  seq = 0;
  last_timestamp = 0;
  published = [];
  commit = none;
  timers = record { by_id = []; order = [] };
}

abbrev calls : List (Call ℕ)
calls = submits 10 5 ∷ []

abbrev ran : Node ℕ ℕ NodeJournal
ran = (run adding u64_codec journal_ops 1 calls opened).1

opens : open_node adding u64_codec tt 1 none opened.log [] 1 0 ≡ ok opened
unfolding open_node Timer.new
opens = refl

runs : run adding u64_codec journal_ops 1 calls opened ≡ (ok tt, ran)
unfolding run make submit tick Frame.new Timer.pop_due encode_to_vec int_codec to_le_bytes append
    Storage.create_new Storage.write_all Storage.sync_data Storage.sync_dir BTreeMap.insert
    BTreeMap.get Storage.update BTreeMap.contains_key
runs = refl

ran-IsValid : All IsValid ran.log.taken
unfolding run make submit tick Frame.new Timer.pop_due encode_to_vec int_codec to_le_bytes append
    Storage.create_new Storage.write_all Storage.sync_data Storage.sync_dir BTreeMap.insert
    BTreeMap.get Storage.update BTreeMap.contains_key
ran-IsValid = (
  record {
    seq_fits = omega arith;
    timestamp_fits = omega arith;
    stream_fits = omega arith;
    payload_fits = omega arith;
    payload_bytes = omega arith;
  },
  tt,
)

run-Restarts_example :
    Restarts adding u64_codec tt adding-IsTyped ran config 9 (record { state = 42 }) (λ k. k) 1 none
run-Restarts_example =
    run-Restarts adding u64_codec tt adding-IsTyped (int-IsCodec 8) 1 calls 1 none empty_journal
      (λ k. k) (λ k. k) opened ran config 9 (record { state = 42 }) empty_journal-IsFresh
      (omega arith, tt) opens runs ran-IsValid
