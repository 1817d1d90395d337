-- ===== src/Runtime/Node/Restart.antt =====
-- A node on its journal: live, then after power loss.
mod Tests
use ticktape.Base.{
  ℕ, ◌+◌, ◌^◌, ◌<◌, ◌≡◌, ◌∙◌, refl, sym, ap, ap₂, subst, Option, List, [], ◌∷◌, ◌++◌, All,
  All-append_left, All-append_right, ok, err, ◌>>=◌, false, inl,
}
use ticktape.Base.Result.{Result}
use ticktape.Base.Method.{Method}
use ticktape.Core.Codec.{Codec}
use ticktape.Core.Codec.Law.{IsCodec}
use ticktape.Core.Frame.{Frame}
use ticktape.Core.Frame.Layout.{IsValid}
use ticktape.Core.Service.{Service}
use ticktape.Sim.Rng.{Rng}
use ticktape.Sim.Storage.{crash}
use ticktape.Journal.{Journal, JournalConfig, JournalError, append, append_batch}
use ticktape.Journal.Filled.{IsFresh, Filled, append-Filled, append_batch-Filled}
use ticktape.Journal.Restarted.{Filled-crash}
use ticktape.Journal.Recovery.{Recovered, Stop, open_with}
use ticktape.Runtime.Commit.{CommitConfig}
use ticktape.Runtime.Node.{Node, NodeError, LogOps}
use ticktape.Runtime.Node.Replay.{open_node, commit_state}
use ticktape.Runtime.Node.Live.{Holding, IsLog, IsTyped}
use ticktape.Runtime.Node.Live.History.{Call, run, IsCall, run-Live}
use ticktape.Runtime.Node.Live.Frames.{Live}

-- The journal of a node, with what its clock says at each of its calls, and the frames it took.
pub record NodeJournal : Type 0 where
  pub journal : Journal
  pub clock : ℕ → ℕ
  pub taken : List Frame

abbrev pub noted :
    NodeJournal
    → List Frame
    → Result JournalError (Unit {0}) × Journal
    → Result JournalError (Unit {0}) × NodeJournal
noted l fs (ok unit, j) =
    (ok tt, record { journal = j; clock = λ k. l.clock (k + 1); taken = l.taken ++ fs })
noted l fs (err e, j) =
    (err e, record { journal = j; clock = λ k. l.clock (k + 1); taken = l.taken })

-- `Journal::append` and `Journal::append_batch`.
abbrev pub journal_ops : LogOps NodeJournal
journal_ops = record {
  append = λ f l. noted l (f ∷ []) (append (l.clock 0) f l.journal);
  append_batch = λ fs l. noted l fs (append_batch (l.clock 0) fs l.journal);
}

abbrev pub Keeps : Holding NodeJournal
Keeps l fs = (l.taken ≡ fs) × (All IsValid fs → Filled l.journal fs)

noted-ok :
    (l l' : NodeJournal) (fs : List Frame) (r : Result JournalError (Unit {0}) × Journal)
    → noted l fs r ≡ (ok tt, l')
    → (r ≡ (ok tt, l'.journal)) × (l.taken ++ fs ≡ l'.taken)
noted-ok l l' fs (ok unit, j) e = (ap (λ x. (ok tt, x.1.journal)) e, ap (λ x. x.1.taken) e)
noted-ok l l' fs (err x, j) e = cc

pub journal_ops-IsLog : IsLog journal_ops Keeps
journal_ops-IsLog = record {
  appends = λ l l' fs f h e.
      let (took, same) = noted-ok l l' (f ∷ []) _ e in
      (
        sym same ∙ ap (λ x. x ++ (f ∷ [])) h.0,
        λ v.
            append-Filled (l.clock 0) f l.journal l'.journal fs
              (All-append_right IsValid fs (f ∷ []) v).0
              (h.1 (All-append_left IsValid fs (f ∷ []) v)) took,
      );
  appends_batch = λ l l' fs gs h e.
      let (took, same) = noted-ok l l' gs _ e in
      (
        sym same ∙ ap (λ x. x ++ gs) h.0,
        λ v.
            append_batch-Filled (l.clock 0) gs l.journal l'.journal fs
              (All-append_right IsValid fs gs v) (h.1 (All-append_left IsValid fs gs v)) took,
      );
}

module _ {Config State Input Output Snapshot Failure : Type 0}
    (app : Service Config State Input Output Snapshot Failure) (codec : Codec Input)
    (config : Config) (typed : IsTyped app) where
  -- The node that is opened from what the crash left.
  pub record Restarts (n : Node State Output NodeJournal) (disk : JournalConfig) (now : ℕ)
      (rng : Rng) (clock : ℕ → ℕ) (stream_id : ℕ) (commit : Option CommitConfig) : Type 0 where
    pub answer : Recovered
    pub opened :
        open_with disk now (crash false n.log.journal.storage rng).0
        ≡ (ok answer, answer.journal.storage)
    pub frames : answer.frames ≡ n.log.taken
    pub node : Node State Output NodeJournal
    pub started :
        open_node app codec config stream_id commit
          (record { journal = answer.journal; clock = clock; taken = answer.frames })
          answer.frames
          answer.first_seq
          answer.journal.last_seq
        ≡ ok node
    pub same_service : node.service ≡ n.service
    pub same_timers : node.timers ≡ n.timers
    pub same_time : node.last_timestamp ≡ n.last_timestamp
    pub same_seq : node.seq ≡ n.seq

  abbrev L : Node State Output NodeJournal → List Frame → Type 0
  L = Live app codec journal_ops Keeps config

  Live-Restarts :
      (n : Node State Output NodeJournal) (fs : List Frame) (disk : JournalConfig) (now : ℕ)
      (rng : Rng) (clock : ℕ → ℕ) (stream_id : ℕ) (commit : Option CommitConfig)
      → L n fs
      → All IsValid n.log.taken
      → Restarts n disk now rng clock stream_id commit
  unfolding open_node
  Live-Restarts n fs disk now rng clock stream_id commit live valid =
      let held = live.stored.1 (subst (All IsValid) live.stored.0 valid) in
      let (answer, opened, back) = Filled-crash n.log.journal fs disk now rng held in
      let log : NodeJournal = record {
        journal = answer.journal;
        clock = clock;
        taken = answer.frames;
      } in
      record {
        answer = answer;
        opened = opened;
        frames = back.frames ∙ sym live.stored.0;
        node = record {
          service = live.rebuilt.service;
          log = log;
          stream_id = stream_id;
          seq = answer.journal.last_seq;
          last_timestamp = live.rebuilt.last_timestamp;
          published = [];
          commit = commit_state app codec commit answer.journal.last_seq;
          timers = live.rebuilt.wheel;
        };
        started =
            ap₂
              (λ first frames.
                open_node app codec config stream_id commit log frames first
                  answer.journal.last_seq)
              back.first back.frames
            ∙ rw live.replayed refl;
        same_service = live.same_service;
        same_timers = live.same_wheel;
        same_time = live.same_time;
        same_seq = back.last ∙ sym live.same_seq;
      }

  -- Under `EveryFrame`, if a node that was opened on an empty disk has taken inputs one at a time
  -- (by submit), ticks and fences, and power is lost between two of these calls, the journal is
  -- opened from what the crash left with all frames it took, and a node that is opened from it has
  -- the same service state, pending timers, sequenced time and seq. Batches of inputs and outputs
  -- that wait for a quorum are not covered. This holds if no call has failed and no surviving byte
  -- is damaged, the inputs are valid, the service asks for timers with u64 ids, the codec of the
  -- inputs keeps the codec laws, and the fields of the frames are within their widths.
  pub run-Restarts :
      {IsInput : Input → Type 0} (coded : IsCodec codec IsInput) (fuel : ℕ)
      (calls : List (Call Input)) (stream_id : ℕ) (commit : Option CommitConfig) (journal : Journal)
      (clock later : ℕ → ℕ) (n n' : Node State Output NodeJournal) (disk : JournalConfig) (now : ℕ)
      (rng : Rng)
      → IsFresh journal
      → All (IsCall IsInput) calls
      → open_node app codec config stream_id commit
          (record { journal = journal; clock = clock; taken = [] })
          []
          1
          0
        ≡ ok n
      → run app codec journal_ops fuel calls n ≡ (ok tt, n')
      → All IsValid n'.log.taken
      → Restarts n' disk now rng later stream_id commit
  run-Restarts coded fuel calls stream_id commit journal clock later n n' disk now rng fresh valid
        opened ran fits =
      let (fs, live) =
        run-Live app codec journal_ops Keeps config journal_ops-IsLog typed coded fuel calls
          stream_id commit _ n n' (refl, λ v. inl (fresh, refl)) valid opened ran in
      Live-Restarts n' fs disk now rng later stream_id commit live fits
