-- ===== src/Runtime/Node/Tests.antt =====
-- A small service on a node.
use ticktape.Base.{
  ℕ, ◌+◌, ◌*◌, ◌≡◌, refl, subst, none, List, [], ◌∷◌, ◌++◌, All, ok, arith, All-append, ◌>>=◌,
}
use ticktape.Base.Result.{Result}
use ticktape.Base.BTreeMap
use ticktape.Base.SortedSet
use ticktape.Core.Bytes.{to_le_bytes, from_le_bytes}
use ticktape.Core.Codec.{u64_codec, encode_to_vec, decode_all, int_codec, take_bytes}
use ticktape.Core.Codec.Instances.{int-IsCodec}
use ticktape.Core.Frame.{Frame}
use ticktape.Core.Frame
use ticktape.Core.Service.{Service, Ctx, set_timer, emit}
use ticktape.Runtime.Timer
use ticktape.Runtime.Node.{Node, NodeError, LogOps, submit, submit_batch, tick}
use ticktape.Runtime.Node.Replay.{open_node}
use ticktape.Runtime.Node.Live.{IsLog, IsTyped, IdFits, Holding}
use ticktape.Runtime.Node.Live.History.{Call, submits, ticks, make, run, Reopens, run-Reopens}

-- An input doubles the state and is added to it; a timer that is due `delay` later adds one.
abbrev doubling : ℕ → Service (Unit {0}) ℕ ℕ ℕ ℕ (Unit {0})
doubling delay = record {
  schema_version = 0;
  genesis = λ config. 0;
  apply = λ seq x s ctx. ok (s * 2 + x, set_timer ctx 7 (ctx.now + delay));
  on_timer = λ id s ctx. ok (s + 1, emit ctx s);
  snapshot = λ s. s;
  restore = λ s config. s;
}

abbrev Doubled : Type 0
Doubled = Node ℕ ℕ (List Frame)

-- A journal that is the list of its frames.
abbrev in_memory : LogOps (List Frame)
in_memory = record {
  append = λ f log. (ok tt, log ++ (f ∷ []));
  append_batch = λ fs log. (ok tt, log ++ fs);
}

abbrev Same : Holding (List Frame)
Same log fs = log ≡ fs

in_memory-IsLog : IsLog in_memory Same
in_memory-IsLog = record {
  appends = λ log log' fs f h e. cc;
  appends_batch = λ log log' fs gs h e. cc;
}

doubling-IsTyped : (delay : ℕ) → IsTyped (doubling delay)
unfolding set_timer emit
doubling-IsTyped delay = record {
  apply_fits = λ seq x s s' ctx ctx' h e.
      let made : set_timer ctx 7 (ctx.now + delay) ≡ ctx' = cc in
      subst (λ (c : Ctx ℕ). All IdFits c.timers) made
        (All-append IdFits ctx.timers _ h (omega arith, tt));
  on_timer_fits = λ id s s' ctx ctx' h e.
      let made : emit ctx s ≡ ctx' = cc in subst (λ (c : Ctx ℕ). All IdFits c.timers) made h;
}

abbrev opened : Doubled
opened = record {
  service = 0;
  log = [];
  stream_id = 1;
  seq = 0;
  last_timestamp = 0;
  published = [];
  commit = none;
  timers = record { by_id = []; order = [] };
}

abbrev calls : List (Call ℕ)
calls = submits 10 5 ∷ ticks 30 ∷ submits 25 3 ∷ []

abbrev ran : Doubled
ran = (run (doubling 4) u64_codec in_memory 3 calls opened).1

opens : open_node (doubling 4) u64_codec tt 1 none [] [] 1 0 ≡ ok opened
unfolding open_node Timer.new
opens = refl

runs : run (doubling 4) u64_codec in_memory 3 calls opened ≡ (ok tt, ran)
unfolding run make submit tick Frame.new Timer.set Timer.pop_due SortedSet.insert SortedSet.remove
    BTreeMap.insert BTreeMap.remove BTreeMap.get encode_to_vec int_codec to_le_bytes set_timer emit
    Timer.apply Timer.by_deadline
runs = refl

run-Reopens_example :
    Reopens (doubling 4) u64_codec in_memory Same tt in_memory-IsLog (doubling-IsTyped 4) ran none 1
run-Reopens_example =
    run-Reopens (doubling 4) u64_codec in_memory Same tt in_memory-IsLog (doubling-IsTyped 4)
      (int-IsCodec 8) 3 calls 1 none [] opened ran refl (omega arith, (tt, (omega arith, tt))) opens
      runs

-- A batch of two inputs, the first of which makes a timer due: the timer fires between the two, but
-- its frame comes after both. The live service is not the replayed one.
abbrev batched : Doubled
batched = (submit_batch (doubling 0) u64_codec in_memory 3 10 (5 ∷ 3 ∷ []) opened).1

batch_live : batched.service ≡ 16
unfolding submit_batch Frame.new Timer.apply Timer.set Timer.pop_due SortedSet.insert
    SortedSet.remove BTreeMap.insert BTreeMap.remove BTreeMap.get encode_to_vec int_codec
    to_le_bytes set_timer emit Timer.by_deadline
batch_live = refl

batch_replayed :
    ◌≡◌ {A = Result (NodeError (Unit {0})) ℕ}
      (open_node (doubling 0) u64_codec tt 1 none batched.log batched.log 1 batched.seq >>= λ n.
        ok n.service)
      (ok 15)
unfolding submit_batch Frame.new Timer.apply Timer.set Timer.pop_due SortedSet.insert
    SortedSet.remove BTreeMap.insert BTreeMap.remove BTreeMap.get encode_to_vec int_codec
    to_le_bytes set_timer emit Timer.by_deadline Timer.new Timer.cancel open_node decode_all
    take_bytes from_le_bytes
batch_replayed = refl
