-- ===== src/Runtime/Commit/Quorum.antt =====
-- Histories of a leader's frames and of acknowledgements.
pub mod Majority
use ticktape.Base.{
  ℕ, suc, ◌≤◌, ◌<◌, ◌≡◌, ◌∙◌, refl, sym, ap, subst, max, Option, none, some, List, [], ◌∷◌, ◌++◌,
  All, arith, append-nil, append_assoc, All-append, All-map,
}
use ticktape.Base.BTreeMap.{get, insert, Ascending, insert-Ascending, All-insert, All-get}
use ticktape.Cluster.Commit.{or_genesis, record_ack, acked}
use ticktape.Cluster.Commit.Watermark.{committed-record_ack_le}
use ticktape.Runtime.Commit.{
  CommitState, CommitConfig, new, noted, watermark, drained, drain_committed, withhold, acknowledge,
}
use ticktape.Runtime.Commit.Release.{
  IsValid, drained-Drained, watermark-le, watermark-committed, tracker,
}

insert-last {ℓ} :
    {V : Type ℓ} (n top k : ℕ) (v : V) (m : List (ℕ × V))
    → Ascending n m
    → All (λ p. p.0 ≤ top) m
    → top < k
    → insert k v m ≡ m ++ ((k, v) ∷ [])
unfolding insert
insert-last n top k v [] a b h = refl
insert-last n top k v ((j, w) ∷ m) a b h =
    ground (arith, b.0, h, insert-last (suc j) top k v m a.1 b.1 h)

All-weaken_le {ℓ} :
    {V : Type ℓ} (a b : ℕ) (m : List (ℕ × V)) → a ≤ b → All (λ p. p.0 ≤ a) m → All (λ p. p.0 ≤ b) m
All-weaken_le a b m h = All-map (λ p. p.0 ≤ a) (λ p. p.0 ≤ b) (λ p le. omega arith) m

-- A frame of the leader with its outputs, or an acknowledgement.
pub data Event (O : Type 0) : Type 0 where
  sequenced : ℕ → List O → Event O
  acknowledged : ℕ → ℕ → Event O

module _ {O : Type 0} where
  pub step : CommitState O → Event O → CommitState O × List (ℕ × List O)
  step s (sequenced seq outputs) = withhold s seq outputs
  step s (acknowledged replica seq) = acknowledge s replica seq

  pub run : CommitState O → List (Event O) → CommitState O × List (ℕ × List O)
  unfolding step
  run s [] = (s, [])
  run s (e ∷ es) = let (s1, out) = step s e in let (s2, more) = run s1 es in (s2, out ++ more)

  -- The leader's frames have growing seqs, and no replica acknowledges a frame that is not there.
  abbrev pub InOrder : ℕ → List (Event O) → Type 0
  InOrder top [] = Unit {0}
  InOrder top (sequenced seq outputs ∷ es) = (top < seq) × InOrder seq es
  InOrder top (acknowledged replica seq ∷ es) = (seq ≤ top) × InOrder top es

  abbrev pub all_outputs : List (Event O) → List (ℕ × List O)
  all_outputs [] = []
  all_outputs (sequenced seq outputs ∷ es) = (seq, outputs) ∷ all_outputs es
  all_outputs (acknowledged replica seq ∷ es) = all_outputs es

  noted-IsValid :
      (top replica seq : ℕ) (s : CommitState O)
      → IsValid top s
      → seq ≤ top
      → IsValid top (noted s replica seq)
  unfolding noted
  noted-IsValid top replica seq s v h = record {
    waters =
        All-insert (λ w. w.1 ≤ top) replica _ s.high_waters (water (get replica s.high_waters) refl)
          v.waters;
    waiting = v.waiting;
    below = v.below;
    reached = v.reached;
  }
    where
      water : (o : Option ℕ) → get replica s.high_waters ≡ o → max (or_genesis o) seq ≤ top
      water none e = omega arith
      water (some w) e = omega (arith, All-get (λ w. w.1 ≤ top) replica w s.high_waters e v.waters)

  noted-watermark_le :
      (replica seq : ℕ) (s : CommitState O) → watermark s ≤ watermark (noted s replica seq)
  unfolding noted record_ack acked
  noted-watermark_le replica seq s = omega (
    arith,
    watermark-committed s,
    watermark-committed (noted s replica seq),
    committed-record_ack_le (tracker s) replica seq,
  )

  -- The released entries and those that wait are, in order, those that waited and those added; what
  -- was released the watermark has passed.
  pub record Released (top : ℕ) (s : CommitState O) (added : List (ℕ × List O))
      (r : CommitState O × List (ℕ × List O)) : Type 0 where
    pub conserved : r.1 ++ r.0.pending ≡ s.pending ++ added
    pub backed : All (λ p. p.0 ≤ watermark r.0) r.1
    pub monotone : watermark s ≤ watermark r.0
    -- What waits lies above the watermark.
    pub prompt : Ascending (suc (watermark r.0)) r.0.pending
    pub valid : IsValid top r.0

  drain_committed-Released :
      (top : ℕ) (s : CommitState O) → IsValid top s → Released top s [] (drain_committed s)
  unfolding drain_committed
  drain_committed-Released top s v =
      let d = drained-Drained top (watermark s) s v (watermark-le top s v.waters) in
      record {
        conserved = d.conserved ∙ sym (append-nil s.pending);
        backed =
            subst (λ m. All (λ p. p.0 ≤ m) (drained s (watermark s)).1) (sym d.same_waters)
              d.backed;
        monotone = omega (arith, d.same_waters);
        prompt =
            subst (λ m. Ascending (suc m) (drained s (watermark s)).0.pending) (sym d.same_waters)
              d.prompt;
        valid = d.valid;
      }

  acknowledge-Released :
      (top replica seq : ℕ) (s : CommitState O)
      → IsValid top s
      → seq ≤ top
      → Released top s [] (acknowledge s replica seq)
  unfolding acknowledge noted
  acknowledge-Released top replica seq s v h =
      let r =
        drain_committed-Released top (noted s replica seq) (noted-IsValid top replica seq s v h) in
      record {
        conserved = r.conserved;
        backed = r.backed;
        monotone = omega (arith, r.monotone, noted-watermark_le replica seq s);
        prompt = r.prompt;
        valid = r.valid;
      }

  abbrev holding : CommitState O → ℕ → List O → CommitState O
  holding s seq outputs = record s { pending = insert seq outputs s.pending }

  holding-IsValid :
      (top seq : ℕ) (outputs : List O) (s : CommitState O)
      → IsValid top s
      → top < seq
      → IsValid seq (holding s seq outputs)
  holding-IsValid top seq outputs s v h = record {
    waters = All-map (λ w. w.1 ≤ top) (λ w. w.1 ≤ seq) (λ w le. omega arith) s.high_waters v.waters;
    waiting =
        insert-Ascending seq (suc s.committed) outputs s.pending (omega (arith, v.reached))
          v.waiting;
    below =
        All-insert (λ p. p.0 ≤ seq) seq outputs s.pending (omega arith)
          (All-weaken_le top seq s.pending (omega arith) v.below);
    reached = omega (arith, v.reached);
  }

  withhold-Released :
      (top seq : ℕ) (outputs : List O) (s : CommitState O)
      → IsValid top s
      → top < seq
      → Released seq s ((seq, outputs) ∷ []) (withhold s seq outputs)
  unfolding withhold noted watermark
  withhold-Released top seq outputs s v h =
      let held = holding s seq outputs in
      let r =
        acknowledge-Released seq s.self_replica seq held (holding-IsValid top seq outputs s v h)
          (omega arith) in
      record {
        conserved =
            unfold acknowledge in
            r.conserved
            ∙ append-nil held.pending
            ∙ insert-last (suc s.committed) top seq outputs s.pending v.waiting v.below h;
        backed = unfold acknowledge in r.backed;
        monotone = unfold acknowledge in r.monotone;
        prompt = unfold acknowledge in r.prompt;
        valid = unfold acknowledge in r.valid;
      }

  abbrev pub last_seq : ℕ → List (Event O) → ℕ
  last_seq top [] = top
  last_seq top (sequenced seq outputs ∷ es) = last_seq seq es
  last_seq top (acknowledged replica seq ∷ es) = last_seq top es

  -- One step and the rest of the history.
  Released-then :
      (top1 top2 : ℕ) (s : CommitState O) (added rest : List (ℕ × List O))
      (r1 r2 : CommitState O × List (ℕ × List O))
      → Released top1 s added r1
      → Released top2 r1.0 rest r2
      → Released top2 s (added ++ rest) (r2.0, r1.1 ++ r2.1)
  Released-then top1 top2 s added rest r1 r2 a b = record {
    conserved =
        append_assoc r1.1 r2.1 r2.0.pending
        ∙ ap (λ l. r1.1 ++ l) b.conserved
        ∙ sym (append_assoc r1.1 r1.0.pending rest)
        ∙ ap (λ l. l ++ rest) a.conserved
        ∙ append_assoc s.pending added rest;
    backed =
        All-append (λ p. p.0 ≤ watermark r2.0) r1.1 r2.1
          (All-weaken_le (watermark r1.0) (watermark r2.0) r1.1 b.monotone a.backed) b.backed;
    monotone = omega (arith, a.monotone, b.monotone);
    prompt = b.prompt;
    valid = b.valid;
  }

  run-Released :
      (top : ℕ) (es : List (Event O)) (s : CommitState O)
      → IsValid top s
      → Ascending (suc (watermark s)) s.pending
      → InOrder top es
      → Released (last_seq top es) s (all_outputs es) (run s es)
  unfolding run step
  run-Released top [] s v prompt h = record {
    conserved = sym (append-nil s.pending);
    backed = tt;
    monotone = omega arith;
    prompt = prompt;
    valid = v;
  }
  run-Released top (sequenced seq outputs ∷ es) s v prompt h =
      let r = withhold s seq outputs in
      let first = withhold-Released top seq outputs s v h.0 in
      Released-then seq (last_seq seq es) s ((seq, outputs) ∷ []) (all_outputs es) r (run r.0 es)
        first (run-Released seq es r.0 first.valid first.prompt h.1)
  run-Released top (acknowledged replica seq ∷ es) s v prompt h =
      let r = acknowledge s replica seq in
      let first = acknowledge-Released top replica seq s v h.0 in
      Released-then top (last_seq top es) s [] (all_outputs es) r (run r.0 es) first
        (run-Released top es r.0 first.valid first.prompt h.1)

  pub new-Released :
      (config : CommitConfig) (tip : ℕ) (es : List (Event O))
      → InOrder tip es
      → Released (last_seq tip es) (new config tip) (all_outputs es) (run (new config tip) es)
  unfolding new
  new-Released config tip es h =
      run-Released tip es (new config tip)
        (record { waters = (omega arith, tt); waiting = tt; below = tt; reached = omega arith }) tt
        h
