-- ===== src/Gateway/Flow/ExactlyOnce.antt =====
-- Each command is sequenced once, and in order.
use ticktape.Base.{
  ℕ, zero, suc, ◌+◌, ◌≡◌, refl, ap, ◌∙◌, List, [], ◌∷◌, ◌++◌, length, length-append, arith, sym,
  ap₂,
}
use ticktape.Gateway.Flow.{
  SessionFlow, resume, admit, on_acked, Event, command, acked, admitted, run,
}

-- `from`, `from + 1`, … : `n` numbers.
abbrev pub consecutive : ℕ → ℕ → List ℕ
consecutive from zero = []
consecutive from (suc n) = from ∷ consecutive (from + 1) n

-- One command is either the next one and moves the session on, or leaves it as it is.
pub admit_cases :
    (f : SessionFlow) (client_seq : ℕ)
    → (admitted (admit f client_seq).1 client_seq
        ≡ consecutive f.next (length (admitted (admit f client_seq).1 client_seq)))
      × ((admit f client_seq).0.next ≡ f.next + length (admitted (admit f client_seq).1 client_seq))
unfolding admit
admit_cases f client_seq = ground arith

consecutive-append :
    (from m n : ℕ) → consecutive from m ++ consecutive (from + m) n ≡ consecutive from (m + n)
consecutive-append from zero n = ground (arith, zero_shift from n)
  where
    zero_shift : (a b : ℕ) → consecutive (a + 0) b ≡ consecutive a (0 + b)
    zero_shift a b = ap₂ consecutive (omega arith) (omega arith)
consecutive-append from (suc m) n =
    ap (λ l. from ∷ l)
      (ap (λ l. consecutive (from + 1) m ++ l) (next_start from m n)
        ∙ consecutive-append (from + 1) m n)
    ∙ next_count from m n
  where
    next_start : (a b c : ℕ) → consecutive (a + suc b) c ≡ consecutive (a + 1 + b) c
    next_start a b c = ap₂ consecutive (omega arith) refl

    suc_plus : (b c : ℕ) → suc (b + c) ≡ suc b + c
    suc_plus b c = omega arith

    next_count : (a b c : ℕ) → consecutive a (suc (b + c)) ≡ consecutive a (suc b + c)
    next_count a b c = ap (consecutive a) (suc_plus b c)

-- Commands taken so far, then those taken from the state they lead to.
joined :
    (from next : ℕ) (xs ys : List ℕ)
    → xs ≡ consecutive from (length xs)
    → next ≡ from + length xs
    → ys ≡ consecutive next (length ys)
    → xs ++ ys ≡ consecutive from (length (xs ++ ys))
joined from next xs ys p e q =
    ap₂ (λ u v. u ++ v) p (q ∙ ap₂ consecutive e refl)
    ∙ consecutive-append from (length xs) (length ys)
    ∙ ap (consecutive from) (sym (length-append xs ys))

run-consecutive :
    (f : SessionFlow) (es : List Event)
    → ((run f es).1 ≡ consecutive f.next (length (run f es).1))
      × ((run f es).0.next ≡ f.next + length (run f es).1)
unfolding run on_acked
run-consecutive f [] = (refl, omega arith)
run-consecutive f (command client_seq ∷ es) =
    let f' = (admit f client_seq).0 in
    let now = admitted (admit f client_seq).1 client_seq in
    let (taken, moved) = admit_cases f client_seq in
    let (later, end) = run-consecutive f' es in
    (
      joined f.next f'.next now (run f' es).1 taken moved later,
      omega (arith, moved, end, length-append now (run f' es).1),
    )
run-consecutive f (acked ∷ es) = run-consecutive (on_acked f) es

-- Whatever a client sends and repeats, the commands that its session sequences are the numbers
-- after the last admitted one, each once, in order and without a gap, and the session expects the
-- number after them.
pub exactly_once :
    (last_admitted window : ℕ) (es : List Event)
    → let s = run (resume last_admitted window) es in
      (s.1 ≡ consecutive (last_admitted + 1) (length s.1))
      × (s.0.next ≡ last_admitted + 1 + length s.1)
unfolding resume
exactly_once last_admitted window es = run-consecutive (resume last_admitted window) es
