-- ===== src/Transport/Reassembler/Gap.antt =====
-- What `gap` reports, that the stream moves on once it is filled, and the bound on memory.
use ticktape.Base.{
  ℕ, suc, ◌+◌, ◌<◌, ◌≤◌, ◌≡◌, ◌⊎◌, refl, sym, ap, subst, ◌∙◌, inl, inr, true, ◌||◌, Option, none,
  some, List, [], ◌∷◌, length, All, arith, Bool-cases, ok, >>=-eq-ok, ltb, ◌==◌,
}
use ticktape.Base.BTreeMap.{
  get, contains_key, insert, remove, first_key, get_below, first_entry, get-insert,
  contains_key-get-some, pop_last, Ascending, pop_last-Ascending,
}
use ticktape.Core.Frame.{Frame}
use ticktape.Transport.{Packet, data_packet, session}
use ticktape.Transport.Reassembler.{
  Reassembler, next_frame, buffer, buffer_all, accept, lock, ingest, gap, known_until, pending_cap,
}
use ticktape.Transport.Reassembler.Order.{accept-next}
use ticktape.Transport.Reassembler.Invariant.{Inv, relock-Inv, buffer_all-Buffered, trim-keeps}

-- No frame of the range is buffered.
abbrev pub IsMissing : List (ℕ × Frame) → ℕ → ℕ → Type 0
IsMissing pending from count = (k : ℕ) → from ≤ k → k < from + count → get k pending ≡ none

-- Where the known part of the stream ends.
abbrev end_of : List (ℕ × Frame) → ℕ → ℕ
end_of m announced = known_until (first_key m) announced

gap-at :
    (m : List (ℕ × Frame)) (next announced k : ℕ)
    → Ascending next m
    → k < end_of m announced
    → get k m ≡ none
unfolding known_until first_key get
gap-at [] next announced k s h = refl
gap-at ((j, w) ∷ m) next announced k s h = ground (arith, get_below k (suc j) m s.1)

end_of-le :
    (m : List (ℕ × Frame)) (announced : ℕ)
    → All (λ (p : ℕ × Frame). p.0 < announced) m
    → end_of m announced ≤ announced
unfolding known_until first_key
end_of-le [] announced h = omega arith
end_of-le ((j, w) ∷ m) announced h = omega arith

gap-range :
    (r : Reassembler) (from count : ℕ)
    → gap r ≡ some (from, count)
    → (from ≡ r.next)
      × (r.next < end_of r.pending r.announced_next)
      × (from + count ≡ end_of r.pending r.announced_next)
unfolding gap
gap-range r from count h = ground arith

gap-end : (r : Reassembler) → gap r ≡ none → end_of r.pending r.announced_next ≤ r.next
unfolding gap
gap-end r h = ground arith

abbrev pub Intact : List (ℕ × Frame) → ℕ → ℕ → Type 0
Intact m next announced = ((f : Frame) × (get next m ≡ some f)) ⊎ ((m ≡ []) × (announced ≤ next))

end_of-Intact :
    (m : List (ℕ × Frame)) (next announced : ℕ)
    → Ascending next m
    → end_of m announced ≤ next
    → Intact m next announced
unfolding known_until first_key get
end_of-Intact [] next announced s h = inr (refl, h)
end_of-Intact ((j, w) ∷ m) next announced s h = inl (w, ground arith)

module _ {Genuine : Frame → Type 0} (r : Reassembler) (v : Inv Genuine r) where
  -- In a state that keeps the invariant, a reported gap starts at the next frame, is not empty,
  -- covers no buffered frame and ends no later than the stream is known to reach.
  pub gap-some :
      (from count : ℕ)
      → gap r ≡ some (from, count)
      → (from ≡ r.next)
        × (0 < count)
        × (from + count ≤ r.announced_next)
        × IsMissing r.pending from count
  gap-some from count h =
      let (start, some_gap, end) = gap-range r from count h in
      (
        start,
        omega arith,
        omega (arith, end_of-le r.pending r.announced_next v.buffered.known),
        λ k lo hi. gap-at r.pending r.next r.announced_next k v.buffered.sorted (omega arith),
      )

  -- In a state that keeps the invariant and reports no gap, the next frame can be popped, or
  -- nothing is buffered and no frame is known to be missing.
  pub gap-none : gap r ≡ none → Intact r.pending r.next r.announced_next
  gap-none h = end_of-Intact r.pending r.next r.announced_next v.buffered.sorted (gap-end r h)

abbrev HasNext : ℕ → List (ℕ × Frame) → Type 0
HasNext n m = (f : Frame) × (get n m ≡ some f)

-- The cap never costs the frame that is due: the farthest are dropped.
pop_last-HasNext :
    (n : ℕ) (m : List (ℕ × Frame))
    → ltb pending_cap (length m) ≡ true
    → Ascending n m × HasNext n m
    → Ascending n (pop_last m) × HasNext n (pop_last m)
unfolding pop_last get
pop_last-HasNext n [] over (s, (f, e)) = cc
pop_last-HasNext n (p ∷ []) over (s, (f, e)) = cc
pop_last-HasNext n ((k, g) ∷ q ∷ m) over (s, (f, e)) =
    let (rest, first) = first_entry n f ((k, g) ∷ q ∷ m) s e in
    let due : k ≡ n = ground arith in (pop_last-Ascending n ((k, g) ∷ q ∷ m) s, (g, ground arith))

held :
    (r : Reassembler) (f : Frame) (n : ℕ)
    → r.next ≡ n
    → (ltb f.seq r.next || contains_key f.seq r.pending) ≡ true
    → f.seq ≡ n
    → HasNext n r.pending
held r f n e duplicate due =
    subst (λ k. HasNext k r.pending) due (contains_key-get-some f.seq r.pending (ground arith))

insert-HasNext :
    (f : Frame) (n : ℕ) (m : List (ℕ × Frame))
    → (f.seq ≡ n) ⊎ HasNext n m
    → HasNext n (insert f.seq f m)
insert-HasNext f n m h = elim (Bool-cases (f.seq == n)) [
  | inl due ↦ (f, get-insert f.seq n f m ∙ rw due)
  | inr other ↦ elim h [
    | inl due ↦ (f, ground arith)
    | inr (g, there) ↦ (g, get-insert f.seq n f m ∙ rw other there)
  ]
]

buffer-HasNext :
    (r : Reassembler) (f : Frame) (n : ℕ)
    → r.next ≡ n
    → (f.seq ≡ n) ⊎ HasNext n r.pending
    → HasNext n (buffer r f).pending
unfolding buffer
buffer-HasNext r f n e h = elim (Bool-cases (ltb f.seq r.next || contains_key f.seq r.pending)) [
  | inl duplicate ↦
      rw duplicate (elim h [ inl due ↦ held r f n e duplicate due | inr there ↦ there ])
  | inr fresh ↦ rw fresh (insert-HasNext f n r.pending h)
]

-- A packet brings the frame with seq `n`.
abbrev pub Brings : ℕ → List Frame → Type 0
Brings n [] = ⊥
Brings n (f ∷ fs) = (f.seq ≡ n) ⊎ Brings n fs

buffer-next : (r : Reassembler) (f : Frame) → (buffer r f).next ≡ r.next
unfolding buffer
buffer-next r f = refl

buffer_all-HasNext :
    (r : Reassembler) (fs : List Frame) (n : ℕ)
    → r.next ≡ n
    → Brings n fs ⊎ HasNext n r.pending
    → HasNext n (buffer_all r fs).pending
unfolding buffer_all
buffer_all-HasNext r [] n e (inr there) = there
buffer_all-HasNext r [] n e (inl h) = absurd h
buffer_all-HasNext r (f ∷ fs) n e (inl (inl due)) =
    buffer_all-HasNext (buffer r f) fs n (buffer-next r f ∙ e)
      (inr (buffer-HasNext r f n e (inl due)))
buffer_all-HasNext r (f ∷ fs) n e (inl (inr later)) =
    buffer_all-HasNext (buffer r f) fs n (buffer-next r f ∙ e) (inl later)
buffer_all-HasNext r (f ∷ fs) n e (inr there) =
    buffer_all-HasNext (buffer r f) fs n (buffer-next r f ∙ e)
      (inr (buffer-HasNext r f n e (inr there)))

accept-HasNext :
    {Genuine : Frame → Type 0} (r : Reassembler) (s : ℕ) (frames : List Frame)
    → All Genuine frames
    → Inv Genuine r
    → Brings r.next frames
    → HasNext r.next (accept r (data_packet s frames)).pending
unfolding accept
accept-HasNext {Genuine} r s frames g v b =
    let r' = buffer_all r frames in
    let sorted : Ascending r.next r'.pending =
      subst (λ n. Ascending n r'.pending) (accept-next r (data_packet s frames))
        (buffer_all-Buffered Genuine r frames g v.buffered).sorted in
    (trim-keeps (λ m. Ascending r.next m × HasNext r.next m) (length r'.pending) r'.pending
      (pop_last-HasNext r.next) (sorted, buffer_all-HasNext r frames r.next refl (inl b))).1

next_frame-some :
    (r : Reassembler) (n : ℕ)
    → r.next ≡ n
    → HasNext n r.pending
    → (f : Frame) × (r' : Reassembler) × (next_frame r ≡ some (f, r')) × (r'.next ≡ n + 1)
unfolding next_frame
next_frame-some r n e (f, there) =
    let here : get r.next r.pending ≡ some f = ap (λ k. get k r.pending) e ∙ there in
    (
      f,
      record r { next = r.next + 1; pending = remove r.next r.pending },
      rw (next_frame, here),
      omega arith,
    )

ingest-accept :
    (r r' : Reassembler) (p : Packet)
    → ingest r p ≡ ok r'
    → (l : Option ℕ) × (r' ≡ accept (record r { locked = l; packets_seen = r.packets_seen + 1 }) p)
unfolding ingest
ingest-accept r r' p e =
    let (l, _, done) = >>=-eq-ok (lock r.locked (session p)) _ e in (l, ground arith)

-- From a state that keeps the invariant, an accepted packet of genuine frames that brings the frame
-- that is due makes the next pop deliver a frame and moves the stream on by one, also when the
-- buffer is full.
pub ingest-next_frame :
    {Genuine : Frame → Type 0} (r r' : Reassembler) (s : ℕ) (frames : List Frame)
    → Inv Genuine r
    → All Genuine frames
    → Brings r.next frames
    → ingest r (data_packet s frames) ≡ ok r'
    → (f : Frame) × (r'' : Reassembler) × (next_frame r' ≡ some (f, r'')) × (r''.next ≡ r.next + 1)
ingest-next_frame {Genuine} r r' s frames v g b e =
    let (l, same) = ingest-accept r r' (data_packet s frames) e in
    let r₁ : Reassembler = record r { locked = l; packets_seen = r.packets_seen + 1 } in
    let there = accept-HasNext r₁ s frames g (relock-Inv Genuine r l (r.packets_seen + 1) v) b in
    next_frame-some r' r.next
      (ap (λ (q : Reassembler). q.next) same ∙ accept-next r₁ (data_packet s frames))
      (subst (λ (q : Reassembler). HasNext r.next q.pending) (sym same) there)
