-- ===== src/Cluster/Commit/Watermark.antt =====
-- What the commit watermark means.
use ticktape.Base.{
  ℕ, zero, suc, ◌-◌, max, ◌<◌, ◌≤◌, ◌≡◌, refl, ◌↔◌, List, [], ◌∷◌, ltb, leb, if◌then◌else◌, length,
  get_or, All, arith, inl, inr, Bool-cases, ltb→lt, ltb_false→le,
}
use ticktape.Base.BTreeMap.{get, insert}
use ticktape.Cluster.{majority}
use ticktape.Cluster.Commit.{
  CommitTracker, or_genesis, values, insert_desc, sort_desc, committed, acked, record_ack,
}

-- How many of the high waters reach `s`.
abbrev pub count_ge : ℕ → List ℕ → ℕ
count_ge s [] = 0
count_ge s (x ∷ xs) = if leb s x then suc (count_ge s xs) else count_ge s xs

abbrev IsDescending : List ℕ → Type 0
IsDescending [] = Unit {0}
IsDescending (x ∷ xs) = All (λ y. y ≤ x) xs × IsDescending xs

insert_desc-le :
    (x b : ℕ) (ys : List ℕ) → x ≤ b → All (λ y. y ≤ b) ys → All (λ y. y ≤ b) (insert_desc x ys)
unfolding insert_desc
insert_desc-le x b [] h a = (h, tt)
insert_desc-le x b (y ∷ ys) h a = ground (arith, insert_desc-le x b ys h a.1)

All-le : (a b : ℕ) (ys : List ℕ) → a ≤ b → All (λ y. y ≤ a) ys → All (λ y. y ≤ b) ys
All-le a b [] h l = tt
All-le a b (y ∷ ys) h l = (omega arith, All-le a b ys h l.1)

insert_desc-IsDescending : (x : ℕ) (ys : List ℕ) → IsDescending ys → IsDescending (insert_desc x ys)
unfolding insert_desc
insert_desc-IsDescending x [] d = (tt, tt)
insert_desc-IsDescending x (y ∷ ys) d =
    ground (arith, insert_desc-IsDescending x ys d.1, insert_desc-le x y ys, All-le y x ys)

sort_desc-IsDescending : (xs : List ℕ) → IsDescending (sort_desc xs)
unfolding sort_desc
sort_desc-IsDescending [] = tt
sort_desc-IsDescending (x ∷ xs) =
    insert_desc-IsDescending x (sort_desc xs) (sort_desc-IsDescending xs)

count_ge-insert_desc : (s x : ℕ) (ys : List ℕ) → count_ge s (insert_desc x ys) ≡ count_ge s (x ∷ ys)
unfolding insert_desc
count_ge-insert_desc s x [] = refl
count_ge-insert_desc s x (y ∷ ys) = ground (arith, count_ge-insert_desc s x ys)

count_ge-sort_desc : (s : ℕ) (xs : List ℕ) → count_ge s (sort_desc xs) ≡ count_ge s xs
unfolding sort_desc
count_ge-sort_desc s [] = refl
count_ge-sort_desc s (x ∷ xs) =
    ground (arith, count_ge-insert_desc s x (sort_desc xs), count_ge-sort_desc s xs)

get_or-le : (b i : ℕ) (xs : List ℕ) → All (λ y. y ≤ b) xs → get_or xs i 0 ≤ b
get_or-le b i [] a = omega arith
get_or-le b zero (x ∷ xs) a = a.0
get_or-le b (suc i) (x ∷ xs) a = get_or-le b i xs a.1

count_ge_below : (s b : ℕ) (xs : List ℕ) → b < s → All (λ y. y ≤ b) xs → count_ge s xs ≡ 0
count_ge_below s b [] h a = refl
count_ge_below s b (x ∷ xs) h a = ground (arith, count_ge_below s b xs h a.1)

-- In a descending list the entry at `i` reaches `s` exactly when more than `i` entries do.
get_or-count_ge :
    (s i : ℕ) (xs : List ℕ) → 0 < s → IsDescending xs → (s ≤ get_or xs i 0) ↔ (i < count_ge s xs)
get_or-count_ge s i [] h d = (λ l. omega arith, λ l. omega arith)
get_or-count_ge s zero (x ∷ xs) h d = ground (arith, count_ge_below s x xs)
get_or-count_ge s (suc i) (x ∷ xs) h d =
    ground (arith, get_or-count_ge s i xs h d.1, count_ge_below s x xs, get_or-le x i xs)

count_ge-le-length : (s : ℕ) (m : List (ℕ × ℕ)) → count_ge s (values m) ≤ length m
count_ge-le-length s [] = omega arith
count_ge-le-length s ((k, x) ∷ m) = ground (arith, count_ge-le-length s m)

-- The commit watermark reaches a positive seq exactly when the high waters of a majority of the
-- voters do.
pub committed_iff :
    (t : CommitTracker) (s : ℕ)
    → 0 < s
    → (s ≤ committed t) ↔ (majority t.voters ≤ count_ge s (values t.high_waters))
unfolding committed majority
committed_iff t s h = ground (
  arith,
  get_or-count_ge s (majority t.voters - 1) (sort_desc (values t.high_waters)) h
      (sort_desc-IsDescending (values t.high_waters)),
  count_ge-sort_desc s (values t.high_waters),
  count_ge-le-length s t.high_waters,
)

-- Raising one replica's entry loses none of the others.
count_ge-insert :
    (s k v : ℕ) (m : List (ℕ × ℕ))
    → or_genesis (get k m) ≤ v
    → count_ge s (values m) ≤ count_ge s (values (insert k v m))
unfolding get insert
count_ge-insert s k v [] h = ground arith
count_ge-insert s k v ((j, w) ∷ m) h = ground (arith, count_ge-insert s k v m)

-- An acknowledgement, late or repeated, never lowers the watermark.
pub committed-record_ack_le :
    (t : CommitTracker) (replica seq : ℕ) → committed t ≤ (record_ack t replica seq).1
unfolding record_ack acked
committed-record_ack_le t replica seq =
    let next = acked t replica seq in
    let more =
      count_ge-insert (committed t) replica (max (or_genesis (get replica t.high_waters)) seq)
        t.high_waters (omega arith) in
    elim (Bool-cases (ltb 0 (committed t))) [
      | inl some_water ↦
          let pos = ltb→lt 0 (committed t) some_water in
          (committed_iff next (committed t) pos).1
            (omega (arith, more, (committed_iff t (committed t) pos).0 (omega arith)))
      | inr none_yet ↦ omega (arith, ltb_false→le 0 (committed t) none_yet)
    ]

record_ack-committed :
    (t : CommitTracker) (replica seq : ℕ)
    → (record_ack t replica seq).1 ≡ committed (record_ack t replica seq).0
unfolding record_ack
record_ack-committed t replica seq = refl

pub record_acks : CommitTracker → List (ℕ × ℕ) → CommitTracker
record_acks t [] = t
record_acks t ((replica, seq) ∷ acks) = record_acks (record_ack t replica seq).0 acks

-- No history of acknowledgements, late and repeated ones included, lowers the commit watermark.
pub committed-record_acks_le :
    (t : CommitTracker) (acks : List (ℕ × ℕ)) → committed t ≤ committed (record_acks t acks)
unfolding record_acks
committed-record_acks_le t [] = omega arith
committed-record_acks_le t ((replica, seq) ∷ acks) = omega (
  arith,
  committed-record_ack_le t replica seq,
  committed-record_acks_le (record_ack t replica seq).0 acks,
  record_ack-committed t replica seq,
)
