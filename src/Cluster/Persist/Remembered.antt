-- ===== src/Cluster/Persist/Remembered.antt =====
-- The record behind a grant, and the acceptor that is read back from it.
use ticktape.Base.{
  ℕ, ◌^◌, ◌<◌, ◌≤◌, ◌≡◌, refl, sym, ap, ◌∙◌, true, false, List, ltb, length, slice, ok, err, arith,
  ◌>>=◌, ◌>>◌, Bool-cases, inl, inr,
}
use ticktape.Base.Result.{Result}
use ticktape.Core.Bytes.{to_le_bytes, from_le_bytes}
use ticktape.Core.Crc32c.{crc32c_sw, crc32c_sw-lt}
use ticktape.Cluster.Election.{Acceptor, VoteRequest, grant, reject, new_acceptor, handle}
use ticktape.Transport.Wire.{eq_bytes}
use ticktape.Transport.Wire.Packets.{field_back}
use ticktape.Cluster.Persist.{
  PersistError, magic, record_head, record_of, parse_record, contents, recovered, open_acceptor,
  handle_durably,
}

module _ (promised : ℕ) where
  record-magic : slice 0 4 (record_of promised) ≡ magic
  unfolding record_of record_head to_le_bytes
  record-magic = refl

  record-promised : slice 4 12 (record_of promised) ≡ to_le_bytes 8 promised
  unfolding record_of record_head to_le_bytes
  record-promised = refl

  record-crc :
      slice 12 16 (record_of promised) ≡ to_le_bytes 4 (crc32c_sw (slice 0 12 (record_of promised)))
  unfolding record_of record_head to_le_bytes
  record-crc = refl

  length-record_of : length (record_of promised) ≡ 16
  unfolding record_of record_head to_le_bytes
  length-record_of = refl

parse_record-passes :
    (bytes : List ℕ)
    → length bytes ≡ 16
    → eq_bytes (slice 0 4 bytes) magic ≡ true
    → crc32c_sw (slice 0 12 bytes) ≡ from_le_bytes (slice 12 16 bytes)
    → parse_record bytes ≡ ok (from_le_bytes (slice 4 12 bytes))
unfolding parse_record
parse_record-passes bytes n m c = ground arith

pub parse_record-record_of :
    (promised : ℕ) → promised < 256 ^ 8 → parse_record (record_of promised) ≡ ok promised
parse_record-record_of promised h =
    parse_record-passes (record_of promised) (length-record_of promised)
      (ap (λ m. eq_bytes m magic) (record-magic promised))
      (sym (field_back 4 _ _ (crc32c_sw-lt _) (record-crc promised)))
    ∙ ap ok (field_back 8 promised _ h (record-promised promised))

pub recovered-promised : (promised : ℕ) → (recovered promised).promised ≡ promised
unfolding recovered handle new_acceptor
recovered-promised promised = ground arith

pub handle-stale :
    (a : Acceptor) (e : ℕ) (request : VoteRequest)
    → a.promised ≡ e
    → request.epoch ≤ e
    → (handle a request).1 ≡ reject e
unfolding handle
handle-stale a e request p h = ground arith

module _ (persist : List ℕ → Result PersistError (Unit {0})) (a : Acceptor)
    (request : VoteRequest) where
  pub handle_durably-raised :
      ltb a.promised request.epoch ≡ true
      → (handle_durably persist a request).1
        ≡ (persist (record_of request.epoch) >> ok (grant request.epoch a.high_water))
  unfolding handle_durably handle
  handle_durably-raised h = ground (arith, h)

  pub handle_durably-stale :
      ltb a.promised request.epoch ≡ false
      → (handle_durably persist a request).1 ≡ ok (reject a.promised)
  unfolding handle_durably handle
  handle_durably-stale h = ground (arith, h)

pub written_first :
    (written : Result PersistError (Unit {0})) (r e h h' : ℕ)
    → (written >> ok (grant r h')) ≡ ok (grant e h)
    → (written ≡ ok tt) × (r ≡ e)
written_first (ok done) r e h h' eq = (refl, cc eq)
written_first (err x) r e h h' eq = cc eq

-- A grant was written before it was given.
grant-written :
    (persist : List ℕ → Result PersistError (Unit {0})) (a : Acceptor) (request : VoteRequest)
    (e high_water : ℕ)
    → (handle_durably persist a request).1 ≡ ok (grant e high_water)
    → persist (record_of e) ≡ ok tt
grant-written persist a request e high_water h = elim (Bool-cases (ltb a.promised request.epoch)) [
  | inl raised ↦
      let (written, same) =
        written_first (persist (record_of request.epoch)) request.epoch e high_water a.high_water
          (sym (handle_durably-raised persist a request raised) ∙ h) in
      ap (λ n. persist (record_of n)) (sym same) ∙ written
  | inr stale ↦ absurd (cc (handle_durably-stale persist a request stale, h))
]

-- Whatever writing a record comes to, when an epoch below 2 ^ 64 is granted, its record was
-- written; and an acceptor that is opened from that record rejects every request for that epoch or
-- an earlier one.
pub granted-Remembered :
    (persist : List ℕ → Result PersistError (Unit {0})) (a : Acceptor) (request : VoteRequest)
    (e high_water : ℕ)
    → e < 256 ^ 8
    → (handle_durably persist a request).1 ≡ ok (grant e high_water)
    → (persist (record_of e) ≡ ok tt)
      × (b : Acceptor) × (open_acceptor (contents (record_of e)) ≡ ok b)
      × ((later : VoteRequest) → later.epoch ≤ e → (handle b later).1 ≡ reject e)
unfolding open_acceptor
granted-Remembered persist a request e high_water fits h = (
  grant-written persist a request e high_water h,
  recovered e,
  ap (λ r. r >>= λ promised. ok (recovered promised)) (parse_record-record_of e fits),
  λ later old. handle-stale (recovered e) e later (recovered-promised e) old,
)
