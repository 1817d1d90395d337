-- ===== src/Cluster/Persist.antt =====
-- crates/ticktape-cluster/src/persist.rs: an acceptor that writes its promise to a file, over any
-- storage: `ReadOutcome` is what it returned, and `persist` what writing a record came to.
pub mod OnDisk
pub mod Remembered
mod Tests
use ticktape.Base.{
  ℕ, ◌^◌, Bool, true, false, not, List, [], ◌∷◌, ◌++◌, ltb, ◌==◌, if◌then◌else◌, length, slice, ok,
  err, ◌>>=◌, ◌>>◌, reject_if,
}
use ticktape.Base.Result.{Result}
use ticktape.Core.Bytes.{to_le_bytes, from_le_bytes}
use ticktape.Core.Crc32c.{crc32c_sw}
use ticktape.Cluster.Election.{Acceptor, VoteRequest, VoteReply, new_acceptor, handle}
use ticktape.Transport.Wire.{eq_bytes}
use Prim.Native.String.{String}

pub data PersistError : Type 0 where
  io : PersistError
  corrupt : String → PersistError

-- "TKAP"
abbrev pub magic : List ℕ
magic = 84 ∷ 75 ∷ 65 ∷ 80 ∷ []

abbrev pub record_len : ℕ
record_len = 16

-- Bytes [0, 12) of a record.
pub record_head : ℕ → List ℕ
record_head promised = magic ++ to_le_bytes 8 promised

-- The record that `persist` writes.
pub record_of : ℕ → List ℕ
unfolding record_head
record_of promised = record_head promised ++ to_le_bytes 4 (crc32c_sw (record_head promised))

pub parse_record : List ℕ → Result PersistError ℕ
parse_record bytes = do
  reject_if (not (length bytes == record_len)) (corrupt "wrong length")
  reject_if (not (eq_bytes (slice 0 4 bytes) magic)) (corrupt "bad magic")
  reject_if (not (crc32c_sw (slice 0 12 bytes) == from_le_bytes (slice 12 16 bytes)))
      (corrupt "crc mismatch")
  ok (from_le_bytes (slice 4 12 bytes))

pub data ReadOutcome : Type 0 where
  contents : List ℕ → ReadOutcome
  not_found failed : ReadOutcome

-- The acceptor that has promised `promised` and nothing else.
pub recovered : ℕ → Acceptor
recovered promised =
    if ltb 0 promised then (handle new_acceptor (record { epoch = promised })).0 else new_acceptor

pub open_acceptor : ReadOutcome → Result PersistError Acceptor
unfolding recovered
open_acceptor (contents bytes) = parse_record bytes >>= λ promised. ok (recovered promised)
open_acceptor not_found = ok new_acceptor
open_acceptor failed = err io

-- The acceptor after a request, and the answer or the error: a raised promise is written first.
pub handle_durably :
    (List ℕ → Result PersistError (Unit {0}))
    → Acceptor
    → VoteRequest
    → Acceptor × Result PersistError VoteReply
unfolding record_of
handle_durably persist a request =
    let (a', reply) = handle a request in
    (
      a',
      if ltb a.promised a'.promised
          then (persist (record_of a'.promised) >> ok reply)
          else ok reply,
    )
