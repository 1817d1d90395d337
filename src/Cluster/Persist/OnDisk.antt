-- ===== src/Cluster/Persist/OnDisk.antt =====
-- crates/ticktape-cluster/src/persist.rs on the simulated disk: PersistentAcceptor with its file.
pub mod Survives
mod Tests
use ticktape.Base.{ℕ, List, ltb, if◌then◌else◌, ok, err}
use ticktape.Base.Result.{Result}
use ticktape.Base.Method.{Method, ◌>>=◌, ◌>>◌}
use ticktape.Sim.Storage.{
  SimStorage, SimFile, IoError, already_exists, not_found, broken_pipe, create_new, truncate,
  open_append, write_all, sync_data, read,
}
use ticktape.Cluster.Election.{Acceptor, VoteRequest, VoteReply}
use ticktape.Cluster.Persist

-- The file of the record, created or cut to nothing.
unfoldable pub or_truncated : ℕ → Result IoError SimFile → Method SimStorage IoError SimFile
or_truncated path (ok file) s = (ok file, s)
or_truncated path (err already_exists) s = (truncate path 0 >> open_append path) s
or_truncated path (err not_found) s = (err not_found, s)
or_truncated path (err broken_pipe) s = (err broken_pipe, s)

unfoldable pub state_file : ℕ → Method SimStorage IoError SimFile
unfolding or_truncated
state_file path s = let (created, s') = create_new path s in or_truncated path created s'

unfoldable pub persist : ℕ → List ℕ → Method SimStorage IoError (Unit {0})
unfolding state_file
persist path bytes = do file ← state_file path; write_all file bytes; sync_data file

-- `From<std::io::Error> for PersistError`.
abbrev pub from_io {ℓ} : {A : Type ℓ} → Result IoError A → Result Persist.PersistError A
from_io (ok a) = ok a
from_io (err e) = err Persist.io

-- What `handle` leaves on the disk: it writes when the promise was raised.
unfoldable pub disk_after : ℕ → Acceptor → Acceptor → SimStorage → SimStorage
unfolding persist
disk_after path a a' s =
    if ltb a.promised a'.promised then (persist path (Persist.record_of a'.promised) s).1 else s

unfoldable pub handle_on_disk :
    ℕ
    → Acceptor
    → VoteRequest
    → SimStorage
    → (Acceptor × Result Persist.PersistError VoteReply) × SimStorage
unfolding disk_after
handle_on_disk path a request s =
    let done = Persist.handle_durably (λ bytes. from_io (persist path bytes s).0) a request in
    (done, disk_after path a done.0 s)

abbrev pub read_outcome : Result IoError (List ℕ) → Persist.ReadOutcome
read_outcome (ok bytes) = Persist.contents bytes
read_outcome (err not_found) = Persist.not_found
read_outcome (err already_exists) = Persist.failed
read_outcome (err broken_pipe) = Persist.failed

unfoldable pub open_on_disk : ℕ → SimStorage → Result Persist.PersistError Acceptor
open_on_disk path s = Persist.open_acceptor (read_outcome (read path s).0)
