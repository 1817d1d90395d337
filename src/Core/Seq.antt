-- ===== src/Core/Seq.antt =====
-- crates/ticktape-core/src/seq.rs: sequence numbers and sequenced time are u64 newtypes; the model
-- is the number. `next` adds one; the process aborts before a u64 of frames is used up.
use ticktape.Base.{ℕ, ◌+◌}

abbrev pub genesis : ℕ
genesis = 0

abbrev pub next : ℕ → ℕ
next seq = seq + 1

-- The wrappers add nothing to the number.
abbrev pub Seq : Type 0
Seq = ℕ

abbrev pub Timestamp : Type 0
Timestamp = ℕ

abbrev pub zero_timestamp : Timestamp
zero_timestamp = 0

abbrev pub from_nanos : ℕ → Timestamp
from_nanos nanos = nanos

abbrev pub as_nanos : Timestamp → ℕ
as_nanos t = t
