-- ===== src/Journal/Writer.antt =====
-- A journal that holds a log: what its files, its open segment and its flags agree on.
pub mod Segments
pub mod Writes
pub mod Commits
use ticktape.Base.{
  ℕ, ◌+◌, ◌^◌, ◌<◌, ◌≡◌, Bool, true, false, Option, some, List, [], ◌∷◌, ◌++◌, length,
}
use ticktape.Core.Frame.{Frame}
use ticktape.Core.Frame.Runs.{Contiguous, frames_bytes}
use ticktape.Sim.Storage.{FileData, SimFile}
use ticktape.Journal.{Journal, OpenSegment, segment_header_bytes}
use ticktape.Journal.Log.{Sealed, image, start, sealed_frames, AllSealed}

-- The active segment: its durable frames, and those that a crash may lose.
pub record Active : Type 0 where
  pub epoch : ℕ
  pub kept : List Frame
  pub volatile : List Frame

abbrev pub active_frames : Active → List Frame
active_frames a = a.kept ++ a.volatile

abbrev pub active_data : ℕ → Active → FileData
active_data n a = record {
  synced = segment_header_bytes n a.epoch ++ frames_bytes a.kept;
  unsynced = frames_bytes a.volatile;
}

-- The handle of the active segment, live and under its name.
abbrev pub open_file : ℕ → Journal → SimFile
open_file path j = record { path = path; epoch = j.storage.epoch }

pub record Holds (n : ℕ) (ss : List Sealed) (a : Active) (j : Journal) : Type 0 where
  pub files : j.storage.files ≡ image n ss (active_data (start n ss) a)
  pub sealed : AllSealed n ss
  pub first_fits : start n ss < 256 ^ 8
  pub epoch_fits : a.epoch < 256 ^ 8
  pub next_epoch_fits : j.epoch < 256 ^ 8
  pub gapless : Contiguous (start n ss) (active_frames a)
  pub last : j.last_seq + 1 ≡ start n ss + length (active_frames a)
  pub size : ℕ
  pub count : ℕ
  pub opened :
      j.current ≡ some (record { file = open_file (start n ss) j; size = size; frames = count })
  pub counted : 0 < count → 0 < length (active_frames a)
  pub clean : j.dirty ≡ false → a.volatile ≡ []

-- Without frames.
abbrev pub fresh : ℕ → Active
fresh e = record { epoch = e; kept = []; volatile = [] }

abbrev pub settled : Active → Active
settled a = record a { kept = active_frames a; volatile = [] }
