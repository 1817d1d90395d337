-- ===== src/Journal/Log.antt =====
-- The abstract log behind a journal, and the files that hold it.
pub mod Grown
use ticktape.Base.{
  ℕ, suc, ◌+◌, ◌^◌, ◌<◌, ◌≤◌, ◌≡◌, refl, sym, ap, ◌∙◌, Option, some, List, [], ◌∷◌, ◌++◌, length,
  All, All-map, ◌==◌, if◌then◌else◌, arith,
}
use ticktape.Base.BTreeMap.{get, contains_key, insert, Ascending, Ascending-weaken, get_below}
use ticktape.Core.Frame.{Frame}
use ticktape.Core.Frame.Runs.{Contiguous, frames_bytes}
use ticktape.Sim.Storage.{FileData, Files, update}
use ticktape.Journal.{segment_header_bytes}

-- A segment that is no longer written.
pub record Sealed : Type 0 where
  pub epoch : ℕ
  pub frames : List Frame

abbrev pub sealed_data : ℕ → Sealed → FileData
sealed_data n s = record {
  synced = segment_header_bytes n s.epoch ++ frames_bytes s.frames;
  unsynced = [];
}

-- The files of sealed segments from seq `n` on and of an active one.
abbrev pub image : ℕ → List Sealed → FileData → Files
image n [] d = (n, d) ∷ []
image n (s ∷ ss) d = (n, sealed_data n s) ∷ image (n + length s.frames) ss d

-- The first seq of the active segment.
abbrev pub start : ℕ → List Sealed → ℕ
start n [] = n
start n (s ∷ ss) = start (n + length s.frames) ss

abbrev pub sealed_frames : List Sealed → List Frame
sealed_frames [] = []
sealed_frames (s ∷ ss) = s.frames ++ sealed_frames ss

-- The sealed segments are gapless from `n` on, and none is empty.
pub record IsSealed (n : ℕ) (s : Sealed) : Type 0 where
  pub first_fits : n < 256 ^ 8
  pub epoch_fits : s.epoch < 256 ^ 8
  pub gapless : Contiguous n s.frames
  pub filled : 0 < length s.frames

abbrev pub AllSealed : ℕ → List Sealed → Type 0
AllSealed n [] = Unit {0}
AllSealed n (s ∷ ss) = IsSealed n s × AllSealed (n + length s.frames) ss

pub le-start : (n : ℕ) (ss : List Sealed) → n ≤ start n ss
le-start n [] = omega arith
le-start n (s ∷ ss) = omega (arith, le-start (n + length s.frames) ss)

pub image-Ascending :
    (n : ℕ) (ss : List Sealed) (d : FileData) → AllSealed n ss → Ascending n (image n ss d)
image-Ascending n [] d h = (omega arith, tt)
image-Ascending n (s ∷ ss) d h = (
  omega arith,
  Ascending-weaken (suc n) (n + length s.frames) _ (omega (arith, h.0.filled))
      (image-Ascending (n + length s.frames) ss d h.1),
)

-- Each entry of `m` is found in `files`.
abbrev pub Found : Files → Files → Type 0
Found files [] = Unit {0}
Found files ((p, d) ∷ m) = (get p files ≡ some d) × Found files m

Found-cons :
    (p n : ℕ) (d : FileData) (files m : Files)
    → p < n
    → Ascending n m
    → Found files m
    → Found ((p, d) ∷ files) m
unfolding get
Found-cons p n d files [] h a f = tt
Found-cons p n d files ((q, e) ∷ m) h a f =
    (ground (arith, f.0), Found-cons p (suc q) d files m (omega (arith, a.0)) a.1 f.1)

Found-self : (n : ℕ) (m : Files) → Ascending n m → Found m m
unfolding get
Found-self n [] a = tt
Found-self n ((p, d) ∷ m) a =
    (ground arith, Found-cons p (suc p) d m m (omega arith) a.1 (Found-self (suc p) m a.1))

pub Found-image :
    (n : ℕ) (ss : List Sealed) (d : FileData) → AllSealed n ss → Found (image n ss d) (image n ss d)
Found-image n ss d h = Found-self n (image n ss d) (image-Ascending n ss d h)

-- The active file is found under the first seq of its segment, and can be changed there.
pub get-image :
    (n : ℕ) (ss : List Sealed) (d : FileData)
    → AllSealed n ss
    → get (start n ss) (image n ss d) ≡ some d
unfolding get
get-image n [] d h = ground arith
get-image n (s ∷ ss) d h =
    ground (
      arith,
      get-image (n + length s.frames) ss d h.1,
      le-start (n + length s.frames) ss,
      h.0.filled,
    )

pub update-image :
    (n : ℕ) (ss : List Sealed) (d : FileData) (f : FileData → FileData)
    → AllSealed n ss
    → update (start n ss) f (image n ss d) ≡ image n ss (f d)
unfolding update
update-image n [] d f h = ground arith
update-image n (s ∷ ss) d f h = ground (
  arith,
  update-image (n + length s.frames) ss d f h.1,
  le-start (n + length s.frames) ss,
  h.0.filled,
)
