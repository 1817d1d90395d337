-- ===== src/Sim/Storage.antt =====
-- crates/ticktape-sim/src/storage.rs: the simulated disk, an implementation of the traits of
-- crates/ticktape-journal/src/storage.rs. The disk is the one directory of a journal, and a
-- segment's path is the number that names it: `{:020}.seg` sorts and compares as the number does.
pub mod Calls
use ticktape.Base.{
  ℕ, zero, suc, ◌+◌, ◌%◌, ◌^◌, Bool, true, false, ◌&&◌, Option, none, some, List, [], ◌∷◌, ◌++◌,
  ltb, ◌==◌, if◌then◌else◌, length, take, ok, err,
}
use ticktape.Base.Result.{Result}
use ticktape.Base.Method.{Method}
use ticktape.Base.BTreeMap.{get, contains_key, insert, remove}
use ticktape.Sim.Rng.{Rng, below, chance}
use Prim.Native.Nat.{bit_xor}

pub record FileData : Type 0 where
  pub synced : List ℕ
  pub unsynced : List ℕ

unfoldable pub empty_file : FileData
empty_file = record { synced = []; unsynced = [] }

abbrev pub combined : FileData → List ℕ
combined d = d.synced ++ d.unsynced

abbrev pub file_len : FileData → ℕ
file_len d = length d.synced + length d.unsynced

pub data IoError : Type 0 where
  broken_pipe not_found already_exists : IoError

abbrev pub Files : Type 0
Files = List (ℕ × FileData)

pub record SimStorage : Type 0 where
  pub files : Files
  pub epoch : ℕ

-- A handle, fenced by the epoch in which it was opened.
pub record SimFile : Type 0 where
  pub path : ℕ
  pub epoch : ℕ

-- `files.get_mut(path)`, changed.
unfoldable pub update : ℕ → (FileData → FileData) → Files → Files
update path f [] = []
update path f ((p, d) ∷ files) =
    if p == path then (p, f d) ∷ files else (p, d) ∷ update path f files

-- What `with_data` does once the handle is not stale.
unfoldable pub with_file {ℓ} :
    {R : Type ℓ}
    → SimFile
    → (FileData → FileData)
    → (FileData → R)
    → Option FileData
    → Method SimStorage IoError R
with_file file change result none s = (err not_found, s)
with_file file change result (some d) s =
    (ok (result d), record s { files = update file.path change s.files })

unfoldable pub with_data {ℓ} :
    {R : Type ℓ} → SimFile → (FileData → FileData) → (FileData → R) → Method SimStorage IoError R
unfolding with_file
with_data file change result s =
    if s.epoch == file.epoch
    then with_file file change result (get file.path s.files) s
    else (err broken_pipe, s)

abbrev pub appended : List ℕ → FileData → FileData
appended buf d = record d { unsynced = d.unsynced ++ buf }

abbrev pub flushed : FileData → FileData
flushed d = record { synced = combined d; unsynced = [] }

unfoldable pub write_all : SimFile → List ℕ → Method SimStorage IoError (Unit {0})
unfolding with_data
write_all file buf = with_data file (appended buf) (λ d. tt)

unfoldable pub sync_data : SimFile → Method SimStorage IoError (Unit {0})
unfolding with_data
sync_data file = with_data file flushed (λ d. tt)

unfoldable pub len : SimFile → Method SimStorage IoError ℕ
unfolding with_data
len file = with_data file (λ d. d) file_len

unfoldable pub create_dir_all : Method SimStorage IoError (Unit {0})
create_dir_all s = (ok tt, s)

abbrev pub paths : Files → List ℕ
paths [] = []
paths ((p, d) ∷ files) = p ∷ paths files

unfoldable pub list_dir : Method SimStorage IoError (List ℕ)
list_dir s = (ok (paths s.files), s)

abbrev pub contents : Option FileData → Result IoError (List ℕ)
contents none = err not_found
contents (some d) = ok (combined d)

unfoldable pub read : ℕ → Method SimStorage IoError (List ℕ)
read path s = (contents (get path s.files), s)

unfoldable pub open_append : ℕ → Method SimStorage IoError SimFile
open_append path s = (
  if contains_key path s.files then ok (record { path = path; epoch = s.epoch }) else err not_found,
  s,
)

unfoldable pub create_new : ℕ → Method SimStorage IoError SimFile
unfolding empty_file
create_new path s = if contains_key path s.files then (err already_exists, s) else (
  ok (record { path = path; epoch = s.epoch }),
  record s { files = insert path empty_file s.files },
)

abbrev pub cut : ℕ → FileData → FileData
cut n d = record { synced = take n (combined d); unsynced = [] }

-- `ok_or_else(NotFound)`, with the files after the change.
abbrev pub if_present : Option FileData → Files → Method SimStorage IoError (Unit {0})
if_present none files s = (err not_found, s)
if_present (some d) files s = (ok tt, record s { files = files })

-- The cut is durable.
unfoldable pub truncate : ℕ → ℕ → Method SimStorage IoError (Unit {0})
truncate path n s = if_present (get path s.files) (update path (cut n) s.files) s

unfoldable pub remove_file : ℕ → Method SimStorage IoError (Unit {0})
remove_file path s = if_present (get path s.files) (remove path s.files) s

-- A created file is modelled as durable at once.
unfoldable pub sync_dir : Method SimStorage IoError (Unit {0})
sync_dir s = (ok tt, s)

abbrev pub flip_bit : List ℕ → ℕ → ℕ → List ℕ
flip_bit [] idx bit = []
flip_bit (b ∷ bs) zero bit = bit_xor b (2 ^ bit) ∷ bs
flip_bit (b ∷ bs) (suc idx) bit = b ∷ flip_bit bs idx bit

-- `idx` and `bit` are drawn only when the chance has come up.
unfoldable pub flip_one : List ℕ → Bool × Rng → List ℕ × Rng
flip_one kept (false, rng) = (kept, rng)
flip_one kept (true, rng) =
    let (idx, rng') = below rng (length kept) in
    let (bit, rng'') = below rng' 8 in (flip_bit kept idx bit, rng'')

-- The surviving part of `kept`: with `torn`, one bit of it may be flipped.
unfoldable pub tear : Bool → List ℕ → Rng → List ℕ × Rng
unfolding flip_one
tear torn kept rng =
    if torn && ltb 0 (length kept) then flip_one kept (chance rng 1 4) else (kept, rng)

unfoldable pub crash_file : Bool → FileData → Rng → FileData × Rng
unfolding tear
crash_file torn d rng =
    let (keep, rng') = below rng (length d.unsynced + 1) in
    let (survived, rng'') = tear torn (take keep d.unsynced) rng' in
    (record { synced = d.synced ++ survived; unsynced = [] }, rng'')

unfoldable pub crash_files : Bool → Files → Rng → Files × Rng
unfolding crash_file
crash_files torn [] rng = ([], rng)
crash_files torn ((p, d) ∷ files) rng =
    let (d', rng') = crash_file torn d rng in
    let (files', rng'') = crash_files torn files rng' in ((p, d') ∷ files', rng'')

-- Power loss: each file keeps its synced bytes and a prefix of the others, and the handles are
-- stale from now on.
unfoldable pub crash : Bool → SimStorage → Rng → SimStorage × Rng
unfolding crash_files
crash torn s rng =
    let (files, rng') = crash_files torn s.files rng in
    (record { files = files; epoch = s.epoch + 1 }, rng')

unfoldable pub file_paths : SimStorage → List ℕ
file_paths s = paths s.files
