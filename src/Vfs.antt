-- ===== src/Vfs.antt =====
-- crates/embedmind-core/src/storage/sim.rs, over the interface of storage/vfs.rs: files in memory
-- with a synced and a current image, armed crashes, torn writes and power failure.
pub mod Files
pub mod Sector
pub mod Laws
use mathlib.Core.Option
use embedmind.Prelude.{
  ℕ, zero, suc, ◌+◌, ◌-◌, ◌*◌, ◌/◌, ◌^◌, Bool, true, false, ◌&&◌, not, Option, none, some, List, [],
  ◌∷◌, ◌++◌, length, take, replicate, leb, ltb, ◌==◌, if◌then◌else◌,
}
use embedmind.Error.{
  Result, ok, err, io, IoKind, crash, unexpected_eof, not_found, already_exists, ok_or,
}
use embedmind.Effect.{Exec, pure, raise, require, gets, modify, lift, ◌>>=◌, ◌>>◌}
use embedmind.Bytes.{Bytes, get_range, splice}
use embedmind.Vfs.Files.{find, FileTable, FilePath, empty_file, SimFileData, resize}
use embedmind.Vfs.Sector.{rebuild_all, tear}

pub data OpenMode : Type 0 where
  must_exist create_new open_or_create : OpenMode

pub data CrashMode : Type 0 where
  before torn : CrashMode

-- `(op_index, mode, torn_seed)`
pub record Armed : Type 0 where
  pub at_op : ℕ
  pub mode : CrashMode
  pub torn_seed : ℕ

pub record SimState : Type 0 where
  pub files : FileTable
  pub ops : ℕ
  pub crash_at : Option Armed
  pub crashed : Bool
  pub lying_sync : Bool
  pub next_handle_id : ℕ

-- `SimFile`: a path and the handle's id.
pub record SimFile : Type 0 where
  pub path : FilePath
  pub handle_id : ℕ

-- `SimVfs::new`
abbrev pub new : SimState
new = record {
  files = [];
  ops = 0;
  crash_at = none;
  crashed = false;
  lying_sync = false;
  next_handle_id = 0;
}

unfoldable pub arm_crash : Armed → SimState → SimState
arm_crash a s = record s { crash_at = some a }

-- `SimVfs::set_lying_sync`, `op_count` and `snapshot`
abbrev set_lying_sync : Bool → SimState → SimState
set_lying_sync lying s = record s { lying_sync = lying }

abbrev op_count : SimState → ℕ
op_count s = s.ops

abbrev snapshot : FilePath → SimState → Option Bytes
snapshot path s = Option.map (λ (d : SimFileData). d.current) (find path s.files)

-- The armed crash fires: on a write in torn mode the seed, else an error.
unfoldable pub fire : CrashMode → ℕ → Bool → Result (Option ℕ)
fire before seed supports_torn = err (io crash)
fire torn seed true = ok (some seed)
fire torn seed false = err (io crash)

enter_armed : Option Armed → Bool → Exec SimState (Option ℕ)
enter_armed none supports_torn s = (ok none, record s { ops = s.ops + 1 })
enter_armed (some a) supports_torn s =
    if s.ops == a.at_op
    then (fire a.mode a.torn_seed supports_torn, record s { ops = s.ops + 1; crashed = true })
    else (ok none, record s { ops = s.ops + 1 })

unfoldable pub enter_mut_op : Bool → Exec SimState (Option ℕ)
unfolding enter_armed fire
enter_mut_op supports_torn s =
    if s.crashed then (err (io crash), s) else enter_armed s.crash_at supports_torn s

unfoldable pub check_alive : Exec SimState (Unit {0})
check_alive s = if s.crashed then (err (io crash), s) else (ok tt, s)

-- `SimFile::with_data`: the file's data, or an error if it was deleted.
unfoldable pub data_of : SimFile → Exec SimState SimFileData
data_of f s = (ok_or (Files.find f.path s.files) (io not_found), s)

unfoldable pub set_data : SimFile → SimFileData → Exec SimState (Unit {0})
set_data f d s = (ok tt, record s { files = Files.put f.path d s.files })

unfoldable pub read_at : SimFile → ℕ → ℕ → Exec SimState Bytes
read_at f offset n = do
  check_alive
  d ← data_of f
  lift (ok_or (get_range d.current offset n) (io unexpected_eof))

-- The file's bytes, long enough for a write.
unfoldable pub grown : SimFileData → ℕ → Bytes → Bytes
grown d offset buf =
    if ltb (length d.current) (offset + length buf)
    then resize (offset + length buf) d.current
    else d.current

-- The write itself: the file grows to reach, and then takes all of the bytes or some sectors.
unfoldable pub apply_write : SimFile → Bytes → ℕ → SimFileData → Option ℕ → Exec SimState (Unit {0})
apply_write f buf offset d none =
    set_data f (record d { current = splice (grown d offset buf) offset buf })
apply_write f buf offset d (some seed) = do
  set_data f (record d { current = tear seed offset buf (grown d offset buf) })
  raise (io crash)

unfoldable pub write_at : SimFile → Bytes → ℕ → Exec SimState (Unit {0})
unfolding apply_write
write_at f buf offset = do
  tearing ← enter_mut_op true
  d ← data_of f
  apply_write f buf offset d tearing

unfoldable pub sync : SimFile → Exec SimState (Unit {0})
sync f = do
  enter_mut_op false
  lying ← gets (λ s. s.lying_sync)
  if lying then pure tt else do d ← data_of f; set_data f (record d { synced = d.current })

unfoldable pub truncate : SimFile → ℕ → Exec SimState (Unit {0})
truncate f len = do
  enter_mut_op false
  d ← data_of f
  set_data f (record d { current = resize len d.current })

unfoldable pub len : SimFile → Exec SimState ℕ
len f = do check_alive; d ← data_of f; pure (length d.current)

locked_by_other : Option ℕ → ℕ → Bool
locked_by_other none id = false
locked_by_other (some owner) id = not (owner == id)

unfoldable pub try_lock_exclusive : SimFile → Exec SimState Bool
unfolding locked_by_other
try_lock_exclusive f = do
  check_alive
  d ← data_of f
  if locked_by_other d.locked_by f.handle_id
      then pure false
      else do set_data f (record d { locked_by = some f.handle_id }); pure true

is_present : Option SimFileData → Bool
is_present none = false
is_present (some d) = true

unfoldable pub exists : FilePath → SimState → Bool
unfolding is_present
exists path s = is_present (Files.find path s.files)

-- The refusals of `open`.
open_refused : OpenMode → Bool → Result (Unit {0})
open_refused must_exist false = err (io not_found)
open_refused create_new true = err (io already_exists)
open_refused _ present = ok tt

unfoldable pub open_file : FilePath → OpenMode → Exec SimState SimFile
unfolding open_refused
open_file path mode = do
  check_alive
  present ← gets (exists path)
  lift (open_refused mode present)
  modify (λ s. if present then s else record s { files = Files.put path empty_file s.files })
  id ← gets (λ s. s.next_handle_id)
  modify (λ s. record s { next_handle_id = id + 1 })
  pure (record { path = path; handle_id = id })

unfoldable pub delete : FilePath → Exec SimState (Unit {0})
delete path = do
  check_alive
  present ← gets (exists path)
  require present (io not_found)
  modify (λ s. record s { files = Files.remove path s.files })

-- The swap takes effect before an armed crash is consulted.
unfoldable pub rename : FilePath → FilePath → Exec SimState (Unit {0})
rename from to = do
  found ← gets (λ s. Files.find from s.files)
  d ← lift (ok_or found (io not_found))
  modify (λ s. record s { files = Files.put to d (Files.remove from s.files) })
  enter_mut_op false
  pure tt

-- Power loss and reboot.
unfoldable pub power_fail : ℕ → SimState → SimState
power_fail seed s = record s { files = rebuild_all seed s.files; crash_at = none; crashed = false }

-- `Drop for SimFile`: a lock that the handle still owns is released.
unlocked : SimFile → Option SimFileData → SimState → SimState
unfolding locked_by_other
unlocked f none s = s
unlocked f (some d) s =
    if locked_by_other d.locked_by f.handle_id
    then s
    else record s { files = Files.put f.path (record d { locked_by = none }) s.files }

unfoldable pub drop_handle : SimFile → SimState → SimState
unfolding unlocked
drop_handle f s = unlocked f (Files.find f.path s.files) s
