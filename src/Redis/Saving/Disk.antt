-- ===== src/Redis/Saving/Disk.antt =====
-- redis/rdb.c: `rdbSaveInternal`, `rdbSaveToFile` and `rdbSave` on the directory and the metrics of
-- the server.
use double_swap.Base.{
  ℕ, Bool, true, false, not, ◌&&◌, Option, none, some, Bytes, ◌==◌, if◌then◌else◌,
}
use double_swap.Base.Int.{ℤ, pos}

-- The name of the temporary file of a process, and another file's.
pub data FileName : Type 0 where
  temp : ℕ → FileName
  named : ℕ → FileName

unfoldable pub same_name : FileName → FileName → Bool
same_name (temp p) (temp q) = p == q
same_name (named a) (named b) = a == b
same_name (temp p) (named b) = false
same_name (named a) (temp q) = false

-- The files of the working directory with what they hold.
abbrev pub Disk : Type 0
Disk = FileName → Option Bytes

unfoldable pub put : FileName → Option Bytes → Disk → Disk
put name content disk other = if same_name name other then content else disk other

-- Which calls of one save succeed; what `rdbSaveRio` wrote, and what of it the file holds where the
-- writing, `fflush`, `fsync` or `fclose` failed.
pub record Calls : Type 0 where
  pub opens : Bool
  pub saves : Bool
  pub written : Bytes
  pub partial : Bytes
  pub flushes : Bool
  pub syncs : Bool
  pub closes : Bool
  pub unlinks : Bool
  pub renames : Bool
  pub syncs_dir : Bool
  pub now : ℕ

-- The metrics that a save updates.
pub record Metrics : Type 0 where
  pub dirty : ℤ
  pub lastsave : ℕ
  pub lastbgsave_status : Bool  -- whether it is C_OK

-- What the file holds behind all calls on it.
unfoldable pub landed : Calls → Bytes
landed o = if o.saves && o.flushes && o.syncs && o.closes then o.written else o.partial

-- `unlink`, which leaves the file where it fails.
unfoldable pub try_unlink : Calls → FileName → Disk → Disk
unfolding put
try_unlink o name disk = if o.unlinks then put name none disk else disk

-- `rdbSaveInternal`: whether it returns C_OK, and the directory. An error behind `fopen` removes
-- the file.
unfoldable pub save_internal : Calls → FileName → Disk → Bool × Disk
unfolding put landed try_unlink
save_internal o name disk =
    let filled = put name (some (landed o)) disk in
    if not o.opens
    then (false, disk)
    else if not o.saves
    then (false, try_unlink o name filled)
    else if not o.flushes
    then (false, try_unlink o name filled)
    else if not o.syncs
    then (false, try_unlink o name filled)
    else if not o.closes
    then (false, try_unlink o name filled)
    else (true, filled)

-- `rdbSaveToFile`, but for the events to modules.
unfoldable pub save_to_file : Calls → FileName → Disk → Bool × Disk
unfolding save_internal
save_to_file o name disk = save_internal o name disk

-- The end of `rdbSave`, with the temporary file complete.
unfoldable pub move_in_place : Calls → ℕ → FileName → Metrics → Disk → Bool × Metrics × Disk
unfolding put try_unlink
move_in_place o pid name m disk =
    let moved = put (temp pid) none (put name (disk (temp pid)) disk) in
    if not o.renames
    then (false, m, try_unlink o (temp pid) disk)
    else if not o.syncs_dir
    then (false, m, moved)
    else (true, record { dirty = pos 0; lastsave = o.now; lastbgsave_status = true }, moved)

-- `rdbSave` in the process `pid`.
unfoldable pub save : Calls → ℕ → FileName → Metrics → Disk → Bool × Metrics × Disk
unfolding save_internal move_in_place
save o pid name m disk =
    let (ok, disk') = save_internal o (temp pid) disk in
    if ok then move_in_place o pid name m disk' else (false, m, disk')
