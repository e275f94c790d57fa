-- ===== src/Redis/Saving/Commands.antt =====
-- redis/rdb.c: SAVE, BGSAVE and `rdbPopulateSaveInfo`.
use double_swap.Base.{
  ℕ, zero, ◌+◌, Bool, true, false, not, ◌&&◌, ◌||◌, Option, none, some, List, [], ◌∷◌, Bytes,
  if◌then◌else◌,
}
use double_swap.Base.Int.{ℤ, pos, negsuc}
use double_swap.Redis.Saving.Disk.{FileName, Disk, Calls, save}
use double_swap.Redis.Saving.Child.{
  ChildType, child_none, child_rdb, child_other, ServerState, Children, save_background,
}

-- The replies to SAVE and BGSAVE.
pub data Reply : Type 0 where
  ok_reply err_reply syntax_error : Reply
  already_in_progress other_child_active : Reply
  started scheduled : Reply

unfoldable pub is_rdb_child : ChildType → Bool
is_rdb_child child_none = false
is_rdb_child child_rdb = true
is_rdb_child child_other = false

-- `saveCommand`, of the process `pid`
unfoldable pub save_command : Calls → ℕ → FileName → ServerState → Disk → Reply × ServerState × Disk
unfolding is_rdb_child
save_command o pid name s disk =
    if is_rdb_child s.child_type
    then (already_in_progress, s, disk)
    else (let (ok, m, disk') = save o pid name s.metrics disk in
        (
          (if ok then ok_reply else err_reply),
          record s { stat_rdb_saves = s.stat_rdb_saves + 1; metrics = m },
          disk',
        ))

-- The words behind BGSAVE: whether to schedule, or none for a syntax error. `is_schedule` is
-- `!strcasecmp(word, "schedule")`.
unfoldable pub bgsave_schedule : (Bytes → Bool) → List Bytes → Option Bool
bgsave_schedule is_schedule [] = some false
bgsave_schedule is_schedule (word ∷ []) = if is_schedule word then some true else none
bgsave_schedule is_schedule (word ∷ other ∷ words) = none

-- `bgsaveCommand`
unfoldable pub bgsave_command :
    Children → (Bytes → Bool) → List Bytes → Bool → ℕ → ServerState → Reply × ServerState
unfolding bgsave_schedule is_rdb_child
bgsave_command x is_schedule words in_exec now s = elim (bgsave_schedule is_schedule words) [
  | none ↦ (syntax_error, s)
  | some schedule ↦
      if is_rdb_child s.child_type
      then (already_in_progress, s)
      else if x.has_active_child s || in_exec
      then (if schedule || in_exec
          then (scheduled, record s { rdb_bgsave_scheduled = true })
          else (other_child_active, s))
      else (let (ok, s') = save_background x now s in ((if ok then started else err_reply), s'))
]

-- What `rdbPopulateSaveInfo` looks at.
pub record ReplicationState : Type 0 where
  pub masterhost : Bool
  pub repl_backlog : Bool
  pub slaveseldb : ℤ
  pub master_db : Option ℤ
  pub cached_master_db : Option ℤ

unfoldable pub is_minus_one : ℤ → Bool
is_minus_one (negsuc zero) = true
is_minus_one _ = false

-- `rdbPopulateSaveInfo`: `repl_stream_db`, or none for NULL
unfoldable pub populate_save_info : ReplicationState → Option ℤ
unfolding is_minus_one
populate_save_info r =
    if not r.masterhost && r.repl_backlog
    then some (if is_minus_one r.slaveseldb then pos 0 else r.slaveseldb)
    else elim r.master_db [ some db ↦ some db | none ↦ r.cached_master_db ]
