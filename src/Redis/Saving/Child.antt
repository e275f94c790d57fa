-- ===== src/Redis/Saving/Child.antt =====
-- redis/rdb.c: `rdbSaveBackground`, `rdbRemoveTempFile`, the handlers of the child's end and
-- `killRDBChild`, on the parent's state. server.c's handling of children is an interface.
use double_swap.Base.{
  ℕ, ◌+◌, ◌≡◌, Bool, true, false, ◌&&◌, Option, none, some, List, [], ◌∷◌, ◌++◌, ◌==◌,
  if◌then◌else◌,
}
use double_swap.Base.Int.{ℤ, pos, negsuc, ◌-ℤ◌}
use double_swap.Redis.Saving.Disk.{FileName, temp, Disk, put, Calls, Metrics, save}

-- `server.child_type`, and `server.rdb_child_type`.
pub data ChildType : Type 0 where
  child_none child_rdb child_other : ChildType

pub data RdbChildType : Type 0 where
  rdb_none rdb_disk rdb_socket : RdbChildType

-- The pipes of a transfer to replicas; none is -1 or NULL.
pub record Pipes : Type 0 where
  pub rdb_child_exit_pipe : Option ℕ
  pub rdb_pipe_read : Option ℕ
  pub rdb_pipe_conns : Option (List ℕ)
  pub rdb_pipe_numconns : ℕ
  pub rdb_pipe_numconns_writing : ℕ
  pub rdb_pipe_bufflen : ℕ

pub record ServerState : Type 0 where
  pub metrics : Metrics
  pub dirty_before_bgsave : ℤ
  pub lastbgsave_try : ℕ
  pub stat_rdb_saves : ℕ
  pub child_type : ChildType
  pub child_pid : ℕ  -- of the child, if there is one
  pub rdb_child_type : RdbChildType
  pub rdb_save_time_start : ℤ
  pub rdb_save_time_last : ℤ
  pub bgsave_aborted : Bool
  pub rdb_bgsave_scheduled : Bool
  pub pipes : Pipes
  pub closed : List ℕ  -- the descriptors that were closed
  pub signalled : List ℕ  -- the processes that were sent SIGUSR1
  pub served : List (Bool × RdbChildType)  -- the calls of `updateSlavesWaitingBgsave`

-- server.c: `redisFork(CHILD_TYPE_RDB)` in the parent, with the child's process or none,
-- `hasActiveChildProcess` and `resetChildState`.
pub record Children : Type 0 where
  pub redis_fork : ServerState → Option ℕ × ServerState
  pub has_active_child : ServerState → Bool
  pub reset_child : ServerState → ServerState

-- A fork sets the kind and process of the child, or changes nothing; a child is active if it has a
-- kind; and the reset takes the kind away.
pub record IsChildren (x : Children) : Type 0 where
  pub refused : (s : ServerState) → (x.redis_fork s).0 ≡ none → (x.redis_fork s).1 ≡ s
  pub forked :
      (s : ServerState) (p : ℕ)
      → (x.redis_fork s).0 ≡ some p
      → (x.redis_fork s).1 ≡ record s { child_type = child_rdb; child_pid = p }
  pub idle : (s : ServerState) → x.has_active_child s ≡ false → s.child_type ≡ child_none
  pub resets : (s : ServerState) → x.reset_child s ≡ record s { child_type = child_none }

-- What `rdbSaveBackground` sets before it forks.
unfoldable pub begin_save : ℕ → ServerState → ServerState
begin_save now s = record s {
  stat_rdb_saves = s.stat_rdb_saves + 1;
  dirty_before_bgsave = s.metrics.dirty;
  lastbgsave_try = now;
}

-- The parent's branch behind the fork: whether it returns C_OK.
unfoldable pub after_fork : ℕ → Option ℕ → ServerState → Bool × ServerState
after_fork now none s =
    (false, record s { metrics = record s.metrics { lastbgsave_status = false } })
after_fork now (some childpid) s =
    (true, record s { rdb_save_time_start = pos now; rdb_child_type = rdb_disk })

-- `rdbSaveBackground` in the parent
unfoldable pub save_background : Children → ℕ → ServerState → Bool × ServerState
unfolding begin_save after_fork
save_background x now s =
    if x.has_active_child s
    then (false, s)
    else after_fork now (x.redis_fork (begin_save now s)).0 (x.redis_fork (begin_save now s)).1

-- The child of it: its exit code, and the directory that it leaves.
unfoldable pub background_child : Calls → ℕ → FileName → Metrics → Disk → ℕ × Disk
background_child o pid name m disk =
    let (ok, m', disk') = save o pid name m disk in ((if ok then 0 else 1), disk')

-- `rdbRemoveTempFile`
unfoldable pub remove_temp_file : ℕ → Disk → Disk
remove_temp_file childpid disk = put (temp childpid) none disk

-- `backgroundSaveDoneHandlerDisk`; no signal is 0.
unfoldable pub done_handler_disk : ℕ → ℕ → ℕ → ℕ → ServerState → Disk → ServerState × Disk
unfolding remove_temp_file
done_handler_disk sigusr1 exitcode bysignal save_end s disk =
    if bysignal == 0 && exitcode == 0
    then (
      record s {
        metrics = record {
          dirty = s.metrics.dirty -ℤ s.dirty_before_bgsave;
          lastsave = save_end;
          lastbgsave_status = true;
        };
      },
      disk,
    )
    else if bysignal == 0
    then (record s { metrics = record s.metrics { lastbgsave_status = false } }, disk)
    else (
      (if bysignal == sigusr1
          then s
          else record s { metrics = record s.metrics { lastbgsave_status = false } }),
      remove_temp_file s.child_pid disk,
    )

-- The descriptor, if there is one.
unfoldable pub if_open : Option ℕ → List ℕ
if_open none = []
if_open (some fd) = fd ∷ []

-- `backgroundSaveDoneHandlerSocket`
unfoldable pub done_handler_socket : ServerState → ServerState
unfolding if_open
done_handler_socket s = record s {
  closed = s.closed ++ if_open s.pipes.rdb_child_exit_pipe ++ if_open s.pipes.rdb_pipe_read;
  pipes = record {
    rdb_child_exit_pipe = none;
    rdb_pipe_read = none;
    rdb_pipe_conns = none;
    rdb_pipe_numconns = 0;
    rdb_pipe_numconns_writing = 0;
    rdb_pipe_bufflen = 0;
  };
}

-- The handler of the child's kind; none is `serverPanic`.
unfoldable pub done_by_type :
    ℕ → ℕ → ℕ → ℕ → RdbChildType → ServerState → Disk → Option (ServerState × Disk)
unfolding done_handler_disk done_handler_socket
done_by_type sigusr1 exitcode bysignal save_end rdb_none s disk = none
done_by_type sigusr1 exitcode bysignal save_end rdb_disk s disk =
    some (done_handler_disk sigusr1 exitcode bysignal save_end s disk)
done_by_type sigusr1 exitcode bysignal save_end rdb_socket s disk =
    some (done_handler_socket s, disk)

-- The end of `backgroundSaveDoneHandler`.
unfoldable pub child_done : RdbChildType → Bool → ℕ → ServerState → ServerState
child_done type ok save_end s = record s {
  rdb_child_type = rdb_none;
  rdb_save_time_last = pos save_end -ℤ s.rdb_save_time_start;
  rdb_save_time_start = negsuc 0;
  bgsave_aborted = false;
  served = s.served ++ (ok, type) ∷ [];
}

-- `backgroundSaveDoneHandler`
unfoldable pub done_handler : ℕ → ℕ → ℕ → ℕ → ServerState → Disk → Option (ServerState × Disk)
unfolding done_by_type child_done
done_handler sigusr1 exitcode bysignal save_end s disk =
    let signal = if s.bgsave_aborted then sigusr1 else bysignal in
    elim (done_by_type sigusr1 exitcode signal save_end s.rdb_child_type s disk) [
      | none ↦ none
      | some (s', disk') ↦
          some (child_done s.rdb_child_type (signal == 0 && exitcode == 0) save_end s', disk')
    ]

-- `killRDBChild`
unfoldable pub kill_child : ServerState → ServerState
kill_child s = record s { signalled = s.signalled ++ s.child_pid ∷ []; bgsave_aborted = true }
