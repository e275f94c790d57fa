-- ===== src/Redis/Saving/Killed.antt =====
-- The end of a child that `killRDBChild` gave up.
use double_swap.Base.{ℕ, ◌≡◌, ◌≢◌, refl, false, some, none, ==_self, ==_ne}
use double_swap.Redis.Saving.Disk.{temp, Disk, put}
use double_swap.Redis.Saving.Child.{
  ServerState, rdb_disk, remove_temp_file, done_handler_disk, done_by_type, child_done,
  done_handler, kill_child,
}

-- After `killRDBChild` during a save to disk, the handler of the child's end leaves the metrics as
-- they are, however the child ended, even with success; it removes the temporary file, and takes
-- the mark of the kill away. SIGUSR1 is a signal, not 0.
pub killed_lem :
    (sigusr1 exitcode bysignal save_end : ℕ) (s : ServerState) (disk : Disk)
    → sigusr1 ≢ 0
    → s.rdb_child_type ≡ rdb_disk
    → (s' : ServerState) × (done_handler sigusr1 exitcode bysignal save_end (kill_child s) disk
        ≡ some (s', put (temp s.child_pid) none disk))
      × (s'.metrics ≡ s.metrics)
      × (s'.bgsave_aborted ≡ false)
unfolding done_handler kill_child done_by_type done_handler_disk remove_temp_file child_done
killed_lem sigusr1 exitcode bysignal save_end s disk signal to_disk = (
  child_done s.rdb_child_type false save_end (kill_child s),
  rw (to_disk, done_by_type, ==_ne signal, ==_self sigusr1) refl,
  refl,
  refl,
)
