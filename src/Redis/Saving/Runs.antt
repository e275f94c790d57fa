-- ===== src/Redis/Saving/Runs.antt =====
-- The theorems on saving at concrete input.
use double_swap.Base.{ℕ, ◌≡◌, ◌⊎◌, refl, Bool, true, false, none, some, [], ◌∷◌, arith}
use double_swap.Base.Int.{pos, negsuc}
use double_swap.Redis.Saving.Disk.{named, Disk, Calls, Metrics, save}
use double_swap.Redis.Saving.Atomic.{IsSaved, IsRefused, save_atomic}
use double_swap.Redis.Saving.Child.{
  ChildType, child_none, child_rdb, child_other, rdb_disk, ServerState, Children, IsChildren,
  done_handler,
}
use double_swap.Redis.Saving.Killed.{killed_lem}
use double_swap.Redis.Saving.Disk.{temp, put}
use double_swap.Redis.Saving.Child.{kill_child}
use double_swap.Redis.Saving.Sound.{written, IsSound}
use double_swap.Redis.Saving.Reach.{World, done, more, writes, reached-IsSound}

abbrev no_rename : Calls
no_rename = record {
  opens = true;
  saves = true;
  written = 82 ∷ [];
  partial = [];
  flushes = true;
  syncs = true;
  closes = true;
  unlinks = true;
  renames = false;
  syncs_dir = true;
  now = 9;
}

abbrev changed : Metrics
changed = record { dirty = pos 3; lastsave = 1; lastbgsave_status = true }

abbrev no_files : Disk
no_files name = none

save_atomic_example :
    IsSaved no_rename 42 0 (save no_rename 42 (named 0) changed no_files)
    ⊎ IsRefused no_rename 42 0 changed no_files (save no_rename 42 (named 0) changed no_files)
save_atomic_example = save_atomic no_rename 42 0 changed no_files

abbrev is_active : ChildType → Bool
is_active child_none = false
is_active child_rdb = true
is_active child_other = true

-- Children of which each gets the process 77.
abbrev one_child : Children
one_child = record {
  redis_fork = λ s. (some 77, record s { child_type = child_rdb; child_pid = 77 });
  has_active_child = λ s. is_active s.child_type;
  reset_child = λ s. record s { child_type = child_none };
}

inactive : (t : ChildType) → is_active t ≡ false → t ≡ child_none
inactive child_none e = refl
inactive child_rdb e = absurd (cc)
inactive child_other e = absurd (cc)

forked_pid : (s : ServerState) (p : ℕ) → some 77 ≡ some p → 77 ≡ p
forked_pid s p e = cc

one_child-IsChildren : IsChildren one_child
one_child-IsChildren = record {
  refused = λ s e. absurd (cc);
  forked = λ s p e. rw (forked_pid s p e) refl;
  idle = λ s e. inactive s.child_type e;
  resets = λ s. refl;
}

-- A server whose child saves to disk.
abbrev busy : ServerState
busy = record {
  metrics = changed;
  dirty_before_bgsave = pos 2;
  lastbgsave_try = 5;
  stat_rdb_saves = 1;
  child_type = child_rdb;
  child_pid = 77;
  rdb_child_type = rdb_disk;
  rdb_save_time_start = pos 5;
  rdb_save_time_last = negsuc 0;
  bgsave_aborted = false;
  rdb_bgsave_scheduled = false;
  pipes = record {
    rdb_child_exit_pipe = none;
    rdb_pipe_read = none;
    rdb_pipe_conns = none;
    rdb_pipe_numconns = 0;
    rdb_pipe_numconns_writing = 0;
    rdb_pipe_bufflen = 0;
  };
  closed = [];
  signalled = [];
  served = [];
}

busy-IsSound : IsSound busy
busy-IsSound = record {
  not_negative = omega arith;
  since_fork = λ _. omega arith;
  knows = λ _ p. absurd (cc);
  alone = λ no. absurd (no refl);
}

reached-IsSound_example :
    IsSound (written 4 busy)
    × (child_rdb ≡ child_rdb
        → (exitcode bysignal save_end : ℕ)
        → (r : World) × (done_handler 10 exitcode bysignal save_end (written 4 busy) no_files
            ≡ some r))
reached-IsSound_example =
    reached-IsSound one_child one_child-IsChildren 10 (busy, no_files) (written 4 busy, no_files)
      (more (done (busy, no_files)) (writes 4 busy no_files)) busy-IsSound

killed_lem_example :
    (s' : ServerState) × (done_handler 10 0 0 8 (kill_child busy) no_files
      ≡ some (s', put (temp 77) none no_files))
    × (s'.metrics ≡ changed)
    × (s'.bgsave_aborted ≡ false)
killed_lem_example = killed_lem 10 0 0 8 busy no_files (omega arith) refl
