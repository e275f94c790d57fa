-- ===== src/Redis/Saving/Reach.antt =====
-- The parent through writes, commands and the ends of its children, as a step relation.
use double_swap.Base.{ℕ, ◌≡◌, sym, ◌∙◌, Bool, some, List, Bytes}
use mathlib.Core.Path.{subst}
use double_swap.Redis.Saving.Disk.{FileName, Disk, Calls}
use double_swap.Redis.Saving.Child.{
  child_rdb, ServerState, Children, IsChildren, done_handler, kill_child,
}
use double_swap.Redis.Saving.Commands.{save_command, bgsave_command}
use double_swap.Redis.Saving.Sound.{
  written, IsSound, save_command-IsSound, write-IsSound, kill-IsSound,
}
use double_swap.Redis.Saving.ForkSound.{bgsave_command-IsSound, done_handler-IsSound}

abbrev pub World : Type 0
World = ServerState × Disk

-- What may happen to the parent. A child ends only if there is one, and only then is it killed.
module _ (x : Children) (sigusr1 : ℕ) where
  pub data Happens : World → World → Type 0 where
    writes :
        (changes : ℕ) (s : ServerState) (disk : Disk) → Happens (s, disk) (written changes s, disk)
    saves :
        (o : Calls) (pid : ℕ) (name : FileName) (s : ServerState) (disk : Disk)
        → Happens (s, disk) ((save_command o pid name s disk).1, (save_command o pid name s disk).2)
    forks :
        (is_schedule : Bytes → Bool) (words : List Bytes) (in_exec : Bool) (now : ℕ)
        (s : ServerState) (disk : Disk)
        → Happens (s, disk) ((bgsave_command x is_schedule words in_exec now s).1, disk)
    child_works : (s : ServerState) (disk disk' : Disk) → Happens (s, disk) (s, disk')
    kills :
        (s : ServerState) (disk : Disk)
        → s.child_type ≡ child_rdb
        → Happens (s, disk) (kill_child s, disk)
    ends :
        (exitcode bysignal save_end : ℕ) (s s' : ServerState) (disk disk' : Disk)
        → s.child_type ≡ child_rdb
        → done_handler sigusr1 exitcode bysignal save_end s disk ≡ some (s', disk')
        → Happens (s, disk) (x.reset_child s', disk')

  pub data Steps : World → World → Type 0 where
    done : (a : World) → Steps a a
    more : {a b c : World} → Steps a b → Happens b c → Steps a c

first_of : (a b : World) → some a ≡ some b → a.0 ≡ b.0
first_of a b e = cc

module _ (x : Children) (law : IsChildren x) (sigusr1 : ℕ) where
  step-IsSound : {a b : World} → Happens x sigusr1 a b → IsSound a.0 → IsSound b.0
  step-IsSound (writes changes s disk) h = write-IsSound changes s h
  step-IsSound (saves o pid name s disk) h = save_command-IsSound o pid name s disk h
  step-IsSound (forks is_schedule words in_exec now s disk) h =
      bgsave_command-IsSound x law is_schedule words in_exec now s h
  step-IsSound (child_works s disk disk') h = h
  step-IsSound (kills s disk rdb) h = kill-IsSound s h
  step-IsSound (ends exitcode bysignal save_end s s' disk disk' rdb run) h =
      let (s'', disk'', run', sound) =
        done_handler-IsSound x law sigusr1 exitcode bysignal save_end s disk h rdb in
      subst (λ z. IsSound (x.reset_child z)) (first_of (s'', disk'') (s', disk') (sym run' ∙ run))
        sound

  -- From a sound state, every state that the parent reaches by writes, SAVE, BGSAVE, the work of
  -- its child, kills and the ends of children is sound: the dirty counter is not negative, during a
  -- save to disk it is not below its value at the fork, and the kind of save is known exactly while
  -- there is an RDB child. Hence the handler of the child's end never panics.
  pub reached-IsSound :
      (a b : World)
      → Steps x sigusr1 a b
      → IsSound a.0
      → IsSound b.0
        × (b.0.child_type ≡ child_rdb
            → (exitcode bysignal save_end : ℕ)
            → (r : World) × (done_handler sigusr1 exitcode bysignal save_end b.0 b.1 ≡ some r))
  reached-IsSound a b steps h = (
    along steps h,
    λ rdb exitcode bysignal save_end.
        let (s', disk', run, sound) =
          done_handler-IsSound x law sigusr1 exitcode bysignal save_end b.0 b.1 (along steps h)
            rdb in
        ((s', disk'), run),
  )
    where
      along : {c d : World} → Steps x sigusr1 c d → IsSound c.0 → IsSound d.0
      along (done c) i = i
      along (more steps step) i = step-IsSound step (along steps i)
