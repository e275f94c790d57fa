-- ===== src/Redis/Saving/ForkSound.antt =====
-- The fork of a child and its end keep the state sound.
use mathlib.Core.Path.{subst}
use double_swap.Base.{
  ℕ, ◌≡◌, ◌≢◌, refl, sym, inl, inr, Bool, Bool-cases, ◌&&◌, ◌||◌, Option, none, some, List, Bytes,
  ◌==◌, if◌then◌else◌,
}
use double_swap.Base.Int.{pos, ◌≤ℤ◌}
use double_swap.Redis.Saving.Disk.{Disk}
use double_swap.Redis.Saving.Child.{
  child_none, child_rdb, RdbChildType, rdb_none, rdb_disk, rdb_socket, ServerState, Children,
  IsChildren, begin_save, after_fork, save_background, done_handler_disk, done_handler_socket,
  done_by_type, child_done, done_handler,
}
use double_swap.Redis.Saving.Commands.{is_rdb_child, bgsave_schedule, bgsave_command}
use double_swap.Redis.Saving.Sound.{IsSound, le-sub, le-self, none-ne-disk}

none-ne-rdb : child_none ≢ child_rdb
none-ne-rdb p = absurd (cc)

rdb-ne-none : rdb_disk ≢ rdb_none
rdb-ne-none p = absurd (cc)

module _ (x : Children) (law : IsChildren x) where
  after_fork-IsSound :
      (now : ℕ) (r : Option ℕ) (s : ServerState)
      → (x.redis_fork s).0 ≡ r
      → s.dirty_before_bgsave ≡ s.metrics.dirty
      → s.child_type ≡ child_none
      → IsSound s
      → IsSound (after_fork now r (x.redis_fork s).1).1
  unfolding after_fork
  after_fork-IsSound now none s e level idle h = rw (law.refused s e) (record {
    not_negative = h.not_negative;
    since_fork = h.since_fork;
    knows = h.knows;
    alone = h.alone;
  })
  after_fork-IsSound now (some p) s e level idle h = rw (law.forked s p e) (record {
    not_negative = h.not_negative;
    since_fork = λ _. subst (λ d. d ≤ℤ s.metrics.dirty) (sym level) (le-self s.metrics.dirty);
    knows = λ _. rdb-ne-none;
    alone = λ no. absurd (no refl);
  })

  save_background-IsSound :
      (now : ℕ) (s : ServerState) → IsSound s → IsSound (save_background x now s).1
  unfolding save_background begin_save
  save_background-IsSound now s h = elim (Bool-cases (x.has_active_child s)) [
    | inl z ↦ rw z h
    | inr z ↦ rw z (
        after_fork-IsSound now (x.redis_fork (begin_save now s)).0 (begin_save now s) refl refl
          (law.idle s z)
          (record {
            not_negative = h.not_negative;
            since_fork = λ _. le-self s.metrics.dirty;
            knows = h.knows;
            alone = h.alone;
          }))
  ]

  pub bgsave_command-IsSound :
      (is_schedule : Bytes → Bool) (words : List Bytes) (in_exec : Bool) (now : ℕ) (s : ServerState)
      → IsSound s
      → IsSound (bgsave_command x is_schedule words in_exec now s).1
  unfolding bgsave_command
  bgsave_command-IsSound is_schedule words in_exec now s h =
      by_words (bgsave_schedule is_schedule words) refl
    where
      by_words :
          (r : Option Bool)
          → bgsave_schedule is_schedule words ≡ r
          → IsSound (bgsave_command x is_schedule words in_exec now s).1
      by_words none e = rw (e, bgsave_command) h
      by_words (some schedule) e = elim (Bool-cases (is_rdb_child s.child_type)) [
        | inl z ↦ rw (e, bgsave_command, z) h
        | inr z ↦ elim (Bool-cases (x.has_active_child s || in_exec)) [
          | inl y ↦ elim (Bool-cases (schedule || in_exec)) [
            | inl v ↦
                rw (e, bgsave_command, z, y, v)
                  (record {
                    not_negative = h.not_negative;
                    since_fork = h.since_fork;
                    knows = h.knows;
                    alone = h.alone;
                  })
            | inr v ↦ rw (e, bgsave_command, z, y, v) h
          ]
          | inr y ↦ rw (e, bgsave_command, z, y) (save_background-IsSound now s h)
        ]
      ]

  disk-dirty :
      (sigusr1 exitcode bysignal save_end : ℕ) (s : ServerState) (disk : Disk)
      → pos 0 ≤ℤ s.metrics.dirty
      → s.dirty_before_bgsave ≤ℤ s.metrics.dirty
      → pos 0 ≤ℤ (done_handler_disk sigusr1 exitcode bysignal save_end s disk).0.metrics.dirty
  unfolding done_handler_disk
  disk-dirty sigusr1 exitcode bysignal save_end s disk h before =
      elim (Bool-cases (bysignal == 0 && exitcode == 0)) [
        | inl z ↦ rw z (le-sub s.dirty_before_bgsave s.metrics.dirty before)
        | inr z ↦ elim (Bool-cases (bysignal == 0)) [
          | inl y ↦ rw (z, y) h
          | inr y ↦ elim (Bool-cases (bysignal == sigusr1)) [
            | inl v ↦ rw (z, y, v) h
            | inr v ↦ rw (z, y, v) h
          ]
        ]
      ]

  reset-IsSound :
      (type : RdbChildType) (ok : Bool) (save_end : ℕ) (s : ServerState)
      → pos 0 ≤ℤ s.metrics.dirty
      → IsSound (x.reset_child (child_done type ok save_end s))
  unfolding child_done
  reset-IsSound type ok save_end s h = rw (law.resets (child_done type ok save_end s)) (record {
    not_negative = h;
    since_fork = λ p. absurd (none-ne-disk p);
    knows = λ p. absurd (none-ne-rdb p);
    alone = λ _. refl;
  })

  -- The handler finds the kind of its child and leaves a sound state.
  pub done_handler-IsSound :
      (sigusr1 exitcode bysignal save_end : ℕ) (s : ServerState) (disk : Disk)
      → IsSound s
      → s.child_type ≡ child_rdb
      → (s' : ServerState) × (disk' : Disk) × (done_handler sigusr1 exitcode bysignal save_end s
            disk
          ≡ some (s', disk'))
        × IsSound (x.reset_child s')
  unfolding done_handler done_by_type done_handler_socket
  done_handler-IsSound sigusr1 exitcode bysignal save_end s disk h rdb =
      by_type s.rdb_child_type refl
    where
      signal : ℕ
      signal = if s.bgsave_aborted then sigusr1 else bysignal

      ok : Bool
      ok = signal == 0 && exitcode == 0

      by_type :
          (t : RdbChildType)
          → s.rdb_child_type ≡ t
          → (s' : ServerState) × (disk' : Disk) × (done_handler sigusr1 exitcode bysignal save_end s
                disk
              ≡ some (s', disk'))
            × IsSound (x.reset_child s')
      by_type rdb_none e = absurd (h.knows rdb e)
      by_type rdb_disk e = (
        child_done s.rdb_child_type ok save_end
            (done_handler_disk sigusr1 exitcode signal save_end s disk).0,
        (done_handler_disk sigusr1 exitcode signal save_end s disk).1,
        rw (e, done_by_type) refl,
        reset-IsSound s.rdb_child_type ok save_end
            (done_handler_disk sigusr1 exitcode signal save_end s disk).0
            (disk-dirty sigusr1 exitcode signal save_end s disk h.not_negative (h.since_fork e)),
      )
      by_type rdb_socket e = (
        child_done s.rdb_child_type ok save_end (done_handler_socket s),
        disk,
        rw (e, done_by_type) refl,
        reset-IsSound s.rdb_child_type ok save_end (done_handler_socket s) h.not_negative,
      )
