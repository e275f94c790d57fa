-- ===== src/Redis/Saving/Sound.antt =====
-- What holds of the parent between its commands, and that each operation keeps it.
use double_swap.Base.{ℕ, ◌≡◌, ◌≢◌, refl, sym, ◌∙◌, ◌⊎◌, inl, inr, false, Bool-cases, arith}
use double_swap.Base.Int.{ℤ, pos, ◌≤ℤ◌, ◌-ℤ◌, ◌+ℤ◌}
use double_swap.Redis.Saving.Disk.{
  FileName, temp, Disk, Calls, Metrics, save_internal, move_in_place, save,
}
use double_swap.Redis.Saving.Child.{
  ChildType, child_none, child_rdb, child_other, rdb_none, rdb_disk, ServerState, kill_child,
}
use double_swap.Redis.Saving.Commands.{is_rdb_child, save_command}

-- `changes` writes to the data set.
abbrev pub written : ℕ → ServerState → ServerState
written changes s = record s {
  metrics = record s.metrics { dirty = s.metrics.dirty +ℤ pos changes };
}

-- The dirty counter is not negative and, while a child saves, not below its value at the fork;
-- and the parent knows the kind of save of its child, exactly while it has one.
pub record IsSound (s : ServerState) : Type 0 where
  pub not_negative : pos 0 ≤ℤ s.metrics.dirty
  pub since_fork : s.rdb_child_type ≡ rdb_disk → s.dirty_before_bgsave ≤ℤ s.metrics.dirty
  pub knows : s.child_type ≡ child_rdb → s.rdb_child_type ≢ rdb_none
  pub alone : s.child_type ≢ child_rdb → s.rdb_child_type ≡ rdb_none

pub le-sub : (a b : ℤ) → a ≤ℤ b → pos 0 ≤ℤ b -ℤ a
le-sub a b h = ground arith

write-le : (a b : ℤ) (n : ℕ) → a ≤ℤ b → a ≤ℤ b +ℤ pos n
write-le a b n h = ground arith

pub le-self : (a : ℤ) → a ≤ℤ a
le-self a = ground arith

pub sound_ne : (t : ChildType) → is_rdb_child t ≡ false → t ≢ child_rdb
unfolding is_rdb_child
sound_ne child_none h p = absurd (cc)
sound_ne child_rdb h p = absurd (cc)
sound_ne child_other h p = absurd (cc)

pub none-ne-disk : rdb_none ≢ rdb_disk
none-ne-disk p = absurd (cc)

-- `rdbSave` leaves the metrics alone or sets the dirty counter to 0.
save-dirty :
    (o : Calls) (pid : ℕ) (name : FileName) (m : Metrics) (disk : Disk)
    → ((save o pid name m disk).1 ≡ m) ⊎ ((save o pid name m disk).1.dirty ≡ pos 0)
unfolding save move_in_place
save-dirty o pid name m disk = elim (Bool-cases (save_internal o (temp pid) disk).0) [
  | inr z ↦ inl (rw z refl)
  | inl z ↦ elim (Bool-cases o.renames) [
    | inr y ↦ inl (rw (z, y) refl)
    | inl y ↦ elim (Bool-cases o.syncs_dir) [
      | inr v ↦ inl (rw (z, y, v) refl)
      | inl v ↦ inr (rw (z, y, v) refl)
    ]
  ]
]

pub save_command-IsSound :
    (o : Calls) (pid : ℕ) (name : FileName) (s : ServerState) (disk : Disk)
    → IsSound s
    → IsSound (save_command o pid name s disk).1
unfolding save_command
save_command-IsSound o pid name s disk h = elim (Bool-cases (is_rdb_child s.child_type)) [
  | inl z ↦ rw z h
  | inr z ↦
      let ne = sound_ne s.child_type z in
      rw z (record {
        not_negative = elim (save-dirty o pid name s.metrics disk) [
          | inl same ↦ rw same h.not_negative
          | inr reset ↦ rw reset (omega arith)
        ];
        since_fork = λ p. absurd (none-ne-disk (sym (h.alone ne) ∙ p));
        knows = λ p. absurd (ne p);
        alone = h.alone;
      })
]

pub write-IsSound : (n : ℕ) (s : ServerState) → IsSound s → IsSound (written n s)
write-IsSound n s h = record {
  not_negative = write-le (pos 0) s.metrics.dirty n h.not_negative;
  since_fork = λ p. write-le s.dirty_before_bgsave s.metrics.dirty n (h.since_fork p);
  knows = h.knows;
  alone = h.alone;
}

pub kill-IsSound : (s : ServerState) → IsSound s → IsSound (kill_child s)
unfolding kill_child
kill-IsSound s h = record {
  not_negative = h.not_negative;
  since_fork = h.since_fork;
  knows = h.knows;
  alone = h.alone;
}
