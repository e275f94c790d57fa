-- ===== src/Redis/Saving/Atomic.antt =====
-- What a save leaves in the directory.
use double_swap.Base.{
  ℕ, ◌≡◌, ◌⊎◌, inl, inr, refl, ◌∙◌, Bool, true, false, ◌&&◌, if◌then◌else◌, Option, none, some,
  Bytes, ==_self,
}
use mathlib.Core.Bool.{false≢true}
use double_swap.Base.Int.{pos}
use double_swap.Redis.Saving.Disk.{
  FileName, temp, named, same_name, Disk, put, Calls, landed, try_unlink, Metrics, save_internal,
  move_in_place, save,
}

-- `rdbSave` to the file `a` succeeded: the file is the whole new dump.
abbrev pub IsSaved : Calls → ℕ → ℕ → Bool × Metrics × Disk → Type 0
IsSaved o pid a (ok, m', disk') =
    (ok ≡ true)
    × ((o.saves && o.flushes && o.syncs && o.closes) ≡ true)
    × (disk' (named a) ≡ some o.written)
    × (disk' (temp pid) ≡ none)
    × (m' ≡ record { dirty = pos 0; lastsave = o.now; lastbgsave_status = true })

-- It failed: the file is the old one, or the whole new dump if only the directory was not synced.
abbrev pub IsRefused : Calls → ℕ → ℕ → Metrics → Disk → Bool × Metrics × Disk → Type 0
IsRefused o pid a m disk (ok, m', disk') =
    (ok ≡ false)
    × (m' ≡ m)
    × (o.opens ≡ true → o.unlinks ≡ true → disk' (temp pid) ≡ none)
    × ((disk' (named a) ≡ disk (named a))
        ⊎ (((o.saves && o.flushes && o.syncs && o.closes) ≡ true)
            × (o.syncs_dir ≡ false)
            × (disk' (named a) ≡ some o.written)))

same_self : (x : FileName) → same_name x x ≡ true
unfolding same_name
same_self (temp p) = ==_self p
same_self (named a) = ==_self a

put-same : (x : FileName) (v : Option Bytes) (d : Disk) → put x v d x ≡ v
unfolding put
put-same x v d = rw (same_self x) refl

put-named-temp : (a p : ℕ) (v : Option Bytes) (d : Disk) → put (named a) v d (temp p) ≡ d (temp p)
unfolding put same_name
put-named-temp a p v d = refl

put-temp-named : (a p : ℕ) (v : Option Bytes) (d : Disk) → put (temp p) v d (named a) ≡ d (named a)
unfolding put same_name
put-temp-named a p v d = refl

-- The rename gives the file what the temporary one held, and takes that away.
moved_named :
    (a p : ℕ) (x : Bytes) (d : Disk)
    → put
        (temp p)
        none
        (put (named a) (put (temp p) (some x) d (temp p)) (put (temp p) (some x) d))
        (named a)
      ≡ some x
moved_named a p x d =
    put-temp-named a p none _ ∙ put-same (named a) _ _ ∙ put-same (temp p) (some x) d

-- The temporary file is away where `unlink` works, and no other file changes.
unlinked_temp :
    (o : Calls) (p : ℕ) (d : Disk) → o.unlinks ≡ true → try_unlink o (temp p) d (temp p) ≡ none
unfolding try_unlink
unlinked_temp o p d works = rw (try_unlink, works) (put-same (temp p) none d)

unlinked_named : (o : Calls) (a p : ℕ) (d : Disk) → try_unlink o (temp p) d (named a) ≡ d (named a)
unfolding try_unlink
unlinked_named o a p d = by_result o.unlinks
  where
    by_result : (b : Bool) → (if b then put (temp p) none d else d) (named a) ≡ d (named a)
    by_result true = put-temp-named a p none d
    by_result false = refl

-- `rdbSave` either returns C_OK, where the writing, `fflush`, `fsync` and `fclose` succeeded, with
-- the whole dump in its file, no temporary file and the metrics set, or returns C_ERR, with the
-- metrics as they were, no temporary file if it was opened and `unlink` works, and in the file what
-- was there before, or the whole dump where only the directory's sync failed.
pub save_atomic :
    (o : Calls) (pid a : ℕ) (m : Metrics) (disk : Disk)
    → IsSaved o pid a (save o pid (named a) m disk)
      ⊎ IsRefused o pid a m disk (save o pid (named a) m disk)
unfolding save save_internal move_in_place landed
save_atomic o pid a m disk =
    by_calls o.opens o.saves o.flushes o.syncs o.closes o.renames o.syncs_dir
  where
    calls : (opens saves flushes syncs closes renames syncs_dir : Bool) → Calls
    calls opens saves flushes syncs closes renames syncs_dir = record o {
      opens = opens;
      saves = saves;
      flushes = flushes;
      syncs = syncs;
      closes = closes;
      renames = renames;
      syncs_dir = syncs_dir;
    }

    full : Disk
    full = put (temp pid) (some o.written) disk

    moved : Disk
    moved = put (named a) (full (temp pid)) full

    gone : (d : Disk) → put (temp pid) none d (temp pid) ≡ none
    gone d = put-same (temp pid) none d

    -- An error behind `fopen`, with any bytes in the temporary file.
    kept :
        (o' : Calls) (p : Bytes)
        → try_unlink o' (temp pid) (put (temp pid) (some p) disk) (named a) ≡ disk (named a)
    kept o' p = unlinked_named o' a pid _ ∙ put-temp-named a pid (some p) disk

    by_calls :
        (opens saves flushes syncs closes renames syncs_dir : Bool)
        → let o' = calls opens saves flushes syncs closes renames syncs_dir in
          IsSaved o' pid a (save o' pid (named a) m disk)
          ⊎ IsRefused o' pid a m disk (save o' pid (named a) m disk)
    by_calls false _ _ _ _ _ _ = inr (refl, refl, (λ no. absurd (false≢true no)), inl refl)
    by_calls true false b c d e g =
        let o' = calls true false b c d e g in
        inr (refl, refl, (λ _. unlinked_temp o' pid _), inl (kept o' o.partial))
    by_calls true true false c d e g =
        let o' = calls true true false c d e g in
        inr (refl, refl, (λ _. unlinked_temp o' pid _), inl (kept o' o.partial))
    by_calls true true true false d e g =
        let o' = calls true true true false d e g in
        inr (refl, refl, (λ _. unlinked_temp o' pid _), inl (kept o' o.partial))
    by_calls true true true true false e g =
        let o' = calls true true true true false e g in
        inr (refl, refl, (λ _. unlinked_temp o' pid _), inl (kept o' o.partial))
    by_calls true true true true true false g =
        let o' = calls true true true true true false g in
        inr (refl, refl, (λ _. unlinked_temp o' pid _), inl (kept o' o.written))
    by_calls true true true true true true false =
        inr (refl, refl, (λ _ _. gone moved), inr (refl, refl, moved_named a pid o.written disk))
    by_calls true true true true true true true =
        inl (refl, refl, moved_named a pid o.written disk, gone moved, refl)
