-- ===== src/Redis/Load/File/Sound.antt =====
-- The loop that loads a file keeps the keyspace sound.
use double_swap.Base.{
  ℕ, zero, suc, ◌<◌, ◌≡◌, refl, Bool, true, false, ◌&&◌, some, [], ◌∷◌, Bytes, leb, ◌==◌, take,
  if◌then◌else◌, Bool-cases, inl, inr, Step, pure, fail, ◌>>=◌, bind-inverted, arith,
}
use double_swap.Base.Int.{pos, pos_part, leb_ℤ}
use double_swap.Redis.Format.{Format}
use double_swap.Redis.Opcodes.{Opcodes}
use double_swap.Redis.Host.{Host}
use double_swap.Redis.Rio.{Source}
use double_swap.Redis.Length.{load_len}
use double_swap.Redis.Scalars.{load_type, load_millisecond_time}
use double_swap.Redis.Load.{Outcome, load_sds, no_flags, load_text, bytes_eq}
use double_swap.Redis.Load.File.{
  Loading, Config, set_rsi, set_aux, expand_db, take_key, Round, again, end_of_file, load_time,
  load_slot_info, load_function, load_key, load_entry, Ending, out_of_fuel, ended, load_loop,
  check_cksum, load_rio, go_on, if_ended, drop_5,
}
use double_swap.Redis.Load.File.Keys.{
  Keeps, pure-Keeps, fail-Keeps, bind-Keeps, if-Keeps, choice-Keeps, IsSound, same-IsSound,
  take_key-IsSound,
}

module _ {V : Type 0} (g : Config) where
  -- The keyspace behind a round, and behind the loop if it ended.
  RoundSound : Round V → Type 0
  RoundSound (again t) = IsSound g t
  RoundSound (end_of_file t) = IsSound g t

  pub EndingSound : Ending V → Type 0
  EndingSound out_of_fuel = Unit {0}
  EndingSound (ended t) = IsSound g t

  expand_db-IsSound : (s : Loading V) → IsSound g s → IsSound g (expand_db g s)
  unfolding expand_db
  expand_db-IsSound s h = elim (Bool-cases s.should_expand_db) [
    | inl z ↦ rw (expand_db, z) (same-IsSound g s _ refl refl h)
    | inr z ↦ rw (expand_db, z) (same-IsSound g s _ refl refl h)
  ]

  if-IsSound :
      (b : Bool) (s t : Loading V) → IsSound g s → IsSound g t → IsSound g (if b then s else t)
  if-IsSound true s t x y = x
  if-IsSound false s t x y = y

  moved-IsSound :
      (s : Loading V) (dbid : ℕ)
      → dbid < g.dbnum
      → IsSound g s
      → IsSound g (record s { dbid = dbid })
  unfolding IsSound
  moved-IsSound s dbid small h = record {
    distinct = h.distinct;
    unexpired = h.unexpired;
    in_range = h.in_range;
    selected = small;
  }

  set_aux-kept :
      (name val : Bytes) (s : Loading V)
      → (s.dbid ≡ (set_aux g name val s).dbid) × (s.keyspace ≡ (set_aux g name val s).keyspace)
  unfolding set_aux set_rsi
  set_aux-kept name val s = ground arith

  set_aux-IsSound :
      (name val : Bytes) (s : Loading V) → IsSound g s → IsSound g (set_aux g name val s)
  set_aux-IsSound name val s h =
      let (d, k) = set_aux-kept name val s in same-IsSound g s (set_aux g name val s) d k h

module _ (f : Format) (o : Opcodes) (e : Host) (r : Source) {V : Type 0} (g : Config)
    (load_value : ℕ → Step r.Stream (Outcome V)) (module_aux : Step r.Stream (Unit {0}))
    (rdbver : ℕ) where
  abbrev KeepsSound : Step r.Stream (Round V) → Type 0
  KeepsSound m = Keeps {S = r.Stream} {A = Round V} (RoundSound g) m

  sound_again : (s : Loading V) → IsSound g s → KeepsSound (pure (again s))
  unfolding RoundSound
  sound_again s h = pure-Keeps r.Stream (RoundSound g) (again s) h

  behind :
      {B : Type 0} (m : Step r.Stream B) (k : B → Step r.Stream (Round V))
      → ((b : B) → KeepsSound (k b))
      → KeepsSound (m >>= k)
  behind m k keeps = bind-Keeps r.Stream (RoundSound g) m k keeps

  either :
      (b : Bool) (m k : Step r.Stream (Round V))
      → KeepsSound m
      → KeepsSound k
      → KeepsSound (if b then m else k)
  either b m k x y = if-Keeps r.Stream (RoundSound g) b m k x y

  fails : KeepsSound fail
  fails = fail-Keeps r.Stream (RoundSound g)

  -- Behind a step whose result is only stored outside the keyspace.
  stored :
      {B : Type 0} (m : Step r.Stream B) (k : B → Loading V) (s : Loading V)
      → ((b : B) → IsSound g (k b))
      → KeepsSound (m >>= λ b. pure (again (k b)))
  stored m k s h = behind m (λ b. pure (again (k b))) (λ b. sound_again (k b) (h b))

  abbrev load_size : Step r.Stream (Bool × ℕ)
  load_size = load_len f r

  load_slot_info-KeepsSound :
      (s : Loading V)
      → IsSound g s
      → KeepsSound (load_slot_info f o e r g load_value module_aux rdbver s)
  unfolding load_slot_info
  load_slot_info-KeepsSound s h = behind load_size _ (λ a. behind load_size _ (λ b.
      behind load_size _ (λ c.
        sound_again _ (if-IsSound g g.cluster_enabled _ s (same-IsSound g s _ refl refl h) h))))

  load_function-KeepsSound :
      (s : Loading V)
      → IsSound g s
      → KeepsSound (load_function f o e r g load_value module_aux rdbver s)
  unfolding load_function
  load_function-KeepsSound s h = behind (load_text f e r load_sds) _ (λ code.
      either (g.create_library s.libraries code) _ fail
        (sound_again _ (same-IsSound g s _ refl refl h)) fails)

  load_key-KeepsSound :
      (type : ℕ) (s : Loading V)
      → IsSound g s
      → KeepsSound (load_key f o e r g load_value module_aux rdbver type s)
  unfolding load_key
  load_key-KeepsSound type s h = behind (load_text f e r load_sds) _ (λ key.
      behind (load_value type) _ (λ val.
        choice-Keeps r.Stream (RoundSound g) (take_key g key val (expand_db g s)) _ (λ t taken.
          sound_again _ (
            same-IsSound g t _ refl refl
              (take_key-IsSound g key val (expand_db g s) t (expand_db-IsSound g s h) taken)))))

  load_entry-KeepsSound :
      (type : ℕ) (s : Loading V)
      → IsSound g s
      → KeepsSound (load_entry f o e r g load_value module_aux rdbver type s)
  unfolding load_entry RoundSound
  load_entry-KeepsSound type s h =
      either (type == o.rdb_opcode_expiretime) _ _
        (stored (load_time f o e r g load_value module_aux rdbver) _ s
          (λ t. same-IsSound g s _ refl refl h))
        (either (type == o.rdb_opcode_expiretime_ms) _ _
          (stored (load_millisecond_time r g.big_endian_host rdbver) _ s
            (λ t. same-IsSound g s _ refl refl h))
          (either (type == o.rdb_opcode_freq) _ _
            (stored (r.read 1) _ s (λ buf. same-IsSound g s _ refl refl h))
            (either (type == o.rdb_opcode_idle) _ _
              (stored load_size _ s (λ n. same-IsSound g s _ refl refl h))
              (either (type == o.rdb_opcode_eof) _ _
                (pure-Keeps r.Stream (RoundSound g) (end_of_file s) h)
                (either (type == o.rdb_opcode_selectdb) _ _
                  (behind load_size _ (λ (enc, dbid). select_db (leb g.dbnum dbid) dbid refl))
                  (either (type == o.rdb_opcode_resizedb) _ _
                    (behind load_size _ (λ a.
                      behind load_size _ (λ b. sound_again _ (same-IsSound g s _ refl refl h))))
                    (either (type == o.rdb_opcode_slot_info) _ _ (load_slot_info-KeepsSound s h) (
                      either (type == o.rdb_opcode_aux) _ _
                        (behind (load_text f e r no_flags) _ (λ name.
                          behind (load_text f e r no_flags) _
                            (λ val. sound_again _ (set_aux-IsSound g name val s h))))
                        (either (type == o.rdb_opcode_module_aux) _ _
                          (behind module_aux _ (λ u. sound_again s h))
                          (either (type == o.rdb_opcode_function_pre_ga) fail _ fails (
                            either (type == o.rdb_opcode_function2) _ _
                              (load_function-KeepsSound s h)
                              (load_key-KeepsSound type s h))))))))))))
    where
      select_db :
          (out : Bool) (dbid : ℕ)
          → leb g.dbnum dbid ≡ out
          → KeepsSound (if out then fail else pure (again (record s { dbid = dbid })))
      select_db true dbid z = fails
      select_db false dbid z = sound_again _ (moved-IsSound g s dbid (ground arith) h)

module _ (f : Format) (o : Opcodes) (e : Host) (r : Source) {V : Type 0} (g : Config)
    (load_value : ℕ → Step r.Stream (Outcome V)) (module_aux : Step r.Stream (Unit {0}))
    (cksum : r.Stream → ℕ) where
  load_loop-Keeps :
      (rdbver fuel : ℕ) (s : Loading V)
      → IsSound g s
      → Keeps {S = r.Stream}
          (EndingSound g)
          (load_loop f o e r g load_value module_aux cksum rdbver fuel s)
  unfolding load_loop RoundSound EndingSound
  load_loop-Keeps rdbver zero s h st y st' z =
      pure-Keeps r.Stream (EndingSound g) out_of_fuel tt st y st' z
  load_loop-Keeps rdbver (suc fuel) s h st y st' z =
      let (type, st₁, read, z₁) = bind-inverted (load_type r) _ (y, st') z in
      let (x, st₂, entry, z₂) =
        bind-inverted (load_entry f o e r g load_value module_aux rdbver type s) _ {s = st₁}
          (y, st') z₁ in
      by_round x st₂
        (load_entry-KeepsSound f o e r g load_value module_aux rdbver type s h st₁ x st₂ entry)
        (λ t. load_loop-Keeps rdbver fuel t) z₂
    where
      by_round :
          (x : Round V) (st₂ : r.Stream)
          → RoundSound g x
          → ((t : Loading V)
              → IsSound g t
              → Keeps {S = r.Stream}
                  (EndingSound g)
                  (load_loop f o e r g load_value module_aux cksum rdbver fuel t))
          → go_on f o e r g load_value module_aux cksum
              (load_loop f o e r g load_value module_aux cksum rdbver fuel)
              x
              st₂
            ≡ some (y, st')
          → EndingSound g y
      by_round (again t) st₂ sound on z₂ = on t sound st₂ y st' z₂
      by_round (end_of_file t) st₂ sound on z₂ =
          pure-Keeps r.Stream (EndingSound g) (ended t) sound st₂ y st' z₂

  load_rio-Keeps :
      (fuel : ℕ) (s : Loading V)
      → IsSound g s
      → Keeps {S = r.Stream} (EndingSound g) (load_rio f o e r g load_value module_aux cksum fuel s)
  unfolding load_rio EndingSound
  load_rio-Keeps fuel s h = bind-Keeps r.Stream (EndingSound g) (r.read 9) _ (λ buf.
      let version = g.atoi (drop_5 buf) in
      let rdbver = pos_part version in
      let readable =
        bytes_eq (take 5 buf) (82 ∷ 69 ∷ 68 ∷ 73 ∷ 83 ∷ [])
        && leb_ℤ (pos 1) version
        && leb_ℤ version (pos g.rdb_version) in
      if-Keeps r.Stream (EndingSound g) readable _ fail (body rdbver)
        (fail-Keeps r.Stream (EndingSound g)))
    where
      load : ℕ → Step r.Stream (Ending V)
      load rdbver =
          load_loop f o e r g load_value module_aux cksum rdbver fuel s
          >>= if_ended f o e r g load_value module_aux cksum
              (check_cksum f o e r g load_value module_aux cksum rdbver)

      checked :
          (check : Step r.Stream (Unit {0})) (x : Ending V)
          → EndingSound g x
          → Keeps {S = r.Stream}
              (EndingSound g)
              (if_ended f o e r g load_value module_aux cksum check x)
      checked check out_of_fuel sound = pure-Keeps r.Stream (EndingSound g) out_of_fuel tt
      checked check (ended t) sound =
          bind-Keeps r.Stream (EndingSound g) check _
            (λ u. pure-Keeps r.Stream (EndingSound g) (ended t) sound)

      body : (rdbver : ℕ) → Keeps {S = r.Stream} (EndingSound g) (load rdbver)
      body rdbver st y st' z =
          let (x, st₁, run, z₁) =
            bind-inverted (load_loop f o e r g load_value module_aux cksum rdbver fuel s) _ (y, st')
              z in
          checked (check_cksum f o e r g load_value module_aux cksum rdbver) x
            (load_loop-Keeps rdbver fuel s h st x st₁ run) st₁ y st' z₁

  -- Whatever the stream holds, and whatever the loader of values and the modules do: if the load of
  -- a file, started on a sound keyspace, returns without having used up its rounds, the keyspace is
  -- sound: each database has each key once, databases out of range have none, no key has a time
  -- that was over at the start, if this is a master that reads no preamble of an AOF, and the
  -- selected database is in range.
  pub load_rio-IsSound :
      (fuel : ℕ) (s t : Loading V) (st st' : r.Stream)
      → IsSound g s
      → load_rio f o e r g load_value module_aux cksum fuel s st ≡ some (ended t, st')
      → IsSound g t
  unfolding EndingSound
  load_rio-IsSound fuel s t st st' h run = load_rio-Keeps fuel s h st (ended t) st' run
