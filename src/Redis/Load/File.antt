-- ===== src/Redis/Load/File.antt =====
-- redis/rdb.c: `rdbLoadRioWithLoadingCtx` with `rdbFunctionLoad` and `rdbLoadTime`. What is logged,
-- the notification of modules, and the index of the hashes with expire times are left out.
pub mod Keys
pub mod Sound
pub mod Rounds
pub mod Branches
pub mod Groups
pub mod Saved
pub mod Entries
pub mod Databases
pub mod Keyspace
pub mod Preamble
pub mod Framed
pub mod Loadable
pub mod Content
pub mod RoundTrip
mod Runs
mod Restored
use double_swap.Base.{
  ℕ, zero, suc, ◌+◌, ◌*◌, ◌^◌, Bool, true, false, not, ◌&&◌, ◌||◌, Option, none, some, List, [],
  ◌∷◌, ◌++◌, map, Bytes, ltb, leb, ◌==◌, get_or, take, length, if◌then◌else◌, Step, pure, fail,
  ◌>>=◌, ◌>>◌, or_fail,
}
use double_swap.Base.Int.{ℤ, pos, negsuc, pos_part, leb_ℤ, signed}
use double_swap.Redis.Format.{Format}
use double_swap.Redis.Opcodes.{Opcodes}
use double_swap.Redis.Host.{Host}
use double_swap.Redis.Rio.{Source}
use double_swap.Redis.Endian.{from_little, from_big}
use double_swap.Redis.Length.{load_len}
use double_swap.Redis.Scalars.{load_type, load_millisecond_time}
use double_swap.Redis.Entries.{has_expire, FieldNames, field_names}
use double_swap.Redis.Load.{
  no_flags, load_sds, Outcome, empty_key, loaded, bytes_eq, holds_key, load_text,
}

-- "Key-specific attributes, set by opcodes before the key type", -1 for none.
pub record Attributes : Type 0 where
  pub expiretime : ℤ
  pub lru_idle : ℤ
  pub lfu_freq : ℤ

abbrev pub no_attributes : Attributes
no_attributes = record { expiretime = negsuc 0; lru_idle = negsuc 0; lfu_freq = negsuc 0 }

pub record LoadedKey (V : Type 0) : Type 0 where
  pub key : Bytes
  pub value : V
  pub attributes : Attributes

-- The sizes that the file hints at, for a database or for a slot of it.
pub data Hint : Type 0 where
  db_expand : ℕ → ℕ → ℕ → Hint
  slot_expand : ℕ → ℕ → ℕ → ℕ → Hint

-- `rdbSaveInfo`, as far as a file fills it.
pub record SaveInfo : Type 0 where
  pub repl_stream_db : ℤ
  pub repl_id : Option Bytes
  pub repl_offset : ℤ

pub record Loading (V : Type 0) : Type 0 where
  pub dbid : ℕ
  pub db_size : ℕ
  pub expires_size : ℕ
  pub should_expand_db : Bool
  pub attributes : Attributes
  pub keyspace : ℕ → List (LoadedKey V)  -- by database, in the order in which the keys came
  pub hints : List Hint
  pub libraries : List Bytes
  pub rsi : Option SaveInfo  -- `none` is a null pointer
  pub rdb_used_mem : ℤ
  pub deletions : List (ℕ × Bytes)  -- sent to the replicas
  pub keys_loaded : ℕ
  pub keys_expired : ℕ
  pub empty_keys_skipped : ℕ

-- The server, the flags of the call, and what the C library and functions.c do.
pub record Config : Type 0 where
  pub dbnum : ℕ
  pub cluster_enabled : Bool
  pub is_master : Bool  -- `iAmMaster()`
  pub aof_preamble : Bool  -- RDBFLAGS_AOF_PREAMBLE
  pub feed_repl : Bool  -- RDBFLAGS_FEED_REPL
  pub allow_dup : Bool  -- RDBFLAGS_ALLOW_DUP
  pub big_endian_host : Bool
  pub rdb_version : ℕ
  pub check_cksum : Bool  -- `server.rdb_checksum && !server.skip_checksum_validation`
  pub now : ℤ  -- `mstime()` at the start
  pub same_word : Bytes → Bytes → Bool  -- `strcasecmp` tells no difference
  pub atoi : Bytes → ℤ
  pub strtoll : Bytes → ℤ
  pub run_id_size : ℕ
  pub create_library : List Bytes → Bytes → Bool  -- `functionsCreateWithLibraryCtx`

abbrev pub times_1000 : ℤ → ℤ
times_1000 (pos n) = pos (n * 1000)
times_1000 (negsuc n) = negsuc (n * 1000 + 999)

-- a < b
abbrev pub ltb_ℤ : ℤ → ℤ → Bool
ltb_ℤ a b = not (leb_ℤ b a)

-- "Check if the key already expired."
unfoldable pub is_expired : Config → ℤ → Bool
is_expired g expiretime =
    g.is_master && not g.aof_preamble && has_expire expiretime && ltb_ℤ expiretime g.now

module _ {V : Type 0} where
  abbrev pub key_of : LoadedKey V → Bytes
  key_of k = k.key

  -- `dbSyncDelete`
  unfoldable pub without : Bytes → List (LoadedKey V) → List (LoadedKey V)
  without k [] = []
  without k (x ∷ xs) = let rest = without k xs in if bytes_eq x.key k then rest else x ∷ rest

  -- The keys of one database change.
  unfoldable pub put_keys :
      ℕ → List (LoadedKey V) → (ℕ → List (LoadedKey V)) → ℕ → List (LoadedKey V)
  put_keys j ks old i = if i == j then ks else old i

-- The names of the auxiliary fields that change something: "repl-stream-db", "repl-id",
-- "repl-offset" and "used-mem".
module _ {V : Type 0} (g : Config) where
  unfoldable pub set_rsi : (SaveInfo → SaveInfo) → Loading V → Loading V
  set_rsi change s = record s { rsi = elim s.rsi [ none ↦ none | some i ↦ some (change i) ] }

  -- A field of RDB_OPCODE_AUX; those that begin with '%' are only logged.
  unfoldable pub set_aux : Bytes → Bytes → Loading V → Loading V
  unfolding set_rsi
  set_aux name val s =
      if get_or name 0 0 == 37
      then s
      else if g.same_word name field_names.repl_stream_db
      then set_rsi (λ i. record i { repl_stream_db = g.atoi val }) s
      else if g.same_word name field_names.repl_id
      then (if length val == g.run_id_size
          then set_rsi (λ i. record i { repl_id = some val }) s
          else s)
      else if g.same_word name field_names.repl_offset
      then set_rsi (λ i. record i { repl_offset = g.strtoll val }) s
      else if g.same_word name field_names.used_mem
      then record s { rdb_used_mem = g.strtoll val }
      else s

  -- "estimate number of keys per slot and resize accordingly"
  unfoldable pub expand_db : Loading V → Loading V
  expand_db s =
      if s.should_expand_db
      then record s {
        hints = s.hints ++ db_expand s.dbid s.db_size s.expires_size ∷ [];
        should_expand_db = false;
      }
      else s

  -- `dbAddRDBLoad` with what follows on a key that is there: `none` is the panic.
  unfoldable pub add_key : LoadedKey V → List (LoadedKey V) → Option (List (LoadedKey V))
  unfolding without
  add_key k ks =
      if holds_key (map key_of ks) k.key
      then (if g.allow_dup then some (without k.key ks ++ k ∷ []) else none)
      else some (ks ++ k ∷ [])

  -- What becomes of a key behind the reads of it and its value.
  unfoldable pub take_key : Bytes → Outcome V → Loading V → Option (Loading V)
  unfolding add_key put_keys is_expired
  take_key key empty_key s = some (record s { empty_keys_skipped = s.empty_keys_skipped + 1 })
  take_key key (loaded val) s =
      if is_expired g s.attributes.expiretime
      then some (record s {
        keys_expired = s.keys_expired + 1;
        deletions = if g.feed_repl then s.deletions ++ (s.dbid, key) ∷ [] else s.deletions;
      })
      else elim (add_key (record { key = key; value = val; attributes = s.attributes })
          (s.keyspace s.dbid)) [
            | none ↦ none
            | some ks ↦ some (record s {
              keyspace = put_keys s.dbid ks s.keyspace;
              keys_loaded = s.keys_loaded + 1;
            })
          ]

abbrev pub drop_5 : Bytes → Bytes
drop_5 (a ∷ b ∷ c ∷ d ∷ e ∷ s) = s
drop_5 _ = []

-- How a round of the loop ends.
pub data Round (V : Type 0) : Type 0 where
  again : Loading V → Round V
  end_of_file : Loading V → Round V

-- The value loader is `rdbLoadObject`, and `module_aux` the branch of RDB_OPCODE_MODULE_AUX, most
-- of which is a callback.
module _ (f : Format) (o : Opcodes) (e : Host) (r : Source) {V : Type 0} (g : Config)
    (load_value : ℕ → Step r.Stream (Outcome V)) (module_aux : Step r.Stream (Unit {0}))
    (rdbver : ℕ) where
  -- `rdbLoadTime`
  unfoldable pub load_time : Step r.Stream ℤ
  load_time = do
    buf ← r.read 4
    pure (signed (2 ^ 32) (if g.big_endian_host then from_big buf else from_little buf))

  unfoldable pub load_slot_info : Loading V → Step r.Stream (Round V)
  load_slot_info s = do
    (_, slot_id) ← load_len f r
    (_, slot_size) ← load_len f r
    (_, expires_slot_size) ← load_len f r
    pure (
        again (
          if g.cluster_enabled
          then record s {
            hints = s.hints ++ slot_expand s.dbid slot_id slot_size expires_slot_size ∷ [];
            should_expand_db = false;
          }
          else s))

  -- `rdbFunctionLoad`
  unfoldable pub load_function : Loading V → Step r.Stream (Round V)
  unfolding load_text
  load_function s = do
    code ← load_text f e r load_sds
    if g.create_library s.libraries code
        then pure (again (record s { libraries = s.libraries ++ code ∷ [] }))
        else fail

  -- A key with its value, behind the type byte; the attributes start from scratch.
  unfoldable pub load_key : ℕ → Loading V → Step r.Stream (Round V)
  unfolding expand_db load_text take_key
  load_key type s = do
    key ← load_text f e r load_sds
    val ← load_value type
    or_fail (take_key g key val (expand_db g s))
        (λ t. pure (again (record t { attributes = no_attributes })))

  -- A round, by the byte at its start.
  unfoldable pub load_entry : ℕ → Loading V → Step r.Stream (Round V)
  unfolding load_time load_slot_info load_function load_key set_aux
  load_entry type s =
      if type == o.rdb_opcode_expiretime
      then (do
        t ← load_time
        pure (again (record s { attributes = record s.attributes { expiretime = times_1000 t } })))
      else if type == o.rdb_opcode_expiretime_ms
      then (do
        t ← load_millisecond_time r g.big_endian_host rdbver
        pure (again (record s { attributes = record s.attributes { expiretime = t } })))
      else if type == o.rdb_opcode_freq
      then (do
        buf ← r.read 1
        pure (
            again
              (record s { attributes = record s.attributes { lfu_freq = pos (get_or buf 0 0) } })))
      else if type == o.rdb_opcode_idle
      then (do
        (_, qword) ← load_len f r
        pure (
            again
              (record s { attributes = record s.attributes { lru_idle = signed (2 ^ 64) qword } })))
      else if type == o.rdb_opcode_eof
      then pure (end_of_file s)
      else if type == o.rdb_opcode_selectdb
      then (do
        (_, dbid) ← load_len f r
        if leb g.dbnum dbid then fail else pure (again (record s { dbid = dbid })))
      else if type == o.rdb_opcode_resizedb
      then (do
        (_, db_size) ← load_len f r
        (_, expires_size) ← load_len f r
        pure (
            again (record s {
              db_size = db_size;
              expires_size = expires_size;
              should_expand_db = true;
            })))
      else if type == o.rdb_opcode_slot_info
      then load_slot_info s
      else if type == o.rdb_opcode_aux
      then (do
        name ← load_text f e r no_flags
        val ← load_text f e r no_flags
        pure (again (set_aux g name val s)))
      else if type == o.rdb_opcode_module_aux
      then (do module_aux; pure (again s))
      else if type == o.rdb_opcode_function_pre_ga
      then fail
      else if type == o.rdb_opcode_function2
      then load_function s
      else load_key type s

-- The end of the loop within the rounds given.
pub data Ending (V : Type 0) : Type 0 where
  out_of_fuel : Ending V
  ended : Loading V → Ending V

module _ (f : Format) (o : Opcodes) (e : Host) (r : Source) {V : Type 0} (g : Config)
    (load_value : ℕ → Step r.Stream (Outcome V)) (module_aux : Step r.Stream (Unit {0}))
    (cksum : r.Stream → ℕ) where
  -- `continue` or `break`
  abbrev pub go_on : (Loading V → Step r.Stream (Ending V)) → Round V → Step r.Stream (Ending V)
  go_on next (again t) = next t
  go_on next (end_of_file t) = pure (ended t)

  -- `while(1)`
  unfoldable pub load_loop : ℕ → ℕ → Loading V → Step r.Stream (Ending V)
  unfolding load_entry
  load_loop rdbver zero s = pure out_of_fuel
  load_loop rdbver (suc fuel) s = do
    type ← load_type r
    x ← load_entry f o e r g load_value module_aux rdbver type s
    go_on (load_loop rdbver fuel) x

  -- "Verify the checksum if RDB version is >= 5"; `expected` is what `rio.c` summed up before.
  unfoldable pub check_cksum : ℕ → Step r.Stream (Unit {0})
  check_cksum rdbver =
      if leb 5 rdbver
      then (do
        expected ← (λ st. some (cksum st, st))
        buf ← r.read 8
        if not g.check_cksum || from_little buf == 0 || from_little buf == expected
            then pure tt
            else fail)
      else pure tt

  abbrev pub if_ended : Step r.Stream (Unit {0}) → Ending V → Step r.Stream (Ending V)
  if_ended check out_of_fuel = pure out_of_fuel
  if_ended check (ended t) = do check; pure (ended t)

  -- `rdbLoadRioWithLoadingCtx`; "REDIS" and the version stand in front.
  unfoldable pub load_rio : ℕ → Loading V → Step r.Stream (Ending V)
  unfolding load_loop check_cksum
  load_rio fuel s = do
    buf ← r.read 9
    let version = g.atoi (drop_5 buf)
    if bytes_eq (take 5 buf) (82 ∷ 69 ∷ 68 ∷ 73 ∷ 83 ∷ [])
          && leb_ℤ (pos 1) version
          && leb_ℤ version (pos g.rdb_version)
        then (do
          x ← load_loop (pos_part version) fuel s
          if_ended (check_cksum (pos_part version)) x)
        else fail
