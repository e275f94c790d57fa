-- ===== src/Redis/Entries.antt =====
-- redis/rdb.c: the entries of a file around its values, `rdbSaveKeyValuePair` to
-- `rdbSaveInfoAuxFields` and `rdbSaveFunctions`.
pub mod Code
use double_swap.Base.{
  ℕ, zero, suc, ◌+◌, ◌/◌, ◌%◌, Bool, true, false, Option, none, some, List, [], ◌∷◌, Bytes,
  if◌then◌else◌, Step, pure, ◌>>=◌, ◌>>◌,
}
use double_swap.Base.Int.{ℤ, pos, negsuc}
use double_swap.Redis.Format.{Format}
use double_swap.Redis.Rio.{Sink, Rdb, write_raw}
use double_swap.Redis.Host.{Host}
use double_swap.Redis.Length.{save_len}
use double_swap.Redis.Text.{StringObject, save_raw_string, save_string_object}
use double_swap.Redis.Scalars.{save_type, save_millisecond_time}
use double_swap.Redis.Opcodes.{Opcodes}
use double_swap.Redis.Counting.{◌⊕◌, save_each}
use double_swap.Redis.Object.{Value, save_object_type, save_object}

-- The bits of `server.maxmemory_policy` that `rdbSaveKeyValuePair` tests.
pub record Policy : Type 0 where
  pub savelru : Bool
  pub savelfu : Bool

-- A key with its value; `idle_time` is `estimateObjectIdleTime` and `frequency` `LFUDecrAndReturn`.
pub record Pair : Type 0 where
  pub key : StringObject
  pub value : Value
  pub expiretime : ℤ
  pub idle_time : ℕ
  pub frequency : ℕ

-- `expiretime != -1`
unfoldable pub has_expire : ℤ → Bool
has_expire (pos n) = true
has_expire (negsuc zero) = false
has_expire (negsuc (suc n)) = true

-- Where the dump stands in replication, `rdbSaveInfo` with the fields of the server beside it.
pub record Replication : Type 0 where
  pub repl_stream_db : ℤ
  pub replid : Bytes
  pub master_repl_offset : ℤ

-- What `rdbSaveInfoAuxFields` asks the server and its host for.
pub record Info : Type 0 where
  pub redis_version : Bytes
  pub wide_pointers : Bool  -- `sizeof(void*) == 8`
  pub ctime : ℤ
  pub used_memory : ℤ
  pub rsi : Option Replication
  pub aof_preamble : Bool

-- The names of the auxiliary fields, "redis-ver" and so on, in ASCII.
pub record FieldNames : Type 0 where
  pub redis_ver : Bytes
  pub redis_bits : Bytes
  pub ctime : Bytes
  pub used_mem : Bytes
  pub repl_stream_db : Bytes
  pub repl_id : Bytes
  pub repl_offset : Bytes
  pub aof_base : Bytes

abbrev pub field_names : FieldNames
field_names = record {
  redis_ver = 114 ∷ 101 ∷ 100 ∷ 105 ∷ 115 ∷ 45 ∷ 118 ∷ 101 ∷ 114 ∷ [];
  redis_bits = 114 ∷ 101 ∷ 100 ∷ 105 ∷ 115 ∷ 45 ∷ 98 ∷ 105 ∷ 116 ∷ 115 ∷ [];
  ctime = 99 ∷ 116 ∷ 105 ∷ 109 ∷ 101 ∷ [];
  used_mem = 117 ∷ 115 ∷ 101 ∷ 100 ∷ 45 ∷ 109 ∷ 101 ∷ 109 ∷ [];
  repl_stream_db =
      114 ∷ 101 ∷ 112 ∷ 108 ∷ 45 ∷ 115 ∷ 116 ∷ 114 ∷ 101 ∷ 97 ∷ 109 ∷ 45 ∷ 100 ∷ 98 ∷ [];
  repl_id = 114 ∷ 101 ∷ 112 ∷ 108 ∷ 45 ∷ 105 ∷ 100 ∷ [];
  repl_offset = 114 ∷ 101 ∷ 112 ∷ 108 ∷ 45 ∷ 111 ∷ 102 ∷ 102 ∷ 115 ∷ 101 ∷ 116 ∷ [];
  aof_base = 97 ∷ 111 ∷ 102 ∷ 45 ∷ 98 ∷ 97 ∷ 115 ∷ 101 ∷ [];
}

module _ (f : Format) (c : Opcodes) (e : Host) (w : Sink) where
  -- A group of writes under an `if`, its count left out.
  unfoldable pub optional : Bool → Step (Rdb w) ℕ → Step (Rdb w) ℕ
  optional b m = if b then m else pure 0

  -- `rdbSaveKeyValuePair`, but for the delay that tests ask for
  unfoldable pub save_key_value_pair : Policy → Pair → Step (Rdb w) ℕ
  unfolding optional
  save_key_value_pair o k = do
    optional (has_expire k.expiretime)
        (save_type w c.rdb_opcode_expiretime_ms >> save_millisecond_time w k.expiretime)
    optional o.savelru (save_type w c.rdb_opcode_idle >> save_len f w (k.idle_time / 1000))
    optional o.savelfu (save_type w c.rdb_opcode_freq >> write_raw w (k.frequency % 256 ∷ []))
    save_object_type f c e w k.value
    save_string_object f e w k.key
    save_object f c e w k.value
    pure 1

  -- `rdbSaveAuxField`, and `rdbSaveAuxFieldStrStr` of strings that know their length
  unfoldable pub save_aux_field : Bytes → Bytes → Step (Rdb w) ℕ
  save_aux_field key val =
      save_type w c.rdb_opcode_aux ⊕ save_raw_string f e w key ⊕ save_raw_string f e w val

  -- `rdbSaveAuxFieldStrInt`
  unfoldable pub save_aux_integer : Bytes → ℤ → Step (Rdb w) ℕ
  unfolding save_aux_field
  save_aux_integer key val = save_aux_field key (e.ll2string val)

  -- The fields that `rsi` adds.
  unfoldable pub save_replication : Option Replication → Step (Rdb w) ℕ
  save_replication none = pure 0
  save_replication (some rsi) = do
    save_aux_integer field_names.repl_stream_db rsi.repl_stream_db
    save_aux_field field_names.repl_id rsi.replid
    save_aux_integer field_names.repl_offset rsi.master_repl_offset

  -- `rdbSaveInfoAuxFields`
  unfoldable pub save_info_aux_fields : Info → Step (Rdb w) ℕ
  unfolding save_aux_integer save_replication
  save_info_aux_fields a = do
    save_aux_field field_names.redis_ver a.redis_version
    save_aux_integer field_names.redis_bits (pos (if a.wide_pointers then 64 else 32))
    save_aux_integer field_names.ctime a.ctime
    save_aux_integer field_names.used_mem a.used_memory
    save_replication a.rsi
    save_aux_integer field_names.aof_base (pos (if a.aof_preamble then 1 else 0))
    pure 1

  -- `rdbSaveFunctions`, over the code of each library
  unfoldable pub save_functions : List Bytes → Step (Rdb w) ℕ
  save_functions libraries =
      save_each (λ code. save_type w c.rdb_opcode_function2 ⊕ save_raw_string f e w code) libraries
