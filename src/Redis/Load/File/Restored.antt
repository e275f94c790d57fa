-- ===== src/Redis/Load/File/Restored.antt =====
-- The round trip of a file at one key with an expire time and a function.
use Prim.Native.Nat.{ℕ}
use double_swap.Base.{
  ◌<◌, ◌≡◌, refl, inl, true, false, none, some, [], ◌∷◌, ◌++◌, Bytes, length, Step, pure, fail,
  arith,
}
use double_swap.Base.Int.{pos}
use double_swap.Redis.Samples.{
  rdb_format, rdb_format-IsFormat, rdb_opcodes, memory_sink, memory_source, plain_host,
  plain_host-IsHost,
}
use double_swap.Redis.Rio.{pure-Writes}
use double_swap.Redis.Endian.{little_endian}
use double_swap.Redis.Text.{sds_encoded}
use double_swap.Redis.Object.{string}
use double_swap.Redis.Entries.{has_expire}
use double_swap.Redis.Dump.State.{Notes}
use double_swap.Redis.Dump.{Server, KeyEntry, Database}
use double_swap.Redis.Dump.File.{Checksum, Snapshot, save_rio}
use double_swap.Redis.Dump.Layout.{file_code, Ends}
use double_swap.Redis.Load.{Outcome, holds_key}
use double_swap.Redis.Load.Texts.{AreNew}
use double_swap.Redis.Load.Runs.{small_structures}
use double_swap.Redis.Load.Values.{Kind, type_byte, kind_of, Object, load_typed}
use double_swap.Redis.Dump.Code.{IsLoggable}
use double_swap.Redis.Dump.{value_sdslen}
use double_swap.Redis.Load.Values.Loadable.{IsLoadable}
use double_swap.Redis.Load.File.{no_attributes, Loading, is_expired, ended, load_rio}
use double_swap.Redis.Load.File.Branches.{IsOpcodes}
use double_swap.Redis.Load.File.Preamble.{AreAccepted}
use double_swap.Redis.Load.File.Framed.{IsAgreed}
use double_swap.Redis.Load.File.Loadable.{IsLoadableEntry, IsLoadableFile}
use double_swap.Redis.Load.File.Content.{no_module_data, IsRestored}
use double_swap.Redis.Load.File.RoundTrip.{file_round_trip}
use double_swap.Redis.Load.File.Runs.{small_server}

-- A `rio` whose checksum stays 0.
abbrev no_checksum : Checksum memory_sink
no_checksum = record { start = λ s. s; cksum = λ s. 0; sent-start = λ s. refl }

-- The key k with the string "hi", due at 2000 and not used for 3 seconds, in the first database,
-- and a function.
abbrev due_key : KeyEntry
due_key = record {
  slot = 7;
  keystr = 107 ∷ [];
  key_address = 0x7000;
  value = string (sds_encoded (104 ∷ 105 ∷ []));
  value_address = 0x9ff0;
  foreign_size = none;
  expire = pos 2000;
  idle_time = 3500;
  frequency = 0;
}

abbrev one_database : Database
one_database = record {
  entries = due_key ∷ [];
  expires_size = 1;
  slot_size = λ slot. 1;
  slot_expires = λ slot. 1;
}

abbrev one_due_key : Snapshot
one_due_key = record {
  rdb_version = 12;
  rdb_checksum = false;
  exclude_data = false;
  exclude_functions = false;
  info = record {
    redis_version = 55 ∷ [];
    wide_pointers = true;
    ctime = pos 9;
    used_memory = pos 4;
    rsi = none;
    aof_preamble = false;
  };
  functions = (35 ∷ []) ∷ [];
  databases = (one_database, (λ k. k)) ∷ [];
}

abbrev lru_server : Server
lru_server = record {
  policy = record { savelru = true; savelfu = false };
  cluster_enabled = true;
  in_fork_child = false;
  page_size = 4096;
}

abbrev no_objects : Loading Object
no_objects = record {
  dbid = 0;
  db_size = 0;
  expires_size = 0;
  should_expand_db = false;
  attributes = no_attributes;
  keyspace = λ j. [];
  hints = [];
  libraries = [];
  rsi = none;
  rdb_used_mem = pos 0;
  deletions = [];
  keys_loaded = 0;
  keys_expired = 0;
  empty_keys_skipped = 0;
}

type_below : (k : Kind) → type_byte rdb_opcodes k < 244
unfolding type_byte
type_below k = ground arith

kind_of-type_byte : (k : Kind) → kind_of rdb_opcodes (type_byte rdb_opcodes k) ≡ some k
unfolding kind_of type_byte
kind_of-type_byte k = ground arith

rdb_opcodes-IsOpcodes : IsOpcodes rdb_opcodes
rdb_opcodes-IsOpcodes = record {
  types = type_below;
  function2 = omega arith;
  pre_ga = omega arith;
  module_aux = omega arith;
  idle = omega arith;
  freq = omega arith;
  aux = omega arith;
  resizedb = omega arith;
  expiretime_ms = omega arith;
  expiretime = omega arith;
  selectdb = omega arith;
  eof = omega arith;
  byte = omega arith;
  told_apart = kind_of-type_byte;
}

due_key-IsLoadableEntry :
    IsLoadableEntry rdb_opcodes plain_host small_structures small_server one_database due_key
unfolding is_expired has_expire IsLoadable
due_key-IsLoadableEntry = record {
  taken = record {
    name = record { short = omega arith; room = λ k small. refl };
    time = record { low = omega arith; high = omega arith };
    fresh = refl;
    idle = omega arith;
    slot = omega arith;
  };
  value = record { short = omega arith; room = λ k small. refl };
  slot_size = omega arith;
  slot_expires = omega arith;
}

one_due_key-IsLoadableFile :
    IsLoadableFile rdb_opcodes plain_host small_structures small_server one_due_key
unfolding AreAccepted AreNew holds_key
one_due_key-IsLoadableFile = record {
  all_data = refl;
  all_functions = refl;
  digits = refl;
  recent = omega arith;
  known = omega arith;
  same_version = refl;
  expire_limit = omega arith;
  memory = λ k. refl;
  info = record { version = omega arith; replid = tt };
  functions = (refl, omega arith, tt);
  room = omega arith;
  few = omega arith;
  databases = (
    record {
      size = omega arith;
      expires_size = omega arith;
      names = (refl, tt);
      entries = (due_key-IsLoadableEntry, tt);
    },
    tt,
  );
}

due_key-IsLoggable : IsLoggable lru_server due_key
unfolding value_sdslen
due_key-IsLoggable = record {
  size = 2;
  readable = refl;
  page = omega arith;
  key_room = omega arith;
  value_room = omega arith;
}

no_others : ℕ → Step Bytes (Outcome Object)
no_others type = fail

abbrev due_file : Bytes
due_file = file_code rdb_format rdb_opcodes plain_host lru_server no_module_data one_due_key

file_round_trip_example :
    ((n : Notes → Notes) × Ends rdb_format rdb_format-IsFormat rdb_opcodes plain_host
        plain_host-IsHost memory_sink no_checksum lru_server
        (λ n. n)
        (λ b. pure 0)
        no_module_data
        (λ b. (0, pure-Writes memory_sink 0))
        (save_rio rdb_format rdb_opcodes plain_host memory_sink no_checksum lru_server
          (λ n. n)
          (λ b. pure 0)
          one_due_key)
        due_file
        n)
    × ((t : Loading Object) × (u : Bytes) × (load_rio rdb_format rdb_opcodes plain_host
            memory_source small_server
            (load_typed rdb_format rdb_opcodes plain_host small_structures memory_source no_others)
            (λ s. some (tt, s))
            (λ s. 0)
            (length due_file)
            no_objects
            (due_file ++ (little_endian 8 0 ++ []))
          ≡ some (ended t, u))
        × (u ≡ [])
        × IsRestored rdb_format rdb_format-IsFormat rdb_opcodes rdb_opcodes-IsOpcodes plain_host
            plain_host-IsHost small_structures memory_source small_server no_others
            (λ s. some (tt, s))
            (λ s. 0)
            lru_server
            one_due_key
            t)
unfolding IsAgreed
file_round_trip_example =
    file_round_trip rdb_format rdb_format-IsFormat rdb_opcodes rdb_opcodes-IsOpcodes plain_host
      plain_host-IsHost small_structures memory_sink no_checksum memory_source small_server
      no_others (λ s. some (tt, s)) (λ s. 0) lru_server (λ n. n) (λ b. pure 0)
      (λ b. (0, pure-Writes memory_sink 0)) one_due_key no_objects (length due_file) 0 []
      (due_file ++ (little_endian 8 0 ++ [])) one_due_key-IsLoadableFile
      (record { attributes = refl; keyspace = λ j. refl; libraries = refl })
      ((due_key-IsLoggable, tt), tt) (omega arith) (omega arith) (inl refl) refl
