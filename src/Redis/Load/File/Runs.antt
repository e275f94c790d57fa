-- ===== src/Redis/Load/File/Runs.antt =====
-- The theorems on files, at a file of one key.
use Prim.Native.Nat.{ℕ}
use double_swap.Base.{◌≡◌, refl, true, false, none, some, [], ◌∷◌, Bytes, Step, pure, ◌>>=◌, arith}
use double_swap.Base.Int.{pos}
use double_swap.Redis.Samples.{rdb_format, rdb_opcodes, memory_source, plain_host}
use double_swap.Redis.Length.{load_len}
use double_swap.Redis.Scalars.{load_type}
use double_swap.Redis.Text.{load_string}
use double_swap.Redis.Entries.{has_expire}
use double_swap.Redis.Load.{Outcome, loaded, load_enc, load_text, bytes_eq, holds_key}
use double_swap.Redis.Load.Packed.Rows.{Pairwise}
use double_swap.Redis.Load.File.{
  no_attributes, Loading, Config, load_entry, load_rio, ended, put_keys,
}
use double_swap.Redis.Load.File.Keys.{IsSound}
use double_swap.Redis.Load.File.Sound.{load_rio-IsSound}

abbrev pub small_server : Config
small_server = record {
  dbnum = 16;
  cluster_enabled = false;
  is_master = true;
  aof_preamble = false;
  feed_repl = false;
  allow_dup = false;
  big_endian_host = false;
  rdb_version = 12;
  check_cksum = false;
  now = pos 1000;
  same_word = λ a b. bytes_eq a b;
  atoi = λ s. pos 12;
  strtoll = λ s. pos 0;
  run_id_size = 40;
  create_library = λ ls l. true;
}

abbrev nothing_loaded : Loading Bytes
nothing_loaded = record {
  dbid = 0;
  db_size = 0;
  expires_size = 0;
  should_expand_db = false;
  attributes = no_attributes;
  keyspace = λ j. [];
  hints = [];
  libraries = [];
  rsi = none;
  rdb_used_mem = pos 0;
  deletions = [];
  keys_loaded = 0;
  keys_expired = 0;
  empty_keys_skipped = 0;
}

-- A loader that reads every value as a string.
abbrev read_string : ℕ → Step Bytes (Outcome Bytes)
read_string type = load_text rdb_format plain_host memory_source load_enc >>= λ s. pure (loaded s)

-- "REDIS0012", the string A with the value B, the end of the file and its checksum.
abbrev one_key_file : Bytes
one_key_file =
    82 ∷ 69 ∷ 68 ∷ 73 ∷ 83 ∷ 48 ∷ 48 ∷ 49 ∷ 50 ∷ 0 ∷ 1 ∷ 65 ∷ 1 ∷ 66 ∷ 255 ∷ 0 ∷ 0 ∷ 0 ∷ 0 ∷ 0 ∷ 0
    ∷ 0 ∷ 0 ∷ []

abbrev one_key : Loading Bytes
one_key = record nothing_loaded {
  keyspace =
      put_keys 0 (record { key = 65 ∷ []; value = 66 ∷ []; attributes = no_attributes } ∷ [])
        nothing_loaded.keyspace;
  keys_loaded = 1;
}

nothing_loaded-IsSound : IsSound small_server nothing_loaded
unfolding IsSound Pairwise
nothing_loaded-IsSound = record {
  distinct = λ j. tt;
  unexpired = λ j. tt;
  in_range = λ j out. refl;
  selected = omega arith;
}

loads_one_key :
    load_rio rdb_format rdb_opcodes plain_host memory_source small_server read_string
      (λ s. some (tt, s))
      (λ s. 0)
      3
      nothing_loaded
      one_key_file
    ≡ some (ended one_key, [])
unfolding load_rio bytes_eq load_type load_entry load_text load_string load_len holds_key has_expire
loads_one_key = refl

load_rio-IsSound_example : IsSound small_server one_key
load_rio-IsSound_example =
    load_rio-IsSound rdb_format rdb_opcodes plain_host memory_source small_server read_string
      (λ s. some (tt, s)) (λ s. 0) 3 nothing_loaded one_key one_key_file [] nothing_loaded-IsSound
      loads_one_key
