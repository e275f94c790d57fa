-- ===== src/Redis/Load/Runs.antt =====
-- The theorems on the loaders of values, at concrete data structures and values.
use Prim.Native.Nat.{◌-◌, ◌^◌, ◌<◌}
use double_swap.Base.{
  ◌≡◌, ◌↔◌, refl, true, false, none, some, List, [], ◌∷◌, Bytes, inl, length, arith,
}
use double_swap.Base.Int.{pos}
use double_swap.Redis.Rio.{Reads}
use double_swap.Redis.Counting.{CountsBut}
use double_swap.Redis.Samples.{
  rdb_format, rdb_format-IsFormat, rdb_opcodes, memory_sink, memory_source, plain_host,
  plain_host-IsHost,
}
use double_swap.Redis.Object.{Field, hash_table, object_type, save_object}
use double_swap.Redis.Object.Code.{uncounted}
use double_swap.Redis.Length.{load_len}
use double_swap.Redis.Text.{load_string}
use double_swap.Redis.Load.{load_text, Structures, loaded, holds_key}
use double_swap.Redis.Load.Texts.{Fits, AreNew}
use double_swap.Redis.Load.Packed.{lp_validate}
use double_swap.Redis.Load.Packed.Rows.{Row, row_entries, IsTable}
use double_swap.Redis.Load.Packed.Entries.{lp_validate_iff_IsTable}
use double_swap.Redis.Load.Sets.{LoadingSet, listpack, add_member, load_set}
use double_swap.Redis.Load.Hashes.Timed.{IsTimed}
use double_swap.Redis.Load.Values.{Kind, of_set, type_byte, Object, set_object, load_object}
use double_swap.Redis.Load.Values.Loadable.{IsLoadable, Holds}
use double_swap.Redis.Load.Values.RoundTrip.{value_round_trip}
use double_swap.Redis.Load.Values.Distinctness.{HasDistinct, loaded_distinct}

-- The listpack of the fields A, due at 5, and B, due at 7.
abbrev two_rows : List Row
two_rows =
    record {
      name = record { text = 65 ∷ []; integer = none };
      value = record { text = 49 ∷ []; integer = some (pos 1) };
      ttl_text = 53 ∷ [];
      ttl = 5;
    }
    ∷ record {
      name = record { text = 66 ∷ []; integer = none };
      value = record { text = 50 ∷ []; integer = some (pos 2) };
      ttl_text = 55 ∷ [];
      ttl = 7;
    }
    ∷ []

abbrev pub small_structures : Structures
small_structures = record {
  big_endian_host = false;
  rdb_version = 12;
  deep = true;
  lp_entries = λ lp. some (row_entries two_rows);
  lp_header = λ lp. true;
  lp_length = λ lp. 6;
  lp_tuples = λ n lp. 2;
  lp_safe_to_add = λ ps n. true;
  lp_entry_size_integer = λ n. 9;
  hash_safe_to_add = λ ex fs n. true;
  hash_converts = λ fs. true;
  report_returns = false;
  intset_valid = λ deep l. true;
  intset_len = λ l. 1;
  is_long_long = λ s. false;
  is_nan = λ n. false;
  dict_expands = λ n. true;
  dict_ht_initial_size = 4;
  quicklist_node_container_plain = 1;
  eb_expire_time_max = 2 ^ 48 - 2;
  eb_expire_time_invalid = 2 ^ 48 - 1;
  max_intset_entries = 512;
  set_max_listpack_entries = 128;
  set_max_listpack_value = 64;
  zset_max_listpack_entries = 128;
  zset_max_listpack_value = 64;
  hash_max_listpack_entries = 1;
  hash_max_listpack_value = 64;
}

lp_validate_iff_IsTable_example : (lp_validate small_structures 3 [] ≡ true) ↔ (
    (ws : List Row) × (some (row_entries two_rows) ≡ some (row_entries ws))
    × IsTable small_structures ws)
lp_validate_iff_IsTable_example = lp_validate_iff_IsTable small_structures [] refl

lp_validate_two_rows : lp_validate small_structures 3 [] ≡ true
unfolding lp_validate row_entries holds_key
lp_validate_two_rows = refl

-- Two fields, of which one has an expire time.
abbrev half_timed : List Field
half_timed =
    record { expire = some 6; name = 65 ∷ []; value = 66 ∷ [] }
    ∷ record { expire = none; name = 67 ∷ []; value = [] }
    ∷ []

plain-Fits : (s : Bytes) → length s < 2 ^ 63 → Fits plain_host s
plain-Fits s short = record { short = short; room = λ k le. refl }

half_timed-IsLoadable :
    IsLoadable rdb_opcodes plain_host small_structures (hash_table (some 5) half_timed)
unfolding IsLoadable IsTimed AreNew holds_key
half_timed-IsLoadable = (
  (omega arith, omega arith),
  (
    record {
      timed = (omega arith, omega arith, omega arith);
      name_fits = plain-Fits (65 ∷ []) (omega arith);
      value_fits = plain-Fits (66 ∷ []) (omega arith);
    },
    (
      record {
        timed = tt;
        name_fits = plain-Fits (67 ∷ []) (omega arith);
        value_fits = plain-Fits [] (omega arith);
      },
      tt,
    ),
  ),
  (refl, (refl, tt)),
  record { table_room = λ k le. refl; converting = λ fs gs eq. refl },
  omega arith,
  omega arith,
)

value_round_trip_example :
    (p : Bytes) × CountsBut memory_sink
      (uncounted (hash_table (some 5) half_timed))
      (save_object rdb_format rdb_opcodes plain_host memory_sink (hash_table (some 5) half_timed))
      p
    × (k : Kind) × (type_byte rdb_opcodes k
        ≡ object_type rdb_opcodes (hash_table (some 5) half_timed))
    × (x : Object) × Reads memory_source
        (load_object rdb_format rdb_opcodes plain_host small_structures memory_source k)
        p
        (loaded x)
    × Holds rdb_opcodes plain_host small_structures (hash_table (some 5) half_timed) x
value_round_trip_example =
    value_round_trip rdb_format rdb_format-IsFormat rdb_opcodes plain_host plain_host-IsHost
      small_structures memory_sink memory_source (hash_table (some 5) half_timed) (omega arith)
      (inl (omega arith)) half_timed-IsLoadable

abbrev loaded_pair : LoadingSet
loaded_pair = record {
  encoding = listpack;
  members = (65 ∷ []) ∷ (66 ∷ []) ∷ [];
  maxelelen = 1;
  sumelelen = 2;
}

loads_pair :
    load_object rdb_format rdb_opcodes plain_host small_structures memory_source of_set
      (2 ∷ 1 ∷ 65 ∷ 1 ∷ 66 ∷ [])
    ≡ some (loaded (set_object loaded_pair), [])
unfolding load_object load_set holds_key load_len load_text load_string add_member
loads_pair = refl

loaded_distinct_example : HasDistinct (set_object loaded_pair)
loaded_distinct_example =
    loaded_distinct rdb_format rdb_opcodes plain_host small_structures memory_source of_set
      (2 ∷ 1 ∷ 65 ∷ 1 ∷ 66 ∷ []) (set_object loaded_pair) [] refl loads_pair
