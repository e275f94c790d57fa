-- ===== src/Redis/Object.antt =====
-- redis/rdb.c: values and their types, `rdbSaveObjectType`, `rdbSaveObject` and
-- `rdbSavedObjectLen`; a value holds what the writer takes from the server's structures, in the
-- order in which their iterators visit it. Module values, which a module's own callback writes,
-- are left out; the stream branch is in `Streams`.
pub mod Streams
pub mod Code
pub mod Expiry
use double_swap.Base.{
  ℕ, ◌+◌, ◌-◌, ◌%◌, ◌^◌, Bool, true, false, Option, none, some, List, [], ◌∷◌, Bytes, if◌then◌else◌,
  length, Step, pure, ◌>>=◌, ◌>>◌,
}
use mathlib.Core.List.{reverse}
use double_swap.Base.Int.{signed}
use double_swap.Redis.Format.{Format}
use double_swap.Redis.Opcodes.{Opcodes}
use double_swap.Redis.Host.{Host}
use double_swap.Redis.Rio.{Sink, Rdb, write_raw}
use double_swap.Redis.Counting.{◌⊕◌, save_each}
use double_swap.Redis.Length.{save_len}
use double_swap.Redis.Text.{StringObject, save_lzf_blob, save_raw_string, save_string_object}
use double_swap.Redis.Scalars.{save_type, save_millisecond_time, save_binary_double}
use double_swap.Redis.Object.Streams.{StreamObject, save_stream}

-- A quicklist node: its container, and its entry, compressed by LZF from a size or not.
pub record Node : Type 0 where
  pub container : ℕ
  pub compressed : Bool
  pub entry : Bytes
  pub sz : ℕ

-- A hash field; no expire time is EB_EXPIRE_TIME_INVALID.
pub record Field : Type 0 where
  pub expire : Option ℕ
  pub name : Bytes
  pub value : Bytes

-- `robj` by type and encoding. `Option ℕ` is `hashTypeGetMinExpire`.
pub data Value : Type 0 where
  string : StringObject → Value
  list_quicklist : List Node → Value
  list_listpack : Bytes → Value
  set_intset set_listpack : Bytes → Value
  set_table : List Bytes → Value
  zset_listpack : Bytes → Value
  zset_skiplist : List (Bytes × ℕ) → Value
  hash_listpack : Bytes → Value
  hash_listpack_ex : Option ℕ → Bytes → Value
  hash_table : Option ℕ → List Field → Value
  stream : StreamObject → Value

-- `rdbSaveObjectType`: the byte that it saves.
unfoldable pub object_type : Opcodes → Value → ℕ
object_type c (string o) = c.rdb_type_string
object_type c (list_quicklist ns) = c.rdb_type_list_quicklist_2
object_type c (list_listpack lp) = c.rdb_type_list_quicklist_2
object_type c (set_intset l) = c.rdb_type_set_intset
object_type c (set_listpack l) = c.rdb_type_set_listpack
object_type c (set_table es) = c.rdb_type_set
object_type c (zset_listpack l) = c.rdb_type_zset_listpack
object_type c (zset_skiplist zs) = c.rdb_type_zset_2
object_type c (hash_listpack l) = c.rdb_type_hash_listpack
object_type c (hash_listpack_ex m l) = c.rdb_type_hash_listpack_ex
object_type c (hash_table none fs) = c.rdb_type_hash
object_type c (hash_table (some m) fs) = c.rdb_type_hash_metadata
object_type c (stream s) = c.rdb_type_stream_listpacks_3

-- The saved TTL: 0 for none, else relative to the earliest, in uint64_t.
unfoldable pub saved_ttl : ℕ → Option ℕ → ℕ
saved_ttl min_expire none = 0
saved_ttl min_expire (some t) = (t + 2 ^ 64 - min_expire + 1) % 2 ^ 64

-- `minExpire` of a packed hash; an invalid time is saved as 0.
unfoldable pub packed_min : Option ℕ → ℕ
packed_min none = 0
packed_min (some t) = t

module _ (f : Format) (c : Opcodes) (e : Host) (w : Sink) where
  unfoldable pub save_object_type : Value → Step (Rdb w) ℕ
  unfolding object_type
  save_object_type v = save_type w (object_type c v)

  unfoldable pub save_node : Node → Step (Rdb w) ℕ
  save_node n =
      save_len f w n.container
      ⊕ (if n.compressed then save_lzf_blob f e w n.entry n.sz else save_raw_string f e w n.entry)

  unfoldable pub save_scored : Bytes × ℕ → Step (Rdb w) ℕ
  save_scored (ele, score) = save_raw_string f e w ele ⊕ save_binary_double w score

  unfoldable pub save_field : Field → Step (Rdb w) ℕ
  save_field d = save_raw_string f e w d.name ⊕ save_raw_string f e w d.value

  unfoldable pub save_field_ttl : ℕ → Field → Step (Rdb w) ℕ
  save_field_ttl min_expire d =
      save_len f w (saved_ttl min_expire d.expire)
      ⊕ save_raw_string f e w d.name
      ⊕ save_raw_string f e w d.value

  -- `rdbSaveObject`. The count of `rdbSaveMillisecondTime` is not added in the two hash branches.
  unfoldable pub save_object : Value → Step (Rdb w) ℕ
  save_object (string o) = save_string_object f e w o
  save_object (list_quicklist ns) = save_len f w (length ns) ⊕ save_each save_node ns
  save_object (list_listpack lp) =
      save_len f w 1 ⊕ save_len f w c.quicklist_node_container_packed ⊕ save_raw_string f e w lp
  save_object (set_intset l) = save_raw_string f e w l
  save_object (set_listpack l) = save_raw_string f e w l
  save_object (set_table es) = save_len f w (length es) ⊕ save_each (save_raw_string f e w) es
  save_object (zset_listpack l) = save_raw_string f e w l
  save_object (zset_skiplist zs) = save_len f w (length zs) ⊕ save_each save_scored (reverse zs)
  save_object (hash_listpack l) = save_raw_string f e w l
  save_object (hash_listpack_ex m l) = do
    save_millisecond_time w (signed (2 ^ 64) (packed_min m))
    save_raw_string f e w l
  save_object (hash_table none fs) = save_len f w (length fs) ⊕ save_each save_field fs
  save_object (hash_table (some m) fs) = do
    save_millisecond_time w (signed (2 ^ 64) m)
    save_len f w (length fs) ⊕ save_each (save_field_ttl m) fs
  save_object (stream s) = save_stream f e w s

  -- `rdbSavedObjectLen`: the count of a run on a null pointer.
  unfoldable pub saved_object_len : Value → Option ℕ
  unfolding save_object
  saved_object_len v = elim (save_object v none) [ none ↦ none | some (n, _) ↦ some n ]
