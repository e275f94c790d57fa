-- ===== src/Redis/Object/Code.antt =====
-- The bytes of a value, that `rdbSaveObject` writes them, and the count that it returns.
use double_swap.Base.{
  ℕ, ◌+◌, ◌^◌, ◌≡◌, none, some, ◌++◌, Bytes, if◌then◌else◌, length, length-append, Step, ◌>>◌, inl,
  inr, Bool-cases, arith,
}
use mathlib.Core.List.{reverse}
use double_swap.Base.Int.{ℤ, signed}
use double_swap.Redis.Format.{Format, IsFormat}
use double_swap.Redis.Opcodes.{Opcodes}
use double_swap.Redis.Host.{Host, IsHost}
use double_swap.Redis.Rio.{Sink, Rdb, write_raw-Writes, bind-Writes}
use double_swap.Redis.Endian.{little_endian, length-little_endian}
use double_swap.Redis.Counting.{all_codes, Counts, CountsBut, ⊕-Counts, save_each-Counts}
use double_swap.Redis.Length.Code.{len_code, save_len-Writes}
use double_swap.Redis.Text.Code.{
  string_code, object_code, blob_code, save_raw_string-Writes, save_string_object-Writes,
  save_lzf_blob-Writes,
}
use double_swap.Redis.Scalars.{word64, save_millisecond_time, save_binary_double}
use double_swap.Redis.Object.Streams.Code.{
  time_code, stream_code, save_time-Counts, save_stream-Counts,
}
use double_swap.Redis.Object.{
  Node, Field, Value, string, list_quicklist, list_listpack, set_intset, set_listpack, set_table,
  zset_listpack, zset_skiplist, hash_listpack, hash_listpack_ex, hash_table, stream, saved_ttl,
  packed_min, save_node, save_scored, save_field, save_field_ttl, save_object, saved_object_len,
}

module _ (f : Format) (e : Host) where
  abbrev pub node_code : Node → Bytes
  node_code n =
      len_code f n.container
      ++ (if n.compressed then blob_code f n.entry n.sz else string_code f e n.entry)

  abbrev pub scored_code : Bytes × ℕ → Bytes
  scored_code (ele, score) = string_code f e ele ++ little_endian 8 score

  abbrev pub field_code : Field → Bytes
  field_code d = string_code f e d.name ++ string_code f e d.value

  abbrev pub field_ttl_code : ℕ → Field → Bytes
  field_ttl_code m d = len_code f (saved_ttl m d.expire) ++ field_code d

  unfoldable pub value_code : Opcodes → Value → Bytes
  value_code c (string o) = object_code f e o
  value_code c (list_quicklist ns) = len_code f (length ns) ++ all_codes node_code ns
  value_code c (list_listpack lp) =
      len_code f 1 ++ (len_code f c.quicklist_node_container_packed ++ string_code f e lp)
  value_code c (set_intset l) = string_code f e l
  value_code c (set_listpack l) = string_code f e l
  value_code c (set_table es) = len_code f (length es) ++ all_codes (string_code f e) es
  value_code c (zset_listpack l) = string_code f e l
  value_code c (zset_skiplist zs) = len_code f (length zs) ++ all_codes scored_code (reverse zs)
  value_code c (hash_listpack l) = string_code f e l
  value_code c (hash_listpack_ex m l) =
      time_code (signed (2 ^ 64) (packed_min m)) ++ string_code f e l
  value_code c (hash_table none fs) = len_code f (length fs) ++ all_codes field_code fs
  value_code c (hash_table (some m) fs) =
      time_code (signed (2 ^ 64) m) ++ (len_code f (length fs) ++ all_codes (field_ttl_code m) fs)
  value_code c (stream s) = stream_code f e s

-- The bytes that `rdbSaveObject` writes and does not count: an expire time in front of a hash.
unfoldable pub uncounted : Value → ℕ
uncounted (hash_listpack_ex m l) = 8
uncounted (hash_table (some m) fs) = 8
uncounted _ = 0

module _ (f : Format) (h : IsFormat f) (c : Opcodes) (e : Host) (i : IsHost e) (w : Sink) where
  save_node-Counts : (n : Node) → Counts w (save_node f c e w n) (node_code f e n)
  unfolding save_node
  save_node-Counts n =
      ⊕-Counts w (save_len-Writes f h w n.container) (elim (Bool-cases n.compressed) [
        | inl z ↦ rw z (save_lzf_blob-Writes f h e i w n.entry n.sz)
        | inr z ↦ rw z (save_raw_string-Writes f h e i w n.entry)
      ])

  save_scored-Counts : (p : Bytes × ℕ) → Counts w (save_scored f c e w p) (scored_code f e p)
  unfolding save_scored save_binary_double
  save_scored-Counts (ele, score) =
      ⊕-Counts w (save_raw_string-Writes f h e i w ele) (write_raw-Writes w _)

  save_field-Counts : (d : Field) → Counts w (save_field f c e w d) (field_code f e d)
  unfolding save_field
  save_field-Counts d =
      ⊕-Counts w (save_raw_string-Writes f h e i w d.name)
        (save_raw_string-Writes f h e i w d.value)

  save_field_ttl-Counts :
      (m : ℕ) (d : Field) → Counts w (save_field_ttl f c e w m d) (field_ttl_code f e m d)
  unfolding save_field_ttl
  save_field_ttl-Counts m d = ⊕-Counts w (save_len-Writes f h w (saved_ttl m d.expire)) (
      ⊕-Counts w (save_raw_string-Writes f h e i w d.name)
        (save_raw_string-Writes f h e i w d.value))

  all_counted : {m : Step (Rdb w) ℕ} {p : Bytes} → Counts w m p → CountsBut w 0 m p
  all_counted {p} x = (length p, x, omega arith)

  behind_time :
      (t : ℤ) {m : Step (Rdb w) ℕ} {p : Bytes}
      → Counts w m p
      → CountsBut w 8 (save_millisecond_time w t >> m) (time_code t ++ p)
  behind_time t {p} x = (
    length p,
    bind-Writes w _ (save_time-Counts w t) x,
    omega (arith, length-append (time_code t) p, length-little_endian 8 (word64 t)),
  )

  -- `rdbSaveObject` sends the code of every value, failing only where the sink refuses a write;
  -- the count that it returns is the code's length, less the 8 bytes of the expire time in front
  -- of the two kinds of hash that have one.
  pub save_object-CountsBut :
      (v : Value) → CountsBut w (uncounted v) (save_object f c e w v) (value_code f e c v)
  unfolding save_object value_code uncounted
  save_object-CountsBut (string o) = all_counted (save_string_object-Writes f h e i w o)
  save_object-CountsBut (list_quicklist ns) = all_counted (
      ⊕-Counts w (save_len-Writes f h w (length ns))
        (save_each-Counts w _ (node_code f e) save_node-Counts ns))
  save_object-CountsBut (list_listpack lp) = all_counted (
      ⊕-Counts w (save_len-Writes f h w 1) (
        ⊕-Counts w (save_len-Writes f h w c.quicklist_node_container_packed)
          (save_raw_string-Writes f h e i w lp)))
  save_object-CountsBut (set_intset l) = all_counted (save_raw_string-Writes f h e i w l)
  save_object-CountsBut (set_listpack l) = all_counted (save_raw_string-Writes f h e i w l)
  save_object-CountsBut (set_table es) = all_counted (
      ⊕-Counts w (save_len-Writes f h w (length es))
        (save_each-Counts w _ (string_code f e) (save_raw_string-Writes f h e i w) es))
  save_object-CountsBut (zset_listpack l) = all_counted (save_raw_string-Writes f h e i w l)
  save_object-CountsBut (zset_skiplist zs) = all_counted (
      ⊕-Counts w (save_len-Writes f h w (length zs))
        (save_each-Counts w _ (scored_code f e) save_scored-Counts (reverse zs)))
  save_object-CountsBut (hash_listpack l) = all_counted (save_raw_string-Writes f h e i w l)
  save_object-CountsBut (hash_listpack_ex m l) =
      behind_time (signed (2 ^ 64) (packed_min m)) (save_raw_string-Writes f h e i w l)
  save_object-CountsBut (hash_table none fs) = all_counted (
      ⊕-Counts w (save_len-Writes f h w (length fs))
        (save_each-Counts w _ (field_code f e) save_field-Counts fs))
  save_object-CountsBut (hash_table (some m) fs) = behind_time (signed (2 ^ 64) m) (
      ⊕-Counts w (save_len-Writes f h w (length fs))
        (save_each-Counts w _ (field_ttl_code f e m) (save_field_ttl-Counts m) fs))
  save_object-CountsBut (stream s) = all_counted (save_stream-Counts f h e i w s)

  -- `rdbSavedObjectLen` never fails, and its result is the length of the value's code, less the 8
  -- bytes of the expire time in front of the two kinds of hash that have one.
  pub saved_object_len_short :
      (v : Value)
      → (n : ℕ) × (saved_object_len f c e w v ≡ some n)
        × (n + uncounted v ≡ length (value_code f e c v))
  unfolding saved_object_len
  saved_object_len_short v =
      let (n, writes, short) = save_object-CountsBut v in
      (n, rw (writes.on_null, saved_object_len), short)
