-- ===== src/Redis/Load/Hashes.antt =====
-- redis/rdb.c: `rdbLoadObject`, RDB_TYPE_HASH and RDB_TYPE_HASH_METADATA (with PRE_GA). A field
-- joins the expiration buckets of its table without an error.
pub mod Fields
pub mod Timed
use double_swap.Base.{
  ℕ, zero, suc, ◌+◌, ◌-◌, ◌%◌, ◌^◌, Bool, true, false, not, ◌&&◌, ◌||◌, Option, none, some, List,
  [], ◌∷◌, ◌++◌, map, Bytes, ltb, ◌==◌, length, if◌then◌else◌, Step, pure, fail, ◌>>=◌,
}
use double_swap.Redis.Format.{Format}
use double_swap.Redis.Host.{Host}
use double_swap.Redis.Rio.{Source}
use double_swap.Redis.Length.{load_len, load_len_by_ref}
use double_swap.Redis.Scalars.{word64, load_millisecond_time}
use double_swap.Redis.Object.{Field}
use double_swap.Redis.Load.{
  load_sds, load_hfld, load_hfld_ttl, Structures, Outcome, empty_key, loaded, holds_key, load_text,
}

-- The hash that is being loaded, with its fields in the order in which they came.
pub record LoadingHash : Type 0 where
  pub table : Bool  -- else a listpack
  pub fields : List Field

abbrev pub field_name : Field → Bytes
field_name d = d.name

abbrev pub field_of : Bytes → Bytes → Field
field_of name value = record { expire = none; name = name; value = value }

-- A field whose time is 0 has none.
abbrev pub field_at : ℕ → Bytes → Bytes → Field
field_at expire_at name value = record {
  expire = if expire_at == 0 then none else some expire_at;
  name = name;
  value = value;
}

-- The `dictAdd` that finds no such field.
unfoldable pub put_field : Field → List Field → Option LoadingHash
put_field d fs =
    if holds_key (map field_name fs) d.name
    then none
    else some (record { table = true; fields = fs ++ d ∷ [] })

module _ (c : Structures) where
  -- "Convert to hash table if size threshold is exceeded", for a field that takes `size` bytes.
  unfoldable pub is_large : Bool → ℕ → Field → List Field → Bool
  is_large ex size d fs =
      ltb c.hash_max_listpack_value (length d.name)
      || ltb c.hash_max_listpack_value (length d.value)
      || not (c.hash_safe_to_add ex fs size)

  -- A field joins the listpack of a plain hash, with a search for duplicates or without; if it is
  -- large, the listpack becomes a table first.
  unfoldable pub pack_field : Bool → Field → List Field → Option LoadingHash
  unfolding put_field is_large
  pack_field dup d fs =
      if dup && holds_key (map field_name fs) d.name
      then none
      else if is_large false (length d.name + length d.value) d fs
      then (if c.hash_converts fs then put_field d fs else none)
      else some (record { table = false; fields = fs ++ d ∷ [] })

  -- `dictTryExpand` for the entries to come, beyond the size of a new table.
  unfoldable pub expands : ℕ → Bool
  expands len = not (ltb c.dict_ht_initial_size len) || c.dict_expands len

  -- A field joins a listpack with expire times, or the table that it becomes, with `len` to come.
  unfoldable pub pack_field_ex : Bool → ℕ → ℕ → Field → List Field → Option LoadingHash
  unfolding put_field is_large expands
  pack_field_ex dup len expire_at d fs =
      if dup && holds_key (map field_name fs) d.name
      then none
      else if is_large true (length d.name + length d.value + c.lp_entry_size_integer expire_at) d
          fs
      then (if c.hash_converts fs && expands len then put_field d fs else none)
      else some (record { table = false; fields = fs ++ d ∷ [] })

  -- A round behind its TTL, with `len` rounds to come.
  unfoldable pub add_field_ex : Bool → ℕ → ℕ → Field → LoadingHash → Option LoadingHash
  unfolding put_field pack_field_ex
  add_field_ex dup len expire_at d h =
      if h.table then put_field d h.fields else pack_field_ex dup len expire_at d h.fields

-- `expireAt`, in uint64_t: relative to the earliest time, or absolute as files from before the
-- release have it (PRE_GA).
unfoldable pub expire_at_of : Bool → ℕ → ℕ → ℕ
expire_at_of pre_ga min_expire ttl =
    if pre_ga then ttl else if ttl == 0 then 0 else (ttl + min_expire + 2 ^ 64 - 1) % 2 ^ 64

module _ (f : Format) (e : Host) (c : Structures) (r : Source) where
  unfoldable pub load_field : Step r.Stream Field
  unfolding load_text
  load_field = do
    name ← load_text f e r load_hfld
    value ← load_text f e r load_sds
    pure (field_of name value)

  -- "Load every field and value into the listpack": what is left to load then, and the hash.
  unfoldable pub load_packed_fields : Bool → ℕ → List Field → Step r.Stream (ℕ × LoadingHash)
  unfolding pack_field load_field
  load_packed_fields dup zero fs = pure (0, record { table = false; fields = fs })
  load_packed_fields dup (suc len) fs = do
    d ← load_field
    elim (pack_field c dup d fs) [
      | none ↦ fail
      | some h ↦ if h.table then pure (len, h) else load_packed_fields dup len h.fields
    ]

  -- "Load remaining fields and values into the hash table"
  unfoldable pub load_table_fields : ℕ → List Field → Step r.Stream LoadingHash
  unfolding put_field load_field
  load_table_fields zero fs = pure (record { table = true; fields = fs })
  load_table_fields (suc len) fs = do
    d ← load_field
    elim (put_field d fs) [ none ↦ fail | some h ↦ load_table_fields len h.fields ]

  -- Behind the first loop.
  unfoldable pub finish_hash : ℕ × LoadingHash → Step r.Stream LoadingHash
  unfolding load_table_fields expands
  finish_hash (len, h) =
      if h.table then (if expands c len then load_table_fields len h.fields else fail) else pure h

  -- RDB_TYPE_HASH
  unfoldable pub load_hash : Step r.Stream (Outcome LoadingHash)
  unfolding load_packed_fields finish_hash
  load_hash = do
    (_, len) ← load_len f r
    if len == 0 then pure empty_key else (do
      x ←
          if ltb c.hash_max_listpack_entries len
          then pure (len, record { table = true; fields = [] })
          else load_packed_fields c.deep len []
      h ← finish_hash x
      pure (loaded h))

  unfoldable pub load_field_at : ℕ → Step r.Stream Field
  unfolding load_text
  load_field_at expire_at = if ltb c.eb_expire_time_max expire_at then fail else (do
    name ← load_text f e r (if expire_at == 0 then load_hfld else load_hfld_ttl)
    value ← load_text f e r load_sds
    pure (field_at expire_at name value))

  unfoldable pub load_fields_ex : Bool → Bool → ℕ → ℕ → LoadingHash → Step r.Stream LoadingHash
  unfolding expire_at_of load_field_at add_field_ex
  load_fields_ex pre_ga dup min_expire zero h = pure h
  load_fields_ex pre_ga dup min_expire (suc len) h = do
    (_, ttl) ← load_len_by_ref f r
    let expire_at = expire_at_of pre_ga min_expire ttl
    d ← load_field_at expire_at
    elim (add_field_ex c dup len expire_at d h) [
      | none ↦ fail
      | some h' ↦ load_fields_ex pre_ga dup min_expire len h'
    ]

  -- `minExpire`; a report of an invalid one goes on, if it comes back.
  unfoldable pub load_min_expire : Bool → Step r.Stream ℕ
  load_min_expire pre_ga = if pre_ga then pure c.eb_expire_time_invalid else (do
    t ← load_millisecond_time r c.big_endian_host c.rdb_version
    if ltb c.eb_expire_time_invalid (word64 t) && not c.report_returns
        then fail
        else pure (word64 t))

  -- RDB_TYPE_HASH_METADATA and RDB_TYPE_HASH_METADATA_PRE_GA
  unfoldable pub load_hash_metadata : Bool → Step r.Stream (Outcome LoadingHash)
  unfolding load_min_expire load_fields_ex
  load_hash_metadata pre_ga = do
    min_expire ← load_min_expire pre_ga
    (_, len) ← load_len f r
    if len == 0 then pure empty_key else (do
      let table = ltb c.hash_max_listpack_entries len
      h ←
          load_fields_ex pre_ga (c.deep && not table) min_expire len
            (record { table = table; fields = [] })
      pure (loaded h))
