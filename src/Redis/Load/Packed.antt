-- ===== src/Redis/Load/Packed.antt =====
-- redis/rdb.c: `_lpEntryValidation`, `lpValidateIntegrityAndDups`, and the branch of
-- `rdbLoadObject` for values stored as one string: RDB_TYPE_SET_INTSET, SET_LISTPACK,
-- ZSET_LISTPACK, HASH_LISTPACK and HASH_LISTPACK_EX (with PRE_GA).
pub mod Rows
pub mod Walk
pub mod Entries
pub mod Loading
use double_swap.Base.{
  ℕ, ◌+◌, ◌%◌, Bool, true, false, not, ◌&&◌, ◌||◌, Option, none, some, List, [], ◌∷◌, Bytes, ltb,
  leb, ◌==◌, if◌then◌else◌, Step, pure, fail, ◌>>=◌,
}
use double_swap.Base.Int.{ℤ, pos, negsuc, pos_part, leb_ℤ}
use double_swap.Redis.Format.{Format}
use double_swap.Redis.Host.{Host}
use double_swap.Redis.Rio.{Source}
use double_swap.Redis.Scalars.{load_millisecond_time}
use double_swap.Redis.Load.{
  load_plain, Entry, Structures, Outcome, empty_key, loaded, holds_key, load_text,
}

-- What the callback keeps between the entries.
pub record Tally : Type 0 where
  pub count : ℕ
  pub fields : List Bytes
  pub last_expireat : ℤ

abbrev pub is_zero : ℤ → Bool
is_zero (pos n) = n == 0
is_zero (negsuc n) = false

module _ (c : Structures) (tuple_len : ℕ) where
  -- "Add to dict and check that's not a dup"
  unfoldable pub validate_key : Entry → Tally → Option Tally
  validate_key p d =
      if d.count % tuple_len == 0
      then (if holds_key d.fields p.text
          then none
          else some (record d { fields = p.text ∷ d.fields }))
      else some d

  -- The three tests of an expire time.
  unfoldable pub ttl_valid : ℤ → ℤ → Bool
  ttl_valid last_expireat expire_at =
      leb_ℤ (pos 0) expire_at
      && leb (pos_part expire_at) c.eb_expire_time_max
      && not (
          not (is_zero expire_at) && (is_zero last_expireat || not (leb_ℤ last_expireat expire_at)))

  -- "Validate TTL field, only for listpackex."
  unfoldable pub validate_ttl : Entry → Tally → Option Tally
  unfolding ttl_valid
  validate_ttl p d =
      if d.count % tuple_len == 2
      then elim p.integer [
        | none ↦ none
        | some t ↦
            if ttl_valid d.last_expireat t then some (record d { last_expireat = t }) else none
      ]
      else some d

  -- `_lpEntryValidation`
  unfoldable pub entry_validation : Entry → Tally → Option Tally
  unfolding validate_key validate_ttl
  entry_validation p d = elim (validate_key p d) [
    | none ↦ none
    | some d₁ ↦ elim (validate_ttl p d₁) [
      | none ↦ none
      | some d₂ ↦ some (record d₂ { count = d₂.count + 1 })
    ]
  ]

  -- The callback on the entries, up to the first that it refuses.
  unfoldable pub walk : List Entry → Tally → Option Tally
  unfolding entry_validation
  walk [] d = some d
  walk (p ∷ ps) d = elim (entry_validation p d) [ none ↦ none | some d' ↦ walk ps d' ]

  -- `lpValidateIntegrityAndDups`
  unfoldable pub lp_validate : Bytes → Bool
  unfolding walk
  lp_validate lp =
      if c.deep
      then elim (c.lp_entries lp) [
        | none ↦ false
        | some es ↦ elim (walk es (record { count = 0; fields = []; last_expireat = negsuc 0 })) [
          | none ↦ false
          | some d ↦ d.count % tuple_len == 0
        ]
      ]
      else c.lp_header lp

-- A value stored as one string, and whether it was converted into a table or a skiplist.
pub record Packed : Type 0 where
  pub encoded : Bytes
  pub converted : Bool

module _ (c : Structures) where
  -- RDB_TYPE_SET_INTSET, behind the read of the string.
  unfoldable pub take_intset : Bytes → Option (Outcome Packed)
  take_intset l =
      if c.intset_valid c.deep l
      then some
          (loaded (record { encoded = l; converted = ltb c.max_intset_entries (c.intset_len l) }))
      else none

  -- The listpacks of tuples, of more entries than `limit` converted.
  unfoldable pub take_listpack : ℕ → ℕ → Bytes → Option (Outcome Packed)
  unfolding lp_validate
  take_listpack tuple_len limit l =
      if lp_validate c tuple_len l
      then some (
          if c.lp_tuples tuple_len l == 0
          then empty_key
          else loaded (record { encoded = l; converted = ltb limit (c.lp_tuples tuple_len l) }))
      else none

module _ (f : Format) (e : Host) (c : Structures) (r : Source) where
  -- The string, which must be one that `take_value` accepts.
  unfoldable pub load_encoded : (Bytes → Option (Outcome Packed)) → Step r.Stream (Outcome Packed)
  unfolding load_text
  load_encoded take_value = do
    encoded ← load_text f e r load_plain
    elim (take_value encoded) [ none ↦ fail | some x ↦ pure x ]

  unfoldable pub load_intset : Step r.Stream (Outcome Packed)
  unfolding load_encoded take_intset
  load_intset = load_encoded (take_intset c)

  unfoldable pub load_set_listpack : Step r.Stream (Outcome Packed)
  unfolding load_encoded take_listpack
  load_set_listpack = load_encoded (take_listpack c 1 c.set_max_listpack_entries)

  unfoldable pub load_zset_listpack : Step r.Stream (Outcome Packed)
  unfolding load_encoded take_listpack
  load_zset_listpack = load_encoded (take_listpack c 2 c.zset_max_listpack_entries)

  unfoldable pub load_hash_listpack : Step r.Stream (Outcome Packed)
  unfolding load_encoded take_listpack
  load_hash_listpack = load_encoded (take_listpack c 2 c.hash_max_listpack_entries)

  -- With a time in front or, as files from before the release have it (PRE_GA), without.
  unfoldable pub load_hash_listpack_ex : Bool → Step r.Stream (Outcome Packed)
  unfolding load_encoded take_listpack
  load_hash_listpack_ex pre_ga =
      if pre_ga then load_encoded (take_listpack c 3 c.hash_max_listpack_entries) else (do
        min_expire ← load_millisecond_time r c.big_endian_host c.rdb_version
        load_encoded (take_listpack c 3 c.hash_max_listpack_entries))
