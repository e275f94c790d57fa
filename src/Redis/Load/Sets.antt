-- ===== src/Redis/Load/Sets.antt =====
-- redis/rdb.c: `rdbLoadObject`, RDB_TYPE_SET.
pub mod Members
use double_swap.Base.{
  ℕ, suc, zero, ◌+◌, ◌^◌, Bool, true, false, not, ◌&&◌, ◌||◌, Option, none, some, List, [], ◌∷◌,
  ◌++◌, Bytes, ltb, leb, ◌==◌, length, if◌then◌else◌, Step, pure, fail, ◌>>=◌,
}
use double_swap.Redis.Format.{Format}
use double_swap.Redis.Host.{Host}
use double_swap.Redis.Rio.{Source}
use double_swap.Redis.Length.{load_len}
use double_swap.Redis.Load.{
  load_sds, Structures, Outcome, empty_key, loaded, holds_key, longest, load_text,
}

pub data SetEncoding : Type 0 where
  intset : SetEncoding
  listpack : SetEncoding
  hash_table : SetEncoding

-- The set that is being loaded, with its members in the order in which they came, and the lengths
-- that the loop has seen.
pub record LoadingSet : Type 0 where
  pub encoding : SetEncoding
  pub members : List Bytes
  pub maxelelen : ℕ
  pub sumelelen : ℕ

module _ (c : Structures) (len : ℕ) where
  -- `setTypeConvertAndExpand(o, OBJ_ENCODING_HT, len, 0)`
  unfoldable pub to_table : LoadingSet → Option LoadingSet
  to_table s = if c.dict_expands len then some (record s { encoding = hash_table }) else none

  -- The element joins the set, which may not hold it.
  unfoldable pub join : Bytes → LoadingSet → Option LoadingSet
  join ele s =
      if holds_key s.members ele then none else some (record s { members = s.members ++ ele ∷ [] })

  unfoldable pub add_to_table : Bytes → LoadingSet → Option LoadingSet
  unfolding join
  add_to_table ele s = join ele s

  -- "This will also be called when the set was just converted to a listpack encoded set."
  unfoldable pub add_to_listpack : Bytes → LoadingSet → Option LoadingSet
  unfolding join to_table add_to_table
  add_to_listpack ele s =
      if ltb (length s.members) c.set_max_listpack_entries
        && leb (length ele) c.set_max_listpack_value
        && c.lp_safe_to_add s.members (length ele)
      then join ele s
      else elim (to_table s) [ none ↦ none | some t ↦ add_to_table ele t ]

  unfoldable pub add_to_intset : Bytes → LoadingSet → Option LoadingSet
  unfolding join to_table add_to_table add_to_listpack
  add_to_intset ele s =
      if c.is_long_long ele
      then join ele s
      else if ltb (length s.members) c.set_max_listpack_entries
          && leb s.maxelelen c.set_max_listpack_value
          && c.lp_safe_to_add [] s.sumelelen
      then add_to_listpack ele (record s { encoding = listpack })
      else elim (to_table s) [ none ↦ none | some t ↦ add_to_table ele t ]

  unfoldable pub add_by : SetEncoding → Bytes → LoadingSet → Option LoadingSet
  unfolding add_to_intset add_to_listpack add_to_table
  add_by intset = add_to_intset
  add_by listpack = add_to_listpack
  add_by hash_table = add_to_table

  -- One round of the loop, behind the read; `none` is a set that is corrupt or too large.
  unfoldable pub add_member : Bytes → LoadingSet → Option LoadingSet
  unfolding add_by
  add_member ele s =
      add_by s.encoding ele
        (record s { maxelelen = longest s.maxelelen ele; sumelelen = s.sumelelen + length ele })

abbrev pub empty_set : SetEncoding → LoadingSet
empty_set k = record { encoding = k; members = []; maxelelen = 0; sumelelen = 0 }

-- `max_entries`
unfoldable pub intset_limit : Structures → ℕ
intset_limit c = if leb (2 ^ 30) c.max_intset_entries then 2 ^ 30 else c.max_intset_entries

-- The set before the loop: a table at once if there are too many entries.
unfoldable pub new_set : Structures → ℕ → Option LoadingSet
new_set c len =
    if ltb (intset_limit c) len
    then if not (ltb c.dict_ht_initial_size len) || c.dict_expands len
      then some (empty_set hash_table)
      else none
    else some (empty_set intset)

module _ (f : Format) (e : Host) (c : Structures) (r : Source) where
  unfoldable pub load_members : ℕ → ℕ → LoadingSet → Step r.Stream LoadingSet
  load_members len zero s = pure s
  load_members len (suc rounds) s = do
    ele ← load_text f e r load_sds
    elim (add_member c len ele s) [ none ↦ fail | some t ↦ load_members len rounds t ]

  -- The counter of the loop is an unsigned int: with 2 ^ 32 members or more the loop ends only by
  -- a failure.
  unfoldable pub load_set : Step r.Stream (Outcome LoadingSet)
  unfolding new_set intset_limit load_members
  load_set = do
    (_, len) ← load_len f r
    if len == 0 then pure empty_key else if leb (2 ^ 32) len then fail else elim (new_set c len) [
      | none ↦ fail
      | some s ↦ do t ← load_members len len s; pure (loaded t)
    ]
