-- ===== src/Redis/Load/Sorted.antt =====
-- redis/rdb.c: `rdbLoadObject`, RDB_TYPE_ZSET_2. Scores are the bit patterns of doubles.
pub mod Elements
use double_swap.Base.{
  ℕ, suc, zero, ◌+◌, Bool, true, false, not, ◌&&◌, ◌||◌, Option, none, some, List, [], ◌∷◌, ◌++◌,
  map, Bytes, ltb, leb, ◌==◌, length, if◌then◌else◌, Step, pure, fail, ◌>>=◌,
}
use double_swap.Redis.Format.{Format}
use double_swap.Redis.Host.{Host}
use double_swap.Redis.Rio.{Source}
use double_swap.Redis.Length.{load_len}
use double_swap.Redis.Scalars.{load_binary_double}
use double_swap.Redis.Load.{
  load_sds, Structures, Outcome, empty_key, loaded, holds_key, longest, load_text,
}

-- The sorted set that is being loaded, with its elements in the order in which they came.
pub record LoadingZset : Type 0 where
  pub elements : List (Bytes × ℕ)
  pub maxelelen : ℕ
  pub totelelen : ℕ

abbrev pub empty_zset : LoadingZset
empty_zset = record { elements = []; maxelelen = 0; totelelen = 0 }

pub record SortedSet : Type 0 where
  pub elements : List (Bytes × ℕ)
  pub listpack : Bool  -- else a skiplist with its dictionary

abbrev pub name_of : Bytes × ℕ → Bytes
name_of (ele, score) = ele

-- One round behind the reads; `none` is a score that is no number, or an element that was there.
unfoldable pub add_scored : Structures → Bytes → ℕ → LoadingZset → Option LoadingZset
add_scored c ele score z =
    if c.is_nan score || holds_key (map name_of z.elements) ele
    then none
    else some (record {
      elements = z.elements ++ (ele, score) ∷ [];
      maxelelen = longest z.maxelelen ele;
      totelelen = z.totelelen + length ele;
    })

-- "Convert *after* loading, since sorted sets are not stored ordered."
unfoldable pub finish_zset : Structures → LoadingZset → SortedSet
finish_zset c z = record {
  elements = z.elements;
  listpack =
      leb (length z.elements) c.zset_max_listpack_entries
      && leb z.maxelelen c.zset_max_listpack_value
      && c.lp_safe_to_add [] z.totelelen;
}

module _ (f : Format) (e : Host) (c : Structures) (r : Source) where
  unfoldable pub load_elements : ℕ → LoadingZset → Step r.Stream LoadingZset
  load_elements zero z = pure z
  load_elements (suc rounds) z = do
    ele ← load_text f e r load_sds
    score ← load_binary_double r
    elim (add_scored c ele score z) [ none ↦ fail | some y ↦ load_elements rounds y ]

  unfoldable pub load_zset : Step r.Stream (Outcome SortedSet)
  unfolding load_elements finish_zset
  load_zset = do
    (_, len) ← load_len f r
    if len == 0
        then pure empty_key
        else if not (ltb c.dict_ht_initial_size len) || c.dict_expands len
        then (do z ← load_elements len empty_zset; pure (loaded (finish_zset c z)))
        else fail
