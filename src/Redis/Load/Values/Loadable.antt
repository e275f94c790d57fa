-- ===== src/Redis/Load/Values/Loadable.antt =====
-- Which values can be loaded again, and what an object holds of a value.
use mathlib.Core.List.{reverse}
use double_swap.Base.{ℕ, ◌^◌, ◌<◌, ◌≤◌, ◌≡◌, ◌≢◌, true, none, some, List, [], ◌∷◌, map, All, length}
use double_swap.Redis.Opcodes.{Opcodes}
use double_swap.Redis.Host.{Host}
use double_swap.Redis.Object.{
  Value, string, list_quicklist, list_listpack, set_intset, set_listpack, set_table, zset_listpack,
  zset_skiplist, hash_listpack, hash_listpack_ex, hash_table, stream,
}
use double_swap.Redis.Text.Load.{object_text_of}
use double_swap.Redis.Load.{Structures, lp_valid}
use double_swap.Redis.Load.Texts.{Fits, AreNew}
use double_swap.Redis.Load.Lists.{packed}
use double_swap.Redis.Load.Lists.Nodes.{Stored, IsStored, stored_node, list_node}
use double_swap.Redis.Load.Sorted.Elements.{AreScored}
use double_swap.Redis.Load.Hashes.{field_name}
use double_swap.Redis.Load.Hashes.Fields.{IsPlain, HasRoom}
use double_swap.Redis.Load.Hashes.Timed.{IsTimedField}
use double_swap.Redis.Load.Packed.Loading.{IsPacked}
use double_swap.Redis.Load.Values.{
  Object, string_object, nodes_object, set_object, zset_object, hash_object, packed_object,
}

-- Some entries, fewer than 2 ^ 63.
abbrev pub IsCount : ℕ → Type 0
IsCount n = (0 < n) × (n < 2 ^ 63)

-- The data structures hold what the server keeps in them, and there is memory for loading them.
unfoldable pub IsLoadable : Opcodes → Host → Structures → Value → Type 0
IsLoadable o e c (string s) = Fits e (object_text_of e s)
IsLoadable o e c (list_quicklist ns) =
    (xs : List Stored) × (map stored_node xs ≡ ns) × IsCount (length xs) × All (IsStored o e c) xs
IsLoadable o e c (list_listpack l) =
    Fits e l
    × (0 < length l)
    × (lp_valid c l ≡ true)
    × (c.lp_length l ≢ 0)
    × (o.quicklist_node_container_packed < 2 ^ 63)
    × (o.quicklist_node_container_packed ≢ c.quicklist_node_container_plain)
IsLoadable o e c (set_intset l) = Fits e l × (c.intset_valid c.deep l ≡ true)
IsLoadable o e c (set_listpack l) = Fits e l × IsPacked c 1 l
IsLoadable o e c (set_table es) =
    (0 < length es)
    × (length es < 2 ^ 32)
    × (c.dict_expands (length es) ≡ true)
    × All (Fits e) es
    × AreNew [] es
IsLoadable o e c (zset_listpack l) = Fits e l × IsPacked c 2 l
IsLoadable o e c (zset_skiplist zs) =
    IsCount (length zs) × (c.dict_expands (length zs) ≡ true) × AreScored e c [] (reverse zs)
IsLoadable o e c (hash_listpack l) = Fits e l × IsPacked c 2 l
IsLoadable o e c (hash_listpack_ex m l) = Fits e l × IsPacked c 3 l
IsLoadable o e c (hash_table none fs) =
    IsCount (length fs) × All (IsPlain e) fs × AreNew [] (map field_name fs) × HasRoom c fs
IsLoadable o e c (hash_table (some m) fs) =
    IsCount (length fs)
    × All (IsTimedField e c m) fs
    × AreNew [] (map field_name fs)
    × HasRoom c fs
    × (m < 2 ^ 64)
    × (m ≤ c.eb_expire_time_invalid)
IsLoadable o e c (stream s) = ⊥

-- The object that was loaded holds the value that was saved.
unfoldable pub Holds : Opcodes → Host → Structures → Value → Object → Type 0
Holds o e c (string s) x = x ≡ string_object (object_text_of e s)
Holds o e c (list_quicklist ns) x =
    (xs : List Stored) × (map stored_node xs ≡ ns)
    × All (IsStored o e c) xs
    × (x ≡ nodes_object (map (list_node c) xs))
Holds o e c (list_listpack l) (nodes_object ns) = ns ≡ packed l ∷ []
Holds o e c (set_table es) (set_object t) = t.members ≡ es
Holds o e c (zset_skiplist zs) (zset_object z) = z.elements ≡ reverse zs
Holds o e c (hash_table m fs) (hash_object h) = h.fields ≡ fs
Holds o e c (set_intset l) (packed_object p) = p.encoded ≡ l
Holds o e c (set_listpack l) (packed_object p) = p.encoded ≡ l
Holds o e c (zset_listpack l) (packed_object p) = p.encoded ≡ l
Holds o e c (hash_listpack l) (packed_object p) = p.encoded ≡ l
Holds o e c (hash_listpack_ex m l) (packed_object p) = p.encoded ≡ l
Holds o e c _ _ = ⊥
