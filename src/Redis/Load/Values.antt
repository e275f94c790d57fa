-- ===== src/Redis/Load/Values.antt =====
-- redis/rdb.c: `rdbLoadObject`, the choice of a branch by the type byte. The types that the server
-- does not write any more (ziplists, zipmaps and scores in text form), streams and modules are left
-- out.
pub mod Loadable
pub mod RoundTrip
pub mod Distinct
pub mod Names
pub mod Unique
pub mod Distinctness
use double_swap.Base.{
  ℕ, Bool, true, false, Option, none, some, List, [], ◌∷◌, Bytes, ◌==◌, if◌then◌else◌, Step, pure,
  ◌>>=◌,
}
use double_swap.Redis.Format.{Format}
use double_swap.Redis.Opcodes.{Opcodes}
use double_swap.Redis.Host.{Host}
use double_swap.Redis.Rio.{Source}
use double_swap.Redis.Load.{load_enc, Structures, Outcome, empty_key, loaded, load_text}
use double_swap.Redis.Load.Lists.{ListNode, load_list, load_quicklist}
use double_swap.Redis.Load.Sets.{LoadingSet, load_set}
use double_swap.Redis.Load.Sorted.{SortedSet, load_zset}
use double_swap.Redis.Load.Hashes.{LoadingHash, load_hash, load_hash_metadata}
use double_swap.Redis.Load.Packed.{
  Packed, load_intset, load_set_listpack, load_zset_listpack, load_hash_listpack,
  load_hash_listpack_ex,
}

-- The branches, by the names of their types.
pub data Kind : Type 0 where
  of_string of_list of_set of_zset of_hash of_quicklist : Kind
  of_intset of_set_listpack of_zset_listpack of_hash_listpack : Kind
  of_hash_metadata of_hash_listpack_ex : Bool → Kind  -- PRE_GA or not

unfoldable pub type_byte : Opcodes → Kind → ℕ
type_byte o of_string = o.rdb_type_string
type_byte o of_list = o.rdb_type_list
type_byte o of_set = o.rdb_type_set
type_byte o of_zset = o.rdb_type_zset_2
type_byte o of_hash = o.rdb_type_hash
type_byte o of_quicklist = o.rdb_type_list_quicklist_2
type_byte o of_intset = o.rdb_type_set_intset
type_byte o of_set_listpack = o.rdb_type_set_listpack
type_byte o of_zset_listpack = o.rdb_type_zset_listpack
type_byte o of_hash_listpack = o.rdb_type_hash_listpack
type_byte o (of_hash_metadata true) = o.rdb_type_hash_metadata_pre_ga
type_byte o (of_hash_metadata false) = o.rdb_type_hash_metadata
type_byte o (of_hash_listpack_ex true) = o.rdb_type_hash_listpack_ex_pre_ga
type_byte o (of_hash_listpack_ex false) = o.rdb_type_hash_listpack_ex

abbrev pub all_kinds : List Kind
all_kinds =
    of_string
    ∷ of_list
    ∷ of_set
    ∷ of_zset
    ∷ of_hash
    ∷ of_hash_metadata true
    ∷ of_hash_metadata false
    ∷ of_quicklist
    ∷ of_intset
    ∷ of_set_listpack
    ∷ of_zset_listpack
    ∷ of_hash_listpack
    ∷ of_hash_listpack_ex true
    ∷ of_hash_listpack_ex false
    ∷ []

unfoldable pub kind_among : Opcodes → ℕ → List Kind → Option Kind
unfolding type_byte
kind_among o rdbtype [] = none
kind_among o rdbtype (k ∷ ks) = if rdbtype == type_byte o k then some k else kind_among o rdbtype ks

-- The branch whose test on `rdbtype` holds.
unfoldable pub kind_of : Opcodes → ℕ → Option Kind
unfolding kind_among
kind_of o rdbtype = kind_among o rdbtype all_kinds

-- What a branch makes, with a string by its text.
pub data Object : Type 0 where
  string_object : Bytes → Object
  list_object : List Bytes → Object
  nodes_object : List ListNode → Object
  set_object : LoadingSet → Object
  zset_object : SortedSet → Object
  hash_object : LoadingHash → Object
  packed_object : Packed → Object

abbrev pub as_object : {A : Type 0} → (A → Object) → Outcome A → Outcome Object
as_object g empty_key = empty_key
as_object g (loaded a) = loaded (g a)

module _ (f : Format) (o : Opcodes) (e : Host) (c : Structures) (r : Source) where
  abbrev pub object_by :
      {A : Type 0} → (A → Object) → Step r.Stream (Outcome A) → Step r.Stream (Outcome Object)
  object_by g m = m >>= λ x. pure (as_object g x)

  -- `rdbLoadObject`, by its branch.
  unfoldable pub load_object : Kind → Step r.Stream (Outcome Object)
  load_object of_string = do s ← load_text f e r load_enc; pure (loaded (string_object s))
  load_object of_list = object_by list_object (load_list f o e c r)
  load_object of_set = object_by set_object (load_set f e c r)
  load_object of_zset = object_by zset_object (load_zset f e c r)
  load_object of_hash = object_by hash_object (load_hash f e c r)
  load_object (of_hash_metadata p) = object_by hash_object (load_hash_metadata f e c r p)
  load_object of_quicklist = object_by nodes_object (load_quicklist f o e c r)
  load_object of_intset = object_by packed_object (load_intset f e c r)
  load_object of_set_listpack = object_by packed_object (load_set_listpack f e c r)
  load_object of_zset_listpack = object_by packed_object (load_zset_listpack f e c r)
  load_object of_hash_listpack = object_by packed_object (load_hash_listpack f e c r)
  load_object (of_hash_listpack_ex p) = object_by packed_object (load_hash_listpack_ex f e c r p)

  -- `rdbLoadObject`, by the type byte; `others` stands for the types that are left out.
  unfoldable pub load_typed :
      (ℕ → Step r.Stream (Outcome Object)) → ℕ → Step r.Stream (Outcome Object)
  unfolding load_object kind_of
  load_typed others rdbtype = elim (kind_of o rdbtype) [
    | none ↦ others rdbtype
    | some k ↦ load_object k
  ]
