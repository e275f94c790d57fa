-- ===== src/Redis/Load.antt =====
-- redis/rdb.c: the loaders of values, the branches of `rdbLoadObject`, and `lpValidateIntegrityAndDups`.
-- A failure of a `Step` is a NULL; a report of a corrupt file, which may also end the process, is one.
pub mod Texts
pub mod Packed
pub mod Sets
pub mod Sorted
pub mod Hashes
pub mod Lists
pub mod Values
pub mod File
mod Runs
use double_swap.Base.{
  ℕ, suc, zero, ◌+◌, Bool, true, false, ◌&&◌, Option, none, some, List, [], ◌∷◌, ◌++◌, map, Bytes,
  ◌==◌, length, ltb, if◌then◌else◌, Step, pure, fail, ◌>>=◌,
}
use double_swap.Base.Int.{ℤ}
use double_swap.Redis.Format.{Format}
use double_swap.Redis.Host.{Host}
use double_swap.Redis.Rio.{Source}
use double_swap.Redis.Object.{Field}
use double_swap.Redis.Integer.{LoadFlags, Loaded}
use double_swap.Redis.Text.{load_string}
use double_swap.Redis.Text.Load.{text_of}

-- The flags RDB_LOAD_ENC, PLAIN, SDS, HFLD and HFLD_TTL, each alone.
abbrev pub no_flags : LoadFlags
no_flags = record { enc = false; plain = false; sds = false; hfld = false; hfld_ttl = false }

abbrev pub load_enc : LoadFlags
load_enc = record no_flags { enc = true }

abbrev pub load_plain : LoadFlags
load_plain = record no_flags { plain = true }

abbrev pub load_sds : LoadFlags
load_sds = record no_flags { sds = true }

abbrev pub load_hfld : LoadFlags
load_hfld = record no_flags { hfld = true }

abbrev pub load_hfld_ttl : LoadFlags
load_hfld_ttl = record no_flags { hfld_ttl = true }

-- An entry of a listpack: its text, and its number, if it has one.
pub record Entry : Type 0 where
  pub text : Bytes
  pub integer : Option ℤ

-- What the loaders take from listpack.c, intset.c, dict.c, the object layer and the server's
-- configuration.
pub record Structures : Type 0 where
  pub big_endian_host : Bool
  pub rdb_version : ℕ
  pub deep : Bool  -- `deep_integrity_validation`
  pub lp_entries : Bytes → Option (List Entry)  -- what a deep check of a listpack walks over
  pub lp_header : Bytes → Bool  -- the check of its header alone
  pub lp_length : Bytes → ℕ
  pub lp_tuples : ℕ → Bytes → ℕ  -- `setTypeSize`, `zsetLength`, `hashTypeLength`, by entries a tuple
  pub lp_safe_to_add : List Bytes → ℕ → Bool  -- by the entries that a listpack has
  pub lp_entry_size_integer : ℕ → ℕ
  pub hash_safe_to_add : Bool → List Field → ℕ → Bool  -- with expire times in the listpack or without
  pub hash_converts : List Field → Bool  -- `hashTypeConvert` into a table comes back
  pub report_returns : Bool  -- so does `rdbReportCorruptRDB`
  pub intset_valid : Bool → Bytes → Bool
  pub intset_len : Bytes → ℕ
  pub is_long_long : Bytes → Bool  -- `isSdsRepresentableAsLongLong`
  pub is_nan : ℕ → Bool
  pub dict_expands : ℕ → Bool  -- `dictTryExpand`, and the expansion of `setTypeConvertAndExpand`
  pub dict_ht_initial_size : ℕ
  pub quicklist_node_container_plain : ℕ
  pub eb_expire_time_max : ℕ
  pub eb_expire_time_invalid : ℕ
  pub max_intset_entries : ℕ
  pub set_max_listpack_entries : ℕ
  pub set_max_listpack_value : ℕ
  pub zset_max_listpack_entries : ℕ
  pub zset_max_listpack_value : ℕ
  pub hash_max_listpack_entries : ℕ
  pub hash_max_listpack_value : ℕ

-- The result of a loader that does not fail: a value, or RDB_LOAD_ERR_EMPTY_KEY.
pub data Outcome (A : Type 0) : Type 0 where
  empty_key : Outcome A
  loaded : A → Outcome A

-- `lpValidateIntegrity` without a callback.
unfoldable pub lp_valid : Structures → Bytes → Bool
lp_valid c lp =
    if c.deep then elim (c.lp_entries lp) [ none ↦ false | some es ↦ true ] else c.lp_header lp

unfoldable pub bytes_eq : Bytes → Bytes → Bool
bytes_eq [] [] = true
bytes_eq [] (c ∷ q) = false
bytes_eq (b ∷ p) [] = false
bytes_eq (b ∷ p) (c ∷ q) = b == c && bytes_eq p q

-- `dictAdd` on a dictionary with these keys finds the key.
unfoldable pub holds_key : List Bytes → Bytes → Bool
unfolding bytes_eq
holds_key [] k = false
holds_key (j ∷ ks) k = if bytes_eq j k then true else holds_key ks k

-- The larger of a maximum so far and one length more.
abbrev pub longest : ℕ → Bytes → ℕ
longest m p = if ltb m (length p) then length p else m

module _ {S A : Type 0} where
  -- `while (len--)` around a loader.
  unfoldable pub load_times : ℕ → Step S A → Step S (List A)
  load_times zero m = pure []
  load_times (suc k) m = do x ← m; xs ← load_times k m; pure (x ∷ xs)

module _ (f : Format) (e : Host) (r : Source) where
  -- `rdbGenericLoadStringObject`, by the bytes of its result.
  unfoldable pub load_text : LoadFlags → Step r.Stream Bytes
  load_text fl = do (x, _) ← load_string f e r fl; pure (text_of e x)
