-- ===== src/Redis/Load/File/Saved.antt =====
-- What a database that was saved looks like behind the load, and what a part of the load leaves
-- alone.
use double_swap.Base.{
  ℕ, ◌+◌, ◌≡◌, ◌≢◌, refl, ◌∙◌, ap, Bool, true, false, some, List, [], ◌∷◌, ◌++◌, map, Bytes,
  ==_self, ==_ne, if◌then◌else◌,
}
use double_swap.Redis.Object.{Value}
use double_swap.Redis.Entries.{Policy}
use double_swap.Redis.Dump.{KeyEntry}
use double_swap.Redis.Load.{loaded, holds_key}
use double_swap.Redis.Load.File.{
  no_attributes, LoadedKey, db_expand, Loading, Config, is_expired, key_of, put_keys, expand_db,
  add_key, take_key,
}
use double_swap.Redis.Load.File.Groups.{saved_attributes}

abbrev pub keystr_of : KeyEntry → Bytes
keystr_of k = k.keystr

module _ {V : Type 0} (Holds : Value → V → Type 0) (p : Policy) where
  -- A key comes back with its name, the attributes that the policy saves, and its value.
  pub record IsSaved (k : KeyEntry) (x : LoadedKey V) : Type 0 where
    pub key : x.key ≡ k.keystr
    pub attributes : x.attributes ≡ saved_attributes p k
    pub value : Holds k.value x.value

  -- The keys of a database, in the order in which they were written.
  unfoldable pub AreSaved : List KeyEntry → List (LoadedKey V) → Type 0
  AreSaved [] [] = Unit {0}
  AreSaved [] (x ∷ xs) = ⊥
  AreSaved (k ∷ ks) [] = ⊥
  AreSaved (k ∷ ks) (x ∷ xs) = IsSaved k x × AreSaved ks xs

  pub snoc-AreSaved :
      (ks : List KeyEntry) (xs : List (LoadedKey V)) (k : KeyEntry) (x : LoadedKey V)
      → AreSaved ks xs
      → IsSaved k x
      → AreSaved (ks ++ k ∷ []) (xs ++ x ∷ [])
  unfolding AreSaved
  snoc-AreSaved [] [] k x h one = (one, tt)
  snoc-AreSaved [] (y ∷ ys) k x h one = absurd h
  snoc-AreSaved (j ∷ ks) [] k x h one = absurd h
  snoc-AreSaved (j ∷ ks) (y ∷ ys) k x (first, rest) one = (first, snoc-AreSaved ks ys k x rest one)

  pub AreSaved-names :
      (ks : List KeyEntry) (xs : List (LoadedKey V))
      → AreSaved ks xs
      → map key_of xs ≡ map keystr_of ks
  unfolding AreSaved
  AreSaved-names [] [] h = refl
  AreSaved-names [] (y ∷ ys) h = absurd h
  AreSaved-names (j ∷ ks) [] h = absurd h
  AreSaved-names (j ∷ ks) (y ∷ ys) (first, rest) = rw (first.key, AreSaved-names ks ys rest) refl

module _ {V : Type 0} where
  -- A part of the load that concerns the database `j` only.
  pub record Follows (j : ℕ) (s t : Loading V) : Type 0 where
    pub selected : t.dbid ≡ j
    pub clear : t.attributes ≡ no_attributes
    pub libraries : t.libraries ≡ s.libraries
    pub frame : (i : ℕ) → i ≢ j → t.keyspace i ≡ s.keyspace i

  pub Follows-again : (j : ℕ) (s t u : Loading V) → Follows j s t → Follows j t u → Follows j s u
  Follows-again j s t u x y = record {
    selected = y.selected;
    clear = y.clear;
    libraries = y.libraries ∙ x.libraries;
    frame = λ i other. y.frame i other ∙ x.frame i other;
  }

  pub put_keys-same :
      (j : ℕ) (ks : List (LoadedKey V)) (old : ℕ → List (LoadedKey V)) → put_keys j ks old j ≡ ks
  unfolding put_keys
  put_keys-same j ks old = rw (put_keys, ==_self j) refl

  pub put_keys-other :
      (j : ℕ) (ks : List (LoadedKey V)) (old : ℕ → List (LoadedKey V)) (i : ℕ)
      → i ≢ j
      → put_keys j ks old i ≡ old i
  unfolding put_keys
  put_keys-other j ks old i other = rw (put_keys, ==_ne other) refl

  -- A hint is all that `expand_db` adds.
  pub record Hinted (s t : Loading V) : Type 0 where
    pub dbid : t.dbid ≡ s.dbid
    pub keyspace : t.keyspace ≡ s.keyspace
    pub attributes : t.attributes ≡ s.attributes
    pub libraries : t.libraries ≡ s.libraries

  pub same-Hinted : (s : Loading V) → Hinted s s
  same-Hinted s = record { dbid = refl; keyspace = refl; attributes = refl; libraries = refl }

  pub Hinted-Follows :
      (j : ℕ) (s t : Loading V)
      → s.dbid ≡ j
      → s.attributes ≡ no_attributes
      → Hinted s t
      → Follows j s t
  Hinted-Follows j s t selected clear h = record {
    selected = h.dbid ∙ selected;
    clear = h.attributes ∙ clear;
    libraries = h.libraries;
    frame = λ i other. ap (λ ks. ks i) h.keyspace;
  }

  pub expand_db-Hinted : (g : Config) (s : Loading V) → Hinted s (expand_db g s)
  unfolding expand_db
  expand_db-Hinted g s = by_flag s.should_expand_db
    where
      by_flag :
          (b : Bool)
          → Hinted s (
              if b
              then record s {
                hints = s.hints ++ db_expand s.dbid s.db_size s.expires_size ∷ [];
                should_expand_db = false;
              }
              else s)
      by_flag true = record { dbid = refl; keyspace = refl; attributes = refl; libraries = refl }
      by_flag false = same-Hinted s

  -- A key that is new and has not expired joins the selected database.
  abbrev pub joined : Bytes → V → Loading V → Loading V
  joined key x s = record s {
    keyspace =
        put_keys s.dbid
          (s.keyspace s.dbid ++ record { key = key; value = x; attributes = s.attributes } ∷ [])
          s.keyspace;
    keys_loaded = s.keys_loaded + 1;
  }

  pub take_key-joined :
      (g : Config) (key : Bytes) (x : V) (s : Loading V)
      → is_expired g s.attributes.expiretime ≡ false
      → holds_key (map key_of (s.keyspace s.dbid)) key ≡ false
      → take_key g key (loaded x) s ≡ some (joined key x s)
  unfolding take_key add_key
  take_key-joined g key x s fresh new = rw (take_key, fresh, add_key, new) refl
