-- ===== src/Redis/Load/File/Entries.antt =====
-- A key with its value, read back as `rdbSaveKeyValuePair` wrote it.
use double_swap.Base.{
  ℕ, ◌/◌, ◌%◌, ◌^◌, ◌<◌, ◌≤◌, ◌≡◌, refl, sym, ◌∙◌, ap, false, ◌⊎◌, List, [], ◌∷◌, ◌++◌, map, Bytes,
  Step, arith,
}
use mathlib.Core.Path.{subst}
use double_swap.Redis.Format.{Format, IsFormat}
use double_swap.Redis.Opcodes.{Opcodes}
use double_swap.Redis.Host.{Host, IsHost}
use double_swap.Redis.Rio.{Source, Reads, pure-Reads, bind-Reads}
use double_swap.Redis.Text.{sds_encoded}
use double_swap.Redis.Text.Code.{object_code}
use double_swap.Redis.Object.{Value, object_type}
use double_swap.Redis.Object.Code.{value_code}
use double_swap.Redis.Entries.{Policy}
use double_swap.Redis.Entries.Code.{pair_code}
use double_swap.Redis.Dump.{KeyEntry, entry_pair}
use double_swap.Redis.Load.{Outcome, loaded, load_sds, load_text, holds_key}
use double_swap.Redis.Load.Texts.{Fits, object-Reads}
use double_swap.Redis.Load.File.{
  no_attributes, LoadedKey, Loading, Config, again, is_expired, key_of, expand_db, put_keys,
  load_key,
}
use double_swap.Redis.Load.File.Branches.{IsOpcodes, at_type}
use double_swap.Redis.Load.File.Rounds.{Advances, round-Advances}
use double_swap.Redis.Load.File.Groups.{saved_attributes, IsTime, attributes-Advances}
use double_swap.Redis.Load.File.Saved.{
  keystr_of, AreSaved, snoc-AreSaved, AreSaved-names, Follows, put_keys-same, put_keys-other,
  Hinted, expand_db-Hinted, joined, take_key-joined,
}

-- A key that the loader takes: its name fits, its time is one of 64 bits that is not over, and its
-- numbers are below 2 ^ 63.
pub record IsTaken (e : Host) (g : Config) (k : KeyEntry) : Type 0 where
  pub name : Fits e k.keystr
  pub time : IsTime k.expire
  pub fresh : is_expired g k.expire ≡ false
  pub idle : k.idle_time / 1000 < 2 ^ 63
  pub slot : k.slot < 2 ^ 63

module _ (f : Format) (h : IsFormat f) (o : Opcodes) (ho : IsOpcodes o) (e : Host) (i : IsHost e)
    (r : Source) {V : Type 0} (g : Config) (load_value : ℕ → Step r.Stream (Outcome V))
    (module_aux : Step r.Stream (Unit {0})) (cksum : r.Stream → ℕ) (rdbver : ℕ)
    (order : (9 ≤ rdbver) ⊎ (g.big_endian_host ≡ false)) (Holds : Value → V → Type 0)
    (p : Policy) where
  -- The value loader takes a value's bytes, by its type byte, and returns what holds it.
  pub record ComesBack (v : Value) : Type 0 where
    pub type : object_type o v < o.rdb_opcode_slot_info
    pub object : V
    pub reads : Reads r (load_value (object_type o v)) (value_code f e o v) (loaded object)
    pub holds : Holds v object

  -- The state behind a key.
  abbrev behind_key : Bytes → V → Loading V → Loading V
  behind_key key x s = record (joined key x (expand_db g s)) { attributes = no_attributes }

  key-Advances :
      (key : Bytes) (v : Value) (s : Loading V) (back : ComesBack v)
      → Fits e key
      → is_expired g (expand_db g s).attributes.expiretime ≡ false
      → holds_key (map key_of ((expand_db g s).keyspace (expand_db g s).dbid)) key ≡ false
      → Advances f o e r g load_value module_aux cksum rdbver s
          (object_type o v % 256
            ∷ (object_code f e (sds_encoded key) ++ (value_code f e o v ++ [])))
          (behind_key key back.object s)
  unfolding load_key
  key-Advances key v s back fits fresh new =
      round-Advances f o e r g load_value module_aux cksum rdbver s _ (object_type o v)
        (object_code f e (sds_encoded key) ++ (value_code f e o v ++ []))
        (omega (arith, back.type, ho.function2))
        (rw (at_type f o ho e r g load_value module_aux rdbver s (object_type o v) back.type) (
          bind-Reads r (load_text f e r load_sds) _ (object_code f e (sds_encoded key))
            (value_code f e o v ++ []) key (again (behind_key key back.object s))
            (object-Reads f h r e i load_sds (sds_encoded key) fits)
            (bind-Reads r (load_value (object_type o v)) _ (value_code f e o v) []
              (loaded back.object) (again (behind_key key back.object s)) back.reads
              (rw (take_key-joined g key back.object (expand_db g s) fresh new)
                (pure-Reads r (again (behind_key key back.object s)))))))

  -- A key that is new in its database joins it behind the keys that came before.
  pub entry-Advances :
      (j : ℕ) (k : KeyEntry) (earlier : List KeyEntry) (s : Loading V)
      → s.dbid ≡ j
      → s.attributes ≡ no_attributes
      → AreSaved Holds p earlier (s.keyspace j)
      → IsTaken e g k
      → ComesBack k.value
      → holds_key (map keystr_of earlier) k.keystr ≡ false
      → (t : Loading V) × Advances f o e r g load_value module_aux cksum rdbver s
          (pair_code f o e p (entry_pair k))
          t
        × Follows j s t
        × AreSaved Holds p (earlier ++ k ∷ []) (t.keyspace j)
  unfolding pair_code saved_attributes
  entry-Advances j k earlier s selected clear saved taken back new = (
    behind_key k.keystr back.object attributed,
    attributes-Advances f h o ho e r g load_value module_aux cksum rdbver order p k s _ _ clear
        taken.time taken.idle
        (key-Advances k.keystr k.value attributed back taken.name
          (ap (λ a. is_expired g a.expiretime) hinted.attributes ∙ taken.fresh)
          (ap (λ l. holds_key (map key_of l) k.keystr) here
            ∙ ap (λ names. holds_key names k.keystr) (AreSaved-names Holds p earlier _ saved)
            ∙ new)),
    record {
      selected = there;
      clear = refl;
      libraries = hinted.libraries;
      frame = λ l other.
          put_keys-other expanded.dbid _ expanded.keyspace l (λ same. other (same ∙ there))
          ∙ ap (λ ks. ks l) hinted.keyspace;
    },
    subst (AreSaved Holds p (earlier ++ k ∷ []))
        (sym (
          ap (put_keys expanded.dbid _ expanded.keyspace) (sym there)
          ∙ put_keys-same expanded.dbid _ expanded.keyspace
          ∙ ap (λ l. l ++ saved_key ∷ []) here))
        (snoc-AreSaved Holds p earlier (s.keyspace j) k saved_key saved
          (record { key = refl; attributes = hinted.attributes; value = back.holds })),
  )
    where
      attributed : Loading V
      attributed = record s { attributes = saved_attributes p k }

      expanded : Loading V
      expanded = expand_db g attributed

      hinted : Hinted attributed expanded
      hinted = expand_db-Hinted g attributed

      there : expanded.dbid ≡ j
      there = hinted.dbid ∙ selected

      here : expanded.keyspace expanded.dbid ≡ s.keyspace j
      here = ap (λ ks. ks expanded.dbid) hinted.keyspace ∙ ap s.keyspace there

      saved_key : LoadedKey V
      saved_key = record { key = k.keystr; value = back.object; attributes = expanded.attributes }
