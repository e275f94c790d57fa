-- ===== src/Redis/Load/File/Databases.antt =====
-- A database, read back as `rdbSaveDb` wrote it.
use double_swap.Base.{
  ℕ, ◌%◌, ◌^◌, ◌<◌, ◌≤◌, ◌≡◌, refl, sym, ap, Bool, true, false, ◌&&◌, ◌⊎◌, Option, List, [], ◌∷◌,
  ◌++◌, append_assoc, append-nil, map, map-append, Bytes, All, if◌then◌else◌, Step, arith,
}
use mathlib.Core.Path.{subst}
use double_swap.Redis.Format.{Format, IsFormat}
use double_swap.Redis.Opcodes.{Opcodes}
use double_swap.Redis.Host.{Host, IsHost}
use double_swap.Redis.Rio.{Source, pure-Reads, bind-Reads, bind_last-Reads}
use double_swap.Redis.Length.{load_len}
use double_swap.Redis.Length.Code.{len_code}
use double_swap.Redis.Object.{Value}
use double_swap.Redis.Dump.{Server, KeyEntry, Database, differs, next_slot}
use double_swap.Redis.Dump.Code.{slot_code, entry_code, entries_code}
use double_swap.Redis.Load.{Outcome}
use double_swap.Redis.Load.Texts.{size-Reads, AreNew}
use double_swap.Redis.Load.File.{no_attributes, slot_expand, Loading, Config, again, load_slot_info}
use double_swap.Redis.Load.File.Branches.{IsOpcodes, at_slot_info}
use double_swap.Redis.Load.File.Rounds.{Advances, stay-Advances, then-Advances, round-Advances}
use double_swap.Redis.Load.File.Saved.{
  keystr_of, AreSaved, Follows, Follows-again, Hinted, same-Hinted, Hinted-Follows,
}
use double_swap.Redis.Load.File.Entries.{IsTaken, ComesBack, entry-Advances}

module _ (f : Format) (h : IsFormat f) (o : Opcodes) (ho : IsOpcodes o) (e : Host) (i : IsHost e)
    (r : Source) {V : Type 0} (g : Config) (load_value : ℕ → Step r.Stream (Outcome V))
    (module_aux : Step r.Stream (Unit {0})) (cksum : r.Stream → ℕ) (rdbver : ℕ)
    (order : (9 ≤ rdbver) ⊎ (g.big_endian_host ≡ false)) (Holds : Value → V → Type 0)
    (v : Server) where
  abbrev pub Goes : Loading V → Bytes → Loading V → Type 0
  Goes s p t = Advances f o e r g load_value module_aux cksum rdbver s p t

  abbrev pub follow :
      (s t u : Loading V) (p q : Bytes) → Goes s p t → Goes t q u → Goes s (p ++ q) u
  follow s t u p q x y = then-Advances f o e r g load_value module_aux cksum rdbver s t u p q x y

  -- A key that the loader takes, with a value that comes back, in a slot whose sizes are below
  -- 2 ^ 63.
  pub record IsReadable (db : Database) (k : KeyEntry) : Type 0 where
    pub taken : IsTaken e g k
    pub back :
        ComesBack f h o ho e i r g load_value module_aux cksum rdbver order Holds v.policy k.value
    pub slot_size : db.slot_size k.slot < 2 ^ 63
    pub slot_expires : db.slot_expires k.slot < 2 ^ 63

  slot-Advances :
      (db : Database) (slot : ℕ) (last : Option ℕ) (s : Loading V)
      → slot < 2 ^ 63
      → db.slot_size slot < 2 ^ 63
      → db.slot_expires slot < 2 ^ 63
      → (t : Loading V) × Goes s (slot_code f o e v db slot last) t × Hinted s t
  unfolding load_slot_info
  slot-Advances db slot last s small size_small expires_small =
      by_test (v.cluster_enabled && differs slot last)
    where
      hinted : Loading V
      hinted =
          if g.cluster_enabled
          then record s {
            hints =
                s.hints ++ slot_expand s.dbid slot (db.slot_size slot) (db.slot_expires slot) ∷ [];
            should_expand_db = false;
          }
          else s

      group : Bytes
      group =
          len_code f slot ++ (len_code f (db.slot_size slot) ++ len_code f (db.slot_expires slot))

      hints :
          (b : Bool)
          → Hinted s (
              if b
              then record s {
                hints =
                    s.hints
                    ++ slot_expand s.dbid slot (db.slot_size slot) (db.slot_expires slot) ∷ [];
                should_expand_db = false;
              }
              else s)
      hints true = record { dbid = refl; keyspace = refl; attributes = refl; libraries = refl }
      hints false = same-Hinted s

      goes : Goes s (o.rdb_opcode_slot_info % 256 ∷ group) hinted
      goes =
          round-Advances f o e r g load_value module_aux cksum rdbver s hinted
            o.rdb_opcode_slot_info group (omega (arith, ho.byte))
            (rw (at_slot_info f o ho e r g load_value module_aux rdbver s) (
              bind-Reads r (load_len f r) _ (len_code f slot) _ (false, slot) (again hinted)
                (size-Reads f h r slot small)
                (bind-Reads r (load_len f r) _ (len_code f (db.slot_size slot)) _
                  (false, db.slot_size slot) (again hinted)
                  (size-Reads f h r (db.slot_size slot) size_small)
                  (bind_last-Reads r (load_len f r) _ (len_code f (db.slot_expires slot))
                    (false, db.slot_expires slot) (again hinted)
                    (size-Reads f h r (db.slot_expires slot) expires_small)
                    (pure-Reads r (again hinted))))))

      by_test :
          (b : Bool)
          → (t : Loading V) × Goes s (if b then o.rdb_opcode_slot_info % 256 ∷ group else []) t
            × Hinted s t
      by_test true = (hinted, goes, hints g.cluster_enabled)
      by_test false =
          (s, stay-Advances f o e r g load_value module_aux cksum rdbver s, same-Hinted s)

  pub entries-Advances :
      (db : Database) (j : ℕ) (last : Option ℕ) (ks earlier : List KeyEntry) (s : Loading V)
      → s.dbid ≡ j
      → s.attributes ≡ no_attributes
      → AreSaved Holds v.policy earlier (s.keyspace j)
      → All (IsReadable db) ks
      → AreNew (map keystr_of earlier) (map keystr_of ks)
      → (t : Loading V) × Goes s (entries_code f o e v db last ks) t
        × Follows j s t
        × AreSaved Holds v.policy (earlier ++ ks) (t.keyspace j)
  unfolding entries_code AreNew
  entries-Advances db j last [] earlier s selected clear saved readable new = (
    s,
    stay-Advances f o e r g load_value module_aux cksum rdbver s,
    Hinted-Follows j s s selected clear (same-Hinted s),
    rw (append-nil earlier) saved,
  )
  entries-Advances db j last (k ∷ ks) earlier s selected clear saved (one, rest) (fresh, new) =
      let (s₁, to_slot, hinted) =
        slot-Advances db k.slot last s one.taken.slot one.slot_size one.slot_expires in
      let first = Hinted-Follows j s s₁ selected clear hinted in
      let (s₂, to_entry, second, saved') =
        entry-Advances f h o ho e i r g load_value module_aux cksum rdbver order Holds v.policy j k
          earlier s₁ first.selected first.clear
          (subst (AreSaved Holds v.policy earlier) (sym (ap (λ l. l j) hinted.keyspace)) saved)
          one.taken one.back fresh in
      let (t, to_end, third, saved'') =
        entries-Advances db j (next_slot v k.slot last) ks (earlier ++ k ∷ []) s₂ second.selected
          second.clear saved' rest (rw (map-append keystr_of earlier (k ∷ [])) new) in
      (
        t,
        follow s s₁ t (slot_code f o e v db k.slot last) _ to_slot
            (follow s₁ s₂ t (entry_code f o e v k) _ to_entry to_end),
        Follows-again j s s₁ t first (Follows-again j s₁ s₂ t second third),
        subst (λ l. AreSaved Holds v.policy l (t.keyspace j)) (append_assoc earlier (k ∷ []) ks)
            saved'',
      )
