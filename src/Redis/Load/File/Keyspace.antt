-- ===== src/Redis/Load/File/Keyspace.antt =====
-- All databases, read back as `rdbSaveRio` wrote them.
use double_swap.Base.{
  ℕ, zero, suc, ◌+◌, ◌%◌, ◌^◌, ◌<◌, ◌≤◌, ◌≡◌, ◌≢◌, refl, sym, ◌∙◌, Bool, true, false, Bool-cases,
  ◌⊎◌, inl, inr, none, List, [], ◌∷◌, ◌++◌, map, Bytes, All, length, ◌==◌, leb, Step, arith,
}
use mathlib.Core.Path.{subst}
use double_swap.Redis.Format.{Format, IsFormat}
use double_swap.Redis.Opcodes.{Opcodes}
use double_swap.Redis.Host.{Host, IsHost}
use double_swap.Redis.Rio.{Source, pure-Reads, bind-Reads, bind_last-Reads}
use double_swap.Redis.Length.{load_len}
use double_swap.Redis.Length.Code.{len_code}
use double_swap.Redis.Object.{Value}
use double_swap.Redis.Dump.{Server, KeyEntry, Database}
use double_swap.Redis.Dump.Code.{entries_code, db_header, db_code}
use double_swap.Redis.Dump.Layout.{databases_code}
use double_swap.Redis.Load.{Outcome}
use double_swap.Redis.Load.Texts.{size-Reads, AreNew}
use double_swap.Redis.Load.File.{no_attributes, Loading, Config, again}
use double_swap.Redis.Load.File.Branches.{IsOpcodes, at_selectdb, at_resizedb}
use double_swap.Redis.Load.File.Rounds.{stay-Advances, round-Advances}
use double_swap.Redis.Load.File.Saved.{keystr_of, AreSaved}
use double_swap.Redis.Load.File.Databases.{Goes, follow, IsReadable, entries-Advances}

-- The entries of the database with a number, among those that are saved.
unfoldable pub entries_at : List (Database × (ℕ → ℕ)) → ℕ → List KeyEntry
entries_at [] j = []
entries_at ((db, elapsed) ∷ dbs) zero = db.entries
entries_at ((db, elapsed) ∷ dbs) (suc j) = entries_at dbs j

module _ (f : Format) (h : IsFormat f) (o : Opcodes) (ho : IsOpcodes o) (e : Host) (i : IsHost e)
    (r : Source) {V : Type 0} (g : Config) (load_value : ℕ → Step r.Stream (Outcome V))
    (module_aux : Step r.Stream (Unit {0})) (cksum : r.Stream → ℕ) (rdbver : ℕ)
    (order : (9 ≤ rdbver) ⊎ (g.big_endian_host ≡ false)) (Holds : Value → V → Type 0)
    (v : Server) where
  abbrev To : Loading V → Bytes → Loading V → Type 0
  To s p t = Goes f h o ho e i r g load_value module_aux cksum rdbver order Holds v s p t

  -- A database that the loader takes: sizes below 2 ^ 63, each name once, and readable entries.
  pub record IsReadableDb (db : Database) : Type 0 where
    pub size : length db.entries < 2 ^ 63
    pub expires_size : db.expires_size < 2 ^ 63
    pub names : AreNew [] (map keystr_of db.entries)
    pub entries :
        All
          (IsReadable f h o ho e i r g load_value module_aux cksum rdbver order Holds v db)
          db.entries

  -- The part of the load for a database `j`.
  pub record Fills (j : ℕ) (ks : List KeyEntry) (s t : Loading V) : Type 0 where
    pub clear : t.attributes ≡ no_attributes
    pub libraries : t.libraries ≡ s.libraries
    pub frame : (l : ℕ) → l ≢ j → t.keyspace l ≡ s.keyspace l
    pub filled : AreSaved Holds v.policy ks (t.keyspace j)

  abbrev selecting : ℕ → Loading V → Loading V
  selecting j s = record s { dbid = j }

  abbrev resizing : Database → Loading V → Loading V
  resizing db s = record s {
    db_size = length db.entries;
    expires_size = db.expires_size;
    should_expand_db = true;
  }

  select-Advances :
      (j : ℕ) (s : Loading V)
      → j < 2 ^ 63
      → j < g.dbnum
      → To s (o.rdb_opcode_selectdb % 256 ∷ len_code f j) (selecting j s)
  select-Advances j s small known =
      round-Advances f o e r g load_value module_aux cksum rdbver s (selecting j s)
        o.rdb_opcode_selectdb (len_code f j) (omega (arith, ho.byte))
        (rw (at_selectdb f o ho e r g load_value module_aux rdbver s) (
          bind_last-Reads r (load_len f r) _ (len_code f j) (false, j) (again (selecting j s))
            (size-Reads f h r j small)
            (rw (in_range j g.dbnum known) (pure-Reads r (again (selecting j s))))))
    where
      in_range : (j n : ℕ) → j < n → leb n j ≡ false
      in_range j n known = ground arith

  resize-Advances :
      (db : Database) (s : Loading V)
      → length db.entries < 2 ^ 63
      → db.expires_size < 2 ^ 63
      → To s
          (o.rdb_opcode_resizedb % 256
            ∷ (len_code f (length db.entries) ++ len_code f db.expires_size))
          (resizing db s)
  resize-Advances db s small few =
      round-Advances f o e r g load_value module_aux cksum rdbver s (resizing db s)
        o.rdb_opcode_resizedb (len_code f (length db.entries) ++ len_code f db.expires_size)
        (omega (arith, ho.byte))
        (rw (at_resizedb f o ho e r g load_value module_aux rdbver s) (
          bind-Reads r (load_len f r) _ (len_code f (length db.entries)) _
            (false, length db.entries) (again (resizing db s))
            (size-Reads f h r (length db.entries) small)
            (bind_last-Reads r (load_len f r) _ (len_code f db.expires_size)
              (false, db.expires_size) (again (resizing db s))
              (size-Reads f h r db.expires_size few) (pure-Reads r (again (resizing db s))))))

  none_saved : (ks : List KeyEntry) → (length ks == 0) ≡ true → AreSaved Holds v.policy ks []
  unfolding AreSaved
  none_saved [] z = tt
  none_saved (k ∷ ks) z = absurd (ground arith)

  db-Advances :
      (j : ℕ) (db : Database) (s : Loading V)
      → s.attributes ≡ no_attributes
      → s.keyspace j ≡ []
      → j < 2 ^ 63
      → j < g.dbnum
      → IsReadableDb db
      → (t : Loading V) × To s (db_code f o e v j db) t × Fills j db.entries s t
  unfolding db_code AreSaved
  db-Advances j db s clear blank small known readable = elim (Bool-cases (length db.entries == 0)) [
    | inl z ↦ (
      s,
      rw z (stay-Advances f o e r g load_value module_aux cksum rdbver s),
      record {
        clear = clear;
        libraries = refl;
        frame = λ l other. refl;
        filled = rw blank (none_saved db.entries z);
      },
    )
    | inr z ↦ full z
  ]
    where
      opened : Loading V
      opened = resizing db (selecting j s)

      full :
          (length db.entries == 0) ≡ false
          → (t : Loading V) × To s (db_code f o e v j db) t × Fills j db.entries s t
      full z =
          let (t, goes, follows, saved) =
            entries-Advances f h o ho e i r g load_value module_aux cksum rdbver order Holds v db j
              none db.entries [] opened refl clear (rw blank tt) readable.entries readable.names in
          (
            t,
            rw z (
                follow f h o ho e i r g load_value module_aux cksum rdbver order Holds v s opened t
                  (db_header f o e v j db) (entries_code f o e v db none db.entries)
                  (follow f h o ho e i r g load_value module_aux cksum rdbver order Holds v s
                    (selecting j s) opened (o.rdb_opcode_selectdb % 256 ∷ len_code f j) _
                    (select-Advances j s small known)
                    (resize-Advances db (selecting j s) readable.size readable.expires_size))
                  goes),
            record {
              clear = follows.clear;
              libraries = follows.libraries;
              frame = follows.frame;
              filled = saved;
            },
          )

  -- The part of the load for the databases from `j` on.
  pub record FillsAll (j : ℕ) (dbs : List (Database × (ℕ → ℕ))) (s t : Loading V) : Type 0 where
    pub clear : t.attributes ≡ no_attributes
    pub libraries : t.libraries ≡ s.libraries
    pub frame : (l : ℕ) → l < j → t.keyspace l ≡ s.keyspace l
    pub filled : (l : ℕ) → AreSaved Holds v.policy (entries_at dbs l) (t.keyspace (j + l))

  rest_joins :
      (j : ℕ) (db : Database) (elapsed : ℕ → ℕ) (dbs : List (Database × (ℕ → ℕ)))
      (s t u : Loading V)
      → Fills j db.entries s t
      → FillsAll (suc j) dbs t u
      → FillsAll j ((db, elapsed) ∷ dbs) s u
  unfolding entries_at
  rest_joins j db elapsed dbs s t u one rest = record {
    clear = rest.clear;
    libraries = rest.libraries ∙ one.libraries;
    frame = λ l below. rest.frame l (omega arith) ∙ one.frame l (λ same. absurd (omega arith));
    filled = by_place;
  }
    where
      by_place :
          (l : ℕ)
          → AreSaved Holds v.policy (entries_at ((db, elapsed) ∷ dbs) l) (u.keyspace (j + l))
      by_place zero =
          subst (λ n. AreSaved Holds v.policy db.entries (u.keyspace n)) (omega arith)
            (subst (AreSaved Holds v.policy db.entries) (sym (rest.frame j (omega arith)))
              one.filled)
      by_place (suc l) =
          subst (λ n. AreSaved Holds v.policy (entries_at dbs l) (u.keyspace n)) (omega arith)
            (rest.filled l)

  pub databases-Advances :
      (modules_code : Bool → Bytes) (j : ℕ) (dbs : List (Database × (ℕ → ℕ))) (s : Loading V)
      → s.attributes ≡ no_attributes
      → ((l : ℕ) → j ≤ l → s.keyspace l ≡ [])
      → j + length dbs ≤ g.dbnum
      → g.dbnum < 2 ^ 63
      → All (λ d. IsReadableDb d.0) dbs
      → (t : Loading V) × To s (databases_code f o e v modules_code j dbs) t × FillsAll j dbs s t
  unfolding databases_code entries_at AreSaved
  databases-Advances modules_code j [] s clear blank room small readable = (
    s,
    stay-Advances f o e r g load_value module_aux cksum rdbver s,
    record {
      clear = clear;
      libraries = refl;
      frame = λ l below. refl;
      filled = λ l. rw (blank (j + l) (omega arith)) tt;
    },
  )
  databases-Advances modules_code j ((db, elapsed) ∷ dbs) s clear blank room small (one, rest) =
      let (t, goes, fills) =
        db-Advances j db s clear (blank j (omega arith)) (omega arith) (omega arith) one in
      let (u, goes', fills') =
        databases-Advances modules_code (suc j) dbs t fills.clear
          (λ l above. fills.frame l (λ same. absurd (omega arith)) ∙ blank l (omega arith))
          (omega arith) small rest in
      (
        u,
        follow f h o ho e i r g load_value module_aux cksum rdbver order Holds v s t u
            (db_code f o e v j db) _ goes goes',
        rest_joins j db elapsed dbs s t u fills fills',
      )
