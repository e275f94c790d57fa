-- ===== src/Redis/Load/File/Content.antt =====
-- What stands between the magic and the end of a file, loaded again.
use double_swap.Base.{
  ℕ, ◌-◌, ◌^◌, ◌<◌, ◌≤◌, ◌≡◌, sym, ◌∙◌, ap, Bool, inl, List, [], ◌∷◌, ◌++◌, Bytes, All, Step, arith,
}
use mathlib.Core.Path.{subst}
use double_swap.Redis.Format.{Format, IsFormat}
use double_swap.Redis.Opcodes.{Opcodes}
use double_swap.Redis.Host.{Host, IsHost}
use double_swap.Redis.Rio.{Source, Reads}
use double_swap.Redis.Counting.{all_codes}
use double_swap.Redis.Object.{Value}
use double_swap.Redis.Object.Code.{value_code}
use double_swap.Redis.Entries.Code.{info_code, function_code}
use double_swap.Redis.Dump.{Server, KeyEntry, Database}
use double_swap.Redis.Dump.File.{Snapshot}
use double_swap.Redis.Dump.Layout.{databases_code}
use double_swap.Redis.Load.{Structures, Outcome, loaded}
use double_swap.Redis.Load.Values.{Kind, type_byte, Object, load_object, load_typed}
use double_swap.Redis.Load.Values.Loadable.{IsLoadable, Holds}
use double_swap.Redis.Load.Values.RoundTrip.{value_loads}
use double_swap.Redis.Load.File.{Loading, Config}
use double_swap.Redis.Load.File.Branches.{IsOpcodes}
use double_swap.Redis.Load.File.Rounds.{Advances, then-Advances}
use double_swap.Redis.Load.File.Saved.{AreSaved}
use double_swap.Redis.Load.File.Entries.{ComesBack}
use double_swap.Redis.Load.File.Databases.{IsReadable}
use double_swap.Redis.Load.File.Keyspace.{IsReadableDb, entries_at, databases-Advances}
use double_swap.Redis.Load.File.Preamble.{AreAccepted, info-IsAside, functions-Advances}
use double_swap.Redis.Load.File.Loadable.{IsLoadableEntry, IsLoadableDb, IsLoadableFile, IsBlank}

-- Modules that keep no data of their own.
abbrev pub no_module_data : Bool → Bytes
no_module_data before = []

All-map_by :
    {A : Type 0} (P Q : A → Type 0) → ((x : A) → P x → Q x) → (xs : List A) → All P xs → All Q xs
All-map_by P Q g [] h = tt
All-map_by P Q g (x ∷ xs) (p, h) = (g x p, All-map_by P Q g xs h)

module _ (f : Format) (h : IsFormat f) (o : Opcodes) (ho : IsOpcodes o) (e : Host) (i : IsHost e)
    (c : Structures) (r : Source) (g : Config) (others : ℕ → Step r.Stream (Outcome Object))
    (module_aux : Step r.Stream (Unit {0})) (cksum : r.Stream → ℕ) (v : Server) where
  load_typed-Reads :
      (k : Kind) (p : Bytes) (y : Outcome Object)
      → Reads r (load_object f o e c r k) p y
      → Reads r (load_typed f o e c r others (type_byte o k)) p y
  unfolding load_typed
  load_typed-Reads k p y reads = rw (load_typed, ho.told_apart k) reads

  module _ (n : ℕ) (recent : 9 ≤ n) (same : c.rdb_version ≡ n)
      (limited : c.eb_expire_time_max < 2 ^ 64 - 1) where
    value_back :
        (val : Value)
        → IsLoadable o e c val
        → ComesBack f h o ho e i r g
            (load_typed f o e c r others)
            module_aux
            cksum
            n
            (inl recent)
            (Holds o e c)
            v.policy
            val
    value_back val loadable =
        let (k, selects, y, reads, holds) =
          value_loads f h o e i c r limited (inl (omega arith)) val loadable in
        record {
          type = subst (λ b. b < o.rdb_opcode_slot_info) selects (ho.types k);
          object = y;
          reads =
              subst (λ b. Reads r (load_typed f o e c r others b) (value_code f e o val) (loaded y))
                selects (load_typed-Reads k (value_code f e o val) (loaded y) reads);
          holds = holds;
        }

    entry_back :
        (db : Database) (k : KeyEntry)
        → IsLoadableEntry o e c g db k
        → IsReadable f h o ho e i r g
            (load_typed f o e c r others)
            module_aux
            cksum
            n
            (inl recent)
            (Holds o e c)
            v
            db
            k
    entry_back db k loadable = record {
      taken = loadable.taken;
      back = value_back k.value loadable.value;
      slot_size = loadable.slot_size;
      slot_expires = loadable.slot_expires;
    }

    db_back :
        (db : Database)
        → IsLoadableDb o e c g db
        → IsReadableDb f h o ho e i r g
            (load_typed f o e c r others)
            module_aux
            cksum
            n
            (inl recent)
            (Holds o e c)
            v
            db
    db_back db loadable = record {
      size = loadable.size;
      expires_size = loadable.expires_size;
      names = loadable.names;
      entries = All-map_by _ _ (entry_back db) db.entries loadable.entries;
    }

  -- What stands between the magic and the end of a file.
  abbrev pub content : Snapshot → Bytes
  content x =
      info_code f o e x.info
      ++ (all_codes (function_code f o e) x.functions
          ++ databases_code f o e v no_module_data 0 x.databases)

  -- The state behind a file: its databases with what they held, and its functions.
  pub record IsRestored (x : Snapshot) (t : Loading Object) : Type 0 where
    pub databases :
        (j : ℕ) → AreSaved (Holds o e c) v.policy (entries_at x.databases j) (t.keyspace j)
    pub libraries : t.libraries ≡ x.functions

  pub content-Advances :
      (x : Snapshot) (s : Loading Object)
      → IsLoadableFile o e c g x
      → IsBlank s
      → (t : Loading Object) × Advances f o e r g
          (load_typed f o e c r others)
          module_aux
          cksum
          x.rdb_version
          s
          (content x)
          t
        × IsRestored x t
  content-Advances x s file blank =
      let n = x.rdb_version in
      let loader = load_typed f o e c r others in
      let (s₁, to_functions, kept) =
        info-IsAside f h o ho e i r g loader module_aux cksum n file.memory x.info file.info s in
      let none_yet = kept.libraries ∙ blank.libraries in
      let (s₂, to_databases, d, k, a, libs) =
        functions-Advances f h o ho e i r g loader module_aux cksum n file.memory x.functions s₁
          (subst (λ l. AreAccepted g l x.functions) (sym none_yet) file.functions) in
      let (t, to_end, fills) =
        databases-Advances f h o ho e i r g loader module_aux cksum n (inl file.recent)
          (Holds o e c) v no_module_data 0 x.databases s₂ (a ∙ kept.attributes ∙ blank.attributes)
          (λ l above. ap (λ ks. ks l) (k ∙ kept.keyspace) ∙ blank.keyspace l)
          (omega (arith, file.room)) file.few
          (All-map_by _ _ (λ q. db_back n file.recent file.same_version file.expire_limit q.0)
            x.databases file.databases) in
      (
        t,
        then-Advances f o e r g loader module_aux cksum n s s₁ t (info_code f o e x.info) _
            to_functions
            (then-Advances f o e r g loader module_aux cksum n s₁ s₂ t
              (all_codes (function_code f o e) x.functions) _ to_databases to_end),
        record {
          databases = λ j.
              subst (λ l. AreSaved (Holds o e c) v.policy (entries_at x.databases j) (t.keyspace l))
                (omega arith) (fills.filled j);
          libraries = fills.libraries ∙ libs ∙ ap (λ l. l ++ x.functions) none_yet;
        },
      )
