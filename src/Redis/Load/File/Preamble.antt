-- ===== src/Redis/Load/File/Preamble.antt =====
-- The fields on the server and the functions, read back as `rdbSaveInfoAuxFields` and
-- `rdbSaveFunctions` wrote them.
use double_swap.Base.{
  ℕ, ◌^◌, ◌<◌, ◌≡◌, refl, sym, ◌∙◌, true, Option, none, some, List, [], ◌∷◌, ◌++◌, append_assoc,
  append-nil, Bytes, length, Step, arith,
}
use double_swap.Base.Int.{ℤ}
use double_swap.Redis.Format.{Format, IsFormat}
use double_swap.Redis.Opcodes.{Opcodes}
use double_swap.Redis.Host.{Host, IsHost}
use double_swap.Redis.Rio.{Source, pure-Reads, bind-Reads, bind_last-Reads}
use double_swap.Redis.Text.Code.{string_code}
use double_swap.Redis.Counting.{all_codes}
use double_swap.Redis.Entries.{Replication, Info, field_names}
use double_swap.Redis.Entries.Code.{aux_code, replication_code, info_code, function_code}
use double_swap.Redis.Load.{Outcome, no_flags, load_sds, load_text}
use double_swap.Redis.Load.Texts.{Fits, text-Reads}
use double_swap.Redis.Load.File.{Loading, Config, again, set_rsi, set_aux, load_function}
use double_swap.Redis.Load.File.Branches.{IsOpcodes, at_aux, at_function2}
use double_swap.Redis.Load.File.Rounds.{Advances, stay-Advances, then-Advances, round-Advances}
use double_swap.Redis.Load.File.Saved.{Hinted, same-Hinted}

abbrev IsShortId : Option Replication → Type 0
IsShortId none = Unit {0}
IsShortId (some rsi) = length rsi.replid < 2 ^ 63

-- Texts on the server that are shorter than 2 ^ 63.
pub record IsShortInfo (a : Info) : Type 0 where
  pub version : length a.redis_version < 2 ^ 63
  pub replid : IsShortId a.rsi

-- Each library is one that functions.c takes behind those before, and shorter than 2 ^ 63.
unfoldable pub AreAccepted : Config → List Bytes → List Bytes → Type 0
AreAccepted g earlier [] = Unit {0}
AreAccepted g earlier (l ∷ ls) =
    (g.create_library earlier l ≡ true) × (length l < 2 ^ 63) × AreAccepted g (earlier ++ l ∷ []) ls

module _ {V : Type 0} where
  pub Hinted-again : (s t u : Loading V) → Hinted s t → Hinted t u → Hinted s u
  Hinted-again s t u x y = record {
    dbid = y.dbid ∙ x.dbid;
    keyspace = y.keyspace ∙ x.keyspace;
    attributes = y.attributes ∙ x.attributes;
    libraries = y.libraries ∙ x.libraries;
  }

  set_aux-Hinted : (g : Config) (name val : Bytes) (s : Loading V) → Hinted s (set_aux g name val s)
  unfolding set_aux set_rsi
  set_aux-Hinted g name val s =
      let (d, k, a, l) = kept in record { dbid = d; keyspace = k; attributes = a; libraries = l }
    where
      kept :
          ((set_aux g name val s).dbid ≡ s.dbid)
          × ((set_aux g name val s).keyspace ≡ s.keyspace)
          × ((set_aux g name val s).attributes ≡ s.attributes)
          × ((set_aux g name val s).libraries ≡ s.libraries)
      kept = ground arith

module _ (f : Format) (h : IsFormat f) (o : Opcodes) (ho : IsOpcodes o) (e : Host) (i : IsHost e)
    (r : Source) {V : Type 0} (g : Config) (load_value : ℕ → Step r.Stream (Outcome V))
    (module_aux : Step r.Stream (Unit {0})) (cksum : r.Stream → ℕ) (rdbver : ℕ)
    (memory : (k : ℕ) → e.allocates k ≡ true) where
  abbrev On : Loading V → Bytes → Loading V → Type 0
  On s p t = Advances f o e r g load_value module_aux cksum rdbver s p t

  fits : (s : Bytes) → length s < 2 ^ 63 → Fits e s
  fits s short = record { short = short; room = λ k small. memory k }

  -- The loop takes the bytes from any state and leaves the keyspace and the libraries alone.
  abbrev pub IsAside : Bytes → Type 0
  IsAside p = (s : Loading V) → (t : Loading V) × On s p t × Hinted s t

  none-IsAside : IsAside []
  none-IsAside s = (s, stay-Advances f o e r g load_value module_aux cksum rdbver s, same-Hinted s)

  both-IsAside : (p q : Bytes) → IsAside p → IsAside q → IsAside (p ++ q)
  both-IsAside p q x y s =
      let (t, goes, kept) = x s in
      let (u, goes', kept') = y t in
      (
        u,
        then-Advances f o e r g load_value module_aux cksum rdbver s t u p q goes goes',
        Hinted-again s t u kept kept',
      )

  field-IsAside :
      (name val : Bytes)
      → length name < 2 ^ 63
      → length val < 2 ^ 63
      → IsAside (aux_code f o e name val)
  field-IsAside name val small short s = (
    set_aux g name val s,
    round-Advances f o e r g load_value module_aux cksum rdbver s (set_aux g name val s)
        o.rdb_opcode_aux (string_code f e name ++ string_code f e val) (omega (arith, ho.byte))
        (rw (at_aux f o ho e r g load_value module_aux rdbver s) (
          bind-Reads r (load_text f e r no_flags) _ (string_code f e name) (string_code f e val)
            name (again (set_aux g name val s))
            (text-Reads f h r e i no_flags name (fits name small))
            (bind_last-Reads r (load_text f e r no_flags) _ (string_code f e val) val
              (again (set_aux g name val s)) (text-Reads f h r e i no_flags val (fits val short))
              (pure-Reads r (again (set_aux g name val s)))))),
    set_aux-Hinted g name val s,
  )

  number-IsAside :
      (name : Bytes) (n : ℤ) → length name < 2 ^ 63 → IsAside (aux_code f o e name (e.ll2string n))
  number-IsAside name n small =
      field-IsAside name (e.ll2string n) small (omega (arith, i.printed n))

  replication-IsAside :
      (rsi : Option Replication) → IsShortId rsi → IsAside (replication_code f o e rsi)
  replication-IsAside none short = none-IsAside
  replication-IsAside (some rsi) short =
      both-IsAside _ _ (number-IsAside field_names.repl_stream_db rsi.repl_stream_db (omega arith))
        (both-IsAside _ _ (field-IsAside field_names.repl_id rsi.replid (omega arith) short)
          (number-IsAside field_names.repl_offset rsi.master_repl_offset (omega arith)))

  pub info-IsAside : (a : Info) → IsShortInfo a → IsAside (info_code f o e a)
  unfolding info_code
  info-IsAside a short =
      both-IsAside _ _
        (field-IsAside field_names.redis_ver a.redis_version (omega arith) short.version)
        (both-IsAside _ _ (number-IsAside field_names.redis_bits _ (omega arith)) (
          both-IsAside _ _ (number-IsAside field_names.ctime a.ctime (omega arith)) (
            both-IsAside _ _ (number-IsAside field_names.used_mem a.used_memory (omega arith)) (
              both-IsAside _ _ (replication-IsAside a.rsi short.replid) (
                both-IsAside _ _ (number-IsAside field_names.aof_base _ (omega arith))
                  none-IsAside)))))

  with_library : Bytes → Loading V → Loading V
  with_library l s = record s { libraries = s.libraries ++ l ∷ [] }

  function-Advances :
      (l : Bytes) (s : Loading V)
      → g.create_library s.libraries l ≡ true
      → length l < 2 ^ 63
      → On s (function_code f o e l) (with_library l s)
  unfolding load_function with_library
  function-Advances l s taken short =
      round-Advances f o e r g load_value module_aux cksum rdbver s _ o.rdb_opcode_function2
        (string_code f e l) (omega (arith, ho.byte))
        (rw (at_function2 f o ho e r g load_value module_aux rdbver s) (
          bind_last-Reads r (load_text f e r load_sds) _ (string_code f e l) l
            (again (with_library l s)) (text-Reads f h r e i load_sds l (fits l short))
            (rw taken (pure-Reads r (again (with_library l s))))))

  -- The functions join the libraries, and nothing else changes.
  pub functions-Advances :
      (ls : List Bytes) (s : Loading V)
      → AreAccepted g s.libraries ls
      → (t : Loading V) × On s (all_codes (function_code f o e) ls) t
        × (t.dbid ≡ s.dbid)
        × (t.keyspace ≡ s.keyspace)
        × (t.attributes ≡ s.attributes)
        × (t.libraries ≡ s.libraries ++ ls)
  unfolding AreAccepted all_codes with_library
  functions-Advances [] s accepted = (
    s,
    stay-Advances f o e r g load_value module_aux cksum rdbver s,
    refl,
    refl,
    refl,
    sym (append-nil s.libraries),
  )
  functions-Advances (l ∷ ls) s (taken, short, rest) =
      let u = with_library l s in
      let (t, goes, d, k, a, libs) = functions-Advances ls u rest in
      (
        t,
        then-Advances f o e r g load_value module_aux cksum rdbver s u t (function_code f o e l) _
            (function-Advances l s taken short) goes,
        d,
        k,
        a,
        libs ∙ append_assoc s.libraries (l ∷ []) ls,
      )
