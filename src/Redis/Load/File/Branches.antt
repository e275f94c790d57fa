-- ===== src/Redis/Load/File/Branches.antt =====
-- The branches of the loop in `rdbLoadRioWithLoadingCtx`, by the byte at the start of a round.
use double_swap.Base.{
  ℕ, ◌^◌, ◌<◌, ◌≡◌, refl, some, true, false, ◌==◌, ==_self, if◌then◌else◌, Step, pure, fail, ◌>>=◌,
  get_or, leb, arith,
}
use double_swap.Base.Int.{pos, signed}
use double_swap.Redis.Format.{Format}
use double_swap.Redis.Opcodes.{Opcodes}
use double_swap.Redis.Host.{Host}
use double_swap.Redis.Rio.{Source}
use double_swap.Redis.Length.{load_len}
use double_swap.Redis.Scalars.{load_millisecond_time}
use double_swap.Redis.Load.{Outcome, no_flags, load_text}
use double_swap.Redis.Load.Values.{Kind, type_byte, kind_of}
use double_swap.Redis.Load.File.{
  Loading, Config, Round, again, end_of_file, set_aux, load_slot_info, load_function, load_key,
  load_entry,
}

-- The bytes are as in rdb.h: the types below the opcodes, which are different bytes, and the types
-- told apart.
pub record IsOpcodes (o : Opcodes) : Type 0 where
  pub types : (k : Kind) → type_byte o k < o.rdb_opcode_slot_info
  pub function2 : o.rdb_opcode_slot_info < o.rdb_opcode_function2
  pub pre_ga : o.rdb_opcode_function2 < o.rdb_opcode_function_pre_ga
  pub module_aux : o.rdb_opcode_function_pre_ga < o.rdb_opcode_module_aux
  pub idle : o.rdb_opcode_module_aux < o.rdb_opcode_idle
  pub freq : o.rdb_opcode_idle < o.rdb_opcode_freq
  pub aux : o.rdb_opcode_freq < o.rdb_opcode_aux
  pub resizedb : o.rdb_opcode_aux < o.rdb_opcode_resizedb
  pub expiretime_ms : o.rdb_opcode_resizedb < o.rdb_opcode_expiretime_ms
  pub expiretime : o.rdb_opcode_expiretime_ms < o.rdb_opcode_expiretime
  pub selectdb : o.rdb_opcode_expiretime < o.rdb_opcode_selectdb
  pub eof : o.rdb_opcode_selectdb < o.rdb_opcode_eof
  pub byte : o.rdb_opcode_eof < 256
  pub told_apart : (k : Kind) → kind_of o (type_byte o k) ≡ some k

under : (a b : ℕ) → a < b → (a == b) ≡ false
under a b h = ground arith

over : (a b : ℕ) → b < a → (a == b) ≡ false
over a b h = ground arith

module _ (f : Format) (o : Opcodes) (h : IsOpcodes o) (e : Host) (r : Source) {V : Type 0}
    (g : Config) (load_value : ℕ → Step r.Stream (Outcome V))
    (module_aux : Step r.Stream (Unit {0})) (rdbver : ℕ) (s : Loading V) where
  abbrev entry : ℕ → Step r.Stream (Round V)
  entry type = load_entry f o e r g load_value module_aux rdbver type s

  pub at_expiretime_ms : entry o.rdb_opcode_expiretime_ms ≡ (do
    t ← load_millisecond_time r g.big_endian_host rdbver
    pure (again (record s { attributes = record s.attributes { expiretime = t } })))
  unfolding load_entry
  at_expiretime_ms =
      rw
        (
          under o.rdb_opcode_expiretime_ms o.rdb_opcode_expiretime (omega arith),
          ==_self o.rdb_opcode_expiretime_ms,
        )
        refl

  pub at_freq : entry o.rdb_opcode_freq ≡ (do
    buf ← r.read 1
    pure
        (again (record s { attributes = record s.attributes { lfu_freq = pos (get_or buf 0 0) } })))
  unfolding load_entry
  at_freq =
      rw
        (
          under o.rdb_opcode_freq o.rdb_opcode_expiretime (omega arith),
          under o.rdb_opcode_freq o.rdb_opcode_expiretime_ms (omega arith),
          ==_self o.rdb_opcode_freq,
        )
        refl

  pub at_idle : entry o.rdb_opcode_idle ≡ (do
    (_, qword) ← load_len f r
    pure (
        again (record s { attributes = record s.attributes { lru_idle = signed (2 ^ 64) qword } })))
  unfolding load_entry
  at_idle =
      rw
        (
          under o.rdb_opcode_idle o.rdb_opcode_expiretime (omega arith),
          under o.rdb_opcode_idle o.rdb_opcode_expiretime_ms (omega arith),
          under o.rdb_opcode_idle o.rdb_opcode_freq (omega arith),
          ==_self o.rdb_opcode_idle,
        )
        refl

  pub at_eof : entry o.rdb_opcode_eof ≡ (pure (end_of_file s))
  unfolding load_entry
  at_eof =
      rw
        (
          over o.rdb_opcode_eof o.rdb_opcode_expiretime (omega arith),
          over o.rdb_opcode_eof o.rdb_opcode_expiretime_ms (omega arith),
          over o.rdb_opcode_eof o.rdb_opcode_freq (omega arith),
          over o.rdb_opcode_eof o.rdb_opcode_idle (omega arith),
          ==_self o.rdb_opcode_eof,
        )
        refl

  pub at_selectdb : entry o.rdb_opcode_selectdb ≡ (do
    (_, dbid) ← load_len f r
    if leb g.dbnum dbid then fail else pure (again (record s { dbid = dbid })))
  unfolding load_entry
  at_selectdb =
      rw
        (
          over o.rdb_opcode_selectdb o.rdb_opcode_expiretime (omega arith),
          over o.rdb_opcode_selectdb o.rdb_opcode_expiretime_ms (omega arith),
          over o.rdb_opcode_selectdb o.rdb_opcode_freq (omega arith),
          over o.rdb_opcode_selectdb o.rdb_opcode_idle (omega arith),
          under o.rdb_opcode_selectdb o.rdb_opcode_eof (omega arith),
          ==_self o.rdb_opcode_selectdb,
        )
        refl

  pub at_resizedb : entry o.rdb_opcode_resizedb ≡ (do
    (_, db_size) ← load_len f r
    (_, expires_size) ← load_len f r
    pure (
        again
          (record s { db_size = db_size; expires_size = expires_size; should_expand_db = true })))
  unfolding load_entry
  at_resizedb =
      rw
        (
          under o.rdb_opcode_resizedb o.rdb_opcode_expiretime (omega arith),
          under o.rdb_opcode_resizedb o.rdb_opcode_expiretime_ms (omega arith),
          over o.rdb_opcode_resizedb o.rdb_opcode_freq (omega arith),
          over o.rdb_opcode_resizedb o.rdb_opcode_idle (omega arith),
          under o.rdb_opcode_resizedb o.rdb_opcode_eof (omega arith),
          under o.rdb_opcode_resizedb o.rdb_opcode_selectdb (omega arith),
          ==_self o.rdb_opcode_resizedb,
        )
        refl

  pub at_slot_info :
      entry o.rdb_opcode_slot_info ≡ (load_slot_info f o e r g load_value module_aux rdbver s)
  unfolding load_entry
  at_slot_info =
      rw
        (
          under o.rdb_opcode_slot_info o.rdb_opcode_expiretime (omega arith),
          under o.rdb_opcode_slot_info o.rdb_opcode_expiretime_ms (omega arith),
          under o.rdb_opcode_slot_info o.rdb_opcode_freq (omega arith),
          under o.rdb_opcode_slot_info o.rdb_opcode_idle (omega arith),
          under o.rdb_opcode_slot_info o.rdb_opcode_eof (omega arith),
          under o.rdb_opcode_slot_info o.rdb_opcode_selectdb (omega arith),
          under o.rdb_opcode_slot_info o.rdb_opcode_resizedb (omega arith),
          ==_self o.rdb_opcode_slot_info,
        )
        refl

  pub at_aux : entry o.rdb_opcode_aux ≡ (do
    name ← load_text f e r no_flags
    val ← load_text f e r no_flags
    pure (again (set_aux g name val s)))
  unfolding load_entry
  at_aux =
      rw
        (
          under o.rdb_opcode_aux o.rdb_opcode_expiretime (omega arith),
          under o.rdb_opcode_aux o.rdb_opcode_expiretime_ms (omega arith),
          over o.rdb_opcode_aux o.rdb_opcode_freq (omega arith),
          over o.rdb_opcode_aux o.rdb_opcode_idle (omega arith),
          under o.rdb_opcode_aux o.rdb_opcode_eof (omega arith),
          under o.rdb_opcode_aux o.rdb_opcode_selectdb (omega arith),
          under o.rdb_opcode_aux o.rdb_opcode_resizedb (omega arith),
          over o.rdb_opcode_aux o.rdb_opcode_slot_info (omega arith),
          ==_self o.rdb_opcode_aux,
        )
        refl

  pub at_function2 :
      entry o.rdb_opcode_function2 ≡ (load_function f o e r g load_value module_aux rdbver s)
  unfolding load_entry
  at_function2 =
      rw
        (
          under o.rdb_opcode_function2 o.rdb_opcode_expiretime (omega arith),
          under o.rdb_opcode_function2 o.rdb_opcode_expiretime_ms (omega arith),
          under o.rdb_opcode_function2 o.rdb_opcode_freq (omega arith),
          under o.rdb_opcode_function2 o.rdb_opcode_idle (omega arith),
          under o.rdb_opcode_function2 o.rdb_opcode_eof (omega arith),
          under o.rdb_opcode_function2 o.rdb_opcode_selectdb (omega arith),
          under o.rdb_opcode_function2 o.rdb_opcode_resizedb (omega arith),
          over o.rdb_opcode_function2 o.rdb_opcode_slot_info (omega arith),
          under o.rdb_opcode_function2 o.rdb_opcode_aux (omega arith),
          under o.rdb_opcode_function2 o.rdb_opcode_module_aux (omega arith),
          under o.rdb_opcode_function2 o.rdb_opcode_function_pre_ga (omega arith),
          ==_self o.rdb_opcode_function2,
        )
        refl

  -- A byte below all opcodes is a type.
  pub at_type :
      (c : ℕ)
      → c < o.rdb_opcode_slot_info
      → entry c ≡ load_key f o e r g load_value module_aux rdbver c s
  unfolding load_entry
  at_type c small =
      rw
        (
          under c o.rdb_opcode_expiretime (omega arith),
          under c o.rdb_opcode_expiretime_ms (omega arith),
          under c o.rdb_opcode_freq (omega arith),
          under c o.rdb_opcode_idle (omega arith),
          under c o.rdb_opcode_eof (omega arith),
          under c o.rdb_opcode_selectdb (omega arith),
          under c o.rdb_opcode_resizedb (omega arith),
          under c o.rdb_opcode_slot_info (omega arith),
          under c o.rdb_opcode_aux (omega arith),
          under c o.rdb_opcode_module_aux (omega arith),
          under c o.rdb_opcode_function_pre_ga (omega arith),
          under c o.rdb_opcode_function2 (omega arith),
        )
        refl
