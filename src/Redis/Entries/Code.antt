-- ===== src/Redis/Entries/Code.antt =====
-- The bytes of the entries, and that the functions of `Entries` send them.
use double_swap.Base.{
  ℕ, ◌/◌, ◌%◌, Bool, true, false, Option, none, some, List, [], ◌∷◌, ◌++◌, Bytes, if◌then◌else◌,
  Step, ◌>>◌,
}
use double_swap.Base.Int.{ℤ, pos}
use double_swap.Redis.Format.{Format, IsFormat}
use double_swap.Redis.Rio.{Sink, Rdb, Writes, write_raw-Writes, pure-Writes, bind-Writes}
use double_swap.Redis.Host.{Host, IsHost}
use double_swap.Redis.Length.Code.{len_code, save_len-Writes}
use double_swap.Redis.Text.Code.{
  string_code, object_code, save_raw_string-Writes, save_string_object-Writes,
}
use double_swap.Redis.Scalars.{save_type}
use double_swap.Redis.Opcodes.{Opcodes}
use double_swap.Redis.Counting.{Counts, all_codes, ⊕-Counts, save_each-Counts}
use double_swap.Redis.Object.{object_type, save_object_type}
use double_swap.Redis.Object.Streams.Code.{time_code, save_time-Counts}
use double_swap.Redis.Object.Code.{value_code, save_object-CountsBut}
use double_swap.Redis.Entries.{
  Policy, Pair, has_expire, Replication, Info, field_names, optional, save_key_value_pair,
  save_aux_field, save_aux_integer, save_replication, save_info_aux_fields, save_functions,
}

-- The bytes of a group under an `if`.
abbrev pub when : Bool → Bytes → Bytes
when b p = if b then p else []

module _ (f : Format) (c : Opcodes) (e : Host) where
  unfoldable pub pair_code : Policy → Pair → Bytes
  pair_code o k =
      when (has_expire k.expiretime) (c.rdb_opcode_expiretime_ms % 256 ∷ time_code k.expiretime)
      ++ (when o.savelru (c.rdb_opcode_idle % 256 ∷ len_code f (k.idle_time / 1000))
          ++ (when o.savelfu (c.rdb_opcode_freq % 256 ∷ k.frequency % 256 ∷ [])
              ++ (object_type c k.value % 256
                  ∷ (object_code f e k.key ++ (value_code f e c k.value ++ [])))))

  abbrev pub aux_code : Bytes → Bytes → Bytes
  aux_code key val = c.rdb_opcode_aux % 256 ∷ (string_code f e key ++ string_code f e val)

  abbrev pub aux_integer_code : Bytes → ℤ → Bytes
  aux_integer_code key val = aux_code key (e.ll2string val)

  abbrev pub replication_code : Option Replication → Bytes
  replication_code none = []
  replication_code (some rsi) =
      aux_integer_code field_names.repl_stream_db rsi.repl_stream_db
      ++ (aux_code field_names.repl_id rsi.replid
          ++ aux_integer_code field_names.repl_offset rsi.master_repl_offset)

  unfoldable pub info_code : Info → Bytes
  info_code a =
      aux_code field_names.redis_ver a.redis_version
      ++ (aux_integer_code field_names.redis_bits (pos (if a.wide_pointers then 64 else 32))
          ++ (aux_integer_code field_names.ctime a.ctime
              ++ (aux_integer_code field_names.used_mem a.used_memory
                  ++ (replication_code a.rsi
                      ++ (aux_integer_code field_names.aof_base
                            (pos (if a.aof_preamble then 1 else 0))
                          ++ [])))))

  abbrev pub function_code : Bytes → Bytes
  function_code code = c.rdb_opcode_function2 % 256 ∷ string_code f e code

module _ (w : Sink) where
  pub save_type-Counts : (t : ℕ) → Counts w (save_type w t) (t % 256 ∷ [])
  unfolding save_type
  save_type-Counts t = write_raw-Writes w (t % 256 ∷ [])

  -- A write whose count is dropped, and what comes behind it.
  pub then-Writes :
      {A B : Type 0} {m : Step (Rdb w) A} {k : Step (Rdb w) B} {p q : Bytes} {a : A} {b : B}
      → Writes w m p a
      → Writes w k q b
      → Writes w (m >> k) (p ++ q) b
  then-Writes {k} x y = bind-Writes w (λ _. k) x y

module _ (f : Format) (h : IsFormat f) (c : Opcodes) (e : Host) (i : IsHost e) (w : Sink) where
  -- A group under an `if`, in front of the rest.
  optional-Writes :
      {B : Type 0} (b : Bool) {m : Step (Rdb w) ℕ} {k : Step (Rdb w) B} {p q : Bytes} {a : ℕ}
      {x : B}
      → Writes w m p a
      → Writes w k q x
      → Writes w (optional f c e w b m >> k) (when b p ++ q) x
  unfolding optional
  optional-Writes true y z = then-Writes w y z
  optional-Writes false y z = then-Writes w (pure-Writes w {A = ℕ} 0) z

  pub save_key_value_pair-Writes :
      (o : Policy) (k : Pair) → Writes w (save_key_value_pair f c e w o k) (pair_code f c e o k) 1
  unfolding save_key_value_pair pair_code save_object_type
  save_key_value_pair-Writes o k =
      optional-Writes (has_expire k.expiretime)
        (then-Writes w (save_type-Counts w _) (save_time-Counts w k.expiretime))
        (optional-Writes o.savelru
          (then-Writes w (save_type-Counts w _) (save_len-Writes f h w (k.idle_time / 1000)))
          (optional-Writes o.savelfu (then-Writes w (save_type-Counts w _) (write_raw-Writes w _)) (
            then-Writes w (save_type-Counts w _) (
              then-Writes w (save_string_object-Writes f h e i w k.key)
                (then-Writes w (save_object-CountsBut f h c e i w k.value).1 (pure-Writes w 1))))))

  save_aux_field-Counts :
      (key val : Bytes) → Counts w (save_aux_field f c e w key val) (aux_code f c e key val)
  unfolding save_aux_field
  save_aux_field-Counts key val =
      ⊕-Counts w (save_type-Counts w _)
        (⊕-Counts w (save_raw_string-Writes f h e i w key) (save_raw_string-Writes f h e i w val))

  pub save_info_aux_fields-Writes :
      (a : Info) → Writes w (save_info_aux_fields f c e w a) (info_code f c e a) 1
  unfolding save_info_aux_fields save_aux_integer save_replication info_code
  save_info_aux_fields-Writes a = then-Writes w (save_aux_field-Counts _ _) (
      then-Writes w (save_aux_field-Counts _ _) (
        then-Writes w (save_aux_field-Counts _ _) (
          then-Writes w (save_aux_field-Counts _ _) (
            then-Writes w (replication a.rsi).1
              (then-Writes w (save_aux_field-Counts _ _) (pure-Writes w 1))))))
    where
      replication :
          (r : Option Replication)
          → (n : ℕ) × Writes w (save_replication f c e w r) (replication_code f c e r) n
      replication none = (_, pure-Writes w 0)
      replication (some r) = (
        _,
        then-Writes w (save_aux_field-Counts _ _)
            (then-Writes w (save_aux_field-Counts _ _) (save_aux_field-Counts _ _)),
      )

  pub save_functions-Counts :
      (libraries : List Bytes)
      → Counts w (save_functions f c e w libraries) (all_codes (function_code f c e) libraries)
  unfolding save_functions
  save_functions-Counts libraries =
      save_each-Counts w _ (function_code f c e)
        (λ code. ⊕-Counts w (save_type-Counts w _) (save_raw_string-Writes f h e i w code))
        libraries
