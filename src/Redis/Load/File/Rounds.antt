-- ===== src/Redis/Load/File/Rounds.antt =====
-- The rounds of `while(1)` in `rdbLoadRioWithLoadingCtx` over bytes that are known.
use double_swap.Base.{
  ℕ, zero, suc, ◌+◌, ◌%◌, ◌<◌, ◌≤◌, sym, Bool, true, false, [], ◌∷◌, ◌++◌, append_assoc, Bytes,
  length, length-append, if◌then◌else◌, Step, arith,
}
use mathlib.Core.Path.{subst}
use double_swap.Redis.Format.{Format}
use double_swap.Redis.Opcodes.{Opcodes}
use double_swap.Redis.Host.{Host}
use double_swap.Redis.Rio.{Source, Reads, pure-Reads, bind-Reads, bind_last-Reads, last_read-Reads}
use double_swap.Redis.Scalars.{load_type}
use double_swap.Redis.Load.{Outcome}
use double_swap.Redis.Load.File.{Loading, Config, Round, again, load_entry, ended, load_loop}
use double_swap.Redis.Entries.Code.{when}
use double_swap.Redis.Load.File.Branches.{IsOpcodes, at_eof}

module _ (f : Format) (o : Opcodes) (e : Host) (r : Source) {V : Type 0} (g : Config)
    (load_value : ℕ → Step r.Stream (Outcome V)) (module_aux : Step r.Stream (Unit {0}))
    (cksum : r.Stream → ℕ) (rdbver : ℕ) where
  abbrev pub entry_at : ℕ → Loading V → Step r.Stream (Round V)
  entry_at type s = load_entry f o e r g load_value module_aux rdbver type s

  -- From `s`, with `n` rounds or more, the loop takes exactly `p` and ends in `y`.
  unfoldable pub EndsIn : ℕ → Loading V → Bytes → Loading V → Type 0
  EndsIn n s p y =
      (m : ℕ)
      → n ≤ m
      → Reads r (load_loop f o e r g load_value module_aux cksum rdbver m s) p (ended y)

  -- The loop comes from `s` over the bytes `p` to `t`, in a round for each byte at most.
  unfoldable pub Advances : Loading V → Bytes → Loading V → Type 0
  unfolding EndsIn
  Advances s p t =
      (n : ℕ) (q : Bytes) (y : Loading V) → EndsIn n t q y → EndsIn (n + length p) s (p ++ q) y

  pub stay-Advances : (s : Loading V) → Advances s [] s
  unfolding Advances EndsIn
  stay-Advances s n q y ready m le = ready m (omega arith)

  pub then-Advances :
      (s t u : Loading V) (p q : Bytes) → Advances s p t → Advances t q u → Advances s (p ++ q) u
  unfolding Advances EndsIn
  then-Advances s t u p q first second n z y ready m le =
      subst (λ b. Reads r (load_loop f o e r g load_value module_aux cksum rdbver m s) b (ended y))
        (sym (append_assoc p q z))
        (first (n + length q) (q ++ z) y (second n z y ready) m (omega (arith, length-append p q)))

  type-Reads : (c : ℕ) → c < 256 → Reads r (load_type r) (c % 256 ∷ []) c
  unfolding load_type
  type-Reads c small = last_read-Reads r (c % 256 ∷ []) _ c (omega arith)

  -- A round of the loop.
  pub round-Advances :
      (s t : Loading V) (c : ℕ) (p : Bytes)
      → c < 256
      → Reads r (entry_at c s) p (again t)
      → Advances s (c % 256 ∷ p) t
  unfolding Advances EndsIn load_loop
  round-Advances s t c p small reads n q y ready zero le = absurd (omega arith)
  round-Advances s t c p small reads n q y ready (suc m) le =
      bind-Reads r (load_type r) _ (c % 256 ∷ []) (p ++ q) c (ended y) (type-Reads c small)
        (bind-Reads r (entry_at c s) _ p q (again t) (ended y) reads (ready m (omega arith)))

  -- The last round.
  pub eof-EndsIn : (s : Loading V) → IsOpcodes o → EndsIn 1 s (o.rdb_opcode_eof % 256 ∷ []) s
  unfolding EndsIn load_loop load_entry
  eof-EndsIn s h zero le = absurd (omega arith)
  eof-EndsIn s h (suc m) le =
      bind_last-Reads r (load_type r) _ (o.rdb_opcode_eof % 256 ∷ []) o.rdb_opcode_eof (ended s)
        (type-Reads o.rdb_opcode_eof h.byte)
        (rw (at_eof f o h e r g load_value module_aux rdbver s) (pure-Reads r (ended s)))

  -- A group under an `if`.
  pub when-Advances :
      (b : Bool) (s t : Loading V) (p : Bytes)
      → Advances s p t
      → Advances s (when b p) (if b then t else s)
  when-Advances true s t p x = x
  when-Advances false s t p x = stay-Advances s
