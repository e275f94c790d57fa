-- ===== src/Redis/Load/File/Groups.antt =====
-- The attributes of a key, read back behind the opcodes that `rdbSaveKeyValuePair` writes.
use double_swap.Base.{
  ℕ, zero, suc, ◌-◌, ◌/◌, ◌%◌, ◌^◌, ◌<◌, ◌≤◌, ◌≡◌, refl, sym, ap, Bool, true, false, ◌⊎◌, [], ◌∷◌,
  ◌++◌, Bytes, if◌then◌else◌, Step, arith,
}
use mathlib.Core.Path.{subst}
use double_swap.Base.Int.{ℤ, pos, negsuc, ◌≤ℤ◌, signed}
use double_swap.Redis.Format.{Format, IsFormat}
use double_swap.Redis.Opcodes.{Opcodes}
use double_swap.Redis.Host.{Host}
use double_swap.Redis.Rio.{Source, Reads, pure-Reads, bind_last-Reads, last_read-Reads}
use double_swap.Redis.Length.{load_len}
use double_swap.Redis.Length.Code.{len_code}
use double_swap.Redis.Scalars.{word64, load_millisecond_time}
use double_swap.Redis.Scalars.RoundTrip.{millisecond_time-Reads}
use double_swap.Redis.Object.Streams.Code.{time_code}
use double_swap.Redis.Entries.{Policy, has_expire}
use double_swap.Redis.Entries.Code.{when}
use double_swap.Redis.Dump.{KeyEntry}
use double_swap.Redis.Load.{Outcome}
use double_swap.Redis.Load.Texts.{size-Reads}
use double_swap.Redis.Load.File.{Attributes, no_attributes, Loading, Config}
use double_swap.Redis.Load.File.Branches.{IsOpcodes, at_expiretime_ms, at_idle, at_freq}
use double_swap.Redis.Load.File.Rounds.{Advances, then-Advances, round-Advances, when-Advances}

-- The attributes that a key comes back with: what the policy does not save is -1.
unfoldable pub saved_attributes : Policy → KeyEntry → Attributes
saved_attributes p k = record {
  expiretime = k.expire;
  lru_idle = if p.savelru then pos (k.idle_time / 1000) else negsuc 0;
  lfu_freq = if p.savelfu then pos (k.frequency % 256) else negsuc 0;
}

-- A time of 64 bits.
pub record IsTime (t : ℤ) : Type 0 where
  pub low : negsuc (2 ^ 63 - 1) ≤ℤ t
  pub high : t ≤ℤ pos (2 ^ 63 - 1)

no_time : (t : ℤ) → has_expire t ≡ false → negsuc 0 ≡ t
unfolding has_expire
no_time (negsuc zero) z = refl
no_time (negsuc (suc n)) z = absurd cc
no_time (pos n) z = absurd cc

module _ (f : Format) (h : IsFormat f) (o : Opcodes) (ho : IsOpcodes o) (e : Host) (r : Source)
    {V : Type 0} (g : Config) (load_value : ℕ → Step r.Stream (Outcome V))
    (module_aux : Step r.Stream (Unit {0})) (cksum : r.Stream → ℕ) (rdbver : ℕ)
    (order : (9 ≤ rdbver) ⊎ (g.big_endian_host ≡ false)) where
  abbrev Goes : Loading V → Bytes → Loading V → Type 0
  Goes s p t = Advances f o e r g load_value module_aux cksum rdbver s p t

  abbrev with_time : Loading V → ℤ → Loading V
  with_time s t = record s { attributes = record s.attributes { expiretime = t } }

  abbrev with_idle : Loading V → ℤ → Loading V
  with_idle s t = record s { attributes = record s.attributes { lru_idle = t } }

  abbrev with_freq : Loading V → ℤ → Loading V
  with_freq s t = record s { attributes = record s.attributes { lfu_freq = t } }

  time-Advances :
      (s : Loading V) (t : ℤ)
      → IsTime t
      → Goes s (o.rdb_opcode_expiretime_ms % 256 ∷ time_code t) (with_time s t)
  time-Advances s t range =
      round-Advances f o e r g load_value module_aux cksum rdbver s _ o.rdb_opcode_expiretime_ms
        (time_code t) (omega (arith, ho.byte))
        (rw (at_expiretime_ms f o ho e r g load_value module_aux rdbver s) (
          bind_last-Reads r (load_millisecond_time r g.big_endian_host rdbver) _ (time_code t) t _
            (subst (Reads r (load_millisecond_time r g.big_endian_host rdbver) (time_code t))
              (same t range) (millisecond_time-Reads r t g.big_endian_host rdbver order))
            (pure-Reads r _)))
    where
      same : (t : ℤ) → IsTime t → signed (2 ^ 64) (word64 t) ≡ t
      same t range = ground arith

  idle-Advances :
      (s : Loading V) (n : ℕ)
      → n < 2 ^ 63
      → Goes s (o.rdb_opcode_idle % 256 ∷ len_code f n) (with_idle s (pos n))
  idle-Advances s n small =
      round-Advances f o e r g load_value module_aux cksum rdbver s _ o.rdb_opcode_idle
        (len_code f n) (omega (arith, ho.byte))
        (rw (at_idle f o ho e r g load_value module_aux rdbver s) (
          bind_last-Reads r (load_len f r) _ (len_code f n) (false, n) _ (size-Reads f h r n small)
            (rw (same n small) (pure-Reads r _))))
    where
      same : (n : ℕ) → n < 2 ^ 63 → signed (2 ^ 64) n ≡ pos n
      same n small = ground arith

  freq-Advances :
      (s : Loading V) (n : ℕ)
      → Goes s (o.rdb_opcode_freq % 256 ∷ n % 256 ∷ []) (with_freq s (pos (n % 256)))
  freq-Advances s n =
      round-Advances f o e r g load_value module_aux cksum rdbver s _ o.rdb_opcode_freq
        (n % 256 ∷ []) (omega (arith, ho.byte))
        (rw (at_freq f o ho e r g load_value module_aux rdbver s)
          (last_read-Reads r (n % 256 ∷ []) _ _ refl))

  -- From no attributes, the groups in front of a key give those that are saved.
  pub attributes-Advances :
      (p : Policy) (k : KeyEntry) (s : Loading V) (q : Bytes) (u : Loading V)
      → s.attributes ≡ no_attributes
      → IsTime k.expire
      → k.idle_time / 1000 < 2 ^ 63
      → Goes (record s { attributes = saved_attributes p k }) q u
      → Goes s
          (when (has_expire k.expire) (o.rdb_opcode_expiretime_ms % 256 ∷ time_code k.expire)
            ++ (when p.savelru (o.rdb_opcode_idle % 256 ∷ len_code f (k.idle_time / 1000))
                ++ (when p.savelfu (o.rdb_opcode_freq % 256 ∷ k.frequency % 256 ∷ []) ++ q)))
          u
  unfolding saved_attributes
  attributes-Advances p k s q u clear range small rest =
      subst (λ t. Goes t (p₁ ++ (p₂ ++ (p₃ ++ q))) u)
        (sym (ap (λ a. record s { attributes = a }) clear))
        (then-Advances f o e r g load_value module_aux cksum rdbver s₀ s₁ u p₁ (p₂ ++ (p₃ ++ q))
          (when-Advances f o e r g load_value module_aux cksum rdbver b s₀ _ _
            (time-Advances s₀ k.expire range))
          (then-Advances f o e r g load_value module_aux cksum rdbver s₁ s₂ u p₂ (p₃ ++ q)
            (when-Advances f o e r g load_value module_aux cksum rdbver p.savelru s₁ _ _
              (idle-Advances s₁ (k.idle_time / 1000) small))
            (then-Advances f o e r g load_value module_aux cksum rdbver s₂ s₃ u p₃ q
              (when-Advances f o e r g load_value module_aux cksum rdbver p.savelfu s₂ _ _
                (freq-Advances s₂ k.frequency))
              (subst (λ t. Goes t q u) (sym (same b p.savelru p.savelfu (no_time k.expire)))
                rest))))
    where
      p₁ : Bytes
      p₁ = when (has_expire k.expire) (o.rdb_opcode_expiretime_ms % 256 ∷ time_code k.expire)

      p₂ : Bytes
      p₂ = when p.savelru (o.rdb_opcode_idle % 256 ∷ len_code f (k.idle_time / 1000))

      p₃ : Bytes
      p₃ = when p.savelfu (o.rdb_opcode_freq % 256 ∷ k.frequency % 256 ∷ [])

      b : Bool
      b = has_expire k.expire

      s₀ : Loading V
      s₀ = record s { attributes = no_attributes }

      s₁ : Loading V
      s₁ = if b then with_time s₀ k.expire else s₀

      s₂ : Loading V
      s₂ = if p.savelru then with_idle s₁ (pos (k.idle_time / 1000)) else s₁

      s₃ : Loading V
      s₃ = if p.savelfu then with_freq s₂ (pos (k.frequency % 256)) else s₂

      -- The attributes with a time, or with none.
      given : ℤ → Bool → Bool → Loading V
      given t c d = record s {
        attributes = record {
          expiretime = t;
          lru_idle = if c then pos (k.idle_time / 1000) else negsuc 0;
          lfu_freq = if d then pos (k.frequency % 256) else negsuc 0;
        };
      }

      same :
          (a c d : Bool)
          → (a ≡ false → negsuc 0 ≡ k.expire)
          → (let t₁ = if a then with_time s₀ k.expire else s₀ in
              let t₂ = if c then with_idle t₁ (pos (k.idle_time / 1000)) else t₁ in
              if d then with_freq t₂ (pos (k.frequency % 256)) else t₂)
            ≡ given k.expire c d
      same true true true z = refl
      same true true false z = refl
      same true false true z = refl
      same true false false z = refl
      same false true true z = ap (λ t. given t true true) (z refl)
      same false true false z = ap (λ t. given t true false) (z refl)
      same false false true z = ap (λ t. given t false true) (z refl)
      same false false false z = ap (λ t. given t false false) (z refl)
