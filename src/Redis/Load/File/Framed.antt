-- ===== src/Redis/Load/File/Framed.antt =====
-- The frame of a file in `rdbLoadRioWithLoadingCtx`: the magic in front and the checksum behind.
use double_swap.Base.{
  ℕ, ◌^◌, ◌<◌, ◌≤◌, ◌≡◌, refl, sym, ◌∙◌, Bool, true, false, not, ◌||◌, ◌⊎◌, inl, inr, some, [], ◌∷◌,
  ◌++◌, Bytes, take, leb, ◌==◌, Step, >>=-some, arith,
}
use mathlib.Core.Path.{subst}
use double_swap.Base.Int.{pos, leb_ℤ}
use double_swap.Redis.Format.{Format}
use double_swap.Redis.Opcodes.{Opcodes}
use double_swap.Redis.Host.{Host}
use double_swap.Redis.Rio.{Source, Reads, read-Reads}
use double_swap.Redis.Endian.{
  little_endian, from_little, length-little_endian, from_little-little_endian,
}
use double_swap.Redis.Dump.File.{magic}
use double_swap.Redis.Load.{Outcome, bytes_eq}
use double_swap.Redis.Load.File.{Loading, Config, ended, load_loop, check_cksum, load_rio, drop_5}
use double_swap.Redis.Load.File.Rounds.{EndsIn}

magic-Reads : (r : Source) (n : ℕ) → Reads r (r.read 9) (magic n) (magic n)
unfolding magic
magic-Reads r n = read-Reads r (magic n)

magic_starts : (n : ℕ) → bytes_eq (take 5 (magic n)) (82 ∷ 69 ∷ 68 ∷ 73 ∷ 83 ∷ []) ≡ true
unfolding magic bytes_eq
magic_starts n = refl

test_passes :
    (b : Bool) (n s : ℕ) → (b ≡ false) ⊎ (n ≡ 0) ⊎ (n ≡ s) → (not b || n == 0 || n == s) ≡ true
test_passes b n s (inl off) = rw off refl
test_passes b n s (inr (inl z)) = ground arith
test_passes b n s (inr (inr same)) = ground arith

module _ (f : Format) (o : Opcodes) (e : Host) (r : Source) {V : Type 0} (g : Config)
    (load_value : ℕ → Step r.Stream (Outcome V)) (module_aux : Step r.Stream (Unit {0}))
    (cksum : r.Stream → ℕ) where
  -- The check of the sum is off, the file has none, or the sum of `rio.c` at the end of this file
  -- is the one written.
  unfoldable pub IsAgreed : ℕ → Bytes → Type 0
  IsAgreed ck rest =
      (g.check_cksum ≡ false)
      ⊎ (ck ≡ 0)
      ⊎ ((u : r.Stream) → r.pending u ≡ little_endian 8 ck ++ rest → cksum u ≡ ck)

  cksum_passes :
      (n ck : ℕ) (rest : Bytes) (st : r.Stream)
      → 5 ≤ n
      → ck < 2 ^ 64
      → IsAgreed ck rest
      → r.pending st ≡ little_endian 8 ck ++ rest
      → (u : r.Stream) × (check_cksum f o e r g load_value module_aux cksum n st ≡ some (tt, u))
        × (r.pending u ≡ rest)
  unfolding check_cksum IsAgreed
  cksum_passes n ck rest st new small agreed left =
      let (u, run, left') = read_sum rest st left in
      (
        u,
        rw (tested n new)
            (>>=-some (r.read 8) _ run ∙ rw (test_passes g.check_cksum _ _ sums) refl),
        left',
      )
    where
      read_sum : Reads r (r.read 8) (little_endian 8 ck) (little_endian 8 ck)
      read_sum =
          subst (λ j. Reads r (r.read j) (little_endian 8 ck) (little_endian 8 ck))
            (length-little_endian 8 ck) (read-Reads r (little_endian 8 ck))

      back : from_little (little_endian 8 ck) ≡ ck
      back = from_little-little_endian 8 ck small

      tested : (n : ℕ) → 5 ≤ n → leb 5 n ≡ true
      tested n new = ground arith

      sums :
          (g.check_cksum ≡ false)
          ⊎ (from_little (little_endian 8 ck) ≡ 0)
          ⊎ (from_little (little_endian 8 ck) ≡ cksum st)
      sums = elim agreed [
        | inl off ↦ inl off
        | inr (inl none) ↦ inr (inl (back ∙ none))
        | inr (inr same) ↦ inr (inr (back ∙ sym (same st left)))
      ]

  -- The magic in front and the sum behind, around a loop that takes the rest.
  pub load_rio-framed :
      (version ck fuel : ℕ) (body rest : Bytes) (s t : Loading V) (st : r.Stream)
      → g.atoi (drop_5 (magic version)) ≡ pos version
      → 5 ≤ version
      → version ≤ g.rdb_version
      → ck < 2 ^ 64
      → IsAgreed ck rest
      → EndsIn f o e r g load_value module_aux cksum version fuel s body t
      → r.pending st ≡ magic version ++ (body ++ (little_endian 8 ck ++ rest))
      → (u : r.Stream) × (load_rio f o e r g load_value module_aux cksum fuel s st
          ≡ some (ended t, u))
        × (r.pending u ≡ rest)
  unfolding load_rio EndsIn
  load_rio-framed version ck fuel body rest s t st digits new known small agreed ends pending =
      let (st₁, run₁, left₁) =
        magic-Reads r version (body ++ (little_endian 8 ck ++ rest)) st pending in
      let (st₂, run₂, left₂) = ends fuel (omega arith) (little_endian 8 ck ++ rest) st₁ left₁ in
      let (u, run₃, left₃) = cksum_passes version ck rest st₂ new small agreed left₂ in
      (
        u,
        >>=-some (r.read 9) _ run₁
            ∙ rw (magic_starts version, digits, old version new, young version g.rdb_version known)
                (>>=-some (load_loop f o e r g load_value module_aux cksum version fuel s) _ run₂
                  ∙ >>=-some (check_cksum f o e r g load_value module_aux cksum version) _ run₃),
        left₃,
      )
    where
      old : (n : ℕ) → 5 ≤ n → leb_ℤ (pos 1) (pos n) ≡ true
      old n new = ground arith

      young : (n k : ℕ) → n ≤ k → leb_ℤ (pos n) (pos k) ≡ true
      young n k known = ground arith
