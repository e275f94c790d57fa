-- ===== src/Redis/Load/Sorted/Elements.antt =====
-- The loop that loads a sorted set takes every element with its score.
use mathlib.Core.Path.{subst}
use double_swap.Base.{
  ℕ, suc, ◌+◌, ◌^◌, ◌<◌, ◌≡◌, refl, ◌∙◌, sym, true, false, not, ◌||◌, some, List, [], ◌∷◌, ◌++◌,
  map, append_assoc, append-nil, Bytes, ltb, ◌==◌, ==_ne, length, arith,
}
use double_swap.Redis.Format.{Format, IsFormat}
use double_swap.Redis.Host.{Host, IsHost}
use double_swap.Redis.Endian.{little_endian}
use double_swap.Redis.Rio.{Source, Reads, pure-Reads, bind-Reads, bind_last-Reads}
use double_swap.Redis.Counting.{all_codes}
use double_swap.Redis.Length.{load_len}
use double_swap.Redis.Length.Code.{len_code}
use double_swap.Redis.Scalars.{load_binary_double}
use double_swap.Redis.Scalars.RoundTrip.{binary_double-Reads}
use double_swap.Redis.Text.Code.{string_code}
use double_swap.Redis.Object.Code.{scored_code}
use double_swap.Redis.Load.{load_sds, Structures, loaded, holds_key, longest, load_text}
use double_swap.Redis.Load.Texts.{or_true, Fits, size-Reads, text-Reads}
use double_swap.Redis.Load.Sorted.{
  LoadingZset, empty_zset, SortedSet, name_of, add_scored, finish_zset, load_elements, load_zset,
}

-- Each element is new behind `zs`, fits, and has a score that is a number.
pub AreScored : Host → Structures → List (Bytes × ℕ) → List (Bytes × ℕ) → Type 0
AreScored e c zs [] = Unit {0}
AreScored e c zs ((ele, score) ∷ xs) =
    Fits e ele
    × (score < 2 ^ 64)
    × (c.is_nan score ≡ false)
    × (holds_key (map name_of zs) ele ≡ false)
    × AreScored e c (zs ++ (ele, score) ∷ []) xs

module _ (f : Format) (h : IsFormat f) (e : Host) (i : IsHost e) (c : Structures) (r : Source) where
  elements-Reads :
      (xs : List (Bytes × ℕ)) (z : LoadingZset)
      → AreScored e c z.elements xs
      → (y : LoadingZset) × Reads r
          (load_elements f e c r (length xs) z)
          (all_codes (scored_code f e) xs)
          y
        × (y.elements ≡ z.elements ++ xs)
  unfolding load_elements all_codes AreScored add_scored
  elements-Reads [] z h = (z, pure-Reads r z, sym (append-nil _))
  elements-Reads ((ele, score) ∷ xs) z (fit, small, number, fresh, rest) =
      let y : LoadingZset = record {
        elements = z.elements ++ (ele, score) ∷ [];
        maxelelen = (longest z.maxelelen ele);
        totelelen = z.totelelen + length ele;
      } in
      let (u, reads, all) = elements-Reads xs y rest in
      let step : add_scored c ele score z ≡ some y = rw (add_scored, number, fresh) refl in
      let name = string_code f e ele in
      (
        u,
        subst (λ q. Reads r (load_elements f e c r (suc (length xs)) z) q u)
            (sym (append_assoc name (little_endian 8 score) (all_codes (scored_code f e) xs)))
            (bind-Reads r (load_text f e r load_sds) _ name _ ele u
              (text-Reads f h r e i load_sds ele fit)
              (bind-Reads r (load_binary_double r) _ (little_endian 8 score) _ score u
                (binary_double-Reads r score small) (rw step reads))),
        all ∙ append_assoc z.elements ((ele, score) ∷ []) xs,
      )

  -- A sorted set that was saved as a skiplist.
  pub zset-Reads :
      (xs : List (Bytes × ℕ))
      → 0 < length xs
      → length xs < 2 ^ 63
      → c.dict_expands (length xs) ≡ true
      → AreScored e c [] xs
      → (z : SortedSet) × Reads r
          (load_zset f e c r)
          (len_code f (length xs) ++ all_codes (scored_code f e) xs)
          (loaded z)
        × (z.elements ≡ xs)
  unfolding load_zset finish_zset
  zset-Reads xs some_element small room scored =
      let n = length xs in
      let (z, reads, all) = elements-Reads xs empty_zset scored in
      let nonzero : (n == 0) ≡ false = ==_ne (λ p. omega arith) in
      let expanded : (not (ltb c.dict_ht_initial_size n) || c.dict_expands n) ≡ true =
        rw room (or_true _) in
      (
        finish_zset c z,
        bind-Reads r (load_len f r) _ (len_code f n) (all_codes (scored_code f e) xs) (false, n)
            (loaded (finish_zset c z)) (size-Reads f h r n small)
            (rw (nonzero, expanded)
              (bind_last-Reads r (load_elements f e c r n empty_zset) _
                (all_codes (scored_code f e) xs) z (loaded (finish_zset c z)) reads
                (pure-Reads r _))),
        all,
      )
