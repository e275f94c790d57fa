-- ===== src/Trace/Progress/Tenths.antt =====
-- Which percentages a dump of `n` keys reports.
use Prim.Native.Nat.{min}
use double_swap.Base.{
  ℕ, zero, suc, ◌+◌, ◌*◌, ◌/◌, ◌^◌, ◌<◌, ◌≤◌, ◌≡◌, refl, ap, List, [], ◌∷◌, ◌++◌, arith,
}
use mathlib.Core.Path.{subst}
use native.Mathlib.Decide.{dec_lt}
use native.Mathlib.Numerals.{add-one}
use double_swap.Trace.Progress.{Progress, start_progress, count_key, after_keys}

-- 10, 20, ..., 10 * c.
unfoldable pub tens : ℕ → List ℕ
tens zero = []
tens (suc c) = tens c ++ (10 * c + 10) ∷ []

unfoldable pub percentages : List (ℕ × ℕ) → List ℕ
percentages [] = []
percentages ((now, p) ∷ rs) = p ∷ percentages rs

pub percentages-snoc :
    (rs : List (ℕ × ℕ)) (now p : ℕ) → percentages (rs ++ (now, p) ∷ []) ≡ percentages rs ++ p ∷ []
unfolding percentages
percentages-snoc [] now p = refl
percentages-snoc ((m, q) ∷ rs) now p = ap (λ l. q ∷ l) (percentages-snoc rs now p)

-- `c` reports were made, and the next one waits for the next tenth.
record HasReported (n k c : ℕ) (p : Progress) : Type 0 where
  counted : p.keys_processed ≡ k
  next : p.current_percentage ≡ 10 * c + 10
  waits : p.keys_to_process ≡ n * (c + 1) / 10
  said : percentages p.reports ≡ tens c

tenth : (n c : ℕ) → n * (10 * c + 10 + 10) / 100 ≡ n * (c + 1 + 1) / 10
tenth n c = omega arith

-- A key below the mark is only counted, and one at the mark is reported.
count_quiet :
    (n now k c : ℕ) (p : Progress)
    → k + 1 < 2 ^ 64
    → k + 1 < n * (c + 1) / 10
    → HasReported n k c p
    → HasReported n (k + 1) c (count_key n now p)
unfolding count_key
count_quiet n now k c p fits below h = ground arith

count_loud :
    (n now k c : ℕ) (p : Progress)
    → k + 1 < 2 ^ 64
    → n * (10 * c + 20) < 2 ^ 64
    → n * (c + 1) / 10 ≤ k + 1
    → HasReported n k c p
    → HasReported n (k + 1) (suc c) (count_key n now p)
unfolding count_key tens
count_loud n now k c p fits room reached h =
    ground (arith, percentages-snoc p.reports now p.current_percentage)

module _ (n : ℕ) (room : n * 120 < 2 ^ 64) (clock : ℕ → ℕ) where
  -- With ten keys or more, `c` is the number of tenths that `k` keys have passed.
  record Passed (k : ℕ) : Type 0 where
    c : ℕ
    most : c ≤ 10
    above : n * c / 10 ≤ k
    below : k < n * (c + 1) / 10
    state : HasReported n k c (after_keys n clock k)

  Passed-suc : (k : ℕ) → 10 ≤ n → k + 1 ≤ n → Passed k → Passed (suc k)
  unfolding after_keys
  Passed-suc k many last r = elim (dec_lt (k + 1) (n * (r.c + 1) / 10)) [
    | yes quiet ↦ record {
      c = r.c;
      most = r.most;
      above = omega (arith, r.above);
      below = omega arith;
      state =
          subst (λ j. HasReported n j r.c (after_keys n clock (suc k))) (add-one k)
            (count_quiet n _ k r.c _ (omega arith) quiet r.state);
    }
    | no loud ↦ record {
      c = suc r.c;
      most = tenth_left loud;
      above = omega arith;
      below = omega (arith, r.below);
      state =
          subst (λ j. HasReported n j (suc r.c) (after_keys n clock (suc k))) (add-one k)
            (count_loud n _ k r.c _ (omega arith) (grind (arith, r.most)) (omega arith) r.state);
    }
  ]
    where
      tenth_left : ¬ (k + 1 < n * (r.c + 1) / 10) → suc r.c ≤ 10
      tenth_left loud = elim (dec_lt r.c 10) [
        | yes fewer ↦ fewer
        | no ten ↦
            let e : r.c ≡ 10 = omega (arith, r.most) in
            absurd (omega (arith, ap (λ (t : ℕ). n * t) e))
      ]

  Passed-all : (k : ℕ) → 10 ≤ n → k ≤ n → Passed k
  unfolding after_keys start_progress
  Passed-all zero many h = record {
    c = 0;
    most = omega arith;
    above = omega arith;
    below = omega arith;
    state = record {
      counted = refl;
      next = refl;
      waits = omega arith;
      said = unfold percentages tens in refl;
    };
  }
  Passed-all (suc k) many h = Passed-suc k many (omega arith) (Passed-all k many (omega arith))

  -- At the last key all ten tenths have passed.
  ten-Passed : 10 ≤ n → (r : Passed n) → r.c ≡ 10
  ten-Passed many r = elim (dec_lt r.c 10) [
    | yes fewer ↦ let m : n * (r.c + 1) ≤ n * 10 = grind arith in absurd (omega (arith, r.below))
    | no ten ↦ omega (arith, r.most)
  ]

  -- With fewer than ten keys the mark is never ahead.
  each_reported : (k : ℕ) → n < 10 → k ≤ n → HasReported n k k (after_keys n clock k)
  unfolding after_keys start_progress
  each_reported zero few h = record {
    counted = refl;
    next = refl;
    waits = omega arith;
    said = unfold percentages tens in refl;
  }
  each_reported (suc k) few h =
      subst (λ j. HasReported n j (suc k) (after_keys n clock (suc k))) (add-one k)
        (count_loud n _ k k _ (omega arith) space mark (each_reported k few (omega arith)))
    where
      space : n * (10 * k + 20) < 2 ^ 64
      space =
          let q : 10 * k + 20 ≤ 120 = omega arith in
          let m : n * (10 * k + 20) ≤ n * 120 = grind arith in omega arith

      mark : n * (k + 1) / 10 ≤ k + 1
      mark = let m : n * (k + 1) ≤ 10 * (k + 1) = grind arith in omega arith

  -- The percentage to report next is 110 at most.
  pub percentage_low : (k : ℕ) → k ≤ n → (after_keys n clock k).current_percentage ≤ 110
  percentage_low k h = elim (dec_lt n 10) [
    | yes few ↦ omega (arith, (each_reported k few h).next)
    | no many ↦ let r = Passed-all k (omega arith) h in omega (arith, r.most, r.state.next)
  ]

  -- Where 120 times `n` is below 2 ^ 64, a dump of `n` keys, at any times, reports ten
  -- percentages, 10 to 100, if it has ten keys or more, and one for each key, up to `10 * n`, if it
  -- has fewer.
  pub reports_lem : percentages (after_keys n clock n).reports ≡ tens (min n 10)
  reports_lem = elim (dec_lt n 10) [
    | yes few ↦ let e : min n 10 ≡ n = omega arith in rw e (each_reported n few (omega arith)).said
    | no many ↦
        let r = Passed-all n (omega arith) (omega arith) in
        let e : min n 10 ≡ 10 = omega arith in
        rw e (
          subst (λ c. percentages (after_keys n clock n).reports ≡ tens c)
            (ten-Passed (omega arith) r) r.state.said)
  ]
