-- ===== src/Generators/Ranges.antt =====
-- redis/redis_injector.c and mosquitto/mosquitto_injector.c: the share of each thread of a number
-- of keys or messages, by its first index and the index behind its last.
use double_swap.Base.{
  ℕ, zero, suc, ◌+◌, ◌-◌, ◌*◌, ◌/◌, ◌<◌, ◌≤◌, ◌≡◌, ap, true, false, List, [], ◌∷◌, ◌++◌, ◌==◌,
  ==_ne, if◌then◌else◌, length, arith,
}
use mathlib.Core.Path.{subst, sym}
use native.Mathlib.Nat.{div-mul-le_self}

unfoldable pub thread_range : ℕ → ℕ → ℕ → ℕ × ℕ
thread_range threads n id =
    let share = n / threads in
    let start = id * share in (start, if id == threads - 1 then n else start + share)

-- `k` indices from `i` on.
unfoldable pub interval : ℕ → ℕ → List ℕ
interval i zero = []
interval i (suc k) = i ∷ interval (i + 1) k

-- The indices of one thread, and those of the first `k` threads in their order.
abbrev pub thread_indices : ℕ → ℕ → ℕ → List ℕ
thread_indices threads n id =
    interval (thread_range threads n id).0
      ((thread_range threads n id).1 - (thread_range threads n id).0)

unfoldable pub all_indices : ℕ → ℕ → ℕ → List ℕ
all_indices threads n zero = []
all_indices threads n (suc k) = all_indices threads n k ++ thread_indices threads n k

pub interval-append : (i a b : ℕ) → interval i a ++ interval (i + a) b ≡ interval i (a + b)
unfolding interval
interval-append i zero b =
    let e : i + 0 ≡ i = omega arith in let z : 0 + b ≡ b = omega arith in rw (e, z)
interval-append i (suc a) b =
    let e : i + suc a ≡ i + 1 + a = omega arith in
    let z : suc a + b ≡ suc (a + b) = omega arith in
    rw (e, z) (ap (λ l. i ∷ l) (interval-append (i + 1) a b))

-- The same, of two intervals of which one starts where the other ends.
pub interval_join : (a b c n : ℕ) → c ≡ a → n ≡ a + b → interval 0 a ++ interval c b ≡ interval 0 n
interval_join a b c n e total =
    let start : c ≡ 0 + a = omega arith in rw (start, total) (interval-append 0 a b)

pub length-interval : (i k : ℕ) → length (interval i k) ≡ k
unfolding interval
length-interval i zero = omega arith
length-interval i (suc k) = omega (arith, length-interval (i + 1) k)

module _ (threads n : ℕ) (some_thread : 0 < threads) where
  below : (k : ℕ) → k < threads → all_indices threads n k ≡ interval 0 (k * (n / threads))
  unfolding all_indices interval thread_range
  below zero h = let e : 0 * (n / threads) ≡ 0 = omega arith in rw e
  below (suc k) h =
      let other : (k == threads - 1) ≡ false = ==_ne (λ (p : k ≡ threads - 1). omega arith) in
      let size : k * (n / threads) + n / threads - k * (n / threads) ≡ n / threads = omega arith in
      rw (below k (omega arith), other, size)
        (interval_join (k * (n / threads)) (n / threads) _ _ (omega arith) (omega arith))

  last_thread : (t : ℕ) → threads ≡ suc t → all_indices threads n (suc t) ≡ interval 0 n
  unfolding all_indices thread_range
  last_thread t e =
      let mine : (t == threads - 1) ≡ true = ground arith in
      let fits : t * (n / threads) ≤ n = grind (arith, div-mul-le_self n threads) in
      rw (below t (omega arith), mine)
        (interval_join (t * (n / threads)) (n - t * (n / threads)) _ _ (omega arith) (omega arith))

  -- With one thread or more, the threads' shares, one behind the other, are the indices from 0
  -- to `n` in their order: each belongs to one thread, and the last thread takes the remainder.
  pub all_indices_lem : all_indices threads n threads ≡ interval 0 n
  all_indices_lem =
      let e : threads ≡ suc (threads - 1) = omega arith in
      subst (λ k. all_indices threads n k ≡ interval 0 n) (sym e) (last_thread (threads - 1) e)
