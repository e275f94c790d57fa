-- ===== src/Base/Bits.antt =====
-- Masks of a byte, and `|` of disjoint fields at any width, as arithmetic.
use Prim.Native.Nat.{ℕ, zero, suc, ◌+◌, ◌*◌, ◌/◌, ◌%◌, ◌^◌, ◌≤◌, ◌<◌, max, bit_and, bit_or}
use Prim.Native.Nat.{digits, bit_or-bitwise}
use mathlib.Core.Path.{◌≡◌, refl, ◌∙◌, sym, subst}
use mathlib.Core.Bool.{Bool, true, false}
use native.Mathlib.Nat.{pow-suc}
use native.Mathlib.Omega.{arith}
use double_swap.Base.Tests.{◌==◌, if◌then◌else◌}

-- Two functions give the same below a bound.
module _ (f g : ℕ → ℕ) where
  agree_below : ℕ → Bool
  agree_below zero = true
  agree_below (suc n) = let rest = agree_below n in if f n == g n then rest else false

  agreed : (bound x : ℕ) → x < bound → agree_below bound ≡ true → f x ≡ g x
  unfolding agree_below
  agreed zero x below said = absurd (omega arith)
  agreed (suc n) x below said = ground (arith, agreed n x)

pub low_six : (b : ℕ) → b < 256 → bit_and b 0x3f ≡ b % 64
unfolding agree_below
low_six b h = agreed (λ x. bit_and x 0x3f) (λ x. x % 64) 256 b h refl

pub top_two : (b : ℕ) → b < 256 → bit_and b 0xc0 / 64 ≡ b / 64
unfolding agree_below
top_two b h = agreed (λ x. bit_and x 0xc0 / 64) (λ x. x / 64) 256 b h refl

-- Two numbers without a binary digit in common.
data Apart : ℕ → ℕ → Type 0 where
  left_over : {b : ℕ} → Apart 0 b
  next : {a b : ℕ} → a % 2 + b % 2 ≤ 1 → Apart (a / 2) (b / 2) → Apart a b

-- Of such numbers `|` is the sum.
digits-Apart : (n a b : ℕ) → a ≤ n → Apart a b → digits (λ y. y) max n a b ≡ a + b
digits-Apart zero zero b small apart = omega arith
digits-Apart zero (suc a) b small apart = absurd (omega arith)
digits-Apart (suc n) zero b small apart = omega arith
digits-Apart (suc n) (suc a) b small (next one rest) =
    omega (arith, digits-Apart n (suc a / 2) (b / 2) (omega arith) rest)

bit_or-Apart : {a b : ℕ} → Apart a b → bit_or a b ≡ a + b
bit_or-Apart {a} {b} d = bit_or-bitwise a b ∙ digits-Apart a a b (omega arith) d

half_field : (k q : ℕ) → q * 2 ^ suc k / 2 ≡ q * 2 ^ k
half_field k q = let e : q * 2 ^ suc k ≡ q * 2 ^ k * 2 = grind (arith, pow-suc 2 k) in omega arith

even_field : (k q : ℕ) → q * 2 ^ suc k % 2 ≡ 0
even_field k q = let e : q * 2 ^ suc k ≡ q * 2 ^ k * 2 = grind (arith, pow-suc 2 k) in omega arith

low-Apart : (k q r : ℕ) → r < 2 ^ k → Apart r (q * 2 ^ k)
low-Apart zero q zero h = left_over
low-Apart zero q (suc r) h = absurd (omega arith)
low-Apart (suc k) q r h = next (omega (arith, even_field k q)) (
    subst (Apart (r / 2)) (sym (half_field k q))
      (low-Apart k q (r / 2) (omega (arith, pow-suc 2 k))))

nil-Apart : (n a : ℕ) → a ≤ n → Apart a 0
nil-Apart n zero h = left_over
nil-Apart zero (suc a) h = absurd (omega arith)
nil-Apart (suc n) (suc a) h = next (omega arith) (nil-Apart n (suc a / 2) (omega arith))

high-Apart : (k q r : ℕ) → r < 2 ^ k → Apart (q * 2 ^ k) r
high-Apart zero q zero h = nil-Apart (q * 1) (q * 1) (omega arith)
high-Apart zero q (suc r) h = absurd (omega arith)
high-Apart (suc k) q r h = next (omega (arith, even_field k q)) (
    subst (λ t. Apart t (r / 2)) (sym (half_field k q))
      (high-Apart k q (r / 2) (omega (arith, pow-suc 2 k))))

-- `r | (q << k)` and `(q << k) | r` are sums when `r` has `k` bits at most.
pub bit_or-shifted : (k q r : ℕ) → r < 2 ^ k → bit_or r (q * 2 ^ k) ≡ q * 2 ^ k + r
bit_or-shifted k q r h = omega (arith, bit_or-Apart (low-Apart k q r h))

pub shifted-bit_or : (k q r : ℕ) → r < 2 ^ k → bit_or (q * 2 ^ k) r ≡ q * 2 ^ k + r
shifted-bit_or k q r h = bit_or-Apart (high-Apart k q r h)
