-- ===== src/Redis/Endian.antt =====
-- The byte orders in which numbers reach the stream: `htonl` and `htonu64` store the high byte
-- first, and the `memrev..ifbe` family and the shifts of the integer encodings the low byte first.
use mathlib.Core.List.{foldl}
use native.Mathlib.Nat.{pow-suc}
use double_swap.Base.{
  ℕ, zero, suc, ◌+◌, ◌*◌, ◌/◌, ◌%◌, ◌^◌, ◌<◌, ◌≡◌, refl, ap, ◌∙◌, [], ◌∷◌, ◌++◌, Bytes, length,
  length-append, arith,
}

-- The image of `n` in `k` bytes.
unfoldable pub big_endian : ℕ → ℕ → Bytes
big_endian zero n = []
big_endian (suc k) n = big_endian k (n / 256) ++ n % 256 ∷ []

unfoldable pub little_endian : ℕ → ℕ → Bytes
little_endian zero n = []
little_endian (suc k) n = n % 256 ∷ little_endian k (n / 256)

-- `ntohl` and `ntohu64` of an image.
abbrev pub from_big_onto : ℕ → Bytes → ℕ
from_big_onto = foldl (λ n b. n * 256 + b)

unfoldable pub from_big : Bytes → ℕ
from_big p = from_big_onto 0 p

unfoldable pub from_little : Bytes → ℕ
from_little [] = 0
from_little (b ∷ p) = b + 256 * from_little p

pub length-big_endian : (k n : ℕ) → length (big_endian k n) ≡ k
unfolding big_endian
length-big_endian zero n = refl
length-big_endian (suc k) n =
    length-append (big_endian k (n / 256)) _ ∙ omega (arith, length-big_endian k (n / 256))

pub length-little_endian : (k n : ℕ) → length (little_endian k n) ≡ k
unfolding little_endian
length-little_endian zero n = refl
length-little_endian (suc k) n = ap suc (length-little_endian k (n / 256))

from_big_onto-snoc :
    (m b : ℕ) (p : Bytes) → from_big_onto m (p ++ b ∷ []) ≡ from_big_onto m p * 256 + b
from_big_onto-snoc m b [] = refl
from_big_onto-snoc m b (c ∷ p) = from_big_onto-snoc (m * 256 + c) b p

pub from_big-big_endian : (k n : ℕ) → n < 256 ^ k → from_big (big_endian k n) ≡ n
unfolding from_big big_endian
from_big-big_endian zero n h = omega arith
from_big-big_endian (suc k) n h =
    from_big_onto-snoc 0 (n % 256) (big_endian k (n / 256))
    ∙ omega (arith, from_big-big_endian k (n / 256) (omega (arith, pow-suc 256 k)))

pub from_little-little_endian : (k n : ℕ) → n < 256 ^ k → from_little (little_endian k n) ≡ n
unfolding from_little little_endian
from_little-little_endian zero n h = omega arith
from_little-little_endian (suc k) n h =
    omega (arith, from_little-little_endian k (n / 256) (omega (arith, pow-suc 256 k)))
