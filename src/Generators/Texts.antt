-- ===== src/Generators/Texts.antt =====
-- redis/redis_injector.c: `generateRandomString` and `generateRandomValue`, the latter also
-- mosquitto/mosquitto_injector.c's `generate_time_based_message`, on the buffer that they fill.
use double_swap.Base.{
  ℕ, zero, suc, ◌+◌, ◌-◌, ◌%◌, ◌<◌, ◌≤◌, ◌≡◌, true, refl, ◌⊎◌, inl, inr, [], ◌∷◌, ◌++◌, Bytes, All,
  length, get_or, ltb, if◌then◌else◌, append-nil, Bool-cases, arith,
}

-- `k` letters or digits from `first` on.
unfoldable pub run_of : ℕ → ℕ → Bytes
run_of first zero = []
run_of first (suc k) = first ∷ run_of (first + 1) k

-- "abc...xyzABC...XYZ0123456789"
unfoldable pub charset : Bytes
unfolding run_of
charset = run_of 97 26 ++ (run_of 65 26 ++ run_of 48 10)

-- The loop, with the results of `rand()` from the n-th on.
unfoldable pub random_chars : (ℕ → ℕ) → ℕ → ℕ → Bytes
random_chars rand n zero = []
random_chars rand n (suc k) = get_or charset (rand n % 62) 0 ∷ random_chars rand (n + 1) k

-- `generateRandomString` fills a buffer of `size` characters; one of none is left alone.
unfoldable pub generate_random_string : (ℕ → ℕ) → ℕ → Bytes
unfolding random_chars
generate_random_string rand zero = []
generate_random_string rand (suc size) = random_chars rand 0 size ++ 0 ∷ []

unfoldable pub replicate : ℕ → ℕ → Bytes
replicate zero c = []
replicate (suc k) c = c ∷ replicate k c

-- `generateRandomValue`
unfoldable pub generate_random_value : ℕ → Bytes
unfolding replicate
generate_random_value zero = []
generate_random_value (suc size) = replicate size 75 ++ 0 ∷ []

-- A letter or a digit.
abbrev pub IsAlphanumeric : ℕ → Type 0
IsAlphanumeric c =
    ((97 ≤ c) × (c < 97 + 26)) ⊎ (((65 ≤ c) × (c < 65 + 26)) ⊎ ((48 ≤ c) × (c < 48 + 10)))

get_or-run_of :
    (first k i d : ℕ) (rest : Bytes)
    → get_or (run_of first k ++ rest) i d ≡ (if ltb i k then first + i else get_or rest (i - k) d)
unfolding run_of
get_or-run_of first zero i d rest = ground arith
get_or-run_of first (suc k) zero d rest = ground arith
get_or-run_of first (suc k) (suc i) d rest = ground (arith, get_or-run_of (first + 1) k i d rest)

charset-IsAlphanumeric : (i : ℕ) → i < 62 → IsAlphanumeric (get_or charset i 0)
unfolding charset
charset-IsAlphanumeric i h =
    rw
      (
        get_or-run_of 97 26 i 0 (run_of 65 26 ++ run_of 48 10),
        get_or-run_of 65 26 (i - 26) 0 (run_of 48 10),
        ← append-nil (run_of 48 10),
        get_or-run_of 48 10 (i - 26 - 26) 0 [],
      )
      (elim (Bool-cases (ltb i 26)) [
        | inl low ↦ rw low (inl (omega arith, ground arith))
        | inr high ↦ rw high (elim (Bool-cases (ltb (i - 26) 26)) [
          | inl upper ↦ rw upper (inr (inl (omega arith, ground arith)))
          | inr digit ↦
              let z : ltb (i - 26 - 26) 10 ≡ true = ground arith in
              rw (digit, z) (inr (inr (omega arith, ground arith)))
        ])
      ])

random_chars_lem :
    (rand : ℕ → ℕ) (n k : ℕ)
    → All IsAlphanumeric (random_chars rand n k) × (length (random_chars rand n k) ≡ k)
unfolding random_chars
random_chars_lem rand n zero = (tt, omega arith)
random_chars_lem rand n (suc k) =
    let (chars, size) = random_chars_lem rand (n + 1) k in
    ((charset-IsAlphanumeric (rand n % 62) (omega arith), chars), omega arith)

replicate_lem : (k c : ℕ) → All (λ x. x ≡ c) (replicate k c) × (length (replicate k c) ≡ k)
unfolding replicate
replicate_lem zero c = (tt, omega arith)
replicate_lem (suc k) c = let (same, size) = replicate_lem k c in ((refl, same), omega arith)

-- Whatever `rand` returns, a buffer of one character or more is filled to its size with letters
-- and digits and one 0 at the end, and a buffer of a value with the letter K and one 0.
pub filled_lem :
    (rand : ℕ → ℕ) (size : ℕ)
    → 0 < size
    → ((text : Bytes) × (generate_random_string rand size ≡ text ++ 0 ∷ [])
        × All IsAlphanumeric text
        × (length text + 1 ≡ size))
      × ((text : Bytes) × (generate_random_value size ≡ text ++ 0 ∷ [])
          × All (λ c. c ≡ 75) text
          × (length text + 1 ≡ size))
unfolding generate_random_string generate_random_value
filled_lem rand zero h = absurd (omega arith)
filled_lem rand (suc size) h =
    let (chars, full) = random_chars_lem rand 0 size in
    let (same, full') = replicate_lem size 75 in
    (
      (random_chars rand 0 size, refl, chars, omega arith),
      (replicate size 75, refl, same, omega arith),
    )
