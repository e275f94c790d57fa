-- ===== src/Generators/Touch/Cover.antt =====
-- The writes stay within the buffer and leave no page's length of it without one.
use native.Mathlib.Decide.{dec_lt}
use native.Mathlib.Nat.{div-add-mod', mod-lt, div-mul-le_self}
use mathlib.Core.Path.{subst}
use double_swap.Base.{
  ℕ, zero, suc, ◌+◌, ◌-◌, ◌*◌, ◌/◌, ◌%◌, ◌^◌, ◌<◌, ◌≤◌, ◌≡◌, refl, ◌⊎◌, inl, inr, Bool, true, false,
  Bool-cases, some, List, [], ◌∷◌, ◌++◌, ltb, ◌==◌, ==_ne, arith,
}
use double_swap.Generators.Touch.{
  touch_loop, touch, fill_memory, chunk, touch_chunks, fill_memory_threaded,
}

-- Some offset of the list lies at `b` or less than a page below it.
abbrev pub IsNear : ℕ → ℕ → List ℕ → Type 0
IsNear page_size b [] = ⊥
IsNear page_size b (t ∷ ts) = ((t ≤ b) × (b < t + page_size)) ⊎ IsNear page_size b ts

-- All offsets lie below a bound.
abbrev pub AllBelow : ℕ → List ℕ → Type 0
AllBelow bound [] = Unit {0}
AllBelow bound (t ∷ ts) = (t < bound) × AllBelow bound ts

IsNear-append_left : (p b : ℕ) (xs ys : List ℕ) → IsNear p b xs → IsNear p b (xs ++ ys)
IsNear-append_left p b [] ys h = absurd h
IsNear-append_left p b (x ∷ xs) ys (inl h) = inl h
IsNear-append_left p b (x ∷ xs) ys (inr h) = inr (IsNear-append_left p b xs ys h)

IsNear-append_right : (p b : ℕ) (xs ys : List ℕ) → IsNear p b ys → IsNear p b (xs ++ ys)
IsNear-append_right p b [] ys h = h
IsNear-append_right p b (x ∷ xs) ys h = inr (IsNear-append_right p b xs ys h)

AllBelow-append :
    (bound : ℕ) (xs ys : List ℕ) → AllBelow bound xs → AllBelow bound ys → AllBelow bound (xs ++ ys)
AllBelow-append bound [] ys h k = k
AllBelow-append bound (x ∷ xs) ys (h, hs) k = (h, AllBelow-append bound xs ys hs k)

AllBelow-le : (a b : ℕ) (xs : List ℕ) → a ≤ b → AllBelow a xs → AllBelow b xs
AllBelow-le a b [] h k = tt
AllBelow-le a b (x ∷ xs) h (k, ks) = (omega arith, AllBelow-le a b xs h ks)

module _ (page_size : ℕ) (pos : 0 < page_size) where
  touch_loop-IsNear :
      (fuel start i size b : ℕ)
      → size + page_size < 2 ^ 64
      → size < i + fuel * page_size
      → i ≤ b
      → b < size
      → IsNear page_size (start + b) (touch_loop fuel page_size start i size)
  unfolding touch_loop
  touch_loop-IsNear zero start i size b fits enough lo hi = absurd (omega arith)
  touch_loop-IsNear (suc fuel) start i size b fits enough lo hi =
      let more : ltb i size ≡ true = ground arith in
      let next : (i + page_size) % 2 ^ 64 ≡ i + page_size = omega arith in
      rw (more, next)
        (elim (dec_lt b (i + page_size)) [
          | yes here ↦ inl (omega arith, omega arith)
          | no later ↦ inr (
              touch_loop-IsNear fuel start (i + page_size) size b fits (omega arith) (omega arith)
                hi)
        ])

  below_loop :
      (fuel start i size : ℕ)
      → size + page_size < 2 ^ 64
      → AllBelow (start + size) (touch_loop fuel page_size start i size)
  unfolding touch_loop
  below_loop zero start i size fits = tt
  below_loop (suc fuel) start i size fits = elim (Bool-cases (ltb i size)) [
    | inl more ↦ rw more (ground arith, below_loop fuel start ((i + page_size) % 2 ^ 64) size fits)
    | inr over ↦ rw over tt
  ]

  enough_rounds : (size : ℕ) → size < 0 + (size / page_size + 2) * page_size
  enough_rounds size = omega (arith, div-add-mod' size page_size, mod-lt size pos)

  touch-IsNear :
      (start size b : ℕ)
      → size + page_size < 2 ^ 64
      → b < size
      → IsNear page_size (start + b) (touch page_size start size)
  unfolding touch
  touch-IsNear start size b fits h =
      touch_loop-IsNear (size / page_size + 2) start 0 size b fits (enough_rounds size)
        (omega arith) h

  touch_below :
      (start size : ℕ)
      → size + page_size < 2 ^ 64
      → AllBelow (start + size) (touch page_size start size)
  unfolding touch
  touch_below start size fits = below_loop (size / page_size + 2) start 0 size fits

  module _ (threads size : ℕ) (some_thread : 0 < threads) (fits : size + page_size < 2 ^ 64) where
    share_fits : (k : ℕ) → k < threads → suc k * (size / threads) ≤ size
    share_fits k h =
        let m : suc k * (size / threads) ≤ threads * (size / threads) = grind arith in
        grind (arith, div-mul-le_self size threads)

    chunk-IsNear :
        (k b : ℕ)
        → k < threads
        → k * (size / threads) ≤ b
        → b < k * (size / threads) + (chunk threads size k).1
        → IsNear page_size b (touch page_size (chunk threads size k).0 (chunk threads size k).1)
    unfolding chunk
    chunk-IsNear k b h lo hi =
        let e : k * (size / threads) + (b - k * (size / threads)) ≡ b = omega arith in
        let small : (chunk threads size k).1 ≤ size = ground (arith, share_fits k h) in
        subst
          (λ c.
            IsNear page_size c (touch page_size (chunk threads size k).0 (chunk threads size k).1))
          e
          (touch-IsNear (k * (size / threads)) (chunk threads size k).1 (b - k * (size / threads))
            (omega arith) (omega arith))

    touch_chunks-IsNear :
        (k b : ℕ)
        → k < threads
        → b < k * (size / threads)
        → IsNear page_size b (touch_chunks page_size threads size k)
    unfolding touch_chunks chunk
    touch_chunks-IsNear zero b h hi = absurd (omega arith)
    touch_chunks-IsNear (suc k) b h hi = elim (dec_lt b (k * (size / threads))) [
      | yes before ↦
          IsNear-append_left page_size b _ _ (touch_chunks-IsNear k b (omega arith) before)
      | no here ↦
          let other : (k == threads - 1) ≡ false = ==_ne (λ (p : k ≡ threads - 1). omega arith) in
          IsNear-append_right page_size b (touch_chunks page_size threads size k) _
            (chunk-IsNear k b (omega arith) (omega arith) (rw other (omega arith)))
    ]

    whole-IsNear :
        (t b : ℕ)
        → threads ≡ suc t
        → b < size
        → IsNear page_size b (touch_chunks page_size threads size (suc t))
    unfolding touch_chunks chunk
    whole-IsNear t b e h = elim (dec_lt b (t * (size / threads))) [
      | yes before ↦
          IsNear-append_left page_size b _ _ (touch_chunks-IsNear t b (omega arith) before)
      | no here ↦
          let last : (t == threads - 1) ≡ true = ground arith in
          IsNear-append_right page_size b (touch_chunks page_size threads size t) _
            (chunk-IsNear t b (omega arith) (omega arith) (rw last (omega arith)))
    ]

    chunk_end : (k : ℕ) → k < threads → (chunk threads size k).0 + (chunk threads size k).1 ≤ size
    unfolding chunk
    chunk_end k h = ground (arith, share_fits k h)

    chunks_below : (k : ℕ) → k ≤ threads → AllBelow size (touch_chunks page_size threads size k)
    unfolding touch_chunks
    chunks_below zero h = tt
    chunks_below (suc k) h =
        AllBelow-append size (touch_chunks page_size threads size k) _
          (chunks_below k (omega arith))
          (AllBelow-le _ _ (touch page_size (chunk threads size k).0 (chunk threads size k).1)
            (chunk_end k h)
            (touch_below (chunk threads size k).0 (chunk threads size k).1
              (ground (arith, chunk_end k h))))

-- test.c and loop.c, for a size in MB other than 0 that with a page fits 2 ^ 64, where `malloc`
-- gives the memory: they write within it, and at each of its bytes or less than a page below it.
pub fill_memory_lem :
    (allocates : ℕ → Bool) (page_size mb b : ℕ)
    → 0 < page_size
    → 0 < mb
    → mb * 1048576 + page_size < 2 ^ 64
    → allocates (mb * 1048576) ≡ true
    → b < mb * 1048576
    → (offsets : List ℕ) × (fill_memory allocates page_size mb ≡ some offsets)
      × AllBelow (mb * 1048576) offsets
      × IsNear page_size b offsets
unfolding fill_memory
fill_memory_lem allocates page_size mb b pos some_mb fits given h =
    let zero_b : 0 + b ≡ b = omega arith in
    let size : mb * 1024 * 1024 % 2 ^ 64 ≡ mb * 1048576 = omega arith in
    let z : (mb == 0) ≡ false = ground arith in
    (
      touch page_size 0 (mb * 1048576),
      rw (size, z, given) refl,
      AllBelow-le _ _ (touch page_size 0 (mb * 1048576)) (omega arith)
          (touch_below page_size pos 0 (mb * 1048576) fits),
      subst (λ c. IsNear page_size c (touch page_size 0 (mb * 1048576))) zero_b
          (touch-IsNear page_size pos 0 (mb * 1048576) b fits h),
    )

-- multi_thread.c, for an argument other than 0 whose 2 ^ 30 bytes each with a page fit 2 ^ 64,
-- where `malloc` gives the memory: the six threads write within it, and at each of its bytes or
-- less than a page below it.
pub fill_memory_threaded_lem :
    (allocates : ℕ → Bool) (page_size gb b : ℕ)
    → 0 < page_size
    → 0 < gb
    → gb * 1073741824 + page_size < 2 ^ 64
    → allocates (gb * 1073741824) ≡ true
    → b < gb * 1073741824
    → (offsets : List ℕ) × (fill_memory_threaded allocates page_size gb ≡ some offsets)
      × AllBelow (gb * 1073741824) offsets
      × IsNear page_size b offsets
unfolding fill_memory_threaded
fill_memory_threaded_lem allocates page_size gb b pos some_gb fits given h =
    let size : gb * 1024 * 1024 * 1024 % 2 ^ 64 ≡ gb * 1073741824 = omega arith in
    let z : (gb == 0) ≡ false = ground arith in
    (
      touch_chunks page_size 6 (gb * 1073741824) 6,
      rw (size, z, given) refl,
      chunks_below page_size pos 6 (gb * 1073741824) (omega arith) fits 6 (omega arith),
      whole-IsNear page_size pos 6 (gb * 1073741824) (omega arith) fits 5 b (omega arith) h,
    )
