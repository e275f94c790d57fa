-- ===== src/Generators/Touch.antt =====
-- test apps/test.c, test apps/loop.c and test apps/multi_thread.c: one write to each page of a
-- buffer, by one thread or by six. `size_t` wraps at 2 ^ 64; offsets count from the buffer's start.
pub mod Cover
use native.Mathlib.Decide.{dec_lt}
use native.Mathlib.Nat.{div-add-mod', mod-lt, div-mul-le_self}
use mathlib.Core.Path.{subst}
use double_swap.Base.{
  ℕ, zero, suc, ◌+◌, ◌-◌, ◌*◌, ◌/◌, ◌%◌, ◌^◌, ◌<◌, ◌≤◌, ◌≡◌, refl, ◌⊎◌, inl, inr, Bool, true, false,
  Bool-cases, sym, Option, none, some, List, [], ◌∷◌, ◌++◌, ltb, ◌==◌, ==_ne, if◌then◌else◌, arith,
}

-- `for (size_t i = 0; i < size; i += page_size)`, by the offsets that it writes, from `i` on.
unfoldable pub touch_loop : ℕ → ℕ → ℕ → ℕ → ℕ → List ℕ
touch_loop zero page_size start i size = []
touch_loop (suc fuel) page_size start i size =
    let rest = touch_loop fuel page_size start ((i + page_size) % 2 ^ 64) size in
    if ltb i size then (start + i) ∷ rest else []

-- The loop over a part of the buffer; as many rounds as pages, and one more, are enough.
unfoldable pub touch : ℕ → ℕ → ℕ → List ℕ
unfolding touch_loop
touch page_size start size = touch_loop (size / page_size + 2) page_size start 0 size

-- test.c and loop.c: `main` up to the end of the first filling. A size of 0 is refused, and so is
-- one that `malloc` does not give.
unfoldable pub fill_memory : (ℕ → Bool) → ℕ → ℕ → Option (List ℕ)
unfolding touch
fill_memory allocates page_size mem_size_mb =
    let mem_size = mem_size_mb * 1024 * 1024 % 2 ^ 64 in
    if mem_size_mb == 0
    then none
    else if allocates mem_size
    then some (touch page_size 0 mem_size)
    else none

-- multi_thread.c: the part of thread `i` of `threads`, as start and size.
unfoldable pub chunk : ℕ → ℕ → ℕ → ℕ × ℕ
chunk threads mem_size i =
    let chunk_size = mem_size / threads in
    (i * chunk_size, (if i == threads - 1 then mem_size - i * chunk_size else chunk_size))

-- What the first `k` threads write, thread by thread.
unfoldable pub touch_chunks : ℕ → ℕ → ℕ → ℕ → List ℕ
touch_chunks page_size threads mem_size zero = []
touch_chunks page_size threads mem_size (suc k) =
    touch_chunks page_size threads mem_size k
    ++ touch page_size (chunk threads mem_size k).0 (chunk threads mem_size k).1

abbrev pub num_threads : ℕ
num_threads = 6

-- `main` of multi_thread.c, whose argument counts units of 2 ^ 30 bytes.
unfoldable pub fill_memory_threaded : (ℕ → Bool) → ℕ → ℕ → Option (List ℕ)
unfolding touch_chunks chunk touch
fill_memory_threaded allocates page_size mem_size_mb =
    let mem_size = mem_size_mb * 1024 * 1024 * 1024 % 2 ^ 64 in
    if mem_size_mb == 0
    then none
    else if allocates mem_size
    then some (touch_chunks page_size num_threads mem_size num_threads)
    else none
