-- ===== src/Trace/Pages.antt =====
-- redis/rdb.c and mosquitto files/persist_write.c: `align_to_page_start`, and the loops that log
-- the pages of a saved object. Addresses are uintptr_t.
pub mod Cover
use double_swap.Base.{ℕ, zero, suc, ◌+◌, ◌-◌, ◌/◌, ◌%◌, ◌^◌, List, [], ◌∷◌, leb, if◌then◌else◌}

-- `address & ~(page_size - 1)`, for a page size that is a power of two.
unfoldable pub mask_page : ℕ → ℕ → ℕ
mask_page page_size address = address - address % page_size

-- `align_to_page_start` of rdb.c, where the page size is written out.
unfoldable pub align_to_page_start : ℕ → ℕ
unfolding mask_page
align_to_page_start address = mask_page 4096 address

-- `value_end_page`: the length is added to the page's start, not to the address.
unfoldable pub end_page : ℕ → ℕ → ℕ → ℕ
unfolding mask_page
end_page page_size start len = mask_page page_size ((start + len) % 2 ^ 64)

-- `for (page = start; page <= end; page += page_size)`, by the pages that it logs.
unfoldable pub page_loop : ℕ → ℕ → ℕ → ℕ → List ℕ
page_loop zero page_size page end = []
page_loop (suc fuel) page_size page end =
    let rest = page_loop fuel page_size ((page + page_size) % 2 ^ 64) end in
    if leb page end then page ∷ rest else []

-- The pages logged for `len` bytes, from the page at `start` on.
unfoldable pub logged_pages : ℕ → ℕ → ℕ → List ℕ
unfolding end_page page_loop
logged_pages page_size start len =
    page_loop (len / page_size + 2) page_size start (end_page page_size start len)

-- The pages that rdb.c logs for `len` bytes at `address`, with the `page_size` of the system.
unfoldable pub object_pages : ℕ → ℕ → ℕ → List ℕ
unfolding align_to_page_start logged_pages
object_pages page_size address len = logged_pages page_size (align_to_page_start address) len

-- "OUT G* NONE" and "OUT G NONE", in front of and behind the saving of an object.
pub data Tag : Type 0 where
  out_g_star out_g : Tag
