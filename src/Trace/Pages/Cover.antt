-- ===== src/Trace/Pages/Cover.antt =====
-- Which pages are logged, and which bytes of the object lie on them.
use double_swap.Base.{
  ℕ, zero, suc, ◌+◌, ◌-◌, ◌*◌, ◌/◌, ◌%◌, ◌^◌, ◌<◌, ◌≤◌, ◌≡◌, ap, ◌∙◌, ◌⊎◌, inl, inr, ◌↔◌, List, [],
  ◌∷◌, arith,
}
use mathlib.Core.Path.{subst}
use native.Mathlib.Nat.{
  mod-eq_of_lt, mul-add-mod_self_right, mul-add-div_right, div-add-mod', div-mul-le_self,
}
use native.Mathlib.Numerals.{add-one}
use double_swap.Trace.Pages.{
  mask_page, align_to_page_start, end_page, page_loop, logged_pages, object_pages,
}

-- `k` pages from `start` on.
unfoldable pub pages_from : ℕ → ℕ → ℕ → List ℕ
pages_from zero page_size start = []
pages_from (suc k) page_size start = start ∷ pages_from k page_size (start + page_size)

abbrev pub IsLogged : ℕ → List ℕ → Type 0
IsLogged p [] = ⊥
IsLogged p (q ∷ qs) = (p ≡ q) ⊎ IsLogged p qs

module _ (page_size : ℕ) (pos : 0 < page_size) where
  page_loop-pages_from :
      (k fuel start last : ℕ)
      → start + k * page_size ≤ last
      → last < start + suc k * page_size
      → last + page_size < 2 ^ 64
      → k + 1 < fuel
      → page_loop fuel page_size start last ≡ pages_from (suc k) page_size start
  unfolding page_loop pages_from
  page_loop-pages_from k zero start last lo hi fits enough = absurd (omega arith)
  page_loop-pages_from zero (suc zero) start last lo hi fits enough = absurd (omega arith)
  page_loop-pages_from zero (suc (suc fuel)) start last lo hi fits enough = ground arith
  page_loop-pages_from (suc k) (suc fuel) start last lo hi fits enough = ground (
    arith,
    page_loop-pages_from k fuel (start + page_size) last (omega arith) (omega arith) fits
        (omega arith),
  )

  -- The page's start is a multiple of the page size.
  aligned : (address : ℕ) → mask_page page_size address ≡ address / page_size * page_size
  unfolding mask_page
  aligned address = grind arith

  -- The last page looked at is as many pages behind the first as the length has whole pages.
  end_page_lem :
      (q len : ℕ)
      → q * page_size + len < 2 ^ 64
      → end_page page_size (q * page_size) len ≡ q * page_size + len / page_size * page_size
  unfolding end_page mask_page
  end_page_lem q len fits =
      rw (mod-eq_of_lt fits, mul-add-mod_self_right q page_size len)
        (omega (arith, div-add-mod' len page_size))

  -- The pages logged are as many as the length has whole pages, and one more, whatever the offset
  -- of the object in its first page.
  pub logged_pages_lem :
      (address len : ℕ)
      → address + len + page_size < 2 ^ 64
      → logged_pages page_size (mask_page page_size address) len
        ≡ pages_from (len / page_size + 1) page_size (address / page_size * page_size)
  unfolding logged_pages
  logged_pages_lem address len fits = rw (
    aligned address,
    end_page_lem (address / page_size) len (omega (arith, below)),
    page_loop-pages_from (len / page_size) (len / page_size + 2) (address / page_size * page_size)
        (address / page_size * page_size + len / page_size * page_size) (omega arith)
        (omega (arith, pos)) (omega (arith, below, div-mul-le_self len page_size)) (omega arith),
    ← add-one (len / page_size),
  )
    where
      below : address / page_size * page_size ≤ address
      below = div-mul-le_self address page_size

  IsLogged-page :
      (k j start : ℕ) → j < k → IsLogged (start + j * page_size) (pages_from k page_size start)
  unfolding pages_from
  IsLogged-page zero j start h = elim h [ ]
  IsLogged-page (suc k) zero start h = inl (omega arith)
  IsLogged-page (suc k) (suc j) start h =
      let e : start + page_size + j * page_size ≡ start + suc j * page_size = omega arith in
      inr (
        subst (λ p. IsLogged p (pages_from k page_size (start + page_size))) e
          (IsLogged-page k j (start + page_size) (omega arith)))

  IsLogged-page_inv :
      (k j start : ℕ) → IsLogged (start + j * page_size) (pages_from k page_size start) → j < k
  unfolding pages_from
  IsLogged-page_inv zero j start l = absurd l
  IsLogged-page_inv (suc k) zero start l = omega arith
  IsLogged-page_inv (suc k) (suc j) start (inl e) = absurd (omega (arith, pos))
  IsLogged-page_inv (suc k) (suc j) start (inr l) =
      let e : start + suc j * page_size ≡ start + page_size + j * page_size = omega arith in
      omega (
        arith,
        IsLogged-page_inv k j (start + page_size)
            (subst (λ p. IsLogged p (pages_from k page_size (start + page_size))) e l),
      )

  page_of_byte :
      (address i : ℕ)
      → mask_page page_size (address + i)
        ≡ address / page_size * page_size + (address % page_size + i) / page_size * page_size
  page_of_byte address i =
      aligned (address + i)
      ∙ rw (← split) (
          omega (
            arith,
            ap (λ (t : ℕ). t * page_size)
                (mul-add-div_right pos (address / page_size) (address % page_size + i)),
          ))
    where
      split : address / page_size * page_size + (address % page_size + i) ≡ address + i
      split = omega (arith, div-add-mod' address page_size)

  -- At any page size, where the loop starts at the page of the address.
  IsLogged-iff :
      (address len i : ℕ)
      → address + len + page_size < 2 ^ 64
      → IsLogged
          (mask_page page_size (address + i))
          (logged_pages page_size (mask_page page_size address) len)
        ↔ ((address % page_size + i) / page_size ≤ len / page_size)
  IsLogged-iff address len i fits =
      rw (logged_pages_lem address len fits, page_of_byte address i)
        ((λ l. omega (arith, IsLogged-page_inv _ _ _ l)), (λ h. IsLogged-page _ _ _ (omega arith)))

-- With pages of 4096 bytes, for an object that ends a page or more below 2 ^ 64: the page of the
-- byte `i` behind the object's address is logged exactly when that byte, counted from the start of
-- the object's first page, lies within the length rounded down to pages and one page more.
pub byte-IsLogged_iff :
    (address len i : ℕ)
    → address + len + 4096 < 2 ^ 64
    → IsLogged (align_to_page_start (address + i)) (object_pages 4096 address len)
      ↔ ((address % 4096 + i) / 4096 ≤ len / 4096)
unfolding object_pages align_to_page_start
byte-IsLogged_iff address len i fits = IsLogged-iff 4096 (omega arith) address len i fits

-- With pages of 4096 bytes, for an object of one byte or more that ends a page or more below
-- 2 ^ 64: where the object's offset in its page and the rest of its length pass a page boundary,
-- the page of its last byte is not logged.
pub last_page_missed :
    (address len : ℕ)
    → address + len + 4096 < 2 ^ 64
    → 0 < len
    → 4096 < address % 4096 + len % 4096
    → ¬ IsLogged (align_to_page_start (address + (len - 1))) (object_pages 4096 address len)
last_page_missed address len fits some_bytes crosses l =
    absurd (omega (arith, (byte-IsLogged_iff address len (len - 1) fits).0 l))
