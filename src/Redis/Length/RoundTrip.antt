-- ===== src/Redis/Length/RoundTrip.antt =====
-- What `rdbLoadLenByRef` makes of the codes that `rdbSaveLen` and the string encodings write.
use mathlib.Core.Path.{subst}
use double_swap.Base.{
  ℕ, ◌+◌, ◌*◌, ◌/◌, ◌%◌, ◌^◌, bit_and, ◌<◌, ◌≡◌, ◌≢◌, sym, ap, ◌∙◌, true, false, Bool, [], ◌∷◌,
  Bytes, ltb, ==_ne, ==_self, inl, inr, Bool-cases, pure, ◌>>=◌, append-nil, arith,
}
use double_swap.Base.Bits.{low_six, top_two, shifted-bit_or}
use double_swap.Redis.Format.{Format, IsFormat}
use double_swap.Redis.Rio.{Source, Reads, read-Reads, pure-Reads, bind-Reads, last_read-Reads}
use double_swap.Redis.Endian.{big_endian, from_big, length-big_endian, from_big-big_endian}
use double_swap.Redis.Length.{load_len_tail, load_len_by_ref, load_len}
use double_swap.Redis.Length.Code.{len_code}

type_of_tagged : (t r : ℕ) → t < 4 → r < 64 → bit_and (t * 64 + r) 0xC0 / 64 ≡ t
type_of_tagged t r ht hr = top_two (t * 64 + r) (omega arith) ∙ omega arith

low_of_tagged : (t r : ℕ) → t < 4 → r < 64 → bit_and (t * 64 + r) 0x3F ≡ r
low_of_tagged t r ht hr = low_six (t * 64 + r) (omega arith) ∙ omega arith

module _ (r : Source) where
  -- `ntohl` and `ntohu64` of the next `k` bytes.
  read_number :
      (k n : ℕ) {A : Type 0} (g : ℕ → A)
      → n < 256 ^ k
      → Reads r (do buf ← r.read k; pure (g (from_big buf))) (big_endian k n) (g n)
  read_number k n g hn =
      subst (λ j. Reads r (do buf ← r.read j; pure (g (from_big buf))) (big_endian k n) (g n))
        (length-big_endian k n)
        (last_read-Reads r (big_endian k n) (λ buf. g (from_big buf)) (g n)
          (ap g (from_big-big_endian k n hn)))

module _ (f : Format) (h : IsFormat f) (r : Source) where
  -- The tail's branch for a tagged first byte.
  tail_encval : (n : ℕ) → n < 64 → load_len_tail f r (f.rdb_encval * 64 + n) ≡ pure (true, n)
  unfolding load_len_tail
  tail_encval n hn = rw (
    type_of_tagged f.rdb_encval n h.tag_enc hn,
    ==_self f.rdb_encval,
    low_of_tagged f.rdb_encval n h.tag_enc hn,
  )

  tail_6bit : (n : ℕ) → n < 64 → load_len_tail f r (f.rdb_6bitlen * 64 + n) ≡ pure (false, n)
  unfolding load_len_tail
  tail_6bit n hn = rw (
    type_of_tagged f.rdb_6bitlen n h.tag6 hn,
    ==_ne h.tag6_enc,
    ==_self f.rdb_6bitlen,
    low_of_tagged f.rdb_6bitlen n h.tag6 hn,
  )

  tail_14bit :
      (x y : ℕ)
      → x < 64
      → y < 256
      → Reads r (load_len_tail f r (f.rdb_14bitlen * 64 + x)) (y ∷ []) (false, x * 256 + y)
  unfolding load_len_tail
  tail_14bit x y hx hy =
      rw
        (
          type_of_tagged f.rdb_14bitlen x h.tag14 hx,
          ==_ne h.tag14_enc,
          ==_ne (λ e. h.tag6_14 (sym e)),
          ==_self f.rdb_14bitlen,
          low_of_tagged f.rdb_14bitlen x h.tag14 hx,
        )
        (bind-Reads r (r.read 1) _ (y ∷ []) [] (y ∷ []) _ (read-Reads r (y ∷ []))
          (rw (shifted-bit_or 8 x y hy) (pure-Reads r (false, x * 256 + y))))

  tail_32bit :
      (n : ℕ) → n < 2 ^ 32 → Reads r (load_len_tail f r f.rdb_32bitlen) (big_endian 4 n) (false, n)
  unfolding load_len_tail
  tail_32bit n hn =
      rw
        (
          top_two f.rdb_32bitlen h.byte32,
          ==_ne h.wide_enc,
          ==_ne h.wide6,
          ==_ne h.wide14,
          ==_self f.rdb_32bitlen,
        )
        (read_number r 4 n (λ n. (false, n)) (omega arith))

  tail_64bit :
      (n : ℕ) → n < 2 ^ 64 → Reads r (load_len_tail f r f.rdb_64bitlen) (big_endian 8 n) (false, n)
  unfolding load_len_tail
  tail_64bit n hn =
      rw
        (
          top_two f.rdb_64bitlen h.byte64,
          ← h.wide,
          ==_ne h.wide_enc,
          ==_ne h.wide6,
          ==_ne h.wide14,
          ==_ne (λ e. h.byte32_64 (sym e)),
          ==_self f.rdb_64bitlen,
        )
        (read_number r 8 n (λ n. (false, n)) (omega arith))

  load_after :
      (b : ℕ) (p : Bytes) (x : Bool × ℕ)
      → Reads r (load_len_tail f r b) p x
      → Reads r (load_len_by_ref f r) (b ∷ p) x
  unfolding load_len_by_ref
  load_after b p x tail =
      bind-Reads r (r.read 1) _ (b ∷ []) p (b ∷ []) x (read-Reads r (b ∷ [])) tail

  -- A string's encoding byte is read as such.
  pub load_len_by_ref_encval :
      (n : ℕ) → n < 64 → Reads r (load_len_by_ref f r) ((f.rdb_encval * 64 + n) ∷ []) (true, n)
  load_len_by_ref_encval n hn = load_after _ [] _ (rw (tail_encval n hn) (pure-Reads r (true, n)))

  -- Every uint64_t is read back from its code.
  pub load_len_by_ref-len_code :
      (n : ℕ) → n < 2 ^ 64 → Reads r (load_len_by_ref f r) (len_code f n) (false, n)
  unfolding len_code
  load_len_by_ref-len_code n hn = elim (Bool-cases (ltb n 64)) [
    | inl e ↦ rw e (load_after _ [] _ (rw (tail_6bit n (ground arith)) (pure-Reads r (false, n))))
    | inr e ↦ rw e (elim (Bool-cases (ltb n 16384)) [
      | inl e' ↦ rw e' (load_after _ (n % 256 ∷ []) (false, n) (two_bytes (ground arith)))
      | inr e' ↦ rw e' (elim (Bool-cases (ltb n 4294967296)) [
        | inl g ↦ rw g (load_after _ (big_endian 4 n) (false, n) (tail_32bit n (ground arith)))
        | inr g ↦ rw g (load_after _ (big_endian 8 n) (false, n) (tail_64bit n hn))
      ])
    ])
  ]
    where
      two_bytes :
          n < 16384
          → Reads r (load_len_tail f r (f.rdb_14bitlen * 64 + n / 256)) (n % 256 ∷ []) (false, n)
      two_bytes small =
          let e : n / 256 * 256 + n % 256 ≡ n = omega arith in
          subst
            (λ x.
              Reads r (load_len_tail f r (f.rdb_14bitlen * 64 + n / 256)) (n % 256 ∷ []) (false, x))
            e (tail_14bit (n / 256) (n % 256) (omega arith) (omega arith))

  -- `rdbLoadLen` reads back every length but the one that it uses for errors.
  pub load_len-len_code :
      (n : ℕ) → n < 2 ^ 64 → n ≢ f.rdb_lenerr → Reads r (load_len f r) (len_code f n) (false, n)
  unfolding load_len
  load_len-len_code n hn ne =
      subst (λ p. Reads r (load_len f r) p (false, n)) (append-nil (len_code f n))
        (bind-Reads r (load_len_by_ref f r) _ (len_code f n) [] (false, n) (false, n)
          (load_len_by_ref-len_code n hn) (rw (==_ne ne) (pure-Reads r (false, n))))

  pub load_len_encval :
      (n : ℕ) → n < 64 → Reads r (load_len f r) ((f.rdb_encval * 64 + n) ∷ []) (true, n)
  unfolding load_len
  load_len_encval n hn =
      bind-Reads r (load_len_by_ref f r) _ ((f.rdb_encval * 64 + n) ∷ []) [] (true, n) (true, n)
        (load_len_by_ref_encval n hn) (rw (==_ne below) (pure-Reads r (true, n)))
    where
      below : n ≢ f.rdb_lenerr
      below e = absurd (omega (arith, h.lenerr))
