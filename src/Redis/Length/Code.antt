-- ===== src/Redis/Length/Code.antt =====
-- The bytes of a length's code, in plain arithmetic, and that `rdbSaveLen` writes them.
use double_swap.Base.{
  ℕ, ◌+◌, ◌*◌, ◌/◌, ◌%◌, ◌^◌, bit_or, ◌<◌, ◌≡◌, [], ◌∷◌, Bytes, true, false, ltb, leb,
  if◌then◌else◌, length, inl, inr, Bool-cases, arith,
}
use double_swap.Base.Bits.{bit_or-shifted}
use double_swap.Redis.Format.{Format, IsFormat}
use double_swap.Redis.Rio.{Sink, Writes, one_write-Writes, write_pair-Writes}
use double_swap.Redis.Endian.{big_endian, length-big_endian}
use double_swap.Redis.Length.{save_len}

module _ (f : Format) where
  unfoldable pub len_code : ℕ → Bytes
  len_code n =
      if ltb n 64
      then (f.rdb_6bitlen * 64 + n) ∷ []
      else if ltb n 16384
      then (f.rdb_14bitlen * 64 + n / 256) ∷ n % 256 ∷ []
      else if ltb n 4294967296
      then f.rdb_32bitlen ∷ big_endian 4 n
      else f.rdb_64bitlen ∷ big_endian 8 n

-- The first byte of the short forms.
tagged_byte : (t r : ℕ) → t < 4 → r < 64 → bit_or (r % 256) (t * 2 ^ 6) % 256 ≡ t * 64 + r
tagged_byte t r ht hr =
    let e : r % 256 ≡ r = omega arith in rw e (rw (bit_or-shifted 6 t r hr) (omega arith))

module _ (f : Format) (h : IsFormat f) (w : Sink) where
  save_6bit :
      (n : ℕ) → ltb n 64 ≡ true → Writes w (save_len f w n) ((f.rdb_6bitlen * 64 + n) ∷ []) 1
  unfolding save_len
  save_6bit n e =
      rw (e, tagged_byte f.rdb_6bitlen n h.tag6 (ground arith)) (one_write-Writes w _ [] 1)

  save_14bit :
      (n : ℕ)
      → ltb n 64 ≡ false
      → ltb n 16384 ≡ true
      → Writes w (save_len f w n) ((f.rdb_14bitlen * 64 + n / 256) ∷ n % 256 ∷ []) 2
  unfolding save_len
  save_14bit n e e' =
      rw (e, e', tagged_byte f.rdb_14bitlen (n / 256) h.tag14 (ground arith))
        (one_write-Writes w _ [] 2)

  save_32bit :
      (n : ℕ)
      → ltb n 64 ≡ false
      → ltb n 16384 ≡ false
      → ltb n 4294967296 ≡ true
      → Writes w (save_len f w n) (f.rdb_32bitlen ∷ big_endian 4 n) 5
  unfolding save_len
  save_32bit n e e' g =
      let g' : leb n 4294967295 ≡ true = ground arith in
      rw (e, e', g') (write_pair-Writes w (f.rdb_32bitlen ∷ []) (big_endian 4 n) 5)

  save_64bit :
      (n : ℕ)
      → ltb n 64 ≡ false
      → ltb n 16384 ≡ false
      → ltb n 4294967296 ≡ false
      → Writes w (save_len f w n) (f.rdb_64bitlen ∷ big_endian 8 n) 9
  unfolding save_len
  save_64bit n e e' g =
      let g' : leb n 4294967295 ≡ false = ground arith in
      rw (e, e', g') (write_pair-Writes w (f.rdb_64bitlen ∷ []) (big_endian 8 n) 9)

  pub save_len-Writes : (n : ℕ) → Writes w (save_len f w n) (len_code f n) (length (len_code f n))
  unfolding len_code
  save_len-Writes n = elim (Bool-cases (ltb n 64)) [
    | inl e ↦ rw e (save_6bit n e)
    | inr e ↦ rw e (elim (Bool-cases (ltb n 16384)) [
      | inl e' ↦ rw e' (save_14bit n e e')
      | inr e' ↦ rw e' (elim (Bool-cases (ltb n 4294967296)) [
        | inl g ↦ rw g (rw (length-big_endian 4 n) (save_32bit n e e' g))
        | inr g ↦ rw g (rw (length-big_endian 8 n) (save_64bit n e e' g))
      ])
    ])
  ]
