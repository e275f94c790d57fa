-- ===== src/Redis/Integer/Image.antt =====
-- The encodings of `rdbEncodeInteger` are the two's complement images of the numbers, and
-- `rdbLoadIntegerObject` reads them back.
use double_swap.Base.{
  ℕ, ◌+◌, ◌*◌, ◌%◌, ◌^◌, bit_or, ◌<◌, ◌≡◌, refl, sym, ap, ◌∙◌, true, some, [], ◌∷◌, Bytes, ==_ne,
  ==_self, inl, inr, ◌⊎◌, Bool-cases, get_or, arith,
}
use double_swap.Base.Bits.{bit_or-shifted, shifted-bit_or}
use double_swap.Base.Int.{ℤ, shift_right, low_byte, signed}
use double_swap.Redis.Format.{Format, IsFormat}
use double_swap.Redis.Rio.{Source, Reads, last_read-Reads}
use double_swap.Redis.Host.{Host}
use double_swap.Redis.Integer.{
  fits_signed, encode_integer, LoadFlags, integer_result, load_integer_object,
}

signed8 : (v : ℤ) → fits_signed 7 v ≡ true → signed 256 (low_byte v) ≡ v
signed8 v h = ground arith

word16 :
    (v : ℤ)
    → bit_or (low_byte v) (low_byte (shift_right v 8) * 2 ^ 8)
      ≡ low_byte (shift_right v 8) * 256 + low_byte v
word16 v = bit_or-shifted 8 (low_byte (shift_right v 8)) (low_byte v) (ground arith)

signed16 :
    (v : ℤ)
    → fits_signed 15 v ≡ true
    → signed 65536 (low_byte (shift_right v 8) * 256 + low_byte v) ≡ v
signed16 v h = ground arith

signed32 :
    (v : ℤ)
    → fits_signed 31 v ≡ true
    → signed 4294967296 (
        low_byte (shift_right v 24) * 2 ^ 24
        + (low_byte (shift_right v 16) * 2 ^ 16 + (low_byte (shift_right v 8) * 256 + low_byte v)))
      ≡ v
signed32 v h = ground arith

word32 :
    (v : ℤ)
    → bit_or
        (bit_or
          (bit_or (low_byte v) (low_byte (shift_right v 8) * 2 ^ 8))
          (low_byte (shift_right v 16) * 2 ^ 16))
        (low_byte (shift_right v 24) * 2 ^ 24)
      ≡ low_byte (shift_right v 24) * 2 ^ 24
        + (low_byte (shift_right v 16) * 2 ^ 16 + (low_byte (shift_right v 8) * 256 + low_byte v))
word32 v = rw (
  word16 v,
  bit_or-shifted 16 (low_byte (shift_right v 16)) (low_byte (shift_right v 8) * 256 + low_byte v)
      (ground arith),
  bit_or-shifted 24 (low_byte (shift_right v 24))
      (low_byte (shift_right v 16) * 2 ^ 16 + (low_byte (shift_right v 8) * 256 + low_byte v))
      (ground arith),
)

-- `enctype` is one of the three integer encodings.
abbrev pub IsIntegerType : Format → ℕ → Type 0
IsIntegerType f t = (t ≡ f.rdb_enc_int8) ⊎ ((t ≡ f.rdb_enc_int16) ⊎ (t ≡ f.rdb_enc_int32))

module _ (f : Format) (h : IsFormat f) (e : Host) (r : Source) (fl : LoadFlags) (v : ℤ) where
  abbrev ReadsAs : ℕ → Bytes → Type 0
  ReadsAs enctype q = Reads r (load_integer_object f e r enctype fl) q (integer_result e fl v)

  int8_read : fits_signed 7 v ≡ true → ReadsAs f.rdb_enc_int8 (low_byte v ∷ [])
  unfolding load_integer_object
  int8_read fits = rw (==_self f.rdb_enc_int8) (
      last_read-Reads r (low_byte v ∷ []) (λ b. integer_result e fl (signed (2 ^ 8) (get_or b 0 0)))
        _ (ap (integer_result e fl) (signed8 v fits)))

  int16_read :
      fits_signed 15 v ≡ true
      → ReadsAs f.rdb_enc_int16 (low_byte v ∷ low_byte (shift_right v 8) ∷ [])
  unfolding load_integer_object
  int16_read fits =
      rw (==_ne (λ p. h.int8_16 (sym p)), ==_self f.rdb_enc_int16)
        (last_read-Reads r (low_byte v ∷ low_byte (shift_right v 8) ∷ [])
          (λ b.
            integer_result e fl (signed (2 ^ 16) (bit_or (get_or b 0 0) (get_or b 1 0 * 2 ^ 8))))
          _
          (ap (λ x. integer_result e fl (signed 65536 x)) (word16 v)
            ∙ ap (integer_result e fl) (signed16 v fits)))

  int32_read :
      fits_signed 31 v ≡ true
      → ReadsAs f.rdb_enc_int32 (
          low_byte v
          ∷ low_byte (shift_right v 8)
          ∷ low_byte (shift_right v 16)
          ∷ low_byte (shift_right v 24)
          ∷ [])
  unfolding load_integer_object
  int32_read fits =
      rw (==_ne (λ p. h.int8_32 (sym p)), ==_ne (λ p. h.int16_32 (sym p)), ==_self f.rdb_enc_int32)
        (last_read-Reads r
          (low_byte v
            ∷ low_byte (shift_right v 8)
            ∷ low_byte (shift_right v 16)
            ∷ low_byte (shift_right v 24)
            ∷ [])
          (λ b. integer_result e fl (
            signed (2 ^ 32) (
              bit_or (bit_or (bit_or (get_or b 0 0) (get_or b 1 0 * 2 ^ 8)) (get_or b 2 0 * 2 ^ 16))
                (get_or b 3 0 * 2 ^ 24))))
          _
          (ap (λ x. integer_result e fl (signed 4294967296 x)) (word32 v)
            ∙ ap (integer_result e fl) (signed32 v fits)))

  encval_byte : (t : ℕ) → t < 64 → bit_or (f.rdb_encval * 2 ^ 6) t % 256 ≡ f.rdb_encval * 64 + t
  encval_byte t ht = rw (shifted-bit_or 6 f.rdb_encval t ht) (omega (arith, h.tag_enc))

  -- An encoding is a tagged byte with an integer type, and an image that is read back as `v`.
  pub encode_integer_image :
      (p : Bytes)
      → encode_integer f v ≡ some p
      → (t : ℕ) × (q : Bytes) × (p ≡ (f.rdb_encval * 64 + t) ∷ q)
        × (t < 64)
        × IsIntegerType f t
        × ReadsAs t q
  unfolding encode_integer
  encode_integer_image p made = elim (Bool-cases (fits_signed 7 v)) [
    | inl a ↦ (
      f.rdb_enc_int8,
      low_byte v ∷ [],
      ground (arith, encval_byte f.rdb_enc_int8 h.int8),
      h.int8,
      inl refl,
      int8_read a,
    )
    | inr a ↦ elim (Bool-cases (fits_signed 15 v)) [
      | inl b ↦ (
        f.rdb_enc_int16,
        low_byte v ∷ low_byte (shift_right v 8) ∷ [],
        ground (arith, encval_byte f.rdb_enc_int16 h.int16),
        h.int16,
        inr (inl refl),
        int16_read b,
      )
      | inr b ↦ elim (Bool-cases (fits_signed 31 v)) [
        | inl c ↦ (
          f.rdb_enc_int32,
          low_byte v
              ∷ low_byte (shift_right v 8)
              ∷ low_byte (shift_right v 16)
              ∷ low_byte (shift_right v 24)
              ∷ [],
          ground (arith, encval_byte f.rdb_enc_int32 h.int32),
          h.int32,
          inr (inr refl),
          int32_read c,
        )
        | inr c ↦ absurd (ground arith)
      ]
    ]
  ]
