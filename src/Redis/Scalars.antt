-- ===== src/Redis/Scalars.antt =====
-- redis/rdb.c: bytes, times and floating-point numbers, `rdbSaveType` to
-- `rdbLoadMillisecondTime` and `rdbSaveDoubleValue` to `rdbLoadBinaryFloatValue`. A binary float
-- is its bit pattern; `Floats` is what the text form takes from the C library and fpconv.
pub mod RoundTrip
use double_swap.Base.{
  ℕ, ◌+◌, ◌-◌, ◌%◌, ◌^◌, Bool, true, false, not, Option, none, some, [], ◌∷◌, Bytes, leb, ◌==◌,
  if◌then◌else◌, get_or, length, Step, pure, fail, ◌>>=◌,
}
use double_swap.Base.Int.{ℤ, pos, negsuc, signed}
use double_swap.Redis.Rio.{Sink, Source, Rdb, write_raw}
use double_swap.Redis.Endian.{big_endian, little_endian, from_big, from_little}

-- The bit pattern of an int64_t.
abbrev pub word64 : ℤ → ℕ
word64 (pos n) = n % 2 ^ 64
word64 (negsuc n) = 2 ^ 64 - 1 - n % 2 ^ 64

pub record Floats : Type 1 where
  pub Double : Type 0
  pub is_nan : Double → Bool
  pub is_finite : Double → Bool
  pub is_negative : Double → Bool
  pub print : Double → Bytes  -- `ll2string` of `double2ll`'s number, or `fpconv_dtoa`
  pub scan : Bytes → Option Double  -- `sscanf(buf, "%lg", val)`
  pub r_nan : Double
  pub r_pos_inf : Double
  pub r_neg_inf : Double

module _ (w : Sink) where
  -- `rdbSaveType`
  unfoldable pub save_type : ℕ → Step (Rdb w) ℕ
  save_type type = write_raw w (type % 256 ∷ [])

  -- `rdbSaveMillisecondTime`
  unfoldable pub save_millisecond_time : ℤ → Step (Rdb w) ℕ
  save_millisecond_time t = write_raw w (little_endian 8 (word64 t))

  -- `rdbSaveBinaryDoubleValue` and `rdbSaveBinaryFloatValue`
  unfoldable pub save_binary_double : ℕ → Step (Rdb w) ℕ
  save_binary_double val = write_raw w (little_endian 8 val)

  unfoldable pub save_binary_float : ℕ → Step (Rdb w) ℕ
  save_binary_float val = write_raw w (little_endian 4 val)

  -- `rdbSaveDoubleValue`
  unfoldable pub save_double_value : (d : Floats) → d.Double → Step (Rdb w) ℕ
  save_double_value d val =
      if d.is_nan val
      then write_raw w (253 ∷ [])
      else if not (d.is_finite val)
      then write_raw w ((if d.is_negative val then 255 else 254) ∷ [])
      else write_raw w (length (d.print val) % 256 ∷ d.print val)

module _ (r : Source) where
  -- `rdbLoadType`
  unfoldable pub load_type : Step r.Stream ℕ
  load_type = do buf ← r.read 1; pure (get_or buf 0 0)

  -- `rdbLoadMillisecondTime` on a host of the given byte order
  unfoldable pub load_millisecond_time : Bool → ℕ → Step r.Stream ℤ
  load_millisecond_time big_endian_host rdbver = do
    buf ← r.read 8
    pure (
        signed (2 ^ 64) (
          if leb 9 rdbver
          then from_little buf
          else if big_endian_host
          then from_big buf
          else from_little buf))

  -- `rdbLoadBinaryDoubleValue` and `rdbLoadBinaryFloatValue`
  unfoldable pub load_binary_double : Step r.Stream ℕ
  load_binary_double = do buf ← r.read 8; pure (from_little buf)

  unfoldable pub load_binary_float : Step r.Stream ℕ
  load_binary_float = do buf ← r.read 4; pure (from_little buf)

  -- `rdbLoadDoubleValue`
  unfoldable pub load_double_value : (d : Floats) → Step r.Stream d.Double
  load_double_value d = do
    buf ← r.read 1
    if get_or buf 0 0 == 255
        then pure d.r_neg_inf
        else if get_or buf 0 0 == 254
        then pure d.r_pos_inf
        else if get_or buf 0 0 == 253
        then pure d.r_nan
        else (do
          text ← r.read (get_or buf 0 0)
          elim (d.scan text) [ none ↦ fail | some val ↦ pure val ])
