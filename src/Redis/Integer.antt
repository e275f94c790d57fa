-- ===== src/Redis/Integer.antt =====
-- redis/rdb.c: strings that spell small integers, `rdbEncodeInteger`, `rdbTryIntegerEncoding` and
-- `rdbLoadIntegerObject`. A long long is a ℤ.
pub mod Image
use double_swap.Base.{
  ℕ, ◌+◌, ◌-◌, ◌*◌, ◌%◌, ◌^◌, bit_or, Bool, true, false, ◌&&◌, ◌||◌, Option, none, some, [], ◌∷◌,
  Bytes, ◌==◌, if◌then◌else◌, get_or, length, Step, pure, fail, ◌>>=◌,
}
use double_swap.Base.Int.{ℤ, pos, negsuc, leb_ℤ, shift_right, low_byte, signed}
use double_swap.Redis.Format.{Format}
use double_swap.Redis.Rio.{Source}
use double_swap.Redis.Host.{Host}

-- `value >= -(1<<k) && value <= (1<<k)-1`
abbrev pub fits_signed : ℕ → ℤ → Bool
fits_signed k value = leb_ℤ (negsuc (2 ^ k - 1)) value && leb_ℤ value (pos (2 ^ k - 1))

-- `rdbEncodeInteger`: the bytes put in `enc`; `none` is its 0.
unfoldable pub encode_integer : Format → ℤ → Option Bytes
encode_integer f value =
    if fits_signed 7 value
    then some (bit_or (f.rdb_encval * 2 ^ 6) f.rdb_enc_int8 % 256 ∷ low_byte value ∷ [])
    else if fits_signed 15 value
    then some (
        bit_or (f.rdb_encval * 2 ^ 6) f.rdb_enc_int16 % 256
        ∷ low_byte value
        ∷ low_byte (shift_right value 8)
        ∷ [])
    else if fits_signed 31 value
    then some (
        bit_or (f.rdb_encval * 2 ^ 6) f.rdb_enc_int32 % 256
        ∷ low_byte value
        ∷ low_byte (shift_right value 8)
        ∷ low_byte (shift_right value 16)
        ∷ low_byte (shift_right value 24)
        ∷ [])
    else none

-- `rdbTryIntegerEncoding`
unfoldable pub try_integer_encoding : Format → Host → Bytes → Option Bytes
try_integer_encoding f e s = elim (e.string2ll s) [ none ↦ none | some v ↦ encode_integer f v ]

-- The `flags` of the loaders, RDB_LOAD_ENC, PLAIN, SDS, HFLD and HFLD_TTL.
pub record LoadFlags : Type 0 where
  pub enc : Bool
  pub plain : Bool
  pub sds : Bool
  pub hfld : Bool
  pub hfld_ttl : Bool

-- The kinds of string that the loaders return: the last two are objects that the object layer
-- makes of a number, with leave to store it as one and without.
pub data Loaded : Type 0 where
  plain_text sds_text object_text : Bytes → Loaded
  hash_field : Bool → Bytes → Loaded
  object_for_value object_with_sds : ℤ → Loaded

-- A buffer of the kind that the flags ask for; `none` where they ask for an object.
unfoldable pub buffer_kind : LoadFlags → Bytes → Option Loaded
buffer_kind fl p =
    if fl.plain
    then some (plain_text p)
    else if fl.sds
    then some (sds_text p)
    else if fl.hfld || fl.hfld_ttl
    then some (hash_field (if fl.hfld then false else true) p)
    else none

-- The end of `rdbLoadIntegerObject`, with what it stores at `*lenptr`.
unfoldable pub integer_result : Host → LoadFlags → ℤ → Loaded × Option ℕ
unfolding buffer_kind
integer_result e fl val =
    let text = e.ll2string val in
    elim (buffer_kind fl text) [
      | some x ↦ (x, some (length text))
      | none ↦ (if fl.enc then object_for_value val else object_with_sds val, none)
    ]

module _ (f : Format) (e : Host) (r : Source) where
  -- `rdbLoadIntegerObject`
  unfoldable pub load_integer_object : ℕ → LoadFlags → Step r.Stream (Loaded × Option ℕ)
  load_integer_object enctype fl =
      if enctype == f.rdb_enc_int8
      then (do enc ← r.read 1; pure (integer_result e fl (signed (2 ^ 8) (get_or enc 0 0))))
      else if enctype == f.rdb_enc_int16
      then (do
        enc ← r.read 2
        pure (
            integer_result e fl
              (signed (2 ^ 16) (bit_or (get_or enc 0 0) (get_or enc 1 0 * 2 ^ 8)))))
      else if enctype == f.rdb_enc_int32
      then (do
        enc ← r.read 4
        pure (
            integer_result e fl (
              signed (2 ^ 32) (
                bit_or
                  (bit_or (bit_or (get_or enc 0 0) (get_or enc 1 0 * 2 ^ 8))
                    (get_or enc 2 0 * 2 ^ 16))
                  (get_or enc 3 0 * 2 ^ 24)))))
      else fail
