-- ===== src/Redis/Format.antt =====
-- The constants of rdb.h that the codec uses, with what the file format documents of them.
use double_swap.Base.{ℕ, ◌≡◌, ◌≢◌, ◌<◌, ◌≤◌, ◌/◌, ◌^◌}

-- Two-bit tags of a length's first byte, whole first bytes, and six-bit encodings of a string.
pub record Format : Type 0 where
  pub rdb_6bitlen : ℕ
  pub rdb_14bitlen : ℕ
  pub rdb_encval : ℕ
  pub rdb_32bitlen : ℕ
  pub rdb_64bitlen : ℕ
  pub rdb_lenerr : ℕ
  pub rdb_enc_int8 : ℕ
  pub rdb_enc_int16 : ℕ
  pub rdb_enc_int32 : ℕ
  pub rdb_enc_lzf : ℕ

-- The tags are told apart by two bits, the wide forms by their whole byte behind a fourth tag,
-- and RDB_LENERR is a count that no data structure reaches.
pub record IsFormat (f : Format) : Type 0 where
  pub tag6 : f.rdb_6bitlen < 4
  pub tag14 : f.rdb_14bitlen < 4
  pub tag_enc : f.rdb_encval < 4
  pub tag6_14 : f.rdb_6bitlen ≢ f.rdb_14bitlen
  pub tag6_enc : f.rdb_6bitlen ≢ f.rdb_encval
  pub tag14_enc : f.rdb_14bitlen ≢ f.rdb_encval
  pub byte32 : f.rdb_32bitlen < 256
  pub byte64 : f.rdb_64bitlen < 256
  pub wide : f.rdb_32bitlen / 64 ≡ f.rdb_64bitlen / 64
  pub wide6 : f.rdb_32bitlen / 64 ≢ f.rdb_6bitlen
  pub wide14 : f.rdb_32bitlen / 64 ≢ f.rdb_14bitlen
  pub wide_enc : f.rdb_32bitlen / 64 ≢ f.rdb_encval
  pub byte32_64 : f.rdb_32bitlen ≢ f.rdb_64bitlen
  pub lenerr : 2 ^ 63 ≤ f.rdb_lenerr
  pub int8 : f.rdb_enc_int8 < 64
  pub int16 : f.rdb_enc_int16 < 64
  pub int32 : f.rdb_enc_int32 < 64
  pub lzf : f.rdb_enc_lzf < 64
  pub int8_16 : f.rdb_enc_int8 ≢ f.rdb_enc_int16
  pub int8_32 : f.rdb_enc_int8 ≢ f.rdb_enc_int32
  pub int16_32 : f.rdb_enc_int16 ≢ f.rdb_enc_int32
  pub int8_lzf : f.rdb_enc_int8 ≢ f.rdb_enc_lzf
  pub int16_lzf : f.rdb_enc_int16 ≢ f.rdb_enc_lzf
  pub int32_lzf : f.rdb_enc_int32 ≢ f.rdb_enc_lzf
