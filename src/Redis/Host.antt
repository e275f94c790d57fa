-- ===== src/Redis/Host.antt =====
-- What the string codes take from util.c, lzf_c.c, lzf_d.c, zmalloc.c and the server's
-- configuration, none of which this repository holds.
use double_swap.Base.{ℕ, ◌<◌, ◌≤◌, ◌≡◌, Bool, Option, some, Bytes, length}
use double_swap.Base.Int.{ℤ}

pub record Host : Type 0 where
  pub rdb_compression : Bool  -- server.rdb_compression
  pub allocates : ℕ → Bool  -- whether an allocation of so many bytes succeeds
  pub ll2string : ℤ → Bytes
  pub string2ll : Bytes → Option ℤ
  pub lzf_compress : Bytes → ℕ → Option Bytes  -- at most so many bytes; `none` is its 0
  pub lzf_decompress : Bytes → ℕ → Option Bytes  -- into a buffer of so many bytes

-- `string2ll` accepts only the text that `ll2string` prints, which fits its buffer of 32 bytes;
-- `lzf_decompress` undoes `lzf_compress`, whose output is not empty and keeps to its limit.
pub record IsHost (e : Host) : Type 0 where
  pub canonical : (s : Bytes) {v : ℤ} → e.string2ll s ≡ some v → e.ll2string v ≡ s
  pub printed : (v : ℤ) → length (e.ll2string v) < 32
  pub inflates :
      (s c : Bytes) (k : ℕ) → e.lzf_compress s k ≡ some c → e.lzf_decompress c (length s) ≡ some s
  pub deflated :
      (s c : Bytes) (k : ℕ) → e.lzf_compress s k ≡ some c → (0 < length c) × (length c ≤ k)
