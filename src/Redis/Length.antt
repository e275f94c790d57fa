-- ===== src/Redis/Length.antt =====
-- redis/rdb.c: the variable-length code of a length, `rdbSaveLen`, `rdbLoadLenByRef` and
-- `rdbLoadLen`. Lengths are uint64_t, and C's -1 is the failure of a `Step`.
pub mod Code
pub mod RoundTrip
use double_swap.Base.{
  ℕ, ◌+◌, ◌-◌, ◌*◌, ◌/◌, ◌%◌, ◌^◌, bit_and, bit_or, Bool, true, false, [], ◌∷◌, Bytes, ltb, leb,
  ◌==◌, if◌then◌else◌, get_or, Step, pure, fail, ◌>>=◌, ◌>>◌,
}
use double_swap.Redis.Format.{Format}
use double_swap.Redis.Rio.{Sink, Source, Rdb, write_raw}
use double_swap.Redis.Endian.{big_endian, from_big}

module _ (f : Format) (w : Sink) where
  -- `rdbSaveLen`. A `buf[i] = e` keeps the low byte of `e`.
  unfoldable pub save_len : ℕ → Step (Rdb w) ℕ
  save_len len =
      if ltb len (2 ^ 6)
      then (do write_raw w (bit_or (len % 256) (f.rdb_6bitlen * 2 ^ 6) % 256 ∷ []); pure 1)
      else if ltb len (2 ^ 14)
      then (do
        write_raw w (bit_or (len / 2 ^ 8 % 256) (f.rdb_14bitlen * 2 ^ 6) % 256 ∷ len % 256 ∷ [])
        pure 2)
      else if leb len (2 ^ 32 - 1)
      then (do write_raw w (f.rdb_32bitlen ∷ []); write_raw w (big_endian 4 len); pure (1 + 4))
      else (do write_raw w (f.rdb_64bitlen ∷ []); write_raw w (big_endian 8 len); pure (1 + 8))

module _ (f : Format) (r : Source) where
  -- The branches of `rdbLoadLenByRef` behind the first byte. The result is `*isencoded` and
  -- `*lenptr`.
  unfoldable pub load_len_tail : ℕ → Step r.Stream (Bool × ℕ)
  load_len_tail b =
      let type = bit_and b 0xC0 / 2 ^ 6 in
      if type == f.rdb_encval
      then pure (true, bit_and b 0x3F)
      else if type == f.rdb_6bitlen
      then pure (false, bit_and b 0x3F)
      else if type == f.rdb_14bitlen
      then (do buf ← r.read 1; pure (false, bit_or (bit_and b 0x3F * 2 ^ 8) (get_or buf 0 0)))
      else if b == f.rdb_32bitlen
      then (do buf ← r.read 4; pure (false, from_big buf))
      else if b == f.rdb_64bitlen
      then (do buf ← r.read 8; pure (false, from_big buf))
      else fail

  -- `rdbLoadLenByRef`
  unfoldable pub load_len_by_ref : Step r.Stream (Bool × ℕ)
  unfolding load_len_tail
  load_len_by_ref = do buf ← r.read 1; load_len_tail (get_or buf 0 0)

  -- `rdbLoadLen`: a failure is its RDB_LENERR, which a stored value may also be.
  unfoldable pub load_len : Step r.Stream (Bool × ℕ)
  unfolding load_len_by_ref
  load_len = do
    (isencoded, len) ← load_len_by_ref
    if len == f.rdb_lenerr then fail else pure (isencoded, len)
