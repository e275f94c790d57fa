-- ===== src/Redis/Load/Packed/Loading.antt =====
-- The values that are stored as one string are read back.
use double_swap.Base.{
  ℕ, ◌^◌, ◌≡◌, ◌≢◌, ◌≤◌, ◌⊎◌, refl, true, false, Option, some, Bytes, ltb, ==_ne, ◌++◌,
}
use double_swap.Base.Int.{ℤ, signed}
use double_swap.Redis.Format.{Format, IsFormat}
use double_swap.Redis.Host.{Host, IsHost}
use double_swap.Redis.Rio.{Source, Reads, pure-Reads, bind-Reads, bind_last-Reads}
use double_swap.Redis.Scalars.{word64, load_millisecond_time}
use double_swap.Redis.Scalars.RoundTrip.{millisecond_time-Reads}
use double_swap.Redis.Object.Streams.Code.{time_code}
use double_swap.Redis.Text.Code.{string_code}
use double_swap.Redis.Load.{load_plain, Structures, Outcome, loaded, load_text}
use double_swap.Redis.Load.Texts.{Fits, text-Reads}
use double_swap.Redis.Load.Packed.{
  Packed, lp_validate, take_intset, take_listpack, load_encoded, load_intset, load_hash_listpack_ex,
}

-- A listpack of tuples that the loader accepts, and that has entries.
pub record IsPacked (c : Structures) (tuple_len : ℕ) (l : Bytes) : Type 0 where
  pub valid : lp_validate c tuple_len l ≡ true
  pub filled : c.lp_tuples tuple_len l ≢ 0

take_listpack-some :
    (c : Structures) (n limit : ℕ) (l : Bytes)
    → IsPacked c n l
    → take_listpack c n limit l
      ≡ some (loaded (record { encoded = l; converted = ltb limit (c.lp_tuples n l) }))
unfolding take_listpack
take_listpack-some c n limit l h = rw (take_listpack, h.valid, ==_ne h.filled) refl

take_intset-some :
    (c : Structures) (l : Bytes)
    → c.intset_valid c.deep l ≡ true
    → take_intset c l
      ≡ some
          (loaded (record { encoded = l; converted = ltb c.max_intset_entries (c.intset_len l) }))
unfolding take_intset
take_intset-some c l valid = rw (take_intset, valid) refl

module _ (f : Format) (h : IsFormat f) (e : Host) (i : IsHost e) (c : Structures) (r : Source) where
  encoded-Reads :
      (take_value : Bytes → Option (Outcome Packed)) (l : Bytes) (x : Outcome Packed)
      → Fits e l
      → take_value l ≡ some x
      → Reads r (load_encoded f e c r take_value) (string_code f e l) x
  unfolding load_encoded
  encoded-Reads take_value l x fits taken =
      bind_last-Reads r (load_text f e r load_plain) _ (string_code f e l) l x
        (text-Reads f h r e i load_plain l fits) (rw taken (pure-Reads r x))

  pub intset-Reads :
      (l : Bytes)
      → Fits e l
      → c.intset_valid c.deep l ≡ true
      → Reads r
          (load_intset f e c r)
          (string_code f e l)
          (loaded (record { encoded = l; converted = ltb c.max_intset_entries (c.intset_len l) }))
  unfolding load_intset
  intset-Reads l fits valid = encoded-Reads (take_intset c) l _ fits (take_intset-some c l valid)

  -- Each of the kinds of listpack, by the length of its tuples and its limit.
  pub listpack-Reads :
      (n limit : ℕ) (l : Bytes)
      → Fits e l
      → IsPacked c n l
      → Reads r
          (load_encoded f e c r (take_listpack c n limit))
          (string_code f e l)
          (loaded (record { encoded = l; converted = ltb limit (c.lp_tuples n l) }))
  listpack-Reads n limit l fits ok =
      encoded-Reads (take_listpack c n limit) l _ fits (take_listpack-some c n limit l ok)

  -- A time in front is read and dropped.
  pub timed_listpack-Reads :
      (t : ℤ) (l : Bytes)
      → Fits e l
      → IsPacked c 3 l
      → (9 ≤ c.rdb_version) ⊎ (c.big_endian_host ≡ false)
      → Reads r (load_hash_listpack_ex f e c r false) (time_code t ++ string_code f e l) (
          loaded
            (record { encoded = l; converted = ltb c.hash_max_listpack_entries (c.lp_tuples 3 l) }))
  unfolding load_hash_listpack_ex
  timed_listpack-Reads t l fits ok order =
      bind-Reads r (load_millisecond_time r c.big_endian_host c.rdb_version) _ (time_code t)
        (string_code f e l) (signed (2 ^ 64) (word64 t)) _
        (millisecond_time-Reads r t c.big_endian_host c.rdb_version order)
        (listpack-Reads 3 c.hash_max_listpack_entries l fits ok)
