-- ===== src/Redis/Runs.antt =====
-- Runs of the codec on concrete input, and its theorems at concrete input.
use double_swap.Base.{
  ℕ, ◌+◌, ◌-◌, ◌≡◌, ◌≢◌, refl, true, false, none, some, [], ◌∷◌, Bytes, length, inl, arith,
}
use double_swap.Base.Int.{negsuc}
use double_swap.Redis.Samples.{
  rdb_format, rdb_format-IsFormat, rdb_opcodes, memory_sink, memory_source, plain_host,
  plain_host-IsHost, digit_floats,
}
use double_swap.Redis.Rio.{Writes, RoundTrips, write_raw}
use double_swap.Redis.Endian.{big_endian}
use double_swap.Redis.Length.{save_len, load_len_by_ref, load_len}
use double_swap.Redis.Integer.{LoadFlags, encode_integer}
use double_swap.Redis.Text.{sds_encoded, save_string_object}
use double_swap.Redis.Text.Load.{LoadsAs}
use double_swap.Redis.Text.Saved.{
  length_round_trip, plain_length_round_trip, string_object_round_trip,
}
use double_swap.Redis.Scalars.{
  save_millisecond_time, load_millisecond_time, save_double_value, load_double_value,
}
use double_swap.Redis.Scalars.RoundTrip.{millisecond_time_round_trip, double_round_trip}
use double_swap.Redis.Counting.{CountsBut}
use double_swap.Redis.Object.{Value, hash_table, saved_ttl, saved_object_len, save_object}
use double_swap.Redis.Object.Code.{
  value_code, uncounted, save_object-CountsBut, saved_object_len_short,
}
use double_swap.Redis.Object.Expiry.{saved_ttl_faithful}

len_300 : save_len rdb_format memory_sink 300 (some []) ≡ some (2, some (0x41 ∷ 0x2c ∷ []))
unfolding save_len write_raw
len_300 = refl

len_70000 :
    save_len rdb_format memory_sink 70000 (some [])
    ≡ some (5, some (0x80 ∷ 0 ∷ 1 ∷ 0x11 ∷ 0x70 ∷ []))
unfolding save_len write_raw big_endian
len_70000 = refl

integer_-2 : encode_integer rdb_format (negsuc 1) ≡ some (0xc0 ∷ 0xfe ∷ [])
unfolding encode_integer
integer_-2 = refl

length_round_trip_example :
    RoundTrips memory_sink memory_source
      (save_len rdb_format memory_sink 70000)
      (load_len_by_ref rdb_format memory_source)
      (false, 70000)
length_round_trip_example =
    length_round_trip rdb_format rdb_format-IsFormat memory_sink memory_source 70000 (omega arith)

plain_length_round_trip_example :
    RoundTrips memory_sink memory_source
      (save_len rdb_format memory_sink 300)
      (load_len rdb_format memory_source)
      (false, 300)
plain_length_round_trip_example =
    plain_length_round_trip rdb_format rdb_format-IsFormat memory_sink memory_source 300
      (omega arith) (omega arith)

abbrev as_plain : LoadFlags
as_plain = record { enc = false; plain = true; sds = false; hfld = false; hfld_ttl = false }

-- 24 times the letter K, which the sample host compresses.
abbrev long_run : Bytes
long_run =
    75 ∷ 75 ∷ 75 ∷ 75 ∷ 75 ∷ 75 ∷ 75 ∷ 75 ∷ 75 ∷ 75 ∷ 75 ∷ 75 ∷ 75 ∷ 75 ∷ 75 ∷ 75 ∷ 75 ∷ 75 ∷ 75
    ∷ 75 ∷ 75 ∷ 75 ∷ 75 ∷ 75 ∷ []

string_object_round_trip_example :
    (p : Bytes) × Writes memory_sink
      (save_string_object rdb_format plain_host memory_sink (sds_encoded long_run))
      p
      (length p)
    × LoadsAs rdb_format plain_host memory_source as_plain p long_run
string_object_round_trip_example =
    string_object_round_trip rdb_format rdb_format-IsFormat memory_sink memory_source plain_host
      plain_host-IsHost as_plain (sds_encoded long_run) (omega arith) (λ k h. refl)

millisecond_time_round_trip_example :
    RoundTrips memory_sink memory_source
      (save_millisecond_time memory_sink (negsuc 0))
      (load_millisecond_time memory_source true 12)
      (negsuc 0)
millisecond_time_round_trip_example =
    millisecond_time_round_trip memory_sink memory_source (negsuc 0) true 12 (omega arith)
      (omega arith) (inl (omega arith))

double_round_trip_example :
    RoundTrips memory_sink memory_source
      (save_double_value memory_sink digit_floats 7)
      (load_double_value memory_source digit_floats)
      7
double_round_trip_example =
    double_round_trip memory_sink memory_source digit_floats 7 7 (omega arith, refl)

abbrev dated_hash : Value
dated_hash = hash_table (some 5) (record { expire = some 6; name = 65 ∷ []; value = 66 ∷ [] } ∷ [])

save_object-CountsBut_example :
    CountsBut memory_sink 8
      (save_object rdb_format rdb_opcodes plain_host memory_sink dated_hash)
      (value_code rdb_format plain_host rdb_opcodes dated_hash)
unfolding uncounted
save_object-CountsBut_example =
    save_object-CountsBut rdb_format rdb_format-IsFormat rdb_opcodes plain_host plain_host-IsHost
      memory_sink dated_hash

saved_object_len_short_example :
    (n : ℕ) × (saved_object_len rdb_format rdb_opcodes plain_host memory_sink dated_hash ≡ some n)
    × (n + 8 ≡ length (value_code rdb_format plain_host rdb_opcodes dated_hash))
unfolding uncounted
saved_object_len_short_example =
    saved_object_len_short rdb_format rdb_format-IsFormat rdb_opcodes plain_host plain_host-IsHost
      memory_sink dated_hash

saved_ttl_faithful_example :
    (saved_ttl 5 none ≡ 0) × (saved_ttl 5 (some 9) ≢ 0) × (saved_ttl 5 (some 9) - 1 + 5 ≡ 9)
saved_ttl_faithful_example = saved_ttl_faithful 5 9 (omega arith) (omega arith)
