-- ===== src/Redis/Text/Saved.antt =====
-- Strings and lengths across the file: what the savers write is what the loaders read back.
use double_swap.Base.{ℕ, ◌^◌, ◌<◌, ◌≤◌, ◌≡◌, ◌≢◌, true, false, Bytes, length}
use double_swap.Redis.Format.{Format, IsFormat}
use double_swap.Redis.Host.{Host, IsHost}
use double_swap.Redis.Rio.{Sink, Source, Writes, RoundTrips}
use double_swap.Redis.Length.{save_len, load_len_by_ref, load_len}
use double_swap.Redis.Length.Code.{len_code, save_len-Writes}
use double_swap.Redis.Length.RoundTrip.{load_len_by_ref-len_code, load_len-len_code}
use double_swap.Redis.Integer.{LoadFlags}
use double_swap.Redis.Text.{StringObject, save_string_object}
use double_swap.Redis.Text.Code.{object_code, save_string_object-Writes}
use double_swap.Redis.Text.Load.{LoadsAs, object_text_of, object_loads}

module _ (f : Format) (h : IsFormat f) (w : Sink) (r : Source) where
  -- For every uint64_t, `rdbSaveLen` sends some bytes and returns their number, failing only where
  -- the sink refuses a write, and `rdbLoadLenByRef` takes exactly those bytes, reports no special
  -- encoding and returns the number.
  pub length_round_trip :
      (n : ℕ) → n < 2 ^ 64 → RoundTrips w r (save_len f w n) (load_len_by_ref f r) (false, n)
  length_round_trip n hn =
      (len_code f n, save_len-Writes f h w n, load_len_by_ref-len_code f h r n hn)

  -- The same of `rdbLoadLen`, for every uint64_t but RDB_LENERR.
  pub plain_length_round_trip :
      (n : ℕ)
      → n < 2 ^ 64
      → n ≢ f.rdb_lenerr
      → RoundTrips w r (save_len f w n) (load_len f r) (false, n)
  plain_length_round_trip n hn ne =
      (len_code f n, save_len-Writes f h w n, load_len-len_code f h r n hn ne)

  module _ (e : Host) (i : IsHost e) (fl : LoadFlags) where
    -- For a string object whose text is shorter than 2 ^ 63 bytes, where allocations up to its
    -- length succeed: `rdbSaveStringObject` sends some bytes and returns their number, failing
    -- only where the sink refuses a write, whether it chose an integer encoding, LZF or the plain
    -- form; and `rdbGenericLoadStringObject`, with any flags, takes exactly those bytes and
    -- returns a string with the object's text.
    pub string_object_round_trip :
        (o : StringObject)
        → length (object_text_of e o) < 2 ^ 63
        → ((k : ℕ) → k ≤ length (object_text_of e o) → e.allocates k ≡ true)
        → (p : Bytes) × Writes w (save_string_object f e w o) p (length p)
          × LoadsAs f e r fl p (object_text_of e o)
    string_object_round_trip o small room = (
      object_code f e o,
      save_string_object-Writes f h e i w o,
      object_loads f h e i r fl o small room,
    )
