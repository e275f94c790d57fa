-- ===== src/Redis/Text.antt =====
-- redis/rdb.c: string values, `rdbSaveLzfBlob` to `rdbSaveStringObject` and
-- `rdbLoadLzfStringObject`, `rdbGenericLoadStringObject`.
pub mod Code
pub mod Load
pub mod Saved
use double_swap.Base.{
  ℕ, ◌+◌, ◌-◌, ◌*◌, ◌%◌, ◌^◌, bit_or, Bool, true, false, ◌&&◌, ◌||◌, Option, none, some, [], ◌∷◌,
  Bytes, ltb, leb, ◌==◌, if◌then◌else◌, length, Step, pure, fail, ◌>>=◌,
}
use double_swap.Base.Int.{ℤ}
use double_swap.Redis.Format.{Format}
use double_swap.Redis.Rio.{Sink, Source, Rdb, write_raw}
use double_swap.Redis.Host.{Host}
use double_swap.Redis.Length.{save_len, load_len}
use double_swap.Redis.Integer.{
  encode_integer, try_integer_encoding, LoadFlags, Loaded, object_text, buffer_kind,
  load_integer_object,
}

-- A string object: OBJ_ENCODING_INT, or an sds.
pub data StringObject : Type 0 where
  int_encoded : ℤ → StringObject
  sds_encoded : Bytes → StringObject

-- What `rdbSaveLzfStringObject` finds to save: nothing if the text is short, an allocation
-- fails or it does not shrink.
unfoldable pub lzf_form : Host → Bytes → Option Bytes
lzf_form e s =
    if leb (length s) 4
    then none
    else if e.allocates (length s - 4 + 1)
    then e.lzf_compress s (length s - 4)
    else none

-- The integer encoding that `rdbSaveRawString` tries first.
unfoldable pub integer_form : Format → Host → Bytes → Option Bytes
integer_form f e s = if leb (length s) 11 then try_integer_encoding f e s else none

module _ (f : Format) (e : Host) (w : Sink) where
  -- `rdbSaveLzfBlob`, of the compressed bytes and the original length.
  unfoldable pub save_lzf_blob : Bytes → ℕ → Step (Rdb w) ℕ
  save_lzf_blob compressed original_len = do
    n₀ ← write_raw w (bit_or (f.rdb_encval * 2 ^ 6) f.rdb_enc_lzf % 256 ∷ [])
    n₁ ← save_len f w (length compressed)
    n₂ ← save_len f w original_len
    n₃ ← write_raw w compressed
    pure (n₀ + n₁ + n₂ + n₃)

  -- `rdbSaveLzfStringObject`
  unfoldable pub save_lzf_string : Bytes → Step (Rdb w) ℕ
  save_lzf_string s = elim (lzf_form e s) [ none ↦ pure 0 | some c ↦ save_lzf_blob c (length s) ]

  -- "Store verbatim", the end of `rdbSaveRawString`.
  unfoldable pub save_verbatim : Bytes → Step (Rdb w) ℕ
  save_verbatim s = do
    n ← save_len f w (length s)
    if ltb 0 (length s) then (do k ← write_raw w s; pure (n + length s)) else pure n

  -- `rdbSaveRawString`
  unfoldable pub save_raw_string : Bytes → Step (Rdb w) ℕ
  unfolding integer_form
  save_raw_string s = elim (integer_form f e s) [
    | some enc ↦ do n ← write_raw w enc; pure (length enc)
    | none ↦
        if e.rdb_compression && ltb 20 (length s)
        then (do n ← save_lzf_string s; if ltb 0 n then pure n else save_verbatim s)
        else save_verbatim s
  ]

  -- `rdbSaveLongLongAsStringObject`
  unfoldable pub save_long_long_as_string : ℤ → Step (Rdb w) ℕ
  save_long_long_as_string value = elim (encode_integer f value) [
    | some enc ↦ write_raw w enc
    | none ↦ do
      n ← save_len f w (length (e.ll2string value))
      k ← write_raw w (e.ll2string value)
      pure (n + k)
  ]

  -- `rdbSaveStringObject`
  unfoldable pub save_string_object : StringObject → Step (Rdb w) ℕ
  save_string_object (int_encoded v) = save_long_long_as_string v
  save_string_object (sds_encoded s) = save_raw_string s

-- The string as the flags ask for it; the object is `createObject(OBJ_STRING,val)`.
unfoldable pub as_asked : LoadFlags → Bytes → Loaded
unfolding buffer_kind
as_asked fl p = elim (buffer_kind fl p) [ some x ↦ x | none ↦ object_text p ]

-- The call of `lzf_decompress`, which must fill the whole buffer.
unfoldable pub inflate : Host → Bytes → ℕ → Option Bytes
inflate e c len = elim (e.lzf_decompress c len) [
  | none ↦ none
  | some val ↦ if length val == len then some val else none
]

module _ (f : Format) (e : Host) (r : Source) where
  -- `rdbLoadLzfStringObject`, with what it stores at `*lenptr`.
  unfoldable pub load_lzf_string : LoadFlags → Step r.Stream (Loaded × Option ℕ)
  unfolding as_asked
  load_lzf_string fl = do
    (_, clen) ← load_len f r
    (_, len) ← load_len f r
    if e.allocates clen && e.allocates len
        then (do
          c ← r.read clen
          elim (inflate e c len) [ none ↦ fail | some val ↦ pure (as_asked fl val, some len) ])
        else fail

  -- The bytes of a string stored as such; nothing is read of an empty one.
  unfoldable pub read_text : ℕ → Step r.Stream Bytes
  read_text len = if e.allocates len then (if len == 0 then pure [] else r.read len) else fail

  -- `rdbGenericLoadStringObject`, with what it stores at `*lenptr`.
  unfoldable pub load_string : LoadFlags → Step r.Stream (Loaded × Option ℕ)
  unfolding as_asked read_text
  load_string fl = do
    (isencoded, len) ← load_len f r
    if isencoded
        then (if len == f.rdb_enc_int8 || len == f.rdb_enc_int16 || len == f.rdb_enc_int32
            then load_integer_object f e r len fl
            else if len == f.rdb_enc_lzf
            then load_lzf_string fl
            else fail)
        else (do
          p ← read_text len
          pure (as_asked fl p, elim (buffer_kind fl p) [ some x ↦ some len | none ↦ none ]))
