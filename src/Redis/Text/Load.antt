-- ===== src/Redis/Text/Load.antt =====
-- `rdbGenericLoadStringObject` reads back what the string functions wrote.
use double_swap.Base.{
  ℕ, ◌+◌, ◌-◌, ◌*◌, ◌^◌, ◌<◌, ◌≤◌, ◌≡◌, refl, sym, ◌∙◌, true, false, ◌&&◌, ◌||◌, Option, none, some,
  [], ◌∷◌, ◌++◌, Bytes, ltb, ◌==◌, ==_ne, ==_self, if◌then◌else◌, length, inl, inr, Bool-cases,
  Step, fail, arith,
}
use double_swap.Base.Int.{ℤ}
use double_swap.Redis.Format.{Format, IsFormat}
use double_swap.Redis.Rio.{Source, Reads, read-Reads, pure-Reads, bind-Reads, bind_last-Reads}
use double_swap.Redis.Host.{Host, IsHost}
use double_swap.Redis.Length.{load_len}
use double_swap.Redis.Length.Code.{len_code}
use double_swap.Redis.Length.RoundTrip.{load_len-len_code, load_len_encval}
use double_swap.Redis.Integer.{
  encode_integer, try_integer_encoding, LoadFlags, Loaded, plain_text, sds_text, object_text,
  hash_field, object_for_value, object_with_sds, buffer_kind, integer_result, load_integer_object,
}
use double_swap.Redis.Integer.Image.{IsIntegerType, encode_integer_image}
use double_swap.Redis.Text.{
  as_asked, inflate, load_lzf_string, read_text, load_string, lzf_form, integer_form, StringObject,
  int_encoded, sds_encoded,
}
use double_swap.Redis.Text.Code.{blob_code, verbatim_code, string_code, object_code}

-- The bytes of a loaded string; an object made of a number spells it.
abbrev pub text_of : Host → Loaded → Bytes
text_of e (plain_text p) = p
text_of e (sds_text p) = p
text_of e (object_text p) = p
text_of e (hash_field ttl p) = p
text_of e (object_for_value v) = e.ll2string v
text_of e (object_with_sds v) = e.ll2string v

integer_result_text :
    (e : Host) (fl : LoadFlags) (v : ℤ) → text_of e (integer_result e fl v).0 ≡ e.ll2string v
unfolding integer_result buffer_kind
integer_result_text e fl v = ground arith

as_asked_text : (e : Host) (fl : LoadFlags) (p : Bytes) → text_of e (as_asked fl p) ≡ p
unfolding as_asked buffer_kind
as_asked_text e fl p = ground arith

-- The text of a string object.
abbrev pub object_text_of : Host → StringObject → Bytes
object_text_of e (int_encoded v) = e.ll2string v
object_text_of e (sds_encoded s) = s

-- The string `s` is read from the bytes `p`.
abbrev pub LoadsAs : Format → Host → Source → LoadFlags → Bytes → Bytes → Type 0
LoadsAs f e r fl p s =
    (x : Loaded × Option ℕ) × Reads r (load_string f e r fl) p x × (text_of e x.0 ≡ s)

module _ (f : Format) (h : IsFormat f) (e : Host) (i : IsHost e) (r : Source) (fl : LoadFlags) where
  -- The branch of `load_string` behind an encoding byte.
  by_encoding : ℕ → Step r.Stream (Loaded × Option ℕ)
  by_encoding len =
      if len == f.rdb_enc_int8 || len == f.rdb_enc_int16 || len == f.rdb_enc_int32
      then load_integer_object f e r len fl
      else if len == f.rdb_enc_lzf
      then load_lzf_string f e r fl
      else fail

  behind_encval :
      (t : ℕ) (q : Bytes) (x : Loaded × Option ℕ)
      → t < 64
      → Reads r (by_encoding t) q x
      → Reads r (load_string f e r fl) ((f.rdb_encval * 64 + t) ∷ q) x
  unfolding load_string by_encoding
  behind_encval t q x ht tail =
      bind-Reads r (load_len f r) _ ((f.rdb_encval * 64 + t) ∷ []) q (true, t) x
        (load_len_encval f h r t ht) tail

  integer_branch : (t : ℕ) → IsIntegerType f t → by_encoding t ≡ load_integer_object f e r t fl
  unfolding by_encoding
  integer_branch t kind = rw is_integer
    where
      is_integer : (t == f.rdb_enc_int8 || t == f.rdb_enc_int16 || t == f.rdb_enc_int32) ≡ true
      is_integer = ground arith

  -- An integer encoding is read back as the text of its number.
  integer_loads :
      (v : ℤ) (p : Bytes) → encode_integer f v ≡ some p → LoadsAs f e r fl p (e.ll2string v)
  integer_loads v p made =
      let (t, q, shape, small, kind, reads) = encode_integer_image f h e r fl v p made in
      (
        integer_result e fl v,
        rw shape (behind_encval t q _ small (rw (integer_branch t kind) reads)),
        integer_result_text e fl v,
      )

  lzf_branch : by_encoding f.rdb_enc_lzf ≡ load_lzf_string f e r fl
  unfolding by_encoding
  lzf_branch = rw (
    ==_ne (λ p. h.int8_lzf (sym p)),
    ==_ne (λ p. h.int16_lzf (sym p)),
    ==_ne (λ p. h.int32_lzf (sym p)),
    ==_self f.rdb_enc_lzf,
  )

  -- Lengths below 2 ^ 63 are no RDB_LENERR.
  load_size : (n : ℕ) → n < 2 ^ 63 → Reads r (load_len f r) (len_code f n) (false, n)
  load_size n small =
      load_len-len_code f h r n (omega arith) (λ p. absurd (omega (arith, h.lenerr)))

  lzf_tail-Reads :
      (s c : Bytes)
      → length s < 2 ^ 63
      → length c < 2 ^ 63
      → e.allocates (length s) ≡ true
      → e.allocates (length c) ≡ true
      → e.lzf_decompress c (length s) ≡ some s
      → Reads r
          (load_lzf_string f e r fl)
          (len_code f (length c) ++ (len_code f (length s) ++ c))
          (as_asked fl s, some (length s))
  unfolding load_lzf_string
  lzf_tail-Reads s c hs hc room room_c back =
      bind-Reads r _ _ (len_code f (length c)) _ (false, length c) _ (load_size (length c) hc)
        (bind-Reads r _ _ (len_code f (length s)) c (false, length s) _ (load_size (length s) hs)
          (rw (room_c, room)
            (bind_last-Reads r (r.read (length c)) _ c c (as_asked fl s, some (length s))
              (read-Reads r c)
              (rw (inflates, ◌&&◌) (pure-Reads r (as_asked fl s, some (length s)))))))
    where
      inflates : inflate e c (length s) ≡ some s
      inflates = unfold inflate in rw (back, inflate, ==_self (length s))

  read_text-Reads :
      (s : Bytes) → e.allocates (length s) ≡ true → Reads r (read_text f e r (length s)) s s
  unfolding read_text
  read_text-Reads [] room = rw room (pure-Reads r [])
  read_text-Reads (b ∷ s) room =
      rw (room, ==_ne {a = length (b ∷ s)} {b = 0} (λ p. absurd (omega arith)))
        (read-Reads r (b ∷ s))

  verbatim_loads :
      (s : Bytes)
      → length s < 2 ^ 63
      → e.allocates (length s) ≡ true
      → LoadsAs f e r fl (verbatim_code f s) s
  unfolding load_string verbatim_code
  verbatim_loads s hs room =
      let l : Option ℕ = elim (buffer_kind fl s) [ some x ↦ some (length s) | none ↦ none ] in
      (
        (as_asked fl s, l),
        bind-Reads r (load_len f r) _ (len_code f (length s)) s (false, length s) (as_asked fl s, l)
            (load_size (length s) hs)
            (bind_last-Reads r (read_text f e r (length s)) _ s s (as_asked fl s, l)
              (read_text-Reads s room) (pure-Reads r (as_asked fl s, l))),
        as_asked_text e fl s,
      )

  integer_form_inverted :
      (s enc : Bytes)
      → integer_form f e s ≡ some enc
      → (v : ℤ) × (e.string2ll s ≡ some v) × (encode_integer f v ≡ some enc)
  unfolding integer_form try_integer_encoding
  integer_form_inverted s enc made = by_parse (e.string2ll s) refl
    where
      by_parse :
          (o : Option ℤ)
          → e.string2ll s ≡ o
          → (v : ℤ) × (e.string2ll s ≡ some v) × (encode_integer f v ≡ some enc)
      by_parse none g = absurd (ground arith)
      by_parse (some v) g = (v, g, ground arith)

  lzf_form_inverted :
      (s c : Bytes) → lzf_form e s ≡ some c → e.lzf_compress s (length s - 4) ≡ some c
  unfolding lzf_form
  lzf_form_inverted s c made = ground arith

  -- A compressed string is read back from its blob.
  pub blob_loads :
      (s c : Bytes)
      → length s < 2 ^ 63
      → length c < 2 ^ 63
      → e.allocates (length s) ≡ true
      → e.allocates (length c) ≡ true
      → e.lzf_decompress c (length s) ≡ some s
      → LoadsAs f e r fl (blob_code f c (length s)) s
  unfolding blob_code
  blob_loads s c hs hc room room_c back = (
    (as_asked fl s, some (length s)),
    behind_encval f.rdb_enc_lzf _ _ h.lzf
        (rw lzf_branch (lzf_tail-Reads s c hs hc room room_c back)),
    as_asked_text e fl s,
  )

  lzf_loads :
      (s c : Bytes)
      → length s < 2 ^ 63
      → ((k : ℕ) → k ≤ length s → e.allocates k ≡ true)
      → lzf_form e s ≡ some c
      → LoadsAs f e r fl (blob_code f c (length s)) s
  lzf_loads s c hs room made =
      let squeezed = lzf_form_inverted s c made in
      let fits = (i.deflated s c (length s - 4) squeezed).1 in
      blob_loads s c hs (omega arith) (room (length s) (omega arith))
        (room (length c) (omega arith)) (i.inflates s c (length s - 4) squeezed)

  -- A raw string is read back from its code.
  pub string_loads :
      (s : Bytes)
      → length s < 2 ^ 63
      → ((k : ℕ) → k ≤ length s → e.allocates k ≡ true)
      → LoadsAs f e r fl (string_code f e s) s
  string_loads s hs room = by_form (integer_form f e s) refl
    where
      by_squeeze :
          (o : Option Bytes)
          → lzf_form e s ≡ o
          → LoadsAs f e r fl
              (elim o [ some c ↦ blob_code f c (length s) | none ↦ verbatim_code f s ])
              s
      by_squeeze none g = verbatim_loads s hs (room (length s) (omega arith))
      by_squeeze (some c) g = lzf_loads s c hs room g

      by_form : (o : Option Bytes) → integer_form f e s ≡ o → LoadsAs f e r fl (string_code f e s) s
      by_form (some enc) g =
          let (v, parsed, made) = integer_form_inverted s enc g in
          let (x, reads, text) = integer_loads v enc made in
          (x, unfold string_code in rw (g, string_code) reads, text ∙ i.canonical s parsed)
      by_form none g =
          unfold string_code in
          rw (g, string_code)
            (elim (Bool-cases (e.rdb_compression && ltb 20 (length s))) [
              | inl c ↦ rw c (by_squeeze (lzf_form e s) refl)
              | inr c ↦ rw c (verbatim_loads s hs (room (length s) (omega arith)))
            ])

  -- A string object's text is read back from its code.
  pub object_loads :
      (o : StringObject)
      → length (object_text_of e o) < 2 ^ 63
      → ((k : ℕ) → k ≤ length (object_text_of e o) → e.allocates k ≡ true)
      → LoadsAs f e r fl (object_code f e o) (object_text_of e o)
  unfolding object_code
  object_loads (sds_encoded s) hs room = string_loads s hs room
  object_loads (int_encoded v) hs room = by_form (encode_integer f v) refl
    where
      by_form :
          (o : Option Bytes)
          → encode_integer f v ≡ o
          → LoadsAs f e r fl (object_code f e (int_encoded v)) (e.ll2string v)
      by_form (some enc) g = rw (g, object_code) (integer_loads v enc g)
      by_form none g =
          rw (g, object_code) (verbatim_loads (e.ll2string v) hs (room _ (omega arith)))
