-- ===== src/Redis/Text/Code.antt =====
-- The bytes of a string's code, and that the functions of `Text` write them and count them.
use double_swap.Base.{
  ℕ, ◌+◌, ◌*◌, ◌%◌, ◌^◌, bit_or, ◌≡◌, refl, true, ◌&&◌, Option, none, some, [], ◌∷◌, ◌++◌, Bytes,
  ltb, if◌then◌else◌, length, length-append, append-nil, append_assoc, inl, inr, Bool-cases,
  zero-ltb-suc, pure, ◌>>=◌, arith,
}
use double_swap.Base.Bits.{shifted-bit_or}
use double_swap.Base.Int.{ℤ}
use double_swap.Redis.Format.{Format, IsFormat}
use double_swap.Redis.Rio.{
  Sink, Writes, Writes-cast, write_raw-Writes, pure-Writes, bind-Writes, one_write-Writes,
}
use double_swap.Redis.Host.{Host, IsHost}
use double_swap.Redis.Length.Code.{len_code, save_len-Writes}
use double_swap.Redis.Integer.{encode_integer}
use double_swap.Redis.Text.{
  StringObject, int_encoded, sds_encoded, save_lzf_blob, lzf_form, save_lzf_string, save_verbatim,
  integer_form, save_raw_string, save_long_long_as_string, save_string_object,
}

module _ (f : Format) where
  unfoldable pub blob_code : Bytes → ℕ → Bytes
  blob_code c original =
      (f.rdb_encval * 64 + f.rdb_enc_lzf) ∷ (len_code f (length c) ++ (len_code f original ++ c))

  unfoldable pub verbatim_code : Bytes → Bytes
  verbatim_code s = len_code f (length s) ++ s

module _ (f : Format) (e : Host) where
  unfoldable pub string_code : Bytes → Bytes
  string_code s = elim (integer_form f e s) [
    | some enc ↦ enc
    | none ↦
        if e.rdb_compression && ltb 20 (length s)
        then elim (lzf_form e s) [ some c ↦ blob_code f c (length s) | none ↦ verbatim_code f s ]
        else verbatim_code f s
  ]

  unfoldable pub object_code : StringObject → Bytes
  object_code (int_encoded v) = elim (encode_integer f v) [
    | some enc ↦ enc
    | none ↦ verbatim_code f (e.ll2string v)
  ]
  object_code (sds_encoded s) = string_code s

module _ (f : Format) (h : IsFormat f) (e : Host) (i : IsHost e) (w : Sink) where
  lzf_byte : bit_or (f.rdb_encval * 2 ^ 6) f.rdb_enc_lzf % 256 ≡ f.rdb_encval * 64 + f.rdb_enc_lzf
  lzf_byte =
      rw (shifted-bit_or 6 f.rdb_encval f.rdb_enc_lzf h.lzf) (omega (arith, h.tag_enc, h.lzf))

  pub save_lzf_blob-Writes :
      (c : Bytes) (n : ℕ)
      → Writes w (save_lzf_blob f e w c n) (blob_code f c n) (length (blob_code f c n))
  unfolding save_lzf_blob blob_code
  save_lzf_blob-Writes c n = rw lzf_byte (
      Writes-cast w shape count (
        bind-Writes w _ (write_raw-Writes w _) (
          bind-Writes w _ (save_len-Writes f h w (length c)) (
            bind-Writes w _ (save_len-Writes f h w n)
              (bind-Writes w _ (write_raw-Writes w c) (pure-Writes w _))))))
    where
      shape :
          ((f.rdb_encval * 64 + f.rdb_enc_lzf) ∷ [])
            ++ (len_code f (length c) ++ (len_code f n ++ (c ++ [])))
          ≡ blob_code f c n
      shape = simp (append-nil, append_assoc)

      count :
          1 + length (len_code f (length c)) + length (len_code f n) + length c
          ≡ length (blob_code f c n)
      count = omega (
        arith,
        length-append (len_code f (length c)) (len_code f n ++ c),
        length-append (len_code f n) c,
      )

  pub save_verbatim-Writes :
      (s : Bytes)
      → Writes w (save_verbatim f e w s) (verbatim_code f s) (length (verbatim_code f s))
  unfolding save_verbatim verbatim_code
  save_verbatim-Writes [] =
      bind-Writes w _ (save_len-Writes f h w 0)
        (Writes-cast w refl (omega (arith, length-append (len_code f 0) [])) (pure-Writes w _))
  save_verbatim-Writes (b ∷ s) = bind-Writes w _ (save_len-Writes f h w (length (b ∷ s))) (
      rw (zero-ltb-suc (length s)) (
        Writes-cast w refl (omega (arith, length-append (len_code f (length (b ∷ s))) (b ∷ s)))
          (one_write-Writes w (b ∷ s) [] _)))

  save_lzf_string-some :
      (s c : Bytes)
      → lzf_form e s ≡ some c
      → Writes w
          (save_lzf_string f e w s)
          (blob_code f c (length s))
          (length (blob_code f c (length s)))
  unfolding save_lzf_string
  save_lzf_string-some s c g = rw (g, save_lzf_string) (save_lzf_blob-Writes c (length s))

  save_lzf_string-none : (s : Bytes) → lzf_form e s ≡ none → Writes w (save_lzf_string f e w s) [] 0
  unfolding save_lzf_string
  save_lzf_string-none s g = rw (g, save_lzf_string) (pure-Writes w 0)

  positive : (c : Bytes) (n : ℕ) → ltb 0 (length (blob_code f c n)) ≡ true
  unfolding blob_code
  positive c n = zero-ltb-suc _

  -- The part of `rdbSaveRawString` behind the integer encoding.
  compress_or_not :
      (s : Bytes) (o : Option Bytes)
      → lzf_form e s ≡ o
      → Writes w
          (do n ← save_lzf_string f e w s; if ltb 0 n then pure n else save_verbatim f e w s)
          (elim o [ some c ↦ blob_code f c (length s) | none ↦ verbatim_code f s ])
          (length (elim o [ some c ↦ blob_code f c (length s) | none ↦ verbatim_code f s ]))
  compress_or_not s none g = bind-Writes w _ (save_lzf_string-none s g) (save_verbatim-Writes s)
  compress_or_not s (some c) g =
      Writes-cast w (append-nil _) refl (
        bind-Writes w _ (save_lzf_string-some s c g) (rw (positive c (length s)) (pure-Writes w _)))

  pub save_raw_string-Writes :
      (s : Bytes)
      → Writes w (save_raw_string f e w s) (string_code f e s) (length (string_code f e s))
  unfolding save_raw_string string_code
  save_raw_string-Writes s = by_form (integer_form f e s) refl
    where
      by_form :
          (o : Option Bytes)
          → integer_form f e s ≡ o
          → Writes w (save_raw_string f e w s) (string_code f e s) (length (string_code f e s))
      by_form (some enc) g = rw (g, save_raw_string, string_code) (one_write-Writes w enc [] _)
      by_form none g =
          rw (g, save_raw_string, string_code)
            (elim (Bool-cases (e.rdb_compression && ltb 20 (length s))) [
              | inl c ↦ rw c (compress_or_not s (lzf_form e s) refl)
              | inr c ↦ rw c (save_verbatim-Writes s)
            ])

  pub save_long_long_as_string-Writes :
      (v : ℤ)
      → Writes w
          (save_long_long_as_string f e w v)
          (object_code f e (int_encoded v))
          (length (object_code f e (int_encoded v)))
  unfolding save_long_long_as_string object_code verbatim_code
  save_long_long_as_string-Writes v = by_form (encode_integer f v) refl
    where
      by_form :
          (o : Option Bytes)
          → encode_integer f v ≡ o
          → Writes w
              (save_long_long_as_string f e w v)
              (object_code f e (int_encoded v))
              (length (object_code f e (int_encoded v)))
      by_form (some enc) g = rw (g, save_long_long_as_string, object_code) (write_raw-Writes w enc)
      by_form none g =
          rw (g, save_long_long_as_string, object_code)
            (bind-Writes w _ (save_len-Writes f h w (length (e.ll2string v))) (
              Writes-cast w (append-nil _)
                (omega (arith, length-append (len_code f (length (e.ll2string v))) (e.ll2string v)))
                (bind-Writes w _ (write_raw-Writes w (e.ll2string v)) (pure-Writes w _))))

  -- Saving a string object sends its code and returns the code's length.
  pub save_string_object-Writes :
      (o : StringObject)
      → Writes w (save_string_object f e w o) (object_code f e o) (length (object_code f e o))
  unfolding save_string_object
  save_string_object-Writes (int_encoded v) = save_long_long_as_string-Writes v
  save_string_object-Writes (sds_encoded s) = unfold object_code in save_raw_string-Writes s
