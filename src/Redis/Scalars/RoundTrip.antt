-- ===== src/Redis/Scalars/RoundTrip.antt =====
-- Times and floating-point numbers are read back as they were written.
use double_swap.Base.{
  ℕ, ◌-◌, ◌%◌, ◌^◌, ◌<◌, ◌≤◌, ◌≡◌, refl, ap, Bool, true, false, none, some, [], ◌∷◌, Bytes, leb,
  ◌==◌, ==_ne, if◌then◌else◌, length, ◌⊎◌, inl, inr, Bool-cases, pure, fail, ◌>>=◌, arith,
}
use mathlib.Core.Path.{subst}
use double_swap.Base.Int.{ℤ, pos, negsuc, ◌≤ℤ◌, signed}
use double_swap.Redis.Rio.{
  Sink, Source, RoundTrips, Reads, write_raw-Writes, read-Reads, pure-Reads, bind-Reads,
  bind_last-Reads, last_read-Reads,
}
use double_swap.Redis.Endian.{
  little_endian, from_little, from_big, length-little_endian, from_little-little_endian,
}
use double_swap.Redis.Scalars.{
  word64, Floats, save_type, save_millisecond_time, save_binary_double, save_double_value,
  load_type, load_millisecond_time, load_binary_double, load_double_value,
}

module _ (r : Source) where
  -- A number in `k` bytes, low byte first.
  little_read :
      (k n : ℕ) {A : Type 0} (g : Bytes → A) (a : A)
      → g (little_endian k n) ≡ a
      → Reads r (r.read k >>= λ buf. pure (g buf)) (little_endian k n) a
  little_read k n g a e =
      subst (λ j. Reads r (r.read j >>= λ buf. pure (g buf)) (little_endian k n) a)
        (length-little_endian k n) (last_read-Reads r (little_endian k n) g a e)

  -- What a time is read as, on a host of either byte order.
  pub millisecond_time-Reads :
      (t : ℤ) (be : Bool) (rdbver : ℕ)
      → (9 ≤ rdbver) ⊎ (be ≡ false)
      → Reads r
          (load_millisecond_time r be rdbver)
          (little_endian 8 (word64 t))
          (signed (2 ^ 64) (word64 t))
  unfolding load_millisecond_time
  millisecond_time-Reads t be rdbver ok =
      little_read 8 (word64 t) _ _ (ap (signed (2 ^ 64)) decoded)
    where
      back : from_little (little_endian 8 (word64 t)) ≡ word64 t
      back = from_little-little_endian 8 (word64 t) (ground arith)

      decoded :
          (if leb 9 rdbver
            then from_little (little_endian 8 (word64 t))
            else if be
            then from_big (little_endian 8 (word64 t))
            else from_little (little_endian 8 (word64 t)))
          ≡ word64 t
      decoded = ground (arith, back)

  pub binary_double-Reads :
      (v : ℕ) → v < 2 ^ 64 → Reads r (load_binary_double r) (little_endian 8 v) v
  unfolding load_binary_double
  binary_double-Reads v hv = little_read 8 v from_little v (from_little-little_endian 8 v hv)

module _ (w : Sink) (r : Source) where
  pub type_round_trip : (t : ℕ) → t < 256 → RoundTrips w r (save_type w t) (load_type r) t
  unfolding save_type load_type
  type_round_trip t ht =
      (t % 256 ∷ [], write_raw-Writes w _, last_read-Reads r (t % 256 ∷ []) _ t (omega arith))

  pub signed-word64 :
      (t : ℤ) → negsuc (2 ^ 63 - 1) ≤ℤ t → t ≤ℤ pos (2 ^ 63 - 1) → signed (2 ^ 64) (word64 t) ≡ t
  signed-word64 t lo hi = ground arith

  -- A time from -2 ^ 63 to 2 ^ 63 - 1 comes back, on a host of either byte order, if the file's
  -- version is 9 or more, and on a little-endian host at every version.
  pub millisecond_time_round_trip :
      (t : ℤ) (big_endian_host : Bool) (rdbver : ℕ)
      → negsuc (2 ^ 63 - 1) ≤ℤ t
      → t ≤ℤ pos (2 ^ 63 - 1)
      → (9 ≤ rdbver) ⊎ (big_endian_host ≡ false)
      → RoundTrips w r
          (save_millisecond_time w t)
          (load_millisecond_time r big_endian_host rdbver)
          t
  unfolding save_millisecond_time
  millisecond_time_round_trip t be rdbver lo hi ok = (
    little_endian 8 (word64 t),
    write_raw-Writes w _,
    subst (Reads r (load_millisecond_time r be rdbver) (little_endian 8 (word64 t)))
        (signed-word64 t lo hi) (millisecond_time-Reads r t be rdbver ok),
  )

  pub binary_double_round_trip :
      (v : ℕ) → v < 2 ^ 64 → RoundTrips w r (save_binary_double w v) (load_binary_double r) v
  unfolding save_binary_double
  binary_double_round_trip v hv =
      (little_endian 8 v, write_raw-Writes w _, binary_double-Reads r v hv)

  -- What the text form stands for: the three special values have codes of their own, and any
  -- other value is printed in fewer than 253 characters that `sscanf` reads back.
  abbrev pub Reloads : (d : Floats) → d.Double → d.Double → Type 0
  Reloads d val back =
      if d.is_nan val
      then back ≡ d.r_nan
      else if d.is_finite val
      then (length (d.print val) < 253) × (d.scan (d.print val) ≡ some back)
      else if d.is_negative val
      then back ≡ d.r_neg_inf
      else back ≡ d.r_pos_inf

  special_read :
      (d : Floats) (b : ℕ) (x : d.Double)
      → (if b == 255
          then pure d.r_neg_inf
          else if b == 254
          then pure d.r_pos_inf
          else if b == 253
          then pure d.r_nan
          else (do text ← r.read b; elim (d.scan text) [ none ↦ fail | some val ↦ pure val ]))
        ≡ pure x
      → Reads r (load_double_value r d) (b ∷ []) x
  unfolding load_double_value
  special_read d b x e =
      bind_last-Reads r (r.read 1) _ (b ∷ []) (b ∷ []) x (read-Reads r (b ∷ []))
        (rw e (pure-Reads r x))

  text_read :
      (d : Floats) (text : Bytes) (x : d.Double)
      → length text < 253
      → d.scan text ≡ some x
      → Reads r (load_double_value r d) (length text ∷ text) x
  unfolding load_double_value
  text_read d text x small scans =
      bind-Reads r (r.read 1) _ (length text ∷ []) text (length text ∷ []) x
        (read-Reads r (length text ∷ []))
        (rw
          (
            ==_ne {a = length text} {b = 255} (λ p. absurd (omega arith)),
            ==_ne {a = length text} {b = 254} (λ p. absurd (omega arith)),
            ==_ne {a = length text} {b = 253} (λ p. absurd (omega arith)),
          )
          (bind_last-Reads r (r.read (length text)) _ text text x (read-Reads r text)
            (rw scans (pure-Reads r x))))

  -- If `back` is what the text form of `val` stands for, which is a special value, or what `sscanf`
  -- reads of the fewer than 253 characters that the printer gives, then `rdbSaveDoubleValue` sends
  -- some bytes and returns their number, and `rdbLoadDoubleValue` takes those and returns `back`.
  pub double_round_trip :
      (d : Floats) (val back : d.Double)
      → Reloads d val back
      → RoundTrips w r (save_double_value w d val) (load_double_value r d) back
  unfolding save_double_value
  double_round_trip d val back h = elim (Bool-cases (d.is_nan val)) [
    | inl nan ↦ (
      253 ∷ [],
      rw nan (write_raw-Writes w _),
      rw (rw nan at h) (special_read d 253 d.r_nan refl),
    )
    | inr num ↦ elim (Bool-cases (d.is_finite val)) [
      | inl fin ↦ text_form num fin
      | inr inf ↦ elim (Bool-cases (d.is_negative val)) [
        | inl neg ↦ (
          255 ∷ [],
          rw (num, inf, neg) (write_raw-Writes w _),
          rw (rw (num, inf, neg) at h) (special_read d 255 d.r_neg_inf refl),
        )
        | inr nonneg ↦ (
          254 ∷ [],
          rw (num, inf, nonneg) (write_raw-Writes w _),
          rw (rw (num, inf, nonneg) at h) (special_read d 254 d.r_pos_inf refl),
        )
      ]
    ]
  ]
    where
      text_form :
          d.is_nan val ≡ false
          → d.is_finite val ≡ true
          → RoundTrips w r (save_double_value w d val) (load_double_value r d) back
      text_form num fin =
          let (small, scans) = rw (num, fin) at h in
          let whole : length (d.print val) % 256 ≡ length (d.print val) = omega arith in
          (
            length (d.print val) ∷ d.print val,
            rw (num, fin, whole) (write_raw-Writes w _),
            text_read d (d.print val) back small scans,
          )
