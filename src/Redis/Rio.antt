-- ===== src/Redis/Rio.antt =====
-- rio.c, which this repository does not hold, as two interfaces, and `rdbWriteRaw` over them.
-- A `Step` that answers `none` is a C function that returned -1 or NULL.
use mathlib.Core.List.{append_assoc, append-nil}
use mathlib.Core.Path.{subst, subst₂}
use double_swap.Base.{
  ℕ, ◌≡◌, refl, ◌⊎◌, inl, inr, Option, none, some, ◌++◌, Bytes, [], length, Step, pure, ◌>>=◌, ◌>>◌,
  ◌∙◌, sym, ap, >>=-some, >>=-none,
}

-- `rioWrite`: `none` is its 0, a write error; otherwise the bytes join those sent before.
pub record Sink : Type 1 where
  pub Stream : Type 0
  pub write : Bytes → Stream → Option Stream
  pub sent : Stream → Bytes
  pub sent-write : (p : Bytes) (s t : Stream) → write p s ≡ some t → sent t ≡ sent s ++ p

-- `rioRead`: the next `n` bytes of what is pending, if it holds so many.
pub record Source : Type 1 where
  pub Stream : Type 0
  pub read : ℕ → Stream → Option (Bytes × Stream)
  pub pending : Stream → Bytes
  pub read-pending :
      (p rest : Bytes) (s : Stream)
      → pending s ≡ p ++ rest
      → (t : Stream) × (read (length p) s ≡ some (p, t)) × (pending t ≡ rest)

module _ (w : Sink) where
  -- `rio *rdb`: `none` is a null pointer, by which the callers count without writing.
  abbrev pub Rdb : Type 0
  Rdb = Option w.Stream

  -- `rdbWriteRaw`
  unfoldable pub write_raw : Bytes → Step Rdb ℕ
  write_raw p none = pure (length p) none
  write_raw p (some s) = elim (w.write p s) [ none ↦ none | some t ↦ some (length p, some t) ]

  -- The sink refused some write.
  abbrev pub Refusal : Type 0
  Refusal = (p : Bytes) × (s : w.Stream) × (w.write p s ≡ none)

  -- `m` returns `a` having sent the bytes `p`, and fails only where the sink refuses a write;
  -- on a null pointer it returns `a` all the same.
  pub record Writes {A : Type 0} (m : Step Rdb A) (p : Bytes) (a : A) : Type 0 where
    pub on_null : m none ≡ some (a, none)
    pub on_stream :
        (s : w.Stream)
        → ((t : w.Stream) × (m (some s) ≡ some (a, some t)) × (w.sent t ≡ w.sent s ++ p))
          ⊎ ((m (some s) ≡ none) × Refusal)

  pub write_raw-Writes : (p : Bytes) → Writes (write_raw p) p (length p)
  unfolding write_raw
  write_raw-Writes p = record { on_null = refl; on_stream = λ s. outcome s (w.write p s) refl }
    where
      outcome :
          (s : w.Stream) (r : Option w.Stream)
          → w.write p s ≡ r
          → ((t : w.Stream) × (write_raw p (some s) ≡ some (length p, some t))
              × (w.sent t ≡ w.sent s ++ p))
            ⊎ ((write_raw p (some s) ≡ none) × Refusal)
      outcome s none e = inr (rw (e, write_raw), (p, s, e))
      outcome s (some t) e = inl (t, rw (e, write_raw), w.sent-write p s t e)

  pub pure-Writes : {A : Type 0} (a : A) → Writes (pure a) [] a
  pure-Writes a = record {
    on_null = refl;
    on_stream = λ s. inl (s, refl, sym (append-nil (w.sent s)));
  }

  module _ {A B : Type 0} {m : Step Rdb A} (k : A → Step Rdb B) {p q : Bytes} {a : A} {b : B} where
    pub bind-Writes : Writes m p a → Writes (k a) q b → Writes (m >>= k) (p ++ q) b
    bind-Writes f g = record {
      on_null = >>=-some m k f.on_null ∙ g.on_null;
      on_stream = λ s. elim (f.on_stream s) [
        | inr (stop, why) ↦ inr (>>=-none m k stop, why)
        | inl (t, run, sent) ↦ elim (g.on_stream t) [
          | inr (stop, why) ↦ inr (>>=-some m k run ∙ stop, why)
          | inl (u, run', sent') ↦ inl (
            u,
            >>=-some m k run ∙ run',
            sent' ∙ ap (λ l. l ++ q) sent ∙ append_assoc (w.sent s) p q,
          )
        ]
      ];
    }

  pub Writes-cast :
      {A : Type 0} {m : Step Rdb A} {p q : Bytes} {a b : A}
      → p ≡ q
      → a ≡ b
      → Writes m p a
      → Writes m q b
  Writes-cast {m} e g x = subst₂ (λ y z. Writes m y z) e g x

  -- Writes whose count is a constant of the code.
  module _ {A : Type 0} (p q : Bytes) (a : A) where
    pub one_write-Writes : Writes (write_raw p >> pure a) p a
    one_write-Writes =
        subst (λ x. Writes (write_raw p >> pure a) x a) (append-nil p)
          (bind-Writes (λ _. pure a) (write_raw-Writes p) (pure-Writes a))

    pub write_pair-Writes : Writes (write_raw p >> (write_raw q >> pure a)) (p ++ q) a
    write_pair-Writes =
        subst (λ x. Writes (write_raw p >> (write_raw q >> pure a)) (p ++ x) a) (append-nil q)
          (bind-Writes (λ _. write_raw q >> pure a) (write_raw-Writes p)
            (bind-Writes (λ _. pure a) (write_raw-Writes q) (pure-Writes a)))

module _ (r : Source) where
  -- `m` takes exactly the bytes `p` and returns `a`, whatever follows them.
  abbrev pub Reads : {A : Type 0} → Step r.Stream A → Bytes → A → Type 0
  Reads m p a =
      (rest : Bytes) (s : r.Stream)
      → r.pending s ≡ p ++ rest
      → (t : r.Stream) × (m s ≡ some (a, t)) × (r.pending t ≡ rest)

  pub read-Reads : (p : Bytes) → Reads (r.read (length p)) p p
  read-Reads p rest s e = r.read-pending p rest s e

  pub pure-Reads : {A : Type 0} (a : A) → Reads (pure a) [] a
  pure-Reads a rest s e = (s, refl, e)

  pub bind-Reads :
      {A B : Type 0} (m : Step r.Stream A) (k : A → Step r.Stream B) (p q : Bytes) (a : A) (b : B)
      → Reads m p a
      → Reads (k a) q b
      → Reads (m >>= k) (p ++ q) b
  bind-Reads m k p q a b f g rest s e =
      let (t, run, left) = f (q ++ rest) s (e ∙ append_assoc p q rest) in
      let (u, run', left') = g rest t left in (u, >>=-some m k run ∙ run', left')

  -- A read whose bytes decide the result.
  pub last_read-Reads :
      {A : Type 0} (p : Bytes) (g : Bytes → A) (a : A)
      → g p ≡ a
      → Reads (r.read (length p) >>= λ b. pure (g b)) p a
  last_read-Reads p g a e =
      subst (λ q. Reads (r.read (length p) >>= λ b. pure (g b)) q a) (append-nil p)
        (bind-Reads (r.read (length p)) (λ b. pure (g b)) p [] p a (read-Reads p)
          (rw e (pure-Reads a)))

  -- A step behind which nothing is read.
  pub bind_last-Reads :
      {A B : Type 0} (m : Step r.Stream A) (k : A → Step r.Stream B) (p : Bytes) (a : A) (b : B)
      → Reads m p a
      → Reads (k a) [] b
      → Reads (m >>= k) p b
  bind_last-Reads m k p a b f g =
      subst (λ q. Reads (m >>= k) q b) (append-nil p) (bind-Reads m k p [] a b f g)

-- `save` sends some bytes and returns their count, and `load` takes exactly them and returns `x`.
abbrev pub RoundTrips :
    (w : Sink) (r : Source) {A : Type 0} → Step (Rdb w) ℕ → Step r.Stream A → A → Type 0
RoundTrips w r save load x = (p : Bytes) × Writes w save p (length p) × Reads r load p x
