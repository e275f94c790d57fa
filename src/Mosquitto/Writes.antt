-- ===== src/Mosquitto/Writes.antt =====
-- What a sequence of calls that write leaves in the file.
use double_swap.Base.{
  ℕ, ◌≡◌, ◌≢◌, refl, ap, ◌∙◌, sym, ◌⊎◌, inl, inr, Bool-cases, List, [], ◌∷◌, ◌++◌, append_assoc,
  append-nil, ◌==◌, ==_iff, ==_ne, arith,
}
use native.Mathlib.Decide.{dec_lt}
use double_swap.Mosquitto.Chunks.{Chunk, Writer, and_then, or_one}

-- Two steps that each add chunks.
pub held_after :
    (a : List Chunk) {b c : List Chunk} (xs ys : List Chunk)
    → b ≡ a ++ xs
    → c ≡ b ++ ys
    → c ≡ a ++ (xs ++ ys)
held_after a xs ys p q = q ∙ ap (λ l. l ++ ys) p ∙ append_assoc a xs ys

module _ (w : Writer) where
  -- Of `rows` those before the first one whose write fails are in the file.
  pub record HasFailed (rows : List Chunk) (f f' : w.File) : Type 0 where
    pub before : List Chunk
    pub failing : Chunk
    pub after : List Chunk
    pub split : rows ≡ before ++ failing ∷ after
    pub at : w.File
    pub fails : (w.write failing at).0 ≢ 0
    pub held : w.chunks f' ≡ w.chunks f ++ before

  -- The call returns 0 and has written `rows`, or it returns another number and has failed.
  abbrev pub Writes : List Chunk → w.File → ℕ × w.File → Type 0
  Writes rows f r =
      ((r.0 ≡ 0) × (w.chunks r.1 ≡ w.chunks f ++ rows)) ⊎ ((r.0 ≢ 0) × HasFailed rows f r.1)

  pub none-Writes : (f : w.File) → Writes [] f (0, f)
  none-Writes f = inl (refl, sym (append-nil _))

  pub write-Writes : (c : Chunk) (f : w.File) → Writes (c ∷ []) f (w.write c f)
  write-Writes c f = elim (dec_lt 0 (w.write c f).0) [
    | no ok ↦ let z : (w.write c f).0 ≡ 0 = omega arith in inl (z, w.chunks-write c f z)
    | yes failed ↦
        let z : (w.write c f).0 ≢ 0 = λ p. omega arith in
        inr (
          z,
          record {
            before = [];
            failing = c;
            after = [];
            split = refl;
            at = f;
            fails = z;
            held = w.chunks-failed c f z ∙ sym (append-nil _);
          },
        )
  ]

  pub one-Writes :
      {rows : List Chunk} {f : w.File} (r : ℕ × w.File) → Writes rows f r → Writes rows f (or_one r)
  unfolding or_one
  one-Writes (rc, g) (inl (ok, held)) = rw ((==_iff rc 0).1 ok) (inl (refl, held))
  one-Writes (rc, g) (inr (failed, h)) = rw (==_ne failed) (inr ((λ (p : 1 ≡ 0). omega arith), h))

  pub then-Writes :
      {rows rows' : List Chunk} {f : w.File} (r : ℕ × w.File) (next : w.File → ℕ × w.File)
      → Writes rows f r
      → ((g : w.File) → Writes rows' g (next g))
      → Writes (rows ++ rows') f (and_then r next)
  unfolding and_then
  then-Writes {rows} {rows'} {f} (rc, g) next (inl (ok, held)) rest =
      rw ((==_iff rc 0).1 ok) (elim (rest g) [
        | inl (ok', held') ↦ inl (ok', held_after (w.chunks f) rows rows' held held')
        | inr (failed, h) ↦ inr (
          failed,
          record {
            before = rows ++ h.before;
            failing = h.failing;
            after = h.after;
            split =
                ap (λ l. rows ++ l) h.split
                ∙ sym (append_assoc rows h.before (h.failing ∷ h.after));
            at = h.at;
            fails = h.fails;
            held = held_after (w.chunks f) rows h.before held h.held;
          },
        )
      ])
  then-Writes {rows} {rows'} {f} (rc, g) next (inr (failed, h)) rest = rw (==_ne failed) (
      inr (
        failed,
        record {
          before = h.before;
          failing = h.failing;
          after = h.after ++ rows';
          split = ap (λ l. l ++ rows') h.split ∙ append_assoc h.before (h.failing ∷ h.after) rows';
          at = h.at;
          fails = h.fails;
          held = h.held;
        },
      ))

  -- The file holds some chunks behind the old ones.
  abbrev pub Extends : w.File → w.File → Type 0
  Extends f g = (more : List Chunk) × (w.chunks g ≡ w.chunks f ++ more)

  pub same-Extends : (f : w.File) → Extends f f
  same-Extends f = ([], sym (append-nil _))

  pub trans-Extends : (f g h : w.File) → Extends f g → Extends g h → Extends f h
  trans-Extends f g h (xs, p) (ys, q) = (xs ++ ys, held_after (w.chunks f) xs ys p q)

  -- That is so whatever fails.
  pub Writes-Extends :
      {rows : List Chunk} (f : w.File) (r : ℕ × w.File) → Writes rows f r → Extends f r.1
  Writes-Extends {rows} f r (inl (ok, held)) = (rows, held)
  Writes-Extends f r (inr (failed, h)) = (h.before, h.held)

  pub write-Extends : (c : Chunk) (f : w.File) → Extends f (w.write c f).1
  write-Extends c f = Writes-Extends f (w.write c f) (write-Writes c f)

  pub then-Extends :
      (f : w.File) (r : ℕ × w.File) (next : w.File → ℕ × w.File)
      → Extends f r.1
      → ((g : w.File) → Extends g (next g).1)
      → Extends f (and_then r next).1
  unfolding and_then
  then-Extends f (rc, g) next x y = elim (Bool-cases (rc == 0)) [
    | inl z ↦ rw z (trans-Extends f g (next g).1 x (y g))
    | inr z ↦ rw z x
  ]
