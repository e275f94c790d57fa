-- ===== src/Redis/Counting.antt =====
-- The pattern `if ((n = save(...)) == -1) return -1; nwritten += n;` and loops of it.
use double_swap.Base.{
  ℕ, ◌+◌, ◌≡◌, refl, sym, List, [], ◌∷◌, ◌++◌, Bytes, length, length-append, append-nil, Step, pure,
  ◌>>=◌,
}
use double_swap.Redis.Rio.{Sink, Rdb, Writes, Writes-cast, pure-Writes, bind-Writes}

infixr 20 ◌⊕◌
abbrev pub ◌⊕◌ : {S : Type 0} → Step S ℕ → Step S ℕ → Step S ℕ
m ⊕ k = do a ← m; b ← k; pure (a + b)

-- A loop that saves each element, and the bytes of all elements.
unfoldable pub save_each : {S A : Type 0} → (A → Step S ℕ) → List A → Step S ℕ
save_each save [] = pure 0
save_each save (x ∷ xs) = save x ⊕ save_each save xs

unfoldable pub all_codes : {A : Type 0} → (A → Bytes) → List A → Bytes
all_codes code [] = []
all_codes code (x ∷ xs) = code x ++ all_codes code xs

module _ (w : Sink) where
  -- `m` sends the bytes `p` and returns their number.
  abbrev pub Counts : Step (Rdb w) ℕ → Bytes → Type 0
  Counts m p = Writes w m p (length p)

  pub ⊕-Writes :
      {m k : Step (Rdb w) ℕ} {p q : Bytes} {a b : ℕ}
      → Writes w m p a
      → Writes w k q b
      → Writes w (m ⊕ k) (p ++ q) (a + b)
  ⊕-Writes {q} f g =
      bind-Writes w _ f (Writes-cast w (append-nil q) refl (bind-Writes w _ g (pure-Writes w _)))

  pub ⊕-Counts :
      {m k : Step (Rdb w) ℕ} {p q : Bytes} → Counts m p → Counts k q → Counts (m ⊕ k) (p ++ q)
  ⊕-Counts {p} {q} f g = Writes-cast w refl (sym (length-append p q)) (⊕-Writes f g)

  pub save_each-Counts :
      {A : Type 0} (save : A → Step (Rdb w) ℕ) (code : A → Bytes)
      → ((x : A) → Counts (save x) (code x))
      → (xs : List A) → Counts (save_each save xs) (all_codes code xs)
  unfolding save_each all_codes
  save_each-Counts save code each [] = pure-Writes w 0
  save_each-Counts save code each (x ∷ xs) = ⊕-Counts (each x) (save_each-Counts save code each xs)

  -- `m` sends `p`, and its count leaves out `k` bytes.
  abbrev pub CountsBut : ℕ → Step (Rdb w) ℕ → Bytes → Type 0
  CountsBut k m p = (n : ℕ) × Writes w m p n × (n + k ≡ length p)
