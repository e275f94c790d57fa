-- ===== src/Base/Partial.antt =====
-- A step on a state that may fail, with `do`: the shape of the C functions that return -1 or NULL
-- on an error and are not called again on that state.
use mathlib.Core.Path.{◌≡◌, refl}
use mathlib.Core.Option.{Option, none, some}

abbrev pub Step : Type 0 → Type 0 → Type 0
Step S A = S → Option (A × S)

abbrev pub pure : {S A : Type 0} → A → Step S A
pure a s = some (a, s)

abbrev pub fail : {S A : Type 0} → Step S A
fail s = none

infixl 5 ◌>>=◌ ◌>>◌
abbrev pub ◌>>=◌ : {S A B : Type 0} → Step S A → (A → Step S B) → Step S B
◌>>=◌ m f s = elim (m s) [ none ↦ none | some (a, s') ↦ f a s' ]

abbrev pub ◌>>◌ : {S A B : Type 0} → Step S A → Step S B → Step S B
m >> k = m >>= λ _. k

module _ {S A B : Type 0} (m : Step S A) (f : A → Step S B) {s : S} where
  pub >>=-some : {a : A} {t : S} → m s ≡ some (a, t) → (m >>= f) s ≡ f a t
  >>=-some e = rw (e, ◌>>=◌)

  pub >>=-none : m s ≡ none → (m >>= f) s ≡ none
  >>=-none e = rw (e, ◌>>=◌)

  pub bind-inverted :
      (y : B × S)
      → (m >>= f) s ≡ some y
      → (a : A) × (t : S) × (m s ≡ some (a, t)) × (f a t ≡ some y)
  bind-inverted y e = by_run (m s) refl e
    where
      by_run :
          (o : Option (A × S))
          → m s ≡ o
          → elim o [ none ↦ none | some (a, t) ↦ f a t ] ≡ some y
          → (a : A) × (t : S) × (m s ≡ some (a, t)) × (f a t ≡ some y)
      by_run none g z = absurd cc
      by_run (some (a, t)) g z = (a, t, g, z)

-- A step that goes on with the value of an option, and fails without one.
abbrev pub or_fail : {S A B : Type 0} → Option A → (A → Step S B) → Step S B
or_fail o k = elim o [ none ↦ fail | some a ↦ k a ]

pub choice-inverted :
    {S A B : Type 0} (o : Option A) (k : A → Step S B) (s : S) (y : B × S)
    → or_fail o k s ≡ some y
    → (a : A) × (o ≡ some a) × (k a s ≡ some y)
choice-inverted none k s y e = absurd cc
choice-inverted (some a) k s y e = (a, refl, e)
