-- ===== src/Redis/Load/Texts.antt =====
-- The loaders of lengths and strings, over the codes that the savers write.
use double_swap.Base.{
  ℕ, ◌^◌, ◌<◌, ◌≤◌, ◌≡◌, refl, Bool, true, false, ◌||◌, List, [], ◌∷◌, ◌++◌, Option, none, some,
  sym, Bytes, length, All, map, Step, ◌>>=◌, arith,
}
use mathlib.Core.Path.{subst}
use double_swap.Redis.Format.{Format, IsFormat}
use double_swap.Redis.Host.{Host, IsHost}
use double_swap.Redis.Rio.{Source, Reads, pure-Reads, bind-Reads, bind_last-Reads}
use double_swap.Redis.Counting.{all_codes}
use double_swap.Redis.Length.{load_len}
use double_swap.Redis.Length.Code.{len_code}
use double_swap.Redis.Length.RoundTrip.{load_len-len_code}
use double_swap.Redis.Integer.{LoadFlags}
use double_swap.Redis.Text.{StringObject, load_string}
use double_swap.Redis.Text.Code.{string_code, object_code, blob_code}
use double_swap.Redis.Text.Load.{object_text_of, string_loads, object_loads, blob_loads}
use double_swap.Redis.Load.{holds_key, load_times, load_text}

pub or_true : (b : Bool) → (b || true) ≡ true
or_true true = refl
or_true false = refl

-- A string of which every allocation succeeds, of a length below 2 ^ 63.
pub record Fits (e : Host) (s : Bytes) : Type 0 where
  pub short : length s < 2 ^ 63
  pub room : (k : ℕ) → k ≤ length s → e.allocates k ≡ true

-- None of `xs` is among `ms` or comes twice.
unfoldable pub AreNew : List Bytes → List Bytes → Type 0
AreNew ms [] = Unit {0}
AreNew ms (x ∷ xs) = (holds_key ms x ≡ false) × AreNew (ms ++ x ∷ []) xs

module _ (f : Format) (h : IsFormat f) (r : Source) where
  -- Lengths below 2 ^ 63 are no RDB_LENERR.
  pub size-Reads : (n : ℕ) → n < 2 ^ 63 → Reads r (load_len f r) (len_code f n) (false, n)
  size-Reads n small =
      load_len-len_code f h r n (omega arith) (λ p. absurd (omega (arith, h.lenerr)))

  pub text-Reads :
      (e : Host) (i : IsHost e) (fl : LoadFlags) (s : Bytes)
      → Fits e s
      → Reads r (load_text f e r fl) (string_code f e s) s
  unfolding load_text
  text-Reads e i fl s fits =
      let ((x, l), reads, text) = string_loads f h e i r fl s fits.short fits.room in
      bind_last-Reads r (load_string f e r fl) _ (string_code f e s) (x, l) s reads
        (rw text (pure-Reads r s))

  pub object-Reads :
      (e : Host) (i : IsHost e) (fl : LoadFlags) (o : StringObject)
      → Fits e (object_text_of e o)
      → Reads r (load_text f e r fl) (object_code f e o) (object_text_of e o)
  unfolding load_text
  object-Reads e i fl o fits =
      let ((x, l), reads, text) = object_loads f h e i r fl o fits.short fits.room in
      bind_last-Reads r (load_string f e r fl) _ (object_code f e o) (x, l) (object_text_of e o)
        reads (rw text (pure-Reads r (object_text_of e o)))

  -- A blob of compressed bytes.
  pub blob-Reads :
      (e : Host) (i : IsHost e) (fl : LoadFlags) (s q : Bytes)
      → Fits e s
      → length q < 2 ^ 63
      → e.allocates (length q) ≡ true
      → e.lzf_decompress q (length s) ≡ some s
      → Reads r (load_text f e r fl) (blob_code f q (length s)) s
  unfolding load_text
  blob-Reads e i fl s q fits short room back =
      let ((x, l), reads, text) =
        blob_loads f h e i r fl s q fits.short short (fits.room (length s) (omega arith)) room
          back in
      bind_last-Reads r (load_string f e r fl) _ (blob_code f q (length s)) (x, l) s reads
        (rw text (pure-Reads r s))

module _ (r : Source) where
  -- The order in which three steps are put together does not matter.
  bind_assoc :
      {A B C : Type 0} (m : Step r.Stream A) (g : A → Step r.Stream B) (k : B → Step r.Stream C)
      (s : r.Stream)
      → (m >>= g >>= k) s ≡ (m >>= λ x. g x >>= k) s
  bind_assoc {A = A} {B = B} {C = C} m g k s = by_run (m s)
    where
      one : Option (A × r.Stream) → Option (B × r.Stream)
      one o = elim o [ none ↦ none | some (a, t) ↦ g a t ]

      two : Option (B × r.Stream) → Option (C × r.Stream)
      two o = elim o [ none ↦ none | some (b, u) ↦ k b u ]

      both : Option (A × r.Stream) → Option (C × r.Stream)
      both o = elim o [ none ↦ none | some (a, t) ↦ two (g a t) ]

      by_run : (o : Option (A × r.Stream)) → two (one o) ≡ both o
      by_run none = refl
      by_run (some (a, t)) = refl

  module _ {A B C : Type 0} (m : Step r.Stream A) (g : A → Step r.Stream B)
      (k : B → Step r.Stream C) (p : Bytes) (y : C) where
    pub assoc-Reads : Reads r (m >>= λ x. g x >>= k) p y → Reads r (m >>= g >>= k) p y
    assoc-Reads reads rest s e =
        subst (λ o. (t : r.Stream) × (o ≡ some (y, t)) × (r.pending t ≡ rest))
          (sym (bind_assoc m g k s)) (reads rest s e)

    pub unassoc-Reads : Reads r (m >>= g >>= k) p y → Reads r (m >>= λ x. g x >>= k) p y
    unassoc-Reads reads rest s e =
        subst (λ o. (t : r.Stream) × (o ≡ some (y, t)) × (r.pending t ≡ rest)) (bind_assoc m g k s)
          (reads rest s e)

  -- A counted loop reads what was written element by element.
  pub times-Reads :
      {A B : Type 0} (m : Step r.Stream B) (code : A → Bytes) (back : A → B) (Ok : A → Type 0)
      → ((x : A) → Ok x → Reads r m (code x) (back x))
      → (xs : List A) → All Ok xs
      → Reads r (load_times (length xs) m) (all_codes code xs) (map back xs)
  unfolding load_times all_codes
  times-Reads m code back Ok each [] h = pure-Reads r []
  times-Reads m code back Ok each (x ∷ xs) (ok, oks) =
      bind-Reads r m _ (code x) (all_codes code xs) (back x) _ (each x ok) (
        bind_last-Reads r (load_times (length xs) m) _ (all_codes code xs) _ _
          (times-Reads m code back Ok each xs oks) (pure-Reads r _))
