-- ===== src/Redis/Load/File/Keys.antt =====
-- Whatever a file holds: the keyspace that the loop leaves has each key once, in databases that there
-- are, and none that had expired.
use mathlib.Core.Path.{subst}
use double_swap.Base.{
  ℕ, ◌+◌, ◌<◌, ◌≤◌, ◌≡◌, ◌≢◌, refl, sym, ◌∙◌, Bool, true, false, Option, none, some, List, [], ◌∷◌,
  ◌++◌, map, Bytes, All, ◌==◌, ==_ne, if◌then◌else◌, Bool-cases, ◌⊎◌, inl, inr, Step, pure, fail,
  ◌>>=◌, or_fail, bind-inverted, arith,
}
use double_swap.Redis.Load.{Outcome, empty_key, loaded, bytes_eq, holds_key}
use double_swap.Redis.Load.Packed.Rows.{Pairwise}
use double_swap.Redis.Load.Values.Distinct.{AreDistinct, some_injective, All-snoc}
use double_swap.Redis.Load.Values.Names.{name_joins}
use double_swap.Redis.Load.File.{
  LoadedKey, Loading, Config, is_expired, key_of, without, put_keys, add_key, take_key,
}

-- Each result of a step has the property `P`.
abbrev pub Keeps : {S A : Type 0} → (A → Type 0) → Step S A → Type 0
Keeps {S = S} P m = (s : S) (y : _) (t : S) → m s ≡ some (y, t) → P y

paired : {S A : Type 0} {a y : A} {s t : S} → pure a s ≡ some (y, t) → a ≡ y
paired z = cc

module _ (S : Type 0) {A : Type 0} (P : A → Type 0) where
  pub pure-Keeps : (a : A) → P a → Keeps {S = S} P (pure a)
  pure-Keeps a p s y t e = subst P (paired e) p

  pub fail-Keeps : Keeps {S = S} P fail
  fail-Keeps s y t e = absurd cc

  pub bind-Keeps :
      {B : Type 0} (m : Step S B) (k : B → Step S A) → ((b : B) → Keeps P (k b)) → Keeps P (m >>= k)
  bind-Keeps m k keeps s y t e =
      let (b, u, run, rest) = bind-inverted m k {s = s} (y, t) e in keeps b u y t rest

  pub if-Keeps : (b : Bool) (m k : Step S A) → Keeps P m → Keeps P k → Keeps P (if b then m else k)
  if-Keeps true m k x y = x
  if-Keeps false m k x y = y

  pub choice-Keeps :
      {B : Type 0} (o : Option B) (k : B → Step S A)
      → ((b : B) → o ≡ some b → Keeps P (k b))
      → Keeps P (or_fail o k)
  choice-Keeps none k keeps = fail-Keeps
  choice-Keeps (some b) k keeps = keeps b refl

-- Each key once in its database, none that had expired, no database out of range.
pub record IsSoundKeyspace {V : Type 0} (g : Config) (dbid : ℕ) (keyspace : ℕ → List (LoadedKey V))
    : Type 0 where
  pub distinct : (j : ℕ) → AreDistinct (map key_of (keyspace j))
  pub unexpired : (j : ℕ) → All (λ k. is_expired g k.attributes.expiretime ≡ false) (keyspace j)
  pub in_range : (j : ℕ) → g.dbnum ≤ j → keyspace j ≡ []
  pub selected : dbid < g.dbnum

unfoldable pub IsSound : {V : Type 0} → Config → Loading V → Type 0
IsSound g s = IsSoundKeyspace g s.dbid s.keyspace

pub same-IsSound :
    {V : Type 0} (g : Config) (s t : Loading V)
    → s.dbid ≡ t.dbid
    → s.keyspace ≡ t.keyspace
    → IsSound g s
    → IsSound g t
unfolding IsSound
same-IsSound g s t d k h =
    subst (λ i. IsSoundKeyspace g i t.keyspace) d (subst (IsSoundKeyspace g s.dbid) k h)

module _ {V : Type 0} (P : LoadedKey V → Type 0) where
  All-without : (k : Bytes) (xs : List (LoadedKey V)) → All P xs → All P (without k xs)
  unfolding without
  All-without k [] h = tt
  All-without k (x ∷ xs) (p, h) = elim (Bool-cases (bytes_eq x.key k)) [
    | inl same ↦ rw same (All-without k xs h)
    | inr other ↦ rw other (p, All-without k xs h)
  ]

module _ {V : Type 0} where
  without-gone :
      (k : Bytes) (xs : List (LoadedKey V)) → holds_key (map key_of (without k xs)) k ≡ false
  unfolding without holds_key
  without-gone k [] = refl
  without-gone k (x ∷ xs) = elim (Bool-cases (bytes_eq x.key k)) [
    | inl same ↦ rw same (without-gone k xs)
    | inr other ↦ rw (other, other) (without-gone k xs)
  ]

  All-key_of :
      (P : Bytes → Type 0) (xs : List (LoadedKey V))
      → (All P (map key_of xs) → All (λ x. P x.key) xs)
        × (All (λ x. P x.key) xs → All P (map key_of xs))
  All-key_of P [] = (λ h. tt, λ h. tt)
  All-key_of P (x ∷ xs) =
      let (to, from) = All-key_of P xs in (λ (p, h). (p, to h), λ (p, h). (p, from h))

  without-distinct :
      (k : Bytes) (xs : List (LoadedKey V))
      → AreDistinct (map key_of xs)
      → AreDistinct (map key_of (without k xs))
  unfolding without Pairwise
  without-distinct k [] h = tt
  without-distinct k (x ∷ xs) (differs, h) = elim (Bool-cases (bytes_eq x.key k)) [
    | inl same ↦ rw same (without-distinct k xs h)
    | inr other ↦
        let left =
          (All-key_of (λ b. x.key ≢ b) (without k xs)).1
            (All-without (λ y. x.key ≢ y.key) k xs ((All-key_of (λ b. x.key ≢ b) xs).0 differs)) in
        rw other (left, without-distinct k xs h)
  ]

  -- A key joins its database, in the place of another or not.
  add_key-inverted :
      (g : Config) (k : LoadedKey V) (ks ls : List (LoadedKey V))
      → add_key g k ks ≡ some ls
      → ((ks ++ k ∷ [] ≡ ls) × (holds_key (map key_of ks) k.key ≡ false))
        ⊎ (without k.key ks ++ k ∷ [] ≡ ls)
  unfolding add_key
  add_key-inverted g k ks ls e = elim (Bool-cases (holds_key (map key_of ks) k.key)) [
    | inr new ↦ inl (some_injective (sym (added new) ∙ e), new)
    | inl held ↦ elim (Bool-cases g.allow_dup) [
      | inl dup ↦ inr (some_injective (sym (replaced held dup) ∙ e))
      | inr single ↦ absurd (panics held single)
    ]
  ]
    where
      added : holds_key (map key_of ks) k.key ≡ false → add_key g k ks ≡ some (ks ++ k ∷ [])
      added new = rw (add_key, new) refl

      replaced :
          holds_key (map key_of ks) k.key ≡ true
          → g.allow_dup ≡ true
          → add_key g k ks ≡ some (without k.key ks ++ k ∷ [])
      replaced held dup = rw (add_key, held, dup) refl

      panics : holds_key (map key_of ks) k.key ≡ true → g.allow_dup ≡ false → ⊥
      panics held single =
          let none_left : add_key g k ks ≡ none = rw (add_key, held, single) refl in cc

  module _ (g : Config) (k : LoadedKey V) (ks ls : List (LoadedKey V))
      (e : add_key g k ks ≡ some ls) where
    add_key-distinct : AreDistinct (map key_of ks) → AreDistinct (map key_of ls)
    add_key-distinct h = elim (add_key-inverted g k ks ls e) [
      | inl (same, new) ↦
          subst (λ l. AreDistinct (map key_of l)) same (name_joins key_of ks k h new)
      | inr same ↦
          subst (λ l. AreDistinct (map key_of l)) same
            (name_joins key_of (without k.key ks) k (without-distinct k.key ks h)
              (without-gone k.key ks))
    ]

    All-add_key : (P : LoadedKey V → Type 0) → P k → All P ks → All P ls
    All-add_key P p h = elim (add_key-inverted g k ks ls e) [
      | inl (same, new) ↦ subst (All P) same (All-snoc P ks k h p)
      | inr same ↦ subst (All P) same (All-snoc P (without k.key ks) k (All-without P k.key ks h) p)
    ]

  put_keys-IsSoundKeyspace :
      (g : Config) (j : ℕ) (ls : List (LoadedKey V)) (old : ℕ → List (LoadedKey V))
      → AreDistinct (map key_of ls)
      → All (λ k. is_expired g k.attributes.expiretime ≡ false) ls
      → IsSoundKeyspace g j old
      → IsSoundKeyspace g j (put_keys j ls old)
  unfolding put_keys
  put_keys-IsSoundKeyspace g j ls old distinct unexpired h = record {
    distinct = λ i. elim (Bool-cases (i == j)) [
      | inl z ↦ rw (put_keys, z) distinct
      | inr z ↦ rw (put_keys, z) (h.distinct i)
    ];
    unexpired = λ i. elim (Bool-cases (i == j)) [
      | inl z ↦ rw (put_keys, z) unexpired
      | inr z ↦ rw (put_keys, z) (h.unexpired i)
    ];
    in_range = λ i out.
        let other : (i == j) ≡ false = ==_ne (λ same. omega (arith, h.selected)) in
        rw (put_keys, other) (h.in_range i out);
    selected = h.selected;
  }

  pub take_key-IsSound :
      (g : Config) (key : Bytes) (x : Outcome V) (s t : Loading V)
      → IsSound g s
      → take_key g key x s ≡ some t
      → IsSound g t
  unfolding take_key IsSound
  take_key-IsSound g key empty_key s t h e = subst (IsSound g) (some_injective e) h
  take_key-IsSound g key (loaded val) s t h e =
      by_time (is_expired g s.attributes.expiretime) refl e
    where
      k : LoadedKey V
      k = record { key = key; value = val; attributes = s.attributes }

      add : Option (List (LoadedKey V)) → Option (Loading V)
      add o = elim o [
        | none ↦ none
        | some ks ↦
            some (record s {
              keyspace = put_keys s.dbid ks s.keyspace;
              keys_loaded = s.keys_loaded + 1;
            })
      ]

      by_added :
          (o : Option (List (LoadedKey V)))
          → is_expired g s.attributes.expiretime ≡ false
          → add_key g k (s.keyspace s.dbid) ≡ o
          → add o ≡ some t
          → IsSound g t
      by_added none fresh made z = absurd cc
      by_added (some ls) fresh made z = subst (IsSound g) (some_injective z) (
          put_keys-IsSoundKeyspace g s.dbid ls s.keyspace
            (add_key-distinct g k (s.keyspace s.dbid) ls made (h.distinct s.dbid))
            (All-add_key g k (s.keyspace s.dbid) ls made
              (λ y. is_expired g y.attributes.expiretime ≡ false) fresh (h.unexpired s.dbid))
            h)

      by_time :
          (late : Bool)
          → is_expired g s.attributes.expiretime ≡ late
          → (if late
              then some (record s {
                keys_expired = s.keys_expired + 1;
                deletions = if g.feed_repl then s.deletions ++ (s.dbid, key) ∷ [] else s.deletions;
              })
              else add (add_key g k (s.keyspace s.dbid)))
            ≡ some t
          → IsSound g t
      by_time true z y = subst (IsSound g) (some_injective y) h
      by_time false z y = by_added (add_key g k (s.keyspace s.dbid)) z refl y
