-- ===== src/Redis/Load/Values/Distinct.antt =====
-- Whatever the bytes are, what is loaded from them has no member twice.
use mathlib.Core.Path.{subst}
use double_swap.Base.{
  ℕ, suc, zero, ◌+◌, ◌^◌, ◌≡◌, ◌≢◌, refl, sym, ap, ◌∙◌, Bool, true, false, not, ◌&&◌, ◌||◌, Option,
  none, some, List, [], ◌∷◌, ◌++◌, Bytes, All, ltb, leb, ◌==◌, length, length-append, if◌then◌else◌,
  Bool-cases, inl, inr, Step, pure, fail, ◌>>=◌, or_fail, bind-inverted, choice-inverted, arith,
}
use double_swap.Redis.Load.{holds_key, load_sds, load_text, Structures, Outcome, empty_key, loaded}
use double_swap.Redis.Load.Packed.Rows.{Pairwise, holds_key_iff}
use double_swap.Redis.Load.Sets.{
  SetEncoding, intset, listpack, hash_table, LoadingSet, to_table, join, add_to_table,
  add_to_listpack, add_to_intset, add_by, add_member, new_set, intset_limit, empty_set,
  load_members, load_set,
}
use double_swap.Redis.Format.{Format}
use double_swap.Redis.Host.{Host}
use double_swap.Redis.Rio.{Source}
use double_swap.Redis.Length.{load_len}

abbrev pub AreDistinct : List Bytes → Type 0
AreDistinct ms = Pairwise (λ a b. a ≢ b) ms

pub All-snoc :
    {A : Type 0} (P : A → Type 0) (xs : List A) (y : A) → All P xs → P y → All P (xs ++ y ∷ [])
All-snoc P [] y ps p = (p, tt)
All-snoc P (x ∷ xs) y (q, ps) p = (q, All-snoc P xs y ps p)

distinct-snoc :
    (ms : List Bytes) (m : Bytes)
    → AreDistinct ms
    → All (λ j. j ≢ m) ms
    → AreDistinct (ms ++ m ∷ [])
unfolding Pairwise
distinct-snoc [] m h new = (tt, tt)
distinct-snoc (x ∷ ms) m (differs, h) (ne, new) =
    (All-snoc (λ y. x ≢ y) ms m differs ne, distinct-snoc ms m h new)

-- A key that the dictionary did not hold keeps the keys distinct.
pub key_joins :
    (ms : List Bytes) (m : Bytes)
    → AreDistinct ms
    → holds_key ms m ≡ false
    → AreDistinct (ms ++ m ∷ [])
key_joins ms m h new = distinct-snoc ms m h ((holds_key_iff ms m).0 new)

pub some_injective : {A : Type 0} {x y : A} → some x ≡ some y → x ≡ y
some_injective e = cc

module _ {S A : Type 0} where
  pub same_loaded : {x y : A} {s t : S} → pure (loaded x) s ≡ some (loaded y, t) → x ≡ y
  same_loaded e = cc

  pub no_key : {y : A} {s t : S} → pure empty_key s ≢ some (loaded y, t)
  no_key e = cc

abbrev pub fst_of : {A B : Type 0} → A × B → A
fst_of (a, b) = a

abbrev members_of : LoadingSet → List Bytes
members_of t = t.members

module _ (c : Structures) (len : ℕ) where
  -- If the member is taken, the set did not hold it.
  abbrev TakesNew : List Bytes → Bytes → Option LoadingSet → Type 0
  TakesNew ms ele o =
      (t : LoadingSet) → o ≡ some t → (holds_key ms ele ≡ false) × (t.members ≡ ms ++ ele ∷ [])

  join-TakesNew : (ele : Bytes) (s : LoadingSet) → TakesNew s.members ele (join c len ele s)
  unfolding join
  join-TakesNew ele s t e = elim (Bool-cases (holds_key s.members ele)) [
    | inl held ↦ absurd (refused held)
    | inr new ↦ (new, taken new)
  ]
    where
      refused : holds_key s.members ele ≡ true → ⊥
      refused held = ground arith

      taken : holds_key s.members ele ≡ false → t.members ≡ s.members ++ ele ∷ []
      taken new =
          let joined : join c len ele s ≡ some (record s { members = s.members ++ ele ∷ [] }) =
            rw (join, new) refl in
          ap members_of (some_injective (sym e ∙ joined))

  by_table-TakesNew :
      (ele : Bytes) (s : LoadingSet)
      → TakesNew s.members ele
          (elim (to_table c len s) [ none ↦ none | some t ↦ add_to_table c len ele t ])
  unfolding to_table add_to_table
  by_table-TakesNew ele s = elim (Bool-cases (c.dict_expands len)) [
    | inl room ↦ rw (to_table, room) (join-TakesNew ele (record s { encoding = hash_table }))
    | inr full ↦ rw (to_table, full) (λ t e. absurd cc)
  ]

  by_listpack-TakesNew :
      (ele : Bytes) (s : LoadingSet) → TakesNew s.members ele (add_to_listpack c len ele s)
  unfolding add_to_listpack
  by_listpack-TakesNew ele s =
      elim (Bool-cases (
        ltb (length s.members) c.set_max_listpack_entries
        && leb (length ele) c.set_max_listpack_value
        && c.lp_safe_to_add s.members (length ele))) [
          | inl z ↦ rw (add_to_listpack, z) (join-TakesNew ele s)
          | inr z ↦ rw (add_to_listpack, z) (by_table-TakesNew ele s)
        ]

  by_intset-TakesNew :
      (ele : Bytes) (s : LoadingSet) → TakesNew s.members ele (add_to_intset c len ele s)
  unfolding add_to_intset
  by_intset-TakesNew ele s = elim (Bool-cases (c.is_long_long ele)) [
    | inl n ↦ rw (add_to_intset, n) (join-TakesNew ele s)
    | inr n ↦
        elim (Bool-cases (
          ltb (length s.members) c.set_max_listpack_entries
          && leb s.maxelelen c.set_max_listpack_value
          && c.lp_safe_to_add [] s.sumelelen)) [
            | inl z ↦
                rw (add_to_intset, n, z)
                  (by_listpack-TakesNew ele (record s { encoding = listpack }))
            | inr z ↦ rw (add_to_intset, n, z) (by_table-TakesNew ele s)
          ]
  ]

  by-TakesNew :
      (k : SetEncoding) (ele : Bytes) (s : LoadingSet)
      → TakesNew s.members ele (add_by c len k ele s)
  unfolding add_by add_to_table
  by-TakesNew intset ele s = by_intset-TakesNew ele s
  by-TakesNew listpack ele s = by_listpack-TakesNew ele s
  by-TakesNew hash_table ele s = join-TakesNew ele s

  member-TakesNew : (ele : Bytes) (s : LoadingSet) → TakesNew s.members ele (add_member c len ele s)
  unfolding add_member
  member-TakesNew ele s = by-TakesNew s.encoding ele _

module _ (f : Format) (e : Host) (c : Structures) (r : Source) where
  members_distinct :
      (len k : ℕ) (s : LoadingSet) (st : r.Stream) (t : LoadingSet) (st' : r.Stream)
      → AreDistinct s.members
      → load_members f e c r len k s st ≡ some (t, st')
      → AreDistinct t.members × (length t.members ≡ length s.members + k)
  unfolding load_members
  members_distinct len zero s st t st' h z =
      let same : s ≡ t = ap fst_of (some_injective z) in
      subst (λ u. AreDistinct u.members × (length u.members ≡ length s.members + 0)) same
        (h, omega arith)
  members_distinct len (suc k) s st t st' h z =
      let (ele, st₁, read, z₁) = bind-inverted (load_text f e r load_sds) _ (t, st') z in
      let (u, taken, z₂) =
        choice-inverted (add_member c len ele s) (load_members f e c r len k) st₁ (t, st') z₁ in
      let (new, grown) = member-TakesNew c len ele s u taken in
      let distinct : AreDistinct u.members =
        subst AreDistinct (sym grown) (key_joins s.members ele h new) in
      let (all, count) = members_distinct len k u st₁ t st' distinct z₂ in
      (all, omega (arith, count, ap length grown, length-append s.members (ele ∷ [])))

  new_set-distinct : (n : ℕ) (s : LoadingSet) → new_set c n ≡ some s → AreDistinct s.members
  unfolding new_set Pairwise
  new_set-distinct n s z = elim (Bool-cases (ltb (intset_limit c) n)) [
    | inr small ↦ from intset (rw (new_set, small) refl)
    | inl big ↦ elim (Bool-cases (not (ltb c.dict_ht_initial_size n) || c.dict_expands n)) [
      | inl room ↦ from hash_table (rw (new_set, big, room) refl)
      | inr full ↦ absurd (refused (rw (new_set, big, full) refl))
    ]
  ]
    where
      from : (k : SetEncoding) → new_set c n ≡ some (empty_set k) → AreDistinct s.members
      from k made = subst (λ t. AreDistinct t.members) (some_injective (sym made ∙ z)) tt

      refused : new_set c n ≡ none → ⊥
      refused gone = cc

  pub set_distinct :
      (st : r.Stream) (t : LoadingSet) (st' : r.Stream)
      → load_set f e c r st ≡ some (loaded t, st')
      → AreDistinct t.members
  unfolding load_set
  set_distinct st t st' z =
      let ((enc, len), st₁, read, z₁) = bind-inverted (load_len f r) _ (loaded t, st') z in
      by_count (len == 0) (leb (2 ^ 32) len) len st₁ z₁
    where
      behind : ℕ → Step r.Stream (Outcome LoadingSet)
      behind len =
          or_fail (new_set c len) (λ s. do u ← load_members f e c r len len s; pure (loaded u))

      by_count :
          (none_left many : Bool) (len : ℕ) (st₁ : r.Stream)
          → (if none_left then pure empty_key else if many then fail else behind len) st₁
            ≡ some (loaded t, st')
          → AreDistinct t.members
      by_count true many len st₁ z₁ = absurd (no_key z₁)
      by_count false true len st₁ z₁ = absurd cc
      by_count false false n st₁ z₁ =
          let (s, made, z₂) =
            choice-inverted (new_set c n) (λ s. do u ← load_members f e c r n n s; pure (loaded u))
              st₁ (loaded t, st') z₁ in
          let (u, st₂, members, z₃) =
            bind-inverted (load_members f e c r n n s) _ (loaded t, st') z₂ in
          subst (λ v. AreDistinct v.members) (same_loaded z₃)
            (members_distinct n n s st₁ u st₂ (new_set-distinct n s made) members).0
