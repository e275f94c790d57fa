-- ===== src/Redis/Load/Sets/Members.antt =====
-- The loop that loads a set takes every member once, whatever the encodings that it goes through.
use double_swap.Base.{
  ℕ, ◌^◌, ◌<◌, ◌≡◌, refl, ap, ◌∙◌, sym, true, false, ◌&&◌, Option, none, some, List, [], ◌∷◌, ◌++◌,
  append_assoc, append-nil, Bytes, All, ltb, leb, ◌==◌, ==_ne, length, Bool-cases, inl, inr, arith,
}
use double_swap.Redis.Format.{Format, IsFormat}
use double_swap.Redis.Host.{Host, IsHost}
use double_swap.Redis.Rio.{Source, Reads, pure-Reads, bind-Reads, bind_last-Reads}
use double_swap.Redis.Load.{load_sds, Structures, loaded, holds_key, load_text}
use mathlib.Core.Path.{subst}
use double_swap.Redis.Counting.{all_codes}
use double_swap.Redis.Length.{load_len}
use double_swap.Redis.Length.Code.{len_code}
use double_swap.Redis.Text.Code.{string_code}
use double_swap.Redis.Load.Texts.{Fits, AreNew, size-Reads, text-Reads}
use double_swap.Redis.Load.Sets.{
  SetEncoding, intset, listpack, hash_table, LoadingSet, to_table, join, add_to_table,
  add_to_listpack, add_to_intset, add_by, add_member, intset_limit, empty_set, new_set,
  load_members, load_set,
}

module _ (c : Structures) (len : ℕ) (room : c.dict_expands len ≡ true) where
  -- A step that puts one member behind the others.
  abbrev Grows : List Bytes → Bytes → Option LoadingSet → Type 0
  Grows ms ele o = (t : LoadingSet) × (o ≡ some t) × (t.members ≡ ms ++ ele ∷ [])

  join-Grows :
      (ele : Bytes) (s : LoadingSet)
      → holds_key s.members ele ≡ false
      → Grows s.members ele (join c len ele s)
  unfolding join
  join-Grows ele s new = rw (join, new) (_, refl, refl)

  table-Grows :
      (ele : Bytes) (s : LoadingSet)
      → holds_key s.members ele ≡ false
      → Grows s.members ele
          (elim (to_table c len s) [ none ↦ none | some t ↦ add_to_table c len ele t ])
  unfolding to_table add_to_table
  table-Grows ele s new =
      rw (to_table, room) (join-Grows ele (record s { encoding = hash_table }) new)

  listpack-Grows :
      (ele : Bytes) (s : LoadingSet)
      → holds_key s.members ele ≡ false
      → Grows s.members ele (add_to_listpack c len ele s)
  unfolding add_to_listpack
  listpack-Grows ele s new =
      elim (Bool-cases (
        ltb (length s.members) c.set_max_listpack_entries
        && leb (length ele) c.set_max_listpack_value
        && c.lp_safe_to_add s.members (length ele))) [
          | inl z ↦ rw (add_to_listpack, z) (join-Grows ele s new)
          | inr z ↦ rw (add_to_listpack, z) (table-Grows ele s new)
        ]

  intset-Grows :
      (ele : Bytes) (s : LoadingSet)
      → holds_key s.members ele ≡ false
      → Grows s.members ele (add_to_intset c len ele s)
  unfolding add_to_intset
  intset-Grows ele s new = elim (Bool-cases (c.is_long_long ele)) [
    | inl n ↦ rw (add_to_intset, n) (join-Grows ele s new)
    | inr n ↦
        elim (Bool-cases (
          ltb (length s.members) c.set_max_listpack_entries
          && leb s.maxelelen c.set_max_listpack_value
          && c.lp_safe_to_add [] s.sumelelen)) [
            | inl z ↦
                rw (add_to_intset, n, z) (listpack-Grows ele (record s { encoding = listpack }) new)
            | inr z ↦ rw (add_to_intset, n, z) (table-Grows ele s new)
          ]
  ]

  by-Grows :
      (k : SetEncoding) (ele : Bytes) (s : LoadingSet)
      → holds_key s.members ele ≡ false
      → Grows s.members ele (add_by c len k ele s)
  unfolding add_by add_to_table
  by-Grows intset ele s new = intset-Grows ele s new
  by-Grows listpack ele s new = listpack-Grows ele s new
  by-Grows hash_table ele s new = join-Grows ele s new

  pub member-Grows :
      (ele : Bytes) (s : LoadingSet)
      → holds_key s.members ele ≡ false
      → Grows s.members ele (add_member c len ele s)
  unfolding add_member
  member-Grows ele s new = by-Grows s.encoding ele _ new

module _ (f : Format) (h : IsFormat f) (e : Host) (i : IsHost e) (c : Structures) (r : Source) where
  members-Reads :
      (len : ℕ) (xs : List Bytes) (s : LoadingSet)
      → c.dict_expands len ≡ true
      → All (Fits e) xs
      → AreNew s.members xs
      → (t : LoadingSet) × Reads r
          (load_members f e c r len (length xs) s)
          (all_codes (string_code f e) xs)
          t
        × (t.members ≡ s.members ++ xs)
  unfolding load_members all_codes AreNew
  members-Reads len [] s room fits new = (s, pure-Reads r s, sym (append-nil _))
  members-Reads len (x ∷ xs) s room (fit, fits) (fresh, new) =
      let (t, step, grown) = member-Grows c len room x s fresh in
      let (u, reads, all) =
        members-Reads len xs t room fits (subst (λ ms. AreNew ms xs) (sym grown) new) in
      (
        u,
        bind-Reads r (load_text f e r load_sds) _ (string_code f e x)
            (all_codes (string_code f e) xs) x u (text-Reads f h r e i load_sds x fit)
            (rw step reads),
        all ∙ ap (λ ms. ms ++ xs) grown ∙ append_assoc s.members (x ∷ []) xs,
      )

  new_set-empty :
      (n : ℕ)
      → c.dict_expands n ≡ true
      → (s : LoadingSet) × (new_set c n ≡ some s) × (s.members ≡ [])
  unfolding new_set
  new_set-empty n room = elim (Bool-cases (ltb (intset_limit c) n)) [
    | inr z ↦ rw (new_set, z) (empty_set intset, refl, refl)
    | inl z ↦ elim (Bool-cases (ltb c.dict_ht_initial_size n)) [
      | inl y ↦ rw (new_set, z, y, room) (empty_set hash_table, refl, refl)
      | inr y ↦ rw (new_set, z, y) (empty_set hash_table, refl, refl)
    ]
  ]

  -- A set that was saved as a table.
  pub set-Reads :
      (xs : List Bytes)
      → 0 < length xs
      → length xs < 2 ^ 32
      → c.dict_expands (length xs) ≡ true
      → All (Fits e) xs
      → AreNew [] xs
      → (t : LoadingSet) × Reads r
          (load_set f e c r)
          (len_code f (length xs) ++ all_codes (string_code f e) xs)
          (loaded t)
        × (t.members ≡ xs)
  unfolding load_set
  set-Reads xs some_member small room fits new =
      let n = length xs in
      let (s, made, empty) = new_set-empty n room in
      let (t, reads, all) =
        members-Reads n xs s room fits (subst (λ ms. AreNew ms xs) (sym empty) new) in
      let nonzero : (n == 0) ≡ false = ==_ne (λ p. omega arith) in
      let counted : leb (2 ^ 32) n ≡ false = ground arith in
      (
        t,
        bind-Reads r (load_len f r) _ (len_code f n) (all_codes (string_code f e) xs) (false, n)
            (loaded t) (size-Reads f h r n (omega arith))
            (rw (nonzero, counted, made)
              (bind_last-Reads r (load_members f e c r n n s) _ (all_codes (string_code f e) xs) t
                (loaded t) reads (pure-Reads r (loaded t)))),
        all ∙ ap (λ ms. ms ++ xs) empty,
      )
