-- ===== src/Redis/Load/Values/Names.antt =====
-- The steps of the loops take no name that was there.
use mathlib.Core.Path.{subst}
use double_swap.Base.{
  ℕ, ◌+◌, ◌≡◌, refl, sym, ap, ◌∙◌, Bool, true, false, ◌&&◌, ◌||◌, Option, none, some, List, [], ◌∷◌,
  ◌++◌, map, map-append, Bytes, length, Bool-cases, inl, inr, arith,
}
use double_swap.Redis.Object.{Field}
use double_swap.Redis.Load.{holds_key, longest, Structures}
use double_swap.Redis.Load.Texts.{or_true}
use double_swap.Redis.Load.Sorted.{LoadingZset, name_of, add_scored}
use double_swap.Redis.Load.Hashes.{
  LoadingHash, field_name, put_field, is_large, pack_field, expands, pack_field_ex, add_field_ex,
}
use double_swap.Redis.Load.Values.Distinct.{AreDistinct, key_joins, some_injective}

-- The same for the keys of a list's entries.
pub name_joins :
    {A : Type 0} (name : A → Bytes) (xs : List A) (x : A)
    → AreDistinct (map name xs)
    → holds_key (map name xs) (name x) ≡ false
    → AreDistinct (map name (xs ++ x ∷ []))
name_joins name xs x h new =
    subst AreDistinct (sym (map-append name xs (x ∷ []))) (key_joins (map name xs) (name x) h new)

pub add_scored-inverted :
    (c : Structures) (ele : Bytes) (score : ℕ) (z y : LoadingZset)
    → add_scored c ele score z ≡ some y
    → (holds_key (map name_of z.elements) ele ≡ false)
      × (y.elements ≡ z.elements ++ (ele, score) ∷ [])
unfolding add_scored
add_scored-inverted c ele score z y e =
    elim (Bool-cases (c.is_nan score || holds_key (map name_of z.elements) ele)) [
      | inl bad ↦ absurd (refused (rw (add_scored, bad) refl))
      | inr ok ↦ (ground arith, ap elements_of (some_injective (sym e ∙ taken ok)))
    ]
  where
    refused : add_scored c ele score z ≡ none → ⊥
    refused gone = cc

    elements_of : LoadingZset → List (Bytes × ℕ)
    elements_of x = x.elements

    taken :
        (c.is_nan score || holds_key (map name_of z.elements) ele) ≡ false
        → add_scored c ele score z
          ≡ some (record {
            elements = z.elements ++ (ele, score) ∷ [];
            maxelelen = longest z.maxelelen ele;
            totelelen = z.totelelen + length ele;
          })
    taken ok = rw (add_scored, ok) refl

-- If the field is taken, the hash did not hold it.
abbrev pub TakesField : List Field → Field → Option LoadingHash → Type 0
TakesField fs d o =
    (h : LoadingHash)
    → o ≡ some h
    → (holds_key (map field_name fs) d.name ≡ false) × (h.fields ≡ fs ++ d ∷ [])

abbrev pub fields_of : LoadingHash → List Field
fields_of h = h.fields

pub put_field-TakesField : (d : Field) (fs : List Field) → TakesField fs d (put_field d fs)
unfolding put_field
put_field-TakesField d fs = elim (Bool-cases (holds_key (map field_name fs) d.name)) [
  | inl held ↦ rw (put_field, held) (λ h e. absurd cc)
  | inr new ↦ λ h e.
      let put : put_field d fs ≡ some (record { table = true; fields = fs ++ d ∷ [] }) =
        rw (put_field, new) refl in
      (new, ap fields_of (some_injective (sym e ∙ put)))
]

module _ (c : Structures) (d : Field) (fs : List Field) where
  pub pack_field-TakesField : TakesField fs d (pack_field c true d fs)
  unfolding pack_field
  pack_field-TakesField = elim (Bool-cases (holds_key (map field_name fs) d.name)) [
    | inl held ↦ rw (pack_field, held) (λ h e. absurd cc)
    | inr new ↦ elim (Bool-cases (is_large c false (length d.name + length d.value) d fs)) [
      | inr small ↦
          rw (pack_field, new, small) (λ h e. (refl, ap fields_of (some_injective (sym e))))
      | inl large ↦ elim (Bool-cases (c.hash_converts fs)) [
        | inl ok ↦
            rw (pack_field, new, large, ok) (λ h e. (refl, ap fields_of (some_injective (sym e))))
        | inr stops ↦ rw (pack_field, new, large, stops) (λ h e. absurd cc)
      ]
    ]
  ]

  pack_field_ex-TakesField : (len t : ℕ) → TakesField fs d (pack_field_ex c true len t d fs)
  unfolding pack_field_ex
  pack_field_ex-TakesField len t =
      let size = length d.name + length d.value + c.lp_entry_size_integer t in
      elim (Bool-cases (holds_key (map field_name fs) d.name)) [
        | inl held ↦ rw (pack_field_ex, held) (λ h e. absurd cc)
        | inr new ↦ elim (Bool-cases (is_large c true size d fs)) [
          | inr small ↦
              rw (pack_field_ex, new, small) (λ h e. (refl, ap fields_of (some_injective (sym e))))
          | inl large ↦ elim (Bool-cases (c.hash_converts fs && expands c len)) [
            | inl ok ↦
                rw (pack_field_ex, new, large, ok)
                  (λ h e. (refl, ap fields_of (some_injective (sym e))))
            | inr stops ↦ rw (pack_field_ex, new, large, stops) (λ h e. absurd cc)
          ]
        ]
      ]

pub add_field_ex-TakesField :
    (c : Structures) (len t : ℕ) (d : Field) (b dup : Bool) (fs : List Field)
    → (b || dup) ≡ true
    → TakesField fs d (add_field_ex c dup len t d (record { table = b; fields = fs }))
unfolding add_field_ex
add_field_ex-TakesField c len t d true dup fs ok = put_field-TakesField d fs
add_field_ex-TakesField c len t d false true fs ok = pack_field_ex-TakesField c d fs len t
add_field_ex-TakesField c len t d false false fs ok = absurd cc

pub put_field-table :
    (d : Field) (fs : List Field) (u : LoadingHash) → put_field d fs ≡ some u → u.table ≡ true
unfolding put_field
put_field-table d fs u e = elim (Bool-cases (holds_key (map field_name fs) d.name)) [
  | inl held ↦ absurd (refused (rw (put_field, held) refl))
  | inr new ↦ sym (ap table_of (some_injective (sym (put new) ∙ e)))
]
  where
    table_of : LoadingHash → Bool
    table_of h = h.table

    refused : put_field d fs ≡ none → ⊥
    refused gone = cc

    put :
        holds_key (map field_name fs) d.name ≡ false
        → put_field d fs ≡ some (record { table = true; fields = fs ++ d ∷ [] })
    put new = rw (put_field, new) refl

-- A listpack with a search for duplicates is followed by such a one, or by a table.
pub still_searched :
    (c : Structures) (len t : ℕ) (d : Field) (b dup : Bool) (fs : List Field) (u : LoadingHash)
    → (b || dup) ≡ true
    → add_field_ex c dup len t d (record { table = b; fields = fs }) ≡ some u
    → (u.table || dup) ≡ true
unfolding add_field_ex
still_searched c len t d b true fs u ok e = or_true u.table
still_searched c len t d true false fs u ok e = rw (put_field-table d fs u e) refl
still_searched c len t d false false fs u ok e = absurd cc
