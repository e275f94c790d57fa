-- ===== src/Redis/Load/Packed/Walk.antt =====
-- The callback of the deep check, row by row.
use double_swap.Base.{
  ℕ, ◌+◌, ◌%◌, ◌≡◌, ◌≢◌, refl, sym, ◌∙◌, ap, true, false, Option, none, some, List, [], ◌∷◌, Bytes,
  All, if◌then◌else◌, Bool-cases, inl, inr, arith,
}
use double_swap.Base.Int.{ℤ, pos, negsuc}
use double_swap.Redis.Load.{Entry, Structures, holds_key}
use double_swap.Redis.Load.Packed.{
  Tally, validate_key, ttl_valid, validate_ttl, entry_validation, walk,
}
use double_swap.Redis.Load.Packed.Rows.{
  Pairwise, Row, Follows, IsTable, holds_key_iff, ttl_valid_iff, ttl_valid_negative, Follows-trans,
}

abbrev pub tally : ℕ → List Bytes → ℤ → Tally
tally k fs l = record { count = k; fields = fs; last_expireat = l }

module _ (c : Structures) where
  at_name :
      (p : Entry) (k : ℕ) (fs : List Bytes) (l : ℤ)
      → k % 3 ≡ 0
      → entry_validation c 3 p (tally k fs l)
        ≡ (if holds_key fs p.text then none else some (tally (k + 1) (p.text ∷ fs) l))
  unfolding entry_validation validate_key validate_ttl
  at_name p k fs l e = ground arith

  pub at_value :
      (p : Entry) (k : ℕ) (fs : List Bytes) (l : ℤ)
      → k % 3 ≡ 1
      → entry_validation c 3 p (tally k fs l) ≡ some (tally (k + 1) fs l)
  unfolding entry_validation validate_key validate_ttl
  at_value p k fs l e = ground arith

  at_ttl :
      (p : Entry) (k : ℕ) (fs : List Bytes) (l : ℤ)
      → k % 3 ≡ 2
      → entry_validation c 3 p (tally k fs l) ≡ elim p.integer [
        | none ↦ none
        | some t ↦ if ttl_valid c 3 l t then some (tally (k + 1) fs t) else none
      ]
  unfolding entry_validation validate_key validate_ttl
  at_ttl p k fs l e = ground arith

module _ {A : Type 0} (P Q : A → Type 0) where
  All-zip : (xs : List A) → All P xs → All Q xs → All (λ x. P x × Q x) xs
  All-zip [] ps qs = tt
  All-zip (x ∷ xs) (p, ps) (q, qs) = ((p, q), All-zip xs ps qs)

  All-unzip : (xs : List A) → All (λ x. P x × Q x) xs → All P xs × All Q xs
  All-unzip [] h = (tt, tt)
  All-unzip (x ∷ xs) ((p, q), h) = let (ps, qs) = All-unzip xs h in ((p, ps), (q, qs))

  pub All-imp : ((x : A) → P x → Q x) → (xs : List A) → All P xs → All Q xs
  All-imp f [] h = tt
  All-imp f (x ∷ xs) (p, ps) = (f x p, All-imp f xs ps)

-- The rows are a table, with names not in `fs`, and times behind `l`.
pub record IsBehind (c : Structures) (fs : List Bytes) (l : ℤ) (ws : List Row) : Type 0 where
  pub fresh : All (λ w. All (λ j. j ≢ w.name.text) fs) ws
  pub follows : All (λ w. Follows l w.ttl) ws
  pub table : IsTable c ws

module _ (c : Structures) (fs : List Bytes) (l : ℤ) (w : Row) where
  -- The tests of one row.
  abbrev Passes : Type 0
  Passes = (holds_key fs w.name.text ≡ false) × (ttl_valid c 3 l (pos w.ttl) ≡ true)

  pub row_passes :
      (ws : List Row)
      → IsBehind c fs l (w ∷ ws)
      → Passes × IsBehind c (w.name.text ∷ fs) (pos w.ttl) ws
  unfolding Pairwise
  row_passes ws h = (
    (
      (holds_key_iff fs w.name.text).1 h.fresh.0,
      (ttl_valid_iff c l w.ttl).1 (h.table.limited.0, h.follows.0),
    ),
    record {
      fresh = All-zip _ _ ws h.table.distinct.0 h.fresh.1;
      follows = h.table.ordered.0;
      table = record {
        distinct = h.table.distinct.1;
        limited = h.table.limited.1;
        ordered = h.table.ordered.1;
      };
    },
  )

  pub row_joins :
      (ws : List Row)
      → Passes
      → IsBehind c (w.name.text ∷ fs) (pos w.ttl) ws
      → IsBehind c fs l (w ∷ ws)
  unfolding Pairwise
  row_joins ws (new, valid) h =
      let (differs, fresh) = All-unzip _ _ ws h.fresh in
      let (small, behind) = (ttl_valid_iff c l w.ttl).0 valid in
      record {
        fresh = ((holds_key_iff fs w.name.text).0 new, fresh);
        follows = (behind, All-imp _ _ (λ u g. Follows-trans l w.ttl u.ttl behind g) ws h.follows);
        table = record {
          distinct = (differs, h.table.distinct);
          limited = (small, h.table.limited);
          ordered = (h.follows, h.table.ordered);
        };
      }

module _ (c : Structures) where
  pub walk_on :
      (p : Entry) (ps : List Entry) (d d' : Tally)
      → entry_validation c 3 p d ≡ some d'
      → walk c 3 (p ∷ ps) d ≡ walk c 3 ps d'
  unfolding walk
  walk_on p ps d d' e = rw (walk, e) refl

  -- A row that passes the tests.
  pub walk_row :
      (w : Row) (es : List Entry) (k : ℕ) (fs : List Bytes) (l : ℤ)
      → k % 3 ≡ 0
      → Passes c fs l w
      → walk c 3
          (w.name ∷ w.value ∷ record { text = w.ttl_text; integer = some (pos w.ttl) } ∷ es)
          (tally k fs l)
        ≡ walk c 3 es (tally (k + 1 + 1 + 1) (w.name.text ∷ fs) (pos w.ttl))
  walk_row w es k fs l e (new, valid) =
      walk_on w.name _ _ _ (at_name c w.name k fs l e ∙ rw new refl)
      ∙ walk_on w.value _ _ _ (at_value c w.value (k + 1) (w.name.text ∷ fs) l (omega (arith, e)))
      ∙ walk_on _ es _ _ (
          at_ttl c (record { text = w.ttl_text; integer = some (pos w.ttl) }) (k + 1 + 1)
            (w.name.text ∷ fs) l (omega (arith, e))
          ∙ rw valid refl)

  walk_refused :
      (p : Entry) (ps : List Entry) (d d' : Tally)
      → entry_validation c 3 p d ≡ none
      → walk c 3 (p ∷ ps) d ≢ some d'
  unfolding walk
  walk_refused p ps d d' e = rw (walk, e) (λ z. cc)

  pub name_passed :
      (p : Entry) (ps : List Entry) (k : ℕ) (fs : List Bytes) (l : ℤ) (d : Tally)
      → k % 3 ≡ 0
      → walk c 3 (p ∷ ps) (tally k fs l) ≡ some d
      → (holds_key fs p.text ≡ false) × (walk c 3 ps (tally (k + 1) (p.text ∷ fs) l) ≡ some d)
  name_passed p ps k fs l d e z = elim (Bool-cases (holds_key fs p.text)) [
    | inl held ↦ absurd (walk_refused p ps (tally k fs l) d (at_name c p k fs l e ∙ rw held refl) z)
    | inr new ↦ (new, sym (walk_on p ps _ _ (at_name c p k fs l e ∙ rw new refl)) ∙ z)
  ]

  abbrev pub number_entry : Bytes → Option ℤ → Entry
  number_entry s o = record { text = s; integer = o }

  pub ttl_passed :
      (u : Entry) (es : List Entry) (k : ℕ) (fs : List Bytes) (l : ℤ) (d : Tally)
      → k % 3 ≡ 2
      → walk c 3 (u ∷ es) (tally k fs l) ≡ some d
      → (t : ℕ) × (u ≡ record { text = u.text; integer = some (pos t) })
        × (ttl_valid c 3 l (pos t) ≡ true)
        × (walk c 3 es (tally (k + 1) fs (pos t)) ≡ some d)
  ttl_passed u es k fs l d e z = by_number u.integer refl
    where
      refused : entry_validation c 3 u (tally k fs l) ≡ none → ⊥
      refused g = walk_refused u es (tally k fs l) d g z

      by_number :
          (o : Option ℤ)
          → u.integer ≡ o
          → (t : ℕ) × (u ≡ record { text = u.text; integer = some (pos t) })
            × (ttl_valid c 3 l (pos t) ≡ true)
            × (walk c 3 es (tally (k + 1) fs (pos t)) ≡ some d)
      by_number none g = absurd (refused (at_ttl c u k fs l e ∙ rw g refl))
      by_number (some (negsuc n)) g =
          absurd (refused (at_ttl c u k fs l e ∙ rw (g, ttl_valid_negative c l n) refl))
      by_number (some (pos t)) g = elim (Bool-cases (ttl_valid c 3 l (pos t))) [
        | inr bad ↦ absurd (refused (at_ttl c u k fs l e ∙ rw (g, bad) refl))
        | inl valid ↦ (
          t,
          ap (number_entry u.text) g,
          valid,
          sym (walk_on u es _ _ (at_ttl c u k fs l e ∙ rw (g, valid) refl)) ∙ z,
        )
      ]
