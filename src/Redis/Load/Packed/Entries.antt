-- ===== src/Redis/Load/Packed/Entries.antt =====
-- What the deep check of a listpack of names, values and expire times accepts.
use double_swap.Base.{
  ℕ, ◌+◌, ◌%◌, ◌≡◌, ◌≢◌, ◌↔◌, refl, sym, ◌∙◌, ap, true, false, Option, none, some, List, [], ◌∷◌,
  Bytes, All, ◌==◌, ==_iff, arith,
}
use double_swap.Base.Int.{ℤ, pos, negsuc}
use double_swap.Redis.Load.{Entry, Structures}
use double_swap.Redis.Load.Packed.{Tally, walk, lp_validate}
use double_swap.Redis.Load.Packed.Rows.{Pairwise, Row, row_entries, Follows, IsTable}
use double_swap.Redis.Load.Packed.Walk.{
  tally, IsBehind, row_passes, row_joins, walk_on, walk_row, name_passed, ttl_passed, number_entry,
  at_value,
}

module _ (c : Structures) where
  -- A walk that ends with a whole number of rows.
  abbrev Ends : List Entry → Tally → Type 0
  Ends es d = (d' : Tally) × (walk c 3 es d ≡ some d') × (d'.count % 3 ≡ 0)

  rows-Ends :
      (ws : List Row) (k : ℕ) (fs : List Bytes) (l : ℤ)
      → k % 3 ≡ 0
      → IsBehind c fs l ws
      → Ends (row_entries ws) (tally k fs l)
  unfolding walk row_entries
  rows-Ends [] k fs l e h = (tally k fs l, refl, e)
  rows-Ends (w ∷ ws) k fs l e h =
      let (passes, rest) = row_passes c fs l w ws h in
      let (d, walked, whole) =
        rows-Ends ws (k + 1 + 1 + 1) (w.name.text ∷ fs) (pos w.ttl) (omega (arith, e)) rest in
      (d, walk_row c w (row_entries ws) k fs l e passes ∙ walked, whole)

  count_end : (t d : Tally) → walk c 3 [] t ≡ some d → t.count ≡ d.count
  unfolding walk
  count_end t d z = ap (λ o. elim o [ none ↦ 0 | some x ↦ x.count ]) z

  Ends-rows :
      (es : List Entry) (k : ℕ) (fs : List Bytes) (l : ℤ)
      → k % 3 ≡ 0
      → Ends es (tally k fs l)
      → (ws : List Row) × (es ≡ row_entries ws) × IsBehind c fs l ws
  unfolding row_entries Pairwise
  Ends-rows [] k fs l e z = (
    [],
    refl,
    record {
      fresh = tt;
      follows = tt;
      table = record { distinct = tt; limited = tt; ordered = tt };
    },
  )
  Ends-rows (p ∷ []) k fs l e (d, z, whole) =
      absurd (omega (arith, e, whole, count_end _ d (name_passed c p [] k fs l d e z).1))
  Ends-rows (p ∷ q ∷ []) k fs l e (d, z, whole) =
      let z₁ = (name_passed c p (q ∷ []) k fs l d e z).1 in
      let at_end =
        sym (walk_on c q [] _ _ (at_value c q (k + 1) (p.text ∷ fs) l (omega (arith, e)))) ∙ z₁ in
      absurd (omega (arith, e, whole, count_end _ d at_end))
  Ends-rows (p ∷ q ∷ u ∷ es) k fs l e (d, z, whole) =
      let (new, z₁) = name_passed c p (q ∷ u ∷ es) k fs l d e z in
      let z₂ : walk c 3 (u ∷ es) (tally (k + 1 + 1) (p.text ∷ fs) l) ≡ some d =
        sym (walk_on c q (u ∷ es) _ _ (at_value c q (k + 1) (p.text ∷ fs) l (omega (arith, e))))
        ∙ z₁ in
      let (t, shape, valid, z₃) =
        ttl_passed c u es (k + 1 + 1) (p.text ∷ fs) l d (omega (arith, e)) z₂ in
      let (ws, rows, behind) =
        Ends-rows es (k + 1 + 1 + 1) (p.text ∷ fs) (pos t) (omega (arith, e)) (d, z₃, whole) in
      let w : Row = record { name = p; value = q; ttl_text = u.text; ttl = t } in
      (
        w ∷ ws,
        ap (λ x. p ∷ q ∷ x)
            (ap (λ x. x ∷ es) shape ∙ ap (λ x. number_entry c u.text (some (pos t)) ∷ x) rows),
        row_joins c fs l w ws (new, valid) behind,
      )

no_entries : true ≡ false → ⊥
no_entries e = cc

fresh_start : (ws : List Row) → All (λ w. All (λ j. j ≢ w.name.text) []) ws
fresh_start [] = tt
fresh_start (w ∷ ws) = (tt, fresh_start ws)

following_start : (ws : List Row) → All (λ w. Follows (negsuc 0) w.ttl) ws
unfolding Follows
following_start [] = tt
following_start (w ∷ ws) = (tt, following_start ws)

-- With a deep check, a listpack of hash fields with expire times is accepted if and only if its
-- entries are a whole number of rows, of a name, a value and a number that is no negative time, and
-- the names differ, no time is above the limit, and the rows that have a time come first, the
-- times never going down.
pub lp_validate_iff_IsTable :
    (c : Structures) (lp : Bytes)
    → c.deep ≡ true
    → (lp_validate c 3 lp ≡ true)
      ↔ ((ws : List Row) × (c.lp_entries lp ≡ some (row_entries ws)) × IsTable c ws)
unfolding lp_validate
lp_validate_iff_IsTable c lp deep = (accepted, accepts)
  where
    start : Tally
    start = tally 0 [] (negsuc 0)

    IsAccepted : Type 0
    IsAccepted = (ws : List Row) × (c.lp_entries lp ≡ some (row_entries ws)) × IsTable c ws

    on_entries :
        (es : List Entry)
        → c.lp_entries lp ≡ some es
        → lp_validate c 3 lp ≡ elim (walk c 3 es start) [ none ↦ false | some d ↦ d.count % 3 == 0 ]
    on_entries es g = rw (lp_validate, deep, g) refl

    by_walk :
        (es : List Entry) (o : Option Tally)
        → c.lp_entries lp ≡ some es
        → walk c 3 es start ≡ o
        → elim o [ none ↦ false | some d ↦ d.count % 3 == 0 ] ≡ true
        → IsAccepted
    by_walk es none g z ok = absurd (ground arith)
    by_walk es (some d) g z ok =
        let (ws, rows, behind) = Ends-rows c es 0 [] (negsuc 0) refl (d, z, (==_iff _ 0).0 ok) in
        (ws, g ∙ ap some rows, behind.table)

    by_entries :
        (o : Option (List Entry)) → c.lp_entries lp ≡ o → lp_validate c 3 lp ≡ true → IsAccepted
    by_entries none g ok = absurd (no_entries (sym ok ∙ rw (lp_validate, deep, g) refl))
    by_entries (some es) g ok = by_walk es (walk c 3 es start) g refl (sym (on_entries es g) ∙ ok)

    accepted : lp_validate c 3 lp ≡ true → IsAccepted
    accepted ok = by_entries (c.lp_entries lp) refl ok

    accepts : IsAccepted → lp_validate c 3 lp ≡ true
    accepts (ws, g, table) =
        let behind : IsBehind c [] (negsuc 0) ws = record {
          fresh = fresh_start ws;
          follows = following_start ws;
          table = table;
        } in
        let (d, z, whole) = rows-Ends c ws 0 [] (negsuc 0) refl behind in
        on_entries (row_entries ws) g ∙ rw z ((==_iff _ 0).1 whole)
