-- ===== src/Redis/Load/Values/Unique.antt =====
-- The loops take no name twice.
use mathlib.Core.Path.{subst}
use double_swap.Base.{
  ℕ, suc, zero, ◌≡◌, sym, ap, Bool, true, false, ◌||◌, Option, some, List, map, if◌then◌else◌, pure,
  bind-inverted, choice-inverted,
}
use double_swap.Redis.Format.{Format}
use double_swap.Redis.Host.{Host}
use double_swap.Redis.Rio.{Source}
use double_swap.Redis.Length.{load_len_by_ref}
use double_swap.Redis.Scalars.{load_binary_double}
use double_swap.Redis.Object.{Field}
use double_swap.Redis.Load.{load_sds, load_text, Structures}
use double_swap.Redis.Load.Sorted.{LoadingZset, name_of, add_scored, load_elements}
use double_swap.Redis.Load.Hashes.{
  LoadingHash, field_name, put_field, pack_field, add_field_ex, expire_at_of, load_field,
  load_packed_fields, load_table_fields, load_field_at, load_fields_ex,
}
use double_swap.Redis.Load.Values.Distinct.{AreDistinct, some_injective, fst_of}
use double_swap.Redis.Load.Values.Names.{
  name_joins, add_scored-inverted, TakesField, fields_of, put_field-TakesField,
  pack_field-TakesField, add_field_ex-TakesField, still_searched,
}

abbrev pub hash_of : {S : Type 0} → (ℕ × LoadingHash) × S → LoadingHash
hash_of ((n, h), s) = h

abbrev pub FieldsDiffer : List Field → Type 0
FieldsDiffer fs = AreDistinct (map field_name fs)

taken_differ :
    (fs : List Field) (d : Field) (o : Option LoadingHash) (h : LoadingHash)
    → TakesField fs d o
    → FieldsDiffer fs
    → o ≡ some h
    → FieldsDiffer h.fields
taken_differ fs d o h takes differ e =
    let (new, grown) = takes h e in
    subst FieldsDiffer (sym grown) (name_joins field_name fs d differ new)

module _ (f : Format) (e : Host) (c : Structures) (r : Source) where
  pub elements_differ :
      (k : ℕ) (z : LoadingZset) (st : r.Stream) (y : LoadingZset) (st' : r.Stream)
      → AreDistinct (map name_of z.elements)
      → load_elements f e c r k z st ≡ some (y, st')
      → AreDistinct (map name_of y.elements)
  unfolding load_elements
  elements_differ zero z st y st' h g =
      subst (λ (u : LoadingZset). AreDistinct (map name_of u.elements))
        (ap fst_of (some_injective g)) h
  elements_differ (suc k) z st y st' h g =
      let (ele, st₁, read, g₁) = bind-inverted (load_text f e r load_sds) _ (y, st') g in
      let (score, st₂, read₂, g₂) = bind-inverted (load_binary_double r) _ {s = st₁} (y, st') g₁ in
      let (u, added, g₃) =
        choice-inverted (add_scored c ele score z) (load_elements f e c r k) st₂ (y, st') g₂ in
      let (new, grown) = add_scored-inverted c ele score z u added in
      elements_differ k u st₂ y st'
        (subst (λ xs. AreDistinct (map name_of xs)) (sym grown)
          (name_joins name_of z.elements (ele, score) h new))
        g₃

  pub load_table_fields-FieldsDiffer :
      (k : ℕ) (fs : List Field) (st : r.Stream) (h : LoadingHash) (st' : r.Stream)
      → FieldsDiffer fs
      → load_table_fields f e c r k fs st ≡ some (h, st')
      → FieldsDiffer h.fields
  unfolding load_table_fields
  load_table_fields-FieldsDiffer zero fs st h st' differ g =
      subst FieldsDiffer (ap fields_of (ap fst_of (some_injective g))) differ
  load_table_fields-FieldsDiffer (suc k) fs st h st' differ g =
      let (d, st₁, read, g₁) = bind-inverted (load_field f e c r) _ (h, st') g in
      let (u, put, g₂) =
        choice-inverted (put_field d fs) (λ u. load_table_fields f e c r k u.fields) st₁ (h, st')
          g₁ in
      load_table_fields-FieldsDiffer k u.fields st₁ h st'
        (taken_differ fs d (put_field d fs) u (put_field-TakesField d fs) differ put) g₂

  pub load_packed_fields-FieldsDiffer :
      (k : ℕ) (fs : List Field) (st : r.Stream) (n : ℕ) (h : LoadingHash) (st' : r.Stream)
      → FieldsDiffer fs
      → load_packed_fields f e c r true k fs st ≡ some ((n, h), st')
      → FieldsDiffer h.fields
  unfolding load_packed_fields
  load_packed_fields-FieldsDiffer zero fs st n h st' differ g =
      subst FieldsDiffer (ap fields_of (ap hash_of (some_injective g))) differ
  load_packed_fields-FieldsDiffer (suc k) fs st n h st' differ g =
      let (d, st₁, read, g₁) = bind-inverted (load_field f e c r) _ ((n, h), st') g in
      let (u, put, g₂) =
        choice-inverted (pack_field c true d fs)
          (λ u. if u.table then pure (k, u) else load_packed_fields f e c r true k u.fields) st₁
          ((n, h), st') g₁ in
      by_table u.table u st₁
        (taken_differ fs d (pack_field c true d fs) u (pack_field-TakesField c d fs) differ put) g₂
        (load_packed_fields-FieldsDiffer k u.fields st₁ n h st'
          (taken_differ fs d (pack_field c true d fs) u (pack_field-TakesField c d fs) differ put))
    where
      by_table :
          (t : Bool) (u : LoadingHash) (st₁ : r.Stream)
          → FieldsDiffer u.fields
          → (if t then pure (k, u) else load_packed_fields f e c r true k u.fields) st₁
            ≡ some ((n, h), st')
          → (load_packed_fields f e c r true k u.fields st₁ ≡ some ((n, h), st')
              → FieldsDiffer h.fields)
          → FieldsDiffer h.fields
      by_table true u st₁ before z on =
          subst FieldsDiffer (ap fields_of (ap hash_of (some_injective z))) before
      by_table false u st₁ before z on = on z

  pub load_fields_ex-FieldsDiffer :
      (pre_ga dup : Bool) (m k : ℕ) (b : Bool) (fs : List Field) (st : r.Stream) (h : LoadingHash)
      (st' : r.Stream)
      → (b || dup) ≡ true
      → FieldsDiffer fs
      → load_fields_ex f e c r pre_ga dup m k (record { table = b; fields = fs }) st ≡ some (h, st')
      → FieldsDiffer h.fields
  unfolding load_fields_ex
  load_fields_ex-FieldsDiffer pre_ga dup m zero b fs st h st' searched differ g =
      subst FieldsDiffer (ap fields_of (ap fst_of (some_injective g))) differ
  load_fields_ex-FieldsDiffer pre_ga dup m (suc k) b fs st h st' searched differ g =
      let ((enc, ttl), st₁, read, g₁) = bind-inverted (load_len_by_ref f r) _ (h, st') g in
      let t = expire_at_of pre_ga m ttl in
      let (d, st₂, field, g₂) = bind-inverted (load_field_at f e c r t) _ {s = st₁} (h, st') g₁ in
      let (u, added, g₃) =
        choice-inverted (add_field_ex c dup k t d (record { table = b; fields = fs }))
          (load_fields_ex f e c r pre_ga dup m k) st₂ (h, st') g₂ in
      let now =
        taken_differ fs d _ u (add_field_ex-TakesField c k t d b dup fs searched) differ added in
      load_fields_ex-FieldsDiffer pre_ga dup m k u.table u.fields st₂ h st'
        (still_searched c k t d b dup fs u searched added) now g₃
