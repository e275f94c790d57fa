-- ===== src/Redis/Load/Hashes/Fields.antt =====
-- The loops that load a hash take every field once, through the change from a listpack to a table.
use double_swap.Base.{
  ℕ, ◌+◌, ◌^◌, ◌<◌, ◌≤◌, ◌≡◌, refl, ap, ◌∙◌, sym, Bool, true, false, ◌&&◌, Option, none, some, List,
  [], ◌∷◌, ◌++◌, map, map-append, append_assoc, append-nil, All, ltb, ◌==◌, ==_ne, length,
  if◌then◌else◌, Bool-cases, inl, inr, Step, pure, ◌>>=◌, arith,
}
use mathlib.Core.Path.{subst}
use double_swap.Redis.Format.{Format, IsFormat}
use double_swap.Redis.Host.{Host, IsHost}
use double_swap.Redis.Rio.{Source, Reads, pure-Reads, bind-Reads, bind_last-Reads}
use double_swap.Redis.Load.{load_sds, load_hfld, Structures, loaded, holds_key, load_text}
use double_swap.Redis.Counting.{all_codes}
use double_swap.Redis.Length.{load_len}
use double_swap.Redis.Length.Code.{len_code}
use double_swap.Redis.Object.{Field}
use double_swap.Redis.Object.Code.{field_code}
use double_swap.Redis.Text.Code.{string_code}
use double_swap.Redis.Load.Texts.{Fits, AreNew, size-Reads, text-Reads, assoc-Reads, unassoc-Reads}
use double_swap.Redis.Load.Hashes.{
  LoadingHash, field_name, field_of, put_field, is_large, pack_field, expands, load_field,
  load_packed_fields, load_table_fields, finish_hash, load_hash,
}

-- A field without a time, whose strings fit.
pub record IsPlain (e : Host) (d : Field) : Type 0 where
  pub lasting : d.expire ≡ none
  pub name_fits : Fits e d.name
  pub value_fits : Fits e d.value

-- There is room for tables of these fields: each expansion succeeds, and the conversion of each
-- part of them that comes first.
pub record HasRoom (c : Structures) (ds : List Field) : Type 0 where
  pub table_room : (k : ℕ) → k ≤ length ds → c.dict_expands k ≡ true
  pub converting : (fs gs : List Field) → fs ++ gs ≡ ds → c.hash_converts fs ≡ true

pub put_field-some :
    (d : Field) (fs : List Field)
    → holds_key (map field_name fs) d.name ≡ false
    → put_field d fs ≡ some (record { table = true; fields = fs ++ d ∷ [] })
unfolding put_field
put_field-some d fs new = rw (put_field, new) refl

pack_field-some :
    (c : Structures) (dup : Bool) (d : Field) (fs : List Field)
    → holds_key (map field_name fs) d.name ≡ false
    → c.hash_converts fs ≡ true
    → (t : Bool) × (pack_field c dup d fs ≡ some (record { table = t; fields = fs ++ d ∷ [] }))
unfolding pack_field
pack_field-some c dup d fs new converts =
    let no_dup : (dup && holds_key (map field_name fs) d.name) ≡ false = ground arith in
    elim (Bool-cases (is_large c false (length d.name + length d.value) d fs)) [
      | inl large ↦ (true, rw (pack_field, no_dup, large, converts) (put_field-some d fs new))
      | inr small ↦ (false, rw (pack_field, no_dup, small) refl)
    ]

plain_field : (d : Field) → d.expire ≡ none → field_of d.name d.value ≡ d
plain_field d lasting = ap (with_time d) (sym lasting)
  where
    with_time : Field → Option ℕ → Field
    with_time d o = record { expire = o; name = d.name; value = d.value }

pub new_name :
    (d : Field) (fs ds : List Field)
    → AreNew (map field_name fs ++ d.name ∷ []) (map field_name ds)
    → AreNew (map field_name (fs ++ d ∷ [])) (map field_name ds)
new_name d fs ds new =
    subst (λ ns. AreNew ns (map field_name ds)) (sym (map-append _ fs (d ∷ []))) new

pub expands-true : (c : Structures) (k : ℕ) → c.dict_expands k ≡ true → expands c k ≡ true
unfolding expands
expands-true c k room = ground arith

module _ (f : Format) (h : IsFormat f) (e : Host) (i : IsHost e) (c : Structures) (r : Source) where
  field-Reads : (d : Field) → IsPlain e d → Reads r (load_field f e c r) (field_code f e d) d
  unfolding load_field
  field-Reads d plain =
      bind-Reads r (load_text f e r load_hfld) _ (string_code f e d.name) (string_code f e d.value)
        d.name d (text-Reads f h r e i load_hfld d.name plain.name_fits)
        (bind_last-Reads r (load_text f e r load_sds) _ (string_code f e d.value) d.value d
          (text-Reads f h r e i load_sds d.value plain.value_fits)
          (rw (plain_field d plain.lasting) (pure-Reads r d)))

  table_fields-Reads :
      (ds fs : List Field)
      → All (IsPlain e) ds
      → AreNew (map field_name fs) (map field_name ds)
      → Reads r
          (load_table_fields f e c r (length ds) fs)
          (all_codes (field_code f e) ds)
          (record { table = true; fields = fs ++ ds })
  unfolding load_table_fields all_codes AreNew
  table_fields-Reads [] fs plain new =
      rw (append-nil fs) (pure-Reads r (record { table = true; fields = fs }))
  table_fields-Reads (d ∷ ds) fs (p, plain) (fresh, new) =
      bind-Reads r (load_field f e c r) _ (field_code f e d) (all_codes (field_code f e) ds) d _
        (field-Reads d p)
        (rw (put_field-some d fs fresh) (
          subst
            (λ x.
              Reads r (load_table_fields f e c r (length ds) (fs ++ d ∷ []))
                (all_codes (field_code f e) ds) (record { table = true; fields = x }))
            (append_assoc fs (d ∷ []) ds)
            (table_fields-Reads ds (fs ++ d ∷ []) plain
              (subst (λ ns. AreNew ns (map field_name ds)) (sym (map-append _ fs (d ∷ []))) new))))

  abbrev Hashes : Step r.Stream LoadingHash → List Field → List Field → Type 0
  Hashes m ds fs =
      (t : Bool) × Reads r m (all_codes (field_code f e) ds) (record { table = t; fields = fs })

  packed_fields-Reads :
      (dup : Bool) (ds fs : List Field)
      → All (IsPlain e) ds
      → AreNew (map field_name fs) (map field_name ds)
      → ((k : ℕ) → k ≤ length ds → c.dict_expands k ≡ true)
      → ((gs hs : List Field) → gs ++ hs ≡ fs ++ ds → c.hash_converts gs ≡ true)
      → Hashes (load_packed_fields f e c r dup (length ds) fs >>= finish_hash f e c r) ds (fs ++ ds)
  unfolding load_packed_fields finish_hash all_codes AreNew
  packed_fields-Reads dup [] fs plain new room converting =
      (false, rw (append-nil fs) (pure-Reads r (record { table = false; fields = fs })))
  packed_fields-Reads dup (d ∷ ds) fs (p, plain) (fresh, new) room converting =
      let gs = fs ++ d ∷ [] in
      let joined = append_assoc fs (d ∷ []) ds in
      let new' = new_name d fs ds new in
      let (t, step) = pack_field-some c dup d fs fresh (converting fs (d ∷ ds) refl) in
      let (u, rest) = by_table t gs joined new' (
        packed_fields-Reads dup ds gs plain new' (λ k le. room k (omega arith))
          (λ xs ys eq. converting xs ys (eq ∙ joined))) in
      (
        u,
        assoc-Reads r (load_field f e c r) _ (finish_hash f e c r) _ _ (
            bind-Reads r (load_field f e c r) _ (field_code f e d) (all_codes (field_code f e) ds) d
              _ (field-Reads d p) (rw step rest)),
      )
    where
      behind : Bool → List Field → Step r.Stream LoadingHash
      behind t gs =
          (if t
            then pure (length ds, record { table = t; fields = gs })
            else load_packed_fields f e c r dup (length ds) gs)
          >>= finish_hash f e c r

      by_table :
          (t : Bool) (gs : List Field)
          → gs ++ ds ≡ fs ++ d ∷ ds
          → AreNew (map field_name gs) (map field_name ds)
          → Hashes
              (load_packed_fields f e c r dup (length ds) gs >>= finish_hash f e c r)
              ds
              (gs ++ ds)
          → Hashes (behind t gs) ds (fs ++ d ∷ ds)
      by_table true gs joined new' rest = (
        true,
        rw (expands-true c (length ds) (room (length ds) (omega arith)), sym joined)
            (table_fields-Reads ds gs plain new'),
      )
      by_table false gs joined new' rest = rw (sym joined) rest

  -- The two ways in which the loop starts.
  start_fields : ℕ → Step r.Stream (ℕ × LoadingHash)
  start_fields n =
      if ltb c.hash_max_listpack_entries n
      then pure (n, record { table = true; fields = [] })
      else load_packed_fields f e c r c.deep n []

  started-Reads :
      (ds : List Field)
      → All (IsPlain e) ds
      → AreNew [] (map field_name ds)
      → HasRoom c ds
      → Hashes (start_fields (length ds) >>= finish_hash f e c r) ds ds
  unfolding start_fields finish_hash
  started-Reads ds plain new room =
      elim (Bool-cases (ltb c.hash_max_listpack_entries (length ds))) [
        | inl big ↦ (
          true,
          rw (big, expands-true c (length ds) (room.table_room (length ds) (omega arith)))
              (table_fields-Reads ds [] plain new),
        )
        | inr fits ↦
            rw fits (packed_fields-Reads c.deep ds [] plain new room.table_room room.converting)
      ]

  -- A hash that was saved as a table without expire times.
  pub hash-Reads :
      (ds : List Field)
      → 0 < length ds
      → length ds < 2 ^ 63
      → All (IsPlain e) ds
      → AreNew [] (map field_name ds)
      → HasRoom c ds
      → (t : Bool) × Reads r
          (load_hash f e c r)
          (len_code f (length ds) ++ all_codes (field_code f e) ds)
          (loaded (record { table = t; fields = ds }))
  unfolding load_hash start_fields
  hash-Reads ds some_field small plain new room =
      let n = length ds in
      let (t, reads) = started-Reads ds plain new room in
      let y : LoadingHash = record { table = t; fields = ds } in
      let nonzero : (n == 0) ≡ false = ==_ne (λ p. omega arith) in
      (
        t,
        bind-Reads r (load_len f r) _ (len_code f n) (all_codes (field_code f e) ds) (false, n)
            (loaded y) (size-Reads f h r n small)
            (rw nonzero (
              unassoc-Reads r (start_fields n) (finish_hash f e c r) (λ x. pure (loaded x)) _
                (loaded y)
                (bind_last-Reads r (start_fields n >>= finish_hash f e c r) _
                  (all_codes (field_code f e) ds) y (loaded y) reads (pure-Reads r (loaded y))))),
      )
