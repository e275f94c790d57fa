-- ===== src/Redis/Load/Hashes/Timed.antt =====
-- The loop that loads a hash with expire times takes every field with its time.
use double_swap.Base.{
  ℕ, suc, ◌+◌, ◌-◌, ◌^◌, ◌<◌, ◌≤◌, ◌≡◌, refl, ap, ◌∙◌, sym, Bool, true, false, not, ◌&&◌, Option,
  none, some, List, [], ◌∷◌, ◌++◌, map, append_assoc, append-nil, All, ltb, ◌==◌, ==_ne, length,
  if◌then◌else◌, Bool-cases, ◌⊎◌, inl, inr, Step, pure, arith,
}
use double_swap.Base.Int.{signed}
use mathlib.Core.Path.{subst}
use double_swap.Redis.Format.{Format, IsFormat}
use double_swap.Redis.Host.{Host, IsHost}
use double_swap.Redis.Rio.{Source, Reads, pure-Reads, bind-Reads, bind_last-Reads}
use double_swap.Redis.Load.{
  load_sds, load_hfld, load_hfld_ttl, Structures, loaded, holds_key, load_text,
}
use double_swap.Redis.Counting.{all_codes}
use double_swap.Redis.Length.{load_len, load_len_by_ref}
use double_swap.Redis.Length.Code.{len_code}
use double_swap.Redis.Length.RoundTrip.{load_len_by_ref-len_code}
use double_swap.Redis.Scalars.{word64, load_millisecond_time}
use double_swap.Redis.Scalars.RoundTrip.{millisecond_time-Reads}
use double_swap.Redis.Object.{Field, saved_ttl}
use double_swap.Redis.Object.Code.{field_code, field_ttl_code}
use double_swap.Redis.Object.Streams.Code.{time_code}
use double_swap.Redis.Text.Code.{string_code}
use double_swap.Redis.Load.Texts.{Fits, AreNew, size-Reads, text-Reads}
use double_swap.Redis.Load.Hashes.{
  LoadingHash, field_name, field_at, is_large, pack_field_ex, expire_at_of, add_field_ex,
  load_field_at, load_fields_ex, load_min_expire, load_hash_metadata,
}
use double_swap.Redis.Load.Hashes.Fields.{HasRoom, put_field-some, expands-true, new_name}

-- A field's time, 0 for none.
abbrev pub time_of : Option ℕ → ℕ
time_of none = 0
time_of (some t) = t

-- A time lies between the earliest time and the limit, and is not 0.
unfoldable pub IsTimed : Structures → ℕ → Option ℕ → Type 0
IsTimed c m none = Unit {0}
IsTimed c m (some t) = (m ≤ t) × (0 < t) × (t ≤ c.eb_expire_time_max)

-- A field of a hash of which `m` is the earliest time.
pub record IsTimedField (e : Host) (c : Structures) (m : ℕ) (d : Field) : Type 0 where
  pub timed : IsTimed c m d.expire
  pub name_fits : Fits e d.name
  pub value_fits : Fits e d.value

module _ (c : Structures) (small : c.eb_expire_time_max < 2 ^ 64 - 1) where
  saved_ttl-lt : (m : ℕ) (o : Option ℕ) → IsTimed c m o → saved_ttl m o < 2 ^ 64
  unfolding saved_ttl
  saved_ttl-lt m none h = omega arith
  saved_ttl-lt m (some t) h = omega arith

  -- The relative TTL gives the time back.
  expire_at-saved_ttl :
      (m : ℕ) (o : Option ℕ) → IsTimed c m o → expire_at_of false m (saved_ttl m o) ≡ time_of o
  unfolding expire_at_of saved_ttl IsTimed
  expire_at-saved_ttl m none h = refl
  expire_at-saved_ttl m (some t) (le, nonzero, limit) = ground arith

  time_limit : (m : ℕ) (o : Option ℕ) → IsTimed c m o → ltb c.eb_expire_time_max (time_of o) ≡ false
  unfolding IsTimed
  time_limit m none h = ground arith
  time_limit m (some t) (le, nonzero, limit) = ground arith

  time_back :
      (m : ℕ) (o : Option ℕ)
      → IsTimed c m o
      → (if time_of o == 0 then none else some (time_of o)) ≡ o
  unfolding IsTimed
  time_back m none h = refl
  time_back m (some t) (le, nonzero, limit) = ground arith

field_at-time_of :
    (c : Structures) (m : ℕ) (d : Field)
    → c.eb_expire_time_max < 2 ^ 64 - 1
    → IsTimed c m d.expire
    → field_at (time_of d.expire) d.name d.value ≡ d
field_at-time_of c m d small h = ap with_time (time_back c small m d.expire h)
  where
    with_time : Option ℕ → Field
    with_time o = record { expire = o; name = d.name; value = d.value }

pack_field_ex-some :
    (c : Structures) (dup : Bool) (len t : ℕ) (d : Field) (fs : List Field)
    → holds_key (map field_name fs) d.name ≡ false
    → c.hash_converts fs ≡ true
    → c.dict_expands len ≡ true
    → (b : Bool) × (pack_field_ex c dup len t d fs
        ≡ some (record { table = b; fields = fs ++ d ∷ [] }))
unfolding pack_field_ex
pack_field_ex-some c dup len t d fs new converts room =
    let no_dup : (dup && holds_key (map field_name fs) d.name) ≡ false = ground arith in
    let size = length d.name + length d.value + c.lp_entry_size_integer t in
    elim (Bool-cases (is_large c true size d fs)) [
      | inl large ↦ (
        true,
        rw (pack_field_ex, no_dup, large, converts, expands-true c len room)
            (put_field-some d fs new),
      )
      | inr small ↦ (false, rw (pack_field_ex, no_dup, small) refl)
    ]

add_field_ex-some :
    (c : Structures) (dup : Bool) (len t : ℕ) (d : Field) (b : Bool) (fs : List Field)
    → holds_key (map field_name fs) d.name ≡ false
    → c.hash_converts fs ≡ true
    → c.dict_expands len ≡ true
    → (b' : Bool) × (add_field_ex c dup len t d (record { table = b; fields = fs })
        ≡ some (record { table = b'; fields = fs ++ d ∷ [] }))
unfolding add_field_ex
add_field_ex-some c dup len t d true fs new converts room = (true, put_field-some d fs new)
add_field_ex-some c dup len t d false fs new converts room =
    pack_field_ex-some c dup len t d fs new converts room

word64-signed : (m : ℕ) → m < 2 ^ 64 → word64 (signed (2 ^ 64) m) ≡ m
word64-signed m small = ground arith

module _ (f : Format) (h : IsFormat f) (e : Host) (i : IsHost e) (c : Structures) (r : Source)
    (small : c.eb_expire_time_max < 2 ^ 64 - 1) (m : ℕ) where
  timed_field-Reads :
      (d : Field)
      → IsTimedField e c m d
      → Reads r (load_field_at f e c r (time_of d.expire)) (field_code f e d) d
  unfolding load_field_at
  timed_field-Reads d timed =
      let flags = if time_of d.expire == 0 then load_hfld else load_hfld_ttl in
      rw (time_limit c small m d.expire timed.timed) (
        bind-Reads r (load_text f e r flags) _ (string_code f e d.name) (string_code f e d.value)
          d.name d (text-Reads f h r e i flags d.name timed.name_fits)
          (bind_last-Reads r (load_text f e r load_sds) _ (string_code f e d.value) d.value d
            (text-Reads f h r e i load_sds d.value timed.value_fits)
            (subst (λ x. Reads r (pure x) [] d) (sym (field_at-time_of c m d small timed.timed))
              (pure-Reads r d))))

  abbrev Hashes : Step r.Stream LoadingHash → List Field → List Field → Type 0
  Hashes l ds fs =
      (t : Bool) × Reads r l (all_codes (field_ttl_code f e m) ds)
        (record { table = t; fields = fs })

  timed_fields-Reads :
      (dup b : Bool) (ds fs : List Field)
      → All (IsTimedField e c m) ds
      → AreNew (map field_name fs) (map field_name ds)
      → ((k : ℕ) → k ≤ length ds → c.dict_expands k ≡ true)
      → ((gs hs : List Field) → gs ++ hs ≡ fs ++ ds → c.hash_converts gs ≡ true)
      → Hashes
          (load_fields_ex f e c r false dup m (length ds) (record { table = b; fields = fs }))
          ds
          (fs ++ ds)
  unfolding load_fields_ex all_codes AreNew
  timed_fields-Reads dup b [] fs timed new room converting =
      (b, rw (append-nil fs) (pure-Reads r (record { table = b; fields = fs })))
  timed_fields-Reads dup b (d ∷ ds) fs (p, timed) (fresh, new) room converting =
      let gs = fs ++ d ∷ [] in
      let joined = append_assoc fs (d ∷ []) ds in
      let t = time_of d.expire in
      let ttl = saved_ttl m d.expire in
      let (b', step) =
        add_field_ex-some c dup (length ds) t d b fs fresh (converting fs (d ∷ ds) refl)
          (room (length ds) (omega arith)) in
      let (u, rest) =
        timed_fields-Reads dup b' ds gs timed (new_name d fs ds new) (λ k le. room k (omega arith))
          (λ xs ys eq. converting xs ys (eq ∙ joined)) in
      let y : LoadingHash = record { table = u; fields = fs ++ d ∷ ds } in
      (
        u,
        subst
            (λ q.
              Reads r
                (load_fields_ex f e c r false dup m (suc (length ds))
                  (record { table = b; fields = fs }))
                q y)
            (sym (
              append_assoc (len_code f ttl) (field_code f e d)
                (all_codes (field_ttl_code f e m) ds)))
            (bind-Reads r (load_len_by_ref f r) _ (len_code f ttl) _ (false, ttl) y
              (load_len_by_ref-len_code f h r ttl (saved_ttl-lt c small m d.expire p.timed))
              (rw (expire_at-saved_ttl c small m d.expire p.timed) (
                bind-Reads r (load_field_at f e c r t) _ (field_code f e d) _ d y
                  (timed_field-Reads d p) (rw (step, sym joined) rest)))),
      )

  min_expire-Reads :
      m < 2 ^ 64
      → m ≤ c.eb_expire_time_invalid
      → (9 ≤ c.rdb_version) ⊎ (c.big_endian_host ≡ false)
      → Reads r (load_min_expire f e c r false) (time_code (signed (2 ^ 64) m)) m
  unfolding load_min_expire
  min_expire-Reads narrow valid order =
      let back : word64 (signed (2 ^ 64) m) ≡ m = word64-signed m narrow in
      let in_range : (ltb c.eb_expire_time_invalid m && not c.report_returns) ≡ false =
        ground arith in
      bind_last-Reads r (load_millisecond_time r c.big_endian_host c.rdb_version) _
        (time_code (signed (2 ^ 64) m)) (signed (2 ^ 64) m) m
        (subst
          (λ n.
            Reads r (load_millisecond_time r c.big_endian_host c.rdb_version)
              (time_code (signed (2 ^ 64) m)) (signed (2 ^ 64) n))
          back (millisecond_time-Reads r (signed (2 ^ 64) m) c.big_endian_host c.rdb_version order))
        (rw (back, in_range) (pure-Reads r m))

  -- A hash that was saved as a table with expire times, of which `m` is the earliest.
  pub hash_metadata-Reads :
      (ds : List Field)
      → 0 < length ds
      → length ds < 2 ^ 63
      → m < 2 ^ 64
      → m ≤ c.eb_expire_time_invalid
      → (9 ≤ c.rdb_version) ⊎ (c.big_endian_host ≡ false)
      → All (IsTimedField e c m) ds
      → AreNew [] (map field_name ds)
      → HasRoom c ds
      → (t : Bool) × Reads r
          (load_hash_metadata f e c r false)
          (time_code (signed (2 ^ 64) m)
            ++ (len_code f (length ds) ++ all_codes (field_ttl_code f e m) ds))
          (loaded (record { table = t; fields = ds }))
  unfolding load_hash_metadata
  hash_metadata-Reads ds some_field short narrow valid order timed new room =
      let n = length ds in
      let table = ltb c.hash_max_listpack_entries n in
      let dup = c.deep && not table in
      let (t, reads) =
        timed_fields-Reads dup table ds [] timed new room.table_room room.converting in
      let y : LoadingHash = record { table = t; fields = ds } in
      let nonzero : (n == 0) ≡ false = ==_ne (λ p. omega arith) in
      (
        t,
        bind-Reads r (load_min_expire f e c r false) _ (time_code (signed (2 ^ 64) m)) _ m
            (loaded y) (min_expire-Reads narrow valid order)
            (bind-Reads r (load_len f r) _ (len_code f n) _ (false, n) (loaded y)
              (size-Reads f h r n short)
              (rw nonzero (
                bind_last-Reads r
                  (load_fields_ex f e c r false dup m n (record { table = table; fields = [] })) _
                  (all_codes (field_ttl_code f e m) ds) y (loaded y) reads
                  (pure-Reads r (loaded y))))),
      )
