-- ===== src/Redis/Load/Values/Distinctness.antt =====
-- Whatever the bytes are, what is loaded from them has no member, element or field twice.
use mathlib.Core.Path.{subst}
use double_swap.Base.{
  ℕ, ◌≡◌, ap, Bool, true, false, not, ◌&&◌, ◌||◌, some, [], map, ltb, ◌==◌, if◌then◌else◌, Step,
  pure, fail, ◌>>=◌, bind-inverted, arith,
}
use double_swap.Redis.Format.{Format}
use double_swap.Redis.Opcodes.{Opcodes}
use double_swap.Redis.Host.{Host}
use double_swap.Redis.Rio.{Source}
use double_swap.Redis.Length.{load_len}
use double_swap.Redis.Load.{load_enc, load_text, Structures, Outcome, empty_key, loaded}
use double_swap.Redis.Load.Packed.Rows.{Pairwise}
use double_swap.Redis.Load.Sorted.{
  empty_zset, SortedSet, name_of, finish_zset, load_elements, load_zset,
}
use double_swap.Redis.Load.Hashes.{
  LoadingHash, expands, load_packed_fields, load_table_fields, finish_hash, load_hash,
  load_fields_ex, load_min_expire, load_hash_metadata,
}
use double_swap.Redis.Load.Values.Distinct.{
  AreDistinct, some_injective, same_loaded, no_key, fst_of,
}
use double_swap.Redis.Load.Values.Names.{fields_of}
use double_swap.Redis.Load.Values.Unique.{
  hash_of, FieldsDiffer, elements_differ, load_table_fields-FieldsDiffer,
  load_packed_fields-FieldsDiffer, load_fields_ex-FieldsDiffer,
}
use double_swap.Redis.Load.Lists.{load_list, load_quicklist}
use double_swap.Redis.Load.Packed.{
  load_intset, load_set_listpack, load_zset_listpack, load_hash_listpack, load_hash_listpack_ex,
}
use double_swap.Redis.Load.Sets.{load_set}
use double_swap.Redis.Load.Values.Distinct.{set_distinct}
use double_swap.Redis.Load.Values.{
  Kind, of_string, of_list, of_set, of_zset, of_hash, of_quicklist, of_intset, of_set_listpack,
  of_zset_listpack, of_hash_listpack, of_hash_metadata, of_hash_listpack_ex, Object, list_object,
  nodes_object, set_object, zset_object, hash_object, packed_object, as_object, load_object,
}

module _ (f : Format) (e : Host) (c : Structures) (r : Source) where
  -- The loaders that start with a count, of which 0 is no value.
  counted-inverted :
      {A : Type 0} (m : ℕ → Step r.Stream (Outcome A)) (st : r.Stream) (x : A) (st' : r.Stream)
      → (load_len f r >>= λ p. let (enc, len) = p in if len == 0 then pure empty_key else m len) st
        ≡ some (loaded x, st')
      → (len : ℕ) × (st₁ : r.Stream) × (m len st₁ ≡ some (loaded x, st'))
  counted-inverted {A = A} m st x st' g =
      let ((enc, len), st₁, read, g₁) = bind-inverted (load_len f r) _ (loaded x, st') g in
      (len, st₁, by_count (len == 0) len st₁ g₁)
    where
      by_count :
          (none_left : Bool) (len : ℕ) (st₁ : r.Stream)
          → (if none_left then pure empty_key else m len) st₁ ≡ some (loaded x, st')
          → m len st₁ ≡ some (loaded x, st')
      by_count true len st₁ z = absurd (no_key z)
      by_count false len st₁ z = z

  zset_body : ℕ → Step r.Stream (Outcome SortedSet)
  zset_body len = do z ← load_elements f e c r len empty_zset; pure (loaded (finish_zset c z))

  zset_distinct :
      (st : r.Stream) (x : SortedSet) (st' : r.Stream)
      → load_zset f e c r st ≡ some (loaded x, st')
      → AreDistinct (map name_of x.elements)
  unfolding load_zset finish_zset zset_body Pairwise
  zset_distinct st x st' g =
      let (len, st₁, z) =
        counted-inverted
          (λ n.
            if not (ltb c.dict_ht_initial_size n) || c.dict_expands n then zset_body n else fail)
          st x st' g in
      by_room (not (ltb c.dict_ht_initial_size len) || c.dict_expands len) len st₁ z
    where
      by_room :
          (room : Bool) (len : ℕ) (st₁ : r.Stream)
          → (if room then zset_body len else fail) st₁ ≡ some (loaded x, st')
          → AreDistinct (map name_of x.elements)
      by_room true len st₁ z =
          let (y, st₂, read, z₁) =
            bind-inverted (load_elements f e c r len empty_zset) _ (loaded x, st') z in
          subst (λ (u : SortedSet). AreDistinct (map name_of u.elements)) (same_loaded z₁)
            (elements_differ f e c r len empty_zset st₁ y st₂ tt read)
      by_room false len st₁ z = absurd cc

  finish_differ :
      (n : ℕ) (u : LoadingHash) (st : r.Stream) (h : LoadingHash) (st' : r.Stream)
      → FieldsDiffer u.fields
      → finish_hash f e c r (n, u) st ≡ some (h, st')
      → FieldsDiffer h.fields
  unfolding finish_hash
  finish_differ n u st h st' differ g = by_table u.table (expands c n) g
    where
      by_table :
          (t room : Bool)
          → (if t then (if room then load_table_fields f e c r n u.fields else fail) else pure u) st
            ≡ some (h, st')
          → FieldsDiffer h.fields
      by_table true true z = load_table_fields-FieldsDiffer f e c r n u.fields st h st' differ z
      by_table true false z = absurd cc
      by_table false room z =
          subst FieldsDiffer (ap fields_of (ap fst_of (some_injective z))) differ

  hash_start : ℕ → Step r.Stream (ℕ × LoadingHash)
  hash_start len =
      if ltb c.hash_max_listpack_entries len
      then pure (len, record { table = true; fields = [] })
      else load_packed_fields f e c r c.deep len []

  start_differ :
      (len : ℕ) (st : r.Stream) (n : ℕ) (h : LoadingHash) (st' : r.Stream)
      → c.deep ≡ true
      → hash_start len st ≡ some ((n, h), st')
      → FieldsDiffer h.fields
  unfolding hash_start Pairwise
  start_differ len st n h st' deep g = by_size (ltb c.hash_max_listpack_entries len) (
      subst
        (λ b.
          (if ltb c.hash_max_listpack_entries len
              then pure (len, record { table = true; fields = [] })
              else load_packed_fields f e c r b len [])
            st
          ≡ some ((n, h), st'))
        deep g)
    where
      by_size :
          (big : Bool)
          → (if big
                then pure (len, record { table = true; fields = [] })
                else load_packed_fields f e c r true len [])
              st
            ≡ some ((n, h), st')
          → FieldsDiffer h.fields
      by_size true z = subst FieldsDiffer (ap fields_of (ap hash_of (some_injective z))) tt
      by_size false z = load_packed_fields-FieldsDiffer f e c r len [] st n h st' tt z

  hash_distinct :
      (st : r.Stream) (x : LoadingHash) (st' : r.Stream)
      → c.deep ≡ true
      → load_hash f e c r st ≡ some (loaded x, st')
      → FieldsDiffer x.fields
  unfolding load_hash hash_start
  hash_distinct st x st' deep g =
      let (len, st₁, z) =
        counted-inverted (λ n. hash_start n >>= λ y. finish_hash f e c r y >>= λ h. pure (loaded h))
          st x st' g in
      let ((n, u), st₂, started, z₁) = bind-inverted (hash_start len) _ (loaded x, st') z in
      let (h, st₃, finished, z₂) =
        bind-inverted (finish_hash f e c r (n, u)) _ {s = st₂} (loaded x, st') z₁ in
      subst (λ (v : LoadingHash). FieldsDiffer v.fields) (same_loaded z₂)
        (finish_differ n u st₂ h st₃ (start_differ len st₁ n u st₂ deep started) finished)

  hash_metadata_distinct :
      (pre_ga : Bool) (st : r.Stream) (x : LoadingHash) (st' : r.Stream)
      → c.deep ≡ true
      → load_hash_metadata f e c r pre_ga st ≡ some (loaded x, st')
      → FieldsDiffer x.fields
  unfolding load_hash_metadata Pairwise
  hash_metadata_distinct pre_ga st x st' deep g =
      let (m, st₀, time, g₀) = bind-inverted (load_min_expire f e c r pre_ga) _ (loaded x, st') g in
      let (len, st₁, z) =
        counted-inverted
          (λ n.
            load_fields_ex f e c r pre_ga (c.deep && not (ltb c.hash_max_listpack_entries n)) m n
              (record { table = ltb c.hash_max_listpack_entries n; fields = [] })
            >>= λ h. pure (loaded h))
          st₀ x st' g₀ in
      let big = ltb c.hash_max_listpack_entries len in
      let (h, st₂, read, z₁) =
        bind-inverted
          (load_fields_ex f e c r pre_ga (c.deep && not big) m len
            (record { table = big; fields = [] }))
          _ {s = st₁} (loaded x, st') z in
      subst (λ (v : LoadingHash). FieldsDiffer v.fields) (same_loaded z₁)
        (load_fields_ex-FieldsDiffer f e c r pre_ga (c.deep && not big) m len big [] st₁ h st₂
          (searched big) tt read)
    where
      searched : (b : Bool) → (b || (c.deep && not b)) ≡ true
      searched b = ground arith

-- The members of a set, the elements of a sorted set or the fields of a hash differ.
pub HasDistinct : Object → Type 0
HasDistinct (set_object t) = AreDistinct t.members
HasDistinct (zset_object z) = AreDistinct (map name_of z.elements)
HasDistinct (hash_object h) = FieldsDiffer h.fields
HasDistinct _ = Unit {0}

module _ (f : Format) (o : Opcodes) (e : Host) (c : Structures) (r : Source) where
  -- If what a branch makes has a property, so has the object.
  branch_has :
      {A : Type 0} (g : A → Object) (m : Step r.Stream (Outcome A)) (st : r.Stream) (x : Object)
      (st' : r.Stream)
      → ((a : A) (t : r.Stream) → m st ≡ some (loaded a, t) → HasDistinct (g a))
      → (m >>= λ a. pure (as_object g a)) st ≡ some (loaded x, st')
      → HasDistinct x
  branch_has {A = A} g m st x st' has z =
      let (y, t, run, z₁) = bind-inverted m _ (loaded x, st') z in by_outcome y t run z₁
    where
      by_outcome :
          (y : Outcome A) (t : r.Stream)
          → m st ≡ some (y, t)
          → pure (as_object g y) t ≡ some (loaded x, st')
          → HasDistinct x
      by_outcome empty_key t run z₁ = absurd (no_key z₁)
      by_outcome (loaded a) t run z₁ = subst HasDistinct (same_loaded z₁) (has a t run)

  -- With payloads checked in depth, whatever bytes the stream holds: where `rdbLoadObject` returns
  -- an object, the members of a set, the elements of a sorted set and the fields of a hash that came
  -- one by one are pairwise different.
  pub loaded_distinct :
      (k : Kind) (st : r.Stream) (x : Object) (st' : r.Stream)
      → c.deep ≡ true
      → load_object f o e c r k st ≡ some (loaded x, st')
      → HasDistinct x
  unfolding load_object HasDistinct
  loaded_distinct of_string st x st' deep z =
      let (text, t, run, z₁) = bind-inverted (load_text f e r load_enc) _ (loaded x, st') z in
      subst HasDistinct (same_loaded z₁) tt
  loaded_distinct of_list st x st' deep z =
      branch_has list_object (load_list f o e c r) st x st' (λ a t run. tt) z
  loaded_distinct of_set st x st' deep z =
      branch_has set_object (load_set f e c r) st x st' (λ a t run. set_distinct f e c r st a t run)
        z
  loaded_distinct of_zset st x st' deep z =
      branch_has zset_object (load_zset f e c r) st x st'
        (λ a t run. zset_distinct f e c r st a t run) z
  loaded_distinct of_hash st x st' deep z =
      branch_has hash_object (load_hash f e c r) st x st'
        (λ a t run. hash_distinct f e c r st a t deep run) z
  loaded_distinct (of_hash_metadata p) st x st' deep z =
      branch_has hash_object (load_hash_metadata f e c r p) st x st'
        (λ a t run. hash_metadata_distinct f e c r p st a t deep run) z
  loaded_distinct of_quicklist st x st' deep z =
      branch_has nodes_object (load_quicklist f o e c r) st x st' (λ a t run. tt) z
  loaded_distinct of_intset st x st' deep z =
      branch_has packed_object (load_intset f e c r) st x st' (λ a t run. tt) z
  loaded_distinct of_set_listpack st x st' deep z =
      branch_has packed_object (load_set_listpack f e c r) st x st' (λ a t run. tt) z
  loaded_distinct of_zset_listpack st x st' deep z =
      branch_has packed_object (load_zset_listpack f e c r) st x st' (λ a t run. tt) z
  loaded_distinct of_hash_listpack st x st' deep z =
      branch_has packed_object (load_hash_listpack f e c r) st x st' (λ a t run. tt) z
  loaded_distinct (of_hash_listpack_ex p) st x st' deep z =
      branch_has packed_object (load_hash_listpack_ex f e c r p) st x st' (λ a t run. tt) z
