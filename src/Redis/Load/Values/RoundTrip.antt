-- ===== src/Redis/Load/Values/RoundTrip.antt =====
-- What `rdbSaveObject` writes of a value, `rdbLoadObject` reads back.
use mathlib.Core.Path.{subst}
use mathlib.Core.List.{reverse, reverse-cons}
use double_swap.Base.{
  ℕ, suc, ◌-◌, ◌^◌, ◌<◌, ◌≤◌, ◌≡◌, refl, true, false, none, some, List, [], ◌∷◌, ◌++◌, append-nil,
  map, ==_ne, Bytes, All, length, length-append, ap, ◌⊎◌, Step, pure, ◌>>=◌, arith,
}
use double_swap.Base.Int.{signed}
use double_swap.Redis.Format.{Format, IsFormat}
use double_swap.Redis.Opcodes.{Opcodes}
use double_swap.Redis.Host.{Host, IsHost}
use double_swap.Redis.Rio.{Sink, Source, Reads, pure-Reads, bind_last-Reads}
use double_swap.Redis.Counting.{all_codes, CountsBut}
use double_swap.Redis.Object.{
  Value, string, list_quicklist, list_listpack, set_intset, set_listpack, set_table, zset_listpack,
  zset_skiplist, hash_listpack, hash_listpack_ex, hash_table, stream, object_type, packed_min,
  save_object,
}
use double_swap.Redis.Object.Code.{
  node_code, scored_code, value_code, uncounted, save_object-CountsBut,
}
use double_swap.Redis.Text.Load.{object_text_of}
use double_swap.Redis.Load.{Structures, Outcome, loaded, load_enc, load_text}
use double_swap.Redis.Load.Texts.{object-Reads}
use double_swap.Redis.Load.Lists.{packed, load_quicklist}
use double_swap.Redis.Load.Lists.Nodes.{
  Stored, IsStored, as_packed, verbatim, stored_node, list_node, quicklist-Reads,
}
use double_swap.Redis.Load.Sets.Members.{set-Reads}
use double_swap.Redis.Load.Sorted.{load_zset}
use double_swap.Redis.Length.Code.{len_code}
use double_swap.Redis.Load.Sorted.Elements.{AreScored, zset-Reads}
use double_swap.Redis.Load.Hashes.Fields.{hash-Reads}
use double_swap.Redis.Load.Hashes.Timed.{hash_metadata-Reads}
use double_swap.Redis.Load.Packed.{load_set_listpack, load_zset_listpack, load_hash_listpack}
use double_swap.Redis.Load.Packed.Loading.{intset-Reads, listpack-Reads, timed_listpack-Reads}
use double_swap.Redis.Load.Values.{
  Kind, of_string, of_set, of_zset, of_hash, of_quicklist, of_intset, of_set_listpack,
  of_zset_listpack, of_hash_listpack, of_hash_metadata, of_hash_listpack_ex, type_byte, Object,
  string_object, nodes_object, set_object, zset_object, hash_object, packed_object, as_object,
  load_object,
}
use double_swap.Redis.Load.Values.Loadable.{IsCount, IsLoadable, Holds}

length-reverse : {A : Type 0} (xs : List A) → length (reverse xs) ≡ length xs
length-reverse [] = refl
length-reverse (x ∷ xs) =
    rw (reverse-cons x xs) (omega (arith, length-append (reverse xs) (x ∷ []), length-reverse xs))

length-map : {A B : Type 0} (g : A → B) (xs : List A) → length (map g xs) ≡ length xs
length-map g [] = refl
length-map g (x ∷ xs) = ap suc (length-map g xs)

module _ {A : Type 0} (r : Source) (g : A → Object) where
  -- A branch's result as an object.
  object-Reads_by :
      (m : Step r.Stream (Outcome A)) (p : Bytes) (a : A)
      → Reads r m p (loaded a)
      → Reads r (m >>= λ x. pure (as_object g x)) p (loaded (g a))
  object-Reads_by m p a reads =
      bind_last-Reads r m _ p (loaded a) (loaded (g a)) reads (pure-Reads r (loaded (g a)))

module _ (f : Format) (h : IsFormat f) (o : Opcodes) (e : Host) (i : IsHost e) (c : Structures)
    (r : Source) (limited : c.eb_expire_time_max < 2 ^ 64 - 1)
    (order : (9 ≤ c.rdb_version) ⊎ (c.big_endian_host ≡ false)) where
  -- The branch that the saved type byte selects reads the value back.
  abbrev LoadsBack : Value → Type 0
  LoadsBack v =
      (k : Kind) × (type_byte o k ≡ object_type o v)
      × (x : Object) × Reads r (load_object f o e c r k) (value_code f e o v) (loaded x)
      × Holds o e c v x

  -- A listpack as a node of its own.
  single_node : Bytes → Stored
  single_node l = record {
    node = record {
      container = o.quicklist_node_container_packed;
      compressed = false;
      entry = l;
      sz = length l;
    };
    text = l;
  }

  quicklist_loads :
      (xs : List Stored)
      → IsCount (length xs)
      → All (IsStored o e c) xs
      → LoadsBack (list_quicklist (map stored_node xs))
  unfolding load_object type_byte object_type value_code Holds
  quicklist_loads xs (some_node, short) stored = (
    of_quicklist,
    refl,
    nodes_object (map (list_node c) xs),
    rw (length-map stored_node xs) (
        object-Reads_by r nodes_object _ _ _
          (quicklist-Reads f h o e i c r xs some_node short stored)),
    (xs, refl, stored, refl),
  )

  listpack_list_loads :
      (l : Bytes) → IsLoadable o e c (list_listpack l) → LoadsBack (list_listpack l)
  unfolding load_object type_byte object_type value_code IsLoadable Holds single_node all_codes
  listpack_list_loads l (fits, filled, valid, entries, small, differs) =
      let x = single_node l in
      let stored : IsStored o e c x = record {
        entry_of = verbatim o.quicklist_node_container_packed (length l);
        kind = as_packed valid entries;
        small = small;
        filled = filled;
        text_fits = fits;
      } in
      let reads = quicklist-Reads f h o e i c r (x ∷ []) (omega arith) (omega arith) (stored, tt) in
      let shape : list_node c x ≡ packed l = rw (==_ne differs) refl in
      let code = node_code f e x.node in
      let one : Reads r (load_quicklist f o e c r) (len_code f 1 ++ code) (loaded (packed l ∷ [])) =
        subst (λ n. Reads r (load_quicklist f o e c r) (len_code f 1 ++ code) (loaded (n ∷ [])))
          shape
          (subst
            (λ p.
              Reads r (load_quicklist f o e c r) (len_code f 1 ++ p) (loaded (list_node c x ∷ [])))
            (append-nil code) reads) in
      (
        of_quicklist,
        refl,
        nodes_object (packed l ∷ []),
        object-Reads_by r nodes_object _ _ _ one,
        refl,
      )

  zset_loads :
      (zs : List (Bytes × ℕ))
      → 0 < length zs
      → length zs < 2 ^ 63
      → c.dict_expands (length zs) ≡ true
      → AreScored e c [] (reverse zs)
      → LoadsBack (zset_skiplist zs)
  unfolding load_object type_byte object_type value_code Holds
  zset_loads zs some_member short room scored =
      let n = length-reverse zs in
      let (z, reads, all) =
        zset-Reads f h e i c r (reverse zs) (omega (arith, n)) (omega (arith, n)) (rw n room)
          scored in
      (
        of_zset,
        refl,
        zset_object z,
        object-Reads_by r zset_object _ _ _ (
            subst
              (λ k.
                Reads r (load_zset f e c r)
                  (len_code f k ++ all_codes (scored_code f e) (reverse zs)) (loaded z))
              n reads),
        all,
      )

  pub value_loads : (v : Value) → IsLoadable o e c v → LoadsBack v
  unfolding load_object type_byte object_type value_code IsLoadable Holds load_set_listpack
      load_zset_listpack load_hash_listpack
  value_loads (string s) fits =
      let t = object_text_of e s in
      (
        of_string,
        refl,
        string_object t,
        bind_last-Reads r (load_text f e r load_enc) _ _ t (loaded (string_object t))
            (object-Reads f h r e i load_enc s fits) (pure-Reads r _),
        refl,
      )
  value_loads (list_quicklist ns) (xs, shape, (some_node, short), stored) =
      subst (λ ms. LoadsBack (list_quicklist ms)) shape
        (quicklist_loads xs (some_node, short) stored)
  value_loads (list_listpack l) loadable = listpack_list_loads l loadable
  value_loads (set_intset l) (fits, valid) = (
    of_intset,
    refl,
    _,
    object-Reads_by r packed_object _ _ _ (intset-Reads f h e i c r l fits valid),
    refl,
  )
  value_loads (set_listpack l) (fits, ok) = (
    of_set_listpack,
    refl,
    _,
    object-Reads_by r packed_object _ _ _
        (listpack-Reads f h e i c r 1 c.set_max_listpack_entries l fits ok),
    refl,
  )
  value_loads (set_table es) (some_member, short, room, fits, new) =
      let (t, reads, all) = set-Reads f h e i c r es some_member short room fits new in
      (of_set, refl, set_object t, object-Reads_by r set_object _ _ _ reads, all)
  value_loads (zset_listpack l) (fits, ok) = (
    of_zset_listpack,
    refl,
    _,
    object-Reads_by r packed_object _ _ _
        (listpack-Reads f h e i c r 2 c.zset_max_listpack_entries l fits ok),
    refl,
  )
  value_loads (zset_skiplist zs) ((some_member, short), room, scored) =
      zset_loads zs some_member short room scored
  value_loads (hash_listpack l) (fits, ok) = (
    of_hash_listpack,
    refl,
    _,
    object-Reads_by r packed_object _ _ _
        (listpack-Reads f h e i c r 2 c.hash_max_listpack_entries l fits ok),
    refl,
  )
  value_loads (hash_listpack_ex m l) (fits, ok) = (
    of_hash_listpack_ex false,
    refl,
    _,
    object-Reads_by r packed_object _ _ _
        (timed_listpack-Reads f h e i c r (signed (2 ^ 64) (packed_min m)) l fits ok order),
    refl,
  )
  value_loads (hash_table none fs) ((some_field, short), plain, new, room) =
      let (t, reads) = hash-Reads f h e i c r fs some_field short plain new room in
      (of_hash, refl, hash_object _, object-Reads_by r hash_object _ _ _ reads, refl)
  value_loads (hash_table (some m) fs) ((some_field, short), timed, new, room, narrow, valid) =
      let (t, reads) =
        hash_metadata-Reads f h e i c r limited m fs some_field short narrow valid order timed new
          room in
      (of_hash_metadata false, refl, hash_object _, object-Reads_by r hash_object _ _ _ reads, refl)
  value_loads (stream s) loadable = absurd loadable

-- For a value other than a stream or a module, whose collections have a first entry and fewer than
-- 2 ^ 63, a set fewer than 2 ^ 32, whose strings are shorter than 2 ^ 63 with memory for them, whose names differ, whose
-- scores are numbers, whose packed parts pass the checks and are not empty, and whose expire times
-- are not 0 and lie between their minimum and the limit, which is below 2 ^ 64 - 1; and where each
-- expansion and conversion succeeds, and the file's version is 9 or more or the host
-- little-endian: `rdbSaveObject` sends the value's bytes, failing only where the sink refuses a
-- write, and `rdbLoadObject`, by the branch of the saved type byte, takes exactly those bytes and
-- returns an object that holds the value.
pub value_round_trip :
    (f : Format) (h : IsFormat f) (o : Opcodes) (e : Host) (i : IsHost e) (c : Structures)
    (w : Sink) (r : Source) (v : Value)
    → c.eb_expire_time_max < 2 ^ 64 - 1
    → (9 ≤ c.rdb_version) ⊎ (c.big_endian_host ≡ false)
    → IsLoadable o e c v
    → (p : Bytes) × CountsBut w (uncounted v) (save_object f o e w v) p
      × (k : Kind) × (type_byte o k ≡ object_type o v)
      × (x : Object) × Reads r (load_object f o e c r k) p (loaded x)
      × Holds o e c v x
value_round_trip f h o e i c w r v limited order loadable =
    let (k, selects, x, reads, holds) = value_loads f h o e i c r limited order v loadable in
    let (n, writes, short) = save_object-CountsBut f h o e i w v in
    (value_code f e o v, (n, writes, short), k, selects, x, reads, holds)
