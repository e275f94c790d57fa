-- ===== src/Mosquitto/Subs/Rows.antt =====
-- The chunks that a save of the subscriptions writes.
use double_swap.Base.{
  ℕ, ◌+◌, ◌≡◌, refl, ap, sym, Bool, true, Option, none, some, List, [], ◌∷◌, ◌++◌, map, append-nil,
  length, length-append, Bytes, ==_iff,
}
use double_swap.Mosquitto.Chunks.{Chunk, sub, Writer, and_then}
use double_swap.Mosquitto.Writes.{held_after}
use double_swap.Mosquitto.Subs.{
  Subleaf, Subhier, subhier, Forest, leafless, branch, sub_chunk, durable_id, leaves_save,
  subs_save, children_save, roots_save, subs_save_all,
}
use double_swap.Mosquitto.Subs.Topics.{full_topic, this_topic-full_topic}

-- The length that is kept of each topic level is right.
unfoldable mutual
  pub IsMeasured : Subhier → Type 0
  IsMeasured (subhier level_topic topic_len subs children) =
      (topic_len ≡ length level_topic) × AreMeasured children

  pub AreMeasured : Forest → Type 0
  AreMeasured leafless = Unit
  AreMeasured (branch child children) = IsMeasured child × AreMeasured children

-- The same of all trees below the roots.
unfoldable pub AreRoots : List Subhier → Type 0
AreRoots [] = Unit {0}
AreRoots (subhier level_topic topic_len subs children ∷ roots) =
    AreMeasured children × AreRoots roots

-- The subscriptions of a tree, each with the levels that lead to it.
unfoldable mutual
  pub placed : Subhier → List Bytes → List (List Bytes × Subleaf)
  placed (subhier level_topic topic_len subs children) p =
      map (λ s. (p ++ level_topic ∷ [], s)) subs ++ placed_below children (p ++ level_topic ∷ [])

  pub placed_below : Forest → List Bytes → List (List Bytes × Subleaf)
  placed_below leafless p = []
  placed_below (branch child children) p = placed child p ++ placed_below children p

-- Those of the trees below the roots, of which only the first tree counts.
unfoldable pub subscriptions : List Subhier → List (List Bytes × Subleaf)
unfolding placed
subscriptions [] = []
subscriptions (subhier level_topic topic_len subs leafless ∷ roots) = subscriptions roots
subscriptions (subhier level_topic topic_len subs (branch child children) ∷ roots) =
    placed child [] ++ subscriptions roots

-- A chunk for each durable subscription, with its whole topic.
unfoldable pub sub_rows : List (List Bytes × Subleaf) → List Chunk
sub_rows [] = []
sub_rows ((p, s) ∷ rest) = elim (durable_id s) [
  | none ↦ sub_rows rest
  | some id ↦ sub (sub_chunk (full_topic p) id s) ∷ sub_rows rest
]

sub_rows-append :
    (xs ys : List (List Bytes × Subleaf)) → sub_rows (xs ++ ys) ≡ sub_rows xs ++ sub_rows ys
unfolding sub_rows
sub_rows-append [] ys = refl
sub_rows-append ((p, s) ∷ xs) ys = by_id (durable_id s) refl (sub_rows-append xs ys)
  where
    by_id :
        (o : Option Bytes)
        → durable_id s ≡ o
        → sub_rows (xs ++ ys) ≡ sub_rows xs ++ sub_rows ys
        → sub_rows ((p, s) ∷ (xs ++ ys)) ≡ sub_rows ((p, s) ∷ xs) ++ sub_rows ys
    by_id none e ih = rw (sub_rows, e) ih
    by_id (some id) e ih = rw (sub_rows, e) (ap (λ l. sub (sub_chunk (full_topic p) id s) ∷ l) ih)

module _ (w : Writer) (has_memory : ℕ → Bool)
    (writes : (c : Chunk) (f : w.File) → (w.write c f).0 ≡ 0)
    (allocates : (n : ℕ) → has_memory n ≡ true) where
  leaves_save-held :
      (p : List Bytes) (subs : List Subleaf) (f : w.File)
      → let r = leaves_save w has_memory (full_topic p) subs f in
        (r.0 ≡ 0) × (w.chunks r.1 ≡ w.chunks f ++ sub_rows (map (λ s. (p, s)) subs))
  unfolding leaves_save sub_rows
  leaves_save-held p [] f = (refl, sym (append-nil _))
  leaves_save-held p (s ∷ subs) f = by_id (durable_id s) refl (λ g. leaves_save-held p subs g)
    where
      by_id :
          (o : Option Bytes)
          → durable_id s ≡ o
          → ((g : w.File)
              → let r = leaves_save w has_memory (full_topic p) subs g in
                (r.0 ≡ 0) × (w.chunks r.1 ≡ w.chunks g ++ sub_rows (map (λ s. (p, s)) subs)))
          → let r = leaves_save w has_memory (full_topic p) (s ∷ subs) f in
            (r.0 ≡ 0) × (w.chunks r.1 ≡ w.chunks f ++ sub_rows ((p, s) ∷ map (λ s. (p, s)) subs))
      by_id none e ih = rw (leaves_save, sub_rows, e) (ih f)
      by_id (some id) e ih =
          let c = sub (sub_chunk (full_topic p) id s) in
          let (ok, held) = ih (w.write c f).1 in
          rw (leaves_save, sub_rows, and_then, e, (==_iff _ 0).1 (writes c f))
            (ok, held_after (w.chunks f) (c ∷ []) _ (w.chunks-write c f (writes c f)) held)

  mutual
    unfolding subs_save placed IsMeasured sub_rows

    subs_save-held :
        (x : Subhier) (p : List Bytes) (f : w.File)
        → IsMeasured x
        → w.chunks (subs_save w has_memory x (full_topic p) (length p) f).1
          ≡ w.chunks f ++ sub_rows (placed x p)
    subs_save-held (subhier level_topic topic_len subs children) p f (measured, below) =
        let q = p ++ level_topic ∷ [] in
        let e : length q ≡ length p + 1 = length-append p (level_topic ∷ []) in
        let (ok, held) = leaves_save-held q subs f in
        let here = this_topic-full_topic p level_topic in
        rw
          (
            subs_save,
            and_then,
            measured,
            here,
            allocates,
            ok,
            ← e,
            sub_rows-append (map (λ s. (q, s)) subs) (placed_below children q),
          )
          (held_after (w.chunks f) (sub_rows (map (λ s. (q, s)) subs))
            (sub_rows (placed_below children q)) held (children_save-held children q _ below))

    children_save-held :
        (xs : Forest) (p : List Bytes) (f : w.File)
        → AreMeasured xs
        → w.chunks (children_save w has_memory xs (full_topic p) (length p) f)
          ≡ w.chunks f ++ sub_rows (placed_below xs p)
    children_save-held leafless p f h = sym (append-nil _)
    children_save-held (branch x xs) p f (measured, others) =
        rw (placed_below, sub_rows-append (placed x p) (placed_below xs p))
          (held_after (w.chunks f) (sub_rows (placed x p)) (sub_rows (placed_below xs p))
            (subs_save-held x p f measured) (children_save-held xs p _ others))

  roots_save-held :
      (roots : List Subhier) (f : w.File)
      → AreRoots roots
      → w.chunks (roots_save w has_memory roots f) ≡ w.chunks f ++ sub_rows (subscriptions roots)
  unfolding roots_save subscriptions AreRoots AreMeasured sub_rows full_topic
  roots_save-held [] f h = sym (append-nil _)
  roots_save-held (subhier level_topic topic_len subs leafless ∷ roots) f (below, h) =
      roots_save-held roots f h
  roots_save-held (subhier level_topic topic_len subs (branch x xs) ∷ roots) f ((measured, _), h) =
      rw (sub_rows-append (placed x []) (subscriptions roots)) (
        held_after (w.chunks f) (sub_rows (placed x [])) (sub_rows (subscriptions roots))
          (subs_save-held x [] f measured) (roots_save-held roots _ h))

-- When every allocation and every write succeeds and each length that is kept of a topic level is
-- right: the file holds, behind its old chunks, one for each subscription of a client with an
-- identifier and no clean start, the normal ones first, in the first tree below each root; its topic
-- is the levels that lead to it with slashes between them, without the empty level of the root.
pub subs_save_all_lem :
    (w : Writer) (has_memory : ℕ → Bool) (normal_subs shared_subs : List Subhier) (f : w.File)
    → ((c : Chunk) (g : w.File) → (w.write c g).0 ≡ 0)
    → ((n : ℕ) → has_memory n ≡ true)
    → AreRoots normal_subs
    → AreRoots shared_subs
    → w.chunks (subs_save_all w has_memory normal_subs shared_subs f).1
      ≡ w.chunks f ++ (sub_rows (subscriptions normal_subs) ++ sub_rows (subscriptions shared_subs))
unfolding subs_save_all
subs_save_all_lem w has_memory normal_subs shared_subs f writes allocates normal shared =
    held_after (w.chunks f) (sub_rows (subscriptions normal_subs))
      (sub_rows (subscriptions shared_subs))
      (roots_save-held w has_memory writes allocates normal_subs f normal)
      (roots_save-held w has_memory writes allocates shared_subs _ shared)
