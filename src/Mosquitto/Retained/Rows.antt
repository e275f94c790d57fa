-- ===== src/Mosquitto/Retained/Rows.antt =====
-- The chunks that a save of the retained messages writes.
use double_swap.Base.{
  ℕ, ◌+◌, ◌≡◌, refl, ap, sym, inl, inr, Bool-cases, Option, none, some, List, [], ◌∷◌, ◌++◌,
  append-nil, if◌then◌else◌, ==_iff,
}
use double_swap.Mosquitto.Chunks.{Chunk, retain, Writer, and_then, is_sys}
use double_swap.Mosquitto.Writes.{held_after}
use double_swap.Mosquitto.Retained.{
  Kept, Retainhier, retainhier, RetainForest, bare, branch, kept_save, retain_save,
  retain_children_save, kept_roots_save, retain_save_all,
}

-- The messages that a tree keeps, the node's own first.
unfoldable mutual
  pub kept_messages : Retainhier → List Kept
  kept_messages (retainhier none children) = kept_below children
  kept_messages (retainhier (some kept) children) = kept ∷ kept_below children

  pub kept_below : RetainForest → List Kept
  kept_below bare = []
  kept_below (branch child children) = kept_messages child ++ kept_below children

-- Those of the trees below the roots, of which only the first tree counts.
unfoldable pub retained : List Retainhier → List Kept
unfolding kept_messages
retained [] = []
retained (retainhier kept bare ∷ roots) = retained roots
retained (retainhier kept (branch child children) ∷ roots) = kept_messages child ++ retained roots

-- A chunk for each of them that is no $SYS message.
unfoldable pub retain_rows : List Kept → List Chunk
retain_rows [] = []
retain_rows (k ∷ ks) = if is_sys k.topic then retain_rows ks else retain k.db_id ∷ retain_rows ks

retain_rows-append : (xs ys : List Kept) → retain_rows (xs ++ ys) ≡ retain_rows xs ++ retain_rows ys
unfolding retain_rows
retain_rows-append [] ys = refl
retain_rows-append (k ∷ xs) ys = elim (Bool-cases (is_sys k.topic)) [
  | inl z ↦ rw (retain_rows, z) (retain_rows-append xs ys)
  | inr z ↦ rw (retain_rows, z) (ap (λ l. retain k.db_id ∷ l) (retain_rows-append xs ys))
]

own : Option Kept → List Kept
own none = []
own (some k) = k ∷ []

module _ (w : Writer) (writes : (c : Chunk) (f : w.File) → (w.write c f).0 ≡ 0) where
  kept_save-held :
      (kept : Option Kept) (f : w.File)
      → ((kept_save w kept f).0 ≡ 0)
        × (w.chunks (kept_save w kept f).1 ≡ w.chunks f ++ retain_rows (own kept))
  unfolding kept_save retain_rows own
  kept_save-held none f = (refl, sym (append-nil _))
  kept_save-held (some k) f = elim (Bool-cases (is_sys k.topic)) [
    | inl z ↦ rw (retain_rows, z) (refl, sym (append-nil _))
    | inr z ↦ rw (retain_rows, z) (writes _ f, w.chunks-write _ f (writes _ f))
  ]

  mutual
    unfolding retain_save kept_messages retain_rows own

    retain_save-held :
        (x : Retainhier) (level : ℕ) (f : w.File)
        → w.chunks (retain_save w x level f).1 ≡ w.chunks f ++ retain_rows (kept_messages x)
    retain_save-held (retainhier kept children) level f =
        let (ok, held) = kept_save-held kept f in
        let split : kept_messages (retainhier kept children) ≡ own kept ++ kept_below children =
          elim kept as (λ k. kept_messages (retainhier k children) ≡ own k ++ kept_below children) [
            | none ↦ refl
            | some k ↦ refl
          ] in
        rw (split, retain_rows-append (own kept) (kept_below children), and_then, (==_iff _ 0).1 ok)
          (held_after (w.chunks f) (retain_rows (own kept)) (retain_rows (kept_below children)) held
            (retain_children_save-held children (level + 1) _))

    retain_children_save-held :
        (xs : RetainForest) (level : ℕ) (f : w.File)
        → w.chunks (retain_children_save w xs level f) ≡ w.chunks f ++ retain_rows (kept_below xs)
    retain_children_save-held bare level f = sym (append-nil _)
    retain_children_save-held (branch x xs) level f =
        rw (retain_rows-append (kept_messages x) (kept_below xs)) (
          held_after (w.chunks f) (retain_rows (kept_messages x)) (retain_rows (kept_below xs))
            (retain_save-held x level f) (retain_children_save-held xs level _))

  kept_roots_save-held :
      (roots : List Retainhier) (f : w.File)
      → w.chunks (kept_roots_save w roots f) ≡ w.chunks f ++ retain_rows (retained roots)
  unfolding kept_roots_save retained retain_rows
  kept_roots_save-held [] f = sym (append-nil _)
  kept_roots_save-held (retainhier kept bare ∷ roots) f = kept_roots_save-held roots f
  kept_roots_save-held (retainhier kept (branch x xs) ∷ roots) f =
      rw (retain_rows-append (kept_messages x) (retained roots)) (
        held_after (w.chunks f) (retain_rows (kept_messages x)) (retain_rows (retained roots))
          (retain_save-held x 0 f) (kept_roots_save-held roots _))

-- When every write succeeds: the file holds, behind its old chunks, one for each retained message
-- of the first tree below each root that is no $SYS message, each node before its children.
pub retain_save_all_lem :
    (w : Writer) (roots : List Retainhier) (f : w.File)
    → ((c : Chunk) (g : w.File) → (w.write c g).0 ≡ 0)
    → w.chunks (retain_save_all w roots f).1 ≡ w.chunks f ++ retain_rows (retained roots)
unfolding retain_save_all
retain_save_all_lem w roots f writes = kept_roots_save-held w writes roots f
