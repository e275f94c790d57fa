-- ===== src/Mosquitto/Retained.antt =====
-- mosquitto files/persist_write.c: `persist__retain_save` and `persist__retain_save_all`.
pub mod Rows
use double_swap.Base.{
  ℕ, ◌+◌, Bool, true, false, Option, none, some, List, [], ◌∷◌, Bytes, if◌then◌else◌,
}
use double_swap.Mosquitto.Chunks.{retain, Writer, and_then, is_sys}

-- The message that a node keeps.
pub record Kept : Type 0 where
  pub topic : Bytes
  pub db_id : ℕ

-- `struct mosquitto__retainhier`, with the children in the order of the hash.
mutual
  pub data Retainhier : Type 0 where
    retainhier : Option Kept → RetainForest → Retainhier

  pub data RetainForest : Type 0 where
    bare : RetainForest
    branch : Retainhier → RetainForest → RetainForest

module _ (w : Writer) where
  unfoldable pub kept_save : Option Kept → w.File → ℕ × w.File
  kept_save none f = (0, f)
  kept_save (some kept) f = if is_sys kept.topic then (0, f) else w.write (retain kept.db_id) f

  unfoldable mutual
    unfolding kept_save and_then

    pub retain_save : Retainhier → ℕ → w.File → ℕ × w.File
    retain_save (retainhier kept children) level f =
        and_then (kept_save kept f) (λ g. (0, retain_children_save children (level + 1) g))

    -- The children, whose results are not read.
    pub retain_children_save : RetainForest → ℕ → w.File → w.File
    retain_children_save bare level f = f
    retain_children_save (branch child children) level f =
        retain_children_save children level (retain_save child level f).1

  unfoldable pub first_kept_save : Retainhier → w.File → w.File
  unfolding retain_save
  first_kept_save (retainhier kept bare) f = f
  first_kept_save (retainhier kept (branch child children)) f = (retain_save child 0 f).1

  unfoldable pub kept_roots_save : List Retainhier → w.File → w.File
  unfolding first_kept_save
  kept_roots_save [] f = f
  kept_roots_save (root ∷ roots) f = kept_roots_save roots (first_kept_save root f)

  unfoldable pub retain_save_all : List Retainhier → w.File → ℕ × w.File
  unfolding kept_roots_save
  retain_save_all retains f = (0, kept_roots_save retains f)
