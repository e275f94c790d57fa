-- ===== src/Mosquitto/Backup/Others.antt =====
-- The saves whose results are not read only add chunks, whatever fails.
use double_swap.Base.{
  ℕ, ◌+◌, ◌≡◌, refl, inl, inr, Bool, Bool-cases, Option, none, some, List, [], ◌∷◌, length, Bytes,
}
use double_swap.Mosquitto.Chunks.{Writer, is_sys}
use double_swap.Mosquitto.Writes.{Extends, same-Extends, trans-Extends, write-Extends, then-Extends}
use double_swap.Mosquitto.Clients.{client_save}
use double_swap.Mosquitto.Clients.Rows.{client_save-Extends}
use double_swap.Mosquitto.Subs.{
  Subleaf, Subhier, subhier, Forest, leafless, this_topic, durable_id, leaves_save, subs_save,
  children_save, first_child_save, roots_save, subs_save_all,
}
use double_swap.Mosquitto.Subs
use double_swap.Mosquitto.Retained.{
  Kept, Retainhier, retainhier, RetainForest, bare, kept_save, retain_save, retain_children_save,
  first_kept_save, kept_roots_save, retain_save_all,
}
use double_swap.Mosquitto.Retained
use double_swap.Mosquitto.Backup.{Broker, System, others_save}

module _ (w : Writer) (has_memory : ℕ → Bool) where
  leaves_save-Extends :
      (topic : Bytes) (subs : List Subleaf) (f : w.File)
      → Extends w f (leaves_save w has_memory topic subs f).1
  unfolding leaves_save
  leaves_save-Extends topic [] f = same-Extends w f
  leaves_save-Extends topic (s ∷ subs) f =
      by_id (durable_id s) refl (λ g. leaves_save-Extends topic subs g)
    where
      by_id :
          (o : Option Bytes)
          → durable_id s ≡ o
          → ((g : w.File) → Extends w g (leaves_save w has_memory topic subs g).1)
          → Extends w f (leaves_save w has_memory topic (s ∷ subs) f).1
      by_id none e ih = rw (leaves_save, e) (ih f)
      by_id (some id) e ih =
          rw (leaves_save, e)
            (then-Extends w f _ (leaves_save w has_memory topic subs) (write-Extends w _ f) ih)

  mutual
    unfolding subs_save

    subs_save-Extends :
        (x : Subhier) (topic : Bytes) (level : ℕ) (f : w.File)
        → Extends w f (subs_save w has_memory x topic level f).1
    subs_save-Extends (subhier level_topic topic_len subs children) topic level f =
        let t = this_topic topic level_topic topic_len level in
        elim (Bool-cases (has_memory (length topic + topic_len + 2))) [
          | inl z ↦
              rw (subs_save, z)
                (then-Extends w f _ (λ g. (0, children_save w has_memory children t (level + 1) g))
                  (leaves_save-Extends t subs f)
                  (λ g. children_save-Extends children t (level + 1) g))
          | inr z ↦ rw (subs_save, z) (same-Extends w f)
        ]

    children_save-Extends :
        (xs : Forest) (topic : Bytes) (level : ℕ) (f : w.File)
        → Extends w f (children_save w has_memory xs topic level f)
    children_save-Extends leafless topic level f = same-Extends w f
    children_save-Extends (Subs.branch x xs) topic level f =
        trans-Extends w f _ _ (subs_save-Extends x topic level f)
          (children_save-Extends xs topic level _)

  roots_save-Extends :
      (roots : List Subhier) (f : w.File) → Extends w f (roots_save w has_memory roots f)
  unfolding roots_save
  roots_save-Extends [] f = same-Extends w f
  roots_save-Extends (subhier level_topic topic_len subs leafless ∷ roots) f =
      roots_save-Extends roots f
  roots_save-Extends (subhier level_topic topic_len subs (Subs.branch x xs) ∷ roots) f =
      trans-Extends w f _ _ (subs_save-Extends x [] 0 f) (roots_save-Extends roots _)

module _ (w : Writer) where
  kept_save-Extends : (kept : Option Kept) (f : w.File) → Extends w f (kept_save w kept f).1
  unfolding kept_save
  kept_save-Extends none f = same-Extends w f
  kept_save-Extends (some k) f = elim (Bool-cases (is_sys k.topic)) [
    | inl z ↦ rw z (same-Extends w f)
    | inr z ↦ rw z (write-Extends w _ f)
  ]

  mutual
    unfolding retain_save

    retain_save-Extends :
        (x : Retainhier) (level : ℕ) (f : w.File) → Extends w f (retain_save w x level f).1
    retain_save-Extends (retainhier kept children) level f =
        then-Extends w f _ (λ g. (0, retain_children_save w children (level + 1) g))
          (kept_save-Extends kept f) (λ g. retain_children_save-Extends children (level + 1) g)

    retain_children_save-Extends :
        (xs : RetainForest) (level : ℕ) (f : w.File)
        → Extends w f (retain_children_save w xs level f)
    retain_children_save-Extends bare level f = same-Extends w f
    retain_children_save-Extends (Retained.branch x xs) level f =
        trans-Extends w f _ _ (retain_save-Extends x level f)
          (retain_children_save-Extends xs level _)

  kept_roots_save-Extends :
      (roots : List Retainhier) (f : w.File) → Extends w f (kept_roots_save w roots f)
  unfolding kept_roots_save
  kept_roots_save-Extends [] f = same-Extends w f
  kept_roots_save-Extends (retainhier kept bare ∷ roots) f = kept_roots_save-Extends roots f
  kept_roots_save-Extends (retainhier kept (Retained.branch x xs) ∷ roots) f =
      trans-Extends w f _ _ (retain_save-Extends x 0 f) (kept_roots_save-Extends roots _)

pub others_save-Extends :
    (w : Writer) (sys : System w) (b : Broker) (f : w.File) → Extends w f (others_save w sys b f)
unfolding others_save subs_save_all retain_save_all
others_save-Extends w sys b f =
    let c = client_save w sys.misread b.now_real_s b.contexts_by_id f in
    let g = roots_save w sys.topic_memory b.normal_subs c.1 in
    let h = roots_save w sys.topic_memory b.shared_subs g in
    trans-Extends w f c.1 _
      (client_save-Extends w sys.misread sys.misread-appends b.now_real_s b.contexts_by_id f)
      (trans-Extends w c.1 g _ (roots_save-Extends w sys.topic_memory b.normal_subs c.1) (
        trans-Extends w g h _ (roots_save-Extends w sys.topic_memory b.shared_subs g)
          (kept_roots_save-Extends w b.retains h)))
