-- ===== src/Mosquitto/Subs.antt =====
-- mosquitto files/persist_write.c: `persist__subs_save` and `persist__subs_save_all`.
pub mod Topics
pub mod Rows
use double_swap.Base.{
  ℕ, ◌+◌, ◌*◌, ◌%◌, ◌^◌, Bool, true, false, not, ◌&&◌, ◌||◌, Option, none, some, List, [], ◌∷◌,
  ◌++◌, take, Bytes, length, ltb, ◌==◌, if◌then◌else◌,
}
use double_swap.Mosquitto.Chunks.{SubChunk, sub, Writer, and_then, len16}

-- `struct mosquitto__subleaf`, with what is read of its context.
pub record Subleaf : Type 0 where
  pub identifier : ℕ
  pub id : Option Bytes
  pub clean_start : Bool
  pub qos : ℕ
  pub no_local : Bool
  pub retain_as_published : Bool

-- `struct mosquitto__subhier`: its topic level, the length that is kept of it, the subscriptions and
-- the children in the order of the hash.
mutual
  pub data Subhier : Type 0 where
    subhier : Bytes → ℕ → List Subleaf → Forest → Subhier

  pub data Forest : Type 0 where
    leafless : Forest
    branch : Subhier → Forest → Forest

-- What `snprintf` leaves in `thistopic`, which has room for the terminator as well.
unfoldable pub this_topic : Bytes → Bytes → ℕ → ℕ → Bytes
this_topic topic level_topic topic_len level =
    take (length topic + topic_len + 1)
      (if ltb 1 level || not (length topic == 0) then topic ++ 47 ∷ level_topic else level_topic)

unfoldable pub sub_chunk : Bytes → Bytes → Subleaf → SubChunk
sub_chunk topic id s = record {
  identifier = s.identifier;
  id_len = len16 id;
  topic_len = len16 topic;
  qos = s.qos % 2 ^ 8;
  options = (if s.no_local then 4 else 0) + (if s.retain_as_published then 8 else 0);
  client_id = id;
  topic = topic;
}

-- The identifier of a subscription that is saved.
unfoldable pub durable_id : Subleaf → Option Bytes
durable_id s = if s.clean_start then none else s.id

module _ (w : Writer) (has_memory : ℕ → Bool) where
  unfoldable pub leaves_save : Bytes → List Subleaf → w.File → ℕ × w.File
  unfolding durable_id and_then
  leaves_save topic [] f = (0, f)
  leaves_save topic (s ∷ subs) f = elim (durable_id s) [
    | none ↦ leaves_save topic subs f
    | some id ↦ and_then (w.write (sub (sub_chunk topic id s)) f) (leaves_save topic subs)
  ]

  unfoldable mutual
    unfolding this_topic leaves_save and_then

    pub subs_save : Subhier → Bytes → ℕ → w.File → ℕ × w.File
    subs_save (subhier level_topic topic_len subs children) topic level f =
        let thistopic = this_topic topic level_topic topic_len level in
        if has_memory (length topic + topic_len + 2)
        then and_then (leaves_save thistopic subs f)
            (λ g. (0, children_save children thistopic (level + 1) g))
        else (1, f)

    -- The children, whose results are not read.
    pub children_save : Forest → Bytes → ℕ → w.File → w.File
    children_save leafless topic level f = f
    children_save (branch child children) topic level f =
        children_save children topic level (subs_save child topic level f).1

  -- The first child of a root, if it has one, and the roots after it.
  unfoldable pub first_child_save : Subhier → w.File → w.File
  unfolding subs_save
  first_child_save (subhier level_topic topic_len subs leafless) f = f
  first_child_save (subhier level_topic topic_len subs (branch child children)) f =
      (subs_save child [] 0 f).1

  unfoldable pub roots_save : List Subhier → w.File → w.File
  unfolding first_child_save
  roots_save [] f = f
  roots_save (root ∷ roots) f = roots_save roots (first_child_save root f)

  unfoldable pub subs_save_all : List Subhier → List Subhier → w.File → ℕ × w.File
  unfolding roots_save
  subs_save_all normal_subs shared_subs f = (0, roots_save shared_subs (roots_save normal_subs f))
