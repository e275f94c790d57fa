-- ===== src/Redis/Load/Lists.antt =====
-- redis/rdb.c: `rdbLoadObject`, RDB_TYPE_LIST and RDB_TYPE_LIST_QUICKLIST_2. What
-- `listTypeTryConversion` makes of a list later on is left to it.
pub mod Nodes
use double_swap.Base.{
  ℕ, Bool, true, false, not, ◌&&◌, Option, none, some, List, [], ◌∷◌, Bytes, ◌==◌, length,
  if◌then◌else◌, Step, pure, fail, ◌>>=◌,
}
use double_swap.Redis.Format.{Format}
use double_swap.Redis.Opcodes.{Opcodes}
use double_swap.Redis.Host.{Host}
use double_swap.Redis.Rio.{Source}
use double_swap.Redis.Length.{load_len}
use double_swap.Redis.Load.{
  load_enc, load_plain, Structures, Outcome, empty_key, loaded, lp_valid, load_times, load_text,
}

-- A node of the quicklist that is being loaded.
pub data ListNode : Type 0 where
  plain : Bytes → ListNode
  packed : Bytes → ListNode

-- What a node's bytes become: outer `none` is a corrupt node, inner `none` an empty listpack, which
-- is skipped.
unfoldable pub node_of : Opcodes → Structures → ℕ → Bytes → Option (Option ListNode)
unfolding lp_valid
node_of o c container buf =
    if length buf == 0
    then none
    else if container == c.quicklist_node_container_plain
    then some (some (plain buf))
    else if lp_valid c buf
    then some (if c.lp_length buf == 0 then none else some (packed buf))
    else none

-- The nodes that were not skipped.
unfoldable pub kept : List (Option ListNode) → List ListNode
kept [] = []
kept (none ∷ ns) = kept ns
kept (some n ∷ ns) = n ∷ kept ns

-- A quicklist that ended up empty is no value.
unfoldable pub quicklist_of : List ListNode → Outcome (List ListNode)
quicklist_of [] = empty_key
quicklist_of (n ∷ ns) = loaded (n ∷ ns)

module _ (f : Format) (o : Opcodes) (e : Host) (c : Structures) (r : Source) where
  unfoldable pub load_list : Step r.Stream (Outcome (List Bytes))
  unfolding load_times load_text
  load_list = do
    (_, len) ← load_len f r
    if len == 0
        then pure empty_key
        else (do es ← load_times len (load_text f e r load_enc); pure (loaded es))

  unfoldable pub load_node : Step r.Stream (Option ListNode)
  unfolding node_of
  load_node = do
    (_, container) ← load_len f r
    if not (container == o.quicklist_node_container_packed)
          && not (container == c.quicklist_node_container_plain)
        then fail
        else (do
          buf ← load_text f e r load_plain
          elim (node_of o c container buf) [ none ↦ fail | some n ↦ pure n ])

  unfoldable pub load_quicklist : Step r.Stream (Outcome (List ListNode))
  unfolding load_node load_times kept quicklist_of
  load_quicklist = do
    (_, len) ← load_len f r
    if len == 0
        then pure empty_key
        else (do ns ← load_times len load_node; pure (quicklist_of (kept ns)))
