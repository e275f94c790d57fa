-- ===== src/Redis/Load/Lists/Nodes.antt =====
-- The loop that loads a quicklist takes the bytes of every node, compressed or not.
use double_swap.Base.{
  ℕ, ◌^◌, ◌<◌, ◌≡◌, ◌≢◌, refl, ap, true, false, not, ◌&&◌, Option, some, List, [], ◌∷◌, ◌++◌, map,
  Bytes, All, ◌==◌, ==_ne, length, if◌then◌else◌, arith,
}
use mathlib.Core.Path.{subst}
use double_swap.Redis.Format.{Format, IsFormat}
use double_swap.Redis.Opcodes.{Opcodes}
use double_swap.Redis.Host.{Host, IsHost}
use double_swap.Redis.Rio.{Source, Reads, pure-Reads, bind-Reads, bind_last-Reads}
use double_swap.Redis.Counting.{all_codes}
use double_swap.Redis.Length.{load_len}
use double_swap.Redis.Length.Code.{len_code}
use double_swap.Redis.Object.{Node}
use double_swap.Redis.Object.Code.{node_code}
use double_swap.Redis.Text.Code.{string_code, blob_code}
use double_swap.Redis.Load.{load_plain, Structures, loaded, lp_valid, load_times, load_text}
use double_swap.Redis.Load.Texts.{Fits, size-Reads, text-Reads, blob-Reads, times-Reads}
use double_swap.Redis.Load.Lists.{
  ListNode, plain, packed, node_of, kept, quicklist_of, load_node, load_quicklist,
}

-- A node with the bytes that it stands for.
pub record Stored : Type 0 where
  pub node : Node
  pub text : Bytes

-- The entry is the text, or is compressed and can be decompressed.
pub data IsEntryOf (e : Host) (s : Bytes) : Node → Type 0 where
  verbatim :
      (k n : ℕ) → IsEntryOf e s (record { container = k; compressed = false; entry = s; sz = n })
  squeezed :
      (k : ℕ) (q : Bytes)
      → length q < 2 ^ 63
      → e.allocates (length q) ≡ true
      → e.lzf_decompress q (length s) ≡ some s
      → IsEntryOf e s (record { container = k; compressed = true; entry = q; sz = length s })

-- The container fits the text: any bytes, or a listpack that has entries.
pub data IsKind (o : Opcodes) (c : Structures) (s : Bytes) : ℕ → Type 0 where
  as_plain : IsKind o c s c.quicklist_node_container_plain
  as_packed :
      lp_valid c s ≡ true → c.lp_length s ≢ 0 → IsKind o c s o.quicklist_node_container_packed

pub record IsStored (o : Opcodes) (e : Host) (c : Structures) (x : Stored) : Type 0 where
  pub entry_of : IsEntryOf e x.text x.node
  pub kind : IsKind o c x.text x.node.container
  pub small : x.node.container < 2 ^ 63
  pub filled : 0 < length x.text
  pub text_fits : Fits e x.text

abbrev pub stored_node : Stored → Node
stored_node x = x.node

-- The node that is loaded.
abbrev pub list_node : Structures → Stored → ListNode
list_node c x =
    if x.node.container == c.quicklist_node_container_plain then plain x.text else packed x.text

kept-some :
    {A : Type 0} (g : A → ListNode) (xs : List A) → kept (map (λ x. some (g x)) xs) ≡ map g xs
unfolding kept
kept-some g [] = refl
kept-some g (x ∷ xs) = ap (λ l. g x ∷ l) (kept-some g xs)

all_codes-map :
    {A B : Type 0} (g : A → B) (code : B → Bytes) (zs : List A)
    → all_codes (λ z. code (g z)) zs ≡ all_codes code (map g zs)
unfolding all_codes
all_codes-map g code [] = refl
all_codes-map g code (z ∷ zs) = ap (λ p. code (g z) ++ p) (all_codes-map g code zs)

module _ (o : Opcodes) (c : Structures) where
  -- The test that refuses a container passes.
  known_container :
      (s : Bytes) (k : ℕ)
      → IsKind o c s k
      → (not (k == o.quicklist_node_container_packed)
          && not (k == c.quicklist_node_container_plain))
        ≡ false
  known_container s _ as_plain = ground arith
  known_container s _ (as_packed v n) = ground arith

  node_of-some :
      (x : Stored) (k : ℕ)
      → 0 < length x.text
      → IsKind o c x.text k
      → node_of o c k x.text
        ≡ some
            (some (if k == c.quicklist_node_container_plain then plain x.text else packed x.text))
  unfolding node_of
  node_of-some x _ filled as_plain = ground arith
  node_of-some x _ filled (as_packed v n) = ground arith

module _ (f : Format) (h : IsFormat f) (o : Opcodes) (e : Host) (i : IsHost e) (c : Structures)
    (r : Source) where
  entry-Reads :
      (s : Bytes) (n : Node)
      → IsEntryOf e s n
      → Fits e s
      → Reads r
          (load_text f e r load_plain)
          (if n.compressed then blob_code f n.entry n.sz else string_code f e n.entry)
          s
  entry-Reads s _ (verbatim k n) fits = text-Reads f h r e i load_plain s fits
  entry-Reads s _ (squeezed k q short room back) fits =
      blob-Reads f h r e i load_plain s q fits short room back

  node-Reads :
      (x : Stored)
      → IsStored o e c x
      → Reads r (load_node f o e c r) (node_code f e x.node) (some (list_node c x))
  unfolding load_node
  node-Reads x stored =
      let k = x.node.container in
      let q =
        if x.node.compressed
        then blob_code f x.node.entry x.node.sz
        else string_code f e x.node.entry in
      let y : Option ListNode = some (list_node c x) in
      bind-Reads r (load_len f r) _ (len_code f k) q (false, k) y (size-Reads f h r k stored.small)
        (rw (known_container o c x.text k stored.kind) (
          bind_last-Reads r (load_text f e r load_plain) _ q x.text y
            (entry-Reads x.text x.node stored.entry_of stored.text_fits)
            (rw (node_of-some o c x k stored.filled stored.kind) (pure-Reads r y))))

  -- A list that was saved as a quicklist.
  pub quicklist-Reads :
      (xs : List Stored)
      → 0 < length xs
      → length xs < 2 ^ 63
      → All (IsStored o e c) xs
      → Reads r
          (load_quicklist f o e c r)
          (len_code f (length xs) ++ all_codes (node_code f e) (map stored_node xs))
          (loaded (map (list_node c) xs))
  unfolding load_quicklist
  quicklist-Reads [] some_node short stored = elim some_node [ ]
  quicklist-Reads (x ∷ xs) some_node short stored =
      let ys = x ∷ xs in
      let n = length ys in
      let back : Stored → Option ListNode = λ z. some (list_node c z) in
      let code : Stored → Bytes = λ z. node_code f e z.node in
      let nonzero : (n == 0) ≡ false = ==_ne (λ p. omega arith) in
      let whole : quicklist_of (kept (map back ys)) ≡ loaded (map (list_node c) ys) =
        rw (kept-some (list_node c) ys) (quicklist_of-some x xs) in
      bind-Reads r (load_len f r) _ (len_code f n) _ (false, n) _ (size-Reads f h r n short)
        (rw nonzero (
          bind_last-Reads r (load_times n (load_node f o e c r)) _ _ (map back ys) _
            (subst (λ p. Reads r (load_times n (load_node f o e c r)) p (map back ys))
              (all_codes-map stored_node (node_code f e) ys)
              (times-Reads r (load_node f o e c r) code back (IsStored o e c) node-Reads ys stored))
            (rw whole (pure-Reads r _))))
    where
      quicklist_of-some :
          (z : Stored) (zs : List Stored)
          → quicklist_of (map (list_node c) (z ∷ zs)) ≡ loaded (map (list_node c) (z ∷ zs))
      quicklist_of-some z zs = unfold quicklist_of in refl
