-- ===== src/Trie.antt =====
-- The binary trie of ipv4.go and ipv6.go below one entry of the root array, and deleteNode of
-- node.go. Both files walk it in the same way; they differ in the octets that give the bits.
--
-- A `*node` is nil, or a node with two children. The parent pointers are the list of steps that a
-- walk down leaves behind it (`Crumb`): the list is empty exactly at an entry of the root array,
-- whose parent is nil.
pub mod Reads
pub mod Insert
pub mod Delete
pub mod Prune
pub mod Removal
pub mod Sound
pub mod Compact
pub mod Totals
pub mod Search
use routing_table.Prelude.{
  ℕ, zero, suc, ◌+◌, Bool, true, false, not, ◌&&◌, Option, none, some, List, [], ◌∷◌, ◌==◌,
  if◌then◌else◌,
}
use routing_table.Attrs.{Pointer, nil_pointer, Store}
use routing_table.Node.{Node, empty_node, set_path, delete_path, best_path_with_id}

-- `*node`, with `children[0]` and `children[1]`
pub data Trie : Type 0 where
  nil : Trie
  node : Node → Trie → Trie → Trie

-- `n.children[bit]`
abbrev pub child : Bool → Trie → Trie
child bit nil = nil
child false (node n l r) = l
child true (node n l r) = r

-- `n.children[bit] = c`
abbrev pub set_child : Bool → Trie → Trie → Trie
set_child bit c nil = nil
set_child false c (node n l r) = node n c r
set_child true c (node n l r) = node n l c

-- `if p == nil { p = &node{...}; r.nodeCount++ }`: the node and the number of nodes created.
abbrev pub make : Trie → Trie × ℕ
make nil = (node empty_node nil nil, 1)
make (node n l r) = (node n l r, 0)

-- What a walk of insertUnlocked has done: the trie, the nodes created, whether the prefix had no
-- path before, and what setPath returned. `reached` is false if the bits end above the mask.
pub record Inserted : Type 0 where
  pub trie : Trie
  pub created : ℕ
  pub is_new : Bool
  pub old : Option Pointer
  pub reached : Bool

-- The node of the prefix: `isNew` and `setPath(route.PathID, dedupAttr, false)`.
unfoldable pub put_here : ℕ → Pointer → Trie → Inserted
put_here path_id attrs nil = record {
  trie = nil;
  created = 0;
  is_new = false;
  old = none;
  reached = false;
}
put_here path_id attrs (node n l r) =
    let result = set_path n path_id attrs false in
    record {
      trie = node result.0 l r;
      created = 0;
      is_new = not n.has_path;
      old = result.1;
      reached = true;
    }

-- The loop over the bits, with `bitCount`.
unfoldable pub insert_walk : List Bool → ℕ → ℕ → ℕ → Pointer → Trie → Inserted
unfolding put_here
insert_walk [] bit_count mask path_id attrs current = record {
  trie = current;
  created = 0;
  is_new = false;
  old = none;
  reached = false;
}
insert_walk (bit ∷ bits) bit_count mask path_id attrs current =
    let (next, made) = make (child bit current) in
    let here = put_here path_id attrs next in
    let rest = insert_walk bits (bit_count + 1) mask path_id attrs next in
    let r = if bit_count == mask then here else rest in
    record r { trie = set_child bit r.trie current; created = made + r.created }

-- A step down: the node that was left, the bit that was taken, and the other child.
pub record Crumb : Type 0 where
  pub above : Node
  pub bit : Bool
  pub other : Trie

-- The parent of a crumb, with a trie where the walk went on.
abbrev pub plug : Crumb → Trie → Trie
plug c t = if c.bit then node c.above c.other t else node c.above t c.other

-- Back up to the entry of the root array.
unfoldable pub plug_all : List Crumb → Trie → Trie
plug_all [] t = t
plug_all (c ∷ crumbs) t = plug_all crumbs (plug c t)

-- The step down from a node by a bit. (A walk is never at nil.)
abbrev pub crumb_of : Bool → Trie → Crumb
crumb_of bit nil = record { above = empty_node; bit = bit; other = nil }
crumb_of bit (node n l r) = record { above = n; bit = bit; other = child (not bit) (node n l r) }

-- The walk of deleteUnlocked: the node at the mask, with the way back, unless a child is nil.
unfoldable pub locate : List Bool → ℕ → ℕ → Trie → List Crumb → Option (Trie × List Crumb)
locate [] bit_count mask current crumbs = none
locate (bit ∷ bits) bit_count mask current crumbs =
    let above : List Crumb = crumb_of bit current ∷ crumbs in
    elim (child bit current) [
      | nil ↦ none
      | node n l r ↦
          let rest = locate bits (bit_count + 1) mask (node n l r) above in
          if bit_count == mask then some (node n l r, above) else rest
    ]

-- `node.children[0] == nil && node.children[1] == nil && !node.hasPath()`
abbrev pub is_empty_leaf : Trie → Bool
is_empty_leaf nil = false
is_empty_leaf (node n nil nil) = not n.has_path
is_empty_leaf (node n nil (node _ _ _)) = false
is_empty_leaf (node n (node _ _ _) r) = false

-- deleteNode: the number of nodes cut off, and the whole trie from the root entry.
unfoldable pub delete_node : List Crumb → Trie → ℕ × Trie
unfolding plug_all
delete_node [] t = (0, t)
delete_node (c ∷ crumbs) t =
    let up = delete_node crumbs (plug c nil) in
    if is_empty_leaf t then (1 + up.0, up.1) else (0, plug_all (c ∷ crumbs) t)

-- What deleteUnlocked has done below the root entry: `old` is what deletePath returned, `removed`
-- whether the last path of the prefix is gone, `pruned` the nodes that deleteNode cut off.
pub record Deleted : Type 0 where
  pub trie : Trie
  pub pruned : ℕ
  pub old : Option Pointer
  pub removed : Bool

unfoldable pub delete_here : ℕ → Trie → Trie × List Crumb → Deleted
unfolding plug_all delete_node
delete_here path_id whole (nil, crumbs) = record {
  trie = whole;
  pruned = 0;
  old = none;
  removed = false;
}
delete_here path_id whole (node n l r, crumbs) =
    let result = delete_path n path_id in
    let left = node result.0 l r in
    let pruned = delete_node crumbs left in
    elim result.1 [
      | none ↦ record { trie = whole; pruned = 0; old = none; removed = false }
      | some a ↦
          if not (result.0).has_path
          then record { trie = pruned.1; pruned = pruned.0; old = some a; removed = true }
          else record { trie = plug_all crumbs left; pruned = 0; old = some a; removed = false }
    ]

-- A walk that meets a nil child ends the call with nothing done.
delete_found : ℕ → Trie → Option (Trie × List Crumb) → Deleted
unfolding delete_here
delete_found path_id whole none = record { trie = whole; pruned = 0; old = none; removed = false }
delete_found path_id whole (some place) = delete_here path_id whole place

unfoldable pub delete_walk : List Bool → ℕ → ℕ → ℕ → Trie → Deleted
unfolding locate delete_found
delete_walk bits bit_count mask path_id root =
    delete_found path_id root (locate bits bit_count mask root [])

-- The longest match so far: `lpmAttr`, `lpmPathID`, `lpmNode`, `lpmLen`.
pub record Match : Type 0 where
  pub attrs : Pointer
  pub path_id : ℕ
  pub found : Node
  pub len : ℕ

abbrev pub no_match : Match
no_match = record { attrs = nil_pointer; path_id = 0; found = empty_node; len = 0 }

-- `if attr, pathID := n.bestPathWithID(); attr != nil { ... }`
unfoldable pub improve : Store → Node → ℕ → Match → Match
improve store n len m =
    let best = best_path_with_id store n in
    if best.0 == nil_pointer
    then m
    else record { attrs = best.0; path_id = best.1; found = n; len = len }

-- The loop of Search: it stops at the first nil child.
unfoldable pub search_walk : Store → List Bool → ℕ → Trie → Match → Match
unfolding improve
search_walk store [] bit_count current m = m
search_walk store (bit ∷ bits) bit_count current m = elim (child bit current) [
  | nil ↦ m
  | node n l r ↦ search_walk store bits (bit_count + 1) (node n l r) (improve store n bit_count m)
]

-- The loop of AllPathsSearch, which tests hasPath.
unfoldable pub deepest_walk : List Bool → ℕ → Trie → Option (Node × ℕ) → Option (Node × ℕ)
deepest_walk [] bit_count current m = m
deepest_walk (bit ∷ bits) bit_count current m = elim (child bit current) [
  | nil ↦ m
  | node n l r ↦
      deepest_walk bits (bit_count + 1) (node n l r) (if n.has_path then some (n, bit_count) else m)
]

-- The walk of Lookup and AllPaths to the exact depth: the node, unless a child is nil.
unfoldable pub exact_walk : List Bool → ℕ → ℕ → Trie → Option Node
exact_walk [] bit_count mask current = none
exact_walk (bit ∷ bits) bit_count mask current = elim (child bit current) [
  | nil ↦ none
  | node n l r ↦
      let rest = exact_walk bits (bit_count + 1) mask (node n l r) in
      if bit_count == mask then some n else rest
]
