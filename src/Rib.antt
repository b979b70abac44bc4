-- ===== src/Rib.antt =====
-- The parts of ipv4.go and ipv6.go that do not depend on the address family: the state of a RIB,
-- and each operation from the entry of the root array on. `Ipv4` and `Ipv6` add the guards, the
-- index of the entry and the bits of the address.
--
-- Each operation holds the lock, so it is one step from state to state. The int counters are the
-- 64-bit patterns of Go's ints.
pub mod State
pub mod Fields
pub mod Valid
pub mod Inserting
pub mod Lowering
pub mod Deleting
pub mod Walks
pub mod LongestMatch
pub mod View
pub mod Reading
pub mod Sized
pub mod Rules
pub mod Holding
pub mod Marking
pub mod Kept
pub mod Measured
pub mod Announced
pub mod Restart
use routing_table.Prelude.{
  ℕ, zero, suc, ◌+◌, Bool, true, false, not, Option, none, some, List, [], ◌∷◌, ◌++◌, map, get_or,
  set, replicate, ◌==◌, if◌then◌else◌,
}
use routing_table.Prelude.Word.{add64, sub64}
use routing_table.Attrs.{
  RouteAttributes, Pointer, nil_pointer, Store, deref, IpAddr, IpPrefix, Route,
}
use routing_table.Attrs.Prefix.{masked, prefix_from}
use routing_table.Node.{Node, best_path_with_id, is_path_stale, mark_paths_stale}
use routing_table.Select.{node_to_routes}
use routing_table.Trie.{
  Trie, nil, node, make, Inserted, put_here, insert_walk, Deleted, delete_here, delete_walk,
  is_empty_leaf, Match, no_match, improve, search_walk, deepest_walk, exact_walk,
}
use routing_table.AttrTable.{AttrTable, get_or_insert, release}

-- `IPv4Rib` and `IPv6Rib`; `masks` is the map of counters, 0 where a key is missing.
pub record Rib : Type 0 where
  pub root : List Trie
  pub table : AttrTable
  pub count : ℕ
  pub path_count : ℕ
  pub node_count : ℕ
  pub masks : ℕ → ℕ

-- `NewIPv4Rib` and `NewIPv6Rib`, with the number of entries of the root array
unfoldable pub new_rib : ℕ → AttrTable → Rib
new_rib entries table = record {
  root = replicate entries nil;
  table = table;
  count = 0;
  path_count = 0;
  node_count = 0;
  masks = λ m. 0;
}

-- `r.root[i]`
abbrev pub entry : Rib → ℕ → Trie
entry r i = get_or r.root i nil

-- A write to one counter of the map.
abbrev pub set_mask : (ℕ → ℕ) → ℕ → ℕ → ℕ → ℕ
set_mask masks m v k = if k == m then v else masks k

-- The insertion below the entry: on it for a /8, by the walk from bit 9 otherwise.
abbrev pub insert_below : List Bool → ℕ → ℕ → Pointer → Trie → Inserted
insert_below bits mask path_id attrs root =
    if mask == 8 then put_here path_id attrs root else insert_walk bits 9 mask path_id attrs root

-- `if replaced { release(oldAttrs) } else { pathCount++ }`
settle : Rib → Option Pointer → Rib
settle r none = record r { path_count = add64 r.path_count 1 }
settle r (some a) = record r { table = release r.table a }

-- insertUnlocked after its guards: getOrInsert, the entry, the walk, the counters.
unfoldable pub insert_entry : Rib → ℕ → List Bool → ℕ → ℕ → Option RouteAttributes → Rib × Bool
unfolding settle
insert_entry r i bits mask path_id given =
    let (table, attrs) = get_or_insert r.table given in
    let (root, made) = make (entry r i) in
    let done = insert_below bits mask path_id attrs root in
    let walked : Rib = record r {
      root = set r.root i done.trie;
      table = table;
      node_count = add64 r.node_count (made + done.created);
    } in
    let counted : Rib =
      if done.is_new
      then record walked {
        count = add64 walked.count 1;
        masks = set_mask walked.masks mask (add64 (walked.masks mask) 1);
      }
      else walked in
    if done.reached then (settle counted done.old, done.is_new) else (walked, false)

-- The deletion below the entry: on it for a /8, by the walk from bit 9 otherwise.
abbrev pub delete_below : List Bool → ℕ → ℕ → Trie → Deleted
delete_below bits mask path_id root =
    if mask == 8 then delete_here path_id root (root, []) else delete_walk bits 9 mask path_id root

-- The counters of a prefix that is gone, and the entry freed if it has no path and no children.
drop_prefix : Rib → ℕ → ℕ → Deleted → Rib
drop_prefix r i mask done =
    let pruned = sub64 r.node_count done.pruned in
    let r' : Rib = record r {
      count = sub64 r.count 1;
      masks = set_mask r.masks mask (sub64 (r.masks mask) 1);
    } in
    if is_empty_leaf done.trie
    then record r' { root = set r.root i nil; node_count = sub64 pruned 1 }
    else record r' { root = set r.root i done.trie; node_count = pruned }

-- deleteUnlocked after its guards.
unfoldable pub delete_entry : Rib → ℕ → List Bool → ℕ → ℕ → Rib × Bool
unfolding drop_prefix
delete_entry r i bits mask path_id =
    let done = delete_below bits mask path_id (entry r i) in
    elim done.old [
      | none ↦ (r, false)
      | some a ↦
          let released : Rib = record r {
            table = release r.table a;
            path_count = sub64 r.path_count 1;
          } in
          if done.removed
          then (drop_prefix released i mask done, true)
          else (record released { root = set r.root i done.trie }, false)
    ]

-- The loop of InsertBatch and DeleteBatch over a handler that says whether to report an item.
unfoldable pub batch {ℓ} :
    {A : Type ℓ} → (Rib → A → Rib × Bool) → (A → IpPrefix) → Rib → List A → Rib × List IpPrefix
batch step prefix r [] = (r, [])
batch step prefix r (x ∷ xs) =
    let (r1, report) = step r x in
    let (r2, rest) = batch step prefix r1 xs in (r2, if report then prefix x ∷ rest else rest)

-- Search from the entry on.
unfoldable pub search_entry : Store → List Bool → IpAddr → Trie → Option Route
search_entry store bits ip nil = none
search_entry store bits ip (node n l r) =
    let m = search_walk store bits 9 (node n l r) (improve store n 8 no_match) in
    if m.attrs == nil_pointer
    then none
    else some (record {
      prefix = masked (prefix_from ip m.len);
      attributes = deref store m.attrs;
      path_id = m.path_id;
      stale = is_path_stale m.found m.path_id;
    })

-- AllPathsSearch from the entry on; an empty list is Go's nil.
unfoldable pub all_paths_search_entry : Store → List Bool → IpAddr → Trie → List Route
all_paths_search_entry store bits ip nil = []
all_paths_search_entry store bits ip (node n l r) =
    elim (deepest_walk bits 9 (node n l r) (if n.has_path then some (n, 8) else none)) [
      | none ↦ []
      | some (m, len) ↦ node_to_routes store m (prefix_from ip len)
    ]

-- The walk of Lookup and AllPaths: the node of the prefix.
abbrev pub exact_below : List Bool → ℕ → Trie → Option Node
exact_below bits mask nil = none
exact_below bits mask (node n l r) =
    if mask == 8 then some n else exact_walk bits 9 mask (node n l r)

-- `if attr, pathID := n.bestPathWithID(); attr != nil { return &Route{...} }`
unfoldable pub best_route : Store → IpPrefix → Node → Option Route
best_route store prefix n =
    let best = best_path_with_id store n in
    if best.0 == nil_pointer
    then none
    else some (record {
      prefix = masked prefix;
      attributes = deref store best.0;
      path_id = best.1;
      stale = is_path_stale n best.1;
    })

unfoldable pub lookup_entry : Store → List Bool → ℕ → IpPrefix → Trie → Option Route
unfolding best_route
lookup_entry store bits mask prefix t = elim (exact_below bits mask t) [
  | none ↦ none
  | some n ↦ best_route store prefix n
]

unfoldable pub all_paths_entry : Store → List Bool → ℕ → IpPrefix → Trie → List Route
all_paths_entry store bits mask prefix t = elim (exact_below bits mask t) [
  | none ↦ []
  | some n ↦ node_to_routes store n prefix
]

-- markNodeStale
unfoldable pub mark_node_stale : Trie → Trie
mark_node_stale nil = nil
mark_node_stale (node n l r) = node (mark_paths_stale n) (mark_node_stale l) (mark_node_stale r)

-- MarkAllStale
unfoldable pub mark_all_stale : Rib → Rib
unfolding mark_node_stale
mark_all_stale r = if r.path_count == 0 then r else record r { root = map mark_node_stale r.root }
