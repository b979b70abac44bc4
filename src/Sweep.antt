-- ===== src/Sweep.antt =====
-- DeleteStaleRoutes and deleteStaleFromNode of ipv4.go and ipv6.go.
--
-- deleteNode is called from below: `cut` says that a call of it has gone through a node, which is so
-- if the node was an empty leaf when one of its children was cut off or its own paths were deleted.
-- A node that is cut has no path and no children, so that nothing else happens in it. The entry of
-- the root array has no parent, and is freed by the caller.
pub mod Walk
pub mod Left
pub mod Sums
pub mod Roots
pub mod Whole
pub mod References
pub mod Removed
use routing_table.Prelude.{
  ℕ, zero, suc, ◌+◌, Bool, true, false, not, ◌&&◌, ◌||◌, Option, none, some, List, [], ◌∷◌, ◌++◌,
  map, length, ◌==◌, if◌then◌else◌,
}
use routing_table.Prelude.Word.{sub64}
use routing_table.Attrs.{Pointer, IpPrefix}
use routing_table.Attrs.Prefix.{prefix_from}
use routing_table.Node.{Node, delete_stale_paths}
use routing_table.Trie.{Trie, nil, node, is_empty_leaf}
use routing_table.Family.{Family, next_addr}
use routing_table.Tally.{MapOrder, new_tally, tally_all, release_tally}
use routing_table.Rib.{Rib}

-- What the walk of a subtrie has done: the trie that is left, unless it is cut off; the number of
-- nodes cut off below it; the address and the depth of the prefixes removed; the pointers tallied,
-- for each of which `pathCount--` is done.
pub record Swept : Type 0 where
  pub trie : Trie
  pub cut : Bool
  pub pruned : ℕ
  pub removed : List (List ℕ × ℕ)
  pub tally : List Pointer

-- The child as its parent has it afterwards, and the number of nodes cut off.
abbrev pub kept : Swept → Trie
kept s = if s.cut then nil else s.trie

abbrev pub cut_nodes : Swept → ℕ
cut_nodes s = if s.cut then s.pruned + 1 else s.pruned

abbrev pub is_nil {ℓ} : {A : Type ℓ} → List A → Bool
is_nil [] = true
is_nil (x ∷ xs) = false

-- deleteStaleFromNode, on a node that is not nil: the children first, then its own stale paths.
unfoldable pub delete_stale_from_node : List ℕ → ℕ → Trie → Swept
delete_stale_from_node addr depth nil = record {
  trie = nil;
  cut = false;
  pruned = 0;
  removed = [];
  tally = [];
}
delete_stale_from_node addr depth (node n l r) =
    let a = delete_stale_from_node (next_addr addr depth false) (depth + 1) l in
    let b = delete_stale_from_node (next_addr addr depth true) (depth + 1) r in
    let done = delete_stale_paths n in
    let gone = not (is_nil done.1) && not (done.0).has_path in
    record {
      trie = node done.0 (kept a) (kept b);
      cut =
          a.cut && is_empty_leaf (node n (kept a) r)
          || (b.cut && is_empty_leaf (node n (kept a) (kept b))
              || gone && is_empty_leaf (node done.0 (kept a) (kept b)));
      pruned = cut_nodes a + cut_nodes b;
      removed = a.removed ++ (b.removed ++ (if gone then (addr, depth) ∷ [] else []));
      tally = a.tally ++ (b.tally ++ done.1);
    }

-- The loop over the root array.
pub record SweptRoots : Type 0 where
  pub roots : List Trie
  pub nodes : ℕ
  pub removed : List (List ℕ × ℕ)
  pub tally : List Pointer

unfoldable pub sweep_roots : Family → ℕ → List Trie → SweptRoots
unfolding delete_stale_from_node
sweep_roots fam i [] = record { roots = []; nodes = 0; removed = []; tally = [] }
sweep_roots fam i (t ∷ ts) =
    let s = delete_stale_from_node (fam.first i) 8 t in
    let rest = sweep_roots fam (i + 1) ts in
    let freed = is_empty_leaf s.trie in
    record {
      roots = (if freed then nil else s.trie) ∷ rest.roots;
      nodes = (if freed then s.pruned + 1 else s.pruned) + rest.nodes;
      removed = s.removed ++ rest.removed;
      tally = s.tally ++ rest.tally;
    }

abbrev pub at_depth : ℕ → List (List ℕ × ℕ) → ℕ
at_depth m [] = 0
at_depth m ((addr, d) ∷ rest) = (if d == m then 1 else 0) + at_depth m rest

-- DeleteStaleRoutes. Each counter is decremented once for each thing that is gone; the tally is
-- released when the RIB's lock has been dropped.
unfoldable pub delete_stale_routes : MapOrder → Family → Rib → Rib × List IpPrefix
unfolding sweep_roots
delete_stale_routes order fam r =
    let s = sweep_roots fam 0 r.root in
    (
      record {
        root = s.roots;
        table = release_tally order r.table (tally_all s.tally new_tally);
        count = sub64 r.count (length s.removed);
        path_count = sub64 r.path_count (length s.tally);
        node_count = sub64 r.node_count s.nodes;
        masks = λ m. sub64 (r.masks m) (at_depth m s.removed);
      },
      map (λ (p : List ℕ × ℕ). prefix_from (fam.address p.0) p.1) s.removed,
    )
