-- ===== src/Rib/Reading.antt =====
-- Lookup and AllPaths of ipv4.go and ipv6.go, on the abstract view of a RIB.
use routing_table.Prelude.{
  ℕ, ◌+◌, ◌-◌, ◌≤◌, ◌<◌, ◌≡◌, refl, sym, ◌∙◌, Bool, Option, none, some, List, [], map, length, take,
  ◌==◌, Bool-cases, Option-cases, inl, inr, arith,
}
use routing_table.Attrs.{Store, IpPrefix}
use routing_table.Attrs.Prefix.{masked}
use routing_table.Node.{Node, empty_node, all_paths}
use routing_table.Select.{node_to_routes, route_of}
use routing_table.Trie.{Trie, nil, node}
use routing_table.Trie.Reads.{node_at}
use routing_table.Trie.Delete.{subtrie, node_at-subtrie}
use routing_table.Trie.Search.{top, exact_walk-top}
use routing_table.Rib.{Rib, entry, exact_below, all_paths_entry}
use routing_table.Rib.View.{view}

-- The node that a walk returns, or one without paths.
abbrev node_or : Option Node → Node
node_or none = empty_node
node_or (some n) = n

node_or-top : (t : Trie) → node_or (top t) ≡ node_at [] t
unfolding node_at
node_or-top nil = refl
node_or-top (node n l r) = refl

exact_below-node_at :
    (bits : List Bool) (mask : ℕ) (t : Trie)
    → 8 ≤ mask
    → mask < 9 + length bits
    → node_or (exact_below bits mask t) ≡ node_at (take (mask - 8) bits) t
unfolding node_at
exact_below-node_at bits mask nil low high = refl
exact_below-node_at bits mask (node n l r) low high = elim (Bool-cases (mask == 8)) [
  | inl e ↦ let z : mask - 8 ≡ 0 = ground arith in rw (e, z)
  | inr e ↦
      let z : mask - 8 ≡ mask + 1 - 9 = ground arith in
      rw (e, z, exact_walk-top bits 9 mask (node n l r) (ground arith) high)
        (node_or-top (subtrie (take (mask + 1 - 9) bits) (node n l r))
          ∙ sym (node_at-subtrie (take (mask + 1 - 9) bits) (node n l r)))
]

node_to_routes-map :
    (store : Store) (n : Node) (prefix : IpPrefix)
    → node_to_routes store n prefix ≡ map (route_of store (masked prefix)) (all_paths n)
unfolding node_to_routes all_paths
node_to_routes-map store n prefix = elim (Bool-cases n.has_path) [ inl e ↦ rw e | inr e ↦ rw e ]

all_paths_entry-node_or :
    (store : Store) (bits : List Bool) (mask : ℕ) (prefix : IpPrefix) (t : Trie)
    → all_paths_entry store bits mask prefix t
      ≡ map (route_of store (masked prefix)) (all_paths (node_or (exact_below bits mask t)))
unfolding all_paths_entry all_paths
all_paths_entry-node_or store bits mask prefix t = elim (Option-cases (exact_below bits mask t)) [
  | inl e ↦ rw (e, all_paths_entry)
  | inr (n, e) ↦ rw (e, all_paths_entry) (node_to_routes-map store n prefix)
]

-- At a mask of 8 or more within the bits of the walk, AllPaths from the entry on returns a route for
-- each path of the view at the first mask - 8 bits, in order.
pub all_paths_entry-view :
    (store : Store) (bits : List Bool) (mask : ℕ) (prefix : IpPrefix) (r : Rib) (i : ℕ)
    → 8 ≤ mask
    → mask < 9 + length bits
    → all_paths_entry store bits mask prefix (entry r i)
      ≡ map (route_of store (masked prefix)) (view r i (take (mask - 8) bits))
unfolding view
all_paths_entry-view store bits mask prefix r i low high =
    all_paths_entry-node_or store bits mask prefix (entry r i)
    ∙ rw (exact_below-node_at bits mask (entry r i) low high)
