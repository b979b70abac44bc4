-- ===== src/Tally.antt =====
-- attrTally, tallyAttr, collectNodeAttrs and releaseTree of hash.go: references to attributes are
-- counted over many paths and released together. Consecutive references to one object are counted
-- in `last_n` before they go into the map.
pub mod Amounts
use routing_table.Prelude.{
  ℕ, zero, suc, ◌+◌, Bool, true, false, Option, none, some, List, [], ◌∷◌, ◌==◌, if◌then◌else◌,
}
use routing_table.Attrs.{Pointer, nil_pointer, PathEntry}
use routing_table.Node.{Node, all_paths}
use routing_table.Trie.{Trie, nil, node}
use routing_table.AttrTable.{AttrTable, release_n}

-- `map[*RouteAttributes]int`
abbrev pub Counts : Type 0
Counts = List (Pointer × ℕ)

-- `counts[p] += n`
unfoldable pub add_count : Pointer → ℕ → Counts → Counts
add_count p n [] = (p, n) ∷ []
add_count p n ((q, m) ∷ counts) =
    if q == p then (q, m + n) ∷ counts else (q, m) ∷ add_count p n counts

-- The map with the run that is not in it yet.
pub record Tally : Type 0 where
  pub counts : Counts
  pub last : Pointer
  pub last_n : ℕ

abbrev pub new_tally : Tally
new_tally = record { counts = []; last = nil_pointer; last_n = 0 }

-- `if last != nil { counts[last] += lastN }`
unfoldable pub settle_last : Tally → Counts
unfolding add_count
settle_last t = if t.last == nil_pointer then t.counts else add_count t.last t.last_n t.counts

-- tallyAttr; `attrTally.add` is the same on a map that it makes on first use.
unfoldable pub tally_attr : Pointer → Tally → Tally
unfolding settle_last
tally_attr p t =
    if p == nil_pointer
    then t
    else if t.last == p
    then record t { last_n = t.last_n + 1 }
    else record { counts = settle_last t; last = p; last_n = 1 }

unfoldable pub tally_all : List Pointer → Tally → Tally
tally_all [] t = t
tally_all (p ∷ ps) t = tally_all ps (tally_attr p t)

unfoldable pub tally_paths : List PathEntry → Tally → Tally
tally_paths [] t = t
tally_paths (e ∷ es) t = tally_paths es (tally_attr e.attrs t)

-- collectNodeAttrs
unfoldable pub collect_node_attrs : Trie → Tally → Tally
unfolding tally_paths
collect_node_attrs nil t = t
collect_node_attrs (node n l r) t =
    collect_node_attrs r (collect_node_attrs l (tally_paths (all_paths n) t))

unfoldable pub collect_roots : List Trie → Tally → Tally
collect_roots [] t = t
collect_roots (x ∷ xs) t = collect_roots xs (collect_node_attrs x t)

-- The order in which Go's `range` goes through a map, which the language leaves open.
abbrev pub MapOrder : Type 0
MapOrder = Counts → Counts

-- releaseTree
unfoldable pub release_tree : MapOrder → AttrTable → List Trie → AttrTable
unfolding settle_last collect_roots
release_tree order at roots = release_n at (order (settle_last (collect_roots roots new_tally)))

-- `attrTally.release`
unfoldable pub release_tally : MapOrder → AttrTable → Tally → AttrTable
unfolding settle_last
release_tally order at t = release_n at (order (settle_last t))
