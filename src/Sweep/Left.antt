-- ===== src/Sweep/Left.antt =====
-- What deleteStaleFromNode leaves of a trie: the lists of paths, the invariants and the nodes.
use routing_table.Prelude.{
  ℕ, ◌+◌, ◌≡◌, refl, sym, ◌∙◌, Bool, true, false, List, [], ◌∷◌, arith, Bool-cases, inl, inr,
}
use routing_table.Node.{all_paths}
use routing_table.Node.Remove.{live}
use routing_table.Node.Laws.{delete_stale_paths-live}
use routing_table.Trie.{Trie, nil, node, is_empty_leaf}
use routing_table.Trie.Reads.{node_at, paths_at}
use routing_table.Trie.Sound.{AllValid}
use routing_table.Trie.Compact.{IsCompact, IsBelow, IsBelow-IsCompact}
use routing_table.Trie.Prune.{empty_leaf-SameReads, empty_leaf-size}
use routing_table.Trie.Totals.{size}
use routing_table.Family.{next_addr}
use routing_table.Sweep.{Swept, kept, cut_nodes, delete_stale_from_node}
use routing_table.Sweep.Walk.{cut-leaf}

-- A walk that cuts the root off exactly if it is an empty leaf.
module _ (s : Swept) (cuts : s.cut ≡ is_empty_leaf s.trie) where
  pub kept-paths_at : (q : List Bool) → paths_at q (kept s) ≡ paths_at q s.trie
  kept-paths_at q = elim (Bool-cases s.cut) [
    | inl e ↦ rw e (sym (empty_leaf-SameReads s.trie (sym cuts ∙ e) q))
    | inr e ↦ rw e
  ]

  pub kept-AllValid : AllValid s.trie → AllValid (kept s)
  kept-AllValid v = elim (Bool-cases s.cut) [ inl e ↦ rw e tt | inr e ↦ rw e v ]

  pub kept-IsCompact : IsBelow s.trie → IsCompact (kept s)
  kept-IsCompact v = elim (Bool-cases s.cut) [
    | inl e ↦ rw e tt
    | inr e ↦ rw e (IsBelow-IsCompact s.trie (sym cuts ∙ e) v)
  ]

  pub kept-size : size (kept s) + cut_nodes s ≡ size s.trie + s.pruned
  unfolding size
  kept-size = elim (Bool-cases s.cut) [
    | inl e ↦ rw (e, size) (omega (arith, empty_leaf-size s.trie (sym cuts ∙ e)))
    | inr e ↦ rw e
  ]

-- The lists of paths are those of the live paths; validity and compactness are kept.
pub swept-paths_at :
    (addr : List ℕ) (depth : ℕ) (t : Trie)
    → AllValid t
    → IsCompact t
    → (q : List Bool) → paths_at q (delete_stale_from_node addr depth t).trie ≡ live (paths_at q t)
unfolding delete_stale_from_node node_at all_paths live
swept-paths_at addr depth nil v c q = refl
swept-paths_at addr depth (node n l r) v c [] = (delete_stale_paths-live n v.0).1
swept-paths_at addr depth (node n l r) v c (false ∷ q) =
    let a = next_addr addr depth false in
    kept-paths_at (delete_stale_from_node a (depth + 1) l) (cut-leaf a (depth + 1) l v.1 c.1) q
    ∙ swept-paths_at a (depth + 1) l v.1 c.1 q
swept-paths_at addr depth (node n l r) v c (true ∷ q) =
    let a = next_addr addr depth true in
    kept-paths_at (delete_stale_from_node a (depth + 1) r) (cut-leaf a (depth + 1) r v.2 c.2) q
    ∙ swept-paths_at a (depth + 1) r v.2 c.2 q

pub swept-AllValid :
    (addr : List ℕ) (depth : ℕ) (t : Trie)
    → AllValid t
    → IsCompact t
    → AllValid (delete_stale_from_node addr depth t).trie
unfolding delete_stale_from_node
swept-AllValid addr depth nil v c = tt
swept-AllValid addr depth (node n l r) v c =
    let a = next_addr addr depth false in
    let b = next_addr addr depth true in
    (
      (delete_stale_paths-live n v.0).0,
      kept-AllValid (delete_stale_from_node a (depth + 1) l) (cut-leaf a (depth + 1) l v.1 c.1)
          (swept-AllValid a (depth + 1) l v.1 c.1),
      kept-AllValid (delete_stale_from_node b (depth + 1) r) (cut-leaf b (depth + 1) r v.2 c.2)
          (swept-AllValid b (depth + 1) r v.2 c.2),
    )

pub swept-IsBelow :
    (addr : List ℕ) (depth : ℕ) (t : Trie)
    → AllValid t
    → IsCompact t
    → IsBelow (delete_stale_from_node addr depth t).trie
unfolding delete_stale_from_node
swept-IsBelow addr depth nil v c = tt
swept-IsBelow addr depth (node n l r) v c =
    let a = next_addr addr depth false in
    let b = next_addr addr depth true in
    (
      kept-IsCompact (delete_stale_from_node a (depth + 1) l) (cut-leaf a (depth + 1) l v.1 c.1)
          (swept-IsBelow a (depth + 1) l v.1 c.1),
      kept-IsCompact (delete_stale_from_node b (depth + 1) r) (cut-leaf b (depth + 1) r v.2 c.2)
          (swept-IsBelow b (depth + 1) r v.2 c.2),
    )

-- The nodes that are counted are those that are gone.
pub swept-size :
    (addr : List ℕ) (depth : ℕ) (t : Trie)
    → AllValid t
    → IsCompact t
    → let s = delete_stale_from_node addr depth t in size s.trie + s.pruned ≡ size t
unfolding delete_stale_from_node size
swept-size addr depth nil v c = refl
swept-size addr depth (node n l r) v c =
    let a = next_addr addr depth false in
    let b = next_addr addr depth true in
    omega (
      arith,
      kept-size (delete_stale_from_node a (depth + 1) l) (cut-leaf a (depth + 1) l v.1 c.1),
      kept-size (delete_stale_from_node b (depth + 1) r) (cut-leaf b (depth + 1) r v.2 c.2),
      swept-size a (depth + 1) l v.1 c.1,
      swept-size b (depth + 1) r v.2 c.2,
    )
