-- ===== src/Sweep/Walk.antt =====
-- The removal of stale paths on one node and in the walk of deleteStaleFromNode: what is cut off.
use routing_table.Prelude.{
  ℕ, ◌+◌, ◌≡◌, refl, sym, ◌∙◌, Bool, true, false, not, ◌&&◌, ◌||◌, List, [], ◌∷◌, arith,
}
use routing_table.Attrs.{PathEntry}
use routing_table.Node.{Node, all_paths, delete_stale_paths}
use routing_table.Node.Paths as Paths
use routing_table.Node.Remove.{live, stale_attrs}
use routing_table.Node.Laws.{delete_stale_paths-live}
use routing_table.Trie.{Trie, nil, node, is_empty_leaf}
use routing_table.Trie.Sound.{AllValid}
use routing_table.Trie.Compact.{IsCompact}
use routing_table.Family.{next_addr}
use routing_table.Sweep.{Swept, kept, is_nil, delete_stale_from_node}

-- Whether the last path of a node goes.
abbrev pub loses_all : Node → Bool
loses_all n = not (is_nil (delete_stale_paths n).1) && not (delete_stale_paths n).0.has_path

paths_empty : (n : Node) → is_nil (all_paths n) ≡ not n.has_path
unfolding all_paths
paths_empty n = ground arith

live_empty : (es : List PathEntry) → is_nil es ≡ (is_nil (live es) && is_nil (stale_attrs es))
unfolding live stale_attrs
live_empty [] = refl
live_empty (e ∷ es) = ground (arith, live_empty es)

pub has_path-split :
    (n : Node)
    → Paths.IsValid n
    → not n.has_path ≡ (not (delete_stale_paths n).0.has_path && is_nil (delete_stale_paths n).1)
has_path-split n valid =
    let (v, kept, tally) = delete_stale_paths-live n valid in
    sym (paths_empty n)
    ∙ live_empty (all_paths n)
    ∙ rw (← kept, ← tally, paths_empty (delete_stale_paths n).0)

abbrev absent : Trie → Bool
absent nil = true
absent (node _ _ _) = false

leaf_parts :
    (n : Node) (l r : Trie) → is_empty_leaf (node n l r) ≡ (absent l && absent r && not n.has_path)
leaf_parts n nil nil = refl
leaf_parts n nil (node _ _ _) = refl
leaf_parts n (node _ _ _) r = refl

absent-kept :
    (addr : List ℕ) (depth : ℕ) (t : Trie)
    → let s = delete_stale_from_node addr depth t in
      (absent (kept s) ≡ (absent t || s.cut)) × ((absent t && s.cut) ≡ false)
unfolding delete_stale_from_node
absent-kept addr depth nil = (refl, refl)
absent-kept addr depth (node n l r) = (ground arith, refl)

-- The tests of deleteNode on the way, put together.
cut_tests :
    (al ac ar bc p q e : Bool)
    → (al && ac) ≡ false
    → (ar && bc) ≡ false
    → not p ≡ (not q && e)
    → (al && ar && not p) ≡ false
    → (ac && ((al || ac) && ar && not p)
        || (bc && ((al || ac) && (ar || bc) && not p)
            || (not e && not q) && ((al || ac) && (ar || bc) && not q)))
      ≡ ((al || ac) && (ar || bc) && not q)
cut_tests al ac ar bc p q e h1 h2 h3 h4 = ground arith

cut_here :
    (n m : Node) (e : Bool) (l r : Trie) (a b : Swept)
    → (absent (kept a) ≡ (absent l || a.cut)) × ((absent l && a.cut) ≡ false)
    → (absent (kept b) ≡ (absent r || b.cut)) × ((absent r && b.cut) ≡ false)
    → not n.has_path ≡ (not m.has_path && e)
    → is_empty_leaf (node n l r) ≡ false
    → (a.cut && is_empty_leaf (node n (kept a) r)
        || (b.cut && is_empty_leaf (node n (kept a) (kept b))
            || (not e && not m.has_path) && is_empty_leaf (node m (kept a) (kept b))))
      ≡ is_empty_leaf (node m (kept a) (kept b))
cut_here n m e l r a b ha hb split full =
    rw
      (
        leaf_parts n (kept a) r,
        leaf_parts n (kept a) (kept b),
        leaf_parts m (kept a) (kept b),
        ha.0,
        hb.0,
      )
      (cut_tests (absent l) a.cut (absent r) b.cut n.has_path m.has_path e ha.1 hb.1 split
        (sym (leaf_parts n l r) ∙ full))

-- In a trie without empty leaves, a node is cut off exactly if it is an empty leaf in the end.
pub cut-leaf :
    (addr : List ℕ) (depth : ℕ) (t : Trie)
    → AllValid t
    → IsCompact t
    → let s = delete_stale_from_node addr depth t in s.cut ≡ is_empty_leaf s.trie
unfolding delete_stale_from_node
cut-leaf addr depth nil v c = refl
cut-leaf addr depth (node n l r) v c =
    cut_here n (delete_stale_paths n).0 (is_nil (delete_stale_paths n).1) l r
      (delete_stale_from_node (next_addr addr depth false) (depth + 1) l)
      (delete_stale_from_node (next_addr addr depth true) (depth + 1) r)
      (absent-kept (next_addr addr depth false) (depth + 1) l)
      (absent-kept (next_addr addr depth true) (depth + 1) r) (has_path-split n v.0) c.0
