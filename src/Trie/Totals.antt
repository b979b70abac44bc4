-- ===== src/Trie/Totals.antt =====
-- Sums over the nodes of a trie: the counters of the RIB and the reference counts are such sums.
use routing_table.Prelude.{
  ℕ, suc, ◌+◌, ◌≡◌, ◌≢◌, refl, Bool, true, false, List, [], ◌∷◌, length, arith,
}
use native.Mathlib.Nat.{add-zero}
use routing_table.Attrs.{Pointer}
use routing_table.Node.{Node, empty_node, set_path}
use routing_table.Trie.{Trie, nil, node, make, put_here}
use routing_table.Trie.Reads.{node_at, node_at-make, make-ne-nil}
use routing_table.Trie.Insert.{insert_at}

-- The nodes.
unfoldable pub size : Trie → ℕ
size nil = 0
size (node n l r) = suc (size l + size r)

module _ (f : ℕ → Node → ℕ) where
  -- The sum of a number that each node has at its depth.
  unfoldable pub total : ℕ → Trie → ℕ
  total depth nil = 0
  total depth (node n l r) = f depth n + (total (depth + 1) l + total (depth + 1) r)

  pub total-make : (d : ℕ) (t : Trie) → f d empty_node ≡ 0 → total d (make t).0 ≡ total d t
  unfolding total
  total-make d nil h = rw h
  total-make d (node n l r) h = refl

  -- An insertion changes the sum by what it changes at its node, where empty nodes count nothing.
  pub insert_at-total :
      (path_id : ℕ) (attrs : Pointer) (key : List Bool) (d : ℕ) (t : Trie)
      → t ≢ nil
      → ((e : ℕ) → f e empty_node ≡ 0)
      → total d (insert_at key path_id attrs t).trie + f (d + length key) (node_at key t)
        ≡ total d t + f (d + length key) (set_path (node_at key t) path_id attrs false).0
  unfolding total insert_at node_at put_here
  insert_at-total path_id attrs key d nil h z = absurd (h refl)
  insert_at-total path_id attrs [] d (node n l r) h z = rw (add-zero d) (omega arith)
  insert_at-total path_id attrs (false ∷ key) d (node n l r) h z =
      let ih = insert_at-total path_id attrs key (d + 1) (make l).0 (make-ne-nil l) z in
      let e : d + length (false ∷ key) ≡ d + 1 + length key = omega arith in
      rw e (omega (arith, rw (node_at-make key l, total-make (d + 1) l (z (d + 1))) at ih))
  insert_at-total path_id attrs (true ∷ key) d (node n l r) h z =
      let ih = insert_at-total path_id attrs key (d + 1) (make r).0 (make-ne-nil r) z in
      let e : d + length (true ∷ key) ≡ d + 1 + length key = omega arith in
      rw e (omega (arith, rw (node_at-make key r, total-make (d + 1) r (z (d + 1))) at ih))

-- The nodes grow by those that the insertion counts as created.
pub size-make : (t : Trie) → size (make t).0 ≡ size t + (make t).1
unfolding size
size-make nil = refl
size-make (node n l r) = omega arith

pub insert_at-size :
    (path_id : ℕ) (attrs : Pointer) (key : List Bool) (t : Trie)
    → t ≢ nil
    → let r = insert_at key path_id attrs t in size r.trie ≡ size t + r.created
unfolding size insert_at put_here
insert_at-size path_id attrs key nil h = absurd (h refl)
insert_at-size path_id attrs [] (node n l r) h = omega arith
insert_at-size path_id attrs (false ∷ key) (node n l r) h =
    omega (arith, insert_at-size path_id attrs key (make l).0 (make-ne-nil l), size-make l)
insert_at-size path_id attrs (true ∷ key) (node n l r) h =
    omega (arith, insert_at-size path_id attrs key (make r).0 (make-ne-nil r), size-make r)
