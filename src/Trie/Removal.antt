-- ===== src/Trie/Removal.antt =====
-- What delete_walk does: the lists of paths, the results, the sums and the number of nodes.
use native.Mathlib.Nat.{add-zero}
use routing_table.Prelude.{
  ℕ, ◌+◌, ◌-◌, ◌≤◌, ◌<◌, ◌≡◌, ◌≢◌, refl, ◌∙◌, sym, ap, Bool, true, false, not, ◌&&◌, Option, none,
  some, List, [], ◌∷◌, length, take, if◌then◌else◌, arith, Bool-cases, Option-cases, inl, inr,
}
use routing_table.Attrs.{Pointer}
use routing_table.Node.{Node, all_paths, delete_path}
use routing_table.Trie.{
  Trie, nil, node, Deleted, plug_all, delete_node, delete_here, delete_found, delete_walk,
}
use routing_table.Trie.Reads.{node_at, paths_at, same_bits, same_bits-eq, all_paths_if}
use routing_table.Trie.Delete.{
  subtrie, crumbs_at, update_at, found, locate-crumbs_at, plug_all-crumbs_at, node_at-subtrie,
  update_at-node_at, subtrie-nil,
}
use routing_table.Trie.Prune.{delete_node-paths_at, delete_node-size, delete_node-total}
use routing_table.Trie.Totals.{size, total}

delete_path-none : (n : Node) (q : ℕ) → (delete_path n q).1 ≡ none → (delete_path n q).0 ≡ n
unfolding delete_path
delete_path-none n q h = ground arith

delete_path-empty : (q : ℕ) → (delete_path (node_at [] nil) q).1 ≡ none
unfolding delete_path node_at
delete_path-empty q = refl

abbrev is_some {ℓ} : {A : Type ℓ} → Option A → Bool
is_some none = false
is_some (some a) = true

module _ (f : ℕ → Node → ℕ) where
  update_at-total :
      (key : List Bool) (d : ℕ) (t : Trie) (m : Node)
      → subtrie key t ≢ nil
      → total f d (update_at key m t) + f (d + length key) (node_at key t)
        ≡ total f d t + f (d + length key) m
  unfolding total update_at subtrie node_at
  update_at-total key d nil m h = absurd (h (subtrie-nil key))
  update_at-total [] d (node n l r) m h = rw (add-zero d) (omega arith)
  update_at-total (false ∷ key) d (node n l r) m h =
      let e : d + length (false ∷ key) ≡ d + 1 + length key = omega arith in
      rw e (omega (arith, update_at-total key (d + 1) l m h))
  update_at-total (true ∷ key) d (node n l r) m h =
      let e : d + length (true ∷ key) ≡ d + 1 + length key = omega arith in
      rw e (omega (arith, update_at-total key (d + 1) r m h))

update_at-size : (key : List Bool) (t : Trie) (m : Node) → size (update_at key m t) ≡ size t
unfolding size update_at
update_at-size key nil m = refl
update_at-size [] (node n l r) m = refl
update_at-size (false ∷ key) (node n l r) m = rw (update_at-size key l m)
update_at-size (true ∷ key) (node n l r) m = rw (update_at-size key r m)

-- deletePath at these bits, below the root entry.
pub record Removes (key : List Bool) (path_id : ℕ) (t : Trie) (r : Deleted) : Type 1 where
  pub old : r.old ≡ (delete_path (node_at key t) path_id).1
  pub removed : r.removed ≡ (
      is_some (delete_path (node_at key t) path_id).1
      && not ((delete_path (node_at key t) path_id).0).has_path)
  pub reads :
      (q : List Bool)
      → paths_at q r.trie ≡ (
          if same_bits q key
          then all_paths (delete_path (node_at key t) path_id).0
          else paths_at q t)
  pub nodes : size r.trie + r.pruned ≡ size t
  pub unpruned : r.removed ≡ false → r.pruned ≡ 0
  pub sums :
      (f : ℕ → Node → ℕ)
      → ((d : ℕ) (n : Node) → n.has_path ≡ false → f d n ≡ 0)
      → (d : ℕ)
      → total f d r.trie + f (d + length key) (node_at key t)
        ≡ total f d t + f (d + length key) (delete_path (node_at key t) path_id).0

unchanged_at :
    (key : List Bool) (t : Trie) (q : List Bool)
    → paths_at q t ≡ (if same_bits q key then paths_at key t else paths_at q t)
unchanged_at key t q = elim (Bool-cases (same_bits q key)) [
  | inl e ↦ rw e (ap (λ k. paths_at k t) (same_bits-eq q key e))
  | inr e ↦ rw e
]

-- Nothing is deleted: the trie stays.
unchanged-Removes :
    (key : List Bool) (path_id : ℕ) (t : Trie)
    → (delete_path (node_at key t) path_id).1 ≡ none
    → Removes key path_id t (record { trie = t; pruned = 0; old = none; removed = false })
unchanged-Removes key path_id t h =
    let same = delete_path-none (node_at key t) path_id h in
    record {
      old = sym h;
      removed = rw h;
      reads = λ q. rw same (unchanged_at key t q);
      nodes = omega arith;
      unpruned = λ h. refl;
      sums = λ f z d. rw same;
    }

-- The node is found, and the path is deleted from it.
module _ (key : List Bool) (path_id : ℕ) (t : Trie) (n : Node) (l r : Trie) (a : Pointer)
    (at : subtrie key t ≡ node n l r) (here : node_at key t ≡ n)
    (old : (delete_path n path_id).1 ≡ some a) where
  left : Node
  left = (delete_path n path_id).0

  back :
      plug_all (crumbs_at key t []) (node (delete_path n path_id).0 l r)
      ≡ update_at key (delete_path n path_id).0 t
  unfolding plug_all
  back = plug_all-crumbs_at key t [] n (delete_path n path_id).0 l r at

  at_node : subtrie key t ≢ nil
  at_node e = cc

  reads_left :
      (q : List Bool)
      → paths_at q (update_at key left t)
        ≡ (if same_bits q key then all_paths left else paths_at q t)
  reads_left q =
      ap all_paths (update_at-node_at key t left q at_node)
      ∙ all_paths_if (same_bits q key) left (node_at q t)

  sums_left :
      (f : ℕ → Node → ℕ) (d : ℕ)
      → total f d (update_at key left t) + f (d + length key) n
        ≡ total f d t + f (d + length key) left
  sums_left f d = rw here at (update_at-total f key d t left at_node)

  -- A path is left: nothing is pruned.
  kept-Removes :
      (left.has_path ≡ true)
      → Removes key path_id t (record {
        trie = plug_all (crumbs_at key t []) (node left l r);
        pruned = 0;
        old = some a;
        removed = false;
      })
  unfolding left
  kept-Removes h = rw back (record {
    old = rw (here, old);
    removed = rw (here, old, h);
    reads = λ q. rw here (reads_left q);
    nodes = rw update_at-size (omega arith);
    unpruned = λ h. refl;
    sums = λ f z d. rw here (sums_left f d);
  })

  -- The last path is gone: deleteNode prunes.
  pruned-Removes :
      (left.has_path ≡ false)
      → let pruned = delete_node (crumbs_at key t []) (node left l r) in
        Removes key path_id t
          (record { trie = pruned.1; pruned = pruned.0; old = some a; removed = true })
  unfolding left
  pruned-Removes h =
      let crumbs = crumbs_at key t [] in
      let s = node (delete_path n path_id).0 l r in
      record {
        old = rw (here, old);
        removed = rw (here, old, h);
        reads = λ q. rw (here, delete_node-paths_at crumbs s q, back) (reads_left q);
        nodes =
            rw (delete_node-size crumbs s, back) (update_at-size key t (delete_path n path_id).0);
        unpruned = λ h. cc;
        sums = λ f z d. rw (here, delete_node-total f z crumbs d s, back) (sums_left f d);
      }

delete_here-Removes :
    (key : List Bool) (path_id : ℕ) (t : Trie) (n : Node) (l r : Trie)
    → subtrie key t ≡ node n l r
    → node_at key t ≡ n
    → Removes key path_id t (delete_here path_id t (node n l r, crumbs_at key t []))
unfolding delete_here left
delete_here-Removes key path_id t n l r at here = elim (Option-cases (delete_path n path_id).1) [
  | inl none_old ↦ rw (none_old, delete_here) (unchanged-Removes key path_id t (rw here none_old))
  | inr (a, old) ↦
      rw (old, delete_here)
        (elim (Bool-cases ((delete_path n path_id).0).has_path) [
          | inl h ↦ rw h (kept-Removes key path_id t n l r a at here old h)
          | inr h ↦ rw h (pruned-Removes key path_id t n l r a at here old h)
        ])
]

-- The result of the walk that found a trie at these bits, or nil.
found-Removes :
    (key : List Bool) (path_id : ℕ) (t s : Trie)
    → subtrie key t ≡ s
    → Removes key path_id t (delete_found path_id t (found s (crumbs_at key t [])))
unfolding found delete_found node_at
found-Removes key path_id t nil e =
    unchanged-Removes key path_id t (rw (node_at-subtrie key t, e) (delete_path-empty path_id))
found-Removes key path_id t (node n l r) e =
    delete_here-Removes key path_id t n l r e (rw (node_at-subtrie key t, e))

-- A walk whose bits reach the mask deletes the path at the first mask - bitCount + 1 bits.
pub delete_walk-Removes :
    (bits : List Bool) (k mask path_id : ℕ) (t : Trie)
    → k ≤ mask
    → mask < k + length bits
    → Removes (take (mask + 1 - k) bits) path_id t (delete_walk bits k mask path_id t)
unfolding delete_walk
delete_walk-Removes bits k mask path_id t h l =
    let key = take (mask + 1 - k) bits in
    rw (locate-crumbs_at bits k mask t [] h l) (found-Removes key path_id t (subtrie key t) refl)

-- The deletion on the root entry itself, which is a /8.
pub delete_root-Removes :
    (path_id : ℕ) (t : Trie) → Removes [] path_id t (delete_here path_id t (t, []))
unfolding found delete_found crumbs_at subtrie delete_here
delete_root-Removes path_id nil = found-Removes [] path_id nil nil refl
delete_root-Removes path_id (node n l r) = found-Removes [] path_id (node n l r) (node n l r) refl
