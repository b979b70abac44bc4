-- ===== src/Trie/Insert.antt =====
-- insert_walk against a recursion on the bits of the prefix, and what it does to the abstract view.
use routing_table.Prelude.{
  ℕ, suc, ◌+◌, ◌-◌, ◌≤◌, ◌<◌, ◌≡◌, ◌≢◌, refl, Bool, true, false, not, List, [], ◌∷◌, length, take,
  ◌==◌, if◌then◌else◌, arith, Bool-cases, inl, inr,
}
use routing_table.Attrs.{Pointer}
use routing_table.Node.{set_path}
use routing_table.Trie.{Trie, nil, node, child, set_child, make, Inserted, put_here, insert_walk}
use routing_table.Trie.Reads.{node_at, same_bits, node_at-make, make-ne-nil}

-- The insertion at exactly these bits.
unfoldable pub insert_at : List Bool → ℕ → Pointer → Trie → Inserted
insert_at [] path_id attrs current = put_here path_id attrs current
insert_at (bit ∷ key) path_id attrs current =
    let (next, made) = make (child bit current) in
    let r = insert_at key path_id attrs next in
    record r { trie = set_child bit r.trie current; created = made + r.created }

-- A walk whose bits reach the mask is the insertion at the first mask - bitCount + 1 bits.
pub insert_walk-insert_at :
    (bits : List Bool) (k mask path_id : ℕ) (attrs : Pointer) (t : Trie)
    → k ≤ mask
    → mask < k + length bits
    → insert_walk bits k mask path_id attrs t ≡ insert_at (take (mask + 1 - k) bits) path_id attrs t
unfolding insert_walk insert_at
insert_walk-insert_at [] k mask path_id attrs t h l = absurd (omega arith)
insert_walk-insert_at (bit ∷ bits) k mask path_id attrs t h l = elim (Bool-cases (k == mask)) [
  | inl e ↦ let one : mask + 1 - k ≡ 1 = ground arith in rw (e, one)
  | inr e ↦
      let more : mask + 1 - k ≡ suc (mask + 1 - (k + 1)) = ground arith in
      rw (
        e,
        more,
        insert_walk-insert_at bits (k + 1) mask path_id attrs (make (child bit t)).0 (ground arith)
            (omega arith),
      )
]

module _ (path_id : ℕ) (attrs : Pointer) where
  pub insert_at-node_at :
      (key : List Bool) (t : Trie) (q : List Bool)
      → t ≢ nil
      → node_at q (insert_at key path_id attrs t).trie
        ≡ (if same_bits q key then (set_path (node_at q t) path_id attrs false).0 else node_at q t)
  unfolding insert_at node_at put_here same_bits
  insert_at-node_at key nil q h = absurd (h refl)
  insert_at-node_at [] (node n l r) [] h = refl
  insert_at-node_at [] (node n l r) (false ∷ q) h = refl
  insert_at-node_at [] (node n l r) (true ∷ q) h = refl
  insert_at-node_at (false ∷ key) (node n l r) [] h = refl
  insert_at-node_at (true ∷ key) (node n l r) [] h = refl
  insert_at-node_at (false ∷ key) (node n l r) (true ∷ q) h = refl
  insert_at-node_at (true ∷ key) (node n l r) (false ∷ q) h = refl
  insert_at-node_at (false ∷ key) (node n l r) (false ∷ q) h =
      rw (node_at-make q l) at (insert_at-node_at key (make l).0 q (make-ne-nil l))
  insert_at-node_at (true ∷ key) (node n l r) (true ∷ q) h =
      rw (node_at-make q r) at (insert_at-node_at key (make r).0 q (make-ne-nil r))

  -- Whether the prefix is new and what setPath returned, read from the node before.
  pub insert_at-results :
      (key : List Bool) (t : Trie)
      → t ≢ nil
      → let r = insert_at key path_id attrs t in
        (r.is_new ≡ not (node_at key t).has_path)
        × (r.old ≡ (set_path (node_at key t) path_id attrs false).1)
        × (r.reached ≡ true)
        × (r.trie ≢ nil)
  unfolding insert_at node_at put_here
  insert_at-results key nil h = absurd (h refl)
  insert_at-results [] (node n l r) h = (refl, refl, refl, λ e. cc)
  insert_at-results (false ∷ key) (node n l r) h =
      let (a, b, c, d) = insert_at-results key (make l).0 (make-ne-nil l) in
      (rw (node_at-make key l) at a, rw (node_at-make key l) at b, c, λ e. cc)
  insert_at-results (true ∷ key) (node n l r) h =
      let (a, b, c, d) = insert_at-results key (make r).0 (make-ne-nil r) in
      (rw (node_at-make key r) at a, rw (node_at-make key r) at b, c, λ e. cc)
