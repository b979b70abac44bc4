-- ===== src/Rib/Deleting.antt =====
-- deleteUnlocked from the array entry on, and the invariant.
use routing_table.Prelude.{
  ℕ, ◌+◌, ◌-◌, ◌≤◌, ◌≡◌, ◌<◌, sym, ◌∙◌, Bool, true, false, not, ◌&&◌, some, List, length,
  length-take, take, set, arith, if◌then◌else◌, ◌==◌, Bool-cases, Option-cases, inl, inr,
}
use routing_table.Attrs.{Pointer}
use routing_table.Node.{Node, all_paths, delete_path}
use routing_table.Node.Laws.{Deletes, delete_path-Deletes}
use routing_table.AttrTable.Release.{release-Keeps}
use routing_table.Trie.{Trie, nil, Deleted, is_empty_leaf}
use routing_table.Trie.Reads.{node_at, paths_at, same_bits_refl}
use routing_table.Trie.Removal.{Removes}
use routing_table.Trie.Prune.{empty_leaf-SameReads, empty_leaf-size, empty_leaf-total}
use routing_table.Trie.Sound.{
  AllValid, AllValid-node_at, delete_walk-AllValid, delete_root-AllValid,
}
use routing_table.Trie.Compact.{
  IsCompact, IsBelow, IsBelow-IsCompact, delete_walk-IsBelow, delete_root-IsBelow,
}
use routing_table.Trie.Totals.{size, total}
use routing_table.Rib.{Rib, entry, delete_entry, delete_below}
use routing_table.Rib.State.{
  prefix_here, paths_here, prefix_of_len, root_total, root_size, root_total-set, root_size-set,
}
use routing_table.Rib.Fields.{
  gone_of, Drops, delete_entry-Drops, delete_entry-none, delete_below-Removes,
}
use routing_table.Rib.Valid.{IsValid, entries-set}
use routing_table.Rib.Lowering.{
  found-has_path, no_paths, paths_ne, sub_one, count_if-mod, nodes_if-mod, mask_if-mod, one_less,
  one_less_at, no_paths_nil, both,
}

module _ (r : Rib) (i : ℕ) (bits : List Bool) (mask path_id : ℕ) (valid : IsValid r)
    (inside : i < length r.root) (low : 8 ≤ mask) (high : mask < 9 + length bits) where
  abbrev key : List Bool
  key = take (mask - 8) bits

  abbrev done : Deleted
  done = delete_below bits mask path_id (entry r i)

  abbrev before : Node
  before = node_at key (entry r i)

  abbrev after : Node
  after = (delete_path before path_id).0

  pub removes : Removes key path_id (entry r i) done
  removes = delete_below-Removes bits mask path_id (entry r i) low high

  pub changed : Deletes before path_id
  changed = delete_path-Deletes before path_id (AllValid-node_at key (entry r i) (valid.nodes i))

  done_valid : AllValid done.trie
  done_valid = elim (Bool-cases (mask == 8)) [
    | inl e ↦ rw e (delete_root-AllValid path_id (entry r i) (valid.nodes i))
    | inr e ↦
        rw e
          (delete_walk-AllValid bits 9 mask path_id (entry r i) (ground arith) high (valid.nodes i))
  ]

  done-IsBelow : IsBelow done.trie
  done-IsBelow = elim (Bool-cases (mask == 8)) [
    | inl e ↦ rw e (delete_root-IsBelow path_id (entry r i) (valid.compact i))
    | inr e ↦
        rw e (
          delete_walk-IsBelow bits 9 mask path_id (entry r i) (ground arith) high (valid.compact i))
  ]

  -- A path has been deleted.
  module _ (a : Pointer) (old : done.old ≡ some a) where
    returned : (delete_path before path_id).1 ≡ some a
    returned = sym removes.old ∙ old

    removed : done.removed ≡ not after.has_path
    removed = removes.removed ∙ rw returned

    -- The entry that is written back.
    abbrev left : Trie
    left = if done.removed && is_empty_leaf done.trie then nil else done.trie

    not_leaf : done.removed ≡ false → is_empty_leaf done.trie ≡ false
    not_leaf h = elim (Bool-cases (is_empty_leaf done.trie)) [
      | inr e ↦ e
      | inl e ↦
          let stays : after.has_path ≡ true = ground (arith, removed) in
          let here : paths_at key done.trie ≡ all_paths after =
            rw (same_bits_refl key) at (removes.reads key) in
          absurd (
            paths_ne after stays
              (sym here ∙ empty_leaf-SameReads done.trie e key ∙ no_paths_nil key))
    ]

    left_valid : AllValid left
    left_valid = elim (Bool-cases (done.removed && is_empty_leaf done.trie)) [
      | inl e ↦ rw e tt
      | inr e ↦ rw e done_valid
    ]

    kept_leaf : (done.removed && is_empty_leaf done.trie) ≡ false → is_empty_leaf done.trie ≡ false
    kept_leaf h = elim (Bool-cases done.removed) [ inl e ↦ sym (rw e) ∙ h | inr e ↦ not_leaf e ]

    left-IsCompact : IsCompact left
    left-IsCompact = elim (Bool-cases (done.removed && is_empty_leaf done.trie)) [
      | inl e ↦ rw e tt
      | inr e ↦ rw e (IsBelow-IsCompact done.trie (kept_leaf e) done-IsBelow)
    ]

    left-total :
        (f : ℕ → Node → ℕ)
        → ((d : ℕ) (n : Node) → n.has_path ≡ false → f d n ≡ 0)
        → total f 8 left ≡ total f 8 done.trie
    unfolding total
    left-total f z = elim (Bool-cases (done.removed && is_empty_leaf done.trie)) [
      | inl e ↦ rw e (sym (empty_leaf-total f z 8 done.trie (both done.removed _ e)))
      | inr e ↦ rw e
    ]

    fields : Drops r i bits mask path_id a
    unfolding gone_of
    fields = delete_entry-Drops r i bits mask path_id a old

    next_root : (delete_entry r i bits mask path_id).0.root ≡ set r.root i left
    unfolding gone_of
    next_root = fields.root

    -- The sum of a counter after the write.
    sum_after :
        (f : ℕ → Node → ℕ)
        → ((d : ℕ) (n : Node) → n.has_path ≡ false → f d n ≡ 0)
        → root_total f (set r.root i left) + f mask before ≡ root_total f r.root + f mask after
    sum_after f z =
        let depth : 8 + length key ≡ mask =
          omega (arith, length-take (mask - 8) bits (omega arith)) in
        omega (
          arith,
          rw depth at (removes.sums f z 8),
          left-total f z,
          root_total-set f r.root i left inside,
        )

    before_path : before.has_path ≡ true
    before_path = found-has_path before path_id a returned

    sum_prefixes :
        root_total prefix_here (set r.root i left) + (if done.removed then 1 else 0)
        ≡ root_total prefix_here r.root
    sum_prefixes =
        one_less done.removed after.has_path _ _ removed
          (rw before_path at (sum_after prefix_here (λ d n h. rw h)))

    sum_paths : root_total paths_here (set r.root i left) + 1 ≡ root_total paths_here r.root
    sum_paths =
        let s = sum_after paths_here (λ d n h. no_paths n h) in
        omega (arith, s, rw returned at changed.counted)

    sum_lengths :
        (m : ℕ)
        → root_total (prefix_of_len m) (set r.root i left)
            + (if done.removed then (if m == mask then 1 else 0) else 0)
          ≡ root_total (prefix_of_len m) r.root
    sum_lengths m =
        one_less_at done.removed after.has_path mask m _ _ removed
          (rw before_path at (sum_after (prefix_of_len m) (λ d n h. ground arith)))

    left-size :
        size left + (if done.removed && is_empty_leaf done.trie then 1 else 0) ≡ size done.trie
    unfolding size
    left-size = elim (Bool-cases (done.removed && is_empty_leaf done.trie)) [
      | inl e ↦ rw e (sym (empty_leaf-size done.trie (both done.removed _ e)))
      | inr e ↦ rw e (omega arith)
    ]

    sum_nodes :
        root_size (set r.root i left)
          + (if done.removed && is_empty_leaf done.trie then 1 else 0)
          + done.pruned
        ≡ root_size r.root
    sum_nodes = omega (arith, left-size, removes.nodes, root_size-set r.root i left inside)

    deleted-IsValid : IsValid (delete_entry r i bits mask path_id).0
    unfolding gone_of
    deleted-IsValid = record {
      table = rw fields.table (release-Keeps r.table a valid.table).valid;
      nodes =
          λ j. rw next_root (entries-set AllValid r.root i left inside valid.nodes left_valid j);
      compact = λ j.
          rw next_root (entries-set IsCompact r.root i left inside valid.compact left-IsCompact j);
      count =
          rw (fields.count, next_root)
            (count_if-mod done.removed r.count _ _ valid.count sum_prefixes);
      path_count =
          rw (fields.path_count, next_root) (sub_one r.path_count _ _ valid.path_count sum_paths);
      node_count =
          rw (fields.node_count, next_root)
            (nodes_if-mod done.removed (is_empty_leaf done.trie) r.node_count _ _ done.pruned
              valid.node_count removes.unpruned sum_nodes);
      masks = λ m.
          rw (fields.masks m, next_root)
            (mask_if-mod done.removed r.masks mask m _ _ (valid.masks m) (sum_lengths m));
    }

  -- A deletion at a mask of 8 or more, within the bits of the walk, keeps the RIB valid.
  pub delete_entry-IsValid : IsValid (delete_entry r i bits mask path_id).0
  unfolding gone_of
  delete_entry-IsValid = elim (Option-cases done.old) [
    | inl e ↦ rw (delete_entry-none r i bits mask path_id e) valid
    | inr (a, e) ↦ deleted-IsValid a e
  ]

  -- A sum over the nodes after a deletion of a path, where nodes without a path count nothing.
  pub delete_entry-total :
      (a : Pointer)
      → (delete_below bits mask path_id (entry r i)).old ≡ some a
      → (f : ℕ → Node → ℕ) → ((d : ℕ) (n : Node) → n.has_path ≡ false → f d n ≡ 0)
      → root_total f (delete_entry r i bits mask path_id).0.root
          + f mask (node_at (take (mask - 8) bits) (entry r i))
        ≡ root_total f r.root
          + f mask (delete_path (node_at (take (mask - 8) bits) (entry r i)) path_id).0
  delete_entry-total a old f z = rw (next_root a old) (sum_after a old f z)
