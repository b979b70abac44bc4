-- ===== src/Rib/Inserting.antt =====
-- insertUnlocked from the array entry on, and the invariant.
use routing_table.Prelude.{
  ℕ, ◌+◌, ◌-◌, ◌≤◌, ◌≡◌, ◌<◌, ◌%◌, refl, Bool, true, false, not, Option, none, some, List, length,
  length-take, take, set, arith, if◌then◌else◌, ◌==◌, ==_iff, Bool-cases, inl, inr,
}
use routing_table.Prelude.Word.{word_mod, add64}
use routing_table.Attrs.{RouteAttributes, Pointer}
use routing_table.Node.{Node, empty_node, paths_count, set_path}
use routing_table.Node.Laws.{Sets, set_path-Sets}
use routing_table.Node.Update.{added}
use routing_table.AttrTable.{get_or_insert}
use routing_table.AttrTable.Insertion as Table
use routing_table.AttrTable.Insertion.{Interns, get_or_insert-Interns}
use routing_table.AttrTable.Release.{release-Keeps}
use routing_table.Trie.{Trie, make, Inserted}
use routing_table.Trie.Reads.{node_at, make-ne-nil}
use routing_table.Trie.Insert.{insert_at, insert_at-results}
use routing_table.Trie.Sound.{AllValid, AllValid-make, AllValid-node_at, insert_at-AllValid}
use routing_table.Trie.Compact.{IsCompact, make-IsBelow, insert_at-IsCompact}
use routing_table.Trie.Totals.{total-make, size-make, insert_at-total, insert_at-size}
use routing_table.Rib.{Rib, entry, insert_entry, set_mask}
use routing_table.Rib.State.{
  prefix_here, paths_here, prefix_of_len, root_total, root_size, root_total-set, root_size-set,
}
use routing_table.Rib.Fields.{
  release_old, count_new, done_of, Inserts, insert_entry-Inserts, insert_below-insert_at,
}
use routing_table.Rib.Valid.{IsValid, entries-set}

empty_paths : paths_count empty_node ≡ 0
unfolding paths_count
empty_paths = refl

count_new-mod :
    (o : Option Pointer) (c n : ℕ) → c ≡ n % word_mod → count_new c o ≡ (n + added o) % word_mod
count_new-mod none c n h = omega arith
count_new-mod (some a) c n h = omega arith

count_if-mod :
    (b : Bool) (c n : ℕ)
    → c ≡ n % word_mod
    → (if b then add64 c 1 else c) ≡ (n + (if b then 1 else 0)) % word_mod
count_if-mod true c n h = omega arith
count_if-mod false c n h = omega arith

mask_if-mod :
    (b : Bool) (masks : ℕ → ℕ) (mask m n : ℕ)
    → masks m ≡ n % word_mod
    → (if b then set_mask masks mask (add64 (masks mask) 1) m else masks m)
      ≡ (n + (if b then (if m == mask then 1 else 0) else 0)) % word_mod
mask_if-mod true masks mask m n h = elim (Bool-cases (m == mask)) [
  | inl e ↦ let same : m ≡ mask = (==_iff m mask).0 e in rw (e, ← same) (omega arith)
  | inr e ↦ rw e (omega arith)
]
mask_if-mod false masks mask m n h = omega arith

module _ (r : Rib) (i : ℕ) (bits : List Bool) (mask path_id : ℕ) (given : Option RouteAttributes)
    (valid : IsValid r) (inside : i < length r.root) (low : 8 ≤ mask)
    (high : mask < 9 + length bits) where
  abbrev key : List Bool
  key = take (mask - 8) bits

  abbrev pointer : Pointer
  pointer = (get_or_insert r.table given).1

  abbrev start : Trie
  start = (make (entry r i)).0

  abbrev ins : Inserted
  ins = insert_at key path_id pointer start

  abbrev before : Node
  before = node_at key start

  abbrev after : Node
  after = (set_path before path_id pointer false).0

  pub interned : Interns r.table given
  interned = get_or_insert-Interns r.table given valid.table

  start_valid : AllValid start
  start_valid = AllValid-make (entry r i) (valid.nodes i)

  pub changed : Sets before path_id pointer false
  changed =
      set_path-Sets before path_id pointer false (AllValid-node_at key start start_valid)
        interned.present

  pub done-ins : done_of r i bits mask path_id given ≡ ins
  unfolding done_of
  done-ins = insert_below-insert_at bits mask path_id pointer start low high

  -- The sum of a counter after the write.
  sum_after :
      (f : ℕ → Node → ℕ)
      → ((e : ℕ) → f e empty_node ≡ 0)
      → root_total f (set r.root i ins.trie) + f mask before ≡ root_total f r.root + f mask after
  sum_after f z =
      let depth : 8 + length key ≡ mask =
        omega (arith, length-take (mask - 8) bits (omega arith)) in
      let step = insert_at-total f path_id pointer key 8 start (make-ne-nil (entry r i)) z in
      omega (
        arith,
        rw depth at step,
        total-make f 8 (entry r i) (z 8),
        root_total-set f r.root i ins.trie inside,
      )

  results :
      (ins.is_new ≡ not before.has_path) × (ins.old ≡ (set_path before path_id pointer false).1)
  results =
      let (a, b, _, _) = insert_at-results path_id pointer key start (make-ne-nil (entry r i)) in
      (a, b)

  pub reached : (done_of r i bits mask path_id given).reached ≡ true
  reached = rw done-ins (insert_at-results path_id pointer key start (make-ne-nil (entry r i))).2

  fields : Inserts r i bits mask path_id given
  fields = insert_entry-Inserts r i bits mask path_id given reached

  next : Rib
  next = (insert_entry r i bits mask path_id given).0

  next_root : next.root ≡ set r.root i ins.trie
  unfolding next
  next_root = rw (← done-ins) fields.root

  sum_prefixes :
      root_total prefix_here (set r.root i ins.trie)
      ≡ root_total prefix_here r.root + (if ins.is_new then 1 else 0)
  sum_prefixes =
      let s = sum_after prefix_here (λ e. refl) in
      let new = changed.nonempty in rw results.0 (ground (arith, s, new))

  sum_paths :
      root_total paths_here (set r.root i ins.trie) ≡ root_total paths_here r.root + added ins.old
  sum_paths =
      let s = sum_after paths_here (λ e. empty_paths) in
      rw results.1 (omega (arith, s, changed.counted))

  sum_lengths :
      (m : ℕ)
      → root_total (prefix_of_len m) (set r.root i ins.trie)
        ≡ root_total (prefix_of_len m) r.root
          + (if ins.is_new then (if m == mask then 1 else 0) else 0)
  sum_lengths m =
      let s = sum_after (prefix_of_len m) (λ e. ground arith) in
      let new = changed.nonempty in rw results.0 (ground (arith, s, new))

  sum_nodes :
      root_size (set r.root i ins.trie) ≡ root_size r.root + ((make (entry r i)).1 + ins.created)
  sum_nodes = omega (
    arith,
    root_size-set r.root i ins.trie inside,
    insert_at-size path_id pointer key start (make-ne-nil (entry r i)),
    size-make (entry r i),
  )

  table-IsValid :
      (o : Option Pointer) → Table.IsValid (release_old (get_or_insert r.table given).0 o)
  table-IsValid none = interned.valid
  table-IsValid (some a) = (release-Keeps (get_or_insert r.table given).0 a interned.valid).valid

  -- An insertion at a mask of 8 or more, within the bits of the walk, keeps the RIB valid.
  pub insert_entry-IsValid : IsValid (insert_entry r i bits mask path_id given).0
  unfolding next
  insert_entry-IsValid = record {
    table = rw fields.table (table-IsValid (done_of r i bits mask path_id given).old);
    nodes = λ j. rw next_root (
        entries-set AllValid r.root i ins.trie inside valid.nodes
          (insert_at-AllValid path_id pointer key start interned.present start_valid) j);
    compact = λ j. rw next_root (
        entries-set IsCompact r.root i ins.trie inside valid.compact
          (insert_at-IsCompact path_id pointer key start (make-ne-nil (entry r i)) changed.nonempty
            (make-IsBelow (entry r i) (valid.compact i)))
          j);
    count =
        rw (fields.count, done-ins, next_root, sum_prefixes)
          (count_if-mod ins.is_new r.count _ valid.count);
    path_count =
        rw (fields.path_count, done-ins, next_root, sum_paths)
          (count_new-mod ins.old r.path_count _ valid.path_count);
    node_count =
        rw (fields.node_count, done-ins, next_root, sum_nodes)
          (let h = valid.node_count in omega arith);
    masks = λ m.
        rw (fields.masks m, done-ins, next_root, sum_lengths m)
          (mask_if-mod ins.is_new r.masks mask m _ (valid.masks m));
  }

  -- A sum over the nodes after the insertion, and the table.
  pub insert_entry-total :
      (f : ℕ → Node → ℕ)
      → ((e : ℕ) → f e empty_node ≡ 0)
      → root_total f (insert_entry r i bits mask path_id given).0.root
          + f mask (node_at (take (mask - 8) bits) (make (entry r i)).0)
        ≡ root_total f r.root
          + f mask
              (set_path
                (node_at (take (mask - 8) bits) (make (entry r i)).0)
                path_id
                (get_or_insert r.table given).1
                false).0
  unfolding next
  insert_entry-total f z = rw next_root (sum_after f z)

  pub insert_entry-table :
      (insert_entry r i bits mask path_id given).0.table
      ≡ release_old
          (get_or_insert r.table given).0
          (set_path
            (node_at (take (mask - 8) bits) (make (entry r i)).0)
            path_id
            (get_or_insert r.table given).1
            false).1
  insert_entry-table = rw (fields.table, done-ins, results.1)
