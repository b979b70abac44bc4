-- ===== src/Rib/View.antt =====
-- The abstract view of a RIB: a map from an entry of the root array and the bits below it to a list
-- of paths.
use routing_table.Prelude.{
  ℕ, ◌+◌, ◌-◌, ◌≤◌, ◌≡◌, ◌<◌, sym, ◌∙◌, Bool, false, ◌&&◌, Option, none, List, [], length, take,
  get_or, set, get_or-set_self, get_or-set_ne, arith, if◌then◌else◌, ◌==◌, ==_iff, Bool-cases,
  Option-cases, inl, inr, if_true, if_false,
}
use routing_table.Attrs.{RouteAttributes, Pointer, PathEntry}
use routing_table.Node.{Node}
use routing_table.Node.Paths.{put, remove, set_path-put, delete_path-remove}
use routing_table.AttrTable.{get_or_insert}
use routing_table.Trie.{Trie, nil, make, is_empty_leaf}
use routing_table.Trie.Reads.{node_at, paths_at, same_bits, same_bits-eq, node_at-make, make-ne-nil}
use routing_table.Trie.Insert.{insert_at, insert_at-node_at}
use routing_table.Trie.Sound.{AllValid-node_at}
use routing_table.Trie.Prune.{empty_leaf-SameReads}
use routing_table.Rib.{Rib, entry, insert_entry, delete_entry}
use routing_table.Rib.Fields.{
  gone_of, insert_entry-Inserts, delete_entry-none, delete_entry-Drops, delete_below-Removes,
}
use routing_table.Rib.Valid.{IsValid}
use routing_table.Rib.Inserting.{reached, done-ins}

-- The paths of the prefix at some bits below an entry.
unfoldable pub view : Rib → ℕ → List Bool → List PathEntry
view r j q = paths_at q (entry r j)

-- A view with the paths at one key replaced.
abbrev pub at_key :
    ℕ
    → List Bool
    → List PathEntry
    → (ℕ → List Bool → List PathEntry)
    → ℕ
    → List Bool
    → List PathEntry
at_key i key es v j q = if i == j && same_bits q key then es else v j q

paths-set :
    (ts : List Trie) (i : ℕ) (t : Trie) (j : ℕ) (q key : List Bool) (es : List PathEntry)
    → i < length ts
    → paths_at q t ≡ (if same_bits q key then es else paths_at q (get_or ts i nil))
    → paths_at q (get_or (set ts i t) j nil)
      ≡ (if i == j && same_bits q key then es else paths_at q (get_or ts j nil))
paths-set ts i t j q key es h reads = elim (Bool-cases (i == j)) [
  | inl e ↦
      let same : i ≡ j = (==_iff i j).0 e in rw (e, ← same, get_or-set_self ts i t nil h) reads
  | inr e ↦ rw (e, get_or-set_ne ts t nil (λ (same : i ≡ j). ground arith))
]

module _ (r : Rib) (i : ℕ) (bits : List Bool) (mask path_id : ℕ) (valid : IsValid r)
    (inside : i < length r.root) (low : 8 ≤ mask) (high : mask < 9 + length bits) where
  abbrev key : List Bool
  key = take (mask - 8) bits

  abbrev before : Node
  before = node_at key (entry r i)

  cleared : before.has_path ≡ false → (before.extra ≡ []) × (before.stale ≡ false)
  cleared = (AllValid-node_at key (entry r i) (valid.nodes i)).cleared

  inserted_reads :
      (p : Pointer) (q : List Bool)
      → paths_at q (insert_at key path_id p (make (entry r i)).0).trie ≡ (
          if same_bits q key
          then (put
              (paths_at key (entry r i))
              (record { attrs = p; path_id = path_id; stale = false })).0
          else paths_at q (entry r i))
  inserted_reads p q =
      let at = insert_at-node_at path_id p key (make (entry r i)).0 q (make-ne-nil (entry r i)) in
      let reads = rw (node_at-make q (entry r i)) at at in
      elim (Bool-cases (same_bits q key)) [
        | inl e ↦
            rw (reads, e, same_bits-eq q key e) ((set_path-put before cleared path_id p false).0)
        | inr e ↦ rw (reads, e)
      ]

  -- For a valid RIB, an entry of the array, and a mask of 8 or more within the bits of the walk, an
  -- insertion puts the path, with the pointer that getOrInsert returns and not stale, into the list
  -- at the first mask - 8 bits below the entry, and changes no other list of paths.
  pub insert_entry-view :
      (given : Option RouteAttributes) (j : ℕ) (q : List Bool)
      → view (insert_entry r i bits mask path_id given).0 j q
        ≡ at_key i
            (take (mask - 8) bits)
            (put (view r i (take (mask - 8) bits)) (record {
              attrs = (get_or_insert r.table given).1;
              path_id = path_id;
              stale = false;
            })).0
            (view r)
            j
            q
  unfolding view
  insert_entry-view given j q =
      let p = (get_or_insert r.table given).1 in
      let start = (make (entry r i)).0 in
      let fields =
        insert_entry-Inserts r i bits mask path_id given
          (reached r i bits mask path_id given valid inside low high) in
      let same = done-ins r i bits mask path_id given valid inside low high in
      rw (fields.root, same)
        (paths-set r.root i (insert_at key path_id p start).trie j q key _ inside
          (inserted_reads p q))

  remove-none : (es : List PathEntry) → (remove es path_id).1 ≡ none → (remove es path_id).0 ≡ es
  unfolding remove
  remove-none es h = ground arith

  unchanged :
      (j : ℕ) (q : List Bool)
      → (if i == j && same_bits q key then view r i key else view r j q) ≡ view r j q
  unchanged j q = elim (Bool-cases (i == j && same_bits q key)) [
    | inl e ↦
        let one : i ≡ j = (==_iff i j).0 (ground arith) in
        let two : q ≡ key = same_bits-eq q key (ground arith) in if_true _ _ e ∙ rw (one, two)
    | inr e ↦ if_false _ _ e
  ]

  left-reads :
      (b : Bool) (t : Trie) (q : List Bool)
      → paths_at q (if b && is_empty_leaf t then nil else t) ≡ paths_at q t
  left-reads b t q = elim (Bool-cases (b && is_empty_leaf t)) [
    | inl e ↦ rw e (sym (empty_leaf-SameReads t (ground arith) q))
    | inr e ↦ rw e
  ]

  -- For a valid RIB, an entry of the array, and a mask of 8 or more within the bits of the walk, a
  -- deletion removes the path with the id from the list at the first mask - 8 bits below the entry,
  -- and changes no other list of paths.
  pub delete_entry-view :
      (j : ℕ) (q : List Bool)
      → view (delete_entry r i bits mask path_id).0 j q
        ≡ at_key i
            (take (mask - 8) bits)
            (remove (view r i (take (mask - 8) bits)) path_id).0
            (view r)
            j
            q
  unfolding view gone_of
  delete_entry-view j q =
      let removes = delete_below-Removes bits mask path_id (entry r i) low high in
      let (paths, out) = delete_path-remove before cleared path_id in
      elim (Option-cases (gone_of r i bits mask path_id).old) [
        | inl e ↦
            rw
              (
                delete_entry-none r i bits mask path_id e,
                remove-none (paths_at key (entry r i)) (sym out ∙ sym removes.old ∙ e),
              )
              (sym (unchanged j q))
        | inr (a, e) ↦ rw (delete_entry-Drops r i bits mask path_id a e).root (
            paths-set r.root i _ j q key _ inside (
              left-reads (gone_of r i bits mask path_id).removed
                (gone_of r i bits mask path_id).trie q
              ∙ removes.reads q
              ∙ rw paths))
      ]
