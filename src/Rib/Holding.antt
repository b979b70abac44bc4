-- ===== src/Rib/Holding.antt =====
-- The reference counts of the attribute table against the references in the tries of a RIB.
use routing_table.Prelude.{
  ℕ, ◌+◌, ◌-◌, ◌≤◌, ◌<◌, ◌^◌, ◌≡◌, refl, sym, ◌∙◌, Bool, false, Option, none, some, List, [], ◌∷◌,
  length, take, ◌==◌, if◌then◌else◌, arith, Option-cases, inl, inr,
}
use routing_table.Attrs.{RouteAttributes, Pointer, PathEntry}
use routing_table.Node.{Node, empty_node, all_paths, set_path, delete_path}
use routing_table.Node.Paths.{refs, paths_count-length}
use routing_table.Node.Update.{released}
use routing_table.AttrTable.{AttrTable, get_or_insert}
use routing_table.AttrTable.Insertion as Insertion
use routing_table.AttrTable.Insertion.{get_or_insert-Interns}
use routing_table.AttrTable.Counted.{IsCounted, IsCounted-same, release-IsCounted}
use routing_table.AttrTable.Acquired.{get_or_insert-IsCounted}
use routing_table.Trie.{Trie, nil, node, make}
use routing_table.Trie.Reads.{node_at}
use routing_table.Trie.Totals.{total}
use routing_table.Tally.Amounts.{refs_here}
use routing_table.Rib.{Rib, entry, insert_entry, delete_entry, delete_below}
use routing_table.Rib.Fields.{release_old, delete_entry-none, delete_entry-Drops, gone_of}
use routing_table.Rib.State.{root_total, paths_here}
use routing_table.Rib.Valid.{IsValid}
use routing_table.Rib.Inserting as Inserting
use routing_table.Rib.Deleting as Deleting

-- The references in the tries, with those of others that use the table.
abbrev pub held_by : Rib → (Pointer → ℕ) → Pointer → ℕ
held_by r others q = root_total (refs_here q) r.root + others q

-- The counts of the table are those references.
abbrev pub IsHeld : (Pointer → ℕ) → Rib → Type 0
IsHeld others r = IsCounted r.table (held_by r others)

refs-le : (q : Pointer) (es : List PathEntry) → refs q es ≤ length es
unfolding refs
refs-le q [] = omega arith
refs-le q (e ∷ es) = ground (arith, refs-le q es)

total-le : (q : Pointer) (d : ℕ) (t : Trie) → total (refs_here q) d t ≤ total paths_here d t
unfolding total
total-le q d nil = omega arith
total-le q d (node n l r) = omega (
  arith,
  refs-le q (all_paths n),
  paths_count-length n,
  total-le q (d + 1) l,
  total-le q (d + 1) r,
)

no_refs : (q : Pointer) → refs q (all_paths empty_node) ≡ 0
unfolding refs all_paths
no_refs q = refl

no_path_refs : (q : Pointer) (n : Node) → n.has_path ≡ false → refs q (all_paths n) ≡ 0
unfolding refs all_paths
no_path_refs q n h = rw h

-- No object is held more often than there are paths.
pub root_total-le :
    (q : Pointer) (ts : List Trie) → root_total (refs_here q) ts ≤ root_total paths_here ts
unfolding root_total
root_total-le q [] = omega arith
root_total-le q (t ∷ ts) = omega (arith, total-le q 8 t, root_total-le q ts)

module _ (r : Rib) (i : ℕ) (bits : List Bool) (mask path_id : ℕ) (others : Pointer → ℕ)
    (valid : IsValid r) (held : IsHeld others r) (inside : i < length r.root) (low : 8 ≤ mask)
    (high : mask < 9 + length bits) where
  module _ (given : Option RouteAttributes)
      (room : (q : Pointer) → root_total paths_here r.root + 1 + others q < 2 ^ 32) where
    pointer : Pointer
    pointer = (get_or_insert r.table given).1

    old : Option Pointer
    unfolding pointer
    old = (set_path (node_at (take (mask - 8) bits) (make (entry r i)).0) path_id pointer false).1

    balance :
        (q : Pointer)
        → held_by (insert_entry r i bits mask path_id given).0 others q + released q old
          ≡ held_by r others q + (if pointer == q then 1 else 0)
    unfolding old pointer
    balance q =
        let changed = Inserting.changed r i bits mask path_id given valid inside low high in
        let sum =
          Inserting.insert_entry-total r i bits mask path_id given valid inside low high
            (refs_here q) (λ e. no_refs q) in
        omega (arith, changed.balance q, sum)

    after_release :
        (o : Option Pointer) (at : AttrTable) (held0 held1 : Pointer → ℕ)
        → Insertion.IsValid at
        → IsCounted at held0
        → ((q : Pointer) → held1 q + released q o ≡ held0 q)
        → IsCounted (release_old at o) held1
    after_release none at held0 held1 v c h =
        IsCounted-same at held0 held1 (λ q. omega (arith, h q)) c
    after_release (some a) at held0 held1 v c h = release-IsCounted at held0 held1 v c a h

    pub insert_entry-IsHeld : IsHeld others (insert_entry r i bits mask path_id given).0
    unfolding pointer old
    insert_entry-IsHeld =
        let table =
          Inserting.insert_entry-table r i bits mask path_id given valid inside low high in
        let mid : Pointer → ℕ = λ q. held_by r others q + (if pointer == q then 1 else 0) in
        let interned = get_or_insert-Interns r.table given valid.table in
        rw table (
          after_release old (get_or_insert r.table given).0 mid _ interned.valid
            (get_or_insert-IsCounted r.table given (held_by r others) mid valid.table held
              (omega (arith, room pointer, root_total-le pointer r.root)) (λ q. refl))
            balance)

  pub delete_entry-IsHeld : IsHeld others (delete_entry r i bits mask path_id).0
  unfolding gone_of
  delete_entry-IsHeld = elim (Option-cases (delete_below bits mask path_id (entry r i)).old) [
    | inl e ↦ rw (delete_entry-none r i bits mask path_id e) held
    | inr (a, e) ↦
        let removes = Deleting.removes r i bits mask path_id valid inside low high in
        let changed = Deleting.changed r i bits mask path_id valid inside low high in
        let back : (delete_path (node_at (take (mask - 8) bits) (entry r i)) path_id).1 ≡ some a =
          sym removes.old ∙ e in
        rw (delete_entry-Drops r i bits mask path_id a e).table (
          release-IsCounted r.table (held_by r others) _ valid.table held a (λ q.
            let sum =
              Deleting.delete_entry-total r i bits mask path_id valid inside low high a e
                (refs_here q) (λ d n h. no_path_refs q n h) in
            omega (arith, rw back at (changed.balance q), sum)))
  ]
