-- ===== src/Rib/Fields.antt =====
-- insertUnlocked and deleteUnlocked from the array entry on, field by field.
use routing_table.Prelude.{
  ℕ, ◌+◌, ◌-◌, ◌≤◌, ◌≡◌, ◌<◌, Bool, true, false, ◌&&◌, Option, none, some, List, length, take, set,
  arith, if◌then◌else◌, ◌==◌, Bool-cases, inl, inr,
}
use routing_table.Prelude.Word.{add64, sub64}
use routing_table.Attrs.{RouteAttributes, Pointer}
use routing_table.Trie.{Trie, nil, make, Inserted, Deleted, is_empty_leaf}
use routing_table.Trie.Insert.{insert_at, insert_walk-insert_at}
use routing_table.Trie.Removal.{Removes, delete_walk-Removes, delete_root-Removes}
use routing_table.AttrTable.{AttrTable, get_or_insert, release}
use routing_table.Rib.{Rib, entry, set_mask, insert_below, insert_entry, delete_below, delete_entry}

-- For a mask of 8 or more, the insertion at the first mask - 8 bits of the walk.
pub insert_below-insert_at :
    (bits : List Bool) (mask path_id : ℕ) (p : Pointer) (t : Trie)
    → 8 ≤ mask
    → mask < 9 + length bits
    → insert_below bits mask path_id p t ≡ insert_at (take (mask - 8) bits) path_id p t
unfolding insert_at
insert_below-insert_at bits mask path_id p t low high = elim (Bool-cases (mask == 8)) [
  | inl e ↦ let z : mask - 8 ≡ 0 = ground arith in rw (e, z)
  | inr e ↦
      let z : mask - 8 ≡ mask + 1 - 9 = ground arith in
      rw (e, z) (insert_walk-insert_at bits 9 mask path_id p t (ground arith) high)
]

abbrev pub release_old : AttrTable → Option Pointer → AttrTable
release_old at none = at
release_old at (some a) = release at a

abbrev pub count_new : ℕ → Option Pointer → ℕ
count_new c none = add64 c 1
count_new c (some a) = c

module _ (r : Rib) (i : ℕ) (bits : List Bool) (mask path_id : ℕ)
    (given : Option RouteAttributes) where
  unfoldable pub done_of : Inserted
  done_of = insert_below bits mask path_id (get_or_insert r.table given).1 (make (entry r i)).0

  -- The state and the result of an insertion that has reached the mask.
  pub record Inserts : Type 0 where
    pub root : (insert_entry r i bits mask path_id given).0.root ≡ set r.root i done_of.trie
    pub table :
        (insert_entry r i bits mask path_id given).0.table
        ≡ release_old (get_or_insert r.table given).0 done_of.old
    pub count :
        (insert_entry r i bits mask path_id given).0.count
        ≡ (if done_of.is_new then add64 r.count 1 else r.count)
    pub path_count :
        (insert_entry r i bits mask path_id given).0.path_count ≡ count_new r.path_count done_of.old
    pub node_count :
        (insert_entry r i bits mask path_id given).0.node_count
        ≡ add64 r.node_count ((make (entry r i)).1 + done_of.created)
    pub masks :
        (m : ℕ)
        → (insert_entry r i bits mask path_id given).0.masks m
          ≡ (if done_of.is_new then set_mask r.masks mask (add64 (r.masks mask) 1) m else r.masks m)
    pub result : (insert_entry r i bits mask path_id given).1 ≡ done_of.is_new

  pub insert_entry-Inserts : done_of.reached ≡ true → Inserts
  unfolding insert_entry done_of
  insert_entry-Inserts reached = ground arith

-- For a mask of 8 or more, the deletion at the first mask - 8 bits of the walk.
pub delete_below-Removes :
    (bits : List Bool) (mask path_id : ℕ) (t : Trie)
    → 8 ≤ mask
    → mask < 9 + length bits
    → Removes (take (mask - 8) bits) path_id t (delete_below bits mask path_id t)
delete_below-Removes bits mask path_id t low high = elim (Bool-cases (mask == 8)) [
  | inl e ↦ let z : mask - 8 ≡ 0 = ground arith in rw (e, z) (delete_root-Removes path_id t)
  | inr e ↦
      let z : mask - 8 ≡ mask + 1 - 9 = ground arith in
      rw (e, z) (delete_walk-Removes bits 9 mask path_id t (ground arith) high)
]

module _ (r : Rib) (i : ℕ) (bits : List Bool) (mask path_id : ℕ) where
  unfoldable pub gone_of : Deleted
  gone_of = delete_below bits mask path_id (entry r i)

  -- Whether the entry of the root array is freed.
  abbrev pub freed : Bool
  freed = gone_of.removed && is_empty_leaf gone_of.trie

  -- Nothing is deleted.
  pub delete_entry-none : gone_of.old ≡ none → delete_entry r i bits mask path_id ≡ (r, false)
  unfolding delete_entry gone_of
  delete_entry-none e = rw (e, delete_entry)

  -- The state and the result of a deletion.
  pub record Drops (a : Pointer) : Type 0 where
    pub root :
        (delete_entry r i bits mask path_id).0.root
        ≡ set r.root i (if freed then nil else gone_of.trie)
    pub table : (delete_entry r i bits mask path_id).0.table ≡ release r.table a
    pub count :
        (delete_entry r i bits mask path_id).0.count
        ≡ (if gone_of.removed then sub64 r.count 1 else r.count)
    pub path_count : (delete_entry r i bits mask path_id).0.path_count ≡ sub64 r.path_count 1
    pub node_count : (delete_entry r i bits mask path_id).0.node_count ≡ (
        if gone_of.removed
        then if is_empty_leaf gone_of.trie
          then sub64 (sub64 r.node_count gone_of.pruned) 1
          else sub64 r.node_count gone_of.pruned
        else r.node_count)
    pub masks :
        (m : ℕ)
        → (delete_entry r i bits mask path_id).0.masks m ≡ (
            if gone_of.removed then set_mask r.masks mask (sub64 (r.masks mask) 1) m else r.masks m)
    pub result : (delete_entry r i bits mask path_id).1 ≡ gone_of.removed

  pub delete_entry-Drops : (a : Pointer) → gone_of.old ≡ some a → Drops a
  unfolding delete_entry gone_of
  delete_entry-Drops a e = ground arith
