-- ===== src/Rib/Sized.antt =====
-- The invariant of a RIB with the number of entries of its root array.
use routing_table.Prelude.{
  ℕ, ◌+◌, ◌≤◌, ◌≡◌, ◌<◌, Bool, Option, List, ◌∙◌, length, length-set, length-replicate, inl, inr,
  Option-cases,
}
use routing_table.Attrs.{RouteAttributes}
use routing_table.AttrTable.{AttrTable}
use routing_table.AttrTable.Insertion as Table
use routing_table.Rib.{Rib, new_rib, insert_entry, delete_entry}
use routing_table.Rib.Fields.{gone_of, insert_entry-Inserts, delete_entry-none, delete_entry-Drops}
use routing_table.Rib.Valid.{IsValid, new_rib-IsValid}
use routing_table.Rib.Inserting.{reached, insert_entry-IsValid}
use routing_table.Rib.Deleting.{delete_entry-IsValid}

-- A valid RIB whose root array has this many entries.
pub record IsSized (n : ℕ) (r : Rib) : Type 0 where
  pub valid : IsValid r
  pub entries : length r.root ≡ n

pub new_rib-IsSized :
    (n : ℕ) (table : AttrTable) → Table.IsValid table → IsSized n (new_rib n table)
unfolding new_rib
new_rib-IsSized n table valid = record {
  valid = new_rib-IsValid n table valid;
  entries = length-replicate n _;
}

module _ (n : ℕ) (r : Rib) (i : ℕ) (bits : List Bool) (mask path_id : ℕ) (sized : IsSized n r)
    (inside : i < n) (low : 8 ≤ mask) (high : mask < 9 + length bits) where
  within : i < length r.root
  within = rw sized.entries inside

  pub insert_entry-IsSized :
      (given : Option RouteAttributes) → IsSized n (insert_entry r i bits mask path_id given).0
  insert_entry-IsSized given = record {
    valid = insert_entry-IsValid r i bits mask path_id given sized.valid within low high;
    entries =
        let fields =
          insert_entry-Inserts r i bits mask path_id given
            (reached r i bits mask path_id given sized.valid within low high) in
        rw fields.root (length-set r.root i _ ∙ sized.entries);
  }

  pub delete_entry-IsSized : IsSized n (delete_entry r i bits mask path_id).0
  delete_entry-IsSized = record {
    valid = delete_entry-IsValid r i bits mask path_id sized.valid within low high;
    entries = elim (Option-cases (gone_of r i bits mask path_id).old) [
      | inl e ↦ rw (delete_entry-none r i bits mask path_id e) sized.entries
      | inr (a, e) ↦
          rw (delete_entry-Drops r i bits mask path_id a e).root
            (length-set r.root i _ ∙ sized.entries)
    ];
  }
