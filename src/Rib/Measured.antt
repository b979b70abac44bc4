-- ===== src/Rib/Measured.antt =====
-- The counters of the attribute table, as a property that all operations of a RIB keep.
use routing_table.Prelude.{
  ℕ, ◌-◌, ◌≤◌, ◌<◌, Bool, false, Option, none, some, List, length, take, arith, Option-cases, inl,
  inr,
}
use routing_table.Attrs.{Pointer}
use routing_table.AttrTable.{AttrTable, get_or_insert}
use routing_table.AttrTable.Insertion as Table
use routing_table.AttrTable.Accounted.{
  IsAccounted, get_or_insert-IsAccounted, release-IsAccounted, release_n-IsAccounted,
}
use routing_table.Node.{set_path}
use routing_table.Trie.{make}
use routing_table.Trie.Reads.{node_at}
use routing_table.Family.{Family}
use routing_table.Tally.{MapOrder, release_tree, release_tally}
use routing_table.Stats.{reset}
use routing_table.Sweep.{delete_stale_routes}
use routing_table.Rib.{Rib, new_rib, entry, delete_entry, delete_below}
use routing_table.Rib.Fields as Fields
use routing_table.Rib.Fields.{release_old, delete_entry-none, delete_entry-Drops}
use routing_table.Rib.Inserting.{insert_entry-table}
use routing_table.Rib.Sized.{IsSized, new_rib-IsSized}
use routing_table.Rib.Marking.{marked_table}
use routing_table.Rib.Rules.{Rule}
use routing_table.Rib.Kept.{IsSized-Rule}

-- A RIB of so many entries that is valid, over a table whose counters are right.
pub record IsMeasured (entries : ℕ) (r : Rib) : Type 0 where
  pub sized : IsSized entries r
  pub table : IsAccounted r.table

release_old-IsAccounted :
    (at : AttrTable) (old : Option Pointer) → IsAccounted at → IsAccounted (release_old at old)
release_old-IsAccounted at none a = a
release_old-IsAccounted at (some p) a = release-IsAccounted at p a

delete_entry-IsAccounted :
    (r : Rib) (i : ℕ) (bits : List Bool) (mask path_id : ℕ)
    → IsAccounted r.table
    → IsAccounted (delete_entry r i bits mask path_id).0.table
unfolding Fields.gone_of
delete_entry-IsAccounted r i bits mask path_id a =
    elim (Option-cases (delete_below bits mask path_id (entry r i)).old) [
      | inl e ↦ rw (delete_entry-none r i bits mask path_id e) a
      | inr (p, e) ↦
          rw (delete_entry-Drops r i bits mask path_id p e).table (release-IsAccounted r.table p a)
    ]

module _ (fam : Family) (visited entries : ℕ) (order : MapOrder)
    (all_inside : visited ≤ entries) where
  pub IsMeasured-Rule : Rule fam visited entries order (λ k r. IsMeasured entries r)
  unfolding reset release_tree delete_stale_routes release_tally
  IsMeasured-Rule =
      let sized = IsSized-Rule fam visited entries order all_inside in
      record {
        weaker = λ k r s. s;
        inserted = λ k r i bits mask path_id given inside low limit high s. record {
          sized = sized.inserted k r i bits mask path_id given inside low limit high s.sized;
          table =
              let within : i < length r.root = omega (arith, s.sized.entries) in
              rw (insert_entry-table r i bits mask path_id given s.sized.valid within low high) (
                release_old-IsAccounted (get_or_insert r.table given).0
                  (set_path (node_at (take (mask - 8) bits) (make (entry r i)).0) path_id
                    (get_or_insert r.table given).1 false).1
                  (get_or_insert-IsAccounted r.table given s.table));
        };
        deleted = λ k r i bits mask path_id inside low limit high s. record {
          sized = sized.deleted k r i bits mask path_id inside low limit high s.sized;
          table = delete_entry-IsAccounted r i bits mask path_id s.table;
        };
        marked = λ k r s. record {
          sized = sized.marked k r s.sized;
          table = rw (marked_table r) s.table;
        };
        swept = λ k r s. record {
          sized = sized.swept k r s.sized;
          table = release_n-IsAccounted r.table _ s.table;
        };
        flushed = λ k r s. record {
          sized = sized.flushed k r s.sized;
          table = release_n-IsAccounted r.table _ s.table;
        };
      }

pub new_rib-IsMeasured :
    (entries : ℕ) (table : AttrTable)
    → Table.IsValid table
    → IsAccounted table
    → IsMeasured entries (new_rib entries table)
unfolding new_rib
new_rib-IsMeasured entries table valid a = record {
  sized = new_rib-IsSized entries table valid;
  table = a;
}
