-- ===== src/Rib/Kept.antt =====
-- The invariant of a RIB and the reference counts of its table, as properties that all operations
-- keep.
use routing_table.Prelude.{
  ℕ, suc, ◌+◌, ◌-◌, ◌≤◌, ◌<◌, ◌^◌, ◌≡◌, refl, sym, ◌∙◌, Bool, false, Option, some, List, length,
  take, arith, Option-cases, inl, inr,
}
use routing_table.Attrs.{RouteAttributes, Pointer}
use routing_table.Node.{Node, paths_count, delete_path}
use routing_table.AttrTable.{AttrTable}
use routing_table.AttrTable.Counted.{IsCounted, IsCounted-same}
use routing_table.AttrTable.Insertion as Table
use routing_table.Rib.Valid.{root_total-replicate}
use routing_table.Tally.Amounts.{refs_here}
use routing_table.Trie.Reads.{node_at}
use routing_table.Family.{Family}
use routing_table.Tally.{MapOrder}
use routing_table.Tally.Amounts.{IsLoop}
use routing_table.Stats.Resetting.{reset-IsSized, reset-IsHeld, reset-paths}
use routing_table.Sweep.Whole.{delete_stale_routes-IsSized}
use routing_table.Sweep.References.{delete_stale_routes-total, delete_stale_routes-IsHeld}
use routing_table.Rib.{Rib, new_rib, entry, insert_entry, delete_entry, delete_below}
use routing_table.Rib.Fields as Fields
use routing_table.Rib.Fields.{delete_entry-none}
use routing_table.Rib.State.{root_total, paths_here}
use routing_table.Rib.Sized.{IsSized, new_rib-IsSized, insert_entry-IsSized, delete_entry-IsSized}
use routing_table.Rib.Inserting as Inserting
use routing_table.Rib.Deleting as Deleting
use routing_table.Rib.Marking.{mark_all_stale-IsSized, mark_all_stale-paths, mark_all_stale-IsHeld}
use routing_table.Rib.Holding.{IsHeld, insert_entry-IsHeld, delete_entry-IsHeld}
use routing_table.Rib.Rules.{Rule}

module _ (r : Rib) (n i : ℕ) (bits : List Bool) (mask path_id : ℕ) (sized : IsSized n r)
    (inside : i < n) (low : 8 ≤ mask) (high : mask < 9 + length bits) where
  within : i < length r.root
  within = rw sized.entries inside

  insert_entry-paths :
      (given : Option RouteAttributes)
      → root_total paths_here (insert_entry r i bits mask path_id given).0.root
        ≤ suc (root_total paths_here r.root)
  insert_entry-paths given =
      let sum =
        Inserting.insert_entry-total r i bits mask path_id given sized.valid within low high
          paths_here (λ e. unfold paths_count in refl) in
      let changed = Inserting.changed r i bits mask path_id given sized.valid within low high in
      ground (arith, sum, changed.counted)

  delete_entry-paths :
      root_total paths_here (delete_entry r i bits mask path_id).0.root
      ≤ root_total paths_here r.root
  unfolding Fields.gone_of
  delete_entry-paths = elim (Option-cases (delete_below bits mask path_id (entry r i)).old) [
    | inl e ↦ rw (delete_entry-none r i bits mask path_id e) (omega arith)
    | inr (a, e) ↦
        let sum =
          Deleting.delete_entry-total r i bits mask path_id sized.valid within low high a e
            paths_here (λ d n h. no_paths n h) in
        let changed = Deleting.changed r i bits mask path_id sized.valid within low high in
        let removes = Deleting.removes r i bits mask path_id sized.valid within low high in
        let back : (delete_path (node_at (take (mask - 8) bits) (entry r i)) path_id).1 ≡ some a =
          sym removes.old ∙ e in
        omega (arith, sum, rw back at changed.counted)
  ]
    where
      no_paths : (n : Node) → n.has_path ≡ false → paths_count n ≡ 0
      no_paths n h = unfold paths_count in rw h

-- At most k paths, and the counts right as long as they fit.
pub record IsReferenced (entries : ℕ) (others : Pointer → ℕ) (k : ℕ) (r : Rib) : Type 0 where
  pub sized : IsSized entries r
  pub few : root_total paths_here r.root ≤ k
  pub held : ((q : Pointer) → k + others q < 2 ^ 32) → IsHeld others r

module _ (fam : Family) (visited entries : ℕ) (order : MapOrder)
    (all_inside : visited ≤ entries) where
  -- The invariant, for every order in which maps are read.
  pub IsSized-Rule : Rule fam visited entries order (λ k r. IsSized entries r)
  IsSized-Rule = record {
    weaker = λ k r s. s;
    inserted = λ k r i bits mask path_id given inside low limit high s.
        insert_entry-IsSized entries r i bits mask path_id s (omega arith) low high given;
    deleted = λ k r i bits mask path_id inside low limit high s.
        delete_entry-IsSized entries r i bits mask path_id s inside low high;
    marked = λ k r s. mark_all_stale-IsSized entries r s;
    swept = λ k r s. delete_stale_routes-IsSized order fam entries r s;
    flushed = λ k r s. reset-IsSized order entries r s.valid;
  }

  -- The reference counts, where a loop over a map goes through each entry once.
  pub IsReferenced-Rule :
      (others : Pointer → ℕ)
      → IsLoop order
      → Rule fam visited entries order (IsReferenced entries others)
  IsReferenced-Rule others loop = record {
    weaker = λ k r s. record {
      sized = s.sized;
      few = omega (arith, s.few);
      held = λ room. s.held (λ q. omega (arith, room q));
    };
    inserted = λ k r i bits mask path_id given inside low limit high s. record {
      sized = IsSized-Rule.inserted k r i bits mask path_id given inside low limit high s.sized;
      few = omega (
        arith,
        s.few,
        insert_entry-paths r entries i bits mask path_id s.sized (omega arith) low high given,
      );
      held = λ room.
          insert_entry-IsHeld r i bits mask path_id others s.sized.valid
            (s.held (λ q. omega (arith, room q)))
            (within r entries i bits mask path_id s.sized (omega arith) low high) low high given
            (λ q. omega (arith, room q, s.few));
    };
    deleted = λ k r i bits mask path_id inside low limit high s. record {
      sized = IsSized-Rule.deleted k r i bits mask path_id inside low limit high s.sized;
      few =
          omega (
            arith,
            s.few,
            delete_entry-paths r entries i bits mask path_id s.sized inside low high,
          );
      held = λ room.
          delete_entry-IsHeld r i bits mask path_id others s.sized.valid (s.held room)
            (within r entries i bits mask path_id s.sized inside low high) low high;
    };
    marked = λ k r s. record {
      sized = IsSized-Rule.marked k r s.sized;
      few = omega (arith, s.few, mark_all_stale-paths r);
      held = λ room. mark_all_stale-IsHeld others r (s.held room);
    };
    swept = λ k r s. record {
      sized = IsSized-Rule.swept k r s.sized;
      few = omega (arith, s.few, delete_stale_routes-total order fam r s.sized.valid);
      held = λ room. delete_stale_routes-IsHeld order fam r s.sized.valid others loop (s.held room);
    };
    flushed = λ k r s. record {
      sized = IsSized-Rule.flushed k r s.sized;
      few = omega (arith, reset-paths order entries r s.sized.valid);
      held = λ room. reset-IsHeld order entries r s.sized.valid others loop (s.held room);
    };
  }

-- A new RIB over a table that counts only the references of others.
pub new_rib-IsReferenced :
    (entries : ℕ) (table : AttrTable) (others : Pointer → ℕ)
    → Table.IsValid table
    → IsCounted table others
    → IsReferenced entries others 0 (new_rib entries table)
unfolding new_rib
new_rib-IsReferenced entries table others valid counted = record {
  sized = new_rib-IsSized entries table valid;
  few = omega (arith, root_total-replicate paths_here entries);
  held = λ room.
      IsCounted-same table others _ (λ q. omega (arith, root_total-replicate (refs_here q) entries))
        counted;
}
