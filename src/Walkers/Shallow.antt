-- ===== src/Walkers/Shallow.antt =====
-- Where the paths of a RIB are: in the entries and at the depths that the walkers visit.
use routing_table.Prelude.{
  ℕ, ◌+◌, ◌-◌, ◌≤◌, ◌<◌, ◌≡◌, ap, Bool, ◌&&◌, Option, List, length, take, length-take,
  get_or-replicate, ◌==◌, ==_iff, arith, Bool-cases, inl, inr,
}
use routing_table.Attrs.{RouteAttributes, PathEntry}
use routing_table.Node.{all_paths}
use routing_table.Node.Paths.{remove}
use routing_table.Node.Remove.{remove-length}
use routing_table.Trie.{nil}
use routing_table.Trie.Reads.{node_at, same_bits, same_bits-eq}
use routing_table.Family.{Family}
use routing_table.Tally.{MapOrder, release_tree}
use routing_table.AttrTable.{AttrTable}
use routing_table.AttrTable.Insertion as Table
use routing_table.AttrTable.Release.{release_n-Keeps}
use routing_table.Stats.Resetting.{reset-new_rib}
use routing_table.Sweep.Sums.{length-live}
use routing_table.Sweep.Whole.{delete_stale_routes-view}
use routing_table.Rib.{Rib, new_rib, insert_entry, delete_entry}
use routing_table.Rib.Sized.{IsSized, new_rib-IsSized, insert_entry-IsSized, delete_entry-IsSized}
use routing_table.Rib.View.{view, at_key, insert_entry-view, delete_entry-view}
use routing_table.Rib.Marking.{mark_all_stale-length}
use routing_table.Rib.Rules.{Rule}
use routing_table.Rib.Kept.{IsSized-Rule}

-- Every prefix that has a path is below one of the first `visited` entries, and its mask is at most
-- the limit.
pub record IsShallow (fam : Family) (visited entries : ℕ) (r : Rib) : Type 0 where
  pub sized : IsSized entries r
  pub shallow :
      (j : ℕ) (q : List Bool) → 1 ≤ length (view r j q) → (j < visited) × (8 + length q ≤ fam.limit)

-- A list of paths replaced at one key.
at_key-shallow :
    (visited limit i : ℕ) (key : List Bool) (es : List PathEntry)
    (v : ℕ → List Bool → List PathEntry)
    → (1 ≤ length es → (i < visited) × (8 + length key ≤ limit))
    → ((j : ℕ) (q : List Bool) → 1 ≤ length (v j q) → (j < visited) × (8 + length q ≤ limit))
    → (j : ℕ) (q : List Bool) → 1 ≤ length (at_key i key es v j q)
    → (j < visited) × (8 + length q ≤ limit)
at_key-shallow visited limit i key es v here there j q h =
    elim (Bool-cases (i == j && same_bits q key)) [
      | inl e ↦
          let one : i ≡ j = (==_iff i j).0 (ground arith) in
          let two : q ≡ key = same_bits-eq q key (ground arith) in
          rw (← one, two) (here (rw e at h))
      | inr e ↦ there j q (rw e at h)
    ]

new_rib-length :
    (n : ℕ) (table : AttrTable) (j : ℕ) (q : List Bool) → length (view (new_rib n table) j q) ≡ 0
unfolding new_rib view node_at all_paths
new_rib-length n table j q = rw (get_or-replicate n j nil)

-- A new RIB has no path.
pub new_rib-IsShallow :
    (fam : Family) (visited entries : ℕ) (table : AttrTable)
    → Table.IsValid table
    → IsShallow fam visited entries (new_rib entries table)
new_rib-IsShallow fam visited entries table valid = record {
  sized = new_rib-IsSized entries table valid;
  shallow = λ j q h. absurd (omega (arith, new_rib-length entries table j q, h));
}

module _ (fam : Family) (visited entries : ℕ) (r : Rib) (i : ℕ) (bits : List Bool)
    (mask path_id : ℕ) (s : IsShallow fam visited entries r) (inside : i < entries) (low : 8 ≤ mask)
    (limit : mask ≤ fam.limit) (high : mask < 9 + length bits) where
  within : i < length r.root
  within = rw s.sized.entries inside

  key-depth : 8 + length (take (mask - 8) bits) ≤ fam.limit
  key-depth = omega (arith, length-take (mask - 8) bits (omega arith))

  insert_entry-IsShallow :
      (given : Option RouteAttributes)
      → i < visited
      → IsShallow fam visited entries (insert_entry r i bits mask path_id given).0
  insert_entry-IsShallow given visit = record {
    sized = insert_entry-IsSized entries r i bits mask path_id s.sized inside low high given;
    shallow = λ j q h.
        at_key-shallow visited fam.limit i (take (mask - 8) bits) _ (view r)
          (λ full. (visit, key-depth)) s.shallow j q
          (rw (insert_entry-view r i bits mask path_id s.sized.valid within low high given j q) at
            h);
  }

  delete_entry-IsShallow : IsShallow fam visited entries (delete_entry r i bits mask path_id).0
  delete_entry-IsShallow =
      let old = view r i (take (mask - 8) bits) in
      record {
        sized = delete_entry-IsSized entries r i bits mask path_id s.sized inside low high;
        shallow = λ j q h.
            at_key-shallow visited fam.limit i (take (mask - 8) bits) (remove old path_id).0
              (view r)
              (λ full.
                s.shallow i (take (mask - 8) bits) (ground (arith, remove-length path_id old)))
              s.shallow j q
              (rw (delete_entry-view r i bits mask path_id s.sized.valid within low high j q) at h);
      }

module _ (fam : Family) (visited entries : ℕ) (order : MapOrder)
    (all_inside : visited ≤ entries) where
  -- All operations keep the paths where the walkers find them.
  pub IsShallow-Rule : Rule fam visited entries order (λ k r. IsShallow fam visited entries r)
  unfolding release_tree
  IsShallow-Rule =
      let sized = IsSized-Rule fam visited entries order all_inside in
      record {
        weaker = λ k r s. s;
        inserted = λ k r i bits mask path_id given inside low limit high s.
            insert_entry-IsShallow fam visited entries r i bits mask path_id s (omega arith) low
              limit high given inside;
        deleted = λ k r i bits mask path_id inside low limit high s.
            delete_entry-IsShallow fam visited entries r i bits mask path_id s inside low limit
              high;
        marked = λ k r s. record {
          sized = sized.marked k r s.sized;
          shallow = λ j q h. s.shallow j q (rw (mark_all_stale-length r j q) at h);
        };
        swept = λ k r s. record {
          sized = sized.swept k r s.sized;
          shallow = λ j q h. s.shallow j q (
              omega (
                arith,
                length-live (view r j q),
                ap length (delete_stale_routes-view order fam r s.sized.valid j q),
                h,
              ));
        };
        flushed = λ k r s. rw (reset-new_rib order entries r s.sized.valid) (
            new_rib-IsShallow fam visited entries _
              (release_n-Keeps r.table _ s.sized.valid.table).valid);
      }
