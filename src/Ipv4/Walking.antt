-- ===== src/Ipv4/Walking.antt =====
-- What the walkers find in an IPv4 RIB after any sequence of operations.
use routing_table.Prelude.{List, All, arith}
use routing_table.AttrTable.{AttrTable}
use routing_table.AttrTable.Insertion as Table
use routing_table.Family.{ipv4_family}
use routing_table.Tally.{MapOrder}
use routing_table.Ipv4.Methods.{all_prefixes}
use routing_table.Walkers.Listing.{Lists, all_prefixes-Lists}
use routing_table.Walkers.Shallow.{IsShallow, IsShallow-Rule, new_rib-IsShallow}
use routing_table.Ipv4.{new_ipv4_rib}
use routing_table.Ipv4.Runs.{Op, OfBytes, run, run-keeps}

module _ (order : MapOrder) (table : AttrTable) (ops : List Op) (valid : Table.IsValid table)
    (bytes : All OfBytes ops) where
  -- From a new IPv4 RIB over a valid attribute table, any sequence of Insert, InsertBatch, Delete,
  -- DeleteBatch, MarkAllStale, DeleteStaleRoutes and Reset whose prefixes start with a byte leaves
  -- a RIB of 256 entries that is valid, in which every prefix with a path is below one of the
  -- first 224 entries and has a mask of at most 24.
  pub run-IsShallow : IsShallow ipv4_family 224 256 (run order (new_ipv4_rib table) ops)
  unfolding new_ipv4_rib
  run-IsShallow =
      run-keeps order (λ k r. IsShallow ipv4_family 224 256 r)
        (IsShallow-Rule ipv4_family 224 256 order (omega arith)) 0 (new_ipv4_rib table) ops bytes
        (new_rib-IsShallow ipv4_family 224 256 table valid)

  -- From a new IPv4 RIB over a valid attribute table, after any sequence of Insert, InsertBatch,
  -- Delete, DeleteBatch, MarkAllStale, DeleteStaleRoutes and Reset whose prefixes start with a
  -- byte, AllPrefixes lists exactly the prefixes that have a path, and as many as Count returns,
  -- modulo 2^64.
  pub run-Lists :
      Lists ipv4_family
        (run order (new_ipv4_rib table) ops)
        (all_prefixes (run order (new_ipv4_rib table) ops))
  run-Lists =
      all_prefixes-Lists ipv4_family 224 256 (run order (new_ipv4_rib table) ops) run-IsShallow
