-- ===== src/Ipv6/Walking.antt =====
-- What the walkers find in an IPv6 RIB after any sequence of operations.
use routing_table.Prelude.{List, arith}
use routing_table.AttrTable.{AttrTable}
use routing_table.AttrTable.Insertion as Table
use routing_table.Family.{ipv6_family}
use routing_table.Tally.{MapOrder}
use routing_table.Ipv6.Methods.{all_prefixes}
use routing_table.Walkers.Listing.{Lists, all_prefixes-Lists}
use routing_table.Walkers.Shallow.{IsShallow, IsShallow-Rule, new_rib-IsShallow}
use routing_table.Ipv6.{new_ipv6_rib}
use routing_table.Ipv6.Runs.{Op, run, run-keeps}

module _ (order : MapOrder) (table : AttrTable) (ops : List Op) (valid : Table.IsValid table) where
  -- From a new IPv6 RIB over a valid attribute table, any sequence of Insert, InsertBatch, Delete,
  -- DeleteBatch, MarkAllStale, DeleteStaleRoutes and Reset leaves a RIB of 32 entries that is
  -- valid, in which every prefix with a path is below one of the first 32 entries and has a mask
  -- of at most 48.
  pub run_v6-IsShallow : IsShallow ipv6_family 32 32 (run order (new_ipv6_rib table) ops)
  unfolding new_ipv6_rib
  run_v6-IsShallow =
      run-keeps order (λ k r. IsShallow ipv6_family 32 32 r)
        (IsShallow-Rule ipv6_family 32 32 order (omega arith)) 0 (new_ipv6_rib table) ops
        (new_rib-IsShallow ipv6_family 32 32 table valid)

  -- From a new IPv6 RIB over a valid attribute table, after any sequence of Insert, InsertBatch,
  -- Delete, DeleteBatch, MarkAllStale, DeleteStaleRoutes and Reset, AllPrefixes lists exactly the
  -- prefixes that have a path, and as many as Count returns, modulo 2^64.
  pub run_v6-Lists :
      Lists ipv6_family
        (run order (new_ipv6_rib table) ops)
        (all_prefixes (run order (new_ipv6_rib table) ops))
  run_v6-Lists =
      all_prefixes-Lists ipv6_family 32 32 (run order (new_ipv6_rib table) ops) run_v6-IsShallow
