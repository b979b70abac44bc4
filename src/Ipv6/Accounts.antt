-- ===== src/Ipv6/Accounts.antt =====
-- The counters of the attribute table after any sequence of operations of the IPv6 RIB.
use routing_table.Prelude.{List, arith}
use routing_table.AttrTable.{AttrTable}
use routing_table.AttrTable.Insertion as Table
use routing_table.AttrTable.Accounted.{IsAccounted}
use routing_table.Family.{ipv6_family}
use routing_table.Tally.{MapOrder}
use routing_table.Rib.Measured.{IsMeasured, IsMeasured-Rule, new_rib-IsMeasured}
use routing_table.Ipv6.{new_ipv6_rib}
use routing_table.Ipv6.Runs.{Op, run, run-keeps}

-- From a new IPv6 RIB over a valid attribute table whose counters are right, any sequence of
-- Insert, InsertBatch, Delete, DeleteBatch, MarkAllStale, DeleteStaleRoutes and Reset keeps them
-- right: attrCount is the number of objects in the table and sliceBytes the bytes that they own,
-- modulo 2^64.
pub run_v6-IsAccounted :
    (order : MapOrder) (table : AttrTable) (ops : List Op)
    → Table.IsValid table
    → IsAccounted table
    → IsAccounted (run order (new_ipv6_rib table) ops).table
unfolding new_ipv6_rib
run_v6-IsAccounted order table ops valid accounted =
    (run-keeps order (λ k r. IsMeasured 32 r)
      (IsMeasured-Rule ipv6_family 32 32 order (omega arith)) 0 (new_ipv6_rib table) ops
      (new_rib-IsMeasured 32 table valid accounted)).table
