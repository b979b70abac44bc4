-- ===== src/Ipv4/Accounts.antt =====
-- The counters of the attribute table after any sequence of operations of the IPv4 RIB.
use routing_table.Prelude.{List, All, arith}
use routing_table.AttrTable.{AttrTable}
use routing_table.AttrTable.Insertion as Table
use routing_table.AttrTable.Accounted.{IsAccounted}
use routing_table.Family.{ipv4_family}
use routing_table.Tally.{MapOrder}
use routing_table.Rib.Measured.{IsMeasured, IsMeasured-Rule, new_rib-IsMeasured}
use routing_table.Ipv4.{new_ipv4_rib}
use routing_table.Ipv4.Runs.{Op, OfBytes, run, run-keeps}

-- From a new IPv4 RIB over a valid attribute table whose counters are right, any sequence of
-- Insert, InsertBatch, Delete, DeleteBatch, MarkAllStale, DeleteStaleRoutes and Reset whose
-- prefixes start with a byte keeps them right: attrCount is the number of objects in the table and
-- sliceBytes the bytes that they own, modulo 2^64.
pub run-IsAccounted :
    (order : MapOrder) (table : AttrTable) (ops : List Op)
    → Table.IsValid table
    → IsAccounted table
    → All OfBytes ops
    → IsAccounted (run order (new_ipv4_rib table) ops).table
unfolding new_ipv4_rib
run-IsAccounted order table ops valid accounted bytes =
    (run-keeps order (λ k r. IsMeasured 256 r)
      (IsMeasured-Rule ipv4_family 224 256 order (omega arith)) 0 (new_ipv4_rib table) ops bytes
      (new_rib-IsMeasured 256 table valid accounted)).table
