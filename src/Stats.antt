-- ===== src/Stats.antt =====
-- The counters that ipv4.go and ipv6.go give out, Reset, MemoryUsage, and router.go.
pub mod Resetting
use routing_table.Prelude.{ℕ, ◌+◌, ◌*◌, ◌%◌, ◌^◌, List, [], ◌∷◌, ◌++◌, length, replicate}
use routing_table.Prelude.Word.{word_mod, add64}
use routing_table.AttrTable.{len, get_stats}
use routing_table.Trie.{Trie, nil}
use routing_table.Tally.{MapOrder, release_tree}
use routing_table.Rib.{Rib}

-- Count, PathCount, AttributeCount and GetSubnets of a RIB that a constructor made.
unfoldable pub count_prefixes : Rib → ℕ
count_prefixes r = r.count

unfoldable pub path_count : Rib → ℕ
path_count r = r.path_count

unfoldable pub attribute_count : Rib → ℕ
attribute_count r = len r.table

unfoldable pub get_subnets : Rib → ℕ → ℕ
get_subnets r m = r.masks m

-- Reset, with the number of entries of the root array.
unfoldable pub reset : MapOrder → ℕ → Rib → Rib
reset order entries r = record {
  root = replicate entries nil;
  table = release_tree order r.table r.root;
  count = 0;
  path_count = 0;
  node_count = 0;
  masks = λ m. 0;
}

-- `MemoryStats`
pub record MemoryStats : Type 0 where
  pub routing_tables_effective : ℕ
  pub routing_tables_overhead : ℕ
  pub route_attributes_effective : ℕ
  pub route_attributes_overhead : ℕ

-- MemoryUsage; the sizes of the two structs are the compiler's, that of the root array is the RIB's.
unfoldable pub memory_usage : ℕ → ℕ → ℕ → Rib → MemoryStats
memory_usage node_size route_attr_size root_size r =
    let stats = get_stats r.table in
    record {
      routing_tables_effective = r.node_count * node_size % word_mod;
      routing_tables_overhead = root_size;
      route_attributes_effective = (stats.0 * route_attr_size + stats.1) % word_mod;
      route_attributes_overhead = stats.0 * 48 % word_mod;
    }

-- router.go: `router` and its methods.
pub record Router : Type 0 where
  pub v4_ribs : List Rib
  pub v6_ribs : List Rib

abbrev pub get_new_router : Router
get_new_router = record { v4_ribs = []; v6_ribs = [] }

unfoldable pub router_size : Router → ℕ
router_size r = length r.v4_ribs + length r.v6_ribs

unfoldable pub add_ipv4_rib : Router → Rib → Router
add_ipv4_rib r rib = record r { v4_ribs = r.v4_ribs ++ (rib ∷ []) }

unfoldable pub add_ipv6_rib : Router → Rib → Router
add_ipv6_rib r rib = record r { v6_ribs = r.v6_ribs ++ (rib ∷ []) }
