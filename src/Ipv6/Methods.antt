-- ===== src/Ipv6/Methods.antt =====
-- The methods of IPv6Rib that go through the whole RIB, and its counters.
use routing_table.Prelude.{ℕ, Bool, List}
use routing_table.Attrs.{LargeCommunity, IpPrefix, Route}
use routing_table.Family.{ipv6_family}
use routing_table.Tally.{MapOrder}
use routing_table.Rib.{Rib}
use routing_table.Rib as Rib
use routing_table.Stats as Stats
use routing_table.Stats.{MemoryStats}
use routing_table.Sweep as Sweep
use routing_table.Walkers as Walkers

-- The root array has 32 entries, of which the walkers visit all.
abbrev pub mark_all_stale : Rib → Rib
mark_all_stale = Rib.mark_all_stale

abbrev pub delete_stale_routes : MapOrder → Rib → Rib × List IpPrefix
delete_stale_routes order = Sweep.delete_stale_routes order ipv6_family

abbrev pub reset : MapOrder → Rib → Rib
reset order = Stats.reset order 32

abbrev pub count_prefixes : Rib → ℕ
count_prefixes = Stats.count_prefixes

abbrev pub path_count : Rib → ℕ
path_count = Stats.path_count

abbrev pub attribute_count : Rib → ℕ
attribute_count = Stats.attribute_count

abbrev pub get_subnets : Rib → ℕ → ℕ
get_subnets = Stats.get_subnets

-- With the sizes of a node and of an attributes object.
abbrev pub memory_usage : ℕ → ℕ → Rib → MemoryStats
memory_usage node_size route_attr_size = Stats.memory_usage node_size route_attr_size 256

abbrev pub all_prefixes : Rib → List IpPrefix
all_prefixes = Walkers.all_prefixes ipv6_family 32

abbrev pub prefixes_by_origin_asn : Rib → ℕ → List Route
prefixes_by_origin_asn = Walkers.prefixes_by_origin_asn ipv6_family 32

abbrev pub prefixes_by_as_path_regex : (List ℕ → Bool) → Rib → List Route
prefixes_by_as_path_regex match_string =
    Walkers.prefixes_by_as_path_regex match_string ipv6_family 32

abbrev pub prefixes_by_community : Rib → ℕ → List Route
prefixes_by_community = Walkers.prefixes_by_community ipv6_family 32

abbrev pub prefixes_by_large_community : Rib → LargeCommunity → List Route
prefixes_by_large_community = Walkers.prefixes_by_large_community ipv6_family 32
