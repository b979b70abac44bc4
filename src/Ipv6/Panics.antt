-- ===== src/Ipv6/Panics.antt =====
-- AllPathsSearch of ipv6.go against Search, which has a guard on the first byte.
use routing_table.Prelude.{ℕ, ◌<◌, ◌≡◌, true, false, none, List, get_or, arith}
use routing_table.Attrs.{v6}
use routing_table.Outcome.{ok, panic}
use routing_table.Rib.{Rib, entry, all_paths_search_entry}
use routing_table.Ipv6.{
  search, walk_bits, index, all_paths_search, not_global, search_octets, all_paths_octets,
}

pub ok_inside :
    (r : Rib) (octets : List ℕ)
    → get_or octets 0 0 < 256
    → not_global octets ≡ false
    → all_paths_octets r (v6 octets) octets
      ≡ ok (
          all_paths_search_entry r.table.store
            (walk_bits octets)
            (v6 octets)
            (entry r (index octets)))
unfolding all_paths_octets
ok_inside r octets h g = ground arith

-- For an IPv6 address whose first byte is a byte outside 0x20 to 0x3F, Search returns nil and
-- AllPathsSearch panics.
pub all_paths_search_panic :
    (r : Rib) (octets : List ℕ)
    → get_or octets 0 0 < 256
    → not_global octets ≡ true
    → (search r (v6 octets) ≡ none) × (all_paths_search r (v6 octets) ≡ panic)
unfolding search all_paths_search search_octets all_paths_octets
all_paths_search_panic r octets h g = (ground arith, ground arith)
