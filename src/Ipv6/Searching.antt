-- ===== src/Ipv6/Searching.antt =====
-- Search and AllPathsSearch of ipv6.go and the longest match.
use routing_table.Prelude.{ℕ, ◌≡◌, ◌<◌, false, none, List, [], get_or, if_false}
use routing_table.Attrs.{v6, Route}
use routing_table.Attrs.Prefix.{prefix_from}
use routing_table.Outcome.{ok}
use routing_table.Select.{node_to_routes}
use routing_table.Ipv6.Panics.{ok_inside}
use routing_table.Rib.{Rib, entry, best_route, search_entry}
use routing_table.Rib.Valid.{IsValid}
use routing_table.Rib.LongestMatch.{Finds, search_entry-Finds, all_paths_search_entry-Finds}
use routing_table.Ipv6.{walk_bits, search, all_paths_search, search_octets, not_global, index}

-- On a valid RIB, Search of an IPv6 address whose first byte is 0x20 to 0x3F returns the best route
-- of the longest prefix of the address, of 8 to 48 bits, whose node has a path, and nil where no
-- prefix of the address has one.
pub search_v6-Finds :
    (r : Rib) (octets : List ℕ)
    → IsValid r
    → not_global octets ≡ false
    → Finds none
        (λ len n. best_route r.table.store (prefix_from (v6 octets) len) n)
        (walk_bits octets)
        (entry r (index octets))
        (search r (v6 octets))
unfolding search search_octets
search_v6-Finds r octets valid g =
    rw
      (if_false none
        (search_entry r.table.store (walk_bits octets) (v6 octets) (entry r (index octets))) g)
      (search_entry-Finds r.table.store (walk_bits octets) (v6 octets) (entry r (index octets))
        (valid.nodes (index octets)))

-- AllPathsSearch of an IPv6 address whose first byte is 0x20 to 0x3F does not panic, and returns
-- all routes of the longest prefix of the address, of 8 to 48 bits, whose node has a path, and nil
-- where no prefix of the address has one.
pub all_paths_search_v6-Finds :
    (r : Rib) (octets : List ℕ)
    → get_or octets 0 0 < 256
    → not_global octets ≡ false
    → (l : List Route) × (all_paths_search r (v6 octets) ≡ ok l)
      × Finds []
          (λ len n. node_to_routes r.table.store n (prefix_from (v6 octets) len))
          (walk_bits octets)
          (entry r (index octets))
          l
unfolding all_paths_search
all_paths_search_v6-Finds r octets h g = (
  _,
  ok_inside r octets h g,
  all_paths_search_entry-Finds r.table.store (walk_bits octets) (v6 octets)
      (entry r (index octets)),
)
