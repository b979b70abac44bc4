-- ===== src/Ipv4/Searching.antt =====
-- Search and AllPathsSearch of ipv4.go and the longest match.
use routing_table.Prelude.{ℕ, ◌≡◌, refl, Option, none, List, [], get_or}
use routing_table.Attrs.{v4, Route}
use routing_table.Attrs.Prefix.{prefix_from}
use routing_table.Outcome.{ok}
use routing_table.Select.{node_to_routes}
use routing_table.Rib.{Rib, entry, best_route}
use routing_table.Rib.Valid.{IsValid}
use routing_table.Rib.LongestMatch.{Finds, search_entry-Finds, all_paths_search_entry-Finds}
use routing_table.Ipv4.{walk_bits, search, all_paths_search}

-- On a valid RIB, Search and AllPathsSearch of an IPv4 address return: Search the best route, and
-- AllPathsSearch all routes, of the longest prefix of the address, of 8 to 24 bits, whose node has
-- a path; and both nil where no prefix of the address has one.
pub search-Finds :
    (r : Rib) (octets : List ℕ)
    → IsValid r
    → ((x : Option Route) × (search r (v4 octets) ≡ ok x)
        × Finds none
            (λ len n. best_route r.table.store (prefix_from (v4 octets) len) n)
            (walk_bits octets)
            (entry r (get_or octets 0 0))
            x)
      × ((l : List Route) × (all_paths_search r (v4 octets) ≡ ok l)
          × Finds []
              (λ len n. node_to_routes r.table.store n (prefix_from (v4 octets) len))
              (walk_bits octets)
              (entry r (get_or octets 0 0))
              l)
unfolding search all_paths_search
search-Finds r octets valid =
    let t = entry r (get_or octets 0 0) in
    (
      (
        _,
        refl,
        search_entry-Finds r.table.store (walk_bits octets) (v4 octets) t
            (valid.nodes (get_or octets 0 0)),
      ),
      (_, refl, all_paths_search_entry-Finds r.table.store (walk_bits octets) (v4 octets) t),
    )
