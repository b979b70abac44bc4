-- ===== src/Tests/PlacesV6.antt =====
-- The IPv6 RIB: a prefix that is listed, and one that DeleteStaleRoutes returns, read by AllPaths.
use routing_table.Prelude.{◌≤◌, ◌≡◌, refl, List, [], ◌∷◌, Has, inl, length}
use routing_table.AttrTable.{new_attr_table}
use routing_table.AttrTable.Insertion.{new_attr_table-IsValid}
use routing_table.Rib.{Rib}
use routing_table.Family.{ipv6_family}
use routing_table.Walkers.Shallow.{IsShallow}
use routing_table.Ipv6 as Ipv6
use routing_table.Sweep as Sweep
use routing_table.Sweep.{sweep_roots, delete_stale_from_node}
use routing_table.Walkers as Walkers
use routing_table.Walkers.{collect_prefixes}
use routing_table.Rib.{new_rib, insert_entry, mark_all_stale, mark_node_stale}
use routing_table.Trie.{insert_walk, put_here}
use routing_table.Node.{
  set_path, mark_paths_stale, delete_stale_paths, delete_path, first_stale_path_id, paths_count,
}
use routing_table.Family.{next_addr}
use routing_table.Attrs.Prefix.{prefix_from}
use routing_table.Utils.{octet_bits}
use routing_table.AttrTable.{get_or_insert}
use routing_table.AttrTable.Hash.{hash_attributes}
use routing_table.Ipv6.{walk_bits, new_ipv6_rib, all_paths}
use routing_table.Ipv6.Methods as V6
use routing_table.Ipv6.Runs as Runs
use routing_table.Ipv6.Walking.{run_v6-IsShallow}
use routing_table.Ipv6.Places.{all_prefixes_v6-all_paths, delete_stale_routes_v6-all_paths}
use routing_table.Tests.Data.{short_path, v6_prefix, route}
use routing_table.Tests.Ribs.{in_order}

abbrev one_route : List Runs.Op
one_route = Runs.add (route v6_prefix short_path 1) ∷ []

abbrev one_rib : Rib
one_rib = Runs.run in_order (new_ipv6_rib new_attr_table) one_route

shallow : IsShallow ipv6_family 32 32 one_rib
shallow = run_v6-IsShallow in_order new_attr_table one_route new_attr_table-IsValid

one_prefix : V6.all_prefixes one_rib ≡ v6_prefix ∷ []
unfolding Runs.run Runs.apply Ipv6.insert new_ipv6_rib new_rib insert_entry insert_walk put_here
    set_path Walkers.all_prefixes collect_prefixes next_addr prefix_from walk_bits octet_bits
    get_or_insert hash_attributes
one_prefix = refl

listed : Has v6_prefix (V6.all_prefixes one_rib)
listed = rw one_prefix (inl refl)

all_prefixes_v6-all_paths_example : 1 ≤ length (all_paths one_rib v6_prefix)
all_prefixes_v6-all_paths_example = all_prefixes_v6-all_paths one_rib v6_prefix shallow listed

-- The same with the path marked.
abbrev marking : List Runs.Op
marking = Runs.add (route v6_prefix short_path 1) ∷ Runs.mark_stale ∷ []

abbrev marked_rib : Rib
marked_rib = Runs.run in_order (new_ipv6_rib new_attr_table) marking

marked-IsShallow : IsShallow ipv6_family 32 32 marked_rib
marked-IsShallow = run_v6-IsShallow in_order new_attr_table marking new_attr_table-IsValid

one_removed : (V6.delete_stale_routes in_order marked_rib).1 ≡ v6_prefix ∷ []
unfolding Runs.run Runs.apply Ipv6.insert new_ipv6_rib new_rib insert_entry insert_walk put_here
    set_path Walkers.all_prefixes collect_prefixes next_addr prefix_from walk_bits octet_bits
    get_or_insert hash_attributes mark_all_stale mark_node_stale mark_paths_stale
    Sweep.delete_stale_routes sweep_roots delete_stale_from_node delete_stale_paths delete_path
    first_stale_path_id paths_count
one_removed = refl

delete_stale_routes_v6-all_paths_example :
    (1 ≤ length (all_paths marked_rib v6_prefix))
    × (all_paths (V6.delete_stale_routes in_order marked_rib).0 v6_prefix ≡ [])
delete_stale_routes_v6-all_paths_example =
    delete_stale_routes_v6-all_paths in_order marked_rib v6_prefix marked-IsShallow
      (rw one_removed (inl refl))
