-- ===== src/Tests/Places.antt =====
-- A prefix that is listed, and one that DeleteStaleRoutes returns, read by AllPaths.
use routing_table.Prelude.{◌≤◌, ◌≡◌, refl, List, [], ◌∷◌, Has, inl, length, arith}
use routing_table.AttrTable.{new_attr_table}
use routing_table.AttrTable.Insertion.{new_attr_table-IsValid}
use routing_table.Rib.{Rib}
use routing_table.Family.{ipv4_family}
use routing_table.Walkers.Shallow.{IsShallow}
use routing_table.Ipv4 as Ipv4
use routing_table.Sweep as Sweep
use routing_table.Sweep.{sweep_roots, delete_stale_from_node}
use routing_table.Walkers as Walkers
use routing_table.Walkers.{collect_prefixes}
use routing_table.Rib.{new_rib, insert_entry, mark_all_stale, mark_node_stale}
use routing_table.Trie.{insert_walk, put_here}
use routing_table.Node.{
  set_path, mark_paths_stale, delete_stale_paths, delete_path, first_stale_path_id, paths_count,
}
use routing_table.Family.{next_addr}
use routing_table.Attrs.Prefix.{prefix_from}
use routing_table.Utils.{is_valid_v4, octet_bits}
use routing_table.AttrTable.{get_or_insert}
use routing_table.AttrTable.Hash.{hash_attributes}
use routing_table.Ipv4.{walk_bits, new_ipv4_rib, all_paths}
use routing_table.Ipv4.Methods as V4
use routing_table.Ipv4.Runs as Runs
use routing_table.Ipv4.Walking.{run-IsShallow}
use routing_table.Ipv4.Places.{all_prefixes-all_paths, delete_stale_routes-all_paths}
use routing_table.Tests.Data.{short_path, lan_prefix, route}
use routing_table.Tests.Ribs.{in_order}

abbrev one_route : List Runs.Op
one_route = Runs.add (route lan_prefix short_path 1) ∷ []

abbrev one_rib : Rib
one_rib = Runs.run in_order (new_ipv4_rib new_attr_table) one_route

shallow : IsShallow ipv4_family 224 256 one_rib
shallow = run-IsShallow in_order new_attr_table one_route new_attr_table-IsValid (omega arith, tt)

one_prefix : V4.all_prefixes one_rib ≡ lan_prefix ∷ []
unfolding Runs.run Runs.apply Ipv4.insert new_ipv4_rib new_rib insert_entry insert_walk put_here
    set_path Walkers.all_prefixes collect_prefixes next_addr prefix_from is_valid_v4 walk_bits
    octet_bits get_or_insert hash_attributes
one_prefix = refl

listed : Has lan_prefix (V4.all_prefixes one_rib)
listed = rw one_prefix (inl refl)

all_prefixes-all_paths_example : 1 ≤ length (all_paths one_rib lan_prefix)
all_prefixes-all_paths_example = all_prefixes-all_paths one_rib lan_prefix shallow listed

-- The same with the path marked.
abbrev marking : List Runs.Op
marking = Runs.add (route lan_prefix short_path 1) ∷ Runs.mark_stale ∷ []

abbrev marked_rib : Rib
marked_rib = Runs.run in_order (new_ipv4_rib new_attr_table) marking

marked-IsShallow : IsShallow ipv4_family 224 256 marked_rib
marked-IsShallow =
    run-IsShallow in_order new_attr_table marking new_attr_table-IsValid (omega arith, (tt, tt))

one_removed : (V4.delete_stale_routes in_order marked_rib).1 ≡ lan_prefix ∷ []
unfolding Runs.run Runs.apply Ipv4.insert new_ipv4_rib new_rib insert_entry insert_walk put_here
    set_path Walkers.all_prefixes collect_prefixes next_addr prefix_from is_valid_v4 walk_bits
    octet_bits get_or_insert hash_attributes mark_all_stale mark_node_stale mark_paths_stale
    Sweep.delete_stale_routes sweep_roots delete_stale_from_node delete_stale_paths delete_path
    first_stale_path_id paths_count
one_removed = refl

delete_stale_routes-all_paths_example :
    (1 ≤ length (all_paths marked_rib lan_prefix))
    × (all_paths (V4.delete_stale_routes in_order marked_rib).0 lan_prefix ≡ [])
delete_stale_routes-all_paths_example =
    delete_stale_routes-all_paths in_order marked_rib lan_prefix marked-IsShallow
      (rw one_removed (inl refl))
