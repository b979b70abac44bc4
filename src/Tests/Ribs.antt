-- ===== src/Tests/Ribs.antt =====
-- Runs of the two RIBs.
use routing_table.Prelude.{
  ℕ, ◌+◌, ◌-◌, ◌≡◌, ◌<◌, refl, Bool, false, Option, none, some, List, [], ◌∷◌, All, take, map,
  length, get_or, arith,
}
use routing_table.Attrs.{v4, v6, Route}
use routing_table.Attrs.Prefix.{prefix_from, masked}
use routing_table.Outcome.{ok, panic}
use routing_table.Node.Paths.{put, remove}
use routing_table.Select.{node_to_routes, route_of}
use routing_table.AttrTable.{new_attr_table, get_or_insert}
use routing_table.AttrTable.Insertion.{new_attr_table-IsValid}
use routing_table.Tally.{MapOrder}
use routing_table.Trie.{delete_walk}
use routing_table.Trie.Removal.{Removes, delete_walk-Removes}
use routing_table.Rib.{Rib, entry, best_route, insert_entry, delete_entry}
use routing_table.Rib.Sized.{IsSized}
use routing_table.Rib.LongestMatch.{Finds}
use routing_table.Rib.View.{view, at_key, insert_entry-view, delete_entry-view}
use routing_table.Ipv4 as Ipv4
use routing_table.Ipv4.Runs as Runs
use routing_table.Ipv4.Runs.{run-IsSized}
use routing_table.Ipv4.Searching.{search-Finds}
use routing_table.Ipv4.Reading.{
  of_octets, announced, all_paths-insert_unlocked, all_paths-delete_unlocked,
}
use routing_table.Utils.Laws.{is_valid_v4-in_ranges}
use routing_table.Ipv6 as Ipv6
use routing_table.Ipv6.Runs as RunsV6
use routing_table.Ipv6.Runs.{run_v6-IsSized}
use routing_table.Ipv6.Searching.{search_v6-Finds, all_paths_search_v6-Finds}
use routing_table.Ipv6.Panics.{all_paths_search_panic}
use routing_table.Tests.Data.{short_path, long_path, v4_prefix, lan_prefix, v6_prefix, route}

-- A map of counts read in the order in which it is written.
abbrev pub in_order : MapOrder
in_order counts = counts

abbrev pub v4_ops : List Runs.Op
v4_ops =
    Runs.add (route lan_prefix short_path 1)
    ∷ Runs.add_batch (route lan_prefix long_path 2 ∷ route v4_prefix short_path 3 ∷ [])
    ∷ Runs.remove lan_prefix 1
    ∷ Runs.mark_stale
    ∷ Runs.add (route lan_prefix long_path 2)
    ∷ Runs.sweep
    ∷ []

abbrev pub v4_rib : Rib
v4_rib = Runs.run in_order (Ipv4.new_ipv4_rib new_attr_table) v4_ops

pub bytes : All Runs.OfBytes v4_ops
bytes =
    (omega arith, ((omega arith, (omega arith, tt)), (omega arith, (tt, (omega arith, (tt, tt))))))

run-IsSized_example : IsSized 256 v4_rib
run-IsSized_example = run-IsSized in_order new_attr_table v4_ops new_attr_table-IsValid bytes

abbrev pub v6_ops : List RunsV6.Op
v6_ops = RunsV6.add (route v6_prefix short_path 1) ∷ RunsV6.remove v6_prefix 2 ∷ []

abbrev pub v6_rib : Rib
v6_rib = RunsV6.run in_order (Ipv6.new_ipv6_rib new_attr_table) v6_ops

run_v6-IsSized_example : IsSized 32 v6_rib
run_v6-IsSized_example = run_v6-IsSized in_order new_attr_table v6_ops new_attr_table-IsValid

pub sized : IsSized 256 v4_rib
sized = run-IsSized in_order new_attr_table v4_ops new_attr_table-IsValid bytes

abbrev walk : List Bool
walk = Ipv4.walk_bits (193 ∷ 0 ∷ 2 ∷ 0 ∷ [])

inside : 193 < length v4_rib.root
inside = rw sized.entries (omega arith)

long_walk : 24 < 9 + length walk
long_walk = rw (Runs.length-walk_bits (193 ∷ 0 ∷ 2 ∷ 0 ∷ [])) (omega arith)

insert_entry-view_example :
    view (insert_entry v4_rib 193 walk 24 5 (some short_path)).0 193 []
    ≡ at_key 193
        (take (24 - 8) walk)
        (put (view v4_rib 193 (take (24 - 8) walk)) (record {
          attrs = (get_or_insert v4_rib.table (some short_path)).1;
          path_id = 5;
          stale = false;
        })).0
        (view v4_rib)
        193
        []
insert_entry-view_example =
    insert_entry-view v4_rib 193 walk 24 5 sized.valid inside (omega arith) long_walk
      (some short_path) 193 []

delete_entry-view_example :
    view (delete_entry v4_rib 193 walk 24 2).0 193 []
    ≡ at_key 193
        (take (24 - 8) walk)
        (remove (view v4_rib 193 (take (24 - 8) walk)) 2).0
        (view v4_rib)
        193
        []
delete_entry-view_example =
    delete_entry-view v4_rib 193 walk 24 2 sized.valid inside (omega arith) long_walk 193 []

abbrev asked : List ℕ
asked = 193 ∷ 0 ∷ 2 ∷ 9 ∷ []

search-Finds_example :
    ((x : Option Route) × (Ipv4.search v4_rib (v4 asked) ≡ ok x)
      × Finds none
          (λ len n. best_route v4_rib.table.store (prefix_from (v4 asked) len) n)
          (Ipv4.walk_bits asked)
          (entry v4_rib (get_or asked 0 0))
          x)
    × ((l : List Route) × (Ipv4.all_paths_search v4_rib (v4 asked) ≡ ok l)
        × Finds []
            (λ len n. node_to_routes v4_rib.table.store n (prefix_from (v4 asked) len))
            (Ipv4.walk_bits asked)
            (entry v4_rib (get_or asked 0 0))
            l)
search-Finds_example = search-Finds v4_rib asked sized.valid

abbrev asked_v6 : List ℕ
asked_v6 = 0x20 ∷ 1 ∷ 0xd ∷ 0xb8 ∷ 0 ∷ 0 ∷ 0 ∷ 0 ∷ 0 ∷ 0 ∷ 0 ∷ 0 ∷ 0 ∷ 0 ∷ 0 ∷ 1 ∷ []

search_v6-Finds_example :
    Finds none
      (λ len n. best_route v6_rib.table.store (prefix_from (v6 asked_v6) len) n)
      (Ipv6.walk_bits asked_v6)
      (entry v6_rib (Ipv6.index asked_v6))
      (Ipv6.search v6_rib (v6 asked_v6))
search_v6-Finds_example =
    search_v6-Finds v6_rib asked_v6
      (run_v6-IsSized in_order new_attr_table v6_ops new_attr_table-IsValid).valid refl

abbrev local : List ℕ
local = 0xfe ∷ 0x80 ∷ 0 ∷ 0 ∷ 0 ∷ 0 ∷ 0 ∷ 0 ∷ 0 ∷ 0 ∷ 0 ∷ 0 ∷ 0 ∷ 0 ∷ 0 ∷ 1 ∷ []

-- A link-local address.
all_paths_search_panic_example :
    (Ipv6.search v6_rib (v6 local) ≡ none) × (Ipv6.all_paths_search v6_rib (v6 local) ≡ panic)
all_paths_search_panic_example = all_paths_search_panic v6_rib local (omega arith) refl

all_paths_search_v6-Finds_example :
    (l : List Route) × (Ipv6.all_paths_search v6_rib (v6 asked_v6) ≡ ok l)
    × Finds []
        (λ len n. node_to_routes v6_rib.table.store n (prefix_from (v6 asked_v6) len))
        (Ipv6.walk_bits asked_v6)
        (entry v6_rib (Ipv6.index asked_v6))
        l
all_paths_search_v6-Finds_example = all_paths_search_v6-Finds v6_rib asked_v6 (omega arith) refl

delete_walk-Removes_example :
    Removes
      (take (24 + 1 - 9) walk)
      2
      (entry v4_rib 193)
      (delete_walk walk 9 24 2 (entry v4_rib 193))
delete_walk-Removes_example =
    delete_walk-Removes walk 9 24 2 (entry v4_rib 193) (omega arith) long_walk

abbrev lan : List ℕ
lan = 193 ∷ 0 ∷ 2 ∷ 0 ∷ []

all_paths-insert_unlocked_example :
    let next = (Ipv4.insert_unlocked v4_rib (announced lan 24 5 (some short_path) false)).0 in
    Ipv4.all_paths next (of_octets lan 24)
    ≡ map
        (route_of next.table.store (masked (of_octets lan 24)))
        (put (view v4_rib (get_or lan 0 0) (take (24 - 8) (Ipv4.walk_bits lan))) (record {
          attrs = (get_or_insert v4_rib.table (some short_path)).1;
          path_id = 5;
          stale = false;
        })).0
all_paths-insert_unlocked_example =
    all_paths-insert_unlocked v4_rib lan 24 5 sized (omega arith) (omega arith) (omega arith)
      (some short_path) false (is_valid_v4-in_ranges 193 (omega arith))

all_paths-delete_unlocked_example :
    let next = (Ipv4.delete_unlocked v4_rib (of_octets lan 24) 2).0 in
    Ipv4.all_paths next (of_octets lan 24)
    ≡ map
        (route_of next.table.store (masked (of_octets lan 24)))
        (remove (view v4_rib (get_or lan 0 0) (take (24 - 8) (Ipv4.walk_bits lan))) 2).0
all_paths-delete_unlocked_example =
    all_paths-delete_unlocked v4_rib lan 24 2 sized (omega arith) (omega arith) (omega arith)
