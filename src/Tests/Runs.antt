-- ===== src/Tests/Runs.antt =====
-- Runs of the two RIBs: the reference counts, stale routes, Reset and the walkers.
use mathlib.Core.List.Perm
use routing_table.Prelude.{
  ℕ, ◌+◌, length, ◌≤◌, ◌<◌, ◌≡◌, ◌↔◌, Bool, true, false, List, [], ◌∷◌, All, some, Has, map, take,
  arith,
}
use routing_table.Attrs.{Pointer, origin_is, deref}
use routing_table.AttrTable.{new_attr_table, bucket}
use routing_table.AttrTable.Insertion.{new_attr_table-IsValid}
use routing_table.AttrTable.Acquired.{new_attr_table-IsCounted}
use routing_table.Node.Remove.{live}
use routing_table.Family.{ipv4_family, ipv6_family}
use routing_table.Tally.Amounts.{IsLoop}
use routing_table.Stats.{reset}
use routing_table.Stats.Resetting.{reset-no_object}
use routing_table.Sweep.{delete_stale_routes}
use routing_table.Sweep.Whole.{delete_stale_routes-view}
use routing_table.Rib.{new_rib, mark_all_stale}
use routing_table.Rib.Announced.{Change, announce, withdraw, OfArray, apply_changes, note_changes}
use routing_table.Rib.Restart.{Holds, nothing, restart-Holds}
use routing_table.Sweep.Removed.{delete_stale_routes-removed}
use routing_table.Rib.State.{root_total, paths_here}
use routing_table.Rib.Holding.{IsHeld}
use routing_table.Rib.View.{view}
use routing_table.Rib.Marking.{as_stale, mark_all_stale-view}
use routing_table.Walkers.{all_prefixes, prefixes_matching, prefixes_by_as_path_regex}
use routing_table.Walkers.Keys.{prefix_at}
use routing_table.Walkers.Memo.{forget, path_matches, prefixes_by_as_path_regex-memo}
use routing_table.Walkers.Matching.{IsHit}
use routing_table.Walkers.Shallow.{IsShallow}
use routing_table.Walkers.Listing.{Lists, prefixes_matching-hits}
use routing_table.Prelude.Word.{word_mod}
use routing_table.Rib.Kept.{IsReferenced, IsReferenced-Rule, new_rib-IsReferenced}
use routing_table.Ipv4.{new_ipv4_rib, walk_bits}
use routing_table.Ipv4.Runs.{length-walk_bits, run-keeps, run-IsHeld}
use routing_table.AttrTable.Accounted.{IsAccounted, new_attr_table-IsAccounted}
use routing_table.Ipv4.Accounts.{run-IsAccounted}
use routing_table.Ipv4.Walking.{run-IsShallow, run-Lists}
use routing_table.Ipv6.Runs.{run_v6-IsHeld}
use routing_table.Ipv6.Walking.{run_v6-IsShallow, run_v6-Lists}
use routing_table.Tests.Data.{long_path, lan_prefix, route}
use routing_table.Tests.Ribs.{in_order, v4_ops, v4_rib, v6_ops, v6_rib, bytes, sized}

loop : IsLoop in_order
loop counts = Perm.refl counts

run-IsHeld_example : IsHeld (λ q. 0) v4_rib
run-IsHeld_example =
    run-IsHeld in_order new_attr_table v4_ops new_attr_table-IsValid bytes (λ q. 0) loop
      new_attr_table-IsCounted (λ q. omega arith)

run_v6-IsHeld_example : IsHeld (λ q. 0) v6_rib
run_v6-IsHeld_example =
    run_v6-IsHeld in_order new_attr_table v6_ops new_attr_table-IsValid (λ q. 0) loop
      new_attr_table-IsCounted (λ q. omega arith)

reset-no_object_example : ¬ Has 1 (bucket 5 (reset in_order 256 v4_rib).table.entries)
reset-no_object_example =
    reset-no_object in_order 256 v4_rib sized.valid loop run-IsHeld_example 5 1

abbrev lan_bits : List Bool
lan_bits = take 16 (walk_bits (193 ∷ 0 ∷ 2 ∷ 0 ∷ []))

delete_stale_routes-view_example :
    view (delete_stale_routes in_order ipv4_family v4_rib).0 193 lan_bits
    ≡ live (view v4_rib 193 lan_bits)
delete_stale_routes-view_example =
    delete_stale_routes-view in_order ipv4_family v4_rib sized.valid 193 lan_bits

few : root_total paths_here v4_rib.root < word_mod
unfolding new_ipv4_rib new_rib
few = omega (
  arith,
  (run-keeps in_order (IsReferenced 256 (λ q. 0))
      (IsReferenced-Rule ipv4_family 224 256 in_order (omega arith) (λ q. 0) loop) 0
      (new_ipv4_rib new_attr_table) v4_ops bytes
      (new_rib-IsReferenced 256 new_attr_table (λ q. 0) new_attr_table-IsValid
        new_attr_table-IsCounted)).few,
)

mark_all_stale-view_example :
    view (mark_all_stale v4_rib) 193 lan_bits ≡ map as_stale (view v4_rib 193 lan_bits)
mark_all_stale-view_example = mark_all_stale-view v4_rib 193 lan_bits sized.valid few

run-IsShallow_example : IsShallow ipv4_family 224 256 v4_rib
run-IsShallow_example = run-IsShallow in_order new_attr_table v4_ops new_attr_table-IsValid bytes

run_v6-IsShallow_example : IsShallow ipv6_family 32 32 v6_rib
run_v6-IsShallow_example = run_v6-IsShallow in_order new_attr_table v6_ops new_attr_table-IsValid

run-Lists_example : Lists ipv4_family v4_rib (all_prefixes ipv4_family 224 v4_rib)
run-Lists_example = run-Lists in_order new_attr_table v4_ops new_attr_table-IsValid bytes

run_v6-Lists_example : Lists ipv6_family v6_rib (all_prefixes ipv6_family 32 v6_rib)
run_v6-Lists_example = run_v6-Lists in_order new_attr_table v6_ops new_attr_table-IsValid

-- The routes that are originated by one AS.
abbrev from_as : Pointer → Bool
from_as p = origin_is (deref v4_rib.table.store p) 64513

prefixes_matching-hits_example :
    Has
      (route lan_prefix long_path 2)
      (prefixes_matching (forget from_as) tt ipv4_family 224 v4_rib)
    ↔ ((j : ℕ) × (key : List Bool) × IsHit from_as v4_rib.table.store
          (prefix_at ipv4_family (ipv4_family.first j) 8 key)
          (view v4_rib j key)
          (route lan_prefix long_path 2))
prefixes_matching-hits_example =
    prefixes_matching-hits ipv4_family 224 256 v4_rib run-IsShallow_example from_as
      (route lan_prefix long_path 2)

-- A regular expression that matches every text that is not empty.
abbrev some_text : List ℕ → Bool
some_text [] = false
some_text (x ∷ xs) = true

prefixes_by_as_path_regex-memo_example :
    prefixes_by_as_path_regex some_text ipv4_family 224 v4_rib
    ≡ prefixes_matching
        (forget (path_matches some_text v4_rib.table.store))
        tt
        ipv4_family
        224
        v4_rib
prefixes_by_as_path_regex-memo_example =
    prefixes_by_as_path_regex-memo some_text ipv4_family 224 v4_rib

-- One path is announced anew, and another is withdrawn.
abbrev changes : List Change
changes =
    announce 193 (walk_bits (193 ∷ 0 ∷ 2 ∷ 0 ∷ [])) 24 7 (some long_path)
    ∷ withdraw 193 (walk_bits (193 ∷ 0 ∷ 2 ∷ 0 ∷ [])) 24 2
    ∷ []

long_walk : 24 < 9 + length (walk_bits (193 ∷ 0 ∷ 2 ∷ 0 ∷ []))
long_walk = omega (arith, length-walk_bits (193 ∷ 0 ∷ 2 ∷ 0 ∷ []))

in_array : All (OfArray 256) changes
in_array = ((omega arith, omega arith, long_walk), ((omega arith, omega arith, long_walk), tt))

restart-Holds_example :
    Holds
      (delete_stale_routes in_order ipv4_family (apply_changes (mark_all_stale v4_rib) changes)).0
      (note_changes nothing changes)
restart-Holds_example = restart-Holds in_order ipv4_family 256 v4_rib changes sized few in_array

delete_stale_routes-removed_example :
    Has lan_prefix (delete_stale_routes in_order ipv4_family v4_rib).1 ↔ (
      (j : ℕ) × (key : List Bool) × (1 ≤ length (view v4_rib j key))
      × (length (view (delete_stale_routes in_order ipv4_family v4_rib).0 j key) ≤ 0)
      × (lan_prefix ≡ prefix_at ipv4_family (ipv4_family.first j) 8 key))
delete_stale_routes-removed_example =
    delete_stale_routes-removed in_order ipv4_family v4_rib lan_prefix sized.valid

run-IsAccounted_example : IsAccounted v4_rib.table
run-IsAccounted_example =
    run-IsAccounted in_order new_attr_table v4_ops new_attr_table-IsValid new_attr_table-IsAccounted
      bytes
