-- ===== src/Tests/Nodes.antt =====
-- Runs of the operations on nodes, and of SelectBest.
use routing_table.Prelude.{◌≡◌, refl, true, false, some, [], ◌∷◌, Has, All, arith, inl, inr}
use routing_table.Rank.{AtLeast}
use routing_table.Attrs.{PathEntry, Route}
use routing_table.Attrs.Prefix.{masked}
use routing_table.Node.{all_paths, best_path_with_id, set_path, delete_stale_paths}
use routing_table.Node.Flags.{Stands, has_path, is_stale, set_stale, set_has_path, flags-Stands}
use routing_table.Node.Paths.{IsValid}
use routing_table.Node.Remove.{live, stale_attrs}
use routing_table.Node.Best.{rank_of, best_path_with_id-optimal}
use routing_table.Node.Laws.{
  Sets, Deletes, set_path-Sets, delete_path-Deletes, delete_stale_paths-live,
}
use routing_table.Select.{select_best, node_to_routes, route_of}
use routing_table.Select.Agreement.{select_best-node_to_routes}
use routing_table.Select.Optimal.{Covers, select_best-optimal, select_best_order}
use routing_table.Tests.Data.{
  store, short_path, preferred, v4_prefix, route, present, two_paths, two_paths-IsValid,
}

set_path-Sets_example : Sets two_paths 9 3 false
set_path-Sets_example = set_path-Sets two_paths 9 3 false two_paths-IsValid (present 3 refl)

delete_path-Deletes_example : Deletes two_paths 7
delete_path-Deletes_example = delete_path-Deletes two_paths 7 two_paths-IsValid

delete_stale_paths-live_example :
    IsValid (delete_stale_paths two_paths).0
    × (all_paths (delete_stale_paths two_paths).0 ≡ live (all_paths two_paths))
    × ((delete_stale_paths two_paths).1 ≡ stale_attrs (all_paths two_paths))
delete_stale_paths-live_example = delete_stale_paths-live two_paths two_paths-IsValid

two_paths_here : two_paths.has_path ≡ true
unfolding set_path
two_paths_here = refl

best_path_with_id-optimal_example :
    (e : PathEntry) × (best_path_with_id store two_paths ≡ (e.attrs, e.path_id))
    × Has e (all_paths two_paths)
    × All (λ d. AtLeast (rank_of store e) (rank_of store d)) (all_paths two_paths)
best_path_with_id-optimal_example = best_path_with_id-optimal store two_paths two_paths_here

-- The shorter of the two AS paths wins.
best_of_two : best_path_with_id store two_paths ≡ (1, 7)
unfolding best_path_with_id set_path
best_of_two = refl

select_best-node_to_routes_example :
    (e : PathEntry) × (best_path_with_id store two_paths ≡ (e.attrs, e.path_id))
    × (select_best (node_to_routes store two_paths v4_prefix)
        ≡ some (route_of store (masked v4_prefix) e))
select_best-node_to_routes_example =
    select_best-node_to_routes store two_paths v4_prefix two_paths_here two_paths-IsValid.present

abbrev first : Route
first = route v4_prefix short_path 1

abbrev second : Route
second = route v4_prefix preferred 2

select_best-optimal_example :
    (s : Route) × (select_best (first ∷ second ∷ []) ≡ some s)
    × Has s (first ∷ second ∷ [])
    × All (Covers s) (first ∷ second ∷ [])
select_best-optimal_example = select_best-optimal first (second ∷ [])

-- The higher preference wins over the shorter AS path.
best_of_routes : select_best (first ∷ second ∷ []) ≡ some second
unfolding select_best
best_of_routes = refl

swapped : (x y z : Route) → Has x (y ∷ z ∷ []) → Has x (z ∷ y ∷ [])
swapped x y z (inl e) = inr (inl e)
swapped x y z (inr (inl e)) = inl e
swapped x y z (inr (inr e)) = elim e [ ]

distinct_ids :
    (x y : Route)
    → Has x (first ∷ second ∷ [])
    → Has y (first ∷ second ∷ [])
    → x.path_id ≡ y.path_id
    → x ≡ y
distinct_ids x y (inl e) (inl f) h = cc
distinct_ids x y (inl e) (inr (inl f)) h = ground arith
distinct_ids x y (inr (inl e)) (inl f) h = ground arith
distinct_ids x y (inr (inl e)) (inr (inl f)) h = cc
distinct_ids x y (inr (inr e)) f h = elim e [ ]
distinct_ids x y (inl e) (inr (inr f)) h = elim f [ ]
distinct_ids x y (inr (inl e)) (inr (inr f)) h = elim f [ ]

select_best_order_example : select_best (first ∷ second ∷ []) ≡ select_best (second ∷ first ∷ [])
select_best_order_example =
    select_best_order (first ∷ second ∷ []) (second ∷ first ∷ []) first short_path
      (λ x h. swapped x first second h) (λ x h. swapped x second first h) distinct_ids (inl refl)
      refl

flags-Stands_example : Stands (set_stale 1 true) true true × Stands (set_has_path 1 true) true false
unfolding has_path is_stale
flags-Stands_example = flags-Stands 1 true false true (omega arith, refl, refl)
