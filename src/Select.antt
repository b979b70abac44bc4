-- ===== src/Select.antt =====
-- types.go and ipv4.go, ipv6.go: SelectBest over routes, and nodeToRoutes.
pub mod Agreement
pub mod Optimal
use routing_table.Prelude.{
  ℕ, Bool, true, false, not, Option, none, some, List, [], ◌∷◌, map, length, ltb, ◌==◌,
  if◌then◌else◌,
}
use routing_table.Attrs.{RouteAttributes, Store, deref, IpPrefix, Route, PathEntry}
use routing_table.Attrs.Prefix.{masked}
use routing_table.Node.{Node, all_paths}

-- `lp := a.LocalPref; if lp == 0 { lp = 100 }`
abbrev pub preference : RouteAttributes → ℕ
preference a = if a.local_pref == 0 then 100 else a.local_pref

-- The three rules, with the early `continue`s.
replaces : RouteAttributes → ℕ → RouteAttributes → ℕ → Bool
replaces curr curr_id best best_id =
    let lp1 = preference curr in
    let lp2 = preference best in
    let len1 = length curr.as_path in
    let len2 = length best.as_path in
    if ltb lp2 lp1
    then true
    else if ltb lp1 lp2
    then false
    else if ltb len1 len2
    then true
    else if ltb len2 len1
    then false
    else ltb curr_id best_id

-- One round: a route without attributes is passed over, and is replaced by any that has some.
pick : Route → Route → Route
unfolding replaces
pick curr best = elim curr.attributes [
  | none ↦ best
  | some a ↦ elim best.attributes [
    | none ↦ curr
    | some b ↦ if replaces a curr.path_id b best.path_id then curr else best
  ]
]

select_loop : List Route → Route → Route
select_loop [] best = best
select_loop (curr ∷ routes) best = select_loop routes (pick curr best)

unfoldable pub select_best : List Route → Option Route
unfolding select_loop pick
select_best [] = none
select_best (r ∷ routes) = some (select_loop routes r)

abbrev pub route_of : Store → IpPrefix → PathEntry → Route
route_of store prefix e = record {
  prefix = prefix;
  attributes = deref store e.attrs;
  path_id = e.path_id;
  stale = e.stale;
}

-- `nodeToRoutes`, at a node that is not nil
unfoldable pub node_to_routes : Store → Node → IpPrefix → List Route
node_to_routes store n prefix =
    if not n.has_path then [] else map (route_of store (masked prefix)) (all_paths n)
