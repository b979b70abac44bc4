-- ===== src/Select/Agreement.antt =====
-- SelectBest over the routes of a node, against bestPathWithID.
use routing_table.Prelude.{
  ◌≡◌, ◌≢◌, refl, ap, Bool, true, false, some, List, [], ◌∷◌, map, if◌then◌else◌, arith,
}
use routing_table.Attrs.{Store, nil_pointer, IpPrefix, PathEntry}
use routing_table.Attrs.Prefix.{masked}
use routing_table.Node.{Node, all_paths, best_path_with_id}
use routing_table.Node.Best.{best_entry, better, best_entry_lem}
use routing_table.Node.Paths.{refs}
use routing_table.Select.{select_best, select_loop, pick, replaces, route_of, node_to_routes}

refs-cons :
    (e : PathEntry) (es : List PathEntry)
    → refs nil_pointer (e ∷ es) ≡ 0
    → (e.attrs ≢ nil_pointer) × (refs nil_pointer es ≡ 0)
unfolding refs
refs-cons e es h = ground arith

module _ (store : Store) (prefix : IpPrefix) where
  pick-route_of :
      (e d : PathEntry)
      → e.attrs ≢ nil_pointer
      → d.attrs ≢ nil_pointer
      → pick (route_of store prefix e) (route_of store prefix d)
        ≡ route_of store prefix (if better store e d then e else d)
  unfolding pick replaces better
  pick-route_of e d p q = ground arith

  pick_not_nil :
      (b : Bool) (e d : PathEntry)
      → e.attrs ≢ nil_pointer
      → d.attrs ≢ nil_pointer
      → (if b then e else d).attrs ≢ nil_pointer
  pick_not_nil true e d p q = p
  pick_not_nil false e d p q = q

  select_loop-route_of :
      (es : List PathEntry) (d : PathEntry)
      → refs nil_pointer es ≡ 0
      → d.attrs ≢ nil_pointer
      → select_loop (map (route_of store prefix) es) (route_of store prefix d)
        ≡ route_of store prefix (best_entry store es d)
  unfolding select_loop best_entry
  select_loop-route_of [] d p q = refl
  select_loop-route_of (e ∷ es) d p q =
      let (first, rest) = refs-cons e es p in
      rw (pick-route_of e d first q, select_loop)
        (select_loop-route_of es (if better store e d then e else d) rest
          (pick_not_nil (better store e d) e d first q))

-- On a node with a path and no nil pointer, SelectBest over the routes of nodeToRoutes returns the
-- route of the path whose attributes and id bestPathWithID returns.
pub select_best-node_to_routes :
    (store : Store) (n : Node) (prefix : IpPrefix)
    → n.has_path ≡ true
    → refs nil_pointer (all_paths n) ≡ 0
    → (e : PathEntry) × (best_path_with_id store n ≡ (e.attrs, e.path_id))
      × (select_best (node_to_routes store n prefix) ≡ some (route_of store (masked prefix) e))
unfolding select_best node_to_routes all_paths
select_best-node_to_routes store n prefix h present =
    let d : PathEntry = record { attrs = n.attrs; path_id = n.path_id; stale = n.stale } in
    let (first, rest) = refs-cons d n.extra (rw h at present) in
    (
      best_entry store n.extra d,
      best_entry_lem store n h,
      rw h (ap some (select_loop-route_of store (masked prefix) n.extra d rest first)),
    )
