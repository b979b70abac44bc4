-- ===== src/Sweep/Removed.antt =====
-- The prefixes that DeleteStaleRoutes returns.
use routing_table.Prelude.{
  ℕ, zero, suc, ◌+◌, ◌≤◌, ◌≡◌, ◌↔◌, sym, ap, ◌∙◌, Bool, true, false, List, [], ◌∷◌, ◌++◌, map,
  length, get_or, Has, append-Has, Has-append_left, Has-append_right, map-Has, Has-map, arith,
  Bool-cases, inl, inr,
}
use native.Mathlib.Nat.{add-zero}
use routing_table.Attrs.{IpPrefix, PathEntry}
use routing_table.Attrs.Prefix.{prefix_from}
use routing_table.Node.{Node, all_paths, delete_stale_paths}
use routing_table.Node.Paths as Paths
use routing_table.Node.Remove.{live}
use routing_table.Node.Laws.{delete_stale_paths-live}
use routing_table.Trie.{Trie, nil, node}
use routing_table.Trie.Reads.{node_at, paths_at}
use routing_table.Trie.Sound.{AllValid}
use routing_table.Family.{Family, next_addr}
use routing_table.Tally.{MapOrder}
use routing_table.Rib.{Rib}
use routing_table.Rib.View.{view}
use routing_table.Rib.Valid.{IsValid}
use routing_table.Walkers.Keys.{write_bits, prefix_at}
use routing_table.Sweep.{delete_stale_from_node, sweep_roots, delete_stale_routes}
use routing_table.Sweep.Sums.{own_removed}
use routing_table.Sweep.Whole.{delete_stale_routes-view}
use routing_table.Sweep.Walk.{loses_all, has_path-split}

-- Some path, and no path that is not stale.
abbrev pub IsGone : List PathEntry → Type 0
IsGone es = (1 ≤ length es) × (length (live es) ≤ 0)

full : (n : Node) → n.has_path ≡ true → 1 ≤ length (all_paths n)
unfolding all_paths
full n h = rw h (omega arith)

clear : (n : Node) → n.has_path ≡ false → length (all_paths n) ≤ 0
unfolding all_paths
clear n h = rw h (omega arith)

loses_all-IsGone : (n : Node) → Paths.IsValid n → loses_all n ≡ true → IsGone (all_paths n)
loses_all-IsGone n valid h =
    let (v, kept, tally) = delete_stale_paths-live n valid in
    (
      full n (ground (arith, has_path-split n valid)),
      rw (← kept) (clear (delete_stale_paths n).0 (ground arith)),
    )

IsGone-loses_all : (n : Node) → Paths.IsValid n → IsGone (all_paths n) → loses_all n ≡ true
IsGone-loses_all n valid (some_path, none_live) =
    let (v, kept, tally) = delete_stale_paths-live n valid in
    ground (arith, has_path-split n valid, clear n, full (delete_stale_paths n).0, ap length kept)

-- What is recorded for a key below an address.
abbrev place : List ℕ → ℕ → List Bool → List ℕ × ℕ
place addr depth key = (write_bits addr depth key, depth + length key)

-- A key that has lost its last path, with the address and the depth that are recorded for it.
abbrev GoneBelow : List ℕ → ℕ → Trie → List ℕ × ℕ → Type 0
GoneBelow addr depth t p = (key : List Bool) × IsGone (paths_at key t) × (p ≡ place addr depth key)

place_here : (addr : List ℕ) (depth : ℕ) → place addr depth [] ≡ (addr, depth)
unfolding write_bits
place_here addr depth = rw (add-zero depth)

place_below :
    (addr : List ℕ) (depth : ℕ) (bit : Bool) (key : List Bool)
    → place (next_addr addr depth bit) (depth + 1) key ≡ place addr depth (bit ∷ key)
unfolding write_bits
place_below addr depth bit key =
    let e : depth + 1 + length key ≡ depth + length (bit ∷ key) = omega arith in rw e

module _ (addr : List ℕ) (depth : ℕ) (n : Node) (l r : Trie) where
  abbrev side : Bool → Trie → List (List ℕ × ℕ)
  side bit t = (delete_stale_from_node (next_addr addr depth bit) (depth + 1) t).removed

  own_removed-gone :
      (p : List ℕ × ℕ)
      → Paths.IsValid n
      → Has p (own_removed addr depth n)
      → GoneBelow addr depth (node n l r) p
  unfolding node_at
  own_removed-gone p valid m = elim (Bool-cases (loses_all n)) [
    | inl e ↦ elim (rw e at m) [
      | inl same ↦ ([], loses_all-IsGone n valid e, same ∙ sym (place_here addr depth))
      | inr h ↦ elim h [ ]
    ]
    | inr e ↦ absurd (rw e at m)
  ]

removed-gone :
    (addr : List ℕ) (depth : ℕ) (t : Trie) (p : List ℕ × ℕ)
    → AllValid t
    → Has p (delete_stale_from_node addr depth t).removed
    → GoneBelow addr depth t p
unfolding delete_stale_from_node node_at all_paths live
removed-gone addr depth nil p v m = elim m [ ]
removed-gone addr depth (node n l r) p v m =
    elim (append-Has p (side addr depth n l r false l)
      (side addr depth n l r true r ++ own_removed addr depth n) m) [
        | inl left ↦
            let (key, g, e) = removed-gone (next_addr addr depth false) (depth + 1) l p v.1 left in
            (false ∷ key, g, e ∙ place_below addr depth false key)
        | inr rest ↦
            elim (append-Has p (side addr depth n l r true r) (own_removed addr depth n) rest) [
              | inl right ↦
                  let (key, g, e) =
                    removed-gone (next_addr addr depth true) (depth + 1) r p v.2 right in
                  (true ∷ key, g, e ∙ place_below addr depth true key)
              | inr own ↦ own_removed-gone addr depth n l r p v.0 own
            ]
      ]

gone-removed :
    (addr : List ℕ) (depth : ℕ) (t : Trie) (key : List Bool)
    → AllValid t
    → IsGone (paths_at key t)
    → Has (place addr depth key) (delete_stale_from_node addr depth t).removed
unfolding delete_stale_from_node node_at all_paths live
gone-removed addr depth nil key v g = elim g.0 [ ]
gone-removed addr depth (node n l r) [] v g =
    let lost = IsGone-loses_all n v.0 g in
    Has-append_right _ (side addr depth n l r false l)
      (side addr depth n l r true r ++ own_removed addr depth n)
      (Has-append_right _ (side addr depth n l r true r) (own_removed addr depth n)
        (rw lost (inl (place_here addr depth))))
gone-removed addr depth (node n l r) (false ∷ key) v g =
    Has-append_left _ (side addr depth n l r false l)
      (side addr depth n l r true r ++ own_removed addr depth n)
      (rw (← place_below addr depth false key)
        (gone-removed (next_addr addr depth false) (depth + 1) l key v.1 g))
gone-removed addr depth (node n l r) (true ∷ key) v g =
    Has-append_right _ (side addr depth n l r false l)
      (side addr depth n l r true r ++ own_removed addr depth n)
      (Has-append_left _ (side addr depth n l r true r) (own_removed addr depth n) (
        rw (← place_below addr depth true key)
          (gone-removed (next_addr addr depth true) (depth + 1) r key v.2 g)))

module _ (fam : Family) where
  abbrev swept_entry : ℕ → Trie → List (List ℕ × ℕ)
  swept_entry i t = (delete_stale_from_node (fam.first i) 8 t).removed

  roots_removed-gone :
      (i : ℕ) (ts : List Trie) (p : List ℕ × ℕ)
      → ((j : ℕ) → AllValid (get_or ts j nil))
      → Has p (sweep_roots fam i ts).removed
      → (j : ℕ) × GoneBelow (fam.first (i + j)) 8 (get_or ts j nil) p
  unfolding sweep_roots
  roots_removed-gone i [] p v m = elim m [ ]
  roots_removed-gone i (t ∷ ts) p v m =
      elim (append-Has p (swept_entry i t) (sweep_roots fam (i + 1) ts).removed m) [
        | inl here ↦ (0, rw (add-zero i) (removed-gone (fam.first i) 8 t p (v 0) here))
        | inr there ↦
            let (j, g) = roots_removed-gone (i + 1) ts p (λ k. v (suc k)) there in
            let e : i + suc j ≡ i + 1 + j = omega arith in (suc j, rw e g)
      ]

  roots_gone-removed :
      (i : ℕ) (ts : List Trie) (j : ℕ) (key : List Bool)
      → ((j : ℕ) → AllValid (get_or ts j nil))
      → IsGone (paths_at key (get_or ts j nil))
      → Has (place (fam.first (i + j)) 8 key) (sweep_roots fam i ts).removed
  unfolding sweep_roots node_at all_paths live
  roots_gone-removed i [] j key v g = elim g.0 [ ]
  roots_gone-removed i (t ∷ ts) zero key v g = rw (add-zero i) (
      Has-append_left _ (swept_entry i t) (sweep_roots fam (i + 1) ts).removed
        (gone-removed (fam.first i) 8 t key (v 0) g))
  roots_gone-removed i (t ∷ ts) (suc j) key v g =
      let e : i + suc j ≡ i + 1 + j = omega arith in
      rw e (
        Has-append_right _ (swept_entry i t) (sweep_roots fam (i + 1) ts).removed
          (roots_gone-removed (i + 1) ts j key (λ k. v (suc k)) g))

-- On a valid RIB, the prefixes that DeleteStaleRoutes returns are those that had a path before and
-- have none afterwards.
pub delete_stale_routes-removed :
    (order : MapOrder) (fam : Family) (r : Rib) (p : IpPrefix)
    → IsValid r
    → Has p (delete_stale_routes order fam r).1 ↔ (
        (j : ℕ) × (key : List Bool) × (1 ≤ length (view r j key))
        × (length (view (delete_stale_routes order fam r).0 j key) ≤ 0)
        × (p ≡ prefix_at fam (fam.first j) 8 key))
unfolding view
delete_stale_routes-removed order fam r p valid = (
  λ m.
      let (a, ma, e) = Has-map as_prefix p (sweep_roots fam 0 r.root).removed (listed p m) in
      let (j, (key, g, same)) = roots_removed-gone fam 0 r.root a valid.nodes ma in
      let z : 0 + j ≡ j = omega arith in
      (
        j,
        key,
        g.0,
        rw (delete_stale_routes-view order fam r valid j key) g.1,
        e ∙ rw z at (ap as_prefix same),
      ),
  λ (j, key, some_path, none_left, e).
      let z : 0 + j ≡ j = omega arith in
      let g : IsGone (view r j key) =
        (some_path, rw (delete_stale_routes-view order fam r valid j key) at none_left) in
      rw e (
        unlisted _
          (map-Has as_prefix _ _ (rw z at (roots_gone-removed fam 0 r.root j key valid.nodes g)))),
)
  where
    as_prefix : List ℕ × ℕ → IpPrefix
    as_prefix a = prefix_from (fam.address a.0) a.1

    listed :
        (x : IpPrefix)
        → Has x (delete_stale_routes order fam r).1
        → Has x (map as_prefix (sweep_roots fam 0 r.root).removed)
    listed x m = unfold delete_stale_routes in m

    unlisted :
        (x : IpPrefix)
        → Has x (map as_prefix (sweep_roots fam 0 r.root).removed)
        → Has x (delete_stale_routes order fam r).1
    unlisted x m = unfold delete_stale_routes in m
