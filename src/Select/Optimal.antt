-- ===== src/Select/Optimal.antt =====
-- SelectBest over any list of routes.
use routing_table.Prelude.{
  ℕ, ◌≡◌, refl, sym, ap, ◌∙◌, ◌⊎◌, Option, none, some, List, [], ◌∷◌, length, Has, inl, inr, All,
  arith,
}
use routing_table.Attrs.{RouteAttributes, Route}
use routing_table.Rank.{Rank, AtLeast, AtLeast-refl, AtLeast-trans, AtLeast-antisymm}
use routing_table.Select.{select_best, select_loop, pick, replaces, preference}

abbrev pub route_rank : RouteAttributes → ℕ → Rank
route_rank a id = record { pref = preference a; len = length a.as_path; id = id }

-- The first route is at least as good as the second, or the second has no attributes.
abbrev pub CoversAt : Option RouteAttributes → ℕ → Option RouteAttributes → ℕ → Type 0
CoversAt best best_id none id = Unit {0}
CoversAt none best_id (some a) id = ⊥
CoversAt (some b) best_id (some a) id = AtLeast (route_rank b best_id) (route_rank a id)

abbrev pub Covers : Route → Route → Type 0
Covers best r = CoversAt best.attributes best.path_id r.attributes r.path_id

CoversAt-refl : (a : Option RouteAttributes) (id : ℕ) → CoversAt a id a id
CoversAt-refl none id = tt
CoversAt-refl (some a) id = AtLeast-refl (route_rank a id)

CoversAt-trans :
    (a b c : Option RouteAttributes) (i j k : ℕ)
    → CoversAt a i b j
    → CoversAt b j c k
    → CoversAt a i c k
CoversAt-trans a b none i j k h l = tt
CoversAt-trans a none (some c) i j k h l = elim l [ ]
CoversAt-trans none (some b) (some c) i j k h l = elim h [ ]
CoversAt-trans (some a) (some b) (some c) i j k h l =
    AtLeast-trans (route_rank a i) (route_rank b j) (route_rank c k) h l

Covers-trans : (a b c : Route) → Covers a b → Covers b c → Covers a c
Covers-trans a b c =
    CoversAt-trans a.attributes b.attributes c.attributes a.path_id b.path_id c.path_id

module _ (curr best : Route) where
  pick-Covers : Covers (pick curr best) curr × Covers (pick curr best) best
  unfolding pick replaces
  pick-Covers = ground arith

  pick_one_of : (pick curr best ≡ curr) ⊎ (pick curr best ≡ best)
  unfolding pick replaces
  pick_one_of = ground arith

All-Has : (P : Route → Type 0) (rs : List Route) → All P rs → (r : Route) → Has r rs → P r
All-Has P [] all r h = elim h [ ]
All-Has P (x ∷ rs) all r (inl e) = rw e all.0
All-Has P (x ∷ rs) all r (inr h) = All-Has P rs all.1 r h

select_loop-Has : (rs : List Route) (b : Route) → Has (select_loop rs b) (b ∷ rs)
unfolding select_loop
select_loop-Has [] b = inl refl
select_loop-Has (r ∷ rs) b = elim (select_loop-Has rs (pick r b)) [
  | inr h ↦ inr (inr h)
  | inl e ↦ elim (pick_one_of r b) [ inl p ↦ inr (inl (e ∙ p)) | inr p ↦ inl (e ∙ p) ]
]

select_loop-Covers : (rs : List Route) (b : Route) → All (Covers (select_loop rs b)) (b ∷ rs)
unfolding select_loop
select_loop-Covers [] b = (CoversAt-refl b.attributes b.path_id, tt)
select_loop-Covers (r ∷ rs) b =
    let c = pick r b in
    let (top, all) = select_loop-Covers rs c in
    (
      Covers-trans (select_loop rs c) c b top (pick-Covers r b).1,
      (Covers-trans (select_loop rs c) c r top (pick-Covers r b).0, all),
    )

-- SelectBest of a list that is not empty returns a route of the list that is at least as good as
-- every route of the list with attributes; so it has attributes if any route has.
pub select_best-optimal :
    (r : Route) (rs : List Route)
    → (s : Route) × (select_best (r ∷ rs) ≡ some s) × Has s (r ∷ rs) × All (Covers s) (r ∷ rs)
unfolding select_best
select_best-optimal r rs = (select_loop rs r, refl, select_loop-Has rs r, select_loop-Covers rs r)

CoversAt-antisymm :
    (a b : Option RouteAttributes) (i j : ℕ) (w : RouteAttributes)
    → a ≡ some w
    → CoversAt a i b j
    → CoversAt b j a i
    → i ≡ j
CoversAt-antisymm none b i j w e h k = cc
CoversAt-antisymm (some a) none i j w e h k = elim k [ ]
CoversAt-antisymm (some a) (some b) i j w e h k =
    AtLeast-antisymm (route_rank a i) (route_rank b j) h k

CoversAt-some :
    (a b : Option RouteAttributes) (i j : ℕ) (w : RouteAttributes)
    → b ≡ some w
    → CoversAt a i b j
    → (v : RouteAttributes) × (a ≡ some v)
CoversAt-some a none i j w e h = cc
CoversAt-some none (some b) i j w e h = elim h [ ]
CoversAt-some (some a) (some b) i j w e h = (a, refl)

-- SelectBest does not depend on the order of the routes: two lists with the same routes, of which
-- no two have the same path id and one has attributes, give the same result.
pub select_best_order :
    (rs rs' : List Route) (t : Route) (w : RouteAttributes)
    → ((x : Route) → Has x rs → Has x rs')
    → ((x : Route) → Has x rs' → Has x rs)
    → ((x y : Route) → Has x rs → Has y rs → x.path_id ≡ y.path_id → x ≡ y)
    → Has t rs
    → t.attributes ≡ some w
    → select_best rs ≡ select_best rs'
select_best_order [] rs' t w into back distinct ht ew = elim ht [ ]
select_best_order (r ∷ rs) [] t w into back distinct ht ew = elim (into t ht) [ ]
select_best_order (r ∷ rs) (r' ∷ rs') t w into back distinct ht ew =
    let (s, run, hs, cover) = select_best-optimal r rs in
    let (s', run', hs', cover') = select_best-optimal r' rs' in
    let (v, ev) =
      CoversAt-some s.attributes t.attributes s.path_id t.path_id w ew
        (All-Has (Covers s) (r ∷ rs) cover t ht) in
    let same =
      CoversAt-antisymm s.attributes s'.attributes s.path_id s'.path_id v ev
        (All-Has (Covers s) (r ∷ rs) cover s' (back s' hs'))
        (All-Has (Covers s') (r' ∷ rs') cover' s (into s hs)) in
    run ∙ ap some (distinct s s' hs (back s' hs') same) ∙ sym run'
