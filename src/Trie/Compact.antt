-- ===== src/Trie/Compact.antt =====
-- Tries without empty leaves.
use routing_table.Prelude.{
  ℕ, ◌≡◌, ◌≢◌, refl, Bool, true, false, List, [], ◌∷◌, ◌+◌, ◌-◌, ◌≤◌, ◌<◌, length, take,
  if◌then◌else◌, Bool-cases, Option-cases, inl, inr,
}
use routing_table.Attrs.{Pointer}
use routing_table.Node.{Node, set_path, delete_path}
use routing_table.Trie.{
  Trie, nil, node, child, make, put_here, Crumb, crumb_of, plug, plug_all, delete_node,
  is_empty_leaf, delete_here, delete_found, delete_walk,
}
use routing_table.Trie.Insert.{insert_at, insert_at-results}
use routing_table.Trie.Reads.{node_at, node_at-make, make-ne-nil}
use routing_table.Trie.Delete.{subtrie, crumbs_at, found, locate-crumbs_at}

abbrev pub IsCompact : Trie → Type 0
IsCompact nil = Unit {0}
IsCompact (node n l r) = (is_empty_leaf (node n l r) ≡ false) × IsCompact l × IsCompact r

-- The children are compact.
abbrev pub IsBelow : Trie → Type 0
IsBelow nil = Unit {0}
IsBelow (node n l r) = IsCompact l × IsCompact r

pub IsCompact-IsBelow : (t : Trie) → IsCompact t → IsBelow t
IsCompact-IsBelow nil v = tt
IsCompact-IsBelow (node n l r) v = (v.1, v.2)

pub IsBelow-IsCompact : (t : Trie) → is_empty_leaf t ≡ false → IsBelow t → IsCompact t
IsBelow-IsCompact nil e v = tt
IsBelow-IsCompact (node n l r) e v = (e, v.0, v.1)

pub make-IsBelow : (t : Trie) → IsCompact t → IsBelow (make t).0
make-IsBelow nil v = (tt, tt)
make-IsBelow (node n l r) v = (v.1, v.2)

not_leaf_left : (n : Node) (l r : Trie) → l ≢ nil → is_empty_leaf (node n l r) ≡ false
not_leaf_left n nil r h = absurd (h refl)
not_leaf_left n (node _ _ _) r h = refl

not_leaf_right : (n : Node) (l r : Trie) → r ≢ nil → is_empty_leaf (node n l r) ≡ false
not_leaf_right n l nil h = absurd (h refl)
not_leaf_right n nil (node _ _ _) h = refl
not_leaf_right n (node _ _ _) (node _ _ _) h = refl

not_leaf_path : (n : Node) (l r : Trie) → n.has_path ≡ true → is_empty_leaf (node n l r) ≡ false
not_leaf_path n nil nil h = rw h
not_leaf_path n nil (node _ _ _) h = refl
not_leaf_path n (node _ _ _) r h = refl

pub insert_at-IsCompact :
    (path_id : ℕ) (attrs : Pointer) (key : List Bool) (t : Trie)
    → t ≢ nil
    → (set_path (node_at key t) path_id attrs false).0.has_path ≡ true
    → IsBelow t
    → IsCompact (insert_at key path_id attrs t).trie
unfolding insert_at put_here node_at
insert_at-IsCompact path_id attrs key nil h fills v = absurd (h refl)
insert_at-IsCompact path_id attrs [] (node n l r) h fills v =
    (not_leaf_path (set_path n path_id attrs false).0 l r fills, v.0, v.1)
insert_at-IsCompact path_id attrs (false ∷ key) (node n l r) h fills v =
    let there = make-ne-nil l in
    let below =
      insert_at-IsCompact path_id attrs key (make l).0 there (rw (node_at-make key l) fills)
        (make-IsBelow l v.0) in
    (not_leaf_left n _ r (insert_at-results path_id attrs key (make l).0 there).3, below, v.1)
insert_at-IsCompact path_id attrs (true ∷ key) (node n l r) h fills v =
    let there = make-ne-nil r in
    let below =
      insert_at-IsCompact path_id attrs key (make r).0 there (rw (node_at-make key r) fills)
        (make-IsBelow r v.1) in
    (not_leaf_right n l _ (insert_at-results path_id attrs key (make r).0 there).3, v.0, below)

-- The other children on the way back.
AllOther : List Crumb → Type 0
AllOther [] = Unit {0}
AllOther (c ∷ crumbs) = IsCompact c.other × AllOther crumbs

plug-IsBelow :
    (b : Bool) (n : Node) (o t : Trie)
    → IsCompact o
    → IsCompact t
    → IsBelow (if b then node n o t else node n t o)
plug-IsBelow true n o t c v = (c, v)
plug-IsBelow false n o t c v = (v, c)

plug_leaf :
    (b : Bool) (n : Node) (o t : Trie)
    → t ≢ nil
    → is_empty_leaf (if b then node n o t else node n t o) ≡ false
plug_leaf true n o t h = not_leaf_right n o t h
plug_leaf false n o t h = not_leaf_left n t o h

plug-ne-nil : (b : Bool) (n : Node) (o t : Trie) → (if b then node n o t else node n t o) ≢ nil
plug-ne-nil true n o t = λ e. cc
plug-ne-nil false n o t = λ e. cc

plug_all-IsBelow :
    (crumbs : List Crumb) (t : Trie)
    → AllOther crumbs
    → t ≢ nil
    → IsCompact t
    → IsBelow (plug_all crumbs t)
unfolding plug_all AllOther
plug_all-IsBelow [] t cs h v = IsCompact-IsBelow t v
plug_all-IsBelow (c ∷ crumbs) t cs h v =
    plug_all-IsBelow crumbs (plug c t) cs.1 (plug-ne-nil c.bit c.above c.other t) (
      IsBelow-IsCompact (plug c t) (plug_leaf c.bit c.above c.other t h)
        (plug-IsBelow c.bit c.above c.other t cs.0 v))

-- deleteNode leaves no empty leaf below the root entry.
delete_node-IsBelow :
    (crumbs : List Crumb) (t : Trie)
    → AllOther crumbs
    → t ≢ nil
    → IsBelow t
    → IsBelow (delete_node crumbs t).1
unfolding delete_node AllOther
delete_node-IsBelow [] t cs h v = v
delete_node-IsBelow (c ∷ crumbs) t cs h v = elim (Bool-cases (is_empty_leaf t)) [
  | inl e ↦ rw e (
      delete_node-IsBelow crumbs (plug c nil) cs.1 (plug-ne-nil c.bit c.above c.other nil)
        (plug-IsBelow c.bit c.above c.other nil cs.0 tt))
  | inr e ↦ rw e (plug_all-IsBelow (c ∷ crumbs) t cs h (IsBelow-IsCompact t e v))
]

child-IsCompact : (b : Bool) (t : Trie) → IsCompact t → IsCompact (child b t)
child-IsCompact b nil v = tt
child-IsCompact true (node n l r) v = v.2
child-IsCompact false (node n l r) v = v.1

crumb_of-IsCompact : (b : Bool) (t : Trie) → IsCompact t → IsCompact (crumb_of b t).other
crumb_of-IsCompact b nil v = tt
crumb_of-IsCompact true (node n l r) v = v.1
crumb_of-IsCompact false (node n l r) v = v.2

crumbs_at-AllOther :
    (key : List Bool) (t : Trie) (crumbs : List Crumb)
    → IsCompact t
    → AllOther crumbs
    → IsCompact (subtrie key t) × AllOther (crumbs_at key t crumbs)
unfolding subtrie crumbs_at AllOther
crumbs_at-AllOther [] t crumbs v cs = (v, cs)
crumbs_at-AllOther (bit ∷ key) t crumbs v cs =
    crumbs_at-AllOther key (child bit t) (crumb_of bit t ∷ crumbs) (child-IsCompact bit t v)
      (crumb_of-IsCompact bit t v, cs)

delete_here-IsBelow :
    (path_id : ℕ) (whole : Trie) (n : Node) (l r : Trie) (crumbs : List Crumb)
    → IsCompact whole
    → IsBelow (node n l r)
    → AllOther crumbs
    → IsBelow (delete_here path_id whole (node n l r, crumbs)).trie
unfolding delete_here
delete_here-IsBelow path_id whole n l r crumbs w v cs =
    let m = (delete_path n path_id).0 in
    elim (Option-cases (delete_path n path_id).1) [
      | inl e ↦ rw (e, delete_here) (IsCompact-IsBelow whole w)
      | inr (a, e) ↦
          rw (e, delete_here)
            (elim (Bool-cases m.has_path) [
              | inl h ↦ rw h (
                  plug_all-IsBelow crumbs (node m l r) cs (λ x. cc)
                    (not_leaf_path m l r h, v.0, v.1))
              | inr h ↦ rw h (delete_node-IsBelow crumbs (node m l r) cs (λ x. cc) v)
            ])
    ]

found-IsBelow :
    (path_id : ℕ) (whole s : Trie) (crumbs : List Crumb)
    → IsCompact whole
    → IsCompact s × AllOther crumbs
    → IsBelow (delete_found path_id whole (found s crumbs)).trie
unfolding delete_found found
found-IsBelow path_id whole nil crumbs w c = IsCompact-IsBelow whole w
found-IsBelow path_id whole (node n l r) crumbs w c =
    delete_here-IsBelow path_id whole n l r crumbs w (c.0.1, c.0.2) c.1

pub delete_walk-IsBelow :
    (bits : List Bool) (k mask path_id : ℕ) (t : Trie)
    → k ≤ mask
    → mask < k + length bits
    → IsCompact t
    → IsBelow (delete_walk bits k mask path_id t).trie
unfolding delete_walk AllOther
delete_walk-IsBelow bits k mask path_id t h l v =
    let key = take (mask + 1 - k) bits in
    rw (locate-crumbs_at bits k mask t [] h l) (
      found-IsBelow path_id t (subtrie key t) (crumbs_at key t []) v
        (crumbs_at-AllOther key t [] v tt))

pub delete_root-IsBelow :
    (path_id : ℕ) (t : Trie) → IsCompact t → IsBelow (delete_here path_id t (t, [])).trie
unfolding delete_here AllOther
delete_root-IsBelow path_id nil v = tt
delete_root-IsBelow path_id (node n l r) v =
    delete_here-IsBelow path_id (node n l r) n l r [] v (v.1, v.2) tt
