-- ===== src/Trie/Sound.antt =====
-- Tries of which each node is valid.
use routing_table.Prelude.{
  ℕ, ◌≢◌, Bool, true, false, List, [], ◌∷◌, ◌+◌, ◌-◌, ◌≤◌, ◌<◌, length, take, if◌then◌else◌,
  Bool-cases, Option-cases, inl, inr,
}
use routing_table.Attrs.{Pointer, nil_pointer}
use routing_table.Node.{Node, delete_path}
use routing_table.Node.Paths.{IsValid}
use routing_table.Node.Laws.{empty_node-IsValid, set_path-Sets, delete_path-Deletes}
use routing_table.Trie.{
  Trie, nil, node, child, make, put_here, Crumb, crumb_of, plug, plug_all, delete_node,
  is_empty_leaf, delete_here, delete_found, delete_walk,
}
use routing_table.Trie.Reads.{node_at}
use routing_table.Trie.Insert.{insert_at}
use routing_table.Trie.Delete.{subtrie, crumbs_at, found, locate-crumbs_at}

-- Every node satisfies the node invariant.
abbrev pub AllValid : Trie → Type 0
AllValid nil = Unit {0}
AllValid (node n l r) = IsValid n × AllValid l × AllValid r

pub AllValid-node_at : (key : List Bool) (t : Trie) → AllValid t → IsValid (node_at key t)
unfolding node_at
AllValid-node_at key nil v = empty_node-IsValid
AllValid-node_at [] (node n l r) v = v.0
AllValid-node_at (false ∷ key) (node n l r) v = AllValid-node_at key l v.1
AllValid-node_at (true ∷ key) (node n l r) v = AllValid-node_at key r v.2

pub AllValid-make : (t : Trie) → AllValid t → AllValid (make t).0
AllValid-make nil v = (empty_node-IsValid, tt, tt)
AllValid-make (node n l r) v = v

pub insert_at-AllValid :
    (path_id : ℕ) (attrs : Pointer) (key : List Bool) (t : Trie)
    → attrs ≢ nil_pointer
    → AllValid t
    → AllValid (insert_at key path_id attrs t).trie
unfolding insert_at put_here
insert_at-AllValid path_id attrs [] nil present v = tt
insert_at-AllValid path_id attrs (b ∷ key) nil present v = tt
insert_at-AllValid path_id attrs [] (node n l r) present v =
    ((set_path-Sets n path_id attrs false v.0 present).valid, v.1, v.2)
insert_at-AllValid path_id attrs (false ∷ key) (node n l r) present v =
    (v.0, insert_at-AllValid path_id attrs key (make l).0 present (AllValid-make l v.1), v.2)
insert_at-AllValid path_id attrs (true ∷ key) (node n l r) present v =
    (v.0, v.1, insert_at-AllValid path_id attrs key (make r).0 present (AllValid-make r v.2))

-- The nodes and the other children on the way back.
AllCrumbs : List Crumb → Type 0
AllCrumbs [] = Unit {0}
AllCrumbs (c ∷ crumbs) = (IsValid c.above × AllValid c.other) × AllCrumbs crumbs

plug_valid :
    (b : Bool) (n : Node) (o t : Trie)
    → IsValid n × AllValid o
    → AllValid t
    → AllValid (if b then node n o t else node n t o)
plug_valid true n o t c v = (c.0, c.1, v)
plug_valid false n o t c v = (c.0, v, c.1)

plug_all-AllValid :
    (crumbs : List Crumb) (t : Trie) → AllCrumbs crumbs → AllValid t → AllValid (plug_all crumbs t)
unfolding plug_all AllCrumbs
plug_all-AllValid [] t cs v = v
plug_all-AllValid (c ∷ crumbs) t cs v =
    plug_all-AllValid crumbs (plug c t) cs.1 (plug_valid c.bit c.above c.other t cs.0 v)

delete_node-AllValid :
    (crumbs : List Crumb) (t : Trie)
    → AllCrumbs crumbs
    → AllValid t
    → AllValid (delete_node crumbs t).1
unfolding delete_node AllCrumbs
delete_node-AllValid [] t cs v = v
delete_node-AllValid (c ∷ crumbs) t cs v = elim (Bool-cases (is_empty_leaf t)) [
  | inl e ↦
      rw e (
        delete_node-AllValid crumbs (plug c nil) cs.1
          (plug_valid c.bit c.above c.other nil cs.0 tt))
  | inr e ↦ rw e (plug_all-AllValid (c ∷ crumbs) t cs v)
]

crumb_of-IsValid :
    (b : Bool) (t : Trie)
    → AllValid t
    → IsValid (crumb_of b t).above × AllValid (crumb_of b t).other
crumb_of-IsValid b nil v = (empty_node-IsValid, tt)
crumb_of-IsValid true (node n l r) v = (v.0, v.1)
crumb_of-IsValid false (node n l r) v = (v.0, v.2)

child-valid : (b : Bool) (t : Trie) → AllValid t → AllValid (child b t)
child-valid b nil v = tt
child-valid true (node n l r) v = v.2
child-valid false (node n l r) v = v.1

crumbs_at-valid :
    (key : List Bool) (t : Trie) (crumbs : List Crumb)
    → AllValid t
    → AllCrumbs crumbs
    → AllValid (subtrie key t) × AllCrumbs (crumbs_at key t crumbs)
unfolding subtrie crumbs_at AllCrumbs
crumbs_at-valid [] t crumbs v cs = (v, cs)
crumbs_at-valid (bit ∷ key) t crumbs v cs =
    crumbs_at-valid key (child bit t) (crumb_of bit t ∷ crumbs) (child-valid bit t v)
      (crumb_of-IsValid bit t v, cs)

delete_here-AllValid :
    (path_id : ℕ) (whole : Trie) (n : Node) (l r : Trie) (crumbs : List Crumb)
    → AllValid whole
    → AllValid (node n l r)
    → AllCrumbs crumbs
    → AllValid (delete_here path_id whole (node n l r, crumbs)).trie
unfolding delete_here
delete_here-AllValid path_id whole n l r crumbs w v cs =
    let m = (delete_path n path_id).0 in
    let left : AllValid (node m l r) = ((delete_path-Deletes n path_id v.0).valid, v.1, v.2) in
    elim (Option-cases (delete_path n path_id).1) [
      | inl e ↦ rw (e, delete_here) w
      | inr (a, e) ↦
          rw (e, delete_here)
            (elim (Bool-cases m.has_path) [
              | inl h ↦ rw h (plug_all-AllValid crumbs (node m l r) cs left)
              | inr h ↦ rw h (delete_node-AllValid crumbs (node m l r) cs left)
            ])
    ]

found-AllValid :
    (path_id : ℕ) (whole s : Trie) (crumbs : List Crumb)
    → AllValid whole
    → AllValid s × AllCrumbs crumbs
    → AllValid (delete_found path_id whole (found s crumbs)).trie
unfolding delete_found found
found-AllValid path_id whole nil crumbs w c = w
found-AllValid path_id whole (node n l r) crumbs w c =
    delete_here-AllValid path_id whole n l r crumbs w c.0 c.1

pub delete_walk-AllValid :
    (bits : List Bool) (k mask path_id : ℕ) (t : Trie)
    → k ≤ mask
    → mask < k + length bits
    → AllValid t
    → AllValid (delete_walk bits k mask path_id t).trie
unfolding delete_walk AllCrumbs
delete_walk-AllValid bits k mask path_id t h l v =
    let key = take (mask + 1 - k) bits in
    rw (locate-crumbs_at bits k mask t [] h l) (
      found-AllValid path_id t (subtrie key t) (crumbs_at key t []) v
        (crumbs_at-valid key t [] v tt))

pub delete_root-AllValid :
    (path_id : ℕ) (t : Trie) → AllValid t → AllValid (delete_here path_id t (t, [])).trie
unfolding delete_here AllCrumbs
delete_root-AllValid path_id nil v = tt
delete_root-AllValid path_id (node n l r) v =
    delete_here-AllValid path_id (node n l r) n l r [] v v tt
