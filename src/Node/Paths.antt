-- ===== src/Node/Paths.antt =====
-- The abstract view of a node: one list of paths, in which the inline path is the first. Each
-- method of node.go is an operation on that list.
use routing_table.Prelude.{
  ℕ, ◌+◌, ◌≤◌, ◌≡◌, refl, Bool, true, false, not, Option, none, some, List, [], ◌∷◌, ◌++◌, length,
  map, ◌==◌, if◌then◌else◌, arith,
}
use routing_table.Attrs.{Pointer, nil_pointer, PathEntry}
use routing_table.Node.{
  Node, is_path_stale, stale_in, paths_count, all_paths, first_stale_path_id, first_stale_in,
  delete_path, remove_entry, set_path, replace_first, mark_paths_stale,
}

abbrev pub is_empty : List PathEntry → Bool
is_empty [] = true
is_empty (e ∷ es) = false

-- The paths with the id, counted.
unfoldable pub count : ℕ → List PathEntry → ℕ
count q [] = 0
count q (e ∷ es) = (if e.path_id == q then 1 else 0) + count q es

-- The path with the id.
unfoldable pub find : ℕ → List PathEntry → Option PathEntry
find q [] = none
find q (e ∷ es) = if e.path_id == q then some e else find q es

-- The references to a pointer.
unfoldable pub refs : Pointer → List PathEntry → ℕ
refs p [] = 0
refs p (e ∷ es) = (if e.attrs == p then 1 else 0) + refs p es

-- A node without a path has no overflow and no stale bit; ids are distinct, and no pointer is nil.
pub record IsValid (n : Node) : Type 0 where
  pub cleared : n.has_path ≡ false → (n.extra ≡ []) × (n.stale ≡ false)
  pub distinct : (q : ℕ) → count q (all_paths n) ≤ 1
  pub present : refs nil_pointer (all_paths n) ≡ 0

-- `setPath` on the list: the path with the id is replaced, else the first stale one, else one is added.
unfoldable pub put : List PathEntry → PathEntry → List PathEntry × Option Pointer
put es new = elim (replace_first (λ e. e.path_id == new.path_id) new es) [
  | some (a, es') ↦ (es', some a)
  | none ↦ elim (replace_first (λ e. e.stale) new es) [
    | some (a, es') ↦ (es', some a)
    | none ↦ (es ++ (new ∷ []), none)
  ]
]

-- `deletePath` on the list.
unfoldable pub remove : List PathEntry → ℕ → List PathEntry × Option Pointer
remove es q = elim (remove_entry es q) [ none ↦ (es, none) | some (a, es') ↦ (es', some a) ]

module _ (n : Node) (cleared : n.has_path ≡ false → (n.extra ≡ []) × (n.stale ≡ false)) where
  pub set_path-put :
      (q : ℕ) (a : Pointer) (s : Bool)
      → let new : PathEntry = record { attrs = a; path_id = q; stale = s } in
        (all_paths (set_path n q a s).0 ≡ (put (all_paths n) new).0)
        × ((set_path n q a s).1 ≡ (put (all_paths n) new).1)
  unfolding set_path all_paths put
  set_path-put q a s = ground arith

  pub delete_path-remove :
      (q : ℕ)
      → (all_paths (delete_path n q).0 ≡ (remove (all_paths n) q).0)
        × ((delete_path n q).1 ≡ (remove (all_paths n) q).1)
  unfolding delete_path all_paths remove
  delete_path-remove q = ground arith

  pub set_path-cleared : (q : ℕ) (a : Pointer) (s : Bool) → (set_path n q a s).0.has_path ≡ true
  unfolding set_path
  set_path-cleared q a s = ground arith

  pub delete_path-cleared :
      (q : ℕ)
      → (delete_path n q).0.has_path ≡ false
      → ((delete_path n q).0.extra ≡ []) × ((delete_path n q).0.stale ≡ false)
  unfolding delete_path
  delete_path-cleared q = ground arith

pub mark_paths_stale-map :
    (n : Node)
    → all_paths (mark_paths_stale n)
      ≡ map (λ (e : PathEntry). record e { stale = true }) (all_paths n)
unfolding mark_paths_stale all_paths
mark_paths_stale-map n = ground arith

abbrev pub stale_of : Option PathEntry → Bool
stale_of none = false
stale_of (some e) = e.stale

stale_in-find : (es : List PathEntry) (q : ℕ) → stale_in es q ≡ stale_of (find q es)
unfolding stale_in find
stale_in-find [] q = refl
stale_in-find (e ∷ es) q = ground (arith, stale_in-find es q)

pub is_path_stale-find : (n : Node) (q : ℕ) → is_path_stale n q ≡ stale_of (find q (all_paths n))
unfolding is_path_stale all_paths find
is_path_stale-find n q = ground (arith, stale_in-find n.extra q)

pub first_stale-all_paths : (n : Node) → first_stale_path_id n ≡ first_stale_in (all_paths n)
unfolding first_stale_path_id all_paths
first_stale-all_paths n = ground arith

pub paths_count-length : (n : Node) → paths_count n ≡ length (all_paths n)
unfolding paths_count all_paths
paths_count-length n = ground arith

pub has_path-all_paths : (n : Node) → n.has_path ≡ not (is_empty (all_paths n))
unfolding all_paths
has_path-all_paths n = ground arith
