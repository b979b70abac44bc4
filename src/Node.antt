-- ===== src/Node.antt =====
-- node.go: the paths of one trie node. The two flag bits are Booleans (`Node.Flags` relates them to
-- the byte), and the links to other nodes belong to `Trie`.
pub mod Flags
pub mod Paths
pub mod Update
pub mod Remove
pub mod Best
pub mod Laws
pub mod Live
use routing_table.Prelude.{
  ℕ, zero, suc, ◌+◌, Bool, true, false, not, ◌&&◌, Option, none, some, List, [], ◌∷◌, ◌++◌, map,
  length, ltb, ◌==◌, if◌then◌else◌,
}
use routing_table.Attrs.{Pointer, nil_pointer, Store, PathEntry}

-- `node`, without `children` and `parent`
pub record Node : Type 0 where
  pub path_id : ℕ
  pub attrs : Pointer
  pub extra : List PathEntry
  pub has_path : Bool
  pub stale : Bool

-- `&node{}`
abbrev pub empty_node : Node
empty_node = record {
  path_id = 0;
  attrs = nil_pointer;
  extra = [];
  has_path = false;
  stale = false;
}

stale_in : List PathEntry → ℕ → Bool
stale_in [] path_id = false
stale_in (e ∷ es) path_id = if e.path_id == path_id then e.stale else stale_in es path_id

unfoldable pub is_path_stale : Node → ℕ → Bool
unfolding stale_in
is_path_stale n path_id =
    if not n.has_path
    then false
    else if n.path_id == path_id
    then n.stale
    else stale_in n.extra path_id

unfoldable pub paths_count : Node → ℕ
paths_count n = if not n.has_path then 0 else 1 + length n.extra

unfoldable pub all_paths : Node → List PathEntry
all_paths n =
    if not n.has_path
    then []
    else record { attrs = n.attrs; path_id = n.path_id; stale = n.stale } ∷ n.extra

-- `lp := attr.LocalPref; if lp == 0 { lp = 100 }`
abbrev pub pref : Store → Pointer → ℕ
pref store p = if (store p).local_pref == 0 then 100 else (store p).local_pref

-- The loop of `bestPathWithID` over the overflow entries. The source panics on an entry whose
-- pointer is nil, where the loop reads the store at 0; a valid node has no such entry.
best_loop : Store → List PathEntry → Pointer → ℕ → Pointer × ℕ
best_loop store [] best_attr best_id = (best_attr, best_id)
best_loop store (e ∷ es) best_attr best_id =
    let lp1 = pref store e.attrs in
    let lp2 = pref store best_attr in
    let len1 = length (store e.attrs).as_path in
    let len2 = length (store best_attr).as_path in
    let take_it =
      if ltb lp2 lp1
      then true
      else if ltb lp1 lp2
      then false
      else if ltb len1 len2
      then true
      else if ltb len2 len1
      then false
      else ltb e.path_id best_id in
    best_loop store es (if take_it then e.attrs else best_attr)
      (if take_it then e.path_id else best_id)

unfoldable pub best_path_with_id : Store → Node → Pointer × ℕ
unfolding best_loop
best_path_with_id store n =
    if not n.has_path then (nil_pointer, 0) else best_loop store n.extra n.attrs n.path_id

unfoldable pub best_path : Store → Node → Pointer
unfolding best_path_with_id
best_path store n = (best_path_with_id store n).0

pub first_stale_in : List PathEntry → Option ℕ
first_stale_in [] = none
first_stale_in (e ∷ es) = if e.stale then some e.path_id else first_stale_in es

-- `none` is the result `0, false`.
unfoldable pub first_stale_path_id : Node → Option ℕ
unfolding first_stale_in
first_stale_path_id n =
    if not n.has_path then none else if n.stale then some n.path_id else first_stale_in n.extra

-- The loop over the overflow entries: the entry found and the slice without it.
pub remove_entry : List PathEntry → ℕ → Option (Pointer × List PathEntry)
remove_entry [] path_id = none
remove_entry (e ∷ es) path_id =
    let rest : Option (Pointer × List PathEntry) = elim (remove_entry es path_id) [
      | none ↦ none
      | some (a, es') ↦ some (a, e ∷ es')
    ] in
    if e.path_id == path_id then some (e.attrs, es) else rest

-- The first overflow entry moves into the node.
promote : Node → List PathEntry → Node
promote n [] = record n { attrs = nil_pointer; has_path = false; stale = false }
promote n (e ∷ es) = record n { path_id = e.path_id; attrs = e.attrs; stale = e.stale; extra = es }

-- The node, and `oldAttrs, true`, or none for `nil, false`.
unfoldable pub delete_path : Node → ℕ → Node × Option Pointer
unfolding promote remove_entry
delete_path n path_id =
    if not n.has_path
    then (n, none)
    else if n.path_id == path_id
    then (promote n n.extra, some n.attrs)
    else elim (remove_entry n.extra path_id) [
      | none ↦ (n, none)
      | some (a, es) ↦ (record n { extra = es }, some a)
    ]

-- The two loops of `setPath`: replace the first entry that a test selects.
pub replace_first :
    (PathEntry → Bool) → PathEntry → List PathEntry → Option (Pointer × List PathEntry)
replace_first test new [] = none
replace_first test new (e ∷ es) =
    let rest : Option (Pointer × List PathEntry) = elim (replace_first test new es) [
      | none ↦ none
      | some (a, es') ↦ some (a, e ∷ es')
    ] in
    if test e then some (e.attrs, new ∷ es) else rest

-- 3. No match and no stale path to replace.
add_path : Node → PathEntry → Node × Option Pointer
add_path n new =
    if not n.has_path
    then (
      record n { path_id = new.path_id; attrs = new.attrs; stale = new.stale; has_path = true },
      none,
    )
    else (record n { extra = n.extra ++ (new ∷ []) }, none)

-- 2. No exact match: take the place of a stale path.
replace_stale : Node → PathEntry → Node × Option Pointer
unfolding replace_first add_path
replace_stale n new =
    if n.has_path && n.stale
    then (record n { path_id = new.path_id; attrs = new.attrs; stale = new.stale }, some n.attrs)
    else elim (replace_first (λ e. e.stale) new n.extra) [
      | some (a, es) ↦ (record n { extra = es }, some a)
      | none ↦ add_path n new
    ]

-- 1. Exact match by path id. The result is the node, and `oldAttrs, true` or none for `nil, false`.
unfoldable pub set_path : Node → ℕ → Pointer → Bool → Node × Option Pointer
unfolding replace_first replace_stale
set_path n path_id attrs stale =
    let new : PathEntry = record { attrs = attrs; path_id = path_id; stale = stale } in
    if n.has_path && n.path_id == path_id
    then (record n { attrs = attrs; stale = stale }, some n.attrs)
    else elim (replace_first (λ e. e.path_id == path_id) new n.extra) [
      | some (a, es) ↦ (record n { extra = es }, some a)
      | none ↦ replace_stale n new
    ]

-- The loop of `deleteStaleFromNode` on one node: the node that is left, and the attributes in the
-- order in which they are added to the tally. Each round removes a path, which is the fuel.
pub delete_stale_loop : ℕ → Node → Node × List Pointer
delete_stale_loop zero n = (n, [])
delete_stale_loop (suc fuel) n = elim (first_stale_path_id n) [
  | none ↦ (n, [])
  | some path_id ↦
      let m = (delete_path n path_id).0 in
      elim (delete_path n path_id).1 [
        | none ↦ (m, [])
        | some a ↦ let r = delete_stale_loop fuel m in (r.0, a ∷ r.1)
      ]
]

unfoldable pub delete_stale_paths : Node → Node × List Pointer
unfolding delete_stale_loop
delete_stale_paths n = delete_stale_loop (paths_count n) n

-- `n.setStale(true)` and the loop of `markNodeStale`, on one node
unfoldable pub mark_paths_stale : Node → Node
mark_paths_stale n =
    if n.has_path
    then record n {
      stale = true;
      extra = map (λ (e : PathEntry). record e { stale = true }) n.extra;
    }
    else n
