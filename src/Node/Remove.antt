-- ===== src/Node/Remove.antt =====
-- What `remove` does to the list of paths, and the loop that removes the stale ones.
use routing_table.Prelude.{
  ℕ, zero, suc, ◌+◌, ◌≤◌, ◌≡◌, refl, false, Option, none, some, List, [], ◌∷◌, ◌∙◌, ap, sym, length,
  ◌==◌, if◌then◌else◌, arith, Option-cases, inl, inr,
}
use routing_table.Attrs.{Pointer, PathEntry}
use routing_table.Node.{
  Node, all_paths, remove_entry, first_stale_in, first_stale_path_id, delete_path,
  delete_stale_loop,
}
use routing_table.Node.Paths.{
  count, find, refs, remove, delete_path-remove, delete_path-cleared, first_stale-all_paths,
}
use routing_table.Node.Update.{released, added, find-none}

abbrev pub attrs_of : Option PathEntry → Option Pointer
attrs_of none = none
attrs_of (some e) = some e.attrs

module _ (q : ℕ) where
  -- What is returned is the pointer of the path with the id.
  pub remove-old : (es : List PathEntry) → (remove es q).1 ≡ attrs_of (find q es)
  unfolding remove find remove_entry
  remove-old [] = refl
  remove-old (e ∷ es) = ground (arith, remove-old es)

  pub remove-find :
      (p : ℕ) (es : List PathEntry)
      → count p es ≤ 1
      → find p (remove es q).0 ≡ (if q == p then none else find p es)
  unfolding remove find remove_entry count
  remove-find p [] h = ground arith
  remove-find p (e ∷ es) h = ground (arith, remove-find p es, find-none p es)

  pub remove-count : (p : ℕ) (es : List PathEntry) → count p (remove es q).0 ≤ count p es
  unfolding remove remove_entry count
  remove-count p [] = omega arith
  remove-count p (e ∷ es) = ground (arith, remove-count p es)

  pub remove-length :
      (es : List PathEntry) → length (remove es q).0 + 1 ≡ length es + added (remove es q).1
  unfolding remove remove_entry
  remove-length [] = refl
  remove-length (e ∷ es) = ground (arith, remove-length es)

  pub remove-refs :
      (p : Pointer) (es : List PathEntry)
      → refs p (remove es q).0 + released p (remove es q).1 ≡ refs p es
  unfolding remove remove_entry refs
  remove-refs p [] = refl
  remove-refs p (e ∷ es) = ground (arith, remove-refs p es)

-- The paths that are not stale, and the pointers of those that are, in order.
unfoldable pub live : List PathEntry → List PathEntry
live [] = []
live (e ∷ es) = if e.stale then live es else e ∷ live es

unfoldable pub stale_attrs : List PathEntry → List Pointer
stale_attrs [] = []
stale_attrs (e ∷ es) = if e.stale then e.attrs ∷ stale_attrs es else stale_attrs es

live-none :
    (es : List PathEntry) → first_stale_in es ≡ none → (live es ≡ es) × (stale_attrs es ≡ [])
unfolding live stale_attrs first_stale_in
live-none [] h = (refl, refl)
live-none (e ∷ es) h = ground (arith, live-none es)

count_pos : (q : ℕ) (es : List PathEntry) → first_stale_in es ≡ some q → 1 ≤ count q es
unfolding first_stale_in count
count_pos q [] h = cc
count_pos q (e ∷ es) h = ground (arith, count_pos q es)

stale_head : List PathEntry → Pointer
stale_head [] = 0
stale_head (e ∷ es) = if e.stale then e.attrs else stale_head es

-- Ids are distinct, so that the id of the first stale path removes that path.
live-some :
    (q : ℕ) (es : List PathEntry)
    → count q es ≤ 1
    → first_stale_in es ≡ some q
    → ((remove es q).1 ≡ some (stale_head es))
      × (live (remove es q).0 ≡ live es)
      × (stale_attrs es ≡ stale_head es ∷ stale_attrs (remove es q).0)
unfolding live stale_attrs first_stale_in remove remove_entry count stale_head
live-some q [] c h = cc
live-some q (e ∷ es) c h = ground (arith, live-some q es, count_pos q es)

loop-done :
    (fuel : ℕ) (n : Node) → first_stale_path_id n ≡ none → delete_stale_loop (suc fuel) n ≡ (n, [])
unfolding delete_stale_loop
loop-done fuel n e = rw (e, delete_stale_loop)

loop-next :
    (fuel : ℕ) (n : Node) (q : ℕ) (a : Pointer)
    → first_stale_path_id n ≡ some q
    → (delete_path n q).1 ≡ some a
    → let r = delete_stale_loop fuel (delete_path n q).0 in
      delete_stale_loop (suc fuel) n ≡ (r.0, a ∷ r.1)
unfolding delete_stale_loop
loop-next fuel n q a e back = rw (e, delete_stale_loop, back)

loop-stuck :
    (fuel : ℕ) (n : Node) (q : ℕ)
    → first_stale_path_id n ≡ some q
    → (delete_path n q).1 ≡ none
    → delete_stale_loop (suc fuel) n ≡ ((delete_path n q).0, [])
unfolding delete_stale_loop
loop-stuck fuel n q e back = rw (e, delete_stale_loop, back)

live-empty : (es : List PathEntry) → length es ≤ 0 → (live es ≡ es) × (stale_attrs es ≡ [])
unfolding live stale_attrs
live-empty [] h = (refl, refl)
live-empty (e ∷ es) h = absurd (omega arith)

-- The loop ends with no stale path left: the paths that are not stale stay in their order, and the
-- pointers of the others are tallied, each once.
pub delete_stale_loop-live :
    (fuel : ℕ) (n : Node)
    → (n.has_path ≡ false → (n.extra ≡ []) × (n.stale ≡ false))
    → ((q : ℕ) → count q (all_paths n) ≤ 1)
    → length (all_paths n) ≤ fuel
    → (all_paths (delete_stale_loop fuel n).0 ≡ live (all_paths n))
      × ((delete_stale_loop fuel n).1 ≡ stale_attrs (all_paths n))
unfolding delete_stale_loop
delete_stale_loop-live zero n cleared distinct enough =
    let (a, b) = live-empty (all_paths n) enough in (sym a, sym b)
delete_stale_loop-live (suc fuel) n cleared distinct enough =
    elim (Option-cases (first_stale_path_id n)) [
      | inl e ↦
          let (a, b) = live-none (all_paths n) (sym (first_stale-all_paths n) ∙ e) in
          rw (loop-done fuel n e) (sym a, sym b)
      | inr (q, e) ↦
          let (same, old) = delete_path-remove n cleared q in
          let (back, kept, tally) =
            live-some q (all_paths n) (distinct q) (sym (first_stale-all_paths n) ∙ e) in
          let (ih, ih') =
            delete_stale_loop-live fuel (delete_path n q).0 (delete_path-cleared n cleared q)
              (λ p. rw same (omega (arith, remove-count q p (all_paths n), distinct p)))
              (rw same (ground (arith, remove-length q (all_paths n)))) in
          rw (loop-next fuel n q _ e (old ∙ back)) (
            ih ∙ ap live same ∙ kept,
            ap (λ r. stale_head (all_paths n) ∷ r) (ih' ∙ ap stale_attrs same) ∙ sym tally,
          )
    ]

pub live-count : (q : ℕ) (es : List PathEntry) → count q (live es) ≤ count q es
unfolding live count
live-count q [] = omega arith
live-count q (e ∷ es) = ground (arith, live-count q es)

pub live-refs_le : (p : Pointer) (es : List PathEntry) → refs p (live es) ≤ refs p es
unfolding live refs
live-refs_le p [] = omega arith
live-refs_le p (e ∷ es) = ground (arith, live-refs_le p es)

pub delete_stale_loop-cleared :
    (fuel : ℕ) (n : Node)
    → (n.has_path ≡ false → (n.extra ≡ []) × (n.stale ≡ false))
    → (delete_stale_loop fuel n).0.has_path ≡ false
    → ((delete_stale_loop fuel n).0.extra ≡ []) × ((delete_stale_loop fuel n).0.stale ≡ false)
unfolding delete_stale_loop
delete_stale_loop-cleared zero n cleared = cleared
delete_stale_loop-cleared (suc fuel) n cleared = elim (Option-cases (first_stale_path_id n)) [
  | inl e ↦ rw (loop-done fuel n e) cleared
  | inr (q, e) ↦
      let cleared' = delete_path-cleared n cleared q in
      elim (Option-cases (delete_path n q).1) [
        | inl back ↦ rw (loop-stuck fuel n q e back) cleared'
        | inr (a, back) ↦
            rw (loop-next fuel n q a e back)
              (delete_stale_loop-cleared fuel (delete_path n q).0 cleared')
      ]
]
