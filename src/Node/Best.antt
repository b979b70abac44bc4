-- ===== src/Node/Best.antt =====
-- bestPathWithID of node.go against the order on paths.
use routing_table.Prelude.{
  ◌≡◌, refl, Bool, true, false, List, [], ◌∷◌, inl, inr, length, All, Has, ltb, if◌then◌else◌,
  arith,
}
use routing_table.Attrs.{Store, PathEntry}
use routing_table.Rank.{Rank, AtLeast, AtLeast-refl, AtLeast-trans}
use routing_table.Node.{Node, all_paths, best_loop, best_path_with_id, pref}

abbrev pub rank_of : Store → PathEntry → Rank
rank_of store e = record {
  pref = pref store e.attrs;
  len = length (store e.attrs).as_path;
  id = e.path_id;
}

-- The tests of the loop's body, in the order of the code.
unfoldable pub better : Store → PathEntry → PathEntry → Bool
better store e d =
    let len1 = length (store e.attrs).as_path in
    let len2 = length (store d.attrs).as_path in
    if ltb (pref store d.attrs) (pref store e.attrs)
    then true
    else if ltb (pref store e.attrs) (pref store d.attrs)
    then false
    else if ltb len1 len2
    then true
    else if ltb len2 len1
    then false
    else ltb e.path_id d.path_id

-- The entry that the loop ends with, when it starts with an entry.
unfoldable pub best_entry : Store → List PathEntry → PathEntry → PathEntry
best_entry store [] d = d
best_entry store (e ∷ es) d = best_entry store es (if better store e d then e else d)

better-AtLeast :
    (store : Store) (e d : PathEntry)
    → better store e d ≡ true
    → AtLeast (rank_of store e) (rank_of store d)
unfolding better
better-AtLeast store e d h = ground arith

not_better-AtLeast :
    (store : Store) (e d : PathEntry)
    → better store e d ≡ false
    → AtLeast (rank_of store d) (rank_of store e)
unfolding better
not_better-AtLeast store e d h = ground arith

-- One round of the loop, whatever the test says.
module _ (store : Store) (es : List PathEntry) (e d : PathEntry) where
  round-entry :
      (b : Bool)
      → ((x : PathEntry)
          → best_loop store es x.attrs x.path_id
            ≡ ((best_entry store es x).attrs, (best_entry store es x).path_id))
      → let c = best_entry store es (if b then e else d) in
        best_loop store es (if b then e.attrs else d.attrs) (if b then e.path_id else d.path_id)
        ≡ (c.attrs, c.path_id)
  round-entry true ih = ih e
  round-entry false ih = ih d

  round-Has :
      (b : Bool)
      → ((x : PathEntry) → Has (best_entry store es x) (x ∷ es))
      → Has (best_entry store es (if b then e else d)) (d ∷ e ∷ es)
  round-Has true ih = inr (ih e)
  round-Has false ih = elim (ih d) [ inl p ↦ inl p | inr p ↦ inr (inr p) ]

  round-AtLeast :
      (b : Bool)
      → better store e d ≡ b
      → ((x : PathEntry)
          → All (λ y. AtLeast (rank_of store (best_entry store es x)) (rank_of store y)) (x ∷ es))
      → let c = best_entry store es (if b then e else d) in
        All (λ y. AtLeast (rank_of store c) (rank_of store y)) (d ∷ e ∷ es)
  round-AtLeast true h ih = (
    AtLeast-trans _ (rank_of store e) (rank_of store d) (ih e).0 (better-AtLeast store e d h),
    ih e,
  )
  round-AtLeast false h ih =
      let (p, all) = ih d in
      (
        p,
        (
          AtLeast-trans _ (rank_of store d) (rank_of store e) p (not_better-AtLeast store e d h),
          all,
        ),
      )

best_loop-entry :
    (store : Store) (es : List PathEntry) (d : PathEntry)
    → best_loop store es d.attrs d.path_id
      ≡ ((best_entry store es d).attrs, (best_entry store es d).path_id)
unfolding best_loop best_entry better
best_loop-entry store [] d = refl
best_loop-entry store (e ∷ es) d =
    round-entry store es e d (better store e d) (best_loop-entry store es)

best_entry-Has :
    (store : Store) (es : List PathEntry) (d : PathEntry) → Has (best_entry store es d) (d ∷ es)
unfolding best_entry
best_entry-Has store [] d = inl refl
best_entry-Has store (e ∷ es) d =
    round-Has store es e d (better store e d) (best_entry-Has store es)

best_entry-AtLeast :
    (store : Store) (es : List PathEntry) (d : PathEntry)
    → All (λ y. AtLeast (rank_of store (best_entry store es d)) (rank_of store y)) (d ∷ es)
unfolding best_entry
best_entry-AtLeast store [] d = (AtLeast-refl (rank_of store d), tt)
best_entry-AtLeast store (e ∷ es) d =
    round-AtLeast store es e d (better store e d) refl (best_entry-AtLeast store es)

-- On a node with a path, bestPathWithID returns the attributes and the id of one of its paths, and
-- that path is at least as good as every path of the node.
pub best_path_with_id-optimal :
    (store : Store) (n : Node)
    → n.has_path ≡ true
    → (e : PathEntry) × (best_path_with_id store n ≡ (e.attrs, e.path_id))
      × Has e (all_paths n)
      × All (λ d. AtLeast (rank_of store e) (rank_of store d)) (all_paths n)
unfolding best_path_with_id all_paths
best_path_with_id-optimal store n h =
    let d : PathEntry = record { attrs = n.attrs; path_id = n.path_id; stale = n.stale } in
    rw h (
      best_entry store n.extra d,
      best_loop-entry store n.extra d,
      best_entry-Has store n.extra d,
      best_entry-AtLeast store n.extra d,
    )

pub best_entry_lem :
    (store : Store) (n : Node)
    → n.has_path ≡ true
    → let e =
        best_entry store n.extra
          (record { attrs = n.attrs; path_id = n.path_id; stale = n.stale }) in
      best_path_with_id store n ≡ (e.attrs, e.path_id)
unfolding best_path_with_id
best_entry_lem store n h = rw h (
    best_loop-entry store n.extra
      (record { attrs = n.attrs; path_id = n.path_id; stale = n.stale }))
