-- ===== src/Sweep/Sums.antt =====
-- What deleteStaleFromNode removes, against sums over the nodes of a trie.
use routing_table.Prelude.{
  ℕ, ◌+◌, ◌≡◌, refl, sym, ◌∙◌, true, false, List, [], ◌∷◌, ◌++◌, length, length-append,
  if◌then◌else◌, arith, Bool-cases, inl, inr,
}
use routing_table.Attrs.{Pointer, PathEntry}
use routing_table.AttrTable.Removed.{occurrences}
use routing_table.Node.{Node, all_paths, paths_count, delete_stale_paths}
use routing_table.Node.Paths as Paths
use routing_table.Node.Paths.{refs, paths_count-length}
use routing_table.Node.Remove.{live, stale_attrs}
use routing_table.Node.Laws.{delete_stale_paths-live}
use routing_table.Trie.{Trie, nil, node, is_empty_leaf}
use routing_table.Trie.Sound.{AllValid}
use routing_table.Trie.Compact.{IsCompact}
use routing_table.Trie.Prune.{empty_leaf-total}
use routing_table.Trie.Totals.{total}
use routing_table.Family.{next_addr}
use routing_table.Rib.State.{prefix_here, paths_here, prefix_of_len}
use routing_table.Tally.Amounts.{refs_here}
use routing_table.Sweep.{Swept, kept, at_depth, delete_stale_from_node}
use routing_table.Sweep.Walk.{loses_all, has_path-split, cut-leaf}

-- The prefixes that a node adds to those removed.
abbrev pub own_removed : List ℕ → ℕ → Node → List (List ℕ × ℕ)
own_removed addr depth n = if loses_all n then (addr, depth) ∷ [] else []

-- A number `lost` of the prefixes and pointers removed that makes up for what a node has less of `f`.
pub record IsLost (f : ℕ → Node → ℕ) (lost : List (List ℕ × ℕ) → List Pointer → ℕ) : Type 0 where
  pub lost-nil : lost [] [] ≡ 0
  pub lost-append :
      (ps qs : List (List ℕ × ℕ)) (xs ys : List Pointer)
      → lost (ps ++ qs) (xs ++ ys) ≡ lost ps xs + lost qs ys
  pub empty : (d : ℕ) (n : Node) → n.has_path ≡ false → f d n ≡ 0
  pub balance :
      (addr : List ℕ) (d : ℕ) (n : Node)
      → Paths.IsValid n
      → f d (delete_stale_paths n).0 + lost (own_removed addr d n) (delete_stale_paths n).1 ≡ f d n

module _ (f : ℕ → Node → ℕ) (lost : List (List ℕ × ℕ) → List Pointer → ℕ) (m : IsLost f lost) where
  pub kept-total :
      (s : Swept) (d : ℕ) → s.cut ≡ is_empty_leaf s.trie → total f d (kept s) ≡ total f d s.trie
  unfolding total
  kept-total s d cuts = elim (Bool-cases s.cut) [
    | inl e ↦ rw (e, total) (sym (empty_leaf-total f m.empty d s.trie (sym cuts ∙ e)))
    | inr e ↦ rw e
  ]

  pub swept-total :
      (addr : List ℕ) (depth : ℕ) (t : Trie)
      → AllValid t
      → IsCompact t
      → let s = delete_stale_from_node addr depth t in
        total f depth s.trie + lost s.removed s.tally ≡ total f depth t
  unfolding delete_stale_from_node total
  swept-total addr depth nil v c = omega (arith, m.lost-nil)
  swept-total addr depth (node n l r) v c =
      let la = next_addr addr depth false in
      let ra = next_addr addr depth true in
      let a = delete_stale_from_node la (depth + 1) l in
      let b = delete_stale_from_node ra (depth + 1) r in
      let own = own_removed addr depth n in
      omega (
        arith,
        kept-total a (depth + 1) (cut-leaf la (depth + 1) l v.1 c.1),
        kept-total b (depth + 1) (cut-leaf ra (depth + 1) r v.2 c.2),
        swept-total la (depth + 1) l v.1 c.1,
        swept-total ra (depth + 1) r v.2 c.2,
        m.balance addr depth n v.0,
        m.lost-append a.removed (b.removed ++ own) a.tally (b.tally ++ (delete_stale_paths n).1),
        m.lost-append b.removed own b.tally (delete_stale_paths n).1,
      )

-- The four sums: prefixes, prefixes of one length, paths, references to an object.
loses_all-split :
    (n : Node)
    → Paths.IsValid n
    → (if (delete_stale_paths n).0.has_path then 1 else 0) + (if loses_all n then 1 else 0)
      ≡ (if n.has_path then 1 else 0)
loses_all-split n valid = ground (arith, has_path-split n valid)

at_depth-append :
    (m : ℕ) (ps qs : List (List ℕ × ℕ)) → at_depth m (ps ++ qs) ≡ at_depth m ps + at_depth m qs
at_depth-append m [] qs = omega arith
at_depth-append m ((addr, d) ∷ ps) qs = omega (arith, at_depth-append m ps qs)

occurrences-append :
    (p : Pointer) (xs ys : List Pointer)
    → occurrences p (xs ++ ys) ≡ occurrences p xs + occurrences p ys
unfolding occurrences
occurrences-append p [] ys = omega arith
occurrences-append p (a ∷ xs) ys = omega (arith, occurrences-append p xs ys)

pub length-live : (es : List PathEntry) → length (live es) + length (stale_attrs es) ≡ length es
unfolding live stale_attrs
length-live [] = refl
length-live (e ∷ es) = ground (arith, length-live es)

refs-live :
    (p : Pointer) (es : List PathEntry)
    → refs p (live es) + occurrences p (stale_attrs es) ≡ refs p es
unfolding live stale_attrs refs occurrences
refs-live p [] = refl
refs-live p (e ∷ es) = ground (arith, refs-live p es)

pub prefix_here-IsLost : IsLost prefix_here (λ ps xs. length ps)
prefix_here-IsLost = record {
  lost-nil = refl;
  lost-append = λ ps qs xs ys. length-append ps qs;
  empty = λ d n h. rw h;
  balance = λ addr d n valid. ground (arith, loses_all-split n valid);
}

pub prefix_of_len-IsLost : (m : ℕ) → IsLost (prefix_of_len m) (λ ps xs. at_depth m ps)
prefix_of_len-IsLost m = record {
  lost-nil = refl;
  lost-append = λ ps qs xs ys. at_depth-append m ps qs;
  empty = λ d n h. ground arith;
  balance = λ addr d n valid. ground (arith, loses_all-split n valid);
}

no_paths : (n : Node) → n.has_path ≡ false → paths_count n ≡ 0
unfolding paths_count
no_paths n h = ground arith

no_refs : (p : Pointer) (n : Node) → n.has_path ≡ false → refs p (all_paths n) ≡ 0
unfolding refs all_paths
no_refs p n h = rw h

pub paths_here-IsLost : IsLost paths_here (λ ps xs. length xs)
paths_here-IsLost = record {
  lost-nil = refl;
  lost-append = λ ps qs xs ys. length-append xs ys;
  empty = λ d n h. no_paths n h;
  balance = λ addr d n valid.
      let (v, kept, tally) = delete_stale_paths-live n valid in
      rw (paths_count-length (delete_stale_paths n).0, paths_count-length n, kept, tally)
        (length-live (all_paths n));
}

pub refs_here-IsLost : (p : Pointer) → IsLost (refs_here p) (λ ps xs. occurrences p xs)
unfolding occurrences
refs_here-IsLost p = record {
  lost-nil = refl;
  lost-append = λ ps qs xs ys. occurrences-append p xs ys;
  empty = λ d n h. no_refs p n h;
  balance = λ addr d n valid.
      let (v, kept, tally) = delete_stale_paths-live n valid in
      rw (kept, tally) (refs-live p (all_paths n));
}
