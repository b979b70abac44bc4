-- ===== src/Rib/Marking.antt =====
-- MarkAllStale: the lists of paths, the invariant and the counters.
use routing_table.Prelude.{
  ℕ, zero, suc, ◌+◌, ◌<◌, ◌≤◌, ◌≡◌, refl, sym, ◌∙◌, Bool, true, false, List, [], ◌∷◌, map, length,
  length-map, get_or, ◌==◌, arith, Bool-cases, inl, inr,
}
use routing_table.Attrs.{Pointer, nil_pointer, PathEntry}
use routing_table.Node.{Node, all_paths, paths_count, mark_paths_stale}
use routing_table.Node.Paths as Paths
use routing_table.Node.Paths.{count, refs, mark_paths_stale-map, paths_count-length}
use routing_table.Trie.{Trie, nil, node, is_empty_leaf}
use routing_table.Trie.Reads.{node_at, paths_at}
use routing_table.Trie.Sound.{AllValid}
use routing_table.Trie.Compact.{IsCompact}
use routing_table.Trie.Totals.{size, total}
use routing_table.Rib.{Rib, entry, mark_node_stale, mark_all_stale}
use routing_table.Rib.State.{prefix_here, paths_here, prefix_of_len, root_total, root_size}
use routing_table.Rib.Valid.{IsValid}
use routing_table.Rib.Sized.{IsSized}
use routing_table.Rib.View.{view}
use routing_table.Prelude.Word.{word_mod}
use routing_table.Tally.Amounts.{refs_here}
use routing_table.AttrTable.Counted.{IsCounted-same}
use routing_table.Rib.Holding.{IsHeld, held_by}

abbrev pub as_stale : PathEntry → PathEntry
as_stale e = record e { stale = true }

count-as_stale : (q : ℕ) (es : List PathEntry) → count q (map as_stale es) ≡ count q es
unfolding count
count-as_stale q [] = refl
count-as_stale q (e ∷ es) = rw (count-as_stale q es)

pub refs-as_stale : (p : Pointer) (es : List PathEntry) → refs p (map as_stale es) ≡ refs p es
unfolding refs
refs-as_stale p [] = refl
refs-as_stale p (e ∷ es) = rw (refs-as_stale p es)

pub mark_paths_stale-has_path : (n : Node) → (mark_paths_stale n).has_path ≡ n.has_path
unfolding mark_paths_stale
mark_paths_stale-has_path n = ground arith

pub mark_paths_stale-IsValid : (n : Node) → Paths.IsValid n → Paths.IsValid (mark_paths_stale n)
unfolding mark_paths_stale
mark_paths_stale-IsValid n valid = record {
  cleared = λ h. ground (arith, valid.cleared);
  distinct = λ q. rw (mark_paths_stale-map n, count-as_stale q (all_paths n)) (valid.distinct q);
  present = rw (mark_paths_stale-map n, refs-as_stale nil_pointer (all_paths n)) valid.present;
}

-- Every list of paths is the one before, with each path stale.
pub mark_node_stale-paths_at :
    (t : Trie) (q : List Bool) → paths_at q (mark_node_stale t) ≡ map as_stale (paths_at q t)
unfolding mark_node_stale node_at all_paths
mark_node_stale-paths_at nil q = refl
mark_node_stale-paths_at (node n l r) [] = mark_paths_stale-map n
mark_node_stale-paths_at (node n l r) (false ∷ q) = mark_node_stale-paths_at l q
mark_node_stale-paths_at (node n l r) (true ∷ q) = mark_node_stale-paths_at r q

pub mark_node_stale-AllValid : (t : Trie) → AllValid t → AllValid (mark_node_stale t)
unfolding mark_node_stale
mark_node_stale-AllValid nil v = tt
mark_node_stale-AllValid (node n l r) v =
    (mark_paths_stale-IsValid n v.0, mark_node_stale-AllValid l v.1, mark_node_stale-AllValid r v.2)

marked_leaf :
    (n : Node) (l r : Trie)
    → is_empty_leaf (mark_node_stale (node n l r)) ≡ is_empty_leaf (node n l r)
unfolding mark_node_stale
marked_leaf n nil nil = rw (mark_paths_stale-has_path n)
marked_leaf n nil (node _ _ _) = refl
marked_leaf n (node _ _ _) r = refl

pub mark_node_stale-IsCompact : (t : Trie) → IsCompact t → IsCompact (mark_node_stale t)
unfolding mark_node_stale
mark_node_stale-IsCompact nil c = tt
mark_node_stale-IsCompact (node n l r) c =
    (marked_leaf n l r ∙ c.0, mark_node_stale-IsCompact l c.1, mark_node_stale-IsCompact r c.2)

pub mark_node_stale-size : (t : Trie) → size (mark_node_stale t) ≡ size t
unfolding mark_node_stale size
mark_node_stale-size nil = refl
mark_node_stale-size (node n l r) = rw (mark_node_stale-size l, mark_node_stale-size r)

pub mark_node_stale-total :
    (f : ℕ → Node → ℕ)
    → ((d : ℕ) (n : Node) → f d (mark_paths_stale n) ≡ f d n)
    → (d : ℕ) (t : Trie) → total f d (mark_node_stale t) ≡ total f d t
unfolding mark_node_stale total
mark_node_stale-total f same d nil = refl
mark_node_stale-total f same d (node n l r) =
    rw (same d n, mark_node_stale-total f same (d + 1) l, mark_node_stale-total f same (d + 1) r)

mark_paths_stale-count : (n : Node) → paths_count (mark_paths_stale n) ≡ paths_count n
mark_paths_stale-count n =
    paths_count-length (mark_paths_stale n)
    ∙ rw (mark_paths_stale-map n, length-map as_stale (all_paths n)) (sym (paths_count-length n))

get_or-map :
    (ts : List Trie) (i : ℕ)
    → get_or (map mark_node_stale ts) i nil ≡ mark_node_stale (get_or ts i nil)
unfolding mark_node_stale
get_or-map [] i = refl
get_or-map (t ∷ ts) zero = refl
get_or-map (t ∷ ts) (suc i) = get_or-map ts i

root_total-map :
    (f : ℕ → Node → ℕ)
    → ((d : ℕ) (n : Node) → f d (mark_paths_stale n) ≡ f d n)
    → (ts : List Trie) → root_total f (map mark_node_stale ts) ≡ root_total f ts
unfolding root_total
root_total-map f same [] = refl
root_total-map f same (t ∷ ts) = rw (mark_node_stale-total f same 8 t, root_total-map f same ts)

root_size-map : (ts : List Trie) → root_size (map mark_node_stale ts) ≡ root_size ts
unfolding root_size
root_size-map [] = refl
root_size-map (t ∷ ts) = rw (mark_node_stale-size t, root_size-map ts)

marked_root-IsValid :
    (r : Rib) → IsValid r → IsValid (record r { root = map mark_node_stale r.root })
marked_root-IsValid r valid = record {
  table = valid.table;
  nodes = λ j. rw (get_or-map r.root j) (mark_node_stale-AllValid (entry r j) (valid.nodes j));
  compact = λ j. rw (get_or-map r.root j) (mark_node_stale-IsCompact (entry r j) (valid.compact j));
  count =
      rw (root_total-map prefix_here (λ d n. rw (mark_paths_stale-has_path n)) r.root) valid.count;
  path_count =
      rw (root_total-map paths_here (λ d n. mark_paths_stale-count n) r.root) valid.path_count;
  node_count = rw (root_size-map r.root) valid.node_count;
  masks = λ m.
      rw (root_total-map (prefix_of_len m) (λ d n. rw (mark_paths_stale-has_path n)) r.root)
        (valid.masks m);
}

pub mark_all_stale-IsSized : (n : ℕ) (r : Rib) → IsSized n r → IsSized n (mark_all_stale r)
unfolding mark_all_stale
mark_all_stale-IsSized n r s = elim (Bool-cases (r.path_count == 0)) [
  | inl e ↦ rw e s
  | inr e ↦ rw e (record {
    valid = marked_root-IsValid r s.valid;
    entries = length-map mark_node_stale r.root ∙ s.entries;
  })
]

pub mark_all_stale-total :
    (f : ℕ → Node → ℕ)
    → ((d : ℕ) (n : Node) → f d (mark_paths_stale n) ≡ f d n)
    → (r : Rib) → root_total f (mark_all_stale r).root ≡ root_total f r.root
unfolding mark_all_stale
mark_all_stale-total f same r = elim (Bool-cases (r.path_count == 0)) [
  | inl e ↦ rw e
  | inr e ↦ rw e (root_total-map f same r.root)
]

pub mark_all_stale-paths :
    (r : Rib) → root_total paths_here (mark_all_stale r).root ≡ root_total paths_here r.root
mark_all_stale-paths r = mark_all_stale-total paths_here (λ d n. mark_paths_stale-count n) r

pub marked_table : (r : Rib) → (mark_all_stale r).table ≡ r.table
unfolding mark_all_stale
marked_table r = ground arith

-- No reference comes or goes.
pub mark_all_stale-IsHeld :
    (others : Pointer → ℕ) (r : Rib) → IsHeld others r → IsHeld others (mark_all_stale r)
mark_all_stale-IsHeld others r held = rw (marked_table r) (
    IsCounted-same r.table (held_by r others) _
      (λ q. omega (
        arith,
        mark_all_stale-total (refs_here q)
            (λ d n. rw (mark_paths_stale-map n) (refs-as_stale q (all_paths n))) r,
      ))
      held)

pub mark_all_stale-length :
    (r : Rib) (i : ℕ) (q : List Bool) → length (view (mark_all_stale r) i q) ≡ length (view r i q)
unfolding mark_all_stale view
mark_all_stale-length r i q = elim (Bool-cases (r.path_count == 0)) [
  | inl e ↦ rw e
  | inr e ↦
      rw (e, get_or-map r.root i, mark_node_stale-paths_at (entry r i) q)
        (length-map as_stale (paths_at q (entry r i)))
]

paths_at-le-total :
    (d : ℕ) (t : Trie) (q : List Bool) → length (paths_at q t) ≤ total paths_here d t
unfolding total node_at all_paths
paths_at-le-total d nil q = omega arith
paths_at-le-total d (node n l r) [] = omega (arith, paths_count-length n)
paths_at-le-total d (node n l r) (false ∷ q) = omega (arith, paths_at-le-total (d + 1) l q)
paths_at-le-total d (node n l r) (true ∷ q) = omega (arith, paths_at-le-total (d + 1) r q)

entry_total-le :
    (f : ℕ → Node → ℕ) (ts : List Trie) (i : ℕ) → total f 8 (get_or ts i nil) ≤ root_total f ts
unfolding root_total total
entry_total-le f [] i = omega arith
entry_total-le f (t ∷ ts) zero = omega arith
entry_total-le f (t ∷ ts) (suc i) = omega (arith, entry_total-le f ts i)

pub view-le-total :
    (r : Rib) (i : ℕ) (q : List Bool) → length (view r i q) ≤ root_total paths_here r.root
unfolding view
view-le-total r i q =
    omega (arith, paths_at-le-total 8 (entry r i) q, entry_total-le paths_here r.root i)

no_paths_as_stale : (es : List PathEntry) → length es ≤ 0 → es ≡ map as_stale es
no_paths_as_stale [] h = refl
no_paths_as_stale (e ∷ es) h = absurd (omega arith)

-- On a valid RIB with fewer than 2^64 paths, MarkAllStale makes each path of every prefix stale and
-- changes nothing else of the lists of paths.
pub mark_all_stale-view :
    (r : Rib) (i : ℕ) (q : List Bool)
    → IsValid r
    → root_total paths_here r.root < word_mod
    → view (mark_all_stale r) i q ≡ map as_stale (view r i q)
unfolding mark_all_stale view
mark_all_stale-view r i q valid small = elim (Bool-cases (r.path_count == 0)) [
  | inl e ↦
      let none_left : root_total paths_here r.root ≡ 0 = ground (arith, valid.path_count) in
      rw e (no_paths_as_stale (view r i q) (omega (arith, view-le-total r i q)))
  | inr e ↦ rw (e, get_or-map r.root i) (mark_node_stale-paths_at (entry r i) q)
]
