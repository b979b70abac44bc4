-- ===== src/Rib/Walks.antt =====
-- Search, AllPathsSearch and Lookup from the entry on, against the prefixes that have a path.
use routing_table.Prelude.{
  ℕ, ◌+◌, ◌≡◌, ◌≢◌, refl, sym, ap, ◌∙◌, inl, inr, Bool, true, false, Option, none, some, List, [],
  ◌∷◌, Has, arith, if◌then◌else◌, ◌==◌, Bool-cases, if_true, if_false,
}
use routing_table.Attrs.{nil_pointer, Store, PathEntry}
use routing_table.Node.{Node, all_paths, best_path_with_id}
use routing_table.Node.Best.{best_path_with_id-optimal}
use routing_table.Node.Paths.{IsValid, refs}
use routing_table.Trie.{Trie, nil, node, Match, no_match, improve, search_walk, deepest_walk}
use routing_table.Trie.Sound.{AllValid}

refs-Has :
    (es : List PathEntry) (e : PathEntry)
    → refs nil_pointer es ≡ 0
    → Has e es
    → e.attrs ≢ nil_pointer
unfolding refs
refs-Has [] e z h = elim h [ ]
refs-Has (d ∷ es) e z (inl same) = rw same (ground arith)
refs-Has (d ∷ es) e z (inr h) = refs-Has es e (ground arith) h

module _ (store : Store) (n : Node) (valid : IsValid n) where
  -- A node with a path has best attributes, and one without has none.
  pub best-present : n.has_path ≡ true → ((best_path_with_id store n).0 == nil_pointer) ≡ false
  best-present h =
      let (e, run, has, _) = best_path_with_id-optimal store n h in
      rw run (ground (arith, refs-Has (all_paths n) e valid.present has))

  best-absent : n.has_path ≡ false → ((best_path_with_id store n).0 == nil_pointer) ≡ true
  unfolding best_path_with_id
  best-absent h = rw h refl

-- The match that Search keeps for what AllPathsSearch keeps.
unfoldable pub match_of : Store → Option (Node × ℕ) → Match
match_of store none = no_match
match_of store (some (n, len)) =
    let best = best_path_with_id store n in
    record { attrs = best.0; path_id = best.1; found = n; len = len }

pub improve-match_of :
    (store : Store) (n : Node) (k : ℕ) (m : Option (Node × ℕ))
    → IsValid n
    → improve store n k (match_of store m) ≡ match_of store (if n.has_path then some (n, k) else m)
unfolding improve match_of
improve-match_of store n k m valid = elim (Bool-cases n.has_path) [
  | inl h ↦
      if_false _ _ (best-present store n valid h)
      ∙ ap (match_of store) (sym (if_true (some (n, k)) m h))
  | inr h ↦
      if_true _ _ (best-absent store n valid h)
      ∙ ap (match_of store) (sym (if_false (some (n, k)) m h))
]

-- Search and AllPathsSearch stop at the same node.
pub search_walk-deepest_walk :
    (store : Store) (bits : List Bool) (k : ℕ) (t : Trie) (m : Option (Node × ℕ))
    → AllValid t
    → search_walk store bits k t (match_of store m) ≡ match_of store (deepest_walk bits k t m)
unfolding search_walk deepest_walk
search_walk-deepest_walk store [] k t m v = refl
search_walk-deepest_walk store (bit ∷ bits) k nil m v = refl
search_walk-deepest_walk store (false ∷ bits) k (node n nil r) m v = refl
search_walk-deepest_walk store (true ∷ bits) k (node n l nil) m v = refl
search_walk-deepest_walk store (false ∷ bits) k (node n (node n' l' r') r) m v =
    rw (improve-match_of store n' k m v.1.0)
      (search_walk-deepest_walk store bits (k + 1) (node n' l' r') _ v.1)
search_walk-deepest_walk store (true ∷ bits) k (node n l (node n' l' r')) m v =
    rw (improve-match_of store n' k m v.2.0)
      (search_walk-deepest_walk store bits (k + 1) (node n' l' r') _ v.2)
