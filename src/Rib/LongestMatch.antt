-- ===== src/Rib/LongestMatch.antt =====
-- Search and AllPathsSearch of ipv4.go and ipv6.go, from the array entry on, and the longest match.
use routing_table.Prelude.{
  ℕ, zero, suc, ◌+◌, ◌-◌, ◌≤◌, ◌≡◌, refl, ap, ◌∙◌, inl, inr, Bool, true, false, Option, none, some,
  List, [], length, take, arith, if◌then◌else◌, ◌==◌, Bool-cases, if_true, if_false,
}
use routing_table.Attrs.{nil_pointer, deref, Store, IpAddr, Route}
use routing_table.Attrs.Prefix.{masked, prefix_from}
use routing_table.Node.{Node, is_path_stale}
use routing_table.Select.{node_to_routes}
use routing_table.Trie.{Trie, nil, node, deepest_walk, Match, search_walk}
use routing_table.Trie.Reads.{node_at}
use routing_table.Trie.Search.{NoPath, Longest, absent, longest, deepest_walk-Longest}
use routing_table.Trie.Sound.{AllValid}
use routing_table.Rib.{search_entry, all_paths_search_entry, best_route}
use routing_table.Rib.Walks.{match_of, improve-match_of, search_walk-deepest_walk}

-- What an operation finds among the prefixes of 8 bits or more of an address in an entry: nothing,
-- where no prefix has a path, or an answer from the node of the longest one that has.
pub data Finds {ℓ} {A : Type ℓ} (none_found : A) (answer : ℕ → Node → A) (bits : List Bool)
    (t : Trie) : A → Type ℓ where
  nowhere : {x : A} → NoPath bits t 0 → x ≡ none_found → Finds none_found answer bits t x
  at_length :
      {x : A} (j : ℕ)
      → j ≤ length bits
      → (node_at (take j bits) t).has_path ≡ true
      → NoPath bits t (j + 1)
      → x ≡ answer (8 + j) (node_at (take j bits) t)
      → Finds none_found answer bits t x

-- The walk of AllPathsSearch from the entry on.
deepest_entry : List Bool → Trie → Option (Node × ℕ)
deepest_entry bits nil = none
deepest_entry bits (node n l r) =
    deepest_walk bits 9 (node n l r) (if n.has_path then some (n, 8) else none)

NoPath-all :
    (bits : List Bool) (t : Trie)
    → (node_at [] t).has_path ≡ false
    → NoPath bits t 1
    → NoPath bits t 0
NoPath-all bits t h np zero a b = h
NoPath-all bits t h np (suc j) a b = np (suc j) (omega arith) b

module _ (bits : List Bool) (n : Node) (l r : Trie) where
  Finds-Longest :
      {x : Option (Node × ℕ)}
      → Longest bits 9 (node n l r) (if n.has_path then some (n, 8) else none) x
      → Finds none (λ len m. some (m, len)) bits (node n l r) x
  unfolding node_at
  Finds-Longest (longest j low high here np eq) =
      let same : 9 + j - 1 ≡ 8 + j = omega arith in at_length j high here np (rw (← same) eq)
  Finds-Longest (absent np eq) = elim (Bool-cases n.has_path) [
    | inl h ↦ at_length 0 (omega arith) h np (eq ∙ if_true _ _ h)
    | inr h ↦ nowhere (NoPath-all bits (node n l r) h np) (eq ∙ if_false _ _ h)
  ]

deepest_entry-Finds :
    (bits : List Bool) (t : Trie)
    → Finds none (λ len m. some (m, len)) bits t (deepest_entry bits t)
unfolding deepest_entry node_at
deepest_entry-Finds bits nil = nowhere (λ j a b. refl) refl
deepest_entry-Finds bits (node n l r) = Finds-Longest bits n l r (deepest_walk-Longest bits 9 _ _)

abbrev answered {ℓ} : {A : Type ℓ} → A → (ℕ → Node → A) → Option (Node × ℕ) → A
answered none_found answer none = none_found
answered none_found answer (some (m, len)) = answer len m

Finds-answered {ℓ} :
    {A : Type ℓ} (none_found : A) (answer : ℕ → Node → A) (bits : List Bool) (t : Trie)
    {x : Option (Node × ℕ)}
    → Finds none (λ len m. some (m, len)) bits t x
    → Finds none_found answer bits t (answered none_found answer x)
Finds-answered z f bits t (nowhere np eq) = nowhere np (ap (answered z f) eq)
Finds-answered z f bits t (at_length j high here np eq) =
    at_length j high here np (ap (answered z f) eq)

all_paths_search_entry-answered :
    (store : Store) (bits : List Bool) (ip : IpAddr) (t : Trie)
    → all_paths_search_entry store bits ip t
      ≡ answered [] (λ len m. node_to_routes store m (prefix_from ip len)) (deepest_entry bits t)
unfolding all_paths_search_entry deepest_entry
all_paths_search_entry-answered store bits ip nil = refl
all_paths_search_entry-answered store bits ip (node n l r) =
    elim (deepest_walk bits 9 (node n l r) (if n.has_path then some (n, 8) else none)) [
      | none ↦ refl
      | some (m, len) ↦ refl
    ]

-- AllPathsSearch from the entry on returns the routes of the longest prefix of the address, of 8
-- bits or more, whose node has a path, and nil where no prefix of the address has one.
pub all_paths_search_entry-Finds :
    (store : Store) (bits : List Bool) (ip : IpAddr) (t : Trie)
    → Finds []
        (λ len m. node_to_routes store m (prefix_from ip len))
        bits
        t
        (all_paths_search_entry store bits ip t)
all_paths_search_entry-Finds store bits ip t =
    rw (all_paths_search_entry-answered store bits ip t)
      (Finds-answered _ _ bits t (deepest_entry-Finds bits t))

-- What Search makes of the match that its walk ends with.
abbrev route_of_match : Store → IpAddr → Match → Option Route
route_of_match store ip m =
    if m.attrs == nil_pointer
    then none
    else some (record {
      prefix = masked (prefix_from ip m.len);
      attributes = deref store m.attrs;
      path_id = m.path_id;
      stale = is_path_stale m.found m.path_id;
    })

route_of_match-match_of :
    (store : Store) (ip : IpAddr) (m : Option (Node × ℕ))
    → route_of_match store ip (match_of store m)
      ≡ answered none (λ len n. best_route store (prefix_from ip len) n) m
unfolding match_of best_route
route_of_match-match_of store ip none = refl
route_of_match-match_of store ip (some (n, len)) = refl

search_entry-match :
    (store : Store) (bits : List Bool) (ip : IpAddr) (t : Trie)
    → AllValid t
    → search_entry store bits ip t
      ≡ answered none (λ len m. best_route store (prefix_from ip len) m) (deepest_entry bits t)
unfolding search_entry deepest_entry deepest_walk match_of
search_entry-match store bits ip nil v = refl
search_entry-match store bits ip (node n l r) v =
    let start = if n.has_path then some (n, 8) else none in
    ap (route_of_match store ip) (
      ap (search_walk store bits 9 (node n l r)) (improve-match_of store n 8 none v.0)
      ∙ search_walk-deepest_walk store bits 9 (node n l r) start v)
    ∙ route_of_match-match_of store ip (deepest_walk bits 9 (node n l r) start)

-- Search from the entry on returns the best route of the longest prefix of the address, of 8 bits
-- or more, whose node has a path, and nil where no prefix of the address has one. The nodes of the
-- entry are valid.
pub search_entry-Finds :
    (store : Store) (bits : List Bool) (ip : IpAddr) (t : Trie)
    → AllValid t
    → Finds none
        (λ len m. best_route store (prefix_from ip len) m)
        bits
        t
        (search_entry store bits ip t)
search_entry-Finds store bits ip t v =
    rw (search_entry-match store bits ip t v)
      (Finds-answered _ _ bits t (deepest_entry-Finds bits t))
