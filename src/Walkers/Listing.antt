-- ===== src/Walkers/Listing.antt =====
-- AllPrefixes and the matching walkers on a RIB: what is listed is what is there.
use routing_table.Prelude.{
  ℕ, zero, suc, ◌+◌, ◌%◌, ◌≤◌, ◌<◌, ◌≡◌, ◌↔◌, refl, sym, ap, Bool, true, List, [], ◌∷◌, ◌++◌, map,
  length, length-append, length-map, get_or, take, Has, append-Has, Has-append_left,
  Has-append_right, map-Has, Has-map, arith, Bool-cases, inl, inr,
}
use native.Mathlib.Nat.{add-zero}
use routing_table.Prelude.Word.{word_mod}
use routing_table.Attrs.{Pointer, IpPrefix, Route}
use routing_table.Node.{Node, all_paths}
use routing_table.Trie.{Trie, nil}
use routing_table.Trie.Reads.{node_at}
use routing_table.Rib.State.{prefix_here, root_total}
use routing_table.Rib.{Rib, entry}
use routing_table.Rib.View.{view}
use routing_table.Stats.{count_prefixes}
use routing_table.Family.{Family}
use routing_table.Walkers.{prefixes_from, all_prefixes, prefixes_matching}
use routing_table.Walkers.Keys.{
  keys, prefix_at, keys-has_path, has_path-keys, keys-nil, length-keys, collect_prefixes-keys,
}
use routing_table.Walkers.Memo.{forget}
use routing_table.Walkers.Matching.{IsHit, matching_from-Has, Has-matching_from}
use routing_table.Walkers.Shallow.{IsShallow}

full : (n : Node) → n.has_path ≡ true → 1 ≤ length (all_paths n)
unfolding all_paths
full n h = rw h (omega arith)

has_path-full : (n : Node) → 1 ≤ length (all_paths n) → n.has_path ≡ true
unfolding all_paths
has_path-full n h = ground arith

Has-length : {A : Type 0} (x : A) (xs : List A) → Has x xs → 1 ≤ length xs
Has-length x [] m = elim m [ ]
Has-length x (y ∷ xs) m = omega arith

-- Where the paths of a root array are, from an index on.
AllShallow : Family → ℕ → List Trie → Type 0
AllShallow fam visited ts =
    (j : ℕ) (q : List Bool)
    → (node_at q (get_or ts j nil)).has_path ≡ true
    → (j < visited) × (8 + length q ≤ fam.limit)

abbrev listed : Family → ℕ → Trie → List IpPrefix
listed fam i t = map (prefix_at fam (fam.first i) 8) (keys t)

module _ (fam : Family) where
  later :
      (visited : ℕ) (t : Trie) (ts : List Trie)
      → AllShallow fam (suc visited) (t ∷ ts)
      → AllShallow fam visited ts
  unfolding AllShallow
  later visited t ts s = λ j q h. let (lt, le) = s (suc j) q h in (omega arith, le)

  no_prefixes : (ts : List Trie) → AllShallow fam 0 ts → root_total prefix_here ts ≡ 0
  unfolding AllShallow root_total
  no_prefixes [] s = refl
  no_prefixes (t ∷ ts) s =
      let none_here = keys-nil t (λ key. elim (Bool-cases (node_at key t).has_path) [
        | inl e ↦ absurd (omega (arith, (s 0 key e).0))
        | inr e ↦ e
      ]) in
      omega (
        arith,
        length-keys 8 t,
        ap length none_here,
        no_prefixes ts (λ j q h. absurd (omega (arith, (s (suc j) q h).0))),
      )

  one_entry :
      (i visited : ℕ) (t : Trie) (ts : List Trie)
      → AllShallow fam (suc visited) (t ∷ ts)
      → prefixes_from fam i (t ∷ take visited ts)
        ≡ listed fam i t ++ prefixes_from fam (i + 1) (take visited ts)
  unfolding AllShallow prefixes_from
  one_entry i visited t ts s =
      rw (collect_prefixes-keys fam t (fam.first i) 8 (λ key h. (s 0 key h).1))

  length-prefixes_from :
      (i visited : ℕ) (ts : List Trie)
      → AllShallow fam visited ts
      → length (prefixes_from fam i (take visited ts)) ≡ root_total prefix_here ts
  unfolding prefixes_from root_total
  length-prefixes_from i zero ts s = sym (no_prefixes ts s)
  length-prefixes_from i (suc visited) [] s = refl
  length-prefixes_from i (suc visited) (t ∷ ts) s = omega (
    arith,
    ap length (one_entry i visited t ts s),
    length-append (listed fam i t) (prefixes_from fam (i + 1) (take visited ts)),
    length-map (prefix_at fam (fam.first i) 8) (keys t),
    length-keys 8 t,
    length-prefixes_from (i + 1) visited ts (later visited t ts s),
  )

  prefixes_from-Has :
      (i visited : ℕ) (ts : List Trie) (p : IpPrefix)
      → AllShallow fam visited ts
      → Has p (prefixes_from fam i (take visited ts))
      → (j : ℕ) × (key : List Bool) × ((node_at key (get_or ts j nil)).has_path ≡ true)
        × (p ≡ prefix_at fam (fam.first (i + j)) 8 key)
  unfolding prefixes_from
  prefixes_from-Has i zero ts p s m = elim m [ ]
  prefixes_from-Has i (suc visited) [] p s m = elim m [ ]
  prefixes_from-Has i (suc visited) (t ∷ ts) p s m =
      elim (append-Has p (listed fam i t) (prefixes_from fam (i + 1) (take visited ts))
        (rw (one_entry i visited t ts s) at m)) [
          | inl here ↦
              let (key, k, e) = Has-map (prefix_at fam (fam.first i) 8) p (keys t) here in
              (0, key, keys-has_path t key k, rw (add-zero i) e)
          | inr there ↦
              let (j, key, k, e) =
                prefixes_from-Has (i + 1) visited ts p (later visited t ts s) there in
              let same : i + suc j ≡ i + 1 + j = omega arith in (suc j, key, k, rw same e)
        ]

  Has-prefixes_from :
      (i visited : ℕ) (ts : List Trie) (j : ℕ) (key : List Bool)
      → AllShallow fam visited ts
      → (node_at key (get_or ts j nil)).has_path ≡ true
      → Has (prefix_at fam (fam.first (i + j)) 8 key) (prefixes_from fam i (take visited ts))
  unfolding prefixes_from AllShallow node_at
  Has-prefixes_from i zero ts j key s h = absurd (omega (arith, (s j key h).0))
  Has-prefixes_from i (suc visited) [] j key s h = cc
  Has-prefixes_from i (suc visited) (t ∷ ts) zero key s h =
      rw (one_entry i visited t ts s, add-zero i)
        (Has-append_left _ (listed fam i t) (prefixes_from fam (i + 1) (take visited ts))
          (map-Has (prefix_at fam (fam.first i) 8) key (keys t) (has_path-keys t key h)))
  Has-prefixes_from i (suc visited) (t ∷ ts) (suc j) key s h =
      let same : i + suc j ≡ i + 1 + j = omega arith in
      rw (one_entry i visited t ts s, same)
        (Has-append_right _ (listed fam i t) (prefixes_from fam (i + 1) (take visited ts))
          (Has-prefixes_from (i + 1) visited ts j key (later visited t ts s) h))

-- What a walker over all prefixes returns: the prefixes that have a path, each under the address
-- and the mask of its place, and as many as Count says.
pub record Lists (fam : Family) (r : Rib) (ps : List IpPrefix) : Type 0 where
  pub sound :
      (p : IpPrefix)
      → Has p ps
      → (j : ℕ) × (key : List Bool) × (1 ≤ length (view r j key))
        × (p ≡ prefix_at fam (fam.first j) 8 key)
  pub complete :
      (j : ℕ) (key : List Bool)
      → 1 ≤ length (view r j key)
      → Has (prefix_at fam (fam.first j) 8 key) ps
  pub counted : count_prefixes r ≡ length ps % word_mod

module _ (fam : Family) (visited entries : ℕ) (r : Rib) (s : IsShallow fam visited entries r) where
  places : AllShallow fam visited r.root
  unfolding AllShallow view
  places j q h = s.shallow j q (full (node_at q (entry r j)) h)

  -- AllPrefixes of a valid RIB whose paths are where the walkers go lists exactly the prefixes that
  -- have a path, and as many as Count returns, modulo 2^64.
  pub all_prefixes-Lists : Lists fam r (all_prefixes fam visited r)
  unfolding all_prefixes view count_prefixes
  all_prefixes-Lists = record {
    sound = λ p m.
        let (j, key, h, e) = prefixes_from-Has fam 0 visited r.root p places m in
        let z : 0 + j ≡ j = omega arith in (j, key, full (node_at key (entry r j)) h, rw z at e);
    complete = λ j key h.
        let z : 0 + j ≡ j = omega arith in
        rw z at (
          Has-prefixes_from fam 0 visited r.root j key places
            (has_path-full (node_at key (entry r j)) h));
    counted = rw (length-prefixes_from fam 0 visited r.root places) s.sized.valid.count;
  }

  -- On a valid RIB in which every prefix with a path is below one of the entries that are visited
  -- and has a mask within the limit of its family, prefixesMatching with a test finds exactly the
  -- paths that pass the test, each as a route with the prefix of its place, its attributes, id and
  -- stale bit.
  pub prefixes_matching-hits :
      (test : Pointer → Bool) (x : Route)
      → Has x (prefixes_matching (forget test) tt fam visited r) ↔ (
          (j : ℕ) × (key : List Bool) × IsHit test r.table.store
            (prefix_at fam (fam.first j) 8 key)
            (view r j key)
            x)
  unfolding prefixes_matching view
  prefixes_matching-hits test x = (
    λ m.
        let (j, lt, (key, hit)) = matching_from-Has test r.table.store fam 0 visited r.root x m in
        let z : 0 + j ≡ j = omega arith in (j, key, rw z at hit),
    λ (j, key, (e, m, h, same)).
        let z : 0 + j ≡ j = omega arith in
        let (lt, le) = s.shallow j key (Has-length e (view r j key) m) in
        rw same
          (rw z at (Has-matching_from test r.table.store fam 0 visited r.root j key e lt m h le)),
  )
