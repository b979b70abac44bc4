-- ===== src/Walkers.antt =====
-- The walkers of ipv4.go and ipv6.go, which go through all tries: AllPrefixes, and prefixesMatching
-- with the functions on top of it. They hold the read lock throughout.
--
-- A match function may keep state, as `asPathMatcher` of types.go does: it takes and returns it.
pub mod Keys
pub mod Memo
pub mod Matching
pub mod Shallow
pub mod Listing
pub mod Places
use routing_table.Prelude.{
  ℕ, zero, suc, ◌+◌, Bool, true, false, Option, none, some, List, [], ◌∷◌, ◌++◌, length, take, leb,
  ◌==◌, if◌then◌else◌,
}
use routing_table.Attrs.{
  LargeCommunity, RouteAttributes, Pointer, nil_pointer, Store, deref, IpPrefix, Route, PathEntry,
  origin_is, has_community, has_large_community,
}
use routing_table.Attrs.Prefix.{prefix_from}
use routing_table.Attrs.Text.{as_path_string}
use routing_table.Node.{Node, all_paths}
use routing_table.Trie.{Trie, nil, node}
use routing_table.Family.{Family, next_addr}
use routing_table.Rib.{Rib}

-- collectPrefixesV4 and collectPrefixesV6: what is appended to the results.
unfoldable pub collect_prefixes : Family → List ℕ → ℕ → Trie → List IpPrefix
collect_prefixes fam addr depth nil = []
collect_prefixes fam addr depth (node n l r) =
    let own : List IpPrefix =
      if n.has_path then prefix_from (fam.address addr) depth ∷ [] else [] in
    let below =
      collect_prefixes fam (next_addr addr depth false) (depth + 1) l
      ++ collect_prefixes fam (next_addr addr depth true) (depth + 1) r in
    if leb fam.limit depth then own else own ++ below

-- The loop over the entries from an index on.
unfoldable pub prefixes_from : Family → ℕ → List Trie → List IpPrefix
unfolding collect_prefixes
prefixes_from fam i [] = []
prefixes_from fam i (t ∷ ts) =
    collect_prefixes fam (fam.first i) 8 t ++ prefixes_from fam (i + 1) ts

-- AllPrefixes, on the entries that it visits.
unfoldable pub all_prefixes : Family → ℕ → Rib → List IpPrefix
unfolding prefixes_from
all_prefixes fam visited r = prefixes_from fam 0 (take visited r.root)

module _ {S : Type 0} (match : S → Pointer → S × Bool) (store : Store) where
  -- The paths of one node: the inline one, then the overflow.
  unfoldable pub matching_paths : IpPrefix → List PathEntry → S → S × List Route
  matching_paths prefix [] s = (s, [])
  matching_paths prefix (e ∷ es) s =
      let (s1, hit) = match s e.attrs in
      let (s2, rest) = matching_paths prefix es s1 in
      let route : Route = record {
        prefix = prefix;
        attributes = deref store e.attrs;
        path_id = e.path_id;
        stale = e.stale;
      } in
      (s2, if hit then route ∷ rest else rest)

  -- collectMatchingV4 and collectMatchingV6
  unfoldable pub collect_matching : Family → List ℕ → ℕ → Trie → S → S × List Route
  unfolding matching_paths
  collect_matching fam addr depth nil s = (s, [])
  collect_matching fam addr depth (node n l r) s =
      let (s1, own) = matching_paths (prefix_from (fam.address addr) depth) (all_paths n) s in
      let (s2, left) = collect_matching fam (next_addr addr depth false) (depth + 1) l s1 in
      let (s3, right) = collect_matching fam (next_addr addr depth true) (depth + 1) r s2 in
      if leb fam.limit depth then (s1, own) else (s3, own ++ (left ++ right))

  unfoldable pub matching_from : Family → ℕ → List Trie → S → S × List Route
  unfolding collect_matching
  matching_from fam i [] s = (s, [])
  matching_from fam i (t ∷ ts) s =
      let (s1, here) = collect_matching fam (fam.first i) 8 t s in
      let (s2, rest) = matching_from fam (i + 1) ts s1 in (s2, here ++ rest)

-- prefixesMatching, on the entries that it visits.
unfoldable pub prefixes_matching :
    {S : Type 0} → (S → Pointer → S × Bool) → S → Family → ℕ → Rib → List Route
unfolding matching_from
prefixes_matching match s fam visited r =
    (matching_from match r.table.store fam 0 (take visited r.root) s).1

-- A match function without state.
abbrev pub stateless :
    (Option RouteAttributes → Bool) → Store → Unit {0} → Pointer → Unit {0} × Bool
stateless test store s p = (s, test (deref store p))

-- PrefixesByOriginASN, PrefixesByCommunity and PrefixesByLargeCommunity
unfoldable pub prefixes_by_origin_asn : Family → ℕ → Rib → ℕ → List Route
unfolding prefixes_matching
prefixes_by_origin_asn fam visited r asn =
    prefixes_matching (stateless (λ a. origin_is a asn) r.table.store) tt fam visited r

unfoldable pub prefixes_by_community : Family → ℕ → Rib → ℕ → List Route
unfolding prefixes_matching
prefixes_by_community fam visited r comm =
    prefixes_matching (stateless (λ a. has_community a comm) r.table.store) tt fam visited r

unfoldable pub prefixes_by_large_community : Family → ℕ → Rib → LargeCommunity → List Route
unfolding prefixes_matching
prefixes_by_large_community fam visited r lc =
    prefixes_matching (stateless (λ a. has_large_community a lc) r.table.store) tt fam visited r

-- `asPathMatcher`: the map of results, and the last pointer with its result.
pub record AsPathMatcher : Type 0 where
  pub memo : List (Pointer × Bool)
  pub last : Pointer
  pub last_ok : Bool

abbrev pub new_as_path_matcher : AsPathMatcher
new_as_path_matcher = record { memo = []; last = nil_pointer; last_ok = false }

-- `ok, seen := m.memo[a]`
unfoldable pub recall : Pointer → List (Pointer × Bool) → Option Bool
recall p [] = none
recall p ((q, ok) ∷ memo) = if q == p then some ok else recall p memo

-- `asPathMatcher.match`, with `m.re.MatchString` as a parameter.
unfoldable pub match_as_path :
    (List ℕ → Bool) → Store → AsPathMatcher → Pointer → AsPathMatcher × Bool
unfolding recall
match_as_path match_string store m p =
    if p == nil_pointer
    then (m, false)
    else if p == m.last
    then (m, m.last_ok)
    else elim (recall p m.memo) [
      | some ok ↦ (record m { last = p; last_ok = ok }, ok)
      | none ↦
          let ok = match_string (as_path_string (store p)) in
          (record { memo = (p, ok) ∷ m.memo; last = p; last_ok = ok }, ok)
    ]

-- PrefixesByAsPathRegex
unfoldable pub prefixes_by_as_path_regex : (List ℕ → Bool) → Family → ℕ → Rib → List Route
unfolding prefixes_matching match_as_path
prefixes_by_as_path_regex match_string fam visited r =
    prefixes_matching (match_as_path match_string r.table.store) new_as_path_matcher fam visited r
