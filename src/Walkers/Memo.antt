-- ===== src/Walkers/Memo.antt =====
-- A match function that remembers its results against one that does not.
use routing_table.Prelude.{
  ℕ, ◌+◌, ◌≡◌, ◌≢◌, refl, sym, ap, ◌∙◌, Bool, true, false, some, List, [], ◌∷◌, take, leb, ◌==◌,
  ==_iff, if◌then◌else◌, arith, Bool-cases, Option-cases, inl, inr, if_true, if_false,
}
use mathlib.Core.Option.{some-injective, none-ne-some}
use routing_table.Attrs.{Pointer, nil_pointer, Store, IpPrefix, PathEntry}
use routing_table.Attrs.Prefix.{prefix_from}
use routing_table.Attrs.Text.{as_path_string}
use routing_table.Node.{all_paths}
use routing_table.Trie.{Trie, nil, node}
use routing_table.Family.{Family, next_addr}
use routing_table.Rib.{Rib}
use routing_table.Walkers.{
  matching_paths, collect_matching, matching_from, prefixes_matching, AsPathMatcher,
  new_as_path_matcher, recall, match_as_path, prefixes_by_as_path_regex,
}

-- A test as a match function without state.
abbrev pub forget : (Pointer → Bool) → Unit {0} → Pointer → Unit {0} × Bool
forget test s p = (s, test p)

module _ {S : Type 0} (match : S → Pointer → S × Bool) (test : Pointer → Bool) (I : S → Type 0)
    (store : Store)
    (right : (s : S) (p : Pointer) → I s → ((match s p).1 ≡ test p) × I (match s p).0) where
  matching_paths-same :
      (prefix : IpPrefix) (es : List PathEntry) (s : S)
      → I s
      → ((matching_paths match store prefix es s).1
          ≡ (matching_paths (forget test) store prefix es tt).1)
        × I (matching_paths match store prefix es s).0
  unfolding matching_paths
  matching_paths-same prefix [] s i = (refl, i)
  matching_paths-same prefix (e ∷ es) s i =
      let (hit, i') = right s e.attrs i in
      let (rest, i'') = matching_paths-same prefix es (match s e.attrs).0 i' in
      (rw (hit, rest), i'')

  collect_matching-same :
      (fam : Family) (addr : List ℕ) (depth : ℕ) (t : Trie) (s : S)
      → I s
      → ((collect_matching match store fam addr depth t s).1
          ≡ (collect_matching (forget test) store fam addr depth t tt).1)
        × I (collect_matching match store fam addr depth t s).0
  unfolding collect_matching
  collect_matching-same fam addr depth nil s i = (refl, i)
  collect_matching-same fam addr depth (node n l r) s i =
      let a = next_addr addr depth false in
      let b = next_addr addr depth true in
      let (own, i1) =
        matching_paths-same (prefix_from (fam.address addr) depth) (all_paths n) s i in
      let s1 =
        (matching_paths match store (prefix_from (fam.address addr) depth) (all_paths n) s).0 in
      let (left, i2) = collect_matching-same fam a (depth + 1) l s1 i1 in
      let s2 = (collect_matching match store fam a (depth + 1) l s1).0 in
      let (right_side, i3) = collect_matching-same fam b (depth + 1) r s2 i2 in
      elim (Bool-cases (leb fam.limit depth)) [
        | inl e ↦ rw e (own, i1)
        | inr e ↦ rw e (rw (own, left, right_side), i3)
      ]

  matching_from-same :
      (fam : Family) (i : ℕ) (ts : List Trie) (s : S)
      → I s
      → (matching_from match store fam i ts s).1 ≡ (matching_from (forget test) store fam i ts tt).1
  unfolding matching_from
  matching_from-same fam i [] s inv = refl
  matching_from-same fam i (t ∷ ts) s inv =
      let (here, inv') = collect_matching-same fam (fam.first i) 8 t s inv in
      let rest =
        matching_from-same fam (i + 1) ts (collect_matching match store fam (fam.first i) 8 t s).0
          inv' in
      rw (here, rest)

-- What PrefixesByAsPathRegex asks of an object.
abbrev pub path_matches : (List ℕ → Bool) → Store → Pointer → Bool
path_matches match_string store p =
    if p == nil_pointer then false else match_string (as_path_string (store p))

module _ (match_string : List ℕ → Bool) (store : Store) where
  -- What is remembered is right.
  record IsRight (m : AsPathMatcher) : Type 0 where
    memo :
        (p : Pointer) (ok : Bool)
        → recall p m.memo ≡ some ok
        → ok ≡ path_matches match_string store p
    last : m.last ≢ nil_pointer → m.last_ok ≡ path_matches match_string store m.last

  wanted :
      (p : Pointer)
      → (p == nil_pointer) ≡ false
      → path_matches match_string store p ≡ match_string (as_path_string (store p))
  wanted p e = if_false _ _ e

  remember :
      (m : AsPathMatcher) (p : Pointer)
      → IsRight m
      → (p == nil_pointer) ≡ false
      → let ok = match_string (as_path_string (store p)) in
        IsRight (record { memo = (p, ok) ∷ m.memo; last = p; last_ok = ok })
  unfolding recall
  remember m p i e = record {
    memo = λ q ok h. elim (Bool-cases (p == q)) [
      | inl z ↦
          let same : p ≡ q = (==_iff p q).0 z in
          let found : some (match_string (as_path_string (store p))) ≡ some ok =
            sym (if_true _ _ z) ∙ h in
          rw (← same) (sym (some-injective _ _ found) ∙ sym (wanted p e))
      | inr z ↦ i.memo q ok (sym (if_false _ _ z) ∙ h)
    ];
    last = λ h. sym (wanted p e);
  }

  match_as_path-IsRight :
      (m : AsPathMatcher) (p : Pointer)
      → IsRight m
      → ((match_as_path match_string store m p).1 ≡ path_matches match_string store p)
        × IsRight (match_as_path match_string store m p).0
  unfolding match_as_path
  match_as_path-IsRight m p i = elim (Bool-cases (p == nil_pointer)) [
    | inl e ↦ rw e (refl, i)
    | inr e ↦ elim (Bool-cases (p == m.last)) [
      | inl z ↦
          let same : p ≡ m.last = (==_iff p m.last).0 z in
          rw (e, z)
            (
              i.last (λ h. ground arith)
                  ∙ ap (path_matches match_string store) (sym same)
                  ∙ wanted p e,
              i,
            )
      | inr z ↦ elim (Option-cases (recall p m.memo)) [
        | inl h ↦ rw (e, z, h) (refl, remember m p i e)
        | inr (ok, h) ↦
            let right = i.memo p ok h in
            rw (e, z, h) (right ∙ wanted p e, record { memo = i.memo; last = λ ne. right })
      ]
    ]
  ]

  new_matcher-IsRight : IsRight new_as_path_matcher
  unfolding recall
  new_matcher-IsRight = record {
    memo = λ p ok h. absurd (none-ne-some _ h);
    last = λ ne. absurd (ne refl);
  }

-- PrefixesByAsPathRegex, which remembers the result for each object, returns the same routes in
-- the same order as the walk that asks the regular expression about the AS path of each path anew.
pub prefixes_by_as_path_regex-memo :
    (match_string : List ℕ → Bool) (fam : Family) (visited : ℕ) (r : Rib)
    → prefixes_by_as_path_regex match_string fam visited r
      ≡ prefixes_matching (forget (path_matches match_string r.table.store)) tt fam visited r
unfolding prefixes_by_as_path_regex prefixes_matching
prefixes_by_as_path_regex-memo match_string fam visited r =
    matching_from-same (match_as_path match_string r.table.store)
      (path_matches match_string r.table.store) (IsRight match_string r.table.store) r.table.store
      (λ s p i. match_as_path-IsRight match_string r.table.store s p i) fam 0 (take visited r.root)
      new_as_path_matcher (new_matcher-IsRight match_string r.table.store)
