-- ===== src/Walkers/Matching.antt =====
-- prefixesMatching with a test: which routes are found.
use routing_table.Prelude.{
  ℕ, zero, suc, ◌+◌, ◌≤◌, ◌<◌, ◌≡◌, refl, Bool, true, false, List, [], ◌∷◌, ◌++◌, length, get_or,
  take, Has, append-Has, Has-append_left, Has-append_right, leb, arith, Bool-cases, inl, inr,
  if_true, if_false,
}
use native.Mathlib.Nat.{add-zero}
use routing_table.Attrs.{Pointer, Store, IpPrefix, Route, PathEntry}
use routing_table.Attrs.Prefix.{prefix_from}
use routing_table.Node.{Node, all_paths}
use routing_table.Select.{route_of}
use routing_table.Trie.{Trie, nil, node}
use routing_table.Trie.Reads.{node_at, paths_at}
use routing_table.Family.{Family, next_addr}
use routing_table.Walkers.{matching_paths, collect_matching, matching_from}
use routing_table.Walkers.Keys.{write_bits, prefix_at}
use routing_table.Walkers.Memo.{forget}

module _ (test : Pointer → Bool) (store : Store) where
  -- A path of the list that passes the test, as a route.
  abbrev pub IsHit : IpPrefix → List PathEntry → Route → Type 0
  IsHit prefix es x =
      (e : PathEntry) × Has e es × (test e.attrs ≡ true) × (x ≡ route_of store prefix e)

  matching_paths-Has :
      (prefix : IpPrefix) (es : List PathEntry) (x : Route)
      → Has x (matching_paths (forget test) store prefix es tt).1
      → IsHit prefix es x
  unfolding matching_paths
  matching_paths-Has prefix [] x m = elim m [ ]
  matching_paths-Has prefix (e ∷ es) x m = elim (Bool-cases (test e.attrs)) [
    | inl z ↦ elim (rw (if_true {A = List Route} _ _ z) at m) [
      | inl here ↦ (e, inl refl, z, here)
      | inr there ↦ let (d, md, h, s) = matching_paths-Has prefix es x there in (d, inr md, h, s)
    ]
    | inr z ↦
        let (d, md, h, s) =
          matching_paths-Has prefix es x (rw (if_false {A = List Route} _ _ z) at m) in
        (d, inr md, h, s)
  ]

  Has-matching_paths :
      (prefix : IpPrefix) (es : List PathEntry) (e : PathEntry)
      → Has e es
      → test e.attrs ≡ true
      → Has (route_of store prefix e) (matching_paths (forget test) store prefix es tt).1
  unfolding matching_paths
  Has-matching_paths prefix [] e m h = elim m [ ]
  Has-matching_paths prefix (d ∷ es) e (inl same) h = rw same (rw (rw same at h) (inl refl))
  Has-matching_paths prefix (d ∷ es) e (inr m) h =
      let rest = Has-matching_paths prefix es e m h in
      elim (Bool-cases (test d.attrs)) [ inl z ↦ rw z (inr rest) | inr z ↦ rw z rest ]

  -- A hit at a key of a trie, below an address.
  abbrev pub Below : Family → List ℕ → ℕ → Trie → Route → Type 0
  Below fam addr depth t x =
      (key : List Bool) × IsHit (prefix_at fam addr depth key) (paths_at key t) x

  below_child :
      (fam : Family) (addr : List ℕ) (depth : ℕ) (bit : Bool) (key : List Bool)
      → prefix_at fam (next_addr addr depth bit) (depth + 1) key
        ≡ prefix_at fam addr depth (bit ∷ key)
  unfolding write_bits
  below_child fam addr depth bit key =
      let e : depth + length (bit ∷ key) ≡ depth + 1 + length key = omega arith in rw e

  prefix_here :
      (fam : Family) (addr : List ℕ) (depth : ℕ)
      → prefix_at fam addr depth [] ≡ prefix_from (fam.address addr) depth
  unfolding write_bits
  prefix_here fam addr depth = rw (add-zero depth)

  -- The parts of what is found at a node.
  abbrev own_hits : Family → List ℕ → ℕ → Node → List Route
  own_hits fam addr depth n =
      (matching_paths (forget test) store (prefix_from (fam.address addr) depth) (all_paths n) tt).1

  abbrev hits_below : Family → List ℕ → ℕ → Bool → Trie → List Route
  hits_below fam addr depth bit t =
      (collect_matching (forget test) store fam (next_addr addr depth bit) (depth + 1) t tt).1

  collect_matching-Has :
      (fam : Family) (addr : List ℕ) (depth : ℕ) (t : Trie) (x : Route)
      → Has x (collect_matching (forget test) store fam addr depth t tt).1
      → Below fam addr depth t x
  unfolding collect_matching node_at all_paths
  collect_matching-Has fam addr depth nil x m = elim m [ ]
  collect_matching-Has fam addr depth (node n l r) x m = elim (Bool-cases (leb fam.limit depth)) [
    | inl z ↦ own (rw z at m)
    | inr z ↦
        elim (append-Has x (own_hits fam addr depth n)
          (hits_below fam addr depth false l ++ hits_below fam addr depth true r) (rw z at m)) [
            | inl h ↦ own h
            | inr h ↦
                elim (append-Has x (hits_below fam addr depth false l)
                  (hits_below fam addr depth true r) h) [
                    | inl k ↦
                        let (key, hit) =
                          collect_matching-Has fam (next_addr addr depth false) (depth + 1) l x k in
                        (false ∷ key, rw (← below_child fam addr depth false key) hit)
                    | inr k ↦
                        let (key, hit) =
                          collect_matching-Has fam (next_addr addr depth true) (depth + 1) r x k in
                        (true ∷ key, rw (← below_child fam addr depth true key) hit)
                  ]
          ]
  ]
    where
      own : Has x (own_hits fam addr depth n) → Below fam addr depth (node n l r) x
      own h = ([], rw (prefix_here fam addr depth) (matching_paths-Has _ (all_paths n) x h))

  Has-collect_matching :
      (fam : Family) (addr : List ℕ) (depth : ℕ) (t : Trie) (key : List Bool) (e : PathEntry)
      → Has e (paths_at key t)
      → test e.attrs ≡ true
      → depth + length key ≤ fam.limit
      → Has
          (route_of store (prefix_at fam addr depth key) e)
          (collect_matching (forget test) store fam addr depth t tt).1
  unfolding collect_matching node_at all_paths
  Has-collect_matching fam addr depth nil key e m h le = elim m [ ]
  Has-collect_matching fam addr depth (node n l r) [] e m h le =
      let own = Has-matching_paths (prefix_from (fam.address addr) depth) (all_paths n) e m h in
      rw (prefix_here fam addr depth) (elim (Bool-cases (leb fam.limit depth)) [
        | inl z ↦ rw z own
        | inr z ↦ rw z (
            Has-append_left _ (own_hits fam addr depth n)
              (hits_below fam addr depth false l ++ hits_below fam addr depth true r) own)
      ])
  Has-collect_matching fam addr depth (node n l r) (false ∷ key) e m h le =
      let z : leb fam.limit depth ≡ false = ground arith in
      let below =
        Has-collect_matching fam (next_addr addr depth false) (depth + 1) l key e m h
          (omega (arith, le)) in
      rw (z, ← below_child fam addr depth false key)
        (Has-append_right _ (own_hits fam addr depth n)
          (hits_below fam addr depth false l ++ hits_below fam addr depth true r)
          (Has-append_left _ (hits_below fam addr depth false l) (hits_below fam addr depth true r)
            below))
  Has-collect_matching fam addr depth (node n l r) (true ∷ key) e m h le =
      let z : leb fam.limit depth ≡ false = ground arith in
      let below =
        Has-collect_matching fam (next_addr addr depth true) (depth + 1) r key e m h
          (omega (arith, le)) in
      rw (z, ← below_child fam addr depth true key)
        (Has-append_right _ (own_hits fam addr depth n)
          (hits_below fam addr depth false l ++ hits_below fam addr depth true r)
          (Has-append_right _ (hits_below fam addr depth false l) (hits_below fam addr depth true r)
            below))

  -- A hit below one of the entries from an index on.
  abbrev pub BelowEntry : Family → ℕ → List Trie → ℕ → Route → Type 0
  BelowEntry fam i ts j x = Below fam (fam.first (i + j)) 8 (get_or ts j nil) x

  pub matching_from-Has :
      (fam : Family) (i visited : ℕ) (ts : List Trie) (x : Route)
      → Has x (matching_from (forget test) store fam i (take visited ts) tt).1
      → (j : ℕ) × (j < visited) × BelowEntry fam i ts j x
  unfolding matching_from
  matching_from-Has fam i zero ts x m = elim m [ ]
  matching_from-Has fam i (suc visited) [] x m = elim m [ ]
  matching_from-Has fam i (suc visited) (t ∷ ts) x m =
      elim (append-Has x (collect_matching (forget test) store fam (fam.first i) 8 t tt).1
        (matching_from (forget test) store fam (i + 1) (take visited ts) tt).1 m) [
          | inl here ↦
              (0, omega arith, rw (add-zero i) (collect_matching-Has fam (fam.first i) 8 t x here))
          | inr there ↦
              let (j, lt, hit) = matching_from-Has fam (i + 1) visited ts x there in
              let e : i + suc j ≡ i + 1 + j = omega arith in (suc j, omega (arith, lt), rw e hit)
        ]

  pub Has-matching_from :
      (fam : Family) (i visited : ℕ) (ts : List Trie) (j : ℕ) (key : List Bool) (e : PathEntry)
      → j < visited
      → Has e (paths_at key (get_or ts j nil))
      → test e.attrs ≡ true
      → 8 + length key ≤ fam.limit
      → Has
          (route_of store (prefix_at fam (fam.first (i + j)) 8 key) e)
          (matching_from (forget test) store fam i (take visited ts) tt).1
  unfolding matching_from node_at all_paths
  Has-matching_from fam i zero ts j key e lt m h le = elim lt [ ]
  Has-matching_from fam i (suc visited) [] j key e lt m h le = elim m [ ]
  Has-matching_from fam i (suc visited) (t ∷ ts) zero key e lt m h le = rw (add-zero i) (
      Has-append_left _ (collect_matching (forget test) store fam (fam.first i) 8 t tt).1
        (matching_from (forget test) store fam (i + 1) (take visited ts) tt).1
        (Has-collect_matching fam (fam.first i) 8 t key e m h le))
  Has-matching_from fam i (suc visited) (t ∷ ts) (suc j) key e lt m h le =
      let s : i + suc j ≡ i + 1 + j = omega arith in
      rw s (
        Has-append_right _ (collect_matching (forget test) store fam (fam.first i) 8 t tt).1
          (matching_from (forget test) store fam (i + 1) (take visited ts) tt).1
          (Has-matching_from fam (i + 1) visited ts j key e (omega arith) m h le))
