-- ===== src/Walkers/Keys.antt =====
-- collectPrefixes against the list of keys that have a path, in the order of the walk.
use routing_table.Prelude.{
  ℕ, ◌+◌, ◌≤◌, ◌<◌, ◌≡◌, refl, sym, ap, ◌∙◌, inl, inr, Bool, true, false, List, [], ◌∷◌, ◌++◌, map,
  length, length-append, Has, append-Has, Has-append_left, Has-append_right, Has-map, map-Has,
  length-map, leb, if◌then◌else◌, if_true, if_false, arith, Bool-cases,
}
use mathlib.Core.List.{map-append, append-nil}
use native.Mathlib.Nat.{add-zero}
use routing_table.Attrs.{IpPrefix}
use routing_table.Attrs.Prefix.{prefix_from}
use routing_table.Node.{Node}
use routing_table.Trie.{Trie, nil, node, child}
use routing_table.Trie.Reads.{node_at, node_at-child}
use routing_table.Trie.Totals.{total}
use routing_table.Rib.State.{prefix_here}
use routing_table.Family.{Family, next_addr}
use routing_table.Walkers.{collect_prefixes}

abbrev own_key : Node → List (List Bool)
own_key n = if n.has_path then [] ∷ [] else []

abbrev under : Bool → List (List Bool) → List (List Bool)
under bit = map (λ (key : List Bool). bit ∷ key)

-- The keys whose node has a path, a node before its children.
unfoldable pub keys : Trie → List (List Bool)
keys nil = []
keys (node n l r) = own_key n ++ (under false (keys l) ++ under true (keys r))

-- The address of a key below an address.
unfoldable pub write_bits : List ℕ → ℕ → List Bool → List ℕ
write_bits addr depth [] = addr
write_bits addr depth (bit ∷ key) = write_bits (next_addr addr depth bit) (depth + 1) key

abbrev pub prefix_at : Family → List ℕ → ℕ → List Bool → IpPrefix
prefix_at fam addr depth key =
    prefix_from (fam.address (write_bits addr depth key)) (depth + length key)

own_key-Has : (n : Node) (key : List Bool) → Has key (own_key n) → (key ≡ []) × (n.has_path ≡ true)
own_key-Has n key m = elim (Bool-cases n.has_path) [
  | inl e ↦ elim (rw (if_true {A = List (List Bool)} ([] ∷ []) [] e) at m) [
    | inl same ↦ (same, e)
    | inr h ↦ elim h [ ]
  ]
  | inr e ↦ absurd (rw (if_false {A = List (List Bool)} ([] ∷ []) [] e) at m)
]

under-node_at :
    (bit : Bool) (key : List Bool) (n : Node) (l r : Trie)
    → ((k : List Bool)
        → Has k (keys (child bit (node n l r)))
        → (node_at k (child bit (node n l r))).has_path ≡ true)
    → Has key (under bit (keys (child bit (node n l r))))
    → (node_at key (node n l r)).has_path ≡ true
under-node_at bit key n l r ih m =
    let (k, there, e) =
      Has-map (λ (key : List Bool). bit ∷ key) key (keys (child bit (node n l r))) m in
    rw (e, node_at-child bit k (node n l r)) (ih k there)

pub keys-has_path :
    (t : Trie) (key : List Bool) → Has key (keys t) → (node_at key t).has_path ≡ true
unfolding keys node_at
keys-has_path nil key m = elim m [ ]
keys-has_path (node n l r) key m =
    elim (append-Has key (own_key n) (under false (keys l) ++ under true (keys r)) m) [
      | inl here ↦ let (e, h) = own_key-Has n key here in rw e h
      | inr below ↦ elim (append-Has key (under false (keys l)) (under true (keys r)) below) [
        | inl left ↦ under-node_at false key n l r (keys-has_path l) left
        | inr right ↦ under-node_at true key n l r (keys-has_path r) right
      ]
    ]

pub has_path-keys :
    (t : Trie) (key : List Bool) → (node_at key t).has_path ≡ true → Has key (keys t)
unfolding keys node_at
has_path-keys nil key h = cc
has_path-keys (node n l r) [] h = rw h (inl refl)
has_path-keys (node n l r) (false ∷ key) h =
    Has-append_right (false ∷ key) (own_key n) (under false (keys l) ++ under true (keys r)) (
      Has-append_left (false ∷ key) (under false (keys l)) (under true (keys r))
        (map-Has (λ (key : List Bool). false ∷ key) key (keys l) (has_path-keys l key h)))
has_path-keys (node n l r) (true ∷ key) h =
    Has-append_right (true ∷ key) (own_key n) (under false (keys l) ++ under true (keys r)) (
      Has-append_right (true ∷ key) (under false (keys l)) (under true (keys r))
        (map-Has (λ (key : List Bool). true ∷ key) key (keys r) (has_path-keys r key h)))

pub keys-nil : (t : Trie) → ((key : List Bool) → (node_at key t).has_path ≡ false) → keys t ≡ []
unfolding keys node_at
keys-nil nil h = refl
keys-nil (node n l r) h =
    rw (h [], keys-nil l (λ key. h (false ∷ key)), keys-nil r (λ key. h (true ∷ key)))

length-own : (n : Node) → length (own_key n) ≡ (if n.has_path then 1 else 0)
length-own n = ground arith

pub length-keys : (d : ℕ) (t : Trie) → length (keys t) ≡ total prefix_here d t
unfolding keys total
length-keys d nil = refl
length-keys d (node n l r) = omega (
  arith,
  length-append (own_key n) (under false (keys l) ++ under true (keys r)),
  length-append (under false (keys l)) (under true (keys r)),
  length-map (λ (key : List Bool). false ∷ key) (keys l),
  length-map (λ (key : List Bool). true ∷ key) (keys r),
  length-keys (d + 1) l,
  length-keys (d + 1) r,
  length-own n,
)

module _ (fam : Family) where
  prefix_at-under :
      (addr : List ℕ) (depth : ℕ) (bit : Bool) (ks : List (List Bool))
      → map (prefix_at fam addr depth) (under bit ks)
        ≡ map (prefix_at fam (next_addr addr depth bit) (depth + 1)) ks
  unfolding write_bits
  prefix_at-under addr depth bit [] = refl
  prefix_at-under addr depth bit (key ∷ ks) =
      let e : depth + length (bit ∷ key) ≡ depth + 1 + length key = omega arith in
      rw (e, prefix_at-under addr depth bit ks)

  own_prefix :
      (n : Node) (addr : List ℕ) (depth : ℕ)
      → (if n.has_path then prefix_from (fam.address addr) depth ∷ [] else [])
        ≡ map (prefix_at fam addr depth) (own_key n)
  unfolding write_bits
  own_prefix n addr depth = elim (Bool-cases n.has_path) [
    | inl e ↦ rw (e, add-zero depth)
    | inr e ↦ rw e
  ]

  no_deeper :
      (t : Trie) (d limit : ℕ)
      → limit < d
      → ((key : List Bool) → (node_at key t).has_path ≡ true → d + length key ≤ limit)
      → keys t ≡ []
  no_deeper t d limit deep h = keys-nil t (λ key. elim (Bool-cases (node_at key t).has_path) [
    | inl e ↦ let le = h key e in absurd (omega arith)
    | inr e ↦ e
  ])

  -- No key that is too long for the walk has a path: the walk collects the prefixes of the keys.
  pub collect_prefixes-keys :
      (t : Trie) (addr : List ℕ) (depth : ℕ)
      → ((key : List Bool) → (node_at key t).has_path ≡ true → depth + length key ≤ fam.limit)
      → collect_prefixes fam addr depth t ≡ map (prefix_at fam addr depth) (keys t)
  unfolding collect_prefixes keys node_at
  collect_prefixes-keys nil addr depth h = refl
  collect_prefixes-keys (node n l r) addr depth h =
      let hl : (key : List Bool)
          → (node_at key l).has_path ≡ true
          → depth + 1 + length key ≤ fam.limit =
        λ key e. omega (arith, h (false ∷ key) e) in
      let hr : (key : List Bool)
          → (node_at key r).has_path ≡ true
          → depth + 1 + length key ≤ fam.limit =
        λ key e. omega (arith, h (true ∷ key) e) in
      elim (Bool-cases (leb fam.limit depth)) [
        | inl e ↦
            rw
              (
                e,
                no_deeper l (depth + 1) fam.limit (ground arith) hl,
                no_deeper r (depth + 1) fam.limit (ground arith) hr,
              )
              (own_prefix n addr depth
                ∙ ap (map (prefix_at fam addr depth)) (sym (append-nil (own_key n))))
        | inr e ↦ rw (
          e,
          map-append (prefix_at fam addr depth) (own_key n)
              (under false (keys l) ++ under true (keys r)),
          map-append (prefix_at fam addr depth) (under false (keys l)) (under true (keys r)),
          prefix_at-under addr depth false (keys l),
          prefix_at-under addr depth true (keys r),
          collect_prefixes-keys l (next_addr addr depth false) (depth + 1) hl,
          collect_prefixes-keys r (next_addr addr depth true) (depth + 1) hr,
          own_prefix n addr depth,
        )
      ]
