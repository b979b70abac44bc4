-- ===== src/Trie/Prune.antt =====
-- deleteNode, the lists of paths and the sums over the paths.
use routing_table.Prelude.{
  ℕ, ◌+◌, ◌≡◌, refl, ◌∙◌, sym, Bool, true, false, List, [], ◌∷◌, length, if◌then◌else◌, arith,
  Bool-cases, inl, inr,
}
use native.Mathlib.Nat.{add-zero}
use routing_table.Node.{Node, all_paths}
use routing_table.Trie.{Trie, nil, node, Crumb, plug, plug_all, delete_node, is_empty_leaf}
use routing_table.Trie.Reads.{node_at, paths_at}
use routing_table.Trie.Totals.{size, total}

abbrev pub SameReads : Trie → Trie → Type 0
SameReads s t = (q : List Bool) → paths_at q s ≡ paths_at q t

plug-SameReads : (c : Crumb) (s t : Trie) → SameReads s t → SameReads (plug c s) (plug c t)
plug-SameReads c s t h q = plug_side c.bit q
  where
    plug_side :
        (b : Bool) (q : List Bool)
        → paths_at q (if b then node c.above c.other s else node c.above s c.other)
          ≡ paths_at q (if b then node c.above c.other t else node c.above t c.other)
    plug_side true [] = unfold node_at in refl
    plug_side true (false ∷ q) = unfold node_at in refl
    plug_side true (true ∷ q) = unfold node_at in h q
    plug_side false [] = unfold node_at in refl
    plug_side false (false ∷ q) = unfold node_at in h q
    plug_side false (true ∷ q) = unfold node_at in refl

plug_all-SameReads :
    (crumbs : List Crumb) (s t : Trie)
    → SameReads s t
    → SameReads (plug_all crumbs s) (plug_all crumbs t)
unfolding plug_all
plug_all-SameReads [] s t h = h
plug_all-SameReads (c ∷ crumbs) s t h =
    plug_all-SameReads crumbs (plug c s) (plug c t) (plug-SameReads c s t h)

pub empty_leaf-SameReads : (t : Trie) → is_empty_leaf t ≡ true → SameReads t nil
unfolding node_at all_paths
empty_leaf-SameReads nil h q = cc
empty_leaf-SameReads (node n nil nil) h [] = ground arith
empty_leaf-SameReads (node n nil nil) h (false ∷ q) = refl
empty_leaf-SameReads (node n nil nil) h (true ∷ q) = refl
empty_leaf-SameReads (node n nil (node _ _ _)) h q = cc
empty_leaf-SameReads (node n (node _ _ _) r) h q = cc

pub empty_leaf-size : (t : Trie) → is_empty_leaf t ≡ true → size t ≡ 1
unfolding size
empty_leaf-size nil h = cc
empty_leaf-size (node n nil nil) h = omega arith
empty_leaf-size (node n nil (node _ _ _)) h = cc
empty_leaf-size (node n (node _ _ _) r) h = cc

-- No list of paths changes.
pub delete_node-paths_at :
    (crumbs : List Crumb) (t : Trie) (q : List Bool)
    → paths_at q (delete_node crumbs t).1 ≡ paths_at q (plug_all crumbs t)
unfolding delete_node plug_all
delete_node-paths_at [] t q = refl
delete_node-paths_at (c ∷ crumbs) t q = elim (Bool-cases (is_empty_leaf t)) [
  | inr e ↦ rw e
  | inl e ↦ rw e (
      delete_node-paths_at crumbs (plug c nil) q
      ∙ sym (plug_all-SameReads (c ∷ crumbs) t nil (empty_leaf-SameReads t e) q))
]

plug-size : (c : Crumb) (t : Trie) → size (plug c t) ≡ size c.other + size t + 1
unfolding size
plug-size c t = ground arith

plug_all-size :
    (crumbs : List Crumb) (s t : Trie)
    → size (plug_all crumbs s) + size t ≡ size (plug_all crumbs t) + size s
unfolding plug_all
plug_all-size [] s t = omega arith
plug_all-size (c ∷ crumbs) s t =
    omega (arith, plug_all-size crumbs (plug c s) (plug c t), plug-size c s, plug-size c t)

-- The nodes that deleteNode counts are those that are gone.
pub delete_node-size :
    (crumbs : List Crumb) (t : Trie)
    → size (delete_node crumbs t).1 + (delete_node crumbs t).0 ≡ size (plug_all crumbs t)
unfolding delete_node plug_all size
delete_node-size [] t = omega arith
delete_node-size (c ∷ crumbs) t = elim (Bool-cases (is_empty_leaf t)) [
  | inr e ↦ rw e (omega arith)
  | inl e ↦ rw e (
      omega (
        arith,
        delete_node-size crumbs (plug c nil),
        plug_all-size crumbs (plug c t) (plug c nil),
        plug-size c nil,
        plug-size c t,
        empty_leaf-size t e,
      ))
]

module _ (f : ℕ → Node → ℕ) where
  plug-total :
      (c : Crumb) (d : ℕ) (t : Trie)
      → total f d (plug c t) ≡ f d c.above + (total f (d + 1) c.other + total f (d + 1) t)
  unfolding total
  plug-total c d t = ground arith

  pub plug_all-total :
      (crumbs : List Crumb) (d : ℕ) (s t : Trie)
      → total f d (plug_all crumbs s) + total f (d + length crumbs) t
        ≡ total f d (plug_all crumbs t) + total f (d + length crumbs) s
  unfolding plug_all
  plug_all-total [] d s t = rw (add-zero d) (omega arith)
  plug_all-total (c ∷ crumbs) d s t =
      let e : d + length (c ∷ crumbs) ≡ d + length crumbs + 1 = omega arith in
      rw e (
        omega (
          arith,
          plug_all-total crumbs d (plug c s) (plug c t),
          plug-total c (d + length crumbs) s,
          plug-total c (d + length crumbs) t,
        ))

  module _ (z : (d : ℕ) (n : Node) → n.has_path ≡ false → f d n ≡ 0) where
    pub empty_leaf-total : (d : ℕ) (t : Trie) → is_empty_leaf t ≡ true → total f d t ≡ 0
    unfolding total
    empty_leaf-total d nil h = cc
    empty_leaf-total d (node n nil nil) h = ground (arith, z d n)
    empty_leaf-total d (node n nil (node _ _ _)) h = cc
    empty_leaf-total d (node n (node _ _ _) r) h = cc

    -- A sum that counts nothing where there is no path does not change.
    pub delete_node-total :
        (crumbs : List Crumb) (d : ℕ) (t : Trie)
        → total f d (delete_node crumbs t).1 ≡ total f d (plug_all crumbs t)
    unfolding delete_node plug_all total
    delete_node-total [] d t = refl
    delete_node-total (c ∷ crumbs) d t = elim (Bool-cases (is_empty_leaf t)) [
      | inr e ↦ rw e
      | inl e ↦ rw e (
          omega (
            arith,
            delete_node-total crumbs d (plug c nil),
            plug_all-total (c ∷ crumbs) d t nil,
            empty_leaf-total (d + length (c ∷ crumbs)) t e,
          ))
    ]
