-- ===== src/Sweep/Roots.antt =====
-- The loop of DeleteStaleRoutes over the root array.
use routing_table.Prelude.{ℕ, zero, suc, ◌+◌, ◌≡◌, refl, ap, List, [], ◌∷◌, length, get_or, arith}
use routing_table.Attrs.{Pointer}
use routing_table.Node.{Node}
use routing_table.Trie.{Trie, nil}
use routing_table.Trie.Sound.{AllValid}
use routing_table.Trie.Compact.{IsCompact}
use routing_table.Family.{Family}
use routing_table.Rib.State.{root_total, root_size}
use routing_table.Sweep.{Swept, kept, delete_stale_from_node, sweep_roots}
use routing_table.Sweep.Walk.{cut-leaf}
use routing_table.Sweep.Left.{kept-size, swept-size}
use routing_table.Sweep.Sums.{IsLost, kept-total, swept-total}

-- Each trie of a root array is valid and compact.
abbrev pub AllSound : List Trie → Type 0
AllSound ts = (j : ℕ) → AllValid (get_or ts j nil) × IsCompact (get_or ts j nil)

abbrev pub walked : Family → ℕ → Trie → Swept
walked fam i t = delete_stale_from_node (fam.first i) 8 t

module _ (fam : Family) where
  pub root-at :
      (i : ℕ) (ts : List Trie) (j : ℕ)
      → AllSound ts
      → get_or (sweep_roots fam i ts).roots j nil ≡ kept (walked fam (i + j) (get_or ts j nil))
  unfolding sweep_roots delete_stale_from_node
  root-at i [] j s = refl
  root-at i (t ∷ ts) zero s =
      let e : i + 0 ≡ i = omega arith in rw (e, ← cut-leaf (fam.first i) 8 t (s 0).0 (s 0).1)
  root-at i (t ∷ ts) (suc j) s =
      let e : i + suc j ≡ i + 1 + j = omega arith in rw e (root-at (i + 1) ts j (λ k. s (suc k)))

  pub swept_roots-length :
      (i : ℕ) (ts : List Trie) → length (sweep_roots fam i ts).roots ≡ length ts
  unfolding sweep_roots
  swept_roots-length i [] = refl
  swept_roots-length i (t ∷ ts) = ap suc (swept_roots-length (i + 1) ts)

  pub swept_roots-size :
      (i : ℕ) (ts : List Trie)
      → AllSound ts
      → root_size (sweep_roots fam i ts).roots + (sweep_roots fam i ts).nodes ≡ root_size ts
  unfolding sweep_roots root_size
  swept_roots-size i [] s = refl
  swept_roots-size i (t ∷ ts) s =
      let cuts = cut-leaf (fam.first i) 8 t (s 0).0 (s 0).1 in
      rw (← cuts) (
        omega (
          arith,
          kept-size (walked fam i t) cuts,
          swept-size (fam.first i) 8 t (s 0).0 (s 0).1,
          swept_roots-size (i + 1) ts (λ k. s (suc k)),
        ))

  module _ (f : ℕ → Node → ℕ) (lost : List (List ℕ × ℕ) → List Pointer → ℕ)
      (m : IsLost f lost) where
    pub swept_roots-total :
        (i : ℕ) (ts : List Trie)
        → AllSound ts
        → let s = sweep_roots fam i ts in
          root_total f s.roots + lost s.removed s.tally ≡ root_total f ts
    unfolding sweep_roots root_total
    swept_roots-total i [] s = omega (arith, m.lost-nil)
    swept_roots-total i (t ∷ ts) s =
        let cuts = cut-leaf (fam.first i) 8 t (s 0).0 (s 0).1 in
        let a = walked fam i t in
        let rest = sweep_roots fam (i + 1) ts in
        rw (← cuts) (
          omega (
            arith,
            kept-total f lost m a 8 cuts,
            swept-total f lost m (fam.first i) 8 t (s 0).0 (s 0).1,
            swept_roots-total (i + 1) ts (λ k. s (suc k)),
            m.lost-append a.removed rest.removed a.tally rest.tally,
          ))
