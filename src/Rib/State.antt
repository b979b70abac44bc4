-- ===== src/Rib/State.antt =====
-- What the counters of a RIB count, and sums over the array.
use routing_table.Prelude.{
  ℕ, zero, suc, ◌+◌, ◌≡◌, ◌<◌, List, [], ◌∷◌, length, get_or, set, arith, if◌then◌else◌, ◌==◌,
}
use routing_table.Node.{Node, paths_count}
use routing_table.Trie.{Trie, nil}
use routing_table.Trie.Totals.{size, total}

-- What each counter counts at a node: prefixes, paths, and prefixes of one length.
abbrev pub prefix_here : ℕ → Node → ℕ
prefix_here d n = if n.has_path then 1 else 0

abbrev pub paths_here : ℕ → Node → ℕ
paths_here d n = paths_count n

abbrev pub prefix_of_len : ℕ → ℕ → Node → ℕ
prefix_of_len m d n = if d == m then (if n.has_path then 1 else 0) else 0

-- The sum over the root array; the entries hold the prefixes of 8 bits.
unfoldable pub root_total : (ℕ → Node → ℕ) → List Trie → ℕ
root_total f [] = 0
root_total f (t ∷ ts) = total f 8 t + root_total f ts

unfoldable pub root_size : List Trie → ℕ
root_size [] = 0
root_size (t ∷ ts) = size t + root_size ts

pub root_total-set :
    (f : ℕ → Node → ℕ) (ts : List Trie) (i : ℕ) (t : Trie)
    → i < length ts
    → root_total f (set ts i t) + total f 8 (get_or ts i nil) ≡ root_total f ts + total f 8 t
unfolding root_total
root_total-set f [] i t h = elim h [ ]
root_total-set f (x ∷ ts) zero t h = omega arith
root_total-set f (x ∷ ts) (suc i) t h = omega (arith, root_total-set f ts i t (omega arith))

pub root_size-set :
    (ts : List Trie) (i : ℕ) (t : Trie)
    → i < length ts
    → root_size (set ts i t) + size (get_or ts i nil) ≡ root_size ts + size t
unfolding root_size
root_size-set [] i t h = elim h [ ]
root_size-set (x ∷ ts) zero t h = omega arith
root_size-set (x ∷ ts) (suc i) t h = omega (arith, root_size-set ts i t (omega arith))
