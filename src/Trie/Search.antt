-- ===== src/Trie/Search.antt =====
-- The walks of Search, AllPathsSearch, Lookup and AllPaths.
use routing_table.Prelude.{
  ℕ, zero, suc, ◌+◌, ◌-◌, ◌≤◌, ◌<◌, ◌≡◌, refl, ◌∙◌, Bool, true, false, inl, inr, Option, none, some,
  List, [], ◌∷◌, length, take, if◌then◌else◌, ◌==◌, arith, Bool-cases, if_true, if_false,
}
use routing_table.Node.{Node}
use routing_table.Trie.{Trie, nil, node, child, exact_walk, deepest_walk}
use routing_table.Trie.Reads.{node_at, node_at-child}
use routing_table.Trie.Delete.{subtrie, subtrie-nil}

-- The node of a trie.
abbrev pub top : Trie → Option Node
top nil = none
top (node n l r) = some n

exact_step : List Bool → ℕ → ℕ → Trie → Option Node
exact_step bits k mask nil = none
exact_step bits k mask (node n l r) =
    if k == mask then some n else exact_walk bits (k + 1) mask (node n l r)

exact_walk-step :
    (bit : Bool) (bits : List Bool) (k mask : ℕ) (t : Trie)
    → exact_walk (bit ∷ bits) k mask t ≡ exact_step bits k mask (child bit t)
unfolding exact_walk exact_step
exact_walk-step bit bits k mask nil = refl
exact_walk-step false bits k mask (node n nil r) = refl
exact_walk-step false bits k mask (node n (node _ _ _) r) = refl
exact_walk-step true bits k mask (node n l nil) = refl
exact_walk-step true bits k mask (node n l (node _ _ _)) = refl

exact_step-last :
    (bits : List Bool) (k mask : ℕ) (s : Trie)
    → (k == mask) ≡ true
    → exact_step bits k mask s ≡ top s
unfolding exact_step
exact_step-last bits k mask nil e = refl
exact_step-last bits k mask (node n l r) e = rw e

exact_step-on :
    (bits key : List Bool) (k mask : ℕ) (s : Trie)
    → (k == mask) ≡ false
    → exact_walk bits (k + 1) mask s ≡ top (subtrie key s)
    → exact_step bits k mask s ≡ top (subtrie key s)
unfolding exact_step
exact_step-on bits key k mask nil e ih = rw (subtrie-nil key)
exact_step-on bits key k mask (node n l r) e ih = rw e ih

-- A walk whose bits reach the mask ends at the node at the first mask - bitCount + 1 bits.
pub exact_walk-top :
    (bits : List Bool) (k mask : ℕ) (t : Trie)
    → k ≤ mask
    → mask < k + length bits
    → exact_walk bits k mask t ≡ top (subtrie (take (mask + 1 - k) bits) t)
unfolding subtrie
exact_walk-top [] k mask t h l = absurd (omega arith)
exact_walk-top (bit ∷ bits) k mask t h l =
    exact_walk-step bit bits k mask t ∙ elim (Bool-cases (k == mask)) [
      | inl e ↦
          let one : mask + 1 - k ≡ 1 = ground arith in
          rw one (exact_step-last bits k mask (child bit t) e)
      | inr e ↦
          let more : mask + 1 - k ≡ suc (mask + 1 - (k + 1)) = ground arith in
          rw more (
            exact_step-on bits (take (mask + 1 - (k + 1)) bits) k mask (child bit t) e
              (exact_walk-top bits (k + 1) mask (child bit t) (ground arith) (omega arith)))
    ]

-- No prefix of j bits, for j from a bound up to the number of bits, has a path.
abbrev pub NoPath : List Bool → Trie → ℕ → Type 0
NoPath bits t low = (j : ℕ) → low ≤ j → j ≤ length bits → (node_at (take j bits) t).has_path ≡ false

-- The walk has found no prefix of 1 or more bits with a path, or the longest one.
pub data Longest (bits : List Bool) (k : ℕ) (t : Trie) (m : Option (Node × ℕ))
    : Option (Node × ℕ) → Type 0 where
  absent : {r : Option (Node × ℕ)} → NoPath bits t 1 → r ≡ m → Longest bits k t m r
  longest :
      {r : Option (Node × ℕ)} (j : ℕ)
      → 1 ≤ j
      → j ≤ length bits
      → (node_at (take j bits) t).has_path ≡ true
      → NoPath bits t (j + 1)
      → r ≡ some (node_at (take j bits) t, k + j - 1)
      → Longest bits k t m r

deepest_step : List Bool → ℕ → Trie → Option (Node × ℕ) → Option (Node × ℕ)
deepest_step bits k nil m = m
deepest_step bits k (node n l r) m =
    deepest_walk bits (k + 1) (node n l r) (if n.has_path then some (n, k) else m)

deepest_walk-step :
    (bit : Bool) (bits : List Bool) (k : ℕ) (t : Trie) (m : Option (Node × ℕ))
    → deepest_walk (bit ∷ bits) k t m ≡ deepest_step bits k (child bit t) m
unfolding deepest_walk deepest_step
deepest_walk-step bit bits k nil m = refl
deepest_walk-step false bits k (node n nil r) m = refl
deepest_walk-step false bits k (node n (node _ _ _) r) m = refl
deepest_walk-step true bits k (node n l nil) m = refl
deepest_walk-step true bits k (node n l (node _ _ _)) m = refl

NoPath-nil : (bits : List Bool) (low : ℕ) → NoPath bits nil low
unfolding node_at
NoPath-nil bits low j a b = refl

top-node_at : (s : Trie) (n : Node) → top s ≡ some n → node_at [] s ≡ n
unfolding node_at
top-node_at nil n h = cc
top-node_at (node n' l r) n h = cc

module _ (bit : Bool) (bits : List Bool) (k : ℕ) (t : Trie) (m : Option (Node × ℕ)) where
  after : (j : ℕ) → node_at (take (suc j) (bit ∷ bits)) t ≡ node_at (take j bits) (child bit t)
  after j = node_at-child bit (take j bits) t

  shift_NoPath : (low : ℕ) → NoPath bits (child bit t) low → NoPath (bit ∷ bits) t (suc low)
  shift_NoPath low h zero a b = absurd (omega arith)
  shift_NoPath low h (suc j) a b = rw (after j) (h j (omega arith) (omega arith))

  -- The prefix of one bit has no path, nor any longer one.
  all_NoPath :
      (node_at [] (child bit t)).has_path ≡ false
      → NoPath bits (child bit t) 1
      → NoPath bits (child bit t) 0
  all_NoPath h np zero a b = h
  all_NoPath h np (suc j) a b = np (suc j) (omega arith) b

  extend :
      (n : Node)
      → node_at [] (child bit t) ≡ n
      → {r : Option (Node × ℕ)}
      → Longest bits (k + 1) (child bit t) (if n.has_path then some (n, k) else m) r
      → Longest (bit ∷ bits) k t m r
  extend n e (longest j low high here np eq) =
      longest (suc j) (omega arith) (omega arith) (rw (after j) here)
        (λ i a b. shift_NoPath (j + 1) np i (omega arith) b)
        (let same : k + 1 + j - 1 ≡ k + suc j - 1 = omega arith in rw (after j, ← same) eq)
  extend n e (absent np eq) = elim (Bool-cases n.has_path) [
    | inl h ↦
        longest 1 (omega arith) (omega arith) (rw (after 0, e) h)
          (λ i a b. shift_NoPath 1 np i (omega arith) b)
          (let same : k + 1 - 1 ≡ k = omega arith in rw (after 0, e, same) (eq ∙ if_true _ _ h))
    | inr h ↦
        absent (λ i a b. shift_NoPath 0 (all_NoPath (rw e h) np) i (omega arith) b)
          (eq ∙ if_false _ _ h)
  ]

step_Longest :
    (bit : Bool) (bits : List Bool) (k : ℕ) (t : Trie) (m : Option (Node × ℕ)) (s : Trie)
    → child bit t ≡ s
    → ((u : Trie) (m' : Option (Node × ℕ))
        → Longest bits (k + 1) u m' (deepest_walk bits (k + 1) u m'))
    → Longest (bit ∷ bits) k t m (deepest_step bits k s m)
unfolding deepest_step
step_Longest bit bits k t m nil e ih =
    absent (shift_NoPath bit bits k t m 0 (rw e (NoPath-nil bits 0))) refl
step_Longest bit bits k t m (node n l r) e ih =
    extend bit bits k t m n (top-node_at (child bit t) n (rw e)) (rw e (ih (node n l r) _))

-- The walk finds the longest prefix with a path: of the prefixes of one bit or more, the longest
-- whose node has a path, or else what it started with.
pub deepest_walk-Longest :
    (bits : List Bool) (k : ℕ) (t : Trie) (m : Option (Node × ℕ))
    → Longest bits k t m (deepest_walk bits k t m)
unfolding deepest_walk
deepest_walk-Longest [] k t m = absent (λ j a b. absurd (omega arith)) refl
deepest_walk-Longest (bit ∷ bits) k t m = rw (deepest_walk-step bit bits k t m) (
    step_Longest bit bits k t m (child bit t) refl (λ u m'. deepest_walk-Longest bits (k + 1) u m'))
