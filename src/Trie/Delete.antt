-- ===== src/Trie/Delete.antt =====
-- locate and delete_walk against a recursion on the bits of the prefix, and the abstract view.
use routing_table.Prelude.{
  ℕ, suc, ◌+◌, ◌-◌, ◌≤◌, ◌<◌, ◌≡◌, ◌≢◌, refl, ◌∙◌, Bool, true, false, Option, List, [], ◌∷◌, length,
  take, ◌==◌, if◌then◌else◌, arith, Bool-cases, inl, inr, none, some,
}
use routing_table.Node.{Node}
use routing_table.Trie.{Trie, nil, node, child, set_child, Crumb, crumb_of, plug, plug_all, locate}
use routing_table.Trie.Reads.{node_at, same_bits, node_at-child}

unfoldable pub subtrie : List Bool → Trie → Trie
subtrie [] t = t
subtrie (bit ∷ key) t = subtrie key (child bit t)

unfoldable pub crumbs_at : List Bool → Trie → List Crumb → List Crumb
crumbs_at [] t crumbs = crumbs
crumbs_at (bit ∷ key) t crumbs = crumbs_at key (child bit t) (crumb_of bit t ∷ crumbs)

-- The node at these bits is written.
unfoldable pub update_at : List Bool → Node → Trie → Trie
update_at key m nil = nil
update_at [] m (node n l r) = node m l r
update_at (false ∷ key) m (node n l r) = node n (update_at key m l) r
update_at (true ∷ key) m (node n l r) = node n l (update_at key m r)

pub subtrie-nil : (key : List Bool) → subtrie key nil ≡ nil
unfolding subtrie
subtrie-nil [] = refl
subtrie-nil (bit ∷ key) = subtrie-nil key

-- The result of a walk that found this trie.
unfoldable pub found : Trie → List Crumb → Option (Trie × List Crumb)
found nil crumbs = none
found (node n l r) crumbs = some (node n l r, crumbs)

-- One round of the walk, at the child that it looks at.
step : List Bool → ℕ → ℕ → List Crumb → Trie → Option (Trie × List Crumb)
step bits k mask above nil = none
step bits k mask above (node n l r) =
    if k == mask then some (node n l r, above) else locate bits (k + 1) mask (node n l r) above

locate-step :
    (bit : Bool) (bits : List Bool) (k mask : ℕ) (t : Trie) (crumbs : List Crumb)
    → locate (bit ∷ bits) k mask t crumbs ≡ step bits k mask (crumb_of bit t ∷ crumbs) (child bit t)
unfolding locate step
locate-step bit bits k mask nil crumbs = refl
locate-step false bits k mask (node n nil r) crumbs = refl
locate-step false bits k mask (node n (node _ _ _) r) crumbs = refl
locate-step true bits k mask (node n l nil) crumbs = refl
locate-step true bits k mask (node n l (node _ _ _)) crumbs = refl

step-last :
    (bits : List Bool) (k mask : ℕ) (above : List Crumb) (s : Trie)
    → (k == mask) ≡ true
    → step bits k mask above s ≡ found s above
unfolding step found
step-last bits k mask above nil e = refl
step-last bits k mask above (node n l r) e = rw e

step-on :
    (bits key : List Bool) (k mask : ℕ) (above : List Crumb) (s : Trie)
    → (k == mask) ≡ false
    → locate bits (k + 1) mask s above ≡ found (subtrie key s) (crumbs_at key s above)
    → step bits k mask above s ≡ found (subtrie key s) (crumbs_at key s above)
unfolding step found
step-on bits key k mask above nil e ih = rw (subtrie-nil key)
step-on bits key k mask above (node n l r) e ih = rw e ih

-- A walk whose bits reach the mask finds the trie at the first mask - bitCount + 1 bits.
pub locate-crumbs_at :
    (bits : List Bool) (k mask : ℕ) (t : Trie) (crumbs : List Crumb)
    → k ≤ mask
    → mask < k + length bits
    → let key = take (mask + 1 - k) bits in
      locate bits k mask t crumbs ≡ found (subtrie key t) (crumbs_at key t crumbs)
unfolding subtrie crumbs_at
locate-crumbs_at [] k mask t crumbs h l = absurd (omega arith)
locate-crumbs_at (bit ∷ bits) k mask t crumbs h l =
    let above : List Crumb = crumb_of bit t ∷ crumbs in
    locate-step bit bits k mask t crumbs ∙ elim (Bool-cases (k == mask)) [
      | inl e ↦
          let one : mask + 1 - k ≡ 1 = ground arith in
          rw one (step-last bits k mask above (child bit t) e)
      | inr e ↦
          let more : mask + 1 - k ≡ suc (mask + 1 - (k + 1)) = ground arith in
          rw more (
            step-on bits (take (mask + 1 - (k + 1)) bits) k mask above (child bit t) e
              (locate-crumbs_at bits (k + 1) mask (child bit t) above (ground arith) (omega arith)))
    ]

plug-crumb_of :
    (bit : Bool) (n : Node) (l r s : Trie)
    → plug (crumb_of bit (node n l r)) s ≡ set_child bit s (node n l r)
plug-crumb_of false n l r s = refl
plug-crumb_of true n l r s = refl

-- Back up from the node at these bits, with another node in its place.
pub plug_all-crumbs_at :
    (key : List Bool) (t : Trie) (crumbs : List Crumb) (n m : Node) (l r : Trie)
    → subtrie key t ≡ node n l r
    → plug_all (crumbs_at key t crumbs) (node m l r) ≡ plug_all crumbs (update_at key m t)
unfolding subtrie crumbs_at update_at plug_all
plug_all-crumbs_at [] nil crumbs n m l r h = cc
plug_all-crumbs_at [] (node n' l' r') crumbs n m l r h = cc
plug_all-crumbs_at (bit ∷ key) nil crumbs n m l r h = cc (subtrie-nil key)
plug_all-crumbs_at (false ∷ key) (node n' l' r') crumbs n m l r h =
    plug_all-crumbs_at key l' (crumb_of false (node n' l' r') ∷ crumbs) n m l r h
plug_all-crumbs_at (true ∷ key) (node n' l' r') crumbs n m l r h =
    plug_all-crumbs_at key r' (crumb_of true (node n' l' r') ∷ crumbs) n m l r h

pub node_at-subtrie : (key : List Bool) (t : Trie) → node_at key t ≡ node_at [] (subtrie key t)
unfolding subtrie
node_at-subtrie [] t = refl
node_at-subtrie (bit ∷ key) t = node_at-child bit key t ∙ node_at-subtrie key (child bit t)

pub update_at-node_at :
    (key : List Bool) (t : Trie) (m : Node) (q : List Bool)
    → subtrie key t ≢ nil
    → node_at q (update_at key m t) ≡ (if same_bits q key then m else node_at q t)
unfolding subtrie update_at node_at same_bits
update_at-node_at key nil m q h = absurd (h (subtrie-nil key))
update_at-node_at [] (node n l r) m [] h = refl
update_at-node_at [] (node n l r) m (false ∷ q) h = refl
update_at-node_at [] (node n l r) m (true ∷ q) h = refl
update_at-node_at (false ∷ key) (node n l r) m [] h = refl
update_at-node_at (true ∷ key) (node n l r) m [] h = refl
update_at-node_at (false ∷ key) (node n l r) m (true ∷ q) h = refl
update_at-node_at (true ∷ key) (node n l r) m (false ∷ q) h = refl
update_at-node_at (false ∷ key) (node n l r) m (false ∷ q) h = update_at-node_at key l m q h
update_at-node_at (true ∷ key) (node n l r) m (true ∷ q) h = update_at-node_at key r m q h
