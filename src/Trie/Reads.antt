-- ===== src/Trie/Reads.antt =====
-- The abstract view of a trie: the node, and the list of paths, that each sequence of bits leads to.
use routing_table.Prelude.{
  ◌≡◌, ◌≢◌, refl, Bool, true, false, ◌&&◌, List, [], ◌∷◌, same_bit, if◌then◌else◌, arith,
}
use routing_table.Attrs.{PathEntry}
use routing_table.Node.{Node, empty_node, all_paths}
use routing_table.Trie.{Trie, nil, node, child, make}

unfoldable pub node_at : List Bool → Trie → Node
node_at key nil = empty_node
node_at [] (node n l r) = n
node_at (bit ∷ key) (node n l r) = node_at key (child bit (node n l r))

abbrev pub paths_at : List Bool → Trie → List PathEntry
paths_at key t = all_paths (node_at key t)

unfoldable pub same_bits : List Bool → List Bool → Bool
same_bits [] [] = true
same_bits [] (b ∷ bs) = false
same_bits (a ∷ xs) [] = false
same_bits (a ∷ xs) (b ∷ bs) = same_bit a b && same_bits xs bs

pub node_at-child :
    (bit : Bool) (key : List Bool) (t : Trie) → node_at (bit ∷ key) t ≡ node_at key (child bit t)
unfolding node_at
node_at-child bit key nil = refl
node_at-child bit key (node n l r) = refl

pub node_at-make : (key : List Bool) (t : Trie) → node_at key (make t).0 ≡ node_at key t
unfolding node_at
node_at-make key (node n l r) = refl
node_at-make [] nil = refl
node_at-make (false ∷ key) nil = refl
node_at-make (true ∷ key) nil = refl

pub make-ne-nil : (t : Trie) → (make t).0 ≢ nil
make-ne-nil nil = λ h. cc
make-ne-nil (node n l r) = λ h. cc

pub same_bits-eq : (a b : List Bool) → same_bits a b ≡ true → a ≡ b
unfolding same_bits
same_bits-eq [] [] h = refl
same_bits-eq [] (b ∷ bs) h = cc
same_bits-eq (a ∷ xs) [] h = cc
same_bits-eq (a ∷ xs) (b ∷ bs) h = ground (arith, same_bits-eq xs bs)

pub same_bits_refl : (a : List Bool) → same_bits a a ≡ true
unfolding same_bits
same_bits_refl [] = refl
same_bits_refl (true ∷ xs) = same_bits_refl xs
same_bits_refl (false ∷ xs) = same_bits_refl xs

-- The list of paths of a node that is chosen by a test.
pub all_paths_if :
    (b : Bool) (m n : Node)
    → all_paths (if b then m else n) ≡ (if b then all_paths m else all_paths n)
all_paths_if true m n = refl
all_paths_if false m n = refl
