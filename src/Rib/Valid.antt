-- ===== src/Rib/Valid.antt =====
-- The invariant of a RIB, and a new RIB.
use native.Mathlib.Nat.{zero-add}
use routing_table.Prelude.{
  ℕ, zero, suc, ◌≡◌, ◌<◌, ◌%◌, refl, List, length, get_or, set, replicate, get_or-replicate,
  get_or-set_self, get_or-set_ne, arith, ◌==◌, ==_iff, Bool-cases, inl, inr,
}
use routing_table.Prelude.Word.{word_mod}
use routing_table.AttrTable.{AttrTable}
use routing_table.AttrTable.Insertion
use routing_table.Node.{Node}
use routing_table.Trie.{Trie, nil}
use routing_table.Trie.Sound.{AllValid}
use routing_table.Trie.Compact.{IsCompact}
use routing_table.Trie.Totals.{size, total}
use routing_table.Rib.{Rib, entry, new_rib}
use routing_table.Rib.State.{prefix_here, paths_here, prefix_of_len, root_total, root_size}

-- The attribute table and every node are valid, no leaf is empty, and each counter is the number
-- of what it counts in the tries, modulo 2^64.
pub record IsValid (r : Rib) : Type 0 where
  pub table : Insertion.IsValid r.table
  pub nodes : (j : ℕ) → AllValid (entry r j)
  pub compact : (j : ℕ) → IsCompact (entry r j)
  pub count : r.count ≡ root_total prefix_here r.root % word_mod
  pub path_count : r.path_count ≡ root_total paths_here r.root % word_mod
  pub node_count : r.node_count ≡ root_size r.root % word_mod
  pub masks : (m : ℕ) → r.masks m ≡ root_total (prefix_of_len m) r.root % word_mod

-- A property of all entries, after a write to one.
pub entries-set :
    (P : Trie → Type 0) (ts : List Trie) (i : ℕ) (t : Trie)
    → i < length ts
    → ((j : ℕ) → P (get_or ts j nil))
    → P t
    → (j : ℕ) → P (get_or (set ts i t) j nil)
entries-set P ts i t h all p j = elim (Bool-cases (i == j)) [
  | inl e ↦ let same : i ≡ j = (==_iff i j).0 e in rw (← same, get_or-set_self ts i t nil h) p
  | inr e ↦ rw (get_or-set_ne ts t nil (λ (same : i ≡ j). ground arith)) (all j)
]

pub root_total-replicate : (f : ℕ → Node → ℕ) (n : ℕ) → root_total f (replicate n nil) ≡ 0
unfolding root_total total
root_total-replicate f zero = refl
root_total-replicate f (suc n) = rw zero-add (root_total-replicate f n)

root_size-replicate : (n : ℕ) → root_size (replicate n nil) ≡ 0
unfolding root_size size
root_size-replicate zero = refl
root_size-replicate (suc n) = rw zero-add (root_size-replicate n)

-- A new RIB over a valid table is valid.
pub new_rib-IsValid :
    (n : ℕ) (table : AttrTable) → Insertion.IsValid table → IsValid (new_rib n table)
unfolding new_rib
new_rib-IsValid n table valid = record {
  table = valid;
  nodes = λ j. rw (get_or-replicate n j nil) tt;
  compact = λ j. rw (get_or-replicate n j nil) tt;
  count = rw (root_total-replicate prefix_here n);
  path_count = rw (root_total-replicate paths_here n);
  node_count = rw (root_size-replicate n);
  masks = λ m. rw (root_total-replicate (prefix_of_len m) n);
}
