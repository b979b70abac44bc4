-- ===== src/Rib/Lowering.antt =====
-- The counters of a RIB where a path goes.
use native.Mathlib.Nat.{add-zero}
use routing_table.Prelude.{
  ℕ, ◌+◌, ◌≡◌, ◌≢◌, ◌%◌, refl, sym, ap, ◌∙◌, Bool, true, false, not, ◌&&◌, some, List, [], arith,
  if◌then◌else◌, ◌==◌, ==_iff, Bool-cases, inl, inr,
}
use routing_table.Prelude.Word.{word_mod, sub64}
use routing_table.Attrs.{Pointer}
use routing_table.Node.{Node, all_paths, paths_count, delete_path}
use routing_table.Trie.{nil}
use routing_table.Trie.Reads.{node_at, paths_at}
use routing_table.Rib.{set_mask}

pub found-has_path :
    (n : Node) (q : ℕ) (a : Pointer) → (delete_path n q).1 ≡ some a → n.has_path ≡ true
unfolding delete_path
found-has_path n q a h = ground arith

pub no_paths : (n : Node) → n.has_path ≡ false → paths_count n ≡ 0
unfolding paths_count
no_paths n h = rw h

pub paths_ne : (n : Node) → n.has_path ≡ true → all_paths n ≢ []
unfolding all_paths
paths_ne n h e = ground arith

pub sub_one : (c s t : ℕ) → c ≡ t % word_mod → s + 1 ≡ t → sub64 c 1 ≡ s % word_mod
sub_one c s t h k = omega arith

-- The counters, as they are written.
pub count_if-mod :
    (gone : Bool) (c s t : ℕ)
    → c ≡ t % word_mod
    → s + (if gone then 1 else 0) ≡ t
    → (if gone then sub64 c 1 else c) ≡ s % word_mod
count_if-mod true c s t h k = omega arith
count_if-mod false c s t h k = omega arith

pub nodes_if-mod :
    (gone leaf : Bool) (c s t pruned : ℕ)
    → c ≡ t % word_mod
    → (gone ≡ false → pruned ≡ 0)
    → s + (if gone && leaf then 1 else 0) + pruned ≡ t
    → (if gone then (if leaf then sub64 (sub64 c pruned) 1 else sub64 c pruned) else c)
      ≡ s % word_mod
nodes_if-mod true true c s t pruned h u k = omega arith
nodes_if-mod true false c s t pruned h u k = omega arith
nodes_if-mod false leaf c s t pruned h u k = omega (arith, u refl)

pub mask_if-mod :
    (gone : Bool) (masks : ℕ → ℕ) (mask m s t : ℕ)
    → masks m ≡ t % word_mod
    → s + (if gone then (if m == mask then 1 else 0) else 0) ≡ t
    → (if gone then set_mask masks mask (sub64 (masks mask) 1) m else masks m) ≡ s % word_mod
mask_if-mod true masks mask m s t h k = elim (Bool-cases (m == mask)) [
  | inl e ↦
      let same : m ≡ mask = (==_iff m mask).0 e in
      rw (e, ← same) (sub_one (masks m) s t h (rw e at k))
  | inr e ↦ rw e (h ∙ ap (λ (x : ℕ). x % word_mod) (sym (rw e at k) ∙ add-zero s))
]
mask_if-mod false masks mask m s t h k = omega arith

pub one_less :
    (gone has : Bool) (s t : ℕ)
    → gone ≡ not has
    → s + 1 ≡ t + (if has then 1 else 0)
    → s + (if gone then 1 else 0) ≡ t
one_less gone has s t h k = ground arith

pub one_less_at :
    (gone has : Bool) (mask m s t : ℕ)
    → gone ≡ not has
    → s + (if mask == m then 1 else 0) ≡ t + (if mask == m then (if has then 1 else 0) else 0)
    → s + (if gone then (if m == mask then 1 else 0) else 0) ≡ t
one_less_at gone has mask m s t h k = ground arith

pub no_paths_nil : (key : List Bool) → paths_at key nil ≡ []
unfolding node_at all_paths
no_paths_nil key = refl

pub both : (a b : Bool) → (a && b) ≡ true → b ≡ true
both a b h = ground arith
