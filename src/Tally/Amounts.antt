-- ===== src/Tally/Amounts.antt =====
-- What a tally counts.
use routing_table.Prelude.{
  ℕ, suc, ◌+◌, ◌≡◌, ◌≢◌, refl, ap, ◌∙◌, List, [], ◌∷◌, ◌==◌, if◌then◌else◌, get_or, arith,
}
use mathlib.Core.List.{Perm, Permᴰ}
use mathlib.Core.Logic.{∥∥₁_elim}
use native.Mathlib.Nat.{ℕ_set}
use routing_table.Attrs.{Pointer, nil_pointer, PathEntry}
use routing_table.Node.{Node, all_paths}
use routing_table.Node.Paths.{refs}
use routing_table.AttrTable.Removed.{occurrences}
use routing_table.AttrTable.Counted.{amount}
use routing_table.Trie.{Trie, nil, node}
use routing_table.Trie.Sound.{AllValid}
use routing_table.Trie.Totals.{total}
use routing_table.Rib.State.{root_total}
use routing_table.Tally.{
  Counts, Tally, add_count, settle_last, tally_attr, tally_all, tally_paths, collect_node_attrs,
  collect_roots,
}

-- The references to an object at a node.
abbrev pub refs_here : Pointer → ℕ → Node → ℕ
refs_here p d n = refs p (all_paths n)

amount-add_count :
    (q p : Pointer) (n : ℕ) (counts : Counts)
    → amount q (add_count p n counts) ≡ amount q counts + (if p == q then n else 0)
unfolding amount add_count
amount-add_count q p n [] = omega arith
amount-add_count q p n ((x, m) ∷ counts) = ground (arith, amount-add_count q p n counts)

-- A loop over a map goes through each entry once.
abbrev pub IsLoop : (Counts → Counts) → Type 0
IsLoop order = (counts : Counts) → Perm (order counts) counts

Permᴰ-amount : (q : Pointer) {a b : Counts} → Permᴰ a b → amount q a ≡ amount q b
unfolding amount
Permᴰ-amount q Permᴰ.nil = refl
Permᴰ-amount q (Permᴰ.cons {a = a} {b = b} {l₁ = xs} {l₂ = ys} e p) =
    rw e (ap (λ n. (if b.0 == q then b.1 else 0) + n) (Permᴰ-amount q p))
Permᴰ-amount q (Permᴰ.swap e d) = rw (e, d) (omega arith)
Permᴰ-amount q (Permᴰ.trans p r) = Permᴰ-amount q p ∙ Permᴰ-amount q r

pub perm-amount : (q : Pointer) (a b : Counts) → Perm a b → amount q a ≡ amount q b
perm-amount q a b p = ∥∥₁_elim p (ℕ_set _ _) (Permᴰ-amount q)

tallied : Pointer → Tally → ℕ
tallied q t = amount q (settle_last t)

tallied-tally_attr :
    (q p : Pointer) (t : Tally)
    → p ≢ nil_pointer
    → tallied q (tally_attr p t) ≡ tallied q t + (if p == q then 1 else 0)
unfolding tallied tally_attr settle_last
tallied-tally_attr q p t h = ground (
  arith,
  amount-add_count q t.last t.last_n t.counts,
  amount-add_count q t.last (t.last_n + 1) t.counts,
  amount-add_count q p 1 t.counts,
  amount-add_count q p 1 (add_count t.last t.last_n t.counts),
)

pub tallied-tally_all :
    (q : Pointer) (ps : List Pointer) (t : Tally)
    → occurrences nil_pointer ps ≡ 0
    → amount q (settle_last (tally_all ps t)) ≡ amount q (settle_last t) + occurrences q ps
unfolding tally_all occurrences tallied
tallied-tally_all q [] t h = omega arith
tallied-tally_all q (p ∷ ps) t h =
    let ne : p ≢ nil_pointer = λ e. ground arith in
    omega
      (arith, tallied-tally_all q ps (tally_attr p t) (ground arith), tallied-tally_attr q p t ne)

tallied-tally_paths :
    (q : Pointer) (es : List PathEntry) (t : Tally)
    → refs nil_pointer es ≡ 0
    → tallied q (tally_paths es t) ≡ tallied q t + refs q es
unfolding tally_paths refs
tallied-tally_paths q [] t h = omega arith
tallied-tally_paths q (e ∷ es) t h =
    let ne : e.attrs ≢ nil_pointer = λ z. ground arith in
    omega (
      arith,
      tallied-tally_paths q es (tally_attr e.attrs t) (ground arith),
      tallied-tally_attr q e.attrs t ne,
    )

tallied-collect_node_attrs :
    (q : Pointer) (d : ℕ) (x : Trie) (t : Tally)
    → AllValid x
    → tallied q (collect_node_attrs x t) ≡ tallied q t + total (refs_here q) d x
unfolding collect_node_attrs total
tallied-collect_node_attrs q d nil t v = omega arith
tallied-collect_node_attrs q d (node n l r) t v =
    let own = tally_paths (all_paths n) t in
    let left = collect_node_attrs l own in
    omega (
      arith,
      tallied-tally_paths q (all_paths n) t v.0.present,
      tallied-collect_node_attrs q (d + 1) l own v.1,
      tallied-collect_node_attrs q (d + 1) r left v.2,
    )

-- The tally of releaseTree counts the references in all tries.
pub tallied-collect_roots :
    (q : Pointer) (ts : List Trie) (t : Tally)
    → ((j : ℕ) → AllValid (get_or ts j nil))
    → amount q (settle_last (collect_roots ts t))
      ≡ amount q (settle_last t) + root_total (refs_here q) ts
unfolding collect_roots root_total tallied
tallied-collect_roots q [] t v = omega arith
tallied-collect_roots q (x ∷ ts) t v = omega (
  arith,
  tallied-collect_node_attrs q 8 x t (v 0),
  tallied-collect_roots q ts (collect_node_attrs x t) (λ j. v (suc j)),
)
