-- ===== src/Sweep/References.antt =====
-- DeleteStaleRoutes and the reference counts.
use routing_table.Prelude.{ℕ, suc, ◌+◌, ◌≤◌, ◌≡◌, refl, List, [], ◌∷◌, get_or, length, arith}
use native.Mathlib.Nat.{zero-add}
use routing_table.Attrs.{Pointer, nil_pointer}
use routing_table.AttrTable.Removed.{occurrences}
use routing_table.AttrTable.Counted.{amount, release_n-IsCounted}
use routing_table.Trie.{Trie, nil, node}
use routing_table.Trie.Sound.{AllValid}
use routing_table.Trie.Totals.{total}
use routing_table.Family.{Family}
use routing_table.Tally.{MapOrder, new_tally, settle_last, tally_all, release_tally}
use routing_table.Tally.Amounts.{refs_here, tallied-tally_all, IsLoop, perm-amount}
use routing_table.Rib.{Rib}
use routing_table.Rib.State.{paths_here, root_total}
use routing_table.Rib.Valid.{IsValid}
use routing_table.Rib.Holding.{IsHeld, held_by}
use routing_table.Sweep.{sweep_roots, delete_stale_routes}
use routing_table.Sweep.Sums.{paths_here-IsLost, refs_here-IsLost}
use routing_table.Sweep.Roots.{swept_roots-total}
use routing_table.Sweep.Whole.{sound}

-- No path of a valid trie has a nil pointer.
pub total-no_nil : (d : ℕ) (t : Trie) → AllValid t → total (refs_here nil_pointer) d t ≡ 0
unfolding total
total-no_nil d nil v = refl
total-no_nil d (node n l r) v =
    omega (arith, v.0.present, total-no_nil (d + 1) l v.1, total-no_nil (d + 1) r v.2)

pub root_total-no_nil :
    (ts : List Trie)
    → ((j : ℕ) → AllValid (get_or ts j nil))
    → root_total (refs_here nil_pointer) ts ≡ 0
unfolding root_total
root_total-no_nil [] v = refl
root_total-no_nil (t ∷ ts) v =
    omega (arith, total-no_nil 8 t (v 0), root_total-no_nil ts (λ j. v (suc j)))

module _ (order : MapOrder) (fam : Family) (r : Rib) (valid : IsValid r) where
  -- No path is added.
  pub delete_stale_routes-total :
      root_total paths_here (delete_stale_routes order fam r).0.root ≤ root_total paths_here r.root
  unfolding delete_stale_routes
  delete_stale_routes-total = omega (
    arith,
    swept_roots-total fam paths_here (λ ps xs. length xs) paths_here-IsLost 0 r.root
        (sound order fam r valid),
  )

  swept_refs :
      (q : Pointer)
      → let s = sweep_roots fam 0 r.root in
        root_total (refs_here q) s.roots + occurrences q s.tally ≡ root_total (refs_here q) r.root
  swept_refs q =
      swept_roots-total fam (refs_here q) (λ ps xs. occurrences q xs) (refs_here-IsLost q) 0 r.root
        (sound order fam r valid)

  released :
      IsLoop order
      → (q : Pointer)
      → let s = sweep_roots fam 0 r.root in
        amount q (order (settle_last (tally_all s.tally new_tally))) ≡ occurrences q s.tally
  unfolding amount settle_last
  released loop q =
      let s = sweep_roots fam 0 r.root in
      let none_nil : occurrences nil_pointer s.tally ≡ 0 =
        omega (arith, swept_refs nil_pointer, root_total-no_nil r.root valid.nodes) in
      rw
        (perm-amount q (order (settle_last (tally_all s.tally new_tally))) _
          (loop (settle_last (tally_all s.tally new_tally))))
        (rw (tallied-tally_all q s.tally new_tally none_nil) (zero-add _))

  -- The references that go are those that are released.
  pub delete_stale_routes-IsHeld :
      (others : Pointer → ℕ)
      → IsLoop order
      → IsHeld others r
      → IsHeld others (delete_stale_routes order fam r).0
  unfolding delete_stale_routes release_tally
  delete_stale_routes-IsHeld others loop held =
      let s = sweep_roots fam 0 r.root in
      release_n-IsCounted (order (settle_last (tally_all s.tally new_tally))) r.table
        (held_by r others) _ valid.table held (λ q. omega (arith, released loop q, swept_refs q))
