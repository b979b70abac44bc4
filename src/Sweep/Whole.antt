-- ===== src/Sweep/Whole.antt =====
-- DeleteStaleRoutes: the lists of paths, the invariant, the counters and the reference counts.
use routing_table.Prelude.{ℕ, ◌+◌, ◌-◌, ◌%◌, ◌≡◌, ap, ◌∙◌, Bool, List, length, arith}
use routing_table.Prelude.Word.{word_mod, sub64, sub64-mod}
use routing_table.Attrs.{Pointer}
use routing_table.AttrTable.Release.{release_n-Keeps}
use routing_table.Node.{Node}
use routing_table.Node.Remove.{live}
use routing_table.Family.{Family}
use routing_table.Tally.{MapOrder, new_tally, settle_last, tally_all, release_tally}
use routing_table.Rib.{Rib, entry}
use routing_table.Rib.State.{prefix_here, paths_here, prefix_of_len, root_total, root_size}
use routing_table.Rib.Valid.{IsValid}
use routing_table.Rib.Sized.{IsSized}
use routing_table.Rib.View.{view}
use routing_table.Sweep.{at_depth, sweep_roots, delete_stale_routes}
use routing_table.Sweep.Walk.{cut-leaf}
use routing_table.Sweep.Left.{
  kept-paths_at, kept-AllValid, kept-IsCompact, swept-paths_at, swept-AllValid, swept-IsBelow,
}
use routing_table.Sweep.Sums.{IsLost, prefix_here-IsLost, prefix_of_len-IsLost, paths_here-IsLost}
use routing_table.Sweep.Roots.{
  walked, AllSound, root-at, swept_roots-length, swept_roots-size, swept_roots-total,
}

module _ (order : MapOrder) (fam : Family) (r : Rib) (valid : IsValid r) where
  pub sound : AllSound r.root
  sound j = (valid.nodes j, valid.compact j)

  -- On a valid RIB, DeleteStaleRoutes removes the stale paths of every prefix, and keeps the others
  -- in their order.
  pub delete_stale_routes-view :
      (j : ℕ) (q : List Bool) → view (delete_stale_routes order fam r).0 j q ≡ live (view r j q)
  unfolding view delete_stale_routes
  delete_stale_routes-view j q =
      let a = walked fam j (entry r j) in
      let e : 0 + j ≡ j = omega arith in
      rw (root-at fam 0 r.root j sound, e)
        (kept-paths_at a (cut-leaf (fam.first j) 8 (entry r j) (valid.nodes j) (valid.compact j)) q
          ∙ swept-paths_at (fam.first j) 8 (entry r j) (valid.nodes j) (valid.compact j) q)

  counter :
      (f : ℕ → Node → ℕ) (lost : List (List ℕ × ℕ) → List Pointer → ℕ) (m : IsLost f lost) (c : ℕ)
      → c ≡ root_total f r.root % word_mod
      → let s = sweep_roots fam 0 r.root in
        sub64 c (lost s.removed s.tally) ≡ root_total f s.roots % word_mod
  counter f lost m c h =
      let s = sweep_roots fam 0 r.root in
      let sum = swept_roots-total fam f lost m 0 r.root sound in
      let left : root_total f r.root - lost s.removed s.tally ≡ root_total f s.roots =
        omega (arith, sum) in
      sub64-mod c (root_total f r.root) (lost s.removed s.tally) (omega (arith, sum)) h
      ∙ ap (λ n. n % word_mod) left

  pub delete_stale_routes-IsValid : IsValid (delete_stale_routes order fam r).0
  unfolding delete_stale_routes release_tally
  delete_stale_routes-IsValid =
      let s = sweep_roots fam 0 r.root in
      let cuts : (j : ℕ) → _ =
        λ j. cut-leaf (fam.first j) 8 (entry r j) (valid.nodes j) (valid.compact j) in
      record {
        table =
            (release_n-Keeps r.table (order (settle_last (tally_all s.tally new_tally)))
              valid.table).valid;
        nodes = λ j.
            let e : 0 + j ≡ j = omega arith in
            rw (root-at fam 0 r.root j sound, e)
              (kept-AllValid (walked fam j (entry r j)) (cuts j)
                (swept-AllValid (fam.first j) 8 (entry r j) (valid.nodes j) (valid.compact j)));
        compact = λ j.
            let e : 0 + j ≡ j = omega arith in
            rw (root-at fam 0 r.root j sound, e)
              (kept-IsCompact (walked fam j (entry r j)) (cuts j)
                (swept-IsBelow (fam.first j) 8 (entry r j) (valid.nodes j) (valid.compact j)));
        count = counter prefix_here (λ ps xs. length ps) prefix_here-IsLost r.count valid.count;
        path_count =
            counter paths_here (λ ps xs. length xs) paths_here-IsLost r.path_count valid.path_count;
        node_count =
            let sum = swept_roots-size fam 0 r.root sound in
            let left : root_size r.root - s.nodes ≡ root_size s.roots = omega (arith, sum) in
            sub64-mod r.node_count (root_size r.root) s.nodes (omega (arith, sum)) valid.node_count
            ∙ ap (λ n. n % word_mod) left;
        masks = λ m.
            counter (prefix_of_len m) (λ ps xs. at_depth m ps) (prefix_of_len-IsLost m) (r.masks m)
              (valid.masks m);
      }

-- DeleteStaleRoutes keeps a RIB valid, and its root array as long as it was.
pub delete_stale_routes-IsSized :
    (order : MapOrder) (fam : Family) (n : ℕ) (r : Rib)
    → IsSized n r
    → IsSized n (delete_stale_routes order fam r).0
unfolding delete_stale_routes
delete_stale_routes-IsSized order fam n r s = record {
  valid = delete_stale_routes-IsValid order fam r s.valid;
  entries = swept_roots-length fam 0 r.root ∙ s.entries;
}
