-- ===== src/Stats/Resetting.antt =====
-- Reset: the state that is left, and the reference counts.
use routing_table.Prelude.{ℕ, ◌≡◌, refl, Has, arith}
use native.Mathlib.Nat.{zero-add}
use routing_table.Attrs.{Pointer}
use routing_table.AttrTable.{bucket}
use routing_table.AttrTable.Counted.{amount, release_n-IsCounted}
use routing_table.AttrTable.Release.{release_n-Keeps}
use routing_table.Tally.{MapOrder, new_tally, settle_last, collect_roots, release_tree}
use routing_table.Tally.Amounts.{refs_here, tallied-collect_roots, IsLoop, perm-amount}
use routing_table.Rib.{Rib, new_rib}
use routing_table.Rib.State.{paths_here, root_total}
use routing_table.Rib.Valid.{IsValid, root_total-replicate}
use routing_table.Rib.Sized.{IsSized, new_rib-IsSized}
use routing_table.Rib.Holding.{IsHeld, held_by}
use routing_table.Stats.{reset}

module _ (order : MapOrder) (entries : ℕ) (r : Rib) (valid : IsValid r) where
  -- Reset leaves the RIB that a constructor makes, over the table that is left.
  pub reset-new_rib : reset order entries r ≡ new_rib entries (release_tree order r.table r.root)
  unfolding reset new_rib
  reset-new_rib = refl

  pub reset-IsSized : IsSized entries (reset order entries r)
  unfolding release_tree
  reset-IsSized =
      rw reset-new_rib (new_rib-IsSized entries _ (release_n-Keeps r.table _ valid.table).valid)

  pub reset-paths : root_total paths_here (reset order entries r).root ≡ 0
  unfolding reset
  reset-paths = root_total-replicate paths_here entries

  released :
      IsLoop order
      → (q : Pointer)
      → amount q (order (settle_last (collect_roots r.root new_tally)))
        ≡ root_total (refs_here q) r.root
  unfolding amount settle_last
  released loop q =
      rw
        (perm-amount q (order (settle_last (collect_roots r.root new_tally))) _
          (loop (settle_last (collect_roots r.root new_tally))))
        (rw (tallied-collect_roots q r.root new_tally valid.nodes) (zero-add _))

  -- Reset drops the references of its RIB, and those of others stay.
  pub reset-IsHeld :
      (others : Pointer → ℕ)
      → IsLoop order
      → IsHeld others r
      → IsHeld others (reset order entries r)
  unfolding reset release_tree
  reset-IsHeld others loop held =
      release_n-IsCounted (order (settle_last (collect_roots r.root new_tally))) r.table
        (held_by r others) _ valid.table held
        (λ q. omega (arith, released loop q, root_total-replicate (refs_here q) entries))

  -- Reset of a valid RIB leaves no object in the attribute table, if the table counts the
  -- references of the RIB and no others, and a loop over a map goes through each entry once.
  pub reset-no_object :
      IsLoop order
      → IsHeld (λ q. 0) r
      → (h : ℕ) (p : Pointer) → ¬ Has p (bucket h (reset order entries r).table.entries)
  unfolding reset
  reset-no_object loop held h p there = absurd (
      omega (
        arith,
        ((reset-IsHeld (λ q. 0) loop held).exact h p there).1,
        root_total-replicate (refs_here p) entries,
      ))
