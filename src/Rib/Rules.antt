-- ===== src/Rib/Rules.antt =====
-- Rules for what all operations of a RIB keep. A property may grow with the number of paths that have
-- been inserted, its budget.
use routing_table.Prelude.{
  ℕ, suc, ◌+◌, ◌≤◌, ◌≡◌, ◌<◌, Bool, Option, List, [], ◌∷◌, All, length, arith,
}
use routing_table.Attrs.{RouteAttributes, IpPrefix}
use routing_table.Rib.{Rib, insert_entry, delete_entry, batch, mark_all_stale}
use routing_table.Family.{Family}
use routing_table.Tally.{MapOrder}
use routing_table.Stats.{reset}
use routing_table.Sweep.{delete_stale_routes}

-- What has to be shown of a property: of insertions at the entries below `visited`, of deletions at
-- all entries, and of the operations on the whole RIB.
pub record Rule (fam : Family) (visited entries : ℕ) (order : MapOrder) (P : ℕ → Rib → Type 0)
    : Type 0 where
  pub weaker : (k : ℕ) (r : Rib) → P k r → P (suc k) r
  pub inserted :
      (k : ℕ) (r : Rib) (i : ℕ) (bits : List Bool) (mask path_id : ℕ)
      (given : Option RouteAttributes)
      → i < visited
      → 8 ≤ mask
      → mask ≤ fam.limit
      → mask < 9 + length bits
      → P k r
      → P (suc k) (insert_entry r i bits mask path_id given).0
  pub deleted :
      (k : ℕ) (r : Rib) (i : ℕ) (bits : List Bool) (mask path_id : ℕ)
      → i < entries
      → 8 ≤ mask
      → mask ≤ fam.limit
      → mask < 9 + length bits
      → P k r
      → P k (delete_entry r i bits mask path_id).0
  pub marked : (k : ℕ) (r : Rib) → P k r → P k (mark_all_stale r)
  pub swept : (k : ℕ) (r : Rib) → P k r → P k (delete_stale_routes order fam r).0
  pub flushed : (k : ℕ) (r : Rib) → P k r → P k (reset order entries r)

-- The loop over a batch, where a step adds to the budget and where it does not.
module _ {ℓ ℓ'} {A : Type ℓ} (P : ℕ → Rib → Type 0) (Q : A → Type ℓ') (step : Rib → A → Rib × Bool)
    (prefix : A → IpPrefix) where
  pub batch-adds :
      ((k : ℕ) (r : Rib) (x : A) → Q x → P k r → P (suc k) (step r x).0)
      → (k : ℕ) (r : Rib) (xs : List A) → All Q xs
      → P k r
      → P (length xs + k) (batch step prefix r xs).0
  unfolding batch
  batch-adds each k r [] q p = let e : 0 + k ≡ k = omega arith in rw e p
  batch-adds each k r (x ∷ xs) q p =
      let e : suc (length xs) + k ≡ length xs + suc k = omega arith in
      rw e (batch-adds each (suc k) (step r x).0 xs q.1 (each k r x q.0 p))

  pub batch-keeps :
      ((k : ℕ) (r : Rib) (x : A) → Q x → P k r → P k (step r x).0)
      → (k : ℕ) (r : Rib) (xs : List A) → All Q xs
      → P k r
      → P k (batch step prefix r xs).0
  unfolding batch
  batch-keeps each k r [] q p = p
  batch-keeps each k r (x ∷ xs) q p = batch-keeps each k (step r x).0 xs q.1 (each k r x q.0 p)
