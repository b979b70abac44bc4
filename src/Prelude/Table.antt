-- ===== src/Prelude/Table.antt =====
-- Facts about the values of a byte, checked by evaluation.
use routing_table.Prelude.{ℕ, zero, suc, ◌<◌, ◌≡◌, Bool, true, false, arith, if◌then◌else◌}

-- Whether a test holds of each number smaller than a bound.
unfoldable pub holds_to : (ℕ → Bool) → ℕ → Bool
holds_to test zero = true
holds_to test (suc bound) = if test bound then holds_to test bound else false

pub holds_to-at :
    (test : ℕ → Bool) (bound k : ℕ) → k < bound → holds_to test bound ≡ true → test k ≡ true
unfolding holds_to
holds_to-at test (suc bound) k small all = ground (arith, holds_to-at test bound k)
holds_to-at test zero k small all = elim small [ ]
