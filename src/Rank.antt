-- ===== src/Rank.antt =====
-- The order in which a BGP speaker prefers paths, as an order on three numbers: the higher local
-- preference, then the shorter AS path, then the lower path id.
use routing_table.Prelude.{ℕ, ◌≤◌, ◌<◌, ◌≡◌, ◌⊎◌, arith}

pub record Rank : Type 0 where
  pub pref : ℕ
  pub len : ℕ
  pub id : ℕ

-- The first is at least as good as the second.
abbrev pub AtLeast : Rank → Rank → Type 0
AtLeast a b =
    (b.pref < a.pref) ⊎ ((a.pref ≡ b.pref) × ((a.len < b.len) ⊎ ((a.len ≡ b.len) × (a.id ≤ b.id))))

pub AtLeast-refl : (a : Rank) → AtLeast a a
AtLeast-refl a = ground arith

pub AtLeast-trans : (a b c : Rank) → AtLeast a b → AtLeast b c → AtLeast a c
AtLeast-trans a b c h k = ground arith

-- Paths with different ids are never tied.
pub AtLeast-antisymm : (a b : Rank) → AtLeast a b → AtLeast b a → a.id ≡ b.id
AtLeast-antisymm a b h k = ground arith
