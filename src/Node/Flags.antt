-- ===== src/Node/Flags.antt =====
-- The `flags` byte of a node: bit 0 is hasPath, bit 1 is stale.
use Prim.Native.Nat.{bit_and, bit_or, bit_xor}
use routing_table.Prelude.{
  ℕ, ◌<◌, ◌≡◌, refl, Bool, true, false, not, ◌&&◌, ltb, ◌==◌, same_bit, if◌then◌else◌, arith,
}
use routing_table.Prelude.Table.{holds_to, holds_to-at}

abbrev flag_has_path : ℕ
flag_has_path = 1

abbrev flag_stale : ℕ
flag_stale = 2

-- `^x` on a byte
abbrev complement : ℕ → ℕ
complement x = bit_xor x 255

unfoldable pub has_path : ℕ → Bool
has_path flags = not (bit_and flags flag_has_path == 0)

unfoldable pub is_stale : ℕ → Bool
is_stale flags = not (bit_and flags flag_stale == 0)

unfoldable pub set_stale : ℕ → Bool → ℕ
set_stale flags stale =
    if stale then bit_or flags flag_stale else bit_and flags (complement flag_stale)

-- `n.flags |= flagHasPath` and `n.flags &= ^flagHasPath`
unfoldable pub set_has_path : ℕ → Bool → ℕ
set_has_path flags has =
    if has then bit_or flags flag_has_path else bit_and flags (complement flag_has_path)

-- The byte stands for two Booleans.
abbrev pub Stands : ℕ → Bool → Bool → Type 0
Stands flags has stale = (flags < 256) × (has_path flags ≡ has) × (is_stale flags ≡ stale)

abbrev agrees : ℕ → Bool → Bool → Bool
agrees flags has stale =
    ltb flags 256 && (same_bit (has_path flags) has && same_bit (is_stale flags) stale)

agrees-Stands :
    (flags : ℕ) (has stale : Bool) → agrees flags has stale ≡ true → Stands flags has stale
agrees-Stands flags has stale h = ground arith

abbrev keeps : ℕ → Bool
keeps f =
    agrees (set_stale f true) (has_path f) true
    && (agrees (set_stale f false) (has_path f) false
        && (agrees (set_has_path f true) true (is_stale f)
            && agrees (set_has_path f false) false (is_stale f)))

keeps_table : holds_to keeps 256 ≡ true
unfolding holds_to has_path is_stale set_stale set_has_path
keeps_table = refl

both : (a b : Bool) → (a && b) ≡ true → (a ≡ true) × (b ≡ true)
both a b h = ground arith

flags-parts :
    (f : ℕ)
    → f < 256
    → (b : Bool) → Stands (set_stale f b) (has_path f) b × Stands (set_has_path f b) b (is_stale f)
flags-parts f h b =
    let (s1, rest) = both _ _ (holds_to-at keeps 256 f h keeps_table) in
    let (s0, more) = both _ _ rest in
    let (p1, p0) = both _ _ more in
    elim b
      as (λ b. Stands (set_stale f b) (has_path f) b × Stands (set_has_path f b) b (is_stale f)) [
        | true ↦ (agrees-Stands _ _ _ s1, agrees-Stands _ _ _ p1)
        | false ↦ (agrees-Stands _ _ _ s0, agrees-Stands _ _ _ p0)
      ]

-- On a byte that stands for two Booleans, each write to one flag sets that Boolean and keeps the
-- other, and the result is a byte again.
pub flags-Stands :
    (f : ℕ) (has stale b : Bool)
    → Stands f has stale
    → Stands (set_stale f b) has b × Stands (set_has_path f b) b stale
flags-Stands f has stale b (small, p, q) = rw (← p, ← q) (flags-parts f small b)
