-- ===== src/Utils.antt =====
-- utils.go: the filter on the first octet of an IPv4 address, and the bits of an octet.
pub mod Laws
use Prim.Native.Nat.{bit_and}
use routing_table.Prelude.{
  ℕ, zero, suc, ◌/◌, ◌*◌, ◌+◌, ◌^◌, Bool, not, List, [], ◌∷◌, map, get_or, ltb, ◌==◌, if◌then◌else◌,
}

-- `v4Filter`
abbrev pub v4_filter : List ℕ
v4_filter = 0xfffffffffffffbfe ∷ 0x7fffffffffffffff ∷ 0xffffffffffffffff ∷ 0x00000000ffffffff ∷ []

-- `v4Filter[octet>>6]&(uint64(1)<<(octet&63)) != 0`
unfoldable pub is_valid_v4 : ℕ → Bool
is_valid_v4 octet = not (bit_and (get_or v4_filter (octet / 2 ^ 6) 0) (2 ^ bit_and octet 63) == 0)

-- The loop over i = n - 1, …, 0, which appends the bit at i.
bits_down : ℕ → ℕ → List ℕ
bits_down zero num = []
bits_down (suc i) num =
    (let k = num / 2 ^ i in if ltb 0 (bit_and k 1) then 1 else 0) ∷ bits_down i num

unfoldable pub int_to_bin_bitwise : ℕ → List ℕ
unfolding bits_down
int_to_bin_bitwise num = bits_down 8 num

-- `children[bit]`: which of the two children a bit of the slice selects.
abbrev pub to_bit : ℕ → Bool
to_bit b = not (b == 0)

unfoldable pub octet_bits : ℕ → List Bool
unfolding int_to_bin_bitwise
octet_bits num = map to_bit (int_to_bin_bitwise num)
