-- ===== src/Utils/Laws.antt =====
-- The filter and the bits of an octet, over all octets.
use routing_table.Prelude.{
  ℕ, ◌+◌, ◌*◌, ◌<◌, ◌≡◌, Bool, true, ◌&&◌, ◌||◌, List, [], ◌∷◌, refl, arith, leb, length, ◌==◌,
  same_bit, ==_iff,
}
use routing_table.Prelude.Table.{holds_to, holds_to-at}
use routing_table.Utils.{is_valid_v4, int_to_bin_bitwise, octet_bits}

-- Horner's rule, from the most significant bit.
abbrev pub bin_value : ℕ → List ℕ → ℕ
bin_value acc [] = acc
bin_value acc (b ∷ bs) = bin_value (acc * 2 + b) bs

abbrev pub in_ranges : ℕ → Bool
in_ranges x = leb 1 x && leb x 9 || (leb 11 x && leb x 126 || leb 128 x && leb x 223)

same_bit-eq : (a b : Bool) → same_bit a b ≡ true → a ≡ b
same_bit-eq a b h = ground arith

valid_table : holds_to (λ x. same_bit (is_valid_v4 x) (in_ranges x)) 256 ≡ true
unfolding holds_to is_valid_v4
valid_table = refl

-- The filter passes exactly the first octets 1-9, 11-126 and 128-223 among all byte values.
pub is_valid_v4-in_ranges : (x : ℕ) → x < 256 → is_valid_v4 x ≡ in_ranges x
is_valid_v4-in_ranges x h = same_bit-eq _ _ (holds_to-at _ 256 x h valid_table)

value_table : holds_to (λ x. bin_value 0 (int_to_bin_bitwise x) == x) 256 ≡ true
unfolding holds_to int_to_bin_bitwise
value_table = refl

-- The bits of a byte, read from the most significant one, give the byte back.
pub bin_value-int_to_bin_bitwise : (x : ℕ) → x < 256 → bin_value 0 (int_to_bin_bitwise x) ≡ x
bin_value-int_to_bin_bitwise x h = (==_iff _ x).0 (holds_to-at _ 256 x h value_table)

pub length-octet_bits : (x : ℕ) → length (octet_bits x) ≡ 8
unfolding octet_bits
length-octet_bits x = refl
