-- ===== src/Attrs/Prefix.antt =====
-- netip.Prefix as the code uses it: PrefixFrom, AddrFrom4 and AddrFrom16, Masked. These follow the
-- documented behaviour of the standard library.

use routing_table.Prelude.{ℕ, ◌-◌, ◌*◌, ◌/◌, ◌^◌, none, some, List, [], ◌∷◌, leb, if◌then◌else◌}
use routing_table.Attrs.{IpAddr, invalid, v4, v6, IpPrefix}

-- The octets with all but the first bits cleared.
unfoldable pub mask_octets : ℕ → List ℕ → List ℕ
mask_octets bits [] = []
mask_octets bits (b ∷ bs) = (b / 2 ^ (8 - bits) * 2 ^ (8 - bits)) ∷ mask_octets (bits - 8) bs

-- The zero prefix.
abbrev pub no_prefix : IpPrefix
no_prefix = record { addr = invalid; bits = none }

masked_addr : IpAddr → ℕ → IpPrefix
masked_addr invalid bits = no_prefix
masked_addr (v4 octets) bits = record { addr = v4 (mask_octets bits octets); bits = some bits }
masked_addr (v6 octets) bits = record { addr = v6 (mask_octets bits octets); bits = some bits }

-- `p.Masked()`
unfoldable pub masked : IpPrefix → IpPrefix
unfolding masked_addr
masked p = elim p.bits [ none ↦ no_prefix | some bits ↦ masked_addr p.addr bits ]

-- `netip.PrefixFrom(ip, bits)`: out of range there are no bits.
unfoldable pub prefix_from : IpAddr → ℕ → IpPrefix
prefix_from invalid bits = no_prefix
prefix_from (v4 octets) bits = record {
  addr = v4 octets;
  bits = if leb bits 32 then some bits else none;
}
prefix_from (v6 octets) bits = record {
  addr = v6 octets;
  bits = if leb bits 128 then some bits else none;
}
