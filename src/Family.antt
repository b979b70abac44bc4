-- ===== src/Family.antt =====
-- What the walks over whole RIBs in ipv4.go and ipv6.go differ in, and the address of a node.
use Prim.Native.Nat.{bit_or}
use routing_table.Prelude.{
  ℕ, ◌+◌, ◌-◌, ◌/◌, ◌%◌, ◌^◌, Bool, List, [], ◌∷◌, get_or, set, replicate, if◌then◌else◌,
}
use routing_table.Attrs.{IpAddr, v4, v6}

-- The address type, the depth below which a walker does not go, and the address of an entry.
pub record Family : Type 0 where
  pub address : List ℕ → IpAddr
  pub limit : ℕ
  pub first : ℕ → List ℕ

-- `var addr [4]byte; addr[0] = byte(i)` and `netip.AddrFrom4`
abbrev pub ipv4_family : Family
ipv4_family = record { address = v4; limit = 24; first = λ i. (i % 256) ∷ 0 ∷ 0 ∷ 0 ∷ [] }

-- `var addr [16]byte; addr[0] = byte(i + 0x20)` and `netip.AddrFrom16`
abbrev pub ipv6_family : Family
ipv6_family = record { address = v6; limit = 48; first = λ i. ((i + 0x20) % 256) ∷ replicate 15 0 }

-- `nextAddr := addr; if bit == 1 { nextAddr[depth/8] |= 1 << (7 - depth%8) }`
unfoldable pub next_addr : List ℕ → ℕ → Bool → List ℕ
next_addr addr depth bit =
    if bit
    then set addr (depth / 8) (bit_or (get_or addr (depth / 8) 0) (2 ^ (7 - depth % 8)))
    else addr
