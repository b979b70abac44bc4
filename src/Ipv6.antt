-- ===== src/Ipv6.antt =====
-- ipv6.go: the guards and the addresses of the IPv6 RIB. The root array has 32 entries, for the first
-- bytes 0x20 to 0x3F of 2000::/3; bits 9 to 48 are those of the octets 1 to 5.
pub mod Methods
pub mod Runs
pub mod Walking
pub mod Accounts
pub mod Places
pub mod Searching
pub mod Panics
use routing_table.Prelude.{
  ℕ, ◌+◌, ◌-◌, ◌%◌, Bool, true, false, not, ◌&&◌, ◌||◌, Option, none, some, List, [], ◌∷◌, ◌++◌,
  get_or, replicate, ltb, ◌==◌, if◌then◌else◌,
}
use routing_table.Attrs.{IpAddr, invalid, v4, v6, IpPrefix, Route, PrefixWithId}
use routing_table.Utils.{octet_bits}
use routing_table.AttrTable.{AttrTable}
use routing_table.Outcome.{Outcome, ok, panic}
use routing_table.Ipv4.{is4, is6}
use routing_table.Rib.{
  Rib, new_rib, entry, insert_entry, delete_entry, batch, search_entry, all_paths_search_entry,
  lookup_entry, all_paths_entry,
}

-- `As16()` of an address that is not IPv4; all zeros for the zero address
abbrev pub as16 : IpAddr → List ℕ
as16 invalid = replicate 16 0
as16 (v4 octets) = []
as16 (v6 octets) = octets

-- The bits that the nested loops `for i := 1; i < 6; i++ { for _, bit := range bits` go through.
unfoldable pub walk_bits : List ℕ → List Bool
walk_bits octets =
    octet_bits (get_or octets 1 0)
    ++ (octet_bits (get_or octets 2 0)
        ++ (octet_bits (get_or octets 3 0)
            ++ (octet_bits (get_or octets 4 0) ++ octet_bits (get_or octets 5 0))))

-- `mask < 8 || mask > 48`
abbrev pub outside : ℕ → Bool
outside mask = ltb mask 8 || ltb 48 mask

-- `addr[0] < 0x20 || addr[0] > 0x3F`
abbrev pub not_global : List ℕ → Bool
not_global octets = ltb (get_or octets 0 0) 0x20 || ltb 0x3F (get_or octets 0 0)

-- `idx := addr[0] - 0x20`, on a byte
abbrev pub index : List ℕ → ℕ
index octets = (get_or octets 0 0 + 256 - 0x20) % 256

unfoldable pub new_ipv6_rib : AttrTable → Rib
new_ipv6_rib table = new_rib 32 table

unfoldable pub insert_unlocked : Rib → Route → Rib × Bool
unfolding walk_bits
insert_unlocked r route =
    let addr = as16 route.prefix.addr in
    if not_global addr then (r, false) else elim route.prefix.bits [
      | none ↦ (r, false)
      | some mask ↦
          if outside mask
          then (r, false)
          else insert_entry r (index addr) (walk_bits addr) mask route.path_id route.attributes
    ]

unfoldable pub insert : Rib → Route → Rib
unfolding insert_unlocked
insert r route = if is4 route.prefix.addr then r else (insert_unlocked r route).0

unfoldable pub insert_batch : Rib → List Route → Rib × List IpPrefix
unfolding insert_unlocked batch
insert_batch =
    batch (λ r route. if is6 route.prefix.addr then insert_unlocked r route else (r, false))
      (λ route. route.prefix)

unfoldable pub delete_unlocked : Rib → IpPrefix → ℕ → Rib × Bool
unfolding walk_bits
delete_unlocked r prefix path_id = elim prefix.bits [
  | none ↦ (r, false)
  | some mask ↦
      let addr = as16 prefix.addr in
      if outside mask || not_global addr
      then (r, false)
      else delete_entry r (index addr) (walk_bits addr) mask path_id
]

unfoldable pub delete : Rib → IpPrefix → ℕ → Rib
unfolding delete_unlocked
delete r prefix path_id = if is4 prefix.addr then r else (delete_unlocked r prefix path_id).0

unfoldable pub delete_batch : Rib → List PrefixWithId → Rib × List IpPrefix
unfolding delete_unlocked batch
delete_batch =
    batch (λ r p. if is6 p.prefix.addr then delete_unlocked r p.prefix p.path_id else (r, false))
      (λ p. p.prefix)

search_octets : Rib → IpAddr → List ℕ → Option Route
search_octets r ip octets =
    if not_global octets
    then none
    else search_entry r.table.store (walk_bits octets) ip (entry r (index octets))

unfoldable pub search : Rib → IpAddr → Option Route
unfolding walk_bits search_octets
search r ip = if is4 ip then none else search_octets r ip (as16 ip)

-- There is no guard on the first byte here: an index beyond the 32 entries panics.
pub all_paths_octets : Rib → IpAddr → List ℕ → Outcome (List Route)
all_paths_octets r ip octets =
    if ltb (index octets) 32
    then ok (all_paths_search_entry r.table.store (walk_bits octets) ip (entry r (index octets)))
    else panic

unfoldable pub all_paths_search : Rib → IpAddr → Outcome (List Route)
unfolding walk_bits all_paths_octets
all_paths_search r ip = if is4 ip then ok [] else all_paths_octets r ip (as16 ip)

unfoldable pub lookup : Rib → IpPrefix → Option Route
unfolding walk_bits
lookup r prefix = elim prefix.bits [
  | none ↦ none
  | some mask ↦
      let addr = as16 prefix.addr in
      if is4 prefix.addr
      then none
      else if outside mask || not_global addr
      then none
      else lookup_entry r.table.store (walk_bits addr) mask prefix (entry r (index addr))
]

unfoldable pub all_paths : Rib → IpPrefix → List Route
unfolding walk_bits
all_paths r prefix = elim prefix.bits [
  | none ↦ []
  | some mask ↦
      let addr = as16 prefix.addr in
      if is4 prefix.addr
      then []
      else if outside mask || not_global addr
      then []
      else all_paths_entry r.table.store (walk_bits addr) mask prefix (entry r (index addr))
]
