-- ===== src/Ipv4.antt =====
-- ipv4.go: the guards and the addresses of the IPv4 RIB. The root array has 256 entries, one for
-- each first octet; bits 9 to 24 are those of the octets 1 and 2.
pub mod Methods
pub mod Runs
pub mod Walking
pub mod Accounts
pub mod Places
pub mod Searching
pub mod Reading
use routing_table.Prelude.{
  ℕ, ◌+◌, Bool, true, false, not, ◌&&◌, ◌||◌, Option, none, some, List, [], ◌∷◌, ◌++◌, get_or, ltb,
  ◌==◌, if◌then◌else◌,
}
use routing_table.Attrs.{IpAddr, invalid, v4, v6, IpPrefix, Route, PrefixWithId}
use routing_table.Utils.{is_valid_v4, octet_bits}
use routing_table.AttrTable.{AttrTable}
use routing_table.Outcome.{Outcome, ok, panic}
use routing_table.Rib.{
  Rib, new_rib, entry, insert_entry, delete_entry, batch, search_entry, all_paths_search_entry,
  lookup_entry, all_paths_entry,
}

-- `As4()` of an address that the caller knows to be IPv4
abbrev pub as4 : IpAddr → List ℕ
as4 invalid = []
as4 (v4 octets) = octets
as4 (v6 octets) = []

abbrev pub is4 : IpAddr → Bool
is4 invalid = false
is4 (v4 octets) = true
is4 (v6 octets) = false

abbrev pub is6 : IpAddr → Bool
is6 invalid = false
is6 (v4 octets) = false
is6 (v6 octets) = true

-- The bits that the nested loops `for i := 1; i < 3; i++ { for _, bit := range bits` go through.
unfoldable pub walk_bits : List ℕ → List Bool
walk_bits octets = octet_bits (get_or octets 1 0) ++ octet_bits (get_or octets 2 0)

-- `mask < 8 || mask > 24`
abbrev pub outside : ℕ → Bool
outside mask = ltb mask 8 || ltb 24 mask

unfoldable pub new_ipv4_rib : AttrTable → Rib
new_ipv4_rib table = new_rib 256 table

unfoldable pub insert_unlocked : Rib → Route → Rib × Bool
unfolding walk_bits
insert_unlocked r route = elim route.prefix.bits [
  | none ↦ (r, false)
  | some mask ↦
      let addr = as4 route.prefix.addr in
      let i = get_or addr 0 0 in
      if outside mask
      then (r, false)
      else if not (is_valid_v4 i)
      then (r, false)
      else insert_entry r i (walk_bits addr) mask route.path_id route.attributes
]

unfoldable pub insert : Rib → Route → Rib
unfolding insert_unlocked
insert r route = if is6 route.prefix.addr then r else (insert_unlocked r route).0

unfoldable pub insert_batch : Rib → List Route → Rib × List IpPrefix
unfolding insert_unlocked batch
insert_batch =
    batch (λ r route. if is4 route.prefix.addr then insert_unlocked r route else (r, false))
      (λ route. route.prefix)

unfoldable pub delete_unlocked : Rib → IpPrefix → ℕ → Rib × Bool
unfolding walk_bits
delete_unlocked r prefix path_id = elim prefix.bits [
  | none ↦ (r, false)
  | some mask ↦
      let addr = as4 prefix.addr in
      if outside mask
      then (r, false)
      else delete_entry r (get_or addr 0 0) (walk_bits addr) mask path_id
]

unfoldable pub delete : Rib → IpPrefix → ℕ → Rib
unfolding delete_unlocked
delete r prefix path_id = if is6 prefix.addr then r else (delete_unlocked r prefix path_id).0

unfoldable pub delete_batch : Rib → List PrefixWithId → Rib × List IpPrefix
unfolding delete_unlocked batch
delete_batch =
    batch (λ r p. if is4 p.prefix.addr then delete_unlocked r p.prefix p.path_id else (r, false))
      (λ p. p.prefix)

-- `As4` panics on the zero address, which is not `Is6`.
unfoldable pub search : Rib → IpAddr → Outcome (Option Route)
unfolding walk_bits
search r invalid = panic
search r (v6 octets) = ok none
search r (v4 octets) =
    ok (search_entry r.table.store (walk_bits octets) (v4 octets) (entry r (get_or octets 0 0)))

unfoldable pub all_paths_search : Rib → IpAddr → Outcome (List Route)
unfolding walk_bits
all_paths_search r invalid = panic
all_paths_search r (v6 octets) = ok []
all_paths_search r (v4 octets) = ok (
    all_paths_search_entry r.table.store (walk_bits octets) (v4 octets)
      (entry r (get_or octets 0 0)))

unfoldable pub lookup : Rib → IpPrefix → Option Route
unfolding walk_bits
lookup r prefix = elim prefix.bits [
  | none ↦ none
  | some mask ↦
      let addr = as4 prefix.addr in
      if is6 prefix.addr
      then none
      else if outside mask
      then none
      else lookup_entry r.table.store (walk_bits addr) mask prefix (entry r (get_or addr 0 0))
]

unfoldable pub all_paths : Rib → IpPrefix → List Route
unfolding walk_bits
all_paths r prefix = elim prefix.bits [
  | none ↦ []
  | some mask ↦
      let addr = as4 prefix.addr in
      if is6 prefix.addr
      then []
      else if outside mask
      then []
      else all_paths_entry r.table.store (walk_bits addr) mask prefix (entry r (get_or addr 0 0))
]
