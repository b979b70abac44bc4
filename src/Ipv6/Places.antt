-- ===== src/Ipv6/Places.antt =====
-- The prefixes that AllPrefixes lists, read again by AllPaths.
use routing_table.Prelude.{
  ℕ, ◌+◌, ◌-◌, ◌%◌, ◌≤◌, ◌<◌, ◌≡◌, refl, ap, ◌∙◌, Bool, false, List, [], ◌∷◌, Has, length, map,
  length-map, get_or, take, leb, true, some, ◌||◌, if_false, arith,
}
use routing_table.Attrs.{v6, IpPrefix}
use routing_table.Attrs.Prefix.{prefix_from}
use routing_table.Utils.{octet_bits}
use routing_table.Family.{ipv6_family}
use routing_table.Rib.{Rib}
use routing_table.Attrs.Prefix.{masked}
use routing_table.Select.{route_of}
use routing_table.Rib.Reading.{all_paths_entry-view}
use routing_table.Ipv6.Runs.{length-walk_bits}
use routing_table.Rib.Sized.{IsSized}
use routing_table.Rib.View.{view}
use routing_table.Walkers.Keys.{write_bits, prefix_at}
use routing_table.Walkers.Shallow.{IsShallow}
use routing_table.Walkers.Listing.{all_prefixes-Lists}
use routing_table.Walkers.Places.{
  bit_at, entry-AllBytes, entry-clear, tabulate, take-tabulate, write_bits-above, write_bits-key,
}
use routing_table.Ipv6.{walk_bits, outside, not_global, index, all_paths}
use routing_table.Tally.{MapOrder}
use routing_table.Sweep.Whole.{delete_stale_routes-IsSized}
use routing_table.Sweep.Removed.{delete_stale_routes-removed}
use routing_table.Ipv6.Methods.{all_prefixes, delete_stale_routes}

walk_bits-tabulate : (octets : List ℕ) → walk_bits octets ≡ tabulate (λ i. bit_at (8 + i) octets) 40
unfolding walk_bits octet_bits
walk_bits-tabulate octets = refl

abbrev octets : ℕ → List Bool → List ℕ
octets j key = write_bits (ipv6_family.first j) 8 key

abbrev of_octets : List ℕ → ℕ → IpPrefix
of_octets octets mask = record { addr = v6 octets; bits = some mask }

all_paths-view :
    (r : Rib) (octets : List ℕ) (mask : ℕ)
    → 8 ≤ mask
    → mask ≤ 48
    → not_global octets ≡ false
    → all_paths r (of_octets octets mask)
      ≡ map
          (route_of r.table.store (masked (of_octets octets mask)))
          (view r (index octets) (take (mask - 8) (walk_bits octets)))
unfolding all_paths
all_paths-view r octets mask low high global =
    let inside : (outside mask || not_global octets) ≡ false = ground arith in
    if_false _ _ inside
    ∙ all_paths_entry-view r.table.store (walk_bits octets) mask (of_octets octets mask) r
        (index octets) low (omega (arith, length-walk_bits octets))

-- The first octet of the address of a place gives its entry, and the bits of the walk start with its key.
address-place :
    (j : ℕ) (key : List Bool)
    → j < 32
    → 8 + length key ≤ 48
    → (index (octets j key) ≡ j)
      × (not_global (octets j key) ≡ false)
      × (take (length key) (walk_bits (octets j key)) ≡ key)
address-place j key small le =
    let bytes = entry-AllBytes ((j + 0x20) % 256) 15 (omega arith) in
    let first : get_or (octets j key) 0 0 ≡ j + 0x20 =
      write_bits-above (ipv6_family.first j) 8 key 0 (omega arith) ∙ omega arith in
    (
      rw first (omega arith),
      rw first (ground arith),
      rw (walk_bits-tabulate (octets j key)) (
          take-tabulate key (λ i. bit_at (8 + i) (octets j key)) 40 (omega arith)
            (λ i h.
              write_bits-key (ipv6_family.first j) 8 key i bytes (omega arith)
                (entry-clear ((j + 0x20) % 256) 15) h)),
    )

prefix_at-of_octets :
    (j : ℕ) (key : List Bool)
    → 8 + length key ≤ 48
    → prefix_at ipv6_family (ipv6_family.first j) 8 key ≡ of_octets (octets j key) (8 + length key)
unfolding prefix_from
prefix_at-of_octets j key le =
    let small : leb (8 + length key) 128 ≡ true = ground arith in rw small

-- AllPaths of the prefix of a place returns its paths.
all_paths-place :
    (r : Rib) (j : ℕ) (key : List Bool)
    → IsSized 32 r
    → j < 32
    → 8 + length key ≤ 48
    → length (all_paths r (prefix_at ipv6_family (ipv6_family.first j) 8 key))
      ≡ length (view r j key)
all_paths-place r j key sized small le =
    let (first, global, bits) = address-place j key small le in
    let at = octets j key in
    let mask = 8 + length key in
    let cut : mask - 8 ≡ length key = omega arith in
    ap length (
      ap (all_paths r) (prefix_at-of_octets j key le)
      ∙ all_paths-view r at mask (omega arith) le global)
    ∙ length-map _ (view r (index at) (take (mask - 8) (walk_bits at)))
    ∙ rw (first, cut, bits)

-- On a valid IPv6 RIB of 32 entries in which every prefix with a path is below one of the first 32
-- and has a mask of at most 48, AllPaths of every prefix that AllPrefixes lists returns a path.
pub all_prefixes_v6-all_paths :
    (r : Rib) (p : IpPrefix)
    → IsShallow ipv6_family 32 32 r
    → Has p (all_prefixes r)
    → 1 ≤ length (all_paths r p)
all_prefixes_v6-all_paths r p s m =
    let (j, key, some_path, e) = (all_prefixes-Lists ipv6_family 32 32 r s).sound p m in
    let (small, le) = s.shallow j key some_path in
    rw e (omega (arith, all_paths-place r j key s.sized (omega arith) le))

-- On a valid IPv6 RIB of 32 entries in which every prefix with a path is below one of the first 32
-- and has a mask of at most 48, AllPaths of every prefix that DeleteStaleRoutes returns gave a
-- path before the call, and gives none after it.
pub delete_stale_routes_v6-all_paths :
    (order : MapOrder) (r : Rib) (p : IpPrefix)
    → IsShallow ipv6_family 32 32 r
    → Has p (delete_stale_routes order r).1
    → (1 ≤ length (all_paths r p)) × (all_paths (delete_stale_routes order r).0 p ≡ [])
delete_stale_routes_v6-all_paths order r p s m =
    let (j, key, some_path, none_left, e) =
      (delete_stale_routes-removed order ipv6_family r p s.sized.valid).0 m in
    let (small, le) = s.shallow j key some_path in
    let after = (delete_stale_routes order r).0 in
    let sized = delete_stale_routes-IsSized order ipv6_family 32 r s.sized in
    (
      rw e (omega (arith, all_paths-place r j key s.sized (omega arith) le)),
      empty (all_paths after p)
          (rw e (omega (arith, all_paths-place after j key sized (omega arith) le))),
    )
  where
    empty : {A : Type 0} (xs : List A) → length xs ≤ 0 → xs ≡ []
    empty [] h = refl
    empty (x ∷ xs) h = absurd (omega arith)
