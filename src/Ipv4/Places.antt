-- ===== src/Ipv4/Places.antt =====
-- The prefixes that AllPrefixes lists, read again by AllPaths.
use routing_table.Prelude.{
  ℕ, ◌+◌, ◌-◌, ◌%◌, ◌≤◌, ◌<◌, ◌≡◌, refl, ap, ◌∙◌, Bool, List, [], ◌∷◌, Has, length, length-map,
  get_or, take, leb, true, arith,
}
use routing_table.Attrs.{IpPrefix}
use routing_table.Attrs.Prefix.{prefix_from}
use routing_table.Utils.{octet_bits}
use routing_table.Family.{ipv4_family}
use routing_table.Rib.{Rib}
use routing_table.Rib.Sized.{IsSized}
use routing_table.Rib.View.{view}
use routing_table.Walkers.Keys.{write_bits, prefix_at}
use routing_table.Walkers.Shallow.{IsShallow}
use routing_table.Walkers.Listing.{all_prefixes-Lists}
use routing_table.Walkers.Places.{
  bit_at, entry-AllBytes, entry-clear, tabulate, take-tabulate, write_bits-above, write_bits-key,
}
use routing_table.Ipv4.{walk_bits, all_paths}
use routing_table.Tally.{MapOrder}
use routing_table.Sweep.Whole.{delete_stale_routes-IsSized}
use routing_table.Sweep.Removed.{delete_stale_routes-removed}
use routing_table.Ipv4.Methods.{all_prefixes, delete_stale_routes}
use routing_table.Ipv4.Reading.{of_octets, all_paths-view}

walk_bits-tabulate : (octets : List ℕ) → walk_bits octets ≡ tabulate (λ i. bit_at (8 + i) octets) 16
unfolding walk_bits octet_bits
walk_bits-tabulate octets = refl

abbrev octets : ℕ → List Bool → List ℕ
octets j key = write_bits (ipv4_family.first j) 8 key

-- The first octet of the address of a place is its entry, and the bits of the walk start with its key.
address-place :
    (j : ℕ) (key : List Bool)
    → j < 256
    → 8 + length key ≤ 24
    → (get_or (octets j key) 0 0 ≡ j) × (take (length key) (walk_bits (octets j key)) ≡ key)
address-place j key small le =
    let bytes = entry-AllBytes (j % 256) 3 (omega arith) in
    (
      write_bits-above (ipv4_family.first j) 8 key 0 (omega arith) ∙ omega arith,
      rw (walk_bits-tabulate (octets j key)) (
          take-tabulate key (λ i. bit_at (8 + i) (octets j key)) 16 (omega arith)
            (λ i h.
              write_bits-key (ipv4_family.first j) 8 key i bytes (omega arith)
                (entry-clear (j % 256) 3) h)),
    )

prefix_at-of_octets :
    (j : ℕ) (key : List Bool)
    → 8 + length key ≤ 24
    → prefix_at ipv4_family (ipv4_family.first j) 8 key ≡ of_octets (octets j key) (8 + length key)
unfolding prefix_from
prefix_at-of_octets j key le = let small : leb (8 + length key) 32 ≡ true = ground arith in rw small

-- AllPaths of the prefix of a place returns its paths.
all_paths-place :
    (r : Rib) (j : ℕ) (key : List Bool)
    → IsSized 256 r
    → j < 256
    → 8 + length key ≤ 24
    → length (all_paths r (prefix_at ipv4_family (ipv4_family.first j) 8 key))
      ≡ length (view r j key)
all_paths-place r j key sized small le =
    let (first, bits) = address-place j key small le in
    let at = octets j key in
    let mask = 8 + length key in
    let cut : mask - 8 ≡ length key = omega arith in
    ap length (
      ap (all_paths r) (prefix_at-of_octets j key le)
      ∙ all_paths-view r at mask 0 sized (rw first small) (omega arith) le r)
    ∙ length-map _ (view r (get_or at 0 0) (take (mask - 8) (walk_bits at)))
    ∙ rw (first, cut, bits)

-- On a valid IPv4 RIB of 256 entries in which every prefix with a path is below one of the first
-- 224 and has a mask of at most 24, AllPaths of every prefix that AllPrefixes lists returns a
-- path.
pub all_prefixes-all_paths :
    (r : Rib) (p : IpPrefix)
    → IsShallow ipv4_family 224 256 r
    → Has p (all_prefixes r)
    → 1 ≤ length (all_paths r p)
all_prefixes-all_paths r p s m =
    let (j, key, some_path, e) = (all_prefixes-Lists ipv4_family 224 256 r s).sound p m in
    let (small, le) = s.shallow j key some_path in
    rw e (omega (arith, all_paths-place r j key s.sized (omega arith) le))

-- On a valid IPv4 RIB of 256 entries in which every prefix with a path is below one of the first
-- 224 and has a mask of at most 24, AllPaths of every prefix that DeleteStaleRoutes returns gave a
-- path before the call, and gives none after it.
pub delete_stale_routes-all_paths :
    (order : MapOrder) (r : Rib) (p : IpPrefix)
    → IsShallow ipv4_family 224 256 r
    → Has p (delete_stale_routes order r).1
    → (1 ≤ length (all_paths r p)) × (all_paths (delete_stale_routes order r).0 p ≡ [])
delete_stale_routes-all_paths order r p s m =
    let (j, key, some_path, none_left, e) =
      (delete_stale_routes-removed order ipv4_family r p s.sized.valid).0 m in
    let (small, le) = s.shallow j key some_path in
    let after = (delete_stale_routes order r).0 in
    let sized = delete_stale_routes-IsSized order ipv4_family 256 r s.sized in
    (
      rw e (omega (arith, all_paths-place r j key s.sized (omega arith) le)),
      empty (all_paths after p)
          (rw e (omega (arith, all_paths-place after j key sized (omega arith) le))),
    )
  where
    empty : {A : Type 0} (xs : List A) → length xs ≤ 0 → xs ≡ []
    empty [] h = refl
    empty (x ∷ xs) h = absurd (omega arith)
