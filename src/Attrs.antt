-- ===== src/Attrs.antt =====
-- types.go: path attributes, large communities, routes and path entries, and the tests on them.
-- A `*RouteAttributes` is a number, with 0 for nil; the object that it points to stands in a store.
-- netip's addresses and prefixes are modelled by what the code uses of them.
pub mod Text
pub mod Prefix
use routing_table.Prelude.{
  ℕ, zero, suc, Bool, true, false, ◌&&◌, ◌||◌, Option, none, some, List, [], ◌∷◌, ltb, ◌==◌,
  if◌then◌else◌,
}

-- `LargeCommunity`
pub record LargeCommunity : Type 0 where
  pub global_admin : ℕ
  pub local_data1 : ℕ
  pub local_data2 : ℕ

-- `RouteAttributes`; a nil slice and an empty one are one list, a string is its character codes.
pub record RouteAttributes : Type 0 where
  pub as_path : List ℕ
  pub communities : List ℕ
  pub large_communities : List LargeCommunity
  pub hash : ℕ
  pub local_pref : ℕ
  pub ref_count : ℕ
  pub as_path_str : List ℕ

-- `&RouteAttributes{}`
abbrev pub no_attributes : RouteAttributes
no_attributes = record {
  as_path = [];
  communities = [];
  large_communities = [];
  hash = 0;
  local_pref = 0;
  ref_count = 0;
  as_path_str = [];
}

-- `*RouteAttributes`
abbrev pub Pointer : Type 0
Pointer = ℕ

abbrev pub nil_pointer : Pointer
nil_pointer = 0

-- The objects. The code follows a pointer only where it is not nil.
abbrev pub Store : Type 0
Store = Pointer → RouteAttributes

abbrev pub deref : Store → Pointer → Option RouteAttributes
deref store p = if p == 0 then none else some (store p)

-- `netip.Addr`: the zero value, the four bytes of an IPv4 address or the sixteen of an IPv6 one.
pub data IpAddr : Type 0 where
  invalid : IpAddr
  v4 : List ℕ → IpAddr
  v6 : List ℕ → IpAddr

-- `netip.Prefix`; `Bits()` is `none` where netip's is -1.
pub record IpPrefix : Type 0 where
  pub addr : IpAddr
  pub bits : Option ℕ

-- `Route`; the attributes are the object that the pointer gives, or none for nil.
pub record Route : Type 0 where
  pub prefix : IpPrefix
  pub attributes : Option RouteAttributes
  pub path_id : ℕ
  pub stale : Bool

-- `pathEntry`
pub record PathEntry : Type 0 where
  pub attrs : Pointer
  pub path_id : ℕ
  pub stale : Bool

-- `PrefixWithID`
pub record PrefixWithId : Type 0 where
  pub prefix : IpPrefix
  pub path_id : ℕ

-- `a.AsPath[len(a.AsPath)-1] == asn` on a slice that is not empty
last_is : List ℕ → ℕ → Bool
last_is [] asn = false
last_is (x ∷ []) asn = x == asn
last_is (x ∷ y ∷ xs) asn = last_is (y ∷ xs) asn

unfoldable pub origin_is : Option RouteAttributes → ℕ → Bool
unfolding last_is
origin_is none asn = false
origin_is (some a) asn = last_is a.as_path asn

-- The loop with an early return.
has_number : List ℕ → ℕ → Bool
has_number [] comm = false
has_number (c ∷ cs) comm = if c == comm then true else has_number cs comm

unfoldable pub has_community : Option RouteAttributes → ℕ → Bool
unfolding has_number
has_community none comm = false
has_community (some a) comm = has_number a.communities comm

abbrev pub large_eq : LargeCommunity → LargeCommunity → Bool
large_eq a b =
    (a.global_admin == b.global_admin)
    && ((a.local_data1 == b.local_data1) && (a.local_data2 == b.local_data2))

has_large : List LargeCommunity → LargeCommunity → Bool
has_large [] lc = false
has_large (c ∷ cs) lc = if large_eq c lc then true else has_large cs lc

unfoldable pub has_large_community : Option RouteAttributes → LargeCommunity → Bool
unfolding has_large
has_large_community none lc = false
has_large_community (some a) lc = has_large a.large_communities lc
