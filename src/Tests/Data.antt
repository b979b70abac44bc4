-- ===== src/Tests/Data.antt =====
-- The attributes, routes and nodes that the tests use.
use routing_table.Prelude.{
  ℕ, ◌≡◌, ◌≢◌, refl, true, false, some, [], ◌∷◌, arith, ◌==◌, if◌then◌else◌,
}
use routing_table.Attrs.{RouteAttributes, Store, nil_pointer, v4, v6, IpPrefix, Route}
use routing_table.Node.{Node, empty_node, set_path}
use routing_table.Node.Paths as Paths
use routing_table.Node.Laws.{empty_node-IsValid, set_path-Sets}

abbrev pub short_path : RouteAttributes
short_path = record {
  as_path = 64512 ∷ [];
  communities = [];
  large_communities = [];
  hash = 0;
  local_pref = 100;
  ref_count = 1;
  as_path_str = [];
}

abbrev pub long_path : RouteAttributes
long_path = record short_path { as_path = 64512 ∷ 64513 ∷ [] }

abbrev pub preferred : RouteAttributes
preferred = record long_path { local_pref = 200 }

-- The pointers 1, 2 and 3.
abbrev pub store : Store
store p = if p == 1 then short_path else if p == 2 then long_path else preferred

abbrev pub v4_prefix : IpPrefix
v4_prefix = record { addr = v4 (10 ∷ 1 ∷ 0 ∷ 0 ∷ []); bits = some 16 }

abbrev pub lan_prefix : IpPrefix
lan_prefix = record { addr = v4 (193 ∷ 0 ∷ 2 ∷ 0 ∷ []); bits = some 24 }

abbrev pub v6_prefix : IpPrefix
v6_prefix = record {
  addr = v6 (0x20 ∷ 1 ∷ 0xd ∷ 0xb8 ∷ 0 ∷ 0 ∷ 0 ∷ 0 ∷ 0 ∷ 0 ∷ 0 ∷ 0 ∷ 0 ∷ 0 ∷ 0 ∷ 0 ∷ []);
  bits = some 32;
}

abbrev pub route : IpPrefix → RouteAttributes → ℕ → Route
route prefix attributes id = record {
  prefix = prefix;
  attributes = some attributes;
  path_id = id;
  stale = false;
}

pub present : (p : ℕ) → (p == nil_pointer) ≡ false → p ≢ nil_pointer
present p h = ground arith

-- Nodes with the path 7, and with the paths 7 and 8, of which 8 is stale.
abbrev pub one_path : Node
one_path = (set_path empty_node 7 1 false).0

abbrev pub two_paths : Node
two_paths = (set_path one_path 8 2 true).0

pub one_path-IsValid : Paths.IsValid one_path
one_path-IsValid = (set_path-Sets empty_node 7 1 false empty_node-IsValid (present 1 refl)).valid

pub two_paths-IsValid : Paths.IsValid two_paths
two_paths-IsValid = (set_path-Sets one_path 8 2 true one_path-IsValid (present 2 refl)).valid
