-- ===== src/Lib.antt =====
-- A verification library for routing_table, a Go library that holds BGP routes in memory.
--
-- The program. A RIB (ipv4.go, ipv6.go) is an array of binary tries, indexed by the first octet of
-- the address, with the prefixes of /8 on the array entries and the longer ones below: to /24 for
-- IPv4, to /48 for IPv6. A node of a trie (node.go) holds the paths of its prefix: one inline, the
-- others in an overflow slice. The attributes of a path are an object of the attribute table
-- (hash.go), which holds one object for equal attributes and counts the references to it. Insert
-- takes an object from the table, walks the bits of the prefix and stores a path with setPath, and
-- releases the object that the path had before; Delete removes a path with deletePath, releases
-- its object and prunes the empty nodes. Search and AllPathsSearch find the longest prefix of an
-- address; Lookup and AllPaths the node of a prefix. SelectBest (types.go) chooses among routes,
-- by the rules of bestPathWithID. For graceful restart, MarkAllStale marks every path, an
-- announcement clears the mark of its path, and DeleteStaleRoutes deletes what is still marked.
-- Reset drops all tries. AllPrefixes and the PrefixesBy functions walk all tries.
--
-- The files.
-- - Prelude: names, lists, Boolean tests and 64-bit words that the others share.
-- - Utils: utils.go. The octet is a number, its bits a list; formatBytes is not modelled.
-- - Attrs, Attrs/Text, Attrs/Prefix: the types of types.go, formatASPath, and the functions of
--   Go's netip that the code calls. A pointer to attributes is a number, 0 for nil, into a store.
-- - Node: node.go but for deleteNode. Node/Flags relates the flag byte to the two Booleans of the
--   model. Node/Paths has the abstract view of a node, one list of paths; Update, Remove, Best,
--   Laws and Live are the proofs about it.
-- - Rank, Select: the order on paths, and SelectBest and nodeToRoutes.
-- - Trie: the walks of ipv4.go and ipv6.go and deleteNode. The parent pointers are the path of the
--   walk, a list of crumbs. Reads has the abstract view; Insert, Delete, Prune, Removal and Search
--   are the walks against it; Sound, Compact and Totals are the parts of the invariant.
-- - AttrTable: hash.go, with FNV-1a in Hash; Buckets, Invariant, Insertion and Release are the
--   proofs about its invariant, Removed, Counted and Acquired those about the reference counts,
--   Accounts and Accounted those about attrCount and sliceBytes.
-- - Tally: attrTally and releaseTree of hash.go; Tally/Amounts has what a tally counts.
-- - Family: what the walks over whole RIBs differ in for IPv4 and IPv6.
-- - Sweep: DeleteStaleRoutes. Walk is about what is cut off, Left about what is left, Sums about
--   what is removed; Roots, Whole and References are about the array, the RIB and the reference
--   counts, Removed about the prefixes returned.
-- - Walkers: AllPrefixes, prefixesMatching and asPathMatcher. Keys and Listing are about
--   AllPrefixes, Matching and Memo about prefixesMatching, Shallow about the places where paths
--   are, Places about the address that is written for a place.
-- - Stats: the counters, MemoryUsage, Reset and router.go; Stats/Resetting is about Reset.
-- - Rib: what ipv4.go and ipv6.go share, from the array entry on. State, Fields, Valid, Inserting,
--   Lowering, Deleting and Sized are about the invariant, View is the abstract view and Reading
--   what AllPaths makes of it, Walks and LongestMatch are about Search and AllPathsSearch. Marking
--   is about MarkAllStale, Holding about the reference counts, Announced and Restart about
--   graceful restart. Rules says what has to be shown of a property that all operations keep, and
--   Kept and Measured show it.
-- - Ipv4, Ipv6: insertUnlocked, Insert, InsertBatch, deleteUnlocked, Delete, DeleteBatch, Search,
--   AllPathsSearch, Lookup and AllPaths with their guards. Methods has the methods on the whole
--   RIB, Runs has sequences of operations, Walking what AllPrefixes lists after them, Places what
--   AllPaths returns for a prefix that is listed, Accounts the counters of the table, Searching
--   the longest match, Ipv4/Reading what AllPaths returns after an insertion or a deletion,
--   Ipv6/Panics an address outside the array.
-- - Outcome: a call that may panic. Tests: concrete runs.
--
-- Numbers. Counters are 64-bit words with the wrap-around written out (Prelude/Word); the hash is
-- too. Path ids and
-- AS numbers are numbers without a bound, since the code only compares them; the octets of an address
-- are numbers too, which the theorems take to be bytes where it matters.
--
-- Recursion. Every walk is by recursion on the list of bits, which has 16 entries for IPv4 and 40
-- for IPv6; deleteNode is by recursion on the crumbs. The loop that deletes stale paths runs on
-- fuel, as many rounds as the node has paths; each round removes one path.
--
-- Parameters. The order in which Go reads a map is a function on its list of entries, of which the
-- theorems on reference counts ask that it gives a permutation. The match of a regular expression
-- is a function on text. MemoryUsage takes the sizes of two structs.
--
-- Not modelled: the mutexes (an operation holds its lock throughout, and is one step here; the
-- releases that Reset and DeleteStaleRoutes make after they have dropped the lock of the RIB are
-- part of that step), logging, the texts for it, and bench/.
pub mod Prelude
pub mod Utils
pub mod Attrs
pub mod Rank
pub mod Node
pub mod Select
pub mod Trie
pub mod AttrTable
pub mod Outcome
pub mod Family
pub mod Rib
pub mod Tally
pub mod Sweep
pub mod Stats
pub mod Walkers
pub mod Ipv4
pub mod Ipv6
pub mod Tests
