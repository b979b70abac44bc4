-- ===== src/Ipv4/Runs.antt =====
-- Sequences of operations of the IPv4 RIB, and what they keep.
use routing_table.Prelude.{
  ℕ, suc, ◌+◌, ◌^◌, ◌≡◌, ◌<◌, refl, true, Option-cases, List, [], ◌∷◌, All, length, get_or, arith,
  inl, inr, Bool-cases,
}
use native.Mathlib.Nat.{zero-add}
use routing_table.Attrs.{Pointer, Route, IpPrefix, PrefixWithId}
use routing_table.Utils.{is_valid_v4, octet_bits}
use routing_table.Utils.Laws.{is_valid_v4-in_ranges}
use routing_table.Family.{ipv4_family}
use routing_table.Tally.{MapOrder}
use routing_table.Rib.{Rib}
use routing_table.Ipv4.Methods.{mark_all_stale, delete_stale_routes, reset}
use routing_table.AttrTable.{AttrTable}
use routing_table.AttrTable.Insertion as Table
use routing_table.AttrTable.Counted.{IsCounted}
use routing_table.Tally.Amounts.{IsLoop}
use routing_table.Rib.Sized.{IsSized, new_rib-IsSized}
use routing_table.Rib.Holding.{IsHeld}
use routing_table.Rib.Kept.{IsReferenced, IsSized-Rule, IsReferenced-Rule, new_rib-IsReferenced}
use routing_table.Rib.Rules.{Rule, batch-adds, batch-keeps}
use routing_table.Ipv4.{
  new_ipv4_rib, as4, is4, is6, walk_bits, outside, insert_unlocked, insert, insert_batch,
  delete_unlocked, delete, delete_batch,
}

-- The first octet of an address is a byte.
abbrev pub IsByte : IpPrefix → Type 0
IsByte p = get_or (as4 p.addr) 0 0 < 256

pub length-walk_bits : (octets : List ℕ) → length (walk_bits octets) ≡ 16
unfolding walk_bits octet_bits
length-walk_bits octets = refl

valid_v4-lt : (x : ℕ) → x < 256 → is_valid_v4 x ≡ true → x < 224
valid_v4-lt x h v = ground (arith, is_valid_v4-in_ranges x h)

-- The operations that change the RIB.
pub data Op : Type 0 where
  add : Route → Op
  add_batch : List Route → Op
  remove : IpPrefix → ℕ → Op
  remove_batch : List PrefixWithId → Op
  mark_stale : Op
  sweep : Op
  flush : Op

unfoldable pub apply : MapOrder → Rib → Op → Rib
apply order r (add route) = insert r route
apply order r (add_batch routes) = (insert_batch r routes).0
apply order r (remove p q) = delete r p q
apply order r (remove_batch ps) = (delete_batch r ps).0
apply order r mark_stale = mark_all_stale r
apply order r sweep = (delete_stale_routes order r).0
apply order r flush = reset order r

unfoldable pub run : MapOrder → Rib → List Op → Rib
run order r [] = r
run order r (op ∷ ops) = run order (apply order r op) ops

-- The prefixes of an operation start with a byte.
abbrev pub OfBytes : Op → Type 0
OfBytes (add route) = IsByte route.prefix
OfBytes (add_batch routes) = All (λ route. IsByte route.prefix) routes
OfBytes (remove p q) = IsByte p
OfBytes (remove_batch ps) = All (λ p. IsByte p.prefix) ps
OfBytes mark_stale = Unit {0}
OfBytes sweep = Unit {0}
OfBytes flush = Unit {0}

-- The routes that an operation announces.
abbrev pub weight : Op → ℕ
weight (add route) = 1
weight (add_batch routes) = length routes
weight (remove p q) = 0
weight (remove_batch ps) = 0
weight mark_stale = 0
weight sweep = 0
weight flush = 0

abbrev pub weights : List Op → ℕ
weights [] = 0
weights (op ∷ ops) = weight op + weights ops

module _ (order : MapOrder) (P : ℕ → Rib → Type 0) (rule : Rule ipv4_family 224 256 order P) where
  insert_unlocked-keeps :
      (k : ℕ) (r : Rib) (route : Route)
      → IsByte route.prefix
      → P k r
      → P (suc k) (insert_unlocked r route).0
  unfolding insert_unlocked
  insert_unlocked-keeps k r route b s = elim (Option-cases route.prefix.bits) [
    | inl e ↦ rw (e, insert_unlocked) (rule.weaker k r s)
    | inr (mask, e) ↦
        let addr = as4 route.prefix.addr in
        elim (Bool-cases (outside mask)) [
          | inl o ↦ rw (e, insert_unlocked, o) (rule.weaker k r s)
          | inr o ↦ elim (Bool-cases (is_valid_v4 (get_or addr 0 0))) [
            | inl v ↦
                rw (e, insert_unlocked, o, v)
                  (rule.inserted k r (get_or addr 0 0) (walk_bits addr) mask route.path_id
                    route.attributes (valid_v4-lt (get_or addr 0 0) b v) (ground arith)
                    (ground arith) (ground (arith, length-walk_bits addr)) s)
            | inr v ↦ rw (e, insert_unlocked, o, v) (rule.weaker k r s)
          ]
        ]
  ]

  delete_unlocked-keeps :
      (k : ℕ) (r : Rib) (p : IpPrefix) (q : ℕ) → IsByte p → P k r → P k (delete_unlocked r p q).0
  unfolding delete_unlocked
  delete_unlocked-keeps k r p q b s = elim (Option-cases p.bits) [
    | inl e ↦ rw (e, delete_unlocked) s
    | inr (mask, e) ↦
        let addr = as4 p.addr in
        elim (Bool-cases (outside mask)) [
          | inl o ↦ rw (e, delete_unlocked, o) s
          | inr o ↦
              rw (e, delete_unlocked, o)
                (rule.deleted k r (get_or addr 0 0) (walk_bits addr) mask q b (ground arith)
                  (ground arith) (ground (arith, length-walk_bits addr)) s)
        ]
  ]

  apply-keeps :
      (k : ℕ) (r : Rib) (op : Op) → OfBytes op → P k r → P (weight op + k) (apply order r op)
  unfolding apply insert insert_batch delete delete_batch
  apply-keeps k r (add route) b s =
      let one : 1 + k ≡ suc k = omega arith in
      rw one (elim (Bool-cases (is6 route.prefix.addr)) [
        | inl e ↦ rw (e, insert) (rule.weaker k r s)
        | inr e ↦ rw (e, insert) (insert_unlocked-keeps k r route b s)
      ])
  apply-keeps k r (add_batch routes) b s =
      batch-adds P (λ route. IsByte route.prefix) _ _
        (λ k' r' route b' s'. elim (Bool-cases (is4 route.prefix.addr)) [
          | inl e ↦ rw e (insert_unlocked-keeps k' r' route b' s')
          | inr e ↦ rw e (rule.weaker k' r' s')
        ])
        k r routes b s
  apply-keeps k r (remove p q) b s = rw (zero-add k) (elim (Bool-cases (is6 p.addr)) [
    | inl e ↦ rw (e, delete) s
    | inr e ↦ rw (e, delete) (delete_unlocked-keeps k r p q b s)
  ])
  apply-keeps k r (remove_batch ps) b s = rw (zero-add k) (
      batch-keeps P (λ p. IsByte p.prefix) _ _
        (λ k' r' p b' s'. elim (Bool-cases (is4 p.prefix.addr)) [
          | inl e ↦ rw e (delete_unlocked-keeps k' r' p.prefix p.path_id b' s')
          | inr e ↦ rw e s'
        ])
        k r ps b s)
  apply-keeps k r mark_stale b s = rw (zero-add k) (rule.marked k r s)
  apply-keeps k r sweep b s = rw (zero-add k) (rule.swept k r s)
  apply-keeps k r flush b s = rw (zero-add k) (rule.flushed k r s)

  -- A property that follows the rule is kept by every sequence of operations.
  pub run-keeps :
      (k : ℕ) (r : Rib) (ops : List Op)
      → All OfBytes ops
      → P k r
      → P (weights ops + k) (run order r ops)
  unfolding run
  run-keeps k r [] b s = rw (zero-add k) s
  run-keeps k r (op ∷ ops) b s =
      let e : weight op + weights ops + k ≡ weights ops + (weight op + k) = omega arith in
      rw e (run-keeps (weight op + k) (apply order r op) ops b.1 (apply-keeps k r op b.0 s))

module _ (order : MapOrder) (table : AttrTable) (ops : List Op) (valid : Table.IsValid table)
    (bytes : All OfBytes ops) where
  -- From a new IPv4 RIB over a valid attribute table, any sequence of Insert, InsertBatch, Delete,
  -- DeleteBatch, MarkAllStale, DeleteStaleRoutes and Reset whose prefixes start with a byte leaves a RIB of 256 entries that is valid.
  pub run-IsSized : IsSized 256 (run order (new_ipv4_rib table) ops)
  unfolding new_ipv4_rib
  run-IsSized =
      run-keeps order (λ k r. IsSized 256 r) (IsSized-Rule ipv4_family 224 256 order (omega arith))
        0 (new_ipv4_rib table) ops bytes (new_rib-IsSized 256 table valid)

  -- From a new IPv4 RIB over a valid attribute table that counts the references of others, any
  -- sequence of Insert, InsertBatch, Delete, DeleteBatch, MarkAllStale, DeleteStaleRoutes and
  -- Reset whose prefixes start with a byte keeps the table exact, if a loop over a map goes
  -- through each entry once and the routes announced and the references of others are fewer than
  -- 2^32 for each object: each object of the table is held in the tries and by others as often as
  -- its count says, and once at least, it stands once in its bucket, and each object that is held
  -- is in the table.
  pub run-IsHeld :
      (others : Pointer → ℕ)
      → IsLoop order
      → IsCounted table others
      → ((q : Pointer) → weights ops + others q < 2 ^ 32)
      → IsHeld others (run order (new_ipv4_rib table) ops)
  unfolding new_ipv4_rib
  run-IsHeld others loop counted room =
      (run-keeps order (IsReferenced 256 others)
          (IsReferenced-Rule ipv4_family 224 256 order (omega arith) others loop) 0
          (new_ipv4_rib table) ops bytes (new_rib-IsReferenced 256 table others valid counted)).held
        (λ q. omega (arith, room q))
