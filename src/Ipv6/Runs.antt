-- ===== src/Ipv6/Runs.antt =====
-- Sequences of operations of the IPv6 RIB, and what they keep.
use routing_table.Prelude.{
  ℕ, suc, ◌+◌, ◌^◌, ◌≡◌, ◌<◌, refl, false, ◌||◌, Option-cases, List, [], ◌∷◌, All, length, arith,
  inl, inr, Bool-cases,
}
use native.Mathlib.Nat.{zero-add}
use routing_table.Attrs.{Pointer, Route, IpPrefix, PrefixWithId}
use routing_table.Utils.{octet_bits}
use routing_table.Family.{ipv6_family}
use routing_table.Tally.{MapOrder}
use routing_table.Rib.{Rib}
use routing_table.Ipv6.Methods.{mark_all_stale, delete_stale_routes, reset}
use routing_table.AttrTable.{AttrTable}
use routing_table.AttrTable.Insertion as Table
use routing_table.AttrTable.Counted.{IsCounted}
use routing_table.Tally.Amounts.{IsLoop}
use routing_table.Rib.Sized.{IsSized, new_rib-IsSized}
use routing_table.Rib.Holding.{IsHeld}
use routing_table.Rib.Kept.{IsReferenced, IsSized-Rule, IsReferenced-Rule, new_rib-IsReferenced}
use routing_table.Rib.Rules.{Rule, batch-adds, batch-keeps}
use routing_table.Ipv4.{is4, is6}
use routing_table.Ipv6.{
  new_ipv6_rib, as16, walk_bits, outside, not_global, index, insert_unlocked, insert, insert_batch,
  delete_unlocked, delete, delete_batch,
}

pub length-walk_bits : (octets : List ℕ) → length (walk_bits octets) ≡ 40
unfolding walk_bits octet_bits
length-walk_bits octets = refl

-- The index of an entry, where the guard on the first byte passes.
index-inside : (octets : List ℕ) → not_global octets ≡ false → index octets < 32
index-inside octets h = ground arith

All-trivial {ℓ} : {A : Type ℓ} (xs : List A) → All (λ (x : A). Unit {0}) xs
All-trivial [] = tt
All-trivial (x ∷ xs) = (tt, All-trivial xs)

-- The operations that change the RIB.
pub data Op : Type 0 where
  add : Route → Op
  add_batch : List Route → Op
  remove : IpPrefix → ℕ → Op
  remove_batch : List PrefixWithId → Op
  mark_stale : Op
  sweep : Op
  flush : Op

unfoldable pub apply : MapOrder → Rib → Op → Rib
apply order r (add route) = insert r route
apply order r (add_batch routes) = (insert_batch r routes).0
apply order r (remove p q) = delete r p q
apply order r (remove_batch ps) = (delete_batch r ps).0
apply order r mark_stale = mark_all_stale r
apply order r sweep = (delete_stale_routes order r).0
apply order r flush = reset order r

unfoldable pub run : MapOrder → Rib → List Op → Rib
run order r [] = r
run order r (op ∷ ops) = run order (apply order r op) ops

-- The routes that an operation announces.
abbrev pub weight : Op → ℕ
weight (add route) = 1
weight (add_batch routes) = length routes
weight (remove p q) = 0
weight (remove_batch ps) = 0
weight mark_stale = 0
weight sweep = 0
weight flush = 0

abbrev pub weights : List Op → ℕ
weights [] = 0
weights (op ∷ ops) = weight op + weights ops

module _ (order : MapOrder) (P : ℕ → Rib → Type 0) (rule : Rule ipv6_family 32 32 order P) where
  insert_unlocked-keeps :
      (k : ℕ) (r : Rib) (route : Route) → P k r → P (suc k) (insert_unlocked r route).0
  unfolding insert_unlocked
  insert_unlocked-keeps k r route s =
      let addr = as16 route.prefix.addr in
      elim (Bool-cases (not_global addr)) [
        | inl g ↦ rw (insert_unlocked, g) (rule.weaker k r s)
        | inr g ↦ elim (Option-cases route.prefix.bits) [
          | inl e ↦ rw (insert_unlocked, g, e) (rule.weaker k r s)
          | inr (mask, e) ↦ elim (Bool-cases (outside mask)) [
            | inl o ↦ rw (insert_unlocked, g, e, o) (rule.weaker k r s)
            | inr o ↦
                rw (insert_unlocked, g, e, o)
                  (rule.inserted k r (index addr) (walk_bits addr) mask route.path_id
                    route.attributes (index-inside addr g) (ground arith) (ground arith)
                    (ground (arith, length-walk_bits addr)) s)
          ]
        ]
      ]

  delete_unlocked-keeps :
      (k : ℕ) (r : Rib) (p : IpPrefix) (q : ℕ) → P k r → P k (delete_unlocked r p q).0
  unfolding delete_unlocked
  delete_unlocked-keeps k r p q s = elim (Option-cases p.bits) [
    | inl e ↦ rw (e, delete_unlocked) s
    | inr (mask, e) ↦
        let addr = as16 p.addr in
        elim (Bool-cases (outside mask || not_global addr)) [
          | inl o ↦ rw (e, delete_unlocked, o) s
          | inr o ↦
              rw (e, delete_unlocked, o)
                (rule.deleted k r (index addr) (walk_bits addr) mask q
                  (index-inside addr (ground arith)) (ground arith) (ground arith)
                  (ground (arith, length-walk_bits addr)) s)
        ]
  ]

  apply-keeps : (k : ℕ) (r : Rib) (op : Op) → P k r → P (weight op + k) (apply order r op)
  unfolding apply insert insert_batch delete delete_batch
  apply-keeps k r (add route) s =
      let one : 1 + k ≡ suc k = omega arith in
      rw one (elim (Bool-cases (is4 route.prefix.addr)) [
        | inl e ↦ rw (e, insert) (rule.weaker k r s)
        | inr e ↦ rw (e, insert) (insert_unlocked-keeps k r route s)
      ])
  apply-keeps k r (add_batch routes) s =
      batch-adds P (λ route. Unit {0}) _ _
        (λ k' r' route b' s'. elim (Bool-cases (is6 route.prefix.addr)) [
          | inl e ↦ rw e (insert_unlocked-keeps k' r' route s')
          | inr e ↦ rw e (rule.weaker k' r' s')
        ])
        k r routes (All-trivial routes) s
  apply-keeps k r (remove p q) s = rw (zero-add k) (elim (Bool-cases (is4 p.addr)) [
    | inl e ↦ rw (e, delete) s
    | inr e ↦ rw (e, delete) (delete_unlocked-keeps k r p q s)
  ])
  apply-keeps k r (remove_batch ps) s = rw (zero-add k) (
      batch-keeps P (λ p. Unit {0}) _ _
        (λ k' r' p b' s'. elim (Bool-cases (is6 p.prefix.addr)) [
          | inl e ↦ rw e (delete_unlocked-keeps k' r' p.prefix p.path_id s')
          | inr e ↦ rw e s'
        ])
        k r ps (All-trivial ps) s)
  apply-keeps k r mark_stale s = rw (zero-add k) (rule.marked k r s)
  apply-keeps k r sweep s = rw (zero-add k) (rule.swept k r s)
  apply-keeps k r flush s = rw (zero-add k) (rule.flushed k r s)

  -- A property that follows the rule is kept by every sequence of operations.
  pub run-keeps : (k : ℕ) (r : Rib) (ops : List Op) → P k r → P (weights ops + k) (run order r ops)
  unfolding run
  run-keeps k r [] s = rw (zero-add k) s
  run-keeps k r (op ∷ ops) s =
      let e : weight op + weights ops + k ≡ weights ops + (weight op + k) = omega arith in
      rw e (run-keeps (weight op + k) (apply order r op) ops (apply-keeps k r op s))

module _ (order : MapOrder) (table : AttrTable) (ops : List Op) (valid : Table.IsValid table) where
  -- From a new IPv6 RIB over a valid attribute table, any sequence of Insert, InsertBatch, Delete,
  -- DeleteBatch, MarkAllStale, DeleteStaleRoutes and Reset leaves a RIB of 32 entries that is valid.
  pub run_v6-IsSized : IsSized 32 (run order (new_ipv6_rib table) ops)
  unfolding new_ipv6_rib
  run_v6-IsSized =
      run-keeps order (λ k r. IsSized 32 r) (IsSized-Rule ipv6_family 32 32 order (omega arith)) 0
        (new_ipv6_rib table) ops (new_rib-IsSized 32 table valid)

  -- From a new IPv6 RIB over a valid attribute table that counts the references of others, any
  -- sequence of Insert, InsertBatch, Delete, DeleteBatch, MarkAllStale, DeleteStaleRoutes and
  -- Reset keeps the table exact, if a loop over a map goes through each entry once and the routes
  -- announced and the references of others are fewer than 2^32 for each object: each object of the
  -- table is held in the tries and by others as often as its count says, and once at least, it
  -- stands once in its bucket, and each object that is held is in the table.
  pub run_v6-IsHeld :
      (others : Pointer → ℕ)
      → IsLoop order
      → IsCounted table others
      → ((q : Pointer) → weights ops + others q < 2 ^ 32)
      → IsHeld others (run order (new_ipv6_rib table) ops)
  unfolding new_ipv6_rib
  run_v6-IsHeld others loop counted room =
      (run-keeps order (IsReferenced 32 others)
          (IsReferenced-Rule ipv6_family 32 32 order (omega arith) others loop) 0
          (new_ipv6_rib table) ops (new_rib-IsReferenced 32 table others valid counted)).held
        (λ q. omega (arith, room q))
