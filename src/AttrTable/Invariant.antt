-- ===== src/AttrTable/Invariant.antt =====
-- The invariant of the table, and what getOrInsert is to return.
use routing_table.Prelude.{
  ℕ, ◌≤◌, ◌<◌, ◌≡◌, ◌≢◌, refl, ◌∙◌, inl, inr, Option, none, some, Has, ◌==◌, ==_iff, arith,
  Bool-cases,
}
use routing_table.Attrs.{RouteAttributes, no_attributes, Pointer, nil_pointer, Store}
use routing_table.AttrTable.{AttrTable, bucket, write, set_ref_count, get_or_insert}
use routing_table.AttrTable.Hash.{hash_attributes}
use routing_table.AttrTable.Buckets.{Same, hash_attributes-Same}

-- Every pointer of a bucket is that of an object allocated before, whose hash is the bucket's key
-- and the hash of its attributes; no two objects of a bucket are equal.
pub record IsValid (at : AttrTable) : Type 0 where
  pub fresh : 1 ≤ at.next
  pub known : (h : ℕ) (p : Pointer) → Has p (bucket h at.entries) → (1 ≤ p) × (p < at.next)
  pub hashed :
      (h : ℕ) (p : Pointer)
      → Has p (bucket h at.entries)
      → ((at.store p).hash ≡ h) × (hash_attributes (at.store p) ≡ h)
  pub distinct :
      (h : ℕ) (p q : Pointer)
      → Has p (bucket h at.entries)
      → Has q (bucket h at.entries)
      → Same (at.store p) (at.store q)
      → p ≡ q

abbrev pub given_or_empty : Option RouteAttributes → RouteAttributes
given_or_empty none = no_attributes
given_or_empty (some a) = a

-- What getOrInsert does with some attributes.
pub record Interns (at : AttrTable) (given : Option RouteAttributes) : Type 0 where
  pub valid : IsValid (get_or_insert at given).0
  pub present : (get_or_insert at given).1 ≢ nil_pointer
  pub listed :
      Has
        (get_or_insert at given).1
        (bucket (hash_attributes (given_or_empty given)) (get_or_insert at given).0.entries)
  pub content :
      Same ((get_or_insert at given).0.store (get_or_insert at given).1) (given_or_empty given)
  pub shared :
      (h : ℕ) (q : Pointer)
      → Has q (bucket h at.entries)
      → Same (at.store q) (given_or_empty given)
      → (get_or_insert at given).1 ≡ q
  pub others :
      (q : Pointer)
      → q < at.next
      → Same ((get_or_insert at given).0.store q) (at.store q)
        × (q ≢ (get_or_insert at given).1 → (get_or_insert at given).0.store q ≡ at.store q)

pub Same-refl : (a : RouteAttributes) → Same a a
Same-refl a = record {
  as_path = refl;
  communities = refl;
  large_communities = refl;
  local_pref = refl;
}

pub Same-symm : (a b : RouteAttributes) → Same a b → Same b a
Same-symm a b s = ground arith

pub Same-trans : (a b c : RouteAttributes) → Same a b → Same b c → Same a c
Same-trans a b c s t = ground arith

-- A write that changes the count alone.
pub write-Same :
    (store : Store) (p q : Pointer) (n : ℕ)
    → let b = write store p (record (store p) { ref_count = n }) q in
      Same b (store q) × (b.hash ≡ (store q).hash)
write-Same store p q n = elim (Bool-cases (q == p)) [
  | inl e ↦
      rw (e, (==_iff q p).0 e)
        (
          record {
            as_path = refl;
            communities = refl;
            large_communities = refl;
            local_pref = refl;
          },
          refl,
        )
  | inr e ↦ rw e (Same-refl (store q), refl)
]

-- A change of one count keeps the table valid.
pub set_ref_count-IsValid :
    (at : AttrTable) (p : Pointer) (n : ℕ) → IsValid at → IsValid (set_ref_count at p n)
set_ref_count-IsValid at p n valid =
    let st = write at.store p (record (at.store p) { ref_count = n }) in
    record {
      fresh = valid.fresh;
      known = valid.known;
      hashed = λ h q m.
          let (same, key) = write-Same at.store p q n in
          let (a, b) = valid.hashed h q m in
          (key ∙ a, hash_attributes-Same (st q) (at.store q) same ∙ b);
      distinct = λ h q r mq mr s. valid.distinct h q r mq mr (
          Same-trans (at.store q) (st q) (at.store r)
            (Same-symm (st q) (at.store q) (write-Same at.store p q n).0)
            (Same-trans (st q) (st r) (at.store r) s (write-Same at.store p r n).0));
    }
