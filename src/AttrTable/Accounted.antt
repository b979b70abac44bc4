-- ===== src/AttrTable/Accounted.antt =====
-- The counters of the table against its objects: attrCount and sliceBytes.
use routing_table.Prelude.{
  ℕ, ◌+◌, ◌-◌, ◌%◌, ◌^◌, ◌≡◌, refl, sym, ap, ◌∙◌, true, false, ◌||◌, Option, List, [], ◌∷◌, ◌++◌,
  ltb, leb, ◌==◌, ==_iff, if◌then◌else◌, arith, Bool-cases, Option-cases, inl, inr,
}
use routing_table.Prelude.Word.{word_mod, add64-mod, sub64-mod, sub64}
use routing_table.Attrs.{RouteAttributes, Pointer, nil_pointer, Store}
use routing_table.AttrTable.{
  AttrTable, new_attr_table, Entries, bucket, set_bucket, store_bucket, write, owned_bytes,
  copy_attributes, insert_new, retain, get_or_insert, find_equal, drop_pointer, remove_locked,
  set_ref_count, minus_one, release, release_count, release_n,
}
use routing_table.AttrTable.Hash.{hash_attributes}
use routing_table.AttrTable.Insertion as Table
use routing_table.AttrTable.Insertion.{given_or_empty}
use routing_table.AttrTable.Release.{dropped, listed, drop_pointer-dropped}
use routing_table.AttrTable.Accounts.{
  key_count, bucket_sum, table_sum, bucket_sum-append, bucket_sum-dropped, set_bucket-sum,
  store_bucket-sum, AreDistinct, set_bucket-AreDistinct, store_bucket-AreDistinct,
}

abbrev one : Pointer → ℕ
one p = 1

abbrev bytes_of : Store → Pointer → ℕ
bytes_of store p = owned_bytes (store p)

-- One for an address that is not allocated.
abbrev pub unallocated : Pointer → Pointer → ℕ
unallocated next p = if ltb p next then 0 else 1

-- The map has each key once and only objects that are allocated; attrCount is the number of its
-- objects and sliceBytes the bytes that they own, modulo 2^64.
pub record IsAccounted (at : AttrTable) : Type 0 where
  pub keys : AreDistinct at.entries
  pub allocated : table_sum (unallocated at.next) at.entries ≡ 0
  pub objects : at.attr_count ≡ table_sum (λ p. 1) at.entries % word_mod
  pub bytes : at.slice_bytes ≡ table_sum (λ p. owned_bytes (at.store p)) at.entries % word_mod

module _ (u w w' : Pointer → ℕ) (same : (p : Pointer) → u p ≡ 0 → w' p ≡ w p) where
  bucket_sum-same : (l : List Pointer) → bucket_sum u l ≡ 0 → bucket_sum w' l ≡ bucket_sum w l
  unfolding bucket_sum
  bucket_sum-same [] z = refl
  bucket_sum-same (p ∷ ps) z = omega (arith, same p (omega arith), bucket_sum-same ps (omega arith))

  table_sum-same : (es : Entries) → table_sum u es ≡ 0 → table_sum w' es ≡ table_sum w es
  unfolding table_sum
  table_sum-same [] z = refl
  table_sum-same ((h, l) ∷ es) z =
      omega (arith, bucket_sum-same l (omega arith), table_sum-same es (omega arith))

-- A change of counts only.
write-owned_bytes :
    (store : Store) (p q : Pointer) (n : ℕ)
    → owned_bytes (write store p (record (store p) { ref_count = n }) q) ≡ owned_bytes (store q)
write-owned_bytes store p q n = elim (Bool-cases (q == p)) [
  | inl e ↦ let z : q ≡ p = (==_iff q p).0 e in rw (e, z)
  | inr e ↦ rw e
]

counted-IsAccounted :
    (at : AttrTable) (p : Pointer) (n : ℕ) → IsAccounted at → IsAccounted (set_ref_count at p n)
counted-IsAccounted at p n a = record {
  keys = a.keys;
  allocated = a.allocated;
  objects = a.objects;
  bytes =
      a.bytes
      ∙ ap (λ k. k % word_mod)
          (sym (
            table_sum-same (unallocated at.next) (bytes_of at.store)
              (bytes_of (set_ref_count at p n).store) (λ q z. write-owned_bytes at.store p q n)
              at.entries a.allocated));
}

remove_locked-IsAccounted :
    (at : AttrTable) (p : Pointer) → IsAccounted at → IsAccounted (remove_locked at p)
unfolding remove_locked
remove_locked-IsAccounted at p a =
    let h = (at.store p).hash in
    let home = bucket h at.entries in
    elim (Option-cases (drop_pointer p home)) [
      | inl e ↦ rw (e, remove_locked) a
      | inr (l, e) ↦
          let there : listed p home ≡ true = ground (arith, drop_pointer-dropped p home) in
          let rest : l ≡ dropped p home = ground (arith, drop_pointer-dropped p home) in
          let sum : (w : Pointer → ℕ)
              → table_sum w (store_bucket h l at.entries) + w p ≡ table_sum w at.entries =
            λ w. omega (
              arith,
              store_bucket-sum w h l at.entries (a.keys h),
              bucket_sum-dropped w p home there,
              ap (bucket_sum w) rest,
            ) in
          rw (e, remove_locked)
            (record {
              keys = store_bucket-AreDistinct h l at.entries a.keys;
              allocated = omega (arith, sum (unallocated at.next), a.allocated);
              objects = fewer at.attr_count _ _ 1 a.objects (sum one);
              bytes =
                  fewer at.slice_bytes _ _ (owned_bytes (at.store p)) a.bytes
                    (sum (bytes_of at.store));
            })
    ]
  where
    fewer :
        (c before after k : ℕ)
        → c ≡ before % word_mod
        → after + k ≡ before
        → sub64 c k ≡ after % word_mod
    fewer c before after k h sum =
        let left : before - k ≡ after = omega arith in
        sub64-mod c before k (omega arith) h ∙ ap (λ n. n % word_mod) left

-- A fresh object in its bucket.
insert_new-IsAccounted :
    (at : AttrTable) (attr : RouteAttributes) (h : ℕ)
    → IsAccounted at
    → IsAccounted (insert_new at attr h).0
unfolding insert_new bucket_sum
insert_new-IsAccounted at attr h a =
    let copy = copy_attributes attr h in
    let new = bucket h at.entries ++ (at.next ∷ []) in
    let sum : (w : Pointer → ℕ)
        → table_sum w (set_bucket h new at.entries) ≡ table_sum w at.entries + w at.next =
      λ w. omega (
        arith,
        set_bucket-sum w h new at.entries,
        bucket_sum-append w (bucket h at.entries) at.next,
      ) in
    let fresh : ltb at.next (at.next + 1) ≡ true = ground arith in
    let self : (at.next == at.next) ≡ true = (==_iff at.next at.next).1 refl in
    record {
      keys = set_bucket-AreDistinct h new at.entries a.keys;
      allocated =
          sum (unallocated (at.next + 1))
          ∙ rw fresh (
              omega (
                arith,
                table_sum-same (unallocated at.next) (unallocated at.next)
                    (unallocated (at.next + 1)) (λ p z. ground (arith, z)) at.entries a.allocated,
                a.allocated,
              ));
      objects = add64-mod at.attr_count _ 1 a.objects ∙ ap (λ n. n % word_mod) (sym (sum one));
      bytes =
          add64-mod at.slice_bytes _ (owned_bytes copy) a.bytes
          ∙ ap (λ n. n % word_mod)
              (sym (
                sum (bytes_of (write at.store at.next copy))
                ∙ rw self (
                    ap (λ n. n + owned_bytes copy)
                      (table_sum-same (unallocated at.next) (bytes_of at.store)
                        (bytes_of (write at.store at.next copy))
                        (λ p z. let apart : (p == at.next) ≡ false = ground (arith, z) in rw apart)
                        at.entries a.allocated))));
    }

pub get_or_insert-IsAccounted :
    (at : AttrTable) (given : Option RouteAttributes)
    → IsAccounted at
    → IsAccounted (get_or_insert at given).0
unfolding retain
get_or_insert-IsAccounted at given a =
    let attr = given_or_empty given in
    elim (Option-cases (find_equal at.store attr (bucket (hash_attributes attr) at.entries))) [
      | inl e ↦
          rw ((Table.intern at given).0 e) (insert_new-IsAccounted at attr (hash_attributes attr) a)
      | inr (p, e) ↦
          rw ((Table.intern at given).1 p e)
            (counted-IsAccounted at p (((at.store p).ref_count + 1) % 2 ^ 32) a)
    ]

pub release-IsAccounted :
    (at : AttrTable) (p : Pointer) → IsAccounted at → IsAccounted (release at p)
unfolding release
release-IsAccounted at p a =
    let n = minus_one (at.store p).ref_count in
    elim (Bool-cases (p == nil_pointer)) [
      | inl e ↦ rw e a
      | inr e ↦ rw e (elim (Bool-cases (n == 0)) [
        | inl z ↦
            rw z (remove_locked-IsAccounted (set_ref_count at p n) p (counted-IsAccounted at p n a))
        | inr z ↦ rw z (counted-IsAccounted at p n a)
      ])
    ]

release_count-IsAccounted :
    (at : AttrTable) (p : Pointer) (n : ℕ) → IsAccounted at → IsAccounted (release_count at p n)
unfolding release_count
release_count-IsAccounted at p n a = elim (Bool-cases (p == nil_pointer || n == 0)) [
  | inl e ↦ rw e a
  | inr e ↦ rw e (elim (Bool-cases (leb (at.store p).ref_count (n % 2 ^ 32))) [
    | inl z ↦
        rw z (remove_locked-IsAccounted (set_ref_count at p 0) p (counted-IsAccounted at p 0 a))
    | inr z ↦ rw z (counted-IsAccounted at p ((at.store p).ref_count - n % 2 ^ 32) a)
  ])
]

pub release_n-IsAccounted :
    (at : AttrTable) (counts : List (Pointer × ℕ))
    → IsAccounted at
    → IsAccounted (release_n at counts)
unfolding release_n
release_n-IsAccounted at [] a = a
release_n-IsAccounted at ((p, n) ∷ counts) a =
    release_n-IsAccounted (release_count at p n) counts (release_count-IsAccounted at p n a)

pub new_attr_table-IsAccounted : IsAccounted new_attr_table
unfolding table_sum key_count
new_attr_table-IsAccounted = record {
  keys = λ h. omega arith;
  allocated = refl;
  objects = refl;
  bytes = refl;
}
