-- ===== src/AttrTable/Acquired.antt =====
-- getOrInsert and the reference counts.
use routing_table.Prelude.{
  ℕ, ◌+◌, ◌≤◌, ◌<◌, ◌%◌, ◌^◌, ◌≡◌, ◌≢◌, sym, inl, inr, Option, none, List, [], ◌∷◌, ◌++◌, Has,
  Has-append_left, leb, ◌==◌, ==_iff, if◌then◌else◌, arith, Bool-cases, Option-cases,
}
use routing_table.Attrs.{RouteAttributes, Pointer}
use routing_table.AttrTable.{
  AttrTable, new_attr_table, bucket, find_equal, copy_attributes, insert_new, retain, get_or_insert,
}
use routing_table.AttrTable.Hash.{hash_attributes}
use routing_table.AttrTable.Buckets.{bucket-set_bucket, find_equal-some}
use routing_table.AttrTable.Insertion.{
  IsValid, given_or_empty, write-Same, write_ne, write_self, intern, new_members, new_listed,
}
use routing_table.AttrTable.Removed.{occurrences}
use routing_table.AttrTable.Counted.{IsCounted}

occurrences-append :
    (q : Pointer) (l l' : List Pointer)
    → occurrences q (l ++ l') ≡ occurrences q l + occurrences q l'
unfolding occurrences
occurrences-append q [] l' = omega arith
occurrences-append q (x ∷ l) l' = omega (arith, occurrences-append q l l')

occurs-Has : (q : Pointer) (l : List Pointer) → 1 ≤ occurrences q l → Has q l
unfolding occurrences
occurs-Has q [] h = elim h [ ]
occurs-Has q (x ∷ l) h = elim (Bool-cases (x == q)) [
  | inl e ↦ inl (sym ((==_iff x q).0 e))
  | inr e ↦ inr (occurs-Has q l (ground arith))
]

module _ (at : AttrTable) (held held' : Pointer → ℕ) (valid : IsValid at)
    (counted : IsCounted at held) where
  retain-IsCounted :
      (h : ℕ) (p : Pointer)
      → Has p (bucket h at.entries)
      → held p + 1 < 2 ^ 32
      → ((q : Pointer) → held' q ≡ held q + (if p == q then 1 else 0))
      → IsCounted (retain at p) held'
  unfolding retain
  retain-IsCounted h p there room after =
      let n = ((at.store p).ref_count + 1) % 2 ^ 32 in
      let (was, _) = counted.exact h p there in
      record {
        small = λ q. ground (arith, after q, counted.small q);
        unique = counted.unique;
        exact = λ k q m. let now = counted.exact k q m in ground (arith, after q);
        listed = λ q pos. rw (write-Same at.store p q n).1 (elim (Bool-cases (p == q)) [
          | inl e ↦
              let same : p ≡ q = (==_iff p q).0 e in rw (← same, (valid.hashed h p there).0) there
          | inr e ↦ counted.listed q (ground (arith, after q))
        ]);
      }

  pub next_free : held at.next ≡ 0
  next_free = elim (Bool-cases (leb 1 (held at.next))) [
    | inl e ↦
        let there = counted.listed at.next (ground arith) in
        absurd (omega (arith, (valid.known (at.store at.next).hash at.next there).1))
    | inr e ↦ ground arith
  ]

  module _ (attr : RouteAttributes)
      (missing : find_equal at.store attr (bucket (hash_attributes attr) at.entries) ≡ none) where
    new_bucket :
        (k : ℕ)
        → bucket k (insert_new at attr (hash_attributes attr)).0.entries ≡ (
            if hash_attributes attr == k
            then bucket (hash_attributes attr) at.entries ++ (at.next ∷ [])
            else bucket k at.entries)
    unfolding insert_new
    new_bucket k =
        bucket-set_bucket (hash_attributes attr) k
          (bucket (hash_attributes attr) at.entries ++ (at.next ∷ [])) at.entries

    stays :
        (k : ℕ) (q : Pointer)
        → Has q (bucket k at.entries)
        → Has q (bucket k (insert_new at attr (hash_attributes attr)).0.entries)
    stays k q m = elim (Bool-cases (hash_attributes attr == k)) [
      | inl e ↦
          let same : hash_attributes attr ≡ k = (==_iff (hash_attributes attr) k).0 e in
          rw (new_bucket k, e)
            (Has-append_left q (bucket (hash_attributes attr) at.entries) (at.next ∷ [])
              (rw same m))
      | inr e ↦ rw (new_bucket k, e) m
    ]

    new_occurrences :
        (k : ℕ) (q : Pointer)
        → occurrences q (bucket k (insert_new at attr (hash_attributes attr)).0.entries) ≤ 1
    unfolding occurrences
    new_occurrences k q = elim (Bool-cases (hash_attributes attr == k)) [
      | inr e ↦ rw (new_bucket k, e) (counted.unique k q)
      | inl e ↦
          let home = bucket (hash_attributes attr) at.entries in
          rw (new_bucket k, e, occurrences-append q home (at.next ∷ []))
            (elim (Bool-cases (leb 1 (occurrences q home))) [
              | inl some_there ↦
                  let lt =
                    (valid.known (hash_attributes attr) q (occurs-Has q home (ground arith))).1 in
                  ground (arith, counted.unique (hash_attributes attr) q)
              | inr none_there ↦ ground arith
            ])
    ]

    copied :
        (insert_new at attr (hash_attributes attr)).0.store at.next
        ≡ copy_attributes attr (hash_attributes attr)
    unfolding insert_new
    copied = write_self at.store at.next (copy_attributes attr (hash_attributes attr))

    not_copied :
        (q : Pointer)
        → q ≢ at.next
        → (insert_new at attr (hash_attributes attr)).0.store q ≡ at.store q
    unfolding insert_new
    not_copied q ne = write_ne at.store at.next q (copy_attributes attr (hash_attributes attr)) ne

    insert_new-IsCounted :
        ((q : Pointer) → held' q ≡ held q + (if at.next == q then 1 else 0))
        → IsCounted (insert_new at attr (hash_attributes attr)).0 held'
    insert_new-IsCounted after = record {
      small = λ q. ground (arith, after q, counted.small q, next_free);
      unique = new_occurrences;
      exact = λ k q m. elim (new_members at valid attr missing k q m) [
        | inl old ↦
            let lt = (valid.known k q old).1 in
            let now = counted.exact k q old in
            rw (not_copied q (λ e. absurd (omega arith))) (ground (arith, after q))
        | inr (e, _) ↦ rw (e, copied) (ground (arith, after at.next, next_free))
      ];
      listed = λ q pos. elim (Bool-cases (at.next == q)) [
        | inl e ↦
            let same : at.next ≡ q = (==_iff at.next q).0 e in
            rw (← same, copied) (new_listed at valid attr missing)
        | inr e ↦
            rw (not_copied q (λ z. ground arith))
              (stays (at.store q).hash q (counted.listed q (ground (arith, after q))))
      ];
    }

-- getOrInsert takes one reference to the object that it returns, where there is room in its count.
pub get_or_insert-IsCounted :
    (at : AttrTable) (given : Option RouteAttributes) (held held' : Pointer → ℕ)
    → IsValid at
    → IsCounted at held
    → held (get_or_insert at given).1 + 1 < 2 ^ 32
    → ((q : Pointer) → held' q ≡ held q + (if (get_or_insert at given).1 == q then 1 else 0))
    → IsCounted (get_or_insert at given).0 held'
unfolding insert_new
get_or_insert-IsCounted at given held held' valid counted room after =
    let attr = given_or_empty given in
    let home = bucket (hash_attributes attr) at.entries in
    elim (Option-cases (find_equal at.store attr home)) [
      | inl missing ↦
          let run = (intern at given).0 missing in
          rw run (
            insert_new-IsCounted at held held' valid counted attr missing
              (λ q. rw run at (after q)))
      | inr (p, found) ↦
          let run = (intern at given).1 p found in
          rw run (
            retain-IsCounted at held held' valid counted (hash_attributes attr) p
              (find_equal-some at.store attr home p found).0 (rw run at room)
              (λ q. rw run at (after q)))
    ]

pub new_attr_table-IsCounted : IsCounted new_attr_table (λ p. 0)
unfolding bucket occurrences
new_attr_table-IsCounted = record {
  small = λ p. omega arith;
  unique = λ h p. omega arith;
  exact = λ h p m. elim m [ ];
  listed = λ p h. elim h [ ];
}
