-- ===== src/AttrTable/Insertion.antt =====
-- getOrInsert of hash.go.
use routing_table.Prelude.{
  ℕ, ◌+◌, ◌%◌, ◌^◌, ◌≡◌, ◌≢◌, refl, sym, ◌∙◌, ◌⊎◌, inl, inr, Option, none, some, List, [], ◌∷◌,
  ◌++◌, Has, append-Has, Has-append_right, ◌==◌, ==_iff, arith, Bool-cases, Option-cases, if_true,
  if_false,
}
use routing_table.Attrs.{RouteAttributes, Pointer, Store}
use routing_table.AttrTable.{
  AttrTable, new_attr_table, bucket, find_equal, write, copy_attributes, insert_new, retain,
  get_or_insert,
}
use routing_table.AttrTable.Hash.{hash_attributes}
use routing_table.AttrTable.Buckets.{
  Same, equal_attributes-Same, Same-equal_attributes, hash_attributes-Same, bucket-set_bucket,
  find_equal-some, find_equal-none,
}
pub use routing_table.AttrTable.Invariant.{
  IsValid, given_or_empty, Interns, Same-refl, Same-symm, Same-trans, write-Same,
  set_ref_count-IsValid,
}

-- The object found in the bucket.
existing-Interns :
    (at : AttrTable) (given : Option RouteAttributes) (p : Pointer)
    → IsValid at
    → find_equal at.store
        (given_or_empty given)
        (bucket (hash_attributes (given_or_empty given)) at.entries)
      ≡ some p
    → get_or_insert at given ≡ (retain at p, p)
    → Interns at given
unfolding retain
existing-Interns at given p valid found run =
    let attr = given_or_empty given in
    let h = hash_attributes attr in
    let n = ((at.store p).ref_count + 1) % 2 ^ 32 in
    let (m, eq) = find_equal-some at.store attr (bucket h at.entries) p found in
    let same = equal_attributes-Same (at.store p) attr eq in
    record {
      valid = rw run (set_ref_count-IsValid at p n valid);
      present = rw run (λ z. ground (arith, valid.known h p m));
      listed = rw run m;
      content = rw run (Same-trans _ (at.store p) attr (write-Same at.store p p n).0 same);
      shared = λ k q mk s.
          let home : k ≡ h =
            sym (valid.hashed k q mk).1 ∙ hash_attributes-Same (at.store q) attr s in
          rw run (
            valid.distinct h p q m (rw (← home) mk)
              (Same-trans (at.store p) attr (at.store q) same (Same-symm (at.store q) attr s)));
      others = λ q lt. rw run ((write-Same at.store p q n).0, λ ne. ground arith);
    }

-- A write to a fresh address.
pub write_ne :
    (store : Store) (p q : Pointer) (a : RouteAttributes) → q ≢ p → write store p a q ≡ store q
write_ne store p q a ne = ground arith

pub write_self : (store : Store) (p : Pointer) (a : RouteAttributes) → write store p a p ≡ a
write_self store p a = ground arith

-- A new object in the bucket of its hash.
module _ (at : AttrTable) (valid : IsValid at) (attr : RouteAttributes)
    (missing : find_equal at.store attr (bucket (hash_attributes attr) at.entries) ≡ none) where
  pub new_members :
      (k : ℕ) (p : Pointer)
      → Has p (bucket k (insert_new at attr (hash_attributes attr)).0.entries)
      → Has p (bucket k at.entries) ⊎ ((p ≡ at.next) × (k ≡ hash_attributes attr))
  unfolding insert_new
  new_members k p m =
      let h = hash_attributes attr in
      let m' = rw (bucket-set_bucket h k (bucket h at.entries ++ (at.next ∷ [])) at.entries) at m in
      elim (Bool-cases (h == k)) [
        | inr e ↦ inl (
            rw
              (if_false {A = List Pointer} (bucket h at.entries ++ (at.next ∷ []))
                (bucket k at.entries) e)
              at m')
        | inl e ↦
            let same : h ≡ k = (==_iff h k).0 e in
            let m'' =
              rw
                (if_true {A = List Pointer} (bucket h at.entries ++ (at.next ∷ []))
                  (bucket k at.entries) e)
                at m' in
            elim (append-Has p (bucket h at.entries) (at.next ∷ []) m'') [
              | inl old ↦ inl (rw (← same) old)
              | inr (inl new) ↦ inr (new, sym same)
              | inr (inr none_left) ↦ elim none_left [ ]
            ]
      ]

  pub new_listed :
      Has at.next
        (bucket (hash_attributes attr) (insert_new at attr (hash_attributes attr)).0.entries)
  unfolding insert_new
  new_listed =
      let h = hash_attributes attr in
      rw
        (
          bucket-set_bucket h h (bucket h at.entries ++ (at.next ∷ [])) at.entries,
          if_true {A = List Pointer} (bucket h at.entries ++ (at.next ∷ [])) (bucket h at.entries)
              ((==_iff h h).1 refl),
        )
        (Has-append_right at.next (bucket h at.entries) (at.next ∷ []) (inl refl))

  -- The store after it.
  new_store : Store
  new_store = write at.store at.next (copy_attributes attr (hash_attributes attr))

  old_kept : (k : ℕ) (p : Pointer) → Has p (bucket k at.entries) → new_store p ≡ at.store p
  unfolding new_store
  old_kept k p m =
      write_ne at.store at.next p _ (let lt = (valid.known k p m).1 in λ e. absurd (omega arith))

  no_equal :
      (k : ℕ) (p : Pointer)
      → Has p (bucket k at.entries)
      → k ≡ hash_attributes attr
      → ¬ Same (at.store p) attr
  no_equal k p m e s = cc (
    find_equal-none at.store attr (bucket (hash_attributes attr) at.entries) p missing (rw (← e) m),
    Same-equal_attributes (at.store p) attr s,
  )

  insert_new-IsValid : IsValid (insert_new at attr (hash_attributes attr)).0
  unfolding insert_new new_store
  insert_new-IsValid =
      let h = hash_attributes attr in
      let copy = copy_attributes attr h in
      let new = write_self at.store at.next copy in
      let same : Same copy attr = record {
        as_path = refl;
        communities = refl;
        large_communities = refl;
        local_pref = refl;
      } in
      record {
        fresh = omega (arith, valid.fresh);
        known = λ k p m. elim (new_members k p m) [
          | inl old ↦ let (a, b) = valid.known k p old in (a, omega arith)
          | inr (e, _) ↦ rw e (valid.fresh, omega arith)
        ];
        hashed = λ k p m. elim (new_members k p m) [
          | inl old ↦ rw (old_kept k p old) (valid.hashed k p old)
          | inr (e, key) ↦ rw (e, new, key) (refl, hash_attributes-Same copy attr same)
        ];
        distinct = λ k p q mp mq s. elim (new_members k p mp) [
          | inl oldp ↦ elim (new_members k q mq) [
            | inl oldq ↦
                valid.distinct k p q oldp oldq (rw (old_kept k p oldp, old_kept k q oldq) at s)
            | inr (eq, key) ↦ absurd (
                no_equal k p oldp key
                  (Same-trans (at.store p) copy attr (rw (old_kept k p oldp, eq, new) at s) same))
          ]
          | inr (ep, key) ↦ elim (new_members k q mq) [
            | inl oldq ↦ absurd (
                no_equal k q oldq key (
                  Same-trans (at.store q) copy attr
                    (Same-symm copy (at.store q) (rw (ep, new, old_kept k q oldq) at s)) same))
            | inr (eq, _) ↦ ep ∙ sym eq
          ]
        ];
      }

fresh-Interns :
    (at : AttrTable) (given : Option RouteAttributes)
    → IsValid at
    → find_equal at.store
        (given_or_empty given)
        (bucket (hash_attributes (given_or_empty given)) at.entries)
      ≡ none
    → get_or_insert at given
      ≡ insert_new at (given_or_empty given) (hash_attributes (given_or_empty given))
    → Interns at given
unfolding new_store insert_new
fresh-Interns at given valid missing run =
    let attr = given_or_empty given in
    let h = hash_attributes attr in
    let copy = copy_attributes attr h in
    record {
      valid = rw run (insert_new-IsValid at valid attr missing);
      present = rw run (λ z. absurd (omega (arith, valid.fresh)));
      listed = rw run (new_listed at valid attr missing);
      content =
          rw (run, write_self at.store at.next copy)
            (record {
              as_path = refl;
              communities = refl;
              large_communities = refl;
              local_pref = refl;
            });
      shared = λ k q m s.
          let home : k ≡ h =
            sym (valid.hashed k q m).1 ∙ hash_attributes-Same (at.store q) attr s in
          absurd (no_equal at valid attr missing k q m home s);
      others = λ q lt.
          let kept = write_ne at.store at.next q copy (λ e. absurd (omega arith)) in
          rw run (rw kept (Same-refl (at.store q)), λ ne. kept);
    }

pub intern :
    (at : AttrTable) (given : Option RouteAttributes)
    → (find_equal at.store
            (given_or_empty given)
            (bucket (hash_attributes (given_or_empty given)) at.entries)
          ≡ none
        → get_or_insert at given
          ≡ insert_new at (given_or_empty given) (hash_attributes (given_or_empty given)))
      × ((p : Pointer)
          → find_equal at.store
              (given_or_empty given)
              (bucket (hash_attributes (given_or_empty given)) at.entries)
            ≡ some p
          → get_or_insert at given ≡ (retain at p, p))
unfolding get_or_insert
intern at none = ((λ e. rw (e, get_or_insert)), λ p e. rw (e, get_or_insert))
intern at (some a) = ((λ e. rw (e, get_or_insert)), λ p e. rw (e, get_or_insert))

-- getOrInsert on a valid table keeps it valid and returns a pointer that is not nil and stands in
-- the bucket of its hash. The object holds the attributes given. If an object with the same
-- attributes was in the table, that object is returned; every object allocated before keeps its
-- attributes, and all but the one returned are unchanged.
pub get_or_insert-Interns :
    (at : AttrTable) (given : Option RouteAttributes) → IsValid at → Interns at given
get_or_insert-Interns at given valid =
    let attr = given_or_empty given in
    elim (Option-cases (find_equal at.store attr (bucket (hash_attributes attr) at.entries))) [
      | inl missing ↦ fresh-Interns at given valid missing ((intern at given).0 missing)
      | inr (p, found) ↦ existing-Interns at given p valid found ((intern at given).1 p found)
    ]

pub new_attr_table-IsValid : IsValid new_attr_table
unfolding bucket
new_attr_table-IsValid = record {
  fresh = omega arith;
  known = λ h p m. elim m [ ];
  hashed = λ h p m. elim m [ ];
  distinct = λ h p q m. elim m [ ];
}
