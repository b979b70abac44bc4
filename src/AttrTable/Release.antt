-- ===== src/AttrTable/Release.antt =====
-- release of hash.go and the invariant of the table.
use routing_table.Prelude.{
  ℕ, ◌-◌, ◌%◌, ◌^◌, ◌∙◌, leb, ◌≡◌, refl, inl, inr, Bool, false, ◌||◌, none, some, List, [], ◌∷◌,
  Has, ◌==◌, ==_iff, if◌then◌else◌, arith, Bool-cases, Option-cases, if_true, if_false,
}
use routing_table.Attrs.{Pointer, nil_pointer}
use routing_table.AttrTable.{
  AttrTable, Entries, bucket, delete_bucket, store_bucket, drop_pointer, remove_locked,
  set_ref_count, minus_one, release, release_count, release_n,
}
use routing_table.AttrTable.Buckets.{Same, bucket-set_bucket}
use routing_table.AttrTable.Insertion.{
  IsValid, set_ref_count-IsValid, write-Same, Same-refl, Same-trans,
}

pub bucket-delete_bucket :
    (h q : ℕ) (es : Entries) → bucket q (delete_bucket h es) ≡ (if h == q then [] else bucket q es)
unfolding bucket delete_bucket
bucket-delete_bucket h q [] = ground arith
bucket-delete_bucket h q ((k, list) ∷ es) = ground (arith, bucket-delete_bucket h q es)

pub bucket-store_bucket :
    (h q : ℕ) (list : List Pointer) (es : Entries)
    → bucket q (store_bucket h list es) ≡ (if h == q then list else bucket q es)
unfolding store_bucket
bucket-store_bucket h q [] es = bucket-delete_bucket h q es
bucket-store_bucket h q (p ∷ ps) es = bucket-set_bucket h q (p ∷ ps) es

unfoldable pub dropped : Pointer → List Pointer → List Pointer
dropped p [] = []
dropped p (q ∷ qs) = if q == p then qs else q ∷ dropped p qs

unfoldable pub listed : Pointer → List Pointer → Bool
listed p [] = false
listed p (q ∷ qs) = (q == p) || listed p qs

pub drop_pointer-dropped :
    (p : Pointer) (l : List Pointer)
    → drop_pointer p l ≡ (if listed p l then some (dropped p l) else none)
unfolding drop_pointer dropped listed
drop_pointer-dropped p [] = refl
drop_pointer-dropped p (q ∷ qs) = ground (arith, drop_pointer-dropped p qs)

pub dropped-Has : (p : Pointer) (l : List Pointer) (x : Pointer) → Has x (dropped p l) → Has x l
unfolding dropped
dropped-Has p [] x m = m
dropped-Has p (q ∷ qs) x m = elim (Bool-cases (q == p)) [
  | inl e ↦ inr (rw (if_true {A = List Pointer} qs (q ∷ dropped p qs) e) at m)
  | inr e ↦
      let m' : Has x (q ∷ dropped p qs) =
        rw (if_false {A = List Pointer} qs (q ∷ dropped p qs) e) at m in
      elim m' [ inl here ↦ inl here | inr there ↦ inr (dropped-Has p qs x there) ]
]

drop_pointer-some :
    (p : Pointer) (l l' : List Pointer) → drop_pointer p l ≡ some l' → l' ≡ dropped p l
drop_pointer-some p l l' h = ground (arith, drop_pointer-dropped p l)

drop_pointer-Has :
    (p : Pointer) (l l' : List Pointer) (x : Pointer)
    → drop_pointer p l ≡ some l'
    → Has x l'
    → Has x l
drop_pointer-Has p l l' x h m = dropped-Has p l x (rw (drop_pointer-some p l l' h) at m)

-- Fewer pointers in the buckets, and the same objects.
shrink-IsValid :
    (at : AttrTable) (es : Entries) (count bytes : ℕ)
    → IsValid at
    → ((h : ℕ) (p : Pointer) → Has p (bucket h es) → Has p (bucket h at.entries))
    → IsValid (record at { entries = es; attr_count = count; slice_bytes = bytes })
shrink-IsValid at es count bytes valid sub = record {
  fresh = valid.fresh;
  known = λ h p m. valid.known h p (sub h p m);
  hashed = λ h p m. valid.hashed h p (sub h p m);
  distinct = λ h p q mp mq s. valid.distinct h p q (sub h p mp) (sub h q mq) s;
}

pub remove_locked-IsValid :
    (at : AttrTable) (p : Pointer) → IsValid at → IsValid (remove_locked at p)
unfolding remove_locked
remove_locked-IsValid at p valid =
    let k = (at.store p).hash in
    elim (Option-cases (drop_pointer p (bucket k at.entries))) [
      | inl e ↦ rw (e, remove_locked) valid
      | inr (list, e) ↦
          rw (e, remove_locked)
            (shrink-IsValid at (store_bucket k list at.entries) _ _ valid
              (λ h q m. sub h q list e (rw (bucket-store_bucket k h list at.entries) at m)))
    ]
  where
    sub :
        (h : ℕ) (q : Pointer) (list : List Pointer)
        → drop_pointer p (bucket (at.store p).hash at.entries) ≡ some list
        → Has q (if (at.store p).hash == h then list else bucket h at.entries)
        → Has q (bucket h at.entries)
    sub h q list e m = elim (Bool-cases ((at.store p).hash == h)) [
      | inl same ↦
          let key : (at.store p).hash ≡ h = (==_iff (at.store p).hash h).0 same in
          rw (← key) (
            drop_pointer-Has p (bucket (at.store p).hash at.entries) list q e
              (rw (if_true {A = List Pointer} list (bucket h at.entries) same) at m))
      | inr other ↦ rw (if_false {A = List Pointer} list (bucket h at.entries) other) at m
    ]

pub remove_locked-store : (at : AttrTable) (p : Pointer) → (remove_locked at p).store ≡ at.store
unfolding remove_locked
remove_locked-store at p = ground arith

-- The tables that a call may leave: valid, with the attributes of every object as before.
pub record Keeps (at at' : AttrTable) : Type 0 where
  pub valid : IsValid at'
  pub same : (q : Pointer) → Same (at'.store q) (at.store q)
  pub next : at'.next ≡ at.next

pub set_ref_count-Keeps :
    (at : AttrTable) (p : Pointer) (n : ℕ) → IsValid at → Keeps at (set_ref_count at p n)
set_ref_count-Keeps at p n valid = record {
  valid = set_ref_count-IsValid at p n valid;
  same = λ q. (write-Same at.store p q n).0;
  next = refl;
}

remove_locked-next : (at : AttrTable) (p : Pointer) → (remove_locked at p).next ≡ at.next
unfolding remove_locked
remove_locked-next at p = ground arith

pub removed-Keeps :
    (at : AttrTable) (p : Pointer) (n : ℕ)
    → IsValid at
    → Keeps at (remove_locked (set_ref_count at p n) p)
removed-Keeps at p n valid =
    let at' = set_ref_count at p n in
    record {
      valid = remove_locked-IsValid at' p (set_ref_count-IsValid at p n valid);
      same = λ q. rw (remove_locked-store at' p) (write-Same at.store p q n).0;
      next = remove_locked-next at' p;
    }

pub Keeps-refl : (at : AttrTable) → IsValid at → Keeps at at
Keeps-refl at valid = record { valid = valid; same = λ q. Same-refl (at.store q); next = refl }

-- release keeps the table valid and changes no attributes.
pub release-Keeps : (at : AttrTable) (p : Pointer) → IsValid at → Keeps at (release at p)
unfolding release
release-Keeps at p valid =
    let n = minus_one (at.store p).ref_count in
    elim (Bool-cases (p == nil_pointer)) [
      | inl e ↦ rw e (Keeps-refl at valid)
      | inr e ↦ rw e (elim (Bool-cases (n == 0)) [
        | inl z ↦ rw z (removed-Keeps at p n valid)
        | inr z ↦ rw z (set_ref_count-Keeps at p n valid)
      ])
    ]

-- One round of releaseN keeps the table valid and changes no attributes.
pub release_count-Keeps :
    (at : AttrTable) (p : Pointer) (n : ℕ) → IsValid at → Keeps at (release_count at p n)
unfolding release_count
release_count-Keeps at p n valid = elim (Bool-cases (p == nil_pointer || n == 0)) [
  | inl e ↦ rw e (Keeps-refl at valid)
  | inr e ↦ rw e (elim (Bool-cases (leb (at.store p).ref_count (n % 2 ^ 32))) [
    | inl z ↦ rw z (removed-Keeps at p 0 valid)
    | inr z ↦ rw z (set_ref_count-Keeps at p ((at.store p).ref_count - n % 2 ^ 32) valid)
  ])
]

Keeps-trans : (a b c : AttrTable) → Keeps a b → Keeps b c → Keeps a c
Keeps-trans a b c h k = record {
  valid = k.valid;
  same = λ q. Same-trans (c.store q) (b.store q) (a.store q) (k.same q) (h.same q);
  next = k.next ∙ h.next;
}

pub release_n-Keeps :
    (at : AttrTable) (counts : List (Pointer × ℕ)) → IsValid at → Keeps at (release_n at counts)
unfolding release_n
release_n-Keeps at [] valid = Keeps-refl at valid
release_n-Keeps at ((p, n) ∷ counts) valid =
    let one = release_count-Keeps at p n valid in
    Keeps-trans at (release_count at p n) (release_n (release_count at p n) counts) one
      (release_n-Keeps (release_count at p n) counts one.valid)
