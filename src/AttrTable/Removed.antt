-- ===== src/AttrTable/Removed.antt =====
-- What removeLocked leaves in the buckets.
use routing_table.Prelude.{
  ℕ, ◌+◌, ◌≤◌, ◌≡◌, ◌≢◌, sym, ◌∙◌, inl, inr, true, some, List, [], ◌∷◌, Has, ◌==◌, ==_iff,
  if◌then◌else◌, arith, Bool-cases, if_true, if_false,
}
use routing_table.Attrs.{Pointer}
use routing_table.AttrTable.{
  AttrTable, bucket, drop_pointer, store_bucket, remove_locked, set_ref_count,
}
use routing_table.AttrTable.Insertion as Insertion
use routing_table.AttrTable.Insertion.{write-Same, set_ref_count-IsValid}
use routing_table.AttrTable.Release.{
  bucket-store_bucket, drop_pointer-dropped, dropped-Has, dropped, listed,
}

unfoldable pub occurrences : Pointer → List Pointer → ℕ
occurrences p [] = 0
occurrences p (q ∷ qs) = (if q == p then 1 else 0) + occurrences p qs

pub occurrences_pos : (p : Pointer) (l : List Pointer) → Has p l → 1 ≤ occurrences p l
unfolding occurrences
occurrences_pos p [] m = elim m [ ]
occurrences_pos p (q ∷ qs) (inl e) = rw e (ground arith)
occurrences_pos p (q ∷ qs) (inr m) = omega (arith, occurrences_pos p qs m)

listed-occurs : (p : Pointer) (l : List Pointer) → 1 ≤ occurrences p l → listed p l ≡ true
unfolding occurrences listed
listed-occurs p [] h = elim h [ ]
listed-occurs p (q ∷ qs) h = ground (arith, listed-occurs p qs)

dropped-occurrences :
    (p q : Pointer) (l : List Pointer)
    → 1 ≤ occurrences p l
    → occurrences q (dropped p l) + (if p == q then 1 else 0) ≡ occurrences q l
unfolding occurrences dropped
dropped-occurrences p q [] h = elim h [ ]
dropped-occurrences p q (x ∷ xs) h = ground (arith, dropped-occurrences p q xs)

dropped_self :
    (p : Pointer) (l : List Pointer)
    → 1 ≤ occurrences p l
    → occurrences p (dropped p l) + 1 ≡ occurrences p l
dropped_self p l h = ground (arith, dropped-occurrences p p l h)

Has-dropped : (p q : Pointer) (l : List Pointer) → Has q l → p ≢ q → Has q (dropped p l)
unfolding dropped
Has-dropped p q [] m ne = m
Has-dropped p q (x ∷ xs) (inl e) ne = elim (Bool-cases (x == p)) [
  | inl same ↦ absurd (ne (ground arith))
  | inr other ↦ rw other (inl e)
]
Has-dropped p q (x ∷ xs) (inr m) ne = elim (Bool-cases (x == p)) [
  | inl same ↦ rw same m
  | inr other ↦ rw other (inr (Has-dropped p q xs m ne))
]

remove_locked-some :
    (at : AttrTable) (p : Pointer) (k : ℕ) (l : List Pointer)
    → (at.store p).hash ≡ k
    → drop_pointer p (bucket k at.entries) ≡ some l
    → (remove_locked at p).entries ≡ store_bucket k l at.entries
unfolding remove_locked
remove_locked-some at p k l e h = rw (← e) (rw (rw (← e) at h, remove_locked))

-- An object of the table is removed from its bucket.
module _ (at : AttrTable) (p : Pointer) (there : Has p (bucket (at.store p).hash at.entries)) where
  home : List Pointer
  home = bucket (at.store p).hash at.entries

  found : drop_pointer p home ≡ some (dropped p home)
  unfolding home
  found =
      drop_pointer-dropped p (bucket (at.store p).hash at.entries)
      ∙ if_true _ _ (
          listed-occurs p (bucket (at.store p).hash at.entries)
            (occurrences_pos p (bucket (at.store p).hash at.entries) there))

  pub remove_locked-entries :
      (n : ℕ)
      → (remove_locked (set_ref_count at p n) p).entries
        ≡ store_bucket
            (at.store p).hash
            (dropped p (bucket (at.store p).hash at.entries))
            at.entries
  unfolding home
  remove_locked-entries n =
      remove_locked-some (set_ref_count at p n) p (at.store p).hash (dropped p home)
        (write-Same at.store p p n).1 found

  removed_bucket :
      (h : ℕ)
      → bucket h (remove_locked (set_ref_count at p 0) p).entries
        ≡ (if (at.store p).hash == h then dropped p home else bucket h at.entries)
  unfolding home
  removed_bucket h = rw (remove_locked-entries 0) (
      bucket-store_bucket (at.store p).hash h (dropped p (bucket (at.store p).hash at.entries))
        at.entries)

  pub removed_occurs :
      (h : ℕ) (q : Pointer)
      → occurrences q (bucket h (remove_locked (set_ref_count at p 0) p).entries)
        ≤ occurrences q (bucket h at.entries)
  unfolding home
  removed_occurs h q = elim (Bool-cases ((at.store p).hash == h)) [
    | inl e ↦
        let same : (at.store p).hash ≡ h = (==_iff (at.store p).hash h).0 e in
        rw (removed_bucket h, e, ← same)
          (omega (arith, dropped-occurrences p q home (occurrences_pos p home there)))
    | inr e ↦ rw (removed_bucket h, e) (omega arith)
  ]

  pub removed-Has :
      Insertion.IsValid at
      → occurrences p (bucket (at.store p).hash at.entries) ≤ 1
      → (h : ℕ) (q : Pointer) → Has q (bucket h (remove_locked (set_ref_count at p 0) p).entries)
      → Has q (bucket h at.entries) × (q ≢ p)
  unfolding home
  removed-Has valid once h q m = elim (Bool-cases ((at.store p).hash == h)) [
    | inl e ↦
        let same : (at.store p).hash ≡ h = (==_iff (at.store p).hash h).0 e in
        let m' : Has q (dropped p home) = rw (removed_bucket h ∙ if_true _ _ e) at m in
        (
          rw (← same) (dropped-Has p home q m'),
          λ z. absurd (
              omega (
                arith,
                occurrences_pos p (dropped p home) (rw z at m'),
                dropped_self p home (occurrences_pos p home there),
              )),
        )
    | inr e ↦
        let m' : Has q (bucket h at.entries) = rw (removed_bucket h ∙ if_false _ _ e) at m in
        (m', λ z. absurd (ground (arith, rw z at (valid.hashed h q m').0)))
  ]

  pub Has-removed :
      (h : ℕ) (q : Pointer)
      → Has q (bucket h at.entries)
      → q ≢ p
      → Has q (bucket h (remove_locked (set_ref_count at p 0) p).entries)
  unfolding home
  Has-removed h q m ne = elim (Bool-cases ((at.store p).hash == h)) [
    | inl e ↦
        let same : (at.store p).hash ≡ h = (==_iff (at.store p).hash h).0 e in
        rw (removed_bucket h, e) (Has-dropped p q home (rw same m) (λ z. ne (sym z)))
    | inr e ↦ rw (removed_bucket h, e) m
  ]
