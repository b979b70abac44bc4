-- ===== src/AttrTable/Counted.antt =====
-- The reference counts of the table against the references that are held outside it.
use routing_table.Prelude.{
  ℕ, ◌+◌, ◌-◌, ◌≤◌, ◌<◌, ◌%◌, ◌^◌, ◌≡◌, inl, inr, true, false, List, [], ◌∷◌, Has, leb, ◌||◌, ◌==◌,
  ==_iff, if◌then◌else◌, arith, Bool-cases,
}
use routing_table.Attrs.{Pointer, nil_pointer}
use routing_table.AttrTable.{
  AttrTable, bucket, remove_locked, set_ref_count, minus_one, release, release_count, release_n,
}
use routing_table.AttrTable.Insertion as Insertion
use routing_table.AttrTable.Insertion.{write-Same, set_ref_count-IsValid}
use routing_table.AttrTable.Release.{remove_locked-store, release_count-Keeps}
use routing_table.AttrTable.Removed.{occurrences, removed_occurs, removed-Has, Has-removed}

-- `held p` references to each object p are held: an object that is held is in the table, and an
-- object of the table is held as often as its count says, and once in its bucket.
pub record IsCounted (at : AttrTable) (held : Pointer → ℕ) : Type 0 where
  pub small : (p : Pointer) → held p < 2 ^ 32
  pub unique : (h : ℕ) (p : Pointer) → occurrences p (bucket h at.entries) ≤ 1
  pub exact :
      (h : ℕ) (p : Pointer)
      → Has p (bucket h at.entries)
      → ((at.store p).ref_count ≡ held p) × (1 ≤ held p)
  pub listed : (p : Pointer) → 1 ≤ held p → Has p (bucket (at.store p).hash at.entries)

-- m references to an object are left, the others are dropped.
module _ (at : AttrTable) (p : Pointer) (m : ℕ) (held held' : Pointer → ℕ)
    (valid : Insertion.IsValid at) (counted : IsCounted at held) (some_held : 1 ≤ held p)
    (fewer : m ≤ held p) (after : (q : Pointer) → held' q ≡ (if q == p then m else held q)) where
  smaller : (q : Pointer) → held' q < 2 ^ 32
  smaller q = rw (after q) (ground (arith, counted.small q, counted.small p))

  set_ref_count-IsCounted : 1 ≤ m → IsCounted (set_ref_count at p m) held'
  set_ref_count-IsCounted pos = record {
    small = smaller;
    unique = counted.unique;
    exact = λ h q there. rw (after q) (ground (arith, counted.exact h q there));
    listed = λ q h. rw (write-Same at.store p q m).1 (counted.listed q (ground (arith, after q)));
  }

  remove_locked-IsCounted : m ≡ 0 → IsCounted (remove_locked (set_ref_count at p 0) p) held'
  remove_locked-IsCounted zero_left =
      let there : Has p (bucket (at.store p).hash at.entries) = counted.listed p some_held in
      let once = counted.unique (at.store p).hash p in
      record {
        small = smaller;
        unique = λ h q. omega (arith, removed_occurs at p there h q, counted.unique h q);
        exact = λ h q here.
            let (old, ne) = removed-Has at p there valid once h q here in
            rw (remove_locked-store (set_ref_count at p 0) p, after q)
              (ground (arith, counted.exact h q old));
        listed = λ q h.
            rw (remove_locked-store (set_ref_count at p 0) p, (write-Same at.store p q 0).1)
              (Has-removed at p there (at.store q).hash q
                (counted.listed q (ground (arith, after q))) (λ e. ground (arith, after q)));
      }

pub IsCounted-same :
    (at : AttrTable) (held held' : Pointer → ℕ)
    → ((q : Pointer) → held' q ≡ held q)
    → IsCounted at held
    → IsCounted at held'
IsCounted-same at held held' same counted = record {
  small = λ p. rw (same p) (counted.small p);
  unique = counted.unique;
  exact = λ h p m. rw (same p) (counted.exact h p m);
  listed = λ p h. counted.listed p (rw (same p) at h);
}

module _ (at : AttrTable) (held held' : Pointer → ℕ) (valid : Insertion.IsValid at)
    (counted : IsCounted at held) where
  some-present : (p : Pointer) → 1 ≤ held p → 1 ≤ p
  some-present p h = (valid.known (at.store p).hash p (counted.listed p h)).0

  counts_held : (p : Pointer) → 1 ≤ held p → (at.store p).ref_count ≡ held p
  counts_held p h = (counted.exact (at.store p).hash p (counted.listed p h)).0

  -- release drops one reference that is held.
  pub release-IsCounted :
      (p : Pointer)
      → ((q : Pointer) → held' q + (if p == q then 1 else 0) ≡ held q)
      → IsCounted (release at p) held'
  unfolding release
  release-IsCounted p after =
      let one : 1 ≤ held p = ground (arith, after p) in
      let pos = some-present p one in
      let was = counts_held p one in
      let lt = counted.small p in
      let left : minus_one (at.store p).ref_count ≡ held p - 1 = rw was (omega arith) in
      let after' : (q : Pointer) → held' q ≡ (if q == p then held p - 1 else held q) =
        λ q. ground (arith, after q) in
      let here : (p == nil_pointer) ≡ false = ground arith in
      elim (Bool-cases (held p - 1 == 0)) [
        | inl e ↦
            let z : held p - 1 ≡ 0 = (==_iff (held p - 1) 0).0 e in
            rw (here, left, e, z)
              (remove_locked-IsCounted at p (held p - 1) held held' valid counted one (omega arith)
                after' z)
        | inr e ↦
            rw (here, left, e)
              (set_ref_count-IsCounted at p (held p - 1) held held' valid counted one (omega arith)
                after' (ground arith))
      ]

  -- A round of releaseN drops as many references as it says, if so many are held.
  pub release_count-IsCounted :
      (p : Pointer) (n : ℕ)
      → ((q : Pointer) → held' q + (if p == q then n else 0) ≡ held q)
      → IsCounted (release_count at p n) held'
  unfolding release_count
  release_count-IsCounted p n after = elim (Bool-cases (n == 0)) [
    | inl e ↦
        let none_left : n ≡ 0 = (==_iff n 0).0 e in
        let skip : ((p == nil_pointer) || (n == 0)) ≡ true = ground arith in
        rw skip (IsCounted-same at held held' (λ q. ground (arith, after q)) counted)
    | inr e ↦
        let le : n ≤ held p = ground (arith, after p) in
        let pos = some-present p (ground arith) in
        let was = counts_held p (ground arith) in
        let lt = counted.small p in
        let num : n % 2 ^ 32 ≡ n = omega arith in
        let after' : (q : Pointer) → held' q ≡ (if q == p then held p - n else held q) =
          λ q. ground (arith, after q) in
        let go_on : ((p == nil_pointer) || (n == 0)) ≡ false = ground arith in
        elim (Bool-cases (leb (held p) n)) [
          | inl z ↦
              rw (go_on, num, was, z)
                (remove_locked-IsCounted at p (held p - n) held held' valid counted (ground arith)
                  (omega arith) after' (ground arith))
          | inr z ↦
              rw (go_on, num, was, z)
                (set_ref_count-IsCounted at p (held p - n) held held' valid counted (ground arith)
                  (omega arith) after' (ground arith))
        ]
  ]

-- The references to an object that a map of counts drops.
unfoldable pub amount : Pointer → List (Pointer × ℕ) → ℕ
amount q [] = 0
amount q ((p, n) ∷ counts) = (if p == q then n else 0) + amount q counts

-- releaseN drops the references of the map, where so many are held.
pub release_n-IsCounted :
    (counts : List (Pointer × ℕ)) (at : AttrTable) (held held' : Pointer → ℕ)
    → Insertion.IsValid at
    → IsCounted at held
    → ((q : Pointer) → held' q + amount q counts ≡ held q)
    → IsCounted (release_n at counts) held'
unfolding release_n amount
release_n-IsCounted [] at held held' valid counted after =
    IsCounted-same at held held' (λ q. omega (arith, after q)) counted
release_n-IsCounted ((p, n) ∷ counts) at held held' valid counted after =
    let mid : Pointer → ℕ = λ q. held q - (if p == q then n else 0) in
    release_n-IsCounted counts (release_count at p n) mid held'
      (release_count-Keeps at p n valid).valid
      (release_count-IsCounted at held mid valid counted p n (λ q. omega (arith, after q)))
      (λ q. omega (arith, after q))
