-- ===== src/AttrTable/Buckets.antt =====
-- Equality of attributes, and the map of buckets.
use routing_table.Prelude.{
  ℕ, ◌≡◌, refl, sym, ◌∙◌, inl, inr, true, false, none, some, List, [], ◌∷◌, Has, ◌==◌,
  if◌then◌else◌, arith, Bool-cases, if_false,
}
use routing_table.Attrs.{LargeCommunity, RouteAttributes, Pointer, Store}
use routing_table.AttrTable.{
  Entries, bucket, set_bucket, equal_numbers, equal_large, equal_attributes, find_equal,
}
use routing_table.AttrTable.Hash.{hash_attributes}

-- The same path attributes; the bookkeeping fields may differ.
pub record Same (a b : RouteAttributes) : Type 0 where
  pub as_path : a.as_path ≡ b.as_path
  pub communities : a.communities ≡ b.communities
  pub large_communities : a.large_communities ≡ b.large_communities
  pub local_pref : a.local_pref ≡ b.local_pref

equal_numbers-eq : (xs ys : List ℕ) → equal_numbers xs ys ≡ true → xs ≡ ys
unfolding equal_numbers
equal_numbers-eq [] [] h = refl
equal_numbers-eq [] (y ∷ ys) h = cc
equal_numbers-eq (x ∷ xs) [] h = cc
equal_numbers-eq (x ∷ xs) (y ∷ ys) h = ground (arith, equal_numbers-eq xs ys)

equal_numbers_refl : (xs : List ℕ) → equal_numbers xs xs ≡ true
unfolding equal_numbers
equal_numbers_refl [] = refl
equal_numbers_refl (x ∷ xs) = ground (arith, equal_numbers_refl xs)

equal_large-eq : (xs ys : List LargeCommunity) → equal_large xs ys ≡ true → xs ≡ ys
unfolding equal_large
equal_large-eq [] [] h = refl
equal_large-eq [] (y ∷ ys) h = cc
equal_large-eq (x ∷ xs) [] h = cc
equal_large-eq (x ∷ xs) (y ∷ ys) h = ground (arith, equal_large-eq xs ys)

equal_large_refl : (xs : List LargeCommunity) → equal_large xs xs ≡ true
unfolding equal_large
equal_large_refl [] = refl
equal_large_refl (x ∷ xs) = ground (arith, equal_large_refl xs)

pub equal_attributes-Same : (a b : RouteAttributes) → equal_attributes a b ≡ true → Same a b
unfolding equal_attributes
equal_attributes-Same a b h = ground (
  arith,
  equal_numbers-eq a.as_path b.as_path,
  equal_numbers-eq a.communities b.communities,
  equal_large-eq a.large_communities b.large_communities,
)

pub Same-equal_attributes : (a b : RouteAttributes) → Same a b → equal_attributes a b ≡ true
unfolding equal_attributes
Same-equal_attributes a b s =
    rw (s.as_path, s.communities, s.large_communities, s.local_pref)
      (ground (
        arith,
        equal_numbers_refl b.as_path,
        equal_numbers_refl b.communities,
        equal_large_refl b.large_communities,
      ))

-- The hash is a function of what equalAttributes compares.
pub hash_attributes-Same :
    (a b : RouteAttributes) → Same a b → hash_attributes a ≡ hash_attributes b
unfolding hash_attributes
hash_attributes-Same a b s = rw (s.as_path, s.communities, s.large_communities, s.local_pref)

pub bucket-set_bucket :
    (h q : ℕ) (new : List Pointer) (es : Entries)
    → bucket q (set_bucket h new es) ≡ (if h == q then new else bucket q es)
unfolding bucket set_bucket
bucket-set_bucket h q new [] = refl
bucket-set_bucket h q new ((k, list) ∷ es) = ground (arith, bucket-set_bucket h q new es)

pub find_equal-some :
    (store : Store) (attr : RouteAttributes) (ps : List Pointer) (p : Pointer)
    → find_equal store attr ps ≡ some p
    → Has p ps × (equal_attributes (store p) attr ≡ true)
unfolding find_equal
find_equal-some store attr [] p h = cc
find_equal-some store attr (q ∷ ps) p h = elim (Bool-cases (equal_attributes (store q) attr)) [
  | inl e ↦ let same : q ≡ p = ground arith in (inl (sym same), rw (← same) e)
  | inr e ↦ let (m, eq) = find_equal-some store attr ps p (sym (if_false _ _ e) ∙ h) in (inr m, eq)
]

pub find_equal-none :
    (store : Store) (attr : RouteAttributes) (ps : List Pointer) (p : Pointer)
    → find_equal store attr ps ≡ none
    → Has p ps
    → equal_attributes (store p) attr ≡ false
unfolding find_equal
find_equal-none store attr [] p h m = elim m [ ]
find_equal-none store attr (q ∷ ps) p h (inl e) = rw e (ground arith)
find_equal-none store attr (q ∷ ps) p h (inr m) = ground (arith, find_equal-none store attr ps p)
