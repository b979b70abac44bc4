-- ===== src/AttrTable/Accounts.antt =====
-- Sums over the objects of the table, and the keys of its map.
use routing_table.Prelude.{
  ℕ, ◌+◌, ◌≤◌, ◌≡◌, refl, true, ◌&&◌, List, [], ◌∷◌, ◌++◌, ◌==◌, if◌then◌else◌, arith,
}
use routing_table.Attrs.{Pointer}
use routing_table.AttrTable.{Entries, bucket, set_bucket, delete_bucket, store_bucket}
use routing_table.AttrTable.Release.{dropped, listed}

module _ (w : Pointer → ℕ) where
  -- Sums over the pointers of a bucket, and over those of the whole map.
  unfoldable pub bucket_sum : List Pointer → ℕ
  bucket_sum [] = 0
  bucket_sum (p ∷ ps) = w p + bucket_sum ps

  unfoldable pub table_sum : Entries → ℕ
  unfolding bucket_sum
  table_sum [] = 0
  table_sum ((h, list) ∷ es) = bucket_sum list + table_sum es

-- The entries of the association list with a key.
unfoldable pub key_count : ℕ → Entries → ℕ
key_count h [] = 0
key_count h ((k, list) ∷ es) = (if k == h then 1 else 0) + key_count h es

module _ (w : Pointer → ℕ) where
  pub bucket_sum-append :
      (ps : List Pointer) (p : Pointer) → bucket_sum w (ps ++ (p ∷ [])) ≡ bucket_sum w ps + w p
  unfolding bucket_sum
  bucket_sum-append [] p = omega arith
  bucket_sum-append (q ∷ ps) p = omega (arith, bucket_sum-append ps p)

  pub bucket_sum-dropped :
      (p : Pointer) (l : List Pointer)
      → listed p l ≡ true
      → bucket_sum w (dropped p l) + w p ≡ bucket_sum w l
  unfolding bucket_sum dropped listed
  bucket_sum-dropped p [] h = cc
  bucket_sum-dropped p (q ∷ qs) h = ground (arith, bucket_sum-dropped p qs)

  pub set_bucket-sum :
      (h : ℕ) (new : List Pointer) (es : Entries)
      → table_sum w (set_bucket h new es) + bucket_sum w (bucket h es)
        ≡ table_sum w es + bucket_sum w new
  unfolding set_bucket bucket table_sum bucket_sum
  set_bucket-sum h new [] = omega arith
  set_bucket-sum h new ((k, list) ∷ es) = ground (arith, set_bucket-sum h new es)

  delete_bucket-none :
      (h : ℕ) (es : Entries)
      → key_count h es ≡ 0
      → table_sum w (delete_bucket h es) ≡ table_sum w es
  unfolding delete_bucket table_sum key_count
  delete_bucket-none h [] z = refl
  delete_bucket-none h ((k, list) ∷ es) z = ground (arith, delete_bucket-none h es)

  delete_bucket-sum :
      (h : ℕ) (es : Entries)
      → key_count h es ≤ 1
      → table_sum w (delete_bucket h es) + bucket_sum w (bucket h es) ≡ table_sum w es
  unfolding delete_bucket bucket table_sum key_count bucket_sum
  delete_bucket-sum h [] le = refl
  delete_bucket-sum h ((k, list) ∷ es) le =
      ground (arith, delete_bucket-sum h es, delete_bucket-none h es)

  pub store_bucket-sum :
      (h : ℕ) (list : List Pointer) (es : Entries)
      → key_count h es ≤ 1
      → table_sum w (store_bucket h list es) + bucket_sum w (bucket h es)
        ≡ table_sum w es + bucket_sum w list
  unfolding store_bucket bucket_sum
  store_bucket-sum h [] es le = omega (arith, delete_bucket-sum h es le)
  store_bucket-sum h (p ∷ ps) es le = set_bucket-sum h (p ∷ ps) es

set_bucket-keys :
    (h q : ℕ) (new : List Pointer) (es : Entries)
    → key_count q (set_bucket h new es)
      ≤ key_count q es + (if (key_count h es == 0) && (h == q) then 1 else 0)
unfolding set_bucket key_count
set_bucket-keys h q new [] = ground arith
set_bucket-keys h q new ((k, list) ∷ es) = ground (arith, set_bucket-keys h q new es)

delete_bucket-keys : (h q : ℕ) (es : Entries) → key_count q (delete_bucket h es) ≤ key_count q es
unfolding delete_bucket key_count
delete_bucket-keys h q [] = omega arith
delete_bucket-keys h q ((k, list) ∷ es) = ground (arith, delete_bucket-keys h q es)

abbrev pub AreDistinct : Entries → Type 0
AreDistinct es = (h : ℕ) → key_count h es ≤ 1

pub set_bucket-AreDistinct :
    (h : ℕ) (new : List Pointer) (es : Entries) → AreDistinct es → AreDistinct (set_bucket h new es)
set_bucket-AreDistinct h new es d q = ground (arith, set_bucket-keys h q new es, d q)

pub store_bucket-AreDistinct :
    (h : ℕ) (list : List Pointer) (es : Entries)
    → AreDistinct es
    → AreDistinct (store_bucket h list es)
unfolding store_bucket
store_bucket-AreDistinct h [] es d q = omega (arith, delete_bucket-keys h q es, d q)
store_bucket-AreDistinct h (p ∷ ps) es d q = set_bucket-AreDistinct h (p ∷ ps) es d q
