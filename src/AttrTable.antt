-- ===== src/AttrTable.antt =====
-- hash.go: the table that keeps one object for all equal attributes and counts the references to it.
-- A lock is held over each call of it, so a call is one step. An object is allocated at a fresh
-- address; the objects stand in `store`.
pub mod Hash
pub mod Buckets
pub mod Invariant
pub mod Insertion
pub mod Release
pub mod Removed
pub mod Counted
pub mod Acquired
pub mod Accounts
pub mod Accounted
use routing_table.Prelude.{
  ℕ, zero, suc, ◌+◌, ◌-◌, ◌*◌, ◌%◌, ◌^◌, Bool, true, false, ◌&&◌, ◌||◌, Option, none, some, List,
  [], ◌∷◌, ◌++◌, length, ltb, leb, ◌==◌, if◌then◌else◌,
}
use routing_table.Prelude.Word.{add64, sub64}
use routing_table.Attrs.{
  LargeCommunity, RouteAttributes, no_attributes, Pointer, nil_pointer, Store, large_eq,
}
use routing_table.Attrs.Text.{format_as_path}
use Hash.{hash_attributes}

-- `AttrTable`; `entries` is the Go map, an association list with each hash once. `next` is the next
-- fresh address.
pub record AttrTable : Type 0 where
  pub entries : List (ℕ × List Pointer)
  pub store : Store
  pub next : Pointer
  pub attr_count : ℕ
  pub slice_bytes : ℕ

-- `NewAttrTable`
abbrev pub new_attr_table : AttrTable
new_attr_table = record {
  entries = [];
  store = λ p. no_attributes;
  next = 1;
  attr_count = 0;
  slice_bytes = 0;
}

abbrev pub Entries : Type 0
Entries = List (ℕ × List Pointer)

-- `at.entries[h]`, `at.entries[h] = list` and `delete(at.entries, h)`
unfoldable pub bucket : ℕ → Entries → List Pointer
bucket h [] = []
bucket h ((k, list) ∷ es) = if k == h then list else bucket h es

unfoldable pub set_bucket : ℕ → List Pointer → Entries → Entries
set_bucket h new [] = (h, new) ∷ []
set_bucket h new ((k, list) ∷ es) =
    if k == h then (k, new) ∷ es else (k, list) ∷ set_bucket h new es

unfoldable pub delete_bucket : ℕ → Entries → Entries
delete_bucket h [] = []
delete_bucket h ((k, list) ∷ es) =
    let rest = delete_bucket h es in if k == h then rest else (k, list) ∷ rest

-- `Len`
unfoldable pub len : AttrTable → ℕ
len at = length at.entries

-- The loop that compares two slices of the same length.
unfoldable pub equal_numbers : List ℕ → List ℕ → Bool
equal_numbers [] [] = true
equal_numbers [] (y ∷ ys) = false
equal_numbers (x ∷ xs) [] = false
equal_numbers (x ∷ xs) (y ∷ ys) = (x == y) && equal_numbers xs ys

unfoldable pub equal_large : List LargeCommunity → List LargeCommunity → Bool
equal_large [] [] = true
equal_large [] (y ∷ ys) = false
equal_large (x ∷ xs) [] = false
equal_large (x ∷ xs) (y ∷ ys) = large_eq x y && equal_large xs ys

-- `equalAttributes` of two objects, neither nil. (One object is equal to itself in any case.)
unfoldable pub equal_attributes : RouteAttributes → RouteAttributes → Bool
unfolding equal_numbers equal_large
equal_attributes a b =
    if a.local_pref == b.local_pref
    then equal_numbers a.as_path b.as_path
      && (equal_numbers a.communities b.communities
          && equal_large a.large_communities b.large_communities)
    else false

-- The loop over the bucket.
unfoldable pub find_equal : Store → RouteAttributes → List Pointer → Option Pointer
find_equal store attr [] = none
find_equal store attr (p ∷ ps) =
    if equal_attributes (store p) attr then some p else find_equal store attr ps

-- A write through a pointer.
abbrev pub write : Store → Pointer → RouteAttributes → Store
write store p a q = if q == p then a else store q

-- The heap bytes that the table counts for an object.
abbrev pub owned_bytes : RouteAttributes → ℕ
owned_bytes a =
    length a.as_path * 4
    + length a.communities * 4
    + length a.large_communities * 12
    + length a.as_path_str

-- The deep copy.
abbrev pub copy_attributes : RouteAttributes → ℕ → RouteAttributes
copy_attributes attr h = record {
  as_path = attr.as_path;
  communities = attr.communities;
  large_communities = attr.large_communities;
  hash = h;
  local_pref = attr.local_pref;
  ref_count = 1;
  as_path_str = format_as_path attr.as_path;
}

-- The new object, appended to its bucket.
unfoldable pub insert_new : AttrTable → RouteAttributes → ℕ → AttrTable × Pointer
unfolding bucket set_bucket
insert_new at attr h =
    let copy = copy_attributes attr h in
    (
      record {
        entries = set_bucket h (bucket h at.entries ++ (at.next ∷ [])) at.entries;
        store = write at.store at.next copy;
        next = at.next + 1;
        attr_count = add64 at.attr_count 1;
        slice_bytes = add64 at.slice_bytes (owned_bytes copy);
      },
      at.next,
    )

-- `existing.refCount++`, on 32 bits
unfoldable pub retain : AttrTable → Pointer → AttrTable
retain at p = record at {
  store =
      write at.store p (record (at.store p) { ref_count = ((at.store p).ref_count + 1) % 2 ^ 32 });
}

-- getOrInsert; `none` is nil.
unfoldable pub get_or_insert : AttrTable → Option RouteAttributes → AttrTable × Pointer
unfolding find_equal insert_new retain
get_or_insert at given =
    let attr : RouteAttributes = elim given [ none ↦ no_attributes | some a ↦ a ] in
    let h = hash_attributes attr in
    elim (find_equal at.store attr (bucket h at.entries)) [
      | some p ↦ (retain at p, p)
      | none ↦ insert_new at attr h
    ]

-- `append(list[:i], list[i+1:]...)` at the first i with the pointer
unfoldable pub drop_pointer : Pointer → List Pointer → Option (List Pointer)
drop_pointer p [] = none
drop_pointer p (q ∷ qs) =
    let rest : Option (List Pointer) = elim (drop_pointer p qs) [
      | none ↦ none
      | some l ↦ some (q ∷ l)
    ] in
    if q == p then some qs else rest

-- `at.entries[hash] = list`, and the bucket is deleted if it is empty.
unfoldable pub store_bucket : ℕ → List Pointer → Entries → Entries
unfolding set_bucket delete_bucket
store_bucket h [] es = delete_bucket h es
store_bucket h (p ∷ ps) es = set_bucket h (p ∷ ps) es

unfoldable pub remove_locked : AttrTable → Pointer → AttrTable
unfolding bucket drop_pointer store_bucket
remove_locked at p =
    let attr = at.store p in
    elim (drop_pointer p (bucket attr.hash at.entries)) [
      | none ↦ at
      | some list ↦ record at {
        entries = store_bucket attr.hash list at.entries;
        attr_count = sub64 at.attr_count 1;
        slice_bytes = sub64 at.slice_bytes (owned_bytes attr);
      }
    ]

-- The count after a release, on 32 bits: 0 wraps round.
abbrev pub minus_one : ℕ → ℕ
minus_one n = (n + 2 ^ 32 - 1) % 2 ^ 32

abbrev pub set_ref_count : AttrTable → Pointer → ℕ → AttrTable
set_ref_count at p n = record at {
  store = write at.store p (record (at.store p) { ref_count = n });
}

unfoldable pub release : AttrTable → Pointer → AttrTable
unfolding remove_locked
release at p =
    let n = minus_one (at.store p).ref_count in
    let at' = set_ref_count at p n in
    if p == nil_pointer then at else if n == 0 then remove_locked at' p else at'

-- One round of releaseN: n references, with the count kept at 0 or above.
unfoldable pub release_count : AttrTable → Pointer → ℕ → AttrTable
unfolding remove_locked
release_count at p n =
    let m = n % 2 ^ 32 in
    let have = (at.store p).ref_count in
    if (p == nil_pointer) || (n == 0)
    then at
    else if leb have m
    then remove_locked (set_ref_count at p 0) p
    else set_ref_count at p (have - m)

-- releaseN, over the map in the order in which its entries come. The lock is yielded between
-- chunks only, where no other state of the call is live.
unfoldable pub release_n : AttrTable → List (Pointer × ℕ) → AttrTable
unfolding release_count
release_n at [] = at
release_n at ((p, n) ∷ counts) = release_n (release_count at p n) counts

-- GetStats
unfoldable pub get_stats : AttrTable → ℕ × ℕ
get_stats at = (at.attr_count, at.slice_bytes)
