-- ===== src/Rib/Announced.antt =====
-- What is announced to a RIB and withdrawn from it, as a map, and the objects that stand for it.
use routing_table.Prelude.{
  ℕ, ◌+◌, ◌-◌, ◌≤◌, ◌<◌, ◌≡◌, refl, Bool, ◌&&◌, Option, none, some, List, [], ◌∷◌, map, length,
  take, ◌==◌, if◌then◌else◌, arith, Option-cases, inl, inr,
}
use routing_table.Attrs.{RouteAttributes, Pointer, PathEntry}
use routing_table.AttrTable.{
  AttrTable, bucket, find_equal, insert_new, retain, get_or_insert, release,
}
use routing_table.AttrTable.Hash.{hash_attributes}
use routing_table.AttrTable.Insertion as Table
use routing_table.Node.Remove.{live}
use routing_table.Rib.Marking.{as_stale}
use routing_table.AttrTable.Buckets.{Same}
use routing_table.AttrTable.Insertion.{
  given_or_empty, Interns, get_or_insert-Interns, Same-refl, Same-trans,
}
use routing_table.AttrTable.Release.{Keeps, release-Keeps}
use routing_table.Node.Live.{live_path}
use routing_table.Trie.Reads.{same_bits}
use routing_table.Rib.Fields.{release_old}
use routing_table.Rib.{Rib, insert_entry, delete_entry}
use routing_table.Rib.Sized.{IsSized}
use routing_table.Rib.View.{view}

-- The attributes announced last at an entry, under bits and a path id, and not withdrawn since.
abbrev pub Announced : Type 0
Announced = ℕ → List Bool → ℕ → Option RouteAttributes

-- A path stands for what was announced, if the object it points to has those attributes.
abbrev pub Stands : AttrTable → Option PathEntry → Option RouteAttributes → Type 0
Stands at none none = Unit {0}
Stands at none (some a) = ⊥
Stands at (some e) none = ⊥
Stands at (some e) (some a) = Same (at.store e.attrs) a × (e.attrs < at.next)

-- A table after other operations: no object of the table before has other attributes.
pub record Later (at at' : AttrTable) : Type 0 where
  pub same : (q : Pointer) → q < at.next → Same (at'.store q) (at.store q)
  pub next : at.next ≤ at'.next

pub Stands-Later :
    (at at' : AttrTable) (o : Option PathEntry) (s : Option RouteAttributes)
    → Later at at'
    → Stands at o s
    → Stands at' o s
Stands-Later at at' none none l h = tt
Stands-Later at at' none (some a) l h = h
Stands-Later at at' (some e) none l h = h
Stands-Later at at' (some e) (some a) l h =
    (Same-trans _ _ _ (l.same e.attrs h.1) h.0, omega (arith, h.1, l.next))

pub Keeps-Later : (at at' : AttrTable) → Keeps at at' → Later at at'
Keeps-Later at at' k = record { same = λ q h. k.same q; next = omega (arith, k.next) }

-- An announcement or a withdrawal, with the entry and the bits of its prefix.
pub data Change : Type 0 where
  announce : ℕ → List Bool → ℕ → ℕ → Option RouteAttributes → Change
  withdraw : ℕ → List Bool → ℕ → ℕ → Change

unfoldable pub apply_change : Rib → Change → Rib
apply_change r (announce i bits mask path_id given) = (insert_entry r i bits mask path_id given).0
apply_change r (withdraw i bits mask path_id) = (delete_entry r i bits mask path_id).0

unfoldable pub apply_changes : Rib → List Change → Rib
apply_changes r [] = r
apply_changes r (c ∷ cs) = apply_changes (apply_change r c) cs

-- The same on the map of what is announced.
abbrev pub write_place : ℕ → List Bool → ℕ → Option RouteAttributes → Announced → Announced
write_place i key path_id value known j q p =
    if i == j && same_bits q key then (if path_id == p then value else known j q p) else known j q p

unfoldable pub note_change : Announced → Change → Announced
note_change known (announce i bits mask path_id given) =
    write_place i (take (mask - 8) bits) path_id (some (given_or_empty given)) known
note_change known (withdraw i bits mask path_id) =
    write_place i (take (mask - 8) bits) path_id none known

unfoldable pub note_changes : Announced → List Change → Announced
note_changes known [] = known
note_changes known (c ∷ cs) = note_changes (note_change known c) cs

-- The entry is in the array, and the mask within the bits.
abbrev pub OfArray : ℕ → Change → Type 0
OfArray n (announce i bits mask path_id given) = (i < n) × (8 ≤ mask) × (mask < 9 + length bits)
OfArray n (withdraw i bits mask path_id) = (i < n) × (8 ≤ mask) × (mask < 9 + length bits)

-- The live paths are what has been announced.
pub record Refines (n : ℕ) (r : Rib) (known : Announced) : Type 0 where
  pub sized : IsSized n r
  pub stands :
      (j : ℕ) (q : List Bool) (p : ℕ) → Stands r.table (live_path p (view r j q)) (known j q p)

pub live-as_stale : (es : List PathEntry) → live (map as_stale es) ≡ []
unfolding live
live-as_stale [] = refl
live-as_stale (e ∷ es) = live-as_stale es

pub get_or_insert-Later :
    (at : AttrTable) (given : Option RouteAttributes)
    → Table.IsValid at
    → Later at (get_or_insert at given).0
unfolding insert_new retain
get_or_insert-Later at given valid = record {
  same = λ q h. ((get_or_insert-Interns at given valid).others q h).0;
  next =
      elim (Option-cases (
        find_equal at.store (given_or_empty given)
          (bucket (hash_attributes (given_or_empty given)) at.entries))) [
            | inl e ↦ rw ((Table.intern at given).0 e) (omega arith)
            | inr (p, e) ↦ rw ((Table.intern at given).1 p e) (omega arith)
          ];
}

pub release_old-Later :
    (at : AttrTable) (old : Option Pointer) → Table.IsValid at → Later at (release_old at old)
release_old-Later at none valid = record {
  same = λ q h. Same-refl (at.store q);
  next = omega arith;
}
release_old-Later at (some a) valid = Keeps-Later at (release at a) (release-Keeps at a valid)

pub Later-trans : (a b c : AttrTable) → Later a b → Later b c → Later a c
Later-trans a b c h k = record {
  same = λ q lt. Same-trans _ _ _ (k.same q (omega (arith, lt, h.next))) (h.same q lt);
  next = omega (arith, h.next, k.next);
}
