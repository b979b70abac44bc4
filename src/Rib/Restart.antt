-- ===== src/Rib/Restart.antt =====
-- Graceful restart: MarkAllStale, announcements and withdrawals, and DeleteStaleRoutes, against the
-- map of what has been announced since.
use routing_table.Prelude.{
  ℕ, ◌+◌, ◌-◌, ◌≤◌, ◌<◌, ◌≡◌, refl, Bool, false, ◌&&◌, Option, none, some, List, [], ◌∷◌, All,
  length, take, ◌==◌, ==_iff, if◌then◌else◌, arith, Bool-cases, Option-cases, inl, inr,
}
use routing_table.Prelude.Word.{word_mod}
use routing_table.Attrs.{RouteAttributes, PathEntry}
use routing_table.AttrTable.{AttrTable, get_or_insert}
use routing_table.Rib.Marking.{mark_all_stale-view, mark_all_stale-IsSized}
use routing_table.Rib.State.{root_total, paths_here}
use routing_table.Rib.Valid.{IsValid}
use routing_table.Sweep.{delete_stale_routes}
use routing_table.Sweep.Whole.{delete_stale_routes-view}
use routing_table.Trie.Sound.{AllValid-node_at}
use routing_table.AttrTable.Insertion.{given_or_empty, get_or_insert-Interns}
use routing_table.AttrTable.Release.{release_n-Keeps}
use routing_table.Node.Paths.{find, put, remove}
use routing_table.Node.Live.{live_path, put-live, remove-live}
use routing_table.Trie.Reads.{node_at, same_bits, same_bits-eq}
use routing_table.Family.{Family}
use routing_table.Tally.{MapOrder, release_tally}
use routing_table.Rib.Fields.{gone_of, release_old, delete_entry-none, delete_entry-Drops}
use routing_table.Rib.Inserting.{insert_entry-table}
use routing_table.Node.{set_path}
use routing_table.Trie.{make}
use routing_table.Rib.{Rib, entry, insert_entry, delete_entry, delete_below, mark_all_stale}
use routing_table.Rib.Sized.{IsSized, insert_entry-IsSized, delete_entry-IsSized}
use routing_table.Rib.View.{view, at_key, insert_entry-view, delete_entry-view}
use routing_table.Rib.Announced.{
  Announced, Stands, Later, Stands-Later, Keeps-Later, Change, announce, withdraw, apply_change,
  apply_changes, write_place, note_change, note_changes, OfArray, Refines, live-as_stale,
  get_or_insert-Later, release_old-Later, Later-trans,
}

-- A write to one list of paths and to one place of the map.
place-Stands :
    (at : AttrTable) (known : Announced) (v : ℕ → List Bool → List PathEntry) (i : ℕ)
    (key : List Bool) (id : ℕ) (es : List PathEntry) (o : Option PathEntry)
    (value : Option RouteAttributes)
    → ((j : ℕ) (q : List Bool) (p : ℕ) → Stands at (live_path p (v j q)) (known j q p))
    → ((p : ℕ) → live_path p es ≡ (if id == p then o else live_path p (v i key)))
    → Stands at o value
    → (j : ℕ) (q : List Bool) (p : ℕ)
    → Stands at (live_path p (at_key i key es v j q)) (write_place i key id value known j q p)
place-Stands at known v i key id es o value old reads new j q p =
    elim (Bool-cases (i == j && same_bits q key)) [
      | inr e ↦ rw e (old j q p)
      | inl e ↦
          let one : i ≡ j = (==_iff i j).0 (ground arith) in
          let two : q ≡ key = same_bits-eq q key (ground arith) in
          rw (e, reads p)
            (elim (Bool-cases (id == p)) [
              | inl z ↦ rw z new
              | inr z ↦ rw (z, two, ← one) (old i key p)
            ])
    ]

module _ (n : ℕ) (r : Rib) (known : Announced) (s : Refines n r known) (i : ℕ) (bits : List Bool)
    (mask path_id : ℕ) (inside : i < n) (low : 8 ≤ mask) (high : mask < 9 + length bits) where
  within : i < length r.root
  within = rw s.sized.entries inside

  later :
      (at : AttrTable)
      → Later r.table at
      → (j : ℕ) (q : List Bool) (p : ℕ) → Stands at (live_path p (view r j q)) (known j q p)
  later at l j q p = Stands-Later r.table at _ _ l (s.stands j q p)

  announce-Refines :
      (given : Option RouteAttributes)
      → Refines n
          (insert_entry r i bits mask path_id given).0
          (note_change known (announce i bits mask path_id given))
  unfolding note_change
  announce-Refines given =
      let key = take (mask - 8) bits in
      let interned = get_or_insert-Interns r.table given s.sized.valid.table in
      let mid = (get_or_insert r.table given).0 in
      let pointer = (get_or_insert r.table given).1 in
      let old = (set_path (node_at key (make (entry r i)).0) path_id pointer false).1 in
      let at = release_old mid old in
      let new : PathEntry = record { attrs = pointer; path_id = path_id; stale = false } in
      let after = release_old-Later mid old interned.valid in
      let known_pointer = (interned.valid.known _ pointer interned.listed).1 in
      record {
        sized = insert_entry-IsSized n r i bits mask path_id s.sized inside low high given;
        stands = λ j q p.
            rw
              (
                insert_entry-table r i bits mask path_id given s.sized.valid within low high,
                insert_entry-view r i bits mask path_id s.sized.valid within low high given j q,
              )
              (place-Stands at known (view r) i key path_id (put (view r i key) new).0 (some new)
                (some (given_or_empty given))
                (later at (
                  Later-trans r.table mid at (get_or_insert-Later r.table given s.sized.valid.table)
                    after))
                (λ p'. put-live new refl p' (view r i key))
                (Stands-Later mid at (some new) (some (given_or_empty given)) after
                  (interned.content, known_pointer))
                j q p);
      }

  dropped_table : Later r.table (delete_entry r i bits mask path_id).0.table
  unfolding gone_of
  dropped_table = elim (Option-cases (delete_below bits mask path_id (entry r i)).old) [
    | inl e ↦
        rw (delete_entry-none r i bits mask path_id e)
          (release_old-Later r.table none s.sized.valid.table)
    | inr (a, e) ↦
        rw (delete_entry-Drops r i bits mask path_id a e).table
          (release_old-Later r.table (some a) s.sized.valid.table)
  ]

  withdraw-Refines :
      Refines n
        (delete_entry r i bits mask path_id).0
        (note_change known (withdraw i bits mask path_id))
  unfolding note_change view
  withdraw-Refines =
      let key = take (mask - 8) bits in
      let at = (delete_entry r i bits mask path_id).0.table in
      record {
        sized = delete_entry-IsSized n r i bits mask path_id s.sized inside low high;
        stands = λ j q p.
            rw (delete_entry-view r i bits mask path_id s.sized.valid within low high j q) (
              place-Stands at known (view r) i key path_id (remove (view r i key) path_id).0 none
                none (later at dropped_table)
                (λ p'.
                  remove-live path_id p' (view r i key)
                    ((AllValid-node_at key (entry r i) (s.sized.valid.nodes i)).distinct path_id))
                tt j q p);
      }

change-Refines :
    (n : ℕ) (r : Rib) (known : Announced) (c : Change)
    → OfArray n c
    → Refines n r known
    → Refines n (apply_change r c) (note_change known c)
unfolding apply_change
change-Refines n r known (announce i bits mask path_id given) a s =
    announce-Refines n r known s i bits mask path_id a.0 a.1 a.2 given
change-Refines n r known (withdraw i bits mask path_id) a s =
    withdraw-Refines n r known s i bits mask path_id a.0 a.1 a.2

changes-Refines :
    (n : ℕ) (r : Rib) (known : Announced) (cs : List Change)
    → All (OfArray n) cs
    → Refines n r known
    → Refines n (apply_changes r cs) (note_changes known cs)
unfolding apply_changes note_changes
changes-Refines n r known [] a s = s
changes-Refines n r known (c ∷ cs) a s =
    changes-Refines n (apply_change r c) (note_change known c) cs a.1
      (change-Refines n r known c a.0 s)

abbrev pub nothing : Announced
nothing j q p = none

-- After MarkAllStale no path is live.
mark_all_stale-Refines :
    (n : ℕ) (r : Rib)
    → IsSized n r
    → root_total paths_here r.root < word_mod
    → Refines n (mark_all_stale r) nothing
unfolding find
mark_all_stale-Refines n r s small = record {
  sized = mark_all_stale-IsSized n r s;
  stands = λ j q p. rw (mark_all_stale-view r j q s.valid small, live-as_stale (view r j q)) tt;
}

-- The paths of a RIB are what has been announced: the path found under each id, with the attributes
-- of its object.
pub record Holds (r : Rib) (known : Announced) : Type 0 where
  pub stands : (j : ℕ) (q : List Bool) (p : ℕ) → Stands r.table (find p (view r j q)) (known j q p)

swept-Holds :
    (order : MapOrder) (fam : Family) (n : ℕ) (r : Rib) (known : Announced)
    → Refines n r known
    → Holds (delete_stale_routes order fam r).0 known
swept-Holds order fam n r known s = record {
  stands = λ j q p.
      rw (delete_stale_routes-view order fam r s.sized.valid j q)
        (Stands-Later r.table _ _ _ (swept_table order fam r s.sized.valid) (s.stands j q p));
}
  where
    swept_table :
        (order : MapOrder) (fam : Family) (r : Rib)
        → IsValid r
        → Later r.table (delete_stale_routes order fam r).0.table
    swept_table order fam r valid =
        unfold delete_stale_routes release_tally in
        Keeps-Later r.table _ (release_n-Keeps r.table _ valid.table)

-- On a valid RIB with fewer than 2^64 paths, after MarkAllStale, any announcements and
-- withdrawals at entries of the array and within the bits, and DeleteStaleRoutes, the RIB holds
-- exactly what was announced last and not withdrawn since: the path found under a prefix and an
-- id has the attributes announced there, and where nothing was announced no path is found.
pub restart-Holds :
    (order : MapOrder) (fam : Family) (n : ℕ) (r : Rib) (cs : List Change)
    → IsSized n r
    → root_total paths_here r.root < word_mod
    → All (OfArray n) cs
    → Holds
        (delete_stale_routes order fam (apply_changes (mark_all_stale r) cs)).0
        (note_changes nothing cs)
restart-Holds order fam n r cs s small inside =
    swept-Holds order fam n (apply_changes (mark_all_stale r) cs) (note_changes nothing cs)
      (changes-Refines n (mark_all_stale r) nothing cs inside (mark_all_stale-Refines n r s small))
