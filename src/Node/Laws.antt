-- ===== src/Node/Laws.antt =====
-- The invariant of a node, and what setPath, deletePath and the removal of stale paths do to it.
use routing_table.Prelude.{
  ℕ, ◌+◌, ◌≡◌, ◌≢◌, refl, Bool, true, false, none, some, ◌∙◌, sym, ◌==◌, if◌then◌else◌, arith,
}
use mathlib.Core.Bool.{false≢true}
use routing_table.Attrs.{Pointer, nil_pointer, PathEntry}
use routing_table.Node.{
  Node, empty_node, all_paths, set_path, delete_path, delete_stale_paths, paths_count,
}
use routing_table.Node.Paths.{
  count, find, refs, IsValid, set_path-put, delete_path-remove, set_path-cleared,
  delete_path-cleared, paths_count-length,
}
use routing_table.Node.Update.{
  released, added, put-find_self, put-find_ne, put-count, put-length, put-refs,
}
use routing_table.Node.Remove.{
  attrs_of, remove-old, remove-find, remove-count, remove-length, remove-refs, live, stale_attrs,
  delete_stale_loop-live, delete_stale_loop-cleared, live-count, live-refs_le,
}

pub empty_node-IsValid : IsValid empty_node
unfolding count refs all_paths
empty_node-IsValid = record {
  cleared = λ h. (refl, refl);
  distinct = λ q. omega arith;
  present = refl;
}

-- setPath with a path id, attributes and a stale bit.
pub record Sets (n : Node) (q : ℕ) (a : Pointer) (s : Bool) : Type 0 where
  pub valid : IsValid (set_path n q a s).0
  pub nonempty : (set_path n q a s).0.has_path ≡ true
  pub stored :
      find q (all_paths (set_path n q a s).0) ≡ some (record { attrs = a; path_id = q; stale = s })
  pub kept :
      (p : ℕ) (e : PathEntry)
      → find p (all_paths n) ≡ some e
      → e.stale ≡ false
      → p ≢ q
      → find p (all_paths (set_path n q a s).0) ≡ some e
  pub counted : paths_count (set_path n q a s).0 ≡ paths_count n + added (set_path n q a s).1
  pub balance :
      (p : Pointer)
      → refs p (all_paths (set_path n q a s).0) + released p (set_path n q a s).1
        ≡ refs p (all_paths n) + (if a == p then 1 else 0)

-- setPath on a valid node keeps the invariant and leaves a path. The path is then found under its
-- id with these attributes and this stale bit; a path under another id that was not stale is found
-- as before; the number of paths grows by one exactly if no attributes come back; and for every
-- pointer the references gain the new one and lose the one that comes back.
pub set_path-Sets :
    (n : Node) (q : ℕ) (a : Pointer) (s : Bool) → IsValid n → a ≢ nil_pointer → Sets n q a s
set_path-Sets n q a s valid present =
    let new : PathEntry = record { attrs = a; path_id = q; stale = s } in
    let es = all_paths n in
    let (same, old) = set_path-put n valid.cleared q a s in
    record {
      valid = record {
        cleared = λ h. absurd (false≢true (sym h ∙ set_path-cleared n valid.cleared q a s));
        distinct = λ p. rw same (put-count es new p (valid.distinct p));
        present = rw same (ground (arith, put-refs es new nil_pointer, valid.present));
      };
      nonempty = set_path-cleared n valid.cleared q a s;
      stored = rw same (put-find_self es new);
      kept = λ p e h st ne. rw same (put-find_ne es new p e h st ne);
      counted =
          rw (paths_count-length (set_path n q a s).0, paths_count-length n, same, old)
            (put-length es new);
      balance = λ p. rw (same, old) (put-refs es new p);
    }

-- deletePath with a path id.
pub record Deletes (n : Node) (q : ℕ) : Type 0 where
  pub valid : IsValid (delete_path n q).0
  pub returned : (delete_path n q).1 ≡ attrs_of (find q (all_paths n))
  pub reads :
      (p : ℕ)
      → find p (all_paths (delete_path n q).0) ≡ (if q == p then none else find p (all_paths n))
  pub counted : paths_count (delete_path n q).0 + 1 ≡ paths_count n + added (delete_path n q).1
  pub balance :
      (p : Pointer)
      → refs p (all_paths (delete_path n q).0) + released p (delete_path n q).1
        ≡ refs p (all_paths n)

-- deletePath on a valid node keeps the invariant and returns the attributes of the path with the
-- id, or nothing if there is none. Afterwards no path has the id and every other path is found as
-- before; the number of paths falls by one exactly if attributes come back; and for every pointer
-- the references lose the one that comes back.
pub delete_path-Deletes : (n : Node) (q : ℕ) → IsValid n → Deletes n q
delete_path-Deletes n q valid =
    let es = all_paths n in
    let (same, old) = delete_path-remove n valid.cleared q in
    record {
      valid = record {
        cleared = delete_path-cleared n valid.cleared q;
        distinct = λ p. rw same (omega (arith, remove-count q p es, valid.distinct p));
        present = rw same (omega (arith, remove-refs q nil_pointer es, valid.present));
      };
      returned = old ∙ remove-old q es;
      reads = λ p. rw same (remove-find q p es (valid.distinct p));
      counted =
          rw (paths_count-length (delete_path n q).0, paths_count-length n, same, old)
            (remove-length q es);
      balance = λ p. rw (same, old) (remove-refs q p es);
    }

-- The removal of stale paths from a valid node ends, with the invariant kept: the paths that are
-- left are those that are not stale, in their order, and the pointers tallied are those of the
-- stale paths, each once and in order.
pub delete_stale_paths-live :
    (n : Node)
    → IsValid n
    → IsValid (delete_stale_paths n).0
      × (all_paths (delete_stale_paths n).0 ≡ live (all_paths n))
      × ((delete_stale_paths n).1 ≡ stale_attrs (all_paths n))
unfolding delete_stale_paths
delete_stale_paths-live n valid =
    let (kept, tally) =
      delete_stale_loop-live (paths_count n) n valid.cleared valid.distinct
        (omega (arith, paths_count-length n)) in
    (
      record {
        cleared = delete_stale_loop-cleared (paths_count n) n valid.cleared;
        distinct = λ p. rw kept (omega (arith, live-count p (all_paths n), valid.distinct p));
        present = rw kept (omega (arith, live-refs_le nil_pointer (all_paths n), valid.present));
      },
      kept,
      tally,
    )
