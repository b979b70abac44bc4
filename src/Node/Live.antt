-- ===== src/Node/Live.antt =====
-- The paths that are not stale, under setPath, deletePath and the removal of stale paths.
use routing_table.Prelude.{
  ℕ, ◌≤◌, ◌≡◌, refl, false, ◌&&◌, Option, none, some, List, [], ◌∷◌, ◌++◌, ◌==◌, if◌then◌else◌,
  arith,
}
use routing_table.Attrs.{PathEntry}
use routing_table.Node.{replace_first, remove_entry}
use routing_table.Node.Paths.{count, find, put, remove}
use routing_table.Node.Remove.{live, live-count}
use routing_table.Node.Update.{same_id, is_stale, or_same, hit, replace_id-miss, find-none}

-- The path with the id that is not stale.
abbrev pub live_path : ℕ → List PathEntry → Option PathEntry
live_path q es = find q (live es)

module _ (new : PathEntry) (fresh : new.stale ≡ false) (q : ℕ) where
  replace_id-live :
      (es : List PathEntry)
      → let r = replace_first (same_id new) new es in
        live_path q (or_same es r)
        ≡ (if hit r && new.path_id == q then some new else live_path q es)
  unfolding replace_first find live
  replace_id-live [] = refl
  replace_id-live (e ∷ es) = ground (arith, replace_id-live es)

  replace_stale-live :
      (es : List PathEntry)
      → count new.path_id es ≡ 0
      → let r = replace_first is_stale new es in
        live_path q (or_same es r)
        ≡ (if hit r && new.path_id == q then some new else live_path q es)
  unfolding replace_first find live count
  replace_stale-live [] z = refl
  replace_stale-live (e ∷ es) z = ground (arith, replace_stale-live es)

  append-live :
      (es : List PathEntry)
      → count new.path_id es ≡ 0
      → live_path q (es ++ (new ∷ [])) ≡ (if new.path_id == q then some new else live_path q es)
  unfolding find live count
  append-live [] z = ground arith
  append-live (e ∷ es) z = ground (arith, append-live es)

  -- The path that setPath stores is live, and no other live path comes or goes.
  pub put-live :
      (es : List PathEntry)
      → live_path q (put es new).0 ≡ (if new.path_id == q then some new else live_path q es)
  unfolding put
  put-live es = ground (
    arith,
    replace_id-live es,
    replace_id-miss new new.path_id es,
    replace_stale-live es,
    append-live es,
  )

-- A path that deletePath removes is not live, and no other live path comes or goes.
pub remove-live :
    (id q : ℕ) (es : List PathEntry)
    → count id es ≤ 1
    → live_path q (remove es id).0 ≡ (if id == q then none else live_path q es)
unfolding remove remove_entry find live count
remove-live id q [] h = ground arith
remove-live id q (e ∷ es) h =
    ground (arith, remove-live id q es, live-count q es, find-none q (live es))
