-- ===== src/Node/Update.antt =====
-- What `put` and `remove` do to the list of paths: lookups, ids, lengths and references.
use routing_table.Prelude.{
  ℕ, ◌+◌, ◌≤◌, ◌≡◌, ◌≢◌, refl, Bool, true, false, ◌&&◌, Option, none, some, List, [], ◌∷◌, ◌++◌,
  length, length-append, ◌==◌, if◌then◌else◌, arith,
}
use routing_table.Attrs.{Pointer, PathEntry}
use routing_table.Node.{replace_first}
use routing_table.Node.Paths.{count, find, refs, put}

-- One if the option holds the pointer.
abbrev pub released : Pointer → Option Pointer → ℕ
released p none = 0
released p (some a) = if a == p then 1 else 0

-- One if there was nothing to replace.
abbrev pub added : Option Pointer → ℕ
added none = 1
added (some a) = 0

abbrev pub same_id : PathEntry → PathEntry → Bool
same_id new e = e.path_id == new.path_id

abbrev pub is_stale : PathEntry → Bool
is_stale e = e.stale

-- What the list becomes under one of the loops, if the loop finds an entry.
abbrev pub or_same : List PathEntry → Option (Pointer × List PathEntry) → List PathEntry
or_same es none = es
or_same es (some (a, es')) = es'

abbrev old_of : Option (Pointer × List PathEntry) → Option Pointer
old_of none = none
old_of (some (a, es')) = some a

-- The reference that a replacement adds.
abbrev gained : Pointer → PathEntry → Option (Pointer × List PathEntry) → ℕ
gained p new none = 0
gained p new (some _) = if new.attrs == p then 1 else 0

module _ (test : PathEntry → Bool) (new : PathEntry) where
  replace_first-refs :
      (p : Pointer) (es : List PathEntry)
      → refs p (or_same es (replace_first test new es))
          + released p (old_of (replace_first test new es))
        ≡ refs p es + gained p new (replace_first test new es)
  unfolding replace_first refs
  replace_first-refs p [] = ground arith
  replace_first-refs p (e ∷ es) = ground (arith, replace_first-refs p es)

  replace_first-length :
      (es : List PathEntry) → length (or_same es (replace_first test new es)) ≡ length es
  unfolding replace_first
  replace_first-length [] = refl
  replace_first-length (e ∷ es) = ground (arith, replace_first-length es)

abbrev pub hit : Option (Pointer × List PathEntry) → Bool
hit none = false
hit (some r) = true

module _ (new : PathEntry) (q : ℕ) where
  -- The exact match: the entry with the id is written, every other one is left.
  replace_id-find :
      (es : List PathEntry)
      → let r = replace_first (same_id new) new es in
        find q (or_same es r) ≡ (if hit r && new.path_id == q then some new else find q es)
  unfolding replace_first find
  replace_id-find [] = refl
  replace_id-find (e ∷ es) = ground (arith, replace_id-find es)

  replace_id-count :
      (es : List PathEntry)
      → let r = replace_first (same_id new) new es in count q (or_same es r) ≡ count q es
  unfolding replace_first count
  replace_id-count [] = refl
  replace_id-count (e ∷ es) = ground (arith, replace_id-count es)

  -- No match: no entry has the id.
  pub replace_id-miss :
      (es : List PathEntry)
      → hit (replace_first (same_id new) new es) ≡ false
      → count new.path_id es ≡ 0
  unfolding replace_first count
  replace_id-miss [] h = refl
  replace_id-miss (e ∷ es) h = ground (arith, replace_id-miss es)

  -- A stale entry gives way to an entry with a fresh id; what is not stale stays.
  replace_stale-find :
      (es : List PathEntry) (e : PathEntry)
      → find q es ≡ some e
      → e.stale ≡ false
      → q ≢ new.path_id
      → find q (or_same es (replace_first is_stale new es)) ≡ some e
  unfolding replace_first find
  replace_stale-find [] e h s ne = cc
  replace_stale-find (d ∷ es) e h s ne = ground (arith, replace_stale-find es e)

  replace_stale-find_new :
      (es : List PathEntry)
      → count new.path_id es ≡ 0
      → hit (replace_first is_stale new es) ≡ true
      → find new.path_id (or_same es (replace_first is_stale new es)) ≡ some new
  unfolding replace_first find count
  replace_stale-find_new [] z h = cc
  replace_stale-find_new (d ∷ es) z h = ground (arith, replace_stale-find_new es)

  replace_stale-count :
      (es : List PathEntry)
      → count q (or_same es (replace_first is_stale new es))
        ≤ count q es + (if new.path_id == q then 1 else 0)
  unfolding replace_first count
  replace_stale-count [] = omega arith
  replace_stale-count (d ∷ es) = ground (arith, replace_stale-count es)

  append-find :
      (es : List PathEntry)
      → find q (es ++ (new ∷ []))
        ≡ elim (find q es) [ some e ↦ some e | none ↦ if new.path_id == q then some new else none ]
  unfolding find
  append-find [] = refl
  append-find (e ∷ es) = ground (arith, append-find es)

  append-count :
      (es : List PathEntry)
      → count q (es ++ (new ∷ [])) ≡ count q es + (if new.path_id == q then 1 else 0)
  unfolding count
  append-count [] = ground arith
  append-count (e ∷ es) = ground (arith, append-count es)

pub find-none : (q : ℕ) (es : List PathEntry) → count q es ≡ 0 → find q es ≡ none
unfolding find count
find-none q [] h = refl
find-none q (e ∷ es) h = ground (arith, find-none q es)

append-refs :
    (new : PathEntry) (p : Pointer) (es : List PathEntry)
    → refs p (es ++ (new ∷ [])) ≡ refs p es + (if new.attrs == p then 1 else 0)
unfolding refs
append-refs new p [] = ground arith
append-refs new p (e ∷ es) = ground (arith, append-refs new p es)

-- The laws of `put`.
module _ (es : List PathEntry) (new : PathEntry) where
  pub put-find_self : find new.path_id (put es new).0 ≡ some new
  unfolding put
  put-find_self = ground (
    arith,
    replace_id-find new new.path_id es,
    replace_id-miss new new.path_id es,
    replace_stale-find_new new new.path_id es,
    append-find new new.path_id es,
    find-none new.path_id es,
  )

  pub put-find_ne :
      (q : ℕ) (e : PathEntry)
      → find q es ≡ some e
      → e.stale ≡ false
      → q ≢ new.path_id
      → find q (put es new).0 ≡ some e
  unfolding put
  put-find_ne q e h s ne =
      ground (arith, replace_id-find new q es, replace_stale-find new q es e, append-find new q es)

  pub put-count : (q : ℕ) → count q es ≤ 1 → count q (put es new).0 ≤ 1
  unfolding put
  put-count q h = ground (
    arith,
    replace_id-count new q es,
    replace_id-miss new q es,
    replace_stale-count new q es,
    append-count new q es,
  )

  pub put-length : length (put es new).0 ≡ length es + added (put es new).1
  unfolding put
  put-length = ground (
    arith,
    replace_first-length (same_id new) new es,
    replace_first-length is_stale new es,
    length-append es (new ∷ []),
  )

  pub put-refs :
      (p : Pointer)
      → refs p (put es new).0 + released p (put es new).1
        ≡ refs p es + (if new.attrs == p then 1 else 0)
  unfolding put
  put-refs p = ground (
    arith,
    replace_first-refs (same_id new) new p es,
    replace_first-refs is_stale new p es,
    append-refs new p es,
  )
