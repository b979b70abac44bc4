-- ===== src/Ipv4/Reading.antt =====
-- AllPaths of ipv4.go after insertUnlocked and after deleteUnlocked.
use routing_table.Prelude.{
  ℕ, ◌+◌, ◌-◌, ◌≤◌, ◌<◌, ◌≡◌, refl, ap, ◌∙◌, Bool, true, false, not, Option, some, List, map,
  length, take, get_or, ==_iff, arith, if_false,
}
use routing_table.Attrs.{RouteAttributes, PathEntry, v4, IpPrefix, Route}
use routing_table.Attrs.Prefix.{masked}
use routing_table.Utils.{is_valid_v4}
use routing_table.Node.Paths.{put, remove}
use routing_table.Select.{route_of}
use routing_table.AttrTable.{get_or_insert}
use routing_table.Trie.Reads.{same_bits_refl}
use routing_table.Rib.{Rib, insert_entry, delete_entry}
use routing_table.Rib.Sized.{IsSized}
use routing_table.Rib.View.{view, at_key, insert_entry-view, delete_entry-view}
use routing_table.Rib.Reading.{all_paths_entry-view}
use routing_table.Ipv4.{walk_bits, outside, insert_unlocked, delete_unlocked, all_paths}
use routing_table.Ipv4.Runs.{length-walk_bits}

-- The prefix of these octets and this length.
abbrev pub of_octets : List ℕ → ℕ → IpPrefix
of_octets octets mask = record { addr = v4 octets; bits = some mask }

abbrev pub announced : List ℕ → ℕ → ℕ → Option RouteAttributes → Bool → Route
announced octets mask path_id given stale = record {
  prefix = of_octets octets mask;
  attributes = given;
  path_id = path_id;
  stale = stale;
}

at_key_self :
    (i : ℕ) (key : List Bool) (es : List PathEntry) (v : ℕ → List Bool → List PathEntry)
    → at_key i key es v i key ≡ es
at_key_self i key es v = rw ((==_iff i i).1 refl, same_bits_refl key)

module _ (r : Rib) (octets : List ℕ) (mask path_id : ℕ) (sized : IsSized 256 r)
    (byte : get_or octets 0 0 < 256) (low : 8 ≤ mask) (high : mask ≤ 24) where
  abbrev key : List Bool
  key = take (mask - 8) (walk_bits octets)

  walk_high : mask < 9 + length (walk_bits octets)
  walk_high = ground (arith, length-walk_bits octets)

  within : get_or octets 0 0 < length r.root
  within = rw sized.entries byte

  inside : outside mask ≡ false
  inside = ground arith

  pub all_paths-view :
      (s : Rib)
      → all_paths s (of_octets octets mask)
        ≡ map
            (route_of s.table.store (masked (of_octets octets mask)))
            (view s (get_or octets 0 0) (take (mask - 8) (walk_bits octets)))
  unfolding all_paths
  all_paths-view s =
      if_false _ _ inside
      ∙ all_paths_entry-view s.table.store (walk_bits octets) mask (of_octets octets mask) s
          (get_or octets 0 0) low walk_high

  insert_unlocked-entry :
      (given : Option RouteAttributes) (stale : Bool)
      → is_valid_v4 (get_or octets 0 0) ≡ true
      → insert_unlocked r (announced octets mask path_id given stale)
        ≡ insert_entry r (get_or octets 0 0) (walk_bits octets) mask path_id given
  unfolding insert_unlocked
  insert_unlocked-entry given stale v =
      if_false _ _ inside ∙ if_false {b = not (is_valid_v4 (get_or octets 0 0))} _ _ (rw v)

  delete_unlocked-entry :
      delete_unlocked r (of_octets octets mask) path_id
      ≡ delete_entry r (get_or octets 0 0) (walk_bits octets) mask path_id
  unfolding delete_unlocked
  delete_unlocked-entry = if_false _ _ inside

  -- On a valid IPv4 RIB, for a prefix of 8 to 24 bits whose first octet is a byte that the filter
  -- passes, AllPaths of the prefix after insertUnlocked returns the routes of the paths it had, with
  -- the inserted path put among them: in place of the one with its id, else of the first stale one,
  -- else at the end. The path has the pointer that getOrInsert returns and is not stale.
  pub all_paths-insert_unlocked :
      (given : Option RouteAttributes) (stale : Bool)
      → is_valid_v4 (get_or octets 0 0) ≡ true
      → let next = (insert_unlocked r (announced octets mask path_id given stale)).0 in
        all_paths next (of_octets octets mask)
        ≡ map
            (route_of next.table.store (masked (of_octets octets mask)))
            (put (view r (get_or octets 0 0) (take (mask - 8) (walk_bits octets))) (record {
              attrs = (get_or_insert r.table given).1;
              path_id = path_id;
              stale = false;
            })).0
  all_paths-insert_unlocked given stale v =
      let i = get_or octets 0 0 in
      let bits = walk_bits octets in
      let next = (insert_unlocked r (announced octets mask path_id given stale)).0 in
      all_paths-view next
      ∙ ap (map (route_of next.table.store (masked (of_octets octets mask)))) (
          ap (λ (x : Rib × Bool). view x.0 i key) (insert_unlocked-entry given stale v)
          ∙ insert_entry-view r i bits mask path_id sized.valid within low walk_high given i key
          ∙ at_key_self i key _ (view r))

  -- On a valid IPv4 RIB, for a prefix of 8 to 24 bits that starts with a byte, AllPaths of the prefix
  -- after deleteUnlocked returns the routes of the paths it had but for the one with the id.
  pub all_paths-delete_unlocked :
      let next = (delete_unlocked r (of_octets octets mask) path_id).0 in
      all_paths next (of_octets octets mask)
      ≡ map
          (route_of next.table.store (masked (of_octets octets mask)))
          (remove (view r (get_or octets 0 0) (take (mask - 8) (walk_bits octets))) path_id).0
  all_paths-delete_unlocked =
      let i = get_or octets 0 0 in
      let bits = walk_bits octets in
      let next = (delete_unlocked r (of_octets octets mask) path_id).0 in
      all_paths-view next
      ∙ ap (map (route_of next.table.store (masked (of_octets octets mask)))) (
          ap (λ (x : Rib × Bool). view x.0 i key) delete_unlocked-entry
          ∙ delete_entry-view r i bits mask path_id sized.valid within low walk_high i key
          ∙ at_key_self i key _ (view r))
