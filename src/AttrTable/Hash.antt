-- ===== src/AttrTable/Hash.antt =====
-- hashAttributes: FNV-1a over the fields, on 64 bits.
use Prim.Native.Nat.{bit_xor}
use routing_table.Prelude.{ℕ, ◌*◌, ◌%◌, List, [], ◌∷◌, length}
use routing_table.Prelude.Word.{word_mod}
use routing_table.Attrs.{LargeCommunity, RouteAttributes}

abbrev fnv_prime : ℕ
fnv_prime = 1099511628211

-- `h ^= v; h *= prime`
mix : ℕ → ℕ → ℕ
mix h v = bit_xor h v * fnv_prime % word_mod

mix_numbers : ℕ → List ℕ → ℕ
mix_numbers h [] = h
mix_numbers h (v ∷ vs) = mix_numbers (mix h v) vs

mix_large : ℕ → List LargeCommunity → ℕ
mix_large h [] = h
mix_large h (lc ∷ lcs) =
    mix_large (mix (mix (mix h lc.global_admin) lc.local_data1) lc.local_data2) lcs

-- Of an object that is not nil.
unfoldable pub hash_attributes : RouteAttributes → ℕ
unfolding mix mix_numbers mix_large
hash_attributes attr =
    let h0 = mix_numbers (mix 14695981039346656037 (length attr.as_path)) attr.as_path in
    let h1 = mix_numbers (mix h0 (length attr.communities)) attr.communities in
    let h2 = mix_large (mix h1 (length attr.large_communities)) attr.large_communities in
    mix h2 attr.local_pref
