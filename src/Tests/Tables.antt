-- ===== src/Tests/Tables.antt =====
-- Runs of the attribute table and of the octets.
use routing_table.Prelude.{◌≡◌, refl, false, some, [], ◌∷◌, arith}
use routing_table.Attrs.{RouteAttributes}
use routing_table.Utils.{is_valid_v4, int_to_bin_bitwise}
use routing_table.Utils.Laws.{
  bin_value, in_ranges, is_valid_v4-in_ranges, bin_value-int_to_bin_bitwise,
}
use routing_table.AttrTable.Hash.{hash_attributes}
use routing_table.AttrTable.{AttrTable, new_attr_table, get_or_insert}
use routing_table.AttrTable.Insertion.{
  IsValid, Interns, get_or_insert-Interns, new_attr_table-IsValid,
}
use routing_table.Tests.Data.{short_path, long_path, preferred}

-- Every field has an element, so that the hash goes through each of its loops and separators.
abbrev all_fields : RouteAttributes
all_fields = record preferred {
  communities = 65536 ∷ 7 ∷ [];
  large_communities = record { global_admin = 1; local_data1 = 2; local_data2 = 3 } ∷ [];
}

-- The FNV-1a hash of these fields, computed apart from the model.
all_fields_hash : hash_attributes all_fields ≡ 5776549002167235308
unfolding hash_attributes
all_fields_hash = refl

abbrev one_entry : AttrTable
one_entry = (get_or_insert new_attr_table (some short_path)).0

one_entry-IsValid : IsValid one_entry
one_entry-IsValid =
    (get_or_insert-Interns new_attr_table (some short_path) new_attr_table-IsValid).valid

get_or_insert-Interns_example : Interns one_entry (some long_path)
get_or_insert-Interns_example = get_or_insert-Interns one_entry (some long_path) one_entry-IsValid

is_valid_v4-in_ranges_example : is_valid_v4 10 ≡ in_ranges 10
is_valid_v4-in_ranges_example = is_valid_v4-in_ranges 10 (omega arith)

-- 10.0.0.0/8 is refused.
private_refused : is_valid_v4 10 ≡ false
unfolding is_valid_v4
private_refused = refl

bin_value-int_to_bin_bitwise_example : bin_value 0 (int_to_bin_bitwise 193) ≡ 193
bin_value-int_to_bin_bitwise_example = bin_value-int_to_bin_bitwise 193 (omega arith)
