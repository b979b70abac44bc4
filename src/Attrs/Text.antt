-- ===== src/Attrs/Text.antt =====
-- formatASPath: the AS path as decimal numbers with spaces between.
use routing_table.Prelude.{
  ℕ, zero, suc, ◌+◌, ◌/◌, ◌%◌, List, [], ◌∷◌, ◌++◌, length, ltb, ◌==◌, if◌then◌else◌,
}
use routing_table.Attrs.{RouteAttributes}

-- `strconv.FormatUint(x, 10)`: the digits, the last one first into the text that follows. An
-- unsigned 32-bit number has at most ten.
digits_into : ℕ → ℕ → List ℕ → List ℕ
digits_into zero x rest = rest
digits_into (suc fuel) x rest =
    let text = (b'0' + x % 10) ∷ rest in
    let more = digits_into fuel (x / 10) text in if ltb x 10 then text else more

unfoldable pub format_uint : ℕ → List ℕ
unfolding digits_into
format_uint x = digits_into 10 x []

-- The loop over the path and `strings.Join(parts, " ")`.
unfoldable pub format_as_path : List ℕ → List ℕ
unfolding format_uint
format_as_path [] = []
format_as_path (x ∷ []) = format_uint x
format_as_path (x ∷ y ∷ xs) = format_uint x ++ (b' ' ∷ format_as_path (y ∷ xs))

-- ASPathString: the cached text unless it is empty.
unfoldable pub as_path_string : RouteAttributes → List ℕ
unfolding format_as_path
as_path_string a =
    if length a.as_path == 0
    then []
    else if length a.as_path_str == 0
    then format_as_path a.as_path
    else a.as_path_str
