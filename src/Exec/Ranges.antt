-- ===== src/Exec/Ranges.antt =====
-- `rangeBounds` and `evalRange` of internal/interpreter/interpreter.go on the values of the ends.
use jennifer.Eval.{range_not_int, range_reversed, range_too_large, fail, RuntimeError, Evaluated}
use jennifer.Int64.{sub64}
use jennifer.Ast.{type_int, Pos}
use jennifer.Value.{list, int, cons, nil, Values, Value, kind_of}
use jennifer.Common.{
  if◌then◌else◌, pos_part, some, ◌+ℤ◌, ◌^◌, ℕ, zero, suc, ℤ, pos, Result, ok, ◌||◌, ltb_ℤ,
}

-- MaxRangeElements of internal/limits/nesting_std.go.
abbrev pub max_range_elements : ℕ
max_range_elements = 2 ^ 22

unfoldable pub range_bounds : Value → Value → Pos → Result RuntimeError (ℤ × ℤ)
unfolding kind_of
range_bounds (int a) (int b) p = if ltb_ℤ b a then fail (range_reversed a b) p else ok (a, b)
range_bounds v w p = fail (range_not_int (kind_of v) (kind_of w)) p

abbrev pub ints_from : ℤ → ℕ → Values
ints_from n zero = nil
ints_from n (suc k) = cons (int n) (ints_from (n +ℤ pos 1) k)

-- The list of a range, whose count is the wrapped difference of its ends.
unfoldable pub range_list : ℤ → ℤ → Pos → Evaluated
range_list lo hi p =
    if ltb_ℤ (sub64 hi lo) (pos 0) || ltb_ℤ (pos max_range_elements) (sub64 hi lo)
    then fail (range_too_large (sub64 hi lo)) p
    else ok (list (some type_int) (ints_from lo (pos_part (sub64 hi lo))))
