-- ===== src/Examples.antt =====
-- Each property on one input.
use jennifer.IntFast.Assign.{fast_assign-assign_at}
use jennifer.IntFast.{fast_assign}
use jennifer.Value.Types.{runtime_typing}
use jennifer.Common.{
  ◌*ℤ◌, ◌+ℤ◌, ◌-ℤ◌, ◌-◌, ◌^◌, List, [], ◌∷◌, codes, refl, ok, ℕ, pos, negsuc, none, some, true,
  false, ltb, leb, ◌==◌, if◌then◌else◌, ◌≡◌, arith, ◌+◌,
}
use jennifer.Float64.{FloatOps, IsIeee, is_non_finite}
use jennifer.Ast.{
  is_logical, Expr, lit, var, binary, op_add, op_mul, op_lt, op_neg, int_lit, Pos, type_int,
  DeclType,
}
use jennifer.Value.{Value, int, bool}
use jennifer.Env.{Binding}
use jennifer.Env.Write.{assign_at}
use jennifer.Eval.Expr.{eval_expr}
use jennifer.Eval.Reference.{evaluate}
use jennifer.Fold.{stamp_folded, try_fold_binary, try_fold_unary}
use jennifer.Fold.Sound.{try_fold_binary_sound, try_fold_unary_sound}
use jennifer.Fold.Preserves.{IsStamped, stamp_folded-IsStamped}
use jennifer.IntFast.{Env, int_operand, fast_condition}
use jennifer.IntFast.Sound.{int_operand_sound, fast_condition_sound, eval_expr-stamp_folded}
use jennifer.Arith.{add_overflow, sub_overflow, mul_overflow, floored_mod, floored_quot}
use jennifer.Arith.Exact.{exactly, add_overflow-exactly, sub_overflow-exactly, mul_overflow-exactly}
use jennifer.Arith.Floored.{
  IsFloorRemainder, floored_mod-IsFloorRemainder, floored_quot-floored_mod,
}
use jennifer.Eval.{apply_binary, apply_unary}

-- A coarse arithmetic of patterns that has the law the properties ask of floats.
abbrev pub coarse : FloatOps
coarse = record {
  of_int = λ n. 0;
  truncate = λ f. pos f;
  add = λ a b. a + b;
  sub = λ a b. if is_non_finite a then a else 0;
  mul = λ a b. 0;
  div = λ a b. 0;
  neg = λ a. a;
  eq = λ a b. a == b;
  lt = λ a b. ltb a b;
  le = λ a b. leb a b;
}

coarse-IsIeee : IsIeee coarse
coarse-IsIeee = record { sub_self = λ r. ground arith }

abbrev pub here : Pos
here = record { file = []; line = 1; col = 1 }

abbrev pub x : List ℕ
x = codes "x"

abbrev pub x_binding : Binding Value DeclType
x_binding = record {
  value = int (pos 41);
  decl_type = type_int;
  is_const = false;
  slot = pos 0;
  name = x;
}

abbrev pub one_frame : Env
one_frame = record { slots = x_binding ∷ []; vars = [] } ∷ []

-- `2 * 3 + $x`
abbrev sum : Expr
sum =
    binary here op_add
      (binary here op_mul (lit here (int_lit (pos 2))) (lit here (int_lit (pos 3))) none)
      (var here x (pos 0) (pos 0)) none

-- `$x < 50`
abbrev test : Expr
test = binary here op_lt (var here x (pos 0) (pos 0)) (lit here (int_lit (pos 50))) none

eval_expr-stamp_folded_example :
    eval_expr coarse one_frame (stamp_folded coarse sum) ≡ evaluate coarse one_frame sum
eval_expr-stamp_folded_example = eval_expr-stamp_folded coarse coarse-IsIeee one_frame sum

stamp_folded-IsStamped_example : IsStamped coarse (stamp_folded coarse sum)
stamp_folded-IsStamped_example = stamp_folded-IsStamped coarse coarse-IsIeee sum

test_read : fast_condition one_frame test ≡ some true
unfolding fast_condition jennifer.Arith.int_compare
test_read = refl

product_read :
    int_operand one_frame
      (binary here op_add (var here x (pos 0) (pos 0)) (lit here (int_lit (pos 1))) none)
    ≡ some (pos 42)
unfolding int_operand jennifer.Arith.int_arith add_overflow jennifer.Int64.wrap ◌+ℤ◌
product_read = refl

int_operand_sound_example :
    evaluate coarse one_frame
      (binary here op_add (var here x (pos 0) (pos 0)) (lit here (int_lit (pos 1))) none)
    ≡ ok (int (pos 42))
int_operand_sound_example =
    int_operand_sound coarse one_frame
      (binary here op_add (var here x (pos 0) (pos 0)) (lit here (int_lit (pos 1))) none) (pos 42)
      (tt, tt, tt) product_read

fast_condition_sound_example : evaluate coarse one_frame test ≡ ok (bool true)
fast_condition_sound_example =
    fast_condition_sound coarse one_frame test true (tt, tt, tt) test_read

product_folds :
    try_fold_binary coarse op_mul (int_lit (pos 6)) (int_lit (pos 7)) ≡ some (int_lit (pos 42))
unfolding try_fold_binary jennifer.Int64.wrap jennifer.Int64.quot ◌*ℤ◌
product_folds = refl

negation_folds : try_fold_unary coarse op_neg (int_lit (pos 6)) ≡ some (int_lit (negsuc 5))
unfolding try_fold_unary jennifer.Int64.wrap ◌-ℤ◌
negation_folds = refl

mul_is_strict : is_logical op_mul ≡ false
unfolding is_logical
mul_is_strict = refl

try_fold_binary_sound_example :
    apply_binary coarse op_mul (int (pos 6)) (int (pos 7)) here ≡ ok (int (pos 42))
try_fold_binary_sound_example =
    try_fold_binary_sound coarse coarse-IsIeee op_mul (int_lit (pos 6)) (int_lit (pos 7))
      (int_lit (pos 42)) here mul_is_strict product_folds

try_fold_unary_sound_example : apply_unary coarse op_neg (int (pos 6)) here ≡ ok (int (negsuc 5))
try_fold_unary_sound_example =
    try_fold_unary_sound coarse coarse-IsIeee op_neg (int_lit (pos 6)) (int_lit (negsuc 5)) here
      negation_folds

sub_overflow-exactly_example :
    sub_overflow (negsuc (2 ^ 63 - 1)) (pos 1) ≡ exactly (negsuc (2 ^ 63 - 1) -ℤ pos 1)
sub_overflow-exactly_example =
    sub_overflow-exactly (negsuc (2 ^ 63 - 1)) (pos 1) (omega arith) (omega arith)

add_overflow-exactly_example :
    add_overflow (pos (2 ^ 63 - 1)) (pos 1) ≡ exactly (pos (2 ^ 63 - 1) +ℤ pos 1)
add_overflow-exactly_example =
    add_overflow-exactly (pos (2 ^ 63 - 1)) (pos 1) (omega arith) (omega arith)

mul_overflow-exactly_example :
    mul_overflow (negsuc (2 ^ 63 - 1)) (negsuc 0) ≡ exactly (negsuc (2 ^ 63 - 1) *ℤ negsuc 0)
mul_overflow-exactly_example =
    mul_overflow-exactly (negsuc (2 ^ 63 - 1)) (negsuc 0) (omega arith) (omega arith)

floored_mod-IsFloorRemainder_example : IsFloorRemainder (floored_mod (negsuc 6) (pos 3)) (pos 3)
floored_mod-IsFloorRemainder_example =
    floored_mod-IsFloorRemainder (negsuc 6) (pos 3) (omega arith) (omega arith) (λ e. cc)

floored_quot-floored_mod_example :
    floored_quot (negsuc 6) (pos 3) *ℤ pos 3 +ℤ floored_mod (negsuc 6) (pos 3) ≡ negsuc 6
floored_quot-floored_mod_example =
    floored_quot-floored_mod (negsuc 6) (pos 3) (omega arith) (omega arith) (λ e. cc)
      (λ e. ground arith)

abbrev answer : Expr
answer = binary here op_add (var here x (pos 0) (pos 0)) (lit here (int_lit (pos 1))) none

abbrev pub x_stepped : Env
x_stepped = record { slots = record x_binding { value = int (pos 42) } ∷ []; vars = [] } ∷ []

step_x : fast_assign one_frame (pos 0) (pos 0) answer ≡ some x_stepped
unfolding fast_assign jennifer.Arith.int_arith add_overflow jennifer.Int64.wrap ◌+ℤ◌
step_x = refl

fast_assign-assign_at_example :
    (v : Value) × (evaluate coarse one_frame answer ≡ ok v)
    × (assign_at runtime_typing one_frame (pos 0) (pos 0) x v ≡ ok x_stepped)
fast_assign-assign_at_example =
    fast_assign-assign_at coarse one_frame x_stepped (pos 0) (pos 0) x answer (tt, tt, tt) step_x
