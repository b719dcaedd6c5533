-- ===== src/Eval.antt =====
-- internal/interpreter/interpreter.go: the operators of expressions. A runtime error is its kind
-- with the values that its message shows, and its position.
use jennifer.Common.{
  Bool, List, Option, Result, eqb_ℤ, err, false, if◌then◌else◌, leb_ℤ, ltb_ℤ, negsuc, not, ok, pos,
  pos_part, some, text_lt, true, ℕ, ℤ, ◌&&◌, ◌++◌, ◌-ℤ◌, ◌-◌, ◌^◌, ◌||◌,
}
pub mod Expr
pub mod Reference
use jennifer.Float64.{FloatOps}
use jennifer.Int64.{min_int64, neg64, not64, and64, or64, xor64, shl64, shr64}
use jennifer.Ast.{
  BinaryOp, op_add, op_sub, op_mul, op_div, op_floor_div, op_mod, op_lt, op_gt, op_le, op_ge, op_eq,
  op_neq, op_bit_or, op_bit_xor, op_bit_and, op_shl, op_shr, UnaryOp, op_neg, op_not, op_bit_not,
  Pos, is_comparison, DeclType,
}
use jennifer.Arith.{add_overflow, sub_overflow, mul_overflow, floored_mod, floored_quot}
use jennifer.Value.{
  Value, Kind, int, float, string, bool, kind_of, equal, as_float, compare_int_float, negated,
}
use jennifer.Env.{EnvError}

-- Where a bool is asked for.
pub data Context : Type 0 where
  if_condition elseif_condition while_condition for_condition until_condition : Context

pub data ErrorKind : Type 0 where
  int_overflow : BinaryOp → ℤ → ℤ → ErrorKind
  neg_overflow : ℤ → ErrorKind
  int_div_zero int_mod_zero float_div_zero float_mod : ErrorKind
  float_overflow : ℕ → BinaryOp → ℕ → ErrorKind
  needs_numeric : BinaryOp → Kind → Kind → ErrorKind
  needs_ints : BinaryOp → Kind → Kind → ErrorKind
  needs_comparable : BinaryOp → Kind → Kind → ErrorKind
  shift_negative : ℤ → ErrorKind
  unary_needs : UnaryOp → Kind → ErrorKind
  left_not_bool right_not_bool : BinaryOp → Kind → ErrorKind
  unknown_op : BinaryOp → ErrorKind
  env_error : EnvError → ErrorKind
  index_not_int : Kind → Kind → ErrorKind
  index_out_of_bounds : Kind → ℤ → ℕ → ErrorKind
  cannot_index : Kind → ErrorKind
  needs_bool : Context → Kind → ErrorKind
  cannot_initialize : DeclType → Bool → List ℕ → Kind → ErrorKind
  cannot_assign : Kind → DeclType → List ℕ → ErrorKind
  needs_collection : Kind → ErrorKind
  exit_needs_int : Kind → ErrorKind
  stray_break stray_continue : ErrorKind
  wrong_arity : List ℕ → ℕ → ℕ → ErrorKind
  wrong_argument : ℕ → List ℕ → DeclType → Kind → ErrorKind
  unknown_function : List ℕ → ErrorKind
  call_too_deep : ErrorKind
  element_mismatch : Kind → DeclType → ErrorKind
  element_not_int : Kind → ErrorKind
  element_out_of_range : ℤ → ErrorKind
  cannot_index_assign : Kind → ErrorKind
  constant_contents : List ℕ → ErrorKind
  append_mismatch : Kind → DeclType → ErrorKind
  append_root append_element : Kind → ErrorKind
  range_not_int : Kind → Kind → ErrorKind
  range_reversed : ℤ → ℤ → ErrorKind
  range_too_large : ℤ → ErrorKind

pub record RuntimeError : Type 0 where
  pub kind : ErrorKind
  pub at : Pos

abbrev pub Evaluated : Type 0
Evaluated = Result RuntimeError Value

abbrev pub fail {ℓ} : {A : Type ℓ} → ErrorKind → Pos → Result RuntimeError A
fail k p = err (record { kind = k; at = p })

unfoldable pub is_bit_op : BinaryOp → Bool
is_bit_op op_bit_or = true
is_bit_op op_bit_xor = true
is_bit_op op_bit_and = true
is_bit_op op_shl = true
is_bit_op op_shr = true
is_bit_op _ = false

abbrev shift_left : ℤ → ℤ → ℤ
shift_left a b = if leb_ℤ (pos 64) b then pos 0 else shl64 a (pos_part b)

abbrev shift_right : ℤ → ℤ → ℤ
shift_right a b =
    if leb_ℤ (pos 64) b then (if ltb_ℤ a (pos 0) then negsuc 0 else pos 0) else shr64 a (pos_part b)

-- The switch of `evalBitOp` on two ints.
abbrev bit_op : BinaryOp → ℤ → ℤ → Pos → Evaluated
bit_op op_bit_and a b p = ok (int (and64 a b))
bit_op op_bit_or a b p = ok (int (or64 a b))
bit_op op_bit_xor a b p = ok (int (xor64 a b))
bit_op op_shl a b p =
    if ltb_ℤ b (pos 0) then fail (shift_negative b) p else ok (int (shift_left a b))
bit_op op_shr a b p =
    if ltb_ℤ b (pos 0) then fail (shift_negative b) p else ok (int (shift_right a b))
bit_op op a b p = fail (unknown_op op) p

unfoldable pub eval_bit_op : BinaryOp → Value → Value → Pos → Evaluated
unfolding kind_of
eval_bit_op op (int a) (int b) p = bit_op op a b p
eval_bit_op op v w p = fail (needs_ints op (kind_of v) (kind_of w)) p

-- An exact result, or the overflow error of its operator.
abbrev exact_int : BinaryOp → ℤ → ℤ → Pos → ℤ × Bool → Evaluated
exact_int op a b p (n, ovf) = if ovf then fail (int_overflow op a b) p else ok (int n)

module _ (F : FloatOps) where
  open F use {of_int, truncate}

  -- math.Floor of the quotient, by a conversion to int64 where that is exact.
  unfoldable pub floor_div : ℕ → ℕ → ℕ
  floor_div a b =
      let q = F.div a b in
      let t = truncate q in
      if not (F.eq q q) || F.le (of_int (pos (2 ^ 63))) q || F.le q (of_int (negsuc (2 ^ 63 - 1)))
      then q
      else if F.lt q (of_int (pos 0)) && not (F.eq q (of_int t))
      then of_int (t -ℤ pos 1)
      else of_int t

  -- `r - r` is NaN exactly when r is infinite or NaN.
  abbrev finite : BinaryOp → ℕ → ℕ → Pos → ℕ → Evaluated
  finite op a b p r =
      if not (F.eq (F.sub r r) (of_int (pos 0)))
      then fail (float_overflow a op b) p
      else ok (float r)

  abbrev float_op : BinaryOp → ℕ → ℕ → Pos → Evaluated
  float_op op_add a b p = finite op_add a b p (F.add a b)
  float_op op_sub a b p = finite op_sub a b p (F.sub a b)
  float_op op_mul a b p = finite op_mul a b p (F.mul a b)
  float_op op_div a b p =
      if F.eq b (of_int (pos 0)) then fail float_div_zero p else finite op_div a b p (F.div a b)
  float_op op_floor_div a b p =
      if F.eq b (of_int (pos 0))
      then fail float_div_zero p
      else finite op_floor_div a b p (floor_div a b)
  float_op op_mod a b p = fail float_mod p
  float_op op a b p = fail (unknown_op op) p

  abbrev mixed_op : BinaryOp → Value → Value → Pos → Option ℕ → Option ℕ → Evaluated
  mixed_op op v w p (some a) (some b) = float_op op a b p
  mixed_op op v w p _ _ = fail (needs_numeric op (kind_of v) (kind_of w)) p

  -- Ints under `/`, and operators that are no int arithmetic, go on to the float section.
  abbrev int_op : BinaryOp → ℤ → ℤ → Pos → Evaluated
  int_op op_add a b p = exact_int op_add a b p (add_overflow a b)
  int_op op_sub a b p = exact_int op_sub a b p (sub_overflow a b)
  int_op op_mul a b p = exact_int op_mul a b p (mul_overflow a b)
  int_op op_floor_div a b p =
      if eqb_ℤ b (pos 0)
      then fail int_div_zero p
      else if eqb_ℤ a min_int64 && eqb_ℤ b (negsuc 0)
      then fail (int_overflow op_floor_div a b) p
      else ok (int (floored_quot a b))
  int_op op_mod a b p = if eqb_ℤ b (pos 0) then fail int_mod_zero p else ok (int (floored_mod a b))
  int_op op a b p = float_op op (of_int a) (of_int b) p

  unfoldable pub eval_arithmetic : BinaryOp → Value → Value → Pos → Evaluated
  unfolding kind_of as_float floor_div
  eval_arithmetic op_add (string s) (string t) p = ok (string (s ++ t))
  eval_arithmetic op (int a) (int b) p = int_op op a b p
  eval_arithmetic op v w p = mixed_op op v w p (as_float F v) (as_float F w)

  abbrev order_result : BinaryOp → ℤ → Pos → Evaluated
  order_result op_lt sign p = ok (bool (ltb_ℤ sign (pos 0)))
  order_result op_gt sign p = ok (bool (ltb_ℤ (pos 0) sign))
  order_result op_le sign p = ok (bool (leb_ℤ sign (pos 0)))
  order_result op_ge sign p = ok (bool (leb_ℤ (pos 0) sign))
  order_result op sign p = fail (unknown_op op) p

  abbrev float_sign : ℕ → ℕ → ℤ
  float_sign a b = if F.lt a b then negsuc 0 else if F.lt b a then pos 1 else pos 0

  abbrev int_order : BinaryOp → ℤ → ℤ → Pos → Evaluated
  int_order op_lt a b p = ok (bool (ltb_ℤ a b))
  int_order op_gt a b p = ok (bool (ltb_ℤ b a))
  int_order op_le a b p = ok (bool (leb_ℤ a b))
  int_order op_ge a b p = ok (bool (leb_ℤ b a))
  int_order op a b p = order_result op (float_sign (of_int a) (of_int b)) p

  abbrev float_order : BinaryOp → ℕ → ℕ → Pos → Evaluated
  float_order op_lt a b p = ok (bool (F.lt a b))
  float_order op_gt a b p = ok (bool (F.lt b a))
  float_order op_le a b p = ok (bool (F.le a b))
  float_order op_ge a b p = ok (bool (F.le b a))
  float_order op a b p = order_result op (float_sign a b) p

  abbrev string_order : BinaryOp → List ℕ → List ℕ → Pos → Evaluated
  string_order op_lt a b p = ok (bool (text_lt a b))
  string_order op_gt a b p = ok (bool (text_lt b a))
  string_order op_le a b p = ok (bool (not (text_lt b a)))
  string_order op_ge a b p = ok (bool (not (text_lt a b)))
  string_order op a b p = fail (needs_comparable op (kind_of (string a)) (kind_of (string b))) p

  -- The ordering operators; a NaN against an int is unordered.
  unfoldable pub ordering : BinaryOp → Value → Value → Pos → Evaluated
  unfolding kind_of compare_int_float
  ordering op (int a) (int b) p = int_order op a b p
  ordering op (float a) (float b) p = float_order op a b p
  ordering op (int a) (float b) p =
      if not (F.eq b b) then ok (bool false) else order_result op (compare_int_float F a b) p
  ordering op (float a) (int b) p =
      if not (F.eq a a)
      then ok (bool false)
      else order_result op (negated (compare_int_float F b a)) p
  ordering op (string a) (string b) p = string_order op a b p
  ordering op v w p = fail (needs_comparable op (kind_of v) (kind_of w)) p

  unfoldable pub eval_comparison : BinaryOp → Value → Value → Pos → Evaluated
  unfolding ordering equal
  eval_comparison op_eq v w p = ok (bool (equal F v w))
  eval_comparison op_neq v w p = ok (bool (not (equal F v w)))
  eval_comparison op v w p = ordering op v w p

  -- The switch of `evalUnary` on the operand's value.
  unfoldable pub apply_unary : UnaryOp → Value → Pos → Evaluated
  unfolding kind_of
  apply_unary op_neg (int a) p =
      if eqb_ℤ a min_int64 then fail (neg_overflow a) p else ok (int (neg64 a))
  apply_unary op_neg (float a) p = ok (float (F.neg a))
  apply_unary op_not (bool b) p = ok (bool (not b))
  apply_unary op_bit_not (int a) p = ok (int (not64 a))
  apply_unary op v p = fail (unary_needs op (kind_of v)) p

  -- The operator of `evalBinary` on the values of both operands, `and` and `or` excepted.
  unfoldable pub apply_binary : BinaryOp → Value → Value → Pos → Evaluated
  unfolding is_comparison is_bit_op eval_comparison eval_bit_op eval_arithmetic
  apply_binary op v w p =
      if is_comparison op
      then eval_comparison op v w p
      else if is_bit_op op
      then eval_bit_op op v w p
      else eval_arithmetic op v w p
