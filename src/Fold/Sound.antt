-- ===== src/Fold/Sound.antt =====
-- The folder of internal/parser/fold.go against the operators of the evaluator.
use jennifer.Common.{List, ℕ, Bool, arith, false, ok, some, ℤ, ◌≡◌}
use jennifer.Float64.{FloatOps, IsIeee}
use jennifer.Ast.{
  op_mul, op_neg, op_sub, UnaryOp, float_lit, string_lit, BinaryOp, op_add, op_div, Pos, Lit,
  int_lit, bool_lit, null_lit, is_logical,
}
use jennifer.Eval.{apply_unary, apply_binary}
use jennifer.Eval.Expr.{lit_value}
use jennifer.Fold.{try_fold_unary, try_fold_binary}
use jennifer.Arith.{add_overflow, sub_overflow, mul_overflow}

module _ (F : FloatOps) (ieee : IsIeee F) where
  fold_null_sound :
      (op : BinaryOp) (k : Lit) (p : Pos)
      → is_logical op ≡ false
      → try_fold_binary F op null_lit null_lit ≡ some k
      → apply_binary F op (lit_value null_lit) (lit_value null_lit) p ≡ ok (lit_value k)
  unfolding is_logical try_fold_binary apply_binary
  fold_null_sound op k p nl h = ground arith

  fold_bool_sound :
      (op : BinaryOp) (l r : Bool) (k : Lit) (p : Pos)
      → is_logical op ≡ false
      → try_fold_binary F op (bool_lit l) (bool_lit r) ≡ some k
      → apply_binary F op (lit_value (bool_lit l)) (lit_value (bool_lit r)) p ≡ ok (lit_value k)
  unfolding is_logical try_fold_binary apply_binary
  fold_bool_sound op l r k p nl h = ground arith

  fold_int_sound :
      (op : BinaryOp) (l r : ℤ) (k : Lit) (p : Pos)
      → is_logical op ≡ false
      → try_fold_binary F op (int_lit l) (int_lit r) ≡ some k
      → apply_binary F op (lit_value (int_lit l)) (lit_value (int_lit r)) p ≡ ok (lit_value k)
  unfolding is_logical try_fold_binary apply_binary add_overflow sub_overflow mul_overflow
  fold_int_sound op_add l r k p nl h = ground arith
  fold_int_sound op_div l r k p nl h =
      ground (arith, ieee.sub_self (F.div (F.of_int l) (F.of_int r)))
  fold_int_sound op l r k p nl h = ground arith

  fold_string_sound :
      (op : BinaryOp) (l r : List ℕ) (k : Lit) (p : Pos)
      → is_logical op ≡ false
      → try_fold_binary F op (string_lit l) (string_lit r) ≡ some k
      → apply_binary F op (lit_value (string_lit l)) (lit_value (string_lit r)) p ≡ ok (lit_value k)
  unfolding is_logical try_fold_binary apply_binary
  fold_string_sound op_add l r k p nl h = ground arith
  fold_string_sound op l r k p nl h = ground arith

  fold_mixed_sound :
      (op : BinaryOp) (l : ℤ) (r : ℕ) (k : Lit) (p : Pos)
      → is_logical op ≡ false
      → try_fold_binary F op (int_lit l) (float_lit r) ≡ some k
      → apply_binary F op (lit_value (int_lit l)) (lit_value (float_lit r)) p ≡ ok (lit_value k)
  unfolding is_logical try_fold_binary apply_binary
  fold_mixed_sound op_add l r k p nl h = ground (arith, ieee.sub_self (F.add (F.of_int l) r))
  fold_mixed_sound op_sub l r k p nl h = ground (arith, ieee.sub_self (F.sub (F.of_int l) r))
  fold_mixed_sound op_mul l r k p nl h = ground (arith, ieee.sub_self (F.mul (F.of_int l) r))
  fold_mixed_sound op_div l r k p nl h = ground (arith, ieee.sub_self (F.div (F.of_int l) r))
  fold_mixed_sound op l r k p nl h = cc

  fold_mixed_sound' :
      (op : BinaryOp) (l : ℕ) (r : ℤ) (k : Lit) (p : Pos)
      → is_logical op ≡ false
      → try_fold_binary F op (float_lit l) (int_lit r) ≡ some k
      → apply_binary F op (lit_value (float_lit l)) (lit_value (int_lit r)) p ≡ ok (lit_value k)
  unfolding is_logical try_fold_binary apply_binary
  fold_mixed_sound' op_add l r k p nl h = ground (arith, ieee.sub_self (F.add l (F.of_int r)))
  fold_mixed_sound' op_sub l r k p nl h = ground (arith, ieee.sub_self (F.sub l (F.of_int r)))
  fold_mixed_sound' op_mul l r k p nl h = ground (arith, ieee.sub_self (F.mul l (F.of_int r)))
  fold_mixed_sound' op_div l r k p nl h = ground (arith, ieee.sub_self (F.div l (F.of_int r)))
  fold_mixed_sound' op l r k p nl h = cc

  fold_float_sound :
      (op : BinaryOp) (l r : ℕ) (k : Lit) (p : Pos)
      → is_logical op ≡ false
      → try_fold_binary F op (float_lit l) (float_lit r) ≡ some k
      → apply_binary F op (lit_value (float_lit l)) (lit_value (float_lit r)) p ≡ ok (lit_value k)
  unfolding is_logical try_fold_binary apply_binary
  fold_float_sound op_add l r k p nl h = ground (arith, ieee.sub_self (F.add l r))
  fold_float_sound op_sub l r k p nl h = ground (arith, ieee.sub_self (F.sub l r))
  fold_float_sound op_mul l r k p nl h = ground (arith, ieee.sub_self (F.mul l r))
  fold_float_sound op_div l r k p nl h = ground (arith, ieee.sub_self (F.div l r))
  fold_float_sound op l r k p nl h = ground arith

  -- For floats where r - r is zero for a finite r alone, and literal operands of an operator other than `and` and `or`: where the folder gives a literal,
  -- the evaluator gives its value, and no error.
  pub try_fold_binary_sound :
      (op : BinaryOp) (l r k : Lit) (p : Pos)
      → is_logical op ≡ false
      → try_fold_binary F op l r ≡ some k
      → apply_binary F op (lit_value l) (lit_value r) p ≡ ok (lit_value k)
  try_fold_binary_sound op (int_lit l) (int_lit r) k p nl h = fold_int_sound op l r k p nl h
  try_fold_binary_sound op (int_lit l) (float_lit r) k p nl h = fold_mixed_sound op l r k p nl h
  try_fold_binary_sound op (float_lit l) (int_lit r) k p nl h = fold_mixed_sound' op l r k p nl h
  try_fold_binary_sound op (float_lit l) (float_lit r) k p nl h = fold_float_sound op l r k p nl h
  try_fold_binary_sound op (string_lit l) (string_lit r) k p nl h =
      fold_string_sound op l r k p nl h
  try_fold_binary_sound op (bool_lit l) (bool_lit r) k p nl h = fold_bool_sound op l r k p nl h
  try_fold_binary_sound op null_lit null_lit k p nl h = fold_null_sound op k p nl h
  try_fold_binary_sound op l r k p nl h = unfold try_fold_binary in cc

  -- For floats where r - r is zero for a finite r alone: where the folder gives a literal for a unary
  -- operator on a literal, the evaluator gives its value,
  -- and no error.
  pub try_fold_unary_sound :
      (op : UnaryOp) (l k : Lit) (p : Pos)
      → try_fold_unary F op l ≡ some k
      → apply_unary F op (lit_value l) p ≡ ok (lit_value k)
  unfolding try_fold_unary apply_unary
  try_fold_unary_sound op_neg l k p h = ground arith
  try_fold_unary_sound op l k p h = ground arith
