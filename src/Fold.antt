-- ===== src/Fold.antt =====
-- internal/parser/fold.go: constant folding at parse time, and the two cases of `resolveExpr`
-- (internal/parser/resolver.go) that stamp its results. `none` is a nil Folded.
use jennifer.Common.{
  Bool, List, Option, eqb_ℤ, false, if◌then◌else◌, leb_ℤ, length, ltb, ltb_ℤ, negsuc, none, not,
  pos, pos_part, some, text_eq, text_lt, true, ℕ, ℤ, ◌&&◌, ◌++◌, ◌+◌, ◌||◌,
}
pub mod Preserves
pub mod Sound
use jennifer.Float64.{FloatOps, is_inf, is_nan}
use jennifer.Int64.{
  min_int64, add64, sub64, mul64, div64, neg64, not64, and64, or64, xor64, shl64, shr64,
}
use jennifer.Ast.{
  BinaryOp, op_add, op_sub, op_mul, op_div, op_floor_div, op_mod, op_lt, op_gt, op_le, op_ge, op_eq,
  op_neq, op_and, op_or, op_bit_or, op_bit_xor, op_bit_and, op_shl, op_shr, UnaryOp, op_neg, op_not,
  op_bit_not, Expr, lit, var, index, unary, binary, Lit, int_lit, float_lit, string_lit, bool_lit,
  null_lit, is_comparison,
}
use jennifer.Arith.{floored_mod, floored_quot, xor_bool}

abbrev max_fold_string_bytes : ℕ
max_fold_string_bytes = 65536

-- The literal that an expression is, or was folded to.
unfoldable pub as_lit : Expr → Option Lit
as_lit (lit p l) = some l
as_lit (unary p op e folded) = folded
as_lit (binary p op l r folded) = folded
as_lit _ = none

abbrev fold_bool : BinaryOp → Bool → Bool → Option Lit
fold_bool op_and l r = some (bool_lit (l && r))
fold_bool op_or l r = some (bool_lit (l || r))
fold_bool op_eq l r = some (bool_lit (not (xor_bool l r)))
fold_bool op_neq l r = some (bool_lit (xor_bool l r))
fold_bool _ l r = none

abbrev fold_string : BinaryOp → List ℕ → List ℕ → Option Lit
fold_string op_add l r =
    if ltb max_fold_string_bytes (length l + length r) then none else some (string_lit (l ++ r))
fold_string op_eq l r = some (bool_lit (text_eq l r))
fold_string op_neq l r = some (bool_lit (not (text_eq l r)))
fold_string op_lt l r = some (bool_lit (text_lt l r))
fold_string op_gt l r = some (bool_lit (text_lt r l))
fold_string op_le l r = some (bool_lit (not (text_lt r l)))
fold_string op_ge l r = some (bool_lit (not (text_lt l r)))
fold_string _ l r = none

abbrev fold_null : BinaryOp → Option Lit
fold_null op_eq = some (bool_lit true)
fold_null op_neq = some (bool_lit false)
fold_null _ = none

-- The overflow tests of the folder, written out again as there.
abbrev fold_add : ℤ → ℤ → Option Lit
fold_add l r =
    let s = add64 l r in
    if (ltb_ℤ (pos 0) l && ltb_ℤ (pos 0) r && ltb_ℤ s (pos 0))
      || (ltb_ℤ l (pos 0) && ltb_ℤ r (pos 0) && leb_ℤ (pos 0) s)
    then none
    else some (int_lit s)

abbrev fold_sub : ℤ → ℤ → Option Lit
fold_sub l r =
    let d = sub64 l r in
    if (leb_ℤ (pos 0) l && ltb_ℤ r (pos 0) && ltb_ℤ d (pos 0))
      || (ltb_ℤ l (pos 0) && ltb_ℤ (pos 0) r && leb_ℤ (pos 0) d)
    then none
    else some (int_lit d)

abbrev fold_mul : ℤ → ℤ → Option Lit
fold_mul l r =
    if eqb_ℤ l (pos 0) || eqb_ℤ r (pos 0)
    then some (int_lit (pos 0))
    else if (eqb_ℤ l min_int64 && eqb_ℤ r (negsuc 0)) || (eqb_ℤ r min_int64 && eqb_ℤ l (negsuc 0))
    then none
    else (let p = mul64 l r in if not (eqb_ℤ (div64 p l) r) then none else some (int_lit p))

abbrev fold_shl : ℤ → ℤ → Option Lit
fold_shl l r =
    if ltb_ℤ r (pos 0)
    then none
    else if leb_ℤ (pos 64) r
    then some (int_lit (pos 0))
    else some (int_lit (shl64 l (pos_part r)))

abbrev fold_shr : ℤ → ℤ → Option Lit
fold_shr l r =
    if ltb_ℤ r (pos 0)
    then none
    else if leb_ℤ (pos 64) r
    then (if ltb_ℤ l (pos 0) then some (int_lit (negsuc 0)) else some (int_lit (pos 0)))
    else some (int_lit (shr64 l (pos_part r)))

module _ (F : FloatOps) where
  open F use {of_int}

  abbrev fold_float : ℕ → Option Lit
  fold_float v = if is_inf v || is_nan v then none else some (float_lit v)

  -- The comparisons of two floats, and the arithmetic of promoted operands.
  abbrev fold_float_compare : BinaryOp → ℕ → ℕ → Option Lit
  fold_float_compare op_eq l r = some (bool_lit (F.eq l r))
  fold_float_compare op_neq l r = some (bool_lit (not (F.eq l r)))
  fold_float_compare op_lt l r = some (bool_lit (F.lt l r))
  fold_float_compare op_gt l r = some (bool_lit (F.lt r l))
  fold_float_compare op_le l r = some (bool_lit (F.le l r))
  fold_float_compare op_ge l r = some (bool_lit (F.le r l))
  fold_float_compare _ l r = none

  abbrev fold_float_arith : BinaryOp → ℕ → ℕ → Option Lit
  fold_float_arith op_add l r = fold_float (F.add l r)
  fold_float_arith op_sub l r = fold_float (F.sub l r)
  fold_float_arith op_mul l r = fold_float (F.mul l r)
  fold_float_arith op_div l r = if F.eq r (of_int (pos 0)) then none else fold_float (F.div l r)
  fold_float_arith _ l r = none

  abbrev fold_int : BinaryOp → ℤ → ℤ → Option Lit
  fold_int op_eq l r = some (bool_lit (eqb_ℤ l r))
  fold_int op_neq l r = some (bool_lit (not (eqb_ℤ l r)))
  fold_int op_lt l r = some (bool_lit (ltb_ℤ l r))
  fold_int op_gt l r = some (bool_lit (ltb_ℤ r l))
  fold_int op_le l r = some (bool_lit (leb_ℤ l r))
  fold_int op_ge l r = some (bool_lit (leb_ℤ r l))
  fold_int op_add l r = fold_add l r
  fold_int op_sub l r = fold_sub l r
  fold_int op_mul l r = fold_mul l r
  fold_int op_floor_div l r =
      if eqb_ℤ r (pos 0) || (eqb_ℤ l min_int64 && eqb_ℤ r (negsuc 0))
      then none
      else some (int_lit (floored_quot l r))
  fold_int op_mod l r = if eqb_ℤ r (pos 0) then none else some (int_lit (floored_mod l r))
  fold_int op_bit_and l r = some (int_lit (and64 l r))
  fold_int op_bit_or l r = some (int_lit (or64 l r))
  fold_int op_bit_xor l r = some (int_lit (xor64 l r))
  fold_int op_shl l r = fold_shl l r
  fold_int op_shr l r = fold_shr l r
  fold_int op l r = fold_float_arith op (of_int l) (of_int r)

  -- Promoted operands: a comparison of an int with a float is left to the runtime.
  abbrev fold_mixed : BinaryOp → ℕ → ℕ → Option Lit
  fold_mixed op l r = if is_comparison op then none else fold_float_arith op l r

  abbrev fold_floats : BinaryOp → ℕ → ℕ → Option Lit
  fold_floats op l r =
      if is_comparison op then fold_float_compare op l r else fold_float_arith op l r

  unfoldable pub try_fold_binary : BinaryOp → Lit → Lit → Option Lit
  unfolding is_comparison floored_quot floored_mod
  try_fold_binary op (string_lit l) (string_lit r) = fold_string op l r
  try_fold_binary op (bool_lit l) (bool_lit r) = fold_bool op l r
  try_fold_binary op null_lit null_lit = fold_null op
  try_fold_binary op (int_lit l) (int_lit r) = fold_int op l r
  try_fold_binary op (int_lit l) (float_lit r) = fold_mixed op (of_int l) r
  try_fold_binary op (float_lit l) (int_lit r) = fold_mixed op l (of_int r)
  try_fold_binary op (float_lit l) (float_lit r) = fold_floats op l r
  try_fold_binary op _ _ = none

  unfoldable pub try_fold_unary : UnaryOp → Lit → Option Lit
  try_fold_unary op_neg (int_lit v) = if eqb_ℤ v min_int64 then none else some (int_lit (neg64 v))
  try_fold_unary op_neg (float_lit v) = some (float_lit (F.neg v))
  try_fold_unary op_not (bool_lit v) = some (bool_lit (not v))
  try_fold_unary op_bit_not (int_lit v) = some (int_lit (not64 v))
  try_fold_unary _ _ = none

  abbrev pub fold_operands : BinaryOp → Option Lit → Option Lit → Option Lit
  fold_operands op (some l) (some r) = try_fold_binary op l r
  fold_operands op _ _ = none

  abbrev pub fold_operand : UnaryOp → Option Lit → Option Lit
  fold_operand op (some l) = try_fold_unary op l
  fold_operand op none = none

  -- What `resolveExpr` leaves in the `Folded` fields of an expression.
  unfoldable pub stamp_folded : Expr → Expr
  unfolding as_lit try_fold_binary try_fold_unary
  stamp_folded (lit p l) = lit p l
  stamp_folded (var p name depth slot) = var p name depth slot
  stamp_folded (index p t i) = index p (stamp_folded t) (stamp_folded i)
  stamp_folded (unary p op e k) =
      let e' = stamp_folded e in unary p op e' (fold_operand op (as_lit e'))
  stamp_folded (binary p op l r k) =
      let l' = stamp_folded l in
      let r' = stamp_folded r in binary p op l' r' (fold_operands op (as_lit l') (as_lit r'))
