-- ===== src/Eval/Expr.antt =====
-- `evalExpr` on literals, variables, index expressions and operators, with the folded results and
-- the integer fast path that it takes. Environments are only read here.
use jennifer.Common.{
  Bool, List, Option, Result, err, get_elem?, if◌then◌else◌, length, negsuc, none, not, ok, pos,
  some, suc, ℕ, ℤ, ◌>>=◌,
}
use jennifer.Float64.{FloatOps}
use jennifer.Ast.{
  BinaryOp, Expr, lit, var, index, unary, binary, Pos, Lit, int_lit, float_lit, string_lit,
  bool_lit, null_lit, is_comparison, is_logical, is_or,
}
use jennifer.Value.{
  nil, cons, Values, Value, null, int, float, string, bool, bytes, list, kind_of, kind_list,
  kind_bytes,
}
use jennifer.Env.{get, get_at}
use jennifer.IntFast.{Env, int_operand, fast_condition, values_at}
use jennifer.Eval.{
  Evaluated, RuntimeError, fail, env_error, index_not_int, index_out_of_bounds, cannot_index,
  left_not_bool, right_not_bool, apply_unary, apply_binary,
}

-- The value of a literal expression.
abbrev pub lit_value : Lit → Value
lit_value (int_lit n) = int n
lit_value (float_lit f) = float f
lit_value (string_lit s) = string s
lit_value (bool_lit b) = bool b
lit_value null_lit = null

abbrev pub length_values : Values → ℕ
length_values nil = 0
length_values (cons v vs) = suc (length_values vs)

unfoldable pub read_var : Env → Pos → List ℕ → ℤ → ℤ → Evaluated
unfolding get get_at
read_var env p name depth (pos s) = elim (get_at env depth (pos s) name) [
  | ok v ↦ ok v
  | err e ↦ fail (env_error e) p
]
read_var env p name depth (negsuc s) = elim (get env name) [
  | ok v ↦ ok v
  | err e ↦ fail (env_error e) p
]

abbrev found_byte : Option ℕ → ℤ → ℕ → Pos → Evaluated
found_byte (some c) i n p = ok (int (pos c))
found_byte none i n p = fail (index_out_of_bounds kind_bytes i n) p

abbrev found_value : Option Value → ℤ → ℕ → Pos → Evaluated
found_value (some v) i n p = ok v
found_value none i n p = fail (index_out_of_bounds kind_list i n) p

-- `readByteAt`, and `indexInto` on a list or on a value that has no elements.
unfoldable pub index_value : Value → Value → Pos → Evaluated
unfolding kind_of
index_value (bytes s) (int (pos i)) p = found_byte (get_elem? s i) (pos i) (length s) p
index_value (bytes s) (int (negsuc i)) p =
    fail (index_out_of_bounds kind_bytes (negsuc i) (length s)) p
index_value (bytes s) v p = fail (index_not_int kind_bytes (kind_of v)) p
index_value (list t vs) (int (pos i)) p = found_value (values_at vs i) (pos i) (length_values vs) p
index_value (list t vs) (int (negsuc i)) p =
    fail (index_out_of_bounds kind_list (negsuc i) (length_values vs)) p
index_value (list t vs) v p = fail (index_not_int kind_list (kind_of v)) p
index_value w v p = fail (cannot_index (kind_of w)) p

-- The checks of `and` and `or` on the value of an operand.
abbrev pub left_bool : BinaryOp → Pos → Value → Result RuntimeError Bool
left_bool op p (bool b) = ok b
left_bool op p v = fail (left_not_bool op (kind_of v)) p

abbrev pub right_bool : BinaryOp → Pos → Value → Evaluated
right_bool op p (bool b) = ok (bool b)
right_bool op p v = fail (right_not_bool op (kind_of v)) p

abbrev pub pos_of : Expr → Pos
pos_of (lit p l) = p
pos_of (var p n d s) = p
pos_of (index p t i) = p
pos_of (unary p op e k) = p
pos_of (binary p op l r k) = p

abbrev pub first_of_bool : Option Bool → Evaluated → Evaluated
first_of_bool (some b) rest = ok (bool b)
first_of_bool none rest = rest

abbrev pub first_of_int : Option ℤ → Evaluated → Evaluated
first_of_int (some n) rest = ok (int n)
first_of_int none rest = rest

-- `and` is decided by false, `or` by true.
abbrev pub decides : BinaryOp → Bool → Bool
decides op b = if is_or op then b else not b

module _ (F : FloatOps) where
  -- The answers of the fast path, the operator's value otherwise.
  abbrev fast_binary : Env → Expr → BinaryOp → Evaluated → Evaluated
  fast_binary env e op rest =
      if is_comparison op
      then first_of_bool (fast_condition env e) rest
      else first_of_int (int_operand env e) rest

  unfoldable pub eval_expr : Env → Expr → Evaluated
  unfolding is_comparison is_logical
  eval_expr env (lit p l) = ok (lit_value l)
  eval_expr env (var p name depth slot) = read_var env p name depth slot
  eval_expr env (index p target i) =
      eval_expr env target >>= λ t. eval_expr env i >>= λ v. index_value t v p
  eval_expr env (unary p op e (some k)) = ok (lit_value k)
  eval_expr env (unary p op e none) = eval_expr env e >>= λ v. apply_unary F op v p
  eval_expr env (binary p op l r (some k)) = ok (lit_value k)
  eval_expr env (binary p op l r none) =
      let lv = eval_expr env l in
      let rv = eval_expr env r in
      if is_logical op
      then first_of_bool (fast_condition env (binary p op l r none)) (
          first_of_bool (fast_condition env l) lv >>= left_bool op (pos_of l) >>= λ a.
          if decides op a
          then ok (bool a)
          else (first_of_bool (fast_condition env r) (rv >>= right_bool op (pos_of r))))
      else fast_binary env (binary p op l r none) op
          (lv >>= λ a. rv >>= λ b. apply_binary F op a b p)
