-- ===== src/Eval/Reference.antt =====
-- The evaluation of operators as the language defines it: each operand in turn, then the operator.
-- No result is folded and nothing is read in place.
use jennifer.Common.{if◌then◌else◌, ok, ◌>>=◌}
use jennifer.Float64.{FloatOps}
use jennifer.Ast.{Expr, lit, var, index, unary, binary, is_logical}
use jennifer.IntFast.{Env}
use jennifer.Value.{bool}
use jennifer.Eval.{Evaluated, apply_unary, apply_binary}
use jennifer.Eval.Expr.{lit_value, read_var, index_value, left_bool, right_bool, pos_of, decides}

module _ (F : FloatOps) where
  unfoldable pub evaluate : Env → Expr → Evaluated
  unfolding is_logical
  evaluate env (lit p l) = ok (lit_value l)
  evaluate env (var p name depth slot) = read_var env p name depth slot
  evaluate env (index p target i) =
      evaluate env target >>= λ t. evaluate env i >>= λ v. index_value t v p
  evaluate env (unary p op e k) = evaluate env e >>= λ v. apply_unary F op v p
  evaluate env (binary p op l r k) =
      let lv = evaluate env l in
      let rv = evaluate env r in
      if is_logical op
      then (lv >>= left_bool op (pos_of l) >>= λ a.
          if decides op a then ok (bool a) else (rv >>= right_bool op (pos_of r)))
      else (lv >>= λ a. rv >>= λ b. apply_binary F op a b p)
