-- ===== src/IntFast/Sound.antt =====
-- The fast path of internal/interpreter/intfast.go against the evaluation of the expression.
use jennifer.Fold.{stamp_folded}
use jennifer.Fold.Preserves.{evaluate-stamp_folded, stamp_folded-IsStamped, IsStamped}
use jennifer.Eval.Reference.{evaluate}
use jennifer.Common.{
  ◌∙◌, Option, if◌then◌else◌, refl, sym, ◌>>=◌, Bool-cases, inl, inr, none, Bool, List, arith,
  false, negsuc, ok, pos, some, true, ℕ, ℤ, ◌≡◌,
}
use jennifer.Float64.{IsIeee, FloatOps}
use jennifer.Ast.{
  is_comparison, is_or, op_not, binary, unary, index, var, lit, Expr, BinaryOp, op_add, op_sub,
  op_mul, op_floor_div, op_mod, Pos, is_logical,
}
use jennifer.Value.{Value, int, bool, bytes, list}
use jennifer.IntFast.{
  decide_or, same_bool, if-eq-some, fast_condition, bind-eq-some, int_operand, Env, var_value,
  is_int_op, int_element,
}
use jennifer.Arith.{int_arith, int_compare}
use jennifer.Eval.{Evaluated, apply_unary, apply_binary}
use jennifer.Eval.Expr.{
  right_bool, decides, first_of_int, first_of_bool, eval_expr, pos_of, read_var, index_value,
}

var_value_sound :
    (env : Env) (p : Pos) (name : List ℕ) (depth slot : ℤ) (v : Value)
    → var_value env depth slot ≡ some v
    → read_var env p name depth slot ≡ ok v
unfolding var_value read_var
var_value_sound env p name depth (negsuc s) v h = cc
var_value_sound env p name depth (pos s) v h = ground arith

int_element_sound :
    (parent : Value) (i n : ℤ) (p : Pos)
    → int_element parent i ≡ some n
    → index_value parent (int i) p ≡ ok (int n)
unfolding index_value
int_element_sound (bytes s) (pos i) n p h = ground arith
int_element_sound (list t vs) (pos i) n p h = ground arith
int_element_sound v i n p h = cc

-- The short circuit of the fast path is that of the evaluator.
decided :
    (op : BinaryOp) (a b : Bool) (rest : Option Bool) (right : Evaluated) (p : Pos)
    → ((c : Bool) → rest ≡ some c → right ≡ ok (bool c))
    → decide_or (same_bool a (is_or op)) a rest ≡ some b
    → (if decides op a then ok (bool a) else (right >>= right_bool op p)) ≡ ok (bool b)
decided op a b rest right p f h = ground (arith, f b)

module _ (F : FloatOps) where
  int_arith_sound :
      (op : BinaryOp) (a b n : ℤ) (p : Pos)
      → is_int_op op ≡ true
      → int_arith op a b ≡ some n
      → (apply_binary F op (int a) (int b) p ≡ ok (int n)) × (is_logical op ≡ false)
  unfolding int_arith apply_binary is_logical
  int_arith_sound op_add a b n p i h = ground arith
  int_arith_sound op_sub a b n p i h = ground arith
  int_arith_sound op_mul a b n p i h = ground arith
  int_arith_sound op_floor_div a b n p i h = ground arith
  int_arith_sound op_mod a b n p i h = ground arith
  int_arith_sound op a b n p i h = cc

  int_compare_sound :
      (op : BinaryOp) (a b : ℤ) (r : Bool) (p : Pos)
      → int_compare op a b ≡ some r
      → (apply_binary F op (int a) (int b) p ≡ ok (bool r)) × (is_logical op ≡ false)
  unfolding int_compare apply_binary is_logical
  int_compare_sound op a b r p h = ground arith

  -- Where the folded results of an expression are its values, and the fast path reads it as an int,
  -- evaluating it gives that int, and no error.
  pub int_operand_sound :
      (env : Env) (e : Expr) (n : ℤ)
      → IsStamped F e
      → int_operand env e ≡ some n
      → evaluate F env e ≡ ok (int n)
  unfolding int_operand evaluate
  int_operand_sound env (lit p l) n s h = ground arith
  int_operand_sound env (var p name d k) n s h =
      ground (arith, var_value_sound env p name d k (int n))
  int_operand_sound env (index p (var q name d k) i) n s h =
      let (v, ev, h') = bind-eq-some (var_value env d k) _ h in
      let (x, ex, h'') = bind-eq-some (int_operand env i) _ h' in
      rw (var_value_sound env q name d k v ev, int_operand_sound env i x s.1 ex)
        (int_element_sound v x n p h'')
  int_operand_sound env (index p _ i) n s h = cc
  int_operand_sound env (unary p op e k) n s h = cc
  int_operand_sound env (binary p op l r (some k)) n s h = ground (arith, s.2 env)
  int_operand_sound env (binary p op l r none) n s h =
      let (is_op, h1) = if-eq-some (is_int_op op) _ h in
      let (a, ea, h2) = bind-eq-some (int_operand env l) _ h1 in
      let (b, eb, h3) = bind-eq-some (int_operand env r) _ h2 in
      let (value, strict) = int_arith_sound op a b n p is_op h3 in
      rw (strict, int_operand_sound env l a s.0 ea, int_operand_sound env r b s.1 eb) value

  -- Where the folded results of an expression are its values, and the fast path reads it as a bool,
  -- evaluating it gives that bool, and no error.
  pub fast_condition_sound :
      (env : Env) (e : Expr) (b : Bool)
      → IsStamped F e
      → fast_condition env e ≡ some b
      → evaluate F env e ≡ ok (bool b)
  unfolding fast_condition evaluate
  fast_condition_sound env (lit p l) b s h = ground arith
  fast_condition_sound env (var p name d k) b s h =
      ground (arith, var_value_sound env p name d k (bool b))
  fast_condition_sound env (index p t i) b s h = cc
  fast_condition_sound env (unary p op e (some k)) b s h = ground (arith, s.1 env)
  fast_condition_sound env (unary p op_not e none) b s h =
      let (r, er, h') = bind-eq-some (fast_condition env e) _ h in
      rw (fast_condition_sound env e r s.0 er) (unfold apply_unary in ground arith)
  fast_condition_sound env (unary p op e none) b s h = cc
  fast_condition_sound env (binary p op l r (some k)) b s h = ground (arith, s.2 env)
  fast_condition_sound env (binary p op l r none) b s h = elim (Bool-cases (is_logical op)) [
    | inl y ↦
        (let (a, ea, h') = bind-eq-some (fast_condition env l) _ (rw y at h) in
          rw (y, fast_condition_sound env l a s.0 ea)
            (decided op a b (fast_condition env r) (evaluate F env r) (pos_of r)
              (λ c ec. fast_condition_sound env r c s.1 ec) h'))
    | inr n ↦
        (let (c, h0) = if-eq-some (is_comparison op) _ (rw n at h) in
          let (x, ex, h1) = bind-eq-some (int_operand env l) _ h0 in
          let (y, ey, h2) = bind-eq-some (int_operand env r) _ h1 in
          rw (n, int_operand_sound env l x s.0 ex, int_operand_sound env r y s.1 ey)
            (int_compare_sound op x y b p h2).0)
  ]

  first_of_bool_sound :
      (o : Option Bool) (r v : Evaluated)
      → ((b : Bool) → o ≡ some b → v ≡ ok (bool b))
      → r ≡ v
      → first_of_bool o r ≡ v
  first_of_bool_sound none r v f e = e
  first_of_bool_sound (some b) r v f e = sym (f b refl)

  first_of_int_sound :
      (o : Option ℤ) (r v : Evaluated)
      → ((n : ℤ) → o ≡ some n → v ≡ ok (int n))
      → r ≡ v
      → first_of_int o r ≡ v
  first_of_int_sound none r v f e = e
  first_of_int_sound (some n) r v f e = sym (f n refl)

  pub eval_expr-evaluate :
      (env : Env) (e : Expr) → IsStamped F e → eval_expr F env e ≡ evaluate F env e
  unfolding eval_expr evaluate
  eval_expr-evaluate env (lit p l) s = refl
  eval_expr-evaluate env (var p name d k) s = refl
  eval_expr-evaluate env (index p t i) s =
      rw (eval_expr-evaluate env t s.0, eval_expr-evaluate env i s.1)
  eval_expr-evaluate env (unary p op e (some k)) s = sym (s.1 env)
  eval_expr-evaluate env (unary p op e none) s = rw (eval_expr-evaluate env e s.0)
  eval_expr-evaluate env (binary p op l r (some k)) s = sym (s.2 env)
  eval_expr-evaluate env (binary p op l r none) s =
      let whole = binary p op l r none in
      let left =
        first_of_bool_sound (fast_condition env l) (eval_expr F env l) (evaluate F env l)
          (λ b e. fast_condition_sound env l b s.0 e) (eval_expr-evaluate env l s.0) in
      let right =
        first_of_bool_sound (fast_condition env r) (eval_expr F env r >>= right_bool op (pos_of r))
          (evaluate F env r >>= right_bool op (pos_of r))
          (λ b e. rw (fast_condition_sound env r b s.1 e)) (rw (eval_expr-evaluate env r s.1)) in
      elim (Bool-cases (is_logical op)) [
        | inl y ↦ rw y (
            first_of_bool_sound (fast_condition env whole) _ _
              (λ b e. rw y at (fast_condition_sound env whole b s e)) (simp (left, right)))
        | inr n ↦ rw n (elim (Bool-cases (is_comparison op)) [
          | inl c ↦ rw c (
              first_of_bool_sound (fast_condition env whole) _ _
                (λ b e. rw n at (fast_condition_sound env whole b s e))
                (rw (eval_expr-evaluate env l s.0, eval_expr-evaluate env r s.1)))
          | inr d ↦ rw d (
              first_of_int_sound (int_operand env whole) _ _
                (λ b e. rw n at (int_operand_sound env whole b s e))
                (rw (eval_expr-evaluate env l s.0, eval_expr-evaluate env r s.1)))
        ])
      ]

-- For floats where r - r is zero for a finite r alone: an
-- expression evaluates to the same result, error included, whether its constant parts were folded
-- and its int parts are read in place, or each operand is evaluated in turn and then the operator.
pub eval_expr-stamp_folded :
    (F : FloatOps)
    → IsIeee F
    → (env : Env) (e : Expr) → eval_expr F env (stamp_folded F e) ≡ evaluate F env e
eval_expr-stamp_folded F ieee env e =
    eval_expr-evaluate F env (stamp_folded F e) (stamp_folded-IsStamped F ieee e)
    ∙ evaluate-stamp_folded F ieee env e
