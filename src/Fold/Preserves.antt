-- ===== src/Fold/Preserves.antt =====
-- The stamps of constant folding (internal/parser/fold.go, internal/parser/resolver.go) against the
-- evaluation of the expression.
use jennifer.Common.{
  Bool-cases, arith, if◌then◌else◌, inl, inr, refl, true, ◌>>=◌, Option, none, ok, some, ◌≡◌,
}
use jennifer.Float64.{FloatOps, IsIeee}
use jennifer.Ast.{
  BinaryOp, op_and, op_or, UnaryOp, Expr, lit, var, index, unary, binary, Pos, Lit, is_logical,
}
use jennifer.IntFast.{Env}
use jennifer.Value.{bool}
use jennifer.Eval.Expr.{lit_value, left_bool, right_bool, pos_of, decides}
use jennifer.Eval.Reference.{evaluate}
use jennifer.Fold.{
  as_lit, try_fold_binary, try_fold_unary, stamp_folded, fold_operand, fold_operands,
}
use jennifer.Fold.Sound.{try_fold_binary_sound, try_fold_unary_sound}

module _ (F : FloatOps) where
  -- Every result that an expression was folded to is its value.
  abbrev pub AgreesWith : Expr → Option Lit → Type 0
  AgreesWith e none = Unit {0}
  AgreesWith e (some k) = (env : Env) → evaluate F env e ≡ ok (lit_value k)

  abbrev pub IsStamped : Expr → Type 0
  IsStamped (lit p l) = Unit {0}
  IsStamped (var p n d s) = Unit {0}
  IsStamped (index p t i) = IsStamped t × IsStamped i
  IsStamped (unary p op e k) = IsStamped e × AgreesWith (unary p op e k) k
  IsStamped (binary p op l r k) = IsStamped l × IsStamped r × AgreesWith (binary p op l r k) k

module _ (F : FloatOps) (ieee : IsIeee F) where
  as_lit_sound :
      (env : Env) (e : Expr) (l : Lit)
      → IsStamped F e
      → as_lit e ≡ some l
      → evaluate F env e ≡ ok (lit_value l)
  unfolding as_lit evaluate
  as_lit_sound env (lit p k) l h q = cc
  as_lit_sound env (unary p op e none) l h q = cc
  as_lit_sound env (unary p op e (some k)) l h q = cc (h.1 env)
  as_lit_sound env (binary p op e f none) l h q = cc
  as_lit_sound env (binary p op e f (some k)) l h q = cc (h.2 env)
  as_lit_sound env e l h q = cc

  agrees_intro :
      (e : Expr) (o : Option Lit)
      → ((k : Lit) → o ≡ some k → (env : Env) → evaluate F env e ≡ ok (lit_value k))
      → AgreesWith F e o
  agrees_intro e none f = tt
  agrees_intro e (some k) f = f k refl

  unary_value :
      (env : Env) (p : Pos) (op : UnaryOp) (e : Expr) (f : Option Lit) (l k : Lit)
      → evaluate F env e ≡ ok (lit_value l)
      → try_fold_unary F op l ≡ some k
      → evaluate F env (unary p op e f) ≡ ok (lit_value k)
  unfolding evaluate
  unary_value env p op e f l k q h = rw q (try_fold_unary_sound F ieee op l k p h)

  fold_operand_agrees :
      (p : Pos) (op : UnaryOp) (e : Expr) (f o : Option Lit)
      → IsStamped F e
      → as_lit e ≡ o
      → AgreesWith F (unary p op e f) (fold_operand F op o)
  fold_operand_agrees p op e f none h q = tt
  fold_operand_agrees p op e f (some l) h q =
      agrees_intro (unary p op e f) _
        (λ k r env. unary_value env p op e f l k (as_lit_sound env e l h q) r)

  -- `and` and `or` fold on two bools alone.
  fold_logical_sound :
      (op : BinaryOp) (l r k : Lit) (p q : Pos)
      → is_logical op ≡ true
      → try_fold_binary F op l r ≡ some k
      → (left_bool op p (lit_value l) >>= λ a.
          if decides op a then ok (bool a) else right_bool op q (lit_value r))
        ≡ ok (lit_value k)
  unfolding is_logical try_fold_binary
  fold_logical_sound op_and l r k p q h e = ground arith
  fold_logical_sound op_or l r k p q h e = ground arith
  fold_logical_sound op l r k p q h e = cc

  binary_value :
      (env : Env) (p : Pos) (op : BinaryOp) (l r : Expr) (f : Option Lit) (a b k : Lit)
      → evaluate F env l ≡ ok (lit_value a)
      → evaluate F env r ≡ ok (lit_value b)
      → try_fold_binary F op a b ≡ some k
      → evaluate F env (binary p op l r f) ≡ ok (lit_value k)
  unfolding evaluate
  binary_value env p op l r f a b k ha hb h = elim (Bool-cases (is_logical op)) [
    | inl y ↦ rw (y, ha, hb) (fold_logical_sound op a b k (pos_of l) (pos_of r) y h)
    | inr n ↦ rw (n, ha, hb) (try_fold_binary_sound F ieee op a b k p n h)
  ]

  fold_operands_agrees :
      (p : Pos) (op : BinaryOp) (l r : Expr) (f o u : Option Lit)
      → IsStamped F l
      → IsStamped F r
      → as_lit l ≡ o
      → as_lit r ≡ u
      → AgreesWith F (binary p op l r f) (fold_operands F op o u)
  fold_operands_agrees p op l r f (some a) (some b) hl hr ql qr =
      agrees_intro (binary p op l r f) _ (λ k e env.
        binary_value env p op l r f a b k (as_lit_sound env l a hl ql) (as_lit_sound env r b hr qr)
          e)
  fold_operands_agrees p op l r f _ _ hl hr ql qr = tt

  -- For floats where r - r is zero for a finite r alone: after folding, each result that was stored
  -- in an expression or a part of it is the value of that part, in every environment.
  pub stamp_folded-IsStamped : (e : Expr) → IsStamped F (stamp_folded F e)
  unfolding stamp_folded
  stamp_folded-IsStamped (lit p l) = tt
  stamp_folded-IsStamped (var p n d s) = tt
  stamp_folded-IsStamped (index p t i) = (stamp_folded-IsStamped t, stamp_folded-IsStamped i)
  stamp_folded-IsStamped (unary p op e k) =
      (stamp_folded-IsStamped e, fold_operand_agrees p op _ _ _ (stamp_folded-IsStamped e) refl)
  stamp_folded-IsStamped (binary p op l r k) = (
    stamp_folded-IsStamped l,
    stamp_folded-IsStamped r,
    fold_operands_agrees p op _ _ _ _ _ (stamp_folded-IsStamped l) (stamp_folded-IsStamped r) refl
        refl,
  )

  pos_of-stamp_folded : (e : Expr) → pos_of (stamp_folded F e) ≡ pos_of e
  unfolding stamp_folded
  pos_of-stamp_folded (lit p l) = refl
  pos_of-stamp_folded _ = refl

  -- The reference evaluation does not read the results that folding stores.
  pub evaluate-stamp_folded :
      (env : Env) (e : Expr) → evaluate F env (stamp_folded F e) ≡ evaluate F env e
  unfolding evaluate stamp_folded
  evaluate-stamp_folded env (lit p l) = refl
  evaluate-stamp_folded env (var p n d s) = refl
  evaluate-stamp_folded env (index p t i) =
      rw (evaluate-stamp_folded env t, evaluate-stamp_folded env i)
  evaluate-stamp_folded env (unary p op e k) = rw (evaluate-stamp_folded env e)
  evaluate-stamp_folded env (binary p op l r k) = simp (
    evaluate-stamp_folded env l,
    evaluate-stamp_folded env r,
    pos_of-stamp_folded l,
    pos_of-stamp_folded r,
  )
