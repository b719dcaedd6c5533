-- ===== src/Exec/Halts/Simple.antt =====
-- Fuel and the statements of internal/interpreter/interpreter.go that run no other.
use jennifer.Exec.Update.{append_path, write_path}
use jennifer.Eval.Expr.{pos_of, eval_expr}
use jennifer.IntFast.{fast_condition}
use jennifer.Value.Types.{matches_declared}
use jennifer.Eval.{Context}
use jennifer.Exec.Halts.{
  update_env-Halts, lift-Halts, fault-Halts, thrown, exit, pure-Halts, try_update-Halts,
  get_env-Halts, if-Halts, raise-Halts, then-Halts, Halts,
}
use jennifer.Exec.Syntax.{Step, Rhs}
use jennifer.Value.{int, bool, Value}
use jennifer.Env.{get_binding_root, Binding, EnvError}
use jennifer.Float64.{FloatOps}
use jennifer.Exec.Simple.{
  takes_append, is_bare, exec_append, fast_rhs, root_bound, bound, exit_code, or_step, bool_of,
  slow_assign, exec_throw, exec_exit, exec_index_assign, eval_steps, eval_bool, eval, root_binding,
  exec_assign, exec_define,
}
use jennifer.Ast.{Expr, DeclType, Pos}
use jennifer.Common.{◌&&◌, Result, [], not, pos, ℤ, ◌∷◌, List, Option, none, some, ok, err, ℕ, Bool}
use jennifer.Exec.Machine.{M}

bound-Halts : (p : Pos) (r : Result EnvError (Binding Value DeclType)) → Halts (bound p r)
bound-Halts p (ok b) = pure-Halts b
bound-Halts p (err e) = fault-Halts _

root_bound-Halts :
    (p : Pos) (name : List ℕ) (r : Result EnvError (Binding Value DeclType))
    → Halts (root_bound p name r)
root_bound-Halts p name (ok b) = pure-Halts b
root_bound-Halts p name (err e) = fault-Halts _

pub exec_define-Halts :
    (p : Pos) (name : List ℕ) (t : DeclType) (c : Bool) (slot : ℤ) (rhs : M Value)
    → Halts rhs
    → Halts (exec_define p name t c slot rhs)
unfolding exec_define
exec_define-Halts p name t c slot rhs h =
    then-Halts _ _ h
      λ v. if-Halts (not (matches_declared t v)) (fault-Halts _) (update_env-Halts p _)

slow_assign-Halts :
    (p : Pos) (name : List ℕ) (depth slot : ℤ) (rhs : M Value)
    → Halts rhs
    → Halts (slow_assign p name depth slot rhs)
slow_assign-Halts p name depth slot rhs h = then-Halts _ _ h λ v.
    then-Halts _ _ get_env-Halts λ env.
      then-Halts _ _ (bound-Halts p (get_binding_root env name depth slot))
        λ b. if-Halts (not (matches_declared b.decl_type v)) (fault-Halts _) (update_env-Halts p _)

pub exec_assign-Halts :
    (p : Pos) (name : List ℕ) (depth slot : ℤ) (r : Rhs) (rhs : M Value)
    → Halts rhs
    → Halts (exec_assign p name depth slot r rhs)
unfolding exec_assign
exec_assign-Halts p name depth slot r rhs h =
    then-Halts _ _ (try_update-Halts (fast_rhs depth slot r))
      λ d. if-Halts d (pure-Halts tt) (slow_assign-Halts p name depth slot rhs h)

root_binding-Halts :
    (p : Pos) (name : List ℕ) (depth slot : ℤ) → Halts (root_binding p name depth slot)
unfolding root_binding
root_binding-Halts p name depth slot =
    then-Halts _ _ get_env-Halts
      λ env. root_bound-Halts p name (get_binding_root env name depth slot)

module _ (F : FloatOps) where
  pub eval-Halts : (e : Expr) → Halts (eval F e)
  unfolding eval
  eval-Halts e = then-Halts _ _ get_env-Halts λ env. lift-Halts (eval_expr F env e)

  bool_of-Halts : (c : Context) (p : Pos) (v : Value) → Halts (bool_of c p v)
  bool_of-Halts c p (bool b) = pure-Halts b
  bool_of-Halts c p v = fault-Halts _

  or_step-Halts : (r : Option Bool) (m : M Bool) → Halts m → Halts (or_step r m)
  or_step-Halts (some b) m h = pure-Halts b
  or_step-Halts none m h = h

  pub eval_bool-Halts : (c : Context) (e : Expr) → Halts (eval_bool F c e)
  unfolding eval_bool
  eval_bool-Halts c e = then-Halts _ _ get_env-Halts λ env.
      or_step-Halts (fast_condition env e) _
        (then-Halts _ _ (eval-Halts e) (bool_of-Halts c (pos_of e)))

  eval_steps-Halts :
      (steps : List Step) (found : List (Pos × Value)) → Halts (eval_steps F steps found)
  unfolding eval_steps
  eval_steps-Halts [] found = pure-Halts found
  eval_steps-Halts ((p, e) ∷ steps) found =
      then-Halts _ _ (eval-Halts e) λ v. eval_steps-Halts steps ((p, v) ∷ found)

  pub exec_index_assign-Halts :
      (p : Pos) (name : List ℕ) (depth slot : ℤ) (last : Step) (steps : List Step) (rhs : M Value)
      → Halts rhs
      → Halts (exec_index_assign F p name depth slot last steps rhs)
  unfolding exec_index_assign
  exec_index_assign-Halts p name depth slot (q, i) steps rhs h =
      then-Halts _ _ (root_binding-Halts p name depth slot) λ b.
        if-Halts b.is_const (fault-Halts _) (
          then-Halts _ _ h λ v. then-Halts _ _ (eval-Halts i) λ last.
            then-Halts _ _ (eval_steps-Halts steps []) λ path.
              then-Halts _ _ (root_binding-Halts p name depth slot) λ c.
                then-Halts _ _ (lift-Halts (write_path c.value path (q, last) v))
                  λ w. update_env-Halts p _)

  pub exec_append-Halts :
      (p : Pos) (name : List ℕ) (depth slot : ℤ) (steps : List Step) (rhs : M Value)
      → Halts rhs
      → Halts (exec_append F p name depth slot steps rhs)
  unfolding exec_append
  exec_append-Halts p name depth slot steps rhs h =
      then-Halts _ _ (root_binding-Halts p name depth slot) λ b.
        if-Halts b.is_const (fault-Halts _) (
          if-Halts (is_bare steps && not (takes_append b.value)) (fault-Halts _) (
            then-Halts _ _ h λ v. then-Halts _ _ (eval_steps-Halts steps []) λ path.
              then-Halts _ _ (root_binding-Halts p name depth slot) λ c.
                then-Halts _ _ (lift-Halts (append_path c.value path v p))
                  λ w. update_env-Halts p _))

  exit_code-Halts : (e : Expr) (v : Value) → Halts (exit_code e v)
  exit_code-Halts e (int n) = raise-Halts (exit n) (λ h. cc)
  exit_code-Halts e v = fault-Halts _

  pub exec_exit-Halts : (e : Option Expr) → Halts (exec_exit F e)
  unfolding exec_exit
  exec_exit-Halts none = raise-Halts (exit (pos 0)) (λ h. cc)
  exec_exit-Halts (some e) = then-Halts _ _ (eval-Halts e) (exit_code-Halts e)

  pub exec_throw-Halts : (p : Pos) (e : Expr) → Halts (exec_throw F p e)
  unfolding exec_throw
  exec_throw-Halts p e = then-Halts _ _ (eval-Halts e) λ v. raise-Halts (thrown _ p) (λ h. cc)
