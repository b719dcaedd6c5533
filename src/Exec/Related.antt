-- ===== src/Exec/Related.antt =====
-- Relations between two runs (Exec.Logic) for the statements of internal/interpreter/interpreter.go
-- that run no other.
pub mod Control
pub mod Loops
pub mod Calls
use jennifer.Exec.Update.{append_path, stamp, write_path}
use jennifer.IntFast.{fast_condition}
use jennifer.Eval.Expr.{pos_of, eval_expr}
use jennifer.Exec.Places.{put_definition-parents, fast_rhs-KeptAll}
use jennifer.Value.Types.{runtime_typing, matches_declared}
use jennifer.Exec.Syntax.{pre_eval, arg, Arg, Step, Rhs}
use jennifer.Value.{int, bool, Value}
use jennifer.Env.{get_binding_root, Binding, EnvError}
use jennifer.Float64.{FloatOps}
use jennifer.Exec.Simple.{
  takes_append, is_bare, exec_append, append_steps, put_definition, root_bound, put_value, bound,
  exit_code, write_steps, bool_of, fast_rhs, slow_assign, define_value, exec_defer, eval_args,
  eval_arg, exec_throw, exec_exit, exec_index_assign, eval_steps, eval_bool, or_step, eval,
  root_binding, exec_assign, exec_define,
}
use jennifer.Ast.{Expr, DeclType, Pos}
use jennifer.Eval.{Context, env_error, RuntimeError}
use jennifer.Common.{
  ◌++◌, ◌&&◌, Result, [], if◌then◌else◌, not, pos, ℤ, ◌∷◌, List, Option, none, some, ok, err, ℕ,
  ◌≡◌, Bool, true, false,
}
use jennifer.Exec.Machine.{exit, get_env, update_env, runtime, lift, M, ◌>>=◌, ◌>>◌}
use jennifer.Env.Write
use jennifer.Env.Kept.{assign_root-KeptAll}
use jennifer.Exec.Logic.{Logic, Reach, inner, outer}

module _ (L : Logic) where
  open L use {Rel}

  pub if-Rel :
      {A : Type 0} (o : Reach) (b : Bool) {m m' k k' : M A}
      → Rel o m m'
      → Rel o k k'
      → Rel o (if b then m else k) (if b then m' else k')
  if-Rel o true h j = h
  if-Rel o false h j = j

  pub lift-Rel : {A : Type 0} (o : Reach) (r : Result RuntimeError A) → Rel o (lift r) (lift r)
  lift-Rel o (ok a) = L.on_pure o a
  lift-Rel o (err e) = L.on_raise o (runtime e)

  define_value-Rel :
      (p : Pos) (name : List ℕ) (t : DeclType) (c : Bool) (slot : ℤ) (v : Value)
      → Rel inner (define_value p name t c slot v) (define_value p name t c slot v)
  define_value-Rel p name t c slot v =
      if-Rel inner (not (matches_declared t v)) (L.on_raise inner _) (
        L.on_define p (put_definition name slot (stamp t v) t c)
          (put_definition-parents name slot (stamp t v) t c))

  pub exec_define-Rel :
      (p : Pos) (name : List ℕ) (t : DeclType) (c : Bool) (slot : ℤ) (rhs rhs' : M Value)
      → Rel inner rhs rhs'
      → Rel inner (exec_define p name t c slot rhs) (exec_define p name t c slot rhs')
  unfolding exec_define
  exec_define-Rel p name t c slot rhs rhs' h =
      L.on_bind inner rhs rhs' _ _ h (define_value-Rel p name t c slot)

  bound-Rel :
      (o : Reach) (p : Pos) (r : Result EnvError (Binding Value DeclType))
      → Rel o (bound p r) (bound p r)
  bound-Rel o p (ok b) = L.on_pure o b
  bound-Rel o p (err e) = L.on_raise o _

  put_value-Rel :
      (o : Reach) (p : Pos) (name : List ℕ) (depth slot : ℤ) (v : Value)
      → Rel o
          (update_env p (put_value name depth slot v))
          (update_env p (put_value name depth slot v))
  put_value-Rel o p name depth slot v =
      L.on_update o p (put_value name depth slot v)
        (λ env env' e. assign_root-KeptAll runtime_typing env env' name depth slot v e)

  slow_assign-Rel :
      (o : Reach) (p : Pos) (name : List ℕ) (depth slot : ℤ) (rhs rhs' : M Value)
      → Rel o rhs rhs'
      → Rel o (slow_assign p name depth slot rhs) (slow_assign p name depth slot rhs')
  slow_assign-Rel o p name depth slot rhs rhs' h = L.on_bind o rhs rhs' _ _ h λ v.
      L.on_bind o get_env get_env _ _ (L.on_get_env o) λ env.
        L.on_bind o _ _ _ _ (bound-Rel o p (get_binding_root env name depth slot)) λ b.
          if-Rel o (not (matches_declared b.decl_type v)) (L.on_raise o _)
            (put_value-Rel o p name depth slot (stamp b.decl_type v))

  pub exec_assign-Rel :
      (o : Reach) (p : Pos) (name : List ℕ) (depth slot : ℤ) (r : Rhs) (rhs rhs' : M Value)
      → Rel o rhs rhs'
      → Rel o (exec_assign p name depth slot r rhs) (exec_assign p name depth slot r rhs')
  unfolding exec_assign
  exec_assign-Rel o p name depth slot r rhs rhs' h =
      L.on_bind o _ _ _ _
        (L.on_try_update o (fast_rhs depth slot r) (fast_rhs-KeptAll depth slot r))
        λ d. if-Rel o d (L.on_pure o tt) (slow_assign-Rel o p name depth slot rhs rhs' h)

  root_binding-Rel :
      (o : Reach) (p : Pos) (name : List ℕ) (depth slot : ℤ)
      → Rel o (root_binding p name depth slot) (root_binding p name depth slot)
  unfolding root_binding
  root_binding-Rel o p name depth slot =
      L.on_bind o get_env get_env _ _ (L.on_get_env o)
        λ env. root_bound-Rel (get_binding_root env name depth slot)
    where
      root_bound-Rel :
          (r : Result EnvError (Binding Value DeclType))
          → Rel o (root_bound p name r) (root_bound p name r)
      root_bound-Rel (ok b) = L.on_pure o b
      root_bound-Rel (err e) = L.on_raise o _

  module _ (F : FloatOps) where
    pub eval-Rel : (o : Reach) (e : Expr) → Rel o (eval F e) (eval F e)
    unfolding eval
    eval-Rel o e =
        L.on_bind o get_env get_env _ _ (L.on_get_env o) λ env. lift-Rel o (eval_expr F env e)

    bool_of-Rel :
        (o : Reach) (c : Context) (p : Pos) (v : Value) → Rel o (bool_of c p v) (bool_of c p v)
    bool_of-Rel o c p (bool b) = L.on_pure o b
    bool_of-Rel o c p v = L.on_raise o _

    or_step-Rel :
        (o : Reach) (r : Option Bool) (m : M Bool) → Rel o m m → Rel o (or_step r m) (or_step r m)
    or_step-Rel o (some b) m h = L.on_pure o b
    or_step-Rel o none m h = h

    pub eval_bool-Rel :
        (o : Reach) (c : Context) (e : Expr) → Rel o (eval_bool F c e) (eval_bool F c e)
    unfolding eval_bool
    eval_bool-Rel o c e = L.on_bind o get_env get_env _ _ (L.on_get_env o) λ env.
        or_step-Rel o (fast_condition env e) _
          (L.on_bind o _ _ _ _ (eval-Rel o e) (bool_of-Rel o c (pos_of e)))

    eval_steps-Rel :
        (o : Reach) (steps : List Step) (found : List (Pos × Value))
        → Rel o (eval_steps F steps found) (eval_steps F steps found)
    unfolding eval_steps
    eval_steps-Rel o [] found = L.on_pure o found
    eval_steps-Rel o ((p, e) ∷ steps) found =
        L.on_bind o _ _ _ _ (eval-Rel o e) λ v. eval_steps-Rel o steps ((p, v) ∷ found)

    write_steps-Rel :
        (o : Reach) (p : Pos) (name : List ℕ) (depth slot : ℤ) (v : Value) (last : Pos × Value)
        (path : List (Pos × Value))
        → Rel o
            (write_steps p name depth slot v last path)
            (write_steps p name depth slot v last path)
    write_steps-Rel o p name depth slot v last path =
        L.on_bind o _ _ _ _ (root_binding-Rel o p name depth slot) λ b.
          L.on_bind o _ _ _ _ (lift-Rel o (write_path b.value path last v))
            λ w. put_value-Rel o p name depth slot w

    append_steps-Rel :
        (o : Reach) (p : Pos) (name : List ℕ) (depth slot : ℤ) (v : Value)
        (path : List (Pos × Value))
        → Rel o (append_steps p name depth slot v path) (append_steps p name depth slot v path)
    append_steps-Rel o p name depth slot v path =
        L.on_bind o _ _ _ _ (root_binding-Rel o p name depth slot) λ b.
          L.on_bind o _ _ _ _ (lift-Rel o (append_path b.value path v p))
            λ w. put_value-Rel o p name depth slot w

    pub exec_index_assign-Rel :
        (o : Reach) (p : Pos) (name : List ℕ) (depth slot : ℤ) (last : Step) (steps : List Step)
        (rhs rhs' : M Value)
        → Rel o rhs rhs'
        → Rel o
            (exec_index_assign F p name depth slot last steps rhs)
            (exec_index_assign F p name depth slot last steps rhs')
    unfolding exec_index_assign
    exec_index_assign-Rel o p name depth slot (q, i) steps rhs rhs' h =
        L.on_bind o _ _ _ _ (root_binding-Rel o p name depth slot) λ b.
          if-Rel o b.is_const (L.on_raise o _) (
            L.on_bind o _ _ _ _ h λ v. L.on_bind o _ _ _ _ (eval-Rel o i) λ last.
              L.on_bind o _ _ _ _ (eval_steps-Rel o steps [])
                λ path. write_steps-Rel o p name depth slot v (q, last) path)

    pub exec_append-Rel :
        (o : Reach) (p : Pos) (name : List ℕ) (depth slot : ℤ) (steps : List Step)
        (rhs rhs' : M Value)
        → Rel o rhs rhs'
        → Rel o
            (exec_append F p name depth slot steps rhs)
            (exec_append F p name depth slot steps rhs')
    unfolding exec_append
    exec_append-Rel o p name depth slot steps rhs rhs' h =
        L.on_bind o _ _ _ _ (root_binding-Rel o p name depth slot) λ b.
          if-Rel o b.is_const (L.on_raise o _) (
            if-Rel o (is_bare steps && not (takes_append b.value)) (L.on_raise o _) (
              L.on_bind o _ _ _ _ h λ v.
                L.on_bind o _ _ _ _ (eval_steps-Rel o steps [])
                  λ path. append_steps-Rel o p name depth slot v path))

    exit_code-Rel : (o : Reach) (e : Expr) (v : Value) → Rel o (exit_code e v) (exit_code e v)
    exit_code-Rel o e (int n) = L.on_raise o (exit n)
    exit_code-Rel o e v = L.on_raise o _

    pub exec_exit-Rel : (o : Reach) (e : Option Expr) → Rel o (exec_exit F e) (exec_exit F e)
    unfolding exec_exit
    exec_exit-Rel o none = L.on_raise o (exit (pos 0))
    exec_exit-Rel o (some e) = L.on_bind o _ _ _ _ (eval-Rel o e) (exit_code-Rel o e)

    pub exec_throw-Rel :
        (o : Reach) (p : Pos) (e : Expr) → Rel o (exec_throw F p e) (exec_throw F p e)
    unfolding exec_throw
    exec_throw-Rel o p e = L.on_bind o _ _ _ _ (eval-Rel o e) λ v. L.on_raise o _

    pub eval_arg-Rel : (o : Reach) (a : Arg) → Rel o (eval_arg F a) (eval_arg F a)
    unfolding eval_arg
    eval_arg-Rel o (arg e) = eval-Rel o e
    eval_arg-Rel o (pre_eval p v) = L.on_pure o v

    eval_args-Rel : (o : Reach) (args : List Arg) → Rel o (eval_args F args) (eval_args F args)
    unfolding eval_args
    eval_args-Rel o [] = L.on_pure o []
    eval_args-Rel o (a ∷ args) =
        L.on_bind o _ _ _ _ (eval_arg-Rel o a)
          λ v. L.on_bind o _ _ _ _ (eval_args-Rel o args) λ vs. L.on_pure o (v ∷ vs)

    pub exec_defer-Rel :
        (on_error : Bool) (p : Pos) (callee : List ℕ) (args : List Arg)
        → Rel inner (exec_defer F on_error p callee args) (exec_defer F on_error p callee args)
    unfolding exec_defer
    exec_defer-Rel on_error p callee args =
        L.on_bind inner _ _ _ _ (eval_args-Rel inner args) λ vs. L.on_push _
