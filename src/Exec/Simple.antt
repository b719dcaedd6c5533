-- ===== src/Exec/Simple.antt =====
-- The statements of internal/interpreter/interpreter.go that run no other statement. The value of a
-- right-hand side is a step, since it may be a call.
use jennifer.Exec.Update.{append_path, write_path, stamp}
use jennifer.Exec.Errors.{stamp_throw_site}
use jennifer.Exec.Syntax.{pre_eval, call, arg, plain, Arg, Step, Rhs}
use jennifer.Value.Types.{matches_declared, runtime_typing}
use jennifer.Env.Write.{Definition}
use jennifer.Env.{get_binding_root, undefined_variable, Binding, EnvError}
use jennifer.Value.{bytes, list, int, kind_of, bool, Value}
use jennifer.Env.Write
use jennifer.Exec.Machine.{push_deferred, thrown, lift, try_update, get_env, ◌>>=◌}
use jennifer.Ast.{DeclType, Expr, Pos}
use jennifer.IntFast.{fast_assign, Env, fast_condition}
use jennifer.Exec.Machine.{exit, update_env, raise, Flow, fault, pure, M}
use jennifer.Eval.{
  append_root, cannot_initialize, constant_contents, exit_needs_int, cannot_assign, needs_bool,
  env_error, Context,
}
use jennifer.Eval.Expr.{pos_of, eval_expr}
use jennifer.Float64.{FloatOps}
use jennifer.Common.{
  true, ◌&&◌, false, [], ◌∷◌, Bool, Result, if◌then◌else◌, negsuc, not, pos, ℕ, ℤ, List, Option,
  none, some, ok, err,
}

-- Reading a binding, whose error has the statement's position.
abbrev pub bound : Pos → Result EnvError (Binding Value DeclType) → M (Binding Value DeclType)
bound p (ok b) = pure b
bound p (err e) = fault (env_error e) p

abbrev pub definition : Value → DeclType → Bool → Definition runtime_typing
definition v t c = record { value = v; decl_type = t; is_const = c }

-- DefineAt where the resolver gave a slot, Define otherwise.
abbrev pub put_definition : List ℕ → ℤ → Value → DeclType → Bool → Env → Result EnvError Env
put_definition name (pos s) v t c env =
    Write.define_at runtime_typing env (pos s) name (definition v t c)
put_definition name (negsuc s) v t c env = Write.define runtime_typing env name (definition v t c)

-- DefineAt, which binds by name where there is no slot.
abbrev pub put_variable : List ℕ → ℤ → Value → DeclType → Env → Result EnvError Env
put_variable name slot v t env = Write.define_at runtime_typing env slot name (definition v t false)

-- `fastAssign`, which answers for no call.
abbrev pub fast_rhs : ℤ → ℤ → Rhs → Env → Option Env
fast_rhs depth slot (plain e) env = fast_assign env depth slot e
fast_rhs depth slot (call p callee args) env = none

abbrev pub put_value : List ℕ → ℤ → ℤ → Value → Env → Result EnvError Env
put_value name depth slot v env = Write.assign_root runtime_typing env name depth slot v

abbrev pub bool_of : Context → Pos → Value → M Bool
bool_of c p (bool b) = pure b
bool_of c p v = fault (needs_bool c (kind_of v)) p

abbrev pub or_step : {A : Type 0} → Option A → M A → M A
or_step (some a) m = pure a
or_step none m = m

abbrev pub define_value : Pos → List ℕ → DeclType → Bool → ℤ → Value → M (Unit {0})
define_value p name t c slot v =
    if not (matches_declared t v)
    then fault (cannot_initialize t c name (kind_of v)) p
    else update_env p (put_definition name slot (stamp t v) t c)

unfoldable pub exec_define : Pos → List ℕ → DeclType → Bool → ℤ → M Value → M (Unit {0})
unfolding Write.define_at Write.define matches_declared stamp kind_of
exec_define p name t c slot rhs = rhs >>= define_value p name t c slot

abbrev pub assign_value : Pos → List ℕ → ℤ → ℤ → Value → Binding Value DeclType → M (Unit {0})
assign_value p name depth slot v b =
    if not (matches_declared b.decl_type v)
    then fault (cannot_assign (kind_of v) b.decl_type name) p
    else update_env p (put_value name depth slot (stamp b.decl_type v))

abbrev pub slow_assign : Pos → List ℕ → ℤ → ℤ → M Value → M (Unit {0})
slow_assign p name depth slot rhs = do
  v ← rhs
  env ← get_env
  b ← bound p (get_binding_root env name depth slot)
  assign_value p name depth slot v b

unfoldable pub exec_assign : Pos → List ℕ → ℤ → ℤ → Rhs → M Value → M (Unit {0})
unfolding fast_assign get_binding_root Write.assign_root matches_declared stamp kind_of
exec_assign p name depth slot r rhs = do
  done ← try_update (fast_rhs depth slot r)
  if done then pure tt else slow_assign p name depth slot rhs

abbrev pub root_bound :
    Pos → List ℕ → Result EnvError (Binding Value DeclType) → M (Binding Value DeclType)
root_bound p name (ok b) = pure b
root_bound p name (err e) = fault (env_error (undefined_variable name)) p

unfoldable pub root_binding : Pos → List ℕ → ℤ → ℤ → M (Binding Value DeclType)
unfolding get_binding_root
root_binding p name depth slot = do
  env ← get_env
  root_bound p name (get_binding_root env name depth slot)

abbrev pub exit_code : Expr → Value → M Flow
exit_code e (int n) = raise (exit n)
exit_code e v = fault (exit_needs_int (kind_of v)) (pos_of e)

abbrev pub write_steps :
    Pos → List ℕ → ℤ → ℤ → Value → Pos × Value → List (Pos × Value) → M (Unit {0})
write_steps p name depth slot v last path = do
  b ← root_binding p name depth slot
  w ← lift (write_path b.value path last v)
  update_env p (put_value name depth slot w)

abbrev pub append_steps : Pos → List ℕ → ℤ → ℤ → Value → List (Pos × Value) → M (Unit {0})
append_steps p name depth slot v path = do
  b ← root_binding p name depth slot
  w ← lift (append_path b.value path v p)
  update_env p (put_value name depth slot w)

abbrev pub is_bare : List Step → Bool
is_bare [] = true
is_bare (s ∷ steps) = false

abbrev pub takes_append : Value → Bool
takes_append (list t vs) = true
takes_append (bytes s) = true
takes_append v = false

module _ (F : FloatOps) where
  unfoldable pub eval : Expr → M Value
  unfolding eval_expr
  eval e = do env ← get_env; lift (eval_expr F env e)

  unfoldable pub eval_bool : Context → Expr → M Bool
  unfolding fast_condition eval kind_of
  eval_bool c e = do
    env ← get_env
    or_step (fast_condition env e) (do v ← eval e; bool_of c (pos_of e) v)

  -- `collectLvalueSteps`: the index of each step, the last step first, given from the first.
  unfoldable pub eval_steps : List Step → List (Pos × Value) → M (List (Pos × Value))
  unfolding eval
  eval_steps [] found = pure found
  eval_steps ((p, e) ∷ steps) found = do v ← eval e; eval_steps steps ((p, v) ∷ found)

  -- The root variable is read again after the value and the indices: they may have written it.
  unfoldable pub exec_index_assign :
      Pos → List ℕ → ℤ → ℤ → Step → List Step → M Value → M (Unit {0})
  unfolding root_binding Write.assign_root eval eval_steps write_path
  exec_index_assign p name depth slot (q, i) steps rhs = do
    b ← root_binding p name depth slot
    if b.is_const then fault (constant_contents name) p else do
      v ← rhs
      last ← eval i
      path ← eval_steps steps []
      write_steps p name depth slot v (q, last) path

  unfoldable pub exec_append : Pos → List ℕ → ℤ → ℤ → List Step → M Value → M (Unit {0})
  unfolding root_binding Write.assign_root eval_steps append_path kind_of
  exec_append p name depth slot steps rhs = do
    b ← root_binding p name depth slot
    if b.is_const
        then fault (constant_contents name) p
        else if is_bare steps && not (takes_append b.value)
        then fault (append_root (kind_of b.value)) p
        else do v ← rhs; path ← eval_steps steps []; append_steps p name depth slot v path

  unfoldable pub exec_exit : Option Expr → M Flow
  unfolding eval kind_of
  exec_exit none = raise (exit (pos 0))
  exec_exit (some e) = do v ← eval e; exit_code e v

  unfoldable pub exec_throw : Pos → Expr → M (Unit {0})
  unfolding eval stamp_throw_site
  exec_throw p e = do v ← eval e; raise (thrown (stamp_throw_site v p) p)

  -- An argument of a call without calls in it.
  unfoldable pub eval_arg : Arg → M Value
  unfolding eval
  eval_arg (arg e) = eval e
  eval_arg (pre_eval p v) = pure v

  unfoldable pub eval_args : List Arg → M (List Value)
  unfolding eval_arg
  eval_args [] = pure []
  eval_args (a ∷ args) = do v ← eval_arg a; vs ← eval_args args; pure (v ∷ vs)

  unfoldable pub exec_defer : Bool → Pos → List ℕ → List Arg → M (Unit {0})
  unfolding eval_args
  exec_defer on_error p callee args = do
    vs ← eval_args args
    push_deferred (record { at = p; callee = callee; args = vs; on_error = on_error })
