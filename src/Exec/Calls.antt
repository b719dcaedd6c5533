-- ===== src/Exec/Calls.antt =====
-- Calls of methods and `try` of internal/interpreter/interpreter.go, on a step `run` for the
-- statements in them.
use jennifer.Exec.Update.{stamp}
use jennifer.Value.Types.{matches_declared}
use jennifer.Eval.Expr.{pos_of}
use jennifer.Exec.Errors.{runtime_error_value, caught_type}
use jennifer.Exec.Control.{in_frame, exec_block}
use jennifer.Exec.Simple.{put_variable, eval, eval_arg}
use jennifer.Env.{Binding}
use jennifer.Value.{kind_of, null, Value}
use jennifer.Ast.{DeclType, Pos}
use jennifer.Eval.{
  stray_continue, stray_break, wrong_argument, unknown_function, wrong_arity, call_too_deep,
  ErrorKind,
}
use jennifer.Float64.{FloatOps}
use jennifer.Exec.Syntax.{call, plain, pre_eval, block, Rhs, Block, arg, Stmt, Param, Arg, Method}
use jennifer.Common.{
  Result, [], false, if◌then◌else◌, length, ltb, not, pos, text_eq, ℤ, ◌+◌, ◌==◌, ◌∷◌, List, Option,
  none, some, ok, err, ℕ,
}
use jennifer.Exec.Machine.{
  fell, continued, get_depth, update_env, deeper, broke, attempt, raise, thrown, in_callee,
  returned, runtime, Fault, fault, pure, M, Flow, ◌>>=◌,
}
use jennifer.Env.Write

-- MaxCallDepth of internal/limits/nesting_std.go.
abbrev pub max_call_depth : ℕ
max_call_depth = 10000

-- The methods of a program, and the texts of its error messages.
pub record Program : Type 0 where
  pub methods : List Method
  pub message : ErrorKind → List ℕ

unfoldable pub find_method : List ℕ → List Method → Option Method
find_method name [] = none
find_method name (m ∷ ms) = if text_eq m.name name then some m else find_method name ms

abbrev pub arg_pos : Arg → Pos
arg_pos (arg e) = pos_of e
arg_pos (pre_eval p v) = p

abbrev pub param_binding : Param → ℕ → Value → Binding Value DeclType
param_binding q i v = record {
  value = stamp q.decl_type v;
  decl_type = q.decl_type;
  is_const = false;
  slot = pos i;
  name = q.name;
}

-- `unhandledLoopFlowError`, and what a flow is for a call.
abbrev pub call_result : Flow → M Value
call_result fell = pure null
call_result (returned v) = pure v
call_result (broke p) = fault stray_break p
call_result (continued p) = fault stray_continue p

module _ (F : FloatOps) (run : Stmt → M Flow) where
  abbrev pub bind_param : Pos → List ℕ → ℕ → Param → Value → M (Binding Value DeclType)
  bind_param p callee i q v =
      if not (matches_declared q.decl_type v)
      then fault (wrong_argument (i + 1) callee q.decl_type (kind_of v)) p
      else pure (param_binding q i v)

  -- Each argument is evaluated, tested and bound before the next.
  unfoldable pub bind_args : List ℕ → ℕ → List Param → List Arg → M (List (Binding Value DeclType))
  unfolding eval_arg matches_declared stamp kind_of
  bind_args callee i (q ∷ qs) (a ∷ args) = do
    v ← eval_arg F a
    b ← bind_param (arg_pos a) callee i q v
    bs ← bind_args callee (i + 1) qs args
    pure (b ∷ bs)
  bind_args callee i _ _ = pure []

  abbrev pub guarded_body : Pos → Block → ℕ → M Flow
  guarded_body p b depth =
      if ltb max_call_depth depth then fault call_too_deep p else exec_block run b

  unfoldable pub call_method : Pos → List ℕ → List Arg → Method → M Value
  unfolding bind_args exec_block
  call_method p callee args m =
      if not (length args == length m.params)
      then fault (wrong_arity callee (length m.params) (length args)) p
      else (bind_args callee 0 m.params args >>= λ bs.
          in_callee (record { slots = bs; vars = [] })
            (deeper (get_depth >>= guarded_body p m.body))
          >>= call_result)

  abbrev pub call_found : Pos → List ℕ → List Arg → Option Method → M Value
  call_found p callee args none = fault (unknown_function callee) p
  call_found p callee args (some m) = call_method p callee args m

  -- `evalCall` of a method of the program.
  unfoldable pub eval_call : Program → Pos → List ℕ → List Arg → M Value
  unfolding find_method call_method
  eval_call P p callee args = call_found p callee args (find_method callee P.methods)

  unfoldable pub eval_rhs : Program → Rhs → M Value
  unfolding eval eval_call
  eval_rhs P (plain e) = eval F e
  eval_rhs P (call p callee args) = eval_call P p callee args

  -- The value that a `catch` binds, or an error that none does.
  abbrev pub caught_value : Program → Fault → Option Value
  caught_value P (runtime e) = some (runtime_error_value P.message e)
  caught_value P (thrown v p) = some v
  caught_value P _ = none

  unfoldable pub handle : Pos → List ℕ → ℤ → Block → Fault → Option Value → M Flow
  unfolding Write.define_at caught_type in_frame
  handle p name slot (block n ss) e none = raise e
  handle p name slot (block n ss) e (some v) =
      in_frame run n (update_env p (put_variable name slot v (caught_type v))) ss

  abbrev pub after_try : Program → Pos → List ℕ → ℤ → Block → Result Fault Flow → M Flow
  after_try P p name slot b (ok f) = pure f
  after_try P p name slot b (err e) = handle p name slot b e (caught_value P e)

  unfoldable pub exec_try : Program → Block → Pos → List ℕ → ℤ → Block → M Flow
  unfolding in_frame handle runtime_error_value
  exec_try P (block n ss) p name slot b =
      attempt (in_frame run n (pure tt) ss) >>= after_try P p name slot b
