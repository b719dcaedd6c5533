-- ===== src/Exec/Run.antt =====
-- `execStmt` and `Run` of internal/interpreter/interpreter.go. Fuel bounds the nesting of statements
-- and calls, and the passes of each loop.
use jennifer.Eval.{stray_continue, stray_break}
use jennifer.Exec.Control.{
  exec_for_range, exec_repeat, exec_for_each, exec_for, exec_while, exec_arms, exec_if,
  finish_frame, exec_stmts,
}
use jennifer.Exec.Simple.{
  exec_append, eval, exec_defer, exec_throw, exec_exit, exec_index_assign, exec_assign, exec_define,
}
use jennifer.Exec.Calls.{eval_rhs, exec_try, Program}
use jennifer.Exec.Syntax.{
  for_range, append, Stmt, Stmts, Rhs, define, assign, index_assign, if_then, match_on, while_loop,
  for_loop, for_each, repeat_until, return_with, break_at, continue_at, exit_with, throw, try_catch,
  defer, run_expr,
}
use jennifer.Exec.Machine.{out_of_fuel, raise, returned}
use jennifer.Value.{null}
use jennifer.Float64.{FloatOps}
use jennifer.Common.{Option, none, some, ℕ, zero, suc}
use jennifer.Exec.Machine.{continued, fault, fell, broke, pure, Flow, M, ◌>>=◌, ◌>>◌}

module _ (F : FloatOps) (P : Program) where
  -- A step without a flow.
  abbrev pub done : M (Unit {0}) → M Flow
  done m = m >> pure fell

  abbrev pub exec_return : (Stmt → M Flow) → Option Rhs → M Flow
  exec_return run none = pure (returned null)
  exec_return run (some r) = eval_rhs F run P r >>= λ v. pure (returned v)

  unfoldable pub exec_stmt_raw : ℕ → (Stmt → M Flow) → Stmt → M Flow
  unfolding exec_define exec_assign exec_index_assign exec_append exec_if exec_arms exec_while
      exec_for exec_for_each exec_for_range exec_repeat exec_exit exec_throw exec_try exec_defer
      eval_rhs eval
  exec_stmt_raw k run (define p name t c slot r) =
      done (exec_define p name t c slot (eval_rhs F run P r))
  exec_stmt_raw k run (assign p name depth slot r) =
      done (exec_assign p name depth slot r (eval_rhs F run P r))
  exec_stmt_raw k run (index_assign p name depth slot last steps r) =
      done (exec_index_assign F p name depth slot last steps (eval_rhs F run P r))
  exec_stmt_raw k run (append p name depth slot steps r) =
      done (exec_append F p name depth slot steps (eval_rhs F run P r))
  exec_stmt_raw k run (if_then c b rest) = exec_if run F c b rest
  exec_stmt_raw k run (match_on e arms) = eval F e >>= λ v. exec_arms run F v arms
  exec_stmt_raw k run (while_loop c b) = exec_while run F k c b
  exec_stmt_raw k run (for_loop n init c step b) = exec_for run F k n init c step b
  exec_stmt_raw k run (for_each p name slot e b) = exec_for_each run F p name slot e b
  exec_stmt_raw k run (for_range p name slot q lo hi b) = exec_for_range run F p name slot q lo hi b
  exec_stmt_raw k run (repeat_until b c) = exec_repeat run F k b c
  exec_stmt_raw k run (return_with r) = exec_return run r
  exec_stmt_raw k run (break_at p) = pure (broke p)
  exec_stmt_raw k run (continue_at p) = pure (continued p)
  exec_stmt_raw k run (exit_with e) = exec_exit F e
  exec_stmt_raw k run (throw p e) = done (exec_throw F p e)
  exec_stmt_raw k run (try_catch b p name slot handler) = exec_try F run P b p name slot handler
  exec_stmt_raw k run (defer on_error p callee args) = done (exec_defer F on_error p callee args)
  exec_stmt_raw k run (run_expr r) = eval_rhs F run P r >>= λ v. pure fell

  unfoldable pub exec_stmt : ℕ → Stmt → M Flow
  unfolding exec_stmt_raw
  exec_stmt zero st = raise out_of_fuel
  exec_stmt (suc n) st = exec_stmt_raw n (exec_stmt n) st

  abbrev pub top_result : Flow → M (Unit {0})
  top_result (broke p) = fault stray_break p
  top_result (continued p) = fault stray_continue p
  top_result _ = pure tt

  -- The statements of a program, in the outermost frame, which then ends.
  unfoldable pub run_program : ℕ → Stmts → M (Unit {0})
  unfolding exec_stmt exec_stmts finish_frame
  run_program n ss = finish_frame (exec_stmt n) (exec_stmts (exec_stmt n) ss) >>= top_result
