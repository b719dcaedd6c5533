-- ===== src/Exec/Halts/Runs.antt =====
-- Fuel and the statements of internal/interpreter/interpreter.go, without calls and deferred calls.
use jennifer.Exec.Ranges.{range_bounds}
use jennifer.Eval.{if_condition}
use jennifer.Exec.Flows.{both}
use jennifer.Value.{Value}
use jennifer.Exec.Halts.Simple.{
  exec_append-Halts, exec_throw-Halts, exec_exit-Halts, eval_bool-Halts, exec_index_assign-Halts,
  exec_assign-Halts, exec_define-Halts, eval-Halts,
}
use jennifer.Exec.Control.{exec_for_range, exec_for_each, exec_if}
use jennifer.Exec.Halts.{
  lift-Halts, if-Halts, update_env-Halts, raise-Halts, attempt_then-Halts, Fault, pure-Halts, Pos,
  then-Halts, Halts,
}
use jennifer.Exec.Run.{exec_return, exec_stmt_raw, done, exec_stmt}
use jennifer.Exec.Halts.Statements.{
  range_passes-Halts, for_each_of-Halts, exec_arms-Halts, exec_else-Halts, exec_block-Halts,
  in_frame-Halts, straight_block, no_return_call, no_call, straight,
}
use jennifer.Exec.Calls.{exec_try, handle, eval_rhs, Program}
use jennifer.Float64.{FloatOps}
use jennifer.Common.{◌-ℤ◌, pos_part, ℤ, ◌≢◌, List, Option, none, some, ℕ, zero, suc, ◌≡◌, true}
use jennifer.Exec.Machine.{out_of_fuel, M, Flow, fell}
use jennifer.Exec.Syntax.{
  for_range, append, block, plain, Rhs, Stmt, Block, define, assign, index_assign, if_then,
  match_on, while_loop, for_loop, for_each, repeat_until, return_with, break_at, continue_at,
  exit_with, throw, try_catch, defer, run_expr, call,
}

module _ (F : FloatOps) (P : Program) where
  module _ (n : ℕ) (run : Stmt → M Flow)
      (ends : (st : Stmt) → straight n st ≡ true → Halts (run st)) where
    eval_rhs-Halts : (r : Rhs) → no_call r ≡ true → Halts (eval_rhs F run P r)
    unfolding eval_rhs
    eval_rhs-Halts (plain e) h = eval-Halts F e
    eval_rhs-Halts (call p callee args) h = cc

    exec_return-Halts : (r : Option Rhs) → no_return_call r ≡ true → Halts (exec_return F P run r)
    exec_return-Halts none h = pure-Halts _
    exec_return-Halts (some r) h = then-Halts _ _ (eval_rhs-Halts r h) λ v. pure-Halts _

    handle-Halts :
        (p : Pos) (name : List ℕ) (slot : ℤ) (b : Block) (e : Fault) (v : Option Value)
        → e ≢ out_of_fuel
        → straight_block n b ≡ true
        → Halts (handle F run p name slot b e v)
    unfolding handle straight_block
    handle-Halts p name slot (block k ss) e none q h = raise-Halts e q
    handle-Halts p name slot (block k ss) e (some v) q h =
        in_frame-Halts n run ends k _ ss (update_env-Halts p _) h

    exec_try-Halts :
        (b : Block) (p : Pos) (name : List ℕ) (slot : ℤ) (handler : Block)
        → straight_block n b ≡ true
        → straight_block n handler ≡ true
        → Halts (exec_try F run P b p name slot handler)
    unfolding exec_try straight_block
    exec_try-Halts (block k ss) p name slot handler h j =
        attempt_then-Halts _ _ (in_frame-Halts n run ends k _ ss (pure-Halts tt) h) pure-Halts
          (λ e q. handle-Halts p name slot handler e _ q j)

    done-Halts : (m : M (Unit {0})) → Halts m → Halts (done F P m)
    done-Halts m h = then-Halts _ _ h λ u. pure-Halts fell

    exec_stmt_raw-Halts :
        (k : ℕ) (st : Stmt) → straight (suc n) st ≡ true → Halts (exec_stmt_raw F P k run st)
    unfolding exec_stmt_raw straight exec_if exec_for_each exec_for_range
    exec_stmt_raw-Halts k (define p name t c slot r) h =
        done-Halts _ (exec_define-Halts p name t c slot _ (eval_rhs-Halts r h))
    exec_stmt_raw-Halts k (assign p name depth slot r) h =
        done-Halts _ (exec_assign-Halts p name depth slot r _ (eval_rhs-Halts r h))
    exec_stmt_raw-Halts k (index_assign p name depth slot last steps r) h =
        done-Halts _ (exec_index_assign-Halts F p name depth slot last steps _ (eval_rhs-Halts r h))
    exec_stmt_raw-Halts k (append p name depth slot steps r) h =
        done-Halts _ (exec_append-Halts F p name depth slot steps _ (eval_rhs-Halts r h))
    exec_stmt_raw-Halts k (if_then c b rest) h =
        let (d, e) = both h in
        then-Halts _ _ (eval_bool-Halts F if_condition c)
          λ t. if-Halts t (exec_block-Halts n run ends b d) (exec_else-Halts n run ends F rest e)
    exec_stmt_raw-Halts k (match_on e arms) h =
        then-Halts _ _ (eval-Halts F e) λ v. exec_arms-Halts n run ends F v arms h
    exec_stmt_raw-Halts k (while_loop c b) h = cc
    exec_stmt_raw-Halts k (for_loop m init c step b) h = cc
    exec_stmt_raw-Halts k (for_each p name slot e b) h =
        then-Halts _ _ (eval-Halts F e) λ v. for_each_of-Halts n run ends F p name slot b v h
    exec_stmt_raw-Halts k (for_range p name slot q lo hi b) h =
        then-Halts _ _ (eval-Halts F lo) λ v. then-Halts _ _ (eval-Halts F hi) λ w.
          then-Halts _ _ (lift-Halts (range_bounds v w q))
            λ (a, z). range_passes-Halts n run ends F p name slot b (pos_part (z -ℤ a)) a h
    exec_stmt_raw-Halts k (repeat_until b c) h = cc
    exec_stmt_raw-Halts k (return_with r) h = exec_return-Halts r h
    exec_stmt_raw-Halts k (break_at p) h = pure-Halts _
    exec_stmt_raw-Halts k (continue_at p) h = pure-Halts _
    exec_stmt_raw-Halts k (exit_with e) h = exec_exit-Halts F e
    exec_stmt_raw-Halts k (throw p e) h = done-Halts _ (exec_throw-Halts F p e)
    exec_stmt_raw-Halts k (try_catch b p name slot handler) h =
        let (d, e) = both h in exec_try-Halts b p name slot handler d e
    exec_stmt_raw-Halts k (defer on_error p callee args) h = cc
    exec_stmt_raw-Halts k (run_expr r) h = then-Halts _ _ (eval_rhs-Halts r h) λ v. pure-Halts fell

  -- A statement nested less than `n` deep, whose only loops are for-each ones and which makes and defers
  -- no calls, ends with fuel `n` where no call is deferred: in a flow or in an error, without running
  -- out of fuel.
  pub exec_stmt-Halts : (n : ℕ) (st : Stmt) → straight n st ≡ true → Halts (exec_stmt F P n st)
  unfolding exec_stmt straight
  exec_stmt-Halts zero st h = cc
  exec_stmt-Halts (suc n) st h = exec_stmt_raw-Halts n (exec_stmt F P n) (exec_stmt-Halts n) n st h
