-- ===== src/Exec/Related/Calls.antt =====
-- Relations between two runs (Exec.Logic) for calls, `try` and every statement of
-- internal/interpreter/interpreter.go.
use jennifer.Exec.Related.Loops.{
  exec_repeat-Rel, exec_for_range-Rel, exec_for_each-Rel, exec_for-Rel, exec_while-Rel,
}
use jennifer.Exec.Places.{put_variable-parents}
use jennifer.Exec.Errors.{caught_type}
use jennifer.Exec.Simple.{put_variable}
use jennifer.Exec.Related.Control.{exec_block-Rel, exec_arms-Rel, exec_if-Rel, in_frame-Rel}
use jennifer.Exec.Related.{
  exec_append-Rel, exec_defer-Rel, exec_throw-Rel, exec_exit-Rel, matches_declared, if-Rel,
  exec_index_assign-Rel, Value, eval_arg-Rel, exec_assign-Rel, eval-Rel, Arg, exec_define-Rel,
}
use jennifer.Ast.{Pos}
use jennifer.Value.{null}
use jennifer.Exec.Calls.{
  find_method, call_found, max_call_depth, caught_value, after_try, exec_try, Program, handle,
  eval_rhs, eval_call, call_method, bind_args, call_result,
}
use jennifer.Exec.Run.{exec_return, done, exec_stmt_raw, exec_stmt}
use jennifer.Float64.{FloatOps}
use jennifer.Common.{
  Result, [], arith, length, ltb, ℤ, ◌+◌, ◌==◌, ◌∷◌, List, Option, none, some, ok, err, ℕ, zero,
  suc, ◌≤◌, not,
}
use jennifer.Exec.Machine.{continued, broke, fell, Fault, returned, M, Flow}
use jennifer.Exec.Logic.{Logic, Reach, inner, outer}
use jennifer.Exec.Syntax.{
  for_range, append, call, Method, block, Block, plain, Param, Stmt, Rhs, define, assign,
  index_assign, if_then, match_on, while_loop, for_loop, for_each, repeat_until, return_with,
  break_at, continue_at, exit_with, throw, try_catch, defer, run_expr,
}

module _ (L : Logic) (F : FloatOps) where
  open L use {Rel}

  call_result-Rel : (o : Reach) (f : Flow) → Rel o (call_result f) (call_result f)
  call_result-Rel o fell = L.on_pure o null
  call_result-Rel o (returned v) = L.on_pure o v
  call_result-Rel o (broke p) = L.on_raise o _
  call_result-Rel o (continued p) = L.on_raise o _

  module _ (run run' : Stmt → M Flow) (same : (st : Stmt) → Rel inner (run st) (run' st)) where
    bind_args-Rel :
        (o : Reach) (callee : List ℕ) (i : ℕ) (qs : List Param) (args : List Arg)
        → Rel o (bind_args F run callee i qs args) (bind_args F run' callee i qs args)
    unfolding bind_args
    bind_args-Rel o callee i [] args = L.on_pure o []
    bind_args-Rel o callee i (q ∷ qs) [] = L.on_pure o []
    bind_args-Rel o callee i (q ∷ qs) (a ∷ args) = L.on_bind o _ _ _ _ (eval_arg-Rel L F o a) λ v.
        L.on_bind o _ _ _ _
          (if-Rel L o (not (matches_declared q.decl_type v)) (L.on_raise o _) (L.on_pure o _))
          λ b.
            L.on_bind o _ _ _ _ (bind_args-Rel o callee (i + 1) qs args) λ bs. L.on_pure o (b ∷ bs)

    call_method-Rel :
        (o : Reach) (p : Pos) (callee : List ℕ) (args : List Arg) (m : Method)
        → Rel o (call_method F run p callee args m) (call_method F run' p callee args m)
    unfolding call_method
    call_method-Rel o p callee args m =
        if-Rel L o (not (length args == length m.params)) (L.on_raise o _) (
          L.on_bind o _ _ _ _ (bind_args-Rel o callee 0 m.params args) λ bs.
            L.on_bind o _ _ _ _
              (L.on_callee o _ _ _ (
                L.on_deeper outer _ _ (
                  L.on_bind outer _ _ _ _ (L.on_get_depth outer) λ d.
                    if-Rel L outer (ltb max_call_depth d) (L.on_raise outer _)
                      (exec_block-Rel L run run' same outer m.body))))
              (call_result-Rel o))

    call_found-Rel :
        (o : Reach) (p : Pos) (callee : List ℕ) (args : List Arg) (m : Option Method)
        → Rel o (call_found F run p callee args m) (call_found F run' p callee args m)
    call_found-Rel o p callee args none = L.on_raise o _
    call_found-Rel o p callee args (some m) = call_method-Rel o p callee args m

    pub eval_call-Rel :
        (P : Program) (o : Reach) (p : Pos) (callee : List ℕ) (args : List Arg)
        → Rel o (eval_call F run P p callee args) (eval_call F run' P p callee args)
    unfolding eval_call
    eval_call-Rel P o p callee args = call_found-Rel o p callee args (find_method callee P.methods)

    pub eval_rhs-Rel :
        (P : Program) (o : Reach) (r : Rhs) → Rel o (eval_rhs F run P r) (eval_rhs F run' P r)
    unfolding eval_rhs
    eval_rhs-Rel P o (plain e) = eval-Rel L F o e
    eval_rhs-Rel P o (call p callee args) = eval_call-Rel P o p callee args

    handle-Rel :
        (o : Reach) (p : Pos) (name : List ℕ) (slot : ℤ) (b : Block) (e : Fault) (v : Option Value)
        → Rel o (handle F run p name slot b e v) (handle F run' p name slot b e v)
    unfolding handle
    handle-Rel o p name slot (block n ss) e none = L.on_raise o e
    handle-Rel o p name slot (block n ss) e (some v) = in_frame-Rel L run run' same o n _ ss (
        L.on_define p (put_variable name slot v (caught_type v))
          (put_variable-parents name slot v (caught_type v)))

    after_try-Rel :
        (P : Program) (o : Reach) (p : Pos) (name : List ℕ) (slot : ℤ) (b : Block)
        (r : Result Fault Flow)
        → Rel o (after_try F run P p name slot b r) (after_try F run' P p name slot b r)
    after_try-Rel P o p name slot b (ok f) = L.on_pure o f
    after_try-Rel P o p name slot b (err e) = handle-Rel o p name slot b e (caught_value F run P e)

    exec_try-Rel :
        (P : Program) (o : Reach) (b : Block) (p : Pos) (name : List ℕ) (slot : ℤ) (h : Block)
        → Rel o (exec_try F run P b p name slot h) (exec_try F run' P b p name slot h)
    unfolding exec_try
    exec_try-Rel P o (block n ss) p name slot h =
        L.on_bind o _ _ _ _
          (L.on_attempt o _ _ (in_frame-Rel L run run' same o n _ ss (L.on_pure inner tt)))
          (after_try-Rel P o p name slot h)

    done-Rel :
        (P : Program) (m m' : M (Unit {0})) → Rel inner m m' → Rel inner (done F P m) (done F P m')
    done-Rel P m m' h = L.on_bind inner _ _ _ _ h λ u. L.on_pure inner fell

    exec_return-Rel :
        (P : Program) (r : Option Rhs) → Rel inner (exec_return F P run r) (exec_return F P run' r)
    exec_return-Rel P none = L.on_pure inner _
    exec_return-Rel P (some r) =
        L.on_bind inner _ _ _ _ (eval_rhs-Rel P inner r) λ v. L.on_pure inner _

    exec_stmt_raw-Rel :
        (P : Program) (k k' : ℕ) (st : Stmt)
        → k ≤ k'
        → Rel inner (exec_stmt_raw F P k run st) (exec_stmt_raw F P k' run' st)
    unfolding exec_stmt_raw
    exec_stmt_raw-Rel P k k' (define p name t c slot r) h =
        done-Rel P _ _ (exec_define-Rel L p name t c slot _ _ (eval_rhs-Rel P inner r))
    exec_stmt_raw-Rel P k k' (assign p name depth slot r) h =
        done-Rel P _ _ (exec_assign-Rel L inner p name depth slot r _ _ (eval_rhs-Rel P inner r))
    exec_stmt_raw-Rel P k k' (index_assign p name depth slot last steps r) h =
        done-Rel P _ _ (
          exec_index_assign-Rel L F inner p name depth slot last steps _ _ (eval_rhs-Rel P inner r))
    exec_stmt_raw-Rel P k k' (append p name depth slot steps r) h =
        done-Rel P _ _
          (exec_append-Rel L F inner p name depth slot steps _ _ (eval_rhs-Rel P inner r))
    exec_stmt_raw-Rel P k k' (if_then c b rest) h = exec_if-Rel L run run' same F inner c b rest
    exec_stmt_raw-Rel P k k' (match_on e arms) h =
        L.on_bind inner _ _ _ _ (eval-Rel L F inner e)
          λ v. exec_arms-Rel L run run' same F inner v arms
    exec_stmt_raw-Rel P k k' (while_loop c b) h = exec_while-Rel L run run' same F inner k k' c b h
    exec_stmt_raw-Rel P k k' (for_loop n init c step b) h =
        exec_for-Rel L run run' same F inner k k' n init c step b h
    exec_stmt_raw-Rel P k k' (for_each p name slot e b) h =
        exec_for_each-Rel L run run' same F inner p name slot e b
    exec_stmt_raw-Rel P k k' (for_range p name slot q lo hi b) h =
        exec_for_range-Rel L run run' same F inner p name slot q lo hi b
    exec_stmt_raw-Rel P k k' (repeat_until b c) h =
        exec_repeat-Rel L run run' same F inner k k' b c h
    exec_stmt_raw-Rel P k k' (return_with r) h = exec_return-Rel P r
    exec_stmt_raw-Rel P k k' (break_at p) h = L.on_pure inner (broke p)
    exec_stmt_raw-Rel P k k' (continue_at p) h = L.on_pure inner (continued p)
    exec_stmt_raw-Rel P k k' (exit_with e) h = exec_exit-Rel L F inner e
    exec_stmt_raw-Rel P k k' (throw p e) h = done-Rel P _ _ (exec_throw-Rel L F inner p e)
    exec_stmt_raw-Rel P k k' (try_catch b p name slot handler) h =
        exec_try-Rel P inner b p name slot handler
    exec_stmt_raw-Rel P k k' (defer on_error p callee args) h =
        done-Rel P _ _ (exec_defer-Rel L F on_error p callee args)
    exec_stmt_raw-Rel P k k' (run_expr r) h =
        L.on_bind inner _ _ _ _ (eval_rhs-Rel P inner r) λ v. L.on_pure inner fell

  -- A statement is related to itself with more fuel.
  pub exec_stmt-Rel :
      (P : Program) (n n' : ℕ) (st : Stmt)
      → n ≤ n'
      → Rel inner (exec_stmt F P n st) (exec_stmt F P n' st)
  unfolding exec_stmt
  exec_stmt-Rel P zero n' st h = L.on_stop inner _
  exec_stmt-Rel P (suc n) zero st h = absurd (omega arith)
  exec_stmt-Rel P (suc n) (suc n') st h =
      exec_stmt_raw-Rel (exec_stmt F P n) (exec_stmt F P n')
        (λ st. exec_stmt-Rel P n n' st (omega arith)) P n n' st (omega arith)
