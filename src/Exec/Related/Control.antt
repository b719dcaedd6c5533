-- ===== src/Exec/Related/Control.antt =====
-- Relations between two runs (Exec.Logic) for the frames, blocks and branches of
-- internal/interpreter/interpreter.go.
use jennifer.Eval.{elseif_condition, if_condition}
use jennifer.Exec.Related.{eval-Rel, if-Rel, eval_bool-Rel}
use jennifer.Value.{equal, Value}
use jennifer.Ast.{Expr}
use jennifer.Float64.{FloatOps}
use jennifer.Exec.Control.{
  note_failure, has_failed, exec_arms, matches_arm, exec_if, exec_else, errdefer_fires,
  invoke_deferred, exec_block, in_frame, finish_frame, run_deferred, exec_stmts, if_fell,
  after_pass, frame_result,
}
use jennifer.Common.{
  Result, [], ◌&&◌, ◌∷◌, List, Option, none, some, ok, err, ℕ, Bool, true, false, not,
}
use jennifer.Exec.Machine.{
  out_of_fuel, continued, thrown, Deferred, broke, runtime, returned, exit, fell, Flow,
  raise_or_pure, M, Fault,
}
use jennifer.Exec.Logic.{Logic, Reach, inner}
use jennifer.Exec.Syntax.{
  no_arm, no_else, arm, else_arm, else_if, Arms, else_block, no_more, Else, block, Block, seq, Stmt,
  Stmts,
}

module _ (L : Logic) where
  open L use {Rel}

  pub raise_or_pure-Rel :
      {A : Type 0} (o : Reach) (r : Result Fault A) → Rel o (raise_or_pure r) (raise_or_pure r)
  raise_or_pure-Rel o (ok a) = L.on_pure o a
  raise_or_pure-Rel o (err e) = L.on_raise o e

  frame_result-Rel :
      (o : Reach) (r : Result Fault Flow) (d : Option Fault)
      → Rel o (frame_result r d) (frame_result r d)
  frame_result-Rel o r none = raise_or_pure-Rel o r
  frame_result-Rel o (ok f) (some d) = L.on_raise o d
  frame_result-Rel o (err (exit n)) (some d) = L.on_raise o (exit n)
  frame_result-Rel o (err (runtime e)) (some d) = L.on_raise o d
  frame_result-Rel o (err (thrown v p)) (some d) = L.on_raise o d
  frame_result-Rel o (err out_of_fuel) (some d) = L.on_raise o d

  pub after_pass-Rel :
      (o : Reach) (rest rest' : M Flow)
      → Rel o rest rest'
      → (f : Flow) → Rel o (after_pass rest f) (after_pass rest' f)
  after_pass-Rel o rest rest' h fell = h
  after_pass-Rel o rest rest' h (returned v) = L.on_pure o (returned v)
  after_pass-Rel o rest rest' h (broke p) = L.on_pure o fell
  after_pass-Rel o rest rest' h (continued p) = h

  if_fell-Rel :
      (rest rest' : M Flow)
      → Rel inner rest rest'
      → (f : Flow) → Rel inner (if_fell rest f) (if_fell rest' f)
  if_fell-Rel rest rest' h fell = h
  if_fell-Rel rest rest' h (returned v) = L.on_pure inner (returned v)
  if_fell-Rel rest rest' h (broke p) = L.on_pure inner (broke p)
  if_fell-Rel rest rest' h (continued p) = L.on_pure inner (continued p)

  module _ (run run' : Stmt → M Flow) (same : (st : Stmt) → Rel inner (run st) (run' st)) where
    pub exec_stmts-Rel : (ss : Stmts) → Rel inner (exec_stmts run ss) (exec_stmts run' ss)
    unfolding exec_stmts
    exec_stmts-Rel no_more = L.on_pure inner fell
    exec_stmts-Rel (seq st rest) =
        L.on_bind inner _ _ _ _ (same st) (if_fell-Rel _ _ (exec_stmts-Rel rest))

    run_deferred-Rel :
        (ds : List Deferred) (failed : Bool) (last : Option Fault)
        → Rel inner (run_deferred run ds failed last) (run_deferred run' ds failed last)
    unfolding run_deferred invoke_deferred
    run_deferred-Rel [] failed last = L.on_pure inner last
    run_deferred-Rel (d ∷ ds) failed last =
        if-Rel L inner (d.on_error && not failed) (run_deferred-Rel ds failed last) (
          L.on_bind inner _ _ _ _ (L.on_attempt inner _ _ (same _))
            λ r. run_deferred-Rel ds (has_failed run failed r) (note_failure run last r))

    pub finish_frame-Rel :
        (m m' : M Flow) → Rel inner m m' → Rel inner (finish_frame run m) (finish_frame run' m')
    unfolding finish_frame
    finish_frame-Rel m m' h = L.on_bind inner _ _ _ _ (L.on_attempt inner m m' h) λ r.
        L.on_bind inner _ _ _ _ L.on_take λ ds.
          L.on_bind inner _ _ _ _ (run_deferred-Rel ds (errdefer_fires r) none)
            λ last. frame_result-Rel inner r last

    pub in_frame-Rel :
        (o : Reach) (n : ℕ) (bind : M (Unit {0})) (ss : Stmts)
        → Rel inner bind bind
        → Rel o (in_frame run n bind ss) (in_frame run' n bind ss)
    unfolding in_frame
    in_frame-Rel o n bind ss h =
        L.on_framed o n _ _
          (L.on_bind inner _ _ _ _ h λ u. finish_frame-Rel _ _ (exec_stmts-Rel ss))

    -- A block reaches no further than its relation says.
    pub exec_block-Rel : (o : Reach) (b : Block) → Rel o (exec_block run b) (exec_block run' b)
    unfolding exec_block
    exec_block-Rel o (block n ss) = L.on_deeper o _ _ (in_frame-Rel o n _ ss (L.on_pure inner tt))

    module _ (F : FloatOps) where
      exec_else-Rel : (o : Reach) (e : Else) → Rel o (exec_else run F e) (exec_else run' F e)
      unfolding exec_else
      exec_else-Rel o no_else = L.on_pure o fell
      exec_else-Rel o (else_block b) = exec_block-Rel o b
      exec_else-Rel o (else_if c b rest) =
          L.on_bind o _ _ _ _ (eval_bool-Rel L F o elseif_condition c)
            λ t. if-Rel L o t (exec_block-Rel o b) (exec_else-Rel o rest)

      pub exec_if-Rel :
          (o : Reach) (c : Expr) (b : Block) (e : Else)
          → Rel o (exec_if run F c b e) (exec_if run' F c b e)
      unfolding exec_if
      exec_if-Rel o c b e =
          L.on_bind o _ _ _ _ (eval_bool-Rel L F o if_condition c)
            λ t. if-Rel L o t (exec_block-Rel o b) (exec_else-Rel o e)

      matches_arm-Rel :
          (o : Reach) (v : Value) (es : List Expr)
          → Rel o (matches_arm run F v es) (matches_arm run' F v es)
      unfolding matches_arm
      matches_arm-Rel o v [] = L.on_pure o false
      matches_arm-Rel o v (e ∷ es) =
          L.on_bind o _ _ _ _ (eval-Rel L F o e)
            λ w. if-Rel L o (equal F v w) (L.on_pure o true) (matches_arm-Rel o v es)

      pub exec_arms-Rel :
          (o : Reach) (v : Value) (arms : Arms)
          → Rel o (exec_arms run F v arms) (exec_arms run' F v arms)
      unfolding exec_arms
      exec_arms-Rel o v no_arm = L.on_pure o fell
      exec_arms-Rel o v (else_arm b) = exec_block-Rel o b
      exec_arms-Rel o v (arm es b rest) =
          L.on_bind o _ _ _ _ (matches_arm-Rel o v es)
            λ t. if-Rel L o t (exec_block-Rel o b) (exec_arms-Rel o v rest)
