-- ===== src/Exec/Related/Loops.antt =====
-- Relations between two runs (Exec.Logic) for the loops of internal/interpreter/interpreter.go.
use jennifer.Exec.Related.Control.{after_pass-Rel, in_frame-Rel, exec_block-Rel}
use jennifer.Exec.Ranges.{range_bounds}
use jennifer.Exec.Places.{put_variable-parents}
use jennifer.Exec.Simple.{put_variable}
use jennifer.Eval.{until_condition, for_condition, while_condition}
use jennifer.Exec.Related.{lift-Rel, int, eval-Rel, if-Rel, eval_bool-Rel}
use jennifer.Value.{nil, cons, Values, list, Value}
use jennifer.Ast.{type_int, type_invalid, DeclType, Pos, Expr}
use jennifer.Float64.{FloatOps}
use jennifer.Exec.Control.{
  exec_for_range, range_passes, for_each_of, for_each_pass, exec_for_each, for_each_passes, run_opt,
  for_test, exec_repeat, exec_for, for_passes, exec_while,
}
use jennifer.Common.{
  ◌+ℤ◌, ◌-ℤ◌, pos_part, pos, ℤ, arith, List, Option, none, some, ℕ, zero, suc, ◌≤◌, true,
}
use jennifer.Exec.Machine.{fell, Flow, M}
use jennifer.Exec.Logic.{Logic, Reach, inner}
use jennifer.Exec.Syntax.{no_stmt, a_stmt, block, OptStmt, Block, Stmt}

module _ (L : Logic) where
  open L use {Rel}

  module _ (run run' : Stmt → M Flow) (same : (st : Stmt) → Rel inner (run st) (run' st)) where
    module _ (F : FloatOps) where
      pub exec_while-Rel :
          (o : Reach) (k k' : ℕ) (c : Expr) (b : Block)
          → k ≤ k'
          → Rel o (exec_while run F k c b) (exec_while run' F k' c b)
      unfolding exec_while
      exec_while-Rel o zero k' c b h = L.on_stop o _
      exec_while-Rel o (suc k) zero c b h = absurd (omega arith)
      exec_while-Rel o (suc k) (suc k') c b h =
          L.on_bind o _ _ _ _ (eval_bool-Rel L F o while_condition c) λ t.
            if-Rel L o t
              (L.on_bind o _ _ _ _ (exec_block-Rel L run run' same o b)
                (after_pass-Rel L o _ _ (exec_while-Rel o k k' c b (omega arith))))
              (L.on_pure o fell)

      for_test-Rel : (o : Reach) (c : Option Expr) → Rel o (for_test run F c) (for_test run' F c)
      for_test-Rel o none = L.on_pure o true
      for_test-Rel o (some c) = eval_bool-Rel L F o for_condition c

      run_opt-Rel : (st : OptStmt) → Rel inner (run_opt run F st) (run_opt run' F st)
      run_opt-Rel no_stmt = L.on_pure inner fell
      run_opt-Rel (a_stmt st) = same st

      for_passes-Rel :
          (k k' : ℕ) (c : Option Expr) (step : OptStmt) (b : Block)
          → k ≤ k'
          → Rel inner (for_passes run F k c step b) (for_passes run' F k' c step b)
      unfolding for_passes
      for_passes-Rel zero k' c step b h = L.on_stop inner _
      for_passes-Rel (suc k) zero c step b h = absurd (omega arith)
      for_passes-Rel (suc k) (suc k') c step b h =
          L.on_bind inner _ _ _ _ (for_test-Rel inner c) λ t.
            if-Rel L inner t
              (L.on_bind inner _ _ _ _ (exec_block-Rel L run run' same inner b) (
                after_pass-Rel L inner _ _ (
                  L.on_bind inner _ _ _ _ (run_opt-Rel step)
                    λ f. for_passes-Rel k k' c step b (omega arith))))
              (L.on_pure inner fell)

      pub exec_for-Rel :
          (o : Reach) (k k' n : ℕ) (init : OptStmt) (c : Option Expr) (step : OptStmt) (b : Block)
          → k ≤ k'
          → Rel o (exec_for run F k n init c step b) (exec_for run' F k' n init c step b)
      unfolding exec_for
      exec_for-Rel o k k' n init c step b h =
          L.on_framed o n _ _
            (L.on_bind inner _ _ _ _ (run_opt-Rel init) λ f. for_passes-Rel k k' c step b h)

      pub exec_repeat-Rel :
          (o : Reach) (k k' : ℕ) (b : Block) (c : Expr)
          → k ≤ k'
          → Rel o (exec_repeat run F k b c) (exec_repeat run' F k' b c)
      unfolding exec_repeat
      exec_repeat-Rel o zero k' b c h = L.on_stop o _
      exec_repeat-Rel o (suc k) zero b c h = absurd (omega arith)
      exec_repeat-Rel o (suc k) (suc k') b c h =
          L.on_bind o _ _ _ _ (exec_block-Rel L run run' same o b) (
            after_pass-Rel L o _ _ (
              L.on_bind o _ _ _ _ (eval_bool-Rel L F o until_condition c)
                λ t. if-Rel L o t (L.on_pure o fell) (exec_repeat-Rel o k k' b c (omega arith))))

      for_each_passes-Rel :
          (o : Reach) (p : Pos) (name : List ℕ) (slot : ℤ) (t : DeclType) (b : Block) (vs : Values)
          → Rel o
              (for_each_passes run F p name slot t b vs)
              (for_each_passes run' F p name slot t b vs)
      unfolding for_each_passes for_each_pass
      for_each_passes-Rel o p name slot t b nil = L.on_pure o fell
      for_each_passes-Rel o p name slot t (block n ss) (cons v vs) =
          L.on_bind o _ _ _ _
            (in_frame-Rel L run run' same o n _ ss
              (L.on_define p (put_variable name slot v t) (put_variable-parents name slot v t)))
            (after_pass-Rel L o _ _ (for_each_passes-Rel o p name slot t (block n ss) vs))

      for_each_of-Rel :
          (o : Reach) (p : Pos) (name : List ℕ) (slot : ℤ) (b : Block) (v : Value)
          → Rel o (for_each_of run F p name slot b v) (for_each_of run' F p name slot b v)
      for_each_of-Rel o p name slot b (list (some t) vs) = for_each_passes-Rel o p name slot t b vs
      for_each_of-Rel o p name slot b (list none vs) =
          for_each_passes-Rel o p name slot type_invalid b vs
      for_each_of-Rel o p name slot b v = L.on_raise o _

      pub exec_for_each-Rel :
          (o : Reach) (p : Pos) (name : List ℕ) (slot : ℤ) (e : Expr) (b : Block)
          → Rel o (exec_for_each run F p name slot e b) (exec_for_each run' F p name slot e b)
      unfolding exec_for_each
      exec_for_each-Rel o p name slot e b =
          L.on_bind o _ _ _ _ (eval-Rel L F o e) (for_each_of-Rel o p name slot b)

      range_passes-Rel :
          (o : Reach) (p : Pos) (name : List ℕ) (slot : ℤ) (b : Block) (k : ℕ) (n : ℤ)
          → Rel o (range_passes run F p name slot b k n) (range_passes run' F p name slot b k n)
      unfolding range_passes for_each_pass
      range_passes-Rel o p name slot b zero n = L.on_pure o fell
      range_passes-Rel o p name slot (block m ss) (suc k) n =
          L.on_bind o _ _ _ _
            (in_frame-Rel L run run' same o m _ ss (
              L.on_define p (put_variable name slot (int n) type_int)
                (put_variable-parents name slot (int n) type_int)))
            (after_pass-Rel L o _ _ (range_passes-Rel o p name slot (block m ss) k (n +ℤ pos 1)))

      pub exec_for_range-Rel :
          (o : Reach) (p : Pos) (name : List ℕ) (slot : ℤ) (q : Pos) (lo hi : Expr) (b : Block)
          → Rel o
              (exec_for_range run F p name slot q lo hi b)
              (exec_for_range run' F p name slot q lo hi b)
      unfolding exec_for_range
      exec_for_range-Rel o p name slot q lo hi b = L.on_bind o _ _ _ _ (eval-Rel L F o lo) λ v.
          L.on_bind o _ _ _ _ (eval-Rel L F o hi) λ w.
            L.on_bind o _ _ _ _ (lift-Rel L o (range_bounds v w q))
              λ (a, z). range_passes-Rel o p name slot b (pos_part (z -ℤ a)) a
