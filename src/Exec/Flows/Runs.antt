-- ===== src/Exec/Flows/Runs.antt =====
-- What flows a statement of internal/interpreter/interpreter.go ends with.
use jennifer.Exec.Control.{exec_for_range, exec_for_each, exec_for, exec_if}
use jennifer.Exec.Simple.{exit_code, exec_exit}
use jennifer.Exec.Run.{exec_return, exec_stmt_raw, done, exec_stmt}
use jennifer.Exec.Flows.{
  range_passes-Gives, exec_repeat-Gives, for_each_of-Gives, for_passes-Gives, framed-Gives,
  exec_while-Gives, exec_arms-Gives, exec_else-Gives, exec_block-Gives, if-Gives, both,
  attempt-Gives, then-Gives, in_frame-Gives, block, Given, Value, pure-Gives, Expr, Fault,
  confined_block, after-Gives, raise-Gives, Pos, Settled, confined,
}
use jennifer.Exec.Outcomes.{Gives}
use jennifer.Exec.Calls.{caught_value, after_try, exec_try, handle, Program}
use jennifer.Float64.{FloatOps}
use jennifer.Common.{
  ◌-ℤ◌, pos_part, Result, ℤ, List, Option, none, some, ok, err, ℕ, zero, suc, ◌≡◌, true,
}
use jennifer.Value.{int}
use jennifer.Exec.Machine.{out_of_fuel, M, Flow, fell}
use jennifer.Exec.Syntax.{
  for_range, append, Rhs, Stmt, Block, define, assign, index_assign, if_then, match_on, while_loop,
  for_loop, for_each, repeat_until, return_with, break_at, continue_at, exit_with, throw, try_catch,
  defer, run_expr,
}

module _ (F : FloatOps) (P : Program) where
  done-Gives : (m : M (Unit {0})) → Gives Settled (done F P m)
  done-Gives m = after-Gives Settled _ _ λ u. pure-Gives Settled fell tt

  module _ (run : Stmt → M Flow)
      (settles : (st : Stmt) → confined st ≡ true → Gives Settled (run st)) where
    handle-Gives :
        (p : Pos) (name : List ℕ) (slot : ℤ) (b : Block) (e : Fault) (v : Option Value)
        → confined_block b ≡ true
        → Gives Settled (handle F run p name slot b e v)
    unfolding handle confined_block
    handle-Gives p name slot (block n ss) e none h = raise-Gives Settled e
    handle-Gives p name slot (block n ss) e (some v) h = in_frame-Gives run settles n _ ss h

    after_try-Gives :
        (p : Pos) (name : List ℕ) (slot : ℤ) (b : Block) (r : Result Fault Flow)
        → confined_block b ≡ true
        → Given Settled r
        → Gives Settled (after_try F run P p name slot b r)
    after_try-Gives p name slot b (ok f) h k = pure-Gives Settled f k
    after_try-Gives p name slot b (err e) h k =
        handle-Gives p name slot b e (caught_value F run P e) h

    exec_try-Gives :
        (b : Block) (p : Pos) (name : List ℕ) (slot : ℤ) (handler : Block)
        → confined_block b ≡ true
        → confined_block handler ≡ true
        → Gives Settled (exec_try F run P b p name slot handler)
    unfolding exec_try confined_block
    exec_try-Gives (block n ss) p name slot handler h k =
        then-Gives (Given Settled) Settled _ _
          (attempt-Gives Settled _ (in_frame-Gives run settles n _ ss h))
          λ r g. after_try-Gives p name slot handler r k g

    exec_return-Gives : (r : Option Rhs) → Gives Settled (exec_return F P run r)
    exec_return-Gives none = pure-Gives Settled _ tt
    exec_return-Gives (some r) = after-Gives Settled _ _ λ v. pure-Gives Settled _ tt

    exec_exit-Gives : (e : Option Expr) → Gives Settled (exec_exit F e)
    unfolding exec_exit
    exec_exit-Gives none = raise-Gives Settled _
    exec_exit-Gives (some e) = after-Gives Settled _ _ (exit_code-Gives e)
      where
        exit_code-Gives : (e : Expr) (v : Value) → Gives Settled (exit_code e v)
        exit_code-Gives e (int n) = raise-Gives Settled _
        exit_code-Gives e v = raise-Gives Settled _

    exec_stmt_raw-Gives :
        (k : ℕ) (st : Stmt) → confined st ≡ true → Gives Settled (exec_stmt_raw F P k run st)
    unfolding exec_stmt_raw confined exec_if exec_for exec_for_each exec_for_range
    exec_stmt_raw-Gives k (define p name t c slot r) h = done-Gives _
    exec_stmt_raw-Gives k (assign p name depth slot r) h = done-Gives _
    exec_stmt_raw-Gives k (index_assign p name depth slot last steps r) h = done-Gives _
    exec_stmt_raw-Gives k (append p name depth slot steps r) h = done-Gives _
    exec_stmt_raw-Gives k (if_then c b rest) h =
        let (d, e) = both h in
        after-Gives Settled _ _ λ t.
          if-Gives Settled t (exec_block-Gives run settles b d)
            (exec_else-Gives run settles F rest e)
    exec_stmt_raw-Gives k (match_on e arms) h =
        after-Gives Settled _ _ λ v. exec_arms-Gives run settles F v arms h
    exec_stmt_raw-Gives k (while_loop c b) h = exec_while-Gives run settles F k c b
    exec_stmt_raw-Gives k (for_loop n init c step b) h =
        framed-Gives Settled n _
          (after-Gives Settled _ _ λ f. for_passes-Gives run settles F k c step b)
    exec_stmt_raw-Gives k (for_each p name slot e b) h =
        after-Gives Settled _ _ (for_each_of-Gives run settles F p name slot b)
    exec_stmt_raw-Gives k (for_range p name slot q lo hi b) h = after-Gives Settled _ _ λ v.
        after-Gives Settled _ _ λ w.
          after-Gives Settled _ _
            λ (a, z). range_passes-Gives run settles F p name slot b (pos_part (z -ℤ a)) a
    exec_stmt_raw-Gives k (repeat_until b c) h = exec_repeat-Gives run settles F k b c
    exec_stmt_raw-Gives k (return_with r) h = exec_return-Gives r
    exec_stmt_raw-Gives k (break_at p) h = cc
    exec_stmt_raw-Gives k (continue_at p) h = cc
    exec_stmt_raw-Gives k (exit_with e) h = exec_exit-Gives e
    exec_stmt_raw-Gives k (throw p e) h = done-Gives _
    exec_stmt_raw-Gives k (try_catch b p name slot handler) h =
        let (d, e) = both h in exec_try-Gives b p name slot handler d e
    exec_stmt_raw-Gives k (defer on_error p callee args) h = done-Gives _
    exec_stmt_raw-Gives k (run_expr r) h = after-Gives Settled _ _ λ v. pure-Gives Settled fell tt

  -- A statement with no `break` or `continue` outside a loop of its own ends with neither: where it
  -- raises no error, it falls off its end or returns.
  pub exec_stmt-Settled :
      (n : ℕ) (st : Stmt) → confined st ≡ true → Gives Settled (exec_stmt F P n st)
  unfolding exec_stmt
  exec_stmt-Settled zero st h = raise-Gives Settled out_of_fuel
  exec_stmt-Settled (suc n) st h =
      exec_stmt_raw-Gives (exec_stmt F P n) (exec_stmt-Settled n) n st h
