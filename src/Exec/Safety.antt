-- ===== src/Exec/Safety.antt =====
-- What blocks, statements and calls of internal/interpreter/interpreter.go leave behind, on every
-- path out of them.
use jennifer.Exec.Related.Control.{exec_block-Rel}
use jennifer.Exec.Related.Calls.{eval_call-Rel, exec_stmt-Rel}
use jennifer.Exec.Control.{exec_block}
use jennifer.Exec.Run.{exec_stmt}
use jennifer.Ast.{Pos}
use jennifer.Exec.Kept.{Rel-Leaves, leaving, Moved, Held}
use jennifer.Exec.Calls.{eval_call, Program}
use jennifer.Float64.{FloatOps}
use jennifer.Common.{arith, List, ℕ}
use jennifer.Exec.Machine.{State}
use jennifer.Exec.Logic.{inner, outer}
use jennifer.Exec.Syntax.{Stmt, Block, Arg}

module _ (F : FloatOps) (P : Program) where
  stmt-Rel : (n : ℕ) (st : Stmt) → leaving.Rel inner (exec_stmt F P n st) (exec_stmt F P n st)
  stmt-Rel n st = exec_stmt-Rel leaving F P n n st (omega arith)

  -- However a statement ends, in a flow, an error, an `exit` or without fuel, the frames around its
  -- own keep their bindings: their names, declared types and constness, the values of constants, and
  -- that a value matches the declared type; and the depth of calls is what it was.
  pub exec_stmt-Moved : (n : ℕ) (st : Stmt) (s : State) → Moved s (exec_stmt F P n st s).1
  exec_stmt-Moved n st s = (Rel-Leaves inner _ _ (stmt-Rel n st)).left s

  -- However a block ends, its frame is gone: every frame is there as before, with its bindings,
  -- their names, declared types and constness, the values of constants, and that a value matches the
  -- declared type; the deferred calls of the frame around it and the depth of calls are unchanged.
  pub exec_block-Held :
      (n : ℕ) (b : Block) (s : State) → Held s (exec_block (exec_stmt F P n) b s).1
  exec_block-Held n b s =
      let run = exec_stmt F P n in
      (Rel-Leaves outer _ _ (exec_block-Rel leaving run run (stmt-Rel n) outer b)).left s

  -- However a call of a method ends, the frames of the caller are there as before, with their
  -- bindings, their names, declared types and constness, the values of constants, and that a value
  -- matches the declared type; so are its deferred calls and the depth of calls.
  pub eval_call-Held :
      (n : ℕ) (p : Pos) (callee : List ℕ) (args : List Arg) (s : State)
      → Held s (eval_call F (exec_stmt F P n) P p callee args s).1
  eval_call-Held n p callee args s =
      let run = exec_stmt F P n in
      let r = eval_call-Rel leaving F run run (stmt-Rel n) P outer p callee args in
      (Rel-Leaves outer _ _ r).left s
