-- ===== src/Exec/Tests.antt =====
-- Runs of small programs.
use jennifer.IntFast.{var_value}
use jennifer.Exec.Run.{run_program}
use jennifer.Value.{int, Value}
use jennifer.Exec.Calls.{Program}
use jennifer.Ast.{int_lit, op_add, var, lit, binary, Expr}
use jennifer.Common.{
  ◌+ℤ◌, ◌-ℤ◌, ◌>>=◌, Option, List, [], ◌∷◌, codes, refl, ok, err, ℕ, pos, negsuc, none, some, true,
  false, ◌≡◌,
}
use jennifer.Examples.{coarse, here, x, one_frame}
use jennifer.Exec.Machine.{State, Outcome, Fault}
use jennifer.Exec.Syntax.{
  plain, seq, block, Stmt, Stmts, Block, Method, no_more, assign, for_range, try_catch, throw,
  defer,
}

abbrev int_expr : ℕ → Expr
int_expr n = lit here (int_lit (pos n))

-- The global x, from `depth` frames below.
abbrev x_at : ℕ → Expr
x_at depth = var here x (pos depth) (pos 0)

abbrev set_x : ℕ → Expr → Stmt
set_x depth e = assign here x (pos depth) (pos 0) (plain e)

abbrev one_stmt : Stmt → Block
one_stmt st = block 0 (seq st no_more)

-- func bump() { $x = $x + 1; }
abbrev bump : Method
bump = record {
  name = codes "bump";
  params = [];
  body = one_stmt (set_x 2 (binary here op_add (x_at 2) (int_expr 1) none));
}

abbrev bumping : Program
bumping = record { methods = bump ∷ []; message = λ k. [] }

abbrev initial : State
initial = record { env = one_frame; deferred = []; depth = 0 }

-- The value of the global x after a program.
abbrev x_after : Outcome (Unit {0}) → Option Value
x_after (r, s) = var_value s.env (pos 0) (pos 0)

-- for (def i in 0..3) { $x = $x + $i; }
abbrev summing : Stmts
summing =
    seq
      (for_range here (codes "i") (pos 0) here (int_expr 0) (int_expr 3) (
        block 1 (
          seq (set_x 1 (binary here op_add (x_at 1) (var here (codes "i") (pos 0) (pos 0)) none))
            no_more)))
      no_more

summed : x_after (run_program coarse bumping 4 summing initial) ≡ some (int (pos 44))
unfolding run_program jennifer.Exec.Machine.◌>>=◌ jennifer.Exec.Machine.attempt
    jennifer.Exec.Machine.get_env jennifer.Exec.Machine.pure jennifer.Exec.Machine.framed
    jennifer.Exec.Machine.update_env jennifer.Exec.Machine.try_update
    jennifer.Exec.Machine.take_deferred jennifer.Common.◌-ℤ◌ jennifer.Arith.int_arith
    jennifer.Arith.add_overflow jennifer.Int64.wrap jennifer.Common.◌+ℤ◌
summed = refl

-- try { defer bump(); throw 7; $x = 0; } catch (e) { $x = $x + $e; }
abbrev catching : Stmts
catching =
    seq
      (try_catch
        (block 0 (
          seq (defer false here (codes "bump") [])
            (seq (throw here (int_expr 7)) (seq (set_x 1 (int_expr 0)) no_more))))
        here (codes "e") (pos 0)
        (block 1 (
          seq (set_x 1 (binary here op_add (x_at 1) (var here (codes "e") (pos 0) (pos 0)) none))
            no_more)))
      no_more

caught_seven : x_after (run_program coarse bumping 5 catching initial) ≡ some (int (pos 49))
unfolding run_program jennifer.Exec.Machine.◌>>=◌ jennifer.Exec.Machine.attempt
    jennifer.Exec.Machine.get_env jennifer.Exec.Machine.pure jennifer.Exec.Machine.framed
    jennifer.Exec.Machine.update_env jennifer.Exec.Machine.try_update
    jennifer.Exec.Machine.take_deferred jennifer.Exec.Machine.raise
    jennifer.Exec.Machine.push_deferred jennifer.Exec.Machine.in_callee jennifer.Exec.Machine.deeper
    jennifer.Exec.Machine.get_depth jennifer.Common.◌-ℤ◌ jennifer.Arith.int_arith
    jennifer.Arith.add_overflow jennifer.Int64.wrap jennifer.Common.◌+ℤ◌
caught_seven = refl
