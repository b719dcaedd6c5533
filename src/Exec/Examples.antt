-- ===== src/Exec/Examples.antt =====
-- Each property of statements on one input.
use jennifer.Exec.Lazy.{range_of-for_each_of}
use jennifer.Exec.Ranges.{range_list}
use jennifer.Exec.Finish.Order.{
  finish_frame-exec_stmts, deferred_stmts, defer_all, newest_first, in_flow,
}
use jennifer.Exec.Appended.{append_into-Appended, Appended}
use jennifer.Exec.Halts.Runs.{exec_stmt-Halts}
use jennifer.Exec.Flows.Runs.{exec_stmt-Settled}
use jennifer.Exec.Safety.{eval_call-Held, exec_block-Held}
use jennifer.Exec.Paths.{read_path-write_path, read_path, container_at}
use jennifer.Value.Types.{matches_declared}
use jennifer.Exec.Typed.{stamp-IsTyped, IsTyped}
use jennifer.Exec.Typed.Writes.{write_path-StillTyped, StillTyped}
use jennifer.Exec.Stored.{write_indexed-Stored, Stored, recorded_element}
use jennifer.Exec.Update.{append_into, stamped_element, stamp, write_path, write_indexed}
use jennifer.Value.{nil, cons, int, list, Value}
use jennifer.Exec.Finish.{finish_frame-Survives, Survives}
use jennifer.Exec.Halts.{Halts}
use jennifer.Exec.Halts.Statements.{straight}
use jennifer.Exec.Outcomes.{Gives}
use jennifer.Exec.Flows.{Settled, confined}
use jennifer.Ast.{type_int, int_lit, type_list, bool_lit, lit}
use jennifer.Exec.Run.{exec_stmt}
use jennifer.Exec.Control.{for_each_of, range_of, finish_frame, exec_stmts, exec_block}
use jennifer.Exec.Calls.{eval_call, Program}
use jennifer.Common.{
  ◌+ℤ◌, ◌-ℤ◌, ◌>>=◌, Result, Option, ◌≢◌, List, [], ◌∷◌, codes, refl, ok, err, ℕ, pos, none, some,
  true, false, ◌≡◌, arith,
}
use jennifer.Examples.{coarse, here, x, one_frame}
use jennifer.Exec.Kept.{Held}
use jennifer.Exec.Machine.{exit, Flow, raise, out_of_fuel, Fault, pure, State, Deferred, fell}
use jennifer.Exec.Syntax.{
  plain, seq, block, Stmt, Block, no_more, no_else, define, assign, if_then, while_loop, break_at,
}

-- A method without parameters that returns null.
abbrev close : List ℕ
close = codes "close"

abbrev closing : Program
closing = record {
  methods = record { name = close; params = []; body = block 0 no_more } ∷ [];
  message = λ k. [];
}

abbrev start : State
start = record { env = one_frame; deferred = []; depth = 0 }

-- $x = 42; def y as int = 1;
abbrev body : Block
body = block 1 (
    seq (assign here x (pos 1) (pos 0) (plain (lit here (int_lit (pos 42))))) (
      seq (define here (codes "y") type_int false (pos 0) (plain (lit here (int_lit (pos 1)))))
        no_more))

exec_block-Held_example : Held start (exec_block (exec_stmt coarse closing 3) body start).1
exec_block-Held_example = exec_block-Held coarse closing 3 body start

eval_call-Held_example :
    Held start (eval_call coarse (exec_stmt coarse closing 3) closing here close [] start).1
eval_call-Held_example = eval_call-Held coarse closing 3 here close [] start

-- while (true) { break; }
abbrev looping : Stmt
looping = while_loop (lit here (bool_lit true)) (block 0 (seq (break_at here) no_more))

looping-confined : confined looping ≡ true
unfolding confined
looping-confined = refl

exec_stmt-Settled_example : Gives Settled (exec_stmt coarse closing 3 looping)
exec_stmt-Settled_example = exec_stmt-Settled coarse closing 3 looping looping-confined

abbrev branch : Stmt
branch = if_then (lit here (bool_lit true)) body no_else

branch-straight : straight 2 branch ≡ true
unfolding straight
branch-straight = refl

exec_stmt-Halts_example : Halts (exec_stmt coarse closing 2 branch)
exec_stmt-Halts_example = exec_stmt-Halts coarse closing 2 branch branch-straight

-- A frame that was left by `exit 3` with a deferred call of a method that there is not.
abbrev failing : Deferred
failing = record { at = here; callee = codes "gone"; args = []; on_error = false }

abbrev deferring : State
deferring = record start { deferred = failing ∷ [] }

finish_frame-Survives_example :
    Survives
      (raise {A = Flow} (exit (pos 3)) deferring).0
      (finish_frame (exec_stmt coarse closing 3) (raise (exit (pos 3))) deferring).0
finish_frame-Survives_example =
    finish_frame-Survives (exec_stmt coarse closing 3) (raise (exit (pos 3))) deferring

-- A call deferred by `defer` after one by `errdefer`, in a frame that does not fail.
abbrev cleanup : Deferred
cleanup = record { at = here; callee = close; args = []; on_error = false }

abbrev on_failure : Deferred
on_failure = record { at = here; callee = codes "gone"; args = []; on_error = true }

abbrev cleaning : State
cleaning = record start { deferred = cleanup ∷ on_failure ∷ [] }

ends_cleaning : pure fell cleaning ≡ (ok fell, cleaning)
unfolding pure
ends_cleaning = refl

both_deferred : defer_all (on_failure ∷ cleanup ∷ []) start ≡ (ok tt, cleaning)
unfolding jennifer.Exec.Machine.push_deferred pure jennifer.Exec.Machine.◌>>=◌
both_deferred = refl

cleaned :
    exec_stmts
      (exec_stmt coarse closing 3)
      (deferred_stmts false (newest_first (on_failure ∷ cleanup ∷ [])))
      start
    ≡ (ok fell, start)
unfolding exec_stmts exec_stmt jennifer.Exec.Machine.◌>>=◌ pure jennifer.Exec.Machine.in_callee
    jennifer.Exec.Machine.deeper jennifer.Exec.Machine.get_depth jennifer.Exec.Machine.framed
    jennifer.Exec.Machine.attempt jennifer.Exec.Machine.take_deferred
cleaned = refl

finish_frame-exec_stmts_example :
    finish_frame (exec_stmt coarse closing 3) (pure fell) cleaning ≡ (ok fell, start)
finish_frame-exec_stmts_example =
    finish_frame-exec_stmts (exec_stmt coarse closing 3) (pure fell) cleaning cleaning start
      (ok fell) false (on_failure ∷ cleanup ∷ []) ends_cleaning both_deferred (in_flow fell) cleaned

abbrev pair : Value
pair = list (some type_int) (cons (int (pos 1)) (cons (int (pos 2)) nil))

abbrev pair_written : Value
pair_written = list (some type_int) (cons (int (pos 1)) (cons (int (pos 9)) nil))

write_pair : write_indexed pair (int (pos 1)) (int (pos 9)) here ≡ ok pair_written
unfolding write_indexed
write_pair = refl

write_indexed-Stored_example : Stored pair pair_written (int (pos 9)) (pos 1) here
write_indexed-Stored_example =
    write_indexed-Stored pair pair_written (int (pos 9)) (pos 1) here here write_pair

nine_IsTyped : IsTyped (int (pos 9))
unfolding IsTyped
nine_IsTyped = tt

abbrev grid : Value
grid = list (some (type_list type_int)) (cons pair nil)

abbrev grid_written : Value
grid_written = list (some (type_list type_int)) (cons pair_written nil)

write_grid :
    write_path grid ((here, int (pos 0)) ∷ []) (here, int (pos 1)) (int (pos 9)) ≡ ok grid_written
unfolding write_path
write_grid = refl

read_path-write_path_example :
    (c : Value) × (container_at grid ((here, int (pos 0)) ∷ []) ≡ ok c)
    × (read_path grid_written ((here, int (pos 0)) ∷ []) (here, int (pos 1))
        ≡ ok (stamped_element (recorded_element c) (int (pos 9))))
read_path-write_path_example =
    read_path-write_path grid grid_written ((here, int (pos 0)) ∷ []) (here, int (pos 1))
      (int (pos 9)) write_grid

grid-IsTyped : IsTyped grid
unfolding IsTyped matches_declared jennifer.Value.Types.equal_types
grid-IsTyped = (refl, ((refl, (tt, (tt, tt))), tt))

write_path-StillTyped_example : StillTyped grid grid_written
write_path-StillTyped_example =
    write_path-StillTyped grid grid_written ((here, int (pos 0)) ∷ []) (here, int (pos 1))
      (int (pos 9)) write_grid grid-IsTyped nine_IsTyped

abbrev raw_pair : Value
raw_pair = list none (cons (int (pos 1)) (cons (int (pos 2)) nil))

raw_pair_matches : matches_declared (type_list type_int) raw_pair ≡ true
unfolding matches_declared
raw_pair_matches = refl

raw_pair-IsTyped : IsTyped raw_pair
unfolding IsTyped
raw_pair-IsTyped = (tt, (tt, tt))

stamp-IsTyped_example : IsTyped (stamp (type_list type_int) raw_pair)
stamp-IsTyped_example =
    stamp-IsTyped (type_list type_int) raw_pair raw_pair_matches raw_pair-IsTyped

abbrev pair_longer : Value
pair_longer =
    list (some type_int) (cons (int (pos 1)) (cons (int (pos 2)) (cons (int (pos 9)) nil)))

append_pair : append_into pair (int (pos 9)) here ≡ ok pair_longer
unfolding append_into
append_pair = refl

append_into-Appended_example : Appended pair pair_longer (int (pos 9)) here
append_into-Appended_example =
    append_into-Appended pair pair_longer (int (pos 9)) here here append_pair

abbrev two_ints : Value
two_ints = list (some type_int) (cons (int (pos 3)) (cons (int (pos 4)) nil))

range_ints : range_list (pos 3) (pos 5) here ≡ ok two_ints
unfolding range_list jennifer.Int64.wrap jennifer.Common.◌-ℤ◌ jennifer.Common.◌+ℤ◌
range_ints = refl

range_of-for_each_of_example :
    range_of (exec_stmt coarse closing 2) coarse here x (pos 0) body (pos 3, pos 5)
    ≡ for_each_of (exec_stmt coarse closing 2) coarse here x (pos 0) body two_ints
range_of-for_each_of_example =
    range_of-for_each_of (exec_stmt coarse closing 2) coarse here x (pos 0) body (pos 3) (pos 5)
      here two_ints (omega arith) (omega arith) (omega arith) range_ints
