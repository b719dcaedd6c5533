-- ===== src/Exec/Control.antt =====
-- Blocks, branches and loops of internal/interpreter/interpreter.go, on a step `run` for the
-- statements in them. A loop has fuel for its passes.
use jennifer.Exec.Ranges.{range_bounds}
use jennifer.Eval.{
  elseif_condition, needs_collection, until_condition, while_condition, if_condition, for_condition,
}
use jennifer.Exec.Simple.{put_variable, eval, eval_bool}
use jennifer.Float64.{FloatOps}
use jennifer.Exec.Syntax.{
  no_else, no_arm, else_if, no_stmt, arm, else_block, no_more, a_stmt, else_arm, Else, call,
  OptStmt, Arms, block, run_expr, seq, Block, Stmts, Stmt, pre_eval, Arg,
}
use jennifer.Value.{int, nil, cons, kind_of, Values, equal, list, Value}
use jennifer.Ast.{type_int, type_invalid, DeclType, Expr, Pos}
use jennifer.Common.{
  ◌+ℤ◌, ◌-ℤ◌, pos_part, pos, Bool, Result, [], false, if◌then◌else◌, not, true, ℤ, ◌&&◌, ◌∷◌, List,
  Option, none, some, ok, err, ℕ, zero, suc,
}
use jennifer.Exec.Machine.{
  lift, fault, update_env, out_of_fuel, deeper, ◌>>◌, framed, take_deferred, attempt, Deferred,
  fell, broke, raise, pure, returned, raise_or_pure, exit, Flow, M, Fault, ◌>>=◌,
}
use jennifer.Env.Write

abbrev pub errdefer_fires : Result Fault Flow → Bool
errdefer_fires (ok f) = false
errdefer_fires (err (exit n)) = false
errdefer_fires (err e) = true

-- The outcome of a frame, and of the last of its deferred calls that failed.
abbrev pub frame_result : Result Fault Flow → Option Fault → M Flow
frame_result r none = raise_or_pure r
frame_result (err (exit n)) (some d) = raise (exit n)
frame_result r (some d) = raise d

-- What ends a loop, and what goes on with the rest.
abbrev pub after_pass : M Flow → Flow → M Flow
after_pass rest (returned v) = pure (returned v)
after_pass rest (broke p) = pure fell
after_pass rest _ = rest

abbrev pub if_fell : M Flow → Flow → M Flow
if_fell rest fell = rest
if_fell rest f = pure f

abbrev pub as_args : Pos → List Value → List Arg
as_args p [] = []
as_args p (v ∷ vs) = pre_eval p v ∷ as_args p vs

module _ (run : Stmt → M Flow) where
  unfoldable pub exec_stmts : Stmts → M Flow
  exec_stmts no_more = pure fell
  exec_stmts (seq st rest) = run st >>= if_fell (exec_stmts rest)

  -- A call with the values that its arguments had.
  unfoldable pub invoke_deferred : Deferred → M Flow
  invoke_deferred d = run (run_expr (call d.at d.callee (as_args d.at d.args)))

  abbrev pub note_failure : Option Fault → Result Fault Flow → Option Fault
  note_failure last (ok f) = last
  note_failure last (err e) = some e

  abbrev pub has_failed : Bool → Result Fault Flow → Bool
  has_failed failed (ok f) = failed
  has_failed failed (err e) = true

  -- The newest first; a failure does not stop the rest, and the last one is given.
  unfoldable pub run_deferred : List Deferred → Bool → Option Fault → M (Option Fault)
  unfolding invoke_deferred
  run_deferred [] failed last = pure last
  run_deferred (d ∷ ds) failed last =
      if d.on_error && not failed
      then run_deferred ds failed last
      else (attempt (invoke_deferred d) >>= λ r.
          run_deferred ds (has_failed failed r) (note_failure last r))

  -- A frame ends: its deferred calls run whatever its outcome.
  unfoldable pub finish_frame : M Flow → M Flow
  unfolding run_deferred
  finish_frame m = do
    r ← attempt m
    ds ← take_deferred
    last ← run_deferred ds (errdefer_fires r) none
    frame_result r last

  -- Statements in a frame of their own, after a step that may bind in it.
  unfoldable pub in_frame : ℕ → M (Unit {0}) → Stmts → M Flow
  unfolding exec_stmts finish_frame
  in_frame n bind ss = framed n (bind >> finish_frame (exec_stmts ss))

  unfoldable pub exec_block : Block → M Flow
  unfolding in_frame
  exec_block (block n ss) = deeper (in_frame n (pure tt) ss)

  module _ (F : FloatOps) where
    unfoldable pub exec_else : Else → M Flow
    unfolding exec_block eval_bool
    exec_else no_else = pure fell
    exec_else (else_block b) = exec_block b
    exec_else (else_if c b rest) =
        let other = exec_else rest in
        eval_bool F elseif_condition c >>= λ t. if t then exec_block b else other

    unfoldable pub exec_if : Expr → Block → Else → M Flow
    unfolding exec_else exec_block eval_bool
    exec_if c b rest = do t ← eval_bool F if_condition c; if t then exec_block b else exec_else rest

    -- The values of an arm from the left, until one equals the subject.
    unfoldable pub matches_arm : Value → List Expr → M Bool
    unfolding eval equal
    matches_arm subject [] = pure false
    matches_arm subject (e ∷ es) =
        let rest = matches_arm subject es in
        eval F e >>= λ v. if equal F subject v then pure true else rest

    unfoldable pub exec_arms : Value → Arms → M Flow
    unfolding matches_arm exec_block
    exec_arms subject no_arm = pure fell
    exec_arms subject (else_arm b) = exec_block b
    exec_arms subject (arm es b rest) =
        let other = exec_arms subject rest in
        matches_arm subject es >>= λ t. if t then exec_block b else other

    unfoldable pub exec_while : ℕ → Expr → Block → M Flow
    unfolding exec_block eval_bool
    exec_while zero c b = raise out_of_fuel
    exec_while (suc k) c b =
        let again = exec_while k c b in
        eval_bool F while_condition c >>= λ t.
        if t then (exec_block b >>= after_pass again) else pure fell

    abbrev pub for_test : Option Expr → M Bool
    for_test none = pure true
    for_test (some c) = eval_bool F for_condition c

    abbrev pub run_opt : OptStmt → M Flow
    run_opt no_stmt = pure fell
    run_opt (a_stmt st) = run st

    -- The step runs after a `continue` too.
    unfoldable pub for_passes : ℕ → Option Expr → OptStmt → Block → M Flow
    unfolding exec_block eval_bool
    for_passes zero c step b = raise out_of_fuel
    for_passes (suc k) c step b =
        let again = for_passes k c step b in
        for_test c >>= λ t.
        if t then (exec_block b >>= after_pass (run_opt step >> again)) else pure fell

    -- The header has a frame, whose deferred calls are dropped.
    unfoldable pub exec_for : ℕ → ℕ → OptStmt → Option Expr → OptStmt → Block → M Flow
    unfolding for_passes
    exec_for k n init c step b = framed n (run_opt init >> for_passes k c step b)

    unfoldable pub exec_repeat : ℕ → Block → Expr → M Flow
    unfolding exec_block eval_bool
    exec_repeat zero b c = raise out_of_fuel
    exec_repeat (suc k) b c =
        let again = exec_repeat k b c in
        exec_block b
        >>= after_pass (eval_bool F until_condition c >>= λ done. if done then pure fell else again)

    -- A pass binds the element in the frame of the body.
    unfoldable pub for_each_pass : Pos → List ℕ → ℤ → DeclType → Block → Value → M Flow
    unfolding in_frame Write.define_at
    for_each_pass p name slot t (block n ss) v =
        in_frame n (update_env p (put_variable name slot v t)) ss

    unfoldable pub for_each_passes : Pos → List ℕ → ℤ → DeclType → Block → Values → M Flow
    unfolding for_each_pass
    for_each_passes p name slot t b nil = pure fell
    for_each_passes p name slot t b (cons v vs) =
        for_each_pass p name slot t b v >>= after_pass (for_each_passes p name slot t b vs)

    abbrev pub for_each_of : Pos → List ℕ → ℤ → Block → Value → M Flow
    for_each_of p name slot b (list (some t) vs) = for_each_passes p name slot t b vs
    for_each_of p name slot b (list none vs) = for_each_passes p name slot type_invalid b vs
    for_each_of p name slot b v = fault (needs_collection (kind_of v)) p

    unfoldable pub exec_for_each : Pos → List ℕ → ℤ → Expr → Block → M Flow
    unfolding eval for_each_passes kind_of
    exec_for_each p name slot e b = do v ← eval F e; for_each_of p name slot b v

    -- `n` has `k` passes to go; it cannot overflow, below the upper bound.
    unfoldable pub range_passes : Pos → List ℕ → ℤ → Block → ℕ → ℤ → M Flow
    unfolding for_each_pass
    range_passes p name slot b zero n = pure fell
    range_passes p name slot b (suc k) n =
        for_each_pass p name slot type_int b (int n)
        >>= after_pass (range_passes p name slot b k (n +ℤ pos 1))

    abbrev pub range_of : Pos → List ℕ → ℤ → Block → ℤ × ℤ → M Flow
    range_of p name slot b (lo, hi) = range_passes p name slot b (pos_part (hi -ℤ lo)) lo

    unfoldable pub exec_for_range : Pos → List ℕ → ℤ → Pos → Expr → Expr → Block → M Flow
    unfolding eval range_bounds range_passes
    exec_for_range p name slot q lo hi b = do
      v ← eval F lo
      w ← eval F hi
      bounds ← lift (range_bounds v w q)
      range_of p name slot b bounds
