-- ===== src/Exec/Finish/Order.antt =====
-- The order of the deferred calls of internal/interpreter/interpreter.go.
use jennifer.Exec.Finish.{finish_frame-resume, after_own}
use jennifer.Exec.Control.{
  if_fell, as_args, exec_stmts, note_failure, has_failed, invoke_deferred, errdefer_fires,
  finish_frame, run_deferred,
}
use jennifer.Ast.{Pos}
use jennifer.Value.{Value}
use jennifer.Eval.{RuntimeError}
use jennifer.Common.{
  ℤ, ◌++◌, append_assoc, append-nil, sym, ◌∙◌, Result, [], ap, if◌then◌else◌, ◌∷◌, List, Option,
  none, ok, err, ◌≡◌, refl, Bool, true, false, ◌&&◌, not, ◌≢◌,
}
use jennifer.Exec.Machine.{
  exit, runtime, thrown, push_deferred, ◌>>◌, continued, broke, Deferred, caught, attempt, raise,
  resume, pure, Outcome, Fault, out_of_fuel, ◌>>=◌, M, State, Flow, fell, returned,
}
use jennifer.Exec.Syntax.{call, run_expr, seq, Stmt, Stmts, no_more}

own_result : (r : Result Fault Flow) (u : State) → after_own r (ok none, u) ≡ (r, u)
unfolding pure raise
own_result (ok f) u = refl
own_result (err e) u = refl

-- Deferred calls as statements in the order given, those of an `errdefer` only where the frame failed.
abbrev pub deferred_stmts : Bool → List Deferred → Stmts
deferred_stmts failed [] = no_more
deferred_stmts failed (d ∷ ds) =
    if d.on_error && not failed
    then deferred_stmts failed ds
    else seq (run_expr (call d.at d.callee (as_args d.at d.args))) (deferred_stmts failed ds)

-- The calls are deferred one after the other, the first of the list first.
abbrev pub defer_all : List Deferred → M (Unit {0})
defer_all [] = pure tt
defer_all (d ∷ ds) = push_deferred d >> defer_all ds

abbrev pub newest_first : List Deferred → List Deferred
newest_first [] = []
newest_first (d ∷ ds) = newest_first ds ++ d ∷ []

-- A frame fails by a runtime error or a thrown value, not by a flow or an `exit`.
pub data Fails : Result Fault Flow → Bool → Type 0 where
  in_flow : (f : Flow) → Fails (ok f) false
  by_exit : (n : ℤ) → Fails (err (exit n)) false
  by_error : (e : RuntimeError) → Fails (err (runtime e)) true
  by_throw : (v : Value) (p : Pos) → Fails (err (thrown v p)) true

errdefer_fires-Fails :
    (r : Result Fault Flow) (failed : Bool) → Fails r failed → errdefer_fires r ≡ failed
errdefer_fires-Fails _ _ (in_flow f) = refl
errdefer_fires-Fails _ _ (by_exit n) = refl
errdefer_fires-Fails _ _ (by_error e) = refl
errdefer_fires-Fails _ _ (by_throw v p) = refl

not_out_of_fuel : (r : Result Fault Flow) (failed : Bool) → Fails r failed → r ≢ err out_of_fuel
not_out_of_fuel _ _ (in_flow f) h = cc
not_out_of_fuel _ _ (by_exit n) h = cc
not_out_of_fuel _ _ (by_error e) h = cc
not_out_of_fuel _ _ (by_throw v p) h = cc

deferred-defer_all :
    (ds : List Deferred) (s t : State)
    → defer_all ds s ≡ (ok tt, t)
    → t ≡ record s { deferred = newest_first ds ++ s.deferred }
unfolding push_deferred pure ◌>>=◌
deferred-defer_all [] s t h = cc
deferred-defer_all (d ∷ ds) s t h =
    deferred-defer_all ds (record s { deferred = d ∷ s.deferred }) t h
    ∙ ap (λ z. record s { deferred = z }) (sym (append_assoc (newest_first ds) (d ∷ []) s.deferred))

module _ (run : Stmt → M Flow) where
  -- The calls of `ds` do what their statements do.
  abbrev AsStmts : Bool → List Deferred → Type 0
  AsStmts failed ds =
      (s t : State)
      → exec_stmts run (deferred_stmts failed ds) s ≡ (ok fell, t)
      → run_deferred run ds failed none s ≡ (ok none, t)

  ran-AsStmts :
      (failed : Bool) (ds : List Deferred) (t : State) (x : Outcome Flow)
      → AsStmts failed ds
      → resume {B = Outcome Flow}
          (λ e u. (err e, u))
          (λ f u. if_fell (exec_stmts run (deferred_stmts failed ds)) f u)
          x
        ≡ (ok fell, t)
      → resume {B = Outcome (Option Fault)}
          (λ e u. (err e, u))
          (λ r u. run_deferred run ds (has_failed run failed r) (note_failure run none r) u)
          (resume {B = Outcome (Result Fault Flow)} (λ e u. caught e u) (λ a u. (ok (ok a), u)) x)
        ≡ (ok none, t)
  unfolding pure
  ran-AsStmts failed ds t (ok fell, u) k h = k u t h
  ran-AsStmts failed ds t (ok (returned v), u) k h = cc
  ran-AsStmts failed ds t (ok (broke p), u) k h = cc
  ran-AsStmts failed ds t (ok (continued p), u) k h = cc
  ran-AsStmts failed ds t (err e, u) k h = cc

  one-AsStmts :
      (b failed : Bool) (d : Deferred) (ds : List Deferred) (s t : State)
      → AsStmts failed ds
      → exec_stmts run
          (if b
            then deferred_stmts failed ds
            else seq
                (run_expr (call d.at d.callee (as_args d.at d.args)))
                (deferred_stmts failed ds))
          s
        ≡ (ok fell, t)
      → (if b
            then run_deferred run ds failed none
            else (attempt (invoke_deferred run d) >>= λ r.
                run_deferred run ds (has_failed run failed r) (note_failure run none r)))
          s
        ≡ (ok none, t)
  unfolding exec_stmts invoke_deferred ◌>>=◌ attempt
  one-AsStmts true failed d ds s t k h = k s t h
  one-AsStmts false failed d ds s t k h = ran-AsStmts failed ds t _ k h

  run_deferred-exec_stmts : (ds : List Deferred) (failed : Bool) → AsStmts failed ds
  unfolding exec_stmts run_deferred pure
  run_deferred-exec_stmts [] failed s t h = cc
  run_deferred-exec_stmts (d ∷ ds) failed s t h =
      one-AsStmts (d.on_error && not failed) failed d ds s t (run_deferred-exec_stmts ds failed) h

  -- The statements of a frame defer calls one after the other and end in a flow, an `exit`, a
  -- runtime error or a thrown value. Where the deferred calls, as statements with the one deferred
  -- last first, and those of an `errdefer` among them exactly for a runtime error or a thrown
  -- value, fall off their end from the state with no deferred calls, the frame ends as its
  -- statements did, with the state that the calls leave.
  pub finish_frame-exec_stmts :
      (m : M Flow) (s t u : State) (r : Result Fault Flow) (failed : Bool) (ds : List Deferred)
      → m s ≡ (r, t)
      → defer_all ds (record t { deferred = [] }) ≡ (ok tt, t)
      → Fails r failed
      → exec_stmts run (deferred_stmts failed (newest_first ds)) (record t { deferred = [] })
        ≡ (ok fell, u)
      → finish_frame run m s ≡ (r, u)
  finish_frame-exec_stmts m s t u r failed ds h q f k =
      let order : t.deferred ≡ newest_first ds =
        ap (λ z. z.deferred) (deferred-defer_all ds (record t { deferred = [] }) t q)
        ∙ append-nil (newest_first ds) in
      let w : run_deferred run t.deferred (errdefer_fires r) none (record t { deferred = [] })
          ≡ (ok none, u) =
        rw (order, errdefer_fires-Fails r failed f)
          (run_deferred-exec_stmts (newest_first ds) failed (record t { deferred = [] }) u k) in
      finish_frame-resume run m s t r h (not_out_of_fuel r failed f)
      ∙ ap (after_own r) w
      ∙ own_result r u
