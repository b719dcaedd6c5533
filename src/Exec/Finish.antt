-- ===== src/Exec/Finish.antt =====
-- How a frame of internal/interpreter/interpreter.go ends, with its deferred calls.
pub mod Order
use jennifer.Exec.Control.{
  if_fell, as_args, exec_stmts, note_failure, has_failed, invoke_deferred, frame_result,
  errdefer_fires, finish_frame, run_deferred,
}
use jennifer.Common.{
  ◌∙◌, Result, [], ap, if◌then◌else◌, ◌∷◌, List, Option, none, some, ok, err, ◌≡◌, refl, Bool, true,
  false, ◌&&◌, not, ◌⊎◌, ◌≢◌, inl, inr,
}
use jennifer.Exec.Machine.{
  continued, broke, thrown, take_deferred, Deferred, runtime, caught, attempt, raise, resume, exit,
  pure, Outcome, Fault, out_of_fuel, ◌>>=◌, M, State, Flow, fell, returned,
}
use jennifer.Exec.Syntax.{call, run_expr, seq, Stmt, Stmts, no_more}

abbrev IsError : Result Fault Flow → Type 0
IsError (ok f) = ⊥
IsError (err e) = Unit

-- What the outcome of a frame's statements allows as the outcome of the frame.
abbrev pub Survives : Result Fault Flow → Result Fault Flow → Type 0
Survives (ok f) r = (r ≡ ok f) ⊎ IsError r
Survives (err (exit n)) r = (r ≡ err (exit n)) ⊎ (r ≡ err out_of_fuel)
Survives (err out_of_fuel) r = r ≡ err out_of_fuel
Survives (err e) r = IsError r

-- A step that raises no error of its own.
abbrev Quiet : {A : Type 0} → Result Fault A → Type 0
Quiet (ok a) = Unit
Quiet (err e) = e ≡ out_of_fuel

record IsQuiet {A : Type 0} (m : M A) : Type 0 where
  quiet : (s : State) → Quiet (m s).0

resume-Quiet :
    {A B : Type 0} (r : Outcome A) (f : A → M B)
    → Quiet r.0
    → ((a : A) → IsQuiet (f a))
    → Quiet (resume {B = Outcome B} (λ e t. (err e, t)) (λ a t. f a t) r).0
resume-Quiet (ok a, t) f h k = (k a).quiet t
resume-Quiet (err e, t) f h k = h

caught-Quiet :
    {A : Type 0} (r : Outcome A)
    → Quiet (resume {B = Outcome (Result Fault A)} (λ e t. caught e t) (λ a t. (ok (ok a), t)) r).0
caught-Quiet (ok a, t) = tt
caught-Quiet (err (runtime e), t) = tt
caught-Quiet (err (thrown v p), t) = tt
caught-Quiet (err (exit n), t) = tt
caught-Quiet (err out_of_fuel, t) = refl

if-IsQuiet :
    {A : Type 0} (b : Bool) {m k : M A} → IsQuiet m → IsQuiet k → IsQuiet (if b then m else k)
if-IsQuiet true h j = h
if-IsQuiet false h j = j

abbrev pub after_own : Result Fault Flow → Outcome (Option Fault) → Outcome Flow
after_own r x = resume (λ e t. (err e, t)) (λ last t. frame_result r last t) x

own-Survives :
    (r : Result Fault Flow) (x : Outcome (Option Fault))
    → r ≢ err out_of_fuel
    → Quiet x.0
    → Survives r (after_own r x).0
unfolding pure raise
own-Survives (ok f) (ok none, t) n h = inl refl
own-Survives (ok f) (ok (some d), t) n h = inr tt
own-Survives (ok f) (err e, t) n h = inr tt
own-Survives (err (exit k)) (ok none, t) n h = inl refl
own-Survives (err (exit k)) (ok (some d), t) n h = inl refl
own-Survives (err (exit k)) (err e, t) n h = inr (ap err h)
own-Survives (err (runtime e)) (ok none, t) n h = tt
own-Survives (err (runtime e)) (ok (some d), t) n h = tt
own-Survives (err (runtime e)) (err d, t) n h = tt
own-Survives (err (thrown v p)) (ok none, t) n h = tt
own-Survives (err (thrown v p)) (ok (some d), t) n h = tt
own-Survives (err (thrown v p)) (err d, t) n h = tt
own-Survives (err out_of_fuel) x n h = absurd (n refl)

module _ (run : Stmt → M Flow) where
  run_deferred-IsQuiet :
      (ds : List Deferred) (failed : Bool) (last : Option Fault)
      → IsQuiet (run_deferred run ds failed last)
  unfolding run_deferred attempt ◌>>=◌ pure
  run_deferred-IsQuiet [] failed last = record { quiet = λ s. tt }
  run_deferred-IsQuiet (d ∷ ds) failed last =
      if-IsQuiet (d.on_error && not failed) (run_deferred-IsQuiet ds failed last) (record {
        quiet = λ s.
            resume-Quiet _ _ (caught-Quiet (invoke_deferred run d s))
              λ r. run_deferred-IsQuiet ds (has_failed run failed r) (note_failure run last r);
      })

  abbrev after_frame : Result Fault Flow → State → Outcome Flow
  after_frame r t =
      after_own r (run_deferred run t.deferred (errdefer_fires r) none (record t { deferred = [] }))

  pub finish_frame-resume :
      (m : M Flow) (s t : State) (r : Result Fault Flow)
      → m s ≡ (r, t)
      → r ≢ err out_of_fuel
      → finish_frame run m s ≡ after_frame r t
  unfolding finish_frame attempt take_deferred ◌>>=◌
  finish_frame-resume m s t (ok f) h n = rw h refl
  finish_frame-resume m s t (err (runtime e)) h n = rw h refl
  finish_frame-resume m s t (err (thrown v p)) h n = rw h refl
  finish_frame-resume m s t (err (exit k)) h n = rw h refl
  finish_frame-resume m s t (err out_of_fuel) h n = absurd (n refl)

  finish_frame-stop :
      (m : M Flow) (s t : State)
      → m s ≡ (err out_of_fuel, t)
      → (finish_frame run m s).0 ≡ err out_of_fuel
  unfolding finish_frame attempt ◌>>=◌
  finish_frame-stop m s t h = rw h refl

  going-Survives :
      (m : M Flow) (s t : State) (r : Result Fault Flow)
      → m s ≡ (r, t)
      → r ≢ err out_of_fuel
      → Survives r (finish_frame run m s).0
  going-Survives m s t r h n = rw (finish_frame-resume m s t r h n) (
      own-Survives r
        (run_deferred run t.deferred (errdefer_fires r) none (record t { deferred = [] })) n
        ((run_deferred-IsQuiet t.deferred (errdefer_fires r) none).quiet _))

  ended-Survives :
      (m : M Flow) (s t : State) (r : Result Fault Flow)
      → m s ≡ (r, t)
      → Survives r (finish_frame run m s).0
  ended-Survives m s t (ok f) h = going-Survives m s t (ok f) h (λ q. cc)
  ended-Survives m s t (err (runtime e)) h = going-Survives m s t (err (runtime e)) h (λ q. cc)
  ended-Survives m s t (err (thrown v p)) h = going-Survives m s t (err (thrown v p)) h (λ q. cc)
  ended-Survives m s t (err (exit k)) h = going-Survives m s t (err (exit k)) h (λ q. cc)
  ended-Survives m s t (err out_of_fuel) h = finish_frame-stop m s t h

  -- Whatever the deferred calls of a frame do, a frame whose statements ended in a flow ends in that
  -- flow or in an error, one whose statements raised an error ends in an error, and one that was left
  -- by an `exit` ends in that same `exit`, unless a call runs out of fuel.
  pub finish_frame-Survives : (m : M Flow) (s : State) → Survives (m s).0 (finish_frame run m s).0
  finish_frame-Survives m s = ended-Survives m s (m s).1 (m s).0 refl
