-- ===== src/Exec/Halts.antt =====
-- Steps of internal/interpreter/interpreter.go that do not run out of fuel and defer no call.
pub mod Simple
pub mod Statements
pub mod Runs
use jennifer.Env.{EnvError}
use jennifer.IntFast.{Env}
use jennifer.Ast.{Pos}
use jennifer.Eval.{env_error, RuntimeError}
use jennifer.Common.{
  pos, Result, [], ap, if◌then◌else◌, ◌-◌, ◌∙◌, List, Option, none, some, ok, err, ℕ, zero, suc,
  ◌≡◌, refl, ◌≢◌, Bool, true, false,
}
use jennifer.Exec.Machine.{
  exit, thrown, caught, put_env, Deferred, parents_of, leave, try_env, resume, lift, runtime,
  take_deferred, attempt, deeper, framed, try_update, update_env, get_env, raise, pure, Fault,
  Outcome, out_of_fuel, ◌>>=◌, M, State, Flow,
}

pub record Halted {A : Type 0} (r : Outcome A) : Type 0 where
  pub ends : r.0 ≢ err out_of_fuel
  pub deferred : r.1.deferred ≡ []

-- Run where no call is deferred, the step does not run out of fuel and defers none.
pub record Halts {A : Type 0} (m : M A) : Type 0 where
  pub halted : (s : State) → s.deferred ≡ [] → Halted (m s)

ok-Halted : {A : Type 0} (a : A) (s : State) → s.deferred ≡ [] → Halted (ok a, s)
ok-Halted a s h = record { ends = λ e. cc; deferred = h }

err-Halted :
    {A : Type 0} (e : Fault) (s : State)
    → e ≢ out_of_fuel
    → s.deferred ≡ []
    → Halted {A = A} (err e, s)
err-Halted e s n h = record { ends = λ k. n cc; deferred = h }

pub pure-Halts : {A : Type 0} (a : A) → Halts (pure a)
unfolding pure
pure-Halts a = record { halted = ok-Halted a }

pub raise-Halts : {A : Type 0} (e : Fault) → e ≢ out_of_fuel → Halts (raise {A = A} e)
unfolding raise
raise-Halts e n = record { halted = λ s. err-Halted e s n }

pub fault-Halts : {A : Type 0} (e : RuntimeError) → Halts (raise {A = A} (runtime e))
fault-Halts e = raise-Halts (runtime e) (λ h. cc)

pub lift-Halts : {A : Type 0} (r : Result RuntimeError A) → Halts (lift r)
lift-Halts (ok a) = pure-Halts a
lift-Halts (err e) = fault-Halts e

resume-Halted :
    {A B : Type 0} (r : Outcome A) (f : A → M B)
    → Halted r
    → ((a : A) → Halts (f a))
    → Halted (resume {B = Outcome B} (λ e t. (err e, t)) (λ a t. f a t) r)
resume-Halted (ok a, t) f h k = (k a).halted t h.deferred
resume-Halted (err e, t) f h k = err-Halted e t (λ q. h.ends (ap err q)) h.deferred

pub then-Halts :
    {A B : Type 0} (m : M A) (f : A → M B) → Halts m → ((a : A) → Halts (f a)) → Halts (m >>= f)
unfolding ◌>>=◌
then-Halts m f h k = record { halted = λ s d. resume-Halted (m s) f (h.halted s d) k }

pub if-Halts : {A : Type 0} (b : Bool) {m k : M A} → Halts m → Halts k → Halts (if b then m else k)
if-Halts true h j = h
if-Halts false h j = j

pub get_env-Halts : Halts get_env
unfolding get_env
get_env-Halts = record { halted = λ s. ok-Halted s.env s }

put_env-Halted :
    (s : State) (p : Pos) (r : Result EnvError Env) → s.deferred ≡ [] → Halted (put_env s p r)
put_env-Halted s p (ok e) h = ok-Halted tt _ h
put_env-Halted s p (err e) h = err-Halted _ s (λ q. cc) h

pub update_env-Halts : (p : Pos) (f : Env → Result EnvError Env) → Halts (update_env p f)
unfolding update_env
update_env-Halts p f = record { halted = λ s. put_env-Halted s p (f s.env) }

try_env-Halted : (s : State) (r : Option Env) → s.deferred ≡ [] → Halted (try_env s r)
try_env-Halted s (some e) h = ok-Halted true _ h
try_env-Halted s none h = ok-Halted false s h

pub try_update-Halts : (f : Env → Option Env) → Halts (try_update f)
unfolding try_update
try_update-Halts f = record { halted = λ s. try_env-Halted s (f s.env) }

caught-Halted :
    {A : Type 0} (r : Outcome A)
    → Halted r
    → Halted (resume {B = Outcome (Result Fault A)} (λ e t. caught e t) (λ a t. (ok (ok a), t)) r)
caught-Halted (ok a, t) h = ok-Halted (ok a) t h.deferred
caught-Halted (err (runtime e), t) h = ok-Halted _ t h.deferred
caught-Halted (err (thrown v p), t) h = ok-Halted _ t h.deferred
caught-Halted (err (exit n), t) h = ok-Halted _ t h.deferred
caught-Halted (err out_of_fuel, t) h = absurd (h.ends refl)

leave-Halted :
    {A : Type 0} (f : State → State) (r : Outcome A)
    → ((t : State) → (f t).deferred ≡ [])
    → Halted r
    → Halted (leave f r)
leave-Halted f (a, t) k h = record { ends = h.ends; deferred = k t }

leave_same-Halted :
    {A : Type 0} (f : State → State) (r : Outcome A)
    → ((t : State) → (f t).deferred ≡ t.deferred)
    → Halted r
    → Halted (leave f r)
leave_same-Halted f (a, t) k h = record { ends = h.ends; deferred = k t ∙ h.deferred }

pub framed-Halts : {A : Type 0} (n : ℕ) (m : M A) → Halts m → Halts (framed n m)
unfolding framed
framed-Halts n m h = record {
  halted = λ s d.
      leave-Halted (λ t. record t { env = parents_of t.env; deferred = s.deferred }) (m _) (λ t. d)
        (h.halted _ refl);
}

pub deeper-Halts : {A : Type 0} (m : M A) → Halts m → Halts (deeper m)
unfolding deeper
deeper-Halts m h = record {
  halted = λ s d.
      leave_same-Halted (λ t. record t { depth = t.depth - 1 }) (m _) (λ t. refl)
        (h.halted (record s { depth = suc s.depth }) d);
}

-- An error that was caught is one that the step raised.
pub attempt_then-Halts :
    {A B : Type 0} (m : M A) (f : Result Fault A → M B)
    → Halts m
    → ((a : A) → Halts (f (ok a)))
    → ((e : Fault) → e ≢ out_of_fuel → Halts (f (err e)))
    → Halts (attempt m >>= f)
unfolding attempt ◌>>=◌
attempt_then-Halts m f h k j = record { halted = λ s d. caught_then (m s) (h.halted s d) }
  where
    caught_then :
        (r : Outcome _)
        → Halted r
        → Halted (
            resume
              (λ e t. (err e, t))
              (λ a t. f a t)
              (resume (λ e t. caught e t) (λ a t. (ok (ok a), t)) r))
    caught_then (ok a, t) h = (k a).halted t h.deferred
    caught_then (err (runtime e), t) h = (j (runtime e) (λ q. cc)).halted t h.deferred
    caught_then (err (thrown v p), t) h = (j (thrown v p) (λ q. cc)).halted t h.deferred
    caught_then (err (exit n), t) h = (j (exit n) (λ q. cc)).halted t h.deferred
    caught_then (err out_of_fuel, t) h = absurd (h.ends refl)

-- There are no deferred calls to take.
pub take_then-Halts :
    {B : Type 0} (f : List Deferred → M B) → Halts (f []) → Halts (take_deferred >>= f)
unfolding take_deferred ◌>>=◌
take_then-Halts f h = record { halted = λ s d. rw d (h.halted (record s { deferred = [] }) refl) }

pub pure_then-Halts : {A B : Type 0} (a : A) (f : A → M B) → Halts (f a) → Halts (pure a >>= f)
unfolding pure ◌>>=◌
pure_then-Halts a f h = record { halted = h.halted }
