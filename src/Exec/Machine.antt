-- ===== src/Exec/Machine.antt =====
-- What statements run on: the environments, the deferred calls of the innermost one and the depth of
-- the call chain; with `blockResult`, the error signals of internal/interpreter/interpreter.go, and
-- the sequencing of steps.
use jennifer.Common.{
  Option, false, none, some, true, ◌-◌, suc, zero, Bool, List, Result, [], ok, err, ℕ, ℤ, ◌∷◌,
}
use jennifer.Ast.{Pos, DeclType}
use jennifer.Value.{Value}
use jennifer.Env.{Binding, EnvError, Frame}
use jennifer.Env.Write.{zero_binding}
use jennifer.Value.Types.{runtime_typing}
use jennifer.IntFast.{Env}
use jennifer.Eval.{RuntimeError, ErrorKind, env_error}

-- `blockResult`: at most one flag is set.
pub data Flow : Type 0 where
  fell : Flow
  returned : Value → Flow
  broke : Pos → Flow
  continued : Pos → Flow

-- runtimeError, ErrorSignal and ExitSignal. `out_of_fuel` is none of the program's.
pub data Fault : Type 0 where
  runtime : RuntimeError → Fault
  thrown : Value → Pos → Fault
  exit : ℤ → Fault
  out_of_fuel : Fault

-- `deferredCall`: the callee with the values of its arguments.
pub record Deferred : Type 0 where
  pub at : Pos
  pub callee : List ℕ
  pub args : List Value
  pub on_error : Bool

pub record State : Type 0 where
  pub env : Env
  pub deferred : List Deferred
  pub depth : ℕ

abbrev pub Outcome : Type 0 → Type 0
Outcome A = Result Fault A × State

-- A step gives a result or a fault, and the state that it leaves in either case.
abbrev pub M : Type 0 → Type 0
M A = State → Outcome A

abbrev pub resume {ℓ} :
    {A : Type 0} {B : Type ℓ} → (Fault → State → B) → (A → State → B) → Outcome A → B
resume f g (ok a, s) = g a s
resume f g (err e, s) = f e s

infixl 5 ◌>>=◌ ◌>>◌
unfoldable pub ◌>>=◌ : {A B : Type 0} → M A → (A → M B) → M B
◌>>=◌ m f s = resume (λ e t. (err e, t)) (λ a t. f a t) (m s)

abbrev pub ◌>>◌ : {A B : Type 0} → M A → M B → M B
m >> k = m >>= λ _. k

unfoldable pub pure : {A : Type 0} → A → M A
pure a s = (ok a, s)

unfoldable pub raise : {A : Type 0} → Fault → M A
raise e s = (err e, s)

abbrev pub lift : {A : Type 0} → Result RuntimeError A → M A
lift (ok a) = pure a
lift (err e) = raise (runtime e)

abbrev pub fault : {A : Type 0} → ErrorKind → Pos → M A
fault k p = raise (runtime (record { kind = k; at = p }))

unfoldable pub get_env : M Env
get_env s = (ok s.env, s)

unfoldable pub get_depth : M ℕ
get_depth s = (ok s.depth, s)

abbrev pub put_env : State → Pos → Result EnvError Env → Outcome (Unit {0})
put_env s p (ok e) = (ok tt, record s { env = e })
put_env s p (err e) = (err (runtime (record { kind = env_error e; at = p })), s)

-- The environment is replaced, or the error is raised at the position.
unfoldable pub update_env : Pos → (Env → Result EnvError Env) → M (Unit {0})
update_env p f s = put_env s p (f s.env)

abbrev pub try_env : State → Option Env → Outcome Bool
try_env s (some e) = (ok true, record s { env = e })
try_env s none = (ok false, s)

-- The environment is replaced where there is another, and whether it was.
unfoldable pub try_update : (Env → Option Env) → M Bool
try_update f s = try_env s (f s.env)

unfoldable pub push_deferred : Deferred → M (Unit {0})
push_deferred d s = (ok tt, record s { deferred = d ∷ s.deferred })

-- The deferred calls of the frame, the newest first, which it then has no more.
unfoldable pub take_deferred : M (List Deferred)
take_deferred s = (ok s.deferred, record s { deferred = [] })

abbrev pub caught : {A : Type 0} → Fault → State → Outcome (Result Fault A)
caught out_of_fuel s = (err out_of_fuel, s)
caught e s = (ok (err e), s)

-- What a step gives, as a value.
unfoldable pub attempt : {A : Type 0} → M A → M (Result Fault A)
attempt m s = resume (λ e t. caught e t) (λ a t. (ok (ok a), t)) (m s)

abbrev pub raise_or_pure : {A : Type 0} → Result Fault A → M A
raise_or_pure (ok a) = pure a
raise_or_pure (err e) = raise e

abbrev pub parents_of : Env → Env
parents_of [] = []
parents_of (cur ∷ parents) = parents

abbrev pub zero_slots : ℕ → List (Binding Value DeclType)
zero_slots zero = []
zero_slots (suc n) = zero_binding runtime_typing ∷ zero_slots n

abbrev pub fresh_frame : ℕ → Frame Value DeclType
fresh_frame n = record { slots = zero_slots n; vars = [] }

abbrev pub leave : {A : Type 0} → (State → State) → Outcome A → Outcome A
leave f (r, s) = (r, f s)

-- `borrowBlockEnv` and `releaseBlockEnv` around a step: a frame of zero bindings, without deferred
-- calls.
unfoldable pub framed : {A : Type 0} → ℕ → M A → M A
framed n m s =
    leave (λ t. record t { env = parents_of t.env; deferred = s.deferred })
      (m (record s { env = fresh_frame n ∷ s.env; deferred = [] }))

-- One deeper in the chain of calls.
unfoldable pub deeper : {A : Type 0} → M A → M A
deeper m s = leave (λ t. record t { depth = t.depth - 1 }) (m (record s { depth = suc s.depth }))

-- `effectiveGlobal`: the outermost frame, and the chain with that frame replaced.
abbrev pub global_of : Env → Env
global_of [] = []
global_of (cur ∷ []) = cur ∷ []
global_of (cur ∷ up ∷ parents) = global_of (up ∷ parents)

abbrev pub with_global : Env → Env → Env
with_global [] g = []
with_global (cur ∷ []) [] = cur ∷ []
with_global (cur ∷ []) (g ∷ gs) = g ∷ []
with_global (cur ∷ up ∷ parents) g = cur ∷ with_global (up ∷ parents) g

-- A step in the frame of a call, whose only parent is the outermost frame.
unfoldable pub in_callee : {A : Type 0} → Frame Value DeclType → M A → M A
in_callee cur m s =
    leave (λ t. record t { env = with_global s.env (parents_of t.env) })
      (m (record s { env = cur ∷ global_of s.env }))
