-- ===== src/Exec/Logic.antt =====
-- What a relation between two runs of a step of internal/interpreter/interpreter.go has to satisfy,
-- so that Exec.Related can carry it to statements.
use jennifer.Value.{Value}
use jennifer.Env.{Frame, EnvError}
use jennifer.Ast.{DeclType, Pos}
use jennifer.Value.Types.{runtime_typing}
use jennifer.Env.Kept.{KeptAll}
use jennifer.IntFast.{Env}
use jennifer.Common.{Result, Option, some, ok, ℕ, ◌≡◌}
use jennifer.Exec.Machine.{
  in_callee, deeper, framed, take_deferred, push_deferred, Deferred, try_update, update_env,
  attempt, get_depth, get_env, parents_of, out_of_fuel, raise, pure, ◌>>=◌,
}
use jennifer.Exec.Machine.{M, Fault}

-- A step in a frame may change that frame; one beyond it, only values in it.
pub data Reach : Type 0 where
  inner outer : Reach

abbrev pub KeepsParents : (Env → Env → Type 0) → Type 0
KeepsParents R =
    (env env' : Env) → R env env' → KeptAll runtime_typing (parents_of env) (parents_of env')

abbrev pub KeepsFrames : (Env → Env → Type 0) → Type 0
KeepsFrames R = (env env' : Env) → R env env' → KeptAll runtime_typing env env'

pub record Logic : Type 1 where
  pub Rel : {A : Type 0} → Reach → M A → M A → Type 0
  pub widen : {A : Type 0} (m m' : M A) → Rel outer m m' → Rel inner m m'
  pub on_pure : {A : Type 0} (o : Reach) (a : A) → Rel o (pure a) (pure a)
  pub on_raise : {A : Type 0} (o : Reach) (e : Fault) → Rel o (raise {A = A} e) (raise e)
  pub on_stop : {A : Type 0} (o : Reach) (m : M A) → Rel o (raise out_of_fuel) m
  pub on_get_env : (o : Reach) → Rel o get_env get_env
  pub on_get_depth : (o : Reach) → Rel o get_depth get_depth
  pub on_bind :
      {A B : Type 0} (o : Reach) (m m' : M A) (f f' : A → M B)
      → Rel o m m'
      → ((a : A) → Rel o (f a) (f' a))
      → Rel o (m >>= f) (m' >>= f')
  pub on_attempt :
      {A : Type 0} (o : Reach) (m m' : M A) → Rel o m m' → Rel o (attempt m) (attempt m')
  pub on_define :
      (p : Pos) (f : Env → Result EnvError Env)
      → KeepsParents (λ env env'. f env ≡ ok env')
      → Rel inner (update_env p f) (update_env p f)
  pub on_update :
      (o : Reach) (p : Pos) (f : Env → Result EnvError Env)
      → KeepsFrames (λ env env'. f env ≡ ok env')
      → Rel o (update_env p f) (update_env p f)
  pub on_try_update :
      (o : Reach) (f : Env → Option Env)
      → KeepsFrames (λ env env'. f env ≡ some env')
      → Rel o (try_update f) (try_update f)
  pub on_push : (d : Deferred) → Rel inner (push_deferred d) (push_deferred d)
  pub on_take : Rel inner take_deferred take_deferred
  pub on_framed :
      {A : Type 0} (o : Reach) (n : ℕ) (m m' : M A)
      → Rel inner m m'
      → Rel o (framed n m) (framed n m')
  pub on_deeper : {A : Type 0} (o : Reach) (m m' : M A) → Rel o m m' → Rel o (deeper m) (deeper m')
  pub on_callee :
      {A : Type 0} (o : Reach) (cur : Frame Value DeclType) (m m' : M A)
      → Rel outer m m'
      → Rel o (in_callee cur m) (in_callee cur m')
