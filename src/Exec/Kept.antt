-- ===== src/Exec/Kept.antt =====
-- What a statement of internal/interpreter/interpreter.go leaves of the environment, of the deferred
-- calls and of the depth of calls, however it ends.
use jennifer.Value.{Value}
use jennifer.Env.{Frame, EnvError}
use jennifer.Ast.{DeclType, Pos}
use jennifer.Value.Types.{runtime_typing}
use jennifer.IntFast.{Env}
use jennifer.Env.Chain.{KeptAll-trans}
use jennifer.Env.Kept.{KeptFrame-refl, KeptAll-refl, KeptAll}
use jennifer.Common.{
  Result, ◌-◌, [], ◌∷◌, Option, none, some, ok, err, ℕ, suc, ◌≡◌, refl, ◌∙◌, arith,
}
use jennifer.Exec.Machine.{
  take_deferred, push_deferred, try_update, update_env, get_depth, get_env, put_env, raise,
  fresh_frame, pure, in_callee, deeper, framed, try_env, leave, Fault, exit, thrown, runtime,
  with_global, caught, global_of, parents_of, resume, attempt, Outcome, out_of_fuel, ◌>>=◌, M,
  State,
}
use jennifer.Exec.Logic.{Logic, Reach, inner, outer}

-- The frames around the innermost one are kept.
pub record Moved (s t : State) : Type 0 where
  pub parents : KeptAll runtime_typing (parents_of s.env) (parents_of t.env)
  pub depth : t.depth ≡ s.depth

-- Every frame is kept, with the deferred calls.
pub record Held (s t : State) : Type 0 where
  pub env : KeptAll runtime_typing s.env t.env
  pub deferred : t.deferred ≡ s.deferred
  pub depth : t.depth ≡ s.depth

abbrev Left : Reach → State → State → Type 0
Left inner s t = Moved s t
Left outer s t = Held s t

pub record Leaves {A : Type 0} (o : Reach) (m : M A) : Type 0 where
  pub left : (s : State) → Left o s (m s).1

Moved-refl : (s : State) → Moved s s
Moved-refl s = record { parents = KeptAll-refl runtime_typing (parents_of s.env); depth = refl }

Held-refl : (s : State) → Held s s
Held-refl s = record { env = KeptAll-refl runtime_typing s.env; deferred = refl; depth = refl }

Left-refl : (o : Reach) (s : State) → Left o s s
Left-refl inner s = Moved-refl s
Left-refl outer s = Held-refl s

Left-trans : (o : Reach) (s t u : State) → Left o s t → Left o t u → Left o s u
Left-trans inner s t u h k = record {
  parents = KeptAll-trans runtime_typing _ _ _ h.parents k.parents;
  depth = k.depth ∙ h.depth;
}
Left-trans outer s t u h k = record {
  env = KeptAll-trans runtime_typing _ _ _ h.env k.env;
  deferred = k.deferred ∙ h.deferred;
  depth = k.depth ∙ h.depth;
}

parents-KeptAll :
    (e f : Env) → KeptAll runtime_typing e f → KeptAll runtime_typing (parents_of e) (parents_of f)
parents-KeptAll [] [] h = tt
parents-KeptAll [] (y ∷ ys) h = absurd h
parents-KeptAll (x ∷ xs) [] h = absurd h
parents-KeptAll (x ∷ xs) (y ∷ ys) (h, hs) = hs

Held-Moved : (s t : State) → Held s t → Moved s t
Held-Moved s t h = record { parents = parents-KeptAll s.env t.env h.env; depth = h.depth }

Held-Left : (o : Reach) (s t : State) → Held s t → Left o s t
Held-Left inner s t h = Held-Moved s t h
Held-Left outer s t h = h

with_global-KeptAll :
    (e g : Env)
    → KeptAll runtime_typing (global_of e) g
    → KeptAll runtime_typing e (with_global e g)
with_global-KeptAll [] g h = tt
with_global-KeptAll (x ∷ []) [] h = absurd h
with_global-KeptAll (x ∷ []) (y ∷ ys) (h, hs) = (h, tt)
with_global-KeptAll (x ∷ z ∷ zs) g h =
    (KeptFrame-refl runtime_typing x, with_global-KeptAll (z ∷ zs) g h)

same_state : {A : Type 0} (o : Reach) (m : M A) → ((s : State) → (m s).1 ≡ s) → Leaves o m
same_state o m h = record { left = λ s. rw (h s) (Left-refl o s) }

resume-Left :
    {A B : Type 0} (o : Reach) (s : State) (r : Outcome A) (f : A → M B)
    → Left o s (r.1)
    → ((a : A) → Leaves o (f a))
    → Left o s (resume (λ e t. (err e, t)) (λ a t. f a t) r).1
resume-Left o s (ok a, t) f h k = Left-trans o s t _ h ((k a).left t)
resume-Left o s (err e, t) f h k = h

resume-caught-Left :
    {A : Type 0} (o : Reach) (s : State) (r : Outcome A)
    → Left o s r.1
    → Left o s
        (resume {B = Outcome (Result Fault A)} (λ e t. caught e t) (λ a t. (ok (ok a), t)) r).1
resume-caught-Left o s (ok a, t) h = h
resume-caught-Left o s (err (runtime e), t) h = h
resume-caught-Left o s (err (thrown v p), t) h = h
resume-caught-Left o s (err (exit n), t) h = h
resume-caught-Left o s (err out_of_fuel, t) h = h

pub leave-state : {A : Type 0} (f : State → State) (r : Outcome A) → (leave f r).1 ≡ f r.1
leave-state f (r, s) = refl

put_env-Left :
    (s : State) (p : Pos) (r : Result EnvError Env)
    → ((env : Env) → r ≡ ok env → KeptAll runtime_typing (parents_of s.env) (parents_of env))
    → Moved s (put_env s p r).1
put_env-Left s p (ok e) h = record { parents = h e refl; depth = refl }
put_env-Left s p (err e) h = Moved-refl s

put_env-Held :
    (s : State) (p : Pos) (r : Result EnvError Env)
    → ((env : Env) → r ≡ ok env → KeptAll runtime_typing s.env env)
    → Held s (put_env s p r).1
put_env-Held s p (ok e) h = record { env = h e refl; deferred = refl; depth = refl }
put_env-Held s p (err e) h = Held-refl s

try_env-Held :
    (s : State) (r : Option Env)
    → ((env : Env) → r ≡ some env → KeptAll runtime_typing s.env env)
    → Held s (try_env s r).1
try_env-Held s (some e) h = record { env = h e refl; deferred = refl; depth = refl }
try_env-Held s none h = Held-refl s

framed-Held :
    {A : Type 0} (n : ℕ) (m : M A) → Leaves inner m → (s : State) → Held s (framed n m s).1
unfolding framed
framed-Held n m h s =
    let s' = record s { env = fresh_frame n ∷ s.env; deferred = [] } in
    let k = h.left s' in
    rw (leave-state (λ t. record t { env = parents_of t.env; deferred = s.deferred }) (m s'))
      (record { env = k.parents; deferred = refl; depth = k.depth })

deeper-Left :
    {A : Type 0} (o : Reach) (m : M A) → Leaves o m → (s : State) → Left o s (deeper m s).1
unfolding deeper
deeper-Left inner m h s =
    let s' = record s { depth = suc s.depth } in
    let k = h.left s' in
    rw (leave-state (λ t. record t { depth = t.depth - 1 }) (m s'))
      (record { parents = k.parents; depth = omega (arith, k.depth) })
deeper-Left outer m h s =
    let s' = record s { depth = suc s.depth } in
    let k = h.left s' in
    rw (leave-state (λ t. record t { depth = t.depth - 1 }) (m s'))
      (record { env = k.env; deferred = k.deferred; depth = omega (arith, k.depth) })

in_callee-Held :
    {A : Type 0} (cur : Frame Value DeclType) (m : M A)
    → Leaves outer m
    → (s : State) → Held s (in_callee cur m s).1
unfolding in_callee
in_callee-Held cur m h s =
    let s' = record s { env = cur ∷ global_of s.env } in
    let k = h.left s' in
    let g = parents-KeptAll (cur ∷ global_of s.env) (m s').1.env k.env in
    rw (leave-state (λ t. record t { env = with_global s.env (parents_of t.env) }) (m s'))
      (record { env = with_global-KeptAll s.env _ g; deferred = k.deferred; depth = k.depth })

-- The relation of a run to what it leaves; the other run has no part in it.
pub leaving : Logic
unfolding ◌>>=◌ pure raise get_env get_depth attempt update_env try_update push_deferred
    take_deferred
leaving = record {
  Rel = λ {A} o m m'. Leaves o m;
  widen = λ m m' h. record { left = λ s. Held-Moved s _ (h.left s) };
  on_pure = λ o a. record { left = λ s. Left-refl o s };
  on_raise = λ o e. record { left = λ s. Left-refl o s };
  on_stop = λ o m. record { left = λ s. Left-refl o s };
  on_get_env = λ o. record { left = λ s. Left-refl o s };
  on_get_depth = λ o. record { left = λ s. Left-refl o s };
  on_bind = λ o m m' f f' h k. record { left = λ s. resume-Left o s (m s) f (h.left s) k };
  on_attempt = λ o m m' h. record { left = λ s. resume-caught-Left o s (m s) (h.left s) };
  on_define = λ p f h. record { left = λ s. put_env-Left s p (f s.env) (h s.env) };
  on_update =
      λ o p f h. record { left = λ s. Held-Left o s _ (put_env-Held s p (f s.env) (h s.env)) };
  on_try_update =
      λ o f h. record { left = λ s. Held-Left o s _ (try_env-Held s (f s.env) (h s.env)) };
  on_push = λ d. record {
    left = λ s. record { parents = KeptAll-refl runtime_typing (parents_of s.env); depth = refl };
  };
  on_take = record {
    left = λ s. record { parents = KeptAll-refl runtime_typing (parents_of s.env); depth = refl };
  };
  on_framed = λ o n m m' h. record { left = λ s. Held-Left o s _ (framed-Held n m h s) };
  on_deeper = λ o m m' h. record { left = deeper-Left o m h };
  on_callee = λ o cur m m' h. record { left = λ s. Held-Left o s _ (in_callee-Held cur m h s) };
}

pub Rel-Leaves : {A : Type 0} (o : Reach) (m m' : M A) → leaving.Rel o m m' → Leaves o m
unfolding leaving
Rel-Leaves o m m' h = h
