-- ===== src/Exec/Places.antt =====
-- What the definitions and the assignments of statements keep of the environment.
use jennifer.Exec.Syntax.{call, plain, Rhs}
use jennifer.Exec.Simple.{definition, fast_rhs, put_variable, put_definition}
use jennifer.Exec.Logic.{KeepsFrames, KeepsParents}
use jennifer.IntFast.Assign.{fast_assign-Placed, fast_value-typed, Placed}
use jennifer.Value.Types.{runtime_typing}
use jennifer.Value.{Value}
use jennifer.Env.Kept.{differ, write_slot-KeptAll, KeptAll-refl, KeptAll}
use jennifer.Ast.{DeclType, Expr}
use jennifer.Exec.Machine.{parents_of}
use jennifer.Env.Write.{Definition}
use jennifer.Env.{exists_in_chain, Binding, slot_binding}
use jennifer.IntFast.{fast_assign, Env}
use jennifer.Common.{
  Bool, Bool-cases, [], arith, false, inl, inr, negsuc, pos, pos_part, ℤ, ◌∷◌, List, ◌≡◌, refl, ok,
  some, ℕ,
}
use jennifer.Env.Write

same_parents :
    (env env' : Env)
    → parents_of env' ≡ parents_of env
    → KeptAll runtime_typing (parents_of env) (parents_of env')
same_parents env env' h = rw h (KeptAll-refl runtime_typing (parents_of env))

put_var-parents :
    (env : Env) (name : List ℕ) (b : Binding Value DeclType)
    → parents_of (Write.put_var runtime_typing env name b) ≡ parents_of env
put_var-parents [] name b = refl
put_var-parents (cur ∷ parents) name b = refl

define_at-parents :
    (env env' : Env) (slot : ℤ) (name : List ℕ) (d : Definition runtime_typing)
    → Write.define_at runtime_typing env slot name d ≡ ok env'
    → parents_of env' ≡ parents_of env
unfolding Write.define_at
define_at-parents env env' (negsuc s) name d h = elim (Bool-cases (exists_in_chain env name)) [
  | inl e ↦ ground arith
  | inr e ↦
      let q : env'
          ≡ Write.put_var runtime_typing env name (Write.bind runtime_typing d (negsuc s) name) =
        ground arith in
      rw q (put_var-parents env name (Write.bind runtime_typing d (negsuc s) name))
]
define_at-parents [] env' (pos s) name d h = ground arith
define_at-parents (cur ∷ parents) env' (pos s) name d h = ground arith

define-parents :
    (env env' : Env) (name : List ℕ) (d : Definition runtime_typing)
    → Write.define runtime_typing env name d ≡ ok env'
    → parents_of env' ≡ parents_of env
unfolding Write.define
define-parents env env' name d h = elim (Bool-cases (exists_in_chain env name)) [
  | inl e ↦ ground arith
  | inr e ↦
      let q : env'
          ≡ Write.put_var runtime_typing env name (Write.bind runtime_typing d (negsuc 0) []) =
        ground arith in
      rw q (put_var-parents env name (Write.bind runtime_typing d (negsuc 0) []))
]

pub put_definition-parents :
    (name : List ℕ) (slot : ℤ) (v : Value) (t : DeclType) (c : Bool)
    → KeepsParents (λ env env'. put_definition name slot v t c env ≡ ok env')
put_definition-parents name (pos s) v t c env env' h =
    same_parents env env' (define_at-parents env env' (pos s) name (definition v t c) h)
put_definition-parents name (negsuc s) v t c env env' h =
    same_parents env env' (define-parents env env' name (definition v t c) h)

pub put_variable-parents :
    (name : List ℕ) (slot : ℤ) (v : Value) (t : DeclType)
    → KeepsParents (λ env env'. put_variable name slot v t env ≡ ok env')
put_variable-parents name slot v t env env' h =
    same_parents env env' (define_at-parents env env' slot name (definition v t false) h)

Placed-KeptAll :
    (env env' : Env) (depth : ℤ) (s : ℕ) (e : Expr)
    → Placed env depth s e env'
    → KeptAll runtime_typing env env'
unfolding slot_binding
Placed-KeptAll env env' depth s e r =
    let t = fast_value-typed env r.binding.decl_type r.binding.value r.value e r.fast in
    rw r.written (
      write_slot-KeptAll runtime_typing env (pos_part depth) s r.binding
        (record r.binding { value = r.value }) r.found
        (record {
          name = refl;
          decl_type = refl;
          is_const = refl;
          constant = λ k. differ k r.variable;
          typed = λ k. t;
        }))

pub fast_rhs-KeptAll :
    (depth slot : ℤ) (r : Rhs) → KeepsFrames (λ env env'. fast_rhs depth slot r env ≡ some env')
unfolding fast_assign
fast_rhs-KeptAll depth (pos s) (plain e) env env' h =
    Placed-KeptAll env env' depth s e (fast_assign-Placed env env' depth s e h)
fast_rhs-KeptAll depth (negsuc s) (plain e) env env' h = cc
fast_rhs-KeptAll depth slot (call p callee args) env env' h = cc
