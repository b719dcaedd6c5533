-- ===== src/IntFast/Assign.antt =====
-- `fastAssign` of internal/interpreter/intfast.go against the assignment of the environment.
use jennifer.Common.{
  Bool, Option, if◌then◌else◌, Bool-cases, inl, inr, refl, List, ℕ, ℤ, pos, negsuc, ok, some, none,
  ◌≡◌, false, true, pos_part,
}
use jennifer.Float64.{FloatOps}
use jennifer.Ast.{type_bool, type_int, Expr, DeclType}
use jennifer.Value.{Value, int, bool}
use jennifer.Value.Types.{runtime_typing, matches_declared}
use jennifer.Env.{Binding, slot_binding, write_slot}
use jennifer.Env.Write.{assign_at}
use jennifer.Eval.Reference.{evaluate}
use jennifer.Fold.Preserves.{IsStamped}
use jennifer.Env.Slots.{assign_at-allowed}
use jennifer.IntFast.{Env, fast_assign, fast_value, int_operand, fast_condition, bind-eq-some}
use jennifer.IntFast.Sound.{int_operand_sound, fast_condition_sound}

none-some : {A : Type 0} {a : A} → none ≡ some a → ⊥
none-some h = cc

const_none :
    {A : Type 0} {t : Bool} (m : Option A) {a : A} → t ≡ true → (if t then none else m) ≡ some a → ⊥
const_none {t = true} m c h = cc
const_none {t = false} m c h = cc

rest_of :
    {A : Type 0} {t : Bool} {m : Option A} {a : A}
    → t ≡ false
    → (if t then none else m) ≡ some a
    → m ≡ some a
rest_of {t = true} c h = cc
rest_of {t = false} c h = h

-- What an assignment in place read, and what it wrote.
pub record Placed (env : Env) (depth : ℤ) (s : ℕ) (e : Expr) (env' : Env) : Type 0 where
  pub binding : Binding Value DeclType
  pub value : Value
  pub found : slot_binding env depth (pos s) ≡ some binding
  pub variable : binding.is_const ≡ false
  pub fast : fast_value env binding.decl_type binding.value e ≡ some value
  pub written : env' ≡ write_slot env (pos_part depth) s (record binding { value = value })

pub fast_assign-Placed :
    (env env' : Env) (depth : ℤ) (s : ℕ) (e : Expr)
    → fast_assign env depth (pos s) e ≡ some env'
    → Placed env depth s e env'
unfolding fast_assign
fast_assign-Placed env env' depth s e h =
    let (b, hb, q) = bind-eq-some (slot_binding env depth (pos s)) _ {b = env'} h in
    elim (Bool-cases b.is_const) [
      | inl c ↦ absurd (const_none _ c q)
      | inr c ↦
          let (v, hv, w) =
            bind-eq-some (fast_value env b.decl_type b.value e)
              (λ v. some (write_slot env (pos_part depth) s (record b { value = v }))) {b = env'}
              (rest_of c q) in
          record { binding = b; value = v; found = hb; variable = c; fast = hv; written = cc }
    ]

pub fast_value-typed :
    (env : Env) (t : DeclType) (old v : Value) (e : Expr)
    → fast_value env t old e ≡ some v
    → matches_declared t v ≡ true
unfolding matches_declared
fast_value-typed env type_int (int n) v e h =
    let (m, hm, q) = bind-eq-some (int_operand env e) (λ m. some (int m)) {b = v} h in
    let w : v ≡ int m = cc in rw w refl
fast_value-typed env type_bool (bool b) v e h =
    let (m, hm, q) = bind-eq-some (fast_condition env e) (λ m. some (bool m)) {b = v} h in
    let w : v ≡ bool m = cc in rw w refl
fast_value-typed env t old v e h = absurd (none-some h)

module _ (F : FloatOps) where
  fast_value_sound :
      (env : Env) (t : DeclType) (old v : Value) (e : Expr)
      → IsStamped F e
      → fast_value env t old e ≡ some v
      → evaluate F env e ≡ ok v
  fast_value_sound env type_int (int n) v e s h =
      let (m, hm, q) = bind-eq-some (int_operand env e) (λ m. some (int m)) {b = v} h in
      let w : v ≡ int m = cc in rw w (int_operand_sound F env e m s hm)
  fast_value_sound env type_bool (bool b) v e s h =
      let (m, hm, q) = bind-eq-some (fast_condition env e) (λ m. some (bool m)) {b = v} h in
      let w : v ≡ bool m = cc in rw w (fast_condition_sound F env e m s hm)
  fast_value_sound env t old v e s h = absurd (none-some h)

  -- Where the fast path assigns in place, evaluating the right-hand side gives a value, without an
  -- error, and assigning that through the same depth and slot is not refused and leaves the same
  -- environment. The folded results of the expression are taken to be its values.
  pub fast_assign-assign_at :
      (env env' : Env) (depth slot : ℤ) (name : List ℕ) (e : Expr)
      → IsStamped F e
      → fast_assign env depth slot e ≡ some env'
      → (v : Value) × (evaluate F env e ≡ ok v)
        × (assign_at runtime_typing env depth slot name v ≡ ok env')
  unfolding fast_assign
  fast_assign-assign_at env env' depth (negsuc s) name e st h = cc
  fast_assign-assign_at env env' depth (pos s) name e st h =
      let r = fast_assign-Placed env env' depth s e h in
      let t = fast_value-typed env r.binding.decl_type r.binding.value r.value e r.fast in
      (
        r.value,
        fast_value_sound env r.binding.decl_type r.binding.value r.value e st r.fast,
        rw r.written (
            assign_at-allowed runtime_typing env depth s name r.value r.binding r.found r.variable
              t),
      )
