-- ===== src/IntFast.antt =====
-- internal/interpreter/intfast.go: operands, conditions and assignments that need no general
-- evaluation. `none` is `ok = false`: the caller takes the general path.
pub mod Sound
pub mod Assign
use jennifer.Common.{
  refl, ◌≡◌, Bool, Option, false, get_elem?, if◌then◌else◌, negsuc, none, not, pos, pos_part, some,
  suc, true, zero, ℕ, ℤ,
}
use jennifer.Ast.{
  BinaryOp, op_add, op_sub, op_mul, op_floor_div, op_mod, op_not, Expr, lit, var, index, unary,
  binary, Lit, int_lit, bool_lit, is_comparison, is_logical, is_or, DeclType, type_int, type_bool,
}
use jennifer.Arith.{int_arith, int_compare}
use jennifer.Value.{Value, Values, nil, cons, int, bool, bytes, list}
use jennifer.Env.{write_slot, Environment, slot_binding}

abbrev pub Env : Type 0
Env = Environment Value DeclType

infixl 5 ◌>>=◌
abbrev pub ◌>>=◌ : {A B : Type 0} → Option A → (A → Option B) → Option B
none >>= f = none
some a >>= f = f a

-- Inversion of a bind and of a test that gave a result.
pub bind-eq-some :
    {A B : Type 0} (m : Option A) (f : A → Option B) {b : B}
    → (m >>= f) ≡ some b
    → (a : A) × (m ≡ some a) × (f a ≡ some b)
bind-eq-some none f h = cc
bind-eq-some (some a) f h = (a, refl, h)

pub if-eq-some :
    {A : Type 0} (t : Bool) (m : Option A) {a : A}
    → (if t then m else none) ≡ some a
    → (t ≡ true) × (m ≡ some a)
if-eq-some true m h = (refl, h)
if-eq-some false m h = cc

unfoldable pub var_value : Env → ℤ → ℤ → Option Value
unfolding slot_binding
var_value env depth (negsuc s) = none
var_value env depth (pos s) = do b ← slot_binding env depth (pos s); some b.value

abbrev pub values_at : Values → ℕ → Option Value
values_at nil i = none
values_at (cons v vs) zero = some v
values_at (cons v vs) (suc i) = values_at vs i

abbrev as_int : Value → Option ℤ
as_int (int n) = some n
as_int _ = none

abbrev as_bool : Value → Option Bool
as_bool (bool b) = some b
as_bool _ = none

-- The element of a list or of bytes, if it is an int.
abbrev pub int_element : Value → ℤ → Option ℤ
int_element (bytes s) (pos i) = do c ← get_elem? s i; some (pos c)
int_element (list t vs) (pos i) = do v ← values_at vs i; as_int v
int_element _ _ = none

abbrev int_literal : Lit → Option ℤ
int_literal (int_lit n) = some n
int_literal _ = none

abbrev bool_literal : Lit → Option Bool
bool_literal (bool_lit b) = some b
bool_literal _ = none

-- The operators that `intOperand` computes.
abbrev pub is_int_op : BinaryOp → Bool
is_int_op op_add = true
is_int_op op_sub = true
is_int_op op_mul = true
is_int_op op_floor_div = true
is_int_op op_mod = true
is_int_op _ = false

unfoldable pub int_operand : Env → Expr → Option ℤ
unfolding var_value
int_operand env (lit p l) = int_literal l
int_operand env (var p name depth slot) = do v ← var_value env depth slot; as_int v
int_operand env (index p (var q name depth slot) i) = do
  parent ← var_value env depth slot
  idx ← int_operand env i
  int_element parent idx
int_operand env (index p _ i) = none
int_operand env (unary p op e folded) = none
int_operand env (binary p op l r (some k)) = int_literal k
int_operand env (binary p op l r none) =
    if is_int_op op
    then (do a ← int_operand env l; b ← int_operand env r; int_arith op a b)
    else none

abbrev pub same_bool : Bool → Bool → Bool
same_bool true b = b
same_bool false b = not b

-- The left operand decides, or the answer is the right one's.
abbrev pub decide_or : Bool → Bool → Option Bool → Option Bool
decide_or true a rest = some a
decide_or false a rest = rest

unfoldable pub fast_condition : Env → Expr → Option Bool
unfolding var_value int_operand is_comparison is_logical
fast_condition env (lit p l) = bool_literal l
fast_condition env (var p name depth slot) = do v ← var_value env depth slot; as_bool v
fast_condition env (index p t i) = none
fast_condition env (unary p op e (some k)) = bool_literal k
fast_condition env (unary p op_not e none) = do r ← fast_condition env e; some (not r)
fast_condition env (unary p op e none) = none
fast_condition env (binary p op l r (some k)) = bool_literal k
fast_condition env (binary p op l r none) =
    if is_logical op
    then (do a ← fast_condition env l; decide_or (same_bool a (is_or op)) a (fast_condition env r))
    else if is_comparison op
    then (do a ← int_operand env l; b ← int_operand env r; int_compare op a b)
    else none

-- The new value of an int or bool variable that holds an int or a bool.
abbrev pub fast_value : Env → DeclType → Value → Expr → Option Value
fast_value env type_int (int n) e = do m ← int_operand env e; some (int m)
fast_value env type_bool (bool b) e = do r ← fast_condition env e; some (bool r)
fast_value env _ _ e = none

-- The environment after an assignment in place.
unfoldable pub fast_assign : Env → ℤ → ℤ → Expr → Option Env
unfolding slot_binding int_operand fast_condition write_slot
fast_assign env depth (negsuc s) e = none
fast_assign env depth (pos s) e = do
  b ← slot_binding env depth (pos s)
  if b.is_const then none else do
    v ← fast_value env b.decl_type b.value e
    some (write_slot env (pos_part depth) s (record b { value = v }))
