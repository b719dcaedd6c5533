-- ===== src/Arith.antt =====
-- Integer arithmetic of the evaluator: the overflow helpers of internal/interpreter/interpreter.go
-- and `intArith` and `intCompare` of internal/interpreter/intfast.go.
pub mod Exact
pub mod Floored
use jennifer.Common.{
  ℤ, pos, negsuc, Bool, true, false, ◌&&◌, ◌||◌, not, Option, none, some, ltb_ℤ, leb_ℤ, eqb_ℤ, ◌+ℤ◌,
  ◌-ℤ◌, if◌then◌else◌, ◌≡◌, refl,
}
use jennifer.Int64.{min_int64, add64, sub64, mul64, div64, rem64, wrap, quot, rem}
use jennifer.Ast.{
  BinaryOp, op_add, op_sub, op_mul, op_floor_div, op_mod, op_lt, op_gt, op_le, op_ge, op_eq, op_neq,
}

abbrev pub xor_bool : Bool → Bool → Bool
xor_bool true b = not b
xor_bool false b = b

-- The sum and whether it overflowed.
unfoldable pub add_overflow : ℤ → ℤ → ℤ × Bool
add_overflow a b =
    let s = add64 a b in
    if (ltb_ℤ (pos 0) a && ltb_ℤ (pos 0) b && ltb_ℤ s (pos 0))
      || (ltb_ℤ a (pos 0) && ltb_ℤ b (pos 0) && leb_ℤ (pos 0) s)
    then (pos 0, true)
    else (s, false)

unfoldable pub sub_overflow : ℤ → ℤ → ℤ × Bool
sub_overflow a b =
    let d = sub64 a b in
    if (leb_ℤ (pos 0) a && ltb_ℤ b (pos 0) && ltb_ℤ d (pos 0))
      || (ltb_ℤ a (pos 0) && ltb_ℤ (pos 0) b && leb_ℤ (pos 0) d)
    then (pos 0, true)
    else (d, false)

unfoldable pub mul_overflow : ℤ → ℤ → ℤ × Bool
mul_overflow a b =
    if eqb_ℤ a (pos 0) || eqb_ℤ b (pos 0)
    then (pos 0, false)
    else if (eqb_ℤ a min_int64 && eqb_ℤ b (negsuc 0)) || (eqb_ℤ b min_int64 && eqb_ℤ a (negsuc 0))
    then (pos 0, true)
    else (let p = mul64 a b in if not (eqb_ℤ (div64 p a) b) then (pos 0, true) else (p, false))

unfoldable pub floored_mod : ℤ → ℤ → ℤ
floored_mod a b =
    let r = rem64 a b in
    if not (eqb_ℤ r (pos 0)) && xor_bool (ltb_ℤ r (pos 0)) (ltb_ℤ b (pos 0)) then add64 r b else r

-- The truncated quotient, one less where the signs differ and the division is not exact.
unfoldable pub floored_quot : ℤ → ℤ → ℤ
floored_quot a b =
    let q = div64 a b in
    if not (eqb_ℤ (rem64 a b) (pos 0)) && xor_bool (ltb_ℤ a (pos 0)) (ltb_ℤ b (pos 0))
    then sub64 q (pos 1)
    else q

-- A result, unless the second part says that it overflowed.
abbrev pub unless_overflow : ℤ × Bool → Option ℤ
unless_overflow (n, ovf) = if ovf then none else some n

unfoldable pub int_arith : BinaryOp → ℤ → ℤ → Option ℤ
int_arith op_add a b = unless_overflow (add_overflow a b)
int_arith op_sub a b = unless_overflow (sub_overflow a b)
int_arith op_mul a b = unless_overflow (mul_overflow a b)
int_arith op_floor_div a b =
    if eqb_ℤ b (pos 0) || (eqb_ℤ a min_int64 && eqb_ℤ b (negsuc 0))
    then none
    else some (floored_quot a b)
int_arith op_mod a b = if eqb_ℤ b (pos 0) then none else some (floored_mod a b)
int_arith _ a b = none

unfoldable pub int_compare : BinaryOp → ℤ → ℤ → Option Bool
int_compare op_lt a b = some (ltb_ℤ a b)
int_compare op_gt a b = some (ltb_ℤ b a)
int_compare op_le a b = some (leb_ℤ a b)
int_compare op_ge a b = some (leb_ℤ b a)
int_compare op_eq a b = some (eqb_ℤ a b)
int_compare op_neq a b = some (not (eqb_ℤ a b))
int_compare _ a b = none

mod_negative :
    (floored_mod (negsuc 6) (pos 3) ≡ pos 2) × (floored_quot (negsuc 6) (pos 3) ≡ negsuc 2)
unfolding floored_mod floored_quot wrap quot rem ◌+ℤ◌ ◌-ℤ◌
mod_negative = (refl, refl)
