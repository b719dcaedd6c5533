-- ===== src/Arith/Floored.antt =====
-- Floored division and remainder: `//` and `%` on int.
use native.Mathlib.Nat.{div-add-mod, mod-lt, div-le_self}
use jennifer.Common.{
  Bool-cases, inl, inr, ◌-ℤ◌, if◌then◌else◌, ◌-◌, ◌==◌, ℕ, zero, suc, ◌<◌, ◌^◌, ◌*◌, ◌/◌, ◌%◌, ◌+◌,
  ℤ, pos, negsuc, ◌≡◌, ◌≢◌, arith, ◌+ℤ◌, ◌*ℤ◌,
}
use jennifer.Int64.{negate, InRange, wrap, quot, rem, min_int64}
use jennifer.Arith.{floored_quot, floored_mod}

-- The remainder lies between zero and the divisor, on the divisor's side.
abbrev pub IsFloorRemainder : ℤ → ℤ → Type 0
IsFloorRemainder (pos r) (pos b) = r < b
IsFloorRemainder (negsuc r) (pos b) = ⊥
IsFloorRemainder (pos r) (negsuc b) = r ≡ 0
IsFloorRemainder (negsuc r) (negsuc b) = r < b

-- For int64 operands and a divisor other than 0, the floored remainder has the sign of the divisor or
-- is 0, and its magnitude is below the divisor's.
pub floored_mod-IsFloorRemainder :
    (a b : ℤ) → InRange a → InRange b → b ≢ pos 0 → IsFloorRemainder (floored_mod a b) b
unfolding floored_mod wrap rem ◌+ℤ◌
floored_mod-IsFloorRemainder (pos a) (pos b) ha hb h = ground (arith, mod-lt a {m = b})
floored_mod-IsFloorRemainder (pos a) (negsuc b) ha hb h = ground (arith, mod-lt a {m = suc b})
floored_mod-IsFloorRemainder (negsuc a) (pos b) ha hb h = ground (arith, mod-lt (suc a) {m = b})
floored_mod-IsFloorRemainder (negsuc a) (negsuc b) ha hb h =
    ground (arith, mod-lt (suc a) {m = suc b})

-- Quotient and remainder where the signs differ.
quot_pos_neg :
    (a b : ℕ)
    → a < 2 ^ 63
    → floored_quot (pos a) (negsuc b)
      ≡ (if a % suc b == 0 then negate (a / suc b) else negsuc (a / suc b))
unfolding floored_quot wrap quot rem ◌-ℤ◌
quot_pos_neg a b ha = ground (arith, div-le_self a (suc b))

mod_pos_neg :
    (a b : ℕ)
    → b < 2 ^ 63
    → floored_mod (pos a) (negsuc b)
      ≡ (if a % suc b == 0 then pos 0 else negsuc (suc b - a % suc b - 1))
unfolding floored_mod wrap rem ◌+ℤ◌
mod_pos_neg a b hb = ground (arith, mod-lt a {m = suc b})

quot_neg_pos :
    (a b : ℕ)
    → a < 2 ^ 63
    → floored_quot (negsuc a) (pos b)
      ≡ (if suc a % b == 0 then negate (suc a / b) else negsuc (suc a / b))
unfolding floored_quot wrap quot rem ◌-ℤ◌
quot_neg_pos a b ha = ground (arith, div-le_self (suc a) b)

mod_neg_pos :
    (a b : ℕ)
    → 0 < b
    → b < 2 ^ 63
    → floored_mod (negsuc a) (pos b) ≡ (if suc a % b == 0 then pos 0 else pos (b - suc a % b))
unfolding floored_mod wrap rem ◌+ℤ◌
mod_neg_pos a b pb hb = ground (arith, mod-lt (suc a) {m = b})

recombine_pos_neg :
    (a b q r : ℕ)
    → suc b * q + r ≡ a
    → r < suc b
    → (if r == 0 then negate q else negsuc q) *ℤ negsuc b
        +ℤ (if r == 0 then pos 0 else negsuc (suc b - r - 1))
      ≡ pos a
unfolding ◌+ℤ◌ ◌*ℤ◌
recombine_pos_neg a b zero r e h = ground arith
recombine_pos_neg a b (suc q) r e h = elim (Bool-cases (r == 0)) [
  | inl z ↦ rw z (ground arith)
  | inr z ↦ rw z (ground arith)
]

recombine_neg_pos :
    (a b q r : ℕ)
    → b * q + r ≡ suc a
    → r < b
    → (if r == 0 then negate q else negsuc q) *ℤ pos b +ℤ (if r == 0 then pos 0 else pos (b - r))
      ≡ negsuc a
unfolding ◌+ℤ◌ ◌*ℤ◌
recombine_neg_pos a b zero r e h = ground arith
recombine_neg_pos a b (suc q) r e h = elim (Bool-cases (r == 0)) [
  | inl z ↦ rw z (ground arith)
  | inr z ↦ rw z (ground arith)
]

-- For int64 operands and a divisor other than 0, but for the least int64 by -1, the floored quotient
-- times the divisor plus the floored remainder is the dividend.
pub floored_quot-floored_mod :
    (a b : ℤ)
    → InRange a
    → InRange b
    → b ≢ pos 0
    → ((a ≡ min_int64) × (b ≡ negsuc 0) → ⊥)
    → floored_quot a b *ℤ b +ℤ floored_mod a b ≡ a
floored_quot-floored_mod (pos a) (pos b) ha hb h k =
    unfold floored_quot floored_mod wrap quot rem ◌+ℤ◌ ◌*ℤ◌ in
    ground (arith, mod-lt a {m = b}, div-add-mod a b, div-le_self a b)
floored_quot-floored_mod (pos a) (negsuc b) ha hb h k =
    rw (quot_pos_neg a b ha, mod_pos_neg a b hb)
      (recombine_pos_neg a b _ _ (div-add-mod a (suc b)) (mod-lt a (omega arith)))
floored_quot-floored_mod (negsuc a) (pos b) ha hb h k =
    let pb : 0 < b = ground arith in
    rw (quot_neg_pos a b ha, mod_neg_pos a b pb hb)
      (recombine_neg_pos a b _ _ (div-add-mod (suc a) b) (mod-lt (suc a) pb))
floored_quot-floored_mod (negsuc a) (negsuc b) ha hb h k =
    unfold floored_quot floored_mod wrap quot rem ◌+ℤ◌ ◌*ℤ◌ in
    ground
      (arith, mod-lt (suc a) {m = suc b}, div-add-mod (suc a) (suc b), div-le_self (suc a) (suc b))
