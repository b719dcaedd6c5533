-- ===== src/Arith/Exact.antt =====
-- addOverflow, subOverflow and mulOverflow of internal/interpreter/interpreter.go against exact
-- arithmetic.
use jennifer.Common.{
  mul_neg_neg, mul_neg_pos, mul_pos_neg, mul_pos_pos, zero-mul, mul-zero, inr, inl, ◌⊎◌, ◌-◌, ℕ,
  zero, suc, ◌^◌, ◌<◌, ◌≤◌, ◌*◌, ◌/◌, ◌%◌, eqb_ℤ, not, ℤ, pos, negsuc, Bool, true, false, ◌≡◌, refl,
  arith, ◌+ℤ◌, ◌-ℤ◌, ◌*ℤ◌, if◌then◌else◌, ltb,
}
use jennifer.Int64.{InRange, wrap, quot, div64}
use jennifer.Arith.{add_overflow, sub_overflow, mul_overflow}

-- Whether an integer is an int64.
abbrev pub fits : ℤ → Bool
fits (pos n) = ltb n (2 ^ 63)
fits (negsuc n) = ltb n (2 ^ 63)

abbrev pub exactly : ℤ → ℤ × Bool
exactly n = if fits n then (n, false) else (pos 0, true)

-- For int64 operands `add_overflow` is the exact sum where that is an int64, and otherwise the
-- overflow flag.
pub add_overflow-exactly : (a b : ℤ) → InRange a → InRange b → add_overflow a b ≡ exactly (a +ℤ b)
unfolding add_overflow wrap ◌+ℤ◌
add_overflow-exactly (pos a) (pos b) ha hb = ground arith
add_overflow-exactly (pos a) (negsuc b) ha hb = ground arith
add_overflow-exactly (negsuc a) (pos b) ha hb = ground arith
add_overflow-exactly (negsuc a) (negsuc b) ha hb = ground arith

-- For int64 operands `sub_overflow` is the exact difference where that is an int64, and otherwise
-- the overflow flag.
pub sub_overflow-exactly : (a b : ℤ) → InRange a → InRange b → sub_overflow a b ≡ exactly (a -ℤ b)
unfolding sub_overflow wrap ◌-ℤ◌
sub_overflow-exactly (pos a) (pos b) ha hb = ground arith
sub_overflow-exactly (pos a) (negsuc b) ha hb = ground arith
sub_overflow-exactly (negsuc a) (pos b) ha hb = ground arith
sub_overflow-exactly (negsuc a) (negsuc b) ha hb = ground arith

div_exact : (a b m : ℕ) → 0 < a → a * b ≡ m → m / a ≡ b
div_exact a b m h e = grind arith

div_below : (w a b : ℕ) → w / a ≡ b → a * b ≤ w
div_below w a b e = grind arith

-- `p / a != b` detects that p, the wrapped product, is not the product.
abbrev probe : ℤ → ℤ → ℤ → ℤ × Bool
probe p a b = if not (eqb_ℤ (div64 p a) b) then (pos 0, true) else (p, false)

probe_pos_pos :
    (a b m : ℕ)
    → 0 < a
    → 0 < b
    → a < 2 ^ 63
    → b < 2 ^ 63
    → a * b ≡ m
    → probe (wrap (pos m)) (pos a) (pos b) ≡ exactly (pos m)
unfolding wrap quot
probe_pos_pos a b m pa pb ha hb e = ground (arith, div_exact a b m pa e, div_below (m % 2 ^ 64) a b)

probe_pos_neg :
    (a b m : ℕ)
    → 0 < a
    → a < 2 ^ 63
    → b < 2 ^ 63
    → a * suc b ≡ suc m
    → probe (wrap (negsuc m)) (pos a) (negsuc b) ≡ exactly (negsuc m)
unfolding wrap quot
probe_pos_neg a b m pa ha hb e = ground (
  arith,
  div_exact a (suc b) (suc m) pa e,
  div_below (suc (2 ^ 64 - 1 - (2 ^ 64 - 1 - m % 2 ^ 64))) a (suc b),
)

probe_neg_pos :
    (a b m : ℕ)
    → 0 < b
    → a < 2 ^ 63
    → b < 2 ^ 63
    → suc a * b ≡ suc m
    → probe (wrap (negsuc m)) (negsuc a) (pos b) ≡ exactly (negsuc m)
unfolding wrap quot
probe_neg_pos a b m pb ha hb e = ground (
  arith,
  div_exact (suc a) b (suc m) (omega arith) e,
  div_below (suc (2 ^ 64 - 1 - (2 ^ 64 - 1 - m % 2 ^ 64))) (suc a) b,
)

probe_neg_neg :
    (a b m : ℕ)
    → a < 2 ^ 63
    → b < 2 ^ 63
    → suc a * suc b ≡ m
    → ((a ≡ 0) × (b ≡ 2 ^ 63 - 1) → ⊥)
    → ((b ≡ 0) × (a ≡ 2 ^ 63 - 1) → ⊥)
    → probe (wrap (pos m)) (negsuc a) (negsuc b) ≡ exactly (pos m)
unfolding wrap quot
probe_neg_neg a b m ha hb e h k =
    ground
      (arith, div_exact (suc a) (suc b) m (omega arith) e, div_below (m % 2 ^ 64) (suc a) (suc b))

-- The two products that the first guard excludes do not fit.
corner :
    (a b m : ℕ)
    → suc a * suc b ≡ m
    → ((a ≡ 0) × (b ≡ 2 ^ 63 - 1)) ⊎ ((b ≡ 0) × (a ≡ 2 ^ 63 - 1))
    → fits (pos m) ≡ false
corner a b m e (inl h) = grind arith
corner a b m e (inr h) = grind arith

-- For int64 operands `mul_overflow` is the exact product where that is an int64, and otherwise the
-- overflow flag.
pub mul_overflow-exactly : (a b : ℤ) → InRange a → InRange b → mul_overflow a b ≡ exactly (a *ℤ b)
unfolding mul_overflow
mul_overflow-exactly a (pos zero) ha hb = ground (arith, mul-zero a)
mul_overflow-exactly (pos zero) b ha hb = ground (arith, zero-mul b)
mul_overflow-exactly (pos (suc a)) (pos (suc b)) ha hb =
    let h = probe_pos_pos (suc a) (suc b) (suc a * suc b) (omega arith) (omega arith) ha hb refl in
    rw (mul_pos_pos (suc a) (suc b)) (ground (arith, h))
mul_overflow-exactly (pos (suc a)) (negsuc b) ha hb =
    let h = probe_pos_neg (suc a) b (suc a * suc b - 1) (omega arith) ha hb (grind arith) in
    rw (mul_pos_neg (suc a) b (omega arith)) (ground (arith, h))
mul_overflow-exactly (negsuc a) (pos (suc b)) ha hb =
    let h = probe_neg_pos a (suc b) (suc a * suc b - 1) (omega arith) ha hb (grind arith) in
    rw (mul_neg_pos a (suc b) (omega arith)) (ground (arith, h))
mul_overflow-exactly (negsuc a) (negsuc b) ha hb =
    rw (mul_neg_neg a b)
      (ground (arith, probe_neg_neg a b (suc a * suc b) ha hb refl, corner a b (suc a * suc b)))
