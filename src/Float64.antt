-- ===== src/Float64.antt =====
-- Go's float64, which the program takes from the machine: a value is its IEEE 754 bit pattern, and
-- the operations are parameters.
use jennifer.Common.{ℕ, ◌/◌, ◌%◌, ◌^◌, ℤ, pos, Bool, ◌&&◌, ◌||◌, not, ◌==◌, ◌≡◌}

-- The exponent bits are all ones: an infinity or a NaN.
abbrev pub is_non_finite : ℕ → Bool
is_non_finite f = f / 2 ^ 52 % 2 ^ 11 == 2047

-- math.IsNaN and math.IsInf(f, 0).
abbrev pub is_nan : ℕ → Bool
is_nan f = is_non_finite f && not (f % 2 ^ 52 == 0)

abbrev pub is_inf : ℕ → Bool
is_inf f = is_non_finite f && f % 2 ^ 52 == 0

pub record FloatOps : Type 0 where
  pub of_int : ℤ → ℕ
  pub truncate : ℕ → ℤ
  pub add : ℕ → ℕ → ℕ
  pub sub : ℕ → ℕ → ℕ
  pub mul : ℕ → ℕ → ℕ
  pub div : ℕ → ℕ → ℕ
  pub neg : ℕ → ℕ
  pub eq : ℕ → ℕ → Bool
  pub lt : ℕ → ℕ → Bool
  pub le : ℕ → ℕ → Bool

-- IEEE 754: r - r is a zero for a finite r, and a NaN, equal to nothing, otherwise.
pub record IsIeee (F : FloatOps) : Type 0 where
  pub sub_self : (r : ℕ) → F.eq (F.sub r r) (F.of_int (pos 0)) ≡ not (is_inf r || is_nan r)
