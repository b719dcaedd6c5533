-- ===== src/Int64.antt =====
-- Go's int64: an integer in range, with wrap-around written out.
-- `+`, `-` and `*` wrap; `/` truncates towards zero and `%` has the sign of the dividend (Go
-- specification, "Integer operators"); the bit operators work on the two's complement pattern.
use Prim.Native.Nat.{bit_and, bit_or, bit_xor}
use jennifer.Common.{
  ℕ, zero, suc, ◌-◌, ◌/◌, ◌%◌, ◌^◌, ◌<◌, ◌≡◌, arith, ltb, if◌then◌else◌, ℤ, pos, negsuc, ◌+ℤ◌, ◌-ℤ◌,
  ◌*ℤ◌,
}

abbrev pub min_int64 : ℤ
min_int64 = negsuc (2 ^ 63 - 1)

abbrev pub max_int64 : ℤ
max_int64 = pos (2 ^ 63 - 1)

abbrev pub InRange : ℤ → Type 0
InRange (pos n) = n < 2 ^ 63
InRange (negsuc n) = n < 2 ^ 63

-- The pattern below 2^64 of an integer, and the integer of a pattern.
abbrev pub bits : ℤ → ℕ
bits (pos n) = n % 2 ^ 64
bits (negsuc n) = 2 ^ 64 - 1 - n % 2 ^ 64

abbrev pub signed : ℕ → ℤ
signed w = if ltb w (2 ^ 63) then pos w else negsuc (2 ^ 64 - 1 - w)

unfoldable pub wrap : ℤ → ℤ
wrap a = signed (bits a)

abbrev pub negate : ℕ → ℤ
negate zero = pos 0
negate (suc n) = negsuc n

-- Quotient and remainder of truncating division, for a divisor that is not zero.
unfoldable pub quot : ℤ → ℤ → ℤ
quot (pos a) (pos b) = pos (a / b)
quot (pos a) (negsuc b) = negate (a / suc b)
quot (negsuc a) (pos b) = negate (suc a / b)
quot (negsuc a) (negsuc b) = pos (suc a / suc b)

unfoldable pub rem : ℤ → ℤ → ℤ
rem (pos a) (pos b) = pos (a % b)
rem (pos a) (negsuc b) = pos (a % suc b)
rem (negsuc a) (pos b) = negate (suc a % b)
rem (negsuc a) (negsuc b) = negate (suc a % suc b)

abbrev pub add64 : ℤ → ℤ → ℤ
add64 a b = wrap (a +ℤ b)

abbrev pub sub64 : ℤ → ℤ → ℤ
sub64 a b = wrap (a -ℤ b)

abbrev pub mul64 : ℤ → ℤ → ℤ
mul64 a b = wrap (a *ℤ b)

abbrev pub div64 : ℤ → ℤ → ℤ
div64 a b = wrap (quot a b)

abbrev pub rem64 : ℤ → ℤ → ℤ
rem64 a b = rem a b

abbrev pub neg64 : ℤ → ℤ
neg64 a = wrap (pos 0 -ℤ a)

abbrev pub and64 : ℤ → ℤ → ℤ
and64 a b = signed (bit_and (bits a) (bits b))

abbrev pub or64 : ℤ → ℤ → ℤ
or64 a b = signed (bit_or (bits a) (bits b))

abbrev pub xor64 : ℤ → ℤ → ℤ
xor64 a b = signed (bit_xor (bits a) (bits b))

abbrev pub not64 : ℤ → ℤ
not64 a = signed (2 ^ 64 - 1 - bits a)

-- `a << k` and the arithmetic `a >> k`, for k below 64.
abbrev pub shl64 : ℤ → ℕ → ℤ
shl64 a k = wrap (a *ℤ pos (2 ^ k))

abbrev pub shr64 : ℤ → ℕ → ℤ
shr64 (pos n) k = pos (n / 2 ^ k)
shr64 (negsuc n) k = negsuc (n / 2 ^ k)

pub wrap-InRange : (a : ℤ) → InRange (wrap a)
unfolding wrap
wrap-InRange a = ground arith

pub wrap_of_InRange : (a : ℤ) → InRange a → wrap a ≡ a
unfolding wrap
wrap_of_InRange (pos n) h = ground arith
wrap_of_InRange (negsuc n) h = ground arith
