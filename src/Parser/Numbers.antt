-- ===== src/Parser/Numbers.antt =====
-- strconv.ParseUint and ParseInt at 64 bits, as internal/parser/parser.go calls them on the lexemes of
-- ints: digits without a sign or a separator, which the lexer leaves out, with a prefix of the base.
use jennifer.Common.{
  List, [], ◌∷◌, Option, none, some, ℕ, ℤ, pos, if◌then◌else◌, leb, ltb, ◌+◌, ◌-◌, ◌*◌, ◌^◌, ◌==◌,
  ◌&&◌,
}
use jennifer.Parser.Kinds.{is_digit}

unfoldable pub digit_value : ℕ → Option ℕ
digit_value c =
    if is_digit c
    then some (c - b'0')
    else if leb b'a' c && leb c b'z'
    then some (c - b'a' + 10)
    else if leb b'A' c && leb c b'Z'
    then some (c - b'A' + 10)
    else none

abbrev add_digit : ℕ → ℕ → Option ℕ → Option ℕ
add_digit base acc none = none
add_digit base acc (some d) = if ltb d base then some (acc * base + d) else none

abbrev and_on : Option ℕ → (ℕ → Option ℕ) → Option ℕ
and_on none f = none
and_on (some a) f = f a

unfoldable pub digits_value : ℕ → ℕ → List ℕ → Option ℕ
unfolding digit_value
digits_value base acc [] = some acc
digits_value base acc (c ∷ s) =
    and_on (add_digit base acc (digit_value c)) (λ a. digits_value base a s)

abbrev some_digits : ℕ → List ℕ → Option ℕ
some_digits base [] = none
some_digits base (c ∷ s) = digits_value base 0 (c ∷ s)

-- The base and the digits behind a prefix.
unfoldable pub split_base : List ℕ → ℕ × List ℕ
split_base (c ∷ d ∷ s) =
    if c == b'0' && d == b'x'
    then (16, s)
    else if c == b'0' && d == b'o'
    then (8, s)
    else if c == b'0' && d == b'b'
    then (2, s)
    else (10, c ∷ d ∷ s)
split_base s = (10, s)

abbrev below : ℕ → Option ℕ → Option ℕ
below limit none = none
below limit (some n) = if ltb n limit then some n else none

unfoldable pub parse_uint : List ℕ → Option ℕ
unfolding split_base digits_value
parse_uint lex = let (base, s) = split_base lex in below (2 ^ 64) (some_digits base s)

abbrev as_int64 : Option ℕ → Option ℤ
as_int64 none = none
as_int64 (some n) = if ltb n (2 ^ 63) then some (pos n) else none

unfoldable pub parse_int : List ℕ → Option ℤ
unfolding parse_uint
parse_int lex = as_int64 (parse_uint lex)
