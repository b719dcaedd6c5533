-- ===== src/Lexer/Chars.antt =====
-- The rune classes of internal/lexer/lexer.go.
use jennifer.Common.{Bool, if◌then◌else◌, leb, ℕ, ◌&&◌, ◌+◌, ◌-◌, ◌==◌, ◌||◌}

unfoldable pub is_ascii_digit : ℕ → Bool
is_ascii_digit r = leb b'0' r && leb r b'9'

unfoldable pub is_hex_digit : ℕ → Bool
unfolding is_ascii_digit
is_hex_digit r = is_ascii_digit r || (leb b'a' r && leb r b'f') || (leb b'A' r && leb r b'F')

unfoldable pub hex_digit_value : ℕ → ℕ
hex_digit_value r =
    if leb b'0' r && leb r b'9'
    then r - b'0'
    else if leb b'a' r && leb r b'f'
    then r - b'a' + 10
    else r - b'A' + 10

unfoldable pub is_oct_digit : ℕ → Bool
is_oct_digit r = leb b'0' r && leb r b'7'

unfoldable pub is_bin_digit : ℕ → Bool
is_bin_digit r = r == b'0' || r == b'1'

unfoldable pub is_ident_start : ℕ → Bool
is_ident_start r = (leb b'a' r && leb r b'z') || (leb b'A' r && leb r b'Z')

unfoldable pub is_ident_part : ℕ → Bool
unfolding is_ident_start is_ascii_digit
is_ident_part r = is_ident_start r || is_ascii_digit r

unfoldable pub is_ident_part_loose : ℕ → Bool
unfolding is_ident_start is_ascii_digit
is_ident_part_loose r = is_ident_start r || is_ascii_digit r || r == b'_'
