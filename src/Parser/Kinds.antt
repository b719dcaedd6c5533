-- ===== src/Parser/Kinds.antt =====
-- The numbers of the token kinds of internal/lexer/token.go, by which kinds are compared, and the
-- tests on tokens of internal/parser/parser.go.
use jennifer.Common.{
  Bool, true, false, ◌==◌, ℕ, ◌≡◌, refl, List, [], ◌∷◌, leb, ◌&&◌, ◌||◌, not, if◌then◌else◌,
}
use jennifer.Lexer.Tokens.{
  TokenType, Token, token_eof, token_illegal, token_int, token_float, token_string,
  token_string_interp, token_ident, token_varref, token_define, token_func, token_as, token_init,
  token_const, token_include, token_import, token_use, token_return, token_if, token_elseif,
  token_else, token_while, token_for, token_repeat, token_until, token_match, token_when,
  token_break, token_continue, token_exit, token_try, token_catch, token_throw, token_defer,
  token_errdefer, token_true, token_false, token_null, token_and, token_or, token_not, token_div,
  token_int_type, token_float_type, token_string_type, token_bool_type, token_bytes_type,
  token_list, token_map, token_of, token_to, token_in, token_struct, token_enum, token_len,
  token_task, token_spawn, token_export, token_lbrace, token_rbrace, token_lparen, token_rparen,
  token_lbracket, token_rbracket, token_semi, token_comma, token_colon, token_assign, token_dot,
  token_dotdot, token_plus, token_minus, token_star, token_slash, token_percent, token_lt, token_gt,
  token_le, token_ge, token_eq, token_neq, token_bit_and, token_bit_or, token_bit_xor,
  token_bit_not, token_shl, token_shr, token_comment_line, token_comment_block,
  token_comment_shebang, token_blank_line,
}
use jennifer.Lexer.{is_eof}

unfoldable pub kind_code : TokenType → ℕ
kind_code token_eof = 0
kind_code token_illegal = 1
kind_code token_int = 2
kind_code token_float = 3
kind_code token_string = 4
kind_code token_string_interp = 5
kind_code token_ident = 6
kind_code token_varref = 7
kind_code token_define = 8
kind_code token_func = 9
kind_code token_as = 10
kind_code token_init = 11
kind_code token_const = 12
kind_code token_include = 13
kind_code token_import = 14
kind_code token_use = 15
kind_code token_return = 16
kind_code token_if = 17
kind_code token_elseif = 18
kind_code token_else = 19
kind_code token_while = 20
kind_code token_for = 21
kind_code token_repeat = 22
kind_code token_until = 23
kind_code token_match = 24
kind_code token_when = 25
kind_code token_break = 26
kind_code token_continue = 27
kind_code token_exit = 28
kind_code token_try = 29
kind_code token_catch = 30
kind_code token_throw = 31
kind_code token_defer = 32
kind_code token_errdefer = 33
kind_code token_true = 34
kind_code token_false = 35
kind_code token_null = 36
kind_code token_and = 37
kind_code token_or = 38
kind_code token_not = 39
kind_code token_div = 40
kind_code token_int_type = 41
kind_code token_float_type = 42
kind_code token_string_type = 43
kind_code token_bool_type = 44
kind_code token_bytes_type = 45
kind_code token_list = 46
kind_code token_map = 47
kind_code token_of = 48
kind_code token_to = 49
kind_code token_in = 50
kind_code token_struct = 51
kind_code token_enum = 52
kind_code token_len = 53
kind_code token_task = 54
kind_code token_spawn = 55
kind_code token_export = 56
kind_code token_lbrace = 57
kind_code token_rbrace = 58
kind_code token_lparen = 59
kind_code token_rparen = 60
kind_code token_lbracket = 61
kind_code token_rbracket = 62
kind_code token_semi = 63
kind_code token_comma = 64
kind_code token_colon = 65
kind_code token_assign = 66
kind_code token_dot = 67
kind_code token_dotdot = 68
kind_code token_plus = 69
kind_code token_minus = 70
kind_code token_star = 71
kind_code token_slash = 72
kind_code token_percent = 73
kind_code token_lt = 74
kind_code token_gt = 75
kind_code token_le = 76
kind_code token_ge = 77
kind_code token_eq = 78
kind_code token_neq = 79
kind_code token_bit_and = 80
kind_code token_bit_or = 81
kind_code token_bit_xor = 82
kind_code token_bit_not = 83
kind_code token_shl = 84
kind_code token_shr = 85
kind_code token_comment_line = 86
kind_code token_comment_block = 87
kind_code token_comment_shebang = 88
kind_code token_blank_line = 89

unfoldable pub same_kind : TokenType → TokenType → Bool
unfolding kind_code
same_kind s t = kind_code s == kind_code t

pub is_eof-kind_code : (t : TokenType) → is_eof t ≡ kind_code t == 0
unfolding kind_code
is_eof-kind_code token_eof = refl
is_eof-kind_code _ = refl

-- `isTrivia`.
abbrev pub is_trivia : TokenType → Bool
is_trivia token_comment_line = true
is_trivia token_comment_block = true
is_trivia token_comment_shebang = true
is_trivia token_blank_line = true
is_trivia _ = false

unfoldable pub strip_trivia : List Token → List Token
strip_trivia [] = []
strip_trivia (t ∷ ts) = let rest = strip_trivia ts in if is_trivia t.kind then rest else t ∷ rest

abbrev pub is_letter : ℕ → Bool
is_letter c = (leb b'a' c && leb c b'z') || (leb b'A' c && leb c b'Z')

abbrev pub starts_letter : List ℕ → Bool
starts_letter [] = false
starts_letter (c ∷ _) = is_letter c

abbrev is_ident : TokenType → Bool
is_ident token_ident = true
is_ident _ = false

-- `isPostDotName`.
unfoldable pub is_post_dot_name : Token → Bool
is_post_dot_name t = is_ident t.kind || starts_letter t.lexeme

unfoldable pub contains_underscore : List ℕ → Bool
contains_underscore [] = false
contains_underscore (c ∷ s) = c == b'_' || contains_underscore s

abbrev pub is_upper : ℕ → Bool
is_upper c = leb b'A' c && leb c b'Z'

abbrev pub is_digit : ℕ → Bool
is_digit c = leb b'0' c && leb c b'9'

-- The loop of `isValidConstName`, with `atChunkStart` and `prevUnderscore`.
unfoldable pub const_chunks : Bool → Bool → List ℕ → Bool
const_chunks start prev [] = true
const_chunks start prev (c ∷ s) =
    if c == b'_'
    then not prev && const_chunks true true s
    else (is_upper c || (not start && is_digit c)) && const_chunks false false s

abbrev pub ends_underscore : List ℕ → Bool
ends_underscore [] = false
ends_underscore (c ∷ []) = c == b'_'
ends_underscore (c ∷ d ∷ s) = ends_underscore (d ∷ s)

-- `isValidConstName`.
unfoldable pub is_valid_const_name : List ℕ → Bool
unfolding const_chunks
is_valid_const_name [] = false
is_valid_const_name (c ∷ s) =
    not (c == b'_') && not (ends_underscore (c ∷ s)) && const_chunks true false (c ∷ s)
