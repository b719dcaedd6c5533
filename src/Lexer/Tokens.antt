-- ===== src/Lexer/Tokens.antt =====
-- internal/lexer/token.go: token kinds, tokens and keywords. The printed names of the kinds are left
-- out.
use jennifer.Common.{List, Option, [], codes, if◌then◌else◌, none, some, text_eq, ℕ, ◌∷◌}

pub data TokenType : Type 0 where
  token_eof token_illegal token_int token_float token_string token_string_interp : TokenType
  token_ident token_varref token_define token_func token_as token_init token_const : TokenType
  token_include token_import token_use token_return token_if token_elseif token_else : TokenType
  token_while token_for token_repeat token_until token_match token_when token_break : TokenType
  token_continue token_exit token_try token_catch token_throw token_defer token_errdefer : TokenType
  token_true token_false token_null token_and token_or token_not token_div token_int_type :
      TokenType
  token_float_type token_string_type token_bool_type token_bytes_type token_list : TokenType
  token_map token_of token_to token_in token_struct token_enum token_len token_task : TokenType
  token_spawn token_export token_lbrace token_rbrace token_lparen token_rparen : TokenType
  token_lbracket token_rbracket token_semi token_comma token_colon token_assign token_dot :
      TokenType
  token_dotdot token_plus token_minus token_star token_slash token_percent token_lt : TokenType
  token_gt token_le token_ge token_eq token_neq token_bit_and token_bit_or token_bit_xor : TokenType
  token_bit_not token_shl token_shr token_comment_line token_comment_block : TokenType
  token_comment_shebang token_blank_line : TokenType

-- A literal chunk, or the source of an expression slot and where it begins.
pub data StringPart : Type 0 where
  text_part : List ℕ → StringPart
  expr_part : List ℕ → ℕ → ℕ → StringPart

pub record Token : Type 0 where
  pub kind : TokenType
  pub lexeme : List ℕ
  pub raw : List ℕ
  pub parts : List StringPart
  pub line : ℕ
  pub col : ℕ
  pub file : List ℕ

abbrev pub keywords : List (List ℕ × TokenType)
keywords =
    (codes "def", token_define)
    ∷ (codes "func", token_func)
    ∷ (codes "as", token_as)
    ∷ (codes "init", token_init)
    ∷ (codes "const", token_const)
    ∷ (codes "include", token_include)
    ∷ (codes "import", token_import)
    ∷ (codes "use", token_use)
    ∷ (codes "return", token_return)
    ∷ (codes "if", token_if)
    ∷ (codes "elseif", token_elseif)
    ∷ (codes "else", token_else)
    ∷ (codes "while", token_while)
    ∷ (codes "for", token_for)
    ∷ (codes "repeat", token_repeat)
    ∷ (codes "until", token_until)
    ∷ (codes "match", token_match)
    ∷ (codes "when", token_when)
    ∷ (codes "break", token_break)
    ∷ (codes "continue", token_continue)
    ∷ (codes "exit", token_exit)
    ∷ (codes "try", token_try)
    ∷ (codes "catch", token_catch)
    ∷ (codes "throw", token_throw)
    ∷ (codes "defer", token_defer)
    ∷ (codes "errdefer", token_errdefer)
    ∷ (codes "true", token_true)
    ∷ (codes "false", token_false)
    ∷ (codes "null", token_null)
    ∷ (codes "and", token_and)
    ∷ (codes "or", token_or)
    ∷ (codes "not", token_not)
    ∷ (codes "int", token_int_type)
    ∷ (codes "float", token_float_type)
    ∷ (codes "string", token_string_type)
    ∷ (codes "bool", token_bool_type)
    ∷ (codes "bytes", token_bytes_type)
    ∷ (codes "list", token_list)
    ∷ (codes "map", token_map)
    ∷ (codes "of", token_of)
    ∷ (codes "to", token_to)
    ∷ (codes "in", token_in)
    ∷ (codes "struct", token_struct)
    ∷ (codes "enum", token_enum)
    ∷ (codes "len", token_len)
    ∷ (codes "task", token_task)
    ∷ (codes "spawn", token_spawn)
    ∷ (codes "export", token_export)
    ∷ []

unfoldable pub find_keyword : List ℕ → List (List ℕ × TokenType) → Option TokenType
find_keyword ident [] = none
find_keyword ident ((word, t) ∷ rest) =
    if text_eq word ident then some t else find_keyword ident rest

unfoldable pub lookup_keyword : List ℕ → Option TokenType
unfolding find_keyword
lookup_keyword ident = find_keyword ident keywords
