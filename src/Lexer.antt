-- ===== src/Lexer.antt =====
-- internal/lexer/lexer.go: `Next` and the drivers. The children hold the readers of each kind of token.
pub mod Tokens
pub mod Position
pub mod Chars
pub mod Trivia
pub mod Names
pub mod Numbers
pub mod Strings
pub mod Cooked
pub mod Moves
pub mod Columns
pub mod Readers
pub mod NumberReaders
pub mod StringReaders
pub mod Symbols
pub mod Texts
pub mod Scan
pub mod Stream
pub mod Literals
pub mod Spelling
pub mod Examples
pub mod Tests
use jennifer.Common.{
  Bool, List, Option, [], false, get_elem?, if◌then◌else◌, leb, length, none, ok, some, suc, true,
  zero, ℕ, ◌++◌, ◌-◌, ◌==◌, ◌>>=◌, ◌||◌, ◌∷◌,
}
use jennifer.Lexer.Tokens.{
  Token, TokenType, token_assign, token_bit_and, token_bit_not, token_bit_or, token_bit_xor,
  token_colon, token_comma, token_div, token_dot, token_dotdot, token_eof, token_eq, token_ge,
  token_gt, token_lbrace, token_lbracket, token_le, token_lparen, token_lt, token_minus, token_neq,
  token_percent, token_plus, token_rbrace, token_rbracket, token_rparen, token_semi, token_shl,
  token_shr, token_slash, token_star,
}
use jennifer.Lexer.Chars.{is_ascii_digit, is_ident_start}
use jennifer.Lexer.Position.{
  Place, Cursor, cursor, Lexed, lex_error, next_place, peek, next_is, plain_token, advance_over,
  max_tokens, token_budget, out_of_fuel, unexpected_bang, unexpected_character,
}
use jennifer.Lexer.Trivia.{next_trivia}
use jennifer.Lexer.Names.{read_var_ref, read_identifier_or_keyword}
use jennifer.Lexer.Numbers.{read_number}
use jennifer.Lexer.Cooked.{read_string}

-- The operators and brackets of one or two runes: the kind and the text that is consumed, for a
-- rune and the rune behind it.
abbrev pub one : ℕ → TokenType → Option (TokenType × List ℕ)
one c t = some (t, c ∷ [])

abbrev pub two :
    Option ℕ → ℕ → ℕ → TokenType → Option (TokenType × List ℕ) → Option (TokenType × List ℕ)
two next c d t other = if next_is d next then some (t, c ∷ d ∷ []) else other

unfoldable pub symbol : ℕ → Option ℕ → Option (TokenType × List ℕ)
symbol c next =
    if c == b'{'
    then one c token_lbrace
    else if c == b'}'
    then one c token_rbrace
    else if c == b'('
    then one c token_lparen
    else if c == b')'
    then one c token_rparen
    else if c == b'['
    then one c token_lbracket
    else if c == b']'
    then one c token_rbracket
    else if c == b';'
    then one c token_semi
    else if c == b':'
    then one c token_colon
    else if c == b','
    then one c token_comma
    else if c == b'='
    then two next c b'=' token_eq (one c token_assign)
    else if c == b'!'
    then two next c b'=' token_neq none
    else if c == b'<'
    then two next c b'=' token_le (two next c b'<' token_shl (one c token_lt))
    else if c == b'>'
    then two next c b'=' token_ge (two next c b'>' token_shr (one c token_gt))
    else if c == b'&'
    then one c token_bit_and
    else if c == b'|'
    then one c token_bit_or
    else if c == b'^'
    then one c token_bit_xor
    else if c == b'~'
    then one c token_bit_not
    else if c == b'+'
    then one c token_plus
    else if c == b'-'
    then one c token_minus
    else if c == b'*'
    then one c token_star
    else if c == b'/'
    then two next c b'/' token_div (one c token_slash)
    else if c == b'%'
    then one c token_percent
    else if c == b'.'
    then two next c b'.' token_dotdot (one c token_dot)
    else none

-- The cursor behind the runes of `text`.
abbrev pub skip : List ℕ → Cursor → Cursor
skip [] l = l
skip (c ∷ text) l = skip text (advance_over l.rest l.at)

abbrev pub take : ℕ → List ℕ → List ℕ
take zero s = []
take (suc n) [] = []
take (suc n) (c ∷ s) = c ∷ take n s

-- `src[startPos:pos]`, for the cursors at both positions.
abbrev pub consumed : Cursor → Cursor → List ℕ
consumed l l' = take (length l.rest - length l'.rest) l.rest

-- A number or string token stamped with its source spelling.
abbrev pub with_raw : Cursor → Lexed (Token × Cursor) → Lexed (Token × Cursor)
with_raw l r = r >>= λ t. ok (record (t.0) { raw = consumed l (t.1) }, t.1)

abbrev pub is_eof : TokenType → Bool
is_eof token_eof = true
is_eof _ = false

module _ (file : List ℕ) where
  -- The switch of `Next`, at a rune that is no trivia.
  unfoldable pub next_at : List ℕ → Place → Lexed (Token × Cursor)
  unfolding symbol read_var_ref read_identifier_or_keyword read_number read_string is_ascii_digit
      is_ident_start advance_over
  next_at [] p = ok (plain_token token_eof [] p, cursor [] p)
  next_at (c ∷ s) p =
      let l = cursor (c ∷ s) p in
      elim (symbol c (get_elem? s 0)) [
        | some (t, text) ↦ ok (plain_token t text p, skip text l)
        | none ↦
            if c == b'!'
            then lex_error file unexpected_bang p
            else if c == b'"' || c == b'\''
            then with_raw l (read_string file c p l)
            else if c == b'$'
            then read_var_ref file l
            else if is_ascii_digit c
            then with_raw l (read_number file l)
            else if is_ident_start c
            then read_identifier_or_keyword file l
            else lex_error file (unexpected_character c) p
      ]

  abbrev pub or_token : Option Token × Cursor → Lexed (Token × Cursor)
  or_token (some tok, l) = ok (tok, l)
  or_token (none, l) = next_at l.rest l.at

  unfoldable pub next : Cursor → Lexed (Token × Cursor)
  unfolding next_trivia next_at
  next l = next_trivia file l >>= or_token

  -- The loop of `tokenizeAll`, with fuel for its rounds.
  unfoldable pub tokens_from : ℕ → Cursor → List Token → Lexed (List Token)
  unfolding next
  tokens_from zero l out = lex_error file out_of_fuel l.at
  tokens_from (suc n) l out = next l >>= λ r.
      let tok = record (r.0) { file = file } in
      elim (leb max_tokens (length out)) [
        | true ↦ lex_error file token_budget (record { line = tok.line; col = tok.col })
        | false ↦ elim (is_eof tok.kind) [
          | true ↦ ok (out ++ tok ∷ [])
          | false ↦ tokens_from n (r.1) (out ++ tok ∷ [])
        ]
      ]

  unfoldable pub tokenize_all : Cursor → Lexed (List Token)
  unfolding tokens_from
  tokenize_all l = tokens_from (suc (length l.rest)) l []

-- `New` strips one leading byte order mark.
abbrev pub strip_bom : List ℕ → List ℕ
strip_bom [] = []
strip_bom (c ∷ s) = if c == 0xFEFF then s else c ∷ s

-- `TokenizeWithFile` and `TokenizeAt`; a missing file name is the empty one.
unfoldable pub tokenize_at : List ℕ → List ℕ → Place → Lexed (List Token)
unfolding tokenize_all
tokenize_at source file start = tokenize_all file (cursor (strip_bom source) start)

unfoldable pub tokenize_with_file : List ℕ → List ℕ → Lexed (List Token)
unfolding tokenize_at
tokenize_with_file source file = tokenize_at source file (record { line = 1; col = 1 })
