-- ===== src/Lexer/Position.antt =====
-- The moving part of the Lexer of internal/lexer/lexer.go: the unread source, `src[pos:]`, and the
-- line and column of its first rune; with the errors of the lexer.
use jennifer.Common.{
  Bool, List, Option, Result, [], err, false, get_elem?, if◌then◌else◌, none, some, ℕ, ◌+◌, ◌==◌,
  ◌^◌, ◌∷◌,
}
use jennifer.Lexer.Tokens.{TokenType, Token}

pub record Place : Type 0 where
  pub line : ℕ
  pub col : ℕ

pub record Cursor : Type 0 where
  pub rest : List ℕ
  pub at : Place

abbrev pub max_nesting_depth : ℕ
max_nesting_depth = 1000

abbrev pub max_tokens : ℕ
max_tokens = 2 ^ 22

-- The messages, with what they show. `out_of_fuel` is none of the program's: it ends a loop of the
-- model that has used up its rounds.
pub data LexMsg : Type 0 where
  out_of_fuel : LexMsg
  unexpected_bang : LexMsg
  unexpected_character : ℕ → LexMsg
  unterminated_comment comment_too_deep : LexMsg
  unterminated_string unterminated_slot unterminated_slot_string slot_too_deep : LexMsg
  too_many_slots unexpected_brace unterminated_escape : LexMsg
  unknown_escape : ℕ → LexMsg
  escape_needs_digits : ℕ → ℕ → LexMsg
  invalid_code_point : ℕ → ℕ → LexMsg
  expected_identifier : LexMsg
  name_too_long identifier_too_long trailing_underscore : List ℕ → LexMsg
  expected_based_digit : ℕ → LexMsg
  separator_starts separator_ends : ℕ → LexMsg
  consecutive_separators : LexMsg
  missing_exponent : LexMsg
  token_budget : LexMsg

pub record LexError : Type 0 where
  pub msg : LexMsg
  pub file : List ℕ
  pub at : Place

abbrev pub Lexed {ℓ} : Type ℓ → Type ℓ
Lexed A = Result LexError A

abbrev pub lex_error {ℓ} : {A : Type ℓ} → List ℕ → LexMsg → Place → Lexed A
lex_error file m p = err (record { msg = m; file = file; at = p })

-- The place behind a rune.
unfoldable pub next_place : ℕ → Place → Place
next_place c p =
    if c == b'\n'
    then record { line = p.line + 1; col = 1 }
    else record { line = p.line; col = p.col + 1 }

abbrev pub cursor : List ℕ → Place → Cursor
cursor s p = record { rest = s; at = p }

unfoldable pub advance_over : List ℕ → Place → Cursor
unfolding next_place
advance_over [] p = cursor [] p
advance_over (c ∷ s) p = cursor s (next_place c p)

unfoldable pub advance : Cursor → Cursor
unfolding advance_over
advance l = advance_over l.rest l.at

abbrev pub peek : Cursor → ℕ → Option ℕ
peek l offset = get_elem? l.rest offset

-- Whether the rune at the offset is there and is `c`.
abbrev pub next_is : ℕ → Option ℕ → Bool
next_is c none = false
next_is c (some d) = d == c

abbrev pub plain_token : TokenType → List ℕ → Place → Token
plain_token t s p = record {
  kind = t;
  lexeme = s;
  raw = [];
  parts = [];
  line = p.line;
  col = p.col;
  file = [];
}
