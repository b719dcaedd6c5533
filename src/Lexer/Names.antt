-- ===== src/Lexer/Names.antt =====
-- Variable references, identifiers and keywords of internal/lexer/lexer.go.
use jennifer.Common.{
  Bool, List, [], false, if◌then◌else◌, length, ltb, none, not, ok, some, true, ℕ, ◌++◌, ◌+◌, ◌==◌,
  ◌>>=◌, ◌∷◌,
}
use jennifer.Lexer.Tokens.{Token, token_varref, token_ident, lookup_keyword}
use jennifer.Lexer.Chars.{is_ident_start, is_ident_part, is_ident_part_loose}
use jennifer.Lexer.Position.{
  Place, Cursor, cursor, LexMsg, Lexed, lex_error, next_place, plain_token, advance_over,
  expected_identifier, name_too_long, identifier_too_long, trailing_underscore,
}

abbrev pub starts_name : List ℕ → Bool
starts_name [] = false
starts_name (c ∷ s) = is_ident_start c

abbrev pub last_is : ℕ → List ℕ → Bool
last_is c [] = false
last_is c (d ∷ []) = d == c
last_is c (d ∷ e ∷ s) = last_is c (e ∷ s)

module _ (file : List ℕ) where
  -- The loops of both readers: a run of runes, refused the moment that it passes 64.
  unfoldable pub name_run :
      (ℕ → Bool) → (List ℕ → LexMsg) → Place → List ℕ → Place → List ℕ → Lexed (List ℕ × Cursor)
  name_run part too_long start [] p b = ok (b, cursor [] p)
  name_run part too_long start (c ∷ s) p b = elim (part c) [
    | true ↦ elim (ltb 64 (length b + 1)) [
      | true ↦ lex_error file (too_long (b ++ c ∷ [])) start
      | false ↦ name_run part too_long start s (next_place c p) (b ++ c ∷ [])
    ]
    | false ↦ ok (b, cursor (c ∷ s) p)
  ]

  unfoldable pub read_var_ref : Cursor → Lexed (Token × Cursor)
  unfolding name_run advance_over is_ident_start is_ident_part
  read_var_ref l =
      let l' = advance_over l.rest l.at in
      if not (starts_name l'.rest)
      then lex_error file expected_identifier l.at
      else (name_run is_ident_part name_too_long l.at l'.rest l'.at [] >>= λ r.
          ok (plain_token token_varref r.0 l.at, r.1))

  -- The token of a whole name.
  unfoldable pub name_token : Place → List ℕ → Cursor → Lexed (Token × Cursor)
  unfolding lookup_keyword
  name_token start name l = elim (lookup_keyword name) [
    | some t ↦ ok (plain_token t name start, l)
    | none ↦
        if last_is b'_' name
        then lex_error file (trailing_underscore name) start
        else ok (plain_token token_ident name start, l)
  ]

  unfoldable pub read_identifier_or_keyword : Cursor → Lexed (Token × Cursor)
  unfolding name_run name_token is_ident_part_loose
  read_identifier_or_keyword l =
      name_run is_ident_part_loose identifier_too_long l.at l.rest l.at [] >>= λ r.
      name_token l.at r.0 r.1
