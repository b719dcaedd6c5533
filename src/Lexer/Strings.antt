-- ===== src/Lexer/Strings.antt =====
-- String literals of internal/lexer/lexer.go: raw, cooked, escapes and interpolation slots.
use jennifer.Common.{
  Bool, List, Option, [], false, if◌then◌else◌, leb, ltb, none, not, ok, some, suc, true, zero, ℕ,
  ◌&&◌, ◌*◌, ◌++◌, ◌+◌, ◌==◌, ◌>>=◌, ◌∷◌,
}
use jennifer.Lexer.Tokens.{Token, token_string}
use jennifer.Lexer.Chars.{is_hex_digit, hex_digit_value}
use jennifer.Lexer.Position.{
  Place, Cursor, cursor, Lexed, lex_error, next_place, plain_token, advance_over,
  unterminated_string, unterminated_slot_string, unterminated_escape, unknown_escape,
  escape_needs_digits, invalid_code_point,
}

-- The code points that are no surrogates.
abbrev pub is_scalar : ℕ → Bool
is_scalar v = not (ltb 0x10FFFF v) && not (leb 0xD800 v && leb v 0xDFFF)

-- The escapes of one letter.
abbrev pub simple_escape : ℕ → Option ℕ
simple_escape c =
    if c == b'n'
    then some b'\n'
    else if c == b'r'
    then some b'\r'
    else if c == b't'
    then some b'\t'
    else if c == b'\\'
    then some b'\\'
    else if c == b'"'
    then some b'"'
    else if c == b'\''
    then some b'\''
    else if c == b'{'
    then some b'{'
    else if c == b'}'
    then some b'}'
    else if c == b'0'
    then some 0
    else none

module _ (file : List ℕ) where
  -- The loop of `readRawString`.
  unfoldable pub raw_text : Place → List ℕ → Place → List ℕ → Lexed (List ℕ × Cursor)
  raw_text start [] p b = lex_error file unterminated_string start
  raw_text start (c ∷ s) p b = elim (c == b'\'') [
    | true ↦ ok (b, cursor s (next_place c p))
    | false ↦ raw_text start s (next_place c p) (b ++ c ∷ [])
  ]

  unfoldable pub read_raw_string : Place → Cursor → Lexed (Token × Cursor)
  unfolding raw_text
  read_raw_string start l =
      raw_text start l.rest l.at [] >>= λ r. ok (plain_token token_string r.0 start, r.1)

  -- The loop of `readUnicodeEscape`: `n` digits are left of `width`.
  unfoldable pub hex_digits : ℕ → ℕ → Place → ℕ → List ℕ → Place → ℕ → Lexed (ℕ × Cursor)
  unfolding is_hex_digit hex_digit_value
  hex_digits letter width esc zero s p v = ok (v, cursor s p)
  hex_digits letter width esc (suc n) [] p v = lex_error file (escape_needs_digits letter width) esc
  hex_digits letter width esc (suc n) (c ∷ s) p v = elim (is_hex_digit c) [
    | true ↦ hex_digits letter width esc n s (next_place c p) (v * 16 + hex_digit_value c)
    | false ↦ lex_error file (escape_needs_digits letter width) esc
  ]

  -- `letter` is the rune at the cursor, the escape letter.
  unfoldable pub read_unicode_escape : ℕ → ℕ → Cursor → Lexed (ℕ × Cursor)
  unfolding hex_digits advance_over
  read_unicode_escape letter width l =
      let l' = advance_over l.rest l.at in
      hex_digits letter width l.at width l'.rest l'.at 0 >>= λ r.
      if is_scalar r.0 then ok r else lex_error file (invalid_code_point letter r.0) l.at

  -- What follows the backslash.
  unfoldable pub escape_letter : Place → List ℕ → Place → Lexed (ℕ × Cursor)
  unfolding read_unicode_escape
  escape_letter start [] p = lex_error file unterminated_escape start
  escape_letter start (c ∷ s) p = elim (simple_escape c) [
    | some r ↦ ok (r, cursor s (next_place c p))
    | none ↦
        if c == b'u'
        then read_unicode_escape c 4 (cursor (c ∷ s) p)
        else if c == b'U'
        then read_unicode_escape c 8 (cursor (c ∷ s) p)
        else lex_error file (unknown_escape c) p
  ]

  unfoldable pub read_cooked_escape : Place → Cursor → Lexed (ℕ × Cursor)
  unfolding escape_letter advance_over
  read_cooked_escape start l =
      let l' = advance_over l.rest l.at in escape_letter start l'.rest l'.at

  -- The loop of `copyNestedString`: escapes are copied, and end a cooked string no more than the
  -- runes inside a raw one.
  unfoldable pub nested_text : Bool → ℕ → Place → List ℕ → Place → List ℕ → Lexed (List ℕ × Cursor)
  nested_text raw quote start [] p b = lex_error file unterminated_slot_string start
  nested_text raw quote start (c ∷ []) p b =
      if not raw && c == b'\\'
      then lex_error file unterminated_escape start
      else if c == quote
      then ok (b ++ c ∷ [], cursor [] (next_place c p))
      else lex_error file unterminated_slot_string start
  nested_text raw quote start (c ∷ d ∷ s) p b = elim (not raw && c == b'\\') [
    | true ↦ nested_text raw quote start s (next_place d (next_place c p)) (b ++ c ∷ d ∷ [])
    | false ↦ elim (c == quote) [
      | true ↦ ok (b ++ c ∷ [], cursor (d ∷ s) (next_place c p))
      | false ↦ nested_text raw quote start (d ∷ s) (next_place c p) (b ++ c ∷ [])
    ]
  ]

  -- The text of the nested string is appended to `b`.
  unfoldable pub copy_nested_string : ℕ → Cursor → List ℕ → Lexed (List ℕ × Cursor)
  unfolding nested_text advance_over
  copy_nested_string quote l b =
      let l' = advance_over l.rest l.at in
      nested_text (quote == b'\'') quote l.at l'.rest l'.at (b ++ quote ∷ [])
