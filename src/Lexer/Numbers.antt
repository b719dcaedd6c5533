-- ===== src/Lexer/Numbers.antt =====
-- Number literals of internal/lexer/lexer.go.
use jennifer.Common.{
  Bool, List, Option, [], codes, false, if◌then◌else◌, length, none, not, ok, some, true, ℕ, ◌&&◌,
  ◌++◌, ◌==◌, ◌>>=◌, ◌||◌, ◌∷◌,
}
use jennifer.Lexer.Tokens.{Token, token_int, token_float}
use jennifer.Lexer.Chars.{is_ascii_digit, is_hex_digit, is_oct_digit, is_bin_digit}
use jennifer.Lexer.Position.{
  Place, Cursor, cursor, Lexed, lex_error, next_place, plain_token, advance_over, peek, next_is,
  expected_based_digit, separator_starts, separator_ends, consecutive_separators, missing_exponent,
}

abbrev take_one : List ℕ → List ℕ
take_one [] = []
take_one (c ∷ s) = c ∷ []

abbrev pub starts_digit : (ℕ → Bool) → List ℕ → Bool
starts_digit is_digit [] = false
starts_digit is_digit (c ∷ s) = is_digit c

-- The digits of an exponent.
unfoldable pub digit_run : List ℕ → Place → List ℕ → List ℕ × Cursor
unfolding is_ascii_digit
digit_run [] p b = (b, cursor [] p)
digit_run (c ∷ s) p b = elim (is_ascii_digit c) [
  | true ↦ digit_run s (next_place c p) (b ++ c ∷ [])
  | false ↦ (b, cursor (c ∷ s) p)
]

-- The sign of an exponent, if there is one.
abbrev pub sign_text : List ℕ → List ℕ
sign_text [] = []
sign_text (c ∷ s) = if c == b'+' || c == b'-' then c ∷ [] else []

abbrev pub skip_sign : Cursor → Cursor
skip_sign l =
    if next_is b'+' (peek l 0) || next_is b'-' (peek l 0) then advance_over l.rest l.at else l

abbrev part_text : Option (List ℕ) → List ℕ
part_text none = []
part_text (some s) = s

abbrev pub number_token : Place → List ℕ → Option (List ℕ) → Option (List ℕ) → Token
number_token start digits none none = plain_token token_int digits start
number_token start digits f e = plain_token token_float (digits ++ part_text f ++ part_text e) start

abbrev pub prefix_is : ℕ → ℕ → Cursor → Bool
prefix_is lower upper l =
    next_is b'0' (peek l 0) && (next_is lower (peek l 1) || next_is upper (peek l 1))

module _ (file : List ℕ) where
  -- The loop of `readSeparatedDigits`, and its last test; `base` stands for the name of the kind.
  unfoldable pub separated_digits :
      Place → (ℕ → Bool) → ℕ → List ℕ → Place → List ℕ → Bool → Lexed (List ℕ × Cursor)
  separated_digits start is_digit base [] p b prev =
      if prev then lex_error file (separator_ends base) start else ok (b, cursor [] p)
  separated_digits start is_digit base (c ∷ s) p b prev = elim (is_digit c) [
    | true ↦ separated_digits start is_digit base s (next_place c p) (b ++ c ∷ []) false
    | false ↦ elim (c == b'_') [
      | true ↦ elim (length b == 0) [
        | true ↦ lex_error file (separator_starts base) start
        | false ↦ elim prev [
          | true ↦ lex_error file consecutive_separators start
          | false ↦ separated_digits start is_digit base s (next_place c p) b true
        ]
      ]
      | false ↦
          if prev then lex_error file (separator_ends base) start else ok (b, cursor (c ∷ s) p)
    ]
  ]

  unfoldable pub read_separated_digits : Place → (ℕ → Bool) → ℕ → Cursor → Lexed (List ℕ × Cursor)
  unfolding separated_digits
  read_separated_digits start is_digit base l =
      separated_digits start is_digit base l.rest l.at [] false

  unfoldable pub read_based_int : ℕ → List ℕ → (ℕ → Bool) → Cursor → Lexed (Token × Cursor)
  unfolding read_separated_digits advance_over
  read_based_int base prefix is_digit l =
      let l1 = advance_over l.rest l.at in
      let l2 = advance_over l1.rest l1.at in
      if not (starts_digit is_digit l2.rest)
      then lex_error file (expected_based_digit base) l.at
      else (read_separated_digits l.at is_digit base l2 >>= λ r.
          ok (plain_token token_int (prefix ++ r.0) l.at, r.1))

  -- The text and the cursor behind `[eE][+-]?digits`, where an `e` or `E` comes next.
  unfoldable pub read_exponent : Place → Cursor → Lexed (Option (List ℕ) × Cursor)
  unfolding digit_run advance_over
  read_exponent start l =
      let l1 = advance_over l.rest l.at in
      let l2 = skip_sign l1 in
      if not (next_is b'e' (peek l 0) || next_is b'E' (peek l 0))
      then ok (none, l)
      else if not (starts_digit is_ascii_digit l2.rest)
      then lex_error file missing_exponent start
      else (let (digits, l') = digit_run l2.rest l2.at [] in
          ok (some (take_one l.rest ++ sign_text l1.rest ++ digits), l'))

  -- The fraction behind a dot, where a digit follows it.
  unfoldable pub read_fraction : Place → Cursor → Lexed (Option (List ℕ) × Cursor)
  unfolding read_separated_digits advance_over
  read_fraction start l =
      let l1 = advance_over l.rest l.at in
      if next_is b'.' (peek l 0) && starts_digit is_ascii_digit l1.rest
      then (read_separated_digits start is_ascii_digit 10 l1 >>= λ r. ok (some (b'.' ∷ r.0), r.1))
      else ok (none, l)

  unfoldable pub read_decimal : Cursor → Lexed (Token × Cursor)
  unfolding read_separated_digits read_fraction read_exponent is_ascii_digit
  read_decimal l = read_separated_digits l.at is_ascii_digit 10 l >>= λ d.
      read_fraction l.at d.1 >>= λ f.
      read_exponent l.at f.1 >>= λ e. ok (number_token l.at d.0 f.0 e.0, e.1)

  unfoldable pub read_number : Cursor → Lexed (Token × Cursor)
  unfolding read_based_int read_decimal is_hex_digit is_oct_digit is_bin_digit
  read_number l =
      if prefix_is b'x' b'X' l
      then read_based_int 16 (codes "0x") is_hex_digit l
      else if prefix_is b'o' b'O' l
      then read_based_int 8 (codes "0o") is_oct_digit l
      else if prefix_is b'b' b'B' l
      then read_based_int 2 (codes "0b") is_bin_digit l
      else read_decimal l
