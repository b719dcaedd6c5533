-- ===== src/Lexer/Examples.antt =====
-- Each property of literals on one input.
use jennifer.Common.{◌+◌, true, ◌<◌, ◌⊎◌, ℕ, [], ◌∷◌, ◌++◌, ◌≡◌, ok, refl, codes, ◌≤◌}
use jennifer.Lexer.Position.{Place, cursor, plain_token}
use jennifer.Lexer.Tokens.{token_string, token_int, token_comment_block}
use jennifer.Lexer.Moves.{place_after, Fine}
use jennifer.Lexer.Trivia.{read_block_comment}
use jennifer.Lexer.Strings.{read_unicode_escape}
use jennifer.Lexer.Cooked.{read_string}
use jennifer.Lexer.Numbers.{read_number}
use jennifer.Lexer.Chars.{is_ascii_digit}
use jennifer.Lexer.Stream.{Lexes, tokenize_at-Lexes}
use jennifer.Lexer.{with_raw, tokenize_at, strip_bom}
use jennifer.Lexer.Columns.{place_after-closed}
use jennifer.Lexer.Tokens.{token_ident, lookup_keyword}
use jennifer.Lexer.Names.{read_identifier_or_keyword}
use jennifer.Common.{length}
use jennifer.Lexer.Literals.{
  read_identifier_or_keyword-text, word_kind, read_string-raw, read_unicode_escape-scalar,
  read_block_comment-text,
}
use jennifer.Lexer.Spelling.{read_number-spelling, read_string-spelling}

abbrev at : ℕ → Place
at n = record { line = 1; col = n }

-- `a\b` between single quotes, and a semicolon.
read_string-raw_example :
    read_string [] b'\'' (at 1) (cursor (b'\'' ∷ codes "a\\b" ++ b'\'' ∷ codes ";") (at 1))
    ≡ ok (
      plain_token token_string (codes "a\\b") (at 1),
      cursor (codes ";") (place_after (b'\'' ∷ codes "a\\b" ++ b'\'' ∷ []) (at 1)),
    )
read_string-raw_example =
    read_string-raw [] (at 1) (at 1) (codes "a\\b") (codes ";") (refl, (refl, (refl, tt)))

read_e_acute :
    read_unicode_escape [] b'u' 4 (cursor (codes "u00e9!") (at 1))
    ≡ ok (0xe9, cursor (codes "!") (at 6))
unfolding read_unicode_escape
read_e_acute = refl

read_unicode_escape-scalar_example : (0xe9 ≤ 0x10FFFF) × ((0xe9 < 0xD800) ⊎ (0xDFFF < 0xe9))
read_unicode_escape-scalar_example =
    read_unicode_escape-scalar [] b'u' 4 (cursor (codes "u00e9!") (at 1))
      (0xe9, cursor (codes "!") (at 6)) read_e_acute

read_name :
    read_identifier_or_keyword [] (cursor (codes "ab_1;") (at 1))
    ≡ ok (plain_token token_ident (codes "ab_1") (at 1), cursor (codes ";") (at 5))
unfolding read_identifier_or_keyword jennifer.Lexer.Position.next_place
read_name = refl

read_identifier_or_keyword-text_example :
    (length (codes "ab_1") ≤ 64)
    × (codes "ab_1" ++ codes ";" ≡ codes "ab_1;")
    × (token_ident ≡ word_kind (lookup_keyword (codes "ab_1")))
read_identifier_or_keyword-text_example =
    read_identifier_or_keyword-text [] (cursor (codes "ab_1;") (at 1))
      (plain_token token_ident (codes "ab_1") (at 1)) (cursor (codes ";") (at 5)) read_name

read_comment :
    read_block_comment [] (cursor (codes "/* /* */ */;") (at 1))
    ≡ ok (plain_token token_comment_block (codes "/* /* */ */") (at 1), cursor (codes ";") (at 12))
unfolding read_block_comment
read_comment = refl

read_block_comment-text_example : codes "/* /* */ */" ++ codes ";" ≡ codes "/* /* */ */;"
read_block_comment-text_example =
    read_block_comment-text [] (codes " /* */ */;") (at 1)
      (plain_token token_comment_block (codes "/* /* */ */") (at 1)) (cursor (codes ";") (at 12))
      read_comment

read_hex :
    with_raw (cursor (codes "0x1_f+") (at 1)) (read_number [] (cursor (codes "0x1_f+") (at 1)))
    ≡ ok (
      record (plain_token token_int (codes "0x1f") (at 1)) { raw = codes "0x1_f" },
      cursor (codes "+") (at 6),
    )
unfolding read_number
read_hex = refl

zero_is_digit : is_ascii_digit b'0' ≡ true
unfolding is_ascii_digit
zero_is_digit = refl

read_number-spelling_example : codes "0x1_f" ++ codes "+" ≡ codes "0x1_f+"
read_number-spelling_example =
    read_number-spelling [] b'0' (codes "x1_f+") (at 1)
      (record (plain_token token_int (codes "0x1f") (at 1)) { raw = codes "0x1_f" })
      (cursor (codes "+") (at 6)) zero_is_digit read_hex

read_quoted :
    with_raw
      (cursor (codes "\"a\\n\";") (at 1))
      (read_string [] b'"' (at 1) (cursor (codes "\"a\\n\";") (at 1)))
    ≡ ok (
      record (plain_token token_string (codes "a\n") (at 1)) { raw = codes "\"a\\n\"" },
      cursor (codes ";") (at 6),
    )
unfolding read_string
read_quoted = refl

read_string-spelling_example : codes "\"a\\n\"" ++ codes ";" ≡ codes "\"a\\n\";"
read_string-spelling_example =
    read_string-spelling [] b'"' (codes "a\\n\";") (at 1)
      (record (plain_token token_string (codes "a\n") (at 1)) { raw = codes "\"a\\n\"" })
      (cursor (codes ";") (at 6)) read_quoted

tokenize_at-Lexes_example :
    Fine
      (Lexes (strip_bom (codes "def $x = \"a{1}\"; # b")) (at 1))
      (tokenize_at (codes "def $x = \"a{1}\"; # b") [] (at 1))
tokenize_at-Lexes_example = tokenize_at-Lexes (codes "def $x = \"a{1}\"; # b") [] (at 1)

place_after-closed_example :
    ((place_after (codes "ab\ncd") (at 5)).line ≡ 1 + 1)
    × ((place_after (codes "ab\ncd") (at 5)).col ≡ 1 + 2)
place_after-closed_example = place_after-closed (codes "ab\ncd") (at 5)
