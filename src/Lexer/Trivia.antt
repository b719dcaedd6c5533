-- ===== src/Lexer/Trivia.antt =====
-- Blank lines and comments of internal/lexer/lexer.go: `nextTrivia` and what it calls.
use jennifer.Common.{
  Bool, List, Option, [], false, if◌then◌else◌, leb, ltb, none, ok, some, suc, true, zero, ℕ, ◌&&◌,
  ◌++◌, ◌+◌, ◌==◌, ◌>>=◌, ◌||◌, ◌∷◌,
}
use jennifer.Lexer.Tokens.{
  Token, token_blank_line, token_comment_line, token_comment_block, token_comment_shebang,
}
use jennifer.Lexer.Position.{
  Place, Cursor, cursor, Lexed, lex_error, next_place, peek, next_is, plain_token, advance_over,
  unterminated_comment, comment_too_deep, max_nesting_depth,
}

abbrev pub is_blank : ℕ → Bool
is_blank c = c == b' ' || c == b'\t' || c == b'\r'

-- The first loop of `nextTrivia`, with the count of newlines.
unfoldable pub skip_space : List ℕ → Place → ℕ → ℕ × Cursor
skip_space [] p newlines = (newlines, cursor [] p)
skip_space (c ∷ s) p newlines = elim (c == b'\n') [
  | true ↦ skip_space s (next_place c p) (newlines + 1)
  | false ↦ elim (is_blank c) [
    | true ↦ skip_space s (next_place c p) newlines
    | false ↦ (newlines, cursor (c ∷ s) p)
  ]
]

-- The loop of `readLineComment`.
unfoldable pub line_text : List ℕ → Place → List ℕ → List ℕ × Cursor
line_text [] p b = (b, cursor [] p)
line_text (c ∷ s) p b = elim (c == b'\n') [
  | true ↦ (b, cursor (c ∷ s) p)
  | false ↦ line_text s (next_place c p) (b ++ c ∷ [])
]

abbrev pub is_shebang : Cursor → Bool
is_shebang l = l.at.line == 1 && l.at.col == 1 && next_is b'!' (peek l 1)

unfoldable pub read_line_comment : Cursor → Token × Cursor
unfolding line_text
read_line_comment l =
    let (text, l') = line_text l.rest l.at [] in
    (plain_token (if is_shebang l then token_comment_shebang else token_comment_line) text l.at, l')

abbrev pub is_pair : ℕ → ℕ → ℕ → ℕ → Bool
is_pair a b c d = c == a && d == b

module _ (file : List ℕ) where
  -- The loop of `readBlockComment` at depth `suc depth`; `start` is the outermost `/*`.
  unfoldable pub block_text : Place → List ℕ → Place → ℕ → List ℕ → Lexed (List ℕ × Cursor)
  block_text start [] p depth b = lex_error file unterminated_comment start
  block_text start (c ∷ []) p depth b = lex_error file unterminated_comment start
  block_text start (c ∷ d ∷ s) p depth b = elim (is_pair b'/' b'*' c d) [
    | true ↦ elim (ltb max_nesting_depth (depth + 2)) [
      | true ↦ lex_error file comment_too_deep start
      | false ↦ block_text start s (next_place d (next_place c p)) (suc depth) (b ++ c ∷ d ∷ [])
    ]
    | false ↦ elim (is_pair b'*' b'/' c d) [
      | true ↦ elim depth [
        | zero ↦ ok (b ++ c ∷ d ∷ [], cursor s (next_place d (next_place c p)))
        | suc outer ↦ block_text start s (next_place d (next_place c p)) outer (b ++ c ∷ d ∷ [])
      ]
      | false ↦ block_text start (d ∷ s) (next_place c p) depth (b ++ c ∷ [])
    ]
  ]

  unfoldable pub read_block_comment : Cursor → Lexed (Token × Cursor)
  unfolding block_text advance_over
  read_block_comment l =
      let l1 = advance_over l.rest l.at in
      let l2 = advance_over l1.rest l1.at in
      block_text l.at l2.rest l2.at 0 (b'/' ∷ b'*' ∷ []) >>= λ r.
      ok (plain_token token_comment_block r.0 l.at, r.1)

  -- A trivia token, or none where a token or the end of the source comes next.
  unfoldable pub next_trivia : Cursor → Lexed (Option Token × Cursor)
  unfolding skip_space read_line_comment read_block_comment
  next_trivia l =
      let (newlines, l') = skip_space l.rest l.at 0 in
      if leb 2 newlines
      then ok (some (plain_token token_blank_line [] l.at), l')
      else if next_is b'#' (peek l' 0)
      then (let (tok, l'') = read_line_comment l' in ok (some tok, l''))
      else if next_is b'/' (peek l' 0) && next_is b'*' (peek l' 1)
      then (read_block_comment l' >>= λ r. ok (some (r.0), r.1))
      else ok (none, l')
