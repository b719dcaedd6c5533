-- ===== src/Lexer/Tests.antt =====
-- Runs of the lexer on small sources.
use jennifer.Common.{List, [], codes, err, map, ok, refl, ℕ, ◌∷◌, ◌≡◌}
use jennifer.Lexer.{Lexed, tokenize_with_file}
use jennifer.Lexer.Tokens.{
  Token, TokenType, token_define, token_varref, token_assign, token_int, token_plus, token_float,
  token_semi, token_comment_line, token_eof, token_string_interp, token_string, token_blank_line,
  token_comment_block,
}

abbrev kinds : Lexed (List Token) → List TokenType
kinds (ok ts) = map (λ t. t.kind) ts
kinds (err e) = []

abbrev raws : Lexed (List Token) → List (List ℕ)
raws (ok ts) = map (λ t. t.raw) ts
raws (err e) = []

statement :
    kinds (tokenize_with_file (codes "def $x = 0x1f + 1_000.5e-3; # note") [])
    ≡ token_define ∷ token_varref ∷ token_assign ∷ token_int ∷ token_plus ∷ token_float ∷ token_semi
      ∷ token_comment_line ∷ token_eof ∷ []
unfolding tokenize_with_file
statement = refl

strings :
    kinds (tokenize_with_file (codes "'a\\b' \"x{ {1: '}'} }y\\u0041\"\n\n\n/* a /* b */ c */") [])
    ≡ token_string ∷ token_string_interp ∷ token_blank_line ∷ token_comment_block ∷ token_eof ∷ []
unfolding tokenize_with_file
strings = refl

spellings : raws (tokenize_with_file (codes "1_0e1 'q'") []) ≡ codes "1_0e1" ∷ codes "'q'" ∷ [] ∷ []
unfolding tokenize_with_file
spellings = refl
