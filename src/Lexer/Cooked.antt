-- ===== src/Lexer/Cooked.antt =====
-- Double-quoted strings of internal/lexer/lexer.go: `scanInterpSlot` and `readCookedString`. Both
-- loops take fuel, one for each round, and start with one more than the runes left.
use jennifer.Common.{
  Bool, List, [], false, if◌then◌else◌, leb, length, ltb, ok, suc, true, zero, ℕ, ◌++◌, ◌+◌, ◌==◌,
  ◌>>=◌, ◌||◌, ◌∷◌,
}
use jennifer.Lexer.Tokens.{
  Token, StringPart, text_part, expr_part, token_string, token_string_interp,
}
use jennifer.Lexer.Position.{
  Place, Cursor, cursor, Lexed, lex_error, next_place, plain_token, advance_over, max_tokens,
  max_nesting_depth, out_of_fuel, unterminated_string, unterminated_slot, slot_too_deep,
  too_many_slots, unexpected_brace,
}
use jennifer.Lexer.Strings.{read_raw_string, read_cooked_escape, copy_nested_string}

-- The parts with the pending literal chunk, if there is one.
abbrev pub flush : List ℕ → List StringPart → List StringPart
flush [] parts = parts
flush (c ∷ s) parts = parts ++ text_part (c ∷ s) ∷ []

abbrev pub is_quote : ℕ → Bool
is_quote c = c == b'"' || c == b'\''

module _ (file : List ℕ) where
  -- At depth `suc depth` of braces.
  unfoldable pub slot_text : ℕ → Place → List ℕ → Place → ℕ → List ℕ → Lexed (List ℕ × Cursor)
  unfolding copy_nested_string
  slot_text zero start s p depth b = lex_error file out_of_fuel start
  slot_text (suc n) start [] p depth b = lex_error file unterminated_slot start
  slot_text (suc n) start (c ∷ s) p depth b = elim (c == b'{') [
    | true ↦ elim (ltb max_nesting_depth (depth + 2)) [
      | true ↦ lex_error file slot_too_deep start
      | false ↦ slot_text n start s (next_place c p) (suc depth) (b ++ c ∷ [])
    ]
    | false ↦ elim (c == b'}') [
      | true ↦ elim depth [
        | zero ↦ ok (b, cursor s (next_place c p))
        | suc outer ↦ slot_text n start s (next_place c p) outer (b ++ c ∷ [])
      ]
      | false ↦ elim (is_quote c) [
        | true ↦ copy_nested_string file c (cursor (c ∷ s) p) b >>= λ r.
            slot_text n start r.1.rest r.1.at depth r.0
        | false ↦ elim (c == b'\\') [
          | true ↦ elim s [
            | [] ↦ slot_text n start [] (next_place c p) depth (b ++ c ∷ [])
            | d ∷ s' ↦ slot_text n start s' (next_place d (next_place c p)) depth (b ++ c ∷ d ∷ [])
          ]
          | false ↦ slot_text n start s (next_place c p) depth (b ++ c ∷ [])
        ]
      ]
    ]
  ]

  abbrev scan_interp_slot : Place → List ℕ → Place → Lexed (List ℕ × Cursor)
  scan_interp_slot start s p = slot_text (suc (length s)) start s p 0 []

  abbrev pub cooked_token : Place → List ℕ → List StringPart → Bool → Token
  cooked_token start lit parts false = plain_token token_string lit start
  cooked_token start lit parts true = record (plain_token token_string_interp [] start) {
    parts = flush lit parts;
  }

  -- The loop of `readCookedString`; `has_expr` tells whether a slot was read.
  unfoldable pub cooked_text :
      ℕ → Place → List ℕ → Place → List ℕ → List StringPart → Bool → Lexed (Token × Cursor)
  unfolding slot_text read_cooked_escape
  cooked_text zero start s p lit parts has_expr = lex_error file out_of_fuel start
  cooked_text (suc n) start [] p lit parts has_expr = lex_error file unterminated_string start
  cooked_text (suc n) start (c ∷ s) p lit parts has_expr = elim (c == b'"') [
    | true ↦ ok (cooked_token start lit parts has_expr, cursor s (next_place c p))
    | false ↦ elim (c == b'\\') [
      | true ↦ read_cooked_escape file start (cursor (c ∷ s) p) >>= λ r.
          cooked_text n start r.1.rest r.1.at (lit ++ r.0 ∷ []) parts has_expr
      | false ↦ elim (c == b'{') [
        | true ↦ elim (leb max_tokens (length parts)) [
          | true ↦ lex_error file too_many_slots start
          | false ↦
              let q = next_place c p in
              scan_interp_slot start s q >>= λ r.
              cooked_text n start r.1.rest r.1.at []
                (flush lit parts ++ expr_part r.0 q.line q.col ∷ []) true
        ]
        | false ↦ elim (c == b'}') [
          | true ↦ lex_error file unexpected_brace p
          | false ↦ cooked_text n start s (next_place c p) (lit ++ c ∷ []) parts has_expr
        ]
      ]
    ]
  ]

  unfoldable pub read_cooked_string : Place → Cursor → Lexed (Token × Cursor)
  unfolding cooked_text
  read_cooked_string start l = cooked_text (suc (length l.rest)) start l.rest l.at [] [] false

  unfoldable pub read_string : ℕ → Place → Cursor → Lexed (Token × Cursor)
  unfolding read_raw_string read_cooked_string advance_over
  read_string quote start l =
      let l' = advance_over l.rest l.at in
      if quote == b'\'' then read_raw_string file start l' else read_cooked_string start l'
