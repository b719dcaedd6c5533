-- ===== src/Parser/Lists.antt =====
-- Arguments, list literals, map literals and the fields of struct literals of
-- internal/parser/parser.go.
use jennifer.Common.{List, [], ◌∷◌, none, some, ℕ, zero, suc, Bool, true, false, text_eq, ◌||◌}
use jennifer.Lexer.Tokens.{token_comma, token_rparen, token_rbracket, token_rbrace, token_colon}
use jennifer.Parser.Syntax.{
  Node, Nodes, no_nodes, node, Pairs, no_pairs, pair, Fields, no_fields, field, list_lit, map_lit,
}
use jennifer.Parser.State.{
  P, ◌>>=◌, ◌>>◌, pure, raise, reject_at, pos_at, advance, check, match, expect, expect_field_name,
  allowing_struct_lit, field_twice, out_of_fuel,
}

abbrev pub is_seen : List ℕ → List (List ℕ) → Bool
is_seen name [] = false
is_seen name (x ∷ xs) = text_eq name x || is_seen name xs

module _ (expr : P Node) where
  -- One or more expressions between commas, with fuel for them.
  unfoldable pub args_from : ℕ → P Nodes
  args_from zero = raise out_of_fuel
  args_from (suc n) = do
    arg ← expr
    m ← match token_comma
    elim m [
      | none ↦ pure (node arg no_nodes)
      | some _ ↦ do rest ← args_from n; pure (node arg rest)
    ]

  unfoldable pub args_unless_closed : ℕ → P Nodes
  unfolding args_from
  args_unless_closed n = do
    b ← check token_rparen
    elim b [ true ↦ pure no_nodes | false ↦ args_from n ]

  unfoldable pub parse_paren_args : ℕ → P Nodes
  unfolding args_unless_closed
  parse_paren_args n = do
    advance
    allowing_struct_lit (do
      args ← args_unless_closed n
      expect token_rparen "to close call argument list"
      pure args)

  -- Expressions up to the closing bracket, a comma before it included.
  unfoldable pub elements : ℕ → P Nodes
  elements zero = raise out_of_fuel
  elements (suc n) = do
    b ← check token_rbracket
    elim b [
      | true ↦ pure no_nodes
      | false ↦ do
        e ← expr
        m ← match token_comma
        elim m [ none ↦ pure (node e no_nodes) | some _ ↦ do rest ← elements n; pure (node e rest) ]
    ]

  unfoldable pub parse_list_lit : ℕ → P Node
  unfolding elements
  parse_list_lit n = do
    bra ← advance
    allowing_struct_lit (do
      es ← elements n
      expect token_rbracket "to close list literal"
      pure (list_lit (pos_at bra) es))

  unfoldable pub entries : ℕ → P Pairs
  entries zero = raise out_of_fuel
  entries (suc n) = do
    b ← check token_rbrace
    elim b [
      | true ↦ pure no_pairs
      | false ↦ do
        key ← expr
        expect token_colon "between map key and value"
        val ← expr
        m ← match token_comma
        elim m [
          | none ↦ pure (pair key val no_pairs)
          | some _ ↦ do rest ← entries n; pure (pair key val rest)
        ]
    ]

  unfoldable pub parse_map_lit : ℕ → P Node
  unfolding entries
  parse_map_lit n = do
    brace ← advance
    allowing_struct_lit (do
      es ← entries n
      expect token_rbrace "to close map literal"
      pure (map_lit (pos_at brace) es))

  -- The fields up to the closing brace, given the names of those before.
  unfoldable pub fields_from : ℕ → List (List ℕ) → P Fields
  fields_from zero seen = raise out_of_fuel
  fields_from (suc n) seen = do
    b ← check token_rbrace
    elim b [
      | true ↦ pure no_fields
      | false ↦ do
        fname ← expect_field_name "for struct field name in literal"
        elim (is_seen fname.lexeme seen) [
          | true ↦ reject_at (field_twice fname) fname
          | false ↦ do
            expect token_colon "after struct field name"
            val ← expr
            m ← match token_comma
            elim m [
              | none ↦ pure (field fname.lexeme (pos_at fname) val no_fields)
              | some _ ↦ do
                rest ← fields_from n (fname.lexeme ∷ seen)
                pure (field fname.lexeme (pos_at fname) val rest)
            ]
        ]
    ]

  -- `parseStructLitTail`, for the fields: the callers put them under the name.
  unfoldable pub parse_struct_lit_tail : ℕ → P Fields
  unfolding fields_from
  parse_struct_lit_tail n = do
    advance
    allowing_struct_lit
        (do fs ← fields_from n []; expect token_rbrace "to close struct literal"; pure fs)
