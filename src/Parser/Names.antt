-- ===== src/Parser/Names.antt =====
-- What a name starts in internal/parser/parser.go: calls, struct literals, references and what a
-- prefix qualifies.
use jennifer.Common.{String, [], ℕ, Bool, true, false, not, ◌&&◌, if◌then◌else◌}
use jennifer.Lexer.Tokens.{Token, token_ident, token_dot, token_lbrace, token_lparen, token_rparen}
use jennifer.Parser.Kinds.{same_kind, is_post_dot_name, contains_underscore, is_valid_const_name}
use jennifer.Parser.Syntax.{
  no_fields, Node, call, struct_lit, const_ref, qualified_call, qualified_const_ref, field_access,
}
use jennifer.Parser.State.{
  P, ◌>>=◌, ◌>>◌, pure, reject_at, pos_at, peek, advance, check, expect, get_no_struct_lit,
  allowing_struct_lit, underscore_in_function,
}
use jennifer.Parser.Lists.{args_unless_closed, parse_paren_args, parse_struct_lit_tail}

-- Whether `{` is next, where it may start a struct literal.
unfoldable pub struct_lit_next : P Bool
struct_lit_next = do
  b ← get_no_struct_lit
  elim b [ true ↦ pure false | false ↦ check token_lbrace ]

-- The name behind a dot.
unfoldable pub name_after_dot : String → P Token
name_after_dot ctx = do
  t ← peek
  elim (is_post_dot_name t) [ true ↦ do advance; pure t | false ↦ expect token_ident ctx ]

abbrev pub qualified_name : Token → Token → Node
qualified_name prefix name =
    if not (is_valid_const_name name.lexeme) && is_valid_const_name prefix.lexeme
    then field_access (pos_at prefix) (const_ref (pos_at prefix) prefix.lexeme) name.lexeme
    else qualified_const_ref (pos_at prefix) prefix.lexeme name.lexeme

module _ (expr : P Node) (n : ℕ) where
  unfoldable pub parse_call_tail : Token → P Node
  parse_call_tail callee =
      elim (same_kind callee.kind token_ident && contains_underscore callee.lexeme) [
        | true ↦ reject_at (underscore_in_function callee) callee
        | false ↦ do args ← parse_paren_args expr n; pure (call (pos_at callee) callee.lexeme args)
      ]

  -- `prefix.name.Variant`, with its fields or bare.
  unfoldable pub parse_enum_variant : Token → Token → P Node
  unfolding name_after_dot struct_lit_next
  parse_enum_variant prefix name = do
    advance
    variant ← name_after_dot "for enum variant after `.`"
    b ← struct_lit_next
    elim b [
      | true ↦ do
        fs ← parse_struct_lit_tail expr n
        pure (struct_lit (pos_at prefix) prefix.lexeme name.lexeme variant.lexeme false fs)
      | false ↦
          pure (struct_lit (pos_at prefix) prefix.lexeme name.lexeme variant.lexeme true no_fields)
    ]

  unfoldable pub parse_qualified_call : Token → Token → P Node
  parse_qualified_call prefix name = elim (contains_underscore name.lexeme) [
    | true ↦ reject_at (underscore_in_function name) name
    | false ↦ do
      advance
      allowing_struct_lit (do
        args ← args_unless_closed expr n
        expect token_rparen "to close qualified call argument list"
        pure (qualified_call (pos_at prefix) prefix.lexeme name.lexeme args))
  ]

  -- Neither an enum variant: a call, a struct literal, or a reference.
  unfoldable pub parse_qualified_rest : Token → Token → P Node
  unfolding parse_qualified_call struct_lit_next
  parse_qualified_rest prefix name = do
    p ← check token_lparen
    elim p [
      | true ↦ parse_qualified_call prefix name
      | false ↦ do
        b ← struct_lit_next
        elim b [
          | true ↦ do
            fs ← parse_struct_lit_tail expr n
            pure (struct_lit (pos_at prefix) prefix.lexeme [] name.lexeme false fs)
          | false ↦ pure (qualified_name prefix name)
        ]
    ]

  unfoldable pub parse_qualified_tail : Token → P Node
  unfolding name_after_dot parse_enum_variant parse_qualified_rest
  parse_qualified_tail prefix = do
    advance
    name ← name_after_dot "after `.` in qualified call"
    d ← check token_dot
    elim (d && (not (is_valid_const_name prefix.lexeme) && not (is_valid_const_name name.lexeme))) [
      | true ↦ parse_enum_variant prefix name
      | false ↦ parse_qualified_rest prefix name
    ]

  -- A name in expression position: what follows decides.
  unfoldable pub parse_name : Token → P Node
  unfolding parse_qualified_tail parse_call_tail struct_lit_next
  parse_name t = do
    d ← check token_dot
    elim d [
      | true ↦ parse_qualified_tail t
      | false ↦ do
        b ← struct_lit_next
        elim b [
          | true ↦ do
            fs ← parse_struct_lit_tail expr n
            pure (struct_lit (pos_at t) [] [] t.lexeme false fs)
          | false ↦ do
            p ← check token_lparen
            elim p [ false ↦ pure (const_ref (pos_at t) t.lexeme) | true ↦ parse_call_tail t ]
        ]
    ]
