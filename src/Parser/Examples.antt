-- ===== src/Parser/Examples.antt =====
-- The results about the parser of internal/parser/parser.go, at one input each.
use jennifer.Common.{List, [], ◌∷◌, none, ℕ, codes, ok, ◌≡◌, ◌<◌, ◌^◌, refl, pos, arith}
use jennifer.Ast.{Pos, op_add}
use jennifer.Lexer.Tokens.{
  Token, TokenType, token_varref, token_plus, token_int, token_eof, token_lbrace, token_rbrace,
  token_dot, token_ident,
}
use jennifer.Parser.Syntax.{Node, Block, block, no_stmts, var, int_lit, binary, field_access}
use jennifer.Parser.State.{◌>>◌, P, Parser, ◌>>=◌, pure, pos_at, expect}
use jennifer.Parser.Atoms.{Readers}
use jennifer.Parser.Expr.{parse_expression}
use jennifer.Parser.Chains.{at_depth, parse_expression-field_tree}
use jennifer.Parser.Ladder.{Next, range_level}
use jennifer.Parser.Grammar.{Derives}
use jennifer.Parser.Ends.Bounds.{weight, Ensures, Steps-pure, Steps-suc}
use jennifer.Parser.Ends.Advances.{Steps-expect}
use jennifer.Parser.Ends.Levels.{Total}
use jennifer.Parser.Ends.Expr.{Behind, parse_expression-Behind}
use jennifer.Parser.Sound.Reading.{Reads, From-expect, From-pure}
use jennifer.Parser.Sound.Expr.{parse_expression-Derives}

-- A reader of empty blocks.
unfoldable empty_braces : P Block
empty_braces = do
  t ← expect token_lbrace "to start block"
  expect token_rbrace "to close block"
  pure (block (pos_at t) no_stmts)

abbrev braces_reader : Readers
braces_reader = record { parse_float = λ s. none; parse_block = empty_braces }

abbrev IsEmptyBlock : List Token → List Token → Block → Type 0
IsEmptyBlock ts us b =
    (t : Token) × (vs : List Token) × (u : Token) × Next token_lbrace ts vs t
    × Next token_rbrace vs us u
    × (b ≡ block (pos_at t) no_stmts)

empty_braces-Total : (k : ℕ) → Total k empty_braces
unfolding empty_braces
empty_braces-Total k j i = Steps-suc j (λ q l.
    Steps-expect token_lbrace _ refl
      (λ t. Steps-suc q (λ p m. Steps-expect token_rbrace _ refl (λ u. Steps-pure _))))

empty_braces-Reads : Reads IsEmptyBlock empty_braces
unfolding empty_braces
empty_braces-Reads ts =
    From-expect _ token_lbrace _ refl
      (λ t us a. From-expect _ token_rbrace _ refl (λ u vs b. From-pure _ (t, us, u, a, b, refl)))

abbrev token : TokenType → List ℕ → ℕ → Token
token k text n = record {
  kind = k;
  lexeme = text;
  raw = [];
  parts = [];
  line = 1;
  col = n;
  file = [];
}

-- `$x + 1`
abbrev sum_tokens : List Token
sum_tokens =
    token token_varref (codes "x") 1
    ∷ token token_plus (codes "+") 4
    ∷ token token_int (codes "1") 6
    ∷ token token_eof [] 7
    ∷ []

abbrev at : ℕ → Pos
at n = record { file = []; line = 1; col = n }

abbrev sum_tree : Node
sum_tree = binary (at 1) op_add (var (at 1) (codes "x")) (int_lit (at 6) (pos 1))

sum_weight : weight (at_depth 0 sum_tokens) < 2 ^ 28
unfolding weight jennifer.Parser.Slots.max_source_bytes
sum_weight = omega arith

parse_sum :
    parse_expression braces_reader 5 (at_depth 0 sum_tokens)
    ≡ ok (sum_tree, at_depth 0 (token token_eof [] 7 ∷ []))
unfolding jennifer.Parser.State.pure jennifer.Parser.State.raise jennifer.Parser.State.peek
    jennifer.Parser.State.peek_next jennifer.Parser.State.advance jennifer.Parser.State.check
    jennifer.Parser.State.match jennifer.Parser.State.expect jennifer.Parser.State.get_depth
    jennifer.Parser.State.set_depth jennifer.Parser.State.undeepen jennifer.Parser.State.deepen
    jennifer.Parser.State.deepen_expr jennifer.Parser.State.get_seed jennifer.Parser.State.take_seed
    jennifer.Parser.Kinds.kind_code jennifer.Parser.Kinds.same_kind jennifer.Parser.Syntax.node_pos
    jennifer.Parser.Operators.operands jennifer.Parser.Operators.level jennifer.Parser.Atoms.atom_at
    jennifer.Parser.Atoms.parse_primary_atom jennifer.Parser.Atoms.suffix_at
    jennifer.Parser.Atoms.suffixes jennifer.Parser.Atoms.parse_primary
    jennifer.Parser.Expr.parse_unary_minus jennifer.Parser.Expr.parse_not
    jennifer.Parser.Expr.parse_range jennifer.Parser.Expr.parse_expr
    jennifer.Parser.Expr.parse_unary jennifer.Parser.Expr.parse_mul jennifer.Parser.Expr.parse_add
    jennifer.Parser.Expr.parse_shift jennifer.Parser.Expr.parse_bit_and
    jennifer.Parser.Expr.parse_bit_xor jennifer.Parser.Expr.parse_bit_or
    jennifer.Parser.Expr.parse_comparison jennifer.Parser.Expr.parse_negation
    jennifer.Parser.Expr.parse_and jennifer.Parser.Expr.or_body jennifer.Parser.Expr.parse_or
    jennifer.Parser.Expr.parse_expression jennifer.Parser.Numbers.parse_int
    jennifer.Parser.Numbers.parse_uint jennifer.Parser.Numbers.split_base
    jennifer.Parser.Numbers.digits_value jennifer.Parser.Numbers.digit_value
    jennifer.Parser.State.◌>>=◌
parse_sum = refl

parse_expression-Behind_example :
    Ensures
      (λ _ t. Behind (at_depth 0 sum_tokens) t)
      (parse_expression braces_reader (2 ^ 28) (at_depth 0 sum_tokens))
parse_expression-Behind_example =
    parse_expression-Behind braces_reader (2 ^ 28) (at_depth 0 sum_tokens) empty_braces-Total
      (refl, (refl, (refl, refl))) sum_weight

parse_expression-Derives_example :
    Derives (λ s. none) IsEmptyBlock range_level sum_tokens (token token_eof [] 7 ∷ []) sum_tree
parse_expression-Derives_example =
    parse_expression-Derives IsEmptyBlock braces_reader empty_braces-Reads 5 (at_depth 0 sum_tokens)
      (at_depth 0 (token token_eof [] 7 ∷ [])) sum_tree refl parse_sum

-- `$p.x.y`
parse_expression-field_tree_example :
    parse_expression braces_reader 4 (
      at_depth 0 (
        token token_varref (codes "p") 1
        ∷ token token_dot (codes ".") 3
        ∷ token token_ident (codes "x") 4
        ∷ token token_dot (codes ".") 5
        ∷ token token_ident (codes "y") 6
        ∷ token token_eof [] 7
        ∷ []))
    ≡ ok (
      field_access (at 5) (field_access (at 3) (var (at 1) (codes "p")) (codes "x")) (codes "y"),
      at_depth 0 (token token_eof [] 7 ∷ []),
    )
parse_expression-field_tree_example =
    parse_expression-field_tree braces_reader 3 (token token_varref (codes "p") 1)
      ((token token_dot (codes ".") 3, token token_ident (codes "x") 4)
        ∷ (token token_dot (codes ".") 5, token token_ident (codes "y") 6)
        ∷ [])
      (token token_eof [] 7) (omega arith)
