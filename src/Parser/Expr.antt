-- ===== src/Parser/Expr.antt =====
-- The expressions of internal/parser/parser.go, from `parseExpr` down to `parseUnaryMinus`.
use jennifer.Common.{Option, none, some, ℕ, zero, suc, ◌^◌, ◌==◌, Bool, true, false, negsuc, ◌-◌}
use jennifer.Ast.{op_neg, op_not, op_bit_not}
use jennifer.Lexer.Tokens.{
  Token, TokenType, token_not, token_minus, token_bit_not, token_int, token_dotdot,
}
use jennifer.Parser.Syntax.{Node, unary, range, int_lit, node_pos}
use jennifer.Parser.Numbers.{parse_uint}
use jennifer.Parser.State.{
  P, ◌>>=◌, ◌>>◌, pure, raise, reject_at, pos_at, peek, advance, check, match, deepen_expr,
  undeepen, get_seed, range_chained, out_of_fuel,
}
use jennifer.Parser.Operators.{
  level, or_op, and_op, comparison_op, bit_or_op, bit_xor_op, bit_and_op, shift_op, add_op, mul_op,
}
use jennifer.Parser.Atoms.{Readers, parse_primary}

-- The least int64, written as a sign before its magnitude, 2 ^ 63, which is no int64.
unfoldable pub is_most_negative : Option ℕ → Bool
is_most_negative none = false
is_most_negative (some u) = u == 2 ^ 63

-- The int behind a minus sign, if it is that one.
unfoldable pub fold_most_negative_int : P (Option Node)
unfolding is_most_negative
fold_most_negative_int = do
  t ← peek
  elim (is_most_negative (parse_uint t.lexeme)) [
    | true ↦ do advance; pure (some (int_lit (pos_at t) (negsuc (2 ^ 63 - 1))))
    | false ↦ pure none
  ]

abbrev pub if_int : TokenType → P (Option Node) → P (Option Node)
if_int token_int m = m
if_int _ m = pure none

-- A prefix operator, which counts as a level of nesting, and its operand.
unfoldable pub prefixed : jennifer.Ast.UnaryOp → Token → P Node → P Node
prefixed op t operand = do deepen_expr; e ← operand; undeepen; pure (unary (pos_at t) op e)

-- `parseUnaryMinus`, with fuel for the operators in front of each other.
unfoldable pub parse_unary_minus : ℕ → P Node → P Node
unfolding fold_most_negative_int prefixed
parse_unary_minus zero primary = raise out_of_fuel
parse_unary_minus (suc k) primary = do
  seed ← get_seed
  elim seed [
    | some _ ↦ primary
    | none ↦ do
      m ← match token_minus
      elim m [
        | some t ↦ do
          u ← peek
          folded ← if_int u.kind fold_most_negative_int
          elim folded [ some e ↦ pure e | none ↦ prefixed op_neg t (parse_unary_minus k primary) ]
        | none ↦ do
          b ← match token_bit_not
          elim b [ some t ↦ prefixed op_bit_not t (parse_unary_minus k primary) | none ↦ primary ]
      ]
  ]

unfoldable pub parse_not : ℕ → P Node → P Node
unfolding prefixed
parse_not zero comparison = raise out_of_fuel
parse_not (suc k) comparison = do
  seed ← get_seed
  elim seed [
    | some _ ↦ comparison
    | none ↦ do
      m ← match token_not
      elim m [ some t ↦ prefixed op_not t (parse_not k comparison) | none ↦ comparison ]
  ]

-- `parseRange`, over `parseOr`.
unfoldable pub parse_range : P Node → P Node
parse_range parse_or = do
  lo ← parse_or
  d ← check token_dotdot
  elim d [
    | false ↦ pure lo
    | true ↦ do
      advance
      hi ← parse_or
      t ← peek
      again ← check token_dotdot
      elim again [ true ↦ reject_at range_chained t | false ↦ pure (range (node_pos lo) lo hi) ]
  ]

unfoldable pub parse_expr : P Node → P Node
unfolding parse_range
parse_expr parse_or = do deepen_expr; e ← parse_range parse_or; undeepen; pure e

module _ (r : Readers) (n : ℕ) (inner : P Node) where
  unfoldable pub parse_unary : P Node
  unfolding parse_unary_minus
  parse_unary = parse_unary_minus n (parse_primary r inner (parse_expr inner) n)

  unfoldable pub parse_mul : P Node
  parse_mul = level mul_op n parse_unary

  unfoldable pub parse_add : P Node
  parse_add = level add_op n parse_mul

  unfoldable pub parse_shift : P Node
  parse_shift = level shift_op n parse_add

  unfoldable pub parse_bit_and : P Node
  parse_bit_and = level bit_and_op n parse_shift

  unfoldable pub parse_bit_xor : P Node
  parse_bit_xor = level bit_xor_op n parse_bit_and

  unfoldable pub parse_bit_or : P Node
  parse_bit_or = level bit_or_op n parse_bit_xor

  unfoldable pub parse_comparison : P Node
  parse_comparison = level comparison_op n parse_bit_or

  unfoldable pub parse_negation : P Node
  parse_negation = parse_not n parse_comparison

  unfoldable pub parse_and : P Node
  parse_and = level and_op n parse_negation

  unfoldable pub or_body : P Node
  or_body = level or_op n parse_and

-- `parseOr` with fuel for its nesting, which serves its loops as well.
unfoldable pub parse_or : Readers → ℕ → P Node
parse_or r zero = raise out_of_fuel
parse_or r (suc n) = or_body r n (parse_or r n)

unfoldable pub parse_expression : Readers → ℕ → P Node
parse_expression r n = parse_expr (parse_or r n)
