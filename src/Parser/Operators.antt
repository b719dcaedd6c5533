-- ===== src/Parser/Operators.antt =====
-- The binary operators of internal/parser/parser.go, level by level, and the loop that the levels
-- share.
use jennifer.Common.{Option, none, some, ℕ, zero, suc}
use jennifer.Ast.{
  BinaryOp, op_add, op_sub, op_mul, op_div, op_floor_div, op_mod, op_lt, op_gt, op_le, op_ge, op_eq,
  op_neq, op_and, op_or, op_bit_or, op_bit_xor, op_bit_and, op_shl, op_shr,
}
use jennifer.Lexer.Tokens.{
  TokenType, token_or, token_and, token_lt, token_gt, token_le, token_ge, token_eq, token_neq,
  token_bit_or, token_bit_xor, token_bit_and, token_shl, token_shr, token_plus, token_minus,
  token_star, token_slash, token_div, token_percent,
}
use jennifer.Parser.Syntax.{Node, binary, node_pos}
use jennifer.Parser.State.{
  P, ◌>>=◌, ◌>>◌, pure, raise, peek, advance, deepen_expr, get_depth, set_depth, out_of_fuel,
}

abbrev pub or_op : TokenType → Option BinaryOp
or_op token_or = some op_or
or_op _ = none

abbrev pub and_op : TokenType → Option BinaryOp
and_op token_and = some op_and
and_op _ = none

abbrev pub comparison_op : TokenType → Option BinaryOp
comparison_op token_lt = some op_lt
comparison_op token_gt = some op_gt
comparison_op token_le = some op_le
comparison_op token_ge = some op_ge
comparison_op token_eq = some op_eq
comparison_op token_neq = some op_neq
comparison_op _ = none

abbrev pub bit_or_op : TokenType → Option BinaryOp
bit_or_op token_bit_or = some op_bit_or
bit_or_op _ = none

abbrev pub bit_xor_op : TokenType → Option BinaryOp
bit_xor_op token_bit_xor = some op_bit_xor
bit_xor_op _ = none

abbrev pub bit_and_op : TokenType → Option BinaryOp
bit_and_op token_bit_and = some op_bit_and
bit_and_op _ = none

abbrev pub shift_op : TokenType → Option BinaryOp
shift_op token_shl = some op_shl
shift_op token_shr = some op_shr
shift_op _ = none

abbrev pub add_op : TokenType → Option BinaryOp
add_op token_plus = some op_add
add_op token_minus = some op_sub
add_op _ = none

abbrev pub mul_op : TokenType → Option BinaryOp
mul_op token_star = some op_mul
mul_op token_slash = some op_div
mul_op token_div = some op_floor_div
mul_op token_percent = some op_mod
mul_op _ = none

-- The loop over the operators of one level, with fuel for its rounds. The tree leans to the left,
-- and has the position of its leftmost operand.
unfoldable pub operands : (TokenType → Option BinaryOp) → P Node → ℕ → Node → P Node
operands op_of next zero left = raise out_of_fuel
operands op_of next (suc n) left = do
  t ← peek
  elim (op_of t.kind) [
    | none ↦ pure left
    | some op ↦ do
      deepen_expr
      advance
      right ← next
      operands op_of next n (binary (node_pos left) op left right)
  ]

-- A level: its first operand, and the loop, on whose end the depth is what it was at its start.
unfoldable pub level : (TokenType → Option BinaryOp) → ℕ → P Node → P Node
unfolding operands
level op_of n next = do
  left ← next
  saved ← get_depth
  e ← operands op_of next n left
  set_depth saved
  pure e
