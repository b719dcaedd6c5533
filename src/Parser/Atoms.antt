-- ===== src/Parser/Atoms.antt =====
-- `parsePrimary` of internal/parser/parser.go: atoms, and the suffixes behind them. The block of a
-- `spawn` is read by the parser of statements, an argument here.
use jennifer.Common.{List, [], Option, none, some, ℕ, ℤ, zero, suc, true, false, codes}
use jennifer.Lexer.Tokens.{
  Token, TokenType, token_int, token_float, token_string, token_string_interp, token_true,
  token_false, token_null, token_len, token_spawn, token_task, token_varref, token_ident,
  token_int_type, token_float_type, token_string_type, token_bool_type, token_bytes_type,
  token_lparen, token_rparen, token_lbracket, token_rbracket, token_lbrace, token_dot, token_dotdot,
}
use jennifer.Parser.Syntax.{
  Node, Opt, missing, given, Block, Stmts, block, int_lit, float_lit, string_lit, bool_lit,
  null_lit, len, spawn, var, index, slice, field_access, call_value,
}
use jennifer.Parser.Kinds.{same_kind}
use jennifer.Parser.Numbers.{parse_int}
use jennifer.Parser.State.{
  P, ◌>>=◌, ◌>>◌, pure, raise, reject_at, pos_at, peek, peek_next, advance, check, expect,
  expect_field_name, allowing_struct_lit, get_seed, take_seed, bad_int, bad_float, append_read,
  task_alone, type_in_expression, unexpected, out_of_fuel,
}
use jennifer.Parser.Lists.{parse_paren_args, parse_list_lit, parse_map_lit}
use jennifer.Parser.Names.{parse_name, parse_qualified_tail}
use jennifer.Parser.Slots.{build_interp_string}

-- strconv.ParseFloat and the parser of blocks.
pub record Readers : Type 0 where
  pub parse_float : List ℕ → Option ℕ
  pub parse_block : P Block

abbrev pub stmts_of : Block → Stmts
stmts_of (block p ss) = ss

abbrev pub int_of : Token → Option ℤ → P Node
int_of t (some n) = pure (int_lit (pos_at t) n)
int_of t none = reject_at (bad_int t) t

abbrev pub float_of : Token → Option ℕ → P Node
float_of t (some x) = pure (float_lit (pos_at t) x)
float_of t none = reject_at (bad_float t) t

abbrev pub task_name : Token → Token
task_name t = record {
  kind = token_ident;
  lexeme = codes "task";
  raw = [];
  parts = [];
  line = t.line;
  col = t.col;
  file = t.file;
}

-- `inner` is `parseOr` and `expr` is `parseExpr`, one level of nesting further in.
module _ (r : Readers) (inner expr : P Node) (n : ℕ) where
  unfoldable pub parse_group : P Node
  parse_group = do
    advance
    e ← allowing_struct_lit expr
    expect token_rparen "to close grouped expression"
    pure e

  unfoldable pub parse_len : Token → P Node
  parse_len t = do
    expect token_lparen "after `len`"
    operand ← expr
    expect token_rparen "to close `len` argument"
    pure (len (pos_at t) operand)

  unfoldable pub parse_task : Token → P Node
  parse_task t = do
    d ← check token_dot
    elim d [ true ↦ parse_qualified_tail expr n (task_name t) | false ↦ reject_at task_alone t ]

  unfoldable pub type_name_refusal : Token → P Node
  type_name_refusal t = do
    u ← peek_next
    reject_at (type_in_expression t (same_kind u.kind token_lparen)) t

  -- The switch of `parsePrimaryAtom`.
  unfoldable pub atom_at : TokenType → Token → P Node
  unfolding parse_group parse_len parse_task type_name_refusal
  atom_at token_int t = advance >> int_of t (parse_int t.lexeme)
  atom_at token_float t = advance >> float_of t (r.parse_float t.lexeme)
  atom_at token_string t = advance >> pure (string_lit (pos_at t) t.lexeme)
  atom_at token_string_interp t = advance >> build_interp_string expr t
  atom_at token_true t = advance >> pure (bool_lit (pos_at t) true)
  atom_at token_false t = advance >> pure (bool_lit (pos_at t) false)
  atom_at token_null t = advance >> pure (null_lit (pos_at t))
  atom_at token_len t = advance >> parse_len t
  atom_at token_spawn t = do advance; body ← r.parse_block; pure (spawn (pos_at t) (stmts_of body))
  atom_at token_task t = advance >> parse_task t
  atom_at token_varref t = advance >> pure (var (pos_at t) t.lexeme)
  atom_at token_ident t = advance >> parse_name expr n t
  atom_at token_int_type t = type_name_refusal t
  atom_at token_float_type t = type_name_refusal t
  atom_at token_string_type t = type_name_refusal t
  atom_at token_bool_type t = type_name_refusal t
  atom_at token_bytes_type t = type_name_refusal t
  atom_at token_lparen t = parse_group
  atom_at token_lbracket t = parse_list_lit expr n
  atom_at token_lbrace t = parse_map_lit expr n
  atom_at _ t = reject_at (unexpected t) t

  unfoldable pub parse_primary_atom : P Node
  unfolding atom_at
  parse_primary_atom = do
    seed ← get_seed
    elim seed [ some e ↦ take_seed >> pure e | none ↦ do t ← peek; atom_at t.kind t ]

  -- What is up to the next bracket, if it is something.
  unfoldable pub upper_bound : P Opt
  upper_bound = do
    b ← check token_rbracket
    elim b [ true ↦ pure missing | false ↦ do hi ← inner; pure (given hi) ]

  -- The rest of a slice, behind its lower bound.
  unfoldable pub slice_tail : Token → Node → Opt → P Node
  unfolding upper_bound
  slice_tail bra target lo = do
    advance
    hi ← upper_bound
    expect token_rbracket "to close slice expression"
    pure (slice (pos_at bra) target lo hi)

  unfoldable pub bracketed : Token → Node → P Node
  unfolding slice_tail
  bracketed bra target = do
    open_start ← check token_dotdot
    elim open_start [
      | true ↦ slice_tail bra target missing
      | false ↦ do
        lo ← inner
        d ← check token_dotdot
        elim d [
          | true ↦ slice_tail bra target (given lo)
          | false ↦ do
            expect token_rbracket "to close index expression"
            pure (index (pos_at bra) target lo)
        ]
    ]

  unfoldable pub parse_bracket_suffix : Node → P Node
  unfolding bracketed
  parse_bracket_suffix target = do bra ← advance; allowing_struct_lit (bracketed bra target)

  -- A suffix of a primary, of the kind that is next; none ends the loop.
  unfoldable pub suffix_at : TokenType → Token → Node → P (Option Node)
  unfolding parse_bracket_suffix
  suffix_at token_lbracket bra e = do
    u ← peek_next
    elim (same_kind u.kind token_rbracket) [
      | true ↦ reject_at append_read bra
      | false ↦ do sfx ← parse_bracket_suffix e; pure (some sfx)
    ]
  suffix_at token_dot dot e = do
    advance
    name ← expect_field_name "after `.` for field name"
    pure (some (field_access (pos_at dot) e name.lexeme))
  suffix_at token_lparen lp e = do
    args ← parse_paren_args expr n
    pure (some (call_value (pos_at lp) e args))
  suffix_at _ t e = pure none

  unfoldable pub suffixes : ℕ → Node → P Node
  unfolding suffix_at
  suffixes zero e = raise out_of_fuel
  suffixes (suc k) e = do
    t ← peek
    sfx ← suffix_at t.kind t e
    elim sfx [ none ↦ pure e | some e' ↦ suffixes k e' ]

  unfoldable pub parse_primary : P Node
  unfolding parse_primary_atom suffixes
  parse_primary = do e ← parse_primary_atom; suffixes n e
