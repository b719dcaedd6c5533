-- ===== src/Parser/Tests.antt =====
-- Small sources through the lexer and the expressions of internal/parser/parser.go.
use jennifer.Common.{List, [], none, ℕ, codes, String, Result, ok, err, ◌≡◌, refl, false, pos}
use jennifer.Ast.{Pos, op_add, op_mul}
use jennifer.Lexer.{tokenize_with_file}
use jennifer.Lexer.Tokens.{Token}
use jennifer.Lexer.Position.{Lexed}
use jennifer.Parser.Syntax.{Node, var, int_lit, binary, unary, index, Nodes}
use jennifer.Parser.Kinds.{strip_trivia}
use jennifer.Parser.State.{Parser, Fault, raise, lexical, index_out_of_range, Parsed}
use jennifer.Parser.Atoms.{Readers}
use jennifer.Parser.Expr.{parse_expression}

abbrev pub test_readers : Readers
test_readers = record { parse_float = λ s. none; parse_block = raise index_out_of_range }

abbrev pub start : List Token → Parser
start ts = record {
  tokens = strip_trivia ts;
  seed = none;
  expr_depth = 0;
  stmt_depth = 0;
  type_depth = 0;
  sublex_budget = none;
  no_struct_lit = false;
}

abbrev parse_tokens : Lexed (List Token) → Result Fault Node
parse_tokens (err e) = err (lexical e)
parse_tokens (ok ts) = tree (parse_expression test_readers 60 (start ts))
  where
    tree : Parsed Node → Result Fault Node
    tree (ok (e, _)) = ok e
    tree (err e) = err e

abbrev parse_text : String → Result Fault Node
parse_text s = parse_tokens (tokenize_with_file (codes s) [])

abbrev at : ℕ → Pos
at n = record { file = []; line = 1; col = n }

-- `1 + 2 * 3`
precedence :
    parse_text "1 + 2 * 3"
    ≡ ok (
        binary
          (at 1)
          op_add
          (int_lit (at 1) (pos 1))
          (binary (at 5) op_mul (int_lit (at 5) (pos 2)) (int_lit (at 9) (pos 3))))
unfolding jennifer.Parser.State.◌>>=◌ jennifer.Parser.State.pure jennifer.Parser.State.raise
    jennifer.Parser.State.peek jennifer.Parser.State.peek_next jennifer.Parser.State.advance
    jennifer.Parser.State.check jennifer.Parser.State.match jennifer.Parser.State.expect
    jennifer.Parser.State.expect_field_name jennifer.Parser.State.get_depth
    jennifer.Parser.State.set_depth jennifer.Parser.State.undeepen jennifer.Parser.State.deepen
    jennifer.Parser.State.deepen_expr jennifer.Parser.State.get_seed jennifer.Parser.State.take_seed
    jennifer.Parser.State.get_no_struct_lit jennifer.Parser.State.set_no_struct_lit
    jennifer.Parser.State.allowing_struct_lit jennifer.Parser.Kinds.kind_code
    jennifer.Parser.Kinds.same_kind jennifer.Parser.Kinds.strip_trivia
    jennifer.Parser.Kinds.is_post_dot_name jennifer.Parser.Kinds.contains_underscore
    jennifer.Parser.Kinds.const_chunks jennifer.Parser.Kinds.is_valid_const_name
    jennifer.Parser.Numbers.digit_value jennifer.Parser.Numbers.digits_value
    jennifer.Parser.Numbers.split_base jennifer.Parser.Numbers.parse_uint
    jennifer.Parser.Numbers.parse_int jennifer.Parser.Operators.operands
    jennifer.Parser.Operators.level jennifer.Parser.Lists.args_from
    jennifer.Parser.Lists.args_unless_closed jennifer.Parser.Lists.parse_paren_args
    jennifer.Parser.Lists.elements jennifer.Parser.Lists.parse_list_lit
    jennifer.Parser.Lists.entries jennifer.Parser.Lists.parse_map_lit
    jennifer.Parser.Lists.fields_from jennifer.Parser.Lists.parse_struct_lit_tail
    jennifer.Parser.Names.struct_lit_next jennifer.Parser.Names.name_after_dot
    jennifer.Parser.Names.parse_call_tail jennifer.Parser.Names.parse_enum_variant
    jennifer.Parser.Names.parse_qualified_call jennifer.Parser.Names.parse_qualified_tail
    jennifer.Parser.Names.parse_name jennifer.Parser.Slots.max_source_bytes
    jennifer.Parser.Slots.is_blank_text jennifer.Parser.Slots.parse_slot
    jennifer.Parser.Slots.parse_parts jennifer.Parser.Slots.build_interp_string
    jennifer.Parser.Atoms.parse_group jennifer.Parser.Atoms.parse_len
    jennifer.Parser.Atoms.parse_task jennifer.Parser.Atoms.type_name_refusal
    jennifer.Parser.Atoms.atom_at jennifer.Parser.Atoms.parse_primary_atom
    jennifer.Parser.Atoms.upper_bound jennifer.Parser.Atoms.slice_tail
    jennifer.Parser.Atoms.bracketed jennifer.Parser.Atoms.parse_bracket_suffix
    jennifer.Parser.Atoms.suffix_at jennifer.Parser.Atoms.suffixes
    jennifer.Parser.Atoms.parse_primary jennifer.Parser.Expr.is_most_negative
    jennifer.Parser.Expr.fold_most_negative_int jennifer.Parser.Expr.prefixed
    jennifer.Parser.Expr.parse_unary_minus jennifer.Parser.Expr.parse_not
    jennifer.Parser.Expr.parse_range jennifer.Parser.Expr.parse_expr
    jennifer.Parser.Expr.parse_unary jennifer.Parser.Expr.parse_mul jennifer.Parser.Expr.parse_add
    jennifer.Parser.Expr.parse_shift jennifer.Parser.Expr.parse_bit_and
    jennifer.Parser.Expr.parse_bit_xor jennifer.Parser.Expr.parse_bit_or
    jennifer.Parser.Expr.parse_comparison jennifer.Parser.Expr.parse_negation
    jennifer.Parser.Expr.parse_and jennifer.Parser.Expr.or_body jennifer.Parser.Expr.parse_or
    jennifer.Parser.Expr.parse_expression jennifer.Parser.Syntax.node_pos
    jennifer.Lexer.tokenize_with_file
precedence = refl
