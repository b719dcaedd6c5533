-- ===== src/Parser/Chains.antt =====
-- Chains of fields in internal/parser/parser.go: the loop over suffixes of parsePrimary.
use jennifer.Common.{List, [], ◌∷◌, none, false, ℕ, zero, suc, ◌<◌, ◌≡◌, ok, refl, length, arith}
use jennifer.Lexer.Tokens.{Token, token_dot, token_ident, token_varref, token_eof}
use jennifer.Parser.Syntax.{Node, var, field_access}
use jennifer.Parser.State.{P, Parser, pos_at, ◌>>=◌}
use jennifer.Parser.Atoms.{Readers, suffixes}
use jennifer.Parser.Expr.{parse_expression, parse_or, parse_expr}

-- A `.` and a name for each field, each at its own place.
abbrev pub field_tokens : List (Token × Token) → List Token → List Token
field_tokens [] ts = ts
field_tokens ((d, u) ∷ fs) ts =
    record d { kind = token_dot } ∷ record u { kind = token_ident } ∷ field_tokens fs ts

-- The fields of a tree, the outermost last.
abbrev pub field_tree : Node → List (Token × Token) → Node
field_tree e [] = e
field_tree e ((d, u) ∷ fs) = field_tree (field_access (pos_at d) e u.lexeme) fs

-- A parser at some nesting.
abbrev pub at_depth : ℕ → List Token → Parser
at_depth c ts = record {
  tokens = ts;
  seed = none;
  expr_depth = c;
  stmt_depth = 0;
  type_depth = 0;
  sublex_budget = none;
  no_struct_lit = false;
}

abbrev pub end_of : Token → List Token
end_of z = record z { kind = token_eof } ∷ []

suffixes-field_tree :
    (r : Readers) (inner expr : P Node) (n k c : ℕ) (fs : List (Token × Token)) (e : Node)
    (z : Token)
    → length fs < k
    → suffixes r inner expr n k e (at_depth c (field_tokens fs (end_of z)))
      ≡ ok (field_tree e fs, at_depth c (end_of z))
unfolding suffixes ◌>>=◌ jennifer.Parser.Atoms.suffix_at jennifer.Parser.State.peek
    jennifer.Parser.State.advance jennifer.Parser.State.pure jennifer.Parser.State.expect_field_name
    jennifer.Parser.Kinds.is_post_dot_name
suffixes-field_tree r inner expr n zero c fs e z h = absurd (omega arith)
suffixes-field_tree r inner expr n (suc k) c [] e z h = refl
suffixes-field_tree r inner expr n (suc k) c ((d, u) ∷ fs) e z h =
    suffixes-field_tree r inner expr n k c fs (field_access (pos_at d) e u.lexeme) z (omega arith)

-- A variable with any number of fields behind it, up to the end of the tokens, is accepted by a parser
-- with no nesting so far, as the field accesses nested in each other, where the fuel is above their
-- number by two; the parser has no nesting after it either.
pub parse_expression-field_tree :
    (r : Readers) (n : ℕ) (x : Token) (fs : List (Token × Token)) (z : Token)
    → length fs < n
    → parse_expression r
        (suc n)
        (at_depth 0 (record x { kind = token_varref } ∷ field_tokens fs (end_of z)))
      ≡ ok (field_tree (var (pos_at x) x.lexeme) fs, at_depth 0 (end_of z))
unfolding jennifer.Parser.State.pure jennifer.Parser.State.peek jennifer.Parser.State.advance
    jennifer.Parser.State.check jennifer.Parser.State.match jennifer.Parser.State.get_depth
    jennifer.Parser.State.set_depth jennifer.Parser.State.undeepen jennifer.Parser.State.deepen
    jennifer.Parser.State.deepen_expr jennifer.Parser.State.get_seed jennifer.Parser.State.take_seed
    jennifer.Parser.Kinds.kind_code jennifer.Parser.Kinds.same_kind jennifer.Parser.Syntax.node_pos
    jennifer.Parser.Operators.operands jennifer.Parser.Operators.level jennifer.Parser.Atoms.atom_at
    jennifer.Parser.Atoms.parse_primary_atom jennifer.Parser.Atoms.suffix_at
    jennifer.Parser.Atoms.parse_primary jennifer.Parser.Expr.parse_unary_minus
    jennifer.Parser.Expr.parse_not jennifer.Parser.Expr.parse_range jennifer.Parser.Expr.parse_expr
    jennifer.Parser.Expr.parse_unary jennifer.Parser.Expr.parse_mul jennifer.Parser.Expr.parse_add
    jennifer.Parser.Expr.parse_shift jennifer.Parser.Expr.parse_bit_and
    jennifer.Parser.Expr.parse_bit_xor jennifer.Parser.Expr.parse_bit_or
    jennifer.Parser.Expr.parse_comparison jennifer.Parser.Expr.parse_negation
    jennifer.Parser.Expr.parse_and jennifer.Parser.Expr.or_body jennifer.Parser.Expr.parse_or
    jennifer.Parser.Expr.parse_expression jennifer.Parser.State.◌>>=◌
parse_expression-field_tree r zero x fs z h = absurd (omega arith)
parse_expression-field_tree r (suc n) x fs z h =
    rw
      (suffixes-field_tree r (parse_or r (suc n)) (parse_expr (parse_or r (suc n))) (suc n) (suc n)
        1 fs (var (pos_at x) x.lexeme) z h)
      refl
