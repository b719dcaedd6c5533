-- ===== src/Parser/Ends/Expr.antt =====
-- The expressions of internal/parser/parser.go end, with a tree or with an error of the language.
use jennifer.Common.{Option, none, some, ℕ, zero, suc, ◌<◌, ◌≤◌, ◌≡◌, arith, refl}
use jennifer.Ast.{UnaryOp, op_neg, op_not, op_bit_not}
use jennifer.Lexer.Tokens.{
  Token, TokenType, token_dotdot, token_minus, token_bit_not, token_not, token_int,
}
use jennifer.Parser.Syntax.{Node}
use jennifer.Parser.State.{P, Parser, pure}
use jennifer.Parser.Numbers.{parse_uint}
use jennifer.Parser.Atoms.{Readers}
use jennifer.Parser.Expr.{
  is_most_negative, fold_most_negative_int, if_int, prefixed, parse_unary_minus, parse_not,
  parse_range, parse_expr, parse_unary, parse_mul, parse_add, parse_shift, parse_bit_and,
  parse_bit_xor, parse_bit_or, parse_comparison, parse_negation, parse_and, or_body, parse_or,
  parse_expression,
}
use jennifer.Parser.Operators.{
  or_op, and_op, comparison_op, bit_or_op, bit_xor_op, bit_and_op, shift_op, add_op, mul_op,
}
use jennifer.Parser.Ends.Bounds.{
  Steps-few, Mode, Ensures, Steps, Steps-bind, Steps-pure, Steps-zero, Steps-reject, Steps-elim,
  Steps-Starts, Steps-suc, Ensures-weaken, Ended, weight, budget_left,
}
use jennifer.Parser.Ends.Advances.{Steps-look, Steps-check, Steps-match, Starts-advance}
use jennifer.Parser.Ends.Keeps.{advance-Steps, Steps-deeper_mode}
use jennifer.Parser.Ends.Levels.{Total, level-Total}
use jennifer.Parser.Ends.Lists.{less}
use jennifer.Parser.Ends.Atoms.{get_seed-Steps}
use jennifer.Parser.Ends.Suffixes.{parse_primary-Total}

fold_most_negative_int-Steps : {k : ℕ} → Steps (suc k) fold_most_negative_int
unfolding fold_most_negative_int
fold_most_negative_int-Steps = Steps-look (λ t.
    Steps-elim (is_most_negative (parse_uint t.lexeme)) _ _
      (Steps-bind advance-Steps (λ u. Steps-pure _)) (Steps-pure _))

if_int-Steps : {k : ℕ} (κ : TokenType) (p : P (Option Node)) → Steps k p → Steps k (if_int κ p)
if_int-Steps token_int p h = h
if_int-Steps _ p h = Steps-pure _

prefixed-Steps :
    {k : ℕ} (op : UnaryOp) (t : Token) {p : P Node} → Steps k p → Steps k (prefixed op t p)
unfolding prefixed
prefixed-Steps op t h = Steps-deeper_mode h (λ e. Steps-pure _)

seeded :
    {k : ℕ} (o : Option Node) {p q : P Node}
    → Steps k p
    → Steps k q
    → Steps k (elim o [ some _ ↦ p | none ↦ q ])
seeded none h g = g
seeded (some e) h g = h

folded_or :
    {k : ℕ} (o : Option Node) {q : P Node}
    → Steps k q
    → Steps k (elim o [ some e ↦ pure e | none ↦ q ])
folded_or none h = h
folded_or (some e) h = Steps-pure e

parse_unary_minus-Total :
    (n : ℕ) (primary : P Node) → Total (suc n) primary → Total (suc n) (parse_unary_minus n primary)
unfolding parse_unary_minus
parse_unary_minus-Total n primary g zero i = Steps-zero (parse_unary_minus n primary)
parse_unary_minus-Total zero primary g (suc j) i = Steps-few (suc j) _ (omega (arith, i))
parse_unary_minus-Total (suc n) primary g (suc j) i = Steps-bind get_seed-Steps (λ seed.
    seeded seed (g (suc j) i) (
      Steps-match _ token_minus refl
        (λ t. Steps-suc j (λ k l. Steps-look (λ u.
          Steps-bind (if_int-Steps u.kind _ fold_most_negative_int-Steps) (λ folded.
            folded_or folded (
              prefixed-Steps op_neg t
                (parse_unary_minus-Total n primary (less g) (suc k) (omega arith)))))))
        (Steps-match _ token_bit_not refl
          (λ t.
            prefixed-Steps op_bit_not t
              (parse_unary_minus-Total n primary (less g) j (omega arith)))
          (g (suc j) i))))

parse_not-Total :
    (n : ℕ) (comparison : P Node)
    → Total (suc n) comparison
    → Total (suc n) (parse_not n comparison)
unfolding parse_not
parse_not-Total n comparison g zero i = Steps-zero (parse_not n comparison)
parse_not-Total zero comparison g (suc j) i = Steps-few (suc j) _ (omega (arith, i))
parse_not-Total (suc n) comparison g (suc j) i = Steps-bind get_seed-Steps (λ seed.
    seeded seed (g (suc j) i) (
      Steps-match _ token_not refl
        (λ t. prefixed-Steps op_not t (parse_not-Total n comparison (less g) j (omega arith)))
        (g (suc j) i)))

parse_range-Total : (n : ℕ) (p : P Node) → Total n p → Total n (parse_range p)
unfolding parse_range
parse_range-Total n p g j i = Steps-suc j (λ k l. Steps-bind (g (suc k) (omega (arith, i))) (λ lo.
    Steps-check _ token_dotdot refl
      (Starts-advance (λ u. Steps-suc k (λ q o. Steps-bind (g (suc q) (omega (arith, i))) (λ hi.
        Steps-look
          (λ t. Steps-check _ token_dotdot refl (Steps-Starts (Steps-reject _)) (Steps-pure _))))))
      (Steps-pure _)))

pub parse_expr-Total : (n : ℕ) (p : P Node) → Total n p → Total n (parse_expr p)
unfolding parse_expr
parse_expr-Total n p g j i = Steps-deeper_mode (parse_range-Total n p g j i) (λ e. Steps-pure e)

or_body-Total :
    (r : Readers) (n : ℕ) (inner : P Node)
    → Total n inner
    → Total n r.parse_block
    → Total (suc n) (or_body r n inner)
unfolding or_body parse_and parse_negation parse_comparison parse_bit_or parse_bit_xor parse_bit_and
    parse_shift parse_add parse_mul parse_unary
or_body-Total r n inner g b = level-Total or_op refl _ n (
    level-Total and_op refl _ n (
      parse_not-Total n _ (
        level-Total comparison_op refl _ n (
          level-Total bit_or_op refl _ n (
            level-Total bit_xor_op refl _ n (
              level-Total bit_and_op refl _ n (
                level-Total shift_op refl _ n (
                  level-Total add_op refl _ n (
                    level-Total mul_op refl _ n (
                      parse_unary_minus-Total n _ (
                        parse_primary-Total r inner (parse_expr inner) n g
                          (parse_expr-Total n inner g) b)))))))))))

pub parse_or-Total :
    (r : Readers) (n : ℕ) → ((k : ℕ) → Total k r.parse_block) → Total n (parse_or r n)
unfolding parse_or
parse_or-Total r zero b zero i = Steps-zero (parse_or r zero)
parse_or-Total r zero b (suc j) i = absurd (omega (arith, i))
parse_or-Total r (suc n) b j i = or_body-Total r n (parse_or r n) (parse_or-Total r n b) (b n) j i

-- What a parser is like behind an expression: its tokens still end, there is no more to read than
-- before, and the depth and the flag for struct literals are those of before.
pub record Behind (s t : Parser) : Type 0 where
  pub ended : Ended t.tokens
  pub no_heavier : weight t ≤ weight s
  pub depth : t.expr_depth ≡ s.expr_depth
  pub flag : t.no_struct_lit ≡ s.no_struct_lit

mode_of : Parser → Mode
mode_of s = record {
  budget = budget_left s.sublex_budget;
  depth = s.expr_depth;
  no_struct_lit = s.no_struct_lit;
}

-- With fuel above what is left to read, reading an expression off tokens that end in one end-of-file
-- token ends, with a tree or with an error of the language, where the reader of blocks does: it never
-- reads past the last token. Behind a tree the tokens still end, there is no more to read than before,
-- and the depth and the flag for struct literals are those of before.
pub parse_expression-Behind :
    (r : Readers) (n : ℕ) (s : Parser)
    → ((k : ℕ) → Total k r.parse_block)
    → Ended s.tokens
    → weight s < n
    → Ensures (λ _ t. Behind s t) (parse_expression r n s)
unfolding parse_expression mode_of
parse_expression-Behind r n s b h i =
    Ensures-weaken
      (parse_expr-Total n (parse_or r n) (parse_or-Total r n b) (suc (weight s)) (omega arith)
        (mode_of s) s
        (record {
          ended = h;
          below = omega arith;
          within = omega arith;
          nested = refl;
          flagged = refl;
        }))
      (λ e t a. record {
        ended = a.ended;
        no_heavier = omega (arith, a.below);
        depth = a.nested;
        flag = a.flagged;
      })
