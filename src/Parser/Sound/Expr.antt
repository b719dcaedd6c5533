-- ===== src/Parser/Sound/Expr.antt =====
-- What the expressions of internal/parser/parser.go accept is what the grammar says.
use jennifer.Common.{List, Option, none, some, ℕ, zero, suc, ok, ◌≡◌, refl}
use jennifer.Lexer.Tokens.{
  Token, TokenType, token_lparen, token_lbracket, token_rbracket, token_dot,
}
use jennifer.Parser.Syntax.{Node, Block}
use jennifer.Parser.Kinds.{same_kind}
use jennifer.Parser.State.{Parser, pure, P}
use jennifer.Parser.Atoms.{Readers, suffix_at, suffixes, parse_primary}
use jennifer.Parser.Expr.{
  parse_expr, parse_unary, parse_mul, parse_add, parse_shift, parse_bit_and, parse_bit_xor,
  parse_bit_or, parse_comparison, parse_negation, parse_and, or_body, parse_or, parse_expression,
}
use jennifer.Parser.Grammar.{Derives, tight, selected, called}
use jennifer.Parser.Ladder.{
  Level, range_level, or_level, and_level, comparison_level, bit_or_level, bit_xor_level,
  bit_and_level, shift_level, add_level, mul_level, postfix_level, Next,
}
use jennifer.Parser.Sound.Reading.{
  Yields-ok, From, Reads, From-pure, From-raise, From-peek, From-bind, From-elim, From-Next,
  From-Quiet, Next-of,
}
use jennifer.Parser.Sound.QuietSteps.{peek_next-Quiet}
use jennifer.Parser.Sound.Lists.{parse_paren_args-Parens, expect_field_name-NameAt}
use jennifer.Parser.Sound.Atoms.{
  parse_primary_atom-Derives, parse_bracket_suffix-Derives, same_kind_refl,
}
use jennifer.Parser.Sound.Levels.{
  level-Derives, parse_not-Derives, parse_unary_minus-Derives, parse_expr-Derives,
}

module _ (IsBlock : List Token → List Token → Block → Type 0) (r : Readers)
    (blocks : Reads IsBlock r.parse_block) where
  abbrev E : Level → List Token → List Token → Node → Type 0
  E = Derives r.parse_float IsBlock

  module _ (inner : P Node) (sound : Reads (E or_level) inner) (n : ℕ) where
    -- A suffix, or nothing read.
    abbrev Grown : List Token → List Token → Option Node → List Token → Type 0
    Grown ts us none vs = vs ≡ us
    Grown ts us (some e) vs = E postfix_level ts vs e

    suffix_at-Grown :
        (κ : TokenType) (t : Token) {ts us vs : List Token} {e : Node}
        → E postfix_level ts us e
        → Next κ us vs t
        → From us (Grown ts us) (suffix_at r inner (parse_expr inner) n κ t e)
    unfolding suffix_at
    suffix_at-Grown token_lbracket t d a = From-Quiet _ peek_next-Quiet (λ u.
        From-elim (same_kind u.kind token_rbracket) (λ z. From-raise _)
          (λ z.
            From-bind _
              (parse_bracket_suffix-Derives IsBlock r inner (parse_expr inner) n sound
                (parse_expr-Derives r.parse_float IsBlock sound) blocks d a)
              (λ f ws g. From-pure (some f) g)))
    suffix_at-Grown token_dot t {vs = vs} d a = From-Next _ refl a (
        From-bind _ (expect_field_name-NameAt _ vs) (λ name ws c.
          From-pure (some _)
            (selected d (record { dot = t; middle = vs; at_dot = a; name = c }) refl)))
    suffix_at-Grown token_lparen t d a =
        From-bind _
          (parse_paren_args-Parens r.parse_float IsBlock (parse_expr inner)
            (parse_expr-Derives r.parse_float IsBlock sound) n a)
          (λ es ws b. From-pure (some _) (called d b))
    suffix_at-Grown _ t d a = From-pure none refl

    after_suffix :
        {ts us vs : List Token} (o : Option Node) {e : Node} {f : Node → P Node}
        → E postfix_level ts us e
        → Grown ts us o vs
        → ((e' : Node)
            → E postfix_level ts vs e'
            → From vs (λ e ws. E postfix_level ts ws e) (f e'))
        → From vs (λ e ws. E postfix_level ts ws e) (elim o [ none ↦ pure e | some e' ↦ f e' ])
    after_suffix none {e = e} d h k = From-pure e (rw h d)
    after_suffix (some e') d h k = k e' h

    suffixes-Derives :
        (k : ℕ) {ts us : List Token} (e : Node)
        → E postfix_level ts us e
        → From us (λ e ws. E postfix_level ts ws e) (suffixes r inner (parse_expr inner) n k e)
    unfolding suffixes
    suffixes-Derives zero e d = From-raise _
    suffixes-Derives (suc k) e d = From-peek (λ t vs q.
        From-bind _ (suffix_at-Grown t.kind t d (Next-of q (same_kind_refl t.kind)))
          (λ o ws h. after_suffix o d h (λ e' d'. suffixes-Derives k e' d')))

    or_body-Derives : Reads (E or_level) (or_body r n inner)
    unfolding or_body parse_and parse_negation parse_comparison parse_bit_or parse_bit_xor
        parse_bit_and parse_shift parse_add parse_mul parse_unary parse_primary
    or_body-Derives = level-Derives r.parse_float IsBlock or_level n refl (
        level-Derives r.parse_float IsBlock and_level n refl (
          parse_not-Derives r.parse_float IsBlock n (
            level-Derives r.parse_float IsBlock comparison_level n refl (
              level-Derives r.parse_float IsBlock bit_or_level n refl (
                level-Derives r.parse_float IsBlock bit_xor_level n refl (
                  level-Derives r.parse_float IsBlock bit_and_level n refl (
                    level-Derives r.parse_float IsBlock shift_level n refl (
                      level-Derives r.parse_float IsBlock add_level n refl (
                        level-Derives r.parse_float IsBlock mul_level n refl (
                          parse_unary_minus-Derives r.parse_float IsBlock n (λ ts.
                            From-bind _
                              (parse_primary_atom-Derives IsBlock r inner (parse_expr inner) n sound
                                (parse_expr-Derives r.parse_float IsBlock sound) blocks ts)
                              (λ e us d. suffixes-Derives n e (tight d)))))))))))))

  parse_or-Derives : (n : ℕ) → Reads (E or_level) (parse_or r n)
  unfolding parse_or
  parse_or-Derives zero ts = From-raise _
  parse_or-Derives (suc n) ts = or_body-Derives (parse_or r n) (parse_or-Derives n) n ts

  -- An expression that is accepted, where no operand was read before, derives in the grammar by levels
  -- of precedence from the tokens that were read, with the tree that is returned. The block of a
  -- `spawn` is what its reader says.
  pub parse_expression-Derives :
      (n : ℕ) (s t : Parser) (e : Node)
      → s.seed ≡ none
      → parse_expression r n s ≡ ok (e, t)
      → Derives r.parse_float IsBlock range_level s.tokens t.tokens e
  unfolding parse_expression
  parse_expression-Derives n s t e h q =
      let y =
        parse_expr-Derives r.parse_float IsBlock (parse_or-Derives n) s.tokens s
          (record { tokens = refl; no_seed = h }) in
      let (us, l, d) = Yields-ok y q in rw l.tokens d
