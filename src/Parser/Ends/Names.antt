-- ===== src/Parser/Ends/Names.antt =====
-- What a name starts in internal/parser/parser.go ends.
use jennifer.Common.{ℕ, suc, Bool, true, false, ◌≤◌, arith, refl, not, ◌&&◌, String}
use jennifer.Lexer.Tokens.{Token, token_ident, token_dot, token_lbrace, token_lparen, token_rparen}
use jennifer.Parser.Syntax.{Node}
use jennifer.Parser.Kinds.{same_kind, is_post_dot_name, contains_underscore, is_valid_const_name}
use jennifer.Parser.State.{P, Parser, get_no_struct_lit, pure, ◌>>=◌}
use jennifer.Parser.Names.{
  struct_lit_next, name_after_dot, parse_call_tail, parse_enum_variant, parse_qualified_call,
  parse_qualified_tail, parse_qualified_rest, parse_name,
}
use jennifer.Parser.Ends.Bounds.{
  Ended, Ensures, holds, Steps, Starts, Steps-bind, Steps-pure, Steps-reject, Steps-elim,
  Starts-elim, Steps-Starts, Steps-suc,
}
use jennifer.Parser.Ends.Advances.{
  Moves-Starts, Tested, check-Tested, Steps-test, Steps-look, Steps-check, Steps-expect,
  Starts-advance, Starts-bind, expect-Steps,
}
use jennifer.Parser.Ends.Keeps.{allowing_struct_lit-Steps, advance-Steps}
use jennifer.Parser.Ends.Levels.{Total}
use jennifer.Parser.Ends.Lists.{
  args_unless_closed-Total, parse_paren_args-Moves, parse_struct_lit_tail-Starts,
}

struct_lit_next-Tested : (s : Parser) → Ended s.tokens → Ensures (Tested s) (struct_lit_next s)
unfolding struct_lit_next get_no_struct_lit pure ◌>>=◌
struct_lit_next-Tested s h = by_flag s.no_struct_lit
  where
    by_flag :
        (b : Bool)
        → Ensures (Tested s) (
            (elim b as (λ _. P Bool) [
              | true ↦ pure false
              | false ↦ jennifer.Parser.State.check token_lbrace
            ])
              s)
    by_flag true = holds (refl, λ z. cc)
    by_flag false = check-Tested token_lbrace refl s h

name_after_dot-Steps : {k : ℕ} (ctx : String) → Steps (suc k) (name_after_dot ctx)
unfolding name_after_dot
name_after_dot-Steps ctx = Steps-look (λ t.
    Steps-elim (is_post_dot_name t) _ _ (Steps-bind advance-Steps (λ u. Steps-pure t))
      (expect-Steps token_ident ctx refl))

module _ (expr : P Node) (n j : ℕ) (i : j ≤ n) (g : Total n expr) where
  parse_call_tail-Starts : (callee : Token) → Starts j (parse_call_tail expr n callee)
  unfolding parse_call_tail
  parse_call_tail-Starts callee =
      Starts-elim (same_kind callee.kind token_ident && contains_underscore callee.lexeme) _ _
        (Steps-Starts (Steps-reject _))
        (Starts-bind (Moves-Starts (parse_paren_args-Moves expr n j i g)) (λ args. Steps-pure _))

  parse_enum_variant-Starts :
      (prefix name : Token) → Starts j (parse_enum_variant expr n prefix name)
  unfolding parse_enum_variant
  parse_enum_variant-Starts prefix name = Starts-advance (λ u. Steps-suc j (λ k l.
      Steps-bind (name_after_dot-Steps _) (λ variant.
        Steps-test _ struct_lit_next-Tested
          (Starts-bind (parse_struct_lit_tail-Starts expr n k (omega (arith, i)) g)
            (λ fs. Steps-pure _))
          (Steps-pure _))))

  parse_qualified_call-Starts :
      (prefix name : Token) → Starts j (parse_qualified_call expr n prefix name)
  unfolding parse_qualified_call
  parse_qualified_call-Starts prefix name =
      Starts-elim (contains_underscore name.lexeme) _ _ (Steps-Starts (Steps-reject _)) (
        Starts-advance (λ u. allowing_struct_lit-Steps (
          Steps-suc j (λ k l.
            Steps-bind (args_unless_closed-Total expr n g (suc k) (omega (arith, i)))
              (λ args. Steps-expect token_rparen _ refl (λ u. Steps-pure _))))))

  pub parse_qualified_rest-Steps :
      (prefix name : Token) → Steps (suc j) (parse_qualified_rest expr n prefix name)
  unfolding parse_qualified_rest
  parse_qualified_rest-Steps prefix name =
      Steps-check _ token_lparen refl (parse_qualified_call-Starts prefix name) (
        Steps-test _ struct_lit_next-Tested
          (Starts-bind (parse_struct_lit_tail-Starts expr n j i g) (λ fs. Steps-pure _))
          (Steps-pure _))

module _ (expr : P Node) (n : ℕ) (g : Total n expr) where
  pub parse_qualified_tail-Starts :
      (prefix : Token) (j : ℕ) → j ≤ n → Starts j (parse_qualified_tail expr n prefix)
  unfolding parse_qualified_tail
  parse_qualified_tail-Starts prefix j i = Starts-advance (λ u. Steps-suc j (λ k l.
      let b : k ≤ n = omega (arith, i) in
      Steps-bind (name_after_dot-Steps _) (λ name.
        Steps-check _ token_dot refl
          (Starts-elim
            (not (is_valid_const_name prefix.lexeme) && not (is_valid_const_name name.lexeme)) _ _
            (parse_enum_variant-Starts expr n k b g prefix name)
            (Steps-Starts (parse_qualified_rest-Steps expr n k b g prefix name)))
          (parse_qualified_rest-Steps expr n k b g prefix name))))

  pub parse_name-Total : (t : Token) → Total n (parse_name expr n t)
  unfolding parse_name
  parse_name-Total t j i = Steps-suc j (λ k l.
      let b : k ≤ n = omega (arith, i) in
      Steps-check _ token_dot refl (parse_qualified_tail-Starts t k b) (
        Steps-test _ struct_lit_next-Tested
          (Starts-bind (parse_struct_lit_tail-Starts expr n k b g) (λ fs. Steps-pure _))
          (Steps-check _ token_lparen refl (parse_call_tail-Starts expr n k b g t) (Steps-pure _))))
