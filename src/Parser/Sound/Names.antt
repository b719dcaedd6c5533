-- ===== src/Parser/Sound/Names.antt =====
-- What a name starts in internal/parser/parser.go reads what the grammar says.
use jennifer.Common.{sym, List, Option, ℕ, Bool, true, false, ◌≡◌, refl, not, ◌&&◌, ◌||◌, String}
use jennifer.Lexer.Tokens.{Token, token_ident, token_dot, token_lbrace, token_lparen, token_rparen}
use jennifer.Parser.Syntax.{Node, Block}
use jennifer.Parser.Kinds.{same_kind, is_post_dot_name, contains_underscore, is_valid_const_name}
use jennifer.Parser.State.{P, pos_at}
use jennifer.Parser.Names.{
  struct_lit_next, name_after_dot, parse_call_tail, parse_enum_variant, parse_qualified_call,
  parse_qualified_rest, parse_qualified_tail, parse_name, qualified_name,
}
use jennifer.Parser.Grammar.{
  Derives, Qualified, qualified_function, qualified_struct, qualified_constant, constant_field,
  variant, bare_variant, constant, method_call, struct_of, qualified,
}
use jennifer.Parser.Ladder.{Next, NameAt, DotName, range_level, atom_level}
use jennifer.Parser.Sound.Reading.{
  From-test, check-Tested, after_Next, Tested, From, Reads, From-pure, From-raise, From-peek,
  From-advance, From-bind, From-elim, From-check, From-Next, From-expect, From-allowing,
  From-weaken, From-Quiet, expect-Next,
}
use jennifer.Parser.Sound.QuietSteps.{get_no_struct_lit-Quiet}
use jennifer.Parser.Sound.Lists.{
  args_unless_closed-Parens, parse_paren_args-Parens, parse_struct_lit_tail-Braces,
}

-- A test for an opening brace: it may say no where there is one.
struct_lit_next-Tested : (ts : List Token) → From ts (Tested token_lbrace ts) struct_lit_next
unfolding struct_lit_next
struct_lit_next-Tested ts =
    From-Quiet _ get_no_struct_lit-Quiet
      (λ b. From-elim b (λ z. From-pure false (refl, λ y. cc)) (λ z. check-Tested token_lbrace ts))

or_true : (b : Bool) → b || true ≡ true
or_true true = refl
or_true false = refl

both_not : (a b : Bool) → not a && not b ≡ true → (a ≡ false) × (b ≡ false)
both_not false false h = (refl, refl)
both_not false true h = cc
both_not true b h = cc

name_after_dot-NameAt :
    (ctx : String) (ts : List Token) → From ts (λ t us. NameAt ts us t) (name_after_dot ctx)
unfolding name_after_dot
name_after_dot-NameAt ctx ts = From-peek (λ t us q.
    From-elim (is_post_dot_name t)
      (λ z. From-advance (λ u vs e.
        From-pure t (record { rest = us; tokens = q; shape = rw z refl; behind = refl })))
      (λ z. From-weaken (expect-Next token_ident ctx refl ts) (λ u vs n. record {
        rest = vs;
        tokens = n.tokens;
        shape = rw (n.kind) (or_true _);
        behind = sym (after_Next refl n);
      })))

module _ (fv : List ℕ → Option ℕ) (IsBlock : List Token → List Token → Block → Type 0)
    (expr : P Node) (sound : Reads (Derives fv IsBlock range_level) expr) (n : ℕ) where
  parse_call_tail-Derives :
      {ts us vs : List Token} {t l : Token}
      → Next token_ident ts us t
      → Next token_lparen us vs l
      → From us (λ e ws. Derives fv IsBlock atom_level ts ws e) (parse_call_tail expr n t)
  unfolding parse_call_tail
  parse_call_tail-Derives {t = t} a b =
      From-elim (same_kind t.kind token_ident && contains_underscore t.lexeme) (λ z. From-raise _)
        (λ z.
          let c : contains_underscore t.lexeme ≡ false = rw a.kind at z in
          From-bind _ (parse_paren_args-Parens fv IsBlock expr sound n b)
            (λ es ws d. From-pure _ (method_call a c d)))

  parse_qualified_call-Qualified :
      (p : Token) {ts us vs : List Token} {t l : Token}
      → DotName ts us t
      → Next token_lparen us vs l
      → From us
          (λ e ws. Qualified fv IsBlock (pos_at p) p.lexeme ts ws e)
          (parse_qualified_call expr n p t)
  unfolding parse_qualified_call
  parse_qualified_call-Qualified p {t = t} a b =
      From-elim (contains_underscore t.lexeme) (λ z. From-raise _)
        (λ z. From-Next _ refl b (
          From-allowing (
            From-bind _ (args_unless_closed-Parens fv IsBlock expr sound n b) (λ es ws k.
              From-expect _ token_rparen _ refl
                (λ c xs e. From-pure _ (qualified_function a z (k c xs e)))))))

  qualified_name-Qualified :
      (p : Token) {ts us : List Token} {t : Token}
      → DotName ts us t
      → Qualified fv IsBlock (pos_at p) p.lexeme ts us (qualified_name p t)
  qualified_name-Qualified p {ts} {us} {t} d =
      by_names (is_valid_const_name t.lexeme) (is_valid_const_name p.lexeme) refl refl
    where
      by_names :
          (a b : Bool)
          → is_valid_const_name t.lexeme ≡ a
          → is_valid_const_name p.lexeme ≡ b
          → Qualified fv IsBlock (pos_at p) p.lexeme ts us (qualified_name p t)
      by_names true b e f = rw e (qualified_constant d (rw e refl))
      by_names false true e f = rw (e, f) (constant_field d e f)
      by_names false false e f = rw (e, f) (qualified_constant d (rw (e, f) refl))

  parse_enum_variant-Qualified :
      (p : Token) {ts us vs : List Token} {t d : Token}
      → is_valid_const_name p.lexeme ≡ false
      → is_valid_const_name t.lexeme ≡ false
      → DotName ts us t
      → Next token_dot us vs d
      → From us
          (λ e ws. Qualified fv IsBlock (pos_at p) p.lexeme ts ws e)
          (parse_enum_variant expr n p t)
  unfolding parse_enum_variant
  parse_enum_variant-Qualified p {us = us} {vs = vs} e f a b = From-Next _ refl b (
      From-bind _ (name_after_dot-NameAt _ vs) (λ v ws c.
        let dotted : DotName us ws v = record { dot = _; middle = vs; at_dot = b; name = c } in
        From-test _ (struct_lit_next-Tested ws)
          (λ l xs o.
            From-bind _ (parse_struct_lit_tail-Braces fv IsBlock expr sound n o)
              (λ fs ys g. From-pure _ (variant e f a dotted g)))
          (From-pure _ (bare_variant e f a dotted))))

  parse_qualified_rest-Qualified :
      (p : Token) {ts us : List Token} {t : Token}
      → DotName ts us t
      → From us
          (λ e ws. Qualified fv IsBlock (pos_at p) p.lexeme ts ws e)
          (parse_qualified_rest expr n p t)
  unfolding parse_qualified_rest
  parse_qualified_rest-Qualified p {us = us} a =
      From-check _ token_lparen (λ l vs b. parse_qualified_call-Qualified p a b)
        (From-test _ (struct_lit_next-Tested us)
          (λ l vs b.
            From-bind _ (parse_struct_lit_tail-Braces fv IsBlock expr sound n b)
              (λ fs ws c. From-pure _ (qualified_struct a c)))
          (From-pure _ (qualified_name-Qualified p a)))

  pub parse_qualified_tail-Qualified :
      (p : Token) {ts us : List Token} {d : Token}
      → Next token_dot ts us d
      → From ts
          (λ e ws. Qualified fv IsBlock (pos_at p) p.lexeme ts ws e)
          (parse_qualified_tail expr n p)
  unfolding parse_qualified_tail
  parse_qualified_tail-Qualified p {ts = ts} {us = us} b = From-Next _ refl b (
      From-bind _ (name_after_dot-NameAt _ us) (λ t vs c.
        let dotted : DotName ts vs t = record { dot = _; middle = us; at_dot = b; name = c } in
        From-check _ token_dot
          (λ d ws e.
            From-elim (not (is_valid_const_name p.lexeme) && not (is_valid_const_name t.lexeme))
              (λ z.
                let (f, g) =
                  both_not (is_valid_const_name p.lexeme) (is_valid_const_name t.lexeme) z in
                parse_enum_variant-Qualified p f g dotted e)
              (λ z. parse_qualified_rest-Qualified p dotted))
          (parse_qualified_rest-Qualified p dotted)))

  pub parse_name-Derives :
      {ts us : List Token} {t : Token}
      → Next token_ident ts us t
      → From us (λ e ws. Derives fv IsBlock atom_level ts ws e) (parse_name expr n t)
  unfolding parse_name
  parse_name-Derives {us = us} {t = t} a =
      From-check _ token_dot
        (λ d vs b. From-weaken (parse_qualified_tail-Qualified t b) (λ e ws q. qualified a q))
        (From-test _ (struct_lit_next-Tested us)
          (λ l vs b.
            From-bind _ (parse_struct_lit_tail-Braces fv IsBlock expr sound n b)
              (λ fs ws c. From-pure _ (struct_of a c)))
          (From-check _ token_lparen (λ l vs b. parse_call_tail-Derives a b)
            (From-pure _ (constant a))))
