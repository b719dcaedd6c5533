-- ===== src/Parser/Sound/Levels.antt =====
-- The operators of internal/parser/parser.go, level by level, read what the grammar says.
use jennifer.Common.{
  ==_iff, ap, sym, ◌∙◌, List, ◌∷◌, Option, none, some, ℕ, zero, suc, true, ◌≡◌, refl, ◌^◌,
}
use jennifer.Ast.{UnaryOp, op_neg, op_not, op_bit_not}
use jennifer.Lexer.Tokens.{
  Token, TokenType, token_eof, token_dotdot, token_minus, token_bit_not, token_not, token_int,
}
use jennifer.Parser.Syntax.{Node, Block, unary}
use jennifer.Parser.Kinds.{same_kind}
use jennifer.Parser.Numbers.{parse_uint}
use jennifer.Parser.State.{pure, P, pos_at}
use jennifer.Parser.Operators.{operands, level}
use jennifer.Parser.Expr.{
  is_most_negative, fold_most_negative_int, if_int, prefixed, parse_unary_minus, parse_not,
  parse_range, parse_expr,
}
use jennifer.Parser.Ends.Levels.{not_eof}
use jennifer.Parser.Grammar.{Derives, tight, infix_op, a_range, negated, minus, inverted, least_int}
use jennifer.Parser.Ladder.{
  Level, level_op, tighter, range_level, or_level, not_level, comparison_level, prefix_level,
  postfix_level, Next,
}
use jennifer.Parser.Sound.Reading.{
  From-over, From-option, From, Reads, From-pure, From-raise, From-peek, From-bind, From-elim,
  From-check, From-Next, From-match, From-weaken, From-Quiet, From-seed, Next-of,
}
use jennifer.Parser.Sound.QuietSteps.{
  deepen_expr-Quiet, undeepen-Quiet, get_depth-Quiet, set_depth-Quiet,
}
use jennifer.Parser.Sound.Atoms.{same_kind_refl}

is_int : same_kind token_int token_int ≡ true
is_int = same_kind_refl token_int

most_negative : (o : Option ℕ) → is_most_negative o ≡ true → o ≡ some (2 ^ 63)
unfolding is_most_negative
most_negative none h = cc
most_negative (some u) h = ap some ((==_iff u (2 ^ 63)).0 h)

module _ (fv : List ℕ → Option ℕ) (IsBlock : List Token → List Token → Block → Type 0) where
  abbrev D : Level → List Token → List Token → Node → Type 0
  D = Derives fv IsBlock

  -- The loop of a level: what is read so far is its left operand.
  operands-Derives :
      (l : Level) (n : ℕ) {next : P Node}
      → level_op l token_eof ≡ none
      → Reads (D (tighter l)) next
      → {ts us : List Token} (left : Node) → D l ts us left
      → From us (λ e vs. D l ts vs e) (operands (level_op l) next n left)
  unfolding operands
  operands-Derives l zero h sound left d = From-raise _
  operands-Derives l (suc n) h sound left d = From-peek (λ t vs q.
      From-option (level_op l t.kind) (λ z. From-pure left d)
        (λ op z. From-Quiet _ deepen_expr-Quiet (λ _.
          From-over (not_eof (level_op l) t.kind op h z) q (
            From-bind _ (sound vs)
              (λ right ws e. operands-Derives l n h sound _ (infix_op d q z e))))))

  pub level-Derives :
      (l : Level) (n : ℕ) {next : P Node}
      → level_op l token_eof ≡ none
      → Reads (D (tighter l)) next
      → Reads (D l) (level (level_op l) n next)
  unfolding level
  level-Derives l n h sound ts = From-bind _ (sound ts) (λ left us d.
      From-Quiet _ get_depth-Quiet (λ saved.
        From-bind _ (operands-Derives l n h sound left (tight d))
          (λ e vs f. From-Quiet _ (set_depth-Quiet saved) (λ _. From-pure e f))))

  prefixed-Derives :
      (op : UnaryOp) (t : Token) {p : P Node} {us : List Token} {Q : Node → List Token → Type 0}
      → From us (λ e vs. Q (unary (pos_at t) op e) vs) p
      → From us Q (prefixed op t p)
  unfolding prefixed
  prefixed-Derives op t k =
      From-Quiet _ deepen_expr-Quiet
        (λ _. From-bind _ k (λ e vs d. From-Quiet _ undeepen-Quiet (λ _. From-pure _ d)))

  pub parse_not-Derives :
      (n : ℕ) {comparison : P Node}
      → Reads (D comparison_level) comparison
      → Reads (D not_level) (parse_not n comparison)
  unfolding parse_not
  parse_not-Derives zero sound ts = From-raise _
  parse_not-Derives (suc n) sound ts = From-seed _ (
      From-match _ token_not refl
        (λ t us a.
          prefixed-Derives op_not t
            (From-weaken (parse_not-Derives n sound us) (λ e vs d. negated a d)))
        (From-weaken (sound ts) (λ e vs d. tight d)))

  -- The int behind a minus sign, or nothing read.
  abbrev Folded : List Token → List Token → Option Node → List Token → Type 0
  Folded ts us none vs = vs ≡ us
  Folded ts us (some e) vs = D prefix_level ts vs e

  fold_most_negative_int-Folded :
      {ts us vs : List Token} {t u : Token}
      → Next token_minus ts us t
      → us ≡ u ∷ vs
      → u.kind ≡ token_int
      → From us (Folded ts us) fold_most_negative_int
  unfolding fold_most_negative_int
  fold_most_negative_int-Folded {us = us} {vs = vs} {u = u} a q k = From-peek (λ v ws r.
      From-elim (is_most_negative (parse_uint v.lexeme))
        (λ z.
          let ends : u ∷ vs ≡ v ∷ ws = sym q ∙ r in
          let same : u ≡ v = cc in
          let b : Next token_int us ws v = Next-of r (rw⁻¹ same (rw k is_int)) in
          From-Next _ refl b (From-pure (some _) (least_int a b (most_negative _ z))))
        (λ z. From-pure none refl))

  if_int-Folded :
      {ts us vs : List Token} {t u : Token} (κ : TokenType)
      → Next token_minus ts us t
      → us ≡ u ∷ vs
      → u.kind ≡ κ
      → From us (Folded ts us) (if_int κ fold_most_negative_int)
  if_int-Folded token_int a q k = fold_most_negative_int-Folded a q k
  if_int-Folded _ a q k = From-pure none refl

  From-Folded :
      {ts us vs : List Token} (o : Option Node) {p : P Node}
      → Folded ts us o vs
      → From us (λ e ws. D prefix_level ts ws e) p
      → From vs (λ e ws. D prefix_level ts ws e) (elim o [ some e ↦ pure e | none ↦ p ])
  From-Folded none h k = rw h k
  From-Folded (some e) h k = From-pure e h

  pub parse_unary_minus-Derives :
      (n : ℕ) {primary : P Node}
      → Reads (D postfix_level) primary
      → Reads (D prefix_level) (parse_unary_minus n primary)
  unfolding parse_unary_minus
  parse_unary_minus-Derives zero sound ts = From-raise _
  parse_unary_minus-Derives (suc n) sound ts = From-seed _ (
      From-match _ token_minus refl
        (λ t us a. From-peek (λ u vs q. From-bind _ (if_int-Folded u.kind a q refl) (λ o ws h.
          From-Folded o h (
            prefixed-Derives op_neg t
              (From-weaken (parse_unary_minus-Derives n sound us) (λ e vs d. minus a d))))))
        (From-match _ token_bit_not refl
          (λ t us a.
            prefixed-Derives op_bit_not t
              (From-weaken (parse_unary_minus-Derives n sound us) (λ e vs d. inverted a d)))
          (From-weaken (sound ts) (λ e vs d. tight d))))

  parse_range-Derives : {p : P Node} → Reads (D or_level) p → Reads (D range_level) (parse_range p)
  unfolding parse_range
  parse_range-Derives sound ts = From-bind _ (sound ts) (λ lo us d.
      From-check _ token_dotdot
        (λ t vs a. From-Next _ refl a (
          From-bind _ (sound vs) (λ hi ws e. From-peek (λ u xs q.
            From-check _ token_dotdot (λ t ys b. From-raise _) (From-pure _ (a_range d a e))))))
        (From-pure lo (tight d)))

  pub parse_expr-Derives :
      {p : P Node} → Reads (D or_level) p → Reads (D range_level) (parse_expr p)
  unfolding parse_expr
  parse_expr-Derives sound ts = From-Quiet _ deepen_expr-Quiet (λ _.
      From-bind _ (parse_range-Derives sound ts)
        (λ e us d. From-Quiet _ undeepen-Quiet (λ _. From-pure e d)))
