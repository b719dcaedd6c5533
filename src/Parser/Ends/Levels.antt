-- ===== src/Parser/Ends/Levels.antt =====
-- The levels of binary operators of internal/parser/parser.go end: their loop consumes an operator in
-- every round, and the depth is set back.
use jennifer.Common.{
  Option, none, some, ℕ, zero, suc, true, false, ◌≤◌, ◌≡◌, arith, refl, ◌∙◌, inl, inr, Bool-cases,
  Option-cases,
}
use jennifer.Ast.{BinaryOp}
use jennifer.Lexer.Tokens.{TokenType, token_eof}
use jennifer.Lexer.{is_eof}
use jennifer.Parser.Syntax.{Node}
use jennifer.Parser.State.{Parser, P, ◌>>=◌, pure, get_depth, set_depth}
use jennifer.Parser.Operators.{operands, level}
use jennifer.Parser.Ends.Bounds.{
  At-two, At, Mode, Ensures, holds, weight, Steps, Ensures-resume, Ensures-weaken,
}
use jennifer.Parser.Ends.Advances.{peek-Ended, advance-More, More-of, At-later}
use jennifer.Parser.Ends.Keeps.{deeper_mode, deepen_expr_lem}

-- A step with any bound on what is to be read up to `n`.
abbrev pub Total : {A : Type 0} → ℕ → P A → Type 0
Total n p = (j : ℕ) → j ≤ n → Steps j p

pub is_eof-eq : (t : TokenType) → is_eof t ≡ true → t ≡ token_eof
is_eof-eq token_eof h = refl
is_eof-eq _ h = cc

abbrev AtDepth : ℕ → Mode → Parser → Type 0
AtDepth k m s = (d : ℕ) × At k (record m { depth = d }) s

pub not_eof :
    (op_of : TokenType → Option BinaryOp) (t : TokenType) (op : BinaryOp)
    → op_of token_eof ≡ none
    → op_of t ≡ some op
    → is_eof t ≡ false
not_eof op_of t op e h = elim (Bool-cases (is_eof t)) [
  | inl y ↦ let q : t ≡ token_eof = is_eof-eq t y in cc
  | inr n ↦ n
]

module _ (op_of : TokenType → Option BinaryOp) (e : op_of token_eof ≡ none) (next : P Node) where
  operands-Ends :
      (n j : ℕ)
      → j ≤ suc n
      → Total (suc n) next
      → (left : Node) (m : Mode) (s : Parser) → At j m s
      → Ensures (λ _ t. AtDepth j m t) (operands op_of next n left s)
  unfolding operands ◌>>=◌ pure
  operands-Ends n zero i g left m s a = absurd (omega (arith, a.below))
  operands-Ends zero (suc j) i g left m s a = absurd (omega (arith, At-two s a))
  operands-Ends (suc n) (suc j) i g left m s a =
      Ensures-resume _ (peek-Ended s a.ended) (λ t u (q, ts, y).
        rw q (elim (Option-cases (op_of t.kind)) [
          | inl z ↦ rw z (holds (m.depth, a))
          | inr (op, z) ↦ rw z (
              Ensures-resume _ (deepen_expr_lem s a) (λ _ u (b, same).
                Ensures-resume _
                  (advance-More u b (More-of u t (ts, same ∙ y) (not_eof op_of t.kind op e z)))
                  (λ _ v c. Ensures-resume _ (g j (omega arith) (deeper_mode m) v c) (λ right w d.
                    Ensures-weaken
                      (operands-Ends n j (omega arith) (λ k l. g k (omega arith)) _ (deeper_mode m)
                        w d)
                      (λ r x (dep, f). (dep, At-later f))))))
        ]))

  set_back :
      {k : ℕ} {m : Mode} (n : ℕ) (s : Parser)
      → n ≡ m.depth
      → AtDepth k m s
      → At k m (record s { expr_depth = n })
  unfolding weight
  set_back n s q (d, a) = record {
    ended = a.ended;
    below = a.below;
    within = a.within;
    nested = q;
    flagged = a.flagged;
  }

  pub level-Total : (n : ℕ) → Total (suc n) next → Total (suc n) (level op_of n next)
  unfolding level ◌>>=◌ pure get_depth set_depth
  level-Total n g j i m s a = Ensures-resume _ (g j i m s a) (λ left t b.
      Ensures-resume _ (operands-Ends n j i g left m t b)
        (λ r u c. holds (set_back t.expr_depth u b.nested c)))
