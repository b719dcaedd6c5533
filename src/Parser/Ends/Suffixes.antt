-- ===== src/Parser/Ends/Suffixes.antt =====
-- The suffixes of the primaries of internal/parser/parser.go end: each one consumes a token.
use jennifer.Common.{
  String, ok, List, ◌∷◌, Option, none, some, ℕ, zero, suc, true, ◌≤◌, ◌≡◌, arith, refl, inl, inr,
  Bool-cases,
}
use jennifer.Lexer.Tokens.{
  Token, TokenType, token_lparen, token_lbracket, token_rbracket, token_dot,
}
use jennifer.Lexer.{is_eof}
use jennifer.Parser.Syntax.{Node}
use jennifer.Parser.Kinds.{same_kind}
use jennifer.Parser.State.{expect_field_name, raise, P, Parser, pure, ◌>>=◌}
use jennifer.Parser.Atoms.{Readers, suffix_at, suffixes, parse_primary}
use jennifer.Parser.Ends.Bounds.{
  At, At-two, More, Mode, Ensures, holds, rejected, Steps, Moves, Steps-bind, Steps-zero,
  Ensures-resume, Ensures-weaken,
}
use jennifer.Parser.Ends.Advances.{advance-More, peek-Ended, More-of, At-later}
use jennifer.Parser.Ends.Keeps.{peek_next_same, expect_field_name-Steps}
use jennifer.Parser.Ends.Levels.{is_eof-eq, Total}
use jennifer.Parser.Ends.Lists.{parse_paren_args-Moves}
use jennifer.Parser.Ends.Atoms.{parse_primary_atom-Total, parse_bracket_suffix-Moves}

-- With a suffix, a token was consumed.
abbrev Grown : ℕ → Mode → Option Node → Parser → Type 0
Grown k m none t = At (suc k) m t
Grown k m (some e) t = At k m t

some_of :
    {k : ℕ} {p : P Node}
    → Moves k p
    → (m : Mode) (s : Parser) → At (suc k) m s
    → More s
    → Ensures (Grown k m) ((p >>= λ e. pure (some e)) s)
unfolding ◌>>=◌ pure
some_of h m s a more = Ensures-resume _ (h m s a more) (λ e t b. holds b)

field_name-Steps : (k : ℕ) (ctx : String) → Steps k (expect_field_name ctx)
field_name-Steps zero ctx = Steps-zero (expect_field_name ctx)
field_name-Steps (suc k) ctx = expect_field_name-Steps ctx

after_suffix :
    {k : ℕ} {m : Mode} (e : Node) (next : Node → P Node) (o : Option Node) (t : Parser)
    → ((e' : Node) → Steps k (next e'))
    → Grown k m o t
    → Ensures
        (λ _ u. At (suc k) m u)
        (elim o as (λ _. P Node) [ none ↦ pure e | some e' ↦ next e' ] t)
unfolding pure
after_suffix e next none t h a = holds a
after_suffix {m = m} e next (some e') t h a = Ensures-weaken (h e' m t a) (λ x v d. At-later d)

module _ (r : Readers) (inner expr : P Node) (n : ℕ) (gi : Total n inner) (ge : Total n expr)
    (gb : Total n r.parse_block) where
  suffix_at-Grown :
      (κ : TokenType) (t : Token) (e : Node) (k : ℕ)
      → k ≤ n
      → (m : Mode) (s : Parser) → At (suc k) m s
      → More s
      → Ensures (Grown k m) (suffix_at r inner expr n κ t e s)
  unfolding suffix_at ◌>>=◌ pure raise
  suffix_at-Grown token_lbracket t e k i m s a more =
      Ensures-resume _ (peek_next_same s a.ended more) (λ u v q.
        rw q (elim (Bool-cases (same_kind u.kind token_rbracket)) [
          | inl z ↦ rw z rejected
          | inr z ↦
              rw z (some_of (parse_bracket_suffix-Moves r inner expr n gi ge gb e k i) m s a more)
        ]))
  suffix_at-Grown token_dot t e k i m s a more =
      Ensures-resume _ (advance-More s a more)
        (λ u v b. Ensures-resume _ (field_name-Steps k _ m v b) (λ name w c. holds c))
  suffix_at-Grown token_lparen t e k i m s a more =
      Ensures-resume _ (parse_paren_args-Moves expr n k i ge m s a more) (λ args t b. holds b)
  suffix_at-Grown _ t e k i m s a more = holds a

  suffix_at-eof :
      (κ : TokenType) (t : Token) (e : Node) (s : Parser)
      → is_eof κ ≡ true
      → suffix_at r inner expr n κ t e s ≡ ok (none, s)
  unfolding suffix_at pure
  suffix_at-eof κ t e s h = rw (is_eof-eq κ h) refl

  suffix_at-Ensures :
      (k : ℕ) (t : Token) (e : Node)
      → k ≤ n
      → (m : Mode) (s : Parser) → At (suc k) m s
      → ((ts : List Token) × (s.tokens ≡ t ∷ ts))
      → Ensures (Grown k m) (suffix_at r inner expr n t.kind t e s)
  suffix_at-Ensures k t e i m s a ts = elim (Bool-cases (is_eof t.kind)) [
    | inl y ↦ rw (suffix_at-eof t.kind t e s y) (holds a)
    | inr z ↦ suffix_at-Grown t.kind t e k i m s a (More-of s t ts z)
  ]

  suffixes-Steps :
      (f k : ℕ) → k ≤ suc f → k ≤ suc n → (e : Node) → Steps k (suffixes r inner expr n f e)
  unfolding suffixes ◌>>=◌ pure
  suffixes-Steps f zero i b e m s a = absurd (omega (arith, a.below))
  suffixes-Steps zero (suc k) i b e m s a = absurd (omega (arith, At-two s a))
  suffixes-Steps (suc f) (suc k) i b e m s a =
      Ensures-resume _ (peek-Ended s a.ended) (λ t u (q, ts, y). rw q (
        Ensures-resume _ (suffix_at-Ensures k t e (omega arith) m s a (ts, y)) (λ o t c.
          after_suffix e (suffixes r inner expr n f) o t
            (λ e'. suffixes-Steps f k (omega arith) (omega arith) e') c)))

  pub parse_primary-Total : Total (suc n) (parse_primary r inner expr n)
  unfolding parse_primary
  parse_primary-Total j i =
      Steps-bind (parse_primary_atom-Total r inner expr n gi ge gb j i)
        (λ e. suffixes-Steps n j i i e)
