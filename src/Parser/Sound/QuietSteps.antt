-- ===== src/Parser/Sound/QuietSteps.antt =====
-- The steps of internal/parser/parser.go that leave the tokens alone.
use jennifer.Common.{leb, List, [], ◌∷◌, ℕ, ◌≡◌, refl, ◌∙◌}
use jennifer.Lexer.Position.{max_nesting_depth}
use jennifer.Lexer.Tokens.{Token}
use jennifer.Parser.State.{
  Parser, P, peek_next, second_token, deepen_expr, deepen, undeepen, get_depth, set_depth,
  get_no_struct_lit,
}
use jennifer.Parser.Sound.Reading.{
  Quiet, Yields, yields, failed, Yields-weaken, From-Quiet, From-if, From-peek, From-raise,
}

module _ {A : Type 0} where
  Quiet-of :
      (p : P A)
      → ((s : Parser) → Yields (λ _ t. (t.tokens ≡ s.tokens) × (t.seed ≡ s.seed)) (p s))
      → Quiet p
  Quiet-of p g ts s h =
      Yields-weaken (g s)
        (λ a t (q, e). (ts, record { tokens = q ∙ h.tokens; no_seed = e ∙ h.no_seed }, refl))

pub get_depth-Quiet : Quiet get_depth
unfolding get_depth
get_depth-Quiet = Quiet-of get_depth (λ s. yields (refl, refl))

pub set_depth-Quiet : (n : ℕ) → Quiet (set_depth n)
unfolding set_depth
set_depth-Quiet n = Quiet-of (set_depth n) (λ s. yields (refl, refl))

pub undeepen-Quiet : Quiet undeepen
unfolding undeepen
undeepen-Quiet = Quiet-of undeepen (λ s. yields (refl, refl))

pub deepen-Quiet : Quiet deepen
unfolding deepen
deepen-Quiet = Quiet-of deepen (λ s. yields (refl, refl))

pub get_no_struct_lit-Quiet : Quiet get_no_struct_lit
unfolding get_no_struct_lit
get_no_struct_lit-Quiet = Quiet-of get_no_struct_lit (λ s. yields (refl, refl))

pub deepen_expr-Quiet : Quiet deepen_expr
unfolding deepen_expr
deepen_expr-Quiet ts = From-Quiet _ get_depth-Quiet (λ n.
    From-if (leb max_nesting_depth n) (λ z. From-peek (λ t us q. From-raise _))
      (λ z. deepen-Quiet ts))

second_Quiet :
    (ts : List Token) (s : Parser)
    → Yields (λ _ t. (t.tokens ≡ s.tokens) × (t.seed ≡ s.seed)) (second_token s ts)
second_Quiet [] s = failed
second_Quiet (t ∷ []) s = failed
second_Quiet (t ∷ u ∷ ts) s = yields (refl, refl)

pub peek_next-Quiet : Quiet peek_next
unfolding peek_next
peek_next-Quiet = Quiet-of peek_next (λ s. second_Quiet s.tokens s)
