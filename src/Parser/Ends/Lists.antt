-- ===== src/Parser/Ends/Lists.antt =====
-- The lists of internal/parser/parser.go end: each round of a loop consumes a separator.
use jennifer.Common.{List, [], ◌∷◌, ℕ, zero, suc, ◌≤◌, arith, refl}
use jennifer.Lexer.Tokens.{token_comma, token_rparen, token_rbracket, token_rbrace, token_colon}
use jennifer.Parser.Syntax.{Node}
use jennifer.Parser.State.{P}
use jennifer.Parser.Lists.{
  args_from, args_unless_closed, parse_paren_args, elements, parse_list_lit, entries, parse_map_lit,
  is_seen, fields_from, parse_struct_lit_tail,
}
use jennifer.Parser.Ends.Bounds.{
  Moves, Steps-suc, Steps-Starts, Starts, Steps-bind, Steps-pure, Steps-zero, Steps-reject,
  Steps-elim,
}
use jennifer.Parser.Ends.Advances.{
  Moves-advance, Steps-check, Steps-match, Steps-expect, Starts-advance,
}
use jennifer.Parser.Ends.Keeps.{allowing_struct_lit-Steps, expect_field_name-Steps}
use jennifer.Parser.Ends.Levels.{Total}

abbrev pub less : {A : Type 0} {n : ℕ} {p : P A} → Total (suc n) p → Total n p
less g j i = g j (omega (arith, i))

module _ (expr : P Node) where
  args_from-Total : (n : ℕ) → Total n expr → Total n (args_from expr n)
  unfolding args_from
  args_from-Total n g zero i = Steps-zero (args_from expr n)
  args_from-Total zero g (suc j) i = absurd (omega (arith, i))
  args_from-Total (suc n) g (suc j) i = Steps-bind (g (suc j) i) (λ arg.
      Steps-match _ token_comma refl
        (λ t. Steps-bind (args_from-Total n (less g) j (omega arith)) (λ r. Steps-pure _))
        (Steps-pure _))

  pub args_unless_closed-Total : (n : ℕ) → Total n expr → Total n (args_unless_closed expr n)
  unfolding args_unless_closed
  args_unless_closed-Total n g zero i = Steps-zero (args_unless_closed expr n)
  args_unless_closed-Total n g (suc j) i =
      Steps-check _ token_rparen refl (Steps-Starts (Steps-pure _)) (args_from-Total n g (suc j) i)

  pub parse_paren_args-Moves : (n j : ℕ) → j ≤ n → Total n expr → Moves j (parse_paren_args expr n)
  unfolding parse_paren_args
  parse_paren_args-Moves n j i g = Moves-advance (λ u. allowing_struct_lit-Steps (
      Steps-suc j (λ k l.
        Steps-bind (args_unless_closed-Total n g (suc k) (omega arith))
          (λ args. Steps-expect token_rparen _ refl (λ u. Steps-pure _)))))

  elements-Total : (n : ℕ) → Total n expr → Total n (elements expr n)
  unfolding elements
  elements-Total n g zero i = Steps-zero (elements expr n)
  elements-Total zero g (suc j) i = absurd (omega (arith, i))
  elements-Total (suc n) g (suc j) i =
      Steps-check _ token_rbracket refl (Steps-Starts (Steps-pure _)) (
        Steps-bind (g (suc j) i) (λ e.
          Steps-match _ token_comma refl
            (λ t. Steps-bind (elements-Total n (less g) j (omega arith)) (λ r. Steps-pure _))
            (Steps-pure _)))

  pub parse_list_lit-Starts : (n j : ℕ) → j ≤ n → Total n expr → Starts j (parse_list_lit expr n)
  unfolding parse_list_lit
  parse_list_lit-Starts n j i g = Starts-advance (λ u. allowing_struct_lit-Steps (
      Steps-suc j (λ k l.
        Steps-bind (elements-Total n g (suc k) (omega arith))
          (λ es. Steps-expect token_rbracket _ refl (λ u. Steps-pure _)))))

  entries-Total : (n : ℕ) → Total n expr → Total n (entries expr n)
  unfolding entries
  entries-Total n g zero i = Steps-zero (entries expr n)
  entries-Total zero g (suc j) i = absurd (omega (arith, i))
  entries-Total (suc n) g (suc j) i =
      Steps-check _ token_rbrace refl (Steps-Starts (Steps-pure _)) (
        Steps-bind (g (suc j) i) (λ key. Steps-expect token_colon _ refl (λ u. Steps-suc j (λ k l.
          Steps-bind (g (suc k) (omega arith)) (λ val.
            Steps-match _ token_comma refl
              (λ t. Steps-bind (entries-Total n (less g) k (omega arith)) (λ r. Steps-pure _))
              (Steps-pure _))))))

  pub parse_map_lit-Starts : (n j : ℕ) → j ≤ n → Total n expr → Starts j (parse_map_lit expr n)
  unfolding parse_map_lit
  parse_map_lit-Starts n j i g = Starts-advance (λ u. allowing_struct_lit-Steps (
      Steps-suc j (λ k l.
        Steps-bind (entries-Total n g (suc k) (omega arith))
          (λ es. Steps-expect token_rbrace _ refl (λ u. Steps-pure _)))))

  fields_from-Total :
      (n : ℕ) → Total n expr → (seen : List (List ℕ)) → Total n (fields_from expr n seen)
  unfolding fields_from
  fields_from-Total n g seen zero i = Steps-zero (fields_from expr n seen)
  fields_from-Total zero g seen (suc j) i = absurd (omega (arith, i))
  fields_from-Total (suc n) g seen (suc j) i =
      Steps-check _ token_rbrace refl (Steps-Starts (Steps-pure _)) (
        Steps-bind (expect_field_name-Steps _) (λ fname.
          Steps-elim (is_seen fname.lexeme seen) _ _ (Steps-reject _) (
            Steps-expect token_colon _ refl (λ u. Steps-suc j (λ k l.
              Steps-bind (g (suc k) (omega arith)) (λ val.
                Steps-match _ token_comma refl
                  (λ t.
                    Steps-bind (fields_from-Total n (less g) (fname.lexeme ∷ seen) k (omega arith))
                      (λ r. Steps-pure _))
                  (Steps-pure _)))))))

  pub parse_struct_lit_tail-Starts :
      (n j : ℕ) → j ≤ n → Total n expr → Starts j (parse_struct_lit_tail expr n)
  unfolding parse_struct_lit_tail
  parse_struct_lit_tail-Starts n j i g = Starts-advance (λ u. allowing_struct_lit-Steps (
      Steps-suc j (λ k l.
        Steps-bind (fields_from-Total n g [] (suc k) (omega arith))
          (λ fs. Steps-expect token_rbrace _ refl (λ u. Steps-pure _)))))
