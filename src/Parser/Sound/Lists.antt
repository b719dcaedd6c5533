-- ===== src/Parser/Sound/Lists.antt =====
-- The lists of internal/parser/parser.go read what the grammar says.
use jennifer.Common.{String, List, [], ◌∷◌, Option, ℕ, zero, suc, refl}
use jennifer.Lexer.Tokens.{
  Token, token_comma, token_rparen, token_lparen, token_rbracket, token_lbracket, token_rbrace,
  token_lbrace, token_colon,
}
use jennifer.Parser.Syntax.{Node, Block, no_nodes}
use jennifer.Parser.Kinds.{is_post_dot_name}
use jennifer.Parser.State.{P, expect_field_name}
use jennifer.Parser.Lists.{
  args_from, args_unless_closed, parse_paren_args, elements, parse_list_lit, entries, parse_map_lit,
  is_seen, fields_from, parse_struct_lit_tail,
}
use jennifer.Parser.Grammar.{
  Derives, Args, last_arg, more_args, Parens, no_args, with_args, Elements, no_elements,
  last_element, more_elements, entry, Entries, no_entries, last_entry, more_entries, field_of,
  FieldList, end_of_fields, last_field, more_fields, Braces, braced, list_of, map_of,
}
use jennifer.Parser.Ladder.{range_level, Next, NameAt, atom_level}
use jennifer.Parser.Sound.Reading.{
  From, Reads, From-pure, From-raise, From-peek, From-advance, From-bind, From-elim, From-if,
  From-check, From-Next, From-match, From-expect, From-allowing, From-weaken,
}

pub expect_field_name-NameAt :
    (ctx : String) (ts : List Token) → From ts (λ t us. NameAt ts us t) (expect_field_name ctx)
unfolding expect_field_name
expect_field_name-NameAt ctx ts = From-peek (λ t us q.
    From-if (is_post_dot_name t)
      (λ z. From-advance (λ u vs e.
        From-pure t (record { rest = us; tokens = q; shape = rw z refl; behind = refl })))
      (λ z. From-raise _))

module _ (fv : List ℕ → Option ℕ) (IsBlock : List Token → List Token → Block → Type 0)
    (expr : P Node) (sound : Reads (Derives fv IsBlock range_level) expr) where
  args_from-Args : (n : ℕ) → Reads (Args fv IsBlock) (args_from expr n)
  unfolding args_from
  args_from-Args zero ts = From-raise _
  args_from-Args (suc n) ts = From-bind _ (sound ts) (λ arg us d.
      From-match _ token_comma refl
        (λ t vs c. From-bind _ (args_from-Args n vs) (λ rest ws ds. From-pure _ (more_args d c ds)))
        (From-pure _ (last_arg d)))

  -- From behind the opening parenthesis up to the closing one.
  pub args_unless_closed-Parens :
      (n : ℕ) {ts us : List Token} {l : Token}
      → Next token_lparen ts us l
      → From us
          (λ es vs.
            (c : Token) (ws : List Token)
            → Next token_rparen vs ws c
            → Parens fv IsBlock ts ws l es)
          (args_unless_closed expr n)
  unfolding args_unless_closed
  args_unless_closed-Parens n {us = us} a =
      From-check _ token_rparen (λ t vs b. From-pure no_nodes (λ c ws e. no_args a e))
        (From-weaken (args_from-Args n us) (λ es vs d c ws e. with_args a d e))

  pub parse_paren_args-Parens :
      (n : ℕ) {ts us : List Token} {l : Token}
      → Next token_lparen ts us l
      → From ts (λ es ws. Parens fv IsBlock ts ws l es) (parse_paren_args expr n)
  unfolding parse_paren_args
  parse_paren_args-Parens n a = From-Next _ refl a (
      From-allowing (
        From-bind _ (args_unless_closed-Parens n a)
          (λ es vs k. From-expect _ token_rparen _ refl (λ c ws e. From-pure es (k c ws e)))))

  elements-Elements : (n : ℕ) → Reads (Elements fv IsBlock) (elements expr n)
  unfolding elements
  elements-Elements zero ts = From-raise _
  elements-Elements (suc n) ts =
      From-check _ token_rbracket (λ t us c. From-pure _ (no_elements refl))
        (From-bind _ (sound ts) (λ e us d.
          From-match _ token_comma refl
            (λ t vs c.
              From-bind _ (elements-Elements n vs)
                (λ rest ws ds. From-pure _ (more_elements d c ds)))
            (From-pure _ (last_element d))))

  pub parse_list_lit-Derives :
      (n : ℕ) {ts us : List Token} {b : Token}
      → Next token_lbracket ts us b
      → From ts (λ e ws. Derives fv IsBlock atom_level ts ws e) (parse_list_lit expr n)
  unfolding parse_list_lit
  parse_list_lit-Derives n {us = us} a = From-Next _ refl a (
      From-allowing (
        From-bind _ (elements-Elements n us)
          (λ es vs k. From-expect _ token_rbracket _ refl (λ c ws e. From-pure _ (list_of a k e)))))

  entries-Entries : (n : ℕ) → Reads (Entries fv IsBlock) (entries expr n)
  unfolding entries
  entries-Entries zero ts = From-raise _
  entries-Entries (suc n) ts =
      From-check _ token_rbrace (λ t us c. From-pure _ (no_entries refl))
        (From-bind _ (sound ts) (λ key us d. From-expect _ token_colon _ refl (λ c vs e.
          From-bind _ (sound vs) (λ val ws f.
            From-match _ token_comma refl
              (λ t xs g.
                From-bind _ (entries-Entries n xs)
                  (λ rest ys ds. From-pure _ (more_entries (entry d e f) g ds)))
              (From-pure _ (last_entry (entry d e f)))))))

  pub parse_map_lit-Derives :
      (n : ℕ) {ts us : List Token} {b : Token}
      → Next token_lbrace ts us b
      → From ts (λ e ws. Derives fv IsBlock atom_level ts ws e) (parse_map_lit expr n)
  unfolding parse_map_lit
  parse_map_lit-Derives n {us = us} a = From-Next _ refl a (
      From-allowing (
        From-bind _ (entries-Entries n us)
          (λ es vs k. From-expect _ token_rbrace _ refl (λ c ws e. From-pure _ (map_of a k e)))))

  fields_from-FieldList :
      (n : ℕ) (seen : List (List ℕ)) → Reads (FieldList fv IsBlock seen) (fields_from expr n seen)
  unfolding fields_from
  fields_from-FieldList zero seen ts = From-raise _
  fields_from-FieldList (suc n) seen ts =
      From-check _ token_rbrace (λ t us c. From-pure _ (end_of_fields refl))
        (From-bind _ (expect_field_name-NameAt _ ts) (λ t us d.
          From-elim (is_seen t.lexeme seen) (λ z. From-raise _)
            (λ new. From-expect _ token_colon _ refl (λ c vs e. From-bind _ (sound vs) (λ val ws f.
              From-match _ token_comma refl
                (λ u xs g.
                  From-bind _ (fields_from-FieldList n (t.lexeme ∷ seen) xs)
                    (λ rest ys ds. From-pure _ (more_fields new (field_of d e f) g ds)))
                (From-pure _ (last_field new (field_of d e f))))))))

  pub parse_struct_lit_tail-Braces :
      (n : ℕ) {ts us : List Token} {b : Token}
      → Next token_lbrace ts us b
      → From ts (λ fs ws. Braces fv IsBlock ts ws fs) (parse_struct_lit_tail expr n)
  unfolding parse_struct_lit_tail
  parse_struct_lit_tail-Braces n {us = us} a = From-Next _ refl a (
      From-allowing (
        From-bind _ (fields_from-FieldList n [] us)
          (λ fs vs k. From-expect _ token_rbrace _ refl (λ c ws e. From-pure _ (braced a k e)))))
