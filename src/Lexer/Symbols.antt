-- ===== src/Lexer/Symbols.antt =====
-- The operators and brackets of internal/lexer/lexer.go.
use mathlib.Core.Path.{subst}
use jennifer.Common.{
  ◌⊎◌, inl, inr, ==_iff, ap, sym, ◌∙◌, refl, ◌==◌, Bool, List, Option, [], false, if◌then◌else◌,
  none, some, true, ℕ, ◌∷◌, ◌≡◌,
}
use jennifer.Lexer.Tokens.{
  token_dot, token_dotdot, token_percent, token_slash, token_div, token_star, token_minus,
  token_plus, token_bit_not, token_bit_xor, token_bit_or, token_bit_and, token_gt, token_shr,
  token_ge, token_lt, token_shl, token_le, token_neq, token_assign, token_eq, token_comma,
  token_colon, token_semi, token_rbracket, token_lbracket, token_rparen, token_lparen, token_rbrace,
  token_lbrace, TokenType,
}
use jennifer.Lexer.Position.{next_is}
use jennifer.Lexer.{symbol, one, two, is_eof}

-- The spelling of each operator and bracket.
abbrev pub symbol_text : TokenType → Option (List ℕ)
symbol_text token_lbrace = some (b'{' ∷ [])
symbol_text token_rbrace = some (b'}' ∷ [])
symbol_text token_lparen = some (b'(' ∷ [])
symbol_text token_rparen = some (b')' ∷ [])
symbol_text token_lbracket = some (b'[' ∷ [])
symbol_text token_rbracket = some (b']' ∷ [])
symbol_text token_semi = some (b';' ∷ [])
symbol_text token_colon = some (b':' ∷ [])
symbol_text token_comma = some (b',' ∷ [])
symbol_text token_eq = some (b'=' ∷ b'=' ∷ [])
symbol_text token_assign = some (b'=' ∷ [])
symbol_text token_neq = some (b'!' ∷ b'=' ∷ [])
symbol_text token_le = some (b'<' ∷ b'=' ∷ [])
symbol_text token_shl = some (b'<' ∷ b'<' ∷ [])
symbol_text token_lt = some (b'<' ∷ [])
symbol_text token_ge = some (b'>' ∷ b'=' ∷ [])
symbol_text token_shr = some (b'>' ∷ b'>' ∷ [])
symbol_text token_gt = some (b'>' ∷ [])
symbol_text token_bit_and = some (b'&' ∷ [])
symbol_text token_bit_or = some (b'|' ∷ [])
symbol_text token_bit_xor = some (b'^' ∷ [])
symbol_text token_bit_not = some (b'~' ∷ [])
symbol_text token_plus = some (b'+' ∷ [])
symbol_text token_minus = some (b'-' ∷ [])
symbol_text token_star = some (b'*' ∷ [])
symbol_text token_div = some (b'/' ∷ b'/' ∷ [])
symbol_text token_slash = some (b'/' ∷ [])
symbol_text token_percent = some (b'%' ∷ [])
symbol_text token_dotdot = some (b'.' ∷ b'.' ∷ [])
symbol_text token_dot = some (b'.' ∷ [])
symbol_text _ = none

-- A symbol that is found by its first rune, with the rune behind it: it has its own spelling, which is
-- that rune, or both.
pub record Headed (c : ℕ) (ahead : Option ℕ) (o : Option (TokenType × List ℕ)) : Type 0 where
  pub headed :
      (t : TokenType) (text : List ℕ)
      → o ≡ some (t, text)
      → (symbol_text t ≡ some text)
        × (is_eof t ≡ false)
        × ((text ≡ c ∷ []) ⊎ ((d : ℕ) × (ahead ≡ some d) × (text ≡ c ∷ d ∷ [])))

some_inj : {A : Type 0} {a b : A} → some a ≡ some b → a ≡ b
some_inj h = cc

Headed-here :
    {c : ℕ} {ahead : Option ℕ} (t : TokenType) (text : List ℕ)
    → symbol_text t ≡ some text
    → is_eof t ≡ false
    → ((text ≡ c ∷ []) ⊎ ((d : ℕ) × (ahead ≡ some d) × (text ≡ c ∷ d ∷ [])))
    → Headed c ahead (some (t, text))
Headed-here {c} {ahead} t text h n s = record {
  headed = λ u text' e.
      let q = some_inj e in
      subst
        (λ (z : TokenType × List ℕ).
          (symbol_text z.0 ≡ some z.1)
          × (is_eof z.0 ≡ false)
          × ((z.1 ≡ c ∷ []) ⊎ ((d : ℕ) × (ahead ≡ some d) × (z.1 ≡ c ∷ d ∷ []))))
        q (h, n, s);
}

Headed-one :
    {c : ℕ} {ahead : Option ℕ} (k : ℕ) (t : TokenType)
    → symbol_text t ≡ some (k ∷ [])
    → is_eof t ≡ false
    → (c == k) ≡ true
    → Headed c ahead (one c t)
Headed-one {c} k t h n e =
    let q : k ≡ c = sym ((==_iff c k).0 e) in
    Headed-here t (c ∷ []) (h ∙ ap (λ z. some (z ∷ [])) q) n (inl refl)

Headed-none : {c : ℕ} {ahead : Option ℕ} → Headed c ahead none
Headed-none = record { headed = λ u text e. cc }

Headed-if :
    {c : ℕ} {ahead : Option ℕ} (b : Bool) {x y : Option (TokenType × List ℕ)}
    → (b ≡ true → Headed c ahead x)
    → Headed c ahead y
    → Headed c ahead (if b then x else y)
Headed-if true h k = h refl
Headed-if false h k = k

next_is-some : (d : ℕ) (ahead : Option ℕ) → next_is d ahead ≡ true → ahead ≡ some d
next_is-some d none h = cc
next_is-some d (some e) h = ap some ((==_iff e d).0 h)

Headed-two :
    {c : ℕ} {ahead : Option ℕ} (k d : ℕ) (t : TokenType) {o : Option (TokenType × List ℕ)}
    → symbol_text t ≡ some (k ∷ d ∷ [])
    → is_eof t ≡ false
    → (c == k) ≡ true
    → Headed c ahead o
    → Headed c ahead (two ahead c d t o)
Headed-two {c} {ahead} k d t h n e other =
    let q : k ≡ c = sym ((==_iff c k).0 e) in
    Headed-if (next_is d ahead)
      (λ a.
        Headed-here t (c ∷ d ∷ []) (h ∙ ap (λ z. some (z ∷ d ∷ [])) q) n
          (inr (d, next_is-some d ahead a, refl)))
      other

pub symbol-Headed : (c : ℕ) (ahead : Option ℕ) → Headed c ahead (symbol c ahead)
unfolding symbol
symbol-Headed c ahead =
    Headed-if (c == b'{') (λ e. Headed-one b'{' token_lbrace refl refl e)
      (Headed-if (c == b'}') (λ e. Headed-one b'}' token_rbrace refl refl e)
        (Headed-if (c == b'(') (λ e. Headed-one b'(' token_lparen refl refl e)
          (Headed-if (c == b')') (λ e. Headed-one b')' token_rparen refl refl e)
            (Headed-if (c == b'[') (λ e. Headed-one b'[' token_lbracket refl refl e)
              (Headed-if (c == b']') (λ e. Headed-one b']' token_rbracket refl refl e)
                (Headed-if (c == b';') (λ e. Headed-one b';' token_semi refl refl e)
                  (Headed-if (c == b':') (λ e. Headed-one b':' token_colon refl refl e)
                    (Headed-if (c == b',') (λ e. Headed-one b',' token_comma refl refl e)
                      (Headed-if (c == b'=')
                        (λ e.
                          Headed-two b'=' b'=' token_eq refl refl e
                            (Headed-one b'=' token_assign refl refl e))
                        (Headed-if (c == b'!')
                          (λ e. Headed-two b'!' b'=' token_neq refl refl e Headed-none)
                          (Headed-if (c == b'<')
                            (λ e. Headed-two b'<' b'=' token_le refl refl e (
                              Headed-two b'<' b'<' token_shl refl refl e
                                (Headed-one b'<' token_lt refl refl e)))
                            (Headed-if (c == b'>')
                              (λ e. Headed-two b'>' b'=' token_ge refl refl e (
                                Headed-two b'>' b'>' token_shr refl refl e
                                  (Headed-one b'>' token_gt refl refl e)))
                              (Headed-if (c == b'&')
                                (λ e. Headed-one b'&' token_bit_and refl refl e)
                                (Headed-if (c == b'|')
                                  (λ e. Headed-one b'|' token_bit_or refl refl e)
                                  (Headed-if (c == b'^')
                                    (λ e. Headed-one b'^' token_bit_xor refl refl e)
                                    (Headed-if (c == b'~')
                                      (λ e. Headed-one b'~' token_bit_not refl refl e)
                                      (Headed-if (c == b'+')
                                        (λ e. Headed-one b'+' token_plus refl refl e)
                                        (Headed-if (c == b'-')
                                          (λ e. Headed-one b'-' token_minus refl refl e)
                                          (Headed-if (c == b'*')
                                            (λ e. Headed-one b'*' token_star refl refl e)
                                            (Headed-if (c == b'/')
                                              (λ e.
                                                Headed-two b'/' b'/' token_div refl refl e
                                                  (Headed-one b'/' token_slash refl refl e))
                                              (Headed-if (c == b'%')
                                                (λ e. Headed-one b'%' token_percent refl refl e)
                                                (Headed-if (c == b'.')
                                                  (λ e.
                                                    Headed-two b'.' b'.' token_dotdot refl refl e
                                                      (Headed-one b'.' token_dot refl refl e))
                                                  (Headed-none)))))))))))))))))))))))
