-- ===== src/Lexer/Texts.antt =====
-- The tokens of internal/lexer/lexer.go and the source that they are read from.
use jennifer.Lexer.Chars.{is_ident_part}
use jennifer.Lexer.Literals.{
  name_run-text, no_error, read_block_comment-text, ok_inj, read_identifier_or_keyword-text,
  snoc_append, word_kind,
}
use jennifer.Lexer.Moves.{place_after, Moved, is_literal}
use jennifer.Lexer.{lex_error, is_ident_start, skip, plain_token, symbol, is_eof}
use jennifer.Lexer.Trivia.{
  block_text, is_pair, is_shebang, read_block_comment, read_line_comment, line_text, skip_space,
  is_blank,
}
use jennifer.Common.{
  ==_iff, bind-ok, sym, ◌>>=◌, get_elem?, if◌then◌else◌, ok, ◌+◌, ◌∙◌, All, Bool-cases, ap, arith,
  false, inl, inr, refl, text_eq, true, ◌++◌, ◌==◌, ◌||◌, List, [], ◌∷◌, some, ℕ, Bool, ◌≡◌,
}
use jennifer.Lexer.Tokens.{
  token_comment_shebang, token_comment_block, keywords, token_comment_line, lookup_keyword,
  find_keyword, Token, TokenType, token_eof, token_varref, token_blank_line,
}
use jennifer.Lexer.Symbols.{symbol-Headed, symbol_text}
use mathlib.Core.Path.{subst}
use jennifer.Lexer.Names.{name_run, starts_name, read_identifier_or_keyword, read_var_ref}
use jennifer.Lexer.Position.{expected_identifier, name_too_long, next_place, cursor, Cursor, Place}

-- What `nextTrivia` passes over.
abbrev pub is_space : ℕ → Bool
is_space c = c == b'\n' || is_blank c

abbrev pub is_comment : TokenType → Bool
is_comment token_comment_line = true
is_comment token_comment_block = true
is_comment token_comment_shebang = true
is_comment _ = false

-- A token is spelled by what the source `s` has in front of `rest`: an operator by the spelling of its
-- kind, a name or keyword and a comment by its text, a variable by its name behind a `$`, a number or
-- string by its raw text, a blank line by blanks and newlines; the end of the source by nothing, with
-- nothing left.
pub data Spelled (t : Token) (s rest : List ℕ) : Type 0 where
  as_symbol :
      is_eof t.kind ≡ false
      → symbol_text t.kind ≡ some t.lexeme
      → t.lexeme ++ rest ≡ s
      → Spelled t s rest
  as_word : t.kind ≡ word_kind (lookup_keyword t.lexeme) → t.lexeme ++ rest ≡ s → Spelled t s rest
  as_variable : t.kind ≡ token_varref → b'$' ∷ t.lexeme ++ rest ≡ s → Spelled t s rest
  as_literal : is_literal t.kind ≡ true → t.raw ++ rest ≡ s → Spelled t s rest
  as_comment : is_comment t.kind ≡ true → t.lexeme ++ rest ≡ s → Spelled t s rest
  as_blank_line :
      t.kind ≡ token_blank_line
      → (text : List ℕ) → All (λ c. is_space c ≡ true) text
      → text ++ rest ≡ s
      → Spelled t s rest
  at_end : t.kind ≡ token_eof → s ≡ [] → rest ≡ [] → Spelled t s rest

live : (k : TokenType) → (is_literal k || is_comment k) ≡ true → is_eof k ≡ false
live token_eof h = cc
live _ h = refl

keywords_live : All (λ (e : List ℕ × TokenType). is_eof e.1 ≡ false) keywords
keywords_live = (
  refl,
  (
    refl,
    (
      refl,
      (
        refl,
        (
          refl,
          (
            refl,
            (
              refl,
              (
                refl,
                (
                  refl,
                  (
                    refl,
                    (
                      refl,
                      (
                        refl,
                        (
                          refl,
                          (
                            refl,
                            (
                              refl,
                              (
                                refl,
                                (
                                  refl,
                                  (
                                    refl,
                                    (
                                      refl,
                                      (
                                        refl,
                                        (
                                          refl,
                                          (
                                            refl,
                                            (
                                              refl,
                                              (
                                                refl,
                                                (
                                                  refl,
                                                  (
                                                    refl,
                                                    (
                                                      refl,
                                                      (
                                                        refl,
                                                        (
                                                          refl,
                                                          (
                                                            refl,
                                                            (
                                                            refl,
                                                            (
                                                            refl,
                                                            (
                                                            refl,
                                                            (
                                                            refl,
                                                            (
                                                            refl,
                                                            (
                                                            refl,
                                                            (
                                                            refl,
                                                            (
                                                            refl,
                                                            (
                                                            refl,
                                                            (
                                                            refl,
                                                            (
                                                            refl,
                                                            (
                                                            refl,
                                                            (
                                                            refl,
                                                            (
                                                            refl,
                                                            (refl, (refl, (refl, (refl, tt)))),
                                                            ),
                                                            ),
                                                            ),
                                                            ),
                                                            ),
                                                            ),
                                                            ),
                                                            ),
                                                            ),
                                                            ),
                                                            ),
                                                            ),
                                                            ),
                                                            ),
                                                          ),
                                                        ),
                                                      ),
                                                    ),
                                                  ),
                                                ),
                                              ),
                                            ),
                                          ),
                                        ),
                                      ),
                                    ),
                                  ),
                                ),
                              ),
                            ),
                          ),
                        ),
                      ),
                    ),
                  ),
                ),
              ),
            ),
          ),
        ),
      ),
    ),
  ),
)

find_keyword-live :
    (name : List ℕ) (table : List (List ℕ × TokenType))
    → All (λ (e : List ℕ × TokenType). is_eof e.1 ≡ false) table
    → is_eof (word_kind (find_keyword name table)) ≡ false
unfolding find_keyword
find_keyword-live name [] h = refl
find_keyword-live name ((w, k) ∷ table) (n, h) = elim (Bool-cases (text_eq w name)) [
  | inl e ↦ rw (e, find_keyword) n
  | inr e ↦ rw (e, find_keyword) (find_keyword-live name table h)
]

word_live : (name : List ℕ) → is_eof (word_kind (lookup_keyword name)) ≡ false
unfolding lookup_keyword
word_live name = find_keyword-live name keywords keywords_live

-- Only the end of the source is an end-of-file token, and nothing is left behind it.
pub Spelled-eof :
    {t : Token} {s rest : List ℕ} → Spelled t s rest → is_eof t.kind ≡ true → rest ≡ []
Spelled-eof (as_symbol n h e) k = cc
Spelled-eof {t} (as_word h e) k = cc (ap is_eof h, word_live t.lexeme)
Spelled-eof (as_variable h e) k = cc (ap is_eof h)
Spelled-eof {t} (as_literal h e) k = cc (live t.kind (rw h refl))
Spelled-eof {t} (as_comment h e) k = ground (arith, live t.kind)
Spelled-eof (as_blank_line h x a e) k = cc (ap is_eof h)
Spelled-eof (at_end h e r) k = r

pub Spelled-file :
    {t : Token} {s rest : List ℕ} (file : List ℕ)
    → Spelled t s rest
    → Spelled (record t { file = file }) s rest
Spelled-file file (as_symbol n h e) = as_symbol n h e
Spelled-file file (as_word h e) = as_word h e
Spelled-file file (as_variable h e) = as_variable h e
Spelled-file file (as_literal h e) = as_literal h e
Spelled-file file (as_comment h e) = as_comment h e
Spelled-file file (as_blank_line h x a e) = as_blank_line h x a e
Spelled-file file (at_end h e q) = at_end h e q

-- The cursor stands behind blanks and newlines alone.
pub record Skipped (s : List ℕ) (p : Place) (l : Cursor) : Type 0 where
  pub text : List ℕ
  pub space : All (λ c. is_space c ≡ true) text
  pub source : s ≡ text ++ l.rest
  pub place : l.at ≡ place_after text p

pub Skipped-Moved : {s : List ℕ} {p : Place} {l : Cursor} → Skipped s p l → Moved s p l
Skipped-Moved m = record { text = m.text; source = m.source; place = m.place }

pub Skipped-refl : (s : List ℕ) (p : Place) → Skipped s p (cursor s p)
unfolding place_after
Skipped-refl s p = record { text = []; space = tt; source = refl; place = refl }

Skipped-cons :
    (c : ℕ) {s : List ℕ} {p : Place} {l : Cursor}
    → is_space c ≡ true
    → Skipped s (next_place c p) l
    → Skipped (c ∷ s) p l
unfolding place_after
Skipped-cons c h m = record {
  text = c ∷ m.text;
  space = (h, m.space);
  source = ap (λ t. c ∷ t) m.source;
  place = m.place;
}

newline_space : (c : ℕ) → (c == b'\n') ≡ true → is_space c ≡ true
newline_space c h = ground arith

blank_space : (c : ℕ) → is_blank c ≡ true → is_space c ≡ true
blank_space c h = ground arith

pub skip_space-Skipped : (s : List ℕ) (p : Place) (n : ℕ) → Skipped s p ((skip_space s p n).1)
unfolding skip_space
skip_space-Skipped [] p n = Skipped-refl [] p
skip_space-Skipped (c ∷ s) p n = elim (Bool-cases (c == b'\n')) [
  | inl e ↦
      rw (e, skip_space)
        (Skipped-cons c (newline_space c e) (skip_space-Skipped s (next_place c p) (n + 1)))
  | inr e ↦ elim (Bool-cases (is_blank c)) [
    | inl b ↦
        rw (e, skip_space)
          (rw (b, skip_space)
            (Skipped-cons c (blank_space c b) (skip_space-Skipped s (next_place c p) n)))
    | inr b ↦ rw (e, skip_space) (rw (b, skip_space) (Skipped-refl (c ∷ s) p))
  ]
]

line_text-text :
    (s : List ℕ) (p : Place) (b : List ℕ) → (line_text s p b).0 ++ (line_text s p b).1.rest ≡ b ++ s
unfolding line_text
line_text-text [] p b = refl
line_text-text (c ∷ s) p b = elim (Bool-cases (c == b'\n')) [
  | inl e ↦ rw (e, line_text) refl
  | inr e ↦ rw (e, line_text) (line_text-text s (next_place c p) (b ++ c ∷ []) ∙ snoc_append b c s)
]

line_kind : (b : Bool) → is_comment (if b then token_comment_shebang else token_comment_line) ≡ true
line_kind true = refl
line_kind false = refl

pub read_line_comment-Spelled :
    (l : Cursor) → Spelled (read_line_comment l).0 l.rest (read_line_comment l).1.rest
unfolding read_line_comment
read_line_comment-Spelled l = as_comment (line_kind (is_shebang l)) (line_text-text l.rest l.at [])

pub symbol-Spelled :
    (c : ℕ) (s : List ℕ) (p : Place) (t : TokenType) (text : List ℕ)
    → symbol c (get_elem? s 0) ≡ some (t, text)
    → Spelled (plain_token t text p) (c ∷ s) (skip text (cursor (c ∷ s) p)).rest
unfolding jennifer.Lexer.Position.advance_over
symbol-Spelled c s p t text h =
    let (x, n, r) = (symbol-Headed c (get_elem? s 0)).headed t text h in
    as_symbol n x (elim r [ inl e ↦ rw e refl | inr (d, e, q) ↦ rw q (second s d e) ])
  where
    second :
        (s : List ℕ) (d : ℕ)
        → get_elem? s 0 ≡ some d
        → (c ∷ d ∷ []) ++ (skip (c ∷ d ∷ []) (cursor (c ∷ s) p)).rest ≡ c ∷ s
    second [] d e = cc
    second (e' ∷ s) d e = cc

module _ (file : List ℕ) where
  block_comment-Spelled :
      (s : List ℕ) (p : Place) (t : Token) (l' : Cursor)
      → read_block_comment file (cursor (b'/' ∷ b'*' ∷ s) p) ≡ ok (t, l')
      → Spelled t (b'/' ∷ b'*' ∷ s) l'.rest
  unfolding read_block_comment jennifer.Lexer.Position.advance_over
  block_comment-Spelled s p t l' q =
      let (a, ha, w) =
        bind-ok (block_text file p s (next_place b'*' (next_place b'/' p)) 0 (b'/' ∷ b'*' ∷ [])) _
          {b = (t, l')} q in
      as_comment (sym (ap (λ (u : Token × Cursor). is_comment u.0.kind) (ok_inj w)))
        (read_block_comment-text file s p t l' q)

  pub read_block_comment-Spelled :
      (c d : ℕ) (s : List ℕ) (p : Place) (t : Token) (l' : Cursor)
      → is_pair b'/' b'*' c d ≡ true
      → read_block_comment file (cursor (c ∷ d ∷ s) p) ≡ ok (t, l')
      → Spelled t (c ∷ d ∷ s) l'.rest
  read_block_comment-Spelled c d s p t l' h =
      let x : b'/' ≡ c = ground arith in
      let y : b'*' ≡ d = ground arith in
      subst
        (λ z.
          read_block_comment file (cursor (z ∷ d ∷ s) p) ≡ ok (t, l')
          → Spelled t (z ∷ d ∷ s) l'.rest)
        x
        (subst
          (λ z.
            read_block_comment file (cursor (b'/' ∷ z ∷ s) p) ≡ ok (t, l')
            → Spelled t (b'/' ∷ z ∷ s) l'.rest)
          y (block_comment-Spelled s p t l'))

  pub read_var_ref-Spelled :
      (c : ℕ) (s : List ℕ) (p : Place) (t : Token) (l' : Cursor)
      → (c == b'$') ≡ true
      → read_var_ref file (cursor (c ∷ s) p) ≡ ok (t, l')
      → Spelled t (c ∷ s) l'.rest
  unfolding read_var_ref jennifer.Lexer.Position.advance_over
  read_var_ref-Spelled c s p t l' h q = elim (Bool-cases (starts_name s)) [
    | inr e ↦
        let v : read_var_ref file (cursor (c ∷ s) p) ≡ lex_error file expected_identifier p =
          rw (e, read_var_ref) refl in
        no_error (sym v ∙ q)
    | inl e ↦
        let v : read_var_ref file (cursor (c ∷ s) p) ≡ (
            name_run file is_ident_part name_too_long p s (next_place c p) [] >>= λ r.
            ok (plain_token token_varref r.0 p, r.1)) =
          rw (e, read_var_ref) refl in
        let z = sym v ∙ q in
        let (a, ha, w) =
          bind-ok (name_run file is_ident_part name_too_long p s (next_place c p) []) _
            {b = (t, l')} z in
        let v = sym (ok_inj w) in
        let (n, x) =
          name_run-text file is_ident_part name_too_long p s (next_place c p) [] a (omega arith)
            ha in
        as_variable (ap (λ (u : Token × Cursor). u.0.kind) v) (
          ap (λ (u : Token × Cursor). b'$' ∷ u.0.lexeme ++ u.1.rest) v
          ∙ ap (λ y. b'$' ∷ y) x
          ∙ ap (λ y. y ∷ s) (sym ((==_iff c b'$').0 h)))
  ]

  pub read_identifier_or_keyword-Spelled :
      (l : Cursor) (t : Token) (l' : Cursor)
      → read_identifier_or_keyword file l ≡ ok (t, l')
      → Spelled t l.rest l'.rest
  read_identifier_or_keyword-Spelled l t l' q =
      let (n, e, k) = read_identifier_or_keyword-text file l t l' q in as_word k e
