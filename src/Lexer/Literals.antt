-- ===== src/Lexer/Literals.antt =====
-- What the texts of names, comments, numbers and strings in internal/lexer/lexer.go say of the
-- source.
use jennifer.Lexer.Chars.{is_ident_part_loose}
use mathlib.Core.Path.{subst}
use jennifer.Common.{
  Option, none, some, Option-cases, err, suc, sym, zero, inl, inr, length-append, ◌+◌, ap, ◌<◌,
  ◌==◌, ◌∙◌, ◌⊎◌, List, ℕ, [], ◌∷◌, ◌++◌, ◌≡◌, ok, true, false, length, ltb, Bool, Bool-cases,
  bind-ok, refl, arith, append_assoc, append-nil, All, ◌≤◌,
}
use jennifer.Lexer.Position.{
  trailing_underscore, max_nesting_depth, LexError, advance_over, Place, Cursor, cursor, LexMsg,
  next_place, plain_token, lex_error, identifier_too_long,
}
use jennifer.Lexer.Tokens.{TokenType, token_ident, lookup_keyword, Token, token_string}
use jennifer.Lexer.Moves.{place_after}
use jennifer.Lexer.Names.{last_is, name_run, name_token, read_identifier_or_keyword}
use jennifer.Lexer.Trivia.{block_text, read_block_comment, is_pair}
use jennifer.Lexer.Strings.{raw_text, read_raw_string, read_unicode_escape, hex_digits, is_scalar}
use jennifer.Lexer.Cooked.{read_string}
use jennifer.Lexer.{Lexed}

pub snoc_append : (b : List ℕ) (c : ℕ) (s : List ℕ) → (b ++ c ∷ []) ++ s ≡ b ++ c ∷ s
snoc_append b c s = append_assoc b (c ∷ []) s

scalar_bounds : (v : ℕ) → is_scalar v ≡ true → (v ≤ 0x10FFFF) × ((v < 0xD800) ⊎ (0xDFFF < v))
scalar_bounds v h = ground arith

pub ok_inj : {A : Type 0} {a b : A} → Path (Lexed A) (ok a) (ok b) → a ≡ b
ok_inj h = cc

pub no_error : {A B : Type 0} {e : LexError} {a : A} → Path (Lexed A) (err e) (ok a) → B
no_error h = cc

pair_append : (b : List ℕ) (c d : ℕ) (s : List ℕ) → (b ++ c ∷ d ∷ []) ++ s ≡ b ++ c ∷ d ∷ s
pair_append b c d s = append_assoc b (c ∷ d ∷ []) s

-- The kind of a name, with what the table of keywords has for it.
abbrev pub word_kind : Option TokenType → TokenType
word_kind none = token_ident
word_kind (some k) = k

module _ (file : List ℕ) where
  raw_text-closed :
      (start : Place) (text rest : List ℕ) (p : Place) (b : List ℕ)
      → All (λ c. (c == b'\'') ≡ false) text
      → raw_text file start (text ++ b'\'' ∷ rest) p b
        ≡ ok (b ++ text, cursor rest (place_after (text ++ b'\'' ∷ []) p))
  unfolding raw_text place_after
  raw_text-closed start [] rest p b h = rw (append-nil b) refl
  raw_text-closed start (c ∷ text) rest p b (q, h) =
      rw (q, raw_text)
        (raw_text-closed start text rest (next_place c p) (b ++ c ∷ []) h
          ∙ ap (λ z. ok (z, cursor rest (place_after (text ++ b'\'' ∷ []) (next_place c p))))
              (snoc_append b c text))

  -- Any text without a single quote, put between single quotes, is read as a string token with that
  -- text, whatever it holds and whatever follows; the cursor then stands behind the closing quote.
  pub read_string-raw :
      (start p : Place) (text rest : List ℕ)
      → All (λ c. (c == b'\'') ≡ false) text
      → read_string file b'\'' start (cursor (b'\'' ∷ text ++ b'\'' ∷ rest) p)
        ≡ ok (
          plain_token token_string text start,
          cursor rest (place_after (b'\'' ∷ text ++ b'\'' ∷ []) p),
        )
  unfolding read_string read_raw_string advance_over place_after
  read_string-raw start p text rest h =
      rw (raw_text-closed start text rest (next_place b'\'' p) [] h) refl

  -- A Unicode escape that is read gives a code point that is no surrogate and is at most 10FFFF.
  pub read_unicode_escape-scalar :
      (letter width : ℕ) (l : Cursor) (r : ℕ × Cursor)
      → read_unicode_escape file letter width l ≡ ok r
      → (r.0 ≤ 0x10FFFF) × ((r.0 < 0xD800) ⊎ (0xDFFF < r.0))
  unfolding read_unicode_escape
  read_unicode_escape-scalar letter width l r h =
      let (a, ha, q) = bind-ok (hex_digits file letter width l.at width _ _ 0) _ {b = r} h in
      elim (Bool-cases (is_scalar a.0)) [
        | inl e ↦
            let z : a ≡ r = ground arith in
            subst (λ u. (u.0 ≤ 0x10FFFF) × ((u.0 < 0xD800) ⊎ (0xDFFF < u.0))) z
              (scalar_bounds a.0 e)
        | inr e ↦ ground arith
      ]

  pub name_run-text :
      (part : ℕ → Bool) (too_long : List ℕ → LexMsg) (start : Place) (s : List ℕ) (p : Place)
      (b : List ℕ) (r : List ℕ × Cursor)
      → length b ≤ 64
      → name_run file part too_long start s p b ≡ ok r
      → (length r.0 ≤ 64) × (r.0 ++ r.1.rest ≡ b ++ s)
  unfolding name_run
  name_run-text part too_long start [] p b r k h =
      let z : (b, cursor [] p) ≡ r = ok_inj h in
      subst (λ u. (length u.0 ≤ 64) × (u.0 ++ u.1.rest ≡ b ++ [])) z (k, refl)
  name_run-text part too_long start (c ∷ s) p b r k h = elim (Bool-cases (part c)) [
    | inr e ↦
        let z : (b, cursor (c ∷ s) p) ≡ r = ground arith in
        subst (λ u. (length u.0 ≤ 64) × (u.0 ++ u.1.rest ≡ b ++ c ∷ s)) z (k, refl)
    | inl e ↦ elim (Bool-cases (ltb 64 (length b + 1))) [
      | inl q ↦ ground arith
      | inr q ↦
          let n : length (b ++ c ∷ []) ≤ 64 = ground (arith, length-append b (c ∷ [])) in
          let (m, t) =
            name_run-text part too_long start s (next_place c p) (b ++ c ∷ []) r n (ground arith) in
          (m, t ∙ snoc_append b c s)
    ]
  ]

  name_token-text :
      (start : Place) (name : List ℕ) (l : Cursor) (t : Token) (l' : Cursor)
      → name_token file start name l ≡ ok (t, l')
      → (t.lexeme ≡ name) × (l' ≡ l) × (t.kind ≡ word_kind (lookup_keyword name))
  unfolding name_token
  name_token-text start name l t l' h = elim (Option-cases (lookup_keyword name)) [
    | inr (k, e) ↦
        let w : name_token file start name l ≡ ok (plain_token k name start, l) =
          rw (e, name_token) refl in
        let z = ok_inj (sym h ∙ w) in
        (ap (λ u. u.0.lexeme) z, ap (λ u. u.1) z, ap (λ u. u.0.kind) z ∙ sym (ap word_kind e))
    | inl e ↦ elim (Bool-cases (last_is b'_' name)) [
      | inl q ↦
          let w : name_token file start name l ≡ lex_error file (trailing_underscore name) start =
            rw (e, name_token) (rw q refl) in
          no_error (sym w ∙ h)
      | inr q ↦
          let w : name_token file start name l ≡ ok (plain_token token_ident name start, l) =
            rw (e, name_token) (rw q refl) in
          let z = ok_inj (sym h ∙ w) in
          (ap (λ u. u.0.lexeme) z, ap (λ u. u.1) z, ap (λ u. u.0.kind) z ∙ sym (ap word_kind e))
    ]
  ]

  -- A name that is read is a prefix of the unread source, of 64 runes at most, and the token has it
  -- as its text, and its keyword or identifier as its kind; what follows it is what is left.
  pub read_identifier_or_keyword-text :
      (l : Cursor) (t : Token) (l' : Cursor)
      → read_identifier_or_keyword file l ≡ ok (t, l')
      → (length t.lexeme ≤ 64)
        × (t.lexeme ++ l'.rest ≡ l.rest)
        × (t.kind ≡ word_kind (lookup_keyword t.lexeme))
  unfolding read_identifier_or_keyword
  read_identifier_or_keyword-text l t l' h =
      let (a, ha, q) =
        bind-ok (name_run file is_ident_part_loose identifier_too_long l.at l.rest l.at []) _
          {b = (t, l')} h in
      let (x, y, k) = name_token-text l.at a.0 a.1 t l' q in
      let (m, z) =
        name_run-text is_ident_part_loose identifier_too_long l.at l.rest l.at [] a (omega arith)
          ha in
      (
        subst (λ w. length w ≤ 64) (sym x) m,
        ap (λ w. w ++ l'.rest) x ∙ ap (λ (c : Cursor). a.0 ++ c.rest) y ∙ z,
        k ∙ ap (λ w. word_kind (lookup_keyword w)) (sym x),
      )

  block_text-text :
      (start : Place) (s : List ℕ) (p : Place) (depth : ℕ) (b : List ℕ) (r : List ℕ × Cursor)
      → block_text file start s p depth b ≡ ok r
      → r.0 ++ r.1.rest ≡ b ++ s
  unfolding block_text
  block_text-text start [] p depth b r h = cc
  block_text-text start (c ∷ []) p depth b r h = cc
  block_text-text start (c ∷ d ∷ s) p zero b r h = elim (Bool-cases (is_pair b'/' b'*' c d)) [
    | inl e ↦ elim (Bool-cases (ltb max_nesting_depth (0 + 2))) [
      | inl q ↦ ground arith
      | inr q ↦
          block_text-text start s (next_place d (next_place c p)) 1 (b ++ c ∷ d ∷ []) r
            (ground arith)
          ∙ pair_append b c d s
    ]
    | inr e ↦ elim (Bool-cases (is_pair b'*' b'/' c d)) [
      | inl q ↦
          let z : (b ++ c ∷ d ∷ [], cursor s (next_place d (next_place c p))) ≡ r =
            ok_inj (ground arith) in
          sym (ap (λ u. u.0 ++ u.1.rest) z) ∙ pair_append b c d s
      | inr q ↦
          block_text-text start (d ∷ s) (next_place c p) 0 (b ++ c ∷ []) r (ground arith)
          ∙ snoc_append b c (d ∷ s)
    ]
  ]
  block_text-text start (c ∷ d ∷ s) p (suc n) b r h = elim (Bool-cases (is_pair b'/' b'*' c d)) [
    | inl e ↦ elim (Bool-cases (ltb max_nesting_depth (suc n + 2))) [
      | inl q ↦ ground arith
      | inr q ↦
          block_text-text start s (next_place d (next_place c p)) (suc (suc n)) (b ++ c ∷ d ∷ []) r
            (ground arith)
          ∙ pair_append b c d s
    ]
    | inr e ↦ elim (Bool-cases (is_pair b'*' b'/' c d)) [
      | inl q ↦
          block_text-text start s (next_place d (next_place c p)) n (b ++ c ∷ d ∷ []) r
            (ground arith)
          ∙ pair_append b c d s
      | inr q ↦
          block_text-text start (d ∷ s) (next_place c p) (suc n) (b ++ c ∷ []) r (ground arith)
          ∙ snoc_append b c (d ∷ s)
    ]
  ]

  -- A block comment that is read has its own source as its text, delimiters and nested comments
  -- included; what follows it is what is left.
  pub read_block_comment-text :
      (s : List ℕ) (p : Place) (t : Token) (l' : Cursor)
      → read_block_comment file (cursor (b'/' ∷ b'*' ∷ s) p) ≡ ok (t, l')
      → t.lexeme ++ l'.rest ≡ b'/' ∷ b'*' ∷ s
  unfolding read_block_comment advance_over
  read_block_comment-text s p t l' h =
      let (a, ha, q) =
        bind-ok (block_text file p s (next_place b'*' (next_place b'/' p)) 0 (b'/' ∷ b'*' ∷ [])) _
          {b = (t, l')} h in
      let z = ok_inj q in
      sym (ap (λ u. u.0.lexeme ++ u.1.rest) z)
      ∙ block_text-text p s (next_place b'*' (next_place b'/' p)) 0 (b'/' ∷ b'*' ∷ []) a ha
