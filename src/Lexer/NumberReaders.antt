-- ===== src/Lexer/NumberReaders.antt =====
-- The readers of numbers of internal/lexer/lexer.go as moves of the cursor.
use jennifer.Lexer.Position.{
  cursor, separator_ends, advance_over, peek, lex_error, next_is, next_place, Cursor, Place,
}
use jennifer.Common.{
  Option, none, some, codes, ◌&&◌, Bool, Bool-cases, List, [], false, if◌then◌else◌, inl, inr,
  length, not, ok, refl, true, ℕ, ◌++◌, ◌==◌, ◌||◌, ◌∷◌, ◌≡◌,
}
use jennifer.Lexer.Moves.{
  LiteralAt, is_literal, place_of, Moved, Moved-refl, Moved-cons, Moved-trans, Moved-over, Fine,
  Fine-elim, Fine-if, Fine-cons, Fine-bind, Fine-ok, Fine-err, Moved-elim,
}
use jennifer.Lexer.Numbers.{
  number_token, prefix_is, starts_digit, separated_digits, digit_run, read_separated_digits,
  read_based_int, read_exponent, read_fraction, read_decimal, read_number, skip_sign,
}
use jennifer.Lexer.Chars.{is_bin_digit, is_oct_digit, is_hex_digit, is_ascii_digit}

digit_run-Moved : (s : List ℕ) (p : Place) (b : List ℕ) → Moved s p ((digit_run s p b).1)
unfolding digit_run
digit_run-Moved [] p b = Moved-refl [] p
digit_run-Moved (c ∷ s) p b =
    Moved-elim (is_ascii_digit c) _ _
      (Moved-cons c (digit_run-Moved s (next_place c p) (b ++ c ∷ []))) (Moved-refl (c ∷ s) p)

skip_sign-Moved : (l : Cursor) → Moved l.rest l.at (skip_sign l)
skip_sign-Moved l = elim (Bool-cases (next_is b'+' (peek l 0) || next_is b'-' (peek l 0))) [
  | inl e ↦ rw e (Moved-over l.rest l.at)
  | inr e ↦ rw e (Moved-refl l.rest l.at)
]

module _ (file : List ℕ) where
  digits_end :
      (start : Place) (base : ℕ) (b s : List ℕ) (p : Place) (prev : Bool)
      → Fine {A = List ℕ × Cursor}
          (λ r. Moved s p (r.1))
          (if prev then lex_error file (separator_ends base) start else ok (b, cursor s p))
  digits_end start base b s p true = Fine-err refl
  digits_end start base b s p false = Fine-ok (Moved-refl s p)

  separated_digits-Fine :
      (start : Place) (is_digit : ℕ → Bool) (base : ℕ) (s : List ℕ) (p : Place) (b : List ℕ)
      (prev : Bool)
      → Fine {A = List ℕ × Cursor}
          (λ r. Moved s p (r.1))
          (separated_digits file start is_digit base s p b prev)
  unfolding separated_digits
  separated_digits-Fine start is_digit base [] p b prev = digits_end start base b [] p prev
  separated_digits-Fine start is_digit base (c ∷ s) p b prev =
      Fine-elim (is_digit c)
        (λ e.
          Fine-cons c
            (separated_digits-Fine start is_digit base s (next_place c p) (b ++ c ∷ []) false))
        (λ e.
          Fine-elim (c == b'_')
            (λ e.
              Fine-elim (length b == 0) (λ e. Fine-err refl)
                (λ e.
                  Fine-elim prev (λ e. Fine-err refl)
                    (λ e.
                      Fine-cons c
                        (separated_digits-Fine start is_digit base s (next_place c p) b true))))
            (λ e. digits_end start base b (c ∷ s) p prev))

  read_separated_digits-Fine :
      (start : Place) (is_digit : ℕ → Bool) (base : ℕ) (l : Cursor)
      → Fine (λ r. Moved l.rest l.at (r.1)) (read_separated_digits file start is_digit base l)
  unfolding read_separated_digits
  read_separated_digits-Fine start is_digit base l =
      separated_digits-Fine start is_digit base l.rest l.at [] false

  read_exponent-Fine :
      (start : Place) (l : Cursor)
      → Fine (λ r. Moved l.rest l.at (r.1)) (read_exponent file start l)
  unfolding read_exponent
  read_exponent-Fine start l =
      let l1 = advance_over l.rest l.at in
      let l2 = skip_sign l1 in
      Fine-if (not (next_is b'e' (peek l 0) || next_is b'E' (peek l 0)))
        (λ e. Fine-ok (Moved-refl l.rest l.at))
        (λ e.
          Fine-if (not (starts_digit is_ascii_digit l2.rest)) (λ e. Fine-err refl)
            (λ e. Fine-ok (
              Moved-trans (Moved-over l.rest l.at)
                (Moved-trans (skip_sign-Moved l1) (digit_run-Moved l2.rest l2.at [])))))

  read_fraction-Fine :
      (start : Place) (l : Cursor)
      → Fine (λ r. Moved l.rest l.at (r.1)) (read_fraction file start l)
  unfolding read_fraction
  read_fraction-Fine start l =
      let l1 = advance_over l.rest l.at in
      Fine-if (next_is b'.' (peek l 0) && starts_digit is_ascii_digit l1.rest)
        (λ e.
          Fine-bind (read_separated_digits-Fine start is_ascii_digit 10 l1)
            (λ a m. Fine-ok (Moved-trans (Moved-over l.rest l.at) m)))
        (λ e. Fine-ok (Moved-refl l.rest l.at))

  read_based_int-Fine :
      (base : ℕ) (prefix : List ℕ) (is_digit : ℕ → Bool) (c : ℕ) (s : List ℕ) (p : Place)
      → Fine
          (LiteralAt p s (next_place c p))
          (read_based_int file base prefix is_digit (cursor (c ∷ s) p))
  unfolding read_based_int advance_over
  read_based_int-Fine base prefix is_digit c s p =
      let l = advance_over s (next_place c p) in
      Fine-if (not (starts_digit is_digit l.rest)) (λ e. Fine-err refl)
        (λ e.
          Fine-bind (read_separated_digits-Fine p is_digit base l)
            (λ a m. Fine-ok (Moved-trans (Moved-over s (next_place c p)) m, (refl, refl))))

  number_token-place :
      (start : Place) (digits : List ℕ) (f e : Option (List ℕ))
      → (place_of (number_token start digits f e) ≡ start)
        × (is_literal (number_token start digits f e).kind ≡ true)
  number_token-place start digits none none = (refl, refl)
  number_token-place start digits (some f) e = (refl, refl)
  number_token-place start digits none (some e) = (refl, refl)

  read_decimal-Fine :
      (c : ℕ) (s : List ℕ) (p : Place)
      → is_ascii_digit c ≡ true
      → Fine (LiteralAt p s (next_place c p)) (read_decimal file (cursor (c ∷ s) p))
  unfolding read_decimal read_separated_digits separated_digits
  read_decimal-Fine c s p h =
      rw (h, read_decimal, read_separated_digits, separated_digits)
        (Fine-bind (separated_digits-Fine p is_ascii_digit 10 s (next_place c p) (c ∷ []) false)
          (λ d m. Fine-bind (read_fraction-Fine p d.1) (λ f n.
            Fine-bind (read_exponent-Fine p f.1) (λ e o.
              Fine-ok (Moved-trans m (Moved-trans n o), number_token-place p d.0 f.0 e.0)))))

  pub read_number-Fine :
      (c : ℕ) (s : List ℕ) (p : Place)
      → is_ascii_digit c ≡ true
      → Fine (LiteralAt p s (next_place c p)) (read_number file (cursor (c ∷ s) p))
  unfolding read_number
  read_number-Fine c s p h =
      let l = cursor (c ∷ s) p in
      Fine-if (prefix_is b'x' b'X' l) (λ e. read_based_int-Fine 16 (codes "0x") is_hex_digit c s p)
        (λ e.
          Fine-if (prefix_is b'o' b'O' l)
            (λ e. read_based_int-Fine 8 (codes "0o") is_oct_digit c s p)
            (λ e.
              Fine-if (prefix_is b'b' b'B' l)
                (λ e. read_based_int-Fine 2 (codes "0b") is_bin_digit c s p)
                (λ e. read_decimal-Fine c s p h)))
