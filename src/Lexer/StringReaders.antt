-- ===== src/Lexer/StringReaders.antt =====
-- The readers of string literals of internal/lexer/lexer.go as moves of the cursor.
use jennifer.Lexer.Position.{
  max_tokens, max_nesting_depth, Lexed, cursor, next_place, advance_over, Cursor, Place,
}
use jennifer.Common.{
  ◌≡◌, arith, false, leb, length, ltb, ok, true, ◌<◌, Bool, List, Option-cases, [], inl, inr, not,
  refl, suc, zero, ℕ, ◌&&◌, ◌*◌, ◌++◌, ◌+◌, ◌==◌, ◌∷◌,
}
use jennifer.Lexer.Moves.{
  LiteralAt, is_literal, place_of, Moved, Moved-refl, Moved-cons, Moved-trans, Moved-over,
  length-Moved, Fine, Fine-elim, Fine-if, Fine-cons, Fine-bind, Fine-weaken, Fine-ok, Fine-err,
}
use jennifer.Lexer.Strings.{
  raw_text, read_raw_string, hex_digits, read_unicode_escape, escape_letter, read_cooked_escape,
  nested_text, copy_nested_string, simple_escape, is_scalar,
}
use jennifer.Lexer.Cooked.{
  cooked_token, flush, is_quote, slot_text, cooked_text, read_cooked_string, read_string,
}
use jennifer.Lexer.Chars.{hex_digit_value, is_hex_digit}
use jennifer.Lexer.Tokens.{expr_part, StringPart}

module _ (file : List ℕ) where
  raw_text-Fine :
      (start : Place) (s : List ℕ) (p : Place) (b : List ℕ)
      → Fine (λ r. Moved s p (r.1)) (raw_text file start s p b)
  unfolding raw_text
  raw_text-Fine start [] p b = Fine-err refl
  raw_text-Fine start (c ∷ s) p b =
      Fine-elim (c == b'\'') (λ e. Fine-ok (Moved-cons c (Moved-refl s (next_place c p))))
        (λ e. Fine-cons c (raw_text-Fine start s (next_place c p) (b ++ c ∷ [])))

  hex_digits-Fine :
      (letter width : ℕ) (esc : Place) (n : ℕ) (s : List ℕ) (p : Place) (v : ℕ)
      → Fine (λ r. Moved s p (r.1)) (hex_digits file letter width esc n s p v)
  unfolding hex_digits
  hex_digits-Fine letter width esc zero s p v = Fine-ok (Moved-refl s p)
  hex_digits-Fine letter width esc (suc n) [] p v = Fine-err refl
  hex_digits-Fine letter width esc (suc n) (c ∷ s) p v =
      Fine-elim (is_hex_digit c)
        (λ e.
          Fine-cons c
            (hex_digits-Fine letter width esc n s (next_place c p) (v * 16 + hex_digit_value c)))
        (λ e. Fine-err refl)

  read_unicode_escape-Fine :
      (letter width : ℕ) (l : Cursor)
      → Fine (λ r. Moved l.rest l.at (r.1)) (read_unicode_escape file letter width l)
  unfolding read_unicode_escape
  read_unicode_escape-Fine letter width l =
      Fine-bind (hex_digits-Fine letter width l.at width _ _ 0) (λ a m.
        Fine-if (is_scalar a.0) (λ e. Fine-ok (Moved-trans (Moved-over l.rest l.at) m))
          (λ e. Fine-err refl))

  escape_letter-Fine :
      (start : Place) (s : List ℕ) (p : Place)
      → Fine (λ r. Moved s p (r.1)) (escape_letter file start s p)
  unfolding escape_letter
  escape_letter-Fine start [] p = Fine-err refl
  escape_letter-Fine start (c ∷ s) p = elim (Option-cases (simple_escape c)) [
    | inr (r, e) ↦ rw (e, escape_letter) (Fine-ok (Moved-cons c (Moved-refl s (next_place c p))))
    | inl e ↦
        rw (e, escape_letter)
          (Fine-if (c == b'u') (λ e. read_unicode_escape-Fine c 4 (cursor (c ∷ s) p))
            (λ e.
              Fine-if (c == b'U') (λ e. read_unicode_escape-Fine c 8 (cursor (c ∷ s) p))
                (λ e. Fine-err refl)))
  ]

  read_cooked_escape-Fine :
      (start : Place) (c : ℕ) (s : List ℕ) (p : Place)
      → Fine
          (λ r. Moved s (next_place c p) (r.1))
          (read_cooked_escape file start (cursor (c ∷ s) p))
  unfolding read_cooked_escape advance_over
  read_cooked_escape-Fine start c s p = escape_letter-Fine start s (next_place c p)

  nested_text-Fine :
      (raw : Bool) (quote : ℕ) (start : Place) (s : List ℕ) (p : Place) (b : List ℕ)
      → Fine (λ r. Moved s p (r.1)) (nested_text file raw quote start s p b)
  unfolding nested_text
  nested_text-Fine raw quote start [] p b = Fine-err refl
  nested_text-Fine raw quote start (c ∷ []) p b =
      Fine-if (not raw && c == b'\\') (λ e. Fine-err refl)
        (λ e.
          Fine-if (c == quote) (λ e. Fine-ok (Moved-cons c (Moved-refl [] (next_place c p))))
            (λ e. Fine-err refl))
  nested_text-Fine raw quote start (c ∷ d ∷ s) p b =
      Fine-elim (not raw && c == b'\\')
        (λ e. Fine-cons c (
          Fine-cons d
            (nested_text-Fine raw quote start s (next_place d (next_place c p)) (b ++ c ∷ d ∷ []))))
        (λ e.
          Fine-elim (c == quote) (λ e. Fine-ok (Moved-cons c (Moved-refl (d ∷ s) (next_place c p))))
            (λ e.
              Fine-cons c
                (nested_text-Fine raw quote start (d ∷ s) (next_place c p) (b ++ c ∷ []))))

  copy_nested_string-Fine :
      (quote c : ℕ) (s : List ℕ) (p : Place) (b : List ℕ)
      → Fine
          (λ r. Moved s (next_place c p) (r.1))
          (copy_nested_string file quote (cursor (c ∷ s) p) b)
  unfolding copy_nested_string advance_over
  copy_nested_string-Fine quote c s p b =
      nested_text-Fine (quote == b'\'') quote p s (next_place c p) (b ++ quote ∷ [])

  -- The statement about `slot_text` at a number of rounds.
  abbrev SlotEnds : ℕ → Type 0
  SlotEnds n =
      (start : Place) (s : List ℕ) (p : Place) (depth : ℕ) (b : List ℕ)
      → length s < n
      → Fine (λ r. Moved s p (r.1)) (slot_text file n start s p depth b)

  slot_closing :
      (n : ℕ) (start : Place) (c : ℕ) (s : List ℕ) (p : Place) (depth : ℕ) (b : List ℕ)
      → SlotEnds n
      → length s < n
      → Fine
          (λ r. Moved (c ∷ s) p (r.1))
          (elim depth as (λ x. Lexed (List ℕ × Cursor)) [
            | zero ↦ ok (b, cursor s (next_place c p))
            | suc outer ↦ slot_text file n start s (next_place c p) outer (b ++ c ∷ [])
          ])
  slot_closing n start c s p zero b h k = Fine-ok (Moved-cons c (Moved-refl s (next_place c p)))
  slot_closing n start c s p (suc outer) b h k =
      Fine-cons c (h start s (next_place c p) outer (b ++ c ∷ []) k)

  slot_escape :
      (n : ℕ) (start : Place) (c : ℕ) (s : List ℕ) (p : Place) (depth : ℕ) (b : List ℕ)
      → SlotEnds n
      → length s < n
      → Fine
          (λ r. Moved (c ∷ s) p (r.1))
          (elim s as (λ x. Lexed (List ℕ × Cursor)) [
            | [] ↦ slot_text file n start [] (next_place c p) depth (b ++ c ∷ [])
            | d ∷ s' ↦
                slot_text file n start s' (next_place d (next_place c p)) depth (b ++ c ∷ d ∷ [])
          ])
  slot_escape n start c [] p depth b h k =
      Fine-cons c (h start [] (next_place c p) depth (b ++ c ∷ []) k)
  slot_escape n start c (d ∷ s) p depth b h k = Fine-cons c (
      Fine-cons d (h start s (next_place d (next_place c p)) depth (b ++ c ∷ d ∷ []) (omega arith)))

  slot_text-Fine : (n : ℕ) → SlotEnds n
  unfolding slot_text
  slot_text-Fine zero start s p depth b h = absurd (omega arith)
  slot_text-Fine (suc n) start [] p depth b h = Fine-err refl
  slot_text-Fine (suc n) start (c ∷ s) p depth b h =
      let k : length s < n = omega arith in
      let ih = slot_text-Fine n in
      Fine-elim (c == b'{')
        (λ e.
          Fine-elim (ltb max_nesting_depth (depth + 2)) (λ e. Fine-err refl)
            (λ e. Fine-cons c (ih start s (next_place c p) (suc depth) (b ++ c ∷ []) k)))
        (λ e.
          Fine-elim (c == b'}') (λ e. slot_closing n start c s p depth b ih k)
            (λ e.
              Fine-elim (is_quote c)
                (λ e. Fine-bind (copy_nested_string-Fine c c s p b) (λ a m.
                  Fine-weaken (λ r o. Moved-cons c (Moved-trans m o))
                    (ih start a.1.rest a.1.at depth a.0 (omega (arith, length-Moved m)))))
                (λ e.
                  Fine-elim (c == b'\\') (λ e. slot_escape n start c s p depth b ih k)
                    (λ e. Fine-cons c (ih start s (next_place c p) depth (b ++ c ∷ []) k)))))

  cooked_token-place :
      (start : Place) (lit : List ℕ) (parts : List StringPart) (has_expr : Bool)
      → (place_of (cooked_token file start lit parts has_expr) ≡ start)
        × (is_literal (cooked_token file start lit parts has_expr).kind ≡ true)
  cooked_token-place start lit parts false = (refl, refl)
  cooked_token-place start lit parts true = (refl, refl)

  cooked_text-Fine :
      (n : ℕ) (start : Place) (s : List ℕ) (p : Place) (lit : List ℕ) (parts : List StringPart)
      (has_expr : Bool)
      → length s < n
      → Fine (LiteralAt start s p) (cooked_text file n start s p lit parts has_expr)
  unfolding cooked_text
  cooked_text-Fine zero start s p lit parts has_expr h = absurd (omega arith)
  cooked_text-Fine (suc n) start [] p lit parts has_expr h = Fine-err refl
  cooked_text-Fine (suc n) start (c ∷ s) p lit parts has_expr h =
      let k : length s < n = omega arith in
      let q = next_place c p in
      Fine-elim (c == b'"')
        (λ e. Fine-ok (Moved-cons c (Moved-refl s q), cooked_token-place start lit parts has_expr))
        (λ e.
          Fine-elim (c == b'\\')
            (λ e. Fine-bind (read_cooked_escape-Fine start c s p) (λ a m.
              Fine-weaken (λ r (o, at). (Moved-cons c (Moved-trans m o), at))
                (cooked_text-Fine n start a.1.rest a.1.at (lit ++ a.0 ∷ []) parts has_expr
                  (omega (arith, length-Moved m)))))
            (λ e.
              Fine-elim (c == b'{')
                (λ e.
                  Fine-elim (leb max_tokens (length parts)) (λ e. Fine-err refl)
                    (λ e.
                      Fine-bind (slot_text-Fine (suc (length s)) start s q 0 [] (omega arith))
                        (λ a m.
                          Fine-weaken (λ r (o, at). (Moved-cons c (Moved-trans m o), at))
                            (cooked_text-Fine n start a.1.rest a.1.at []
                              (flush lit parts ++ expr_part a.0 q.line q.col ∷ []) true
                              (omega (arith, length-Moved m))))))
                (λ e.
                  Fine-elim (c == b'}') (λ e. Fine-err refl)
                    (λ e.
                      Fine-weaken (λ r (o, at). (Moved-cons c o, at))
                        (cooked_text-Fine n start s q (lit ++ c ∷ []) parts has_expr k)))))

  -- Behind the quote `c`.
  pub read_string-Fine :
      (quote c : ℕ) (s : List ℕ) (start p : Place)
      → Fine (LiteralAt start s (next_place c p)) (read_string file quote start (cursor (c ∷ s) p))
  unfolding read_string advance_over read_raw_string read_cooked_string
  read_string-Fine quote c s start p =
      Fine-if (quote == b'\'')
        (λ e.
          Fine-bind (raw_text-Fine start s (next_place c p) []) (λ a m. Fine-ok (m, (refl, refl))))
        (λ e. cooked_text-Fine (suc (length s)) start s (next_place c p) [] [] false (omega arith))
