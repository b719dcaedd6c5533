-- ===== src/Lexer/Readers.antt =====
-- The readers of names and comments of internal/lexer/lexer.go as moves of the cursor.
use jennifer.Lexer.Position.{
  identifier_too_long, name_too_long, cursor, advance_over, Lexed, max_nesting_depth, next_place,
  LexMsg, Cursor, Place,
}
use jennifer.Common.{
  Bool, List, Option-cases, [], false, inl, inr, length, ltb, not, ok, refl, suc, true, zero, ℕ,
  ◌++◌, ◌+◌, ◌==◌, ◌∷◌, ◌≡◌,
}
use jennifer.Lexer.Moves.{
  ReadAt, Moved, Moved-refl, Moved-cons, Fine, Fine-elim, Fine-if, Fine-cons, Fine-bind, Fine-ok,
  Fine-err, Moved-elim, is_fuel,
}
use jennifer.Lexer.Trivia.{skip_space, line_text, block_text, read_block_comment, is_blank, is_pair}
use jennifer.Lexer.Names.{
  last_is, starts_name, name_run, read_var_ref, name_token, read_identifier_or_keyword,
}
use jennifer.Lexer.Chars.{is_ident_start, is_ident_part_loose, is_ident_part}
use jennifer.Lexer.Tokens.{lookup_keyword}

pub skip_space-Moved : (s : List ℕ) (p : Place) (n : ℕ) → Moved s p ((skip_space s p n).1)
unfolding skip_space
skip_space-Moved [] p n = Moved-refl [] p
skip_space-Moved (c ∷ s) p n =
    Moved-elim (c == b'\n') _ _ (Moved-cons c (skip_space-Moved s (next_place c p) (n + 1))) (
      Moved-elim (is_blank c) _ _ (Moved-cons c (skip_space-Moved s (next_place c p) n))
        (Moved-refl (c ∷ s) p))

pub line_text-Moved : (s : List ℕ) (p : Place) (b : List ℕ) → Moved s p ((line_text s p b).1)
unfolding line_text
line_text-Moved [] p b = Moved-refl [] p
line_text-Moved (c ∷ s) p b =
    Moved-elim (c == b'\n') _ _ (Moved-refl (c ∷ s) p)
      (Moved-cons c (line_text-Moved s (next_place c p) (b ++ c ∷ [])))

module _ (file : List ℕ) where
  closing :
      (start : Place) (c d : ℕ) (s : List ℕ) (p : Place) (depth : ℕ) (b : List ℕ)
      → ((n : ℕ)
          → Fine
              (λ r. Moved s (next_place d (next_place c p)) (r.1))
              (block_text file start s (next_place d (next_place c p)) n (b ++ c ∷ d ∷ [])))
      → Fine
          (λ r. Moved (c ∷ d ∷ s) p (r.1))
          (elim depth as (λ x. Lexed (List ℕ × Cursor)) [
            | zero ↦ ok (b ++ c ∷ d ∷ [], cursor s (next_place d (next_place c p)))
            | suc outer ↦
                block_text file start s (next_place d (next_place c p)) outer (b ++ c ∷ d ∷ [])
          ])
  closing start c d s p zero b h = Fine-ok (Moved-cons c (Moved-cons d (Moved-refl s _)))
  closing start c d s p (suc n) b h = Fine-cons c (Fine-cons d (h n))

  block_text-Fine :
      (start : Place) (s : List ℕ) (p : Place) (depth : ℕ) (b : List ℕ)
      → Fine (λ r. Moved s p (r.1)) (block_text file start s p depth b)
  unfolding block_text
  block_text-Fine start [] p depth b = Fine-err refl
  block_text-Fine start (c ∷ []) p depth b = Fine-err refl
  block_text-Fine start (c ∷ d ∷ s) p depth b =
      Fine-elim (is_pair b'/' b'*' c d)
        (λ e.
          Fine-elim (ltb max_nesting_depth (depth + 2)) (λ e. Fine-err refl)
            (λ e. Fine-cons c (
              Fine-cons d (
                block_text-Fine start s (next_place d (next_place c p)) (suc depth)
                  (b ++ c ∷ d ∷ [])))))
        (λ e.
          Fine-elim (is_pair b'*' b'/' c d)
            (λ e.
              closing start c d s p depth b
                (λ n. block_text-Fine start s (next_place d (next_place c p)) n (b ++ c ∷ d ∷ [])))
            (λ e. Fine-cons c (block_text-Fine start (d ∷ s) (next_place c p) depth (b ++ c ∷ []))))

  name_run-Fine :
      (part : ℕ → Bool) (too_long : List ℕ → LexMsg) (start : Place) (s : List ℕ) (p : Place)
      (b : List ℕ)
      → ((t : List ℕ) → is_fuel (too_long t) ≡ false)
      → Fine (λ r. Moved s p (r.1)) (name_run file part too_long start s p b)
  unfolding name_run
  name_run-Fine part too_long start [] p b h = Fine-ok (Moved-refl [] p)
  name_run-Fine part too_long start (c ∷ s) p b h =
      Fine-elim (part c)
        (λ e.
          Fine-elim (ltb 64 (length b + 1)) (λ e. Fine-err (h _))
            (λ e.
              Fine-cons c (name_run-Fine part too_long start s (next_place c p) (b ++ c ∷ []) h)))
        (λ e. Fine-ok (Moved-refl (c ∷ s) p))

  pub read_var_ref-Fine :
      (c : ℕ) (s : List ℕ) (p : Place)
      → Fine (ReadAt p s (next_place c p)) (read_var_ref file (cursor (c ∷ s) p))
  unfolding read_var_ref advance_over
  read_var_ref-Fine c s p =
      Fine-if (not (starts_name s)) (λ e. Fine-err refl)
        (λ e.
          Fine-bind (name_run-Fine is_ident_part name_too_long p s (next_place c p) [] (λ t. refl))
            (λ a m. Fine-ok (m, refl)))

  name_token-Fine :
      (start : Place) (name : List ℕ) {s : List ℕ} {p : Place} {l : Cursor}
      → Moved s p l
      → Fine (ReadAt start s p) (name_token file start name l)
  unfolding name_token
  name_token-Fine start name m = elim (Option-cases (lookup_keyword name)) [
    | inl e ↦
        rw (e, name_token)
          (Fine-if (last_is b'_' name) (λ e. Fine-err refl) (λ e. Fine-ok (m, refl)))
    | inr (t, e) ↦ rw (e, name_token) (Fine-ok (m, refl))
  ]

  pub read_identifier_or_keyword-Fine :
      (c : ℕ) (s : List ℕ) (p : Place)
      → is_ident_start c ≡ true
      → Fine (ReadAt p s (next_place c p)) (read_identifier_or_keyword file (cursor (c ∷ s) p))
  unfolding read_identifier_or_keyword name_run is_ident_part_loose
  read_identifier_or_keyword-Fine c s p h =
      rw (h, read_identifier_or_keyword, name_run, is_ident_part_loose)
        (Fine-bind
          (name_run-Fine is_ident_part_loose identifier_too_long p s (next_place c p) (c ∷ [])
            (λ t. refl))
          (λ a m. name_token-Fine p a.0 m))

  pub read_block_comment-Fine :
      (c d : ℕ) (s : List ℕ) (p : Place)
      → Fine (ReadAt p (d ∷ s) (next_place c p)) (read_block_comment file (cursor (c ∷ d ∷ s) p))
  unfolding read_block_comment advance_over
  read_block_comment-Fine c d s p =
      Fine-bind (block_text-Fine p s (next_place d (next_place c p)) 0 (b'/' ∷ b'*' ∷ []))
        (λ a m. Fine-ok (Moved-cons d m, refl))
