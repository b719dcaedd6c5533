-- ===== src/Lexer/Scan.antt =====
-- `Next` of internal/lexer/lexer.go as a move of the cursor.
use jennifer.Lexer.Spelling.{read_number-spelling, read_string-spelling}
use jennifer.Lexer.Texts.{
  read_identifier_or_keyword-Spelled, read_var_ref-Spelled, as_blank_line,
  read_block_comment-Spelled, as_literal, Skipped-Moved, Skipped-refl, read_line_comment-Spelled,
  at_end, symbol-Spelled, Spelled, skip_space-Skipped, Skipped,
}
use mathlib.Core.Path.{subst}
use jennifer.Lexer.Trivia.{
  next_trivia, read_block_comment, read_line_comment, line_text, skip_space,
}
use jennifer.Common.{
  ==_iff, leb, sym, ◌&&◌, ◌+◌, ◌≤◌, Option-cases, arith, get_elem?, inl, inr, refl, ◌==◌, ◌||◌,
  List, Option, [], length, none, some, true, ℕ, ◌<◌, ◌∷◌, ◌≡◌, ◌⊎◌,
}
use jennifer.Lexer.Moves.{
  Fine-result-weaken, LiteralAt, Moved, Moved-refl, Moved-cons, Moved-trans, Moved-over,
  length-Moved, ReadAt, Fine, Fine-if, Fine-bind, Fine-ok, Fine-err,
}
use jennifer.Lexer.Readers.{
  line_text-Moved, read_var_ref-Fine, read_identifier_or_keyword-Fine, read_block_comment-Fine,
}
use jennifer.Lexer.Symbols.{symbol-Headed}
use jennifer.Lexer.NumberReaders.{read_number-Fine}
use jennifer.Lexer.StringReaders.{read_string-Fine}
use jennifer.Lexer.Tokens.{Token, TokenType}
use jennifer.Lexer.Position.{
  next_place, Lexed, cursor, Place, advance_over, next_is, Cursor, plain_token,
}
use jennifer.Lexer.Chars.{is_ident_start, is_ascii_digit}
use jennifer.Lexer.{peek, symbol, skip, with_raw, next_at, next, or_token, is_eof}

skip-Moved : (text : List ℕ) (l : Cursor) → Moved l.rest l.at (skip text l)
skip-Moved [] l = Moved-refl l.rest l.at
skip-Moved (c ∷ text) l =
    Moved-trans (Moved-over l.rest l.at) (skip-Moved text (advance_over l.rest l.at))

-- What one call of `Next` does at the cursor `l`.
pub record Scanned (l : Cursor) (r : Token × Cursor) : Type 0 where
  pub start : Cursor
  pub before : Skipped l.rest l.at start
  pub read : ReadAt start.at start.rest start.at r
  pub spelled : Spelled r.0 start.rest r.1.rest
  pub progress : (is_eof r.0.kind ≡ true) ⊎ (length r.1.rest < length l.rest)

Scanned-behind :
    {l : Cursor} {c : ℕ} {s : List ℕ} {p : Place} {r : Token × Cursor}
    → Skipped l.rest l.at (cursor (c ∷ s) p)
    → ReadAt p s (next_place c p) r
    → Spelled r.0 (c ∷ s) r.1.rest
    → Scanned l r
Scanned-behind {l} {c} {s} {p} m (n, at) h = record {
  start = cursor (c ∷ s) p;
  before = m;
  read = (Moved-cons c n, at);
  spelled = h;
  progress = inr (omega (arith, length-Moved (Skipped-Moved m), length-Moved n));
}

symbol-Scanned :
    {l : Cursor} {c : ℕ} {s : List ℕ} {p : Place} {t : TokenType} {text : List ℕ}
    → Skipped l.rest l.at (cursor (c ∷ s) p)
    → symbol c (get_elem? s 0) ≡ some (t, text)
    → Scanned l (plain_token t text p, skip text (cursor (c ∷ s) p))
unfolding advance_over
symbol-Scanned {l} {c} {s} {p} {t} {text} m h =
    let (x, n, shape) = (symbol-Headed c (get_elem? s 0)).headed t text h in
    let spelled = symbol-Spelled c s p t text h in
    let behind : (more : List ℕ)
        → text ≡ c ∷ more
        → ReadAt p s (next_place c p) (plain_token t text p, skip text (cursor (c ∷ s) p)) =
      λ more e. (rw e (skip-Moved more (cursor s (next_place c p))), refl) in
    elim shape [
      | inl e ↦ Scanned-behind m (behind [] e) spelled
      | inr (d, a, e) ↦ Scanned-behind m (behind (d ∷ []) e) spelled
    ]

with_raw-Fine :
    {s : List ℕ} {p q : Place} (l : Cursor) {r : Lexed (Token × Cursor)}
    → Fine (LiteralAt q s p) r
    → Fine (LiteralAt q s p) (with_raw l r)
with_raw-Fine l h = Fine-bind h (λ a m. Fine-ok m)

module _ (file : List ℕ) where
  next_at-Fine :
      {l : Cursor} (s : List ℕ) (p : Place)
      → Skipped l.rest l.at (cursor s p)
      → Fine (Scanned l) (next_at file s p)
  unfolding next_at
  next_at-Fine [] p m = Fine-ok (record {
    start = cursor [] p;
    before = m;
    read = (Moved-refl [] p, refl);
    spelled = at_end refl refl refl;
    progress = inl refl;
  })
  next_at-Fine (c ∷ s) p m = elim (Option-cases (symbol c (get_elem? s 0))) [
    | inr ((t, text), e) ↦ rw (e, next_at) (Fine-ok (symbol-Scanned m e))
    | inl e ↦
        rw (e, next_at)
          (Fine-if (c == b'!') (λ e. Fine-err refl)
            (λ e.
              Fine-if (c == b'"' || c == b'\'')
                (λ e.
                  Fine-result-weaken
                    (λ r q (n, (at, k)).
                      Scanned-behind m (n, at)
                        (as_literal k (read_string-spelling file c s p r.0 r.1 q)))
                    (with_raw-Fine (cursor (c ∷ s) p) (read_string-Fine file c c s p p)))
                (λ e.
                  Fine-if (c == b'$')
                    (λ e.
                      Fine-result-weaken
                        (λ r q n. Scanned-behind m n (read_var_ref-Spelled file c s p r.0 r.1 e q))
                        (read_var_ref-Fine file c s p))
                    (λ e.
                      Fine-if (is_ascii_digit c)
                        (λ e.
                          Fine-result-weaken
                            (λ r q (n, (at, k)).
                              Scanned-behind m (n, at)
                                (as_literal k (read_number-spelling file c s p r.0 r.1 e q)))
                            (with_raw-Fine (cursor (c ∷ s) p) (read_number-Fine file c s p e)))
                        (λ e.
                          Fine-if (is_ident_start c)
                            (λ e.
                              Fine-result-weaken
                                (λ r q n. Scanned-behind m n (
                                  read_identifier_or_keyword-Spelled file (cursor (c ∷ s) p) r.0 r.1
                                    q))
                                (read_identifier_or_keyword-Fine file c s p e))
                            (λ e. Fine-err refl))))))
  ]

skip_space-length :
    (s : List ℕ) (p : Place) (n : ℕ)
    → (skip_space s p n).0 + length ((skip_space s p n).1.rest) ≤ n + length s
unfolding skip_space
skip_space-length [] p n = omega arith
skip_space-length (c ∷ s) p n =
    ground
      (arith, skip_space-length s (next_place c p) (n + 1), skip_space-length s (next_place c p) n)

line_text_behind :
    (s : List ℕ) (p : Place) → Moved s (next_place b'#' p) ((line_text (b'#' ∷ s) p []).1)
unfolding line_text
line_text_behind s p = line_text-Moved s (next_place b'#' p) (b'#' ∷ [])

line-Scanned :
    {l : Cursor} (s : List ℕ) (p : Place)
    → Skipped l.rest l.at (cursor s p)
    → next_is b'#' (get_elem? s 0) ≡ true
    → Scanned l (read_line_comment (cursor s p))
unfolding read_line_comment
line-Scanned [] p m h = cc
line-Scanned {l} (d ∷ s) p m h =
    let e : d ≡ b'#' = (==_iff d b'#').0 h in
    subst
      (λ x.
        Skipped l.rest l.at (cursor (x ∷ s) p) → Scanned l (read_line_comment (cursor (x ∷ s) p)))
      (sym e)
      (λ m.
        Scanned-behind m (line_text_behind s p, refl)
          (read_line_comment-Spelled (cursor (b'#' ∷ s) p)))
      m

abbrev TriviaDone : Cursor → Option Token × Cursor → Type 0
TriviaDone l (some tok, l') = Scanned l (tok, l')
TriviaDone l (none, l') = Skipped l.rest l.at l'

module _ (file : List ℕ) where
  block-Scanned :
      {l : Cursor} (s : List ℕ) (p : Place)
      → Skipped l.rest l.at (cursor s p)
      → (next_is b'/' (get_elem? s 0) && next_is b'*' (get_elem? s 1)) ≡ true
      → Fine (Scanned l) (read_block_comment file (cursor s p))
  block-Scanned [] p m h = cc
  block-Scanned (c ∷ []) p m h = ground arith
  block-Scanned (c ∷ d ∷ s) p m h =
      Fine-result-weaken
        (λ r q n. Scanned-behind m n (read_block_comment-Spelled file c d s p r.0 r.1 h q))
        (read_block_comment-Fine file c d s p)

  next_trivia-Fine : (l : Cursor) → Fine (TriviaDone l) (next_trivia file l)
  unfolding next_trivia
  next_trivia-Fine l =
      let (newlines, l') = skip_space l.rest l.at 0 in
      let m = skip_space-Skipped l.rest l.at 0 in
      Fine-if (leb 2 newlines)
        (λ e. Fine-ok (record {
          start = l;
          before = Skipped-refl l.rest l.at;
          read = (Skipped-Moved m, refl);
          spelled = as_blank_line refl m.text m.space (sym m.source);
          progress = inr (ground (arith, skip_space-length l.rest l.at 0, e));
        }))
        (λ e.
          Fine-if (next_is b'#' (peek l' 0)) (λ e. Fine-ok (line-Scanned l'.rest l'.at m e))
            (λ e.
              Fine-if (next_is b'/' (peek l' 0) && next_is b'*' (peek l' 1))
                (λ e. Fine-bind (block-Scanned l'.rest l'.at m e) (λ a n. Fine-ok n))
                (λ e. Fine-ok m)))

  or_token-Fine :
      {l : Cursor} (r : Option Token × Cursor) → TriviaDone l r → Fine (Scanned l) (or_token file r)
  or_token-Fine (some tok, l') h = Fine-ok h
  or_token-Fine (none, l') m = next_at-Fine file l'.rest l'.at m

  pub next-Fine : (l : Cursor) → Fine (Scanned l) (next file l)
  unfolding next
  next-Fine l = Fine-bind (next_trivia-Fine l) (λ r h. or_token-Fine r h)
