-- ===== src/Lexer/Stream.antt =====
-- The token list of `tokenizeAll` in internal/lexer/lexer.go, as a reading of the whole source.
use mathlib.Core.Path.{subst}
use jennifer.Lexer.Texts.{Spelled-eof, Spelled-file, Spelled, Skipped}
use jennifer.Common.{
  sym, All, All-append, List, [], arith, false, inl, inr, leb, length, length-append, refl, suc,
  true, zero, ℕ, ◌++◌, ◌+◌, ◌<◌, ◌∙◌, ◌∷◌, ◌≡◌, ◌≤◌,
}
use jennifer.Lexer.Moves.{ReadAt, place_of, Fine, Fine-bind, Fine-elim, Fine-ok, Fine-err}
use jennifer.Lexer.Scan.{Scanned, next-Fine}
use jennifer.Lexer.{is_eof, tokens_from, tokenize_all, tokenize_at, strip_bom}
use jennifer.Lexer.Position.{cursor, Cursor, max_tokens, Place}
use jennifer.Lexer.Tokens.{Token}

-- The tokens are read off the source `s` from `p` on, one behind the other, up to `l`, with blanks and
-- newlines alone between them. Each has the line and column of its first rune, and is spelled by the
-- runes from there to where the next one's blanks start.
abbrev pub Stream : List ℕ → Place → List Token → Cursor → Type 0
Stream s p [] l = cursor s p ≡ l
Stream s p (t ∷ ts) l =
    (start : Cursor) × (behind : Cursor) × Skipped s p start
    × ReadAt start.at start.rest start.at (t, behind)
    × Spelled t start.rest behind.rest
    × Stream behind.rest behind.at ts l

Stream-append :
    (s : List ℕ) (p : Place) (ts : List Token) (l : Cursor) (t : Token) (r : Token × Cursor)
    (c : Scanned l r)
    → place_of t ≡ place_of (r.0)
    → Spelled t c.start.rest r.1.rest
    → Stream s p ts l
    → Stream s p (ts ++ t ∷ []) (r.1)
Stream-append s p [] l t r c q h m = (
  c.start,
  r.1,
  subst (λ (k : Cursor). Skipped k.rest k.at c.start) (sym m) c.before,
  (c.read.0, q ∙ c.read.1),
  h,
  refl,
)
Stream-append s p (u ∷ ts) l t r c q h (start, behind, m, d, k, more) =
    (start, behind, m, d, k, Stream-append behind.rest behind.at ts l t r c q h more)

-- A whole token list: it uses up the source, and the end of the source is its last token and no other
-- one.
pub record Lexes (s : List ℕ) (p : Place) (ts : List Token) : Type 0 where
  pub end : Cursor
  pub stream : Stream s p ts end
  pub used_up : end.rest ≡ []
  pub body : List Token
  pub eof : Token
  pub split : ts ≡ body ++ eof ∷ []
  pub ends : is_eof eof.kind ≡ true
  pub inside : All (λ t. is_eof t.kind ≡ false) body
  pub within : length ts ≤ max_tokens

budget : (m n : ℕ) → leb m n ≡ false → n + 1 ≤ m
budget m n h = ground arith

length-snoc :
    (out : List Token) (t : Token)
    → leb max_tokens (length out) ≡ false
    → length (out ++ t ∷ []) ≤ max_tokens
length-snoc out t h = omega (arith, length-append out (t ∷ []), budget max_tokens (length out) h)

still_fuel :
    {l : Cursor} {r : Token × Cursor} (n : ℕ)
    → Scanned l r
    → is_eof r.0.kind ≡ false
    → length l.rest < suc n
    → length r.1.rest < n
still_fuel n c e h = elim c.progress [ inl q ↦ cc | inr k ↦ omega arith ]

module _ (file : List ℕ) where
  tokens_from-Fine :
      (s : List ℕ) (p : Place) (n : ℕ) (l : Cursor) (out : List Token)
      → Stream s p out l
      → All (λ t. is_eof t.kind ≡ false) out
      → length l.rest < n
      → Fine (Lexes s p) (tokens_from file n l out)
  unfolding tokens_from
  tokens_from-Fine s p zero l out h a k = absurd (omega arith)
  tokens_from-Fine s p (suc n) l out h a k = Fine-bind (next-Fine file l) (λ r c.
      let tok = record (r.0) { file = file } in
      let grown = Stream-append s p out l tok r c refl (Spelled-file file c.spelled) h in
      Fine-elim (leb max_tokens (length out)) (λ e. Fine-err refl)
        (λ small.
          Fine-elim (is_eof tok.kind)
            (λ e. Fine-ok (record {
              end = r.1;
              stream = grown;
              used_up = Spelled-eof c.spelled e;
              body = out;
              eof = tok;
              split = refl;
              ends = e;
              inside = a;
              within = length-snoc out tok small;
            }))
            (λ e.
              tokens_from-Fine s p n (r.1) (out ++ tok ∷ []) grown
                (All-append (λ t. is_eof t.kind ≡ false) out (tok ∷ []) a (e, tt))
                (still_fuel n c e k))))

-- Tokenizing ends for every source, from any starting place: with an error of the language, or with
-- tokens that use up the source behind one leading byte order mark, one end-of-file token at the
-- end and no other one, and no more of them than the budget. Between two tokens there are blanks
-- and newlines alone. Each token has the line and column of its first rune, and its runes spell it:
-- an operator as its kind, a name, keyword or comment as its text, a variable as `$` and its name,
-- a number or string as its raw text, a blank line as blanks and newlines.
pub tokenize_at-Lexes :
    (source file : List ℕ) (start : Place)
    → Fine (Lexes (strip_bom source) start) (tokenize_at source file start)
unfolding tokenize_at tokenize_all
tokenize_at-Lexes source file start =
    tokens_from-Fine file (strip_bom source) start (suc (length (strip_bom source)))
      (cursor (strip_bom source) start) [] refl tt (omega arith)
