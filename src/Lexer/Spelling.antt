-- ===== src/Lexer/Spelling.antt =====
-- The field Raw of number and string tokens of internal/lexer/lexer.go.
use mathlib.Core.Path.{subst}
use jennifer.Common.{
  ap, suc, sym, zero, ◌∙◌, List, ℕ, [], ◌∷◌, ◌++◌, ◌≡◌, ok, true, length, bind-ok, refl, arith,
  length-append, ◌-◌,
}
use jennifer.Lexer.Position.{Place, Cursor, cursor, Lexed, next_place}
use jennifer.Lexer.Tokens.{Token}
use jennifer.Lexer.Moves.{Moved, Moved-cons, Fine, LiteralAt}
use jennifer.Lexer.Chars.{is_ascii_digit}
use jennifer.Lexer.Cooked.{read_string}
use jennifer.Lexer.Numbers.{read_number}
use jennifer.Lexer.NumberReaders.{read_number-Fine}
use jennifer.Lexer.StringReaders.{read_string-Fine}
use jennifer.Lexer.Literals.{ok_inj}
use jennifer.Lexer.{take, consumed, with_raw}

take-append : (n : ℕ) (text rest : List ℕ) → n ≡ length text → take n (text ++ rest) ≡ text
take-append zero [] rest h = refl
take-append zero (c ∷ text) rest h = absurd (omega arith)
take-append (suc n) [] rest h = absurd (omega arith)
take-append (suc n) (c ∷ text) rest h = ap (λ t. c ∷ t) (take-append n text rest (omega arith))

consumed-Moved : (l l' : Cursor) → Moved l.rest l.at l' → consumed l l' ++ l'.rest ≡ l.rest
consumed-Moved l l' m =
    let n : length l.rest - length l'.rest ≡ length m.text =
      omega (arith, length-append m.text l'.rest, ap length m.source) in
    ap (λ t. take (length l.rest - length l'.rest) t ++ l'.rest) m.source
    ∙ ap (λ t. t ++ l'.rest) (take-append (length l.rest - length l'.rest) m.text l'.rest n)
    ∙ sym m.source

Fine-result : {A : Type 0} {P : A → Type 0} {r : Lexed A} (a : A) → Fine P r → r ≡ ok a → P a
Fine-result {A} {P} a f h = (subst (λ x. Fine P x) h f).fine

with_raw-spelling :
    (c : ℕ) (s : List ℕ) (p : Place) (t : Token) (l' : Cursor) (r : Lexed (Token × Cursor))
    → Fine (LiteralAt p s (next_place c p)) r
    → with_raw (cursor (c ∷ s) p) r ≡ ok (t, l')
    → t.raw ++ l'.rest ≡ c ∷ s
with_raw-spelling c s p t l' r f h =
    let (a, ha, q) = bind-ok r _ {b = (t, l')} h in
    let m = Moved-cons c (Fine-result a f ha).0 in
    let z = ok_inj q in
    sym (ap (λ (u : Token × Cursor). u.0.raw ++ u.1.rest) z)
    ∙ consumed-Moved (cursor (c ∷ s) p) (a.1) m

module _ (file : List ℕ) where
  -- The raw text of a number token, in front of what is left, is the source that it was read from:
  -- a number keeps its own spelling, with its prefix, its separators and its exponent.
  pub read_number-spelling :
      (c : ℕ) (s : List ℕ) (p : Place) (t : Token) (l' : Cursor)
      → is_ascii_digit c ≡ true
      → with_raw (cursor (c ∷ s) p) (read_number file (cursor (c ∷ s) p)) ≡ ok (t, l')
      → t.raw ++ l'.rest ≡ c ∷ s
  read_number-spelling c s p t l' h q =
      with_raw-spelling c s p t l' (read_number file (cursor (c ∷ s) p))
        (read_number-Fine file c s p h) q

  -- The raw text of a string token, raw or cooked, in front of what is left, is the source that it was
  -- read from, with its quotes, its escapes and its slots.
  pub read_string-spelling :
      (c : ℕ) (s : List ℕ) (p : Place) (t : Token) (l' : Cursor)
      → with_raw (cursor (c ∷ s) p) (read_string file c p (cursor (c ∷ s) p)) ≡ ok (t, l')
      → t.raw ++ l'.rest ≡ c ∷ s
  read_string-spelling c s p t l' q =
      with_raw-spelling c s p t l' (read_string file c p (cursor (c ∷ s) p))
        (read_string-Fine file c c s p p) q
