-- ===== src/Parser/Ends/SlotTokens.antt =====
-- The tokens of an interpolation slot of internal/parser/parser.go: they end, and are no more than the
-- runes of the slot and one.
use jennifer.Common.{
  ◌>>=◌, All, List, [], ◌∷◌, ◌++◌, ℕ, zero, suc, Bool, true, false, ok, err, length, ◌+◌, ◌<◌, ◌≤◌,
  ◌≡◌, arith, refl, leb, Bool-cases, inl, inr, length-append,
}
use jennifer.Lexer.{tokenize_at, tokens_from, tokenize_all, is_eof, strip_bom, next}
use jennifer.Lexer.Position.{Place, Cursor, Lexed, cursor, max_tokens}
use jennifer.Lexer.Stream.{tokenize_at-Lexes, Lexes}
use jennifer.Lexer.Tokens.{Token}
use jennifer.Parser.Kinds.{strip_trivia, is_trivia}
use jennifer.Parser.Slots.{text_bytes, is_blank_text}
use jennifer.Parser.Ends.Bounds.{Ended}
use jennifer.Parser.Ends.Levels.{is_eof-eq}

pub length-text_bytes : (s : List ℕ) → length s ≤ text_bytes s
length-text_bytes [] = omega arith
length-text_bytes (c ∷ s) = ground (arith, length-text_bytes s)

pub text_bytes-pos : (s : List ℕ) → is_blank_text s ≡ false → 0 < text_bytes s
unfolding is_blank_text
text_bytes-pos [] h = cc
text_bytes-pos (c ∷ s) h = ground arith

length-strip_trivia : (ts : List Token) → length (strip_trivia ts) ≤ length ts
unfolding strip_trivia
length-strip_trivia [] = omega arith
length-strip_trivia (t ∷ ts) = elim (Bool-cases (is_trivia t.kind)) [
  | inl e ↦ rw e (omega (arith, length-strip_trivia ts))
  | inr e ↦ rw e (omega (arith, length-strip_trivia ts))
]

Ended-cons : (t : Token) (ts : List Token) → is_eof t.kind ≡ false → Ended ts → Ended (t ∷ ts)
Ended-cons t [] e h = absurd h
Ended-cons t (u ∷ ts) e h = (e, h)

trivia_eof : (t : Token) → is_eof t.kind ≡ true → is_trivia t.kind ≡ false
trivia_eof t e = rw (is_eof-eq t.kind e) refl

strip_trivia-Ended :
    (body : List Token) (eof : Token)
    → is_eof eof.kind ≡ true
    → All (λ t. is_eof t.kind ≡ false) body
    → Ended (strip_trivia (body ++ eof ∷ []))
unfolding strip_trivia
strip_trivia-Ended [] eof e a = rw (trivia_eof eof e) e
strip_trivia-Ended (t ∷ body) eof e (f, a) = elim (Bool-cases (is_trivia t.kind)) [
  | inl y ↦ rw y (strip_trivia-Ended body eof e a)
  | inr n ↦ rw n (Ended-cons t _ f (strip_trivia-Ended body eof e a))
]

abbrev AtMost : ℕ → Lexed (List Token) → Type 0
AtMost k (ok ts) = length ts ≤ k
AtMost k (err e) = Unit

AtMost-elim :
    (k : ℕ) (b : Bool) (x y : Lexed (List Token))
    → AtMost k x
    → AtMost k y
    → AtMost k (elim b [ true ↦ x | false ↦ y ])
AtMost-elim k true x y h g = h
AtMost-elim k false x y h g = g

AtMost-bind :
    {A : Type 0} (k : ℕ) (r : Lexed A) (f : A → Lexed (List Token))
    → ((a : A) → AtMost k (f a))
    → AtMost k (r >>= f)
AtMost-bind k (ok a) f g = g a
AtMost-bind k (err e) f g = tt

AtMost-more : (k l : ℕ) (r : Lexed (List Token)) → k ≤ l → AtMost k r → AtMost l r
AtMost-more k l (ok ts) h a = omega (arith, a)
AtMost-more k l (err e) h a = tt

length-snoc : (out : List Token) (t : Token) → length (out ++ t ∷ []) ≡ suc (length out)
length-snoc out t = omega (arith, length-append out (t ∷ []))

tokens_from-AtMost :
    (file : List ℕ) (n : ℕ) (l : Cursor) (out : List Token)
    → AtMost (n + length out) (tokens_from file n l out)
unfolding tokens_from
tokens_from-AtMost file zero l out = tt
tokens_from-AtMost file (suc n) l out = AtMost-bind _ (next file l) _ (λ r.
    let tok : Token = record (r.0) { file = file } in
    AtMost-elim _ (leb max_tokens (length out)) _ _ tt (
      AtMost-elim _ (is_eof tok.kind) _ _ (omega (arith, length-snoc out tok)) (
        AtMost-more _ _ (tokens_from file n (r.1) (out ++ tok ∷ []))
          (omega (arith, length-snoc out tok))
          (tokens_from-AtMost file n (r.1) (out ++ tok ∷ [])))))

length-strip_bom : (s : List ℕ) → length (strip_bom s) ≤ length s
length-strip_bom [] = omega arith
length-strip_bom (c ∷ s) = ground arith

tokenize_at-AtMost :
    (source file : List ℕ) (p : Place) → AtMost (suc (length source)) (tokenize_at source file p)
unfolding tokenize_at tokenize_all
tokenize_at-AtMost source file p =
    AtMost-more _ _ (tokenize_at source file p) (omega (arith, length-strip_bom source))
      (tokens_from-AtMost file (suc (length (strip_bom source))) (cursor (strip_bom source) p) [])

-- The tokens of a slot, stripped: they end, and there are not many.
pub sub_tokens :
    (source file : List ℕ) (p : Place) (ts : List Token)
    → tokenize_at source file p ≡ ok ts
    → Ended (strip_trivia ts) × (length (strip_trivia ts) ≤ suc (length source))
sub_tokens source file p ts e =
    let l : Lexes (strip_bom source) p ts = (rw e at (tokenize_at-Lexes source file p)).fine in
    let b : length ts ≤ suc (length source) = rw e at (tokenize_at-AtMost source file p) in
    (
      rw l.split (strip_trivia-Ended l.body l.eof l.ends l.inside),
      omega (arith, b, length-strip_trivia ts),
    )
