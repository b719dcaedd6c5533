-- ===== src/Parser/Ends/Advances.antt =====
-- The moves of internal/parser/parser.go over the tokens, under the measure of Parser.Bounds.
use jennifer.Common.{
  String, List, [], ◌∷◌, Option, none, some, ℕ, suc, Bool, true, false, length, ◌≡◌, arith, refl,
  ap, inl, inr, Bool-cases,
}
use jennifer.Lexer.Tokens.{Token, TokenType}
use jennifer.Lexer.{is_eof}
use jennifer.Parser.Kinds.{same_kind, is_eof-kind_code}
use jennifer.Parser.State.{
  Parser, P, ◌>>=◌, pure, raise, peek, advance, check, match, expect, head_token,
}
use jennifer.Parser.Ends.Bounds.{
  Moves, Ended, At, More, Mode, Ensures, holds, rejected, weight, Steps, Starts, Ensures-resume,
  Ensures-weaken,
}

pub same_kind-is_eof :
    (s t : TokenType) → same_kind s t ≡ true → is_eof t ≡ false → is_eof s ≡ false
unfolding same_kind
same_kind-is_eof s t h e = ground (arith, is_eof-kind_code s, is_eof-kind_code t)

Ended-tail : (t : Token) (ts : List Token) → Ended (t ∷ ts) → is_eof t.kind ≡ false → Ended ts
Ended-tail t [] h e = cc
Ended-tail t (u ∷ ts) h e = h.1

pub At-later : {k : ℕ} {m : Mode} {s : Parser} → At k m s → At (suc k) m s
At-later h = record {
  ended = h.ended;
  below = omega (arith, h.below);
  within = h.within;
  nested = h.nested;
  flagged = h.flagged;
}

pub At-rest :
    {k : ℕ} {m : Mode} (s : Parser) (t : Token) (ts : List Token)
    → s.tokens ≡ t ∷ ts
    → is_eof t.kind ≡ false
    → At (suc k) m s
    → At k m (record s { tokens = ts })
unfolding weight
At-rest s t ts e f h = record {
  ended = Ended-tail t ts (rw e at (h.ended)) f;
  below = omega (arith, h.below, ap length e);
  within = h.within;
  nested = h.nested;
  flagged = h.flagged;
}

abbrev pub Peeked : Parser → Token → Parser → Type 0
Peeked s t u = (u ≡ s) × (ts : List Token) × (s.tokens ≡ t ∷ ts)

pub peek-Ended : (s : Parser) → Ended s.tokens → Ensures (Peeked s) (peek s)
unfolding peek
peek-Ended s h = by_tokens s.tokens refl h
  where
    by_tokens : (ts : List Token) → s.tokens ≡ ts → Ended ts → Ensures (Peeked s) (head_token s ts)
    by_tokens [] e h = absurd h
    by_tokens (t ∷ ts) e h = holds (refl, ts, e)

pub advance-More :
    {k : ℕ} {m : Mode} (s : Parser)
    → At (suc k) m s
    → More s
    → Ensures (λ _ t. At k m t) (advance s)
unfolding advance
advance-More s h (t, ts, e, f) = rw e (rw f (holds (At-rest s t ts e f h)))

pub More-of :
    (s : Parser) (t : Token)
    → ((ts : List Token) × (s.tokens ≡ t ∷ ts))
    → is_eof t.kind ≡ false
    → More s
More-of s t (ts, e) f = (t, ts, e, f)

module _ {A : Type 0} {k : ℕ} where
  pub Steps-later :
      {p : P A}
      → ((m : Mode) (s : Parser) → At (suc k) m s → Ensures (λ _ t. At k m t) (p s))
      → Steps (suc k) p
  Steps-later h m s a = Ensures-weaken (h m s a) (λ b t c. At-later c)

  pub Starts-advance : {f : Token → P A} → ((u : Token) → Steps k (f u)) → Starts k (advance >>= f)
  unfolding ◌>>=◌
  Starts-advance {f} g m s h more =
      Ensures-resume f (advance-More s h more)
        (λ u t c. Ensures-weaken (g u m t c) (λ b v d. At-later d))

  pub Moves-Starts : {p : P A} → Moves k p → Starts k p
  Moves-Starts h m s a more = Ensures-weaken (h m s a more) (λ b t c. At-later c)

  pub Moves-advance : {f : Token → P A} → ((u : Token) → Steps k (f u)) → Moves k (advance >>= f)
  unfolding ◌>>=◌
  Moves-advance {f} g m s h more = Ensures-resume f (advance-More s h more) (λ u t c. g u m t c)

  -- A look at the next token, by whether it is the end.
  pub Steps-peek :
      {f : Token → P A}
      → ((t : Token) → is_eof t.kind ≡ false → Starts k (f t))
      → ((t : Token) → is_eof t.kind ≡ true → Steps (suc k) (f t))
      → Steps (suc k) (peek >>= f)
  unfolding ◌>>=◌
  Steps-peek {f} g e m s h = Ensures-resume f (peek-Ended s h.ended) (λ t u (q, ts, y).
      rw q (elim (Bool-cases (is_eof t.kind)) [
        | inl z ↦ e t z m s h
        | inr n ↦ g t n m s h (More-of s t (ts, y) n)
      ]))

  pub Steps-look :
      {f : Token → P A} → ((t : Token) → Steps (suc k) (f t)) → Steps (suc k) (peek >>= f)
  Steps-look g = Steps-peek (λ t e m s h more. g t m s h) (λ t e. g t)

-- A test that leaves the parser as it is, and holds only before the end of the tokens.
abbrev pub Tested : Parser → Bool → Parser → Type 0
Tested s b t = (t ≡ s) × ((b ≡ true) → More s)

pub check-Tested :
    (tt' : TokenType)
    → is_eof tt' ≡ false
    → (s : Parser) → Ended s.tokens
    → Ensures (Tested s) (check tt' s)
unfolding ◌>>=◌ check pure
check-Tested tt' e s h =
    Ensures-resume _ (peek-Ended s h)
      (λ t u (q, ts, y). holds (q, λ z. More-of s t (ts, y) (same_kind-is_eof t.kind tt' z e)))

module _ {A : Type 0} {k : ℕ} where
  pub Steps-test :
      {p : P Bool} (f : Bool → P A)
      → ((s : Parser) → Ended s.tokens → Ensures (Tested s) (p s))
      → Starts k (f true)
      → Steps (suc k) (f false)
      → Steps (suc k) (p >>= f)
  unfolding ◌>>=◌
  Steps-test f test g h m s a =
      Ensures-resume f (test s a.ended) (λ b v (q, more). rw q (by_test b more))
    where
      by_test : (b : Bool) → ((b ≡ true) → More s) → Ensures (λ _ t. At (suc k) m t) (f b s)
      by_test true more = g m s a (more refl)
      by_test false more = h m s a

  pub Steps-check :
      (f : Bool → P A) (tt' : TokenType)
      → is_eof tt' ≡ false
      → Starts k (f true)
      → Steps (suc k) (f false)
      → Steps (suc k) (check tt' >>= f)
  Steps-check f tt' e = Steps-test f (check-Tested tt' e)

-- The token of the kind is consumed, or the step is refused.
expect-Later :
    {k : ℕ} (tt' : TokenType) (ctx : String)
    → is_eof tt' ≡ false
    → (m : Mode) (s : Parser) → At (suc k) m s
    → Ensures (λ _ t. At k m t) (expect tt' ctx s)
unfolding expect ◌>>=◌ raise
expect-Later tt' ctx e m s a = Ensures-resume _ (peek-Ended s a.ended) (λ t u (q, ts, y).
    rw q (elim (Bool-cases (same_kind t.kind tt')) [
      | inl z ↦ rw z (advance-More s a (More-of s t (ts, y) (same_kind-is_eof t.kind tt' z e)))
      | inr z ↦ rw z rejected
    ]))

pub expect-Steps :
    {k : ℕ} (tt' : TokenType) (ctx : String) → is_eof tt' ≡ false → Steps (suc k) (expect tt' ctx)
expect-Steps tt' ctx e m s a = Ensures-weaken (expect-Later tt' ctx e m s a) (λ u t c. At-later c)

module _ {A : Type 0} {k : ℕ} where
  pub Steps-expect :
      {f : Token → P A} (tt' : TokenType) (ctx : String)
      → is_eof tt' ≡ false
      → ((u : Token) → Steps k (f u))
      → Steps (suc k) (expect tt' ctx >>= f)
  unfolding ◌>>=◌
  Steps-expect {f} tt' ctx e g m s a =
      Ensures-resume f (expect-Later tt' ctx e m s a)
        (λ u t c. Ensures-weaken (g u m t c) (λ b v d. At-later d))

  pub Starts-bind :
      {B : Type 0} {p : P B} {f : B → P A}
      → Starts k p
      → ((b : B) → Steps (suc k) (f b))
      → Starts k (p >>= f)
  unfolding ◌>>=◌
  Starts-bind {f = f} h g m s a more = Ensures-resume f (h m s a more) (λ b t c. g b m t c)

  pub Steps-match :
      (f : Option Token → P A) (tt' : TokenType)
      → is_eof tt' ≡ false
      → ((t : Token) → Steps k (f (some t)))
      → Steps (suc k) (f none)
      → Steps (suc k) (match tt' >>= f)
  unfolding ◌>>=◌ match pure
  Steps-match f tt' e g h m s a =
      Ensures-resume {R = λ o t. Matched o t} f
        (Ensures-resume _ (peek-Ended s a.ended) (λ t u (q, ts, y).
          rw q (elim (Bool-cases (same_kind t.kind tt')) [
            | inl z ↦ rw z (
                Ensures-resume (λ u. pure (some u))
                  (advance-More s a (More-of s t (ts, y) (same_kind-is_eof t.kind tt' z e)))
                  (λ u v c. holds c))
            | inr z ↦ rw z (holds a)
          ])))
        by_match
    where
      Matched : Option Token → Parser → Type 0
      Matched none t = At (suc k) m t
      Matched (some u) t = At k m t

      by_match :
          (o : Option Token) (t : Parser) → Matched o t → Ensures (λ _ t. At (suc k) m t) (f o t)
      by_match none t c = h m t c
      by_match (some u) t c = Ensures-weaken (g u m t c) (λ b v d. At-later d)
