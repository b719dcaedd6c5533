-- ===== src/Parser/Ends/Bounds.antt =====
-- What a step of the parser of internal/parser/parser.go keeps: the end of the tokens, the counter of
-- nesting and the flag for struct literals, and a measure of what is left to read.
use jennifer.Common.{
  if◌then◌else◌, List, [], ◌∷◌, Option, none, some, ℕ, zero, suc, Bool, true, false, ok, err,
  length, ◌+◌, ◌*◌, ◌<◌, ◌≤◌, ◌≡◌, arith,
}
use jennifer.Lexer.Tokens.{Token}
use jennifer.Lexer.{is_eof}
use jennifer.Parser.State.{
  resume, Parser, Parsed, P, syntax, lexical, ParseError, ◌>>=◌, pure, raise,
}
use jennifer.Parser.Slots.{max_source_bytes}
use jennifer.Lexer.Position.{LexError}

-- A token list with one end-of-file token, the last one.
abbrev pub Ended : List Token → Type 0
Ended [] = ⊥
Ended (t ∷ []) = is_eof t.kind ≡ true
Ended (t ∷ u ∷ ts) = (is_eof t.kind ≡ false) × Ended (u ∷ ts)

-- The bytes that slots may still have read again.
abbrev pub budget_left : Option ℕ → ℕ
budget_left none = max_source_bytes
budget_left (some b) = b

-- What is left to read; each byte of a slot gives at most one token more than it has.
unfoldable pub weight : Parser → ℕ
weight s = length s.tokens + 2 * budget_left s.sublex_budget

pub record Mode : Type 0 where
  pub budget : ℕ
  pub depth : ℕ
  pub no_struct_lit : Bool

pub record At (k : ℕ) (m : Mode) (s : Parser) : Type 0 where
  pub ended : Ended s.tokens
  pub below : weight s < k
  pub within : budget_left s.sublex_budget ≤ m.budget
  pub nested : s.expr_depth ≡ m.depth
  pub flagged : s.no_struct_lit ≡ m.no_struct_lit

pub length-Ended : (ts : List Token) → Ended ts → 0 < length ts
length-Ended [] h = absurd h
length-Ended (t ∷ ts) h = omega arith

-- The end of the tokens is always left to read.
pub At-two : {k : ℕ} {m : Mode} (s : Parser) → At k m s → 1 < k
unfolding weight
At-two s a = omega (arith, a.below, length-Ended s.tokens a.ended)

-- A step ended, with an error of the language or with a result of which `Q` holds: it did not read
-- past the last token, and its fuel was enough.
pub data Ensures {A : Type 0} (Q : A → Parser → Type 0) : Parsed A → Type 0 where
  holds : {a : A} {s : Parser} → Q a s → Ensures Q (ok (a, s))
  rejected : {e : ParseError} → Ensures Q (err (syntax e))
  refused : {e : LexError} → Ensures Q (err (lexical e))

pub Ensures-resume :
    {A B : Type 0} {R : A → Parser → Type 0} {Q : B → Parser → Type 0} {r : Parsed A} (f : A → P B)
    → Ensures R r
    → ((a : A) (t : Parser) → R a t → Ensures Q (f a t))
    → Ensures Q (resume r f)
Ensures-resume f (holds {a} {s} h) g = g a s h
Ensures-resume f rejected g = rejected
Ensures-resume f refused g = refused

pub Ensures-weaken :
    {A : Type 0} {R Q : A → Parser → Type 0} {r : Parsed A}
    → Ensures R r
    → ((a : A) (t : Parser) → R a t → Q a t)
    → Ensures Q r
Ensures-weaken (holds {a} {s} h) g = holds (g a s h)
Ensures-weaken rejected g = rejected
Ensures-weaken refused g = refused

-- A step that keeps all of this, whatever the mode; it starts with less than `k` to read.
abbrev pub Steps : {A : Type 0} → ℕ → P A → Type 0
Steps k p = (m : Mode) (s : Parser) → At k m s → Ensures (λ _ t. At k m t) (p s)

abbrev pub More : Parser → Type 0
More s = (t : Token) × (ts : List Token) × (s.tokens ≡ t ∷ ts) × (is_eof t.kind ≡ false)

-- The same, of a step that starts before the end of the tokens.
abbrev pub Starts : {A : Type 0} → ℕ → P A → Type 0
Starts k p =
    (m : Mode) (s : Parser) → At (suc k) m s → More s → Ensures (λ _ t. At (suc k) m t) (p s)

-- A step that consumes a token, where one is before the end.
abbrev pub Moves : {A : Type 0} → ℕ → P A → Type 0
Moves k p = (m : Mode) (s : Parser) → At (suc k) m s → More s → Ensures (λ _ t. At k m t) (p s)

module _ {A : Type 0} where
  pub Steps-pure : {k : ℕ} (a : A) → Steps k (pure a)
  unfolding pure
  Steps-pure a m s h = holds h

  pub Steps-reject : {k : ℕ} (e : ParseError) → Steps {A = A} k (raise (syntax e))
  unfolding raise
  Steps-reject e m s h = rejected

  pub Steps-Starts : {k : ℕ} {p : P A} → Steps (suc k) p → Starts k p
  Steps-Starts h m s a _ = h m s a

  -- Nothing has less than nothing to read.
  pub Steps-zero : (p : P A) → Steps 0 p
  Steps-zero p m s h = absurd (omega (arith, h.below))

  pub Steps-few : (k : ℕ) (p : P A) → k ≤ 1 → Steps k p
  Steps-few k p i m s h = absurd (omega (arith, i, At-two s h))

  -- A bound other than nothing.
  pub Steps-suc : {p : P A} (k : ℕ) → ((i : ℕ) → suc i ≤ k → Steps (suc i) p) → Steps k p
  Steps-suc {p} zero g = Steps-zero p
  Steps-suc (suc i) g = g i (omega arith)

  pub Steps-elim :
      {k : ℕ} (b : Bool) (p q : P A)
      → Steps k p
      → Steps k q
      → Steps k (elim b [ true ↦ p | false ↦ q ])
  Steps-elim true p q h g = h
  Steps-elim false p q h g = g

  pub Starts-elim :
      {k : ℕ} (b : Bool) (p q : P A)
      → Starts k p
      → Starts k q
      → Starts k (elim b [ true ↦ p | false ↦ q ])
  Starts-elim true p q h g = h
  Starts-elim false p q h g = g

  pub Steps-if :
      {k : ℕ} (b : Bool) {p q : P A} → Steps k p → Steps k q → Steps k (if b then p else q)
  Steps-if true h g = h
  Steps-if false h g = g

  pub Steps-option :
      {B : Type 0} {k : ℕ} (o : Option B) (p : P A) (q : B → P A)
      → Steps k p
      → ((b : B) → Steps k (q b))
      → Steps k (elim o [ none ↦ p | some b ↦ q b ])
  Steps-option none p q h g = h
  Steps-option (some b) p q h g = g b

module _ {A B : Type 0} where
  pub Steps-bind :
      {k : ℕ} {p : P A} {f : A → P B} → Steps k p → ((a : A) → Steps k (f a)) → Steps k (p >>= f)
  unfolding ◌>>=◌
  Steps-bind {f = f} h g m s a = Ensures-resume f (h m s a) (λ b t c. g b m t c)
