-- ===== src/Lexer/Moves.antt =====
-- Cursors of internal/lexer/lexer.go that move over a run of runes, in step with the line and
-- column; and results that are errors of the language or meet a predicate.
use jennifer.Lexer.Tokens.{
  Token, TokenType, token_int, token_float, token_string, token_string_interp,
}
use jennifer.Common.{
  ◌∙◌, Bool, List, [], false, length, length-append, ok, err, true, ℕ, ◌++◌, ◌∷◌, ◌≡◌, ◌≤◌, refl,
  sym, ap, append_assoc, arith, ◌>>=◌, if◌then◌else◌,
}
use jennifer.Lexer.Position.{
  Place, Cursor, cursor, Lexed, LexMsg, lex_error, next_place, advance_over, out_of_fuel,
}

-- The place behind a text.
unfoldable pub place_after : List ℕ → Place → Place
place_after [] p = p
place_after (c ∷ s) p = place_after s (next_place c p)

-- The cursor stands behind a text that the source `s`, read from `p`, starts with.
pub record Moved (s : List ℕ) (p : Place) (l : Cursor) : Type 0 where
  pub text : List ℕ
  pub source : s ≡ text ++ l.rest
  pub place : l.at ≡ place_after text p

pub place_after-append :
    (a b : List ℕ) (p : Place) → place_after (a ++ b) p ≡ place_after b (place_after a p)
unfolding place_after
place_after-append [] b p = refl
place_after-append (c ∷ a) b p = place_after-append a b (next_place c p)

pub Moved-refl : (s : List ℕ) (p : Place) → Moved s p (cursor s p)
unfolding place_after
Moved-refl s p = record { text = []; source = refl; place = refl }

pub Moved-cons :
    (c : ℕ) {s : List ℕ} {p : Place} {l : Cursor} → Moved s (next_place c p) l → Moved (c ∷ s) p l
unfolding place_after
Moved-cons c m = record { text = c ∷ m.text; source = ap (λ t. c ∷ t) m.source; place = m.place }

pub Moved-trans :
    {s : List ℕ} {p : Place} {l l' : Cursor} → Moved s p l → Moved l.rest l.at l' → Moved s p l'
Moved-trans {s} {p} {l} {l'} m n = record {
  text = m.text ++ n.text;
  source = m.source ∙ ap (λ t. m.text ++ t) n.source ∙ sym (append_assoc m.text n.text l'.rest);
  place = n.place ∙ ap (place_after n.text) m.place ∙ sym (place_after-append m.text n.text p);
}

pub Moved-over : (s : List ℕ) (p : Place) → Moved s p (advance_over s p)
unfolding advance_over
Moved-over [] p = Moved-refl [] p
Moved-over (c ∷ s) p = Moved-cons c (Moved-refl s (next_place c p))

pub length-Moved : {s : List ℕ} {p : Place} {l : Cursor} → Moved s p l → length l.rest ≤ length s
length-Moved {s} {p} {l} m = omega (arith, length-append m.text l.rest, ap length m.source)

abbrev pub is_fuel : LexMsg → Bool
is_fuel out_of_fuel = true
is_fuel _ = false

abbrev Outcome {ℓ} : {A : Type ℓ} → (A → Type 0) → Lexed A → Type 0
Outcome P (ok a) = P a
Outcome P (err e) = is_fuel e.msg ≡ false

-- A result that meets `P`, or an error of the language: never an end of the fuel.
pub record Fine {ℓ} {A : Type ℓ} (P : A → Type 0) (r : Lexed A) : Type 0 where
  pub fine : Outcome P r

pub Fine-ok {ℓ} : {A : Type ℓ} {P : A → Type 0} {a : A} → P a → Fine P (ok a)
Fine-ok h = record { fine = h }

pub Fine-err {ℓ} :
    {A : Type ℓ} {P : A → Type 0} {file : List ℕ} {m : LexMsg} {p : Place}
    → is_fuel m ≡ false
    → Fine P (lex_error file m p)
Fine-err h = record { fine = h }

pub Fine-bind {ℓ κ} :
    {A : Type ℓ} {B : Type κ} {P : A → Type 0} {Q : B → Type 0} {r : Lexed A} {f : A → Lexed B}
    → Fine P r
    → ((a : A) → P a → Fine Q (f a))
    → Fine Q (r >>= f)
Fine-bind {r = ok a} h g = g a h.fine
Fine-bind {r = err e} h g = record { fine = h.fine }

pub Fine-elim {ℓ} :
    {A : Type ℓ} {P : A → Type 0} (b : Bool) {t f : Lexed A}
    → (b ≡ true → Fine P t)
    → (b ≡ false → Fine P f)
    → Fine P (elim b [ true ↦ t | false ↦ f ])
Fine-elim true g h = g refl
Fine-elim false g h = h refl

pub Fine-if {ℓ} :
    {A : Type ℓ} {P : A → Type 0} (b : Bool) {t f : Lexed A}
    → (b ≡ true → Fine P t)
    → (b ≡ false → Fine P f)
    → Fine P (if b then t else f)
Fine-if true g h = g refl
Fine-if false g h = h refl

pub Fine-weaken {ℓ} :
    {A : Type ℓ} {P Q : A → Type 0} {r : Lexed A} → ((a : A) → P a → Q a) → Fine P r → Fine Q r
Fine-weaken {r = ok a} g h = record { fine = g a h.fine }
Fine-weaken {r = err e} g h = record { fine = h.fine }

-- A rune more in front of what a reader reads.
pub Fine-cons {ℓ} :
    {A : Type ℓ} (c : ℕ) {s : List ℕ} {p : Place} {r : Lexed (A × Cursor)}
    → Fine (λ a. Moved s (next_place c p) (a.1)) r
    → Fine (λ a. Moved (c ∷ s) p (a.1)) r
Fine-cons c = Fine-weaken (λ a m. Moved-cons c m)

pub Moved-elim {ℓ} :
    {A : Type ℓ} (b : Bool) {s : List ℕ} {p : Place} (t f : A × Cursor)
    → Moved s p (t.1)
    → Moved s p (f.1)
    → Moved s p ((elim b as (λ x. A × Cursor) [ true ↦ t | false ↦ f ]).1)
Moved-elim true t f g h = g
Moved-elim false t f g h = h

abbrev pub place_of : Token → Place
place_of t = record { line = t.line; col = t.col }

-- A token that stands at `start`, and the cursor behind it.
abbrev pub ReadAt : Place → List ℕ → Place → Token × Cursor → Type 0
ReadAt start s p r = Moved s p (r.1) × (place_of (r.0) ≡ start)

abbrev pub is_literal : TokenType → Bool
is_literal token_int = true
is_literal token_float = true
is_literal token_string = true
is_literal token_string_interp = true
is_literal _ = false

-- The token of a number or a string that stands at `start`, and the cursor behind it.
abbrev pub LiteralAt : Place → List ℕ → Place → Token × Cursor → Type 0
LiteralAt start s p r = Moved s p (r.1) × ((place_of (r.0) ≡ start) × (is_literal r.0.kind ≡ true))

-- What is known of the result that it meets helps to meet another predicate.
pub Fine-result-weaken {ℓ} :
    {A : Type ℓ} {P Q : A → Type 0} {r : Lexed A}
    → ((a : A) → r ≡ ok a → P a → Q a)
    → Fine P r
    → Fine Q r
Fine-result-weaken {r = ok a} g h = Fine-ok (g a refl h.fine)
Fine-result-weaken {r = err e} g h = record { fine = h.fine }
