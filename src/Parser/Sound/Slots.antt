-- ===== src/Parser/Sound/Slots.antt =====
-- The interpolation slots of internal/parser/parser.go read what the grammar says.
use jennifer.Common.{
  List, [], ◌∷◌, Option, ℕ, Bool, true, false, Result, ok, err, ◌≡◌, refl, ltb, if◌then◌else◌, ◌-◌,
}
use jennifer.Lexer.{tokenize_at, is_eof}
use jennifer.Lexer.Position.{Lexed}
use jennifer.Lexer.Tokens.{Token, StringPart, text_part, expr_part, token_string_interp}
use jennifer.Parser.Syntax.{Node, Block}
use jennifer.Parser.Kinds.{strip_trivia}
use jennifer.Parser.State.{peek, P, Parser, Fault, Parsed}
use jennifer.Parser.Slots.{
  parse_slot, parse_parts, build_interp_string, and_then, slot_end, sub_parser, with_tokens,
  text_bytes, is_blank_text,
}
use jennifer.Parser.Grammar.{Derives, Slots, no_slots, literal, one_slot, interpolated}
use jennifer.Parser.Ladder.{Next, range_level, atom_level}
use jennifer.Parser.Sound.Reading.{head_Yields, Yields, yields, failed, Holds, From, Reads}

-- A result of which `Q` holds, or an error, of a step without the parser.
data Given {A : Type 0} (Q : A → Type 0) : Result Fault A → Type 0 where
  given : {a : A} → Q a → Given Q (ok a)
  missing : {e : Fault} → Given Q (err e)

Given-then :
    {A B : Type 0} {R : A → Type 0} {Q : B → Type 0} {r : Result Fault A} (f : A → Result Fault B)
    → Given R r
    → ((a : A) → R a → Given Q (f a))
    → Given Q (and_then r f)
Given-then f (given {a} h) g = g a h
Given-then f missing g = missing

Yields-then :
    {A B : Type 0} {R : A → Type 0} {Q : B → Parser → Type 0} {r : Result Fault A}
    (f : A → Result Fault (B × Parser))
    → Given R r
    → ((a : A) → R a → Yields Q (f a))
    → Yields Q (and_then r f)
Yields-then f (given {a} h) g = g a h
Yields-then f missing g = failed

Yields-Given :
    {A : Type 0} {Q : A → Parser → Type 0} {r : Parsed A} → Yields Q r → Given (λ x. Q x.0 x.1) r
Yields-Given (yields h) = given h
Yields-Given failed = missing

Given-map :
    {A : Type 0} {R Q : A → Type 0} {r : Result Fault A}
    → Given R r
    → ((a : A) → R a → Q a)
    → Given Q r
Given-map (given {a} h) g = given (g a h)
Given-map missing g = missing

Given-if :
    {A : Type 0} {Q : A → Type 0} (b : Bool) {x y : Result Fault A}
    → (b ≡ true → Given Q x)
    → (b ≡ false → Given Q y)
    → Given Q (if b then x else y)
Given-if true g h = g refl
Given-if false g h = h refl

abbrev AtEnd : List Token → Type 0
AtEnd us = (u : Token) × (vs : List Token) × (us ≡ u ∷ vs) × (is_eof u.kind ≡ true)

slot_end-AtEnd :
    (e : Node) (us : List Token) (sub : Parser)
    → Holds us sub
    → Given (λ r. (r.0 ≡ e) × AtEnd us) (slot_end e sub)
unfolding peek
slot_end-AtEnd e us sub h =
    Given-then _ (Yields-Given (head_Yields us sub.tokens sub h h.tokens)) (λ (t, s) (q, vs, y).
      Given-if (is_eof t.kind) (λ z. given (refl, (t, vs, y, z))) (λ z. missing))

module _ (fv : List ℕ → Option ℕ) (IsBlock : List Token → List Token → Block → Type 0)
    (expr : P Node) (sound : Reads (Derives fv IsBlock range_level) expr) (s : Parser)
    (t : Token) where
  abbrev Slotted : List ℕ → ℕ → ℕ → Node → Type 0
  Slotted source line col e =
      (ts : List Token) × (us : List Token) × (tokenize_at source t.file
          (record { line = line; col = col })
        ≡ ok ts)
      × Derives fv IsBlock range_level (strip_trivia ts) us e
      × AtEnd us

  parse_slot-Slotted :
      (b : ℕ) (source : List ℕ) (line col : ℕ)
      → Given (λ r. Slotted source line col (r.0)) (parse_slot expr s t b source line col)
  unfolding parse_slot
  parse_slot-Slotted b source line col =
      Given-if (is_blank_text source) (λ z. missing)
        (λ blank.
          Given-if (ltb b (text_bytes source)) (λ z. missing)
            (λ small.
              by_tokens (tokenize_at source t.file (record { line = line; col = col })) refl))
    where
      by_tokens :
          (r : Lexed (List Token))
          → tokenize_at source t.file (record { line = line; col = col }) ≡ r
          → Given
              (λ r. Slotted source line col (r.0))
              (with_tokens r (λ ts.
                and_then
                  (expr (sub_parser s (b - text_bytes source) ts))
                  (λ (e, sub). slot_end e sub)))
      by_tokens (err e) q = missing
      by_tokens (ok ts) q =
          Given-then _
            (Yields-Given (sound (strip_trivia ts) _ (record { tokens = refl; no_seed = refl })))
            (λ (e, sub) (us, l, d).
              Given-map (slot_end-AtEnd e us sub l) (λ r (same, end). (ts, us, q, rw same d, end)))

  parse_parts-Slots :
      (b : ℕ) (parts : List StringPart)
      → Given (λ r. Slots fv IsBlock t parts (r.0)) (parse_parts expr s t b parts)
  unfolding parse_parts
  parse_parts-Slots b [] = given no_slots
  parse_parts-Slots b (text_part x ∷ r) =
      Given-then _ (parse_parts-Slots b r) (λ (ps, d) h. given (literal h))
  parse_parts-Slots b (expr_part source line col ∷ r) =
      Given-then _ (parse_slot-Slotted b source line col) (λ (e, d) (ts, us, q, k, (u, vs, y, z)).
        Given-then _ (parse_parts-Slots d r) (λ (ps, f) l. given (one_slot q k y z l)))

pub build_interp_string-Derives :
    (fv : List ℕ → Option ℕ) (IsBlock : List Token → List Token → Block → Type 0) (expr : P Node)
    → Reads (Derives fv IsBlock range_level) expr
    → {ts us : List Token} {t : Token} → Next token_string_interp ts us t
    → From us (λ e vs. Derives fv IsBlock atom_level ts vs e) (build_interp_string expr t)
unfolding build_interp_string
build_interp_string-Derives fv IsBlock expr sound {us = us} {t = t} a s h =
    Yields-then _ (parse_parts-Slots fv IsBlock expr sound s t _ t.parts) (λ (ps, b) k.
      yields (us, record { tokens = h.tokens; no_seed = h.no_seed }, interpolated a k))
