-- ===== src/Parser/Ends/Slots.antt =====
-- The interpolation slots of internal/parser/parser.go end: a slot has no more tokens than bytes and
-- one, and the budget has paid for the bytes.
use jennifer.Common.{
  Result, List, [], ◌∷◌, Option, none, some, ℕ, Bool, true, false, ok, err, ◌-◌, ◌≤◌, ◌≡◌, arith,
  refl, ltb, if◌then◌else◌,
}
use jennifer.Lexer.{tokenize_at, is_eof}
use jennifer.Lexer.Position.{LexError, Place, Lexed}
use jennifer.Lexer.Tokens.{Token, StringPart, text_part, expr_part}
use jennifer.Parser.Syntax.{Node}
use jennifer.Parser.State.{lexical, syntax, ParseError, P, Parser, Fault}
use jennifer.Parser.Slots.{
  shared, with_tokens, budget_or, text_bytes, is_blank_text, sub_parser, parse_slot, parse_parts,
  build_interp_string, and_then, slot_end, max_source_bytes,
}
use jennifer.Parser.Ends.Bounds.{
  length-Ended, At, Mode, Ensures, holds, rejected, refused, weight, budget_left,
}
use jennifer.Parser.Ends.Advances.{peek-Ended}
use jennifer.Parser.Ends.Levels.{Total}
use jennifer.Parser.Ends.SlotTokens.{sub_tokens, length-text_bytes, text_bytes-pos}

-- The outcome of a step that has its parser in it: a result of which `Q` holds, or an error of the
-- language.
data Gives {A : Type 0} (Q : A → Type 0) : Result Fault A → Type 0 where
  gives : {a : A} → Q a → Gives Q (ok a)
  rejects : {e : ParseError} → Gives Q (err (syntax e))
  refuses : {e : LexError} → Gives Q (err (lexical e))

Gives-then :
    {A B : Type 0} {R : A → Type 0} {Q : B → Type 0} {r : Result Fault A} (f : A → Result Fault B)
    → Gives R r
    → ((a : A) → R a → Gives Q (f a))
    → Gives Q (and_then r f)
Gives-then f (gives {a} h) g = g a h
Gives-then f rejects g = rejects
Gives-then f refuses g = refuses

Gives-Ensures :
    {A : Type 0} {Q : A → Parser → Type 0} {r : Result Fault (A × Parser)}
    → Ensures Q r
    → Gives (λ x. Q x.0 x.1) r
Gives-Ensures (holds h) = gives h
Gives-Ensures rejected = rejects
Gives-Ensures refused = refuses

Gives-if :
    {A : Type 0} {Q : A → Type 0} (b : Bool) {x y : Result Fault A}
    → (b ≡ true → Gives Q x)
    → (b ≡ false → Gives Q y)
    → Gives Q (if b then x else y)
Gives-if true g h = g refl
Gives-if false g h = h refl

budget_or-le : (o : Option ℕ) → budget_or 0 o ≤ budget_left o
budget_or-le none = omega arith
budget_or-le (some b) = omega arith

Gives-le :
    {A : Type 0} {b c : ℕ} {r : Result Fault (A × ℕ)}
    → b ≤ c
    → Gives (λ x. x.1 ≤ b) r
    → Gives (λ x. x.1 ≤ c) r
Gives-le i (gives h) = gives (omega (arith, h, i))
Gives-le i rejects = rejects
Gives-le i refuses = refuses

slot_end-Gives :
    {k : ℕ} {m : Mode} (e : Node) (sub : Parser)
    → At k m sub
    → Gives (λ r. r.1 ≤ m.budget) (slot_end e sub)
slot_end-Gives e sub a = Gives-then _ (Gives-Ensures (peek-Ended sub a.ended)) (λ (t, u) h.
    Gives-if (is_eof t.kind) (λ z. gives (omega (arith, a.within, budget_or-le sub.sublex_budget)))
      (λ z. rejects))

sub_parser-At :
    {k : ℕ} {m : Mode} (s : Parser) (b : ℕ) (source file : List ℕ) (p : Place) (ts : List Token)
    → At k m s
    → b ≤ budget_left s.sublex_budget
    → is_blank_text source ≡ false
    → ltb b (text_bytes source) ≡ false
    → tokenize_at source file p ≡ ok ts
    → At k
        (record { budget = b - text_bytes source; depth = s.expr_depth; no_struct_lit = false })
        (sub_parser s (b - text_bytes source) ts)
unfolding weight
sub_parser-At s b source file p ts a i blank small e =
    let (ended, few) = sub_tokens source file p ts e in
    let c : text_bytes source ≤ b = ground arith in
    record {
      ended = ended;
      below = omega (
        arith,
        a.below,
        few,
        length-text_bytes source,
        text_bytes-pos source blank,
        c,
        length-Ended s.tokens a.ended,
      );
      within = omega arith;
      nested = refl;
      flagged = refl;
    }

module _ (expr : P Node) (n k : ℕ) (i : k ≤ n) (g : Total n expr) (s : Parser) (t : Token)
    {m : Mode} (a : At k m s) where
  parse_slot-Gives :
      (b : ℕ)
      → b ≤ budget_left s.sublex_budget
      → (source : List ℕ) (line col : ℕ)
      → Gives (λ r. r.1 ≤ b) (parse_slot expr s t b source line col)
  unfolding parse_slot
  parse_slot-Gives b c source line col =
      Gives-if (is_blank_text source) (λ z. rejects)
        (λ blank.
          Gives-if (ltb b (text_bytes source)) (λ z. rejects)
            (λ small.
              by_tokens blank small (tokenize_at source t.file (record { line = line; col = col }))
                refl))
    where
      by_tokens :
          is_blank_text source ≡ false
          → ltb b (text_bytes source) ≡ false
          → (r : Lexed (List Token))
          → tokenize_at source t.file (record { line = line; col = col }) ≡ r
          → Gives
              (λ r. r.1 ≤ b)
              (with_tokens r (λ ts.
                and_then
                  (expr (sub_parser s (b - text_bytes source) ts))
                  (λ (e, sub). slot_end e sub)))
      by_tokens blank small (err e) q = refuses
      by_tokens blank small (ok ts) q =
          Gives-then _
            (Gives-Ensures (g k i _ _ (sub_parser-At s b source t.file _ ts a c blank small q)))
            (λ (e, sub) h. Gives-le (omega arith) (slot_end-Gives e sub h))

  parse_parts-Gives :
      (b : ℕ) (parts : List StringPart)
      → b ≤ budget_left s.sublex_budget
      → Gives (λ r. r.1 ≤ b) (parse_parts expr s t b parts)
  unfolding parse_parts
  parse_parts-Gives b [] c = gives (omega arith)
  parse_parts-Gives b (text_part x ∷ r) c =
      Gives-then _ (parse_parts-Gives b r c) (λ (ps, d) h. gives h)
  parse_parts-Gives b (expr_part source line col ∷ r) c =
      Gives-then _ (parse_slot-Gives b c source line col) (λ (e, d) h.
        Gives-then _ (parse_parts-Gives d r (omega (arith, h, c)))
          (λ (ps, f) l. gives (omega (arith, h, l))))

with_budget :
    {k : ℕ} {m : Mode} (s : Parser) (b : ℕ) (o : Option ℕ)
    → s.sublex_budget ≡ o
    → b ≤ budget_left o
    → At k m s
    → At k m (record s { sublex_budget = shared o b })
unfolding weight
with_budget s b none e i a = record {
  ended = a.ended;
  below = rw e at (a.below);
  within = rw e at (a.within);
  nested = a.nested;
  flagged = a.flagged;
}
with_budget s b (some c) e i a = record {
  ended = a.ended;
  below = omega (arith, i, rw e at (a.below));
  within = omega (arith, i, rw e at (a.within));
  nested = a.nested;
  flagged = a.flagged;
}

budget_or-left : (o : Option ℕ) → budget_or max_source_bytes o ≡ budget_left o
budget_or-left none = refl
budget_or-left (some b) = refl

Ensures-then :
    {A B : Type 0} {R : A → Type 0} {Q : B → Parser → Type 0} {r : Result Fault A}
    (f : A → Result Fault (B × Parser))
    → Gives R r
    → ((a : A) → R a → Ensures Q (f a))
    → Ensures Q (and_then r f)
Ensures-then f (gives {a} h) g = g a h
Ensures-then f rejects g = rejected
Ensures-then f refuses g = refused

pub build_interp_string-Total :
    (expr : P Node) (n : ℕ) → Total n expr → (t : Token) → Total n (build_interp_string expr t)
unfolding build_interp_string
build_interp_string-Total expr n g t k i m s a =
    Ensures-then _
      (parse_parts-Gives expr n k i g s t a _ t.parts
        (omega (arith, budget_or-left s.sublex_budget)))
      (λ (ps, b) h.
        holds (
          with_budget s b s.sublex_budget refl (omega (arith, h, budget_or-left s.sublex_budget))
            a))
