-- ===== src/Parser/Slots.antt =====
-- Interpolated strings of internal/parser/parser.go: each slot is read by the lexer and by a parser
-- of its own.
use jennifer.Common.{
  List, [], ◌∷◌, Option, none, some, ℕ, Bool, true, false, Result, ok, err, if◌then◌else◌, ltb, leb,
  ◌+◌, ◌-◌, ◌^◌, ◌==◌, ◌&&◌, ◌||◌,
}
use jennifer.Ast.{Pos}
use jennifer.Lexer.Tokens.{Token, StringPart, text_part, expr_part}
use jennifer.Lexer.Position.{LexError}
use jennifer.Lexer.{tokenize_at, is_eof}
use jennifer.Parser.Syntax.{Node, Parts, no_parts, text, slot, interp_string}
use jennifer.Parser.Kinds.{strip_trivia}
use jennifer.Parser.State.{
  P, Parser, Fault, syntax, lexical, ParseMsg, pos_at, peek, empty_slot, slot_budget, slot_goes_on,
}

-- limits.MaxSourceBytes of the standard build.
unfoldable pub max_source_bytes : ℕ
max_source_bytes = 2 ^ 26

-- The bytes of a text in UTF-8, at least one for each rune.
abbrev pub rune_bytes : ℕ → ℕ
rune_bytes c = if ltb c 0x80 then 1 else if ltb c 0x800 then 2 else if ltb c 0x10000 then 3 else 4

abbrev pub text_bytes : List ℕ → ℕ
text_bytes [] = 0
text_bytes (c ∷ s) = rune_bytes c + text_bytes s

-- The white space of Unicode, which strings.TrimSpace trims.
abbrev is_space : ℕ → Bool
is_space c =
    (leb 9 c && leb c 13)
    || c == 0x20
    || c == 0x85
    || c == 0xA0
    || c == 0x1680
    || (leb 0x2000 c && leb c 0x200A)
    || c == 0x2028
    || c == 0x2029
    || c == 0x202F
    || c == 0x205F
    || c == 0x3000

unfoldable pub is_blank_text : List ℕ → Bool
is_blank_text [] = true
is_blank_text (c ∷ s) = is_space c && is_blank_text s

abbrev pub refuse {ℓ} : {A : Type ℓ} → ParseMsg → Pos → Result Fault A
refuse m p = err (syntax (record { msg = m; at = p }))

abbrev pub budget_or : ℕ → Option ℕ → ℕ
budget_or n none = n
budget_or n (some b) = b

-- The parser of a slot: the depth goes on, everything else begins anew.
abbrev pub sub_parser : Parser → ℕ → List Token → Parser
sub_parser s budget tokens = record {
  tokens = strip_trivia tokens;
  seed = none;
  expr_depth = s.expr_depth;
  stmt_depth = 0;
  type_depth = 0;
  sublex_budget = some budget;
  no_struct_lit = false;
}

abbrev pub with_tokens :
    {A : Type 0} → Result LexError (List Token) → (List Token → Result Fault A) → Result Fault A
with_tokens (ok ts) f = f ts
with_tokens (err e) f = err (lexical e)

abbrev pub and_then : {A B : Type 0} → Result Fault A → (A → Result Fault B) → Result Fault B
and_then (ok a) f = f a
and_then (err e) f = err e

-- A slot is one expression; the rest of the budget goes on with it.
abbrev pub slot_end : Node → Parser → Result Fault (Node × ℕ)
slot_end e sub = and_then (peek sub) (λ (next, _).
    if is_eof next.kind
    then ok (e, budget_or 0 sub.sublex_budget)
    else refuse (slot_goes_on next) (pos_at next))

module _ (expr : P Node) (s : Parser) (t : Token) where
  unfoldable pub parse_slot : ℕ → List ℕ → ℕ → ℕ → Result Fault (Node × ℕ)
  unfolding is_blank_text
  parse_slot budget source line col =
      let at : Pos = record { file = t.file; line = line; col = col } in
      if is_blank_text source
      then refuse empty_slot at
      else if ltb budget (text_bytes source)
      then refuse slot_budget at
      else with_tokens (tokenize_at source t.file (record { line = line; col = col })) (λ ts.
        and_then (expr (sub_parser s (budget - text_bytes source) ts)) (λ (e, sub). slot_end e sub))

  unfoldable pub parse_parts : ℕ → List StringPart → Result Fault (Parts × ℕ)
  unfolding parse_slot
  parse_parts budget [] = ok (no_parts, budget)
  parse_parts budget (text_part x ∷ r) =
      and_then (parse_parts budget r) (λ (ps, b). ok (text x ps, b))
  parse_parts budget (expr_part source line col ∷ r) =
      and_then (parse_slot budget source line col)
        (λ (e, b). and_then (parse_parts b r) (λ (ps, c). ok (slot e ps, c)))

-- A shared budget is left as the slots leave it, and the root parser has none.
abbrev pub shared : Option ℕ → ℕ → Option ℕ
shared none b = none
shared (some _) b = some b

unfoldable pub build_interp_string : P Node → Token → P Node
unfolding parse_parts max_source_bytes
build_interp_string expr t s =
    and_then (parse_parts expr s t (budget_or max_source_bytes s.sublex_budget) t.parts) (λ (ps, b).
      ok (interp_string (pos_at t) ps, record s { sublex_budget = shared s.sublex_budget b }))
