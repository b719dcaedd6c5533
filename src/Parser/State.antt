-- ===== src/Parser/State.antt =====
-- The parser of internal/parser/parser.go: its state, its errors, and the moves over the tokens.
use jennifer.Common.{
  List, [], ◌∷◌, Option, none, some, ℕ, Bool, false, Result, ok, err, if◌then◌else◌, leb, ◌+◌, ◌-◌,
  String,
}
use jennifer.Ast.{Pos}
use jennifer.Lexer.Tokens.{Token, TokenType}
use jennifer.Lexer.Position.{LexError, max_nesting_depth}
use jennifer.Lexer.{is_eof}
use jennifer.Parser.Syntax.{Node}
use jennifer.Parser.Kinds.{same_kind, is_post_dot_name}

-- The unread tokens, `tokens[pos:]`, with the counters of nesting. `sublex_budget` is nil on the root
-- parser; the sub-parsers of interpolation slots share one.
pub record Parser : Type 0 where
  pub tokens : List Token
  pub seed : Option Node
  pub expr_depth : ℕ
  pub stmt_depth : ℕ
  pub type_depth : ℕ
  pub sublex_budget : Option ℕ
  pub no_struct_lit : Bool

-- The messages, with the token that they show; a text is what stands for the context.
pub data ParseMsg : Type 0 where
  expected : TokenType → String → Token → ParseMsg
  expected_name : String → Token → ParseMsg
  nesting_exceeds : ParseMsg
  range_chained : ParseMsg
  append_read : ParseMsg
  underscore_in_function : Token → ParseMsg
  field_twice : Token → ParseMsg
  bad_int bad_float : Token → ParseMsg
  empty_slot slot_budget : ParseMsg
  slot_goes_on : Token → ParseMsg
  task_alone : ParseMsg
  type_in_expression : Token → Bool → ParseMsg
  unexpected : Token → ParseMsg

pub record ParseError : Type 0 where
  pub msg : ParseMsg
  pub at : Pos

-- Syntax errors, those of the lexer in an interpolation slot, and a read past the last token, which
-- is a panic of the program. `out_of_fuel` is none of the program's.
pub data Fault : Type 0 where
  syntax : ParseError → Fault
  lexical : LexError → Fault
  index_out_of_range : Fault
  out_of_fuel : Fault

abbrev pub Parsed {ℓ} : Type ℓ → Type ℓ
Parsed A = Result Fault (A × Parser)

-- A step gives a result and the parser after it; an error ends the parse.
abbrev pub P {ℓ} : Type ℓ → Type ℓ
P A = Parser → Parsed A

abbrev pub resume {ℓ κ} : {A : Type ℓ} {B : Type κ} → Parsed A → (A → P B) → Parsed B
resume (ok (a, s)) f = f a s
resume (err e) f = err e

infixl 5 ◌>>=◌ ◌>>◌
unfoldable pub ◌>>=◌ {ℓ κ} : {A : Type ℓ} {B : Type κ} → P A → (A → P B) → P B
◌>>=◌ m f s = resume (m s) f

abbrev pub ◌>>◌ {ℓ κ} : {A : Type ℓ} {B : Type κ} → P A → P B → P B
m >> k = m >>= λ _. k

unfoldable pub pure {ℓ} : {A : Type ℓ} → A → P A
pure a s = ok (a, s)

unfoldable pub raise {ℓ} : {A : Type ℓ} → Fault → P A
raise e s = err e

abbrev pub pos_at : Token → Pos
pos_at t = record { file = t.file; line = t.line; col = t.col }

abbrev pub reject {ℓ} : {A : Type ℓ} → ParseMsg → Pos → P A
reject m p = raise (syntax (record { msg = m; at = p }))

abbrev pub reject_at {ℓ} : {A : Type ℓ} → ParseMsg → Token → P A
reject_at m t = reject m (pos_at t)

abbrev pub head_token : Parser → List Token → Parsed Token
head_token s [] = err index_out_of_range
head_token s (t ∷ ts) = ok (t, s)

unfoldable pub peek : P Token
peek s = head_token s s.tokens

abbrev pub second_token : Parser → List Token → Parsed Token
second_token s (t ∷ u ∷ ts) = ok (u, s)
second_token s _ = err index_out_of_range

-- `peekN(1)`.
unfoldable pub peek_next : P Token
peek_next s = second_token s s.tokens

abbrev pub next_token : Parser → List Token → Parsed Token
next_token s [] = err index_out_of_range
next_token s (t ∷ ts) = ok (t, (if is_eof t.kind then s else record s { tokens = ts }))

unfoldable pub advance : P Token
advance s = next_token s s.tokens

unfoldable pub check : TokenType → P Bool
unfolding peek
check tt = do t ← peek; pure (same_kind t.kind tt)

unfoldable pub match : TokenType → P (Option Token)
unfolding peek advance
match tt = do t ← peek; if same_kind t.kind tt then (do u ← advance; pure (some u)) else pure none

unfoldable pub expect : TokenType → String → P Token
unfolding peek advance
expect tt ctx = do
  t ← peek
  if same_kind t.kind tt then advance else reject_at (expected tt ctx t) t

unfoldable pub expect_field_name : String → P Token
unfolding peek advance
expect_field_name ctx = do
  t ← peek
  if is_post_dot_name t then (do u ← advance; pure t) else reject_at (expected_name ctx t) t

unfoldable pub get_depth : P ℕ
get_depth s = ok (s.expr_depth, s)

unfoldable pub set_depth : ℕ → P (Unit {0})
set_depth n s = ok (tt, record s { expr_depth = n })

-- `p.exprDepth--`.
unfoldable pub undeepen : P (Unit {0})
undeepen s = ok (tt, record s { expr_depth = s.expr_depth - 1 })

unfoldable pub deepen : P (Unit {0})
deepen s = ok (tt, record s { expr_depth = s.expr_depth + 1 })

-- `deepenExpr`, and the guard of `parseExpr`.
unfoldable pub deepen_expr : P (Unit {0})
unfolding peek get_depth deepen
deepen_expr = do
  n ← get_depth
  if leb max_nesting_depth n then (do t ← peek; reject_at nesting_exceeds t) else deepen

unfoldable pub get_seed : P (Option Node)
get_seed s = ok (s.seed, s)

unfoldable pub take_seed : P (Unit {0})
take_seed s = ok (tt, record s { seed = none })

unfoldable pub get_no_struct_lit : P Bool
get_no_struct_lit s = ok (s.no_struct_lit, s)

unfoldable pub set_no_struct_lit : Bool → P (Unit {0})
set_no_struct_lit b s = ok (tt, record s { no_struct_lit = b })

-- `allowStructLit` for the rest of a function: `{` may start a struct literal, and what held before
-- is restored on its return.
unfoldable pub allowing_struct_lit {ℓ} : {A : Type ℓ} → P A → P A
unfolding get_no_struct_lit set_no_struct_lit
allowing_struct_lit m = do
  saved ← get_no_struct_lit
  set_no_struct_lit false
  a ← m
  set_no_struct_lit saved
  pure a
