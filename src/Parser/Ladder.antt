-- ===== src/Parser/Ladder.antt =====
-- The ladder of precedence of internal/parser/parser.go, and the shapes of single tokens in its grammar.
use jennifer.Common.{if◌then◌else◌, ◌||◌, List, [], ◌∷◌, Option, none, true, ◌≡◌}
use jennifer.Ast.{BinaryOp}
use jennifer.Lexer.Tokens.{Token, TokenType, token_ident, token_dot}
use jennifer.Lexer.{is_eof}
use jennifer.Parser.Kinds.{same_kind, is_post_dot_name}
use jennifer.Parser.Operators.{
  or_op, and_op, comparison_op, bit_or_op, bit_xor_op, bit_and_op, shift_op, add_op, mul_op,
}

-- The levels, the loosest first; `prefix_level` has the minus sign and `~`.
pub data Level : Type 0 where
  range_level or_level and_level not_level comparison_level : Level
  bit_or_level bit_xor_level bit_and_level shift_level add_level mul_level : Level
  prefix_level postfix_level atom_level : Level

abbrev pub tighter : Level → Level
tighter range_level = or_level
tighter or_level = and_level
tighter and_level = not_level
tighter not_level = comparison_level
tighter comparison_level = bit_or_level
tighter bit_or_level = bit_xor_level
tighter bit_xor_level = bit_and_level
tighter bit_and_level = shift_level
tighter shift_level = add_level
tighter add_level = mul_level
tighter mul_level = prefix_level
tighter prefix_level = postfix_level
tighter postfix_level = atom_level
tighter atom_level = atom_level

-- The binary operators of a level.
abbrev pub level_op : Level → TokenType → Option BinaryOp
level_op or_level t = or_op t
level_op and_level t = and_op t
level_op comparison_level t = comparison_op t
level_op bit_or_level t = bit_or_op t
level_op bit_xor_level t = bit_xor_op t
level_op bit_and_level t = bit_and_op t
level_op shift_level t = shift_op t
level_op add_level t = add_op t
level_op mul_level t = mul_op t
level_op _ t = none

-- The next token is `t`, of the kind, and `us` is behind it.
pub record Next (κ : TokenType) (ts us : List Token) (t : Token) : Type 0 where
  pub tokens : ts ≡ t ∷ us
  pub kind : same_kind t.kind κ ≡ true

-- What is behind the next token; the end-of-file token is not left behind.
abbrev pub after_token : List Token → List Token
after_token [] = []
after_token (t ∷ ts) = if is_eof t.kind then t ∷ ts else ts

-- The next token is shaped like a name.
pub record NameAt (ts us : List Token) (t : Token) : Type 0 where
  pub rest : List Token
  pub tokens : ts ≡ t ∷ rest
  pub shape : is_post_dot_name t || same_kind t.kind token_ident ≡ true
  pub behind : us ≡ after_token ts

-- A dot and a name.
pub record DotName (ts us : List Token) (t : Token) : Type 0 where
  pub dot : Token
  pub middle : List Token
  pub at_dot : Next token_dot ts middle dot
  pub name : NameAt middle us t
