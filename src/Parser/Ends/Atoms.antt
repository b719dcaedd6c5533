-- ===== src/Parser/Ends/Atoms.antt =====
-- The primaries of internal/parser/parser.go end: every suffix consumes a token.
use jennifer.Lexer.{is_eof}
use jennifer.Common.{Option, none, some, ℕ, ℤ, suc, true, ◌≤◌, ◌≡◌, arith, refl}
use jennifer.Lexer.Tokens.{
  Token, TokenType, token_int, token_float, token_string, token_string_interp, token_true,
  token_false, token_null, token_len, token_spawn, token_task, token_varref, token_ident,
  token_int_type, token_float_type, token_string_type, token_bool_type, token_bytes_type,
  token_lparen, token_rparen, token_lbracket, token_rbracket, token_lbrace, token_dot, token_dotdot,
}
use jennifer.Parser.Syntax.{Node, Opt}
use jennifer.Parser.State.{◌>>◌, P, get_seed, take_seed, pure}
use jennifer.Parser.Atoms.{
  Readers, int_of, float_of, parse_group, parse_len, parse_task, type_name_refusal, atom_at,
  parse_primary_atom, upper_bound, slice_tail, bracketed, parse_bracket_suffix,
}
use jennifer.Parser.Ends.Bounds.{
  weight, holds, Steps, Starts, Moves, Steps-bind, Steps-pure, Steps-reject, Steps-Starts,
  Steps-suc,
}
use jennifer.Parser.Ends.Advances.{
  Steps-peek, Steps-check, Steps-expect, Starts-advance, Starts-bind, Moves-advance,
}
use jennifer.Parser.Ends.Keeps.{allowing_struct_lit-Steps, peek_next-Starts}
use jennifer.Parser.Ends.Levels.{is_eof-eq, Total}
use jennifer.Parser.Ends.Lists.{parse_list_lit-Starts, parse_map_lit-Starts}
use jennifer.Parser.Ends.Names.{parse_qualified_tail-Starts, parse_name-Total}
use jennifer.Parser.Ends.Slots.{build_interp_string-Total}

int_of-Steps : {k : ℕ} (t : Token) (o : Option ℤ) → Steps k (int_of t o)
int_of-Steps t none = Steps-reject _
int_of-Steps t (some n) = Steps-pure _

float_of-Steps : {k : ℕ} (t : Token) (o : Option ℕ) → Steps k (float_of t o)
float_of-Steps t none = Steps-reject _
float_of-Steps t (some x) = Steps-pure _

type_name_refusal-Starts :
    {k : ℕ} (r : Readers) (inner expr : P Node) (n : ℕ) (t : Token)
    → Starts k (type_name_refusal r inner expr n t)
unfolding type_name_refusal
type_name_refusal-Starts r inner expr n t = Starts-bind peek_next-Starts (λ u. Steps-reject _)

pub get_seed-Steps : {k : ℕ} → Steps k get_seed
unfolding get_seed
get_seed-Steps m s a = holds a

take_seed-Steps : {k : ℕ} → Steps k take_seed
unfolding take_seed weight
take_seed-Steps m s a = holds (record {
  ended = a.ended;
  below = a.below;
  within = a.within;
  nested = a.nested;
  flagged = a.flagged;
})

Steps-seed :
    {k : ℕ} (o : Option Node) {p : P Node}
    → Steps k p
    → Steps k (elim o [ some e ↦ take_seed >> pure e | none ↦ p ])
Steps-seed none h = h
Steps-seed (some e) h = Steps-bind take_seed-Steps (λ u. Steps-pure e)

module _ (r : Readers) (inner expr : P Node) (n : ℕ) (gi : Total n inner) (ge : Total n expr)
    (gb : Total n r.parse_block) where
  parse_group-Starts : (j : ℕ) → j ≤ n → Starts j (parse_group r inner expr n)
  unfolding parse_group
  parse_group-Starts j i = Starts-advance (λ u. Steps-suc j (λ k l.
      Steps-bind (allowing_struct_lit-Steps (ge (suc k) (omega (arith, i))))
        (λ e. Steps-expect token_rparen _ refl (λ u. Steps-pure _))))

  parse_len-Total : (t : Token) → Total n (parse_len r inner expr n t)
  unfolding parse_len
  parse_len-Total t j i = Steps-suc j (λ k l. Steps-expect token_lparen _ refl (λ u.
      Steps-suc k (λ q o.
        Steps-bind (ge (suc q) (omega (arith, i)))
          (λ e. Steps-expect token_rparen _ refl (λ u. Steps-pure _)))))

  parse_task-Total : (t : Token) → Total n (parse_task r inner expr n t)
  unfolding parse_task
  parse_task-Total t j i = Steps-suc j (λ k l.
      Steps-check _ token_dot refl (parse_qualified_tail-Starts expr n ge _ k (omega (arith, i)))
        (Steps-reject _))

  atom_at-Starts :
      (κ : TokenType) (t : Token) (j : ℕ) → j ≤ n → Starts j (atom_at r inner expr n κ t)
  unfolding atom_at
  atom_at-Starts token_int t j i = Starts-advance (λ u. int_of-Steps t _)
  atom_at-Starts token_float t j i = Starts-advance (λ u. float_of-Steps t _)
  atom_at-Starts token_string t j i = Starts-advance (λ u. Steps-pure _)
  atom_at-Starts token_string_interp t j i =
      Starts-advance (λ u. build_interp_string-Total expr n ge t j i)
  atom_at-Starts token_true t j i = Starts-advance (λ u. Steps-pure _)
  atom_at-Starts token_false t j i = Starts-advance (λ u. Steps-pure _)
  atom_at-Starts token_null t j i = Starts-advance (λ u. Steps-pure _)
  atom_at-Starts token_len t j i = Starts-advance (λ u. parse_len-Total t j i)
  atom_at-Starts token_spawn t j i =
      Starts-advance (λ u. Steps-bind (gb j i) (λ body. Steps-pure _))
  atom_at-Starts token_task t j i = Starts-advance (λ u. parse_task-Total t j i)
  atom_at-Starts token_varref t j i = Starts-advance (λ u. Steps-pure _)
  atom_at-Starts token_ident t j i = Starts-advance (λ u. parse_name-Total expr n ge t j i)
  atom_at-Starts token_int_type t j i = type_name_refusal-Starts r inner expr n t
  atom_at-Starts token_float_type t j i = type_name_refusal-Starts r inner expr n t
  atom_at-Starts token_string_type t j i = type_name_refusal-Starts r inner expr n t
  atom_at-Starts token_bool_type t j i = type_name_refusal-Starts r inner expr n t
  atom_at-Starts token_bytes_type t j i = type_name_refusal-Starts r inner expr n t
  atom_at-Starts token_lparen t j i = parse_group-Starts j i
  atom_at-Starts token_lbracket t j i = parse_list_lit-Starts expr n j i ge
  atom_at-Starts token_lbrace t j i = parse_map_lit-Starts expr n j i ge
  atom_at-Starts _ t j i = Steps-Starts (Steps-reject _)

  atom_at-eof :
      (κ : TokenType) (t : Token) (k : ℕ) → is_eof κ ≡ true → Steps k (atom_at r inner expr n κ t)
  unfolding atom_at
  atom_at-eof κ t k h = rw (is_eof-eq κ h) (Steps-reject _)

  pub parse_primary_atom-Total : Total (suc n) (parse_primary_atom r inner expr n)
  unfolding parse_primary_atom
  parse_primary_atom-Total j i = Steps-suc j (λ k l.
      let b : k ≤ n = omega (arith, i) in
      Steps-bind get_seed-Steps (λ seed.
        Steps-seed seed (
          Steps-peek (λ t e. atom_at-Starts t.kind t k b) (λ t e. atom_at-eof t.kind t (suc k) e))))

  -- What is between brackets, at a bound of nothing included.
  upper_bound-Total : Total n (upper_bound r inner expr n)
  unfolding upper_bound
  upper_bound-Total j i = Steps-suc j (λ k l.
      Steps-check _ token_rbracket refl (Steps-Starts (Steps-pure _))
        (Steps-bind (gi (suc k) (omega (arith, i))) (λ hi. Steps-pure _)))

  slice_tail-Starts :
      (bra : Token) (target : Node) (lo : Opt) (j : ℕ)
      → j ≤ n
      → Starts j (slice_tail r inner expr n bra target lo)
  unfolding slice_tail
  slice_tail-Starts bra target lo j i = Starts-advance (λ u. Steps-suc j (λ k l.
      Steps-bind (upper_bound-Total (suc k) (omega (arith, i)))
        (λ hi. Steps-expect token_rbracket _ refl (λ u. Steps-pure _))))

  bracketed-Total : (bra : Token) (target : Node) → Total n (bracketed r inner expr n bra target)
  unfolding bracketed
  bracketed-Total bra target j i = Steps-suc j (λ k l.
      let b : k ≤ n = omega (arith, i) in
      Steps-check _ token_dotdot refl (slice_tail-Starts bra target _ k b) (
        Steps-bind (gi (suc k) (omega (arith, i))) (λ lo.
          Steps-check _ token_dotdot refl (slice_tail-Starts bra target _ k b)
            (Steps-expect token_rbracket _ refl (λ u. Steps-pure _)))))

  pub parse_bracket_suffix-Moves :
      (target : Node) (j : ℕ) → j ≤ n → Moves j (parse_bracket_suffix r inner expr n target)
  unfolding parse_bracket_suffix
  parse_bracket_suffix-Moves target j i =
      Moves-advance (λ bra. allowing_struct_lit-Steps (bracketed-Total bra target j i))
