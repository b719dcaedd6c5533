-- ===== src/Parser/Sound/Atoms.antt =====
-- The primaries of internal/parser/parser.go read what the grammar says.
use jennifer.Common.{arith, List, Option, none, some, ℕ, ℤ, true, ◌≡◌, refl}
use jennifer.Lexer.Tokens.{
  Token, TokenType, token_int, token_float, token_string, token_string_interp, token_true,
  token_false, token_null, token_len, token_spawn, token_task, token_varref, token_ident,
  token_int_type, token_float_type, token_string_type, token_bool_type, token_bytes_type,
  token_lparen, token_rparen, token_lbracket, token_rbracket, token_lbrace, token_dot, token_dotdot,
}
use jennifer.Parser.Syntax.{Node, Opt, Block, block}
use jennifer.Parser.Kinds.{same_kind}
use jennifer.Parser.Numbers.{parse_int}
use jennifer.Parser.State.{P}
use jennifer.Parser.Atoms.{
  Readers, int_of, float_of, stmts_of, parse_group, parse_len, parse_task, type_name_refusal,
  atom_at, parse_primary_atom, upper_bound, slice_tail, bracketed, parse_bracket_suffix, suffix_at,
  suffixes, parse_primary,
}
use jennifer.Parser.Grammar.{
  Derives, Bound, unbounded, bounded, indexed, sliced, selected, called, int, float, string,
  interpolated, truth, falsity, null, variable, len_of, spawned, grouped, tight,
}
use jennifer.Parser.Ladder.{Next, range_level, or_level, postfix_level, atom_level}
use jennifer.Parser.Sound.Reading.{
  From, Reads, From-pure, From-raise, From-peek, From-bind, From-check, From-Next, From-expect,
  From-allowing, From-weaken, From-Quiet, From-seed, Next-of,
}
use jennifer.Parser.Sound.QuietSteps.{peek_next-Quiet}
use jennifer.Parser.Sound.Lists.{parse_list_lit-Derives, parse_map_lit-Derives}
use jennifer.Parser.Sound.Names.{parse_qualified_tail-Qualified, parse_name-Derives}
use jennifer.Parser.Sound.Slots.{build_interp_string-Derives}

pub same_kind_refl : (κ : TokenType) → same_kind κ κ ≡ true
unfolding same_kind
same_kind_refl κ = ground arith

module _ (IsBlock : List Token → List Token → Block → Type 0) (r : Readers) (inner expr : P Node)
    (n : ℕ) (sound_or : Reads (Derives r.parse_float IsBlock or_level) inner)
    (sound : Reads (Derives r.parse_float IsBlock range_level) expr)
    (blocks : Reads IsBlock r.parse_block) where
  int_of-Derives :
      {ts us : List Token} {t : Token} (o : Option ℤ)
      → Next token_int ts us t
      → parse_int t.lexeme ≡ o
      → From us (λ e vs. Derives r.parse_float IsBlock atom_level ts vs e) (int_of t o)
  int_of-Derives none a e = From-raise _
  int_of-Derives (some i) a e = From-pure _ (int a e)

  float_of-Derives :
      {ts us : List Token} {t : Token} (o : Option ℕ)
      → Next token_float ts us t
      → r.parse_float t.lexeme ≡ o
      → From us (λ e vs. Derives r.parse_float IsBlock atom_level ts vs e) (float_of t o)
  float_of-Derives none a e = From-raise _
  float_of-Derives (some i) a e = From-pure _ (float a e)

  spawned_block :
      {ts us vs : List Token} {t : Token} (b : Block)
      → Next token_spawn ts us t
      → IsBlock us vs b
      → Derives r.parse_float IsBlock atom_level ts vs
          (jennifer.Parser.Syntax.spawn (jennifer.Parser.State.pos_at t) (stmts_of b))
  spawned_block (block p ss) a h = spawned a h

  parse_group-Derives :
      {ts us : List Token} {t : Token}
      → Next token_lparen ts us t
      → From ts
          (λ e vs. Derives r.parse_float IsBlock atom_level ts vs e)
          (parse_group r inner expr n)
  unfolding parse_group
  parse_group-Derives {us = us} a = From-Next _ refl a (
      From-bind _ (From-allowing (sound us))
        (λ e vs d. From-expect _ token_rparen _ refl (λ c ws f. From-pure _ (grouped a d f))))

  parse_len-Derives :
      {ts us : List Token} {t : Token}
      → Next token_len ts us t
      → From us
          (λ e vs. Derives r.parse_float IsBlock atom_level ts vs e)
          (parse_len r inner expr n t)
  unfolding parse_len
  parse_len-Derives a = From-expect _ token_lparen _ refl (λ l vs b.
      From-bind _ (sound vs)
        (λ e ws d. From-expect _ token_rparen _ refl (λ c xs f. From-pure _ (len_of a b d f))))

  parse_task-Derives :
      {ts us : List Token} {t : Token}
      → Next token_task ts us t
      → From us
          (λ e vs. Derives r.parse_float IsBlock atom_level ts vs e)
          (parse_task r inner expr n t)
  unfolding parse_task
  parse_task-Derives {t = t} a =
      From-check _ token_dot
        (λ d vs b.
          From-weaken
            (parse_qualified_tail-Qualified r.parse_float IsBlock expr sound n
              (jennifer.Parser.Atoms.task_name t) b)
            (λ e ws q. jennifer.Parser.Grammar.task_name a q))
        (From-raise _)

  type_name_refusal-From :
      {ts : List Token} {Q : Node → List Token → Type 0} (t : Token)
      → From ts Q (type_name_refusal r inner expr n t)
  unfolding type_name_refusal
  type_name_refusal-From t = From-Quiet _ peek_next-Quiet (λ u. From-raise _)

  atom_at-Derives :
      (κ : TokenType) (t : Token) {ts us : List Token}
      → Next κ ts us t
      → From ts
          (λ e vs. Derives r.parse_float IsBlock atom_level ts vs e)
          (atom_at r inner expr n κ t)
  unfolding atom_at
  atom_at-Derives token_int t a = From-Next _ refl a (int_of-Derives _ a refl)
  atom_at-Derives token_float t a = From-Next _ refl a (float_of-Derives _ a refl)
  atom_at-Derives token_string t a = From-Next _ refl a (From-pure _ (string a))
  atom_at-Derives token_string_interp t a =
      From-Next _ refl a (build_interp_string-Derives r.parse_float IsBlock expr sound a)
  atom_at-Derives token_true t a = From-Next _ refl a (From-pure _ (truth a))
  atom_at-Derives token_false t a = From-Next _ refl a (From-pure _ (falsity a))
  atom_at-Derives token_null t a = From-Next _ refl a (From-pure _ (null a))
  atom_at-Derives token_len t a = From-Next _ refl a (parse_len-Derives a)
  atom_at-Derives token_spawn t {us = us} a =
      From-Next _ refl a (From-bind _ (blocks us) (λ b vs h. From-pure _ (spawned_block b a h)))
  atom_at-Derives token_task t a = From-Next _ refl a (parse_task-Derives a)
  atom_at-Derives token_varref t a = From-Next _ refl a (From-pure _ (variable a))
  atom_at-Derives token_ident t a =
      From-Next _ refl a (parse_name-Derives r.parse_float IsBlock expr sound n a)
  atom_at-Derives token_int_type t a = type_name_refusal-From t
  atom_at-Derives token_float_type t a = type_name_refusal-From t
  atom_at-Derives token_string_type t a = type_name_refusal-From t
  atom_at-Derives token_bool_type t a = type_name_refusal-From t
  atom_at-Derives token_bytes_type t a = type_name_refusal-From t
  atom_at-Derives token_lparen t a = parse_group-Derives a
  atom_at-Derives token_lbracket t a = parse_list_lit-Derives r.parse_float IsBlock expr sound n a
  atom_at-Derives token_lbrace t a = parse_map_lit-Derives r.parse_float IsBlock expr sound n a
  atom_at-Derives _ t a = From-raise _

  pub parse_primary_atom-Derives :
      Reads (Derives r.parse_float IsBlock atom_level) (parse_primary_atom r inner expr n)
  unfolding parse_primary_atom
  parse_primary_atom-Derives ts =
      From-seed _
        (From-peek (λ t us q. atom_at-Derives t.kind t (Next-of q (same_kind_refl t.kind))))

  upper_bound-Bound : Reads (Bound r.parse_float IsBlock) (upper_bound r inner expr n)
  unfolding upper_bound
  upper_bound-Bound ts =
      From-check _ token_rbracket (λ t us a. From-pure _ (unbounded refl))
        (From-bind _ (sound_or ts) (λ e us d. From-pure _ (bounded d)))

  slice_tail-Derives :
      {ts us vs ws xs : List Token} {b d : Token} {e : Node} {lo : Opt}
      → Derives r.parse_float IsBlock postfix_level ts us e
      → Next token_lbracket us vs b
      → Bound r.parse_float IsBlock vs ws lo
      → Next token_dotdot ws xs d
      → From ws
          (λ f ys. Derives r.parse_float IsBlock postfix_level ts ys f)
          (slice_tail r inner expr n b e lo)
  unfolding slice_tail
  slice_tail-Derives {xs = xs} d b lo a = From-Next _ refl a (
      From-bind _ (upper_bound-Bound xs) (λ hi ys h.
        From-expect _ token_rbracket _ refl (λ c zs g. From-pure _ (sliced d b lo a h g))))

  pub parse_bracket_suffix-Derives :
      {ts us vs : List Token} {b : Token} {e : Node}
      → Derives r.parse_float IsBlock postfix_level ts us e
      → Next token_lbracket us vs b
      → From us
          (λ f ys. Derives r.parse_float IsBlock postfix_level ts ys f)
          (parse_bracket_suffix r inner expr n e)
  unfolding parse_bracket_suffix bracketed
  parse_bracket_suffix-Derives {vs = vs} d b = From-Next _ refl b (
      From-allowing (
        From-check _ token_dotdot (λ t ws a. slice_tail-Derives d b (unbounded refl) a)
          (From-bind _ (sound_or vs) (λ lo ws f.
            From-check _ token_dotdot (λ t xs a. slice_tail-Derives d b (bounded f) a)
              (From-expect _ token_rbracket _ refl (λ c xs g. From-pure _ (indexed d b f g)))))))
