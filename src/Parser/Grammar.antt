-- ===== src/Parser/Grammar.antt =====
-- The grammar of expressions that internal/parser/parser.go and its comments describe, as a relation
-- between tokens, those left over, and the tree: the ladder of precedence is a number.
use jennifer.Parser.Lists.{is_seen}
use jennifer.Common.{
  negsuc, ◌-◌, ◌^◌, ◌||◌, List, [], ◌∷◌, Option, some, ℕ, ℤ, true, false, ok, ◌≡◌, not, codes,
}
use jennifer.Ast.{Pos, BinaryOp, op_neg, op_not, op_bit_not}
use jennifer.Lexer.Tokens.{
  Token, StringPart, text_part, expr_part, token_int, token_float, token_string,
  token_string_interp, token_true, token_false, token_null, token_len, token_spawn, token_task,
  token_varref, token_ident, token_lparen, token_rparen, token_lbracket, token_rbracket,
  token_lbrace, token_rbrace, token_dotdot, token_comma, token_colon, token_minus, token_bit_not,
  token_not,
}
use jennifer.Lexer.{tokenize_at, is_eof}
use jennifer.Parser.Syntax.{
  block, Node, Nodes, Pairs, Fields, Parts, Opt, no_nodes, node, no_pairs, pair, no_fields, field,
  no_parts, text, slot, missing, given, int_lit, float_lit, string_lit, interp_string, bool_lit,
  null_lit, list_lit, map_lit, index, range, slice, struct_lit, field_access, var, const_ref, call,
  call_value, len, spawn, qualified_call, qualified_const_ref, unary, binary, node_pos, Block,
  Stmts,
}
use jennifer.Parser.Kinds.{strip_trivia, contains_underscore, is_valid_const_name}
use jennifer.Parser.Numbers.{parse_int, parse_uint}
use jennifer.Parser.State.{pos_at}
use jennifer.Parser.Ladder.{
  Level, tighter, level_op, Next, NameAt, DotName, prefix_level, range_level, or_level, not_level,
  postfix_level, atom_level,
}

module _ (float_value : List ℕ → Option ℕ)
    (IsBlock : List Token → List Token → Block → Type 0) where
  mutual
    pub data Derives : Level → List Token → List Token → Node → Type 0 where
      tight :
          {l : Level} {ts us : List Token} {e : Node}
          → Derives (tighter l) ts us e
          → Derives l ts us e
      infix_op :
          {l : Level} {ts us vs ws : List Token} {t : Token} {op : BinaryOp} {a b : Node}
          → Derives l ts us a
          → us ≡ t ∷ vs
          → level_op l t.kind ≡ some op
          → Derives (tighter l) vs ws b
          → Derives l ts ws (binary (node_pos a) op a b)
      a_range :
          {ts us vs ws : List Token} {d : Token} {lo hi : Node}
          → Derives or_level ts us lo
          → Next token_dotdot us vs d
          → Derives or_level vs ws hi
          → Derives range_level ts ws (range (node_pos lo) lo hi)
      negated :
          {ts us vs : List Token} {t : Token} {e : Node}
          → Next token_not ts us t
          → Derives not_level us vs e
          → Derives not_level ts vs (unary (pos_at t) op_not e)
      minus :
          {ts us vs : List Token} {t : Token} {e : Node}
          → Next token_minus ts us t
          → Derives prefix_level us vs e
          → Derives prefix_level ts vs (unary (pos_at t) op_neg e)
      inverted :
          {ts us vs : List Token} {t : Token} {e : Node}
          → Next token_bit_not ts us t
          → Derives prefix_level us vs e
          → Derives prefix_level ts vs (unary (pos_at t) op_bit_not e)
      least_int :
          {ts us vs : List Token} {t u : Token}
          → Next token_minus ts us t
          → Next token_int us vs u
          → parse_uint u.lexeme ≡ some (2 ^ 63)
          → Derives prefix_level ts vs (int_lit (pos_at u) (negsuc (2 ^ 63 - 1)))
      indexed :
          {ts us vs ws xs : List Token} {b c : Token} {e i : Node}
          → Derives postfix_level ts us e
          → Next token_lbracket us vs b
          → Derives or_level vs ws i
          → Next token_rbracket ws xs c
          → Derives postfix_level ts xs (index (pos_at b) e i)
      sliced :
          {ts us vs ws xs ys zs : List Token} {b c d : Token} {e : Node} {lo hi : Opt}
          → Derives postfix_level ts us e
          → Next token_lbracket us vs b
          → Bound vs ws lo
          → Next token_dotdot ws xs d
          → Bound xs ys hi
          → Next token_rbracket ys zs c
          → Derives postfix_level ts zs (slice (pos_at b) e lo hi)
      selected :
          {ts us vs : List Token} {d t : Token} {e : Node}
          → Derives postfix_level ts us e
          → (n : DotName us vs t) → n.dot ≡ d
          → Derives postfix_level ts vs (field_access (pos_at d) e t.lexeme)
      called :
          {ts us vs : List Token} {t : Token} {e : Node} {es : Nodes}
          → Derives postfix_level ts us e
          → Parens us vs t es
          → Derives postfix_level ts vs (call_value (pos_at t) e es)
      int :
          {ts us : List Token} {t : Token} {n : ℤ}
          → Next token_int ts us t
          → parse_int t.lexeme ≡ some n
          → Derives atom_level ts us (int_lit (pos_at t) n)
      float :
          {ts us : List Token} {t : Token} {n : ℕ}
          → Next token_float ts us t
          → float_value t.lexeme ≡ some n
          → Derives atom_level ts us (float_lit (pos_at t) n)
      string :
          {ts us : List Token} {t : Token}
          → Next token_string ts us t
          → Derives atom_level ts us (string_lit (pos_at t) t.lexeme)
      interpolated :
          {ts us : List Token} {t : Token} {ps : Parts}
          → Next token_string_interp ts us t
          → Slots t t.parts ps
          → Derives atom_level ts us (interp_string (pos_at t) ps)
      truth :
          {ts us : List Token} {t : Token}
          → Next token_true ts us t
          → Derives atom_level ts us (bool_lit (pos_at t) true)
      falsity :
          {ts us : List Token} {t : Token}
          → Next token_false ts us t
          → Derives atom_level ts us (bool_lit (pos_at t) false)
      null :
          {ts us : List Token} {t : Token}
          → Next token_null ts us t
          → Derives atom_level ts us (null_lit (pos_at t))
      variable :
          {ts us : List Token} {t : Token}
          → Next token_varref ts us t
          → Derives atom_level ts us (var (pos_at t) t.lexeme)
      len_of :
          {ts us vs ws xs : List Token} {t l c : Token} {e : Node}
          → Next token_len ts us t
          → Next token_lparen us vs l
          → Derives range_level vs ws e
          → Next token_rparen ws xs c
          → Derives atom_level ts xs (len (pos_at t) e)
      spawned :
          {ts us vs : List Token} {t : Token} {p : Pos} {ss : Stmts}
          → Next token_spawn ts us t
          → IsBlock us vs (block p ss)
          → Derives atom_level ts vs (spawn (pos_at t) ss)
      task_name :
          {ts us vs : List Token} {t : Token} {e : Node}
          → Next token_task ts us t
          → Qualified (pos_at t) (codes "task") us vs e
          → Derives atom_level ts vs e
      constant :
          {ts us : List Token} {t : Token}
          → Next token_ident ts us t
          → Derives atom_level ts us (const_ref (pos_at t) t.lexeme)
      method_call :
          {ts us vs : List Token} {t l : Token} {es : Nodes}
          → Next token_ident ts us t
          → contains_underscore t.lexeme ≡ false
          → Parens us vs l es
          → Derives atom_level ts vs (call (pos_at t) t.lexeme es)
      struct_of :
          {ts us vs : List Token} {t : Token} {fs : Fields}
          → Next token_ident ts us t
          → Braces us vs fs
          → Derives atom_level ts vs (struct_lit (pos_at t) [] [] t.lexeme false fs)
      qualified :
          {ts us vs : List Token} {t : Token} {e : Node}
          → Next token_ident ts us t
          → Qualified (pos_at t) t.lexeme us vs e
          → Derives atom_level ts vs e
      grouped :
          {ts us vs ws : List Token} {l c : Token} {e : Node}
          → Next token_lparen ts us l
          → Derives range_level us vs e
          → Next token_rparen vs ws c
          → Derives atom_level ts ws e
      list_of :
          {ts us vs ws : List Token} {b c : Token} {es : Nodes}
          → Next token_lbracket ts us b
          → Elements us vs es
          → Next token_rbracket vs ws c
          → Derives atom_level ts ws (list_lit (pos_at b) es)
      map_of :
          {ts us vs ws : List Token} {b c : Token} {es : Pairs}
          → Next token_lbrace ts us b
          → Entries us vs es
          → Next token_rbrace vs ws c
          → Derives atom_level ts ws (map_lit (pos_at b) es)

    -- A bound of a slice, if there is one.
    pub data Bound : List Token → List Token → Opt → Type 0 where
      unbounded : {ts us : List Token} → ts ≡ us → Bound ts us missing
      bounded : {ts us : List Token} {e : Node} → Derives or_level ts us e → Bound ts us (given e)

    -- One or more expressions between commas.
    pub data Args : List Token → List Token → Nodes → Type 0 where
      last_arg :
          {ts us : List Token} {e : Node}
          → Derives range_level ts us e
          → Args ts us (node e no_nodes)
      more_args :
          {ts us vs ws : List Token} {c : Token} {e : Node} {es : Nodes}
          → Derives range_level ts us e
          → Next token_comma us vs c
          → Args vs ws es
          → Args ts ws (node e es)

    -- Arguments in parentheses, from the token of `(` on.
    pub data Parens : List Token → List Token → Token → Nodes → Type 0 where
      no_args :
          {ts us vs : List Token} {l c : Token}
          → Next token_lparen ts us l
          → Next token_rparen us vs c
          → Parens ts vs l no_nodes
      with_args :
          {ts us vs ws : List Token} {l c : Token} {es : Nodes}
          → Next token_lparen ts us l
          → Args us vs es
          → Next token_rparen vs ws c
          → Parens ts ws l es

    -- Elements, with a comma behind the last one or without.
    pub data Elements : List Token → List Token → Nodes → Type 0 where
      no_elements : {ts us : List Token} → ts ≡ us → Elements ts us no_nodes
      last_element :
          {ts us : List Token} {e : Node}
          → Derives range_level ts us e
          → Elements ts us (node e no_nodes)
      more_elements :
          {ts us vs ws : List Token} {c : Token} {e : Node} {es : Nodes}
          → Derives range_level ts us e
          → Next token_comma us vs c
          → Elements vs ws es
          → Elements ts ws (node e es)

    pub data Entry : List Token → List Token → Node → Node → Type 0 where
      entry :
          {ts us vs ws : List Token} {c : Token} {k e : Node}
          → Derives range_level ts us k
          → Next token_colon us vs c
          → Derives range_level vs ws e
          → Entry ts ws k e

    pub data Entries : List Token → List Token → Pairs → Type 0 where
      no_entries : {ts us : List Token} → ts ≡ us → Entries ts us no_pairs
      last_entry :
          {ts us : List Token} {k e : Node} → Entry ts us k e → Entries ts us (pair k e no_pairs)
      more_entries :
          {ts us vs ws : List Token} {c : Token} {k e : Node} {es : Pairs}
          → Entry ts us k e
          → Next token_comma us vs c
          → Entries vs ws es
          → Entries ts ws (pair k e es)

    pub data FieldOf : List Token → List Token → Token → Node → Type 0 where
      field_of :
          {ts us vs ws : List Token} {c t : Token} {e : Node}
          → NameAt ts us t
          → Next token_colon us vs c
          → Derives range_level vs ws e
          → FieldOf ts ws t e

    -- The fields of a struct literal, each name once.
    pub data FieldList : List (List ℕ) → List Token → List Token → Fields → Type 0 where
      end_of_fields :
          {seen : List (List ℕ)} {ts us : List Token} → ts ≡ us → FieldList seen ts us no_fields
      last_field :
          {seen : List (List ℕ)} {ts us : List Token} {t : Token} {e : Node}
          → is_seen t.lexeme seen ≡ false
          → FieldOf ts us t e
          → FieldList seen ts us (field t.lexeme (pos_at t) e no_fields)
      more_fields :
          {seen : List (List ℕ)} {ts us vs ws : List Token} {c t : Token} {e : Node} {fs : Fields}
          → is_seen t.lexeme seen ≡ false
          → FieldOf ts us t e
          → Next token_comma us vs c
          → FieldList (t.lexeme ∷ seen) vs ws fs
          → FieldList seen ts ws (field t.lexeme (pos_at t) e fs)

    pub data Braces : List Token → List Token → Fields → Type 0 where
      braced :
          {ts us vs ws : List Token} {l c : Token} {fs : Fields}
          → Next token_lbrace ts us l
          → FieldList [] us vs fs
          → Next token_rbrace vs ws c
          → Braces ts ws fs

    -- What a prefix at a position qualifies, from the dot on.
    pub data Qualified : Pos → List ℕ → List Token → List Token → Node → Type 0 where
      qualified_function :
          {p : Pos} {prefix : List ℕ} {ts us vs : List Token} {t l : Token} {es : Nodes}
          → DotName ts us t
          → contains_underscore t.lexeme ≡ false
          → Parens us vs l es
          → Qualified p prefix ts vs (qualified_call p prefix t.lexeme es)
      qualified_struct :
          {p : Pos} {prefix : List ℕ} {ts us vs : List Token} {t : Token} {fs : Fields}
          → DotName ts us t
          → Braces us vs fs
          → Qualified p prefix ts vs (struct_lit p prefix [] t.lexeme false fs)
      qualified_constant :
          {p : Pos} {prefix : List ℕ} {ts us : List Token} {t : Token}
          → DotName ts us t
          → is_valid_const_name t.lexeme || not (is_valid_const_name prefix) ≡ true
          → Qualified p prefix ts us (qualified_const_ref p prefix t.lexeme)
      constant_field :
          {p : Pos} {prefix : List ℕ} {ts us : List Token} {t : Token}
          → DotName ts us t
          → is_valid_const_name t.lexeme ≡ false
          → is_valid_const_name prefix ≡ true
          → Qualified p prefix ts us (field_access p (const_ref p prefix) t.lexeme)
      variant :
          {p : Pos} {prefix : List ℕ} {ts us vs ws : List Token} {t v : Token} {fs : Fields}
          → is_valid_const_name prefix ≡ false
          → is_valid_const_name t.lexeme ≡ false
          → DotName ts us t
          → DotName us vs v
          → Braces vs ws fs
          → Qualified p prefix ts ws (struct_lit p prefix t.lexeme v.lexeme false fs)
      bare_variant :
          {p : Pos} {prefix : List ℕ} {ts us vs : List Token} {t v : Token}
          → is_valid_const_name prefix ≡ false
          → is_valid_const_name t.lexeme ≡ false
          → DotName ts us t
          → DotName us vs v
          → Qualified p prefix ts vs (struct_lit p prefix t.lexeme v.lexeme true no_fields)

    -- The parts of an interpolated string: a slot is one expression, up to the end of its tokens.
    pub data Slots : Token → List StringPart → Parts → Type 0 where
      no_slots : {t : Token} → Slots t [] no_parts
      literal :
          {t : Token} {x : List ℕ} {r : List StringPart} {ps : Parts}
          → Slots t r ps
          → Slots t (text_part x ∷ r) (text x ps)
      one_slot :
          {t u : Token} {source : List ℕ} {line col : ℕ} {r : List StringPart} {e : Node}
          {ps : Parts} {ts us vs : List Token}
          → tokenize_at source t.file (record { line = line; col = col }) ≡ ok ts
          → Derives range_level (strip_trivia ts) us e
          → us ≡ u ∷ vs
          → is_eof u.kind ≡ true
          → Slots t r ps
          → Slots t (expr_part source line col ∷ r) (slot e ps)
