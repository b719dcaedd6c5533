-- ===== src/Parser/Ends/Keeps.antt =====
-- Steps of internal/parser/parser.go that consume no token for sure, and those around which the depth
-- or the flag for struct literals changes.
use jennifer.Common.{
  String, List, [], ◌∷◌, ℕ, suc, Bool, true, false, ◌+◌, ◌≡◌, arith, refl, leb, ap, inl, inr,
  Bool-cases,
}
use jennifer.Lexer.Tokens.{Token}
use jennifer.Lexer.{is_eof}
use jennifer.Lexer.Position.{max_nesting_depth}
use jennifer.Parser.Kinds.{is_post_dot_name}
use jennifer.Parser.State.{
  Parser, P, ◌>>=◌, pure, raise, peek_next, second_token, advance, next_token, expect_field_name,
  deepen_expr, get_depth, deepen, undeepen, allowing_struct_lit, get_no_struct_lit,
  set_no_struct_lit,
}
use jennifer.Parser.Ends.Bounds.{
  Ended, At, More, Mode, Ensures, holds, rejected, weight, Steps, Starts, Steps-bind, Steps-pure,
  Steps-reject, Steps-if, Ensures-resume, Ensures-weaken,
}
use jennifer.Parser.Ends.Advances.{peek-Ended, At-later, At-rest, Steps-look}

-- An advance at the end of the tokens stays there.
pub advance-Steps : {k : ℕ} → Steps (suc k) advance
unfolding advance
advance-Steps {k = k} m s a = by_tokens s.tokens refl a.ended
  where
    by_end :
        (t : Token) (ts : List Token) (b : Bool)
        → is_eof t.kind ≡ b
        → s.tokens ≡ t ∷ ts
        → Ensures (λ _ u. At (suc k) m u) (next_token s (t ∷ ts))
    by_end t ts true e q = rw e (holds a)
    by_end t ts false e q = rw e (holds (At-later (At-rest s t ts q e a)))

    by_tokens :
        (ts : List Token)
        → s.tokens ≡ ts
        → Ended ts
        → Ensures (λ _ u. At (suc k) m u) (next_token s ts)
    by_tokens [] q h = absurd h
    by_tokens (t ∷ ts) q h = by_end t ts (is_eof t.kind) refl q

pub expect_field_name-Steps : {k : ℕ} (ctx : String) → Steps (suc k) (expect_field_name ctx)
unfolding expect_field_name
expect_field_name-Steps ctx = Steps-look (λ t.
    Steps-if (is_post_dot_name t) (Steps-bind advance-Steps (λ u. Steps-pure t)) (Steps-reject _))

-- Behind a token that is not the last one there is another.
pub peek_next_same : (s : Parser) → Ended s.tokens → More s → Ensures (λ _ t. t ≡ s) (peek_next s)
unfolding peek_next
peek_next_same s h (t, ts, e, f) = by_tokens s.tokens e h
  where
    by_tokens :
        (us : List Token) → us ≡ t ∷ ts → Ended us → Ensures (λ _ u. u ≡ s) (second_token s us)
    by_tokens [] q h = absurd h
    by_tokens (u ∷ []) q h = let c : t ≡ u = cc in cc
    by_tokens (u ∷ v ∷ us) q h = holds refl

pub peek_next-Starts : {k : ℕ} → Starts k peek_next
peek_next-Starts m s a more = Ensures-weaken (peek_next_same s a.ended more) (λ u t e. rw e a)

abbrev pub deeper_mode : Mode → Mode
deeper_mode m = record m { depth = m.depth + 1 }

deepen_lem :
    {k : ℕ} {m : Mode} (s : Parser)
    → At k m s
    → Ensures (λ _ t. At k (deeper_mode m) t × (t.tokens ≡ s.tokens)) (deepen s)
unfolding deepen weight
deepen_lem s a = holds (
  record {
    ended = a.ended;
    below = a.below;
    within = a.within;
    nested = ap (λ (n : ℕ). n + 1) (a.nested);
    flagged = a.flagged;
  },
  refl,
)

pub deepen_expr_lem :
    {k : ℕ} {m : Mode} (s : Parser)
    → At k m s
    → Ensures (λ _ t. At k (deeper_mode m) t × (t.tokens ≡ s.tokens)) (deepen_expr s)
unfolding deepen_expr get_depth ◌>>=◌ raise
deepen_expr_lem s a = elim (Bool-cases (leb max_nesting_depth s.expr_depth)) [
  | inl z ↦ rw z (Ensures-resume _ (peek-Ended s a.ended) (λ t u h. rejected))
  | inr z ↦ rw z (deepen_lem s a)
]

pub undeepen_lem :
    {k : ℕ} {m : Mode} (s : Parser)
    → At k (deeper_mode m) s
    → Ensures (λ _ t. At k m t) (undeepen s)
unfolding undeepen weight
undeepen_lem s a = holds (record {
  ended = a.ended;
  below = a.below;
  within = a.within;
  nested = omega (arith, a.nested);
  flagged = a.flagged;
})

module _ {A : Type 0} {k : ℕ} where
  -- A step one level deeper.
  pub Steps-deeper_mode :
      {p : P A} {f : A → P A}
      → Steps k p
      → ((a : A) → Steps k (f a))
      → Steps k (deepen_expr >>= λ _. p >>= λ a. undeepen >>= λ _. f a)
  unfolding ◌>>=◌
  Steps-deeper_mode {p} {f} g h m s a = Ensures-resume _ (deepen_expr_lem s a) (λ _ t (b, _).
      Ensures-resume _ (g (deeper_mode m) t b)
        (λ c u d. Ensures-resume _ (undeepen_lem u d) (λ _ v e. h c m v e)))

  pub allowing_struct_lit-Steps : {p : P A} → Steps k p → Steps k (allowing_struct_lit p)
  unfolding ◌>>=◌ allowing_struct_lit get_no_struct_lit set_no_struct_lit pure weight
  allowing_struct_lit-Steps g m s a =
      Ensures-resume _
        (g (record m { no_struct_lit = false }) (record s { no_struct_lit = false })
          (record {
            ended = a.ended;
            below = a.below;
            within = a.within;
            nested = a.nested;
            flagged = refl;
          }))
        (λ c t b. holds (record {
          ended = b.ended;
          below = b.below;
          within = b.within;
          nested = b.nested;
          flagged = a.flagged;
        }))
