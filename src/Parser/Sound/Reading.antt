-- ===== src/Parser/Sound/Reading.antt =====
-- Steps of internal/parser/parser.go as readings of the tokens: what holds of a result, the tokens
-- that it was read off and those behind it.
use mathlib.Core.Path.{subst}
use jennifer.Parser.Ends.Advances.{same_kind-is_eof}
use jennifer.Common.{
  String, if◌then◌else◌, sym, List, [], ◌∷◌, Option, none, some, Bool, true, false, ok, err, ◌≡◌,
  refl, ◌∙◌,
}
use jennifer.Lexer.Tokens.{Token, TokenType}
use jennifer.Lexer.{is_eof}
use jennifer.Parser.Syntax.{Node}
use jennifer.Parser.Kinds.{same_kind}
use jennifer.Parser.State.{
  ◌>>◌, resume, Parser, Parsed, P, Fault, ◌>>=◌, pure, raise, peek, head_token, next_token, advance,
  check, match, expect, get_seed, allowing_struct_lit, get_no_struct_lit, set_no_struct_lit,
}
use jennifer.Parser.Ladder.{Next, after_token}

-- A result of which `Q` holds, or an error.
pub data Yields {A : Type 0} (Q : A → Parser → Type 0) : Parsed A → Type 0 where
  yields : {a : A} {s : Parser} → Q a s → Yields Q (ok (a, s))
  failed : {e : Fault} → Yields Q (err e)

pub Yields-resume :
    {A B : Type 0} {R : A → Parser → Type 0} {Q : B → Parser → Type 0} {r : Parsed A} (f : A → P B)
    → Yields R r
    → ((a : A) (t : Parser) → R a t → Yields Q (f a t))
    → Yields Q (resume r f)
Yields-resume f (yields {a} {s} h) g = g a s h
Yields-resume f failed g = failed

pub Yields-ok :
    {A : Type 0} {Q : A → Parser → Type 0} {r : Parsed A} {a : A} {s : Parser}
    → Yields Q r
    → r ≡ ok (a, s)
    → Q a s
Yields-ok {Q = Q} {a = b} {s = t} (yields {a} {s} h) e =
    let p : a ≡ b = cc in let q : s ≡ t = cc in subst (λ x. Q x t) p (subst (Q a) q h)
Yields-ok failed e = cc

-- The tokens of a parser without a pre-parsed operand.
pub record Holds (ts : List Token) (s : Parser) : Type 0 where
  pub tokens : s.tokens ≡ ts
  pub no_seed : s.seed ≡ none

abbrev pub After : {A : Type 0} → (A → List Token → Type 0) → A → Parser → Type 0
After Q a t = (us : List Token) × Holds us t × Q a us

-- Before `ts`, the step gives results of which `Q` holds, with the tokens behind them.
abbrev pub From : {A : Type 0} → List Token → (A → List Token → Type 0) → P A → Type 0
From ts Q p = (s : Parser) → Holds ts s → Yields (After Q) (p s)

abbrev pub Reads : {A : Type 0} → (List Token → List Token → A → Type 0) → P A → Type 0
Reads R p = (ts : List Token) → From ts (λ a us. R ts us a) p

-- A step that leaves the tokens alone.
abbrev pub Quiet : {A : Type 0} → P A → Type 0
Quiet p = (ts : List Token) → From ts (λ _ us. us ≡ ts) p

pub head_Yields :
    (ts us : List Token) (s : Parser)
    → Holds ts s
    → us ≡ ts
    → Yields (λ t u. (u ≡ s) × (vs : List Token) × (ts ≡ t ∷ vs)) (head_token s us)
head_Yields ts [] s h e = failed
head_Yields ts (t ∷ us) s h e = yields (refl, us, sym e)

next_Yields :
    (ts us : List Token) (s : Parser)
    → Holds ts s
    → us ≡ ts
    → Yields (λ t u. Holds (after_token ts) u × (vs : List Token) × (ts ≡ t ∷ vs)) (next_token s us)
next_Yields ts [] s h e = failed
next_Yields ts (t ∷ us) s h e = rw⁻¹ e (yields (by_end (is_eof t.kind), us, refl))
  where
    by_end :
        (b : Bool) → Holds (if b then t ∷ us else us) (if b then s else record s { tokens = us })
    by_end true = record { tokens = h.tokens ∙ sym e; no_seed = h.no_seed }
    by_end false = record { tokens = refl; no_seed = h.no_seed }

pub Yields-weaken :
    {A : Type 0} {R Q : A → Parser → Type 0} {r : Parsed A}
    → Yields R r
    → ((a : A) (t : Parser) → R a t → Q a t)
    → Yields Q r
Yields-weaken (yields {a} {s} h) g = yields (g a s h)
Yields-weaken failed g = failed

module _ {A : Type 0} {ts : List Token} {Q : A → List Token → Type 0} where
  pub From-pure : (a : A) → Q a ts → From ts Q (pure a)
  unfolding pure
  From-pure a q s h = yields (ts, h, q)

  pub From-raise : (e : Fault) → From ts Q (raise e)
  unfolding raise
  From-raise e s h = failed

  pub From-peek :
      {f : Token → P A}
      → ((t : Token) (us : List Token) → ts ≡ t ∷ us → From ts Q (f t))
      → From ts Q (peek >>= f)
  unfolding ◌>>=◌ peek
  From-peek {f} g s h =
      Yields-resume f (head_Yields ts s.tokens s h h.tokens) (λ t u (e, us, q). rw e (g t us q s h))

  pub From-advance :
      {f : Token → P A}
      → ((t : Token) (us : List Token) → ts ≡ t ∷ us → From (after_token ts) Q (f t))
      → From ts Q (advance >>= f)
  unfolding ◌>>=◌ advance
  From-advance {f} g s h =
      Yields-resume f (next_Yields ts s.tokens s h h.tokens) (λ t u (k, us, q). g t us q u k)

  pub From-bind :
      {B : Type 0} {R : B → List Token → Type 0} {p : P B} (f : B → P A)
      → From ts R p
      → ((b : B) (us : List Token) → R b us → From us Q (f b))
      → From ts Q (p >>= f)
  unfolding ◌>>=◌
  From-bind f k g s h = Yields-resume f (k s h) (λ b t (us, l, r). g b us r t l)

  pub From-Quiet :
      {B : Type 0} {p : P B} (f : B → P A)
      → Quiet p
      → ((b : B) → From ts Q (f b))
      → From ts Q (p >>= f)
  From-Quiet f k g = From-bind f (k ts) (λ b us e. rw e (g b))

  pub From-elim :
      (b : Bool) {p q : P A}
      → (b ≡ true → From ts Q p)
      → (b ≡ false → From ts Q q)
      → From ts Q (elim b [ true ↦ p | false ↦ q ])
  From-elim true g k = g refl
  From-elim false g k = k refl

  pub From-if :
      (b : Bool) {p q : P A}
      → (b ≡ true → From ts Q p)
      → (b ≡ false → From ts Q q)
      → From ts Q (if b then p else q)
  From-if true g k = g refl
  From-if false g k = k refl

  pub From-weaken :
      {R : A → List Token → Type 0} {p : P A}
      → From ts R p
      → ((a : A) (us : List Token) → R a us → Q a us)
      → From ts Q p
  From-weaken k g s h = Yields-weaken (k s h) (λ a t (us, l, q). (us, l, g a us q))

  pub From-allowing : {p : P A} → From ts Q p → From ts Q (allowing_struct_lit p)
  unfolding ◌>>=◌ allowing_struct_lit get_no_struct_lit set_no_struct_lit pure
  From-allowing k s h =
      Yields-resume _
        (k (record s { no_struct_lit = false }) (record { tokens = h.tokens; no_seed = h.no_seed }))
        (λ a t (us, l, q). yields (us, record { tokens = l.tokens; no_seed = l.no_seed }, q))

pub after_Next :
    {κ : TokenType} {ts us : List Token} {t : Token}
    → is_eof κ ≡ false
    → Next κ ts us t
    → after_token ts ≡ us
after_Next {κ} {t = t} e n = rw (n.tokens) (rw (same_kind-is_eof t.kind κ n.kind e) refl)

abbrev Matched : TokenType → List Token → Option Token → List Token → Type 0
Matched κ ts none us = us ≡ ts
Matched κ ts (some t) us = Next κ ts us t

pub Next-of :
    {κ : TokenType} {ts us : List Token} {t : Token}
    → ts ≡ t ∷ us
    → same_kind t.kind κ ≡ true
    → Next κ ts us t
Next-of q z = record { tokens = q; kind = z }

-- A test of the next token, which goes on with the tokens where they are.
abbrev pub Tested : TokenType → List Token → Bool → List Token → Type 0
Tested κ ts b us = (us ≡ ts) × ((b ≡ true) → (t : Token) × (vs : List Token) × Next κ ts vs t)

pub check-Tested : (κ : TokenType) (ts : List Token) → From ts (Tested κ ts) (check κ)
unfolding check
check-Tested κ ts =
    From-peek (λ t us q. From-pure (same_kind t.kind κ) (refl, λ z. (t, us, Next-of q z)))

pub From-test :
    {A : Type 0} {κ : TokenType} {ts : List Token} {Q : A → List Token → Type 0} {p : P Bool}
    (f : Bool → P A)
    → From ts (Tested κ ts) p
    → ((t : Token) (us : List Token) → Next κ ts us t → From ts Q (f true))
    → From ts Q (f false)
    → From ts Q (p >>= f)
From-test {κ = κ} {ts = ts} {Q = Q} f test g k = From-bind f test by_test
  where
    by_test : (b : Bool) (us : List Token) → Tested κ ts b us → From us Q (f b)
    by_test true us (e, n) = let (t, vs, h) = n refl in rw e (g t vs h)
    by_test false us (e, n) = rw e k

pub From-check :
    {A : Type 0} {ts : List Token} {Q : A → List Token → Type 0} (f : Bool → P A) (κ : TokenType)
    → ((t : Token) (us : List Token) → Next κ ts us t → From ts Q (f true))
    → From ts Q (f false)
    → From ts Q (check κ >>= f)
From-check {ts = ts} f κ = From-test f (check-Tested κ ts)

-- The next token is known: an advance consumes it.
pub From-Next :
    {A : Type 0} {Q : A → List Token → Type 0} {κ : TokenType} {ts us : List Token} {t : Token}
    (f : Token → P A)
    → is_eof κ ≡ false
    → Next κ ts us t
    → From us Q (f t)
    → From ts Q (advance >>= f)
From-Next {us = us} {t = t} f e n k = From-advance (λ u vs q.
    let ends : t ∷ us ≡ u ∷ vs = sym n.tokens ∙ q in
    let same : u ≡ t = cc in rw (after_Next e n) (rw same k))

match-Matched :
    (κ : TokenType) → is_eof κ ≡ false → (ts : List Token) → From ts (Matched κ ts) (match κ)
unfolding match
match-Matched κ e ts = From-peek (λ t us q.
    From-if (same_kind t.kind κ)
      (λ z. From-Next _ e (Next-of q z) (From-pure (some t) (Next-of q z)))
      (λ z. From-pure none refl))

advance_to :
    {κ : TokenType} {ts us : List Token} {t : Token}
    → is_eof κ ≡ false
    → Next κ ts us t
    → From ts (λ u vs. Next κ ts vs u) advance
unfolding advance
advance_to {κ} {ts} {us} {t} e n s h =
    Yields-weaken (next_Yields ts s.tokens s h h.tokens) (λ u v (k, vs, q).
      let ends : t ∷ us ≡ u ∷ vs = sym n.tokens ∙ q in
      let same : u ≡ t = cc in (us, rw (after_Next e n) at k, rw same n))

pub expect-Next :
    (κ : TokenType) (ctx : String)
    → is_eof κ ≡ false
    → (ts : List Token) → From ts (λ t us. Next κ ts us t) (expect κ ctx)
unfolding expect
expect-Next κ ctx e ts =
    From-peek
      (λ t us q. From-if (same_kind t.kind κ) (λ z. advance_to e (Next-of q z)) (λ z. From-raise _))

module _ {A : Type 0} {ts : List Token} {Q : A → List Token → Type 0} where
  pub From-match :
      (f : Option Token → P A) (κ : TokenType)
      → is_eof κ ≡ false
      → ((t : Token) (us : List Token) → Next κ ts us t → From us Q (f (some t)))
      → From ts Q (f none)
      → From ts Q (match κ >>= f)
  From-match f κ e g k = From-bind f (match-Matched κ e ts) by_match
    where
      by_match : (o : Option Token) (us : List Token) → Matched κ ts o us → From us Q (f o)
      by_match none us q = rw q k
      by_match (some t) us n = g t us n

  pub From-expect :
      (f : Token → P A) (κ : TokenType) (ctx : String)
      → is_eof κ ≡ false
      → ((t : Token) (us : List Token) → Next κ ts us t → From us Q (f t))
      → From ts Q (expect κ ctx >>= f)
  From-expect f κ ctx e g = From-bind f (expect-Next κ ctx e ts) g

-- There is no pre-parsed operand to take.
pub From-seed :
    {A : Type 0} {ts : List Token} {Q : A → List Token → Type 0} (f : Option Node → P A)
    → From ts Q (f none)
    → From ts Q (get_seed >>= f)
unfolding get_seed ◌>>=◌
From-seed {ts = ts} {Q = Q} f k s h = by_seed s.seed h.no_seed
  where
    by_seed : (o : Option Node) → o ≡ none → Yields (After Q) (f o s)
    by_seed none e = k s h
    by_seed (some x) e = cc

pub From-option :
    {A B : Type 0} {ts : List Token} {Q : A → List Token → Type 0} (o : Option B) {p : P A}
    {q : B → P A}
    → (o ≡ none → From ts Q p)
    → ((b : B) → o ≡ some b → From ts Q (q b))
    → From ts Q (elim o [ none ↦ p | some b ↦ q b ])
From-option none g k = g refl
From-option (some b) g k = k b refl

-- An advance over a token that is not the last one.
pub From-over :
    {A : Type 0} {ts us : List Token} {t : Token} {Q : A → List Token → Type 0} {p : P A}
    → is_eof t.kind ≡ false
    → ts ≡ t ∷ us
    → From us Q p
    → From ts Q (advance >> p)
From-over {us = us} {t = t} e q k = From-advance (λ u vs r. rw q (rw e k))
