-- ===== src/Exec/Flows.antt =====
-- Where `break` and `continue` of internal/interpreter/interpreter.go end up.
pub mod Runs
use jennifer.Exec.Stored.{passed}
use jennifer.Value.{nil, list, cons, Values, Value}
use jennifer.Ast.{type_invalid, DeclType, Expr, Pos}
use jennifer.Float64.{FloatOps}
use jennifer.Exec.Control.{
  range_passes, for_each_of, for_each_passes, exec_repeat, for_passes, exec_while, exec_arms,
  exec_else, frame_result, exec_block, in_frame, finish_frame, exec_stmts, if_fell, after_pass,
}
use jennifer.Exec.Outcomes.{
  if-Gives, after-Gives, attempt-Gives, raise-Gives, deeper-Gives, framed-Gives, then-Gives,
  pure-Gives, Given, Gives,
}
use jennifer.Common.{
  ◌+ℤ◌, ◌-ℤ◌, pos_part, pos, Result, ℤ, List, Option, none, some, ok, err, ℕ, zero, suc, ◌≡◌, refl,
  Bool, true, false, ◌&&◌,
}
use jennifer.Exec.Machine.{
  thrown, runtime, exit, continued, fell, broke, Fault, returned, out_of_fuel, ◌>>=◌, M, State,
  Flow,
}
use jennifer.Exec.Syntax.{
  for_range, append, arm, else_arm, OptStmt, Arms, else_if, else_block, Else, block, seq, Stmt,
  Stmts, Block, no_else, no_arm, no_more, define, assign, index_assign, if_then, match_on,
  while_loop, for_loop, for_each, repeat_until, return_with, break_at, continue_at, exit_with,
  throw, try_catch, defer, run_expr,
}

-- No `break` or `continue` stands outside a loop.
unfoldable mutual
  pub confined : Stmt → Bool
  confined (if_then c b rest) = confined_block b && confined_else rest
  confined (match_on e arms) = confined_arms arms
  confined (break_at p) = false
  confined (continue_at p) = false
  confined (try_catch b p name slot handler) = confined_block b && confined_block handler
  confined _ = true

  pub confined_stmts : Stmts → Bool
  confined_stmts no_more = true
  confined_stmts (seq st rest) = confined st && confined_stmts rest

  pub confined_block : Block → Bool
  confined_block (block n ss) = confined_stmts ss

  pub confined_else : Else → Bool
  confined_else no_else = true
  confined_else (else_block b) = confined_block b
  confined_else (else_if c b rest) = confined_block b && confined_else rest

  pub confined_arms : Arms → Bool
  confined_arms no_arm = true
  confined_arms (else_arm b) = confined_block b
  confined_arms (arm es b rest) = confined_block b && confined_arms rest

-- Falling off the end, or a `return`.
abbrev pub Settled : Flow → Type 0
Settled fell = Unit
Settled (returned v) = Unit
Settled (broke p) = ⊥
Settled (continued p) = ⊥

pub both : {a b : Bool} → a && b ≡ true → (a ≡ true) × (b ≡ true)
both {a = true} {b = true} h = (refl, refl)
both {a = true} {b = false} h = cc
both {a = false} h = cc

after_pass-Gives :
    (rest : M Flow) → Gives Settled rest → (f : Flow) → Gives Settled (after_pass rest f)
after_pass-Gives rest h fell = h
after_pass-Gives rest h (returned v) = pure-Gives Settled (returned v) tt
after_pass-Gives rest h (broke p) = pure-Gives Settled fell tt
after_pass-Gives rest h (continued p) = h

if_fell-Gives :
    (rest : M Flow) → Gives Settled rest → (f : Flow) → Settled f → Gives Settled (if_fell rest f)
if_fell-Gives rest h fell s = h
if_fell-Gives rest h (returned v) s = pure-Gives Settled (returned v) tt
if_fell-Gives rest h (broke p) s = absurd s
if_fell-Gives rest h (continued p) s = absurd s

frame_result-Gives :
    (r : Result Fault Flow) (d : Option Fault) → Given Settled r → Gives Settled (frame_result r d)
frame_result-Gives (ok f) none h = pure-Gives Settled f h
frame_result-Gives (err e) none h = raise-Gives Settled e
frame_result-Gives (ok f) (some d) h = raise-Gives Settled d
frame_result-Gives (err (exit n)) (some d) h = raise-Gives Settled (exit n)
frame_result-Gives (err (runtime e)) (some d) h = raise-Gives Settled d
frame_result-Gives (err (thrown v p)) (some d) h = raise-Gives Settled d
frame_result-Gives (err out_of_fuel) (some d) h = raise-Gives Settled d

module _ (run : Stmt → M Flow)
    (settles : (st : Stmt) → confined st ≡ true → Gives Settled (run st)) where
  exec_stmts-Gives : (ss : Stmts) → confined_stmts ss ≡ true → Gives Settled (exec_stmts run ss)
  unfolding exec_stmts confined_stmts
  exec_stmts-Gives no_more h = pure-Gives Settled fell tt
  exec_stmts-Gives (seq st rest) h =
      let (c, d) = both h in
      then-Gives Settled Settled _ _ (settles st c) (if_fell-Gives _ (exec_stmts-Gives rest d))

  finish_frame-Gives : (m : M Flow) → Gives Settled m → Gives Settled (finish_frame run m)
  unfolding finish_frame
  finish_frame-Gives m h = then-Gives (Given Settled) Settled _ _ (attempt-Gives Settled m h) λ r k.
      after-Gives Settled _ _ λ ds. after-Gives Settled _ _ λ last. frame_result-Gives r last k

  pub in_frame-Gives :
      (n : ℕ) (bind : M (Unit {0})) (ss : Stmts)
      → confined_stmts ss ≡ true
      → Gives Settled (in_frame run n bind ss)
  unfolding in_frame
  in_frame-Gives n bind ss h =
      framed-Gives Settled n _
        (after-Gives Settled _ _ λ u. finish_frame-Gives _ (exec_stmts-Gives ss h))

  pub exec_block-Gives : (b : Block) → confined_block b ≡ true → Gives Settled (exec_block run b)
  unfolding exec_block confined_block
  exec_block-Gives (block n ss) h = deeper-Gives Settled _ (in_frame-Gives n _ ss h)

  module _ (F : FloatOps) where
    pub exec_else-Gives : (e : Else) → confined_else e ≡ true → Gives Settled (exec_else run F e)
    unfolding exec_else confined_else
    exec_else-Gives no_else h = pure-Gives Settled fell tt
    exec_else-Gives (else_block b) h = exec_block-Gives b h
    exec_else-Gives (else_if c b rest) h =
        let (d, e) = both h in
        after-Gives Settled _ _
          λ t. if-Gives Settled t (exec_block-Gives b d) (exec_else-Gives rest e)

    pub exec_arms-Gives :
        (v : Value) (arms : Arms)
        → confined_arms arms ≡ true
        → Gives Settled (exec_arms run F v arms)
    unfolding exec_arms confined_arms
    exec_arms-Gives v no_arm h = pure-Gives Settled fell tt
    exec_arms-Gives v (else_arm b) h = exec_block-Gives b h
    exec_arms-Gives v (arm es b rest) h =
        let (d, e) = both h in
        after-Gives Settled _ _
          λ t. if-Gives Settled t (exec_block-Gives b d) (exec_arms-Gives v rest e)

    pub exec_while-Gives : (k : ℕ) (c : Expr) (b : Block) → Gives Settled (exec_while run F k c b)
    unfolding exec_while
    exec_while-Gives zero c b = raise-Gives Settled out_of_fuel
    exec_while-Gives (suc k) c b = after-Gives Settled _ _ λ t.
        if-Gives Settled t (after-Gives Settled _ _ (after_pass-Gives _ (exec_while-Gives k c b)))
          (pure-Gives Settled fell tt)

    pub for_passes-Gives :
        (k : ℕ) (c : Option Expr) (step : OptStmt) (b : Block)
        → Gives Settled (for_passes run F k c step b)
    unfolding for_passes
    for_passes-Gives zero c step b = raise-Gives Settled out_of_fuel
    for_passes-Gives (suc k) c step b = after-Gives Settled _ _ λ t.
        if-Gives Settled t
          (after-Gives Settled _ _
            (after_pass-Gives _ (after-Gives Settled _ _ λ f. for_passes-Gives k c step b)))
          (pure-Gives Settled fell tt)

    pub exec_repeat-Gives : (k : ℕ) (b : Block) (c : Expr) → Gives Settled (exec_repeat run F k b c)
    unfolding exec_repeat
    exec_repeat-Gives zero b c = raise-Gives Settled out_of_fuel
    exec_repeat-Gives (suc k) b c = after-Gives Settled _ _ (
        after_pass-Gives _ (
          after-Gives Settled _ _
            λ t. if-Gives Settled t (pure-Gives Settled fell tt) (exec_repeat-Gives k b c)))

    for_each_passes-Gives :
        (p : Pos) (name : List ℕ) (slot : ℤ) (t : DeclType) (b : Block) (vs : Values)
        → Gives Settled (for_each_passes run F p name slot t b vs)
    unfolding for_each_passes
    for_each_passes-Gives p name slot t b nil = pure-Gives Settled fell tt
    for_each_passes-Gives p name slot t b (cons v vs) =
        after-Gives Settled _ _ (after_pass-Gives _ (for_each_passes-Gives p name slot t b vs))

    pub for_each_of-Gives :
        (p : Pos) (name : List ℕ) (slot : ℤ) (b : Block) (v : Value)
        → Gives Settled (for_each_of run F p name slot b v)
    for_each_of-Gives p name slot b (list (some t) vs) = for_each_passes-Gives p name slot t b vs
    for_each_of-Gives p name slot b (list none vs) =
        for_each_passes-Gives p name slot type_invalid b vs
    for_each_of-Gives p name slot b v = raise-Gives Settled _

    pub range_passes-Gives :
        (p : Pos) (name : List ℕ) (slot : ℤ) (b : Block) (k : ℕ) (n : ℤ)
        → Gives Settled (range_passes run F p name slot b k n)
    unfolding range_passes
    range_passes-Gives p name slot b zero n = pure-Gives Settled fell tt
    range_passes-Gives p name slot b (suc k) n =
        after-Gives Settled _ _
          (after_pass-Gives _ (range_passes-Gives p name slot b k (n +ℤ pos 1)))
