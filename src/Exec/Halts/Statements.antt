-- ===== src/Exec/Halts/Statements.antt =====
-- Fuel and the blocks, branches and for-each loops of internal/interpreter/interpreter.go, without
-- calls and deferred calls.
use jennifer.Eval.{elseif_condition}
use jennifer.Ast.{type_invalid, DeclType, Expr}
use jennifer.Exec.Halts.Simple.{eval-Halts, eval_bool-Halts}
use jennifer.Value.{nil, cons, list, Values, equal, Value}
use jennifer.Exec.Flows.{both}
use jennifer.Float64.{FloatOps}
use jennifer.Exec.Control.{
  range_passes, for_each_of, for_each_pass, for_each_passes, exec_arms, matches_arm, exec_else,
  run_deferred, exec_block, in_frame, finish_frame, exec_stmts, if_fell, after_pass,
}
use jennifer.Exec.Halts.{
  pure_then-Halts, fault-Halts, update_env-Halts, if-Halts, take_then-Halts, then-Halts,
  attempt_then-Halts, raise-Halts, Pos, deeper-Halts, framed-Halts, pure-Halts, Halts,
}
use jennifer.Common.{
  ◌+ℤ◌, pos, [], ℤ, ◌∷◌, List, Option, none, some, ℕ, zero, suc, ◌≡◌, Bool, true, false, ◌&&◌,
}
use jennifer.Exec.Machine.{continued, broke, M, Flow, fell, returned}
use jennifer.Exec.Syntax.{
  for_range, append, arm, else_arm, Arms, else_if, else_block, Else, call, block, plain, seq, Rhs,
  Stmt, Stmts, Block, no_else, no_arm, no_more, define, assign, index_assign, if_then, match_on,
  while_loop, for_loop, for_each, repeat_until, return_with, break_at, continue_at, exit_with,
  throw, try_catch, defer, run_expr,
}

abbrev pub no_call : Rhs → Bool
no_call (plain e) = true
no_call (call p callee args) = false

abbrev pub no_return_call : Option Rhs → Bool
no_return_call none = true
no_return_call (some r) = no_call r

-- Such a statement, nested less than `n` deep.
unfoldable mutual
  pub straight : ℕ → Stmt → Bool
  straight zero st = false
  straight (suc n) (define p name t c slot r) = no_call r
  straight (suc n) (assign p name depth slot r) = no_call r
  straight (suc n) (index_assign p name depth slot last steps r) = no_call r
  straight (suc n) (append p name depth slot steps r) = no_call r
  straight (suc n) (if_then c b rest) = straight_block n b && straight_else n rest
  straight (suc n) (match_on e arms) = straight_arms n arms
  straight (suc n) (while_loop c b) = false
  straight (suc n) (for_loop k init c step b) = false
  straight (suc n) (for_each p name slot e b) = straight_block n b
  straight (suc n) (for_range p name slot q lo hi b) = straight_block n b
  straight (suc n) (repeat_until b c) = false
  straight (suc n) (return_with r) = no_return_call r
  straight (suc n) (break_at p) = true
  straight (suc n) (continue_at p) = true
  straight (suc n) (exit_with e) = true
  straight (suc n) (throw p e) = true
  straight (suc n) (try_catch b p name slot handler) =
      straight_block n b && straight_block n handler
  straight (suc n) (defer on_error p callee args) = false
  straight (suc n) (run_expr r) = no_call r

  pub straight_stmts : ℕ → Stmts → Bool
  straight_stmts n no_more = true
  straight_stmts n (seq st rest) = straight n st && straight_stmts n rest

  pub straight_block : ℕ → Block → Bool
  straight_block n (block k ss) = straight_stmts n ss

  pub straight_else : ℕ → Else → Bool
  straight_else n no_else = true
  straight_else n (else_block b) = straight_block n b
  straight_else n (else_if c b rest) = straight_block n b && straight_else n rest

  pub straight_arms : ℕ → Arms → Bool
  straight_arms n no_arm = true
  straight_arms n (else_arm b) = straight_block n b
  straight_arms n (arm es b rest) = straight_block n b && straight_arms n rest

after_pass-Halts : (rest : M Flow) → Halts rest → (f : Flow) → Halts (after_pass rest f)
after_pass-Halts rest h fell = h
after_pass-Halts rest h (returned v) = pure-Halts _
after_pass-Halts rest h (broke p) = pure-Halts _
after_pass-Halts rest h (continued p) = h

if_fell-Halts : (rest : M Flow) → Halts rest → (f : Flow) → Halts (if_fell rest f)
if_fell-Halts rest h fell = h
if_fell-Halts rest h (returned v) = pure-Halts _
if_fell-Halts rest h (broke p) = pure-Halts _
if_fell-Halts rest h (continued p) = pure-Halts _

module _ (n : ℕ) (run : Stmt → M Flow)
    (ends : (st : Stmt) → straight n st ≡ true → Halts (run st)) where
  exec_stmts-Halts : (ss : Stmts) → straight_stmts n ss ≡ true → Halts (exec_stmts run ss)
  unfolding exec_stmts straight_stmts
  exec_stmts-Halts no_more h = pure-Halts fell
  exec_stmts-Halts (seq st rest) h =
      let (c, d) = both h in then-Halts _ _ (ends st c) (if_fell-Halts _ (exec_stmts-Halts rest d))

  -- No deferred call is left to run.
  finish_frame-Halts : (m : M Flow) → Halts m → Halts (finish_frame run m)
  unfolding finish_frame run_deferred
  finish_frame-Halts m h =
      attempt_then-Halts m _ h (λ f. take_then-Halts _ (pure_then-Halts none _ (pure-Halts f)))
        (λ e k. take_then-Halts _ (pure_then-Halts none _ (raise-Halts e k)))

  pub in_frame-Halts :
      (k : ℕ) (bind : M (Unit {0})) (ss : Stmts)
      → Halts bind
      → straight_stmts n ss ≡ true
      → Halts (in_frame run k bind ss)
  unfolding in_frame
  in_frame-Halts k bind ss b h =
      framed-Halts k _ (then-Halts _ _ b λ u. finish_frame-Halts _ (exec_stmts-Halts ss h))

  pub exec_block-Halts : (b : Block) → straight_block n b ≡ true → Halts (exec_block run b)
  unfolding exec_block straight_block
  exec_block-Halts (block k ss) h = deeper-Halts _ (in_frame-Halts k _ ss (pure-Halts tt) h)

  module _ (F : FloatOps) where
    pub exec_else-Halts : (e : Else) → straight_else n e ≡ true → Halts (exec_else run F e)
    unfolding exec_else straight_else
    exec_else-Halts no_else h = pure-Halts fell
    exec_else-Halts (else_block b) h = exec_block-Halts b h
    exec_else-Halts (else_if c b rest) h =
        let (d, e) = both h in
        then-Halts _ _ (eval_bool-Halts F elseif_condition c)
          λ t. if-Halts t (exec_block-Halts b d) (exec_else-Halts rest e)

    matches_arm-Halts : (v : Value) (es : List Expr) → Halts (matches_arm run F v es)
    unfolding matches_arm
    matches_arm-Halts v [] = pure-Halts false
    matches_arm-Halts v (e ∷ es) =
        then-Halts _ _ (eval-Halts F e)
          λ w. if-Halts (equal F v w) (pure-Halts true) (matches_arm-Halts v es)

    pub exec_arms-Halts :
        (v : Value) (arms : Arms) → straight_arms n arms ≡ true → Halts (exec_arms run F v arms)
    unfolding exec_arms straight_arms
    exec_arms-Halts v no_arm h = pure-Halts fell
    exec_arms-Halts v (else_arm b) h = exec_block-Halts b h
    exec_arms-Halts v (arm es b rest) h =
        let (d, e) = both h in
        then-Halts _ _ (matches_arm-Halts v es)
          λ t. if-Halts t (exec_block-Halts b d) (exec_arms-Halts v rest e)

    for_each_passes-Halts :
        (p : Pos) (name : List ℕ) (slot : ℤ) (t : DeclType) (b : Block) (vs : Values)
        → straight_block n b ≡ true
        → Halts (for_each_passes run F p name slot t b vs)
    unfolding for_each_passes for_each_pass straight_block
    for_each_passes-Halts p name slot t b nil h = pure-Halts fell
    for_each_passes-Halts p name slot t (block k ss) (cons v vs) h =
        then-Halts _ _ (in_frame-Halts k _ ss (update_env-Halts p _) h)
          (after_pass-Halts _ (for_each_passes-Halts p name slot t (block k ss) vs h))

    pub for_each_of-Halts :
        (p : Pos) (name : List ℕ) (slot : ℤ) (b : Block) (v : Value)
        → straight_block n b ≡ true
        → Halts (for_each_of run F p name slot b v)
    for_each_of-Halts p name slot b (list (some t) vs) h =
        for_each_passes-Halts p name slot t b vs h
    for_each_of-Halts p name slot b (list none vs) h =
        for_each_passes-Halts p name slot type_invalid b vs h
    for_each_of-Halts p name slot b v h = fault-Halts _

    pub range_passes-Halts :
        (p : Pos) (name : List ℕ) (slot : ℤ) (b : Block) (k : ℕ) (m : ℤ)
        → straight_block n b ≡ true
        → Halts (range_passes run F p name slot b k m)
    unfolding range_passes for_each_pass straight_block
    range_passes-Halts p name slot b zero m h = pure-Halts fell
    range_passes-Halts p name slot (block j ss) (suc k) m h =
        then-Halts _ _ (in_frame-Halts j _ ss (update_env-Halts p _) h)
          (after_pass-Halts _ (range_passes-Halts p name slot (block j ss) k (m +ℤ pos 1) h))
