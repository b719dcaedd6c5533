-- ===== src/Exec/Syntax.antt =====
-- The statements of internal/parser/ast.go. An expression that a statement evaluates has no call in
-- it, or is one call of a method whose arguments have none.
use jennifer.Common.{Bool, List, Option, ℕ, ℤ}
use jennifer.Ast.{Pos, Expr, DeclType}
use jennifer.Value.{Value}

-- An argument of a call; a PreEval node is a value that a `defer` took.
pub data Arg : Type 0 where
  arg : Expr → Arg
  pre_eval : Pos → Value → Arg

pub data Rhs : Type 0 where
  plain : Expr → Rhs
  call : Pos → List ℕ → List Arg → Rhs

-- A step `[i]` of an assignment's target, which has them from the last to the first.
abbrev pub Step : Type 0
Step = Pos × Expr

-- A block has the count of its slots. The tails of an `if` and of a `match` end with their `else`.
mutual
  pub data Block : Type 0 where
    block : ℕ → Stmts → Block

  pub data Stmts : Type 0 where
    no_more : Stmts
    seq : Stmt → Stmts → Stmts

  pub data Stmt : Type 0 where
    define : Pos → List ℕ → DeclType → Bool → ℤ → Rhs → Stmt
    assign : Pos → List ℕ → ℤ → ℤ → Rhs → Stmt
    index_assign : Pos → List ℕ → ℤ → ℤ → Step → List Step → Rhs → Stmt
    append : Pos → List ℕ → ℤ → ℤ → List Step → Rhs → Stmt
    if_then : Expr → Block → Else → Stmt
    match_on : Expr → Arms → Stmt
    while_loop : Expr → Block → Stmt
    for_loop : ℕ → OptStmt → Option Expr → OptStmt → Block → Stmt
    for_each : Pos → List ℕ → ℤ → Expr → Block → Stmt
    for_range : Pos → List ℕ → ℤ → Pos → Expr → Expr → Block → Stmt
    repeat_until : Block → Expr → Stmt
    return_with : Option Rhs → Stmt
    break_at continue_at : Pos → Stmt
    exit_with : Option Expr → Stmt
    throw : Pos → Expr → Stmt
    try_catch : Block → Pos → List ℕ → ℤ → Block → Stmt
    defer : Bool → Pos → List ℕ → List Arg → Stmt
    run_expr : Rhs → Stmt

  pub data OptStmt : Type 0 where
    no_stmt : OptStmt
    a_stmt : Stmt → OptStmt

  pub data Else : Type 0 where
    no_else : Else
    else_block : Block → Else
    else_if : Expr → Block → Else → Else

  pub data Arms : Type 0 where
    no_arm : Arms
    else_arm : Block → Arms
    arm : List Expr → Block → Arms → Arms

pub record Param : Type 0 where
  pub name : List ℕ
  pub decl_type : DeclType

pub record Method : Type 0 where
  pub name : List ℕ
  pub params : List Param
  pub body : Block
