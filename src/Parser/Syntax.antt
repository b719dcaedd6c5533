-- ===== src/Parser/Syntax.antt =====
-- internal/parser/ast.go as the parser builds it: expressions and statements, before the resolver
-- and the folder add to them. Depths, slots and marks, which the parser leaves unset, are left out.
use jennifer.Common.{Bool, List, ℕ, ℤ}
use jennifer.Ast.{BinaryOp, DeclType, Pos, UnaryOp}

-- A float64 is its bit pattern. `define` has IsConst and Exported, `struct_lit` has NS, Enum, Name
-- and Bare; a bound of a slice, the value of a `return` and the like may be missing (`Opt`).
mutual
  pub data Node : Type 0 where
    int_lit : Pos → ℤ → Node
    float_lit : Pos → ℕ → Node
    string_lit : Pos → List ℕ → Node
    interp_string : Pos → Parts → Node
    bool_lit : Pos → Bool → Node
    null_lit : Pos → Node
    list_lit : Pos → Nodes → Node
    map_lit : Pos → Pairs → Node
    index : Pos → Node → Node → Node
    range : Pos → Node → Node → Node
    slice : Pos → Node → Opt → Opt → Node
    struct_lit : Pos → List ℕ → List ℕ → List ℕ → Bool → Fields → Node
    field_access : Pos → Node → List ℕ → Node
    var : Pos → List ℕ → Node
    const_ref : Pos → List ℕ → Node
    call : Pos → List ℕ → Nodes → Node
    call_value : Pos → Node → Nodes → Node
    len : Pos → Node → Node
    spawn : Pos → Stmts → Node
    qualified_call : Pos → List ℕ → List ℕ → Nodes → Node
    qualified_const_ref : Pos → List ℕ → List ℕ → Node
    unary : Pos → UnaryOp → Node → Node
    binary : Pos → BinaryOp → Node → Node → Node

  pub data Opt : Type 0 where
    missing : Opt
    given : Node → Opt

  pub data Nodes : Type 0 where
    no_nodes : Nodes
    node : Node → Nodes → Nodes

  pub data Pairs : Type 0 where
    no_pairs : Pairs
    pair : Node → Node → Pairs → Pairs

  pub data Fields : Type 0 where
    no_fields : Fields
    field : List ℕ → Pos → Node → Fields → Fields

  pub data Parts : Type 0 where
    no_parts : Parts
    text : List ℕ → Parts → Parts
    slot : Node → Parts → Parts

  pub data Block : Type 0 where
    block : Pos → Stmts → Block

  pub data Stmts : Type 0 where
    no_stmts : Stmts
    stmt : Stmt → Stmts → Stmts

  pub data Stmt : Type 0 where
    define : Pos → Bool → Bool → List ℕ → DeclType → Opt → Stmt
    assign : Pos → List ℕ → Node → Stmt
    index_assign : Pos → Pos → Node → Node → Node → Stmt
    append : Pos → Node → Node → Stmt
    field_assign : Pos → Pos → Node → List ℕ → Node → Stmt
    if_then : Pos → Node → Block → Else → Stmt
    match_on : Pos → Node → Arms → Stmt
    while_loop : Pos → Node → Block → Stmt
    for_loop : Pos → OptStmt → Opt → OptStmt → Block → Stmt
    for_each : Pos → List ℕ → Node → Block → Stmt
    return_with : Pos → Opt → Stmt
    break_at : Pos → Stmt
    continue_at : Pos → Stmt
    repeat_until : Pos → Block → Node → Stmt
    exit_with : Pos → Opt → Stmt
    try_catch : Pos → Block → List ℕ → Pos → Block → Stmt
    throw : Pos → Node → Stmt
    defer : Pos → Node → Bool → Stmt
    run_expr : Pos → Node → Stmt

  pub data OptStmt : Type 0 where
    no_stmt : OptStmt
    a_stmt : Stmt → OptStmt

  pub data Else : Type 0 where
    no_else : Else
    else_block : Block → Else
    else_if : Node → Block → Else → Else

  pub data Arms : Type 0 where
    no_arms : Arms
    else_arm : Block → Arms
    arm : Pos → Nodes → Block → Arms → Arms

-- `Pos` of a node.
unfoldable pub node_pos : Node → Pos
node_pos (int_lit p _) = p
node_pos (float_lit p _) = p
node_pos (string_lit p _) = p
node_pos (interp_string p _) = p
node_pos (bool_lit p _) = p
node_pos (null_lit p) = p
node_pos (list_lit p _) = p
node_pos (map_lit p _) = p
node_pos (index p _ _) = p
node_pos (range p _ _) = p
node_pos (slice p _ _ _) = p
node_pos (struct_lit p _ _ _ _ _) = p
node_pos (field_access p _ _) = p
node_pos (var p _) = p
node_pos (const_ref p _) = p
node_pos (call p _ _) = p
node_pos (call_value p _ _) = p
node_pos (len p _) = p
node_pos (spawn p _) = p
node_pos (qualified_call p _ _ _) = p
node_pos (qualified_const_ref p _ _) = p
node_pos (unary p _ _) = p
node_pos (binary p _ _ _) = p
