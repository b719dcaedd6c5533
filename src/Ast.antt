-- ===== src/Ast.antt =====
-- internal/parser/ast.go: operators, literals and the expressions that constant folding and the
-- integer fast path look at.
use jennifer.Common.{ℕ, ℤ, Bool, true, false, ◌||◌, List, Option}

pub data BinaryOp : Type 0 where
  op_add op_sub op_mul op_div op_floor_div op_mod : BinaryOp
  op_lt op_gt op_le op_ge op_eq op_neq : BinaryOp
  op_and op_or : BinaryOp
  op_bit_or op_bit_xor op_bit_and op_shl op_shr : BinaryOp

unfoldable pub is_comparison : BinaryOp → Bool
is_comparison op_lt = true
is_comparison op_gt = true
is_comparison op_le = true
is_comparison op_ge = true
is_comparison op_eq = true
is_comparison op_neq = true
is_comparison _ = false

abbrev is_and : BinaryOp → Bool
is_and op_and = true
is_and _ = false

abbrev pub is_or : BinaryOp → Bool
is_or op_or = true
is_or _ = false

unfoldable pub is_logical : BinaryOp → Bool
is_logical o = is_and o || is_or o

-- The identity of a struct or enum type: StructNS, StructName and ModPath.
pub record TypeName : Type 0 where
  pub ns : List ℕ
  pub name : List ℕ
  pub mod_path : List ℕ

-- `Type`: the constructors `_any` have a nil Element, KeyType or ValType. The interpreter's
-- annotation Resolved, which `Equal` ignores, is left out.
pub data DeclType : Type 0 where
  type_invalid type_int type_float type_string type_bool type_null type_bytes type_func : DeclType
  type_list : DeclType → DeclType
  type_map : DeclType → DeclType → DeclType
  type_task : DeclType → DeclType
  type_channel : DeclType → DeclType
  type_list_any type_map_any type_task_any type_channel_any : DeclType
  type_struct : TypeName → DeclType

pub data UnaryOp : Type 0 where
  op_neg op_not op_bit_not : UnaryOp

pub record Pos : Type 0 where
  pub file : List ℕ
  pub line : ℕ
  pub col : ℕ

-- A float64 is its bit pattern; a string is its bytes.
pub data Lit : Type 0 where
  int_lit : ℤ → Lit
  float_lit : ℕ → Lit
  string_lit : List ℕ → Lit
  bool_lit : Bool → Lit
  null_lit : Lit

-- `folded` is the field `Folded`: the folder stamps a literal at the node's own position, or nil.
pub data Expr : Type 0 where
  lit : Pos → Lit → Expr
  var : Pos → List ℕ → ℤ → ℤ → Expr
  index : Pos → Expr → Expr → Expr
  unary : Pos → UnaryOp → Expr → Option Lit → Expr
  binary : Pos → BinaryOp → Expr → Expr → Option Lit → Expr
