-- ===== src/Value/Types.antt =====
-- `Equal` of declared types (internal/parser/ast.go) and `MatchesDeclared`
-- (internal/interpreter/value.go).
use jennifer.Common.{Bool, true, false, some, none, ◌&&◌}
use jennifer.Ast.{
  DeclType, type_invalid, type_int, type_float, type_string, type_bool, type_null, type_bytes,
  type_func, type_list, type_map, type_task, type_channel, type_list_any, type_map_any,
  type_task_any, type_channel_any, type_struct,
}
use jennifer.Value.{
  Value, Values, nil, cons, null, int, float, string, bool, bytes, list, struct, enum, type_eq,
}
use jennifer.Env.{Typing}

unfoldable pub equal_types : DeclType → DeclType → Bool
equal_types type_invalid type_invalid = true
equal_types type_int type_int = true
equal_types type_float type_float = true
equal_types type_string type_string = true
equal_types type_bool type_bool = true
equal_types type_null type_null = true
equal_types type_bytes type_bytes = true
equal_types type_func type_func = true
equal_types (type_list s) (type_list t) = equal_types s t
equal_types type_list_any type_list_any = true
equal_types (type_map k s) (type_map l t) = equal_types k l && equal_types s t
equal_types type_map_any type_map_any = true
equal_types (type_task s) (type_task t) = equal_types s t
equal_types type_task_any type_task_any = true
equal_types (type_channel s) (type_channel t) = equal_types s t
equal_types type_channel_any type_channel_any = true
equal_types (type_struct s) (type_struct t) = type_eq s t
equal_types _ _ = false

-- A list with no recorded element type is checked element by element.
unfoldable mutual
  pub matches_declared : DeclType → Value → Bool
  matches_declared type_int (int n) = true
  matches_declared type_float (float f) = true
  matches_declared type_string (string s) = true
  matches_declared type_bool (bool b) = true
  matches_declared type_null null = true
  matches_declared type_bytes (bytes s) = true
  matches_declared (type_struct t) (struct s fs) = type_eq s t
  matches_declared (type_struct t) (enum s v fs) = type_eq s t
  matches_declared type_list_any (list s vs) = true
  matches_declared (type_list t) (list (some s) vs) = equal_types t s
  matches_declared (type_list t) (list none vs) = all_match t vs
  matches_declared _ _ = false

  pub all_match : DeclType → Values → Bool
  all_match t nil = true
  all_match t (cons v vs) = matches_declared t v && all_match t vs

-- The zero `Value` and `Type` of Go.
abbrev pub runtime_typing : Typing Value DeclType
runtime_typing = record {
  zero_value = null;
  zero_type = type_invalid;
  matches_declared = λ v t. matches_declared t v;
}
