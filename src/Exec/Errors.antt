-- ===== src/Exec/Errors.antt =====
-- The struct `Error` of internal/interpreter/interpreter.go: the location of a thrown one, and the
-- one that stands for a runtime error.
use jennifer.Eval.{call_too_deep, RuntimeError, ErrorKind}
use jennifer.Value.{end, field, struct, int, string, Fields, Value}
use jennifer.Ast.{type_invalid, type_struct, DeclType, Pos, TypeName}
use jennifer.Common.{
  Option, [], eqb_ℤ, if◌then◌else◌, ◌&&◌, List, Bool, false, none, some, codes, text_eq, pos, ℤ, ℕ,
}

abbrev error_text : List ℕ
error_text = codes "Error"

abbrev pub error_name : TypeName
error_name = record { ns = []; name = error_text; mod_path = [] }

-- The last field of a name, and that field overwritten.
unfoldable pub last_field : List ℕ → Fields → Option Value
last_field name end = none
last_field name (field n v fs) = elim (last_field name fs) [
  | some w ↦ some w
  | none ↦ if text_eq n name then some v else none
]

unfoldable pub set_field : List ℕ → Value → Fields → Fields
unfolding last_field
set_field name v end = end
set_field name v (field n w fs) =
    let rest = set_field name v fs in
    elim (last_field name fs) [
      | some u ↦ field n w rest
      | none ↦ if text_eq n name then field n v fs else field n w fs
    ]

-- The Go fields Str and Int of a value.
abbrev str_of : Value → List ℕ
str_of (string s) = s
str_of v = []

abbrev int_of : Value → ℤ
int_of (int n) = n
int_of v = pos 0

abbrev no_location : Option Value → Option Value → Option Value → Bool
no_location (some f) (some l) (some c) =
    text_eq (str_of f) [] && eqb_ℤ (int_of l) (pos 0) && eqb_ℤ (int_of c) (pos 0)
no_location _ _ _ = false

abbrev has_no_location : Fields → Bool
has_no_location fs =
    no_location (last_field (codes "file") fs) (last_field (codes "line") fs)
      (last_field (codes "col") fs)

abbrev located : Pos → Fields → Fields
located p fs =
    set_field (codes "col") (int (pos p.col))
      (set_field (codes "line") (int (pos p.line)) (set_field (codes "file") (string p.file) fs))

unfoldable pub stamp_throw_site : Value → Pos → Value
unfolding last_field set_field
stamp_throw_site (struct t fs) p =
    if text_eq t.ns [] && text_eq t.name error_text && has_no_location fs
    then struct t (located p fs)
    else struct t fs
stamp_throw_site v p = v

abbrev kind_text : ErrorKind → List ℕ
kind_text call_too_deep = codes "limit"
kind_text _ = codes "runtime"

abbrev message_fields : Pos → Fields
message_fields p =
    field (codes "file") (string p.file)
      (field (codes "line") (int (pos p.line)) (field (codes "col") (int (pos p.col)) end))

-- `message` is the text of an error's kind.
unfoldable pub runtime_error_value : (ErrorKind → List ℕ) → RuntimeError → Value
runtime_error_value message e = struct error_name (
    field (codes "kind") (string (kind_text e.kind))
      (field (codes "message") (string (message e.kind)) (message_fields e.at)))

-- The declared type of a catch variable.
unfoldable pub caught_type : Value → DeclType
caught_type (struct t fs) =
    if text_eq t.name error_text then type_struct error_name else type_invalid
caught_type v = type_invalid
