-- ===== src/Exec/Update.antt =====
-- `stampDeclaredType` and `writeIndexedSlot` of internal/interpreter/interpreter.go, on values
-- without maps and handles.
use jennifer.Common.{
  ◌++◌, Bool, false, true, none, some, ok, pos, negsuc, ℕ, if◌then◌else◌, ltb, zero, suc, Option,
  List, Result, set, length, not, ◌∷◌, [], ◌>>=◌,
}
use jennifer.Ast.{DeclType, type_list, type_map, type_list_any, type_map_any, Pos}
use jennifer.Value.{Value, Values, nil, cons, list, bytes, int, kind_of, kind_list, kind_bytes}
use jennifer.Value.Types.{matches_declared}
use jennifer.Eval.{
  append_element, append_mismatch, RuntimeError, fail, index_not_int, index_out_of_bounds,
  element_mismatch, element_not_int, element_out_of_range, cannot_index_assign, cannot_index,
}
use jennifer.Eval.Expr.{length_values}
use jennifer.IntFast.{values_at}

abbrev pub is_container : DeclType → Bool
is_container (type_list t) = true
is_container (type_map k v) = true
is_container type_list_any = true
is_container type_map_any = true
is_container _ = false

abbrev pub map_values : (Value → Value) → Values → Values
map_values f nil = nil
map_values f (cons v vs) = cons (f v) (map_values f vs)

-- A list takes the declared element type; its elements are stamped where they may be containers.
unfoldable pub stamp : DeclType → Value → Value
stamp (type_list t) (list s vs) =
    let inner = map_values (stamp t) vs in list (some t) (if is_container t then inner else vs)
stamp type_list_any (list s vs) = list none vs
stamp t v = v

abbrev pub set_value : Values → ℕ → Value → Values
set_value nil i v = nil
set_value (cons w vs) zero v = cons v vs
set_value (cons w vs) (suc i) v = cons w (set_value vs i v)

-- The test and the stamp of a list's recorded element type.
abbrev pub fits_element : Option DeclType → Value → Bool
fits_element none v = true
fits_element (some t) v = matches_declared t v

abbrev pub stamped_element : Option DeclType → Value → Value
stamped_element none v = v
stamped_element (some t) v = stamp t v

abbrev element_type : Option DeclType → DeclType
element_type none = type_list_any
element_type (some t) = t

abbrev pub write_byte : List ℕ → ℕ → Value → Pos → Result RuntimeError Value
write_byte s i (int (pos n)) p =
    if ltb 255 n then fail (element_out_of_range (pos n)) p else ok (bytes (set s i n))
write_byte s i (int (negsuc n)) p = fail (element_out_of_range (negsuc n)) p
write_byte s i v p = fail (element_not_int (kind_of v)) p

-- The container with one element or byte replaced.
unfoldable pub write_indexed : Value → Value → Value → Pos → Result RuntimeError Value
unfolding kind_of matches_declared stamp
write_indexed (list t vs) (int (pos i)) v p =
    if not (ltb i (length_values vs))
    then fail (index_out_of_bounds kind_list (pos i) (length_values vs)) p
    else if not (fits_element t v)
    then fail (element_mismatch (kind_of v) (element_type t)) p
    else ok (list t (set_value vs i (stamped_element t v)))
write_indexed (list t vs) (int (negsuc i)) v p =
    fail (index_out_of_bounds kind_list (negsuc i) (length_values vs)) p
write_indexed (list t vs) i v p = fail (index_not_int kind_list (kind_of i)) p
write_indexed (bytes s) (int (pos i)) v p =
    if not (ltb i (length s))
    then fail (index_out_of_bounds kind_bytes (pos i) (length s)) p
    else write_byte s i v p
write_indexed (bytes s) (int (negsuc i)) v p =
    fail (index_out_of_bounds kind_bytes (negsuc i) (length s)) p
write_indexed (bytes s) i v p = fail (index_not_int kind_bytes (kind_of i)) p
write_indexed w i v p = fail (cannot_index_assign (kind_of w)) p

-- `indexInto` on the way to the written place: an element of a list.
unfoldable pub step_into : Value → Value → Pos → Result RuntimeError (ℕ × Value)
unfolding kind_of
step_into (list t vs) (int (pos i)) p = elim (values_at vs i) [
  | some v ↦ ok (i, v)
  | none ↦ fail (index_out_of_bounds kind_list (pos i) (length_values vs)) p
]
step_into (list t vs) (int (negsuc i)) p =
    fail (index_out_of_bounds kind_list (negsuc i) (length_values vs)) p
step_into (list t vs) i p = fail (index_not_int kind_list (kind_of i)) p
step_into w i p = fail (cannot_index (kind_of w)) p

abbrev pub put_element : ℕ → Value → Value → Value
put_element i v (list t vs) = list t (set_value vs i v)
put_element i v w = w

-- `applyLvalueWrite`: the steps to the container that is written, the first first, and the last.
unfoldable pub write_path :
    Value → List (Pos × Value) → Pos × Value → Value → Result RuntimeError Value
unfolding step_into write_indexed
write_path w [] (p, i) v = write_indexed w i v p
write_path w ((q, j) ∷ steps) last v = step_into w j q >>= λ (k, inner).
    write_path inner steps last v >>= λ inner'. ok (put_element k inner' w)

abbrev pub append_value : Values → Value → Values
append_value nil v = cons v nil
append_value (cons w vs) v = cons w (append_value vs v)

abbrev pub append_byte : List ℕ → Value → Pos → Result RuntimeError Value
append_byte s (int (pos n)) p =
    if ltb 255 n then fail (element_out_of_range (pos n)) p else ok (bytes (s ++ (n ∷ [])))
append_byte s (int (negsuc n)) p = fail (element_out_of_range (negsuc n)) p
append_byte s v p = fail (element_not_int (kind_of v)) p

unfoldable pub append_into : Value → Value → Pos → Result RuntimeError Value
unfolding kind_of matches_declared stamp
append_into (bytes s) v p = append_byte s v p
append_into (list t vs) v p =
    if not (fits_element t v)
    then fail (append_mismatch (kind_of v) (element_type t)) p
    else ok (list t (append_value vs (stamped_element t v)))
append_into w v p = fail (append_element (kind_of w)) p

-- An append at the end of a chain of steps.
unfoldable pub append_path : Value → List (Pos × Value) → Value → Pos → Result RuntimeError Value
unfolding step_into append_into
append_path w [] v p = append_into w v p
append_path w ((q, j) ∷ steps) v p = step_into w j q >>= λ (k, inner).
    append_path inner steps v p >>= λ inner'. ok (put_element k inner' w)
