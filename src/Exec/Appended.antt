-- ===== src/Exec/Appended.antt =====
-- Reading after an append of internal/interpreter/interpreter.go.
use jennifer.Exec.Paths.{fails}
use jennifer.Exec.Stored.{passed, recorded_element}
use jennifer.IntFast.{values_at}
use jennifer.Ast.{DeclType, Pos}
use jennifer.Exec.Update.{fits_element, stamped_element, append_byte, append_value, append_into}
use jennifer.Eval.Expr.{length_values, index_value}
use jennifer.Value.{nil, cons, bytes, int, Values, list, Value}
use jennifer.Common.{
  [], length-append, ltb, not, ◌∷◌, List, Option, some, ok, ℕ, zero, suc, ◌≡◌, refl, pos, negsuc,
  length, get_elem?, ◌++◌, ◌+◌, ◌<◌, arith,
}

abbrev pub size_of : Value → ℕ
size_of (list t vs) = length_values vs
size_of (bytes s) = length s
size_of w = 0

length_values-append_value :
    (vs : Values) (v : Value) → length_values (append_value vs v) ≡ length_values vs + 1
length_values-append_value nil v = refl
length_values-append_value (cons w vs) v = omega (arith, length_values-append_value vs v)

values_at-append_value :
    (vs : Values) (v : Value) → values_at (append_value vs v) (length_values vs) ≡ some v
values_at-append_value nil v = refl
values_at-append_value (cons w vs) v = values_at-append_value vs v

-- At an index below the length there is a value, which an append leaves there.
values_at-append_value_below :
    (vs : Values) (v : Value) (j : ℕ)
    → j < length_values vs
    → (u : Value) × (values_at vs j ≡ some u) × (values_at (append_value vs v) j ≡ some u)
values_at-append_value_below nil v j h = absurd (omega arith)
values_at-append_value_below (cons w vs) v zero h = (w, refl, refl)
values_at-append_value_below (cons w vs) v (suc j) h =
    values_at-append_value_below vs v j (omega arith)

get_elem?-append : (s : List ℕ) (n : ℕ) → get_elem? (s ++ (n ∷ [])) (length s) ≡ some n
get_elem?-append [] n = refl
get_elem?-append (c ∷ s) n = get_elem?-append s n

get_elem?-append_below :
    (s : List ℕ) (n j : ℕ)
    → j < length s
    → (c : ℕ) × (get_elem? s j ≡ some c) × (get_elem? (s ++ (n ∷ [])) j ≡ some c)
get_elem?-append_below [] n j h = absurd (omega arith)
get_elem?-append_below (c ∷ s) n zero h = (c, refl, refl)
get_elem?-append_below (c ∷ s) n (suc j) h = get_elem?-append_below s n j (omega arith)

-- One more element, after those that there were.
pub record Appended (w w' v : Value) (p : Pos) : Type 0 where
  pub size : size_of w' ≡ size_of w + 1
  pub last : index_value w' (int (pos (size_of w))) p ≡ ok (stamped_element (recorded_element w) v)
  pub before :
      (j : ℕ) → j < size_of w → index_value w' (int (pos j)) p ≡ index_value w (int (pos j)) p

list-Appended :
    (t : Option DeclType) (vs : Values) (v : Value) (p : Pos)
    → Appended (list t vs) (list t (append_value vs (stamped_element t v))) v p
unfolding index_value
list-Appended t vs v p = record {
  size = length_values-append_value vs (stamped_element t v);
  last = rw (values_at-append_value vs (stamped_element t v)) refl;
  before = λ j h.
      let (u, a, b) = values_at-append_value_below vs (stamped_element t v) j h in rw (a, b) refl;
}

bytes-Appended :
    (s : List ℕ) (n : ℕ) (p : Pos) → Appended (bytes s) (bytes (s ++ (n ∷ []))) (int (pos n)) p
unfolding index_value
bytes-Appended s n p = record {
  size = length-append s (n ∷ []);
  last = rw (get_elem?-append s n) refl;
  before = λ j h. let (c, a, b) = get_elem?-append_below s n j h in rw (a, b) refl;
}

append_byte-Appended :
    (s : List ℕ) (w' v : Value) (p q : Pos) → append_byte s v p ≡ ok w' → Appended (bytes s) w' v q
append_byte-Appended s w' (int (pos n)) p q h =
    let (_, k) = passed (ltb 255 n) _ p (ok (bytes (s ++ (n ∷ [])))) {a = w'} h in
    let r : w' ≡ bytes (s ++ (n ∷ [])) = cc in rw r (bytes-Appended s n q)
append_byte-Appended s w' (int (negsuc n)) p q h = absurd (fails h)
append_byte-Appended s w' v p q h = absurd (fails h)

-- An append to a list or to bytes that is not refused adds one element: the value, with the element
-- type that the list records, where it records one, stamped onto it. Every index before it reads as
-- it did.
pub append_into-Appended :
    (w w' v : Value) (p q : Pos) → append_into w v p ≡ ok w' → Appended w w' v q
unfolding append_into
append_into-Appended (list t vs) w' v p q h =
    let (_, j) = passed (not (fits_element t v)) _ p _ {a = w'} h in
    let r : w' ≡ list t (append_value vs (stamped_element t v)) = cc in
    rw r (list-Appended t vs v q)
append_into-Appended (bytes s) w' v p q h = append_byte-Appended s w' v p q h
append_into-Appended w w' v p q h = absurd (fails h)
