-- ===== src/Exec/Stored.antt =====
-- Reading after a write into a container of internal/interpreter/interpreter.go.
use jennifer.Eval.{fail, RuntimeError, ErrorKind}
use jennifer.IntFast.{values_at}
use jennifer.Ast.{DeclType, Pos}
use jennifer.Exec.Update.{fits_element, write_byte, stamped_element, set_value, write_indexed}
use jennifer.Eval.Expr.{length_values, index_value}
use jennifer.Value.{nil, cons, list, bytes, int, Values, Value}
use jennifer.Common.{
  Result, if◌then◌else◌, [], ap, arith, get_elem?, get_elem?-set_ne, length, length-set, ltb, set,
  ◌∷◌, List, Option, none, some, ok, ℕ, zero, suc, ◌≡◌, refl, Bool, true, false, not, ◌≢◌, ℤ, pos,
  negsuc,
}

length_values-set_value :
    (vs : Values) (i : ℕ) (v : Value) → length_values (set_value vs i v) ≡ length_values vs
length_values-set_value nil i v = refl
length_values-set_value (cons w vs) zero v = refl
length_values-set_value (cons w vs) (suc i) v = ap suc (length_values-set_value vs i v)

values_at-set_value :
    (vs : Values) (i : ℕ) (v : Value)
    → ltb i (length_values vs) ≡ true
    → values_at (set_value vs i v) i ≡ some v
values_at-set_value nil i v h = ground arith
values_at-set_value (cons w vs) zero v h = refl
values_at-set_value (cons w vs) (suc i) v h = values_at-set_value vs i v (ground arith)

values_at-set_value_ne :
    (vs : Values) (i j : ℕ) (v : Value) → i ≢ j → values_at (set_value vs i v) j ≡ values_at vs j
values_at-set_value_ne nil i j v n = refl
values_at-set_value_ne (cons w vs) zero zero v n = absurd (n refl)
values_at-set_value_ne (cons w vs) zero (suc j) v n = refl
values_at-set_value_ne (cons w vs) (suc i) zero v n = refl
values_at-set_value_ne (cons w vs) (suc i) (suc j) v n =
    values_at-set_value_ne vs i j v (λ e. n (ap suc e))

get_elem?-here :
    (s : List ℕ) (i : ℕ) (n : ℕ) → ltb i (length s) ≡ true → get_elem? (set s i n) i ≡ some n
get_elem?-here [] i n h = ground arith
get_elem?-here (c ∷ s) zero n h = refl
get_elem?-here (c ∷ s) (suc i) n h = get_elem?-here s i n (ground arith)

-- The element type that a list records.
abbrev pub recorded_element : Value → Option DeclType
recorded_element (list t vs) = t
recorded_element w = none

-- What a write into `w` leaves at its index and at the others.
pub record Stored (w w' v : Value) (i : ℤ) (p : Pos) : Type 0 where
  pub here : index_value w' (int i) p ≡ ok (stamped_element (recorded_element w) v)
  pub elsewhere : (j : ℤ) → i ≢ j → index_value w' (int j) p ≡ index_value w (int j) p

list-Stored :
    (t : Option DeclType) (vs : Values) (i : ℕ) (v : Value) (p : Pos)
    → ltb i (length_values vs) ≡ true
    → Stored (list t vs) (list t (set_value vs i (stamped_element t v))) v (pos i) p
unfolding index_value
list-Stored t vs i v p h = record {
  here = rw (values_at-set_value vs i (stamped_element t v) h) refl;
  elsewhere = λ j n. list-elsewhere j n;
}
  where
    list-elsewhere :
        (j : ℤ)
        → pos i ≢ j
        → index_value (list t (set_value vs i (stamped_element t v))) (int j) p
          ≡ index_value (list t vs) (int j) p
    list-elsewhere (pos j) n =
        rw
          (
            values_at-set_value_ne vs i j (stamped_element t v) (λ e. n (ap pos e)),
            length_values-set_value vs i (stamped_element t v),
          )
          refl
    list-elsewhere (negsuc j) n = rw (length_values-set_value vs i (stamped_element t v)) refl

bytes-Stored :
    (s : List ℕ) (i n : ℕ) (p : Pos)
    → ltb i (length s) ≡ true
    → Stored (bytes s) (bytes (set s i n)) (int (pos n)) (pos i) p
unfolding index_value
bytes-Stored s i n p h = record {
  here = rw (get_elem?-here s i n h) refl;
  elsewhere = λ j m. bytes-elsewhere j m;
}
  where
    bytes-elsewhere :
        (j : ℤ)
        → pos i ≢ j
        → index_value (bytes (set s i n)) (int j) p ≡ index_value (bytes s) (int j) p
    bytes-elsewhere (pos j) m =
        rw (get_elem?-set_ne s i j n (λ e. m (ap pos e)), length-set s i n) refl
    bytes-elsewhere (negsuc j) m = rw (length-set s i n) refl

-- A test that did not fail.
pub passed :
    {A : Type 0} (b : Bool) (k : ErrorKind) (p : Pos) (m : Result RuntimeError A) {a : A}
    → (if b then fail k p else m) ≡ ok a
    → (b ≡ false) × (m ≡ ok a)
passed true k p m h = cc
passed false k p m h = (refl, h)

pub un_not : (b : Bool) → not b ≡ false → b ≡ true
un_not true h = refl
un_not false h = cc

write_byte-Stored :
    (s : List ℕ) (i : ℕ) (w' v : Value) (p q : Pos)
    → ltb i (length s) ≡ true
    → write_byte s i v p ≡ ok w'
    → Stored (bytes s) w' v (pos i) q
write_byte-Stored s i w' (int (pos n)) p q e h =
    let (_, k) = passed (ltb 255 n) _ p (ok (bytes (set s i n))) {a = w'} h in
    let r : w' ≡ bytes (set s i n) = cc in rw r (bytes-Stored s i n q e)
write_byte-Stored s i w' (int (negsuc n)) p q e h = cc
write_byte-Stored s i w' v p q e h = cc

-- A write through an index that is not refused stores the value, with the element type that the
-- written list records, where it records one, stamped onto it: the index reads as that, and every
-- other index as before.
pub write_indexed-Stored :
    (w w' v : Value) (i : ℤ) (p q : Pos) → write_indexed w (int i) v p ≡ ok w' → Stored w w' v i q
unfolding write_indexed
write_indexed-Stored (list t vs) w' v (pos i) p q h =
    let (e, k) = passed (not (ltb i (length_values vs))) _ p _ {a = w'} h in
    let (_, j) = passed (not (fits_element t v)) _ p _ {a = w'} k in
    let r : w' ≡ list t (set_value vs i (stamped_element t v)) = cc in
    rw r (list-Stored t vs i v q (un_not _ e))
write_indexed-Stored (bytes s) w' v (pos i) p q h =
    let (e, k) = passed (not (ltb i (length s))) _ p _ {a = w'} h in
    write_byte-Stored s i w' v p q (un_not _ e) k
write_indexed-Stored w w' v i p q h = cc
