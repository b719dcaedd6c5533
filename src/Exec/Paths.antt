-- ===== src/Exec/Paths.antt =====
-- Reading back what a chained assignment of internal/interpreter/interpreter.go wrote.
use jennifer.Exec.Stored.{write_indexed-Stored, recorded_element}
use jennifer.IntFast.{values_at}
use jennifer.Eval.{RuntimeError, Evaluated}
use jennifer.Ast.{DeclType, Pos}
use jennifer.Eval.Expr.{index_value}
use jennifer.Exec.Update.{
  put_element, set_value, stamped_element, write_path, write_indexed, step_into,
}
use jennifer.Value.{bytes, nil, cons, int, list, Values, Value}
use jennifer.Common.{
  sym, ◌∙◌, Option-cases, [], ap, arith, inl, inr, ◌∷◌, List, Option, some, ok, err, ℕ, zero, suc,
  ◌≡◌, refl, ℤ, pos, ◌>>=◌, bind-ok,
}

-- The elements that the indices of a chain `[i][j]` read.
abbrev pub read_path : Value → List (Pos × Value) → Pos × Value → Evaluated
read_path w [] (p, i) = index_value w i p
read_path w ((q, j) ∷ steps) last = index_value w j q >>= λ inner. read_path inner steps last

-- The container that the last index of a chain stands in.
abbrev pub container_at : Value → List (Pos × Value) → Evaluated
container_at w [] = ok w
container_at w ((q, j) ∷ steps) = index_value w j q >>= λ inner. container_at inner steps

values_at-set_value_self :
    (vs : Values) (k : ℕ) (u v : Value)
    → values_at vs k ≡ some u
    → values_at (set_value vs k v) k ≡ some v
values_at-set_value_self nil k u v h = cc
values_at-set_value_self (cons w vs) zero u v h = refl
values_at-set_value_self (cons w vs) (suc k) u v h = values_at-set_value_self vs k u v h

-- A step enters an element of a list.
pub record Entered (w j : Value) (k : ℕ) (inner : Value) : Type 0 where
  pub element : Option DeclType
  pub elements : Values
  pub container : w ≡ list element elements
  pub position : j ≡ int (pos k)
  pub found : values_at elements k ≡ some inner

pub step_into-Entered :
    (w j : Value) (q : Pos) (k : ℕ) (inner : Value)
    → step_into w j q ≡ ok (k, inner)
    → Entered w j k inner
unfolding step_into
step_into-Entered (list t vs) (int (pos i)) q k inner h = elim (Option-cases (values_at vs i)) [
  | inl e ↦ ground arith
  | inr (v, e) ↦
      let a : i ≡ k = ground arith in
      let b : v ≡ inner = ground arith in
      record {
        element = t;
        elements = vs;
        container = refl;
        position = ap (λ n. int (pos n)) a;
        found = cc;
      }
]
step_into-Entered w j q k inner h = cc

pub fails : {e : RuntimeError} {w : Value} → err e ≡ ok w → ⊥
fails h = cc

only_int : (w w' i v : Value) (p : Pos) → write_indexed w i v p ≡ ok w' → (n : ℤ) × (i ≡ int n)
unfolding write_indexed
only_int w w' (int n) v p h = (n, refl)
only_int (list t vs) w' i v p h = absurd (fails h)
only_int (bytes s) w' i v p h = absurd (fails h)
only_int w w' i v p h = absurd (fails h)

index_value-written :
    (w w' i v : Value) (p : Pos)
    → write_indexed w i v p ≡ ok w'
    → index_value w' i p ≡ ok (stamped_element (recorded_element w) v)
index_value-written w w' i v p h =
    let (n, e) = only_int w w' i v p h in
    let r = write_indexed-Stored w w' v n p p (sym (ap (λ z. write_indexed w z v p) e) ∙ h) in
    ap (λ z. index_value w' z p) e ∙ r.here

index_value-Entered :
    (w j : Value) (q : Pos) (k : ℕ) (inner : Value)
    → Entered w j k inner
    → index_value w j q ≡ ok inner
unfolding index_value
index_value-Entered w j q k inner e = rw (e.container, e.position, e.found) refl

index_value-put_element :
    (w j : Value) (q : Pos) (k : ℕ) (inner new : Value)
    → Entered w j k inner
    → index_value (put_element k new w) j q ≡ ok new
unfolding index_value
index_value-put_element w j q k inner new e =
    rw (e.container, e.position, values_at-set_value_self e.elements k inner new e.found) refl

-- A chained assignment that is not refused can be read back: the indices before the last one led to a
-- container, and the same chain of indices then gives the value, stamped with the element type that
-- this container records, where it is a list that records one.
pub read_path-write_path :
    (w w' : Value) (steps : List (Pos × Value)) (last : Pos × Value) (v : Value)
    → write_path w steps last v ≡ ok w'
    → (c : Value) × (container_at w steps ≡ ok c)
      × (read_path w' steps last ≡ ok (stamped_element (recorded_element c) v))
unfolding write_path
read_path-write_path w w' [] (p, i) v h = (w, refl, index_value-written w w' i v p h)
read_path-write_path w w' ((q, j) ∷ steps) last v h =
    let ((k, inner), e, f) = bind-ok (step_into w j q) _ {b = w'} h in
    let (new, g, d) = bind-ok (write_path inner steps last v) _ {b = w'} f in
    let r : w' ≡ put_element k new w = cc in
    let n = step_into-Entered w j q k inner e in
    let (c, b, a) = read_path-write_path inner new steps last v g in
    (
      c,
      rw (index_value-Entered w j q k inner n) b,
      rw (r, index_value-put_element w j q k inner new n) a,
    )
