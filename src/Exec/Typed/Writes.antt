-- ===== src/Exec/Typed/Writes.antt =====
-- Writes into lists of internal/interpreter/interpreter.go, and their recorded element types.
use jennifer.Exec.Update.{step_into, put_element, write_path}
use jennifer.Exec.Paths.{step_into-Entered, Entered}
use jennifer.IntFast.{values_at}
use jennifer.Ast.{type_list, Pos, DeclType}
use jennifer.Value.Types.{matches_declared}
use jennifer.Value.{nil, Value}
use jennifer.Exec.Typed.{
  all_recorded, AreTyped, recorded, IsTyped, AreAll, stamp-recorded, stamp-IsTyped,
}
use jennifer.Exec.Flows.{both}
use jennifer.Exec.Stored.{passed, un_not}
use jennifer.Exec.Paths.{fails}
use jennifer.Eval.Expr.{length_values}
use jennifer.Exec.Update.{write_indexed, write_byte, set_value, stamp}
use jennifer.Value.{int, bytes, cons, list, Values}
use mathlib.Core.Path.{subst}
use jennifer.Common.{
  length, not, ◌∷◌, [], Option, ltb, set, List, none, some, ok, ℕ, zero, suc, ◌≡◌, refl, true, pos,
  negsuc, bind-ok,
}

set_value-AreAll :
    (t : DeclType) (vs : Values) (i : ℕ) (v : Value)
    → recorded t v ≡ true
    → IsTyped v
    → AreAll t vs
    → AreAll t (set_value vs i v)
unfolding AreAll IsTyped
set_value-AreAll t nil i v m h k = k
set_value-AreAll t (cons w vs) zero v m h (a, (b, c)) =
    let (d, e) = both {b = all_recorded t vs} a in (rw (m, e) refl, (h, c))
set_value-AreAll t (cons w vs) (suc i) v m h (a, (b, c)) =
    let (d, e) = both {a = recorded t w} a in
    let (f, g) = set_value-AreAll t vs i v m h (e, c) in (rw (d, f) refl, (b, g))

set_value-AreTyped :
    (vs : Values) (i : ℕ) (v : Value) → IsTyped v → AreTyped vs → AreTyped (set_value vs i v)
unfolding IsTyped
set_value-AreTyped nil i v h k = k
set_value-AreTyped (cons w vs) zero v h (b, c) = (h, c)
set_value-AreTyped (cons w vs) (suc i) v h (b, c) = (b, set_value-AreTyped vs i v h c)

-- Typed, and of each type that it was of with its element type recorded.
pub record StillTyped (w w' : Value) : Type 0 where
  pub typed : IsTyped w'
  pub keeps : (t : DeclType) → recorded t w ≡ true → recorded t w' ≡ true

list-recorded :
    (t : DeclType) (s : Option DeclType) (us vs : Values)
    → recorded t (list s us) ≡ true
    → recorded t (list s vs) ≡ true
unfolding matches_declared
list-recorded (type_list t) (some s) us vs h = h
list-recorded (type_list t) none us vs h = h
list-recorded t s us vs h = h

abbrev FitsRecorded : Option DeclType → Value → Type 0
FitsRecorded none v = Unit
FitsRecorded (some t) v = recorded t v ≡ true

set_value-StillTyped :
    (t : Option DeclType) (vs : Values) (i : ℕ) (v : Value)
    → FitsRecorded t v
    → IsTyped v
    → IsTyped (list t vs)
    → StillTyped (list t vs) (list t (set_value vs i v))
unfolding IsTyped AreAll
set_value-StillTyped (some t) vs i v m h k = record {
  typed = set_value-AreAll t vs i v m h k;
  keeps = λ u e. list-recorded u (some t) vs (set_value vs i v) e;
}
set_value-StillTyped none vs i v m h k = record {
  typed = set_value-AreTyped vs i v h k;
  keeps = λ u e. list-recorded u none vs (set_value vs i v) e;
}

bytes-StillTyped :
    (s : List ℕ) (i : ℕ) (w' v : Value) (p : Pos)
    → write_byte s i v p ≡ ok w'
    → StillTyped (bytes s) w'
unfolding IsTyped matches_declared
bytes-StillTyped s i w' (int (pos n)) p h =
    let (_, k) = passed (ltb 255 n) _ p (ok (bytes (set s i n))) {a = w'} h in
    let r : w' ≡ bytes (set s i n) = cc in
    rw r (record { typed = tt; keeps = λ t e. bytes-recorded t e })
  where
    bytes-recorded :
        (t : DeclType) → recorded t (bytes s) ≡ true → recorded t (bytes (set s i n)) ≡ true
    bytes-recorded (type_list t) e = e
    bytes-recorded t e = e
bytes-StillTyped s i w' (int (negsuc n)) p h = absurd (fails h)
bytes-StillTyped s i w' v p h = absurd (fails h)

write_indexed-StillTyped :
    (w w' i v : Value) (p : Pos)
    → write_indexed w i v p ≡ ok w'
    → IsTyped w
    → IsTyped v
    → StillTyped w w'
unfolding write_indexed
write_indexed-StillTyped (list (some t) vs) w' (int (pos i)) v p h k m =
    let (_, j) = passed (not (ltb i (length_values vs))) _ p _ {a = w'} h in
    let (e, _) = passed (not (matches_declared t v)) _ p _ {a = w'} j in
    let r : w' ≡ list (some t) (set_value vs i (stamp t v)) = cc in
    let f = un_not (matches_declared t v) e in
    rw r (
      set_value-StillTyped (some t) vs i (stamp t v) (stamp-recorded t v f) (stamp-IsTyped t v f m)
        k)
write_indexed-StillTyped (list none vs) w' (int (pos i)) v p h k m =
    let (_, j) = passed (not (ltb i (length_values vs))) _ p _ {a = w'} h in
    let r : w' ≡ list none (set_value vs i v) = cc in rw r (set_value-StillTyped none vs i v tt m k)
write_indexed-StillTyped (list (some t) vs) w' i v p h k m = absurd (fails h)
write_indexed-StillTyped (list none vs) w' i v p h k m = absurd (fails h)
write_indexed-StillTyped (bytes s) w' (int (pos i)) v p h k m =
    let (_, j) = passed (not (ltb i (length s))) _ p _ {a = w'} h in bytes-StillTyped s i w' v p j
write_indexed-StillTyped (bytes s) w' i v p h k m = absurd (fails h)
write_indexed-StillTyped w w' i v p h k m = absurd (fails h)

values_at-AreAll :
    (t : DeclType) (vs : Values) (i : ℕ) (v : Value)
    → values_at vs i ≡ some v
    → AreAll t vs
    → (recorded t v ≡ true) × IsTyped v
unfolding AreAll IsTyped
values_at-AreAll t nil i v h k = cc
values_at-AreAll t (cons w vs) zero v h (a, (b, c)) =
    let (d, e) = both {a = recorded t w} a in let q : v ≡ w = cc in rw q (d, b)
values_at-AreAll t (cons w vs) (suc i) v h (a, (b, c)) =
    let (d, e) = both {a = recorded t w} a in values_at-AreAll t vs i v h (e, c)

values_at-AreTyped :
    (vs : Values) (i : ℕ) (v : Value) → values_at vs i ≡ some v → AreTyped vs → IsTyped v
unfolding IsTyped
values_at-AreTyped nil i v h k = cc
values_at-AreTyped (cons w vs) zero v h (b, c) = let q : v ≡ w = cc in rw q b
values_at-AreTyped (cons w vs) (suc i) v h (b, c) = values_at-AreTyped vs i v h c

element-IsTyped :
    (t : Option DeclType) (vs : Values) (i : ℕ) (v : Value)
    → values_at vs i ≡ some v
    → IsTyped (list t vs)
    → FitsRecorded t v × IsTyped v
unfolding IsTyped AreAll
element-IsTyped (some t) vs i v h k = values_at-AreAll t vs i v h k
element-IsTyped none vs i v h k = (tt, values_at-AreTyped vs i v h k)

still_fits :
    (t : Option DeclType) (v w : Value) → FitsRecorded t v → StillTyped v w → FitsRecorded t w
still_fits none v w h k = tt
still_fits (some t) v w h k = k.keeps t h

put_element-StillTyped :
    (w j : Value) (k : ℕ) (inner new : Value)
    → Entered w j k inner
    → IsTyped w
    → (IsTyped inner → StillTyped inner new)
    → StillTyped w (put_element k new w)
put_element-StillTyped w j k inner new e h f =
    let q = e.container in
    let (a, b) = element-IsTyped e.element e.elements k inner e.found (subst IsTyped q h) in
    let n = f b in
    rw q (
      set_value-StillTyped e.element e.elements k new (still_fits e.element inner new a n) n.typed
        (subst IsTyped q h))

-- A chained assignment that is not refused, where the container and the value have lists that hold
-- what their recorded element types say (lists in a list that records its type recording theirs),
-- leaves a container of such lists; and each declared type that the container matched, with its
-- element type recorded, it still matches, recorded.
pub write_path-StillTyped :
    (w w' : Value) (steps : List (Pos × Value)) (last : Pos × Value) (v : Value)
    → write_path w steps last v ≡ ok w'
    → IsTyped w
    → IsTyped v
    → StillTyped w w'
unfolding write_path
write_path-StillTyped w w' [] (p, i) v h k m = write_indexed-StillTyped w w' i v p h k m
write_path-StillTyped w w' ((q, j) ∷ steps) last v h k m =
    let ((n, inner), e, f) = bind-ok (step_into w j q) _ {b = w'} h in
    let (new, g, d) = bind-ok (write_path inner steps last v) _ {b = w'} f in
    let r : w' ≡ put_element n new w = cc in
    rw r (
      put_element-StillTyped w j n inner new (step_into-Entered w j q n inner e) k
        (λ t. write_path-StillTyped inner new steps last v g t m))
