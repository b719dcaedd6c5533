-- ===== src/Exec/Typed.antt =====
-- Values of internal/interpreter/value.go whose lists hold what their recorded element types say.
pub mod Writes
use jennifer.Exec.Paths.{fails}
use jennifer.Eval.Expr.{length_values}
use jennifer.Exec.Stored.{un_not, passed}
use jennifer.Ast.{
  Pos, type_invalid, type_int, type_float, type_string, type_bool, type_null, type_bytes, type_func,
  type_list_any, type_map_any, type_task_any, type_channel_any,
}
use jennifer.Exec.Flows.{both}
use jennifer.Exec.Update.{write_byte, write_indexed, set_value, is_container, map_values, stamp}
use jennifer.Ast.{type_struct, type_map, type_channel, type_task, type_list, DeclType, TypeName}
use jennifer.Value.Types.{all_match, matches_declared, equal_types}
use jennifer.Value.{
  bytes, int, end, nil, field, Fields, cons, Values, enum, struct, type_eq, list, Value,
}
use jennifer.Common.{
  length, ltb, not, set, if◌then◌else◌, ◌∙◌, text_eq, text_eq_sound, ap, text_eq_refl, List, none,
  some, ok, ℕ, zero, suc, ◌≡◌, refl, Bool, true, false, pos, negsuc, ◌&&◌,
}

-- Matching a declared type, with a recorded element type where that is one of lists.
abbrev pub recorded : DeclType → Value → Bool
recorded (type_list t) (list none vs) = false
recorded t v = matches_declared t v

abbrev pub all_recorded : DeclType → Values → Bool
all_recorded t nil = true
all_recorded t (cons v vs) = recorded t v && all_recorded t vs

-- Every list with a recorded element type holds only values that match it, and lists in it record
-- theirs, at every depth.
unfoldable mutual
  pub IsTyped : Value → Type 0
  IsTyped (list (some t) vs) = (all_recorded t vs ≡ true) × AreTyped vs
  IsTyped (list none vs) = AreTyped vs
  IsTyped (struct t fs) = HasTyped fs
  IsTyped (enum t v fs) = HasTyped fs
  IsTyped _ = Unit

  pub AreTyped : Values → Type 0
  AreTyped nil = Unit
  AreTyped (cons v vs) = IsTyped v × AreTyped vs

  pub HasTyped : Fields → Type 0
  HasTyped end = Unit
  HasTyped (field n v fs) = IsTyped v × HasTyped fs

pub equal_types_refl : (t : DeclType) → equal_types t t ≡ true
unfolding equal_types
equal_types_refl (type_list t) = equal_types_refl t
equal_types_refl (type_task t) = equal_types_refl t
equal_types_refl (type_channel t) = equal_types_refl t
equal_types_refl (type_map k t) = rw (equal_types_refl k, equal_types_refl t) refl
equal_types_refl (type_struct s) =
    rw (text_eq_refl s.name, text_eq_refl s.ns, text_eq_refl s.mod_path) refl
equal_types_refl t = refl

pub type_eq_sound : (s t : TypeName) → type_eq s t ≡ true → s ≡ t
type_eq_sound s t h =
    let (a, b) = both {a = text_eq s.name t.name && text_eq s.ns t.ns} h in
    let (c, d) = both {a = text_eq s.name t.name} a in
    let n : s.name ≡ t.name = text_eq_sound s.name t.name c in
    let m : s.ns ≡ t.ns = text_eq_sound s.ns t.ns d in
    let r : s.mod_path ≡ t.mod_path = text_eq_sound s.mod_path t.mod_path b in cc

pub equal_types_sound : (s t : DeclType) → equal_types s t ≡ true → s ≡ t
unfolding equal_types
equal_types_sound (type_list s) (type_list t) h = ap type_list (equal_types_sound s t h)
equal_types_sound (type_task s) (type_task t) h = ap type_task (equal_types_sound s t h)
equal_types_sound (type_channel s) (type_channel t) h = ap type_channel (equal_types_sound s t h)
equal_types_sound (type_map k s) (type_map l t) h =
    let (a, b) = both h in rw (equal_types_sound k l a, equal_types_sound s t b) refl
equal_types_sound (type_struct s) (type_struct t) h = ap type_struct (type_eq_sound s t h)
equal_types_sound type_invalid type_invalid h = refl
equal_types_sound type_int type_int h = refl
equal_types_sound type_float type_float h = refl
equal_types_sound type_string type_string h = refl
equal_types_sound type_bool type_bool h = refl
equal_types_sound type_null type_null h = refl
equal_types_sound type_bytes type_bytes h = refl
equal_types_sound type_func type_func h = refl
equal_types_sound type_list_any type_list_any h = refl
equal_types_sound type_map_any type_map_any h = refl
equal_types_sound type_task_any type_task_any h = refl
equal_types_sound type_channel_any type_channel_any h = refl
equal_types_sound s t h = cc

pub stamp-recorded :
    (t : DeclType) (v : Value) → matches_declared t v ≡ true → recorded t (stamp t v) ≡ true
unfolding stamp matches_declared
stamp-recorded (type_list t) (list s vs) h = equal_types_refl t
stamp-recorded type_list_any (list s vs) h = refl
stamp-recorded t v h = h

recorded-matches_declared :
    (t : DeclType) (v : Value) → recorded t v ≡ true → matches_declared t v ≡ true
recorded-matches_declared (type_list t) (list none vs) h = cc
recorded-matches_declared t v h = h

matches_declared-recorded :
    (t : DeclType) (v : Value)
    → is_container t ≡ false
    → matches_declared t v ≡ true
    → recorded t v ≡ true
matches_declared-recorded (type_list t) v c h = cc
matches_declared-recorded t v c h = h

all_recorded-all_match :
    (t : DeclType) (vs : Values) → all_recorded t vs ≡ true → all_match t vs ≡ true
unfolding matches_declared
all_recorded-all_match t nil h = refl
all_recorded-all_match t (cons v vs) h =
    let (a, b) = both {a = recorded t v} h in
    rw (recorded-matches_declared t v a, all_recorded-all_match t vs b) refl

all_match-all_recorded :
    (t : DeclType) (vs : Values)
    → is_container t ≡ false
    → all_match t vs ≡ true
    → all_recorded t vs ≡ true
unfolding matches_declared
all_match-all_recorded t nil c h = refl
all_match-all_recorded t (cons v vs) c h =
    let (a, b) = both {a = matches_declared t v} h in
    rw (matches_declared-recorded t v c a, all_match-all_recorded t vs c b) refl

unfoldable pub AreAll : DeclType → Values → Type 0
AreAll t vs = (all_recorded t vs ≡ true) × AreTyped vs

map_values-AreAll :
    (t : DeclType)
    → ((v : Value) → matches_declared t v ≡ true → IsTyped v → IsTyped (stamp t v))
    → (vs : Values) → all_match t vs ≡ true
    → AreTyped vs
    → AreAll t (map_values (stamp t) vs)
unfolding AreAll matches_declared IsTyped
map_values-AreAll t f nil h k = (refl, tt)
map_values-AreAll t f (cons v vs) h (k, ks) =
    let (a, b) = both {a = matches_declared t v} h in
    let (c, d) = map_values-AreAll t f vs b ks in (rw (stamp-recorded t v a, c) refl, (f v a k, d))

if-AreAll :
    (t : DeclType) (b : Bool) (us vs : Values)
    → AreAll t us
    → (b ≡ false → AreAll t vs)
    → AreAll t (if b then us else vs)
if-AreAll t true us vs h k = h
if-AreAll t false us vs h k = k refl

-- A value that matches a declared type, stamped with it, has lists that hold what their recorded
-- element types say (lists in a list that records its type recording theirs), at every depth, where
-- it had such.
pub stamp-IsTyped :
    (t : DeclType) (v : Value) → matches_declared t v ≡ true → IsTyped v → IsTyped (stamp t v)
unfolding stamp matches_declared IsTyped AreAll
stamp-IsTyped (type_list t) (list (some s) vs) h (m, k) =
    let e : all_recorded t vs ≡ true = ap (λ z. all_recorded z vs) (equal_types_sound t s h) ∙ m in
    if-AreAll t (is_container t) _ vs
      (map_values-AreAll t (stamp-IsTyped t) vs (all_recorded-all_match t vs e) k) (λ c. (e, k))
stamp-IsTyped (type_list t) (list none vs) h k =
    if-AreAll t (is_container t) _ vs (map_values-AreAll t (stamp-IsTyped t) vs h k)
      (λ c. (all_match-all_recorded t vs c h, k))
stamp-IsTyped type_list_any (list (some s) vs) h (m, k) = k
stamp-IsTyped type_list_any (list none vs) h k = k
stamp-IsTyped t v h k = k
