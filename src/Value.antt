-- ===== src/Value.antt =====
-- internal/interpreter/value.go: runtime values and their equality. Maps, and the handles that are
-- shared by pointer (functions, tasks, channels, opaque objects), are not among the values here.
pub mod Types
use jennifer.Common.{
  text_eq, Bool, List, Option, eqb_ℤ, false, if◌then◌else◌, ltb_ℤ, negsuc, none, not, pos, some,
  suc, true, zero, ℕ, ℤ, ◌&&◌, ◌-◌, ◌^◌,
}
use jennifer.Ast.{TypeName, DeclType}
use jennifer.Float64.{FloatOps}

pub data Kind : Type 0 where
  kind_null kind_int kind_float kind_string kind_bool kind_bytes : Kind
  kind_list kind_struct kind_enum : Kind

-- A list has its recorded element type, ElemTyp, or nil.
mutual
  pub data Value : Type 0 where
    null : Value
    int : ℤ → Value
    float : ℕ → Value
    string : List ℕ → Value
    bool : Bool → Value
    bytes : List ℕ → Value
    list : Option DeclType → Values → Value
    struct : TypeName → Fields → Value
    enum : TypeName → List ℕ → Fields → Value

  pub data Values : Type 0 where
    nil : Values
    cons : Value → Values → Values

  pub data Fields : Type 0 where
    end : Fields
    field : List ℕ → Value → Fields → Fields

unfoldable pub kind_of : Value → Kind
kind_of null = kind_null
kind_of (int n) = kind_int
kind_of (float f) = kind_float
kind_of (string s) = kind_string
kind_of (bool b) = kind_bool
kind_of (bytes s) = kind_bytes
kind_of (list s vs) = kind_list
kind_of (struct t fs) = kind_struct
kind_of (enum t v fs) = kind_enum

unfoldable pub is_numeric : Value → Bool
is_numeric (int n) = true
is_numeric (float f) = true
is_numeric _ = false

abbrev pub type_eq : TypeName → TypeName → Bool
type_eq s t = text_eq s.name t.name && text_eq s.ns t.ns && text_eq s.mod_path t.mod_path

abbrev pub negated : ℤ → ℤ
negated (pos zero) = pos 0
negated (pos (suc n)) = negsuc n
negated (negsuc n) = pos (suc n)

module _ (F : FloatOps) where
  open F use {of_int, truncate}

  -- The sign of n - f; "unordered" is 1.
  unfoldable pub compare_int_float : ℤ → ℕ → ℤ
  compare_int_float n f =
      if not (F.eq f f)
      then pos 1
      else if F.le (of_int (pos (2 ^ 63))) f
      then negsuc 0
      else if F.lt f (of_int (negsuc (2 ^ 63 - 1)))
      then pos 1
      else (let tf = truncate f in
          let frac = F.sub f (of_int tf) in
          if ltb_ℤ n tf
          then negsuc 0
          else if ltb_ℤ tf n
          then pos 1
          else if F.lt (of_int (pos 0)) frac
          then negsuc 0
          else if F.lt frac (of_int (pos 0))
          then pos 1
          else pos 0)

  unfoldable mutual
    pub equal : Value → Value → Bool
    equal null null = true
    equal (int a) (int b) = eqb_ℤ a b
    equal (float a) (float b) = F.eq a b
    equal (string a) (string b) = text_eq a b
    equal (bool true) (bool b) = b
    equal (bool false) (bool b) = not b
    equal (bytes a) (bytes b) = text_eq a b
    equal (list s vs) (list t ws) = equal_values vs ws
    equal (struct s fs) (struct t gs) = type_eq s t && equal_fields fs gs
    equal (enum s v fs) (enum t w gs) = type_eq s t && text_eq v w && equal_fields fs gs
    equal (int n) (float f) = eqb_ℤ (compare_int_float n f) (pos 0)
    equal (float f) (int n) = eqb_ℤ (compare_int_float n f) (pos 0)
    equal _ _ = false

    pub equal_values : Values → Values → Bool
    equal_values nil nil = true
    equal_values (cons v vs) (cons w ws) = equal v w && equal_values vs ws
    equal_values _ _ = false

    pub equal_fields : Fields → Fields → Bool
    equal_fields end end = true
    equal_fields (field a v fs) (field b w gs) = text_eq a b && equal v w && equal_fields fs gs
    equal_fields _ _ = false

  unfoldable pub as_float : Value → Option ℕ
  as_float (int n) = some (of_int n)
  as_float (float f) = some f
  as_float _ = none

  abbrev or_zero : Option ℕ → ℕ
  or_zero none = of_int (pos 0)
  or_zero (some f) = f

  -- Other operands fall back to their float view.
  unfoldable pub compare_numeric : Value → Value → ℤ
  unfolding as_float
  compare_numeric (int a) (int b) =
      if ltb_ℤ a b then negsuc 0 else if ltb_ℤ b a then pos 1 else pos 0
  compare_numeric (float a) (float b) =
      if F.lt a b then negsuc 0 else if F.lt b a then pos 1 else pos 0
  compare_numeric (int a) (float b) = compare_int_float a b
  compare_numeric (float a) (int b) = negated (compare_int_float b a)
  compare_numeric v w =
      let a = or_zero (as_float v) in
      let b = or_zero (as_float w) in
      if F.lt a b then negsuc 0 else if F.lt b a then pos 1 else pos 0
