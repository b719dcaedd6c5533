-- ===== src/Env.antt =====
-- internal/interpreter/environment.go: the lexically scoped symbol table. An environment is its
-- frame and its chain of parents, inner first; a mutation returns the new chain. The counters for
-- call depth, memory, cancellation and deferred calls are not here.
pub mod Write
pub mod Updated
pub mod Lookup
pub mod Slots
pub mod Kept
pub mod Chain
pub mod Examples
use jennifer.Common.{
  set, Bool, List, Option, Result, [], err, false, get_elem?, if◌then◌else◌, negsuc, none, ok, pos,
  pos_part, some, suc, text_eq, true, zero, ℕ, ℤ, ◌+◌, ◌∷◌,
}

-- What the table asks of values and declared types: the zero value and type of an unused slot, and
-- `MatchesDeclared`.
pub record Typing (V T : Type 0) : Type 0 where
  pub zero_value : V
  pub zero_type : T
  pub matches_declared : V → T → Bool

pub record Binding (V T : Type 0) : Type 0 where
  pub value : V
  pub decl_type : T
  pub is_const : Bool
  pub slot : ℤ
  pub name : List ℕ

pub record Frame (V T : Type 0) : Type 0 where
  pub slots : List (Binding V T)
  pub vars : List (List ℕ × Binding V T)

pub data EnvError : Type 0 where
  already_defined : List ℕ → EnvError
  undefined_variable : List ℕ → EnvError
  undefined : List ℕ → EnvError
  assign_constant : List ℕ → EnvError
  assign_mismatch : List ℕ → EnvError

abbrev pub or_else {ℓ} : {A : Type ℓ} → Option A → EnvError → Result EnvError A
or_else none e = err e
or_else (some a) e = ok a

-- `[]` is the nil parent of the outermost frame.
abbrev pub Environment : Type 0 → Type 0 → Type 0
Environment V T = List (Frame V T)

module _ {V T : Type 0} where
  abbrev pub empty_frame : Frame V T
  empty_frame = record { slots = []; vars = [] }

  -- The map `vars`.
  unfoldable pub vars_get : List ℕ → List (List ℕ × Binding V T) → Option (Binding V T)
  vars_get k [] = none
  vars_get k ((j, b) ∷ m) = if text_eq j k then some b else vars_get k m

  unfoldable pub vars_set :
      List ℕ → Binding V T → List (List ℕ × Binding V T) → List (List ℕ × Binding V T)
  vars_set k b [] = (k, b) ∷ []
  vars_set k b ((j, c) ∷ m) = if text_eq j k then (k, b) ∷ m else (j, c) ∷ vars_set k b m

  -- The first slot that holds the name, counted from `i`.
  unfoldable pub scan_slots : List ℕ → List (Binding V T) → ℕ → Option (Binding V T × ℤ)
  scan_slots name [] i = none
  scan_slots name (b ∷ bs) i =
      if text_eq b.name name then some (b, pos i) else scan_slots name bs (i + 1)

  abbrev pub named : Option (Binding V T) → Option (Binding V T × ℤ)
  named none = none
  named (some b) = some (b, negsuc 0)

  unfoldable pub lookup_local : Frame V T → List ℕ → Option (Binding V T × ℤ)
  unfolding scan_slots vars_get
  lookup_local e name = elim (scan_slots name e.slots 0) [
    | none ↦ named (vars_get name e.vars)
    | some found ↦ some found
  ]

  -- `depth` parent pointers up; none where the chain ends before.
  unfoldable pub ancestor : ℕ → Environment V T → Option (Frame V T)
  ancestor d [] = none
  ancestor zero (e ∷ parents) = some e
  ancestor (suc d) (e ∷ parents) = ancestor d parents

  -- The binding at a slot; a negative slot, or one past the end, is none.
  unfoldable pub slot_at : Frame V T → ℤ → Option (Binding V T)
  slot_at e (pos i) = get_elem? e.slots i
  slot_at e (negsuc i) = none

  -- A slot outside the frame falls back to the name map of that frame.
  unfoldable pub get_binding_at : Environment V T → ℤ → ℤ → List ℕ → Result EnvError (Binding V T)
  unfolding ancestor slot_at vars_get
  get_binding_at env depth slot name = elim (ancestor (pos_part depth) env) [
    | none ↦ err (undefined name)
    | some cur ↦ elim (slot_at cur slot) [
      | none ↦ or_else (vars_get name cur.vars) (undefined name)
      | some b ↦ ok b
    ]
  ]

  unfoldable pub get_at : Environment V T → ℤ → ℤ → List ℕ → Result EnvError V
  unfolding ancestor slot_at vars_get
  get_at env depth slot name = elim (ancestor (pos_part depth) env) [
    | none ↦ err (undefined_variable name)
    | some cur ↦ elim (slot_at cur slot) [
      | none ↦ elim (vars_get name cur.vars) [
        | none ↦ err (undefined_variable name)
        | some b ↦ ok b.value
      ]
      | some b ↦ ok b.value
    ]
  ]

  unfoldable pub get_binding : Environment V T → List ℕ → Result EnvError (Binding V T)
  unfolding lookup_local
  get_binding [] name = err (undefined name)
  get_binding (cur ∷ parents) name = elim (lookup_local cur name) [
    | none ↦ get_binding parents name
    | some (b, si) ↦ ok b
  ]

  unfoldable pub get : Environment V T → List ℕ → Result EnvError V
  unfolding lookup_local
  get [] name = err (undefined_variable name)
  get (cur ∷ parents) name = elim (lookup_local cur name) [
    | none ↦ get parents name
    | some (b, si) ↦ ok b.value
  ]

  -- The chain with a slot of its frame at the given depth overwritten.
  unfoldable pub write_slot : Environment V T → ℕ → ℕ → Binding V T → Environment V T
  write_slot [] d s b = []
  write_slot (cur ∷ parents) zero s b = record cur { slots = set cur.slots s b } ∷ parents
  write_slot (cur ∷ parents) (suc d) s b = cur ∷ write_slot parents d s b

  unfoldable pub exists_in_chain : Environment V T → List ℕ → Bool
  unfolding lookup_local
  exists_in_chain [] name = false
  exists_in_chain (cur ∷ parents) name = elim (lookup_local cur name) [
    | none ↦ exists_in_chain parents name
    | some (b, si) ↦ true
  ]

  -- `slotBinding` of intfast.go, which has no fallback.
  unfoldable pub slot_binding : Environment V T → ℤ → ℤ → Option (Binding V T)
  unfolding ancestor slot_at
  slot_binding env depth slot = elim (ancestor (pos_part depth) env) [
    | none ↦ none
    | some cur ↦ slot_at cur slot
  ]

  -- getBindingRoot: the slot path where the resolver stamped it.
  unfoldable pub get_binding_root : Environment V T → List ℕ → ℤ → ℤ → Result EnvError (Binding V T)
  unfolding get_binding_at get_binding
  get_binding_root env name depth (pos s) = get_binding_at env depth (pos s) name
  get_binding_root env name depth (negsuc s) = get_binding env name
