-- ===== src/Env/Write.antt =====
-- Definitions and assignments of internal/interpreter/environment.go. A refused one returns the
-- error alone: nothing was written.
use jennifer.Common.{
  pos_part, Bool, List, Result, [], err, false, if◌then◌else◌, negsuc, none, not, ok, pos, set,
  some, suc, zero, ℕ, ℤ, ◌>>=◌, ◌∷◌,
}
use jennifer.Env.{
  write_slot, Typing, Binding, Frame, EnvError, already_defined, undefined_variable,
  assign_constant, assign_mismatch, Environment, vars_set, lookup_local, exists_in_chain, ancestor,
  slot_at,
}

module _ {V T : Type 0} where
  abbrev pub put_found : Frame V T → ℤ → List ℕ → Binding V T → Frame V T
  put_found cur (pos i) name b = record cur { slots = set cur.slots i b }
  put_found cur (negsuc i) name b = record cur { vars = vars_set name b cur.vars }

module _ {V T : Type 0} (ty : Typing V T) where
  open ty use {zero_value, zero_type, matches_declared}

  abbrev pub zero_binding : Binding V T
  zero_binding = record {
    value = zero_value;
    decl_type = zero_type;
    is_const = false;
    slot = pos 0;
    name = [];
  }

  -- `slots` with one more write, grown to hold it.
  unfoldable pub put_slot : List (Binding V T) → ℕ → Binding V T → List (Binding V T)
  put_slot [] zero b = b ∷ []
  put_slot [] (suc i) b = zero_binding ∷ put_slot [] i b
  put_slot (c ∷ cs) zero b = b ∷ cs
  put_slot (c ∷ cs) (suc i) b = c ∷ put_slot cs i b

  -- The value, declared type and constness that a definition gives.
  pub record Definition : Type 0 where
    pub value : V
    pub decl_type : T
    pub is_const : Bool

  abbrev pub bind : Definition → ℤ → List ℕ → Binding V T
  bind d slot name = record {
    value = d.value;
    decl_type = d.decl_type;
    is_const = d.is_const;
    slot = slot;
    name = name;
  }

  abbrev pub put_var : Environment V T → List ℕ → Binding V T → Environment V T
  put_var [] name b = record { slots = []; vars = vars_set name b [] } ∷ []
  put_var (cur ∷ parents) name b = record cur { vars = vars_set name b cur.vars } ∷ parents

  -- `Define` leaves the field Name of the binding empty: the map's key has it.
  unfoldable pub define : Environment V T → List ℕ → Definition → Result EnvError (Environment V T)
  unfolding exists_in_chain vars_set
  define env name d =
      if exists_in_chain env name
      then err (already_defined name)
      else ok (put_var env name (bind d (negsuc 0) []))

  unfoldable pub define_at :
      Environment V T → ℤ → List ℕ → Definition → Result EnvError (Environment V T)
  unfolding exists_in_chain vars_set put_slot
  define_at env (negsuc s) name d =
      if exists_in_chain env name
      then err (already_defined name)
      else ok (put_var env name (bind d (negsuc s) name))
  define_at [] (pos s) name d =
      ok (record { slots = put_slot [] s (bind d (pos s) name); vars = [] } ∷ [])
  define_at (cur ∷ parents) (pos s) name d =
      ok (record cur { slots = put_slot cur.slots s (bind d (pos s) name) } ∷ parents)

  -- The checks of an assignment, and the binding that it leaves.
  abbrev pub reassign : Binding V T → List ℕ → V → Result EnvError (Binding V T)
  reassign b name v =
      if b.is_const
      then err (assign_constant name)
      else if not (matches_declared v b.decl_type)
      then err (assign_mismatch name)
      else ok (record b { value = v })

  -- The first frame outwards that holds the name is written.
  unfoldable pub assign : Environment V T → List ℕ → V → Result EnvError (Environment V T)
  unfolding lookup_local vars_set
  assign [] name v = err (undefined_variable name)
  assign (cur ∷ parents) name v = elim (lookup_local cur name) [
    | none ↦ assign parents name v >>= λ rest. ok (cur ∷ rest)
    | some (b, si) ↦ reassign b name v >>= λ c. ok (put_found cur si name c ∷ parents)
  ]

  unfoldable pub assign_at :
      Environment V T → ℤ → ℤ → List ℕ → V → Result EnvError (Environment V T)
  unfolding ancestor slot_at write_slot assign
  assign_at env depth slot name v = elim (ancestor (pos_part depth) env) [
    | none ↦ err (undefined_variable name)
    | some cur ↦ elim (slot_at cur slot) [
      | none ↦ assign env name v
      | some b ↦ reassign b name v >>= λ c. ok (write_slot env (pos_part depth) (pos_part slot) c)
    ]
  ]

  unfoldable pub assign_root :
      Environment V T → List ℕ → ℤ → ℤ → V → Result EnvError (Environment V T)
  unfolding assign_at assign
  assign_root env name depth (pos s) v = assign_at env depth (pos s) name v
  assign_root env name depth (negsuc s) v = assign env name v
