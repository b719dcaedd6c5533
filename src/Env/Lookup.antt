-- ===== src/Env/Lookup.antt =====
-- Reads after writes of internal/interpreter/environment.go, by name.
use jennifer.Common.{
  Result, Option, Result-cases, sym, Option-cases, ap, arith, ◌∙◌, Bool-cases, inl, inr, refl,
  text_eq_sound, List, ℕ, ℤ, negsuc, text_eq, true, false, some, none, ok, err, ◌≡◌, ◌∷◌, [],
  if◌then◌else◌,
}
use jennifer.Env.{
  assign_mismatch, assign_constant, undefined_variable, exists_in_chain, get_binding, EnvError,
  Typing, Binding, Frame, Environment, scan_slots, vars_get, vars_set, lookup_local, get,
}
use jennifer.Env.Updated.{Updated, var-Updated, lookup_local-Updated}
use jennifer.Env.Write.{bind, put_var, Definition, define, put_found, assign, reassign}

text_eq-ne : (a x y : List ℕ) → text_eq a x ≡ true → text_eq x y ≡ false → text_eq a y ≡ false
text_eq-ne a x y h n = rw (text_eq_sound a x h) n

abbrev pub error_of {ℓ} : {A : Type ℓ} → Result EnvError A → Option EnvError
error_of (ok a) = none
error_of (err e) = some e

shadowed {ℓ} : {A : Type ℓ} {B : Type 0} {o : Option A} {a : A} → o ≡ none → o ≡ some a → B
shadowed h k = cc

module _ {V T : Type 0} where
  get_here :
      (cur : Frame V T) (parents : Environment V T) (y : List ℕ) {b : Binding V T} {si : ℤ}
      → lookup_local cur y ≡ some (b, si)
      → get (cur ∷ parents) y ≡ ok b.value
  unfolding get
  get_here cur parents y h = rw (h, get) refl

  get_above :
      (cur : Frame V T) (parents : Environment V T) (y : List ℕ)
      → lookup_local cur y ≡ none
      → get (cur ∷ parents) y ≡ get parents y
  unfolding get
  get_above cur parents y h = rw (h, get) refl

  get_same_local :
      (cur cur' : Frame V T) (parents : Environment V T) (y : List ℕ)
      → lookup_local cur' y ≡ lookup_local cur y
      → get (cur' ∷ parents) y ≡ get (cur ∷ parents) y
  unfolding get
  get_same_local cur cur' parents y h = rw (h, get) refl

  reassign-ok :
      (ty : Typing V T) (b c : Binding V T) (x : List ℕ) (v : V)
      → reassign ty b x v ≡ ok c
      → (c.name ≡ b.name) × (c.value ≡ v)
  reassign-ok ty b c x v h = ground arith

  get-Updated :
      (cur : Frame V T) (parents : Environment V T) (x : List ℕ) (c : Binding V T) (si : ℤ) (v : V)
      → Updated x cur c si
      → c.value ≡ v
      → (y : List ℕ)
      → get (put_found cur si x c ∷ parents) y
        ≡ (if text_eq x y then ok v else get (cur ∷ parents) y)
  get-Updated cur parents x c si v u e y = elim (Bool-cases (text_eq x y)) [
    | inl h ↦
        let q : x ≡ y = text_eq_sound x y h in
        rw h (
          sym (ap (λ z. get (put_found cur si x c ∷ parents) z) q)
          ∙ get_here (put_found cur si x c) parents x u.same
          ∙ ap ok e)
    | inr h ↦ rw h (get_same_local cur (put_found cur si x c) parents y (u.others y h))
  ]

  get_under :
      (cur : Frame V T) (parents rest : Environment V T) (x : List ℕ) (v : V)
      → lookup_local cur x ≡ none
      → (y : List ℕ) → get rest y ≡ (if text_eq x y then ok v else get parents y)
      → get (cur ∷ rest) y ≡ (if text_eq x y then ok v else get (cur ∷ parents) y)
  get_under cur parents rest x v n y h = elim (Option-cases (lookup_local cur y)) [
    | inl e ↦
        get_above cur rest y e
        ∙ h
        ∙ ap (λ g. if text_eq x y then ok v else g) (sym (get_above cur parents y e))
    | inr ((b, si), e) ↦ elim (Bool-cases (text_eq x y)) [
      | inl q ↦ shadowed (sym (ap (lookup_local cur) (text_eq_sound x y q)) ∙ n) e
      | inr q ↦ rw q (get_here cur rest y e ∙ sym (get_here cur parents y e))
    ]
  ]

  -- An assignment that is not refused is what reads of its name give from then on, and reads of
  -- every other name give what they gave.
  pub get-assign :
      (ty : Typing V T) (env env' : Environment V T) (x : List ℕ) (v : V)
      → assign ty env x v ≡ ok env'
      → (y : List ℕ) → get env' y ≡ (if text_eq x y then ok v else get env y)
  unfolding assign
  get-assign ty [] env' x v h y = cc
  get-assign ty (cur ∷ parents) env' x v h y = elim (Option-cases (lookup_local cur x)) [
    | inl e ↦ elim (Result-cases (assign ty parents x v)) [
      | inr (r, f) ↦ ground arith
      | inl (rest, f) ↦
          let q : env' ≡ cur ∷ rest = ground arith in
          rw q (get_under cur parents rest x v e y (get-assign ty parents rest x v f y))
    ]
    | inr ((b, si), e) ↦ elim (Result-cases (reassign ty b x v)) [
      | inr (r, f) ↦ ground arith
      | inl (c, f) ↦
          let q : env' ≡ put_found cur si x c ∷ parents = ground arith in
          let (n, w) = reassign-ok ty b c x v f in
          rw q (get-Updated cur parents x c si v (lookup_local-Updated x cur c e n) w y)
    ]
  ]

  -- Why an assignment is refused, read off the binding that the name has.
  abbrev pub refusal : Typing V T → Result EnvError (Binding V T) → List ℕ → V → Option EnvError
  refusal ty (err e) x v = some (undefined_variable x)
  refusal ty (ok b) x v =
      if b.is_const
      then some (assign_constant x)
      else if ty.matches_declared v b.decl_type
      then none
      else some (assign_mismatch x)

  -- An assignment is refused exactly where the name has no binding, has a constant one, or one whose
  -- declared type the value does not match; and with that error.
  pub assign-refusal :
      (ty : Typing V T) (env : Environment V T) (x : List ℕ) (v : V)
      → error_of (assign ty env x v) ≡ refusal ty (get_binding env x) x v
  unfolding assign get_binding
  assign-refusal ty [] x v = refl
  assign-refusal ty (cur ∷ parents) x v = ground (arith, assign-refusal ty parents x v)

  scan_slots-hidden :
      (cur : Frame V T) (parents : Environment V T) (x : List ℕ)
      → exists_in_chain (cur ∷ parents) x ≡ false
      → scan_slots x cur.slots 0 ≡ none
  unfolding exists_in_chain lookup_local
  scan_slots-hidden cur parents x h = ground arith

  get_defined :
      (ty : Typing V T) (env : Environment V T) (x : List ℕ) (c : Binding V T)
      → exists_in_chain env x ≡ false
      → (y : List ℕ) → get (put_var ty env x c) y ≡ (if text_eq x y then ok c.value else get env y)
  unfolding get lookup_local scan_slots vars_set vars_get
  get_defined ty [] x c h y = ground arith
  get_defined ty (cur ∷ parents) x c h y =
      get-Updated cur parents x c (negsuc 0) c.value
        (var-Updated x cur c (scan_slots-hidden cur parents x h)) refl y

  -- A definition is refused exactly where the name is visible already; otherwise reads of the name
  -- give its value, and reads of every other name give what they gave.
  pub get-define :
      (ty : Typing V T) (env env' : Environment V T) (x : List ℕ) (d : Definition ty)
      → define ty env x d ≡ ok env'
      → (exists_in_chain env x ≡ false)
        × ((y : List ℕ) → get env' y ≡ (if text_eq x y then ok d.value else get env y))
  unfolding define
  get-define ty env env' x d h = elim (Bool-cases (exists_in_chain env x)) [
    | inl e ↦ ground arith
    | inr e ↦
        let c = bind ty d (negsuc 0) [] in
        let q : env' ≡ put_var ty env x c = ground arith in
        (e, λ y. rw q (get_defined ty env x c e y))
  ]
