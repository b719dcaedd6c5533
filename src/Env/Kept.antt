-- ===== src/Env/Kept.antt =====
-- A relation between environments of internal/interpreter/environment.go: the same frames and
-- bindings, but for the values of variables.
use mathlib.Core.Path.{subst}
use jennifer.Common.{
  Option-cases, Result-cases, ◌⊎◌, Bool-cases, ap, inl, inr, suc, sym, zero, ◌+◌, ◌∙◌, List, ℕ, ℤ,
  pos, negsuc, true, false, some, ok, set, ◌≡◌, ◌∷◌, [], Bool, get_elem?, text_eq, refl, arith,
  pos_part, text_eq_sound,
}
use jennifer.Env.{
  Typing, Binding, Frame, Environment, ancestor, slot_at, slot_binding, write_slot, lookup_local,
  scan_slots, vars_get, vars_set,
}
use jennifer.Env.Write.{assign_at, assign, assign_root, reassign, put_found}

pub differ : {B : Type 0} {b : Bool} → b ≡ true → b ≡ false → B
differ h k = cc

module _ {ℓ} {A : Type ℓ} (R : A → A → Type 0) where
  -- Two lists of one length, related place by place.
  abbrev pub Pairwise : List A → List A → Type 0
  Pairwise [] [] = Unit {0}
  Pairwise (x ∷ xs) (y ∷ ys) = R x y × Pairwise xs ys
  Pairwise _ _ = ⊥

  pub Pairwise-refl : ((x : A) → R x x) → (xs : List A) → Pairwise xs xs
  Pairwise-refl r [] = tt
  Pairwise-refl r (x ∷ xs) = (r x, Pairwise-refl r xs)

  Pairwise-set :
      ((x : A) → R x x)
      → (xs : List A) (i : ℕ) (x y : A) → get_elem? xs i ≡ some x
      → R x y
      → Pairwise xs (set xs i y)
  Pairwise-set r [] i x y h k = tt
  Pairwise-set r (z ∷ xs) zero x y h k =
      let e : x ≡ z = cc in (subst (λ u. R u y) e k, Pairwise-refl r xs)
  Pairwise-set r (z ∷ xs) (suc i) x y h k = (r z, Pairwise-set r xs i x y h k)

module _ {V T : Type 0} (ty : Typing V T) where
  -- A binding keeps its name, its declared type and whether it is constant; a constant keeps its
  -- value; and a value that matched the declared type is replaced by one that does.
  pub record Kept (b c : Binding V T) : Type 0 where
    pub name : c.name ≡ b.name
    pub decl_type : c.decl_type ≡ b.decl_type
    pub is_const : c.is_const ≡ b.is_const
    pub constant : b.is_const ≡ true → c.value ≡ b.value
    pub typed :
        ty.matches_declared b.value b.decl_type ≡ true
        → ty.matches_declared c.value c.decl_type ≡ true

  abbrev pub KeptVar : (List ℕ × Binding V T) → (List ℕ × Binding V T) → Type 0
  KeptVar (j, b) (k, c) = (k ≡ j) × Kept b c

  abbrev pub KeptFrame : Frame V T → Frame V T → Type 0
  KeptFrame e f = Pairwise Kept e.slots f.slots × Pairwise KeptVar e.vars f.vars

  -- The same frames with the same bindings, each of which is kept.
  abbrev pub KeptAll : Environment V T → Environment V T → Type 0
  KeptAll = Pairwise KeptFrame

  Kept-refl : (b : Binding V T) → Kept b b
  Kept-refl b = record {
    name = refl;
    decl_type = refl;
    is_const = refl;
    constant = λ e. refl;
    typed = λ e. e;
  }

  KeptVar-refl : (b : List ℕ × Binding V T) → KeptVar b b
  KeptVar-refl (j, b) = (refl, Kept-refl b)

  pub KeptFrame-refl : (e : Frame V T) → KeptFrame e e
  KeptFrame-refl e =
      (Pairwise-refl Kept Kept-refl e.slots, Pairwise-refl KeptVar KeptVar-refl e.vars)

  reassign-Kept : (b c : Binding V T) (x : List ℕ) (v : V) → reassign ty b x v ≡ ok c → Kept b c
  reassign-Kept b c x v h = elim (Bool-cases b.is_const) [
    | inl e ↦ ground arith
    | inr e ↦ elim (Bool-cases (ty.matches_declared v b.decl_type)) [
      | inr m ↦ ground arith
      | inl m ↦
          let q : c ≡ record b { value = v } = ground arith in
          rw q (record {
            name = refl;
            decl_type = refl;
            is_const = refl;
            constant = λ k. differ k e;
            typed = λ k. m;
          })
    ]
  ]

  slot_at-found :
      (x : List ℕ) (bs : List (Binding V T)) (k : ℕ) (b : Binding V T) (si : ℤ)
      → scan_slots x bs k ≡ some (b, si)
      → (i : ℕ) × (si ≡ pos (k + i)) × (get_elem? bs i ≡ some b)
  unfolding scan_slots
  slot_at-found x [] k b si h = cc
  slot_at-found x (d ∷ bs) k b si h = elim (Bool-cases (text_eq d.name x)) [
    | inl e ↦ (0, ground arith, ground arith)
    | inr e ↦
        let (i, at, q) = slot_at-found x bs (k + 1) b si (ground arith) in
        (suc i, at ∙ ap pos (omega arith), q)
  ]

  vars_set-Kept :
      (x : List ℕ) (m : List (List ℕ × Binding V T)) (b c : Binding V T)
      → vars_get x m ≡ some b
      → Kept b c
      → Pairwise KeptVar m (vars_set x c m)
  unfolding vars_get vars_set
  vars_set-Kept x [] b c h k = cc
  vars_set-Kept x ((j, d) ∷ m) b c h k = elim (Bool-cases (text_eq j x)) [
    | inl e ↦
        let q : b ≡ d = ground arith in
        rw e (
          (sym (text_eq_sound j x e), subst (λ u. Kept u c) q k),
          Pairwise-refl KeptVar KeptVar-refl m,
        )
    | inr e ↦ rw e ((refl, Kept-refl d), vars_set-Kept x m b c (ground arith) k)
  ]

  put_found-KeptFrame :
      (cur : Frame V T) (x : List ℕ) (b c : Binding V T) (si : ℤ)
      → lookup_local cur x ≡ some (b, si)
      → Kept b c
      → KeptFrame cur (put_found cur si x c)
  unfolding lookup_local
  put_found-KeptFrame cur x b c si h k = elim (Option-cases (scan_slots x cur.slots 0)) [
    | inr ((d, ti), e) ↦
        let f : scan_slots x cur.slots 0 ≡ some (b, si) = ground arith in
        let (i, at, q) = slot_at-found x cur.slots 0 b si f in
        let at' : si ≡ pos i = at ∙ ap pos (omega arith) in
        rw at' (
          Pairwise-set Kept Kept-refl cur.slots i b c q k,
          Pairwise-refl KeptVar KeptVar-refl cur.vars,
        )
    | inl e ↦
        let f : si ≡ negsuc 0 = ground arith in
        rw f (Pairwise-refl Kept Kept-refl cur.slots, vars_set-Kept x cur.vars b c (ground arith) k)
  ]

  pub KeptAll-refl : (env : Environment V T) → KeptAll env env
  KeptAll-refl env = Pairwise-refl KeptFrame KeptFrame-refl env

  assign-KeptAll :
      (env env' : Environment V T) (x : List ℕ) (v : V)
      → assign ty env x v ≡ ok env'
      → KeptAll env env'
  unfolding assign
  assign-KeptAll [] env' x v h = cc
  assign-KeptAll (cur ∷ parents) env' x v h = elim (Option-cases (lookup_local cur x)) [
    | inl e ↦ elim (Result-cases (assign ty parents x v)) [
      | inr (r, f) ↦ ground arith
      | inl (rest, f) ↦
          let q : env' ≡ cur ∷ rest = ground arith in
          rw q (KeptFrame-refl cur, assign-KeptAll parents rest x v f)
    ]
    | inr ((b, si), e) ↦ elim (Result-cases (reassign ty b x v)) [
      | inr (r, f) ↦ ground arith
      | inl (c, f) ↦
          let q : env' ≡ put_found cur si x c ∷ parents = ground arith in
          rw q (put_found-KeptFrame cur x b c si e (reassign-Kept b c x v f), KeptAll-refl parents)
    ]
  ]

  pub write_slot-KeptAll :
      (env : Environment V T) (d s : ℕ) (b c : Binding V T)
      → slot_binding env (pos d) (pos s) ≡ some b
      → Kept b c
      → KeptAll env (write_slot env d s c)
  unfolding slot_binding ancestor slot_at write_slot
  write_slot-KeptAll [] d s b c h k = cc
  write_slot-KeptAll (cur ∷ parents) zero s b c h k = (
    (Pairwise-set Kept Kept-refl cur.slots s b c h k, Pairwise-refl KeptVar KeptVar-refl cur.vars),
    KeptAll-refl parents,
  )
  write_slot-KeptAll (cur ∷ parents) (suc d) s b c h k =
      (KeptFrame-refl cur, write_slot-KeptAll parents d s b c h k)

  assign_at-cases :
      (env env' : Environment V T) (depth : ℤ) (s : ℕ) (name : List ℕ) (v : V)
      → assign_at ty env depth (pos s) name v ≡ ok env'
      → (assign ty env name v ≡ ok env')
        ⊎ ((b : Binding V T) × (c : Binding V T) × (slot_binding env (pos (pos_part depth)) (pos s)
              ≡ some b)
            × (reassign ty b name v ≡ ok c)
            × (env' ≡ write_slot env (pos_part depth) s c))
  unfolding assign_at slot_binding
  assign_at-cases env env' depth s name v h = elim (Option-cases (ancestor (pos_part depth) env)) [
    | inl e ↦ ground arith
    | inr (cur, e) ↦ elim (Option-cases (slot_at cur (pos s))) [
      | inl f ↦ inl (ground arith)
      | inr (b, f) ↦ elim (Result-cases (reassign ty b name v)) [
        | inr (r, g) ↦ ground arith
        | inl (c, g) ↦ inr (b, c, rw (e, f, slot_binding) refl, g, ground arith)
      ]
    ]
  ]

  -- An assignment to a variable, by name or through the depth and slot that the resolver gave it,
  -- keeps every frame and every binding with its name, declared type and constness: a constant keeps
  -- its value, and a binding whose value matches its declared type keeps on having such a value.
  pub assign_root-KeptAll :
      (env env' : Environment V T) (name : List ℕ) (depth slot : ℤ) (v : V)
      → assign_root ty env name depth slot v ≡ ok env'
      → KeptAll env env'
  unfolding assign_root
  assign_root-KeptAll env env' name depth (negsuc s) v h = assign-KeptAll env env' name v h
  assign_root-KeptAll env env' name depth (pos s) v h =
      elim (assign_at-cases env env' depth s name v h) [
        | inl k ↦ assign-KeptAll env env' name v k
        | inr (b, c, f, g, q) ↦
            rw q (write_slot-KeptAll env (pos_part depth) s b c f (reassign-Kept b c name v g))
      ]
