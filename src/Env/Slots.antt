-- ===== src/Env/Slots.antt =====
-- Reads after writes of internal/interpreter/environment.go, by slot.
use jennifer.Common.{
  pos_part, ℤ, ap, arith, get_elem?-set_ne, get_elem?-set_self, inl, inr, refl, suc, zero, List, ℕ,
  pos, true, false, some, ok, ◌≡◌, ◌∷◌, [], ◌≢◌, ◌⊎◌,
}
use jennifer.Env.{Typing, Binding, Environment, ancestor, slot_at, slot_binding, get_at, write_slot}
use jennifer.Env.Write.{assign_at}

module _ {V T : Type 0} where
  slot_binding-write_slot :
      (env : Environment V T) (d s : ℕ) {b : Binding V T} (c : Binding V T)
      → slot_binding env (pos d) (pos s) ≡ some b
      → slot_binding (write_slot env d s c) (pos d) (pos s) ≡ some c
  unfolding slot_binding ancestor slot_at write_slot
  slot_binding-write_slot [] d s c h = cc
  slot_binding-write_slot (cur ∷ parents) zero s c h = get_elem?-set_self cur.slots s c h
  slot_binding-write_slot (cur ∷ parents) (suc d) s c h = slot_binding-write_slot parents d s c h

  slot_binding-write_slot_ne :
      (env : Environment V T) (d s e t : ℕ) (c : Binding V T)
      → (d ≢ e) ⊎ (s ≢ t)
      → slot_binding (write_slot env d s c) (pos e) (pos t) ≡ slot_binding env (pos e) (pos t)
  unfolding slot_binding ancestor slot_at write_slot
  slot_binding-write_slot_ne [] d s e t c h = refl
  slot_binding-write_slot_ne (cur ∷ parents) zero s zero t c (inl h) = absurd (h refl)
  slot_binding-write_slot_ne (cur ∷ parents) zero s zero t c (inr h) =
      get_elem?-set_ne cur.slots s t c h
  slot_binding-write_slot_ne (cur ∷ parents) zero s (suc e) t c h = refl
  slot_binding-write_slot_ne (cur ∷ parents) (suc d) s zero t c h = refl
  slot_binding-write_slot_ne (cur ∷ parents) (suc d) s (suc e) t c (inl h) =
      slot_binding-write_slot_ne parents d s e t c (inl (λ q. h (ap suc q)))
  slot_binding-write_slot_ne (cur ∷ parents) (suc d) s (suc e) t c (inr h) =
      slot_binding-write_slot_ne parents d s e t c (inr h)

  get_at-slot_binding :
      (env : Environment V T) (d s : ℕ) (name : List ℕ) {b : Binding V T}
      → slot_binding env (pos d) (pos s) ≡ some b
      → get_at env (pos d) (pos s) name ≡ ok b.value
  unfolding get_at slot_binding
  get_at-slot_binding env d s name h = ground arith

  assign_at-write_slot :
      (ty : Typing V T) (env env' : Environment V T) (d s : ℕ) (name : List ℕ) (v : V)
      {b : Binding V T}
      → slot_binding env (pos d) (pos s) ≡ some b
      → assign_at ty env (pos d) (pos s) name v ≡ ok env'
      → (b.is_const ≡ false)
        × (ty.matches_declared v b.decl_type ≡ true)
        × (env' ≡ write_slot env d s (record b { value = v }))
  unfolding assign_at slot_binding
  assign_at-write_slot ty env env' d s name v h k = ground arith

  pub assign_at-allowed :
      (ty : Typing V T) (env : Environment V T) (depth : ℤ) (s : ℕ) (name : List ℕ) (v : V)
      (b : Binding V T)
      → slot_binding env depth (pos s) ≡ some b
      → b.is_const ≡ false
      → ty.matches_declared v b.decl_type ≡ true
      → assign_at ty env depth (pos s) name v
        ≡ ok (write_slot env (pos_part depth) s (record b { value = v }))
  unfolding assign_at slot_binding
  assign_at-allowed ty env depth s name v b h c t = ground arith

  -- An assignment through a depth and a slot that hold a binding, where it is not refused, had a
  -- variable whose declared type the value matches; the slot then reads as the value, and every
  -- other slot of every frame holds the binding that it held.
  pub get_at-assign_at :
      (ty : Typing V T) (env env' : Environment V T) (d s : ℕ) (name : List ℕ) (v : V)
      (b : Binding V T)
      → slot_binding env (pos d) (pos s) ≡ some b
      → assign_at ty env (pos d) (pos s) name v ≡ ok env'
      → (b.is_const ≡ false)
        × (ty.matches_declared v b.decl_type ≡ true)
        × (get_at env' (pos d) (pos s) name ≡ ok v)
        × ((e t : ℕ)
            → (d ≢ e) ⊎ (s ≢ t)
            → slot_binding env' (pos e) (pos t) ≡ slot_binding env (pos e) (pos t))
  get_at-assign_at ty env env' d s name v b h k =
      let (i, m, q) = assign_at-write_slot ty env env' d s name v {b = b} h k in
      let c = record b { value = v } in
      (
        i,
        m,
        rw q (
            get_at-slot_binding (write_slot env d s c) d s name {b = c}
              (slot_binding-write_slot env d s {b = b} c h)),
        λ e t n. rw q (slot_binding-write_slot_ne env d s e t c n),
      )
