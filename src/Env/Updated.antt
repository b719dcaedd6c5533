-- ===== src/Env/Updated.antt =====
-- The lookups of a frame of internal/interpreter/environment.go after a write over one binding.
use jennifer.Common.{
  Option-cases, ap, arith, suc, ◌∙◌, Bool-cases, inl, inr, refl, text_eq_refl, text_eq_sound, ◌+◌,
  List, ℕ, ℤ, pos, negsuc, text_eq, true, false, some, none, set, ◌≡◌, ◌∷◌, [], if◌then◌else◌,
}
use jennifer.Env.{Binding, Frame, scan_slots, vars_get, vars_set, lookup_local, named}
use jennifer.Env.Write.{put_found}

text_eq-ne : (a x y : List ℕ) → text_eq a x ≡ true → text_eq x y ≡ false → text_eq a y ≡ false
text_eq-ne a x y h n = rw (text_eq_sound a x h) n

module _ {V T : Type 0} where
  -- What a write over the first slot that holds `x` does to the scans.
  record Rewritten (x : List ℕ) (bs : List (Binding V T)) (k : ℕ) (c : Binding V T) (si : ℤ)
      : Type 0 where
    index : ℕ
    at : si ≡ pos (k + index)
    same : scan_slots x (set bs index c) k ≡ some (c, si)
    others :
        (y : List ℕ) → text_eq x y ≡ false → scan_slots y (set bs index c) k ≡ scan_slots y bs k

  scan_slots-name :
      (x : List ℕ) (bs : List (Binding V T)) (k : ℕ) {b : Binding V T} {si : ℤ}
      → scan_slots x bs k ≡ some (b, si)
      → text_eq b.name x ≡ true
  unfolding scan_slots
  scan_slots-name x [] k h = cc
  scan_slots-name x (d ∷ bs) k {b} {si} h = elim (Bool-cases (text_eq d.name x)) [
    | inl e ↦ ground arith
    | inr e ↦ scan_slots-name x bs (k + 1) {b = b} {si = si} (ground arith)
  ]

  Rewritten-here :
      (x : List ℕ) (d : Binding V T) (bs : List (Binding V T)) (k : ℕ) (c : Binding V T)
      → text_eq d.name x ≡ true
      → text_eq c.name x ≡ true
      → Rewritten x (d ∷ bs) k c (pos k)
  unfolding scan_slots
  Rewritten-here x d bs k c e n = record {
    index = 0;
    at = ap pos (omega arith);
    same = rw n refl;
    others = λ y h. rw (text_eq-ne d.name x y e h) (rw (text_eq-ne c.name x y n h) refl);
  }

  Rewritten-there :
      (x : List ℕ) (d : Binding V T) (bs : List (Binding V T)) (k : ℕ) (c : Binding V T) (si : ℤ)
      → text_eq d.name x ≡ false
      → Rewritten x bs (k + 1) c si
      → Rewritten x (d ∷ bs) k c si
  unfolding scan_slots
  Rewritten-there x d bs k c si e r = record {
    index = suc (r.index);
    at = r.at ∙ ap pos (omega arith);
    same = rw e (r.same);
    others = λ y h. ap (λ o. if text_eq d.name y then some (d, pos k) else o) (r.others y h);
  }

  scan_slots-set :
      (x : List ℕ) (bs : List (Binding V T)) (k : ℕ) {b : Binding V T} {si : ℤ} (c : Binding V T)
      → scan_slots x bs k ≡ some (b, si)
      → text_eq c.name x ≡ true
      → Rewritten x bs k c si
  unfolding scan_slots
  scan_slots-set x [] k c h n = cc
  scan_slots-set x (d ∷ bs) k {b} {si} c h n = elim (Bool-cases (text_eq d.name x)) [
    | inl e ↦ let q : si ≡ pos k = ground arith in rw q (Rewritten-here x d bs k c e n)
    | inr e ↦
        Rewritten-there x d bs k c si e
          (scan_slots-set x bs (k + 1) {b = b} {si = si} c (ground arith) n)
  ]

  vars_get-vars_set :
      (x : List ℕ) (c : Binding V T) (m : List (List ℕ × Binding V T))
      → vars_get x (vars_set x c m) ≡ some c
  unfolding vars_get vars_set
  vars_get-vars_set x c [] = rw (text_eq_refl x) refl
  vars_get-vars_set x c ((j, d) ∷ m) = ground (arith, text_eq_refl x, vars_get-vars_set x c m)

  vars_get-vars_set_ne :
      (x y : List ℕ) (c : Binding V T) (m : List (List ℕ × Binding V T))
      → text_eq x y ≡ false
      → vars_get y (vars_set x c m) ≡ vars_get y m
  unfolding vars_get vars_set
  vars_get-vars_set_ne x y c [] n = rw n refl
  vars_get-vars_set_ne x y c ((j, d) ∷ m) n = elim (Bool-cases (text_eq j x)) [
    | inl e ↦ ground (arith, vars_get-vars_set_ne x y c m n, text_eq-ne j x y e n)
    | inr e ↦ ground (arith, vars_get-vars_set_ne x y c m n)
  ]

  -- What a write over the binding that a frame has for `x` does to its lookups.
  pub record Updated (x : List ℕ) (cur : Frame V T) (c : Binding V T) (si : ℤ) : Type 0 where
    pub same : lookup_local (put_found cur si x c) x ≡ some (c, si)
    pub others :
        (y : List ℕ)
        → text_eq x y ≡ false
        → lookup_local (put_found cur si x c) y ≡ lookup_local cur y

  slot-Updated :
      (x : List ℕ) (cur : Frame V T) (c : Binding V T) (si : ℤ)
      → Rewritten x cur.slots 0 c si
      → Updated x cur c si
  unfolding lookup_local
  slot-Updated x cur c si r =
      let at : si ≡ pos (r.index) = r.at ∙ ap pos (omega arith) in
      let same : scan_slots x (set cur.slots r.index c) 0 ≡ some (c, pos r.index) =
        r.same ∙ ap (λ z. some (c, z)) at in
      rw at (record {
        same = rw (same, lookup_local) refl;
        others = λ y h. rw (r.others y h, lookup_local) refl;
      })

  lookup_local-vars :
      (cur : Frame V T) (m : List (List ℕ × Binding V T)) (y : List ℕ)
      → vars_get y m ≡ vars_get y cur.vars
      → lookup_local (record cur { vars = m }) y ≡ lookup_local cur y
  unfolding lookup_local
  lookup_local-vars cur m y h = elim (Option-cases (scan_slots y cur.slots 0)) [
    | inl e ↦ rw (e, lookup_local) (ap named h)
    | inr (f, e) ↦ rw (e, lookup_local) refl
  ]

  pub var-Updated :
      (x : List ℕ) (cur : Frame V T) (c : Binding V T)
      → scan_slots x cur.slots 0 ≡ none
      → Updated x cur c (negsuc 0)
  unfolding lookup_local
  var-Updated x cur c e = record {
    same = rw (e, lookup_local) (rw (vars_get-vars_set x c cur.vars) refl);
    others = λ y h.
        lookup_local-vars cur (vars_set x c cur.vars) y (vars_get-vars_set_ne x y c cur.vars h);
  }

  pub lookup_local-Updated :
      (x : List ℕ) (cur : Frame V T) {b : Binding V T} {si : ℤ} (c : Binding V T)
      → lookup_local cur x ≡ some (b, si)
      → c.name ≡ b.name
      → Updated x cur c si
  unfolding lookup_local
  lookup_local-Updated x cur {b} {si} c h n = elim (Option-cases (scan_slots x cur.slots 0)) [
    | inr ((d, ti), e) ↦
        let q : d ≡ b = ground arith in
        let q' : ti ≡ si = ground arith in
        slot-Updated x cur c si (
          scan_slots-set x cur.slots 0 {b = b} {si = si} c (ground arith)
            (rw n (scan_slots-name x cur.slots 0 {b = b} {si = si} (ground arith))))
    | inl e ↦ let q : si ≡ negsuc 0 = ground arith in rw q (var-Updated x cur c e)
  ]
