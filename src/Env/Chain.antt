-- ===== src/Env/Chain.antt =====
-- Environments of internal/interpreter/environment.go that keep their frames through several steps.
use jennifer.Common.{ℕ, List, ◌∙◌, [], ◌∷◌}
use jennifer.Env.Kept.{Pairwise, KeptAll, KeptFrame, KeptVar, Kept}
use jennifer.Env.{Typing, Binding, Frame, Environment}

module _ {ℓ} {A : Type ℓ} (R : A → A → Type 0) where
  Pairwise-trans :
      ((x y z : A) → R x y → R y z → R x z)
      → (xs ys zs : List A) → Pairwise R xs ys
      → Pairwise R ys zs
      → Pairwise R xs zs
  Pairwise-trans t [] [] [] h k = tt
  Pairwise-trans t [] [] (z ∷ zs) h k = absurd k
  Pairwise-trans t [] (y ∷ ys) zs h k = absurd h
  Pairwise-trans t (x ∷ xs) [] zs h k = absurd h
  Pairwise-trans t (x ∷ xs) (y ∷ ys) [] h k = absurd k
  Pairwise-trans t (x ∷ xs) (y ∷ ys) (z ∷ zs) (h, hs) (k, ks) =
      (t x y z h k, Pairwise-trans t xs ys zs hs ks)

module _ {V T : Type 0} (ty : Typing V T) where
  Kept-trans : (b c d : Binding V T) → Kept ty b c → Kept ty c d → Kept ty b d
  Kept-trans b c d h k = record {
    name = k.name ∙ h.name;
    decl_type = k.decl_type ∙ h.decl_type;
    is_const = k.is_const ∙ h.is_const;
    constant = λ e. k.constant (h.is_const ∙ e) ∙ h.constant e;
    typed = λ e. k.typed (h.typed e);
  }

  KeptVar-trans : (b c d : List ℕ × Binding V T) → KeptVar ty b c → KeptVar ty c d → KeptVar ty b d
  KeptVar-trans (i, b) (j, c) (k, d) (p, h) (q, r) = (q ∙ p, Kept-trans b c d h r)

  KeptFrame-trans : (e f g : Frame V T) → KeptFrame ty e f → KeptFrame ty f g → KeptFrame ty e g
  KeptFrame-trans e f g (h, hv) (k, kv) = (
    Pairwise-trans (Kept ty) Kept-trans e.slots f.slots g.slots h k,
    Pairwise-trans (KeptVar ty) KeptVar-trans e.vars f.vars g.vars hv kv,
  )

  pub KeptAll-trans : (e f g : Environment V T) → KeptAll ty e f → KeptAll ty f g → KeptAll ty e g
  KeptAll-trans e f g h k = Pairwise-trans (KeptFrame ty) KeptFrame-trans e f g h k
