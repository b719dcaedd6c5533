-- ===== src/Exec/Outcomes.antt =====
-- What the results of steps satisfy, whatever their errors are.
use jennifer.Common.{◌-◌, Result, [], if◌then◌else◌, ◌∷◌, ok, err, ℕ, suc, Bool, true, false}
use jennifer.Exec.Machine.{
  parents_of, exit, thrown, runtime, caught, fresh_frame, leave, resume, attempt, deeper, framed,
  raise, pure, Outcome, Fault, out_of_fuel, ◌>>=◌, M, State,
}

abbrev pub Given : {A : Type 0} → (A → Type 0) → Result Fault A → Type 0
Given Q (ok a) = Q a
Given Q (err e) = Unit

-- A step without an error gives a value with the property.
pub record Gives {A : Type 0} (Q : A → Type 0) (m : M A) : Type 0 where
  pub given : (s : State) → Given Q (m s).0

abbrev Anything : {A : Type 0} → A → Type 0
Anything a = Unit

resume-Given :
    {A B : Type 0} (R : A → Type 0) (Q : B → Type 0) (r : Outcome A) (f : A → M B)
    → Given R r.0
    → ((a : A) → R a → Gives Q (f a))
    → Given Q (resume {B = Outcome B} (λ e t. (err e, t)) (λ a t. f a t) r).0
resume-Given R Q (ok a, t) f h k = (k a h).given t
resume-Given R Q (err e, t) f h k = tt

pub then-Gives :
    {A B : Type 0} (R : A → Type 0) (Q : B → Type 0) (m : M A) (f : A → M B)
    → Gives R m
    → ((a : A) → R a → Gives Q (f a))
    → Gives Q (m >>= f)
unfolding ◌>>=◌
then-Gives R Q m f h k = record { given = λ s. resume-Given R Q (m s) f (h.given s) k }

Given-Anything : {A : Type 0} (r : Result Fault A) → Given Anything r
Given-Anything (ok a) = tt
Given-Anything (err e) = tt

anything : {A : Type 0} (m : M A) → Gives Anything m
anything m = record { given = λ s. Given-Anything (m s).0 }

-- The first step may give anything.
pub after-Gives :
    {A B : Type 0} (Q : B → Type 0) (m : M A) (f : A → M B)
    → ((a : A) → Gives Q (f a))
    → Gives Q (m >>= f)
after-Gives Q m f k = then-Gives Anything Q m f (anything m) (λ a _. k a)

pub pure-Gives : {A : Type 0} (Q : A → Type 0) (a : A) → Q a → Gives Q (pure a)
unfolding pure
pure-Gives Q a h = record { given = λ s. h }

pub raise-Gives : {A : Type 0} (Q : A → Type 0) (e : Fault) → Gives Q (raise e)
unfolding raise
raise-Gives Q e = record { given = λ s. tt }

pub if-Gives :
    {A : Type 0} (Q : A → Type 0) (b : Bool) {m k : M A}
    → Gives Q m
    → Gives Q k
    → Gives Q (if b then m else k)
if-Gives Q true h j = h
if-Gives Q false h j = j

leave-Given :
    {A : Type 0} (Q : A → Type 0) (f : State → State) (r : Outcome A)
    → Given Q r.0
    → Given Q (leave f r).0
leave-Given Q f (a, t) h = h

pub framed-Gives :
    {A : Type 0} (Q : A → Type 0) (n : ℕ) (m : M A) → Gives Q m → Gives Q (framed n m)
unfolding framed
framed-Gives Q n m h = record {
  given = λ s.
      let s' = record s { env = fresh_frame n ∷ s.env; deferred = [] } in
      leave-Given Q (λ t. record t { env = parents_of t.env; deferred = s.deferred }) (m s')
        (h.given s');
}

pub deeper-Gives : {A : Type 0} (Q : A → Type 0) (m : M A) → Gives Q m → Gives Q (deeper m)
unfolding deeper
deeper-Gives Q m h = record {
  given = λ s.
      let s' = record s { depth = suc s.depth } in
      leave-Given Q (λ t. record t { depth = t.depth - 1 }) (m s') (h.given s');
}

caught-Given :
    {A : Type 0} (Q : A → Type 0) (r : Outcome A)
    → Given Q r.0
    → Given
        (Given Q)
        (resume {B = Outcome (Result Fault A)} (λ e t. caught e t) (λ a t. (ok (ok a), t)) r).0
caught-Given Q (ok a, t) h = h
caught-Given Q (err (runtime e), t) h = tt
caught-Given Q (err (thrown v p), t) h = tt
caught-Given Q (err (exit n), t) h = tt
caught-Given Q (err out_of_fuel, t) h = tt

pub attempt-Gives :
    {A : Type 0} (Q : A → Type 0) (m : M A) → Gives Q m → Gives (Given Q) (attempt m)
unfolding attempt
attempt-Gives Q m h = record { given = λ s. caught-Given Q (m s) (h.given s) }
