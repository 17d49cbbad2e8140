-- ===== src/Prelude/Results.antt =====
-- A call that returns a value or raises an exception of the type `E`.
use mathlib.Core.Path.{◌≡◌, refl}
use mathlib.Core.Bool.{Bool, true, false}

pub data Outcome {ℓ} (E : Type 0) (A : Type ℓ) : Type ℓ where
  err : E → Outcome E A
  ok : A → Outcome E A

module _ {E : Type 0} where
  infixl 5 ◌>>=◌ ◌>>◌
  abbrev pub ◌>>=◌ {ℓ κ} : {A : Type ℓ} {B : Type κ} → Outcome E A → (A → Outcome E B) → Outcome E B
  err e >>= next = err e
  ok a >>= next = next a

  abbrev pub guard : Bool → E → Outcome E (Unit {0})
  guard false e = err e
  guard true e = ok tt

  abbrev pub ◌>>◌ {ℓ} : {B : Type ℓ} → Outcome E (Unit {0}) → Outcome E B → Outcome E B
  first >> second = first >>= λ _. second

  pub bind_assoc {ℓ κ μ} :
      {A : Type ℓ} {B : Type κ} {C : Type μ} (r : Outcome E A) (f : A → Outcome E B)
      (g : B → Outcome E C)
      → (r >>= λ x. f x >>= g) ≡ ((r >>= f) >>= g)
  bind_assoc (ok x) f g = refl
  bind_assoc (err e) f g = refl
