-- ===== src/Common/Outcome.antt =====
-- How a call of the program ends: with a value, with an error, or in a panic.
use mathlib.Core.Path.{◌≡◌, refl, ap}
use mathlib.Core.Bool.{Bool, true, false}

pub data Outcome {ℓ κ} (E : Type ℓ) (A : Type κ) : Type (ℓ ⊔ κ) where
  ok : A → Outcome E A
  err : E → Outcome E A
  panic : Outcome E A

infixl 5 ◌>>=◌ ◌>>◌
abbrev pub ◌>>=◌ {ℓ κ μ} :
    {E : Type ℓ} {A : Type κ} {B : Type μ} → Outcome E A → (A → Outcome E B) → Outcome E B
ok a >>= f = f a
err e >>= f = err e
panic >>= f = panic

abbrev pub ◌>>◌ {ℓ μ} : {E : Type ℓ} {B : Type μ} → Outcome E (Unit {0}) → Outcome E B → Outcome E B
m >> k = m >>= λ _. k

-- `assert!`.
abbrev pub require {ℓ} : {E : Type ℓ} → Bool → Outcome E (Unit {0})
require true = ok tt
require false = panic

-- `?` on a call whose error type is another one, by `From`.
abbrev pub map_err {ℓ κ μ} :
    {E : Type ℓ} {F : Type κ} {A : Type μ} → (E → F) → Outcome E A → Outcome F A
map_err f (ok a) = ok a
map_err f (err e) = err (f e)
map_err f panic = panic

-- A chain that returns: its first call returned, and the rest did on its value.
pub returned {ℓ κ μ} :
    {E : Type ℓ} {A : Type κ} {C : Type μ} (m : Outcome E A) (f : A → Outcome E C) (c : C)
    → (m >>= f) ≡ ok c
    → (a : A) × (m ≡ ok a) × (f a ≡ ok c)
returned (ok a) f c e = (a, refl, e)
returned (err x) f c e = cc
returned panic f c e = cc

pub ok_injective {ℓ κ} :
    {E : Type ℓ} {A : Type κ} (a b : A) → ◌≡◌ {A = Outcome E A} (ok a) (ok b) → a ≡ b
ok_injective a b e = ap (λ o. elim o [ ok x ↦ x | err _ ↦ a | panic ↦ a ]) e
