-- ===== src/Base/Fallible.antt =====
-- Fallible code: a value or an error, with `do` blocks.
use mathlib.Core.Path.{◌≡◌, refl}
use mathlib.Core.Bool.{Bool, true, false}
use mathlib.Core.Option.{Option, none, some}
use mathlib.Core.Logic.{◌⊎◌, inl, inr}

pub data Result {ℓ κ} (E : Type κ) (A : Type ℓ) : Type (ℓ ⊔ κ) where
  ok : A → Result E A
  err : E → Result E A

infixl 5 ◌>>=◌
abbrev pub ◌>>=◌ {ℓ κ μ} :
    {E : Type μ} {A : Type ℓ} {B : Type κ} → Result E A → (A → Result E B) → Result E B
err e >>= next = err e
ok a >>= next = next a

-- `if !test { return Err(e) }`
abbrev pub guard {μ} : {E : Type μ} → Bool → E → Result E (Unit {0})
guard true e = ok tt
guard false e = err e

-- `Option::ok_or`
abbrev pub ok_or {ℓ μ} : {E : Type μ} {A : Type ℓ} → Option A → E → Result E A
ok_or none e = err e
ok_or (some a) e = ok a

infixl 5 ◌>>◌
abbrev pub ◌>>◌ {κ μ} : {E : Type μ} {B : Type κ} → Result E (Unit {0}) → Result E B → Result E B
first >> second = first >>= λ _. second

module _ {ℓ κ μ} {E : Type μ} {A : Type ℓ} {B : Type κ} where
  -- A chain that succeeded: its first step gave a value, which the others took.
  pub >>=-eq-ok :
      (first : Result E A) (next : A → Result E B) {value : B}
      → (first >>= next) ≡ ok value
      → (middle : A) × (first ≡ ok middle) × (next middle ≡ ok value)
  >>=-eq-ok (err failure) next same = cc
  >>=-eq-ok (ok middle) next same = (middle, refl, same)

module _ {ℓ μ} {E : Type μ} {A : Type ℓ} where
  pub Result-cases : (m : Result E A) → ((a : A) × (m ≡ ok a)) ⊎ ((e : E) × (m ≡ err e))
  Result-cases (ok a) = inl (a, refl)
  Result-cases (err e) = inr (e, refl)
