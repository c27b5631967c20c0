-- ===== src/Base/Equality.antt =====
-- Equality tests as an interface, with instances for the types that the program compares.
use Prim.Native.Nat.{ℕ}
use Prim.Native.String.{String}
use mathlib.Core.Path.{◌≡◌, refl}
use mathlib.Core.Logic.{◌↔◌, ◌⊎◌, inl, inr}
use mathlib.Core.Bool.{Bool, true, false, ◌&&◌}
use mathlib.Core.List.{List, [], ◌∷◌}
use native.Mathlib.Omega.{arith}
use text.Mathlib.Text.{◌==◌ as string_beq}
use text.Mathlib.TextEquality.{eq_iff}
use lvos.Base.Tests.{nat_beq, nat_beq_iff}
use lvos.Base.Int.{ℤ, int_beq, int_beq_iff}

pub record Eq {ℓ} (A : Type ℓ) : Type ℓ where
  pub beq : A → A → Bool
  pub beq_iff : (a b : A) → (beq a b ≡ true) ↔ (a ≡ b)

instance abbrev pub int_eq : Eq ℤ
int_eq = record { beq_iff = int_beq_iff; beq = int_beq }

instance abbrev pub string_eq : Eq String
string_eq = record { beq_iff = eq_iff; beq = string_beq }

instance abbrev pub nat_eq : Eq ℕ
nat_eq = record { beq_iff = nat_beq_iff; beq = nat_beq }

infix 50 ◌==◌
abbrev pub ◌==◌ {ℓ} : {A : Type ℓ} ⦃e : Eq A⦄ → A → A → Bool
◌==◌ ⦃e⦄ = e.beq

module _ {ℓ} {A : Type ℓ} ⦃e : Eq A⦄ where
  pub ==_refl : (a : A) → (a == a) ≡ true
  ==_refl a = (e.beq_iff a a).1 refl

  pub ==_cases : (a b : A) → ((a == b) ≡ true) × (a ≡ b) ⊎ ((a == b) ≡ false) × ¬ (a ≡ b)
  ==_cases a b = go (a == b) refl
    where
      go : (t : Bool) → (a == b) ≡ t → ((a == b) ≡ true) × (a ≡ b) ⊎ ((a == b) ≡ false) × ¬ (a ≡ b)
      go true h = inl (h, (e.beq_iff a b).0 h)
      go false h = inr (h, λ p. cc ((e.beq_iff a b).1 p))

  abbrev pub list_beq : List A → List A → Bool
  list_beq [] [] = true
  list_beq (a ∷ as') (b ∷ bs) = a == b && list_beq as' bs
  list_beq _ _ = false

  pub list_beq_iff : (as' bs : List A) → (list_beq as' bs ≡ true) ↔ (as' ≡ bs)
  list_beq_iff [] [] = ground arith
  list_beq_iff [] (b ∷ bs) = ground arith
  list_beq_iff (a ∷ as') [] = ground arith
  list_beq_iff (a ∷ as') (b ∷ bs) = ground (arith, e.beq_iff a b, list_beq_iff as' bs)

  instance abbrev pub list_eq : Eq (List A)
  list_eq = record { beq = list_beq; beq_iff = list_beq_iff }

module _ {ℓ κ} {A : Type ℓ} {B : Type κ} ⦃d : Eq A⦄ ⦃e : Eq B⦄ where
  abbrev pub pair_beq : A × B → A × B → Bool
  pair_beq p q = d.beq p.0 q.0 && e.beq p.1 q.1

  pub pair_beq_iff : (p q : A × B) → (pair_beq p q ≡ true) ↔ (p ≡ q)
  pair_beq_iff p q = ground (arith, d.beq_iff p.0 q.0, e.beq_iff p.1 q.1)

  instance abbrev pub pair_eq : Eq (A × B)
  pair_eq = record { beq = pair_beq; beq_iff = pair_beq_iff }
