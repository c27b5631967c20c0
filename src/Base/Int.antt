-- ===== src/Base/Int.antt =====
-- Signed integers over the native numbers (`i64` values of the program), with their order.
use Prim.Native.Nat.{ℕ, suc, ◌+◌, ◌-◌, ◌≤◌}
use mathlib.Core.Path.{◌≡◌}
use mathlib.Core.Logic.{◌↔◌}
use mathlib.Core.Bool.{Bool, true, false}
use native.Mathlib.Omega.{arith}
use lvos.Base.Tests.{leb, nat_beq, if◌then◌else◌}
use lvos.Base.Word.{i64_limit}

-- `negsuc n` is -(n + 1).
pub data ℤ : Type 0 where
  pos : ℕ → ℤ
  negsuc : ℕ → ℤ

abbrev pub pos_part : ℤ → ℕ
pos_part (pos n) = n
pos_part (negsuc n) = 0

abbrev pub neg_part : ℤ → ℕ
neg_part (pos n) = 0
neg_part (negsuc n) = suc n

infix 50 ◌≤ℤ◌
abbrev pub ◌≤ℤ◌ : ℤ → ℤ → Type 0
a ≤ℤ b = pos_part a + neg_part b ≤ pos_part b + neg_part a

abbrev pub leb_ℤ : ℤ → ℤ → Bool
leb_ℤ a b = leb (pos_part a + neg_part b) (pos_part b + neg_part a)

abbrev pub min_ℤ : ℤ → ℤ → ℤ
min_ℤ a b = if leb_ℤ a b then a else b

abbrev pub max_ℤ : ℤ → ℤ → ℤ
max_ℤ a b = if leb_ℤ b a then a else b

-- The integer `m - n`.
abbrev pub difference : ℕ → ℕ → ℤ
difference m n = if leb n m then pos (m - n) else negsuc (n - m - 1)

-- `a.saturating_sub(b)` on `i64`.
abbrev pub saturating_sub : ℤ → ℤ → ℤ
saturating_sub a b =
    max_ℤ (negsuc (i64_limit - 1))
      (min_ℤ (pos (i64_limit - 1)) (difference (pos_part a + neg_part b) (pos_part b + neg_part a)))

abbrev pub int_beq : ℤ → ℤ → Bool
int_beq (pos m) (pos n) = nat_beq m n
int_beq (negsuc m) (negsuc n) = nat_beq m n
int_beq _ _ = false

pub int_beq_iff : (a b : ℤ) → (int_beq a b ≡ true) ↔ (a ≡ b)
int_beq_iff a b = ground arith
