-- ===== src/Prelude/Int.antt =====
-- Signed integers over the native numbers, under the library's names (its ℤ stands on the unary ℕ).
use Prim.Native.Nat.{ℕ, suc, ◌+◌, ◌-◌, ◌*◌, ◌≤◌}
use mathlib.Core.Path.{◌≡◌, ap}
use mathlib.Core.Bool.{Bool}
use native.Mathlib.Omega.{arith}
use order_management_system.Prelude.Tests.{ltb, leb, if◌then◌else◌}

-- `negsuc n` is -(n + 1).
pub data ℤ : Type 0 where
  pos : ℕ → ℤ
  negsuc : ℕ → ℤ

abbrev pub pos_part : ℤ → ℕ
pos_part (pos n) = n
pos_part (negsuc n) = 0

abbrev pub neg_part : ℤ → ℕ
neg_part (pos n) = 0
neg_part (negsuc n) = suc n

-- a - b, as an integer.
abbrev pub sub_ℕ : ℕ → ℕ → ℤ
sub_ℕ a b = if leb b a then pos (a - b) else negsuc (b - a - 1)

abbrev pub abs : ℤ → ℕ
abs a = pos_part a + neg_part a

infixl 65 ◌+ℤ◌ ◌-ℤ◌
infixl 70 ◌*ℤ◌
infix 50 ◌≤ℤ◌
unfoldable pub ◌+ℤ◌ : ℤ → ℤ → ℤ
a +ℤ b = sub_ℕ (pos_part a + pos_part b) (neg_part a + neg_part b)

unfoldable pub ◌-ℤ◌ : ℤ → ℤ → ℤ
a -ℤ b = sub_ℕ (pos_part a + neg_part b) (neg_part a + pos_part b)

unfoldable pub ◌*ℤ◌ : ℤ → ℤ → ℤ
a *ℤ b =
    sub_ℕ (pos_part a * pos_part b + neg_part a * neg_part b)
      (pos_part a * neg_part b + neg_part a * pos_part b)

abbrev pub ◌≤ℤ◌ : ℤ → ℤ → Type 0
a ≤ℤ b = pos_part a + neg_part b ≤ pos_part b + neg_part a

abbrev pub ltb_ℤ : ℤ → ℤ → Bool
ltb_ℤ a b = ltb (pos_part a + neg_part b) (pos_part b + neg_part a)

-- With these the operations can stay shut.
pub +ℤ_parts :
    (a b : ℤ)
    → pos_part (a +ℤ b) + neg_part a + neg_part b ≡ neg_part (a +ℤ b) + pos_part a + pos_part b
unfolding ◌+ℤ◌
+ℤ_parts a b = ground arith

pub -ℤ_parts :
    (a b : ℤ)
    → pos_part (a -ℤ b) + neg_part a + pos_part b ≡ neg_part (a -ℤ b) + pos_part a + neg_part b
unfolding ◌-ℤ◌
-ℤ_parts a b = ground arith

pub *ℤ_parts :
    (a b : ℤ)
    → pos_part (a *ℤ b) + (pos_part a * neg_part b + neg_part a * pos_part b)
      ≡ neg_part (a *ℤ b) + (pos_part a * pos_part b + neg_part a * neg_part b)
unfolding ◌*ℤ◌
*ℤ_parts a b = ground arith

pub eq_of_parts : (a b : ℤ) → pos_part a + neg_part b ≡ pos_part b + neg_part a → a ≡ b
eq_of_parts a b h = ground arith

pub ruleset int_laws = (arith, +ℤ_parts, -ℤ_parts, eq_of_parts)

-- Products with a number, as numbers.
pub scale_parts :
    (a : ℕ) (c : ℤ)
    → pos_part (pos a *ℤ c) + a * neg_part c ≡ neg_part (pos a *ℤ c) + a * pos_part c
unfolding ◌*ℤ◌
scale_parts a c = ground arith

pub scale_sub : (a b : ℕ) (c : ℤ) → (pos a -ℤ pos b) *ℤ c ≡ pos a *ℤ c -ℤ pos b *ℤ c
scale_sub a b c = eq_of_parts _ _ (
    ground (
      arith,
      *ℤ_parts (pos a -ℤ pos b) c,
      -ℤ_parts (pos a) (pos b),
      -ℤ_parts (pos a *ℤ c) (pos b *ℤ c),
      scale_parts a c,
      scale_parts b c,
      ap (λ (t : ℕ). t * pos_part c) (-ℤ_parts (pos a) (pos b)),
      ap (λ (t : ℕ). t * neg_part c) (-ℤ_parts (pos a) (pos b)),
    ))

pub scale_add : (a : ℕ) (b c : ℤ) → pos a *ℤ (b +ℤ c) ≡ pos a *ℤ b +ℤ pos a *ℤ c
scale_add a b c = eq_of_parts _ _ (
    ground (
      arith,
      +ℤ_parts b c,
      +ℤ_parts (pos a *ℤ b) (pos a *ℤ c),
      scale_parts a b,
      scale_parts a c,
      scale_parts a (b +ℤ c),
      ap (λ (t : ℕ). a * t) (+ℤ_parts b c),
    ))
