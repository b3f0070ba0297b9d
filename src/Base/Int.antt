-- ===== src/Base/Int.antt =====
-- Integers over the native numbers; they serve as the scaled values of the tests.
use Prim.Native.Nat.{ℕ, suc, ◌+◌, ◌-◌, ◌*◌, ◌/◌, ◌≤◌}
use mathlib.Core.Bool.{Bool, true, false}
use criptotrade.Base.Tests.{ltb, leb, if◌then◌else◌}

-- `negsuc n` is -(n + 1).
pub data ℤ : Type 0 where
  pos : ℕ → ℤ
  negsuc : ℕ → ℤ

abbrev pub pos_part : ℤ → ℕ
pos_part (pos n) = n
pos_part (negsuc n) = 0

abbrev pub neg_part : ℤ → ℕ
neg_part (pos n) = 0
neg_part (negsuc n) = suc n

abbrev pub sub_ℕ : ℕ → ℕ → ℤ
sub_ℕ a b = if leb b a then pos (a - b) else negsuc (b - a - 1)

infixl 65 ◌+ℤ◌ ◌-ℤ◌
infixl 70 ◌*ℤ◌
infix 50 ◌≤ℤ◌
unfoldable pub ◌+ℤ◌ : ℤ → ℤ → ℤ
a +ℤ b = sub_ℕ (pos_part a + pos_part b) (neg_part a + neg_part b)

unfoldable pub ◌-ℤ◌ : ℤ → ℤ → ℤ
a -ℤ b = sub_ℕ (pos_part a + neg_part b) (neg_part a + pos_part b)

unfoldable pub ◌*ℤ◌ : ℤ → ℤ → ℤ
a *ℤ b =
    sub_ℕ (pos_part a * pos_part b + neg_part a * neg_part b)
      (pos_part a * neg_part b + neg_part a * pos_part b)

abbrev pub ◌≤ℤ◌ : ℤ → ℤ → Type 0
a ≤ℤ b = pos_part a + neg_part b ≤ pos_part b + neg_part a

abbrev pub ltb_ℤ : ℤ → ℤ → Bool
ltb_ℤ a b = ltb (pos_part a + neg_part b) (pos_part b + neg_part a)

abbrev pub leb_ℤ : ℤ → ℤ → Bool
leb_ℤ a b = leb (pos_part a + neg_part b) (pos_part b + neg_part a)

-- The magnitude divided, with the sign given by the test.
abbrev pub signed : Bool → ℕ → ℤ
signed positive n = if positive then pos n else pos 0 -ℤ pos n

abbrev pub is_pos : ℤ → Bool
is_pos (pos n) = true
is_pos (negsuc n) = false

abbrev pub same_sign : Bool → Bool → Bool
same_sign true b = b
same_sign false true = false
same_sign false false = true

abbrev pub magnitude : ℤ → ℕ
magnitude (pos n) = n
magnitude (negsuc n) = suc n

-- `a * scale / b`, toward zero.
unfoldable pub div_scaled : ℕ → ℤ → ℤ → ℤ
unfolding ◌-ℤ◌
div_scaled scale a b = signed (same_sign (is_pos a) (is_pos b)) (magnitude a * scale / magnitude b)

-- `a * b / scale`, toward zero.
unfoldable pub mul_scaled : ℕ → ℤ → ℤ → ℤ
unfolding ◌-ℤ◌
mul_scaled scale a b = signed (same_sign (is_pos a) (is_pos b)) (magnitude a * magnitude b / scale)
