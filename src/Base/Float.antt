-- ===== src/Base/Float.antt =====
-- Python's floats: the operations that the code uses, the laws of IEEE comparison that the
-- theorems use, and fixed-point numbers that meet them.
use Prim.Native.Nat.{ℕ, ◌-◌, ◌*◌, ◌/◌, ◌^◌}
use Prim.Native.String.{String, ◌++◌}
use mathlib.Core.Path.{◌≡◌}
use mathlib.Core.Bool.{Bool, true, false}
use native.Mathlib.Omega.{arith}
use criptotrade.Base.Tests.{nat_eq, if◌then◌else◌}
use criptotrade.Base.Text.{show_digits}
use criptotrade.Base.Int.{ℤ, pos, magnitude, ◌+ℤ◌, ◌-ℤ◌, ltb_ℤ, leb_ℤ, div_scaled, mul_scaled}

pub record Float (F : Type 0) : Type 0 where
  -- The literal `n` with the decimal point moved `k` places: `lit 25 1` is 2.5.
  pub lit : ℕ → ℕ → F
  pub add : F → F → F
  pub sub : F → F → F
  pub mul : F → F → F
  pub div : F → F → F
  pub lt : F → F → Bool
  pub le : F → F → Bool
  -- `x == 0`, the test of `if x` and `x or d`
  pub is_zero : F → Bool
  -- `round(x, k)`
  pub round : F → ℕ → F
  -- `f"{x}"` and `f"{x:.kf}"`
  pub show : F → String
  pub show_to : ℕ → F → String

-- What every IEEE comparison satisfies, NaN included.
pub record IsOrdered (F : Type 0) ⦃fl : Float F⦄ : Type 0 where
  pub le_trans : (a b c : F) → fl.le a b ≡ true → fl.le b c ≡ true → fl.le a c ≡ true
  pub lt-not-le : (a b : F) → fl.lt a b ≡ true → fl.le b a ≡ false
  pub lt-le : (a b : F) → fl.lt a b ≡ true → fl.le a b ≡ true
  pub le-lt_trans : (a b c : F) → fl.le a b ≡ true → fl.lt b c ≡ true → fl.lt a c ≡ true

module _ {F : Type 0} ⦃fl : Float F⦄ where
  abbrev pub nought : F
  nought = fl.lit 0 0

  abbrev pub one : F
  one = fl.lit 1 0

  abbrev pub hundred : F
  hundred = fl.lit 100 0

  -- `-x`
  abbrev pub neg : F → F
  neg x = fl.sub nought x

  -- `min(a, b)` and `max(a, b)` keep the first argument unless the second is strictly better.
  abbrev pub min : F → F → F
  min a b = if fl.lt b a then b else a

  abbrev pub max : F → F → F
  max a b = if fl.lt a b then b else a

  abbrev pub abs : F → F
  abs x = if fl.lt x nought then neg x else x

  -- `x or 0.0` has the value of `x` at every number.
  abbrev pub is_pos : F → Bool
  is_pos x = fl.lt nought x

-- Six decimals.
abbrev pub scale : ℕ
scale = 1000000

abbrev pub fixed_round : ℤ → ℕ → ℤ
fixed_round x k =
    let unit = 10 ^ (6 - k) in
    if ltb_ℤ x (pos 0)
    then pos 0 -ℤ pos ((magnitude x) / unit * unit)
    else pos ((magnitude x) / unit * unit)

-- The integral part is printed; tests do not look at the decimals.
abbrev show_fixed : ℤ → ℕ → String
show_fixed x k =
    let digits = show_digits 12 (magnitude x / scale) "" in
    if ltb_ℤ x (pos 0) then "-" ++ digits else digits

instance abbrev pub fixed : Float ℤ
fixed = record {
  lit = λ n k. pos (n * 10 ^ (6 - k));
  add = λ a b. a +ℤ b;
  sub = λ a b. a -ℤ b;
  mul = mul_scaled scale;
  div = div_scaled scale;
  lt = ltb_ℤ;
  le = leb_ℤ;
  is_zero = λ x. nat_eq (magnitude x) 0;
  round = fixed_round;
  show = λ x. show_fixed x 6;
  show_to = λ k x. show_fixed x k;
}

pub fixed-IsOrdered : IsOrdered ℤ
fixed-IsOrdered = record {
  le_trans = λ a b c p q. ground arith;
  lt-not-le = λ a b p. ground arith;
  lt-le = λ a b p. ground arith;
  le-lt_trans = λ a b c p q. ground arith;
}
