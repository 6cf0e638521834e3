-- ===== src/Num/Fixed.antt =====
-- A type that meets the laws of `Num`: signed fixed-point numbers with nine decimals. It serves to
-- run the program's functions on concrete inputs.
use native.Mathlib.Nat.{mul-le-mul, pow-suc}
use trading_binance.Base.{
  ℕ, zero, suc, ◌+◌, ◌-◌, ◌*◌, ◌/◌, ◌^◌, ◌<◌, ◌≡◌, Bool, true, ltb, leb, ◌==◌, if◌then◌else◌, arith,
  lt→ltb,
}
use trading_binance.Num.{Float, IsFloat}

-- `plus n` is n / 10^9, and `minus n` is -(n + 1) / 10^9.
pub data Fixed : Type 0 where
  plus : ℕ → Fixed
  minus : ℕ → Fixed

abbrev pub unit : ℕ
unit = 1_000_000_000

abbrev pos_part : Fixed → ℕ
pos_part (plus n) = n
pos_part (minus n) = 0

abbrev neg_part : Fixed → ℕ
neg_part (plus n) = 0
neg_part (minus n) = suc n

abbrev difference : ℕ → ℕ → Fixed
difference a b = if leb b a then plus (a - b) else minus (b - a - 1)

abbrev magnitude : Fixed → ℕ
magnitude x = pos_part x + neg_part x

-- The sign is that of the product of the two.
abbrev signed : Fixed → Fixed → ℕ → Fixed
signed (plus a) (plus b) n = plus n
signed (minus a) (minus b) n = plus n
signed (plus a) (minus b) n = difference 0 n
signed (minus a) (plus b) n = difference 0 n

abbrev add_fixed : Fixed → Fixed → Fixed
add_fixed x y = difference (pos_part x + pos_part y) (neg_part x + neg_part y)

abbrev sub_fixed : Fixed → Fixed → Fixed
sub_fixed x y = difference (pos_part x + neg_part y) (neg_part x + pos_part y)

abbrev mul_fixed : Fixed → Fixed → Fixed
mul_fixed x y = signed x y (magnitude x * magnitude y / unit)

abbrev quotient_fixed : Fixed → Fixed → Fixed
quotient_fixed x y = signed x y (magnitude x * unit / magnitude y)

-- To `d` decimals, half up in magnitude.
abbrev round_fixed : Fixed → ℕ → Fixed
round_fixed x d =
    let step : ℕ = 10 ^ (9 - d) in signed x (plus 0) ((magnitude x + step / 2) / step * step)

abbrev lt_fixed : Fixed → Fixed → Bool
lt_fixed x y = ltb (pos_part x + neg_part y) (pos_part y + neg_part x)

abbrev le_fixed : Fixed → Fixed → Bool
le_fixed x y = leb (pos_part x + neg_part y) (pos_part y + neg_part x)

abbrev eq_fixed : Fixed → Fixed → Bool
eq_fixed x y = (pos_part x + neg_part y) == (pos_part y + neg_part x)

instance abbrev pub fixed_float : Float Fixed
fixed_float = record {
  lit = λ n d. plus (n * 10 ^ (9 - d));
  add = add_fixed;
  sub = sub_fixed;
  mul = mul_fixed;
  quotient = quotient_fixed;
  absolute = λ x. plus (magnitude x);
  round_to = round_fixed;
  lt = lt_fixed;
  le = le_fixed;
  eq = eq_fixed;
}

power_pos : (k : ℕ) → 0 < 10 ^ k
power_pos zero = omega arith
power_pos (suc k) = simp pow-suc (omega (arith, power_pos k))

lit_fixed_pos : (n d : ℕ) → 0 < n → lt_fixed (plus (0 * 10 ^ 9)) (plus (n * 10 ^ (9 - d))) ≡ true
lit_fixed_pos n d h = lt→ltb _ _ (omega (arith, mul-le-mul h (power_pos (9 - d))))

mul_fixed_nonneg :
    (x y : Fixed)
    → lt_fixed (plus 0) x ≡ true
    → lt_fixed (plus 0) y ≡ true
    → le_fixed (plus 0) (mul_fixed x y) ≡ true
mul_fixed_nonneg (plus a) (plus b) h k = ground arith
mul_fixed_nonneg (plus a) (minus b) h k = ground arith
mul_fixed_nonneg (minus a) y h k = ground arith

pub Fixed-IsFloat : IsFloat Fixed
Fixed-IsFloat = record {
  num_of_le = ground arith;
  num_of_lt = ground arith;
  le_refl = ground arith;
  le_trans = ground arith;
  lt_of_lt_of_le = ground arith;
  le_of_lt = ground arith;
  not_le_of_lt = ground arith;
  le_or_lt = ground arith;
  le_of_eq = ground arith;
  lit_num = ground arith;
  lit_pos = λ n d h k. lit_fixed_pos n d h;
  lt_of_sub_pos = ground arith;
  le_add = ground arith;
  sub_le = ground arith;
  mul_nonneg = mul_fixed_nonneg;
}
