-- ===== src/Num.antt =====
-- Python's `float`, as far as the program uses it: literals, arithmetic, comparisons and rounding.
-- The program computes with IEEE 754 doubles, so the type is abstract here, and the laws below are
-- those that hold of doubles under rounding, with NaN and infinities: none says that arithmetic is
-- exact. `Num/Fixed.antt` has a type that meets them.
pub mod Fixed
use trading_binance.Base.{ℕ, ◌≤◌, ◌<◌, ◌≡◌, Bool, true, false, not, ◌⊎◌, if◌then◌else◌}

pub record Float (F : Type 0) : Type 0 where
  -- the literal n / 10 ^ d
  pub lit : ℕ → ℕ → F
  pub add : F → F → F
  pub sub : F → F → F
  pub mul : F → F → F
  -- numpy's quotient; Python's own raises where the divisor is zero
  pub quotient : F → F → F
  pub absolute : F → F
  -- `round(x, n)`
  pub round_to : F → ℕ → F
  pub lt : F → F → Bool
  pub le : F → F → Bool
  pub eq : F → F → Bool

module _ {F : Type 0} ⦃fl : Float F⦄ where
  infixl 65 ◌⊕◌ ◌⊖◌
  infixl 70 ◌⊗◌
  infix 50 ◌<?◌ ◌≤?◌
  infix 4 ◌≺◌ ◌≼◌
  abbrev pub ◌⊕◌ : F → F → F
  x ⊕ y = fl.add x y

  abbrev pub ◌⊖◌ : F → F → F
  x ⊖ y = fl.sub x y

  abbrev pub ◌⊗◌ : F → F → F
  x ⊗ y = fl.mul x y

  abbrev pub ◌<?◌ : F → F → Bool
  x <? y = fl.lt x y

  abbrev pub ◌≤?◌ : F → F → Bool
  x ≤? y = fl.le x y

  abbrev pub lit : ℕ → ℕ → F
  lit n d = fl.lit n d

  abbrev pub zero_float : F
  zero_float = fl.lit 0 0

  abbrev pub absolute : F → F
  absolute x = fl.absolute x

  -- `x != x`, which is what `pd.isna` tests on a float
  abbrev pub is_nan : F → Bool
  is_nan x = not (fl.eq x x)

  -- `min(x, y)` and `max(x, y)`: the first argument, unless the second is strictly beyond it
  abbrev pub min_float : F → F → F
  min_float x y = if y <? x then y else x

  abbrev pub max_float : F → F → F
  max_float x y = if x <? y then y else x

  abbrev pub ◌≺◌ : F → F → Type 0
  x ≺ y = (x <? y) ≡ true

  abbrev pub ◌≼◌ : F → F → Type 0
  x ≼ y = (x ≤? y) ≡ true

  abbrev pub IsNum : F → Type 0
  IsNum x = fl.eq x x ≡ true

-- What holds of doubles. `IsNum x` says that x is not NaN.
pub record IsFloat (F : Type 0) ⦃fl : Float F⦄ : Type 0 where
  pub num_of_le : (x y : F) → x ≼ y → IsNum x × IsNum y
  pub num_of_lt : (x y : F) → x ≺ y → IsNum x × IsNum y
  pub le_refl : (x : F) → IsNum x → x ≼ x
  pub le_trans : (x y z : F) → x ≼ y → y ≼ z → x ≼ z
  pub lt_of_lt_of_le : (x y z : F) → x ≺ y → y ≼ z → x ≺ z
  pub le_of_lt : (x y : F) → x ≺ y → x ≼ y
  pub not_le_of_lt : (x y : F) → x ≺ y → (y ≤? x) ≡ false
  pub le_or_lt : (x y : F) → IsNum x → IsNum y → (x ≼ y) ⊎ (y ≺ x)
  pub le_of_eq : (x y : F) → fl.eq x y ≡ true → x ≼ y
  -- literals are numbers, and those that are not zero are positive
  pub lit_num : (n d : ℕ) → IsNum (fl.lit n d)
  pub lit_pos : (n d : ℕ) → 0 < n → d ≤ 9 → fl.lit 0 0 ≺ fl.lit n d
  -- gradual underflow: a difference is positive only between distinct numbers
  pub lt_of_sub_pos : (x y : F) → fl.lit 0 0 ≺ x ⊖ y → y ≺ x
  pub le_add : (x y : F) → fl.lit 0 0 ≼ y → IsNum (x ⊕ y) → x ≼ x ⊕ y
  pub sub_le : (x y : F) → fl.lit 0 0 ≼ y → IsNum (x ⊖ y) → x ⊖ y ≼ x
  pub mul_nonneg : (x y : F) → fl.lit 0 0 ≺ x → fl.lit 0 0 ≺ y → fl.lit 0 0 ≼ x ⊗ y
