-- ===== src/Execution/Rounding.antt =====
-- `_round_qty` and `_round_price`. They compute on `Decimal`, so an amount is a whole number of a
-- unit that is a power of ten and divides all of them. Amounts of the exchange's filters are not
-- negative.
use trading_binance.Base.{
  ℕ, ◌+◌, ◌*◌, ◌/◌, ◌≤◌, ◌<◌, ◌≡◌, Option, none, some, arith, max, min, ◌==◌, if◌then◌else◌, ◌⊎◌,
  ◌∙◌, ap, sym,
}
use native.Mathlib.Nat.{
  mul-le-mul, div-mul-le_self, lt-div-mul-add, mul-div_cancel, le-div_iff_mul-le,
}
use trading_binance.Py.{Call, answer, exception, value_error}

-- `(qty_dec // step_dec) * step_dec`; a step that is not positive rounds nothing
unfoldable pub round_qty : ℕ → ℕ → ℕ
round_qty step qty = if step == 0 then qty else qty / step * step

-- `if min_price` or else one tick
abbrev pub least_price : ℕ → ℕ → ℕ
least_price tick min_price = if min_price == 0 then tick else min_price

-- `if max_price: rounded = min(rounded, max_price)`
abbrev pub capped : ℕ → ℕ → ℕ
capped max_price rounded = if max_price == 0 then rounded else min rounded max_price

-- `none` is a price that is None, NaN or negative.
unfoldable pub round_price : ℕ → ℕ → ℕ → Option ℕ → Call ℕ
round_price tick min_price max_price none = exception value_error
round_price tick min_price max_price (some price) =
    if price == 0
    then exception value_error
    else if tick == 0
    then exception value_error
    else answer (capped max_price (max (price / tick * tick) (least_price tick min_price)))

round_qty_lem : (step qty : ℕ) → 0 < step → round_qty step qty ≡ qty / step * step
unfolding round_qty
round_qty_lem step qty pos = ground arith

le_refl : (n : ℕ) → n ≤ n
le_refl n = ground arith

-- A quantity is rounded down to a whole number of steps, by less than one step; what is rounded
-- stays as it is, and no whole number of steps lies between it and the quantity.
pub round_qty_floors :
    (step qty : ℕ)
    → 0 < step
    → (round_qty step qty ≤ qty)
      × (qty < round_qty step qty + step)
      × (round_qty step (round_qty step qty) ≡ round_qty step qty)
      × ((n : ℕ) → n * step ≤ qty → n * step ≤ round_qty step qty)
round_qty_floors step qty pos = (
  rw (round_qty_lem step qty pos) (div-mul-le_self qty step),
  rw (round_qty_lem step qty pos) (lt-div-mul-add {a = qty} pos),
  round_qty_lem step _ pos
      ∙ ap (λ x. x / step * step) (round_qty_lem step qty pos)
      ∙ ap (λ x. x * step) (mul-div_cancel (qty / step) pos)
      ∙ sym (round_qty_lem step qty pos),
  λ n h. rw (round_qty_lem step qty pos) (mul-le-mul ((le-div_iff_mul-le pos).1 h) (le_refl step)),
)

module _ (tick min_price max_price : ℕ) where
  abbrev clamp : ℕ → ℕ
  clamp floor = capped max_price (max floor (least_price tick min_price))

  clamp_pos :
      (floor : ℕ)
      → 0 < tick
      → ((max_price ≡ 0) ⊎ (least_price tick min_price ≤ max_price))
      → 0 < clamp floor
  clamp_pos floor t limits = ground arith

  clamp_least :
      (floor : ℕ)
      → ((max_price ≡ 0) ⊎ (least_price tick min_price ≤ max_price))
      → min_price ≤ clamp floor
  clamp_least floor limits = ground arith

  clamp_most : (floor : ℕ) → (max_price ≡ 0) ⊎ (clamp floor ≤ max_price)
  clamp_most floor = ground arith

  clamp_near :
      (price floor : ℕ)
      → floor ≤ price
      → price < floor + tick
      → ((clamp floor ≤ price) × (price < clamp floor + tick))
        ⊎ (clamp floor ≡ least_price tick min_price)
        ⊎ (clamp floor ≡ max_price)
  clamp_near price floor le lt = ground arith

-- Where the filter's limits admit the least price, a valid price becomes one that the exchange
-- takes: positive and between its limits. It is the price rounded down to a tick, by less than a
-- tick, unless a limit replaces that.
pub round_price_fits :
    (tick min_price max_price price : ℕ)
    → 0 < price
    → 0 < tick
    → ((max_price ≡ 0) ⊎ (least_price tick min_price ≤ max_price))
    → (r : ℕ) × (round_price tick min_price max_price (some price) ≡ answer r)
      × (0 < r)
      × (min_price ≤ r)
      × ((max_price ≡ 0) ⊎ (r ≤ max_price))
      × (((r ≤ price) × (price < r + tick)) ⊎ (r ≡ least_price tick min_price) ⊎ (r ≡ max_price))
unfolding round_price
round_price_fits tick min_price max_price price p t limits = (
  clamp tick min_price max_price (price / tick * tick),
  ground arith,
  clamp_pos tick min_price max_price _ t limits,
  clamp_least tick min_price max_price _ limits,
  clamp_most tick min_price max_price _,
  clamp_near tick min_price max_price price _ (div-mul-le_self price tick)
      (lt-div-mul-add {a = price} t),
)
