-- ===== src/Indicators.antt =====
-- indicators.py: the indicator columns. pandas is a parameter: the record `Pandas` names the
-- calls that the program makes of it. A series is a list of floats, NaN among them.
pub mod Lengths
use trading_binance.Base.{
  ℕ, zero, suc, ◌+◌, Bool, ◌||◌, List, [], ◌∷◌, map, Option, none, some, length, ltb, get_elem?,
  ◌-◌, if◌then◌else◌,
}
use trading_binance.Py.{Call, answer, exception, and_then, value_error, zero_division, index_error}
use trading_binance.Num.{Float, zero_float, lit, ◌<?◌, ◌⊖◌, ◌⊕◌, absolute, is_nan}

pub record Pandas (F : Type 0) : Type 0 where
  -- `series.ewm(span=period, adjust=False).mean()`, of a span of at least 1
  pub ewm_span : List F → ℕ → List F
  -- `series.ewm(alpha=1 / period, adjust=False).mean()`, of a period of at least 1
  pub ewm_alpha : List F → ℕ → List F
  -- `series.rolling(window).mean()`
  pub rolling_mean : List F → ℕ → List F
  -- `series.min()`, `series.max()` and `series.mean()`, which skip NaN
  pub series_min : List F → F
  pub series_max : List F → F
  pub series_mean : List F → F

-- A row of the exchange's candles.
pub record Bar (F : Type 0) : Type 0 where
  pub open_price : F
  pub high : F
  pub low : F
  pub close : F
  pub volume : F

pub data Direction : Type 0 where
  up down : Direction

abbrev pub last? : {A : Type 0} → List A → Option A
last? [] = none
last? (x ∷ []) = some x
last? (x ∷ y ∷ ys) = last? (y ∷ ys)

-- `iloc[-2]`
abbrev pub before_last? : {A : Type 0} → List A → Option A
before_last? xs = if ltb (length xs) 2 then none else get_elem? xs (length xs - 2)

module _ {F : Type 0} where
  -- pandas wants a span of at least 1
  unfoldable pub ema : Pandas F → List F → ℕ → Call (List F)
  ema pd series zero = exception value_error
  ema pd series (suc n) = answer (pd.ewm_span series (suc n))

  -- `series.ewm(alpha=1 / period, adjust=False).mean()`
  unfoldable pub ewm_inverse : Pandas F → List F → ℕ → Call (List F)
  ewm_inverse pd series zero = exception zero_division
  ewm_inverse pd series (suc n) = answer (pd.ewm_alpha series (suc n))

module _ {F : Type 0} ⦃fl : Float F⦄ where
  -- The true range of a row, from the close before it; the first row has none, and the maximum
  -- skips the two differences that are NaN there.
  true_range : Pandas F → Option F → Bar F → F
  true_range pd none b = pd.series_max (absolute (b.high ⊖ b.low) ∷ [])
  true_range pd (some prev_close) b = pd.series_max (
      absolute (b.high ⊖ b.low)
      ∷ absolute (b.high ⊖ prev_close)
      ∷ absolute (b.low ⊖ prev_close)
      ∷ [])

  true_ranges : Pandas F → Option F → List (Bar F) → List F
  true_ranges pd prev [] = []
  true_ranges pd prev (b ∷ bars) = true_range pd prev b ∷ true_ranges pd (some b.close) bars

  pub atr_series : Pandas F → List (Bar F) → ℕ → Call (List F)
  atr_series pd bars period = ewm_inverse pd (true_ranges pd none bars) period

  last_atr : List F → F
  last_atr atr = elim (last? atr) [
    | none ↦ zero_float
    | some last ↦ if is_nan last then zero_float else last
  ]

  pub atr_last : Pandas F → List (Bar F) → ℕ → Call F
  atr_last pd bars period =
      if ltb (length bars) 1 || ltb (length bars) (period + 2)
      then answer zero_float
      else and_then (atr_series pd bars period) (λ atr. answer (last_atr atr))

  -- `delta.where(delta > 0, 0.0)` of `delta = series.diff()`, whose first value is NaN
  gains : Option F → List F → List F
  gains prev [] = []
  gains none (x ∷ xs) = zero_float ∷ gains (some x) xs
  gains (some p) (x ∷ xs) =
      (if zero_float <? (x ⊖ p) then x ⊖ p else zero_float) ∷ gains (some x) xs

  -- `-delta.where(delta < 0, 0.0)`
  losses : Option F → List F → List F
  losses prev [] = []
  losses none (x ∷ xs) = (zero_float ⊖ zero_float) ∷ losses (some x) xs
  losses (some p) (x ∷ xs) =
      (zero_float ⊖ (if (x ⊖ p) <? zero_float then x ⊖ p else zero_float)) ∷ losses (some x) xs

  -- 100 - 100 / (1 + rs), where rs = gain / loss
  relative_strength : List F → List F → List F
  relative_strength [] losses_avg = []
  relative_strength (g ∷ gs) [] = []
  relative_strength (g ∷ gs) (l ∷ ls) =
      (lit 100 0 ⊖ fl.quotient (lit 100 0) (lit 1 0 ⊕ fl.quotient g l)) ∷ relative_strength gs ls

  pub rsi : Pandas F → List F → ℕ → Call (List F)
  rsi pd series period = and_then (ewm_inverse pd (gains none series) period) (λ avg_gain.
      and_then (ewm_inverse pd (losses none series) period)
        (λ avg_loss. answer (relative_strength avg_gain avg_loss)))

  -- the last close against the last value of the average, where there is one
  pub direction_of : Option F → Option F → Option Direction
  direction_of none close = none
  direction_of (some last_ema) none = none
  direction_of (some last_ema) (some close) =
      if is_nan last_ema then none else some (if last_ema <? close then up else down)

  unfoldable pub context_direction : Pandas F → List F → ℕ → Call (Option Direction)
  context_direction pd closes ema_period =
      if ltb (length closes) 1 || ltb (length closes) ema_period
      then answer none
      else and_then (ema pd closes ema_period)
          (λ averages. answer (direction_of (last? averages) (last? closes)))

  -- `(last - prev) / prev`, where prev is not zero and neither is NaN
  pub slope_of : F → F → F
  slope_of last prev =
      if fl.eq prev zero_float || is_nan prev || is_nan last
      then zero_float
      else fl.quotient (last ⊖ prev) prev

  abbrev pub slope_if : Option F → Option F → Call F
  slope_if none prev = exception index_error
  slope_if (some last) none = exception index_error
  slope_if (some last) (some prev) = answer (slope_of last prev)

  unfoldable pub context_slope : Pandas F → List F → ℕ → Call F
  context_slope pd closes ema_period =
      if ltb (length closes) 1 || ltb (length closes) (ema_period + 2)
      then answer zero_float
      else and_then (ema pd closes ema_period)
          (λ averages. slope_if (last? averages) (before_last? averages))
