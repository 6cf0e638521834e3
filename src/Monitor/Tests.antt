-- ===== src/Monitor/Tests.antt =====
-- The review of a running trade on a small frame.
use trading_binance.Base.{ℕ, List, [], ◌∷◌, map}
use trading_binance.Num.{lit, zero_float}
use trading_binance.Num.Fixed.{Fixed, fixed_float}
use trading_binance.Indicators.{Pandas, Bar}
use trading_binance.Monitor.{ReviewSettings}

-- averages that are the series itself
abbrev pandas : Pandas Fixed
pandas = record {
  ewm_span = λ series period. series;
  ewm_alpha = λ series period. series;
  rolling_mean = λ series period. series;
  series_min = λ series. zero_float;
  series_max = λ series. zero_float;
  series_mean = λ series. zero_float;
}

abbrev cfg : ReviewSettings Fixed
cfg = record {
  ema_fast_period = 2;
  ema_mid_period = 3;
  ema_trend_period = 3;
  volume_avg_window = 2;
  trend_slope_min = lit 1 2;
}

abbrev bar : ℕ → Bar Fixed
bar n = record {
  open_price = lit 10 0;
  high = lit 12 0;
  low = lit 9 0;
  close = lit n 0;
  volume = lit 5 0;
}

abbrev df : List (Bar Fixed)
df = bar 10 ∷ bar 11 ∷ bar 11 ∷ bar 10 ∷ bar 9 ∷ []

abbrev closes : List Fixed
closes = map (λ b. b.close) df
