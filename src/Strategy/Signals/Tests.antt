-- ===== src/Strategy/Signals/Tests.antt =====
-- Runs of `evaluate_signal` on fixed-point numbers, and the theorems at those inputs.
use trading_binance.Base.{ℕ, arith, ◌≡◌, refl, List, [], ◌∷◌, some}
use trading_binance.Num.{lit}
use trading_binance.Num.Fixed.{Fixed, fixed_float, Fixed-IsFloat}
use trading_binance.Indicators.{Pandas, Bar}
use trading_binance.Indicators.Lengths.{IsPandas}
use trading_binance.Strategy.Eval.{
  value, ◌>>=◌, pure, stop_if, reject_if, choose, found, divided, ratio_or, of_call,
}
use trading_binance.Py.{and_then}
use trading_binance.Strategy.Eval.Post.{Outcome, Any}
use trading_binance.Strategy.Frame.{
  StrategyConfig, plain, Signal, sell, short_mr, row_back, any_nan, htf_trend, context_length,
}
use trading_binance.Strategy.Profile.{m15_short, is_strict}
use trading_binance.Strategy.Short.{
  evaluate_short_15m, required, required_conf, check_extension, check_candle,
  check_short_confirmation, short_htf_penalty, short_score, short_signal as short_step,
}
use trading_binance.Strategy.Signals.{
  MainFrame, column_call, evaluate_signal, with_indicators, zip_rows, dispatch, min_len,
}
use trading_binance.Strategy.Signals.Sound.{
  side_of, IsOrdered, HasPeriods, evaluate_signal_accounts, evaluate_signal_orders_levels,
}

abbrev pub dec : ℕ → ℕ → Fixed
dec n d = lit n d

-- A pandas whose averages are the series themselves.
abbrev pub identity_pandas : Pandas Fixed
identity_pandas = record {
  ewm_span = λ series period. series;
  ewm_alpha = λ series period. series;
  rolling_mean = λ series window. series;
  series_min = λ series. dec 0 0;
  series_max = λ series. dec 0 0;
  series_mean = λ series. dec 1 0;
}

pub identity_pandas-IsPandas : IsPandas identity_pandas
identity_pandas-IsPandas = record {
  length_ewm_span = λ s p pos. refl;
  length_ewm_alpha = λ s p pos. refl;
}

abbrev pub config : StrategyConfig Fixed
config = record {
  ema_fast = 1;
  ema_mid = 1;
  ema_trend = 1;
  atr_period = 1;
  atr_avg_window = 0;
  volume_avg_window = 0;
  rsi_period = 1;
  rsi_long_min = dec 48 0;
  rsi_long_max = dec 68 0;
  volume_min_ratio = dec 105 2;
  volume_max_ratio = dec 15 1;
  pullback_tolerance_atr = dec 8 1;
  min_ema_spread_atr = dec 15 2;
  max_ema_spread_atr = dec 1 0;
  min_body_ratio = dec 35 2;
  rr_target = dec 2 0;
  min_risk_atr = dec 5 1;
  max_risk_atr = dec 4 0;
  min_score = dec 15 1;
  context_missing_penalty = dec 5 1;
  max_atr_avg_ratio = dec 25 1;
}

pub config-HasPeriods : HasPeriods config
config-HasPeriods = (omega arith, omega arith, omega arith, omega arith, omega arith)

abbrev pub bar : Fixed → Fixed → Fixed → Fixed → Fixed → Bar Fixed
bar o h l c v = record { open_price = o; high = h; low = l; close = c; volume = v }

abbrev pub four_of : Fixed → List Fixed
four_of x = x ∷ x ∷ x ∷ x ∷ []

-- An overextended candle and its confirmation.
abbrev pub frame : MainFrame Fixed
frame = record {
  bars =
      bar (dec 100 0) (dec 101 0) (dec 99 0) (dec 100 0) (dec 10 0)
      ∷ bar (dec 100 0) (dec 101 0) (dec 99 0) (dec 100 0) (dec 10 0)
      ∷ bar (dec 1024 1) (dec 1026 1) (dec 100 0) (dec 1002 1) (dec 15 0)
      ∷ bar (dec 1001 1) (dec 1002 1) (dec 994 1) (dec 995 1) (dec 10 0)
      ∷ [];
  close_times = "t0" ∷ "t1" ∷ "t2" ∷ "t3" ∷ [];
  ema_fast = some (four_of (dec 100 0));
  ema_mid = some (four_of (dec 995 1));
  ema_trend = some (four_of (dec 99 0));
  atr = some (four_of (dec 1 0));
  atr_avg = some (four_of (dec 1 0));
  avg_vol = some (four_of (dec 10 0));
  rsi = some (four_of (dec 72 0));
}

abbrev pub sold : Signal Fixed
sold = record {
  side = sell;
  price = dec 995 1;
  stop_price = dec 1029 1;
  tp_price = dec 944 1;
  risk_per_unit = dec 34 1;
  rr_target = dec 15 1;
  atr = dec 1 0;
  score = dec 165 2;
  htf_bias = short_mr;
  strategy = "mean_reversion_short_15m";
  breakout_time = "t3";
}

-- The strict short engine runs through to its signal.
short_runs :
    evaluate_signal identity_pandas frame (plain []) config m15_short (some [])
    ≡ (value sold, some [])
unfolding evaluate_signal with_indicators zip_rows dispatch min_len is_strict ◌>>=◌ pure stop_if
    of_call and_then column_call reject_if choose found divided ratio_or row_back any_nan htf_trend
    context_length evaluate_short_15m required required_conf check_extension check_candle
    check_short_confirmation short_htf_penalty short_score short_step
short_runs = refl

evaluate_signal_accounts_example :
    Outcome ⊥ Any
      (some [])
      (evaluate_signal identity_pandas frame (plain []) config m15_short (some []))
evaluate_signal_accounts_example =
    evaluate_signal_accounts Fixed-IsFloat identity_pandas identity_pandas-IsPandas frame (plain [])
      config m15_short (some []) config-HasPeriods

evaluate_signal_orders_levels_example :
    (sell ≡ side_of (is_strict config) m15_short)
    × IsOrdered (side_of (is_strict config) m15_short) sold
evaluate_signal_orders_levels_example =
    evaluate_signal_orders_levels Fixed-IsFloat identity_pandas identity_pandas-IsPandas frame
      (plain []) config m15_short sold (some []) (some []) short_runs refl refl refl refl
