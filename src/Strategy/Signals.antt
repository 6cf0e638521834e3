-- ===== src/Strategy/Signals.antt =====
-- `evaluate_signal` of strategy.py: the indicator columns, the choice of the engine, and the
-- EMA-pullback path.
pub mod Sound
pub mod Columns
pub mod Tests
use trading_binance.Base.{
  ℕ, ◌+◌, Bool, true, false, ◌&&◌, String, Option, none, some, List, [], ◌∷◌, map, length, ltb, max,
  if◌then◌else◌,
}
use trading_binance.Num.{Float, zero_float, ◌≤?◌, ◌⊖◌, absolute}
use trading_binance.Indicators.{Pandas, Bar, ema, atr_series, rsi}
use trading_binance.Py.{Call, answer, and_then}
use trading_binance.Strategy.Eval.{of_call, Eval, ◌>>=◌, ◌>>◌, pure, stop_if, choose, divided}
use trading_binance.Strategy.Frame.{
  Candle, StrategyConfig, Context, Signal, row_back, any_nan, htf_trend, Bias,
}
use trading_binance.Strategy.Bos.{evaluate_bos_4h}
use trading_binance.Strategy.Nr4.{evaluate_nr4_1d}
use trading_binance.Strategy.Short.{evaluate_short_15m}
use trading_binance.Strategy.Profile.{
  Interval, m15, h1, h4, d1, m15_short, other, Profile, is_strict, profile,
}
use trading_binance.Strategy.Pullback.{
  required_values, check_trend, check_momentum, score_penalty, check_confirmation,
}
use trading_binance.Strategy.Score.{Measures, pullback_bias, pullback_signal}

-- `main_df`: the rows, and the indicator columns that are there already.
pub record MainFrame (F : Type 0) : Type 0 where
  pub bars : List (Bar F)
  pub close_times : List String
  pub ema_fast : Option (List F)
  pub ema_mid : Option (List F)
  pub ema_trend : Option (List F)
  pub atr : Option (List F)
  pub atr_avg : Option (List F)
  pub avg_vol : Option (List F)
  pub rsi : Option (List F)

-- the column, or what the code assigns where it is missing
abbrev pub column : {A : Type 0} → Option A → A → A
column none computed = computed
column (some present) computed = present

unfoldable pub column_call : {A : Type 0} → Option A → Call A → Call A
column_call none computed = computed
column_call (some present) computed = answer present

module _ {F : Type 0} where
  -- the rows of the frame with all its columns; columns of a frame have one length
  zip_rows :
      List (Bar F)
      → List String
      → List F
      → List F
      → List F
      → List F
      → List F
      → List F
      → List F
      → List (Candle F)
  zip_rows (b ∷ bs) (t ∷ ts) (f ∷ fs) (m ∷ ms) (e ∷ es) (a ∷ as') (g ∷ gs) (v ∷ vs) (r ∷ rs) =
      record {
        open_price = b.open_price;
        high = b.high;
        low = b.low;
        close = b.close;
        volume = b.volume;
        ema_fast = f;
        ema_mid = m;
        ema_trend = e;
        atr = a;
        atr_avg = g;
        avg_vol = v;
        rsi = r;
        close_time = t;
      }
      ∷ zip_rows bs ts fs ms es as' gs vs rs
  zip_rows _ _ _ _ _ _ _ _ _ = []

module _ {F : Type 0} ⦃fl : Float F⦄ where
  -- The rows of the frame with the columns that it lacks.
  pub with_indicators : Pandas F → StrategyConfig F → MainFrame F → Call (List (Candle F))
  with_indicators pd cfg df =
      let closes = map (λ b. b.close) df.bars in
      let volumes = map (λ b. b.volume) df.bars in
      and_then (column_call df.ema_fast (ema pd closes cfg.ema_fast)) λ fast.
        and_then (column_call df.ema_mid (ema pd closes cfg.ema_mid)) λ mid.
          and_then (column_call df.ema_trend (ema pd closes cfg.ema_trend)) λ trend.
            and_then (column_call df.atr (atr_series pd df.bars cfg.atr_period)) λ atr.
              and_then (column_call df.rsi (rsi pd closes cfg.rsi_period)) λ rsi_values. answer (
                zip_rows df.bars df.close_times fast mid trend atr
                  (column df.atr_avg (pd.rolling_mean atr (max 1 cfg.atr_avg_window)))
                  (column df.avg_vol (pd.rolling_mean volumes (max 1 cfg.volume_avg_window)))
                  rsi_values)

  -- The path of the intervals that have no engine of their own.
  evaluate_pullback :
      Pandas F → Bool → Interval → List (Candle F) → Context F → StrategyConfig F → Eval (Signal F)
  evaluate_pullback pd strict interval df context cfg = do
    s ← row_back df 2
    c ← row_back df 1
    prev ← row_back df 3
    stop_if (any_nan (required_values s c prev.ema_fast))
    stop_if (s.atr ≤? zero_float)
    stop_if (s.avg_vol ≤? zero_float)
    let candle_range = s.high ⊖ s.low
    stop_if (candle_range ≤? zero_float)
    body_ratio ← divided (absolute (s.close ⊖ s.open_price)) candle_range
    let p = profile strict interval cfg
    spread_atr ← check_trend strict interval p cfg s
    volume_ratio ← check_momentum strict interval p s prev.ema_fast body_ratio
    penalty ← score_penalty strict interval p s spread_atr volume_ratio
    conf_body_ratio ← check_confirmation strict interval s c
    trend ← htf_trend pd cfg context
    (bias, htf_penalty) ← pullback_bias cfg interval body_ratio volume_ratio s.rsi trend
    pullback_signal strict interval p cfg s c bias (record {
      body_ratio = body_ratio;
      spread_atr = spread_atr;
      volume_ratio = volume_ratio;
      conf_body_ratio = conf_body_ratio;
      htf_penalty = htf_penalty;
      penalty = penalty;
    })

  -- strict intervals with an engine of their own go there
  dispatch :
      Pandas F → Bool → Interval → List (Candle F) → Context F → StrategyConfig F → Eval (Signal F)
  dispatch pd true h4 df context cfg = evaluate_bos_4h pd df context cfg
  dispatch pd true d1 df context cfg = evaluate_nr4_1d pd df context cfg
  dispatch pd true m15_short df context cfg = evaluate_short_15m pd df context cfg
  dispatch pd strict interval df context cfg = evaluate_pullback pd strict interval df context cfg

  min_len : StrategyConfig F → ℕ
  min_len cfg =
      max (max (cfg.ema_trend + 3) (cfg.volume_avg_window + 3))
        (max (cfg.atr_avg_window + 3) (cfg.rsi_period + 3))

  pub evaluate_signal :
      Pandas F → MainFrame F → Context F → StrategyConfig F → Interval → Eval (Signal F)
  evaluate_signal pd main_df context cfg interval = do
    stop_if (ltb (length main_df.bars) 1)
    stop_if (ltb (length main_df.bars) (min_len cfg))
    df ← of_call (with_indicators pd cfg main_df)
    stop_if (ltb (length df) 3)
    dispatch pd (is_strict cfg) interval df context cfg
