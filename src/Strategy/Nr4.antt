-- ===== src/Strategy/Nr4.antt =====
-- `_evaluate_nr4_1d` of strategy.py: two narrow candles, a breakout and its confirmation, on the 1d
-- frame.
pub mod Sound
use trading_binance.Base.{
  ℕ, ◌-◌, Bool, not, ◌&&◌, ◌||◌, List, [], ◌∷◌, map, length, drop, ltb, if◌then◌else◌,
}
use trading_binance.Indicators.{Pandas}
use trading_binance.Num.{
  Float, zero_float, lit, ◌<?◌, ◌≤?◌, ◌⊖◌, ◌⊗◌, ◌⊕◌, absolute, is_nan, min_float, max_float,
}
use trading_binance.Strategy.Eval.{
  Eval, ◌>>=◌, ◌>>◌, pure, stop_if, reject, reject_if, divided, ratio_or,
}
use trading_binance.Strategy.Frame.{
  Candle, StrategyConfig, Context, HtfTrend, absent, undefined, bullish, contrary, Signal, Side,
  buy, Bias, long, row_back, any_nan, between, htf_trend, risk_out_of_range, grade,
}

nr4_bias : HtfTrend → Eval Bias
nr4_bias contrary = reject "reject_nr4_htf"
nr4_bias absent = pure long
nr4_bias undefined = pure long
nr4_bias bullish = pure long

module _ {F : Type 0} ⦃fl : Float F⦄ where
  -- the values of the compression candles, the signal candle and the last one
  required_values : Candle F → Candle F → Candle F → Candle F → List F
  required_values a b s c =
      a.high ∷ a.low ∷ b.high ∷ b.low ∷ s.open_price ∷ s.high ∷ s.low ∷ s.close ∷ s.volume
      ∷ s.avg_vol ∷ s.ema_fast ∷ s.ema_mid ∷ s.ema_trend ∷ s.rsi ∷ c.close ∷ c.ema_fast ∷ c.atr
      ∷ c.avg_vol ∷ c.atr_avg ∷ []

  -- Both ranges are narrow, and the signal candle closes beyond them, in an uptrend.
  check_breakout : Candle F → Candle F → Candle F → Candle F → F → Eval (Unit {0})
  check_breakout a b s c atr10 = do
    let range_a = a.high ⊖ a.low
    let range_b = b.high ⊖ b.low
    stop_if ((range_a ≤? zero_float) || (range_b ≤? zero_float))
    reject_if (not ((range_a <? lit 90 2 ⊗ atr10) && (range_b <? lit 90 2 ⊗ atr10)))
        "reject_nr4_compression"
    let breakout_level = max_float a.high b.high ⊕ lit 15 3 ⊗ c.atr
    reject_if (s.close ≤? breakout_level) "reject_nr4_breakout"
    reject_if (not ((s.ema_mid <? s.ema_fast) && (s.ema_trend <? s.ema_mid))) "reject_nr4_trend"

  -- Body and volume of the signal candle.
  check_signal : Candle F → Eval (F × F)
  check_signal s = do
    let signal_range = s.high ⊖ s.low
    stop_if (signal_range ≤? zero_float)
    body_ratio ← divided (absolute (s.close ⊖ s.open_price)) signal_range
    reject_if (not ((s.open_price <? s.close) && (lit 48 2 ≤? body_ratio))) "reject_nr4_signal_body"
    vol_ratio ← divided s.volume s.avg_vol
    reject_if (vol_ratio <? lit 120 2) "reject_nr4_signal_volume"
    pure (body_ratio, vol_ratio)

  -- The last candle confirms, neither too weakly nor too far.
  check_confirmation : StrategyConfig F → Candle F → Candle F → Eval (Unit {0})
  check_confirmation cfg s c = do
    reject_if (c.close ≤? s.high ⊕ lit 3 2 ⊗ c.atr) "reject_nr4_confirmation"
    reject_if ((s.high ⊕ lit 40 2 ⊗ c.atr) <? c.close) "reject_nr4_confirmation"
    reject_if ((c.ema_fast ⊕ lit 110 2 ⊗ c.atr) <? c.close) "reject_nr4_confirmation"
    reject_if (not (between (lit 52 0) s.rsi (lit 62 0))) "reject_nr4_signal_rsi"
    atr_avg_ratio ← ratio_or c.atr c.atr_avg (lit 1 0)
    reject_if (cfg.max_atr_avg_ratio <? atr_avg_ratio) "reject_nr4_atr_spike"

  nr4_score : F → F → F → F → F → F
  nr4_score compression_avg atr10 body_ratio vol_ratio s_rsi =
      let compression =
        grade zero_float (compression_avg <? lit 60 2 ⊗ atr10) (lit 8 1)
          (compression_avg <? lit 75 2 ⊗ atr10) (lit 5 1) in
      let body =
        grade compression (lit 56 2 ≤? body_ratio) (lit 6 1) (lit 48 2 ≤? body_ratio) (lit 4 1) in
      let volume =
        grade body (lit 135 2 ≤? vol_ratio) (lit 35 2) (lit 120 2 ≤? vol_ratio) (lit 2 1) in
      let momentum =
        grade volume (between (lit 54 0) s_rsi (lit 595 1)) (lit 5 1)
          (between (lit 53 0) s_rsi (lit 61 0)) (lit 25 2) in
      fl.round_to momentum 2

  -- Stop, risk and target, for a score that is high enough.
  nr4_signal :
      StrategyConfig F → Candle F → Candle F → Candle F → Candle F → F → Bias → Eval (Signal F)
  nr4_signal cfg a b s c score bias = do
    let stop_price = min_float a.low b.low ⊖ lit 3 1 ⊗ c.atr
    let risk = c.close ⊖ stop_price
    reject_if (score <? lit 190 2) "reject_nr4_score"
    reject_if (risk_out_of_range cfg risk c.atr) "reject_nr4_risk"
    pure (record {
      side = buy;
      price = c.close;
      stop_price = stop_price;
      tp_price = c.close ⊕ risk ⊗ lit 25 1;
      risk_per_unit = risk;
      rr_target = lit 25 1;
      atr = c.atr;
      score = score;
      htf_bias = bias;
      strategy = "nr4_breakout_1d";
      breakout_time = s.close_time;
    })

  pub evaluate_nr4_1d : Pandas F → List (Candle F) → Context F → StrategyConfig F → Eval (Signal F)
  evaluate_nr4_1d pd df context cfg = do
    stop_if (ltb (length df) 14)
    a ← row_back df 4
    b ← row_back df 3
    s ← row_back df 2
    c ← row_back df 1
    stop_if (any_nan (required_values a b s c))
    stop_if ((c.atr ≤? zero_float) || (s.avg_vol ≤? zero_float) || (c.avg_vol ≤? zero_float))
    let atr10 = pd.series_mean (map (λ row. row.atr) (drop (length df - 10) df))
    stop_if (is_nan atr10 || (atr10 ≤? zero_float))
    check_breakout a b s c atr10
    (body_ratio, vol_ratio) ← check_signal s
    check_confirmation cfg s c
    trend ← htf_trend pd cfg context
    bias ← nr4_bias trend
    let compression_avg = fl.quotient ((a.high ⊖ a.low) ⊕ (b.high ⊖ b.low)) (lit 2 0)
    nr4_signal cfg a b s c (nr4_score compression_avg atr10 body_ratio vol_ratio s.rsi) bias
