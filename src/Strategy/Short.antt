-- ===== src/Strategy/Short.antt =====
-- `_evaluate_short_15m` of strategy.py: a mean-reversion short after an overextended candle.
pub mod Sound
use trading_binance.Base.{ℕ, Bool, not, ◌&&◌, ◌||◌, List, [], ◌∷◌, length, ltb, if◌then◌else◌}
use trading_binance.Indicators.{Pandas}
use trading_binance.Num.{Float, zero_float, lit, ◌<?◌, ◌≤?◌, ◌⊖◌, ◌⊗◌, ◌⊕◌, absolute, min_float}
use trading_binance.Strategy.Eval.{
  Eval, ◌>>=◌, ◌>>◌, pure, stop_if, reject, reject_if, choose, divided, ratio_or,
}
use trading_binance.Strategy.Frame.{
  Candle, StrategyConfig, Context, HtfTrend, absent, undefined, bullish, contrary, Signal, Side,
  sell, Bias, short_mr, row_back, any_nan, between, htf_trend, risk_out_of_range,
}

-- What the tests of the signal candle measure.
pub record Extension (F : Type 0) : Type 0 where
  pub extension_atr : F
  pub body_ratio : F
  pub volume_ratio : F

module _ {F : Type 0} ⦃fl : Float F⦄ where
  unfoldable pub required : Candle F → List F
  required s =
      s.open_price ∷ s.high ∷ s.low ∷ s.close ∷ s.volume ∷ s.ema_fast ∷ s.ema_mid ∷ s.ema_trend
      ∷ s.atr ∷ s.atr_avg ∷ s.avg_vol ∷ s.rsi ∷ []

  -- `required[:6]`
  unfoldable pub required_conf : Candle F → List F
  required_conf c = c.open_price ∷ c.high ∷ c.low ∷ c.close ∷ c.volume ∷ c.ema_fast ∷ []

  -- Steps 1 to 3: extension above the fast average, and the RSI.
  unfoldable pub check_extension : Candle F → Eval F
  check_extension s = do
    reject_if (s.ema_fast ≤? s.ema_mid) "reject_short_no_extension_base"
    extension_atr ← divided (s.high ⊖ s.ema_fast) s.atr
    reject_if (extension_atr <? lit 180 2) "reject_short_extension"
    short_spread_atr ← divided (s.ema_fast ⊖ s.ema_mid) s.atr
    reject_if (lit 120 2 ≤? short_spread_atr) "reject_short_spread_wide"
    reject_if (not (between (lit 70 0) s.rsi (lit 74 0))) "reject_short_rsi"
    pure extension_atr

  -- Steps 4 to 6: a strong bearish body, volume, and no ATR spike.
  unfoldable pub check_candle : StrategyConfig F → Candle F → F → Eval (Extension F)
  check_candle cfg s extension_atr = do
    let candle_range = s.high ⊖ s.low
    body_ratio ← divided (absolute (s.close ⊖ s.open_price)) candle_range
    let lower_third = s.high ⊖ fl.quotient (lit 2 0) (lit 3 0) ⊗ candle_range
    reject_if
        (not ((s.close <? s.open_price) && (lit 65 2 ≤? body_ratio) && (s.close <? lower_third)))
        "reject_short_body"
    volume_ratio ← divided s.volume s.avg_vol
    reject_if (volume_ratio <? lit 110 2) "reject_short_volume"
    atr_avg_ratio ← ratio_or s.atr s.atr_avg (lit 1 0)
    reject_if (cfg.max_atr_avg_ratio <? atr_avg_ratio) "reject_short_atr_spike"
    pure (record {
      extension_atr = extension_atr;
      body_ratio = body_ratio;
      volume_ratio = volume_ratio;
    })

  -- Step 7: the confirmation candle falls below the low of the signal candle.
  unfoldable pub check_short_confirmation : Candle F → Candle F → Eval (Unit {0})
  check_short_confirmation s c = do
    conf_body_ratio ← ratio_or (absolute (c.close ⊖ c.open_price)) (c.high ⊖ c.low) zero_float
    reject_if
        (not ((c.close <? c.open_price) && (c.close <? s.low) && (lit 35 2 ≤? conf_body_ratio)))
        "reject_short_confirmation"

  -- Step 8: against a bullish context only an extreme extension passes, with a penalty.
  unfoldable pub short_htf_penalty : F → HtfTrend → Eval F
  short_htf_penalty extension_atr bullish =
      choose (lit 250 2 ≤? extension_atr) (pure (lit 25 2)) (reject "reject_short_htf")
  short_htf_penalty extension_atr absent = pure (lit 15 2)
  short_htf_penalty extension_atr undefined = pure zero_float
  short_htf_penalty extension_atr contrary = pure zero_float

  -- Step 9.
  unfoldable pub short_score : Extension F → F → F → F
  short_score e s_rsi htf_penalty =
      let ext_score = min_float (lit 1 0) (fl.quotient (e.extension_atr ⊖ lit 180 2) (lit 80 2)) in
      let rsi_score = min_float (lit 1 0) (fl.quotient (s_rsi ⊖ lit 70 0) (lit 10 0)) in
      fl.round_to
        (lit 8 1 ⊗ e.body_ratio
          ⊕ lit 7 1 ⊗ ext_score
          ⊕ lit 6 1 ⊗ rsi_score
          ⊕ (if lit 130 2 ≤? e.volume_ratio then lit 3 1 else zero_float)
          ⊖ htf_penalty)
        2

  -- Step 10: the stop above the high of the signal candle, the target below the entry.
  unfoldable pub short_signal : StrategyConfig F → Candle F → Candle F → F → Eval (Signal F)
  short_signal cfg s c score = do
    let stop_price = s.high ⊕ lit 30 2 ⊗ s.atr
    let risk = stop_price ⊖ c.close
    reject_if (score <? lit 130 2) "reject_short_score"
    reject_if (risk_out_of_range cfg risk s.atr) "reject_short_risk"
    pure (record {
      side = sell;
      price = c.close;
      stop_price = stop_price;
      tp_price = c.close ⊖ risk ⊗ lit 15 1;
      risk_per_unit = risk;
      rr_target = lit 15 1;
      atr = s.atr;
      score = score;
      htf_bias = short_mr;
      strategy = "mean_reversion_short_15m";
      breakout_time = c.close_time;
    })

  unfoldable pub evaluate_short_15m :
      Pandas F → List (Candle F) → Context F → StrategyConfig F → Eval (Signal F)
  evaluate_short_15m pd df context cfg = do
    stop_if (ltb (length df) 3)
    s ← row_back df 2
    c ← row_back df 1
    stop_if (any_nan (required s))
    stop_if (any_nan (required_conf c))
    stop_if ((s.atr ≤? zero_float) || (s.avg_vol ≤? zero_float))
    stop_if ((s.high ⊖ s.low) ≤? zero_float)
    extension_atr ← check_extension s
    e ← check_candle cfg s extension_atr
    check_short_confirmation s c
    trend ← htf_trend pd cfg context
    htf_penalty ← short_htf_penalty extension_atr trend
    short_signal cfg s c (short_score e s.rsi htf_penalty)
