-- ===== src/Strategy/Score.antt =====
-- `evaluate_signal` of strategy.py: the context, the stop and the target, and the score of the
-- EMA-pullback path.
pub mod Sound
use trading_binance.Base.{ℕ, Bool, true, false, ◌&&◌, ◌||◌, String, if◌then◌else◌}
use trading_binance.Num.{
  Float, zero_float, lit, ◌<?◌, ◌≤?◌, ◌⊖◌, ◌⊗◌, ◌⊕◌, absolute, min_float, max_float,
}
use trading_binance.Strategy.Eval.{
  Eval, ◌>>=◌, ◌>>◌, pure, reject, reject_if, choose, divided, ratio_or,
}
use trading_binance.Strategy.Frame.{
  Candle, StrategyConfig, HtfTrend, absent, undefined, bullish, contrary, Bias, long, neutral,
  between, risk_out_of_range, Signal, Side, buy,
}
use trading_binance.Strategy.Profile.{Interval, m15, h1, h4, d1, m15_short, other, Profile}

-- What the tests of the candles measure.
pub record Measures (F : Type 0) : Type 0 where
  pub body_ratio : F
  pub spread_atr : F
  pub volume_ratio : F
  pub conf_body_ratio : F
  pub htf_penalty : F
  pub penalty : F

module _ {F : Type 0} ⦃fl : Float F⦄ where
  -- strong counter-trend setups, which 15m lets through
  strong_15m : F → F → F → Bool
  strong_15m body_ratio volume_ratio s_rsi =
      (lit 55 2 ≤? body_ratio) && (lit 130 2 ≤? volume_ratio) && between (lit 48 0) s_rsi (lit 56 0)

  -- The bias and the penalty of the context.
  pub pullback_bias : StrategyConfig F → Interval → F → F → F → HtfTrend → Eval (Bias × F)
  pullback_bias cfg interval body_ratio volume_ratio s_rsi bullish = pure (long, zero_float)
  pullback_bias cfg h1 body_ratio volume_ratio s_rsi undefined = pure (neutral, zero_float)
  pullback_bias cfg _ body_ratio volume_ratio s_rsi undefined =
      pure (neutral, cfg.context_missing_penalty)
  pullback_bias cfg m15 body_ratio volume_ratio s_rsi contrary =
      choose (strong_15m body_ratio volume_ratio s_rsi) (pure (neutral, zero_float ⊕ lit 20 2))
        (reject "reject_htf")
  pullback_bias cfg _ body_ratio volume_ratio s_rsi contrary = reject "reject_htf"
  pullback_bias cfg h1 body_ratio volume_ratio s_rsi absent = pure (neutral, zero_float)
  pullback_bias cfg d1 body_ratio volume_ratio s_rsi absent = pure (neutral, zero_float)
  pullback_bias cfg _ body_ratio volume_ratio s_rsi absent =
      pure (neutral, cfg.context_missing_penalty)

  spread_norm : StrategyConfig F → F → F
  spread_norm cfg spread_atr = min_float (lit 1 0) ((spread_atr ⊖ cfg.min_ema_spread_atr) ⊗ lit 2 0)

  score_15m : Profile F → Candle F → Measures F → Eval F
  score_15m p s m = do
    distance ← divided (absolute (s.close ⊖ s.ema_fast)) s.atr
    let proximity = lit 1 0 ⊖ min_float (lit 12 1) distance
    pure (
        fl.round_to
          (lit 1 0 ⊗ proximity
            ⊕ lit 1 0 ⊗ m.body_ratio
            ⊕ (if ((p.rsi_min ⊕ lit 3 0) <? s.rsi) && (s.rsi <? (p.rsi_max ⊖ lit 3 0))
                then lit 7 1
                else zero_float)
            ⊖ m.htf_penalty
            ⊖ m.penalty)
          2)

  score_1h : StrategyConfig F → Candle F → Measures F → Eval F
  score_1h cfg s m = do
    let confirm_quality = min_float (lit 1 0) (fl.quotient m.conf_body_ratio (lit 32 2))
    let rsi_quality = if between (lit 50 0) s.rsi (lit 555 1) then lit 45 2 else lit 2 1
    pure (
        fl.round_to
          (lit 100 2 ⊗ m.body_ratio
            ⊕ lit 80 2 ⊗ spread_norm cfg m.spread_atr
            ⊕ lit 60 2 ⊗ confirm_quality
            ⊕ rsi_quality
            ⊖ m.htf_penalty)
          2)

  score_4h : Profile F → StrategyConfig F → Candle F → Measures F → Eval F
  score_4h p cfg s m = pure (
      fl.round_to
        (lit 8 1 ⊗ m.body_ratio
          ⊕ (if (p.rsi_min ⊕ lit 5 0) <? s.rsi then lit 8 1 else zero_float)
          ⊕ lit 6 1 ⊗ spread_norm cfg m.spread_atr
          ⊖ m.htf_penalty
          ⊖ m.penalty)
        2)

  score_1d : StrategyConfig F → Candle F → Measures F → Eval F
  score_1d cfg s m = do
    distance ← divided (absolute (s.close ⊖ s.ema_fast)) s.atr
    let proximity_1d = max_float zero_float (lit 1 0 ⊖ distance)
    pure (
        fl.round_to
          (max_float zero_float (
            lit 7 1 ⊗ m.body_ratio
            ⊕ (if (lit 550 1 <? s.rsi) && (s.rsi <? lit 620 1) then lit 8 1 else zero_float)
            ⊕ lit 8 1 ⊗ spread_norm cfg m.spread_atr
            ⊕ lit 7 1 ⊗ proximity_1d
            ⊖ m.htf_penalty
            ⊖ m.penalty))
          2)

  score_loose : Profile F → StrategyConfig F → Candle F → Measures F → Eval F
  score_loose p cfg s m = do
    body ← divided (m.body_ratio ⊖ p.body_min) (max_float (lit 1 9) (lit 1 0 ⊖ p.body_min))
    pure (
        fl.round_to
          (min_float (lit 2 0) (body ⊗ lit 2 0)
            ⊕ (if ((p.rsi_min ⊕ lit 5 0) <? s.rsi) && (s.rsi <? (p.rsi_max ⊖ lit 5 0))
                then lit 1 0
                else zero_float)
            ⊕ spread_norm cfg m.spread_atr
            ⊖ m.htf_penalty
            ⊖ m.penalty)
          2)

  pullback_score : Bool → Interval → Profile F → StrategyConfig F → Candle F → Measures F → Eval F
  pullback_score true m15 p cfg s m = score_15m p s m
  pullback_score true h1 p cfg s m = score_1h cfg s m
  pullback_score true h4 p cfg s m = score_4h p cfg s m
  pullback_score true d1 p cfg s m = score_1d cfg s m
  pullback_score _ _ p cfg s m = score_loose p cfg s m

  -- Stop and risk, then the score, then the ATR spike, in this order; the entry is the close of the
  -- confirmation candle.
  pub pullback_signal :
      Bool
      → Interval
      → Profile F
      → StrategyConfig F
      → Candle F
      → Candle F
      → Bias
      → Measures F
      → Eval (Signal F)
  pullback_signal strict interval p cfg s c bias m = do
    let stop_price = s.low ⊖ p.stop_buf ⊗ s.atr
    let risk = c.close ⊖ stop_price
    reject_if (risk_out_of_range cfg risk s.atr) "reject_risk"
    score ← pullback_score strict interval p cfg s m
    reject_if (score <? p.min_score_iv) "reject_score"
    atr_avg_ratio ← ratio_or s.atr s.atr_avg (lit 1 0)
    reject_if (cfg.max_atr_avg_ratio <? atr_avg_ratio) "reject_atr_spike"
    pure (record {
      side = buy;
      price = c.close;
      stop_price = stop_price;
      tp_price = c.close ⊕ risk ⊗ p.rr;
      risk_per_unit = risk;
      rr_target = p.rr;
      atr = s.atr;
      score = score;
      htf_bias = bias;
      strategy = "ema_pullback_long";
      breakout_time = c.close_time;
    })
