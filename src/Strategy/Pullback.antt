-- ===== src/Strategy/Pullback.antt =====
-- `evaluate_signal` of strategy.py: the tests of its EMA-pullback path, from the trend of the signal
-- candle to the context. `strict` is `_strict`, `s` the signal candle, `c` the confirmation candle.
pub mod Sound
use trading_binance.Base.{ℕ, Bool, true, false, not, ◌&&◌, ◌||◌, List, [], ◌∷◌, if◌then◌else◌}
use trading_binance.Num.{
  Float, zero_float, lit, ◌<?◌, ◌≤?◌, ◌⊖◌, ◌⊗◌, ◌⊕◌, absolute, min_float, max_float,
}
use trading_binance.Strategy.Eval.{
  Eval, ◌>>=◌, ◌>>◌, pure, stop_if, reject, reject_if, choose, divided, ratio_or,
}
use trading_binance.Strategy.Frame.{
  Candle, StrategyConfig, HtfTrend, absent, undefined, bullish, contrary, Bias, long, neutral,
  between,
}
use trading_binance.Strategy.Profile.{Interval, m15, h1, h4, d1, m15_short, other, Profile}

module _ {F : Type 0} ⦃fl : Float F⦄ where
  pub required_values : Candle F → Candle F → F → List F
  required_values s c p_ema_fast =
      s.open_price ∷ s.close ∷ s.high ∷ s.low ∷ s.volume ∷ s.ema_fast ∷ s.ema_mid ∷ s.ema_trend
      ∷ s.atr ∷ s.avg_vol ∷ s.rsi ∷ c.close ∷ p_ema_fast ∷ []

  -- 1) the trend, looser on 15m
  trend_ok : Bool → Interval → Candle F → Bool
  trend_ok true m15 s =
      (s.ema_mid <? s.ema_fast) && ((s.ema_trend ⊖ lit 110 2 ⊗ s.atr) ≤? s.ema_fast)
  trend_ok _ _ s = (s.ema_mid <? s.ema_fast) && (s.ema_trend <? s.ema_mid)

  -- a strict spread in the dead zone rejects, but on 1h
  dead_zone : Bool → Interval → F → Bool
  dead_zone false interval spread_atr = false
  dead_zone true h1 spread_atr = false
  dead_zone true _ spread_atr = (lit 35 2 ≤? spread_atr) && (spread_atr <? lit 50 2)

  pub check_trend : Bool → Interval → Profile F → StrategyConfig F → Candle F → Eval F
  check_trend strict interval p cfg s = do
    reject_if (not (trend_ok strict interval s)) "reject_trend"
    spread_atr ← divided (s.ema_fast ⊖ s.ema_mid) s.atr
    reject_if (spread_atr <? cfg.min_ema_spread_atr) "reject_spread_min"
    reject_if (p.spread_max_iv <? spread_atr) "reject_spread_max"
    reject_if (dead_zone strict interval spread_atr) "reject_spread_dead_zone"
    pure spread_atr

  -- 2) the low of the signal candle comes back to the fast average; on 1d the zone down to the
  -- middle one serves too
  in_pullback : Bool → Interval → Profile F → Candle F → Bool
  in_pullback true d1 p s =
      let tolerance = p.pullback_tol ⊗ s.atr in
      ((s.low ≤? s.ema_fast ⊕ tolerance) && ((s.ema_fast ⊖ tolerance) ≤? s.low))
      || ((s.low ≤? s.ema_fast) && ((s.ema_mid ⊖ lit 20 2 ⊗ s.atr) ≤? s.low))
  in_pullback _ _ p s =
      let tolerance = p.pullback_tol ⊗ s.atr in
      (s.low ≤? s.ema_fast ⊕ tolerance) && ((s.ema_fast ⊖ tolerance) ≤? s.low)

  -- 2) to 4): pullback, structure, RSI, body and volume. The volume ratio is returned.
  pub check_momentum : Bool → Interval → Profile F → Candle F → F → F → Eval F
  check_momentum strict interval p s p_ema_fast body_ratio = do
    reject_if (not (in_pullback strict interval p s)) "reject_pullback"
    reject_if (s.close ≤? s.ema_mid) "reject_structure"
    stop_if (p_ema_fast ≤? zero_float)
    reject_if (not (between p.rsi_min s.rsi p.rsi_max)) "reject_rsi"
    let upper_third = s.low ⊕ fl.quotient (lit 2 0) (lit 3 0) ⊗ (s.high ⊖ s.low)
    reject_if
        (not ((p.body_min ≤? body_ratio) && (s.open_price <? s.close) && (upper_third <? s.close)))
        "reject_body"
    volume_ratio ← divided s.volume s.avg_vol
    reject_if (volume_ratio <? p.volume_min_iv) "reject_volume"
    pure volume_ratio

  -- a volume chase on 15m is penalised, or rejected when extreme
  volume_penalty : Bool → Interval → Profile F → Candle F → F → Eval F
  volume_penalty true m15 p s volume_ratio = do
    let rsi_mid = p.rsi_min ⊕ lit 5 1 ⊗ (p.rsi_max ⊖ p.rsi_min)
    reject_if ((lit 36 1 <? volume_ratio) && ((rsi_mid ⊕ lit 1 0) ≤? s.rsi)) "reject_volume_extreme"
    pure (
        if (lit 26 1 <? volume_ratio) && (rsi_mid ≤? s.rsi)
        then zero_float ⊕ lit 8 2
        else zero_float)
  volume_penalty _ _ p s volume_ratio = pure zero_float

  -- the extension caps of each interval
  check_extension : Interval → Candle F → F → F → Eval F
  check_extension m15 s spread_atr penalty = do
    reject_if ((lit 220 2 ⊗ s.atr) <? (s.high ⊖ s.ema_fast)) "reject_extension"
    reject_if (lit 570 1 <? s.rsi) "reject_extension"
    pure (
        if ((lit 165 2 ⊗ s.atr) <? (s.high ⊖ s.ema_fast)) || (lit 555 1 <? s.rsi)
        then penalty ⊕ lit 14 2
        else penalty)
  check_extension h1 s spread_atr penalty = do
    reject_if (lit 575 1 <? s.rsi) "reject_extension"
    reject_if ((s.ema_fast ⊕ lit 135 2 ⊗ s.atr) <? s.close) "reject_extension"
    reject_if ((lit 80 2 ≤? spread_atr) && (s.rsi <? lit 53 0)) "reject_spread_cold_1h"
    pure penalty
  check_extension h4 s spread_atr penalty = do
    reject_if (lit 68 0 <? s.rsi) "reject_extension"
    reject_if ((lit 100 2 ≤? spread_atr) && (s.rsi <? lit 57 0)) "reject_spread_cold"
    pure penalty
  check_extension d1 s spread_atr penalty = do
    reject_if (lit 66 0 <? s.rsi) "reject_extension"
    reject_if ((lit 110 2 ⊗ s.atr) <? (s.ema_fast ⊖ s.ema_mid)) "reject_extension"
    pure penalty
  check_extension m15_short s spread_atr penalty = pure penalty
  check_extension other s spread_atr penalty = pure penalty

  -- the soft late-entry filter
  late_entry : Profile F → Candle F → Bool
  late_entry p s =
      let rsi_band = max_float (lit 1 9) (p.rsi_max ⊖ p.rsi_min) in
      ((p.rsi_max ⊖ lit 10 2 ⊗ rsi_band) ≤? s.rsi)
      && (s.ema_fast <? s.close)
      && ((lit 12 1 ⊗ s.atr) <? (s.close ⊖ s.ema_fast))

  check_late_entry : Interval → Profile F → Candle F → F → Eval F
  check_late_entry m15 p s penalty = pure (if late_entry p s then penalty ⊕ lit 12 2 else penalty)
  check_late_entry _ p s penalty =
      choose (late_entry p s) (reject "reject_extension") (pure penalty)

  -- The penalty of the volume, extension and late-entry filters.
  pub score_penalty : Bool → Interval → Profile F → Candle F → F → F → Eval F
  score_penalty strict interval p s spread_atr volume_ratio = do
    penalty ← volume_penalty strict interval p s volume_ratio
    choose strict (check_extension interval s spread_atr penalty >>= check_late_entry interval p s)
        (pure penalty)

  -- 5) the tests of the confirmation candle, by interval
  confirmed_15m : Candle F → Candle F → F → Bool
  confirmed_15m s c conf_body_ratio =
      ((s.close ⊗ lit 991 3) ≤? c.close)
      && (c.open_price <? c.close)
      && (lit 20 2 ≤? conf_body_ratio)
      && (c.close ≤? s.high ⊕ lit 60 2 ⊗ s.atr)
      && (c.low ≤? s.ema_fast ⊕ lit 85 2 ⊗ s.atr)

  confirmed_1h : Candle F → Candle F → F → Bool
  confirmed_1h s c conf_body_ratio =
      ((s.close ⊗ lit 998 3) ≤? c.close)
      && (c.open_price <? c.close)
      && (lit 20 2 ≤? conf_body_ratio)
      && (c.close ≤? s.high ⊕ lit 50 2 ⊗ s.atr)
      && (c.low ≤? s.ema_fast ⊕ lit 60 2 ⊗ s.atr)

  confirmed_4h : Candle F → Candle F → F → Bool
  confirmed_4h s c conf_body_ratio =
      (s.close ≤? c.close)
      && (c.open_price <? c.close)
      && (lit 25 2 ≤? conf_body_ratio)
      && (c.close ≤? s.high ⊕ lit 35 2 ⊗ s.atr)

  confirmed_1d : Candle F → Candle F → F → Bool
  confirmed_1d s c conf_body_ratio =
      (s.close ≤? c.close)
      && (c.open_price <? c.close)
      && (lit 28 2 ≤? conf_body_ratio)
      && (c.close ≤? s.high ⊕ lit 35 2 ⊗ s.atr)
      && (c.low ≤? s.ema_fast ⊕ lit 35 2 ⊗ s.atr)

  confirm_strict : (F → Bool) → Candle F → Eval F
  confirm_strict confirmed c = do
    conf_body_ratio ← ratio_or (absolute (c.close ⊖ c.open_price)) (c.high ⊖ c.low) zero_float
    reject_if (not (confirmed conf_body_ratio)) "reject_confirmation"
    pure conf_body_ratio

  -- outside the strict intervals: above the high of the signal candle, or a silent `None`
  confirm_loose : Candle F → Candle F → Eval F
  confirm_loose s c = do stop_if (c.close ≤? s.high); pure zero_float

  -- The body ratio of the confirmation candle, which only the score of 1h reads.
  pub check_confirmation : Bool → Interval → Candle F → Candle F → Eval F
  check_confirmation true m15 s c = confirm_strict (confirmed_15m s c) c
  check_confirmation true h1 s c = confirm_strict (confirmed_1h s c) c
  check_confirmation true h4 s c = confirm_strict (confirmed_4h s c) c
  check_confirmation true d1 s c = confirm_strict (confirmed_1d s c) c
  check_confirmation _ _ s c = confirm_loose s c
