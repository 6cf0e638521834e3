-- ===== src/Strategy/Score/Sound.antt =====
-- The score does not raise, and the signal of the EMA-pullback path is sound.
use trading_binance.Base.{◌≡◌, refl, Bool, true, false, arith}
use trading_binance.Num.{Float, IsFloat, zero_float, lit, ◌≤?◌, max_float}
use trading_binance.Strategy.Eval.Post.{
  Ensures, Any, bind_ensures, pure_ensures, reject_ensures, reject_if_ensures, choose_ensures,
  divided_ensures, ratio_or_ensures,
}
use trading_binance.Strategy.Frame.{
  Candle, StrategyConfig, HtfTrend, absent, undefined, bullish, contrary, Bias, buy,
}
use trading_binance.Strategy.Frame.Reads.{IsSound}
use trading_binance.Strategy.Profile.{Interval, m15, h1, h4, d1, Profile}
use trading_binance.Strategy.Score.{
  Measures, pullback_bias, score_15m, score_1h, score_4h, score_1d, score_loose, pullback_score,
  pullback_signal,
}

module _ {F : Type 0} ⦃fl : Float F⦄ where
  pub pullback_bias_ensures :
      {X : Type 0} (cfg : StrategyConfig F) (interval : Interval) (body volume rsi : F)
      (t : HtfTrend)
      → Ensures X (pullback_bias cfg interval body volume rsi t) Any
  unfolding pullback_bias
  pullback_bias_ensures cfg m15 body volume rsi contrary =
      choose_ensures _ (λ _. pure_ensures _ tt) (λ _. reject_ensures _)
  pullback_bias_ensures cfg _ body volume rsi contrary = reject_ensures _
  pullback_bias_ensures cfg _ body volume rsi bullish = pure_ensures _ tt
  pullback_bias_ensures cfg h1 body volume rsi undefined = pure_ensures _ tt
  pullback_bias_ensures cfg _ body volume rsi undefined = pure_ensures _ tt
  pullback_bias_ensures cfg h1 body volume rsi absent = pure_ensures _ tt
  pullback_bias_ensures cfg d1 body volume rsi absent = pure_ensures _ tt
  pullback_bias_ensures cfg _ body volume rsi absent = pure_ensures _ tt

module _ {F : Type 0} ⦃fl : Float F⦄ (laws : IsFloat F) where
  open laws use {lit_pos, not_le_of_lt, lt_of_lt_of_le, le_of_lt}

  -- The divisor `max(1e-9, x)` is positive, whatever x is.
  floor_pos : (x : F) → (max_float (lit 1 9) x ≤? zero_float) ≡ false
  floor_pos x =
      let positive = lit_pos 1 9 (omega arith) (omega arith) in
      ground (
        arith,
        not_le_of_lt (lit 0 0) (lit 1 9) positive,
        not_le_of_lt (lit 0 0) x,
        lt_of_lt_of_le (lit 0 0) (lit 1 9) x positive,
        le_of_lt (lit 1 9) x,
      )

  pullback_score_ensures :
      {X : Type 0} (strict : Bool) (interval : Interval) (p : Profile F) (cfg : StrategyConfig F)
      (s : Candle F) (m : Measures F)
      → (s.atr ≤? zero_float) ≡ false
      → Ensures X (pullback_score strict interval p cfg s m) Any
  unfolding pullback_score score_15m score_1h score_4h score_1d score_loose
  pullback_score_ensures true m15 p cfg s m atr =
      bind_ensures (divided_ensures laws _ _ atr) λ _ _. pure_ensures _ tt
  pullback_score_ensures true h1 p cfg s m atr = pure_ensures _ tt
  pullback_score_ensures true h4 p cfg s m atr = pure_ensures _ tt
  pullback_score_ensures true d1 p cfg s m atr =
      bind_ensures (divided_ensures laws _ _ atr) λ _ _. pure_ensures _ tt
  pullback_score_ensures _ _ p cfg s m atr =
      bind_ensures (divided_ensures laws _ _ (floor_pos _)) λ _ _. pure_ensures _ tt

  pub pullback_signal_ensures :
      {X : Type 0} (strict : Bool) (interval : Interval) (p : Profile F) (cfg : StrategyConfig F)
      (s c : Candle F) (bias : Bias) (m : Measures F)
      → (s.atr ≤? zero_float) ≡ false
      → Ensures X (pullback_signal strict interval p cfg s c bias m) (IsSound cfg buy)
  unfolding pullback_signal
  pullback_signal_ensures strict interval p cfg s c bias m atr =
      bind_ensures (reject_if_ensures _ _) λ _ risk.
        bind_ensures (pullback_score_ensures strict interval p cfg s m atr) λ _ _.
          bind_ensures (reject_if_ensures _ _) λ _ _.
            bind_ensures (ratio_or_ensures laws _ _ _) λ _ _.
              bind_ensures (reject_if_ensures _ _) λ _ _.
                pure_ensures _
                  (record { side_eq = refl; in_range = risk; atr_pos = atr; levels = (refl, refl) })
