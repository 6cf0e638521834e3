-- ===== src/Strategy/Nr4/Sound.antt =====
-- The 1d engine never raises, counts each rejection once, and returns sound signals.
use trading_binance.Base.{◌⊎◌, ◌≤◌, ◌≡◌, refl, false, List, length, arith}
use trading_binance.Indicators.{Pandas}
use trading_binance.Indicators.Lengths.{IsPandas}
use trading_binance.Num.{Float, IsFloat, zero_float, ◌≤?◌}
use trading_binance.Strategy.Eval.Post.{
  Ensures, Any, bind_ensures, pure_ensures, reject_ensures, reject_if_ensures, stop_if_ensures,
  divided_ensures, ratio_or_ensures, weaken_ensures,
}
use trading_binance.Strategy.Frame.{
  Candle, StrategyConfig, Context, HtfTrend, absent, undefined, bullish, contrary, buy, Bias,
}
use trading_binance.Strategy.Frame.Reads.{row_back_ensures, htf_trend_ensures, HasTrends, IsSound}
use trading_binance.Strategy.Nr4.{
  check_breakout, check_signal, check_confirmation, nr4_bias, nr4_signal, evaluate_nr4_1d,
}

nr4_bias_ensures : {X : Type 0} (t : HtfTrend) → Ensures X (nr4_bias t) Any
unfolding nr4_bias
nr4_bias_ensures contrary = reject_ensures _
nr4_bias_ensures absent = pure_ensures _ tt
nr4_bias_ensures undefined = pure_ensures _ tt
nr4_bias_ensures bullish = pure_ensures _ tt

module _ {F X : Type 0} ⦃fl : Float F⦄ (laws : IsFloat F) where
  check_breakout_ensures :
      (a b s c : Candle F) (atr10 : F) → Ensures X (check_breakout a b s c atr10) Any
  unfolding check_breakout
  check_breakout_ensures a b s c atr10 = bind_ensures (stop_if_ensures _) λ _ _.
      bind_ensures (reject_if_ensures _ _) λ _ _.
        bind_ensures (reject_if_ensures _ _) λ _ _. weaken_ensures (reject_if_ensures _ _) λ _ _. tt

  check_signal_ensures :
      (s : Candle F) → (s.avg_vol ≤? zero_float) ≡ false → Ensures X (check_signal s) Any
  unfolding check_signal
  check_signal_ensures s vol = bind_ensures (stop_if_ensures _) λ _ range.
      bind_ensures (divided_ensures laws _ _ range) λ _ _.
        bind_ensures (reject_if_ensures _ _) λ _ _.
          bind_ensures (divided_ensures laws _ _ vol)
            λ _ _. bind_ensures (reject_if_ensures _ _) λ _ _. pure_ensures _ tt

  check_confirmation_ensures :
      (cfg : StrategyConfig F) (s c : Candle F) → Ensures X (check_confirmation cfg s c) Any
  unfolding check_confirmation
  check_confirmation_ensures cfg s c = bind_ensures (reject_if_ensures _ _) λ _ _.
      bind_ensures (reject_if_ensures _ _) λ _ _. bind_ensures (reject_if_ensures _ _) λ _ _.
        bind_ensures (reject_if_ensures _ _) λ _ _.
          bind_ensures (ratio_or_ensures laws _ _ _)
            λ _ _. weaken_ensures (reject_if_ensures _ _) λ _ _. tt

  nr4_signal_ensures :
      (cfg : StrategyConfig F) (a b s c : Candle F) (score : F) (bias : Bias)
      → (c.atr ≤? zero_float) ≡ false
      → Ensures X (nr4_signal cfg a b s c score bias) (IsSound cfg buy)
  unfolding nr4_signal
  nr4_signal_ensures cfg a b s c score bias atr = bind_ensures (reject_if_ensures _ _) λ _ _.
      bind_ensures (reject_if_ensures _ _) λ _ risk.
        pure_ensures _
          (record { side_eq = refl; in_range = risk; atr_pos = atr; levels = (refl, refl) })

  -- The 1d engine, on any frame: it never raises, bumps one reject key at most and none with a
  -- signal, and its signals buy, with stop, target and risk as `IsSound` says.
  pub evaluate_nr4_1d_ensures :
      (pd : Pandas F) (df : List (Candle F)) (context : Context F) (cfg : StrategyConfig F)
      → IsPandas pd
      → HasTrends cfg ⊎ X
      → Ensures X (evaluate_nr4_1d pd df context cfg) (IsSound cfg buy)
  unfolding evaluate_nr4_1d
  evaluate_nr4_1d_ensures pd df context cfg p spans = bind_ensures (stop_if_ensures _) λ _ n.
      let long : 4 ≤ length df = ground arith in
      bind_ensures (row_back_ensures df 4 (omega arith) (omega arith)) λ a _.
        bind_ensures (row_back_ensures df 3 (omega arith) (omega arith)) λ b _.
          bind_ensures (row_back_ensures df 2 (omega arith) (omega arith)) λ s _.
            bind_ensures (row_back_ensures df 1 (omega arith) (omega arith)) λ c _.
              bind_ensures (stop_if_ensures _) λ _ _. bind_ensures (stop_if_ensures _) λ _ positive.
                bind_ensures (stop_if_ensures _) λ _ _.
                  bind_ensures (check_breakout_ensures a b s c _) λ _ _.
                    bind_ensures (check_signal_ensures s (ground arith)) λ ratios _.
                      bind_ensures (check_confirmation_ensures cfg s c) λ _ _.
                        bind_ensures (htf_trend_ensures pd cfg context p spans) λ t _.
                          bind_ensures (nr4_bias_ensures t)
                            λ bias _. nr4_signal_ensures cfg a b s c _ bias (ground arith)
