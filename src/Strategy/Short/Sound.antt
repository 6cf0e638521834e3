-- ===== src/Strategy/Short/Sound.antt =====
-- The 15m short engine never raises, counts each rejection once, and returns sound signals.
use trading_binance.Base.{◌⊎◌, ◌≤◌, ◌≡◌, refl, false, List, length, arith}
use trading_binance.Indicators.{Pandas}
use trading_binance.Indicators.Lengths.{IsPandas}
use trading_binance.Num.{Float, IsFloat, zero_float, ◌≤?◌, ◌⊖◌}
use trading_binance.Strategy.Eval.Post.{
  Ensures, Any, bind_ensures, pure_ensures, reject_ensures, reject_if_ensures, stop_if_ensures,
  choose_ensures, divided_ensures, ratio_or_ensures, weaken_ensures,
}
use trading_binance.Strategy.Frame.{
  Candle, StrategyConfig, Context, HtfTrend, absent, undefined, bullish, contrary, sell,
}
use trading_binance.Strategy.Frame.Reads.{row_back_ensures, htf_trend_ensures, HasTrends, IsSound}
use trading_binance.Strategy.Short.{
  check_extension, check_candle, check_short_confirmation, short_htf_penalty, short_signal,
  evaluate_short_15m,
}

module _ {F X : Type 0} ⦃fl : Float F⦄ (laws : IsFloat F) where
  check_extension_ensures :
      (s : Candle F) → (s.atr ≤? zero_float) ≡ false → Ensures X (check_extension s) Any
  unfolding check_extension
  check_extension_ensures s atr = bind_ensures (reject_if_ensures _ _) λ _ _.
      bind_ensures (divided_ensures laws _ _ atr) λ _ _. bind_ensures (reject_if_ensures _ _) λ _ _.
        bind_ensures (divided_ensures laws _ _ atr) λ _ _.
          bind_ensures (reject_if_ensures _ _)
            λ _ _. bind_ensures (reject_if_ensures _ _) λ _ _. pure_ensures _ tt

  check_candle_ensures :
      (cfg : StrategyConfig F) (s : Candle F) (extension_atr : F)
      → ((s.high ⊖ s.low) ≤? zero_float) ≡ false
      → (s.avg_vol ≤? zero_float) ≡ false
      → Ensures X (check_candle cfg s extension_atr) Any
  unfolding check_candle
  check_candle_ensures cfg s extension_atr range vol =
      bind_ensures (divided_ensures laws _ _ range) λ _ _.
        bind_ensures (reject_if_ensures _ _) λ _ _.
          bind_ensures (divided_ensures laws _ _ vol) λ _ _.
            bind_ensures (reject_if_ensures _ _) λ _ _.
              bind_ensures (ratio_or_ensures laws _ _ _)
                λ _ _. bind_ensures (reject_if_ensures _ _) λ _ _. pure_ensures _ tt

  check_short_confirmation_ensures : (s c : Candle F) → Ensures X (check_short_confirmation s c) Any
  unfolding check_short_confirmation
  check_short_confirmation_ensures s c =
      bind_ensures (ratio_or_ensures laws _ _ _)
        λ _ _. weaken_ensures (reject_if_ensures _ _) λ _ _. tt

  short_htf_penalty_ensures :
      (extension_atr : F) (t : HtfTrend) → Ensures X (short_htf_penalty extension_atr t) Any
  unfolding short_htf_penalty
  short_htf_penalty_ensures x bullish =
      choose_ensures _ (λ _. pure_ensures _ tt) (λ _. reject_ensures _)
  short_htf_penalty_ensures x absent = pure_ensures _ tt
  short_htf_penalty_ensures x undefined = pure_ensures _ tt
  short_htf_penalty_ensures x contrary = pure_ensures _ tt

  short_signal_ensures :
      (cfg : StrategyConfig F) (s c : Candle F) (score : F)
      → (s.atr ≤? zero_float) ≡ false
      → Ensures X (short_signal cfg s c score) (IsSound cfg sell)
  unfolding short_signal
  short_signal_ensures cfg s c score atr = bind_ensures (reject_if_ensures _ _) λ _ _.
      bind_ensures (reject_if_ensures _ _) λ _ risk.
        pure_ensures _
          (record { side_eq = refl; in_range = risk; atr_pos = atr; levels = (refl, refl) })

  -- The short engine, on any frame: it never raises, bumps one reject key at most and none with a
  -- signal, and its signals sell, with stop, target and risk as `IsSound` says.
  pub evaluate_short_15m_ensures :
      (pd : Pandas F) (df : List (Candle F)) (context : Context F) (cfg : StrategyConfig F)
      → IsPandas pd
      → HasTrends cfg ⊎ X
      → Ensures X (evaluate_short_15m pd df context cfg) (IsSound cfg sell)
  unfolding evaluate_short_15m
  evaluate_short_15m_ensures pd df context cfg p spans = bind_ensures (stop_if_ensures _) λ _ n.
      let long : 3 ≤ length df = ground arith in
      bind_ensures (row_back_ensures df 2 (omega arith) (omega arith)) λ s _.
        bind_ensures (row_back_ensures df 1 (omega arith) (omega arith)) λ c _.
          bind_ensures (stop_if_ensures _) λ _ _. bind_ensures (stop_if_ensures _) λ _ _.
            bind_ensures (stop_if_ensures _) λ _ positive.
              bind_ensures (stop_if_ensures _) λ _ range.
                bind_ensures (check_extension_ensures s (ground arith)) λ x _.
                  bind_ensures (check_candle_ensures cfg s x range (ground arith)) λ e _.
                    bind_ensures (check_short_confirmation_ensures s c) λ _ _.
                      bind_ensures (htf_trend_ensures pd cfg context p spans) λ t _.
                        bind_ensures (short_htf_penalty_ensures x t)
                          λ penalty _. short_signal_ensures cfg s c _ (ground arith)
