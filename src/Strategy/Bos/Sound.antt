-- ===== src/Strategy/Bos/Sound.antt =====
-- The 4h engine never raises, counts each rejection once, and returns sound signals.
use trading_binance.Base.{
  ◌⊎◌, ℕ, zero, suc, ◌-◌, ◌<◌, ◌≡◌, refl, Bool, true, false, ◌&&◌, List, length,
  get_elem?-lt-length, arith,
}
use trading_binance.Indicators.{Pandas}
use trading_binance.Indicators.Lengths.{IsPandas}
use trading_binance.Num.{Float, IsFloat, zero_float, lit, ◌≤?◌, ◌⊖◌}
use trading_binance.Strategy.Eval.{Eval}
use trading_binance.Strategy.Eval.Post.{
  Ensures, Any, bind_ensures, pure_ensures, reject_ensures, reject_if_ensures, stop_if_ensures,
  choose_ensures, found_ensures, divided_ensures, weaken_ensures, ratio_or_ensures,
}
use trading_binance.Strategy.Frame.{
  Candle, StrategyConfig, Context, HtfTrend, absent, undefined, bullish, contrary, buy, Bias,
}
use trading_binance.Strategy.Frame.Reads.{row_back_ensures, htf_trend_ensures, HasTrends, IsSound}
use trading_binance.Strategy.Bos.{
  BreakOfStructure, Probe, skip, trend_fail, volume_fail, hit, probe_swing, probe_row, find_bos,
  resume, check_retest, bos_bias, bos_signal, evaluate_bos_4h,
}

-- A break that the search returns is a row of the frame.
abbrev IsProbe : {F : Type 0} → ℕ → Probe F → Type 0
IsProbe n (hit bos) = bos.bos_idx < n
IsProbe n _ = Unit

module _ {F X : Type 0} ⦃fl : Float F⦄ (laws : IsFloat F) where
  probe_swing_ensures :
      (b : Candle F) (idx n : ℕ) (swing : F)
      → idx < n
      → (b.avg_vol ≤? zero_float) ≡ false
      → ((b.high ⊖ b.low) ≤? zero_float) ≡ false
      → Ensures X (probe_swing b idx swing) (IsProbe n)
  unfolding probe_swing
  probe_swing_ensures b idx n swing h vol range =
      choose_ensures _ (λ _. pure_ensures _ tt)
        λ _.
          choose_ensures _ (λ _. pure_ensures _ tt)
            λ _. bind_ensures (divided_ensures laws _ _ vol) λ v _.
              choose_ensures _ (λ _. pure_ensures _ tt)
                λ _.
                  bind_ensures (divided_ensures laws _ _ range)
                    λ r _. choose_ensures _ (λ _. pure_ensures _ tt) λ _. pure_ensures _ h

  probe_row_ensures :
      (pd : Pandas F) (df : List (Candle F)) (idx : ℕ)
      → idx < length df
      → Ensures X (probe_row pd df idx) (IsProbe (length df))
  unfolding probe_row
  probe_row_ensures pd df idx h =
      let (c, e) = get_elem?-lt-length df idx h in
      bind_ensures (found_ensures {P = Any} c e tt) λ b _.
        choose_ensures _ (λ _. pure_ensures _ tt)
          λ _.
            choose_ensures _ (λ _. pure_ensures _ tt)
              λ usable.
                choose_ensures _ (λ _. pure_ensures _ tt)
                  λ _.
                    choose_ensures _ (λ _. pure_ensures _ tt)
                      λ _. probe_swing_ensures b idx (length df) _ h (ground arith) (ground arith)

  resume_ensures :
      (p : Probe F) (t v : Bool) (next : Bool → Bool → Eval (BreakOfStructure F)) (n : ℕ)
      → IsProbe n p
      → ((t v : Bool) → Ensures X (next t v) (λ bos. bos.bos_idx < n))
      → Ensures X (resume p t v next) (λ bos. bos.bos_idx < n)
  unfolding resume
  resume_ensures skip t v next n q h = h t v
  resume_ensures trend_fail t v next n q h = h true v
  resume_ensures volume_fail t v next n q h = h t true
  resume_ensures (hit bos) t v next n q h = pure_ensures _ q

  find_bos_ensures :
      (pd : Pandas F) (df : List (Candle F)) (rounds idx : ℕ) (saw_trend saw_volume : Bool)
      → idx < length df
      → Ensures X (find_bos pd df rounds idx saw_trend saw_volume) (λ bos. bos.bos_idx < length df)
  unfolding find_bos
  find_bos_ensures pd df zero idx saw_trend saw_volume h =
      choose_ensures _ (λ _. reject_ensures _)
        λ _. choose_ensures _ (λ _. reject_ensures _) (λ _. reject_ensures _)
  find_bos_ensures pd df (suc rounds) idx saw_trend saw_volume h =
      bind_ensures (probe_row_ensures pd df idx h) λ p q.
        resume_ensures p saw_trend saw_volume _ _ q
          λ t v. find_bos_ensures pd df rounds (idx - 1) t v (omega arith)

  check_retest_ensures :
      (cfg : StrategyConfig F) (c : Candle F) (swing : F)
      → Ensures X
          (check_retest cfg c swing)
          (λ _. (lit 45 0 ≤? c.rsi) && (c.rsi ≤? lit 63 0) ≡ true)
  unfolding check_retest
  check_retest_ensures cfg c swing = bind_ensures (reject_if_ensures _ _) λ _ _.
      bind_ensures (reject_if_ensures _ _) λ _ _. bind_ensures (reject_if_ensures _ _) λ _ _.
        bind_ensures (reject_if_ensures _ _) λ _ rsi.
          bind_ensures (ratio_or_ensures laws _ _ _) λ _ _.
            bind_ensures (reject_if_ensures _ _) λ _ _.
              bind_ensures (ratio_or_ensures laws _ _ _)
                λ _ _. weaken_ensures (reject_if_ensures _ _) λ _ _. ground arith

  bos_bias_ensures :
      (bos : BreakOfStructure F) (rsi : F) (t : HtfTrend) → Ensures X (bos_bias bos rsi t) Any
  unfolding bos_bias
  bos_bias_ensures bos rsi contrary =
      choose_ensures _ (λ _. pure_ensures _ tt) (λ _. reject_ensures _)
  bos_bias_ensures bos rsi absent = pure_ensures _ tt
  bos_bias_ensures bos rsi undefined = pure_ensures _ tt
  bos_bias_ensures bos rsi bullish = pure_ensures _ tt

  bos_signal_ensures :
      (cfg : StrategyConfig F) (df : List (Candle F)) (bos : BreakOfStructure F) (c : Candle F)
      (bias : Bias)
      → bos.bos_idx < length df
      → (c.atr ≤? zero_float) ≡ false
      → Ensures X (bos_signal cfg df bos c bias) (IsSound cfg buy)
  unfolding bos_signal
  bos_signal_ensures cfg df bos c bias h atr =
      let (b, e) = get_elem?-lt-length df bos.bos_idx h in
      bind_ensures (reject_if_ensures _ _) λ _ score. bind_ensures (reject_if_ensures _ _) λ _ risk.
        bind_ensures (found_ensures {P = Any} b e tt) λ _ _.
          pure_ensures _
            (record { side_eq = refl; in_range = risk; atr_pos = atr; levels = (refl, refl) })

  -- The 4h engine, on any frame: it never raises, bumps one reject key at most and none with a
  -- signal, and its signals buy, with stop, target and risk as `IsSound` says.
  pub evaluate_bos_4h_ensures :
      (pd : Pandas F) (df : List (Candle F)) (context : Context F) (cfg : StrategyConfig F)
      → IsPandas pd
      → HasTrends cfg ⊎ X
      → Ensures X (evaluate_bos_4h pd df context cfg) (IsSound cfg buy)
  unfolding evaluate_bos_4h
  evaluate_bos_4h_ensures pd df context cfg p spans = bind_ensures (stop_if_ensures _) λ _ long.
      bind_ensures (row_back_ensures df 1 (omega arith) (ground arith)) λ c _.
        bind_ensures (stop_if_ensures _) λ _ _. bind_ensures (stop_if_ensures _) λ _ positive.
          bind_ensures (reject_if_ensures _ _) λ _ _.
            bind_ensures (find_bos_ensures pd df _ _ false false (ground arith)) λ bos h.
              bind_ensures (check_retest_ensures cfg c bos.swing_high) λ _ _.
                bind_ensures (htf_trend_ensures pd cfg context p spans) λ t _.
                  bind_ensures (bos_bias_ensures bos c.rsi t)
                    λ bias _. bos_signal_ensures cfg df bos c bias h (ground arith)
