-- ===== src/Strategy/Bos.antt =====
-- `_evaluate_bos_4h` of strategy.py: a break of structure, and its retest, on the 4h frame.
pub mod Sound
use trading_binance.Base.{
  ℕ, zero, suc, ◌+◌, ◌-◌, ◌≡◌, Bool, true, false, not, ◌&&◌, ◌||◌, Option, none, some, List, [],
  ◌∷◌, map, length, get_elem?, take, drop, ltb, leb, max, if◌then◌else◌,
}
use trading_binance.Indicators.{Pandas}
use trading_binance.Num.{Float, zero_float, lit, ◌<?◌, ◌≤?◌, ◌⊖◌, ◌⊗◌, ◌⊕◌, absolute}
use trading_binance.Strategy.Eval.{
  Eval, ◌>>=◌, ◌>>◌, pure, stop_if, reject, reject_if, choose, found, divided, ratio_or,
}
use trading_binance.Strategy.Frame.{
  Candle, StrategyConfig, Context, HtfTrend, absent, undefined, bullish, contrary, Signal, Side,
  buy, Bias, long, neutral, row_back, any_nan, between, htf_trend, risk_out_of_range, grade,
}

-- The break of structure that the search found.
pub record BreakOfStructure (F : Type 0) : Type 0 where
  pub bos_idx : ℕ
  pub swing_high : F
  pub bos_body_ratio : F
  pub bos_vol_ratio : F

-- How one row of the search ends: `continue`, with or without a flag, or `break`.
pub data Probe (F : Type 0) : Type 0 where
  skip : Probe F
  trend_fail : Probe F
  volume_fail : Probe F
  hit : BreakOfStructure F → Probe F

module _ {F : Type 0} ⦃fl : Float F⦄ where
  required_current : Candle F → List F
  required_current c =
      c.open_price ∷ c.high ∷ c.low ∷ c.close ∷ c.volume ∷ c.ema_fast ∷ c.ema_mid ∷ c.ema_trend
      ∷ c.atr ∷ c.atr_avg ∷ c.avg_vol ∷ c.rsi ∷ []

  required_bos : Candle F → List F
  required_bos b =
      b.open_price ∷ b.high ∷ b.low ∷ b.close ∷ b.volume ∷ b.ema_fast ∷ b.ema_mid ∷ b.ema_trend
      ∷ b.atr ∷ b.avg_vol ∷ []

  -- `df["high"].iloc[hist_start : hist_end + 1]`
  high_window : List (Candle F) → ℕ → ℕ → List F
  high_window df hist_start hist_end =
      map (λ c. c.high) (take (hist_end + 1 - hist_start) (drop hist_start df))

  -- The tests of a row from its swing high on.
  probe_swing : Candle F → ℕ → F → Eval (Probe F)
  probe_swing b idx swing_candidate = choose (b.close ≤? swing_candidate) (pure skip) (
      choose (not ((b.ema_mid <? b.ema_fast) && (b.ema_trend <? b.ema_mid))) (pure trend_fail) (do
        b_vol_ratio ← divided b.volume b.avg_vol
        choose (b_vol_ratio <? lit 120 2) (pure volume_fail) (do
          b_body_ratio ← divided (absolute (b.close ⊖ b.open_price)) (b.high ⊖ b.low)
          choose (b_body_ratio <? lit 35 2) (pure skip) (
              pure (
                hit (record {
                  bos_idx = idx;
                  swing_high = swing_candidate;
                  bos_body_ratio = b_body_ratio;
                  bos_vol_ratio = b_vol_ratio;
                }))))))

  -- One round of the search, at row `idx`.
  probe_row : Pandas F → List (Candle F) → ℕ → Eval (Probe F)
  probe_row pd df idx = do
    b ← found (get_elem? df idx)
    let b_range = b.high ⊖ b.low
    let hist_start = idx - 30
    let window = high_window df hist_start (idx - 3)
    choose (any_nan (required_bos b)) (pure skip) (
        choose ((b_range ≤? zero_float) || (b.avg_vol ≤? zero_float) || (b.atr ≤? zero_float))
          (pure skip)
          (choose (ltb idx 3 || ltb (idx - 3) hist_start) (pure skip) (
            choose (ltb (length window) 10) (pure skip)
              (probe_swing b idx (pd.series_max window)))))

  -- `break` with the row that was found, or go on with the flags.
  resume :
      Probe F → Bool → Bool → (Bool → Bool → Eval (BreakOfStructure F)) → Eval (BreakOfStructure F)
  resume skip saw_trend saw_volume next = next saw_trend saw_volume
  resume trend_fail saw_trend saw_volume next = next true saw_volume
  resume volume_fail saw_trend saw_volume next = next saw_trend true
  resume (hit bos) saw_trend saw_volume next = pure bos

  -- `for idx in range(bos_end, bos_start - 1, -1)`: `rounds` rows, down from `idx`. A search that
  -- finds nothing rejects by the flags that it saw.
  find_bos : Pandas F → List (Candle F) → ℕ → ℕ → Bool → Bool → Eval (BreakOfStructure F)
  find_bos pd df zero idx saw_trend saw_volume =
      choose saw_volume (reject "reject_bos_volume")
        (choose saw_trend (reject "reject_bos_trend") (reject "reject_bos_missing"))
  find_bos pd df (suc rounds) idx saw_trend saw_volume =
      probe_row pd df idx >>= λ p. resume p saw_trend saw_volume (find_bos pd df rounds (idx - 1))

  -- The last row must retest the swing high from above.
  check_retest : StrategyConfig F → Candle F → F → Eval (Unit {0})
  check_retest cfg c swing_high = do
    reject_if (not (between (swing_high ⊖ lit 45 2 ⊗ c.atr) c.low (swing_high ⊕ lit 55 2 ⊗ c.atr)))
        "reject_bos_retest_zone"
    reject_if ((c.close ≤? c.open_price) || (c.close <? (swing_high ⊖ lit 5 2 ⊗ c.atr)))
        "reject_bos_retest_body"
    reject_if (not ((c.ema_mid <? c.ema_fast) && (c.ema_trend ≤? c.ema_mid))) "reject_bos_structure"
    reject_if (not (between (lit 45 0) c.rsi (lit 63 0))) "reject_bos_retest_rsi"
    atr_avg_ratio ← ratio_or c.atr c.atr_avg (lit 1 0)
    reject_if (cfg.max_atr_avg_ratio <? atr_avg_ratio) "reject_bos_atr_spike"
    bos_spread_atr ← ratio_or (c.ema_fast ⊖ c.ema_mid) c.atr zero_float
    reject_if ((lit 1 0 ≤? bos_spread_atr) && (c.rsi <? lit 57 0)) "reject_bos_spread_cold"

  strong_bos : BreakOfStructure F → F → Bool
  strong_bos bos c_rsi =
      (lit 60 2 ≤? bos.bos_body_ratio)
      && (lit 140 2 ≤? bos.bos_vol_ratio)
      && between (lit 50 0) c_rsi (lit 60 0)

  bos_bias : BreakOfStructure F → F → HtfTrend → Eval Bias
  bos_bias bos c_rsi contrary =
      choose (strong_bos bos c_rsi) (pure neutral) (reject "reject_bos_htf")
  bos_bias bos c_rsi absent = pure long
  bos_bias bos c_rsi undefined = pure long
  bos_bias bos c_rsi bullish = pure long

  bos_score : BreakOfStructure F → Candle F → F
  bos_score bos c =
      let body =
        grade zero_float (lit 50 2 ≤? bos.bos_body_ratio) (lit 6 1) (lit 40 2 ≤? bos.bos_body_ratio)
          (lit 35 2) in
      let volume =
        grade body (lit 128 2 ≤? bos.bos_vol_ratio) (lit 5 1) (lit 120 2 ≤? bos.bos_vol_ratio)
          (lit 3 1) in
      let distance = absolute (c.low ⊖ bos.swing_high) in
      let retest =
        grade volume (distance ≤? lit 18 2 ⊗ c.atr) (lit 5 1) (distance ≤? lit 30 2 ⊗ c.atr)
          (lit 3 1) in
      let momentum =
        grade retest (between (lit 50 0) c.rsi (lit 60 0)) (lit 4 1)
          (between (lit 48 0) c.rsi (lit 62 0)) (lit 2 1) in
      fl.round_to momentum 2

  -- Stop, risk and target, for a score that is high enough.
  bos_signal :
      StrategyConfig F → List (Candle F) → BreakOfStructure F → Candle F → Bias → Eval (Signal F)
  bos_signal cfg df bos c bias = do
    let score = bos_score bos c
    let stop_price = bos.swing_high ⊖ lit 5 1 ⊗ c.atr
    let risk = c.close ⊖ stop_price
    reject_if (score <? lit 170 2) "reject_bos_score"
    reject_if (risk_out_of_range cfg risk c.atr) "reject_bos_risk"
    b ← found (get_elem? df bos.bos_idx)
    pure (record {
      side = buy;
      price = c.close;
      stop_price = stop_price;
      tp_price = c.close ⊕ risk ⊗ lit 25 1;
      risk_per_unit = risk;
      rr_target = lit 25 1;
      atr = c.atr;
      score = score;
      htf_bias = bias;
      strategy = "bos_retest_4h";
      breakout_time = b.close_time;
    })

  pub evaluate_bos_4h : Pandas F → List (Candle F) → Context F → StrategyConfig F → Eval (Signal F)
  evaluate_bos_4h pd df context cfg = do
    stop_if (ltb (length df) 36)
    c ← row_back df 1
    stop_if (any_nan (required_current c))
    stop_if ((c.atr ≤? zero_float) || (c.avg_vol ≤? zero_float))
    let current_idx = length df - 1
    let bos_start = max 2 (current_idx - 10)
    let bos_end = current_idx - 1
    reject_if (ltb bos_end bos_start) "reject_bos_missing"
    bos ← find_bos pd df (bos_end + 1 - bos_start) bos_end false false
    check_retest cfg c bos.swing_high
    trend ← htf_trend pd cfg context
    bias ← bos_bias bos c.rsi trend
    bos_signal cfg df bos c bias
