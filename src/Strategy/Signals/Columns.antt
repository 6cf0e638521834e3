-- ===== src/Strategy/Signals/Columns.antt =====
-- `evaluate_signal` of strategy.py on the frames that services/signal_service.py completes.
use trading_binance.Base.{◌≡◌, refl, List, map, subst}
use trading_binance.Num.{Float}
use trading_binance.Indicators.{Pandas, ema, atr_series, rsi}
use trading_binance.Py.{answer, and_then}
use trading_binance.Py.Laws.{and_then_inverse, answer_injective}
use trading_binance.Strategy.Eval.{Rejects}
use trading_binance.Strategy.Frame.{StrategyConfig, Context}
use trading_binance.Strategy.Profile.{Interval}
use trading_binance.Strategy.Signals.{MainFrame, column_call, evaluate_signal, with_indicators}
use trading_binance.Scan.{assign_columns, ensure_main_indicators}

module _ {F : Type 0} ⦃fl : Float F⦄ (pd : Pandas F) (cfg : StrategyConfig F)
    (df : MainFrame F) where
  -- The columns that the scan has assigned, each as it was there or computed.
  record Assigned (full : MainFrame F) : Type 0 where
    fast : List F
    mid : List F
    trend : List F
    atr : List F
    rsi_values : List F
    fast_call :
        column_call df.ema_fast (ema pd (map (λ b. b.close) df.bars) cfg.ema_fast) ≡ answer fast
    mid_call : column_call df.ema_mid (ema pd (map (λ b. b.close) df.bars) cfg.ema_mid) ≡ answer mid
    trend_call :
        column_call df.ema_trend (ema pd (map (λ b. b.close) df.bars) cfg.ema_trend) ≡ answer trend
    atr_call : column_call df.atr (atr_series pd df.bars cfg.atr_period) ≡ answer atr
    rsi_call :
        column_call df.rsi (rsi pd (map (λ b. b.close) df.bars) cfg.rsi_period) ≡ answer rsi_values
    same : assign_columns pd cfg df fast mid trend atr rsi_values ≡ full

  ensure-Assigned :
      (full : MainFrame F) → ensure_main_indicators pd cfg df ≡ answer full → Assigned full
  unfolding ensure_main_indicators
  ensure-Assigned full e =
      let (fast, same_fast, e1) = and_then_inverse _ _ full e in
      let (mid, same_mid, e2) = and_then_inverse _ _ full e1 in
      let (trend, same_trend, e3) = and_then_inverse _ _ full e2 in
      let (atr, same_atr, e4) = and_then_inverse _ _ full e3 in
      let (rsi_values, same_rsi, e5) = and_then_inverse _ _ full e4 in
      record {
        fast = fast;
        mid = mid;
        trend = trend;
        atr = atr;
        rsi_values = rsi_values;
        fast_call = same_fast;
        mid_call = same_mid;
        trend_call = same_trend;
        atr_call = same_atr;
        rsi_call = same_rsi;
        same = answer_injective e5;
      }

  -- `evaluate_signal` says the same of a frame and of the frame that the scan has given all its
  -- columns, whatever columns were there, where pandas took the periods of the missing ones.
  pub evaluate_signal-ensure_main :
      (full : MainFrame F) (context : Context F) (interval : Interval) (rejects : Rejects)
      → ensure_main_indicators pd cfg df ≡ answer full
      → evaluate_signal pd full context cfg interval rejects
        ≡ evaluate_signal pd df context cfg interval rejects
  unfolding evaluate_signal assign_columns with_indicators and_then column_call
  evaluate_signal-ensure_main full context interval rejects e =
      let assigned = ensure-Assigned full e in
      subst
        (λ x.
          evaluate_signal pd x context cfg interval rejects
          ≡ evaluate_signal pd df context cfg interval rejects)
        assigned.same
        (rw
          (
            assigned.fast_call, assigned.mid_call, assigned.trend_call, assigned.atr_call,
            assigned.rsi_call,
          )
          refl)
