-- ===== src/Backtest/Tests.antt =====
-- A backtest with one trade, and the theorems at those inputs.
use trading_binance.Base.{
  ℕ, zero, suc, ◌≤◌, ◌+◌, ◌≡◌, refl, arith, some, none, List, [], ◌∷◌, ◌++◌, length,
}
use trading_binance.Num.Fixed.{Fixed, fixed_float, Fixed-IsFloat}
use trading_binance.Strategy.Frame.{sell}
use trading_binance.Strategy.Signals.{MainFrame}
use trading_binance.Strategy.Signals.Tests.{
  identity_pandas, identity_pandas-IsPandas, config, config-HasPeriods, frame, dec, bar,
}
use trading_binance.Backtest.{
  BacktestSettings, win, touches_target, touches_stop, exit_in, scan_exit, simulate_trades,
}
use trading_binance.Backtest.Exit.{Ends, scan_exit_lem}
use trading_binance.Backtest.Walk.{simulate_trades_finishes}
use trading_binance.Backtest.Audit.{IsAudited, simulate_trades-IsAudited}

abbrev settings : BacktestSettings Fixed
settings = record {
  margin_per_trade = dec 5 0;
  leverage = 20;
  commission_pct = dec 4 4;
  max_candles_hold = 50;
  skip_after_signal = 10;
  eval_window_rows = 4;
  context_window_rows = 80;
  block_sell_on_intervals = "4h" ∷ [];
}

abbrev repeat : {A : Type 0} → ℕ → A → List A → List A
repeat zero x xs = xs
repeat (suc n) x xs = x ∷ repeat n x xs

-- Seventeen candles in front of the frame, and two behind it: the last one falls to the target.
abbrev history : MainFrame Fixed
history = record {
  bars =
      repeat 17 (bar (dec 100 0) (dec 101 0) (dec 99 0) (dec 100 0) (dec 10 0)) frame.bars
      ++ (bar (dec 995 1) (dec 996 1) (dec 99 0) (dec 991 1) (dec 10 0)
          ∷ bar (dec 991 1) (dec 992 1) (dec 94 0) (dec 95 0) (dec 10 0)
          ∷ []);
  close_times = repeat 23 "t" [];
  ema_fast = some (repeat 23 (dec 100 0) []);
  ema_mid = some (repeat 23 (dec 995 1) []);
  ema_trend = some (repeat 23 (dec 99 0) []);
  atr = some (repeat 23 (dec 1 0) []);
  atr_avg = some (repeat 23 (dec 1 0) []);
  avg_vol = some (repeat 23 (dec 10 0) []);
  rsi = some (repeat 23 (dec 72 0) []);
}

exits :
    scan_exit sell (dec 944 1) (dec 1029 1) (dec 995 1) 0 (
      bar (dec 995 1) (dec 996 1) (dec 99 0) (dec 991 1) (dec 10 0)
      ∷ bar (dec 991 1) (dec 992 1) (dec 94 0) (dec 95 0) (dec 10 0)
      ∷ [])
    ≡ record { result = win; exit_price = dec 944 1; candles_held = 2 }
unfolding scan_exit exit_in touches_target touches_stop trading_binance.Entry.Plan.by_side
exits = refl

scan_exit_lem_example :
    Ends sell
      (dec 944 1)
      (dec 1029 1)
      (dec 995 1)
      0
      history.bars
      (scan_exit sell (dec 944 1) (dec 1029 1) (dec 995 1) 0 history.bars)
scan_exit_lem_example = scan_exit_lem sell (dec 944 1) (dec 1029 1) (dec 995 1) 0 history.bars

simulate_trades_finishes_example :
    length history.bars
    ≤ (simulate_trades identity_pandas config settings "15m" history [] none).index + 1
simulate_trades_finishes_example =
    simulate_trades_finishes identity_pandas config settings "15m" history [] none (omega arith)

simulate_trades-IsAudited_example :
    IsAudited settings "15m" (simulate_trades identity_pandas config settings "15m" history [] none)
simulate_trades-IsAudited_example =
    simulate_trades-IsAudited Fixed-IsFloat identity_pandas identity_pandas-IsPandas config settings
      "15m" history [] none config-HasPeriods
