-- ===== src/Backtest/Walk.antt =====
-- The walk of a backtest reaches the last candle.
use trading_binance.Base.{ℕ, zero, suc, ◌+◌, ◌≤◌, ◌<◌, arith, String, Option, List, length}
use trading_binance.Num.{Float}
use trading_binance.Indicators.{Pandas}
use trading_binance.Strategy.Frame.{StrategyConfig, Signal}
use trading_binance.Strategy.Signals.{MainFrame}
use trading_binance.Backtest.{
  BacktestSettings, ContextRows, Progress, count_found, take_signal, step_walk, walk,
  simulate_trades,
}

module _ {F : Type 0} ⦃fl : Float F⦄ (pd : Pandas F) (cfg : StrategyConfig F)
    (settings : BacktestSettings F) (interval : String) (df : MainFrame F) (close_ns : List ℕ)
    (context : Option (ContextRows F)) where
  pub take_signal_advances :
      (signal : Option (Signal F)) (p : Progress F)
      → 1 ≤ settings.skip_after_signal
      → p.index < (take_signal pd cfg settings interval df close_ns context signal p).index
  unfolding take_signal
  take_signal_advances signal p skip = ground arith

  pub step_walk_advances :
      (p : Progress F)
      → 1 ≤ settings.skip_after_signal
      → p.index < (step_walk pd cfg settings interval df close_ns context p).index
  unfolding step_walk count_found
  step_walk_advances p skip = take_signal_advances _ _ skip

  walk_finishes :
      (fuel : ℕ) (p : Progress F)
      → 1 ≤ settings.skip_after_signal
      → length df.bars ≤ p.index + fuel
      → length df.bars ≤ (walk pd cfg settings interval df close_ns context fuel p).index + 1
  unfolding walk
  walk_finishes zero p skip enough = omega arith
  walk_finishes (suc fuel) p skip enough =
      let advances = step_walk_advances p skip in
      let rest =
        walk_finishes fuel (step_walk pd cfg settings interval df close_ns context p) skip
          (omega arith) in
      ground arith

  -- With a positive skip after a signal, the walk ends as the loop of the source does, at the last
  -- candle or past it: as much fuel as there are candles is enough.
  pub simulate_trades_finishes :
      1 ≤ settings.skip_after_signal
      → length df.bars ≤ (simulate_trades pd cfg settings interval df close_ns context).index + 1
  unfolding simulate_trades
  simulate_trades_finishes skip = walk_finishes _ _ skip (omega arith)
