-- ===== src/Scan/Tests.antt =====
-- Scans of one symbol, a frame that the scan completes, and the theorems at those inputs.
use trading_binance.Base.{◌≡◌, refl, none, some, List, [], ◌∷◌, map}
use trading_binance.Num.Fixed.{Fixed, fixed_float, Fixed-IsFloat}
use trading_binance.Indicators.{ema}
use trading_binance.Py.{answer, and_then}
use trading_binance.Strategy.Frame.{plain}
use trading_binance.Strategy.Profile.{m15_short}
use trading_binance.Strategy.Signals.{MainFrame, column_call, evaluate_signal}
use trading_binance.Strategy.Signals.Columns.{evaluate_signal-ensure_main}
use trading_binance.Strategy.Signals.Tests.{
  identity_pandas, identity_pandas-IsPandas, config, config-HasPeriods, frame, dec, bar,
}
use trading_binance.Scan.{
  Feed, ScanArguments, assign_columns, ensure_main_indicators, evaluate_interval_signals,
}
use trading_binance.Scan.Cache.{LastRow, Cached, main_entry}
use trading_binance.Scan.Sound.{Ranks, evaluate_interval_signals-Ranks}

abbrev last : LastRow Fixed
last = record {
  open_time = 4;
  close_time = 5;
  bar = bar (dec 1001 1) (dec 1002 1) (dec 994 1) (dec 995 1) (dec 10 0);
}

abbrev feeds : List (Feed Fixed)
feeds =
    record {
      symbol = "BTCUSDT";
      main = frame;
      main_last = last;
      context = plain [];
      context_last = last;
    }
    ∷ []

abbrev arguments : ScanArguments
arguments = record {
  owner = 0;
  interval = "15m";
  context_interval = some "1h";
  block_sell_on_intervals = [];
}

-- The frame without its fast average.
abbrev bare : MainFrame Fixed
bare = record frame { ema_fast = none }

-- What the cache holds of the symbol's frame.
abbrev entries : List (Cached Fixed)
entries =
    main_entry (record { owner = 0; symbol = "BTCUSDT"; interval = "15m" })
      (record { rows = 4; last = last }) frame
    ∷ []

evaluate_interval_signals-Ranks_example :
    Ranks Fixed-IsFloat identity_pandas identity_pandas-IsPandas config arguments feeds entries
      (evaluate_interval_signals identity_pandas config arguments feeds entries).outcome
evaluate_interval_signals-Ranks_example =
    evaluate_interval_signals-Ranks Fixed-IsFloat identity_pandas identity_pandas-IsPandas config
      arguments feeds entries config-HasPeriods

-- What the scan makes of the frame without its fast average.
abbrev completed : MainFrame Fixed
completed = record frame { ema_fast = some (map (λ b. b.close) frame.bars) }

completes : ensure_main_indicators identity_pandas config bare ≡ answer completed
unfolding ensure_main_indicators assign_columns column_call and_then ema
completes = refl

evaluate_signal-ensure_main_example :
    evaluate_signal identity_pandas completed (plain []) config m15_short (some [])
    ≡ evaluate_signal identity_pandas bare (plain []) config m15_short (some [])
evaluate_signal-ensure_main_example =
    evaluate_signal-ensure_main identity_pandas config bare completed (plain []) m15_short (some [])
      completes
