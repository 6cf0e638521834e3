-- ===== src/Lib.antt =====
-- Verification of tradingBinance, a trading bot for perpetual futures.
--
-- The program polls closed candles of many symbols, computes indicators on them (indicators.py)
-- and evaluates a pure strategy per symbol and interval (strategy.py). A signal passes the risk
-- manager's gate (risk.py) and the operational service's gate
-- (services/operational_service.py), is sized (sizing.py) and becomes an order, which monitors
-- watch until it closes. The closed trade goes back to the risk manager and to the operational
-- service, and so do failures.
--
-- Files and the code they model:
--   Base, Num, Num/Fixed, Py   shared names; `float` as an interface (`Float`) with the laws of
--                              IEEE doubles (`IsFloat`) and a fixed-point type that meets them;
--                              exceptions as values, with Py/Laws
--   Flow                       the calls of a piece of code, in their order, and how it ends;
--                              Flow/Laws has the rules for what such a piece does
--   Sizing                     sizing.py: `PositionSizer` and `is_entry_size_valid`;
--                              Sizing/Bounds has the bounds of a margin
--   Persistence                persistence.py; Persistence/Files has what is left in the files
--   Risk                       risk.py: `RiskManager`; Risk/Gate has the answers of `can_trade`,
--                              Risk/History whole days of calls; Risk/Store: `save` and `load`,
--                              Risk/Store/Back the two together
--   Indicators                 indicators.py; pandas is the parameter `Pandas`, which has no
--                              averages of a period of 0: the code raises there
--   Strategy                   strategy.py. Strategy/Eval: early returns, exceptions and the
--                              reject counts; Strategy/Frame: rows of data frames;
--                              Strategy/Bos, Nr4, Short: `_evaluate_bos_4h`, `_evaluate_nr4_1d`,
--                              `_evaluate_short_15m`; Strategy/Profile, Pullback, Score: the
--                              generic path of `evaluate_signal`; Strategy/Signals:
--                              `evaluate_signal`, with Columns for the frames of the scan. A
--                              child Sound has what an engine's signals satisfy
--   Operations                 services/operational_service.py: `OperationalService`.
--                              Operations/State: its fields; Suspension: suspensions and rules;
--                              Records: the `record_*` methods; Heartbeat: `heartbeat`; Steps:
--                              lists of operations; Kept and Gate: what they keep
--   Execution                  execution.py. Execution/Rounding: `_round_qty`, `_round_price`;
--                              Leverage: `setup`; Protection: `protection_status`,
--                              `get_protection_refs`; Fills: `_check_order_fill_status`, with
--                              Fills/Exits for the exits of `monitor_oco`; Entries: the limit and market entries,
--                              with `_place_limit_only` of services/entry_service.py; Replace:
--                              `place_tp_sl`, `replace_tp_sl`, `_run_safety_check`; Watch: the
--                              loop of `monitor_oco`
--   Entry                      services/entry_service.py with the records of
--                              services/domain_models.py. Entry/Plan: `_build_trade_plan`;
--                              Validate: `_validate_trade_plan`; Submit: `_submit_entry`;
--                              Finalize: `_finalize_entry`, `_execute_candidate`; Close:
--                              `_on_close` and its gates. Books, Counts and Tallies: what is
--                              counted; Guarded, Guarded/Locked and Close/Called: what comes before
--                              an order, and its lock;
--                              Levels: what a monitor starts with
--   Monitor                    monitor_logic.py: `evaluate_early_exit`
--   Positions                  services/position_service.py. Positions/Active:
--                              `count_active_positions`, `has_any_position_or_entry_order`;
--                              Positions/Symbols: the symbols of the former;
--                              Positions/Cache: `PositionCache`, one caller at a time
--   Scan                       services/signal_service.py: `evaluate_interval_signals` and the
--                              columns that it adds; Scan/Cache: `_cached_with_indicators`,
--                              with Scan/Served for what it serves;
--                              Scan/Sorted, Returns and Sound: the order, the ends and the candidates
--   Backtest                   backtest/backtest.py: the walk of `_simulate_trades`, with the
--                              same `evaluate_signal`. Backtest/Exit: the end of a trade; Walk:
--                              the end of the walk; Audit: its counts and its trades
--
-- How the code is read:
--   * Floats are abstract. A theorem holds of every type with the operations, and where it needs
--     `IsFloat`, of every one that satisfies laws that doubles satisfy: rounding is monotone and
--     comparisons with NaN are false, and nothing is exact. The conversion of a count to a float
--     does not overflow.
--   * Times are whole microseconds. The readings of a clock are an argument: `now`, or the
--     function `clock` of the number of readings before.
--   * A method that holds its lock for all of its body is a function of the state; what threads
--     do is a list of such calls, in any order.
--   * The strategy's early returns, its `rejects` dict and its exceptions are one monad
--     (Strategy/Eval), so that a division by zero or a row out of range is a result and can be
--     excluded.
--   * An entry, and the executor's part of it, is a list of calls and an end (Flow). What the
--     exchange answers or raises at each call is an argument, so a theorem holds for all answers;
--     the polls of an order are the list of those before its timeout.
--   * A loop over rows, orders or dict entries is recursion on the list. The loop of `setup` has
--     fuel: its first leverage, as each next one is lower. The walk of a backtest has the number
--     of candles, as each step goes on by one or more.
--   * A file system is a function from paths to contents; a write that raises leaves a part of its
--     text. The conversions of Python's JSON and dates are a record of functions.
--   * The loop of `monitor_oco` is a function of the passes that it has made; it has no end of its own
--     but an exit.
--   * A scan gets the frames of its stream as a list, with what the context needs of them. The
--     cache of enriched frames goes from symbol to symbol; a frame comes with its last row, of which
--     the cache's token is made.
--   * `RECOVERABLE_ERRORS` and `EXCHANGE_ERRORS` are two tests of an exception, which differ in
--     BinanceOrderException; a `try` names the one that it catches.
--   * A `Decimal` is a whole number of a unit that divides all of them.
--
-- Not modelled: texts of logs, events, alerts and reports; the files of the operational service's
-- counters; threads and network (main.py, services/bootstrap_service.py,
-- services/runtime_controller.py, services/telegram_service.py); `scale_fn`
-- of `monitor_oco`, which its callers leave out, the other monitor modules, data_stream.py, the
-- service for exchange metadata, the rest of the position service and config.py; of the backtest,
-- the extra columns of a trade, the downloads with their caches, the CSV files and the statistics.
pub mod Base
pub mod Num
pub mod Py
pub mod Flow
pub mod Sizing
pub mod Persistence
pub mod Risk
pub mod Indicators
pub mod Strategy
pub mod Operations
pub mod Execution
pub mod Monitor
pub mod Positions
pub mod Entry
pub mod Scan
pub mod Backtest
