-- ===== src/Entry/Tests.antt =====
-- A candidate, its market and the answers of the exchange, on fixed-point numbers.
mod Runs
use trading_binance.Base.{ℕ, ◌≡◌, refl, subst, true, false, String, none, some, List, [], ◌∷◌}
use trading_binance.Num.{lit, zero_float, ◌≺◌}
use trading_binance.Num.Fixed.{Fixed, fixed_float, Fixed-IsFloat}
use trading_binance.Py.{Call, answer, exception, exchange_error}
use trading_binance.Indicators.{Pandas, Bar}
use trading_binance.Sizing.{fixed_margin, margin_to_use, fixed_margin_to_use, is_entry_size_valid}
use trading_binance.Strategy.Frame.{buy, Signal, long}
use trading_binance.Positions.Active.{count_active_positions, active_from}
use trading_binance.Execution.Fills.{pending, filled}
use trading_binance.Execution.Entries.{
  OrderAnswer, Exchange, Rounder, maker, poll_fill, first_positive_float, after_polls,
  place_live_fallback, place_limit_with_market_fallback, place_entry, value_or, is_filled,
}
use trading_binance.Flow.{
  ◌>>=◌, resume, pure, ask, emit, send, choose, rescue, on_outcome, finally_do, within, caught,
  is_recoverable, is_exchange_error,
}
use trading_binance.Entry.{record_error}
use trading_binance.Entry.Plan.{
  EntrySettings, Candidate, Executor, Market, by_side, swing_window, entry_price_with_offset,
  risk_distance_of, available_balance_for_entry, swing_stop, atr_stop, common_stop, sizing_inputs,
  plan_of, margin_for, round_plan, size_plan, margin_plan, fund_plan, atr_for, balance_plan,
  build_trade_plan,
}
use trading_binance.Entry.Validate.{
  margin_initial_ref, is_in_liquidation_zone, validation_of, validate_trade_plan,
}
use trading_binance.Entry.Submit.{
  FillResult, Venue, is_full_or_open, is_position_gate_blocked, place_order, attempt_entry, fill_of,
  submit_entry,
}
use trading_binance.Entry.Finalize.{
  fill_price, breakeven_trigger, context_of, book_entry, finalize_entry, launch_monitor, launch_if,
  enter_market, execute_plan, execute_candidate,
}
use trading_binance.Entry.Guarded.{has_command, is_command}
use trading_binance.Operations.State.{OpsSettings}
use trading_binance.Operations.Steps.{run, new_service}
use trading_binance.Execution.Entries.Orderly.{IsOrderly, HasPrice, fallback_orders}
use trading_binance.Entry.Books.{Booking, attempt_of, bookings}
use trading_binance.Entry.Books.Entries.{Settles, execute_candidate_books}
use trading_binance.Entry.Counts.{tally, plus}
use trading_binance.Entry.Tallies.{hooks, adds_of, execute_candidate_counts}
use trading_binance.Entry.Guarded.{IsCleared}
use trading_binance.Entry.Guarded.Entries.{execute_candidate_guarded}
use trading_binance.Entry.Levels.{IsFinal, finalize_entry_levels}
use trading_binance.Entry.Plan.{TradePlan}
use trading_binance.Entry.Finalize.{LaunchContext}
use trading_binance.Entry.Close.{
  Block, Answers, on_close, run_close, resolve_interval_close, handle_close, act_on_signals,
  record_detected_signals, filter_signals_by_symbol_limit, without_positions, kept_or_discarded,
  act_on, resolve_execution_gate, position_gate, live_gate, suspend, broadcast_signal_alerts,
  alert_distance, alert_ratio, slots, execute_best, schedule_followup, last_after,
}
use trading_binance.Entry.Close.Called.{IsCalled, on_close_guarded}

abbrev pub dec : ℕ → ℕ → Fixed
dec n d = lit n d

-- A pandas that knows the swing of one frame.
abbrev pub swing_pandas : Pandas Fixed
swing_pandas = record {
  ewm_span = λ series period. series;
  ewm_alpha = λ series period. series;
  rolling_mean = λ series window. series;
  series_min = λ series. dec 98 0;
  series_max = λ series. dec 102 0;
  series_mean = λ series. dec 1 0;
}

abbrev pub settings : EntrySettings Fixed
settings = record {
  limit_offset_pct = dec 1 3;
  atr_period = 14;
  atr_sl_mult = dec 2 0;
  min_sl_pct = dec 5 3;
  stop_atr_mult = dec 15 1;
  sizing_mode = fixed_margin;
  leverage = 10;
  fixed_margin_per_trade_usdt = dec 50 0;
  margin_utilization = dec 9 1;
  risk_per_trade_pct = dec 1 2;
  anti_liq_trigger_r = zero_float;
  max_positions = 2;
  use_paper_trading = false;
  use_limit_only = false;
}

abbrev pub signal : Signal Fixed
signal = record {
  side = buy;
  price = dec 100 0;
  stop_price = dec 98 0;
  tp_price = dec 104 0;
  risk_per_unit = dec 2 0;
  rr_target = dec 2 0;
  atr = dec 1 0;
  score = dec 2 0;
  htf_bias = long;
  strategy = "ob_bos";
  breakout_time = "t";
}

abbrev pub candidate : Candidate Fixed
candidate = record { symbol = "BTCUSDT"; payload = signal }

abbrev pub bar : Bar Fixed
bar = record {
  open_price = dec 100 0;
  high = dec 102 0;
  low = dec 98 0;
  close = dec 100 0;
  volume = dec 1 0;
}

abbrev pub rows : List (Bar Fixed)
rows = bar ∷ bar ∷ bar ∷ bar ∷ bar ∷ bar ∷ bar ∷ bar ∷ bar ∷ bar ∷ bar ∷ bar ∷ []

abbrev pub executor : Executor Fixed
executor = record {
  get_min_qty = answer (dec 1 3);
  get_min_notional = answer (dec 5 0);
  calc_qty = λ margin price. answer (dec 5 0);
  round_qty = λ qty. answer qty;
}

abbrev pub market : Market Fixed
market = record {
  equity = dec 1000 0;
  futures_balance = answer (dec 1000 0);
  frame_for_atr = rows;
  frame = rows;
  executor = executor;
}

abbrev pub rounder : Rounder Fixed
rounder = record { round_qty = λ qty. answer qty; round_price = λ price. answer price }

abbrev pub resting : OrderAnswer Fixed
resting = record {
  order_id = 7;
  status = pending;
  executed_qty = some zero_float;
  avg_price = some zero_float;
  price = some (dec 999 1);
}

abbrev pub full : OrderAnswer Fixed
full = record {
  order_id = 7;
  status = filled;
  executed_qty = some (dec 5 0);
  avg_price = some (dec 999 1);
  price = some (dec 999 1);
}

-- An order that is filled at the second poll.
abbrev pub exchange : Exchange Fixed
exchange = record {
  created_limit = answer resting;
  polls = answer resting ∷ answer full ∷ [];
  cancelled = answer tt;
  created_market = answer full;
  final = answer full;
}

abbrev pub venue : Venue Fixed
venue = record {
  lock_busy = false;
  positions = answer [];
  cancelled = exception exchange_error;
  rounder = rounder;
  exchange = exchange;
}
