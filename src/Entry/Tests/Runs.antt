-- ===== src/Entry/Tests/Runs.antt =====
-- An entry on concrete answers of the exchange, and the theorems at that input.
use trading_binance.Base.{ℕ, ◌≡◌, refl, subst, true, false, String, none, some, List, [], ◌∷◌}
use trading_binance.Num.{zero_float, ◌≺◌}
use trading_binance.Num.Fixed.{Fixed, fixed_float, Fixed-IsFloat}
use trading_binance.Py.{Call, answer, exception}
use trading_binance.Sizing.{margin_to_use, fixed_margin_to_use, is_entry_size_valid}
use trading_binance.Strategy.Frame.{buy}
use trading_binance.Positions.Active.{count_active_positions, active_from}
use trading_binance.Execution.Entries.{
  maker, poll_fill, first_positive_float, after_polls, place_live_fallback,
  place_limit_with_market_fallback, place_entry, value_or, is_filled,
}
use trading_binance.Flow.{
  ◌>>=◌, resume, pure, ask, emit, send, choose, rescue, on_outcome, finally_do, within, caught,
  is_recoverable, is_exchange_error,
}
use trading_binance.Entry.{record_error}
use trading_binance.Entry.Plan.{
  by_side, swing_window, entry_price_with_offset, risk_distance_of, available_balance_for_entry,
  swing_stop, atr_stop, common_stop, sizing_inputs, plan_of, margin_for, round_plan, size_plan,
  margin_plan, fund_plan, atr_for, balance_plan, build_trade_plan,
}
use trading_binance.Entry.Validate.{
  margin_initial_ref, is_in_liquidation_zone, validation_of, validate_trade_plan,
}
use trading_binance.Entry.Submit.{
  FillResult, is_full_or_open, is_position_gate_blocked, place_order, attempt_entry, fill_of,
  submit_entry,
}
use trading_binance.Entry.Finalize.{
  fill_price, breakeven_trigger, context_of, book_entry, finalize_entry, launch_monitor, launch_if,
  enter_market, execute_plan, execute_candidate,
}
use trading_binance.Entry.Guarded.{has_command, is_command}
use trading_binance.Operations.State.{OpsSettings}
use trading_binance.Operations.Steps.{run, new_service}
use trading_binance.Execution.Entries.Orderly.{IsOrderly, HasPrice, fallback_orders}
use trading_binance.Entry.Books.{Booking, attempt_of, bookings}
use trading_binance.Entry.Books.Entries.{Settles, execute_candidate_books}
use trading_binance.Entry.Counts.{tally, plus}
use trading_binance.Entry.Tallies.{hooks, adds_of, execute_candidate_counts}
use trading_binance.Entry.Guarded.{IsCleared}
use trading_binance.Entry.Guarded.Locked.{lock_after}
use trading_binance.Entry.Guarded.Entries.{execute_candidate_guarded}
use trading_binance.Entry.Levels.{IsFinal, finalize_entry_levels}
use trading_binance.Entry.Plan.{TradePlan}
use trading_binance.Entry.Finalize.{LaunchContext}
use trading_binance.Entry.Close.{
  Block, Answers, on_close, run_close, resolve_interval_close, handle_close, act_on_signals,
  record_detected_signals, filter_signals_by_symbol_limit, without_positions, kept_or_discarded,
  act_on, resolve_execution_gate, position_gate, live_gate, suspend, broadcast_signal_alerts,
  alert_distance, alert_ratio, slots, execute_best, schedule_followup, last_after,
}
use trading_binance.Entry.Close.Called.{IsCalled, on_close_guarded}
use trading_binance.Entry.Tests.{
  dec, swing_pandas, settings, candidate, rows, market, rounder, exchange, venue,
}

-- The entry sends its order and is executed.
entry_runs :
    let entry = execute_candidate swing_pandas settings market venue candidate in
    (has_command entry.events ≡ true) × (entry.outcome ≡ answer true)
unfolding execute_candidate execute_plan enter_market submit_entry fill_of attempt_entry place_order
    is_position_gate_blocked is_full_or_open validate_trade_plan validation_of
    is_in_liquidation_zone margin_initial_ref build_trade_plan balance_plan atr_for fund_plan
    margin_plan size_plan round_plan margin_for plan_of sizing_inputs common_stop atr_stop
    swing_stop available_balance_for_entry risk_distance_of entry_price_with_offset swing_window
    by_side ◌>>=◌ resume pure ask emit send choose rescue on_outcome finally_do within has_command
    is_command place_entry place_limit_with_market_fallback place_live_fallback after_polls
    first_positive_float poll_fill value_or is_filled count_active_positions active_from
    finalize_entry book_entry context_of breakeven_trigger fill_price launch_if launch_monitor
    caught is_recoverable is_exchange_error record_error margin_to_use fixed_margin_to_use
    is_entry_size_valid
entry_runs = (refl, refl)

execute_candidate_books_example :
    (bs : List Booking) × (bookings
        (execute_candidate swing_pandas settings market venue candidate).events
      ≡ attempt_of "BTCUSDT" ∷ bs)
    × Settles "BTCUSDT" bs (execute_candidate swing_pandas settings market venue candidate).outcome
execute_candidate_books_example =
    execute_candidate_books swing_pandas settings market venue candidate

abbrev ops_settings : OpsSettings
ops_settings = record {
  enable_operational_kill_switches = true;
  kill_switch_max_consecutive_errors = 5;
  kill_switch_max_api_errors = 5;
  kill_switch_max_order_failures = 3;
  kill_switch_max_protection_failures = 3;
  kill_switch_max_scheduler_idle_sec = 900;
  kill_switch_pause_on_orphan_unrecoverable = true;
  operational_suspend_sec = 600;
  ops_recent_events = 100;
  ops_report_interval_sec = 60;
  ops_hourly_summary = false;
  ops_daily_summary = false;
}

execute_candidate_counts_example :
    tally (
      run
        (λ n. n)
        (λ part stage. false)
        ops_settings
        (hooks (execute_candidate swing_pandas settings market venue candidate).events)
        new_service)
    ≡ plus
        (adds_of (execute_candidate swing_pandas settings market venue candidate).outcome)
        (tally {F = Fixed} new_service)
execute_candidate_counts_example =
    execute_candidate_counts (λ n. n) (λ part stage. false) ops_settings swing_pandas settings
      market venue candidate new_service

execute_candidate_guarded_example :
    ((plan : TradePlan Fixed) × ((build_trade_plan swing_pandas settings candidate market).outcome
        ≡ answer (some plan))
      × IsCleared swing_pandas settings venue plan)
    × (lock_after
          (some false)
          (execute_candidate swing_pandas settings market venue candidate).events
        ≡ some false)
execute_candidate_guarded_example =
    execute_candidate_guarded swing_pandas settings market venue candidate entry_runs.0

abbrev plan : TradePlan Fixed
plan =
    plan_of swing_pandas settings candidate rows (dec 1 0) (dec 1000 0) (dec 1 3) (dec 5 0)
      (dec 50 0) (dec 5 0) (dec 5 0)

abbrev fill : FillResult Fixed
fill = record {
  success = true;
  filled_qty = dec 5 0;
  avg_price = dec 999 1;
  exec_type = maker;
  stage = "";
  reason = "";
}

abbrev context : LaunchContext Fixed
context =
    context_of swing_pandas settings plan fill (dec 999 1) (dec 19 1) (dec 5_705_705 9) (dec 5 0)

finalize_runs :
    (finalize_entry swing_pandas settings market plan fill).outcome ≡ answer (some context)
unfolding finalize_entry book_entry breakeven_trigger fill_price plan_of common_stop atr_stop
    swing_stop by_side swing_window entry_price_with_offset risk_distance_of ◌>>=◌ resume pure ask
    emit choose
finalize_runs = refl

finalize_entry_levels_example : IsFinal market plan fill context
finalize_entry_levels_example =
    finalize_entry_levels Fixed-IsFloat swing_pandas settings market plan fill context finalize_runs

abbrev IsPositive : Call Fixed → Type 0
IsPositive (answer p) = zero_float ≺ p
IsPositive (exception e) = Unit

fallback_orders_example :
    let entry = place_limit_with_market_fallback rounder exchange false buy (dec 999 1) (dec 5 0) in
    IsOrderly rounder exchange buy (dec 999 1) (dec 5 0) entry.events
    × HasPrice Fixed-IsFloat entry.outcome
fallback_orders_example =
    fallback_orders Fixed-IsFloat rounder exchange buy (dec 999 1) (dec 5 0) false refl
      (λ p e. subst IsPositive e refl)

abbrev reason_text : Block → String
reason_text block = "blocked"

abbrev answers : Answers Fixed
answers = record {
  anchor_close = some 60_000;
  snapshot = answer [];
  can_trade_now = true;
  signals = candidate ∷ [];
  live_snapshot = answer [];
  ops_allows_entries = true;
}

close_sends :
    has_command
      (on_close swing_pandas settings reason_text (λ c. market) (λ c. venue) answers none).0.events
    ≡ true
unfolding execute_candidate execute_plan enter_market submit_entry fill_of attempt_entry place_order
    is_position_gate_blocked is_full_or_open validate_trade_plan validation_of
    is_in_liquidation_zone margin_initial_ref build_trade_plan balance_plan atr_for fund_plan
    margin_plan size_plan round_plan margin_for plan_of sizing_inputs common_stop atr_stop
    swing_stop available_balance_for_entry risk_distance_of entry_price_with_offset swing_window
    by_side ◌>>=◌ resume pure ask emit send choose rescue on_outcome finally_do within has_command
    is_command place_entry place_limit_with_market_fallback place_live_fallback after_polls
    first_positive_float poll_fill value_or is_filled count_active_positions active_from
    finalize_entry book_entry context_of breakeven_trigger fill_price launch_if launch_monitor
    margin_to_use fixed_margin_to_use is_entry_size_valid on_close run_close resolve_interval_close
    handle_close act_on_signals record_detected_signals filter_signals_by_symbol_limit
    without_positions kept_or_discarded act_on resolve_execution_gate position_gate live_gate
    suspend broadcast_signal_alerts alert_distance alert_ratio slots execute_best schedule_followup
    last_after caught is_recoverable is_exchange_error record_error
close_sends = refl

on_close_guarded_example :
    IsCalled swing_pandas settings reason_text (λ c. market) (λ c. venue) answers
    × ((close_ms : ℕ) × ((resolve_interval_close answers.anchor_close none).0 ≡ some close_ms))
on_close_guarded_example =
    on_close_guarded swing_pandas settings reason_text (λ c. market) (λ c. venue) answers none
      close_sends
