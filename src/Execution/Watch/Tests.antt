-- ===== src/Execution/Watch/Tests.antt =====
-- A monitor that moves its stop to the entry and is then stopped out there.
use trading_binance.Base.{◌≡◌, refl, false, none, some, [], ◌∷◌}
use trading_binance.Py.{answer}
use trading_binance.Num.Fixed.{Fixed, fixed_float}
use trading_binance.Strategy.Frame.{buy, sell}
use trading_binance.Strategy.Signals.Tests.{dec}
use trading_binance.Flow.{Flow, choose, rescue, on_outcome, send, emit, ask, pure, resume, ◌>>=◌}
use trading_binance.Entry.Plan.{by_side}
use trading_binance.Execution.Protection.{
  OpenOrder, order, stop_market, take_profit, protection_status, status_from, ref_of,
}
use trading_binance.Execution.Fills.{
  pending, filled, stop_loss_hit, check_leg, leg_of, check_order_fill_status, exit_of,
}
use trading_binance.Execution.Entries.{Rounder}
use trading_binance.Execution.Replace.{
  Request, take_profit_sent, stop_sent, cancel_all_sent, breakeven_told, SafetyAnswers, client_id,
  run_safety_check, replace_tp_sl, place_tp_sl, refs_of, report, both,
}
use trading_binance.Execution.Watch.{
  Watch, Pass, WatchSettings, Next, protected_by, returned, is_set, current_be_trigger, is_reached,
  move_stop, breakeven_at, breakeven, review_due, review_pass, safety_pass, cancel_then, exit_pass,
  filled_pass, watch_pass, follow, monitor_oco,
}
use trading_binance.Execution.Watch.Allowed.{AllAllowed, Leads}
use trading_binance.Execution.Watch.Sound.{monitor_oco-Watches}

abbrev exact : Rounder Fixed
exact = record { round_qty = λ x. answer x; round_price = λ x. answer x }

abbrev settings : WatchSettings Fixed
settings = record {
  side = buy;
  entry_price = dec 100 0;
  tp_price = dec 110 0;
  qty = dec 5 0;
  breakeven_trigger_pct = dec 4 3;
  start_time = 0;
  max_hold = 0;
  safety_check = 2_000_000;
  review_every = 7_000_000;
  has_review = false;
}

abbrev open_tp : OpenOrder
open_tp = record {
  side = sell;
  client_order_id = "bot-TP";
  order_type = take_profit;
  order_id = some 7;
  algo_id = none;
}

abbrev open_sl : OpenOrder
open_sl = record open_tp { client_order_id = "bot-SL"; order_type = stop_market; order_id = some 8 }

abbrev answers : SafetyAnswers
answers = record {
  open_before = some (open_tp ∷ open_sl ∷ []);
  cancelled = answer tt;
  created_tp = answer open_tp;
  created_sl = answer open_sl;
  open_after = some (open_tp ∷ open_sl ∷ []);
}

abbrev rising : Pass Fixed
rising = record {
  hold_time = 9_000_000;
  fill_time = 9_000_000;
  check_time = 9_000_000;
  checked_time = 9_000_000;
  review_time = 9_000_000;
  move_time = 9_000_000;
  moved_time = 9_000_000;
  tp_status = some pending;
  sl_status = some pending;
  tp_orders = none;
  sl_orders = none;
  cancelled = answer tt;
  closed = answer open_tp;
  safety = answers;
  moved = answers;
  review = none;
  price = answer (dec 101 0);
}

abbrev stopped_out : Pass Fixed
stopped_out = record rising { fill_time = 20_000_000; sl_status = some filled }

abbrev start : Watch Fixed
start = record {
  tp_ref = record { order_id = 7; kind = order };
  sl_ref = record { order_id = 8; kind = order };
  current_sl = dec 95 0;
  break_even = false;
  last_replace = 0;
  last_safety_check = 0;
  last_review = 0;
}

abbrev run : Flow (Request Fixed) (Next Fixed)
run = monitor_oco exact (some "bot") none settings (rising ∷ stopped_out ∷ []) start

-- The second stop is at the entry, and so is the reported exit.
run_stops_at_entry : run ≡ record {
  events =
      cancel_all_sent
      ∷ take_profit_sent sell (dec 5 0) (dec 110 0) (some "bot-TP")
      ∷ stop_sent sell (dec 5 0) (dec 100 0) (some "bot-SL")
      ∷ breakeven_told (dec 100 0)
      ∷ cancel_all_sent
      ∷ [];
  outcome = answer (returned (protected_by stop_loss_hit (dec 100 0)));
}
unfolding monitor_oco follow watch_pass filled_pass exit_pass cancel_then safety_pass review_pass
    review_due breakeven breakeven_at move_stop is_reached current_be_trigger is_set by_side
    run_safety_check replace_tp_sl place_tp_sl refs_of report both client_id choose rescue
    on_outcome send emit ask pure resume ◌>>=◌ protection_status status_from ref_of check_leg leg_of
    check_order_fill_status exit_of
run_stops_at_entry = refl

monitor_oco-Watches_example :
    AllAllowed exact (some "bot") none settings (dec 95 0) run.events
    × Leads exact (some "bot") none settings (dec 95 0) run.outcome
monitor_oco-Watches_example =
    monitor_oco-Watches exact (some "bot") none settings (dec 95 0) (rising ∷ stopped_out ∷ [])
      start refl refl
