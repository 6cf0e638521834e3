-- ===== src/Execution/Tests.antt =====
-- The executor on concrete amounts, replies and orders.
use trading_binance.Base.{
  ℕ, ◌+◌, ◌*◌, ◌≤◌, ◌<◌, ◌≡◌, refl, ap, subst, true, false, Option, none, some, List, [], ◌∷◌,
  arith, leb, if◌then◌else◌, ◌⊎◌, inr,
}
use trading_binance.Py.{answer}
use trading_binance.Execution.Rounding.{
  round_qty, round_price, round_qty_floors, round_price_fits, least_price,
}
use trading_binance.Execution.Leverage.{
  Reply, accepted, not_allowed, leverage_set, try_leverage, setup, setup_ends, IsEnd,
}
use trading_binance.Execution.Protection.{
  OpenOrder, OrderRef, order, stop_market, take_profit, protection_status, get_protection_refs,
  both_some, protection_status-refs, AllNamed, ref_of, status_from,
}
use trading_binance.Strategy.Frame.{buy, sell}
use trading_binance.Execution.Fills.{Leg, exit_of}
use trading_binance.Execution.Fills.Exits.{Exits}
use trading_binance.Flow.{Flow, choose, rescue, on_outcome, send, ask, pure, resume, ◌>>=◌}
use trading_binance.Execution.Entries.{Rounder}
use trading_binance.Execution.Replace.{
  Request, take_profit_sent, stop_sent, cancel_all_sent, SafetyAnswers, Checked, run_safety_check,
  replace_tp_sl, place_tp_sl, refs_of, client_id, report, both,
}
use trading_binance.Execution.Replace.Sound.{Checks, run_safety_check-Checks}

round_qty_floors_example :
    (round_qty 50 1234 ≤ 1234)
    × (1234 < round_qty 50 1234 + 50)
    × (round_qty 50 (round_qty 50 1234) ≡ round_qty 50 1234)
    × ((n : ℕ) → n * 50 ≤ 1234 → n * 50 ≤ round_qty 50 1234)
round_qty_floors_example = round_qty_floors 50 1234 (ground arith)

round_qty_runs : round_qty 50 1234 ≡ 1200
unfolding round_qty
round_qty_runs = refl

round_price_runs : round_price 10 100 9_000 (some 12_345) ≡ answer 9_000
unfolding round_price
round_price_runs = refl

abbrev highest : ℕ
highest = 9_000

round_price_fits_example :
    (r : ℕ) × (round_price 10 100 highest (some 1_234) ≡ answer r)
    × (0 < r)
    × (100 ≤ r)
    × ((highest ≡ 0) ⊎ (r ≤ highest))
    × (((r ≤ 1_234) × (1_234 < r + 10)) ⊎ (r ≡ least_price 10 100) ⊎ (r ≡ highest))
round_price_fits_example =
    round_price_fits 10 100 highest 1_234 (ground arith) (ground arith) (inr (ground arith))

-- An exchange that takes leverages up to 10.
abbrev up_to_ten : ℕ → Reply
up_to_ten lev = if leb lev 10 then accepted else not_allowed

setup_runs : setup false up_to_ten 20 ≡ leverage_set 10
unfolding setup try_leverage
setup_runs = refl

setup_ends_example : IsEnd up_to_ten 20 (setup false up_to_ten 20)
setup_ends_example = setup_ends up_to_ten 20 (ground arith)

abbrev target : OpenOrder
target = record {
  side = sell;
  client_order_id = "bot-TP";
  order_type = take_profit;
  order_id = some 7;
  algo_id = none;
}

abbrev guard_order : OpenOrder
guard_order = record {
  side = sell;
  client_order_id = "bot-SL";
  order_type = stop_market;
  order_id = none;
  algo_id = some 8;
}

abbrev open_orders : List OpenOrder
open_orders = target ∷ guard_order ∷ []

protection_runs : protection_status none buy false (some open_orders) ≡ (true, true)
unfolding protection_status status_from
protection_runs = refl

open_orders-AllNamed : AllNamed none buy open_orders
unfolding ref_of
open_orders-AllNamed = (λ h. refl, (λ h. refl, tt))

of_answer : Option (List OpenOrder) → List OpenOrder
of_answer none = []
of_answer (some orders) = orders

answered-AllNamed :
    (orders : List OpenOrder) → some open_orders ≡ some orders → AllNamed none buy orders
unfolding of_answer
answered-AllNamed orders e = subst (AllNamed none buy) (ap of_answer e) open_orders-AllNamed

protection_status-refs_example :
    protection_status none buy false (some open_orders)
    ≡ both_some (get_protection_refs none buy false (some open_orders))
protection_status-refs_example =
    protection_status-refs none buy (some open_orders) answered-AllNamed

-- The target is filled and the stop was cancelled.
abbrev tp_ref : OrderRef
tp_ref = record { order_id = 7; kind = order }

abbrev sl_ref : OrderRef
sl_ref = record { order_id = 9; kind = order }

abbrev full : Leg
full = record { is_full = true; is_live = false }

abbrev dead : Leg
dead = record { is_full = false; is_live = false }

-- Then the monitor goes on.
monitor_goes_on : exit_of full dead ≡ none
unfolding exit_of
monitor_goes_on = refl

-- An exchange that has lost the take profit, and takes new orders.
abbrev kept_stop : OpenOrder
kept_stop = record target { order_type = stop_market }

abbrev exchange_answers : SafetyAnswers
exchange_answers = record {
  open_before = some (kept_stop ∷ []);
  cancelled = answer tt;
  created_tp = answer target;
  created_sl = answer kept_stop;
  open_after = some (target ∷ kept_stop ∷ []);
}

abbrev whole : Rounder ℕ
whole = record { round_qty = λ x. answer x; round_price = λ x. answer x }

abbrev seven : OrderRef
seven = record { order_id = 7; kind = order }

abbrev checked_order : Flow (Request ℕ) Checked
checked_order =
    run_safety_check whole exchange_answers (some "bot") none true buy 120 90 5 seven seven 0 2 9 10

safety_check_replaces :
    checked_order.events
    ≡ cancel_all_sent
      ∷ take_profit_sent sell 5 120 (some "bot-TP")
      ∷ stop_sent sell 5 90 (some "bot-SL")
      ∷ []
unfolding run_safety_check client_id replace_tp_sl place_tp_sl refs_of report both choose rescue
    on_outcome send ask pure resume ◌>>=◌ protection_status status_from ref_of
safety_check_replaces = refl

run_safety_check-Checks_example :
    Checks whole exchange_answers
      (some "bot")
      buy
      120
      90
      5
      none
      true
      0
      2
      9
      checked_order.events
      checked_order.outcome
run_safety_check-Checks_example =
    run_safety_check-Checks whole exchange_answers (some "bot") buy 120 90 5 none true 0 2 9 seven
      seven 10
