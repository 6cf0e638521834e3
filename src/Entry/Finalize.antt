-- ===== src/Entry/Finalize.antt =====
-- `_finalize_entry`, `_launch_monitor` and `_execute_candidate`: from a fill to the state of a
-- monitor, and the whole of an entry.
use trading_binance.Base.{ℕ, Bool, true, false, String, Option, none, some, if◌then◌else◌}
use trading_binance.Num.{
  Float, zero_float, lit, ◌⊕◌, ◌⊖◌, ◌⊗◌, ◌<?◌, ◌≤?◌, absolute, min_float, max_float,
}
use trading_binance.Indicators.{Pandas}
use trading_binance.Py.{Call, answer, divide_then}
use trading_binance.Flow.{Flow, ◌>>=◌, ◌>>◌, pure, ask, emit, choose}
use trading_binance.Operations.Steps.{attempted, executed, noted, succeeded}
use trading_binance.Strategy.Frame.{Side}
use trading_binance.Execution.Entries.{ExecType}
use trading_binance.Entry.{Event, hook, invalidated, monitor_launched, mark_entry_failed, give_up}
use trading_binance.Entry.Submit.{FillResult, Venue, submit_entry}
use trading_binance.Entry.Validate.{validate_trade_plan}
use trading_binance.Entry.Plan.{
  EntrySettings, Candidate, Market, TradePlan, by_side, build_trade_plan,
}

-- `TradeState`
pub record TradeState (F : Type 0) : Type 0 where
  pub entry_price : F
  pub qty : F
  pub sl : F
  pub tp : F
  pub risk_distance : F
  pub breakeven_trigger_pct : F
  pub anchor_entry_price : F
  pub anchor_risk_distance : F
  pub tp_risk_cap : F

-- `LevelState`
pub record LevelState : Type 0 where
  pub loss_l1_done : Bool
  pub loss_l2_done : Bool
  pub loss_l3_done : Bool
  pub loss_l1_attempts : ℕ
  pub loss_l2_attempts : ℕ
  pub loss_l3_attempts : ℕ
  pub loss_l1_next_try_ts : ℕ
  pub loss_l2_next_try_ts : ℕ
  pub loss_l3_next_try_ts : ℕ

-- `MonitorLaunchContext`
pub record LaunchContext (F : Type 0) : Type 0 where
  pub symbol : String
  pub side : Side
  pub plan : TradePlan F
  pub trade_state : TradeState F
  pub level_state : LevelState
  pub filled_qty : F
  pub entry_price : F
  pub exec_type : ExecType

abbrev pub new_levels : LevelState
new_levels = record {
  loss_l1_done = false;
  loss_l2_done = false;
  loss_l3_done = false;
  loss_l1_attempts = 0;
  loss_l2_attempts = 0;
  loss_l3_attempts = 0;
  loss_l1_next_try_ts = 0;
  loss_l2_next_try_ts = 0;
  loss_l3_next_try_ts = 0;
}

module _ {F : Type 0} ⦃fl : Float F⦄ (pd : Pandas F) (settings : EntrySettings F) where
  -- `fill.avg_price or plan.entry_price`
  unfoldable pub fill_price : TradePlan F → FillResult F → F
  fill_price plan fill =
      if fl.eq fill.avg_price zero_float then plan.entry_price else fill.avg_price

  -- the most that the target may be measured by
  unfoldable pub tp_risk_cap_of : TradePlan F → F → F
  tp_risk_cap_of plan risk_distance =
      if zero_float <? plan.payload.risk_per_unit then plan.payload.risk_per_unit else risk_distance

  unfoldable pub target_of : TradePlan F → F → F → F
  target_of plan entry_price risk_distance =
      let reward =
        max_float plan.signal_rr (lit 18 1)
        ⊗ min_float risk_distance (tp_risk_cap_of plan risk_distance) in
      by_side plan.side (entry_price ⊕ reward) (entry_price ⊖ reward)

  unfoldable pub breakeven_trigger : F → F → Call F
  breakeven_trigger entry_price risk_distance =
      if zero_float <? entry_price
      then divide_then (risk_distance ⊗ lit 3 1) entry_price
          (λ share. answer (max_float share (lit 4 3)))
      else answer (lit 4 3)

  unfoldable pub context_of : TradePlan F → FillResult F → F → F → F → F → LaunchContext F
  context_of plan fill entry_price risk_distance breakeven filled_qty = record {
    symbol = plan.symbol;
    side = plan.side;
    plan = plan;
    trade_state = record {
      entry_price = entry_price;
      qty = filled_qty;
      sl = plan.sl_common;
      tp = target_of plan entry_price risk_distance;
      risk_distance = risk_distance;
      breakeven_trigger_pct = breakeven;
      anchor_entry_price = entry_price;
      anchor_risk_distance = risk_distance;
      tp_risk_cap = tp_risk_cap_of plan risk_distance;
    };
    level_state = new_levels;
    filled_qty = filled_qty;
    entry_price = entry_price;
    exec_type = fill.exec_type;
  }

  -- after the guard on the distance to the stop
  unfoldable pub book_entry :
      Market F → TradePlan F → FillResult F → F → F → Flow (Event F) (Option (LaunchContext F))
  book_entry market plan fill entry_price risk_distance = do
    breakeven ← ask (breakeven_trigger entry_price risk_distance)
    filled_qty ← ask (market.executor.round_qty fill.filled_qty)
    emit (hook (executed plan.symbol))
    emit (hook (succeeded (some "entry_execution")))
    pure (some (context_of plan fill entry_price risk_distance breakeven filled_qty))

  unfoldable pub finalize_entry :
      Market F → TradePlan F → FillResult F → Flow (Event F) (Option (LaunchContext F))
  finalize_entry market plan fill = do
    emit invalidated
    let entry_price = fill_price plan fill
    let risk_distance = absolute (entry_price ⊖ plan.sl_common)
    choose (risk_distance ≤? zero_float) (give_up plan.symbol "post_fill" "post_fill_risk_invalid")
        (book_entry market plan fill entry_price risk_distance)

  unfoldable pub launch_monitor : LaunchContext F → Flow (Event F) (Unit {0})
  launch_monitor context = do
    emit (hook (noted "monitor_started"))
    emit (monitor_launched context.symbol)

  unfoldable pub launch_if : Option (LaunchContext F) → Flow (Event F) Bool
  launch_if none = pure false
  launch_if (some context) = launch_monitor context >> pure true

  -- `_mark_entry_failed` and `return False`
  unfoldable pub refuse : TradePlan F → String → String → Flow (Event F) Bool
  refuse plan stage reason = mark_entry_failed plan.symbol stage reason >> pure false

  -- from the order on
  unfoldable pub enter_market : Market F → Venue F → TradePlan F → Flow (Event F) Bool
  enter_market market venue plan = do
    fill ← submit_entry pd settings venue plan
    choose fill.success (finalize_entry market plan fill >>= launch_if)
        (refuse plan fill.stage fill.reason)

  unfoldable pub execute_plan : Market F → Venue F → Option (TradePlan F) → Flow (Event F) Bool
  execute_plan market venue none = pure false
  execute_plan market venue (some plan) = do
    validation ← validate_trade_plan pd settings plan
    choose validation.ok (enter_market market venue plan)
        (refuse plan validation.stage validation.reason)

  unfoldable pub execute_candidate : Market F → Venue F → Candidate F → Flow (Event F) Bool
  execute_candidate market venue candidate = do
    emit (hook (attempted candidate.symbol))
    plan ← build_trade_plan pd settings candidate market
    execute_plan market venue plan
