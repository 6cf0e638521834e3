-- ===== src/Entry/Submit.antt =====
-- `_submit_entry` and what it calls: the entry lock, the recheck of the positions, the order.
use trading_binance.Base.{ℕ, Bool, true, false, ◌||◌, String, List, leb, if◌then◌else◌}
use trading_binance.Num.{Float, zero_float, ◌≤?◌}
use trading_binance.Indicators.{Pandas}
use trading_binance.Py.{Call}
use trading_binance.Flow.{
  is_recoverable, Flow, ◌>>=◌, ◌>>◌, pure, ask, emit, send, choose, rescue, finally_do, within,
}
use trading_binance.Operations.Steps.{noted}
use trading_binance.Positions.Active.{Position, contains_text, count_active_positions}
use trading_binance.Execution.Entries.{Exchange, Rounder, ExecType, unknown, Placed, place_entry}
use trading_binance.Entry.{
  Event, hook, lock_acquired, lock_released, orders_cancelled, command, record_error,
}
use trading_binance.Entry.Plan.{EntrySettings, TradePlan}

-- `EntryFillResult`
pub record FillResult (F : Type 0) : Type 0 where
  pub success : Bool
  pub filled_qty : F
  pub avg_price : F
  pub exec_type : ExecType
  pub stage : String
  pub reason : String

-- What an entry meets outside: whether another thread holds the entry lock, and the answers of the
-- exchange in the order of the calls.
pub record Venue (F : Type 0) : Type 0 where
  pub lock_busy : Bool
  pub positions : Call (List (Position F))
  pub cancelled : Call (Unit {0})
  pub rounder : Rounder F
  pub exchange : Exchange F

-- How the code under the lock ends: with the result that it returns, or with an order.
pub data Attempt (F : Type 0) : Type 0 where
  returned : FillResult F → Attempt F
  ordered : Placed F → Attempt F

module _ {F : Type 0} ⦃fl : Float F⦄ (pd : Pandas F) (settings : EntrySettings F) where
  -- a fill without a quantity
  unfoldable pub no_fill : ExecType → String → String → FillResult F
  no_fill exec_type stage reason = record {
    success = false;
    filled_qty = zero_float;
    avg_price = zero_float;
    exec_type = exec_type;
    stage = stage;
    reason = reason;
  }

  -- whether the positions of the exchange leave no room for the symbol
  unfoldable pub is_full_or_open : String → ℕ × List String → Bool
  is_full_or_open symbol (recheck_count, recheck_symbols) =
      leb settings.max_positions recheck_count || contains_text symbol recheck_symbols

  -- `_is_position_gate_blocked`
  unfoldable pub is_position_gate_blocked : Venue F → String → Flow (Event F) Bool
  is_position_gate_blocked venue symbol =
      rescue is_recoverable (ask venue.positions)
        (λ positions. pure (is_full_or_open symbol (count_active_positions positions)))
        (λ exc. record_error "entry_recheck" exc >> pure true)

  unfoldable pub place_order : Venue F → TradePlan F → Flow (Event F) (Attempt F)
  place_order venue plan = do
    emit (hook (noted "order_submit"))
    rescue is_recoverable
        (within command (
          place_entry venue.rounder venue.exchange settings.use_limit_only
            settings.use_paper_trading plan.side plan.entry_price plan.qty_l1))
        (λ placed. pure (ordered placed))
        (λ exc.
          record_error "order_placement" exc
          >> pure (returned (no_fill unknown "order_placement" "exception")))

  -- the code under the entry lock
  unfoldable pub attempt_entry : Venue F → TradePlan F → Flow (Event F) (Attempt F)
  attempt_entry venue plan = do
    blocked ← is_position_gate_blocked venue plan.symbol
    choose blocked (pure (returned (no_fill unknown "position_gate_recheck" "blocked"))) (
        rescue is_recoverable (send (orders_cancelled plan.symbol) venue.cancelled)
          (λ _. place_order venue plan)
          (λ exc. record_error "pre_entry_cleanup" exc >> place_order venue plan))

  unfoldable pub fill_of : Attempt F → FillResult F
  fill_of (returned fill) = fill
  fill_of (ordered placed) =
      if placed.filled_qty ≤? zero_float
      then no_fill placed.exec_type "order_fill" "entry_not_filled"
      else record {
        success = true;
        filled_qty = placed.filled_qty;
        avg_price = placed.avg_price;
        exec_type = placed.exec_type;
        stage = "";
        reason = "";
      }

  unfoldable pub submit_entry : Venue F → TradePlan F → Flow (Event F) (FillResult F)
  submit_entry venue plan =
      choose venue.lock_busy (pure (no_fill unknown "entry_lock" "entry_lock_busy")) (do
        emit lock_acquired
        attempt ← finally_do lock_released (attempt_entry venue plan)
        pure (fill_of attempt))
