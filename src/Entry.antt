-- ===== src/Entry.antt =====
-- services/entry_service.py: from the close of a candle to a running monitor. Here is what a run of
-- it leaves: the calls that it makes, in their order, and how it ends. The texts of the logs and
-- the trace ids are left out.
pub mod Plan
pub mod Validate
pub mod Submit
pub mod Finalize
pub mod Books
pub mod Counts
pub mod Tallies
pub mod Guarded
pub mod Levels
pub mod Close
mod Tests
use trading_binance.Base.{Bool, true, false, String, Option, some, none, List, [], ◌∷◌, ◌++◌}
use trading_binance.Num.{Float}
use trading_binance.Operations.Steps.{Action, failed, erred}
use trading_binance.Py.{
  Call, answer, exception, Error, zero_division, index_error, value_error, exchange_error,
  order_error, runtime_error,
}
use trading_binance.Flow.{Flow, ◌>>=◌, ◌>>◌, pure, emit}
use trading_binance.Execution.Entries.{Command}

-- What the service calls: the hooks of `OperationalService`, its own lock, the executor, the
-- exchange and the position cache, and the monitor that it starts.
pub data Event (F : Type 0) : Type 0 where
  hook : Action F → Event F
  lock_acquired lock_released invalidated : Event F
  orders_cancelled : String → Event F
  command : Command F → Event F
  monitor_launched : String → Event F

-- `type(err).__name__`
unfoldable pub error_name : Error → String
error_name exchange_error = "BinanceAPIException"
error_name order_error = "BinanceOrderException"
error_name value_error = "ValueError"
error_name zero_division = "ZeroDivisionError"
error_name index_error = "IndexError"
error_name runtime_error = "RuntimeError"

module _ {F : Type 0} where
  -- `_ops_call("record_error", …)` with `api_related=True`
  unfoldable pub record_error : String → Error → Flow (Event F) (Unit {0})
  record_error stage e = emit (hook (erred (error_name e) stage (some true)))

  -- `_mark_entry_failed`
  unfoldable pub mark_entry_failed : String → String → String → Flow (Event F) (Unit {0})
  mark_entry_failed symbol stage reason = emit (hook (failed symbol stage reason))

  -- `_mark_entry_failed` and `return None`
  unfoldable pub give_up : {A : Type 0} → String → String → String → Flow (Event F) (Option A)
  give_up symbol stage reason = mark_entry_failed symbol stage reason >> pure none
