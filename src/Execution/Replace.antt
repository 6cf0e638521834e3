-- ===== src/Execution/Replace.antt =====
-- The protection orders of a live executor: `place_tp_sl`, `replace_tp_sl` and
-- `_run_safety_check`. What the exchange answers is an argument; a created order is read like an
-- open one.
pub mod Sound
use trading_binance.Base.{ℕ, ◌+◌, Bool, true, false, ◌&&◌, Option, none, some, List, String, ltb}
use Prim.Native.String.{◌++◌ as joined}
use trading_binance.Py.{Call, answer, exception, runtime_error}
use trading_binance.Flow.{
  is_exchange_error, Flow, ◌>>=◌, ◌>>◌, pure, ask, emit, send, choose, rescue,
}
use trading_binance.Strategy.Frame.{Side}
use trading_binance.Execution.Protection.{OpenOrder, OrderRef, exit_side, ref_of, protection_status}
use trading_binance.Execution.Entries.{Rounder}

-- The calls that change the orders of the symbol, and the events `critical` and `breakeven`. An order has its side, its quantity, its price
-- and its client id.
pub data Request (F : Type 0) : Type 0 where
  take_profit_sent : Side → F → F → Option String → Request F
  stop_sent : Side → F → F → Option String → Request F
  cancel_all_sent : Request F
  close_sent : Side → F → Request F
  critical_told : F → Request F
  breakeven_told : F → Request F

-- What the exchange answers during one safety check; `none` is an error of its open orders.
pub record SafetyAnswers : Type 0 where
  pub open_before : Option (List OpenOrder)
  pub cancelled : Call (Unit {0})
  pub created_tp : Call OpenOrder
  pub created_sl : Call OpenOrder
  pub open_after : Option (List OpenOrder)

-- What a safety check returns.
pub record Checked : Type 0 where
  pub is_ok : Bool
  pub checked_at : ℕ
  pub tp_ref : OrderRef
  pub sl_ref : OrderRef

unfoldable pub both : Bool × Bool → Bool
both (tp_ok, sl_ok) = tp_ok && sl_ok

unfoldable pub client_id : Option String → String → Option String
client_id none ending = none
client_id (some safe) ending = some (joined safe ending)

-- `safe` is the prefix without its blanks, cut at 20 letters, or `none` where there is none.
module _ {F : Type 0} (rounder : Rounder F) (answers : SafetyAnswers) (safe : Option String) where
  -- the references of the two orders, or a RuntimeError
  unfoldable pub refs_of :
      Option OrderRef → Option OrderRef → Flow (Request F) (OrderRef × OrderRef)
  refs_of none sl = ask (exception runtime_error)
  refs_of (some tp) none = ask (exception runtime_error)
  refs_of (some tp) (some sl) = pure (tp, sl)

  unfoldable pub place_tp_sl : Side → F → F → F → Flow (Request F) (OrderRef × OrderRef)
  place_tp_sl side given_tp given_sl qty = do
    tp_price ← ask (rounder.round_price given_tp)
    sl_price ← ask (rounder.round_price given_sl)
    tp_order ←
        send (take_profit_sent (exit_side side) qty tp_price (client_id safe "-TP"))
          answers.created_tp
    sl_order ←
        send (stop_sent (exit_side side) qty sl_price (client_id safe "-SL")) answers.created_sl
    refs_of (ref_of tp_order) (ref_of sl_order)

  unfoldable pub replace_tp_sl : Side → F → F → F → Flow (Request F) (OrderRef × OrderRef)
  replace_tp_sl side tp_price sl_price qty =
      rescue is_exchange_error (send cancel_all_sent answers.cancelled)
        (λ _. place_tp_sl side tp_price sl_price qty)
        (λ exc. place_tp_sl side tp_price sl_price qty)

  -- `starts` is the test of a client order id, as for `protection_status`; `told` is whether
  -- there is an `on_event`.
  module _ (starts : Option (String → Bool)) (told : Bool) where
    -- the report, if need be, and the result
    unfoldable pub report : F → Bool → ℕ → OrderRef × OrderRef → Flow (Request F) Checked
    report current_sl ok now (tp_ref, sl_ref) =
        choose ok
          (pure (record { is_ok = true; checked_at = now; tp_ref = tp_ref; sl_ref = sl_ref }))
          (choose told
            (emit (critical_told current_sl)
              >> pure
                  (record { is_ok = false; checked_at = now; tp_ref = tp_ref; sl_ref = sl_ref }))
            (pure (record { is_ok = false; checked_at = now; tp_ref = tp_ref; sl_ref = sl_ref })))

    -- `_run_safety_check`, with the two readings of its clock
    unfoldable pub run_safety_check :
        Side → F → F → F → OrderRef → OrderRef → ℕ → ℕ → ℕ → ℕ → Flow (Request F) Checked
    run_safety_check side tp sl qty tp_ref sl_ref last_check check_time now later =
        choose (ltb now (last_check + check_time))
          (pure
            (record { is_ok = true; checked_at = last_check; tp_ref = tp_ref; sl_ref = sl_ref }))
          (choose (both (protection_status starts side false answers.open_before))
            (pure (record { is_ok = true; checked_at = later; tp_ref = tp_ref; sl_ref = sl_ref }))
            (rescue is_exchange_error (replace_tp_sl side tp sl qty)
              (λ refs.
                report sl (both (protection_status starts side false answers.open_after)) later
                  refs)
              (λ exc. report sl false later (tp_ref, sl_ref))))
