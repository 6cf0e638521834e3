-- ===== src/Execution/Watch.antt =====
-- `monitor_oco` of a live executor, as its callers use it: with a side, all prices, `price_fn`
-- and `on_event`, and no `scale_fn`. One pass of its loop is a function of what the exchange, the clock and the
-- callbacks answer in it.
pub mod Allowed
pub mod Sound
mod Tests
use trading_binance.Base.{
  ℕ, ◌+◌, Bool, true, false, not, ◌&&◌, Option, none, some, List, [], ◌∷◌, String, ltb, leb,
  if◌then◌else◌,
}
use trading_binance.Num.{Float, zero_float, lit, ◌⊕◌, ◌⊖◌, ◌⊗◌, ◌<?◌, ◌≤?◌, max_float}
use trading_binance.Py.{Call, answer, exception, exchange_error}
use trading_binance.Flow.{
  is_exchange_error, Flow, ◌>>=◌, ◌>>◌, pure, ask, emit, send, choose, rescue,
}
use trading_binance.Strategy.Frame.{Side}
use trading_binance.Entry.Plan.{by_side}
use trading_binance.Execution.Protection.{OpenOrder, OrderRef, exit_side}
use trading_binance.Execution.Fills.{
  OrderStatus, Leg, check_leg, check_order_fill_status, Exit, take_profit_hit, stop_loss_hit,
  unknown_exit, exit_of,
}
use trading_binance.Execution.Entries.{Rounder}
use trading_binance.Execution.Replace.{
  Request, close_sent, cancel_all_sent, breakeven_told, SafetyAnswers, Checked, run_safety_check,
  replace_tp_sl,
}

-- The variables of the loop that change.
pub record Watch (F : Type 0) : Type 0 where
  pub tp_ref : OrderRef
  pub sl_ref : OrderRef
  pub current_sl : F
  pub break_even : Bool
  pub last_replace : ℕ
  pub last_safety_check : ℕ
  pub last_review : ℕ

-- What one pass is answered. A review is `none` where its callback raises.
pub record Pass (F : Type 0) : Type 0 where
  pub hold_time : ℕ
  pub fill_time : ℕ
  pub check_time : ℕ
  pub checked_time : ℕ
  pub review_time : ℕ
  pub move_time : ℕ
  pub moved_time : ℕ
  pub tp_status : Option OrderStatus
  pub sl_status : Option OrderStatus
  pub tp_orders : Option (List OpenOrder)
  pub sl_orders : Option (List OpenOrder)
  pub cancelled : Call (Unit {0})
  pub closed : Call OpenOrder
  pub safety : SafetyAnswers
  pub moved : SafetyAnswers
  pub review : Option (Bool × String)
  pub price : Call F

-- The arguments of `monitor_oco` that stay.
pub record WatchSettings (F : Type 0) : Type 0 where
  pub side : Side
  pub entry_price : F
  pub tp_price : F
  pub qty : F
  pub breakeven_trigger_pct : F
  pub start_time : ℕ
  pub max_hold : ℕ
  pub safety_check : ℕ
  pub review_every : ℕ
  pub has_review : Bool

-- What `monitor_oco` returns.
pub data Ending (F : Type 0) : Type 0 where
  protected_by : Exit → F → Ending F
  held_too_long : F → Ending F
  reviewed_out : String → F → Ending F

pub data Next (F : Type 0) : Type 0 where
  returned : Ending F → Next F
  goes_on : Watch F → Next F

module _ {F : Type 0} ⦃fl : Float F⦄ (rounder : Rounder F) (safe : Option String)
    (starts : Option (String → Bool)) (settings : WatchSettings F) where
  -- `max(float(breakeven_trigger_pct or 0.0), 0.005)`; a zero is below the floor in any case
  unfoldable pub current_be_trigger : F
  current_be_trigger = max_float settings.breakeven_trigger_pct (lit 5 3)

  -- a number as a condition
  unfoldable pub is_set : F → Bool
  is_set x = not (fl.eq x zero_float)

  unfoldable pub close_position_market : Call OpenOrder → Flow (Request F) OpenOrder
  close_position_market closed = do
    qty ← ask (rounder.round_qty settings.qty)
    send (close_sent (exit_side settings.side) qty) closed

  unfoldable pub price_or_entry : Call F → F
  price_or_entry (answer price) = price
  price_or_entry (exception e) = settings.entry_price

  unfoldable pub hold_exit : Pass F → Watch F → Flow (Request F) (Next F)
  hold_exit pass w =
      choose (is_set settings.qty)
        (rescue is_exchange_error (close_position_market pass.closed)
          (λ _. pure (returned (held_too_long (price_or_entry pass.price))))
          (λ exc. pure (goes_on w)))
        (pure (returned (held_too_long (price_or_entry pass.price))))

  unfoldable pub is_reached : F → Bool
  is_reached price =
      by_side settings.side ((settings.entry_price ⊗ (lit 1 0 ⊕ current_be_trigger)) ≤? price)
        (price ≤? (settings.entry_price ⊗ (lit 1 0 ⊖ current_be_trigger)))

  -- the stop goes to the entry, once
  unfoldable pub move_stop : Pass F → Watch F → Flow (Request F) (Next F)
  move_stop pass w = do
    refs ←
        replace_tp_sl rounder pass.moved safe settings.side settings.tp_price settings.entry_price
          settings.qty
    emit (breakeven_told settings.entry_price)
    pure (
        goes_on (record w {
          tp_ref = refs.0;
          sl_ref = refs.1;
          current_sl = settings.entry_price;
          break_even = true;
          last_replace = pass.moved_time;
        }))

  unfoldable pub breakeven_at : Pass F → Watch F → Call F → Flow (Request F) (Next F)
  breakeven_at pass w (exception e) = pure (goes_on w)
  breakeven_at pass w (answer price) =
      choose
        (not w.break_even
          && (zero_float <? current_be_trigger)
          && is_reached price
          && leb (w.last_replace + 2_000_000) pass.move_time)
        (move_stop pass w) (pure (goes_on w))

  unfoldable pub breakeven : Pass F → Watch F → Flow (Request F) (Next F)
  breakeven pass w =
      choose (is_set settings.entry_price && is_set settings.qty) (breakeven_at pass w pass.price)
        (pure (goes_on w))

  -- `price_fn() or current_entry`
  unfoldable pub review_exit : Pass F → String → Flow (Request F) (Next F)
  review_exit pass reason = do
    price ← ask pass.price
    pure (returned (reviewed_out reason (if is_set price then price else settings.entry_price)))

  unfoldable pub reviewed : Pass F → Watch F → Option (Bool × String) → Flow (Request F) (Next F)
  reviewed pass w none = breakeven pass w
  reviewed pass w (some (should_exit, reason)) =
      choose should_exit
        (rescue is_exchange_error (close_position_market pass.closed) (λ _. review_exit pass reason)
          (λ exc. pure (goes_on w)))
        (breakeven pass w)

  unfoldable pub review_due : Pass F → Watch F → Bool
  review_due pass w =
      settings.has_review
      && is_set settings.qty
      && is_set settings.entry_price
      && leb (w.last_review + settings.review_every) pass.review_time

  unfoldable pub review_pass : Pass F → Watch F → Flow (Request F) (Next F)
  review_pass pass w =
      choose (review_due pass w)
        (choose w.break_even (breakeven pass (record w { last_review = pass.review_time }))
          (reviewed pass (record w { last_review = pass.review_time }) pass.review))
        (breakeven pass w)

  unfoldable pub safety_pass : Pass F → Watch F → Flow (Request F) (Next F)
  safety_pass pass w =
      choose (is_set settings.qty)
        (run_safety_check rounder pass.safety safe starts true settings.side settings.tp_price
            w.current_sl settings.qty w.tp_ref w.sl_ref w.last_safety_check settings.safety_check
            pass.check_time pass.checked_time
          >>= λ c.
              review_pass pass (record w {
                tp_ref = c.tp_ref;
                sl_ref = c.sl_ref;
                last_safety_check = c.checked_at;
              }))
        (review_pass pass w)

  unfoldable pub cancel_then : Pass F → Ending F → Flow (Request F) (Next F)
  cancel_then pass ending = do _ ← send cancel_all_sent pass.cancelled; pure (returned ending)

  unfoldable pub exit_pass : Pass F → Watch F → Option Exit → Flow (Request F) (Next F)
  exit_pass pass w none = safety_pass pass w
  exit_pass pass w (some take_profit_hit) =
      cancel_then pass (protected_by take_profit_hit settings.tp_price)
  exit_pass pass w (some stop_loss_hit) = cancel_then pass (protected_by stop_loss_hit w.current_sl)
  exit_pass pass w (some unknown_exit) = pure (returned (protected_by unknown_exit w.current_sl))

  unfoldable pub filled_pass : Pass F → Watch F → Option (Leg × Leg) → Flow (Request F) (Next F)
  filled_pass pass w none = ask (exception exchange_error)
  filled_pass pass w (some (tp, sl)) = exit_pass pass w (exit_of tp sl)

  -- the body of the loop
  unfoldable pub watch_pass : Pass F → Watch F → Flow (Request F) (Next F)
  watch_pass pass w =
      choose
        (ltb 0 settings.max_hold && leb (settings.start_time + settings.max_hold) pass.hold_time)
        (hold_exit pass w)
        (filled_pass pass w (
          check_order_fill_status pass.fill_time w.last_replace
            (check_leg w.tp_ref pass.tp_status pass.tp_orders)
            (check_leg w.sl_ref pass.sl_status pass.sl_orders)))

  -- what follows a pass
  unfoldable pub follow : (Watch F → Flow (Request F) (Next F)) → Next F → Flow (Request F) (Next F)
  follow rest (returned ending) = pure (returned ending)
  follow rest (goes_on w) = rest w

  -- the loop, over its passes so far
  unfoldable pub monitor_oco : List (Pass F) → Watch F → Flow (Request F) (Next F)
  monitor_oco [] w = pure (goes_on w)
  monitor_oco (pass ∷ passes) w = watch_pass pass w >>= λ next. follow (monitor_oco passes) next
