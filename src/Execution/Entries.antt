-- ===== src/Execution/Entries.antt =====
-- The entries of `FuturesExecutor`: `place_limit_entry`, `place_market_entry`, `wait_for_fill`,
-- `place_limit_with_market_fallback`, and `_place_limit_only` of services/entry_service.py, which
-- is made of them. A value of an order is `none` where the exchange leaves it out.
pub mod Orderly
use trading_binance.Base.{ℕ, Bool, true, false, Option, none, some, List, [], ◌∷◌, if◌then◌else◌}
use trading_binance.Num.{Float, zero_float, ◌⊕◌, ◌⊖◌, ◌⊗◌, ◌<?◌, ◌≤?◌, max_float}
use trading_binance.Py.{Call, answer, Error, divide_then}
use trading_binance.Flow.{
  is_exchange_error, is_recoverable, Flow, ◌>>=◌, pure, ask, send, choose, rescue,
}
use trading_binance.Execution.Fills.{OrderStatus, pending, filled, canceled, rejected, expired}
use trading_binance.Strategy.Frame.{Side}

-- The calls that change the orders of the exchange.
pub data Command (F : Type 0) : Type 0 where
  limit_sent : Side → F → F → Command F
  market_sent : Side → F → Command F
  cancel_sent : Command F

pub record OrderAnswer (F : Type 0) : Type 0 where
  pub order_id : ℕ
  pub status : OrderStatus
  pub executed_qty : Option F
  pub avg_price : Option F
  pub price : Option F

-- What the exchange answers to the calls of one entry. The polls are those before the timeout.
pub record Exchange (F : Type 0) : Type 0 where
  pub created_limit : Call (OrderAnswer F)
  pub polls : List (Call (OrderAnswer F))
  pub cancelled : Call (Unit {0})
  pub created_market : Call (OrderAnswer F)
  pub final : Call (OrderAnswer F)

-- Rounding by the filters of the symbol, which may have to be fetched.
pub record Rounder (F : Type 0) : Type 0 where
  pub round_qty : F → Call F
  pub round_price : F → Call F

pub data ExecType : Type 0 where
  maker taker hybrid limit_only limit_timeout unknown : ExecType

-- What an entry reports: the filled quantity, its average price and how it came about.
pub record Placed (F : Type 0) : Type 0 where
  pub filled_qty : F
  pub avg_price : F
  pub exec_type : ExecType

-- A submitted order, without an id on paper.
pub record OrderResult (F : Type 0) : Type 0 where
  pub order_id : Option ℕ
  pub status : OrderStatus
  pub price : F
  pub qty : F

-- How the polls of a limit order ended.
pub data Polled (F : Type 0) : Type 0 where
  filled_at : F → F → Polled F
  timed_out : F → Polled F

unfoldable pub value_or : {A : Type 0} → A → Option A → A
value_or default none = default
value_or default (some x) = x

unfoldable pub is_filled : OrderStatus → Bool
is_filled filled = true
is_filled _ = false

-- `status in {"CANCELED", "REJECTED", "EXPIRED"}`
unfoldable pub is_ended : OrderStatus → Bool
is_ended pending = false
is_ended filled = false
is_ended canceled = true
is_ended rejected = true
is_ended expired = true

module _ {F : Type 0} ⦃fl : Float F⦄ where
  -- `_first_positive_float`, on the values that parse
  unfoldable pub first_positive_float : List (Option F) → F → F
  first_positive_float [] default = default
  first_positive_float (none ∷ values) default = first_positive_float values default
  first_positive_float (some x ∷ values) default =
      if zero_float <? x then x else first_positive_float values default

  -- the rest of the polls, with the quantity of the one before
  unfoldable pub poll_fill : F → F → F → List (Call (OrderAnswer F)) → Flow (Command F) (Polled F)
  poll_fill price avg_price executed_qty [] = pure (timed_out executed_qty)
  poll_fill price avg_price executed_qty (poll ∷ polls) = do
    o ← ask poll
    let executed = value_or zero_float o.executed_qty
    choose (is_filled o.status)
        (pure (
          filled_at executed (
            first_positive_float (o.avg_price ∷ o.price ∷ some avg_price ∷ some price ∷ []) price)))
        (poll_fill price avg_price executed polls)

  -- the average over the two fills
  unfoldable pub average_price : F → F → F → F → Call F
  average_price executed_qty avg_price market_qty market_avg =
      if zero_float <? executed_qty
      then if zero_float <? (executed_qty ⊕ market_qty)
        then divide_then ((executed_qty ⊗ avg_price) ⊕ (market_qty ⊗ market_avg))
            (executed_qty ⊕ market_qty) (λ q. answer q)
        else answer avg_price
      else answer market_avg

  -- `if avg_price <= 0`
  unfoldable pub valid_average : F → F → F
  valid_average price avg_price =
      if avg_price ≤? zero_float then first_positive_float (some price ∷ []) price else avg_price

  unfoldable pub fallback_type : F → ExecType
  fallback_type executed_qty = if fl.eq executed_qty zero_float then taker else hybrid

  module _ (rounder : Rounder F) (exchange : Exchange F) where
    unfoldable pub buy_remaining : Side → F → F → F → F → Flow (Command F) (Placed F)
    buy_remaining side price avg_price executed_qty remaining = do
      qty ← ask (rounder.round_qty remaining)
      m ← send (market_sent side qty) exchange.created_market
      let market_avg =
          first_positive_float (m.avg_price ∷ m.price ∷ some avg_price ∷ some price ∷ []) price
      let market_qty = value_or qty m.executed_qty
      avg ← ask (average_price executed_qty avg_price market_qty market_avg)
      pure (record {
        filled_qty = executed_qty ⊕ market_qty;
        avg_price = valid_average price avg;
        exec_type = fallback_type executed_qty;
      })

    -- after the cancellation, whether that worked or not
    unfoldable pub fall_back : Side → F → F → F → F → Flow (Command F) (Placed F)
    fall_back side price qty avg_price executed_qty =
        choose (zero_float <? max_float zero_float (qty ⊖ executed_qty))
          (buy_remaining side price avg_price executed_qty
            (max_float zero_float (qty ⊖ executed_qty)))
          (pure (record {
            filled_qty = executed_qty;
            avg_price = valid_average price avg_price;
            exec_type = fallback_type executed_qty;
          }))

    unfoldable pub after_polls : Side → F → F → F → Polled F → Flow (Command F) (Placed F)
    after_polls side price qty avg_price (filled_at executed avg) =
        pure (record { filled_qty = executed; avg_price = avg; exec_type = maker })
    after_polls side price qty avg_price (timed_out executed) =
        rescue is_exchange_error (send cancel_sent exchange.cancelled)
          (λ _. fall_back side price qty avg_price executed)
          (λ exc. fall_back side price qty avg_price executed)

    -- `place_limit_with_market_fallback` of a live executor
    unfoldable pub place_live_fallback : Side → F → F → Flow (Command F) (Placed F)
    place_live_fallback side given_price qty = do
      price ← ask (rounder.round_price given_price)
      order ← send (limit_sent side qty price) exchange.created_limit
      let avg_price = first_positive_float (order.avg_price ∷ order.price ∷ some price ∷ []) price
      polled ← poll_fill price avg_price zero_float exchange.polls
      after_polls side price qty avg_price polled

    unfoldable pub place_limit_with_market_fallback :
        Bool → Side → F → F → Flow (Command F) (Placed F)
    place_limit_with_market_fallback paper side price qty =
        choose paper (pure (record { filled_qty = qty; avg_price = price; exec_type = maker }))
          (place_live_fallback side price qty)

    unfoldable pub place_limit_entry : Bool → Side → F → F → Flow (Command F) (OrderResult F)
    place_limit_entry paper side given_price qty =
        choose paper
          (pure (record { order_id = none; status = filled; price = given_price; qty = qty }))
          (do
            price ← ask (rounder.round_price given_price)
            order ← send (limit_sent side qty price) exchange.created_limit
            pure (record {
              order_id = some order.order_id;
              status = order.status;
              price = price;
              qty = qty;
            }))

    unfoldable pub place_live_market : Side → F → Flow (Command F) (F × F)
    place_live_market side given_qty = do
      qty ← ask (rounder.round_qty given_qty)
      choose (qty ≤? zero_float) (pure (zero_float, zero_float)) (do
        order ← send (market_sent side qty) exchange.created_market
        pure (
          value_or qty order.executed_qty,
          first_positive_float (order.avg_price ∷ order.price ∷ []) zero_float,
        ))

    -- `place_market_entry`: the filled quantity and its average price
    unfoldable pub place_market_entry : Bool → Side → F → Flow (Command F) (F × F)
    place_market_entry paper side qty =
        choose paper (pure (qty, zero_float)) (place_live_market side qty)

    -- `wait_for_fill` of a live executor
    unfoldable pub wait_for_fill : List (Call (OrderAnswer F)) → Flow (Command F) Bool
    wait_for_fill [] = pure false
    wait_for_fill (poll ∷ polls) = do
      order ← ask poll
      choose (is_filled order.status) (pure true)
          (choose (is_ended order.status) (pure false) (wait_for_fill polls))

    abbrev timeout : Placed F
    timeout = record { filled_qty = zero_float; avg_price = zero_float; exec_type = limit_timeout }

    -- the last question about an order that is filled
    unfoldable pub read_fill : F → F → Flow (Command F) (Placed F)
    read_fill entry_price qty = do
      order ← ask exchange.final
      pure (record {
        filled_qty = value_or qty order.executed_qty;
        avg_price = value_or (value_or entry_price order.price) order.avg_price;
        exec_type = limit_only;
      })

    -- what follows the order, by its id
    unfoldable pub follow_limit : F → F → Option ℕ → Flow (Command F) (Placed F)
    follow_limit entry_price qty none =
        pure (record { filled_qty = qty; avg_price = entry_price; exec_type = maker })
    follow_limit entry_price qty (some order_id) = do
      is_full ← wait_for_fill exchange.polls
      choose is_full (read_fill entry_price qty) (
          rescue is_recoverable (send cancel_sent exchange.cancelled) (λ _. pure timeout)
            (λ exc. pure timeout))

    -- `_place_limit_only`
    unfoldable pub place_limit_only : Bool → Side → F → F → Flow (Command F) (Placed F)
    place_limit_only paper side entry_price qty = do
      order ← place_limit_entry paper side entry_price qty
      follow_limit entry_price qty order.order_id

    -- `_place_entry`
    unfoldable pub place_entry : Bool → Bool → Side → F → F → Flow (Command F) (Placed F)
    place_entry use_limit_only paper side entry_price qty =
        choose use_limit_only (place_limit_only paper side entry_price qty)
          (place_limit_with_market_fallback paper side entry_price qty)
