-- ===== src/Execution/Entries/Orderly.antt =====
-- What an entry sends to the exchange, whatever that answers.
use trading_binance.Base.{◌≡◌, refl, sym, Bool, false, Option, none, some, List, [], ◌∷◌, arith}
use trading_binance.Num.{Float, IsFloat, zero_float, ◌⊖◌, ◌≤?◌, ◌≺◌, max_float}
use trading_binance.Py.{Call, answer, exception}
use trading_binance.Flow.{◌>>=◌}
use trading_binance.Flow.Laws.{
  Does, bind_does, pure_does, ask_does, send_does, choose_does, rescue_send_does, weaken_does,
}
use trading_binance.Strategy.Frame.{Side}
use trading_binance.Execution.Entries.{
  Command, limit_sent, market_sent, cancel_sent, OrderAnswer, Exchange, Rounder, Placed, Polled,
  filled_at, timed_out, value_or, is_filled, poll_fill, buy_remaining, fall_back, after_polls,
  place_live_fallback, place_limit_with_market_fallback, first_positive_float, valid_average,
}

module _ {F : Type 0} ⦃fl : Float F⦄ where
  -- The quantity that the last of the polls reported.
  unfoldable pub last_executed : F → List (Call (OrderAnswer F)) → F
  last_executed executed [] = executed
  last_executed executed (exception e ∷ polls) = executed
  last_executed executed (answer o ∷ polls) =
      last_executed (value_or zero_float o.executed_qty) polls

  module _ (rounder : Rounder F) (exchange : Exchange F) (side : Side) (given qty : F) where
    -- Nothing, or a market order for what the last poll left.
    abbrev AfterCancel : List (Command F) → Type 0
    AfterCancel [] = Unit
    AfterCancel (market_sent s q ∷ []) =
        (s ≡ side)
        × (rounder.round_qty (max_float zero_float (qty ⊖ last_executed zero_float exchange.polls))
            ≡ answer q)
    AfterCancel _ = ⊥

    abbrev AfterLimit : List (Command F) → Type 0
    AfterLimit [] = Unit
    AfterLimit (cancel_sent ∷ rest) = AfterCancel rest
    AfterLimit _ = ⊥

    -- Nothing, a limit order for the whole quantity, that order and its cancellation, or both and
    -- one market order for what was left of the quantity.
    abbrev pub IsOrderly : List (Command F) → Type 0
    IsOrderly [] = Unit
    IsOrderly (limit_sent s q price ∷ rest) =
        (s ≡ side) × (q ≡ qty) × (rounder.round_price given ≡ answer price) × AfterLimit rest
    IsOrderly _ = ⊥

module _ {F : Type 0} ⦃fl : Float F⦄ (laws : IsFloat F) where
  open laws use {not_le_of_lt}

  first_positive_float_pos :
      (values : List (Option F)) (default : F)
      → zero_float ≺ default
      → zero_float ≺ first_positive_float values default
  unfolding first_positive_float
  first_positive_float_pos [] default pos = pos
  first_positive_float_pos (none ∷ values) default pos = first_positive_float_pos values default pos
  first_positive_float_pos (some x ∷ values) default pos =
      ground (arith, first_positive_float_pos values default pos)

  abbrev EndsAt : F → List (Call (OrderAnswer F)) → Call (Polled F) → Type 0
  EndsAt executed polls (answer (timed_out e)) = e ≡ last_executed executed polls
  EndsAt executed polls (answer (filled_at e p)) = (p ≤? zero_float) ≡ false
  EndsAt executed polls (exception x) = Unit

  EndsAt-next :
      (executed : F) (poll : Call (OrderAnswer F)) (polls : List (Call (OrderAnswer F)))
      (o : OrderAnswer F) (r : Call (Polled F))
      → poll ≡ answer o
      → EndsAt (value_or zero_float o.executed_qty) polls r
      → EndsAt executed (poll ∷ polls) r
  unfolding last_executed
  EndsAt-next executed poll polls o (answer (timed_out x)) e h = rw e h
  EndsAt-next executed poll polls o (answer (filled_at x p)) e h = h
  EndsAt-next executed poll polls o (exception x) e h = tt

  poll_fill_does :
      (price avg executed : F) (polls : List (Call (OrderAnswer F)))
      → zero_float ≺ price
      → Does (poll_fill price avg executed polls) (λ es r. (es ≡ []) × EndsAt executed polls r)
  unfolding poll_fill last_executed
  poll_fill_does price avg executed [] pos = pure_does _ (refl, refl)
  poll_fill_does price avg executed (poll ∷ polls) pos =
      ask_does
        (λ o e.
          choose_does (is_filled o.status)
            (λ full.
              pure_does _ (refl, not_le_of_lt zero_float _ (first_positive_float_pos _ price pos)))
            (λ open_still.
              weaken_does (poll_fill_does price avg (value_or zero_float o.executed_qty) polls pos)
                (λ es r h. (h.0, EndsAt-next executed poll polls o r e h.1))))
        (λ x e. (refl, tt))

  valid_average_pos :
      (price avg : F) → zero_float ≺ price → (valid_average price avg ≤? zero_float) ≡ false
  unfolding valid_average first_positive_float
  valid_average_pos price avg pos = ground (arith, not_le_of_lt zero_float price pos)

  -- A price that is reported is neither zero nor negative.
  abbrev pub HasPrice : Call (Placed F) → Type 0
  HasPrice (answer p) = (p.avg_price ≤? zero_float) ≡ false
  HasPrice (exception e) = Unit

  module _ (rounder : Rounder F) (exchange : Exchange F) (side : Side) (given qty : F) where
    buy_remaining_does :
        (price avg executed : F)
        → zero_float ≺ price
        → executed ≡ last_executed zero_float exchange.polls
        → Does
            (buy_remaining rounder exchange side price avg executed
              (max_float zero_float (qty ⊖ executed)))
            (λ es r. AfterCancel rounder exchange side given qty es × HasPrice r)
    unfolding buy_remaining
    buy_remaining_does price avg executed pos same =
        ask_does
          (λ q e.
            send_does (market_sent side q)
              (λ m f.
                ask_does
                  (λ a g. pure_does _ ((refl, rw (sym same) e), valid_average_pos price a pos))
                  (λ x g. ((refl, rw (sym same) e), tt)))
              (λ x f. ((refl, rw (sym same) e), tt)))
          (λ x e. (tt, tt))

    fall_back_does :
        (price avg executed : F)
        → zero_float ≺ price
        → executed ≡ last_executed zero_float exchange.polls
        → Does
            (fall_back rounder exchange side price qty avg executed)
            (λ es r. AfterCancel rounder exchange side given qty es × HasPrice r)
    unfolding fall_back
    fall_back_does price avg executed pos same =
        choose_does _ (λ c. buy_remaining_does price avg executed pos same)
          (λ c. pure_does _ (tt, valid_average_pos price avg pos))

    after_polls_does :
        (price avg : F) (polled : Polled F)
        → zero_float ≺ price
        → EndsAt zero_float exchange.polls (answer polled)
        → Does
            (after_polls rounder exchange side price qty avg polled)
            (λ es r. AfterLimit rounder exchange side given qty es × HasPrice r)
    unfolding after_polls
    after_polls_does price avg (filled_at e p) pos ends = pure_does _ (tt, ends)
    after_polls_does price avg (timed_out e) pos ends =
        rescue_send_does cancel_sent (λ a f. fall_back_does price avg e pos ends)
          (λ x f c. fall_back_does price avg e pos ends) (λ x f c. (tt, tt))

    placed_does :
        (price avg : F)
        → zero_float ≺ price
        → rounder.round_price given ≡ answer price
        → Does
            (poll_fill price avg zero_float exchange.polls
              >>= after_polls rounder exchange side price qty avg)
            (λ es r.
              IsOrderly rounder exchange side given qty (limit_sent side qty price ∷ es)
              × HasPrice r)
    placed_does price avg pos e =
        bind_does (poll_fill_does price avg zero_float exchange.polls pos)
          (λ es polled h. rw h.0 (
            weaken_does (after_polls_does price avg polled pos h.1)
              (λ later r g. ((refl, refl, e, g.0), g.1))))
          (λ es x h. rw h.0 ((refl, refl, e, tt), tt))

    live_does :
        ((p : F) → rounder.round_price given ≡ answer p → zero_float ≺ p)
        → Does
            (place_live_fallback rounder exchange side given qty)
            (λ es r. IsOrderly rounder exchange side given qty es × HasPrice r)
    unfolding place_live_fallback
    live_does valid =
        ask_does
          (λ price e.
            send_does (limit_sent side qty price) (λ order f. placed_does price _ (valid price e) e)
              (λ x f. ((refl, refl, e, tt), tt)))
          (λ x e. (tt, tt))

    -- Whatever the exchange answers, an entry with the market as its fallback sends nothing, or
    -- one limit order for the whole quantity, then perhaps its cancellation, and then perhaps one
    -- market order, for what was left of the quantity at the last poll; and the average price
    -- that it reports is neither zero nor negative. The price that is given is positive, and so
    -- is what it is rounded to.
    pub fallback_orders :
        (paper : Bool)
        → zero_float ≺ given
        → ((p : F) → rounder.round_price given ≡ answer p → zero_float ≺ p)
        → let entry = place_limit_with_market_fallback rounder exchange paper side given qty in
          IsOrderly rounder exchange side given qty entry.events × HasPrice entry.outcome
    unfolding place_limit_with_market_fallback
    fallback_orders paper pos valid =
        (choose_does {P = λ es r. IsOrderly rounder exchange side given qty es × HasPrice r} paper
          (λ c. pure_does _ (tt, not_le_of_lt zero_float given pos)) (λ c. live_does valid)).holds
