-- ===== src/Execution/Fills.antt =====
-- `_is_algo_open`, `_check_order_fill_status` and the exit that `monitor_oco` takes on them. An
-- answer of `futures_get_order` is a status, or `none` where it raises, and so does the check.
pub mod Exits
use trading_binance.Base.{
  ℕ, ◌+◌, ◌≡◌, refl, Bool, true, false, not, Option, none, some, List, [], ◌∷◌, arith, ltb, ◌==◌,
  ◌&&◌, ◌||◌, if◌then◌else◌, ◌↔◌, ◌⊎◌, subst,
}
use trading_binance.Execution.Protection.{OpenOrder, OrderRef, Kind, order, algo, or_else}

pub data OrderStatus : Type 0 where
  pending filled canceled rejected expired : OrderStatus

-- `status not in {"FILLED", "CANCELED", "REJECTED", "EXPIRED"}`
abbrev pub is_open : OrderStatus → Bool
is_open pending = true
is_open _ = false

abbrev pub is_filled : OrderStatus → Bool
is_filled filled = true
is_filled _ = false

abbrev pub has_id : Option ℕ → ℕ → Bool
has_id none id = false
has_id (some other) id = other == id

unfoldable pub any_order : ℕ → List OpenOrder → Bool
any_order id [] = false
any_order id (o ∷ orders) = has_id (or_else o.algo_id o.order_id) id || any_order id orders

-- `_is_algo_open`, which counts an exchange error as closed
unfoldable pub is_algo_open : ℕ → Option (List OpenOrder) → Bool
is_algo_open id none = false
is_algo_open id (some orders) = any_order id orders

pub record Leg : Type 0 where
  pub is_full : Bool
  pub is_live : Bool

unfoldable pub leg_of : Kind → ℕ → Option OrderStatus → Option (List OpenOrder) → Option Leg
leg_of order id none orders = none
leg_of order id (some st) orders = some (record { is_full = is_filled st; is_live = is_open st })
leg_of algo id status orders =
    some (record { is_full = not (is_algo_open id orders); is_live = is_algo_open id orders })

-- One order of the pair: `filled` and `open`.
unfoldable pub check_leg : OrderRef → Option OrderStatus → Option (List OpenOrder) → Option Leg
check_leg ref status orders = leg_of ref.kind ref.order_id status orders

-- no fill counts for two seconds after the orders were replaced
abbrev pub settled : ℕ → ℕ → Leg → Leg
settled now last_replace leg = record leg {
  is_full = leg.is_full && not (ltb now (last_replace + 2_000_000));
}

unfoldable pub check_order_fill_status : ℕ → ℕ → Option Leg → Option Leg → Option (Leg × Leg)
check_order_fill_status now last_replace none sl = none
check_order_fill_status now last_replace (some tp) none = none
check_order_fill_status now last_replace (some tp) (some sl) =
    some (settled now last_replace tp, settled now last_replace sl)

pub data Exit : Type 0 where
  take_profit_hit stop_loss_hit unknown_exit : Exit

-- How `monitor_oco` returns on the two legs, where `none` goes on. For the first two it cancels
-- the symbol's open orders before.
unfoldable pub exit_of : Leg → Leg → Option Exit
exit_of tp sl =
    if tp.is_full && sl.is_live
    then some take_profit_hit
    else if sl.is_full && tp.is_live
    then some stop_loss_hit
    else if tp.is_full && sl.is_full
    then some unknown_exit
    else none
