-- ===== src/Execution/Fills/Exits.antt =====
-- The exit of `monitor_oco`, by what the exchange says of the two orders.
use trading_binance.Base.{
  ℕ, ◌+◌, ◌≤◌, ◌<◌, ◌≡◌, true, false, Option, none, some, List, [], ◌∷◌, ◌↔◌, ◌⊎◌,
}
use trading_binance.Execution.Protection.{OpenOrder, OrderRef, Kind, order, algo, or_else}
use trading_binance.Execution.Fills.{
  OrderStatus, pending, filled, canceled, rejected, expired, Leg, take_profit_hit, stop_loss_hit,
  unknown_exit, exit_of,
}

-- An order of the list has the identifier.
abbrev pub Lists : ℕ → List OpenOrder → Type 0
Lists id [] = ⊥
Lists id (o ∷ orders) = (or_else o.algo_id o.order_id ≡ some id) ⊎ Lists id orders

abbrev IsListed : ℕ → Option (List OpenOrder) → Type 0
IsListed id none = ⊥
IsListed id (some orders) = Lists id orders

-- The exchange says that the order is filled. Of an algo order it only says whether it is open.
abbrev pub IsFilled : Kind → ℕ → Option OrderStatus → Option (List OpenOrder) → Type 0
IsFilled order id status orders = status ≡ some filled
IsFilled algo id status orders = ¬ IsListed id orders

abbrev pub IsOpen : Kind → ℕ → Option OrderStatus → Option (List OpenOrder) → Type 0
IsOpen order id status orders = status ≡ some pending
IsOpen algo id status orders = IsListed id orders

-- Cancelled, rejected or expired.
abbrev pub IsEnded : Kind → Option OrderStatus → Type 0
IsEnded order status = (status ≡ some canceled) ⊎ (status ≡ some rejected) ⊎ (status ≡ some expired)
IsEnded algo status = ⊥

-- Neither filled nor open.
abbrev IsDead : Leg → Type 0
IsDead leg = (leg.is_full ≡ false) × (leg.is_live ≡ false)

abbrev IsConsistent : Leg → Type 0
IsConsistent leg = leg.is_full ≡ true → leg.is_live ≡ false

-- The flags of an order say what the exchange said of it.
record Reads (kind : Kind) (id : ℕ) (status : Option OrderStatus) (orders : Option (List OpenOrder))
    (leg : Leg) : Type 0 where
  full : (leg.is_full ≡ true) ↔ IsFilled kind id status orders
  live : (leg.is_live ≡ true) ↔ IsOpen kind id status orders
  dead : IsDead leg ↔ IsEnded kind status
  consistent : IsConsistent leg

AllRead : Kind → ℕ → Option OrderStatus → Option (List OpenOrder) → Option Leg → Type 0
AllRead kind id status orders none = Unit
AllRead kind id status orders (some leg) = Reads kind id status orders leg

-- What `monitor_oco` does with two orders, by what the exchange says of them.
module _ (now last_replace : ℕ) (tp_ref sl_ref : OrderRef)
    (tp_status sl_status : Option OrderStatus) (tp_orders sl_orders : Option (List OpenOrder)) where
  abbrev pub TpFilled : Type 0
  TpFilled = IsFilled tp_ref.kind tp_ref.order_id tp_status tp_orders

  abbrev pub SlFilled : Type 0
  SlFilled = IsFilled sl_ref.kind sl_ref.order_id sl_status sl_orders

  abbrev pub Exits : Leg × Leg → Type 0
  Exits (tp, sl) =
      ((exit_of tp sl ≡ some take_profit_hit) ↔ (
        (last_replace + 2_000_000 ≤ now)
        × TpFilled
        × IsOpen sl_ref.kind sl_ref.order_id sl_status sl_orders))
      × ((exit_of tp sl ≡ some stop_loss_hit) ↔ (
          (last_replace + 2_000_000 ≤ now)
          × SlFilled
          × IsOpen tp_ref.kind tp_ref.order_id tp_status tp_orders))
      × ((exit_of tp sl ≡ some unknown_exit)
          ↔ ((last_replace + 2_000_000 ≤ now) × TpFilled × SlFilled))
      × ((exit_of tp sl ≡ none) ↔ (
          (now < last_replace + 2_000_000)
          ⊎ ((¬ TpFilled) × (¬ SlFilled))
          ⊎ (TpFilled × IsEnded sl_ref.kind sl_status)
          ⊎ (IsEnded tp_ref.kind tp_status × SlFilled)))

  abbrev AllExits : Option (Leg × Leg) → Type 0
  AllExits none = Unit
  AllExits (some legs) = Exits legs
