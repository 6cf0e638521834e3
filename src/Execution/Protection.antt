-- ===== src/Execution/Protection.antt =====
-- `protection_status`, `get_protection_refs`, `_is_algo_open` and `_check_order_fill_status`, on
-- the answers of `futures_get_open_orders` and `futures_get_order`; `none` is an exchange error.
use trading_binance.Base.{
  ℕ, ◌≡◌, refl, Bool, true, false, Option, none, some, List, [], ◌∷◌, String, arith, ◌==◌, ◌&&◌,
  ◌||◌, if◌then◌else◌, ap, ◌∙◌, sym,
}
use trading_binance.Strategy.Frame.{Side, buy, sell}

-- "SELL" if side == "BUY" else "BUY"
abbrev pub exit_side : Side → Side
exit_side buy = sell
exit_side sell = buy

abbrev same_side : Side → Side → Bool
same_side buy buy = true
same_side sell sell = true
same_side buy sell = false
same_side sell buy = false

pub data OrderType : Type 0 where
  stop stop_market take_profit take_profit_market other_type : OrderType

-- `otype in TP_ORDER_TYPES`
abbrev is_take_profit : OrderType → Bool
is_take_profit take_profit = true
is_take_profit take_profit_market = true
is_take_profit _ = false

-- `otype in STOP_ORDER_TYPES`
abbrev is_stop : OrderType → Bool
is_stop stop = true
is_stop stop_market = true
is_stop _ = false

pub record OpenOrder : Type 0 where
  pub side : Side
  pub client_order_id : String
  pub order_type : OrderType
  pub order_id : Option ℕ
  pub algo_id : Option ℕ

pub data Kind : Type 0 where
  order algo : Kind

pub record OrderRef : Type 0 where
  pub order_id : ℕ
  pub kind : Kind

-- `a or b` on identifiers, where 0 is as good as none
abbrev pub or_else : Option ℕ → Option ℕ → Option ℕ
or_else none b = b
or_else (some a) b = if a == 0 then b else some a

abbrev kind_of : Option ℕ → Kind
kind_of none = algo
kind_of (some a) = order

-- `OrderRef` of an open order, unless it has no identifier
unfoldable pub ref_of : OpenOrder → Option OrderRef
ref_of o = elim (or_else o.order_id o.algo_id) [
  | none ↦ none
  | some i ↦ some (record { order_id = i; kind = kind_of o.order_id })
]

-- the new reference, where the order has one and is of the type asked for
abbrev replace_ref : Bool → Option OrderRef → Option OrderRef → Option OrderRef
replace_ref false found old = old
replace_ref true none old = old
replace_ref true (some found) old = some found

abbrev pub is_some {ℓ} : {A : Type ℓ} → Option A → Bool
is_some none = false
is_some (some a) = true

abbrev pub both_some : Option OrderRef × Option OrderRef → Bool × Bool
both_some (tp, sl) = (is_some tp, is_some sl)

replace_ref-is_some :
    (t : Bool) (found old : Option OrderRef)
    → is_some found ≡ true
    → is_some (replace_ref t found old) ≡ (is_some old || t)
replace_ref-is_some false found old h = ground arith
replace_ref-is_some true none old h = ground arith
replace_ref-is_some true (some found) old h = ground arith

both_some_lem :
    (c : Bool) (o : OpenOrder) (tp sl : Option OrderRef)
    → (c ≡ true → is_some (ref_of o) ≡ true)
    → both_some (
        if c
        then (
          replace_ref (is_take_profit o.order_type) (ref_of o) tp,
          replace_ref (is_stop o.order_type) (ref_of o) sl,
        )
        else (tp, sl))
      ≡ (if c
          then (is_some tp || is_take_profit o.order_type, is_some sl || is_stop o.order_type)
          else (is_some tp, is_some sl))
both_some_lem true o tp sl named = ground (
  arith,
  replace_ref-is_some (is_take_profit o.order_type) (ref_of o) tp (named refl),
  replace_ref-is_some (is_stop o.order_type) (ref_of o) sl (named refl),
)
both_some_lem false o tp sl named = refl

-- `starts id` is whether a client order id starts with the first 20 letters of the prefix without
-- its blanks; without a prefix every order counts.
module _ (starts : Option (String → Bool)) (side : Side) where
  abbrev pub is_ours : OpenOrder → Bool
  is_ours o =
      same_side o.side (exit_side side)
      && elim starts [ none ↦ true | some test ↦ test o.client_order_id ]

  unfoldable pub status_from : List OpenOrder → Bool × Bool → Bool × Bool
  status_from [] found = found
  status_from (o ∷ orders) (tp_ok, sl_ok) = status_from orders (
      if is_ours o
      then (tp_ok || is_take_profit o.order_type, sl_ok || is_stop o.order_type)
      else (tp_ok, sl_ok))

  unfoldable pub protection_status : Bool → Option (List OpenOrder) → Bool × Bool
  protection_status true answer = (true, true)
  protection_status false none = (false, false)
  protection_status false (some orders) = status_from orders (false, false)

  unfoldable pub refs_from :
      List OpenOrder → Option OrderRef × Option OrderRef → Option OrderRef × Option OrderRef
  refs_from [] found = found
  refs_from (o ∷ orders) (tp_ref, sl_ref) = refs_from orders (
      if is_ours o
      then (
        replace_ref (is_take_profit o.order_type) (ref_of o) tp_ref,
        replace_ref (is_stop o.order_type) (ref_of o) sl_ref,
      )
      else (tp_ref, sl_ref))

  unfoldable pub get_protection_refs :
      Bool → Option (List OpenOrder) → Option OrderRef × Option OrderRef
  get_protection_refs true answer = (none, none)
  get_protection_refs false none = (none, none)
  get_protection_refs false (some orders) = refs_from orders (none, none)

  -- Every order that counts has an identifier.
  abbrev pub AllNamed : List OpenOrder → Type 0
  AllNamed [] = Unit
  AllNamed (o ∷ orders) = (is_ours o ≡ true → is_some (ref_of o) ≡ true) × AllNamed orders

  refs_from-status :
      (orders : List OpenOrder) (found : Option OrderRef × Option OrderRef)
      → AllNamed orders
      → both_some (refs_from orders found) ≡ status_from orders (both_some found)
  unfolding refs_from status_from
  refs_from-status [] (tp, sl) named = refl
  refs_from-status (o ∷ orders) (tp, sl) (named, rest) =
      refs_from-status orders _ rest
      ∙ ap (status_from orders) (both_some_lem (is_ours o) o tp sl named)

  -- Where every order that counts has an identifier, the two readings of the open orders agree: a
  -- protection is reported as present exactly when its reference is found, in live mode and
  -- also when the exchange fails.
  pub protection_status-refs :
      (answer : Option (List OpenOrder))
      → ((orders : List OpenOrder) → answer ≡ some orders → AllNamed orders)
      → protection_status false answer ≡ both_some (get_protection_refs false answer)
  unfolding protection_status get_protection_refs
  protection_status-refs none named = refl
  protection_status-refs (some orders) named =
      sym (refs_from-status orders (none, none) (named orders refl))
