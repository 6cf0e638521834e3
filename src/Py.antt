-- ===== src/Py.antt =====
-- Python calls that may raise: the value that a call returns, or the exception that ends it.
pub mod Laws
use trading_binance.Base.{Option, none, some, if◌then◌else◌}
use trading_binance.Num.{Float, zero_float}

-- The exceptions that the modelled code can meet. An `exchange_error` is a
-- BinanceAPIException, BinanceRequestException or OSError, and an `order_error` a
-- BinanceOrderException.
pub data Error : Type 0 where
  zero_division index_error value_error exchange_error order_error runtime_error : Error

pub data Call (A : Type 0) : Type 0 where
  answer : A → Call A
  exception : Error → Call A

-- a call, and the code after it
unfoldable pub and_then : {A B : Type 0} → Call A → (A → Call B) → Call B
and_then (answer a) continue = continue a
and_then (exception e) continue = exception e

-- a row that is there or not
unfoldable pub row_or_error : {A : Type 0} → Option A → Call A
row_or_error none = exception index_error
row_or_error (some a) = answer a

-- `x / y` on floats, and the code after it
abbrev pub divide_then : {F A : Type 0} → ⦃fl : Float F⦄ → F → F → (F → Call A) → Call A
divide_then ⦃fl = fl⦄ x y continue =
    if fl.eq y zero_float then exception zero_division else continue (fl.quotient x y)
