-- ===== src/Sizing.antt =====
-- sizing.py: the policies that choose the margin of an entry, and the exchange's minimums.
pub mod Bounds
mod Tests
use trading_binance.Base.{ℕ, Bool, true, false, not, ◌&&◌, ◌||◌, String, str_eq, max, if◌then◌else◌}
use trading_binance.Num.{
  Float, ◌⊕◌, ◌⊖◌, ◌⊗◌, ◌<?◌, ◌≤?◌, lit, zero_float, absolute, min_float, max_float,
}
use trading_binance.Py.{Call, answer, divide_then}

pub data SizingMode : Type 0 where
  fixed_margin risk_based pct_balance : SizingMode

-- `normalize_sizing_mode`, on the text that `strip` and `lower` leave
pub normalize_sizing_mode : String → SizingMode
normalize_sizing_mode normalized =
    if str_eq normalized "fixed_margin"
    then fixed_margin
    else if str_eq normalized "risk_based"
    then risk_based
    else pct_balance

pub record SizingInputs (F : Type 0) : Type 0 where
  pub available_balance : F
  pub entry_price : F
  pub stop_price : F
  pub leverage : ℕ
  pub fixed_margin_per_trade_usdt : F
  pub margin_utilization : F
  pub risk_per_trade_pct : F

module _ {F : Type 0} ⦃fl : Float F⦄ where
  unfoldable pub fixed_margin_to_use : SizingInputs F → F
  fixed_margin_to_use inputs =
      if inputs.available_balance ≤? zero_float
      then zero_float
      else if inputs.fixed_margin_per_trade_usdt ≤? zero_float
      then zero_float
      else max_float zero_float
          (min_float inputs.fixed_margin_per_trade_usdt inputs.available_balance)

  pub pct_balance_margin : SizingInputs F → F
  pct_balance_margin inputs =
      if inputs.available_balance ≤? zero_float
      then zero_float
      else let margin = inputs.available_balance ⊗ inputs.risk_per_trade_pct in
        max_float zero_float (min_float margin inputs.available_balance)

  -- `max(0.0, min(margin, usable_balance, available_balance))`
  pub cap_margin : F → F → F → F
  cap_margin margin usable available =
      max_float zero_float (min_float (min_float margin usable) available)

  pub risk_based_margin : SizingInputs F → Call F
  risk_based_margin inputs =
      if (inputs.available_balance ≤? zero_float) || (inputs.entry_price ≤? zero_float)
      then answer zero_float
      else let risk_distance = absolute (inputs.entry_price ⊖ inputs.stop_price) in
        let usable_balance =
          max_float zero_float (inputs.available_balance ⊗ inputs.margin_utilization) in
        let risk_budget = max_float zero_float (usable_balance ⊗ inputs.risk_per_trade_pct) in
        if risk_distance ≤? zero_float
        then answer zero_float
        else if usable_balance ≤? zero_float
        then answer zero_float
        else if risk_budget ≤? zero_float
        then answer zero_float
        else divide_then risk_budget risk_distance λ qty.
          if qty ≤? zero_float
          then answer zero_float
          else divide_then (qty ⊗ inputs.entry_price) (lit (max 1 inputs.leverage) 0)
              λ margin. answer (cap_margin margin usable_balance inputs.available_balance)

  unfoldable pub margin_to_use : SizingMode → SizingInputs F → Call F
  margin_to_use risk_based inputs = risk_based_margin inputs
  margin_to_use pct_balance inputs = answer (pct_balance_margin inputs)
  margin_to_use fixed_margin inputs = answer (fixed_margin_to_use inputs)

  unfoldable pub is_entry_size_valid : F → F → F → F → Bool
  is_entry_size_valid qty price min_qty min_notional =
      if (qty ≤? zero_float) || (price ≤? zero_float)
      then false
      else if (zero_float <? min_qty) && (qty <? min_qty)
      then false
      else if (zero_float <? min_notional) && ((qty ⊗ price) <? min_notional)
      then false
      else true
