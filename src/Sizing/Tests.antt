-- ===== src/Sizing/Tests.antt =====
-- The sizer at concrete inputs.
use trading_binance.Base.{◌≡◌, refl, false}
use trading_binance.Num.{lit, zero_float, ◌≼◌, max_float}
use trading_binance.Num.Fixed.{Fixed, fixed_float, Fixed-IsFloat}
use trading_binance.Py.{answer}
use trading_binance.Sizing.{
  SizingInputs, risk_based, pct_balance, normalize_sizing_mode, margin_to_use, risk_based_margin,
  cap_margin, is_entry_size_valid,
}
use trading_binance.Sizing.Bounds.{margin_to_use_bounds}

abbrev inputs : SizingInputs Fixed
inputs = record {
  available_balance = lit 100 0;
  entry_price = lit 50 0;
  stop_price = lit 49 0;
  leverage = 10;
  fixed_margin_per_trade_usdt = lit 5 0;
  margin_utilization = lit 9 1;
  risk_per_trade_pct = lit 2 2;
}

-- 1.8 USDT at risk over a distance of 1, at a price of 50 and leverage 10
risk_based_runs : margin_to_use risk_based inputs ≡ answer (lit 9 0)
unfolding margin_to_use risk_based_margin cap_margin
risk_based_runs = refl

unknown_mode : normalize_sizing_mode "kelly" ≡ pct_balance
unfolding normalize_sizing_mode
unknown_mode = refl

too_small : is_entry_size_valid {F = Fixed} (lit 1 3) (lit 50 0) (lit 0 0) (lit 5 0) ≡ false
unfolding is_entry_size_valid
too_small = refl

margin_to_use_bounds_example :
    (m : Fixed) × (margin_to_use risk_based inputs ≡ answer m)
    × (zero_float ≼ m)
    × (m ≼ max_float zero_float (lit 100 0))
margin_to_use_bounds_example = margin_to_use_bounds Fixed-IsFloat risk_based inputs refl
