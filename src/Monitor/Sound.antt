-- ===== src/Monitor/Sound.antt =====
-- When the review of a running trade ends it.
use trading_binance.Base.{◌≤◌, ◌≡◌, ◌⊎◌, Bool, true, false, List, length}
use trading_binance.Num.{Float, ◌≤?◌, absolute}
use trading_binance.Indicators.{Bar}
use trading_binance.Strategy.Frame.{Side}
use trading_binance.Monitor.{Review, ReviewSettings, required_len, is_against}

module _ {F : Type 0} ⦃fl : Float F⦄ where
  -- The tests of a review that end the trade.
  abbrev pub EndsOn : ReviewSettings F → Side → Bool → List (Bar F) → Review F → Type 0
  EndsOn cfg side break_even df r =
      (required_len cfg ≤ length df)
      × (break_even ≡ false)
      × ((r.struct_break ≡ true)
          ⊎ ((is_against side r.ctx_dir ≡ true)
              × ((cfg.trend_slope_min ≤? absolute r.ctx_slope) ≡ true)))
