-- ===== src/Entry/Validate.antt =====
-- `_validate_trade_plan`: the guards of an entry.
use trading_binance.Base.{Bool, true, false, ◌&&◌, String, if◌then◌else◌}
use trading_binance.Num.{Float, zero_float, ◌⊕◌, ◌⊖◌, ◌⊗◌, ◌<?◌}
use trading_binance.Indicators.{Pandas}
use trading_binance.Py.{Call, answer, divide_then}
use trading_binance.Sizing.{SizingMode, fixed_margin, is_entry_size_valid}
use trading_binance.Flow.{Flow, ◌>>=◌, pure, ask}
use trading_binance.Entry.{Event}
use trading_binance.Entry.Plan.{EntrySettings, TradePlan, by_side}

-- `EntryValidationResult`
pub record Validation : Type 0 where
  pub ok : Bool
  pub stage : String
  pub reason : String

module _ {F : Type 0} ⦃fl : Float F⦄ (pd : Pandas F) (settings : EntrySettings F) where
  -- the margin that the distance to the liquidation is measured by
  unfoldable pub margin_initial_ref : SizingMode → TradePlan F → F
  margin_initial_ref fixed_margin plan = settings.fixed_margin_per_trade_usdt
  margin_initial_ref _ plan = plan.margin_to_use

  -- the stop is nearer to the liquidation than the distance allows
  unfoldable pub is_stop_inside : TradePlan F → F → Bool
  is_stop_inside plan distance =
      by_side plan.side ((plan.entry_price ⊖ distance) <? plan.sl_common)
        (plan.sl_common <? (plan.entry_price ⊕ distance))

  -- whether the first guard refuses the plan
  unfoldable pub is_in_liquidation_zone : TradePlan F → Call Bool
  is_in_liquidation_zone plan =
      let margin = margin_initial_ref settings.sizing_mode plan in
      if (zero_float <? settings.anti_liq_trigger_r)
        && (zero_float <? margin)
        && (zero_float <? plan.qty_l1)
      then divide_then (margin ⊗ settings.anti_liq_trigger_r) plan.qty_l1
          (λ distance. answer (is_stop_inside plan distance))
      else answer false

  unfoldable pub validation_of : TradePlan F → Bool → Validation
  validation_of plan inside =
      if inside
      then record { ok = false; stage = "sl_validation"; reason = "sl_inside_liquidation_zone" }
      else if is_entry_size_valid plan.qty_l1 plan.entry_price plan.min_qty plan.min_notional
      then record { ok = true; stage = "ok"; reason = "" }
      else record { ok = false; stage = "validation"; reason = "entry_notional_invalid" }

  unfoldable pub validate_trade_plan : TradePlan F → Flow (Event F) Validation
  validate_trade_plan plan = do
    inside ← ask (is_in_liquidation_zone plan)
    pure (validation_of plan inside)
