-- ===== src/Entry/Plan.antt =====
-- `_build_trade_plan`: the levels and the size of an entry.
use trading_binance.Base.{
  ℕ, ◌-◌, Bool, String, Option, some, List, map, length, ltb, take, drop, if◌then◌else◌,
}
use trading_binance.Num.{Float, zero_float, lit, ◌⊕◌, ◌⊖◌, ◌⊗◌, ◌<?◌, ◌≤?◌, min_float, max_float}
use trading_binance.Indicators.{Pandas, Bar, atr_last}
use trading_binance.Py.{Call, answer}
use trading_binance.Sizing.{SizingMode, SizingInputs, margin_to_use}
use trading_binance.Strategy.Frame.{Side, buy, sell, Signal}
use trading_binance.Flow.{is_recoverable, Flow, ◌>>=◌, ◌>>◌, pure, ask, choose, rescue}
use trading_binance.Entry.{Event, record_error, give_up}

-- `Settings`, as far as the entry flow reads it.
pub record EntrySettings (F : Type 0) : Type 0 where
  pub limit_offset_pct : F
  pub atr_period : ℕ
  pub atr_sl_mult : F
  pub min_sl_pct : F
  pub stop_atr_mult : F
  pub sizing_mode : SizingMode
  pub leverage : ℕ
  pub fixed_margin_per_trade_usdt : F
  pub margin_utilization : F
  pub risk_per_trade_pct : F
  pub anti_liq_trigger_r : F
  pub max_positions : ℕ
  pub use_paper_trading : Bool
  pub use_limit_only : Bool

-- What the plan asks the executor of its symbol.
pub record Executor (F : Type 0) : Type 0 where
  pub get_min_qty : Call F
  pub get_min_notional : Call F
  pub calc_qty : F → F → Call F
  pub round_qty : F → Call F

-- `SignalCandidate`
pub record Candidate (F : Type 0) : Type 0 where
  pub symbol : String
  pub payload : Signal F

-- What the plan reads of the market and the account. The frame is that of the candidate's symbol,
-- at the two places that ask for it.
pub record Market (F : Type 0) : Type 0 where
  pub equity : F
  pub futures_balance : Call F
  pub frame_for_atr : List (Bar F)
  pub frame : List (Bar F)
  pub executor : Executor F

-- `TradePlan`, less the texts and the signal's own fields
pub record TradePlan (F : Type 0) : Type 0 where
  pub symbol : String
  pub side : Side
  pub payload : Signal F
  pub entry_price : F
  pub atr_value : F
  pub signal_risk : F
  pub signal_rr : F
  pub risk_distance : F
  pub reward_distance : F
  pub sl : F
  pub tp : F
  pub entry_df_len : ℕ
  pub sl_swing : F
  pub sl_atr : F
  pub sl_common : F
  pub available_balance : F
  pub min_qty : F
  pub min_notional : F
  pub margin_to_use : F
  pub qty_by_margin : F
  pub qty_l1 : F

-- the value for a BUY, or else the other
unfoldable pub by_side : {A : Type 0} → Side → A → A → A
by_side buy long short = long
by_side sell long short = short

-- `df.iloc[-10:-1]` of at least ten rows
unfoldable pub swing_window : {A : Type 0} → List A → List A
swing_window rows = take 9 (drop (length rows - 10) rows)

module _ {F : Type 0} ⦃fl : Float F⦄ (pd : Pandas F) (settings : EntrySettings F) where
  unfoldable pub entry_price_with_offset : Side → F → F
  entry_price_with_offset side market_price =
      by_side side (market_price ⊗ (lit 1 0 ⊖ settings.limit_offset_pct))
        (market_price ⊗ (lit 1 0 ⊕ settings.limit_offset_pct))

  -- the signal's risk, or else one from the ATR and the price
  unfoldable pub risk_distance_of : F → F → F → F
  risk_distance_of signal_risk atr_value entry_price =
      if zero_float <? signal_risk
      then signal_risk
      else max_float (atr_value ⊗ settings.atr_sl_mult) (entry_price ⊗ settings.min_sl_pct)

  unfoldable pub available_balance_for_entry : Market F → Call F
  available_balance_for_entry market =
      if settings.use_paper_trading
      then answer (max_float zero_float market.equity)
      else market.futures_balance

  -- the swing of the last candles, for a stop
  unfoldable pub swing_stop : Side → List (Bar F) → F
  swing_stop side rows =
      by_side side (pd.series_min (map (λ b. b.low) (swing_window rows)))
        (pd.series_max (map (λ b. b.high) (swing_window rows)))

  unfoldable pub atr_stop : Side → F → F → F
  atr_stop side entry_price atr_value =
      by_side side (entry_price ⊖ (settings.stop_atr_mult ⊗ atr_value))
        (entry_price ⊕ (settings.stop_atr_mult ⊗ atr_value))

  unfoldable pub common_stop : Side → F → F → F
  common_stop side swing atr = by_side side (min_float swing atr) (max_float swing atr)

  unfoldable pub sizing_inputs : F → F → F → SizingInputs F
  sizing_inputs available_balance entry_price stop_price = record {
    available_balance = available_balance;
    entry_price = entry_price;
    stop_price = stop_price;
    leverage = settings.leverage;
    fixed_margin_per_trade_usdt = settings.fixed_margin_per_trade_usdt;
    margin_utilization = settings.margin_utilization;
    risk_per_trade_pct = settings.risk_per_trade_pct;
  }

  -- the values of the plan that need no answer, and those that have come so far
  unfoldable pub plan_of : Candidate F → List (Bar F) → F → F → F → F → F → F → F → TradePlan F
  plan_of candidate rows atr_value balance min_qty min_notional margin qty_by_margin qty_l1 =
      let signal = candidate.payload in
      let entry_price = entry_price_with_offset signal.side signal.price in
      let signal_rr = max_float signal.rr_target (lit 18 1) in
      let risk_distance = risk_distance_of signal.risk_per_unit atr_value entry_price in
      let reward_distance = risk_distance ⊗ signal_rr in
      let sl_swing = swing_stop signal.side rows in
      let sl_atr = atr_stop signal.side entry_price atr_value in
      record {
        symbol = candidate.symbol;
        side = signal.side;
        payload = signal;
        entry_price = entry_price;
        atr_value = atr_value;
        signal_risk = signal.risk_per_unit;
        signal_rr = signal_rr;
        risk_distance = risk_distance;
        reward_distance = reward_distance;
        sl = by_side signal.side (entry_price ⊖ risk_distance) (entry_price ⊕ risk_distance);
        tp = by_side signal.side (entry_price ⊕ reward_distance) (entry_price ⊖ reward_distance);
        entry_df_len = length rows;
        sl_swing = sl_swing;
        sl_atr = sl_atr;
        sl_common = common_stop signal.side sl_swing sl_atr;
        available_balance = balance;
        min_qty = min_qty;
        min_notional = min_notional;
        margin_to_use = margin;
        qty_by_margin = qty_by_margin;
        qty_l1 = qty_l1;
      }

  -- the margin, for the stop of the plan
  unfoldable pub margin_for : Candidate F → Market F → F → F → Call F
  margin_for candidate market atr_value balance =
      let signal = candidate.payload in
      let entry_price = entry_price_with_offset signal.side signal.price in
      let stop =
        common_stop signal.side (swing_stop signal.side market.frame)
          (atr_stop signal.side entry_price atr_value) in
      margin_to_use settings.sizing_mode (sizing_inputs balance entry_price stop)

  -- from the rounded quantity on
  unfoldable pub round_plan :
      Candidate F → Market F → F → F → F → F → F → F → Flow (Event F) (Option (TradePlan F))
  round_plan candidate market atr_value balance min_qty min_notional margin qty = do
    qty_l1 ← ask (market.executor.round_qty qty)
    pure (
        some
          (plan_of candidate market.frame atr_value balance min_qty min_notional margin qty qty_l1))

  -- from the quantity on
  unfoldable pub size_plan :
      Candidate F → Market F → F → F → F → F → F → Flow (Event F) (Option (TradePlan F))
  size_plan candidate market atr_value balance min_qty min_notional margin =
      choose (margin ≤? zero_float) (give_up candidate.symbol "sizing" "margin_to_use_invalid") (do
        qty ← ask (
            market.executor.calc_qty margin
              (entry_price_with_offset candidate.payload.side candidate.payload.price))
        choose (qty ≤? zero_float) (give_up candidate.symbol "sizing" "qty_by_margin_invalid")
            (round_plan candidate market atr_value balance min_qty min_notional margin qty))

  -- from the margin on
  unfoldable pub margin_plan :
      Candidate F → Market F → F → F → F → F → Flow (Event F) (Option (TradePlan F))
  margin_plan candidate market atr_value balance min_qty min_notional = do
    margin ← ask (margin_for candidate market atr_value balance)
    size_plan candidate market atr_value balance min_qty min_notional margin

  -- from the balance on
  unfoldable pub fund_plan : Candidate F → Market F → F → F → Flow (Event F) (Option (TradePlan F))
  fund_plan candidate market atr_value balance = do
    min_qty ← ask market.executor.get_min_qty
    min_notional ← ask market.executor.get_min_notional
    choose (ltb (length market.frame) 12)
        (give_up candidate.symbol "pre_entry" "entry_df_insufficient")
        (margin_plan candidate market atr_value balance min_qty min_notional)

  -- the ATR of the signal, or else of the frame
  unfoldable pub atr_for : Signal F → List (Bar F) → Call F
  atr_for signal rows =
      if signal.atr ≤? zero_float then atr_last pd rows settings.atr_period else answer signal.atr

  -- from the ATR on
  unfoldable pub balance_plan : Candidate F → Market F → F → Flow (Event F) (Option (TradePlan F))
  balance_plan candidate market atr_value =
      choose (atr_value ≤? zero_float) (give_up candidate.symbol "pre_entry" "atr_invalid") (
        rescue is_recoverable (ask (available_balance_for_entry market))
          (fund_plan candidate market atr_value)
          (λ exc. do
            record_error "balance_fetch" exc
            give_up candidate.symbol "pre_entry" "balance_fetch_failed"))

  unfoldable pub build_trade_plan : Candidate F → Market F → Flow (Event F) (Option (TradePlan F))
  build_trade_plan candidate market = do
    atr_value ← ask (atr_for candidate.payload market.frame_for_atr)
    balance_plan candidate market atr_value
