-- ===== src/Entry/Levels.antt =====
-- The levels of a trade whose monitor is started.
use trading_binance.Base.{
  ◌≡◌, refl, subst, arith, Bool, true, false, Option, none, some, List, [], if◌then◌else◌,
}
use trading_binance.Num.{
  Float, IsFloat, IsNum, zero_float, lit, ◌⊕◌, ◌⊖◌, ◌<?◌, ◌≤?◌, ◌≺◌, ◌≼◌, absolute, min_float,
  max_float,
}
use trading_binance.Indicators.{Pandas}
use trading_binance.Py.{Call, answer, exception}
use trading_binance.Flow.Laws.{Does, pure_does, ask_does, emit_does, choose_does}
use trading_binance.Strategy.Frame.{Side, buy, sell}
use trading_binance.Entry.{Event, give_up, mark_entry_failed}
use trading_binance.Entry.Plan.{EntrySettings, Market, TradePlan, by_side}
use trading_binance.Entry.Submit.{FillResult}
use trading_binance.Entry.Finalize.{
  LaunchContext, new_levels, fill_price, tp_risk_cap_of, target_of, breakeven_trigger, context_of,
  book_entry, finalize_entry,
}

module _ {F : Type 0} ⦃fl : Float F⦄ where
  -- The target is on the side of the entry where the trade wins.
  abbrev pub Wins : Side → F → F → Type 0
  Wins buy entry_price tp = entry_price ≼ tp
  Wins sell entry_price tp = tp ≼ entry_price

  -- What the monitor is given, for the plan and its fill.
  pub record IsFinal (market : Market F) (plan : TradePlan F) (fill : FillResult F)
      (context : LaunchContext F) : Type 0 where
    pub symbol : context.symbol ≡ plan.symbol
    pub side : context.side ≡ plan.side
    pub qty : market.executor.round_qty fill.filled_qty ≡ answer context.trade_state.qty
    pub price :
        fl.eq fill.avg_price zero_float ≡ false → context.trade_state.entry_price ≡ fill.avg_price
    pub planned :
        fl.eq fill.avg_price zero_float ≡ true → context.trade_state.entry_price ≡ plan.entry_price
    pub same_price : context.entry_price ≡ context.trade_state.entry_price
    pub anchor : context.trade_state.anchor_entry_price ≡ context.trade_state.entry_price
    pub stop : context.trade_state.sl ≡ plan.sl_common
    pub distance :
        context.trade_state.risk_distance
        ≡ absolute (context.trade_state.entry_price ⊖ plan.sl_common)
    pub anchor_distance :
        context.trade_state.anchor_risk_distance ≡ context.trade_state.risk_distance
    pub risky : (context.trade_state.risk_distance ≤? zero_float) ≡ false
    pub breakeven : (context.trade_state.breakeven_trigger_pct <? lit 4 3) ≡ false
    pub wins :
        IsNum plan.signal_rr
        → IsNum context.trade_state.risk_distance
        → IsNum context.trade_state.tp
        → Wins plan.side context.trade_state.entry_price context.trade_state.tp
    pub levels : context.level_state ≡ new_levels

module _ {F : Type 0} ⦃fl : Float F⦄ (laws : IsFloat F) (pd : Pandas F)
    (settings : EntrySettings F) where
  open laws use {
    le_or_lt, not_le_of_lt, lt_of_lt_of_le, lit_pos, lit_num, mul_nonneg, le_add, sub_le, le_refl,
    num_of_lt,
  }

  max_pos : (x y : F) → IsNum x → IsNum y → zero_float ≺ y → zero_float ≺ max_float x y
  max_pos x y n m pos = ground (arith, le_or_lt y x m n, lt_of_lt_of_le zero_float y x)

  min_pos : (x y : F) → zero_float ≺ x → zero_float ≺ y → zero_float ≺ min_float x y
  min_pos x y p q = ground arith

  pos_of : (x : F) → IsNum x → (x ≤? zero_float) ≡ false → zero_float ≺ x
  pos_of x n h = ground (arith, le_or_lt x zero_float n (lit_num 0 0))

  -- `max(share, 0.004)` is not below.
  max_not_lt : (x y : F) → IsNum y → (max_float x y <? y) ≡ false
  max_not_lt x y n = ground (arith, le_refl y n, not_le_of_lt y y)

  wins_lem :
      (side : Side) (entry reward : F)
      → zero_float ≼ reward
      → IsNum (by_side side (entry ⊕ reward) (entry ⊖ reward))
      → Wins side entry (by_side side (entry ⊕ reward) (entry ⊖ reward))
  unfolding by_side
  wins_lem buy entry reward pos n = le_add entry reward pos n
  wins_lem sell entry reward pos n = sub_le entry reward pos n

  abbrev IsLeast : Call F → Type 0
  IsLeast (answer q) = (q <? lit 4 3) ≡ false
  IsLeast (exception e) = Unit

  if_IsLeast : (b : Bool) (x y : Call F) → IsLeast x → IsLeast y → IsLeast (if b then x else y)
  if_IsLeast true x y p q = p
  if_IsLeast false x y p q = q

  breakeven_lem :
      (entry risk q : F)
      → breakeven_trigger pd settings entry risk ≡ answer q
      → (q <? lit 4 3) ≡ false
  unfolding breakeven_trigger
  breakeven_lem entry risk q e = subst IsLeast e (
      if_IsLeast (zero_float <? entry) _ _
        (if_IsLeast (fl.eq entry zero_float) _ _ tt (max_not_lt _ _ (lit_num 4 3)))
        (ground (arith, le_refl (lit 4 3) (lit_num 4 3), not_le_of_lt (lit 4 3) (lit 4 3))))

  fill_price_lem :
      (plan : TradePlan F) (fill : FillResult F)
      → fl.eq fill.avg_price zero_float ≡ false
      → fill_price pd settings plan fill ≡ fill.avg_price
  unfolding fill_price
  fill_price_lem plan fill h = ground arith

  plan_price_lem :
      (plan : TradePlan F) (fill : FillResult F)
      → fl.eq fill.avg_price zero_float ≡ true
      → fill_price pd settings plan fill ≡ plan.entry_price
  unfolding fill_price
  plan_price_lem plan fill h = ground arith

  cap_pos :
      (plan : TradePlan F) (risk : F)
      → zero_float ≺ risk
      → zero_float ≺ tp_risk_cap_of pd settings plan risk
  unfolding tp_risk_cap_of
  cap_pos plan risk pos = ground arith

  target-Wins :
      (plan : TradePlan F) (entry risk : F)
      → (risk ≤? zero_float) ≡ false
      → IsNum plan.signal_rr
      → IsNum risk
      → IsNum (target_of pd settings plan entry risk)
      → Wins plan.side entry (target_of pd settings plan entry risk)
  unfolding target_of
  target-Wins plan entry risk h rr n tp =
      let pos = pos_of risk n h in
      wins_lem plan.side entry _
        (mul_nonneg _ _
          (max_pos plan.signal_rr (lit 18 1) rr (lit_num 18 1)
            (lit_pos 18 1 (ground arith) (ground arith)))
          (min_pos risk _ pos (cap_pos plan risk pos)))
        tp

  module _ (market : Market F) (plan : TradePlan F) (fill : FillResult F) where
    abbrev Finalizes : List (Event F) → Call (Option (LaunchContext F)) → Type 0
    Finalizes es (answer (some context)) = IsFinal market plan fill context
    Finalizes es (answer none) = Unit
    Finalizes es (exception e) = Unit

    book_does :
        (distance : F)
        → distance ≡ absolute (fill_price pd settings plan fill ⊖ plan.sl_common)
        → (distance ≤? zero_float) ≡ false
        → Does
            (book_entry pd settings market plan fill (fill_price pd settings plan fill) distance)
            Finalizes
    unfolding book_entry context_of
    book_does distance same h =
        ask_does
          (λ breakeven e.
            ask_does
              (λ qty f. emit_does _ _ (
                emit_does _ _ (
                  pure_does _ (record {
                    symbol = refl;
                    side = refl;
                    qty = f;
                    price = fill_price_lem plan fill;
                    planned = plan_price_lem plan fill;
                    same_price = refl;
                    anchor = refl;
                    stop = refl;
                    distance = same;
                    anchor_distance = refl;
                    risky = h;
                    breakeven = breakeven_lem _ _ breakeven e;
                    wins = target-Wins plan _ distance h;
                    levels = refl;
                  }))))
              (λ x f. tt))
          (λ x e. tt)

    forget :
        (es : List (Event F)) (r : Call (Option (LaunchContext F)))
        → Finalizes es r
        → Finalizes [] r
    forget es (answer (some context)) h = h
    forget es (answer none) h = h
    forget es (exception e) h = h

    finalize_does : Does (finalize_entry pd settings market plan fill) Finalizes
    unfolding finalize_entry give_up mark_entry_failed
    finalize_does =
        emit_does _ _
          (choose_does _ (λ c. emit_does _ _ (pure_does _ tt)) (λ c. book_does _ refl c))

    -- Where an entry is finished and its monitor starts, the trade state of the monitor has the
    -- average price of the fill, or the plan's price where that is zero, as its entry price and its
    -- anchor, the filled quantity rounded to the symbol's step, the plan's stop, a distance to the
    -- stop from that price that is not zero or negative, a breakeven trigger of at least 0.4 %, and
    -- a target on the winning side of that price, where the plan's reward ratio, the distance and
    -- the target are numbers. The monitor has the plan's symbol and side and no level done.
    pub finalize_entry_levels :
        (context : LaunchContext F)
        → (finalize_entry pd settings market plan fill).outcome ≡ answer (some context)
        → IsFinal market plan fill context
    finalize_entry_levels context e =
        subst (λ r. Finalizes [] r) e
          (forget (finalize_entry pd settings market plan fill).events _ finalize_does.holds)
