-- ===== src/Strategy/Signals/Sound.antt =====
-- `evaluate_signal` as its callers see it.
use trading_binance.Base.{
  ℕ, ◌≤◌, ◌≡◌, ◌⊎◌, inl, inr, Bool, true, Option, none, some, List, length, arith, subst, sym,
}
use trading_binance.Py.{Call, exception, Error}
use trading_binance.Py.Laws.{Returns, answer-Returns, and_then-Returns, not_exception}
use trading_binance.Num.{Float, IsFloat, IsNum, zero_float, ◌⊗◌, ◌≺◌, ◌≼◌}
use trading_binance.Indicators.{Pandas, ema}
use trading_binance.Indicators.Lengths.{IsPandas, ema_answers, atr_answers, rsi_answers}
use trading_binance.Strategy.Eval.{value, Rejects}
use trading_binance.Strategy.Eval.Post.{
  Ensures, Any, Outcome, bind_ensures, stop_if_ensures, weaken_ensures, divided_ensures,
  value_of_ensures, of_call_ensures,
}
use trading_binance.Strategy.Frame.{Candle, StrategyConfig, Context, Signal, Side, buy, sell}
use trading_binance.Strategy.Frame.Reads.{
  IsSound, Levels, HasTrends, row_back_ensures, htf_trend_ensures,
}
use trading_binance.Strategy.Bos.Sound.{evaluate_bos_4h_ensures}
use trading_binance.Strategy.Nr4.Sound.{evaluate_nr4_1d_ensures}
use trading_binance.Strategy.Short.Sound.{evaluate_short_15m_ensures}
use trading_binance.Strategy.Profile.{Interval, h4, d1, m15_short, is_strict}
use trading_binance.Strategy.Pullback.Sound.{
  check_trend_ensures, check_momentum_ensures, score_penalty_ensures, check_confirmation_ensures,
}
use trading_binance.Strategy.Score.Sound.{pullback_bias_ensures, pullback_signal_ensures}
use trading_binance.Strategy.Signals.{
  MainFrame, column_call, with_indicators, evaluate_pullback, dispatch, evaluate_signal,
}

-- The side that a strict interval trades.
abbrev pub side_of : Bool → Interval → Side
side_of true m15_short = sell
side_of _ _ = buy

-- The stop against the trade, the target with it.
abbrev pub IsOrdered : {F : Type 0} ⦃fl : Float F⦄ → Side → Signal F → Type 0
IsOrdered buy s = (s.stop_price ≺ s.price) × (s.price ≼ s.tp_price)
IsOrdered sell s = (s.price ≺ s.stop_price) × (s.tp_price ≼ s.price)

-- pandas takes the periods: each is at least 1.
abbrev pub HasPeriods : {F : Type 0} → StrategyConfig F → Type 0
HasPeriods cfg =
    (1 ≤ cfg.ema_fast)
    × (1 ≤ cfg.ema_mid)
    × (1 ≤ cfg.ema_trend)
    × (1 ≤ cfg.atr_period)
    × (1 ≤ cfg.rsi_period)

module _ {F : Type 0} ⦃fl : Float F⦄ (laws : IsFloat F) (pd : Pandas F)
    (columns : IsPandas pd) where
  evaluate_pullback_ensures :
      {X : Type 0} (strict : Bool) (interval : Interval) (df : List (Candle F))
      (context : Context F) (cfg : StrategyConfig F)
      → 3 ≤ length df
      → HasTrends cfg ⊎ X
      → Ensures X (evaluate_pullback pd strict interval df context cfg) (IsSound cfg buy)
  unfolding evaluate_pullback
  evaluate_pullback_ensures strict interval df context cfg n spans =
      bind_ensures (row_back_ensures df 2 (omega arith) (omega arith)) λ s _.
        bind_ensures (row_back_ensures df 1 (omega arith) (omega arith)) λ c _.
          bind_ensures (row_back_ensures df 3 (omega arith) (omega arith)) λ prev _.
            bind_ensures (stop_if_ensures _) λ _ _. bind_ensures (stop_if_ensures _) λ _ atr.
              bind_ensures (stop_if_ensures _) λ _ vol. bind_ensures (stop_if_ensures _) λ _ range.
                bind_ensures (divided_ensures laws _ _ range) λ body _.
                  bind_ensures (check_trend_ensures laws strict interval _ cfg s atr) λ spread _.
                    bind_ensures
                      (check_momentum_ensures laws strict interval _ s prev.ema_fast body vol)
                      λ v _.
                        bind_ensures (score_penalty_ensures laws strict interval _ s spread v)
                          λ _ _.
                            bind_ensures (check_confirmation_ensures laws strict interval s c)
                              λ _ _.
                                bind_ensures (htf_trend_ensures pd cfg context columns spans) λ t _.
                                  bind_ensures (pullback_bias_ensures cfg interval body v s.rsi t)
                                    λ bias _.
                                      pullback_signal_ensures laws strict interval _ cfg s c _ _ atr

  dispatch_ensures :
      {X : Type 0} (strict : Bool) (interval : Interval) (df : List (Candle F))
      (context : Context F) (cfg : StrategyConfig F)
      → 3 ≤ length df
      → HasTrends cfg ⊎ X
      → Ensures X
          (dispatch pd strict interval df context cfg)
          (IsSound cfg (side_of strict interval))
  unfolding dispatch
  dispatch_ensures true h4 df context cfg n spans =
      evaluate_bos_4h_ensures laws pd df context cfg columns spans
  dispatch_ensures true d1 df context cfg n spans =
      evaluate_nr4_1d_ensures laws pd df context cfg columns spans
  dispatch_ensures true m15_short df context cfg n spans =
      evaluate_short_15m_ensures laws pd df context cfg columns spans
  dispatch_ensures strict interval df context cfg n spans =
      evaluate_pullback_ensures strict interval df context cfg n spans

  pub column-Returns :
      {A : Type 0} (o : Option A) (c : Call A) → Returns c → Returns (column_call o c)
  unfolding column_call
  column-Returns none c h = h
  column-Returns (some present) c h = tt

  pub ema-Returns : (closes : List F) (period : ℕ) → 1 ≤ period → Returns (ema pd closes period)
  ema-Returns closes period pos = answer-Returns (ema_answers pd closes period columns pos).1

  pub with_indicators-Returns :
      (df : MainFrame F) (cfg : StrategyConfig F)
      → HasPeriods cfg
      → Returns (with_indicators pd cfg df)
  unfolding with_indicators
  with_indicators-Returns df cfg (fast, mid, trend, atr, rsi_ok) =
      and_then-Returns _ _ (column-Returns _ _ (ema-Returns _ _ fast)) λ _.
        and_then-Returns _ _ (column-Returns _ _ (ema-Returns _ _ mid)) λ _.
          and_then-Returns _ _ (column-Returns _ _ (ema-Returns _ _ trend)) λ _.
            and_then-Returns _ _
              (column-Returns _ _ (answer-Returns (atr_answers pd df.bars _ columns atr).1))
              λ _.
                and_then-Returns _ _
                  (column-Returns _ _ (answer-Returns (rsi_answers pd _ _ columns rsi_ok).1))
                  λ _. tt

  indicators_raise :
      {X : Type 0} (df : MainFrame F) (cfg : StrategyConfig F) (e : Error)
      → HasPeriods cfg ⊎ X
      → with_indicators pd cfg df ≡ exception e
      → X
  indicators_raise df cfg e (inl periods) same =
      not_exception _ e (with_indicators-Returns df cfg periods) same
  indicators_raise df cfg e (inr x) same = x

  evaluate_signal_ensures :
      {X : Type 0} (df : MainFrame F) (context : Context F) (cfg : StrategyConfig F)
      (interval : Interval)
      → HasPeriods cfg ⊎ X
      → Ensures X
          (evaluate_signal pd df context cfg interval)
          (IsSound cfg (side_of (is_strict cfg) interval))
  unfolding evaluate_signal
  evaluate_signal_ensures df context cfg interval spans = bind_ensures (stop_if_ensures _) λ _ _.
      bind_ensures (stop_if_ensures _) λ _ _.
        bind_ensures
          (of_call_ensures {P = Any} _ (λ _ _. tt) (λ e same. indicators_raise df cfg e spans same))
          λ rows _. bind_ensures (stop_if_ensures _) λ _ n.
            dispatch_ensures _ interval rows context cfg (ground arith)
              (elim spans [ inl p ↦ inl (p.1, p.2) | inr x ↦ inr x ])

  -- With periods of at least 1, on any frame, context and interval, `evaluate_signal` raises nothing
  -- (no refusal of a period by pandas, no division by zero, no row out of range). It returns a
  -- signal and leaves the reject counts as they were, or it returns nothing and bumps one key at
  -- most, by one.
  pub evaluate_signal_accounts :
      (df : MainFrame F) (context : Context F) (cfg : StrategyConfig F) (interval : Interval)
      (rejects : Rejects)
      → HasPeriods cfg
      → Outcome ⊥ Any rejects (evaluate_signal pd df context cfg interval rejects)
  evaluate_signal_accounts df context cfg interval rejects periods =
      (weaken_ensures {Q = Any} (evaluate_signal_ensures df context cfg interval (inl periods))
          (λ _ _. tt)).run
        rejects

  sound_risk_pos :
      (cfg : StrategyConfig F) (side : Side) (s : Signal F)
      → IsSound cfg side s
      → zero_float ≺ cfg.min_risk_atr ⊗ s.atr
      → IsNum s.risk_per_unit
      → zero_float ≺ s.risk_per_unit
  sound_risk_pos cfg side s sound m n =
      let in_range = sound.in_range in
      ground (
        arith,
        laws.num_of_lt zero_float (cfg.min_risk_atr ⊗ s.atr) m,
        laws.le_or_lt (cfg.min_risk_atr ⊗ s.atr) s.risk_per_unit,
        laws.lt_of_lt_of_le zero_float (cfg.min_risk_atr ⊗ s.atr) s.risk_per_unit m,
      )

  Levels-IsOrdered :
      (cfg : StrategyConfig F) (side : Side) (s : Signal F)
      → Levels side s
      → zero_float ≺ s.risk_per_unit
      → zero_float ≺ s.rr_target
      → IsNum s.tp_price
      → IsOrdered side s
  Levels-IsOrdered cfg buy s (risk, target) pos rr n = (
    laws.lt_of_sub_pos s.price s.stop_price (subst (λ x. zero_float ≺ x) risk pos),
    subst (λ x. s.price ≼ x) (sym target)
        (laws.le_add s.price (s.risk_per_unit ⊗ s.rr_target) (laws.mul_nonneg _ _ pos rr)
          (subst IsNum target n)),
  )
  Levels-IsOrdered cfg sell s (risk, target) pos rr n = (
    laws.lt_of_sub_pos s.stop_price s.price (subst (λ x. zero_float ≺ x) risk pos),
    subst (λ x. x ≼ s.price) (sym target)
        (laws.sub_le s.price (s.risk_per_unit ⊗ s.rr_target) (laws.mul_nonneg _ _ pos rr)
          (subst IsNum target n)),
  )

  -- A signal of `evaluate_signal` has its stop strictly on the losing side of the entry and its
  -- target not on that side: a buy below and above, a sell the other way round. It sells exactly on
  -- the strict interval "15m_short". This needs a least risk that is positive for the signal's ATR,
  -- a positive reward ratio, and a risk and a target that are not NaN.
  pub evaluate_signal_orders_levels :
      (df : MainFrame F) (context : Context F) (cfg : StrategyConfig F) (interval : Interval)
      (s : Signal F) (r r' : Rejects)
      → evaluate_signal pd df context cfg interval r ≡ (value s, r')
      → zero_float ≺ cfg.min_risk_atr ⊗ s.atr
      → zero_float ≺ s.rr_target
      → IsNum s.risk_per_unit
      → IsNum s.tp_price
      → (s.side ≡ side_of (is_strict cfg) interval) × IsOrdered (side_of (is_strict cfg) interval) s
  evaluate_signal_orders_levels df context cfg interval s r r' e m rr n t =
      let sound =
        (value_of_ensures (evaluate_signal_ensures {X = Unit} df context cfg interval (inr tt))
          e).0 in
      (sound.side_eq, Levels-IsOrdered cfg _ s sound.levels (sound_risk_pos cfg _ s sound m n) rr t)
