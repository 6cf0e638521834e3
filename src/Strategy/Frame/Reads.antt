-- ===== src/Strategy/Frame/Reads.antt =====
-- Reads of rows that exist do not raise, and what a sound signal is.
use trading_binance.Base.{
  ℕ, ◌-◌, ◌≤◌, ◌<◌, ◌≡◌, false, List, length, get_elem?-lt-length, some, arith, ◌⊎◌, inl, inr,
}
use trading_binance.Indicators.{Pandas, ema}
use trading_binance.Indicators.Lengths.{IsPandas, length-ema, ema_raises}
use trading_binance.Num.{Float, ◌⊖◌, ◌⊕◌, ◌⊗◌, ◌≤?◌, zero_float}
use trading_binance.Strategy.Eval.Post.{
  Ensures, Any, bind_ensures, pure_ensures, choose_ensures, found_ensures, of_call_ensures,
}
use trading_binance.Strategy.Eval.{of_call}
use trading_binance.Strategy.Frame.{
  StrategyConfig, Context, plain, with_emas, Signal, Side, buy, sell, from_end, row_back,
  context_length, last_trend, htf_trend, risk_out_of_range,
}

from_end_lem :
    {A : Type 0} (rows : List A) (k : ℕ)
    → 0 < k
    → k ≤ length rows
    → (a : A) × (from_end rows k ≡ some a)
from_end_lem rows k p h =
    let (a, e) = get_elem?-lt-length rows (length rows - k) (omega arith) in (a, ground (arith, e))

pub row_back_ensures :
    {A X : Type 0} (rows : List A) (k : ℕ)
    → 0 < k
    → k ≤ length rows
    → Ensures X (row_back rows k) Any
unfolding row_back
row_back_ensures rows k p h = let (a, e) = from_end_lem rows k p h in found_ensures a e tt

module _ {F : Type 0} ⦃fl : Float F⦄ where
  -- The periods of the averages of a context are such that pandas takes them.
  abbrev pub HasTrends : StrategyConfig F → Type 0
  HasTrends cfg = (1 ≤ cfg.ema_mid) × (1 ≤ cfg.ema_trend)

  ema_ensures :
      {X : Type 0} (pd : Pandas F) (closes : List F) (period : ℕ)
      → IsPandas pd
      → (1 ≤ period) ⊎ X
      → Ensures X (of_call (ema pd closes period)) (λ averages. length averages ≡ length closes)
  ema_ensures pd closes period laws span =
      of_call_ensures _ (λ a same. length-ema pd closes period a laws same)
        (λ e same. ema_raises pd closes period e same span)

  last_trend_ensures :
      {X : Type 0} (pd : Pandas F) (cfg : StrategyConfig F) (context : Context F)
      → IsPandas pd
      → HasTrends cfg ⊎ X
      → 0 < context_length context
      → Ensures X (last_trend pd cfg context) Any
  unfolding last_trend context_length
  last_trend_ensures pd cfg (plain closes) laws spans h =
      bind_ensures
        (ema_ensures pd closes cfg.ema_mid laws (elim spans [ inl s ↦ inl s.0 | inr x ↦ inr x ]))
        λ mids m. bind_ensures (row_back_ensures mids 1 (omega arith) (omega (arith, m))) λ mid _.
          bind_ensures
            (ema_ensures pd closes cfg.ema_trend laws
              (elim spans [ inl s ↦ inl s.1 | inr x ↦ inr x ]))
            λ trends t.
              bind_ensures (row_back_ensures trends 1 (omega arith) (omega (arith, t))) λ trend _.
                bind_ensures (row_back_ensures _ 1 (omega arith) (omega arith))
                  λ price _. pure_ensures _ tt
  last_trend_ensures pd cfg (with_emas rows) laws spans h =
      bind_ensures (row_back_ensures _ 1 (omega arith) (omega arith)) λ row _. pure_ensures _ tt

  pub htf_trend_ensures :
      {X : Type 0} (pd : Pandas F) (cfg : StrategyConfig F) (context : Context F)
      → IsPandas pd
      → HasTrends cfg ⊎ X
      → Ensures X (htf_trend pd cfg context) Any
  unfolding htf_trend
  htf_trend_ensures pd cfg context laws spans =
      choose_ensures _ (λ long. last_trend_ensures pd cfg context laws spans (ground arith))
        (λ _. pure_ensures _ tt)

  -- The stop lies `risk_per_unit` against the trade, the target `rr_target` times that with it.
  abbrev pub Levels : Side → Signal F → Type 0
  Levels buy s =
      (s.risk_per_unit ≡ s.price ⊖ s.stop_price)
      × (s.tp_price ≡ s.price ⊕ s.risk_per_unit ⊗ s.rr_target)
  Levels sell s =
      (s.risk_per_unit ≡ s.stop_price ⊖ s.price)
      × (s.tp_price ≡ s.price ⊖ s.risk_per_unit ⊗ s.rr_target)

  -- Stop, entry and target as the engines compute them, with the risk within the bounds.
  pub record IsSound (cfg : StrategyConfig F) (side : Side) (s : Signal F) : Type 0 where
    pub side_eq : s.side ≡ side
    pub in_range : risk_out_of_range cfg s.risk_per_unit s.atr ≡ false
    pub atr_pos : (s.atr ≤? zero_float) ≡ false
    pub levels : Levels side s
