-- ===== src/Strategy/Frame.antt =====
-- The data that the engines of strategy.py read: candles with their indicator columns, the frame
-- of the higher timeframe, the configuration, and the signal that they return.
pub mod Reads
use trading_binance.Base.{
  ℕ, ◌+◌, ◌-◌, ◌≡◌, Bool, true, false, not, ◌&&◌, ◌||◌, String, Option, none, some, List, [], ◌∷◌,
  map, length, get_elem?, ltb, leb, max, if◌then◌else◌,
}
use trading_binance.Indicators.{Pandas, ema}
use trading_binance.Num.{
  Float, zero_float, lit, is_nan, ◌<?◌, ◌≤?◌, ◌⊖◌, ◌⊗◌, ◌⊕◌, min_float, max_float, absolute,
}
use trading_binance.Strategy.Eval.{Eval, ◌>>=◌, pure, of_call, found, stop_if, reject_if, choose}

-- A row with every indicator column. `close_time` is the text of `_format_breakout_time`.
pub record Candle (F : Type 0) : Type 0 where
  pub open_price : F
  pub high : F
  pub low : F
  pub close : F
  pub volume : F
  pub ema_fast : F
  pub ema_mid : F
  pub ema_trend : F
  pub atr : F
  pub atr_avg : F
  pub avg_vol : F
  pub rsi : F
  pub close_time : String

pub record StrategyConfig (F : Type 0) : Type 0 where
  pub ema_fast : ℕ
  pub ema_mid : ℕ
  pub ema_trend : ℕ
  pub atr_period : ℕ
  pub atr_avg_window : ℕ
  pub volume_avg_window : ℕ
  pub rsi_period : ℕ
  pub rsi_long_min : F
  pub rsi_long_max : F
  pub volume_min_ratio : F
  pub volume_max_ratio : F
  pub pullback_tolerance_atr : F
  pub min_ema_spread_atr : F
  pub max_ema_spread_atr : F
  pub min_body_ratio : F
  pub rr_target : F
  pub min_risk_atr : F
  pub max_risk_atr : F
  pub min_score : F
  pub context_missing_penalty : F
  pub max_atr_avg_ratio : F

pub data Side : Type 0 where
  buy sell : Side

pub data Bias : Type 0 where
  long neutral short_mr : Bias

pub record Signal (F : Type 0) : Type 0 where
  pub side : Side
  pub price : F
  pub stop_price : F
  pub tp_price : F
  pub risk_per_unit : F
  pub rr_target : F
  pub atr : F
  pub score : F
  pub htf_bias : Bias
  pub strategy : String
  pub breakout_time : String

-- `context_df`: the closes of the higher timeframe, with or without the columns `ema_mid` and
-- `ema_trend`.
pub data Context (F : Type 0) : Type 0 where
  plain : List F → Context F
  with_emas : List (F × F × F) → Context F

-- What the higher timeframe says: too short or absent, not a number, bullish, or not.
pub data HtfTrend : Type 0 where
  absent undefined bullish contrary : HtfTrend

-- `df.iloc[-k]`
abbrev pub from_end : {A : Type 0} → List A → ℕ → Option A
from_end rows k = if ltb (length rows) k then none else get_elem? rows (length rows - k)

unfoldable pub row_back : {A : Type 0} → List A → ℕ → Eval A
row_back rows k = found (from_end rows k)

module _ {F : Type 0} ⦃fl : Float F⦄ where
  -- `any(pd.isna(v) for v in values)`
  unfoldable pub any_nan : List F → Bool
  any_nan [] = false
  any_nan (v ∷ vs) = is_nan v || any_nan vs

  -- lo <= x <= hi
  abbrev pub between : F → F → F → Bool
  between lo x hi = (lo ≤? x) && (x ≤? hi)

  unfoldable pub context_length : Context F → ℕ
  context_length (plain closes) = length closes
  context_length (with_emas rows) = length rows

  -- the trend that three values of the context show
  pub classify : F → F → F → HtfTrend
  classify ctx_ema_mid ctx_ema_trend ctx_price =
      if is_nan ctx_ema_mid || is_nan ctx_ema_trend
      then undefined
      else if (ctx_ema_trend <? ctx_ema_mid) && (ctx_ema_mid <? ctx_price)
      then bullish
      else contrary

  pub last_trend : Pandas F → StrategyConfig F → Context F → Eval HtfTrend
  last_trend pd cfg (plain closes) = do
    mids ← of_call (ema pd closes cfg.ema_mid)
    mid ← row_back mids 1
    trends ← of_call (ema pd closes cfg.ema_trend)
    trend ← row_back trends 1
    price ← row_back closes 1
    pure (classify mid trend price)
  last_trend pd cfg (with_emas rows) = do row ← row_back rows 1; pure (classify row.1 row.2 row.0)

  -- The block that every engine has: the last row of the context, where it is long enough.
  unfoldable pub htf_trend : Pandas F → StrategyConfig F → Context F → Eval HtfTrend
  htf_trend pd cfg context =
      choose
        (ltb 0 (context_length context)
          && leb (max cfg.ema_mid cfg.ema_trend) (context_length context))
        (last_trend pd cfg context) (pure absent)

  -- risk < min_risk_atr * atr or risk > max_risk_atr * atr
  abbrev pub risk_out_of_range : StrategyConfig F → F → F → Bool
  risk_out_of_range cfg risk atr =
      (risk <? (cfg.min_risk_atr ⊗ atr)) || ((cfg.max_risk_atr ⊗ atr) <? risk)

  -- if strong: score += a, elif weak: score += b
  abbrev pub grade : F → Bool → F → Bool → F → F
  grade score strong a weak b = if strong then score ⊕ a else if weak then score ⊕ b else score
