-- ===== src/Strategy/Profile.antt =====
-- The parameters of `evaluate_signal` in strategy.py: the interval, the strict mode, and the
-- thresholds that the interval overrides.
use trading_binance.Base.{Bool, true, false, not, ◌&&◌, String, str_eq, if◌then◌else◌}
use trading_binance.Num.{Float, zero_float, lit}
use trading_binance.Strategy.Frame.{StrategyConfig}

-- `interval`: the texts that the code compares it with, and any other.
pub data Interval : Type 0 where
  m15 h1 h4 d1 m15_short other : Interval

unfoldable pub parse_interval : String → Interval
parse_interval interval =
    if str_eq interval "15m"
    then m15
    else if str_eq interval "1h"
    then h1
    else if str_eq interval "4h"
    then h4
    else if str_eq interval "1d"
    then d1
    else if str_eq interval "15m_short"
    then m15_short
    else other

pub record Profile (F : Type 0) : Type 0 where
  pub rsi_min : F
  pub rsi_max : F
  pub body_min : F
  pub pullback_tol : F
  pub rr : F
  pub stop_buf : F
  pub min_score_iv : F
  pub spread_max_iv : F
  pub volume_min_iv : F

module _ {F : Type 0} ⦃fl : Float F⦄ where
  -- `_strict`: off when the RSI range is fully open
  unfoldable pub is_strict : StrategyConfig F → Bool
  is_strict cfg = not (fl.eq cfg.rsi_long_min zero_float && fl.eq cfg.rsi_long_max (lit 100 0))

  unfoldable pub base_profile : StrategyConfig F → Profile F
  base_profile cfg = record {
    rsi_min = cfg.rsi_long_min;
    rsi_max = cfg.rsi_long_max;
    body_min = cfg.min_body_ratio;
    pullback_tol = cfg.pullback_tolerance_atr;
    rr = cfg.rr_target;
    stop_buf = lit 1 1;
    min_score_iv = cfg.min_score;
    spread_max_iv = cfg.max_ema_spread_atr;
    volume_min_iv = cfg.volume_min_ratio;
  }

  unfoldable pub strict_profile : StrategyConfig F → Interval → Profile F
  unfolding base_profile
  strict_profile cfg m15 = record {
    rsi_min = lit 48 0;
    rsi_max = lit 57 0;
    body_min = lit 42 2;
    pullback_tol = lit 205 2;
    rr = lit 15 1;
    stop_buf = lit 40 2;
    min_score_iv = lit 130 2;
    spread_max_iv = lit 260 2;
    volume_min_iv = lit 95 2;
  }
  strict_profile cfg h1 = record {
    rsi_min = lit 50 0;
    rsi_max = lit 565 1;
    body_min = lit 42 2;
    pullback_tol = lit 135 2;
    rr = lit 200 2;
    stop_buf = lit 30 2;
    min_score_iv = lit 155 2;
    spread_max_iv = lit 175 2;
    volume_min_iv = lit 98 2;
  }
  strict_profile cfg h4 = record {
    rsi_min = lit 54 0;
    rsi_max = lit 65 0;
    body_min = lit 60 2;
    pullback_tol = lit 80 2;
    rr = lit 25 1;
    stop_buf = lit 30 2;
    min_score_iv = lit 18 1;
    spread_max_iv = lit 100 2;
    volume_min_iv = cfg.volume_min_ratio;
  }
  strict_profile cfg d1 = record {
    rsi_min = lit 52 0;
    rsi_max = lit 63 0;
    body_min = lit 25 2;
    pullback_tol = lit 120 2;
    rr = lit 300 2;
    stop_buf = lit 55 2;
    min_score_iv = lit 26 1;
    spread_max_iv = lit 110 2;
    volume_min_iv = cfg.volume_min_ratio;
  }
  strict_profile cfg m15_short = base_profile cfg
  strict_profile cfg other = base_profile cfg

  unfoldable pub profile : Bool → Interval → StrategyConfig F → Profile F
  unfolding strict_profile base_profile
  profile true interval cfg = strict_profile cfg interval
  profile false interval cfg = base_profile cfg
