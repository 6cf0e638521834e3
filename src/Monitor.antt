-- ===== src/Monitor.antt =====
-- monitor_logic.py: the review of a running trade that may end it early.
pub mod Sound
mod Tests
use trading_binance.Base.{
  ℕ, ◌+◌, ◌-◌, Bool, true, false, ◌&&◌, ◌||◌, Option, none, some, List, [], ◌∷◌, map, length, ltb,
  max, take, drop, if◌then◌else◌,
}
use trading_binance.Num.{Float, zero_float, lit, ◌<?◌, ◌≤?◌, ◌⊖◌, ◌⊗◌, absolute}
use trading_binance.Indicators.{
  Pandas, Bar, Direction, up, down, last?, before_last?, ema, context_direction, context_slope,
}
use trading_binance.Py.{Call, answer, and_then, row_or_error}
use trading_binance.Strategy.Frame.{Side, buy, sell}

pub data Reason : Type 0 where
  no_data break_even_active volume_break structure_break ctx_flip no_reason : Reason

-- The result of `evaluate_early_exit`, its metrics flat.
pub record Review (F : Type 0) : Type 0 where
  pub should_exit : Bool
  pub reason : Reason
  pub ctx_dir : Option Direction
  pub ctx_slope : F
  pub struct_break : Bool
  pub vol_strong : Bool

pub record ReviewSettings (F : Type 0) : Type 0 where
  pub ema_fast_period : ℕ
  pub ema_mid_period : ℕ
  pub ema_trend_period : ℕ
  pub volume_avg_window : ℕ
  pub trend_slope_min : F

-- The last and the last but one value of an average.
pub record Pair (F : Type 0) : Type 0 where
  pub now : F
  pub before : F

unfoldable pub last_pair : {F : Type 0} → List F → Call (Pair F)
last_pair xs = and_then (row_or_error (last? xs)) λ now.
    and_then (row_or_error (before_last? xs))
      λ before. answer (record { now = now; before = before })

abbrev pub required_len : {F : Type 0} → ReviewSettings F → ℕ
required_len cfg =
    max (max (max cfg.ema_mid_period cfg.ema_fast_period) (cfg.volume_avg_window + 2)) 4

-- `ctx_dir == "SHORT" if side == "BUY" else ctx_dir == "LONG"`
abbrev pub is_against : Side → Option Direction → Bool
is_against side none = false
is_against buy (some up) = false
is_against buy (some down) = true
is_against sell (some up) = true
is_against sell (some down) = false

-- the verdict on the tests, in the order of the source
unfoldable pub verdict : Bool → Bool → Bool → Bool → Bool × Reason
verdict break_even volume_breaks struct_break ctx_changed =
    if break_even
    then (false, break_even_active)
    else if volume_breaks
    then (true, volume_break)
    else if struct_break
    then (true, structure_break)
    else if ctx_changed
    then (true, ctx_flip)
    else (false, no_reason)

module _ {F : Type 0} ⦃fl : Float F⦄ where
  unfoldable pub strong_body : Bar F → Bool
  strong_body b =
      (zero_float <? (b.high ⊖ b.low))
      && (lit 6 1 ≤? fl.quotient (absolute (b.close ⊖ b.open_price)) (b.high ⊖ b.low))

  -- the fast average crossed the middle one against the side
  unfoldable pub cross_against : Side → Pair F → Pair F → Bool
  cross_against buy fast mid = (mid.before ≤? fast.before) && (fast.now <? mid.now)
  cross_against sell fast mid = (fast.before ≤? mid.before) && (mid.now <? fast.now)

  unfoldable pub structure_broken : Side → Bar F → Pair F → Pair F → Bool
  structure_broken side b fast mid =
      cross_against side fast mid
      && elim side [ buy ↦ b.close <? mid.now | sell ↦ mid.now <? b.close ]
      && strong_body b

  unfoldable pub volume_against : Side → Bar F → Bool
  volume_against buy b = b.close <? b.open_price
  volume_against sell b = b.open_price <? b.close

  -- `df["volume"].iloc[-(volume_avg_window + 1) : -1]`
  unfoldable pub volume_slice : ℕ → List (Bar F) → List F
  volume_slice window df = map (λ b. b.volume) (take window (drop (length df - (window + 1)) df))

  unfoldable pub volume_average : Pandas F → List F → F
  volume_average pd [] = zero_float
  volume_average pd (v ∷ vs) = pd.series_mean (v ∷ vs)

  unfoldable pub strong_volume : Pandas F → ℕ → List (Bar F) → Bar F → Bool
  strong_volume pd window df b =
      let vol_avg = volume_average pd (volume_slice window df) in
      (zero_float <? vol_avg) && (lit 2 0 ⊗ vol_avg ≤? b.volume)

  unfoldable pub no_data_review : Review F
  no_data_review = record {
    should_exit = false;
    reason = no_data;
    ctx_dir = none;
    ctx_slope = zero_float;
    struct_break = false;
    vol_strong = false;
  }

  unfoldable pub review_of :
      Pandas F
      → ReviewSettings F
      → Side
      → Bool
      → List (Bar F)
      → Option Direction
      → Bar F
      → Pair F
      → Pair F
      → F
      → Review F
  review_of pd cfg side break_even df ctx_dir b fast mid slope =
      let struct_break = structure_broken side b fast mid in
      let vol_strong = strong_volume pd cfg.volume_avg_window df b in
      let (should_exit, reason) =
        verdict break_even (vol_strong && volume_against side b && struct_break) struct_break
          (is_against side ctx_dir && (cfg.trend_slope_min ≤? absolute slope)) in
      record {
        should_exit = should_exit;
        reason = reason;
        ctx_dir = ctx_dir;
        ctx_slope = slope;
        struct_break = struct_break;
        vol_strong = vol_strong;
      }

  unfoldable pub evaluate_early_exit :
      Pandas F → ReviewSettings F → Side → Bool → List (Bar F) → List F → Call (Review F)
  evaluate_early_exit pd cfg side break_even df context =
      let closes = map (λ b. b.close) df in
      let review = and_then (ema pd closes cfg.ema_fast_period) λ fasts.
        and_then (ema pd closes cfg.ema_mid_period) λ mids. and_then (row_or_error (last? df)) λ b.
          and_then (last_pair fasts) λ fast. and_then (last_pair mids) λ mid.
            and_then (context_direction pd context cfg.ema_trend_period) λ ctx_dir.
              and_then (context_slope pd context cfg.ema_trend_period)
                λ slope. answer (review_of pd cfg side break_even df ctx_dir b fast mid slope) in
      if ltb (length df) 1 || ltb (length df) (required_len cfg)
      then answer no_data_review
      else review
