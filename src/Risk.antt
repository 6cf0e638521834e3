-- ===== src/Risk.antt =====
-- risk.py: the guards of `RiskManager` (cooldown, loss streak, daily drawdown) over its state. Each
-- method holds the lock for all of its body, so it is a function of the state. Times are whole
-- microseconds of UTC, as `datetime` keeps them, and the settings in seconds are not negative.
pub mod Gate
pub mod History
pub mod Store
mod Tests
use trading_binance.Base.{
  ℕ, ◌+◌, ◌*◌, ◌/◌, ◌≡◌, Bool, true, false, not, ◌&&◌, Option, none, some, List, [], ◌∷◌, ltb, leb,
  ◌==◌, if◌then◌else◌,
}
use trading_binance.Num.{Float, zero_float, ◌<?◌, ◌≤?◌, ◌⊖◌, ◌⊕◌}

pub record RiskState (F : Type 0) : Type 0 where
  pub consecutive_losses : ℕ
  pub last_trade_time : Option ℕ
  pub day_start_equity : F
  pub current_day : Option ℕ
  pub equity : F
  pub paused : Bool
  pub loss_pause_until : Option ℕ

-- The settings of `RiskManager`.
pub record RiskSettings (F : Type 0) : Type 0 where
  pub cooldown_sec : ℕ
  pub max_consecutive_losses : ℕ
  pub daily_drawdown_limit : F
  pub daily_drawdown_limit_usdt : F
  pub loss_pause_sec : ℕ
  pub volatility_pause : Bool
  pub volatility_threshold : F

abbrev pub second : ℕ
second = 1_000_000

abbrev pub day_length : ℕ
day_length = 86_400_000_000

-- `now.date()`
abbrev pub date : ℕ → ℕ
date now = now / day_length

-- `self.state.current_day != now.date()`
abbrev pub is_day : Option ℕ → ℕ → Bool
is_day none day = false
is_day (some d) day = d == day

-- `total_seconds() < seconds` of a time since the last trade, if there was one
abbrev pub cooling : Option ℕ → ℕ → ℕ → Bool
cooling none now seconds = false
cooling (some last) now seconds = ltb now (last + seconds * second)

-- whether a pause that was set is still running
abbrev pub pausing : Option ℕ → ℕ → Bool
pausing none now = false
pausing (some until) now = ltb now until

module _ {F : Type 0} ⦃fl : Float F⦄ where
  pub init_equity : F → ℕ → RiskState F → RiskState F
  init_equity equity now state = record state {
    equity = equity;
    day_start_equity = equity;
    current_day = some (date now);
  }

  unfoldable pub roll_day : ℕ → RiskState F → RiskState F
  roll_day now state = if is_day state.current_day (date now) then state else record state {
    current_day = some (date now);
    day_start_equity = state.equity;
    consecutive_losses = 0;
    paused = false;
  }

  -- the share of the day's first equity that is lost, zero where that is not positive
  abbrev pub drawdown : RiskState F → F
  drawdown state =
      if zero_float <? state.day_start_equity
      then fl.quotient (state.day_start_equity ⊖ state.equity) state.day_start_equity
      else zero_float

  abbrev pub drawdown_hit : RiskSettings F → RiskState F → Bool
  drawdown_hit settings state =
      (zero_float <? settings.daily_drawdown_limit)
      && (settings.daily_drawdown_limit ≤? drawdown state)

  abbrev pub drawdown_usdt_hit : RiskSettings F → RiskState F → Bool
  drawdown_usdt_hit settings state =
      (zero_float <? settings.daily_drawdown_limit_usdt)
      && (settings.daily_drawdown_limit_usdt ≤? (state.day_start_equity ⊖ state.equity))

  -- The drawdown guards, the last of `can_trade`.
  check_drawdown : RiskSettings F → RiskState F → Bool × RiskState F
  check_drawdown settings state =
      if drawdown_hit settings state
      then (false, record state { paused = true })
      else if drawdown_usdt_hit settings state
      then (false, record state { paused = true })
      else (true, state)

  -- `can_trade` from the cooldown on.
  check_streak : RiskSettings F → ℕ → RiskState F → Bool × RiskState F
  check_streak settings now state =
      if cooling state.last_trade_time now settings.cooldown_sec
      then (false, state)
      else if ltb 0 settings.max_consecutive_losses
          && leb settings.max_consecutive_losses state.consecutive_losses
      then (
        false,
        record state {
          loss_pause_until = some (now + settings.loss_pause_sec * second);
          consecutive_losses = 0;
        },
      )
      else check_drawdown settings state

  pub can_trade : RiskSettings F → ℕ → RiskState F → Bool × RiskState F
  can_trade settings now state0 =
      let state = roll_day now state0 in
      if state.paused
      then (false, state)
      else if pausing state.loss_pause_until now
      then (false, state)
      else check_streak settings now (record state { loss_pause_until = none })

  pub update_trade : F → ℕ → RiskState F → RiskState F
  update_trade pnl now state0 =
      let state = roll_day now state0 in
      record state {
        equity = state.equity ⊕ pnl;
        last_trade_time = some now;
        consecutive_losses = if pnl <? zero_float then state.consecutive_losses + 1 else 0;
      }

  -- `volatility_ok`, on the high, low and close of the frame's last row
  pub volatility_ok : RiskSettings F → Option (F × F × F) → Bool
  volatility_ok settings none = not settings.volatility_pause
  volatility_ok settings (some (high, low, close)) =
      if not settings.volatility_pause
      then true
      else if close ≤? zero_float
      then false
      else fl.quotient (high ⊖ low) close ≤? settings.volatility_threshold
