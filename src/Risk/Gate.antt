-- ===== src/Risk/Gate.antt =====
-- When `can_trade` lets a trade through, and how long a pause holds.
use trading_binance.Base.{
  ℕ, ◌+◌, ◌*◌, ◌≤◌, ◌<◌, ◌≡◌, refl, Bool, true, false, ◌&&◌, ◌↔◌, Option, none, some, arith, ltb,
  leb,
}
use trading_binance.Num.{Float, zero_float, ◌≺◌, ◌≼◌, ◌⊖◌}
use trading_binance.Risk.{
  RiskState, RiskSettings, second, cooling, pausing, roll_day, drawdown, drawdown_hit,
  drawdown_usdt_hit, check_drawdown, check_streak, can_trade,
}

pausing_lem :
    (o : Option ℕ) (now : ℕ) → ((until : ℕ) → o ≡ some until → until ≤ now) → pausing o now ≡ false
pausing_lem none now h = refl
pausing_lem (some until) now h = ground (arith, h until refl)

cooling_lem :
    (o : Option ℕ) (now seconds : ℕ)
    → ((last : ℕ) → o ≡ some last → last + seconds * second ≤ now)
    → cooling o now seconds ≡ false
cooling_lem none now seconds h = refl
cooling_lem (some last) now seconds h = ground (arith, h last refl)

hit_lem : (a b : Bool) → (a ≡ true → ¬ (b ≡ true)) → (a && b) ≡ false
hit_lem true true h = absurd (h refl refl)
hit_lem true false h = refl
hit_lem false b h = refl

streak_lem : (m c : ℕ) → (0 < m → c < m) → (ltb 0 m && leb m c) ≡ false
streak_lem m c h = ground arith

module _ {F : Type 0} ⦃fl : Float F⦄ where
  -- The conditions of a trade at `now`, on the state of that day.
  pub record IsAllowed (settings : RiskSettings F) (now : ℕ) (state : RiskState F) : Type 0 where
    pub running : state.paused ≡ false
    pub pause_over : (until : ℕ) → state.loss_pause_until ≡ some until → until ≤ now
    pub cooled :
        (last : ℕ) → state.last_trade_time ≡ some last → last + settings.cooldown_sec * second ≤ now
    pub streak_short :
        0 < settings.max_consecutive_losses
        → state.consecutive_losses < settings.max_consecutive_losses
    pub drawdown_small :
        zero_float ≺ settings.daily_drawdown_limit
        → ¬ (settings.daily_drawdown_limit ≼ drawdown state)
    pub drawdown_usdt_small :
        zero_float ≺ settings.daily_drawdown_limit_usdt
        → ¬ (settings.daily_drawdown_limit_usdt ≼ (state.day_start_equity ⊖ state.equity))

  -- The same conditions as the code tests them.
  record Passes (settings : RiskSettings F) (now : ℕ) (state : RiskState F) : Type 0 where
    running : state.paused ≡ false
    pause_over : pausing state.loss_pause_until now ≡ false
    cooled : cooling state.last_trade_time now settings.cooldown_sec ≡ false
    streak_short :
        (ltb 0 settings.max_consecutive_losses
          && leb settings.max_consecutive_losses state.consecutive_losses)
        ≡ false
    drawdown_small : drawdown_hit settings state ≡ false
    drawdown_usdt_small : drawdown_usdt_hit settings state ≡ false

  can_trade-Passes :
      (settings : RiskSettings F) (now : ℕ) (state : RiskState F)
      → ((can_trade settings now state).0 ≡ true) ↔ Passes settings now (roll_day now state)
  unfolding can_trade check_streak check_drawdown
  can_trade-Passes settings now state = ground arith

  Passes-IsAllowed :
      (settings : RiskSettings F) (now : ℕ) (state : RiskState F)
      → Passes settings now state
      → IsAllowed settings now state
  Passes-IsAllowed settings now state p = record {
    running = p.running;
    pause_over = λ until e. ground arith;
    cooled = λ last e. ground arith;
    streak_short = λ pos. ground arith;
    drawdown_small = λ pos le. ground arith;
    drawdown_usdt_small = λ pos le. ground arith;
  }

  IsAllowed-Passes :
      (settings : RiskSettings F) (now : ℕ) (state : RiskState F)
      → IsAllowed settings now state
      → Passes settings now state
  IsAllowed-Passes settings now state a = record {
    running = a.running;
    pause_over = pausing_lem _ now a.pause_over;
    cooled = cooling_lem _ now settings.cooldown_sec a.cooled;
    streak_short = streak_lem _ _ a.streak_short;
    drawdown_small = hit_lem _ _ a.drawdown_small;
    drawdown_usdt_small = hit_lem _ _ a.drawdown_usdt_small;
  }

  -- `can_trade` says yes exactly where, on the state rolled to the day of `now`, trading is not
  -- paused, no loss pause runs, the cooldown has passed, the loss streak is below its limit, and
  -- neither drawdown limit is reached; a limit that is zero or negative does not count.
  pub can_trade_iff :
      (settings : RiskSettings F) (now : ℕ) (state : RiskState F)
      → ((can_trade settings now state).0 ≡ true) ↔ IsAllowed settings now (roll_day now state)
  can_trade_iff settings now state =
      let tests = can_trade-Passes settings now state in
      (
        λ e. Passes-IsAllowed settings now _ (tests.0 e),
        λ a. tests.1 (IsAllowed-Passes settings now _ a),
      )
