-- ===== src/Risk/Tests.antt =====
-- Runs of the risk manager, and the theorems at concrete states.
use trading_binance.Base.{
  ℕ, ◌+◌, ◌*◌, ◌≡◌, refl, ◌↔◌, true, false, some, none, List, [], ◌∷◌, arith, map, foldl,
}
use trading_binance.Num.{lit, ◌⊕◌}
use trading_binance.Num.Fixed.{Fixed, minus, fixed_float}
use trading_binance.Risk.{
  RiskState, RiskSettings, second, day_length, roll_day, can_trade, check_streak, check_drawdown,
}
use trading_binance.Risk.Gate.{IsAllowed, can_trade_iff}
use trading_binance.Risk.History.{
  Call, ask, close, AllNo, run, paused_day_refuses, loss_pause_holds, close_all, close_all_lem,
  trailing_losses,
}

abbrev settings : RiskSettings Fixed
settings = record {
  cooldown_sec = 60;
  max_consecutive_losses = 2;
  daily_drawdown_limit = lit 2 1;
  daily_drawdown_limit_usdt = lit 0 0;
  loss_pause_sec = 3600;
  volatility_pause = false;
  volatility_threshold = lit 1 1;
}

-- Midnight of day 3.
abbrev midnight : ℕ
midnight = 3 * day_length

abbrev state : RiskState Fixed
state = record {
  consecutive_losses = 2;
  last_trade_time = some midnight;
  day_start_equity = lit 100 0;
  current_day = some 3;
  equity = lit 90 0;
  paused = false;
  loss_pause_until = none;
}

abbrev noon : ℕ
noon = midnight + 43_200 * second

-- Ten minutes before the next midnight.
abbrev evening : ℕ
evening = midnight + 85_800 * second

abbrev calm : RiskState Fixed
calm = record state { consecutive_losses = 1 }

abbrev trades : List (Fixed × ℕ)
trades = (lit 5 0, noon) ∷ (minus 0, noon + 1) ∷ (minus 4, noon + 2) ∷ []

calm_may_trade : (can_trade settings noon calm).0 ≡ true
unfolding can_trade check_streak check_drawdown roll_day
calm_may_trade = refl

can_trade_iff_example :
    ((can_trade settings noon state).0 ≡ true) ↔ IsAllowed settings noon (roll_day noon state)
can_trade_iff_example = can_trade_iff settings noon state

abbrev paused_state : RiskState Fixed
paused_state = record state { paused = true }

abbrev calls : List (Call Fixed)
calls = ask noon ∷ close (lit 50 0) (noon + 1) ∷ ask (noon + 2) ∷ []

-- A question, a win and a question of the next day, the last one within the pause.
abbrev late_calls : List (Call Fixed)
late_calls = ask (evening + 5) ∷ close (lit 9 0) (evening + 6) ∷ ask (evening + 1200 * second) ∷ []

loss_pause_holds_example :
    AllNo (run settings (ask evening ∷ late_calls) state).0
    × ((run settings (ask evening ∷ late_calls) state).1.loss_pause_until
        ≡ some (evening + 3600 * second))
unfolding roll_day
loss_pause_holds_example =
    loss_pause_holds settings evening late_calls state refl refl refl (omega arith) (omega arith)
      (omega arith, (omega arith, tt))

paused_day_refuses_example :
    AllNo (run settings calls paused_state).0 × ((run settings calls paused_state).1.paused ≡ true)
paused_day_refuses_example =
    paused_day_refuses settings 3 calls paused_state refl refl (refl, (refl, (refl, tt)))

close_all_lem_example :
    let final = close_all trades state in
    (final.consecutive_losses ≡ trailing_losses 2 (map (λ t. t.0) trades))
    × (final.equity ≡ foldl (λ sum pnl. sum ⊕ pnl) state.equity (map (λ t. t.0) trades))
    × (final.day_start_equity ≡ lit 100 0)
    × (final.paused ≡ false)
    × (final.loss_pause_until ≡ none)
close_all_lem_example = close_all_lem 3 trades state refl (refl, (refl, (refl, tt)))
