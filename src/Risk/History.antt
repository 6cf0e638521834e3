-- ===== src/Risk/History.antt =====
-- What `RiskManager` remembers over a history of calls within one day, or within a pause.
use trading_binance.Base.{
  ℕ, ◌+◌, ◌*◌, ◌<◌, ◌≤◌, ◌≡◌, refl, Bool, true, false, some, List, [], ◌∷◌, foldl, arith,
  if◌then◌else◌, map,
}
use trading_binance.Num.{Float, zero_float, ◌<?◌, ◌⊕◌}
use trading_binance.Risk.{
  second, pausing, cooling, check_streak, RiskState, RiskSettings, date, roll_day, can_trade,
  update_trade,
}

-- A call of the manager: a question, or a closed trade with its result.
pub data Call (F : Type 0) : Type 0 where
  ask : ℕ → Call F
  close : F → ℕ → Call F

abbrev pub time : {F : Type 0} → Call F → ℕ
time (ask now) = now
time (close pnl now) = now

-- Every call falls on the day `d`.
abbrev pub AllOn : {F : Type 0} → ℕ → List (Call F) → Type 0
AllOn d [] = Unit
AllOn d (c ∷ cs) = (date (time c) ≡ d) × AllOn d cs

-- No answer is yes.
abbrev pub AllNo : List Bool → Type 0
AllNo [] = Unit
AllNo (b ∷ bs) = (b ≡ false) × AllNo bs

-- Every question is asked before the time; trades close at any.
abbrev pub AllAskedBefore : {F : Type 0} → ℕ → List (Call F) → Type 0
AllAskedBefore until [] = Unit
AllAskedBefore until (ask now ∷ calls) = (now < until) × AllAskedBefore until calls
AllAskedBefore until (close pnl now ∷ calls) = AllAskedBefore until calls

module _ {F : Type 0} ⦃fl : Float F⦄ where
  -- The state after the calls, in order, and the answers to the questions.
  pub run : RiskSettings F → List (Call F) → RiskState F → List Bool × RiskState F
  run settings [] state = ([], state)
  run settings (ask now ∷ calls) state =
      let (answer, state') = can_trade settings now state in
      let (answers, final) = run settings calls state' in (answer ∷ answers, final)
  run settings (close pnl now ∷ calls) state = run settings calls (update_trade pnl now state)

  same_day :
      (now : ℕ) (state : RiskState F)
      → state.current_day ≡ some (date now)
      → roll_day now state ≡ state
  unfolding roll_day
  same_day now state e = ground arith

  update_same_day :
      (pnl : F) (now : ℕ) (state : RiskState F)
      → state.current_day ≡ some (date now)
      → update_trade pnl now state ≡ record state {
        equity = state.equity ⊕ pnl;
        last_trade_time = some now;
        consecutive_losses = if pnl <? zero_float then state.consecutive_losses + 1 else 0;
      }
  unfolding update_trade
  update_same_day pnl now state e = rw (same_day now state e)

  abbrev PausedOn : ℕ → RiskState F → Type 0
  PausedOn d state = (state.paused ≡ true) × (state.current_day ≡ some d)

  ask_paused :
      (settings : RiskSettings F) (now d : ℕ) (state : RiskState F)
      → PausedOn d state
      → date now ≡ d
      → can_trade settings now state ≡ (false, state)
  unfolding can_trade
  ask_paused settings now d state (p, day) e = rw (same_day now state (rw e day)) (rw p)

  close_paused :
      (pnl : F) (now d : ℕ) (state : RiskState F)
      → PausedOn d state
      → date now ≡ d
      → PausedOn d (update_trade pnl now state)
  unfolding update_trade
  close_paused pnl now d state (p, day) e = rw (same_day now state (rw e day)) (p, day)

  -- Once a drawdown has paused the manager, the rest of that day every question is answered with
  -- no, whatever trades close in between, and the manager is still paused at the end.
  pub paused_day_refuses :
      (settings : RiskSettings F) (d : ℕ) (calls : List (Call F)) (state : RiskState F)
      → state.paused ≡ true
      → state.current_day ≡ some d
      → AllOn d calls
      → AllNo (run settings calls state).0 × ((run settings calls state).1.paused ≡ true)
  unfolding run
  paused_day_refuses settings d [] state p day on = (tt, p)
  paused_day_refuses settings d (ask now ∷ calls) state p day on =
      rw (ask_paused settings now d state (p, day) on.0) (
        let rest = paused_day_refuses settings d calls state p day on.1 in ((refl, rest.0), rest.1))
  paused_day_refuses settings d (close pnl now ∷ calls) state p day on =
      let kept = close_paused pnl now d state (p, day) on.0 in
      paused_day_refuses settings d calls (update_trade pnl now state) kept.0 kept.1 on.1

  abbrev IsPausedUntil : ℕ → RiskState F → Type 0
  IsPausedUntil until state = state.loss_pause_until ≡ some until

  roll_day-IsPausedUntil :
      (now until : ℕ) (state : RiskState F)
      → IsPausedUntil until state
      → IsPausedUntil until (roll_day now state)
  unfolding roll_day
  roll_day-IsPausedUntil now until state e = ground arith

  ask_in_pause :
      (settings : RiskSettings F) (now until : ℕ) (state : RiskState F)
      → IsPausedUntil until state
      → now < until
      → ((can_trade settings now state).0 ≡ false)
        × IsPausedUntil until (can_trade settings now state).1
  unfolding can_trade
  ask_in_pause settings now until state e before =
      let rolled = roll_day-IsPausedUntil now until state e in (ground arith, ground arith)

  close_in_pause :
      (pnl : F) (now until : ℕ) (state : RiskState F)
      → IsPausedUntil until state
      → IsPausedUntil until (update_trade pnl now state)
  unfolding update_trade
  close_in_pause pnl now until state e = roll_day-IsPausedUntil now until state e

  pause_refuses :
      (settings : RiskSettings F) (until : ℕ) (calls : List (Call F)) (state : RiskState F)
      → IsPausedUntil until state
      → AllAskedBefore until calls
      → AllNo (run settings calls state).0 × IsPausedUntil until (run settings calls state).1
  unfolding run
  pause_refuses settings until [] state e on = (tt, e)
  pause_refuses settings until (ask now ∷ calls) state e on =
      let asked = ask_in_pause settings now until state e on.0 in
      let rest = pause_refuses settings until calls (can_trade settings now state).1 asked.1 on.1 in
      ((asked.0, rest.0), rest.1)
  pause_refuses settings until (close pnl now ∷ calls) state e on =
      pause_refuses settings until calls (update_trade pnl now state)
        (close_in_pause pnl now until state e) on

  streak_trips :
      (settings : RiskSettings F) (now : ℕ) (state : RiskState F)
      → (roll_day now state).paused ≡ false
      → pausing (roll_day now state).loss_pause_until now ≡ false
      → cooling (roll_day now state).last_trade_time now settings.cooldown_sec ≡ false
      → 0 < settings.max_consecutive_losses
      → settings.max_consecutive_losses ≤ (roll_day now state).consecutive_losses
      → ((can_trade settings now state).0 ≡ false)
        × IsPausedUntil (now + settings.loss_pause_sec * second) (can_trade settings now state).1
  unfolding can_trade check_streak
  streak_trips settings now state run over cool pos streak = (ground arith, ground arith)

  -- When the loss streak has reached its limit and nothing refuses before it, `can_trade` says no
  -- and refuses every later question that is asked before the pause has passed, also one across
  -- midnight, whatever trades close and whatever questions are asked in between; the end of the
  -- pause stays as it was set.
  pub loss_pause_holds :
      (settings : RiskSettings F) (now : ℕ) (calls : List (Call F)) (state : RiskState F)
      → (roll_day now state).paused ≡ false
      → pausing (roll_day now state).loss_pause_until now ≡ false
      → cooling (roll_day now state).last_trade_time now settings.cooldown_sec ≡ false
      → 0 < settings.max_consecutive_losses
      → settings.max_consecutive_losses ≤ (roll_day now state).consecutive_losses
      → AllAskedBefore (now + settings.loss_pause_sec * second) calls
      → AllNo (run settings (ask now ∷ calls) state).0
        × ((run settings (ask now ∷ calls) state).1.loss_pause_until
            ≡ some (now + settings.loss_pause_sec * second))
  unfolding run
  loss_pause_holds settings now calls state running over cool pos streak before =
      let trip = streak_trips settings now state running over cool pos streak in
      let rest = pause_refuses settings _ calls (can_trade settings now state).1 trip.1 before in
      ((trip.0, rest.0), rest.1)

  -- the trades alone
  pub close_all : List (F × ℕ) → RiskState F → RiskState F
  close_all [] state = state
  close_all ((pnl, now) ∷ trades) state = close_all trades (update_trade pnl now state)

  -- The number of losses since the last trade that was no loss, after `before` of them.
  abbrev pub trailing_losses : ℕ → List F → ℕ
  trailing_losses before [] = before
  trailing_losses before (pnl ∷ pnls) =
      trailing_losses (if pnl <? zero_float then before + 1 else 0) pnls

  abbrev pub AllAt : ℕ → List (F × ℕ) → Type 0
  AllAt d [] = Unit
  AllAt d (t ∷ ts) = (date t.1 ≡ d) × AllAt d ts

  -- After the trades of a day the manager holds the length of the losing streak at their end and
  -- the equity that they add up to in order; the day's first equity, its pause and any loss pause
  -- are as before.
  pub close_all_lem :
      (d : ℕ) (trades : List (F × ℕ)) (state : RiskState F)
      → state.current_day ≡ some d
      → AllAt d trades
      → let final = close_all trades state in
        (final.consecutive_losses
          ≡ trailing_losses state.consecutive_losses (map (λ t. t.0) trades))
        × (final.equity ≡ foldl (λ sum pnl. sum ⊕ pnl) state.equity (map (λ t. t.0) trades))
        × (final.day_start_equity ≡ state.day_start_equity)
        × (final.paused ≡ state.paused)
        × (final.loss_pause_until ≡ state.loss_pause_until)
  unfolding close_all
  close_all_lem d [] state day on = (refl, refl, refl, refl, refl)
  close_all_lem d ((pnl, now) ∷ trades) state day on =
      let after = record state {
        equity = state.equity ⊕ pnl;
        last_trade_time = some now;
        consecutive_losses = if pnl <? zero_float then state.consecutive_losses + 1 else 0;
      } in
      rw (update_same_day pnl now state (rw on.0 day), close_all)
        (close_all_lem d trades after day on.1)
