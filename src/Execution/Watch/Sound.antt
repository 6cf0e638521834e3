-- ===== src/Execution/Watch/Sound.antt =====
-- What the monitor sends and returns.
use trading_binance.Base.{
  ◌≡◌, refl, sym, ◌∙◌, Bool, true, false, Option, none, some, List, [], ◌∷◌, String, inr,
}
use trading_binance.Num.{Float}
use trading_binance.Py.{Call, answer, exception}
use trading_binance.Flow.{Flow, ask, send}
use trading_binance.Flow.Laws.{
  Does, bind_does, pure_does, ask_does, emit_does, send_does, choose_does, rescue_does, no_command,
}
use trading_binance.Execution.Protection.{OpenOrder}
use trading_binance.Execution.Fills.{
  Leg, Exit, take_profit_hit, stop_loss_hit, unknown_exit, exit_of,
}
use trading_binance.Execution.Entries.{Rounder}
use trading_binance.Execution.Replace.{Request}
use trading_binance.Execution.Replace.Sound.{replace_tp_sl_does, run_safety_check_does}
use trading_binance.Execution.Watch.{
  Watch, Pass, WatchSettings, Ending, Next, returned, goes_on, close_position_market, hold_exit,
  move_stop, breakeven_at, breakeven, review_exit, reviewed, review_pass, safety_pass, cancel_then,
  exit_pass, filled_pass, watch_pass, follow, monitor_oco,
}
use trading_binance.Execution.Watch.Allowed.{
  IsPriced, IsWatched, AllAllowed, append-AllAllowed, Leads, Watches, watched-IsStop,
  Checks-AllAllowed, Replaces-AllAllowed, after_allowed,
}

module _ {F : Type 0} ⦃fl : Float F⦄ (rounder : Rounder F) (safe : Option String)
    (starts : Option (String → Bool)) (settings : WatchSettings F) (first_sl : F) where
  close_does :
      (closed : Call OpenOrder)
      → Does
          (close_position_market rounder safe starts settings closed)
          (λ es r. AllAllowed rounder safe starts settings first_sl es)
  unfolding close_position_market send
  close_does closed = ask_does (λ q e. record { holds = ((refl, e), tt) }) (λ x e. tt)

  hold_exit_does :
      (pass : Pass F) (w : Watch F)
      → IsWatched rounder safe starts settings first_sl w
      → Does
          (hold_exit rounder safe starts settings pass w)
          (Watches rounder safe starts settings first_sl)
  unfolding hold_exit
  hold_exit_does pass w ok =
      choose_does _
        (λ c.
          rescue_does (close_does pass.closed)
            (λ es a h.
              pure_does _ (append-AllAllowed rounder safe starts settings first_sl es [] h tt, tt))
            (λ es e h c.
              pure_does _ (append-AllAllowed rounder safe starts settings first_sl es [] h tt, ok))
            (λ es e h c. (append-AllAllowed rounder safe starts settings first_sl es [] h tt, tt)))
        (λ c. pure_does _ (tt, tt))

  move_stop_does :
      (pass : Pass F) (w : Watch F)
      → Does
          (move_stop rounder safe starts settings pass w)
          (Watches rounder safe starts settings first_sl)
  unfolding move_stop
  move_stop_does pass w =
      bind_does
        (replace_tp_sl_does rounder pass.moved safe settings.side settings.tp_price
          settings.entry_price settings.qty)
        (λ es refs h. emit_does _ _ (
          pure_does _ (
            append-AllAllowed rounder safe starts settings first_sl es _
                (Replaces-AllAllowed rounder safe starts settings first_sl pass.moved
                  settings.entry_price (inr refl) es (answer refs) h)
                (refl, tt),
            (λ no. no_command (sym no), λ yes. refl),
          )))
        (λ es x h. (
          Replaces-AllAllowed rounder safe starts settings first_sl pass.moved settings.entry_price
              (inr refl) es (exception x) h,
          tt,
        ))

  breakeven_at_does :
      (pass : Pass F) (w : Watch F) (price : Call F)
      → IsWatched rounder safe starts settings first_sl w
      → Does
          (breakeven_at rounder safe starts settings pass w price)
          (Watches rounder safe starts settings first_sl)
  unfolding breakeven_at
  breakeven_at_does pass w (exception e) ok = pure_does _ (tt, ok)
  breakeven_at_does pass w (answer price) ok =
      choose_does _ (λ c. move_stop_does pass w) (λ c. pure_does _ (tt, ok))

  breakeven_does :
      (pass : Pass F) (w : Watch F)
      → IsWatched rounder safe starts settings first_sl w
      → Does
          (breakeven rounder safe starts settings pass w)
          (Watches rounder safe starts settings first_sl)
  unfolding breakeven
  breakeven_does pass w ok =
      choose_does _ (λ c. breakeven_at_does pass w pass.price ok) (λ c. pure_does _ (tt, ok))

  review_exit_does :
      (pass : Pass F) (reason : String)
      → Does
          (review_exit rounder safe starts settings pass reason)
          (Watches rounder safe starts settings first_sl)
  unfolding review_exit
  review_exit_does pass reason = ask_does (λ p e. pure_does _ (tt, tt)) (λ x e. (tt, tt))

  reviewed_does :
      (pass : Pass F) (w : Watch F) (review : Option (Bool × String))
      → IsWatched rounder safe starts settings first_sl w
      → Does
          (reviewed rounder safe starts settings pass w review)
          (Watches rounder safe starts settings first_sl)
  unfolding reviewed
  reviewed_does pass w none ok = breakeven_does pass w ok
  reviewed_does pass w (some (should_exit, reason)) ok =
      choose_does _
        (λ c.
          rescue_does (close_does pass.closed)
            (λ es a h.
              after_allowed rounder safe starts settings first_sl es h
                (review_exit_does pass reason))
            (λ es e h c.
              pure_does _ (append-AllAllowed rounder safe starts settings first_sl es [] h tt, ok))
            (λ es e h c. (append-AllAllowed rounder safe starts settings first_sl es [] h tt, tt)))
        (λ c. breakeven_does pass w ok)

  review_pass_does :
      (pass : Pass F) (w : Watch F)
      → IsWatched rounder safe starts settings first_sl w
      → Does
          (review_pass rounder safe starts settings pass w)
          (Watches rounder safe starts settings first_sl)
  unfolding review_pass
  review_pass_does pass w ok =
      choose_does _
        (λ c.
          choose_does _ (λ d. breakeven_does pass _ ok) (λ d. reviewed_does pass _ pass.review ok))
        (λ c. breakeven_does pass w ok)

  safety_pass_does :
      (pass : Pass F) (w : Watch F)
      → IsWatched rounder safe starts settings first_sl w
      → Does
          (safety_pass rounder safe starts settings pass w)
          (Watches rounder safe starts settings first_sl)
  unfolding safety_pass
  safety_pass_does pass w ok =
      choose_does _
        (λ c.
          bind_does
            (run_safety_check_does rounder pass.safety safe settings.side settings.tp_price
              w.current_sl settings.qty starts true w.last_safety_check settings.safety_check
              pass.check_time w.tp_ref w.sl_ref pass.checked_time)
            (λ es c h.
              after_allowed rounder safe starts settings first_sl es
                (Checks-AllAllowed rounder safe starts settings first_sl pass.safety w.current_sl
                  (watched-IsStop rounder safe starts settings first_sl w ok) w.last_safety_check
                  settings.safety_check pass.check_time es (answer c) h)
                (review_pass_does pass _ ok))
            (λ es x h. (
              Checks-AllAllowed rounder safe starts settings first_sl pass.safety w.current_sl
                  (watched-IsStop rounder safe starts settings first_sl w ok) w.last_safety_check
                  settings.safety_check pass.check_time es (exception x) h,
              tt,
            )))
        (λ c. review_pass_does pass w ok)

  cancel_then_does :
      (pass : Pass F) (ending : Ending F)
      → IsPriced rounder safe starts settings first_sl ending
      → Does
          (cancel_then rounder safe starts settings pass ending)
          (Watches rounder safe starts settings first_sl)
  unfolding cancel_then
  cancel_then_does pass ending priced =
      send_does _ (λ a e. pure_does _ ((tt, tt), priced)) (λ x e. ((tt, tt), tt))

  exit_pass_does :
      (pass : Pass F) (w : Watch F) (found : Option Exit)
      → IsWatched rounder safe starts settings first_sl w
      → Does
          (exit_pass rounder safe starts settings pass w found)
          (Watches rounder safe starts settings first_sl)
  unfolding exit_pass
  exit_pass_does pass w none ok = safety_pass_does pass w ok
  exit_pass_does pass w (some take_profit_hit) ok = cancel_then_does pass _ refl
  exit_pass_does pass w (some stop_loss_hit) ok =
      cancel_then_does pass _ (watched-IsStop rounder safe starts settings first_sl w ok)
  exit_pass_does pass w (some unknown_exit) ok =
      pure_does _ (tt, watched-IsStop rounder safe starts settings first_sl w ok)

  filled_pass_does :
      (pass : Pass F) (w : Watch F) (legs : Option (Leg × Leg))
      → IsWatched rounder safe starts settings first_sl w
      → Does
          (filled_pass rounder safe starts settings pass w legs)
          (Watches rounder safe starts settings first_sl)
  unfolding filled_pass ask
  filled_pass_does pass w none ok = record { holds = (tt, tt) }
  filled_pass_does pass w (some (tp, sl)) ok = exit_pass_does pass w (exit_of tp sl) ok

  watch_pass_does :
      (pass : Pass F) (w : Watch F)
      → IsWatched rounder safe starts settings first_sl w
      → Does
          (watch_pass rounder safe starts settings pass w)
          (Watches rounder safe starts settings first_sl)
  unfolding watch_pass
  watch_pass_does pass w ok =
      choose_does _ (λ c. hold_exit_does pass w ok) (λ c. filled_pass_does pass w _ ok)

  follow_does :
      (rest : Watch F → Flow (Request F) (Next F)) (next : Next F)
      → Leads rounder safe starts settings first_sl (answer next)
      → ((w : Watch F)
          → IsWatched rounder safe starts settings first_sl w
          → Does (rest w) (Watches rounder safe starts settings first_sl))
      → Does
          (follow rounder safe starts settings rest next)
          (Watches rounder safe starts settings first_sl)
  unfolding follow
  follow_does rest (returned ending) ok next = pure_does _ (tt, ok)
  follow_does rest (goes_on w) ok next = next w ok

  monitor_oco_does :
      (passes : List (Pass F)) (w : Watch F)
      → IsWatched rounder safe starts settings first_sl w
      → Does
          (monitor_oco rounder safe starts settings passes w)
          (Watches rounder safe starts settings first_sl)
  unfolding monitor_oco
  monitor_oco_does [] w ok = pure_does _ (tt, ok)
  monitor_oco_does (pass ∷ passes) w ok =
      bind_does (watch_pass_does pass w ok)
        (λ es next h.
          after_allowed rounder safe starts settings first_sl es h.0
            (follow_does _ next h.1 (λ v. monitor_oco_does passes v)))
        (λ es x h. h)

  -- From a first stop that was not moved, however many passes the monitor has run and whatever it
  -- was answered: each order that it sent is for the other side, and it is a take profit or a stop
  -- for the whole quantity, at the rounded target or the rounded first stop or entry, or a market
  -- order for the rounded quantity. Its events tell of such a stop or of the entry. It reports a
  -- take profit at the target, and a stop loss or an unknown exit at the first stop or the entry;
  -- while it goes on, its stop is the entry once it was moved, and the first stop until then.
  pub monitor_oco-Watches :
      (passes : List (Pass F)) (w : Watch F)
      → w.current_sl ≡ first_sl
      → w.break_even ≡ false
      → let run = monitor_oco rounder safe starts settings passes w in
        AllAllowed rounder safe starts settings first_sl run.events
        × Leads rounder safe starts settings first_sl run.outcome
  monitor_oco-Watches passes w first kept =
      (monitor_oco_does passes w ((λ no. first), λ yes. no_command (sym kept ∙ yes))).holds
