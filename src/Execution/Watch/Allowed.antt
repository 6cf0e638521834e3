-- ===== src/Execution/Watch/Allowed.antt =====
-- The orders that the monitor may send, and what its passes keep.
use trading_binance.Base.{
  ℕ, ◌≡◌, refl, sym, subst, Bool, true, false, Option, List, Bool-cases, [], ◌∷◌, ◌++◌, String, ◌⊎◌,
  inl, inr,
}
use trading_binance.Num.{Float}
use trading_binance.Py.{Call, answer, exception}
use trading_binance.Flow.{Flow}
use trading_binance.Flow.Laws.{Does, weaken_does}
use trading_binance.Execution.Protection.{OrderRef, exit_side}
use trading_binance.Execution.Fills.{take_profit_hit, stop_loss_hit, unknown_exit}
use trading_binance.Execution.Entries.{Rounder}
use trading_binance.Execution.Replace.{
  Request, take_profit_sent, stop_sent, close_sent, cancel_all_sent, critical_told, breakeven_told,
  SafetyAnswers, Checked,
}
use trading_binance.Execution.Replace.Sound.{IsPair, IsPart, Reports, Checks, Replaces}
use trading_binance.Execution.Watch.{
  Watch, WatchSettings, Ending, protected_by, held_too_long, reviewed_out, Next, returned, goes_on,
}

module _ {F : Type 0} ⦃fl : Float F⦄ (rounder : Rounder F) (safe : Option String)
    (starts : Option (String → Bool)) (settings : WatchSettings F) (first_sl : F) where
  -- The stop that the monitor was given, or the entry.
  abbrev pub IsStop : F → Type 0
  IsStop x = (x ≡ first_sl) ⊎ (x ≡ settings.entry_price)

  -- A request of the monitor: every order is for the other side and the whole quantity.
  abbrev pub IsAllowed : Request F → Type 0
  IsAllowed (take_profit_sent side qty price id) =
      (side ≡ exit_side settings.side)
      × (qty ≡ settings.qty)
      × (rounder.round_price settings.tp_price ≡ answer price)
  IsAllowed (stop_sent side qty price id) =
      (side ≡ exit_side settings.side)
      × (qty ≡ settings.qty)
      × ((x : F) × IsStop x × (rounder.round_price x ≡ answer price))
  IsAllowed (close_sent side qty) =
      (side ≡ exit_side settings.side) × (rounder.round_qty settings.qty ≡ answer qty)
  IsAllowed cancel_all_sent = Unit
  IsAllowed (critical_told x) = IsStop x
  IsAllowed (breakeven_told x) = x ≡ settings.entry_price

  abbrev pub AllAllowed : List (Request F) → Type 0
  AllAllowed [] = Unit
  AllAllowed (e ∷ es) = IsAllowed e × AllAllowed es

  pub append-AllAllowed :
      (es later : List (Request F)) → AllAllowed es → AllAllowed later → AllAllowed (es ++ later)
  append-AllAllowed [] later h k = k
  append-AllAllowed (e ∷ es) later (h, hs) k = (h, append-AllAllowed es later hs k)

  -- The price of a take profit is the target, that of a stop loss a stop of the monitor.
  abbrev pub IsPriced : Ending F → Type 0
  IsPriced (protected_by take_profit_hit x) = x ≡ settings.tp_price
  IsPriced (protected_by stop_loss_hit x) = IsStop x
  IsPriced (protected_by unknown_exit x) = IsStop x
  IsPriced (held_too_long x) = Unit
  IsPriced (reviewed_out reason x) = Unit

  -- A stop that was moved is at the entry, and one that was not is the first one.
  abbrev pub IsWatched : Watch F → Type 0
  IsWatched w =
      (w.break_even ≡ false → w.current_sl ≡ first_sl)
      × (w.break_even ≡ true → w.current_sl ≡ settings.entry_price)

  abbrev pub Leads : Call (Next F) → Type 0
  Leads (answer (returned ending)) = IsPriced ending
  Leads (answer (goes_on w)) = IsWatched w
  Leads (exception e) = Unit

  abbrev pub Watches : List (Request F) → Call (Next F) → Type 0
  Watches es r = AllAllowed es × Leads r

  pub watched-IsStop : (w : Watch F) → IsWatched w → IsStop w.current_sl
  watched-IsStop w (before, after) = elim (Bool-cases w.break_even) [
    | inl moved ↦ inr (after moved)
    | inr kept ↦ inl (before kept)
  ]

  module _ (answers : SafetyAnswers) (sl : F) (stop : IsStop sl) where
    pair-AllAllowed :
        (es : List (Request F))
        → IsPair rounder answers safe settings.side settings.tp_price sl settings.qty es
        → AllAllowed es
    pair-AllAllowed es (p, q, e, f, at) =
        subst AllAllowed (sym at) ((refl, refl, e), ((refl, refl, (sl, stop, f)), tt))

    part-AllAllowed :
        (es : List (Request F))
        → IsPart rounder answers safe settings.side settings.tp_price sl settings.qty es
        → AllAllowed es
    part-AllAllowed es (inl at) = subst AllAllowed (sym at) tt
    part-AllAllowed es (inr (inl (p, e, at))) = subst AllAllowed (sym at) ((refl, refl, e), tt)
    part-AllAllowed es (inr (inr pair)) = pair-AllAllowed es pair

    Reports-AllAllowed :
        (last_check check_time now : ℕ) (es : List (Request F)) (ok : Bool)
        → Reports rounder answers safe settings.side settings.tp_price sl settings.qty starts true
            last_check check_time now es ok
        → AllAllowed es
    Reports-AllAllowed last_check check_time now es true (inl (at, why)) =
        subst AllAllowed (sym at) tt
    Reports-AllAllowed last_check check_time now es true (inr (orders, at, pair, found)) =
        subst AllAllowed (sym at) (tt, pair-AllAllowed orders pair)
    Reports-AllAllowed last_check check_time now es false (orders, at, part) =
        subst AllAllowed (sym at)
          (tt, append-AllAllowed orders _ (part-AllAllowed orders part) (stop, tt))

    pub Checks-AllAllowed :
        (last_check check_time now : ℕ) (es : List (Request F)) (r : Call Checked)
        → Checks rounder answers safe settings.side settings.tp_price sl settings.qty starts true
            last_check check_time now es r
        → AllAllowed es
    Checks-AllAllowed last_check check_time now es (answer c) h =
        Reports-AllAllowed last_check check_time now es c.is_ok h
    Checks-AllAllowed last_check check_time now es (exception e) (c, (orders, at, part)) =
        subst AllAllowed (sym at) (tt, part-AllAllowed orders part)

    pub Replaces-AllAllowed :
        (es : List (Request F)) (r : Call (OrderRef × OrderRef))
        → Replaces rounder answers safe settings.side settings.tp_price sl settings.qty es r
        → AllAllowed es
    Replaces-AllAllowed es (answer refs) (orders, at, pair) =
        subst AllAllowed (sym at) (tt, pair-AllAllowed orders pair)
    Replaces-AllAllowed es (exception e) (orders, at, part) =
        subst AllAllowed (sym at) (tt, part-AllAllowed orders part)

  -- What follows calls that are allowed.
  pub after_allowed :
      (es : List (Request F)) {m : Flow (Request F) (Next F)}
      → AllAllowed es
      → Does m Watches
      → Does m (λ later r. Watches (es ++ later) r)
  after_allowed es h d = weaken_does d (λ later r k. (append-AllAllowed es later h k.0, k.1))
