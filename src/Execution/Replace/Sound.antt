-- ===== src/Execution/Replace/Sound.antt =====
-- What a safety check sends, and what its result says.
use trading_binance.Base.{
  ℕ, ◌+◌, ◌≡◌, refl, ◌∙◌, ap, Bool, true, false, Option, none, some, List, [], ◌∷◌, ◌++◌, String,
  ltb, ◌⊎◌, inl, inr, if◌then◌else◌,
}
use trading_binance.Py.{Call, answer, exception}
use trading_binance.Flow.{pure, ask, is_exchange_error}
use trading_binance.Flow.Laws.{
  no_command, Does, pure_does, ask_does, emit_does, send_does, choose_does, rescue_does,
  rescue_send_does, weaken_does,
}
use trading_binance.Strategy.Frame.{Side}
use trading_binance.Execution.Protection.{OrderRef, exit_side, ref_of, protection_status}
use trading_binance.Execution.Entries.{Rounder}
use trading_binance.Execution.Replace.{
  Request, take_profit_sent, stop_sent, cancel_all_sent, critical_told, SafetyAnswers, Checked,
  both, client_id, refs_of, place_tp_sl, replace_tp_sl, report, run_safety_check,
}

append_none : {A : Type 0} (xs : List A) → xs ++ [] ≡ xs
append_none [] = refl
append_none (x ∷ xs) = ap (λ ys. x ∷ ys) (append_none xs)

module _ {F : Type 0} (rounder : Rounder F) (answers : SafetyAnswers) (safe : Option String)
    (side : Side) (tp sl qty : F) where
  -- A take profit and a stop, for the other side and the whole quantity, at the rounded prices.
  abbrev pub IsPair : List (Request F) → Type 0
  IsPair es =
      (p : F) × (q : F) × (rounder.round_price tp ≡ answer p)
      × (rounder.round_price sl ≡ answer q)
      × (es
          ≡ take_profit_sent (exit_side side) qty p (client_id safe "-TP")
            ∷ stop_sent (exit_side side) qty q (client_id safe "-SL")
            ∷ [])

  -- Nothing, that take profit, or both.
  abbrev pub IsPart : List (Request F) → Type 0
  IsPart es =
      (es ≡ [])
      ⊎ ((p : F) × (rounder.round_price tp ≡ answer p)
          × (es ≡ take_profit_sent (exit_side side) qty p (client_id safe "-TP") ∷ []))
      ⊎ IsPair es

  abbrev Places : List (Request F) → Call (OrderRef × OrderRef) → Type 0
  Places es (answer refs) = IsPair es
  Places es (exception e) = IsPart es

  refs_of_does :
      (a b : Option OrderRef) (p q : F)
      → rounder.round_price tp ≡ answer p
      → rounder.round_price sl ≡ answer q
      → Does (refs_of rounder answers safe a b) (λ later r.
        Places
          (take_profit_sent (exit_side side) qty p (client_id safe "-TP")
            ∷ stop_sent (exit_side side) qty q (client_id safe "-SL")
            ∷ later)
          r)
  unfolding refs_of ask pure
  refs_of_does none b p q e f = record { holds = inr (inr (p, q, e, f, refl)) }
  refs_of_does (some a) none p q e f = record { holds = inr (inr (p, q, e, f, refl)) }
  refs_of_does (some a) (some b) p q e f = record { holds = (p, q, e, f, refl) }

  place_tp_sl_does : Does (place_tp_sl rounder answers safe side tp sl qty) Places
  unfolding place_tp_sl
  place_tp_sl_does =
      ask_does
        (λ p e.
          ask_does
            (λ q f.
              send_does _
                (λ o _.
                  send_does _ (λ o2 _. refs_of_does (ref_of o) (ref_of o2) p q e f)
                    (λ x _. inr (inr (p, q, e, f, refl))))
                (λ x _. inr (inl (p, e, refl))))
            (λ x f. inl refl))
        (λ x e. inl refl)

  abbrev pub Replaces : List (Request F) → Call (OrderRef × OrderRef) → Type 0
  Replaces es r = (orders : List (Request F)) × (es ≡ cancel_all_sent ∷ orders) × Places orders r

  pub replace_tp_sl_does : Does (replace_tp_sl rounder answers safe side tp sl qty) Replaces
  unfolding replace_tp_sl
  replace_tp_sl_does =
      rescue_send_does cancel_all_sent
        (λ a e. weaken_does place_tp_sl_does (λ es r h. (es, refl, h)))
        (λ x e c. weaken_does place_tp_sl_does (λ es r h. (es, refl, h)))
        (λ x e c. ([], refl, inl refl))

  module _ (starts : Option (String → Bool)) (told : Bool) (last_check check_time now : ℕ) where
    abbrev alarm : List (Request F)
    alarm = if told then critical_told sl ∷ [] else []

    -- Protected: a check that is not due or finds both orders sends nothing, and one that has
    -- replaced them finds both afterwards.
    abbrev IsProtected : List (Request F) → Type 0
    IsProtected es =
        ((es ≡ [])
          × ((ltb now (last_check + check_time) ≡ true)
              ⊎ (both (protection_status starts side false answers.open_before) ≡ true)))
        ⊎ ((orders : List (Request F)) × (es ≡ cancel_all_sent ∷ orders)
            × IsPair orders
            × (both (protection_status starts side false answers.open_after) ≡ true))

    -- Not protected: what was tried ends with the report.
    abbrev IsExposed : List (Request F) → Type 0
    IsExposed es =
        (orders : List (Request F)) × (es ≡ cancel_all_sent ∷ (orders ++ alarm)) × IsPart orders

    abbrev pub Reports : List (Request F) → Bool → Type 0
    Reports es true = IsProtected es
    Reports es false = IsExposed es

    abbrev pub Checks : List (Request F) → Call Checked → Type 0
    Checks es (answer c) = Reports es c.is_ok
    Checks es (exception e) =
        (is_exchange_error e ≡ false)
        × ((orders : List (Request F)) × (es ≡ cancel_all_sent ∷ orders) × IsPart orders)

    report_does :
        (ok : Bool) (later : ℕ) (refs : OrderRef × OrderRef) (es orders : List (Request F))
        → es ≡ cancel_all_sent ∷ orders
        → IsPart orders
        → (ok ≡ true
            → IsPair orders
              × (both (protection_status starts side false answers.open_after) ≡ true))
        → Does
            (report rounder answers safe starts told sl ok later refs)
            (λ more r. Checks (es ++ more) r)
    unfolding report
    report_does ok later (a, b) es orders e part pair =
        choose_does _ (λ c. pure_does _ (inr (orders, append_none es ∙ e, (pair c).0, (pair c).1)))
          (λ c.
            choose_does _
              (λ t.
                emit_does _ _
                  (pure_does _ (orders, rw t (ap (λ xs. xs ++ (critical_told sl ∷ [])) e), part)))
              (λ t. pure_does _ (orders, rw t (ap (λ xs. xs ++ []) e), part)))

    pub run_safety_check_does :
        (tp_ref sl_ref : OrderRef) (later : ℕ)
        → Does
            (run_safety_check rounder answers safe starts told side tp sl qty tp_ref sl_ref
              last_check check_time now later)
            Checks
    unfolding run_safety_check
    run_safety_check_does tp_ref sl_ref later =
        choose_does _ (λ c. pure_does _ (inl (refl, inl c)))
          (λ due.
            choose_does _ (λ c. pure_does _ (inl (refl, inr c)))
              (λ missing.
                rescue_does replace_tp_sl_does
                  (λ es refs h.
                    report_does _ later refs es h.0 h.1 (inr (inr h.2)) (λ ok. (h.2, ok)))
                  (λ es x h c.
                    report_does false later (tp_ref, sl_ref) es h.0 h.1 h.2 (λ ok. no_command ok))
                  (λ es x h c. (c, (h.0, append_none es ∙ h.1, h.2)))))

    -- Whatever the exchange answers, a safety check that reports protection has sent nothing,
    -- as it was not due or found both orders open, or has cancelled the orders of the symbol,
    -- sent a take profit and a stop for the other side, the whole quantity and the rounded
    -- prices, and then found both open. One that does not has cancelled and tried to send them,
    -- and tells the event handler last, where there is one. It raises only an exception that is
    -- not the exchange's, after it has cancelled.
    pub run_safety_check-Checks :
        (tp_ref sl_ref : OrderRef) (later : ℕ)
        → let check =
            run_safety_check rounder answers safe starts told side tp sl qty tp_ref sl_ref
              last_check check_time now later in
          Checks check.events check.outcome
    run_safety_check-Checks tp_ref sl_ref later = (run_safety_check_does tp_ref sl_ref later).holds
