-- ===== src/Entry/Books/Parts.antt =====
-- What the parts of an entry book: the plan, the submission and the final levels.
use trading_binance.Base.{◌≡◌, refl, String, Option, none, some, List, [], ◌∷◌}
use trading_binance.Num.{Float}
use trading_binance.Indicators.{Pandas}
use trading_binance.Py.{Call, answer, exception}
use trading_binance.Flow.Laws.{
  Does, pure_does, ask_does, emit_does, choose_does, rescue_does, rescue_ask_does, rescue_send_does,
}
use trading_binance.Entry.{record_error, mark_entry_failed, give_up}
use trading_binance.Entry.Plan.{
  EntrySettings, Candidate, Market, TradePlan, round_plan, size_plan, margin_plan, fund_plan,
  balance_plan, build_trade_plan, plan_of,
}
use trading_binance.Entry.Submit.{
  FillResult, Venue, is_position_gate_blocked, place_order, attempt_entry, submit_entry,
}
use trading_binance.Entry.Finalize.{LaunchContext, book_entry, finalize_entry}
use trading_binance.Entry.Books.{
  Booking, success_of, failure_of, booking, event_bookings, bookings, bookings-quiet, Quiet,
  Quiet-bind, within-Quiet, finally-Quiet,
}

module _ {F : Type 0} ⦃fl : Float F⦄ (pd : Pandas F) (settings : EntrySettings F) where
  module _ (candidate : Candidate F) (market : Market F) where
    -- A plan is for the symbol of its candidate.
    abbrev pub Plans : List Booking → Call (Option (TradePlan F)) → Type 0
    Plans bs (answer none) = bs ≡ failure_of candidate.symbol ∷ []
    Plans bs (answer (some plan)) = (bs ≡ []) × (plan.symbol ≡ candidate.symbol)
    Plans bs (exception e) = bs ≡ []

    give_up-Plans :
        (stage reason : String)
        → Does (give_up {F = F} candidate.symbol stage reason) (λ es r. Plans (bookings es) r)
    unfolding give_up mark_entry_failed bookings event_bookings booking
    give_up-Plans stage reason = emit_does _ _ (pure_does _ refl)

    round_plan_books :
        (atr balance min_qty min_notional margin qty : F)
        → Does
            (round_plan pd settings candidate market atr balance min_qty min_notional margin qty)
            (λ es r. Plans (bookings es) r)
    unfolding round_plan plan_of bookings
    round_plan_books atr balance min_qty min_notional margin qty =
        ask_does (λ q f. pure_does _ (refl, refl)) (λ x f. refl)

    size_plan_books :
        (atr balance min_qty min_notional margin : F)
        → Does
            (size_plan pd settings candidate market atr balance min_qty min_notional margin)
            (λ es r. Plans (bookings es) r)
    unfolding size_plan bookings
    size_plan_books atr balance min_qty min_notional margin =
        choose_does _ (λ c. give_up-Plans _ _)
          (λ c.
            ask_does
              (λ qty e.
                choose_does _ (λ c. give_up-Plans _ _)
                  (λ c. round_plan_books atr balance min_qty min_notional margin qty))
              (λ x e. refl))

    margin_plan_books :
        (atr balance min_qty min_notional : F)
        → Does
            (margin_plan pd settings candidate market atr balance min_qty min_notional)
            (λ es r. Plans (bookings es) r)
    unfolding margin_plan bookings
    margin_plan_books atr balance min_qty min_notional =
        ask_does (λ m g. size_plan_books atr balance min_qty min_notional m) (λ x g. refl)

    fund_plan_books :
        (atr balance : F)
        → Does (fund_plan pd settings candidate market atr balance) (λ es r. Plans (bookings es) r)
    unfolding fund_plan bookings
    fund_plan_books atr balance =
        ask_does
          (λ q e.
            ask_does
              (λ n f.
                choose_does _ (λ c. give_up-Plans _ _) (λ c. margin_plan_books atr balance q n))
              (λ x f. refl))
          (λ x e. refl)

    pub build_trade_plan_books :
        Does (build_trade_plan pd settings candidate market) (λ es r. Plans (bookings es) r)
    unfolding build_trade_plan balance_plan bookings record_error event_bookings booking
    build_trade_plan_books =
        ask_does
          (λ atr e.
            choose_does _ (λ c. give_up-Plans _ _)
              (λ c.
                rescue_ask_does (λ a e. fund_plan_books _ a)
                  (λ x e f. emit_does _ _ (give_up-Plans _ _)) (λ x e f. refl)))
          (λ x e. refl)

  module _ (venue : Venue F) (plan : TradePlan F) where
    gate-Quiet : Does (is_position_gate_blocked pd settings venue plan.symbol) Quiet
    unfolding is_position_gate_blocked bookings event_bookings booking record_error
    gate-Quiet =
        rescue_ask_does (λ ps e. pure_does _ refl) (λ x e f. emit_does _ _ (pure_does _ refl))
          (λ x e f. refl)

    place_order-Quiet : Does (place_order pd settings venue plan) Quiet
    unfolding place_order bookings event_bookings booking record_error
    place_order-Quiet = emit_does _ _ (
        rescue_does (within-Quiet _) (λ es a q. pure_does _ (bookings-quiet es [] q))
          (λ es x q c. emit_does _ _ (pure_does _ (bookings-quiet es _ q)))
          (λ es x q c. bookings-quiet es [] q))

    attempt_entry-Quiet : Does (attempt_entry pd settings venue plan) Quiet
    unfolding attempt_entry bookings event_bookings booking record_error
    attempt_entry-Quiet = Quiet-bind gate-Quiet (λ blocked.
        choose_does blocked (λ c. pure_does _ refl)
          (λ c.
            rescue_send_does _ (λ a e. place_order-Quiet) (λ x e f. emit_does _ _ place_order-Quiet)
              (λ x e f. refl)))

    pub submit_entry-Quiet : Does (submit_entry pd settings venue plan) Quiet
    unfolding submit_entry bookings event_bookings booking
    submit_entry-Quiet =
        choose_does _ (λ c. pure_does _ refl)
          (λ c.
            emit_does _ _
              (Quiet-bind (finally-Quiet _ attempt_entry-Quiet) (λ a. pure_does _ refl)))

  module _ (market : Market F) (plan : TradePlan F) where
    abbrev pub Enters : List Booking → Call (Option (LaunchContext F)) → Type 0
    Enters bs (answer none) = bs ≡ failure_of plan.symbol ∷ []
    Enters bs (answer (some context)) = bs ≡ success_of plan.symbol ∷ []
    Enters bs (exception e) = bs ≡ []

    pub finalize_entry_books :
        (fill : FillResult F)
        → Does (finalize_entry pd settings market plan fill) (λ es r. Enters (bookings es) r)
    unfolding finalize_entry book_entry bookings event_bookings booking give_up mark_entry_failed
    finalize_entry_books fill = emit_does _ _ (
        choose_does _ (λ c. emit_does _ _ (pure_does _ refl))
          (λ c.
            ask_does
              (λ b e.
                ask_does (λ q f. emit_does _ _ (emit_does _ _ (pure_does _ refl))) (λ x f. refl))
              (λ x e. refl)))
