-- ===== src/Entry/Books/Entries.antt =====
-- What a whole entry books.
use trading_binance.Base.{
  ◌≡◌, refl, sym, ◌∙◌, ap, subst, Bool, true, false, String, Option, none, some, List, [], ◌∷◌,
  ◌++◌,
}
use trading_binance.Num.{Float}
use trading_binance.Indicators.{Pandas}
use trading_binance.Py.{Call, answer, exception}
use trading_binance.Flow.{emit, send}
use trading_binance.Flow.Laws.{
  Does, bind_does, pure_does, ask_does, emit_does, choose_does, weaken_does,
}
use trading_binance.Entry.{Event, mark_entry_failed}
use trading_binance.Entry.Plan.{EntrySettings, Candidate, Market, TradePlan}
use trading_binance.Entry.Validate.{validate_trade_plan}
use trading_binance.Entry.Submit.{Venue}
use trading_binance.Entry.Finalize.{
  LaunchContext, launch_monitor, launch_if, refuse, enter_market, execute_plan, execute_candidate,
}
use trading_binance.Entry.Books.{
  Booking, attempt_of, success_of, failure_of, booking, event_bookings, bookings, bookings-quiet,
  bookings-append, Quiet, quiet_then,
}
use trading_binance.Entry.Books.Parts.{
  Plans, Enters, build_trade_plan_books, submit_entry-Quiet, finalize_entry_books,
}

-- What follows the attempt: one success where the candidate is executed, one failure where it is
-- not, and neither where an exception ends the flow.
abbrev pub Settles : String → List Booking → Call Bool → Type 0
Settles symbol bs (answer true) = bs ≡ success_of symbol ∷ []
Settles symbol bs (answer false) = bs ≡ failure_of symbol ∷ []
Settles symbol bs (exception e) = bs ≡ []

module _ {F : Type 0} ⦃fl : Float F⦄ (pd : Pandas F) (settings : EntrySettings F) where
  module _ (market : Market F) (venue : Venue F) where
    refuse-Settles :
        (plan : TradePlan F) (stage reason : String)
        → Does (refuse pd settings plan stage reason) (λ es r. Settles plan.symbol (bookings es) r)
    unfolding refuse mark_entry_failed bookings event_bookings booking
    refuse-Settles plan stage reason = emit_does _ _ (pure_does _ refl)

    -- A monitor is launched without an exception and without a booking.
    abbrev Launched : List (Event F) → Call (Unit {0}) → Type 0
    Launched es (answer a) = bookings es ≡ []
    Launched es (exception e) = ⊥

    launch_monitor_lem :
        (context : LaunchContext F) → Does (launch_monitor pd settings context) Launched
    unfolding launch_monitor bookings event_bookings booking send emit
    launch_monitor_lem context = emit_does _ _ (record { holds = refl })

    launch-Settles :
        (plan : TradePlan F) (bs : List Booking) (context : Option (LaunchContext F))
        → Enters pd settings market plan bs (answer context)
        → Does (launch_if pd settings context) (λ es r. Settles plan.symbol (bs ++ bookings es) r)
    unfolding launch_if launch_monitor bookings event_bookings booking
    launch-Settles plan bs none e = pure_does _ (ap (λ l. l ++ []) e)
    launch-Settles plan bs (some context) e =
        bind_does (launch_monitor_lem context)
          (λ es a q. pure_does _ (ap (λ l. bs ++ l) (bookings-quiet es [] q) ∙ ap (λ l. l ++ []) e))
          (λ es x h. absurd h)

    enter-Settles :
        (plan : TradePlan F)
        → Does
            (enter_market pd settings market venue plan)
            (λ es r. Settles plan.symbol (bookings es) r)
    unfolding enter_market
    enter-Settles plan =
        quiet_then (Settles plan.symbol) (submit_entry-Quiet pd settings venue plan)
          (λ fill.
            choose_does _
              (λ c.
                bind_does (finalize_entry_books pd settings market plan fill)
                  (λ es context h.
                    weaken_does (launch-Settles plan (bookings es) context h) (λ later r g.
                      subst (λ l. Settles plan.symbol l r) (sym (bookings-append es later)) g))
                  (λ es x h. h))
              (λ c. refuse-Settles plan _ _))
          (λ x. refl)

    validate-Quiet : (plan : TradePlan F) → Does (validate_trade_plan pd settings plan) Quiet
    unfolding validate_trade_plan bookings
    validate-Quiet plan = ask_does (λ inside e. pure_does _ refl) (λ x e. refl)

    valid-Settles :
        (plan : TradePlan F)
        → Does
            (execute_plan pd settings market venue (some plan))
            (λ es r. Settles plan.symbol (bookings es) r)
    unfolding execute_plan
    valid-Settles plan =
        quiet_then (Settles plan.symbol) (validate-Quiet plan)
          (λ validation. choose_does _ (λ c. enter-Settles plan) (λ c. refuse-Settles plan _ _))
          (λ x. refl)

    -- What is booked after the attempt.
    plan-Settles :
        (candidate : Candidate F) (bs : List Booking) (plan : Option (TradePlan F))
        → Plans pd settings candidate market bs (answer plan)
        → Does
            (execute_plan pd settings market venue plan)
            (λ es r. Settles candidate.symbol (bs ++ bookings es) r)
    unfolding execute_plan bookings
    plan-Settles candidate bs none e = pure_does _ (ap (λ l. l ++ []) e)
    plan-Settles candidate bs (some plan) h = weaken_does (valid-Settles plan) (λ es r g.
        subst (λ symbol. Settles symbol (bs ++ bookings es) r) h.1
          (subst (λ l. Settles plan.symbol (l ++ bookings es) r) (sym h.0) g))

    abbrev BooksOnce : String → List (Event F) → Call Bool → Type 0
    BooksOnce symbol es r =
        (bs : List Booking) × (bookings es ≡ attempt_of symbol ∷ bs) × Settles symbol bs r

    execute_does :
        (candidate : Candidate F)
        → Does (execute_candidate pd settings market venue candidate) (BooksOnce candidate.symbol)
    unfolding execute_candidate bookings event_bookings booking
    execute_does candidate = emit_does _ _ (
        bind_does (build_trade_plan_books pd settings candidate market)
          (λ es plan h. weaken_does (plan-Settles candidate (bookings es) plan h) (λ later r g. (
            bookings es ++ bookings later,
            ap (λ l. attempt_of candidate.symbol ∷ l) (bookings-append es later),
            g,
          )))
          (λ es x h. (bookings es, refl, h)))

  -- An entry books its attempt first, and then one success for the candidate's symbol where it
  -- returns that it was executed, one failure where it returns that it was not, and neither where
  -- an exception ends it.
  pub execute_candidate_books :
      (market : Market F) (venue : Venue F) (candidate : Candidate F)
      → let entry = execute_candidate pd settings market venue candidate in
        (bs : List Booking) × (bookings entry.events ≡ attempt_of candidate.symbol ∷ bs)
        × Settles candidate.symbol bs entry.outcome
  execute_candidate_books market venue candidate = (execute_does market venue candidate).holds
