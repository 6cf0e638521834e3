-- ===== src/Entry/Books.antt =====
-- What an entry books with the operational service: one attempt, and then one success or one
-- failure.
pub mod Parts
pub mod Entries
use trading_binance.Base.{
  ◌≡◌, refl, sym, ◌∙◌, ap, subst, Bool, true, false, String, Option, none, some, List, [], ◌∷◌,
  ◌++◌, map,
}
use trading_binance.Num.{Float, ◌≤?◌, ◌⊖◌, absolute, zero_float}
use trading_binance.Indicators.{Pandas}
use trading_binance.Py.{Call, answer, exception, Error}
use trading_binance.Flow.{Flow, ◌>>=◌, pure, ask, emit, send, choose, rescue, finally_do, within}
use trading_binance.Flow.Laws.{
  Does, bind_does, pure_does, ask_does, emit_does, choose_does, rescue_does, rescue_ask_does,
  rescue_send_does, weaken_does,
}
use trading_binance.Operations.Steps.{
  Action, started, counted_signal, discarded, alerted, attempted, executed, noted, failed,
  protected, closed, erred, succeeded, orphaned, beat, asked_gate, asked_suspensions, forced_report,
}
use trading_binance.Execution.Entries.{Command}
use trading_binance.Entry.{
  Event, hook, lock_acquired, lock_released, invalidated, orders_cancelled, command,
  monitor_launched, record_error, mark_entry_failed, give_up,
}
use trading_binance.Entry.Plan.{
  EntrySettings, Candidate, Market, TradePlan, round_plan, size_plan, margin_plan, fund_plan,
  balance_plan, build_trade_plan, plan_of,
}
use trading_binance.Entry.Validate.{validate_trade_plan}
use trading_binance.Entry.Submit.{
  FillResult, Venue, Attempt, is_position_gate_blocked, place_order, attempt_entry, submit_entry,
}
use trading_binance.Entry.Finalize.{
  LaunchContext, book_entry, finalize_entry, launch_monitor, launch_if, refuse, enter_market,
  execute_plan, execute_candidate,
}

pub data Booking : Type 0 where
  attempt_of success_of failure_of : String → Booking

-- the bookings of one call
unfoldable pub booking : {F : Type 0} → Action F → List Booking
booking (attempted symbol) = attempt_of symbol ∷ []
booking (executed symbol) = success_of symbol ∷ []
booking (failed symbol stage reason) = failure_of symbol ∷ []
booking _ = []

append_assoc : {A : Type 0} (xs ys zs : List A) → (xs ++ ys) ++ zs ≡ xs ++ (ys ++ zs)
append_assoc [] ys zs = refl
append_assoc (x ∷ xs) ys zs = ap (λ l. x ∷ l) (append_assoc xs ys zs)

module _ {F : Type 0} where
  unfoldable pub event_bookings : Event F → List Booking
  event_bookings (hook action) = booking action
  event_bookings _ = []

  unfoldable pub bookings : List (Event F) → List Booking
  bookings [] = []
  bookings (e ∷ es) = event_bookings e ++ bookings es

  pub bookings-append : (xs ys : List (Event F)) → bookings (xs ++ ys) ≡ bookings xs ++ bookings ys
  unfolding bookings
  bookings-append [] ys = refl
  bookings-append (e ∷ es) ys =
      ap (λ l. event_bookings e ++ l) (bookings-append es ys)
      ∙ sym (append_assoc (event_bookings e) (bookings es) (bookings ys))

  pub bookings-quiet :
      (xs ys : List (Event F)) → bookings xs ≡ [] → bookings (xs ++ ys) ≡ bookings ys
  bookings-quiet xs ys q = bookings-append xs ys ∙ ap (λ l. l ++ bookings ys) q

  bookings-commands : (cs : List (Command F)) → bookings (map command cs) ≡ []
  unfolding bookings event_bookings
  bookings-commands [] = refl
  bookings-commands (c ∷ cs) = bookings-commands cs

  -- A part of the flow that books nothing.
  abbrev pub Quiet : {A : Type 0} → List (Event F) → Call A → Type 0
  Quiet es r = bookings es ≡ []

  pub quiet_then :
      {A B : Type 0} (Q : List Booking → Call B → Type 0) {m : Flow (Event F) A}
      {f : A → Flow (Event F) B}
      → Does m Quiet
      → ((a : A) → Does (f a) (λ es r. Q (bookings es) r))
      → ((e : Error) → Q [] (exception e))
      → Does (m >>= f) (λ es r. Q (bookings es) r)
  quiet_then Q d next fail =
      bind_does d
        (λ es a q.
          weaken_does (next a)
            (λ later r h. subst (λ l. Q l r) (sym (bookings-quiet es later q)) h))
        (λ es e q. subst (λ l. Q l (exception e)) (sym q) (fail e))

  pub within-Quiet : {A : Type 0} (m : Flow (Command F) A) → Does (within command m) Quiet
  unfolding within
  within-Quiet m = record { holds = bookings-commands m.events }

  pub finally-Quiet :
      {A : Type 0} (m : Flow (Event F) A) → Does m Quiet → Does (finally_do lock_released m) Quiet
  unfolding finally_do bookings event_bookings
  finally-Quiet m d = record { holds = bookings-quiet m.events _ d.holds }

  pub Quiet-bind :
      {A B : Type 0} {m : Flow (Event F) A} {f : A → Flow (Event F) B}
      → Does m Quiet
      → ((a : A) → Does (f a) Quiet)
      → Does (m >>= f) Quiet
  Quiet-bind d next = quiet_then (λ bs r. bs ≡ []) d next (λ e. refl)
