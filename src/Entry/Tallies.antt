-- ===== src/Entry/Tallies.antt =====
-- The counters of the operational service after a whole entry.
use trading_binance.Base.{
  ℕ, ◌≡◌, sym, ◌∙◌, ap, arith, Bool, true, false, String, List, [], ◌∷◌, ◌++◌,
}
use trading_binance.Num.{Float}
use trading_binance.Indicators.{Pandas}
use trading_binance.Py.{Call, answer, exception}
use trading_binance.Operations.State.{OpsSettings, Ops}
use trading_binance.Operations.Steps.{
  Action, started, counted_signal, discarded, alerted, attempted, executed, noted, failed,
  protected, closed, erred, succeeded, orphaned, beat, asked_gate, asked_suspensions, forced_report,
  run,
}
use trading_binance.Entry.{
  Event, hook, lock_acquired, lock_released, invalidated, orders_cancelled, command,
  monitor_launched,
}
use trading_binance.Entry.Plan.{EntrySettings, Candidate, Market}
use trading_binance.Entry.Submit.{Venue}
use trading_binance.Entry.Finalize.{execute_candidate}
use trading_binance.Entry.Books.{
  Booking, attempt_of, success_of, failure_of, booking, event_bookings, bookings,
}
use trading_binance.Entry.Books.Entries.{Settles, execute_candidate_books}
use trading_binance.Entry.Counts.{Tally, plus, tally, adds, perform-tally}

-- The calls of the operational service.
unfoldable pub hooks : {F : Type 0} → List (Event F) → List (Action F)
hooks [] = []
hooks (hook action ∷ es) = action ∷ hooks es
hooks (_ ∷ es) = hooks es

abbrev counted : Booking → Tally
counted (attempt_of symbol) = (1, 0, 0)
counted (success_of symbol) = (0, 1, 0)
counted (failure_of symbol) = (0, 0, 1)

abbrev total : List Booking → Tally
total [] = (0, 0, 0)
total (b ∷ bs) = plus (counted b) (total bs)

-- What an entry adds: its attempt, and what its outcome says.
abbrev pub adds_of : Call Bool → Tally
adds_of (answer true) = (1, 1, 0)
adds_of (answer false) = (1, 0, 1)
adds_of (exception e) = (1, 0, 0)

plus_none : (t : Tally) → t ≡ plus (0, 0, 0) t
plus_none (a, b, c) = ground arith

plus_swap : (s t u : Tally) → plus s (plus t u) ≡ plus (plus t s) u
plus_swap (a, b, c) (x, y, z) (p, q, r) = ground arith

total-booking :
    {F : Type 0} (a : Action F) (bs : List Booking)
    → total (booking a ++ bs) ≡ plus (adds a) (total bs)
unfolding booking
total-booking started bs = ground arith
total-booking counted_signal bs = ground arith
total-booking (discarded reason) bs = ground arith
total-booking (alerted symbol) bs = ground arith
total-booking (attempted symbol) bs = ground arith
total-booking (executed symbol) bs = ground arith
total-booking (noted kind) bs = ground arith
total-booking (failed symbol stage reason) bs = ground arith
total-booking (protected symbol ok) bs = ground arith
total-booking (closed pnl paper equity_after) bs = ground arith
total-booking (erred err_name stage given) bs = ground arith
total-booking (succeeded stage) bs = ground arith
total-booking (orphaned symbol status) bs = ground arith
total-booking (beat b) bs = ground arith
total-booking asked_gate bs = ground arith
total-booking asked_suspensions bs = ground arith
total-booking forced_report bs = ground arith

Settles-total :
    (symbol : String) (bs : List Booking) (out : Call Bool)
    → Settles symbol bs out
    → total (attempt_of symbol ∷ bs) ≡ adds_of out
Settles-total symbol bs (answer true) h = ap (λ l. total (attempt_of symbol ∷ l)) h
Settles-total symbol bs (answer false) h = ap (λ l. total (attempt_of symbol ∷ l)) h
Settles-total symbol bs (exception e) h = ap (λ l. total (attempt_of symbol ∷ l)) h

module _ {F : Type 0} ⦃fl : Float F⦄ (clock : ℕ → ℕ) (within : String → String → Bool)
    (ops_settings : OpsSettings) where
  run-tally :
      (es : List (Event F)) (s : Ops F)
      → tally (run clock within ops_settings (hooks es) s) ≡ plus (total (bookings es)) (tally s)
  unfolding run hooks bookings event_bookings
  run-tally [] s = plus_none (tally s)
  run-tally (hook action ∷ es) s =
      run-tally es _
      ∙ ap (λ t. plus (total (bookings es)) t) (perform-tally clock ops_settings within action s)
      ∙ plus_swap (total (bookings es)) (adds action) (tally s)
      ∙ ap (λ t. plus t (tally s)) (sym (total-booking action (bookings es)))
  run-tally (lock_acquired ∷ es) s = run-tally es s
  run-tally (lock_released ∷ es) s = run-tally es s
  run-tally (invalidated ∷ es) s = run-tally es s
  run-tally (orders_cancelled symbol ∷ es) s = run-tally es s
  run-tally (command c ∷ es) s = run-tally es s
  run-tally (monitor_launched symbol ∷ es) s = run-tally es s

  -- Whatever the market, the other threads and the exchange do, an entry that is tried adds one to
  -- the attempts, and one to the successes where it is executed, one to the failures where it is
  -- refused, and nothing more where an exception that is not recoverable ends it.
  pub execute_candidate_counts :
      (pd : Pandas F) (settings : EntrySettings F) (market : Market F) (venue : Venue F)
      (candidate : Candidate F) (s : Ops F)
      → let entry = execute_candidate pd settings market venue candidate in
        tally (run clock within ops_settings (hooks entry.events) s)
        ≡ plus (adds_of entry.outcome) (tally s)
  execute_candidate_counts pd settings market venue candidate s =
      let entry = execute_candidate pd settings market venue candidate in
      let books = execute_candidate_books pd settings market venue candidate in
      run-tally entry.events s
      ∙ ap (λ l. plus (total l) (tally s)) books.1
      ∙ ap (λ t. plus t (tally s)) (Settles-total candidate.symbol books.0 entry.outcome books.2)
