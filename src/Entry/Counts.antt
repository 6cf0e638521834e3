-- ===== src/Entry/Counts.antt =====
-- What an entry adds to the counters of the operational service.
use trading_binance.Base.{
  ℕ, ◌+◌, ◌≡◌, refl, ◌∙◌, ap, arith, Bool, true, false, String, [], ◌∷◌, if◌then◌else◌, leb, ltb,
  some, none,
}
use trading_binance.Num.{Float}
use trading_binance.Operations.State.{OpsSettings, Ops, Suspensions}
use trading_binance.Operations.Suspension.{
  append_event, clear_suspension, reset_counter, expire_from, expire_suspensions, read_clock,
  evaluate_suspension_rules, can_open_new_entries, active_suspensions, activate_suspension,
  contains,
}
use trading_binance.Operations.Suspension.Raises.{activate-Raises}
use trading_binance.Operations.Suspension.Rules.{evaluate-Raises}
use trading_binance.Operations.Records.{
  record_startup, record_signal_detected, record_signal_discarded, record_signal_alerted,
  record_entry_attempt, record_entry_executed, record_trade_closed, record_success, record_event,
  record_entry_failed, record_protection_result, record_error, record_orphan_status, check_rules,
  count_protection, count_recovery,
}
use trading_binance.Operations.Heartbeat.{
  Beat, heartbeat, write_reports, see_polls, count_polls, emit_periodic_summaries,
  maybe_write_report,
}
use trading_binance.Operations.Steps.{
  Action, started, counted_signal, discarded, alerted, attempted, executed, noted, failed,
  protected, closed, erred, succeeded, orphaned, beat, asked_gate, asked_suspensions, forced_report,
  perform,
}

-- The attempts, the successes and the failures of entries.
abbrev pub Tally : Type 0
Tally = ℕ × ℕ × ℕ

abbrev pub plus : Tally → Tally → Tally
plus (a, b, c) (x, y, z) = (a + x, b + y, c + z)

abbrev pub tally : {F : Type 0} → Ops F → Tally
tally s = (s.counters.entry_attempts, s.counters.entries_executed, s.counters.entries_failed)

-- What an action adds.
abbrev pub adds : {F : Type 0} → Action F → Tally
adds (attempted symbol) = (1, 0, 0)
adds (executed symbol) = (0, 1, 0)
adds (failed symbol stage reason) = (0, 0, 1)
adds _ = (0, 0, 0)

module _ {F : Type 0} where
  if_tally : (b : Bool) (x s : Ops F) → tally x ≡ tally s → tally (if b then x else s) ≡ tally s
  if_tally true x s h = h
  if_tally false x s h = refl

  either_tally :
      (t : Tally) (b : Bool) (x y : Ops F)
      → tally x ≡ t
      → tally y ≡ t
      → tally (if b then x else y) ≡ t
  either_tally t true x y h k = h
  either_tally t false x y h k = k

  second_tally :
      (t : Tally) (b : Bool) (x y : Bool × Ops F)
      → tally x.1 ≡ t
      → tally y.1 ≡ t
      → tally (if b then x else y).1 ≡ t
  second_tally t true x y h k = h
  second_tally t false x y h k = k

  module _ (settings : OpsSettings) where
    clear-tally : (k : _) (s : Ops F) → tally (clear_suspension settings k s) ≡ tally s
    unfolding clear_suspension append_event reset_counter
    clear-tally k s = if_tally (contains k s.suspensions) _ s refl

    expire_from-tally :
        (now : ℕ) (xs : Suspensions) (s : Ops F) → tally (expire_from settings now xs s) ≡ tally s
    unfolding expire_from
    expire_from-tally now [] s = refl
    expire_from-tally now ((k, none) ∷ xs) s = expire_from-tally now xs s
    expire_from-tally now ((k, some until) ∷ xs) s =
        expire_from-tally now xs _ ∙ if_tally (leb until now) _ s (clear-tally k s)

    expire-tally : (now : ℕ) (s : Ops F) → tally (expire_suspensions settings now s) ≡ tally s
    unfolding expire_suspensions
    expire-tally now s = expire_from-tally now s.suspensions s

module _ (clock : ℕ → ℕ) (settings : OpsSettings) {F : Type 0} where
  evaluate-tally :
      (now : ℕ) (s : Ops F) → tally (evaluate_suspension_rules clock settings now s) ≡ tally s
  evaluate-tally now s =
      ap (λ c. (c.all.entry_attempts, c.all.entries_executed, c.all.entries_failed))
        (evaluate-Raises clock settings now s).same

  check-tally : (s : Ops F) → tally (check_rules clock settings s) ≡ tally s
  unfolding check_rules read_clock
  check-tally s = evaluate-tally _ _

  activate-tally :
      (k : _) (n : ℕ) (s : Ops F) → tally (activate_suspension clock settings k n s) ≡ tally s
  activate-tally k n s =
      ap (λ c. (c.all.entry_attempts, c.all.entries_executed, c.all.entries_failed))
        (activate-Raises clock settings k n s).same

  gate-tally : (s : Ops F) → tally (can_open_new_entries clock settings s).1 ≡ tally s
  unfolding can_open_new_entries read_clock
  gate-tally s =
      second_tally (tally s) settings.enable_operational_kill_switches _ _
        (evaluate-tally _ _ ∙ expire-tally settings _ _) refl

  polls-tally : (now n : ℕ) (s : Ops F) → tally (count_polls settings now n s) ≡ tally s
  unfolding count_polls see_polls
  polls-tally now n s =
      either_tally (tally s) (ltb s.last_seen_event_count n) _ _ (clear-tally settings _ _) refl

  report-tally : (now : ℕ) (s : Ops F) → tally (maybe_write_report settings now s) ≡ tally s
  unfolding maybe_write_report write_reports
  report-tally now s = either_tally (tally s) _ _ _ refl refl

  beat-tally : (b : Beat) (s : Ops F) → tally (heartbeat clock settings b s) ≡ tally s
  unfolding heartbeat read_clock emit_periodic_summaries
  beat-tally b s =
      report-tally _ _ ∙ evaluate-tally _ _ ∙ expire-tally settings _ _ ∙ polls-tally _ _ _

  module _ (within : String → String → Bool) ⦃fl : Float F⦄ where
    -- Every operation of the service counts the attempts, successes and failures of entries that
    -- it is told of, and no other.
    pub perform-tally :
        (a : Action F) (s : Ops F)
        → tally (perform clock within settings a s) ≡ plus (adds a) (tally s)
    unfolding perform record_startup record_signal_detected record_signal_discarded
        record_signal_alerted record_entry_attempt record_entry_executed record_trade_closed
        record_success record_event record_entry_failed record_protection_result record_error
        record_orphan_status count_protection count_recovery append_event active_suspensions
        write_reports read_clock
    perform-tally started s = ground arith
    perform-tally counted_signal s = ground arith
    perform-tally (discarded reason) s = ground arith
    perform-tally (alerted symbol) s = ground arith
    perform-tally (attempted symbol) s = ground arith
    perform-tally (executed symbol) s = ground arith
    perform-tally (noted kind) s = ground arith
    perform-tally (failed symbol stage reason) s = check-tally _ ∙ ground arith
    perform-tally (protected symbol true) s = check-tally _ ∙ ground arith
    perform-tally (protected symbol false) s = check-tally _ ∙ ground arith
    perform-tally (closed pnl paper equity_after) s = ground arith
    perform-tally (erred err_name stage given) s = check-tally _ ∙ ground arith
    perform-tally (succeeded none) s = ground arith
    perform-tally (succeeded (some stage)) s = ground arith
    perform-tally (orphaned symbol status) s =
        either_tally (tally s) _ _ _ (activate-tally _ _ _) refl ∙ ground arith
    perform-tally (beat b) s = beat-tally b s ∙ ground arith
    perform-tally asked_gate s = gate-tally s ∙ ground arith
    perform-tally asked_suspensions s = expire-tally settings _ _ ∙ ground arith
    perform-tally forced_report s = ground arith
