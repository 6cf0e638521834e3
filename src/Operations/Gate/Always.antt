-- ===== src/Operations/Gate/Always.antt =====
-- The gate of a service that has run for any time: each operation keeps a suspension behind every
-- count that reached its threshold, so the suspensions that end open the gate again.
use trading_binance.Base.{
  ℕ, ◌+◌, ◌*◌, ◌≤◌, ◌≡◌, Bool, true, false, none, some, List, [], ◌∷◌, String, refl, arith, ltb,
  max, if◌then◌else◌, subst, sym,
}
use trading_binance.Num.{Float}
use trading_binance.Operations.State.{
  Reason, consecutive_errors, api_degraded, order_failures, protection_failures, scheduler_stale,
  orphan_unrecoverable, OpsSettings, Ops, OrphanStatus, orphan, second,
}
use trading_binance.Operations.Suspension.{
  contains, is_stale, read_clock, append_event, can_open_new_entries, active_suspensions,
}
use trading_binance.Operations.Suspension.Raises.{counts, Counts}
use trading_binance.Operations.Suspension.Rules.{IsMonotone, count_of}
use trading_binance.Operations.Records.{
  record_startup, record_signal_detected, record_signal_discarded, record_signal_alerted,
  record_entry_attempt, record_entry_executed, record_trade_closed, record_success, record_event,
  check_rules, record_entry_failed, record_protection_result, record_error, record_orphan_status,
  count_recovery,
}
use trading_binance.Operations.Heartbeat.{
  emit_periodic_summaries, write_reports, maybe_write_report, Beat, heartbeat,
}
use trading_binance.Operations.Steps.{
  Action, started, counted_signal, discarded, alerted, attempted, executed, noted, failed,
  protected, closed, erred, succeeded, orphaned, beat, asked_gate, asked_suspensions, forced_report,
  perform, run, new_service,
}
use trading_binance.Operations.Gate.Reopen.{IsRaised, AllEnded, gate_reopens}
use trading_binance.Operations.Gate.Raised.{
  if-IsRaised, lower-IsRaised, expire-IsRaised, activate-IsRaised, evaluate-IsRaised,
}

le_refl : (n : ℕ) → n ≤ n
le_refl n = ground arith

zero_le : (n : ℕ) → 0 ≤ n
zero_le n = ground arith

if_zero_le : (b : Bool) (n : ℕ) → (if b then 0 else n) ≤ n
if_zero_le b n = ground arith

count_le :
    (c d : Counts)
    → c.errors ≤ d.errors
    → c.api ≤ d.api
    → c.orders ≤ d.orders
    → c.protections ≤ d.protections
    → (j : Reason) → count_of j c ≤ count_of j d
count_le c d e a o p consecutive_errors = e
count_le c d e a o p api_degraded = a
count_le c d e a o p order_failures = o
count_le c d e a o p protection_failures = p
count_le c d e a o p scheduler_stale = ground arith
count_le c d e a o p orphan_unrecoverable = ground arith

module _ {F : Type 0} (settings : OpsSettings) where
  -- a change that the rules do not see
  unseen-IsRaised :
      (s x : Ops F)
      → x.suspensions ≡ s.suspensions
      → x.consecutive_error_count ≤ s.consecutive_error_count
      → x.consecutive_api_errors ≤ s.consecutive_api_errors
      → x.consecutive_order_failures ≤ s.consecutive_order_failures
      → x.consecutive_protection_failures ≤ s.consecutive_protection_failures
      → IsRaised settings s
      → IsRaised settings x
  unseen-IsRaised s x e a b c d =
      lower-IsRaised settings s x e (count_le (counts x) (counts s) a b c d)

  summaries-IsRaised :
      (hour day : ℕ) (s : Ops F)
      → IsRaised settings s
      → IsRaised settings (emit_periodic_summaries settings hour day s)
  unfolding emit_periodic_summaries
  summaries-IsRaised hour day s raised =
      unseen-IsRaised s (emit_periodic_summaries settings hour day s) refl (le_refl _) (le_refl _)
        (le_refl _) (le_refl _) raised

  report-IsRaised :
      (now : ℕ) (s : Ops F)
      → IsRaised settings s
      → IsRaised settings (maybe_write_report settings now s)
  unfolding maybe_write_report write_reports
  report-IsRaised now s raised =
      if-IsRaised settings
        (ltb now (s.last_report_ts + max 10 settings.ops_report_interval_sec * second)) s _ raised
        (unseen-IsRaised s (write_reports (record s { last_report_ts = now })) refl (le_refl _)
          (le_refl _) (le_refl _) (le_refl _) raised)

module _ {F : Type 0} ⦃fl : Float F⦄ (clock : ℕ → ℕ) (within : String → String → Bool)
    (settings : OpsSettings) (mono : IsMonotone clock)
    (enabled : settings.enable_operational_kill_switches ≡ true) where
  rules-IsRaised : (s : Ops F) → IsRaised settings (check_rules clock settings s)
  unfolding check_rules
  rules-IsRaised s = evaluate-IsRaised clock settings _ _ mono enabled

  orphan-IsRaised :
      (symbol : String) (status : OrphanStatus) (s : Ops F)
      → IsRaised settings s
      → IsRaised settings (record_orphan_status clock settings symbol status s)
  unfolding record_orphan_status count_recovery append_event
  orphan-IsRaised symbol status s raised =
      if-IsRaised settings _ _ _
        (activate-IsRaised clock settings orphan_unrecoverable settings.operational_suspend_sec _
          seen)
        seen
    where
      seen :
          IsRaised settings (count_recovery status (append_event settings (orphan symbol status) s))
      seen =
          unseen-IsRaised settings s
            (count_recovery status (append_event settings (orphan symbol status) s)) refl
            (le_refl _) (le_refl _) (le_refl _) (le_refl _) raised

  heartbeat-IsRaised : (b : Beat) (s : Ops F) → IsRaised settings (heartbeat clock settings b s)
  unfolding heartbeat read_clock
  heartbeat-IsRaised b s = report-IsRaised settings (clock s.readings) _ (
      summaries-IsRaised settings b.hour b.day _
        (evaluate-IsRaised clock settings (clock s.readings) _ mono enabled))

  can_open-IsRaised : (s : Ops F) → IsRaised settings (can_open_new_entries clock settings s).1
  unfolding can_open_new_entries read_clock
  can_open-IsRaised s =
      enabled_branch settings.enable_operational_kill_switches _ enabled
        (evaluate-IsRaised clock settings (clock s.readings) _ mono enabled)
    where
      enabled_branch :
          (b : Bool) (x : Bool × Ops F)
          → b ≡ true
          → IsRaised settings x.1
          → IsRaised settings (if◌then◌else◌ {A = Bool × Ops F} b x (true, s)).1
      enabled_branch true x e raised = raised
      enabled_branch false x e raised = ground arith

  perform-IsRaised :
      (action : Action F) (s : Ops F)
      → IsRaised settings s
      → IsRaised settings (perform clock within settings action s)
  unfolding perform record_startup record_signal_detected record_signal_discarded
      record_signal_alerted record_entry_attempt record_entry_executed record_trade_closed
      record_success record_event record_entry_failed record_protection_result record_error
      append_event write_reports active_suspensions read_clock
  perform-IsRaised started s raised =
      unseen-IsRaised settings s (perform clock within settings started s) refl (le_refl _)
        (le_refl _) (le_refl _) (le_refl _) raised
  perform-IsRaised counted_signal s raised =
      unseen-IsRaised settings s (perform clock within settings counted_signal s) refl (le_refl _)
        (le_refl _) (le_refl _) (le_refl _) raised
  perform-IsRaised (discarded reason) s raised =
      unseen-IsRaised settings s (perform clock within settings (discarded reason) s) refl
        (le_refl _) (le_refl _) (le_refl _) (le_refl _) raised
  perform-IsRaised (alerted symbol) s raised =
      unseen-IsRaised settings s (perform clock within settings (alerted symbol) s) refl (le_refl _)
        (le_refl _) (le_refl _) (le_refl _) raised
  perform-IsRaised (attempted symbol) s raised =
      unseen-IsRaised settings s (perform clock within settings (attempted symbol) s) refl
        (le_refl _) (le_refl _) (le_refl _) (le_refl _) raised
  perform-IsRaised (executed symbol) s raised =
      unseen-IsRaised settings s (perform clock within settings (executed symbol) s) refl
        (le_refl _) (le_refl _) (zero_le _) (le_refl _) raised
  perform-IsRaised (noted kind) s raised =
      unseen-IsRaised settings s (perform clock within settings (noted kind) s) refl (le_refl _)
        (le_refl _) (le_refl _) (le_refl _) raised
  perform-IsRaised (closed pnl paper equity_after) s raised =
      unseen-IsRaised settings s (perform clock within settings (closed pnl paper equity_after) s)
        refl (le_refl _) (le_refl _) (le_refl _) (le_refl _) raised
  perform-IsRaised (failed symbol stage reason) s raised = rules-IsRaised _
  perform-IsRaised (protected symbol ok) s raised = rules-IsRaised _
  perform-IsRaised (erred err_name stage given) s raised = rules-IsRaised _
  perform-IsRaised (succeeded none) s raised =
      unseen-IsRaised settings s (perform clock within settings (succeeded none) s) refl (zero_le _)
        (le_refl _) (le_refl _) (le_refl _) raised
  perform-IsRaised (succeeded (some stage)) s raised =
      unseen-IsRaised settings s (perform clock within settings (succeeded (some stage)) s) refl
        (zero_le _) (if_zero_le _ _) (le_refl _) (le_refl _) raised
  perform-IsRaised (orphaned symbol status) s raised = orphan-IsRaised symbol status s raised
  perform-IsRaised (beat b) s raised = heartbeat-IsRaised b s
  perform-IsRaised asked_gate s raised = can_open-IsRaised s
  perform-IsRaised asked_suspensions s raised =
      expire-IsRaised settings (clock s.readings) (record s { readings = s.readings + 1 })
        (unseen-IsRaised settings s (record s { readings = s.readings + 1 }) refl (le_refl _)
          (le_refl _) (le_refl _) (le_refl _) raised)
  perform-IsRaised forced_report s raised =
      unseen-IsRaised settings s (perform clock within settings forced_report s) refl (le_refl _)
        (le_refl _) (le_refl _) (le_refl _) raised

  run-IsRaised :
      (actions : List (Action F)) (s : Ops F)
      → IsRaised settings s
      → IsRaised settings (run clock within settings actions s)
  unfolding run
  run-IsRaised [] s raised = raised
  run-IsRaised (action ∷ actions) s raised =
      run-IsRaised actions (perform clock within settings action s)
        (perform-IsRaised action s raised)

  -- A service that has run through any operations reopens its gate: when every suspension has
  -- ended and the scheduler is not stale, the next question is answered with yes, no suspension
  -- is left, and the counts behind those that ended are 0 again. The switches are enabled, and
  -- the clock never goes back.
  pub ended_suspensions_open_gate :
      (actions : List (Action F)) (s : Ops F)
      → s ≡ run clock within settings actions new_service
      → AllEnded (clock s.readings) s.suspensions
      → is_stale settings.kill_switch_max_scheduler_idle_sec s.last_poll_ts (clock s.readings)
        ≡ false
      → ((can_open_new_entries clock settings s).0 ≡ true)
        × ((can_open_new_entries clock settings s).1.suspensions ≡ [])
        × ((j : Reason)
            → contains j s.suspensions ≡ true
            → count_of j (counts (can_open_new_entries clock settings s).1) ≡ 0)
  ended_suspensions_open_gate actions s same ended fresh =
      gate_reopens clock settings s enabled ended
        (subst (IsRaised settings) (sym same) (run-IsRaised actions new_service new-IsRaised)) fresh
    where
      new-IsRaised : IsRaised settings (new_service {F = F})
      new-IsRaised consecutive_errors h = ground arith
      new-IsRaised api_degraded h = ground arith
      new-IsRaised order_failures h = ground arith
      new-IsRaised protection_failures h = ground arith
      new-IsRaised scheduler_stale h = ground arith
      new-IsRaised orphan_unrecoverable h = ground arith
