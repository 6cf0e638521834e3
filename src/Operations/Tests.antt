-- ===== src/Operations/Tests.antt =====
-- The operational service on concrete runs.
use trading_binance.Base.{
  ℕ, ◌*◌, ◌≡◌, Bool, true, false, some, String, List, [], ◌∷◌, refl, arith, str_eq,
}
use trading_binance.Num.Fixed.{Fixed, fixed_float}
use trading_binance.Operations.State.{
  Reason, scheduler_stale, order_failures, unrecoverable, OpsSettings, Ops, same_reason, increment,
  append_bounded,
}
use trading_binance.Operations.Suspension.{
  contains, lookup, insert, remove, append_event, reset_counter, clear_suspension, expire_from,
  expire_suspensions, read_clock, activate_suspension, apply_rule, error_rule, api_rule, order_rule,
  protection_rule, idle_rule, evaluate_suspension_rules, is_stale, can_open_new_entries,
}
use trading_binance.Operations.Suspension.Rules.{IsMonotone, count_of}
use trading_binance.Operations.Suspension.Raises.{counts}
use trading_binance.Operations.Records.{
  record_entry_attempt, check_rules, record_entry_failed, count_protection, count_recovery,
  record_protection_result, record_orphan_status,
}
use trading_binance.Operations.Heartbeat.{
  Beat, see_polls, count_polls, emit_periodic_summaries, write_reports, maybe_write_report,
  heartbeat,
}
use trading_binance.Operations.Kept.{IsValid}
use trading_binance.Operations.Steps.{
  Action, attempted, failed, beat, asked_gate, protected, new_service, perform, run, run-IsValid,
}
use trading_binance.Operations.Gate.{suspension_holds, failed_entries_shut_gate, orphan_shuts_gate}
use trading_binance.Operations.Gate.Always.{ended_suspensions_open_gate}
use trading_binance.Operations.Gate.Reopen.{AllEnded}

-- a reading every second
abbrev seconds : ℕ → ℕ
seconds n = n * 1_000_000

seconds-IsMonotone : IsMonotone seconds
seconds-IsMonotone m n h = ground arith

abbrev same_text : String → String → Bool
same_text part text = str_eq part text

abbrev settings : OpsSettings
settings = record {
  enable_operational_kill_switches = true;
  kill_switch_max_consecutive_errors = 3;
  kill_switch_max_api_errors = 3;
  kill_switch_max_order_failures = 2;
  kill_switch_max_protection_failures = 2;
  kill_switch_max_scheduler_idle_sec = 600;
  kill_switch_pause_on_orphan_unrecoverable = true;
  operational_suspend_sec = 20;
  ops_report_interval_sec = 60;
  ops_recent_events = 25;
  ops_hourly_summary = true;
  ops_daily_summary = false;
}

abbrev service : Ops Fixed
service = new_service

abbrev pulse : Beat
pulse = record { alive = true; event_count = 4; open_count = 1; hour = 10; day = 0 }

abbrev busy : List (Action Fixed)
busy = beat pulse ∷ attempted "BTCUSDT" ∷ protected "BTCUSDT" true ∷ asked_gate ∷ []

service-IsValid : IsValid settings service
service-IsValid = record {
  unique = tt;
  events = ground arith;
  aliases = (refl, refl, refl, refl, refl);
}

-- one failed entry so far
abbrev once_failed : Ops Fixed
once_failed = record service { consecutive_order_failures = 1 }

service-IsValid_failed : IsValid settings once_failed
service-IsValid_failed = record {
  unique = tt;
  events = ground arith;
  aliases = (refl, refl, refl, refl, refl);
}

run-IsValid_example : IsValid settings (run seconds same_text settings busy service)
run-IsValid_example = run-IsValid seconds same_text settings seconds-IsMonotone busy

-- One failed entry shuts nothing, the second closes the gate, and after 20 seconds it is open.
failures_run :
    (can_open_new_entries seconds settings (
      run seconds same_text settings
        (failed "BTCUSDT" "order_fill" "timeout" ∷ failed "BTCUSDT" "order_fill" "timeout" ∷ busy)
        service)).0
    ≡ false
unfolding same_reason increment append_bounded contains lookup insert remove append_event
    reset_counter clear_suspension expire_from expire_suspensions read_clock activate_suspension
    apply_rule error_rule api_rule order_rule protection_rule idle_rule evaluate_suspension_rules
    can_open_new_entries check_rules record_entry_failed record_entry_attempt count_protection
    record_protection_result see_polls count_polls emit_periodic_summaries write_reports
    maybe_write_report heartbeat perform run
failures_run = refl

-- The service after the failure that closes the gate, and after the operations that follow.
abbrev after_failure : Ops Fixed
after_failure =
    run seconds same_text settings busy
      (record_entry_failed seconds settings "BTCUSDT" "order_fill" "timeout" once_failed)

after_failure_time : seconds after_failure.readings ≡ 9_000_000
unfolding same_reason increment append_bounded contains lookup insert remove append_event
    reset_counter clear_suspension expire_from expire_suspensions read_clock activate_suspension
    apply_rule error_rule api_rule order_rule protection_rule idle_rule evaluate_suspension_rules
    can_open_new_entries check_rules record_entry_failed record_entry_attempt count_protection
    record_protection_result record_orphan_status count_recovery see_polls count_polls
    emit_periodic_summaries write_reports maybe_write_report heartbeat perform run
after_failure_time = refl

failed_entries_shut_gate_example : (can_open_new_entries seconds settings after_failure).0 ≡ false
failed_entries_shut_gate_example =
    failed_entries_shut_gate seconds same_text settings "BTCUSDT" "order_fill" "timeout" busy
      once_failed after_failure seconds-IsMonotone refl service-IsValid_failed
      (ground arith, ground arith) refl (λ h. ground (arith, after_failure_time))

abbrev after_orphan : Ops Fixed
after_orphan =
    run seconds same_text settings busy
      (record_orphan_status seconds settings "BTCUSDT" unrecoverable service)

after_orphan_time : seconds after_orphan.readings ≡ 5_000_000
unfolding same_reason increment append_bounded contains lookup insert remove append_event
    reset_counter clear_suspension expire_from expire_suspensions read_clock activate_suspension
    apply_rule error_rule api_rule order_rule protection_rule idle_rule evaluate_suspension_rules
    can_open_new_entries check_rules record_entry_failed record_entry_attempt count_protection
    record_protection_result record_orphan_status count_recovery see_polls count_polls
    emit_periodic_summaries write_reports maybe_write_report heartbeat perform run
after_orphan_time = refl

orphan_shuts_gate_example : (can_open_new_entries seconds settings after_orphan).0 ≡ false
orphan_shuts_gate_example =
    orphan_shuts_gate seconds same_text settings "BTCUSDT" busy service after_orphan
      seconds-IsMonotone refl refl service-IsValid refl (λ h. ground (arith, after_orphan_time))

-- Entries are suspended until 50 seconds.
abbrev suspended : Ops Fixed
suspended = record service { suspensions = (order_failures, some 50_000_000) ∷ [] }

suspended-IsValid : IsValid settings suspended
unfolding lookup
suspended-IsValid = record {
  unique = (refl, tt);
  events = ground arith;
  aliases = (refl, refl, refl, refl, refl);
}

suspended_time : seconds (run seconds same_text settings busy suspended).readings ≡ 4_000_000
unfolding same_reason increment append_bounded contains lookup insert remove append_event
    reset_counter clear_suspension expire_from expire_suspensions read_clock activate_suspension
    apply_rule error_rule api_rule order_rule protection_rule idle_rule evaluate_suspension_rules
    can_open_new_entries check_rules record_entry_failed record_entry_attempt count_protection
    record_protection_result record_orphan_status count_recovery see_polls count_polls
    emit_periodic_summaries write_reports maybe_write_report heartbeat perform run
suspended_time = refl

orders_not_stale : same_reason scheduler_stale order_failures ≡ false
unfolding same_reason
orders_not_stale = refl

suspended_lookup : lookup order_failures suspended.suspensions ≡ some (some 50_000_000)
unfolding lookup same_reason
suspended_lookup = refl

suspension_holds_example :
    (can_open_new_entries seconds settings (run seconds same_text settings busy suspended)).0
    ≡ false
suspension_holds_example =
    suspension_holds seconds same_text settings busy order_failures suspended seconds-IsMonotone
      refl suspended-IsValid orders_not_stale (rw suspended_lookup (ground (arith, suspended_time)))

-- a reading every half a minute
abbrev half_minutes : ℕ → ℕ
half_minutes n = n * 30_000_000

half_minutes-IsMonotone : IsMonotone half_minutes
half_minutes-IsMonotone m n h = ground arith

abbrev failures : List (Action Fixed)
failures = failed "BTCUSDT" "order_fill" "timeout" ∷ failed "ETHUSDT" "order_fill" "timeout" ∷ []

-- Two entries failed, and the suspension for them has ended.
abbrev over : Ops Fixed
over = run half_minutes same_text settings failures service

over_ended : AllEnded (half_minutes over.readings) over.suspensions
unfolding same_reason increment append_bounded contains lookup insert remove append_event
    reset_counter clear_suspension expire_from expire_suspensions read_clock activate_suspension
    apply_rule error_rule api_rule order_rule protection_rule idle_rule evaluate_suspension_rules
    can_open_new_entries check_rules record_entry_failed record_entry_attempt count_protection
    record_protection_result record_orphan_status count_recovery see_polls count_polls
    emit_periodic_summaries write_reports maybe_write_report heartbeat perform run
over_ended = (ground arith, tt)

over_fresh :
    is_stale settings.kill_switch_max_scheduler_idle_sec over.last_poll_ts
      (half_minutes over.readings)
    ≡ false
unfolding same_reason increment append_bounded contains lookup insert remove append_event
    reset_counter clear_suspension expire_from expire_suspensions read_clock activate_suspension
    apply_rule error_rule api_rule order_rule protection_rule idle_rule evaluate_suspension_rules
    can_open_new_entries check_rules record_entry_failed record_entry_attempt count_protection
    record_protection_result record_orphan_status count_recovery see_polls count_polls
    emit_periodic_summaries write_reports maybe_write_report heartbeat perform run
over_fresh = refl

ended_suspensions_open_gate_example :
    ((can_open_new_entries half_minutes settings over).0 ≡ true)
    × ((can_open_new_entries half_minutes settings over).1.suspensions ≡ [])
    × ((j : Reason)
        → contains j over.suspensions ≡ true
        → count_of j (counts (can_open_new_entries half_minutes settings over).1) ≡ 0)
ended_suspensions_open_gate_example =
    ended_suspensions_open_gate half_minutes same_text settings half_minutes-IsMonotone refl
      failures over refl over_ended over_fresh
