-- ===== src/Operations/Kept/Handlers.antt =====
-- Every operation of `OperationalService` keeps the invariants and the running suspensions.
use trading_binance.Base.{
  ℕ, ◌+◌, ◌≤◌, refl, Bool, true, false, Option, none, some, String, arith, ltb, ◌*◌, max,
  if◌then◌else◌,
}
use trading_binance.Num.{Float}
use trading_binance.Operations.State.{orphan_unrecoverable, OrphanStatus, OpsSettings, Ops, second}
use trading_binance.Operations.Suspension.{
  read_clock, expire_suspensions, evaluate_suspension_rules, can_open_new_entries,
  active_suspensions,
}
use trading_binance.Operations.Suspension.Raises.{activate-Raises}
use trading_binance.Operations.Suspension.Rules.{IsMonotone, evaluate-Raises}
use trading_binance.Operations.Records.{
  record_startup, record_signal_detected, record_signal_discarded, record_signal_alerted,
  record_entry_attempt, record_entry_executed, record_trade_closed, record_success, record_event,
  check_rules, record_entry_failed, count_protection, count_recovery, record_protection_result,
  record_error, record_orphan_status,
}
use trading_binance.Operations.Heartbeat.{
  see_polls, count_polls, write_reports, emit_periodic_summaries, maybe_write_report, Beat,
  heartbeat,
}
use trading_binance.Operations.Kept.{
  Kept, Kept-none, Kept-both, Raises-Kept, if_Kept, event-Kept, update-Kept, expire-Kept,
  clear_stale-Kept,
}

le_refl : (n : ℕ) → n ≤ n
le_refl n = ground arith

le_next : (n : ℕ) → n ≤ n + 1
le_next n = ground arith

after_next : (n m : ℕ) → n + 1 ≤ m → n ≤ m
after_next n m h = ground arith

module _ {F : Type 0} (clock : ℕ → ℕ) (settings : OpsSettings) where
  pub startup-Kept : (s : Ops F) → Kept clock settings s (record_startup settings s)
  unfolding record_startup
  startup-Kept s = event-Kept _ s s refl refl refl (λ a. a)

  pub detected-Kept : (s : Ops F) → Kept clock settings s (record_signal_detected s)
  unfolding record_signal_detected
  detected-Kept s = update-Kept s _ refl refl (ground arith) (λ a. a)

  pub discarded-Kept :
      (reason : String) (s : Ops F)
      → Kept clock settings s (record_signal_discarded settings reason s)
  unfolding record_signal_discarded
  discarded-Kept reason s = event-Kept _ s _ refl refl refl (λ a. ground arith)

  pub alerted-Kept :
      (symbol : String) (s : Ops F)
      → Kept clock settings s (record_signal_alerted settings symbol s)
  unfolding record_signal_alerted
  alerted-Kept symbol s = event-Kept _ s _ refl refl refl (λ a. a)

  pub attempt-Kept :
      (symbol : String) (s : Ops F) → Kept clock settings s (record_entry_attempt settings symbol s)
  unfolding record_entry_attempt
  attempt-Kept symbol s = event-Kept _ s _ refl refl refl (λ a. ground arith)

  pub executed-Kept :
      (symbol : String) (s : Ops F)
      → Kept clock settings s (record_entry_executed settings symbol s)
  unfolding record_entry_executed
  executed-Kept symbol s = event-Kept _ s _ refl refl refl (λ a. a)

  pub closed-Kept :
      ⦃fl : Float F⦄
      → (pnl : F) (paper : Bool) (equity_after : F) (s : Ops F)
      → Kept clock settings s (record_trade_closed pnl paper equity_after s)
  unfolding record_trade_closed
  closed-Kept pnl paper equity_after s = update-Kept s _ refl refl (ground arith) (λ a. a)

  pub success-Kept :
      (within : String → String → Bool) (stage : Option String) (s : Ops F)
      → Kept clock settings s (record_success within settings stage s)
  unfolding record_success
  success-Kept within none s = update-Kept s _ refl refl (ground arith) (λ a. a)
  success-Kept within (some stage) s = event-Kept _ s _ refl refl refl (λ a. a)

  pub custom-Kept :
      (kind : String) (s : Ops F) → Kept clock settings s (record_event settings kind s)
  unfolding record_event
  custom-Kept kind s = event-Kept _ s s refl refl refl (λ a. a)

  recovery-Kept :
      (status : OrphanStatus) (s : Ops F) → Kept clock settings s (count_recovery status s)
  unfolding count_recovery
  recovery-Kept status s = update-Kept s _ refl refl (ground arith) (λ a. a)

  if_Kept_at :
      (b : Bool) (s x : Ops F) (p : Bool)
      → Kept clock settings s x
      → Kept clock settings s (if◌then◌else◌ {A = Bool × Ops F} b (p, x) (true, s)).1
  if_Kept_at true s x p h = h
  if_Kept_at false s x p h = Kept-none s

  either-Kept :
      (b : Bool) (s x y : Ops F)
      → Kept clock settings s x
      → Kept clock settings s y
      → Kept clock settings s (if b then x else y)
  either-Kept true s x y p q = p
  either-Kept false s x y p q = q

  seen-Kept : (now n : ℕ) (s : Ops F) → Kept clock settings s (see_polls now n s)
  unfolding see_polls
  seen-Kept now n s = update-Kept s _ refl refl (ground arith) (λ a. ground arith)

  polls-Kept :
      IsMonotone clock
      → (now n : ℕ) (s : Ops F) → Kept clock settings s (count_polls settings now n s)
  unfolding count_polls
  polls-Kept mono now n s =
      either-Kept (ltb s.last_seen_event_count n) s _ _
        (Kept-both s _ _ mono (seen-Kept now n s) (clear_stale-Kept _))
        (update-Kept s (record s { last_seen_event_count = n }) refl refl (le_refl _) (λ a. a))

  summaries-Kept :
      (hour day : ℕ) (s : Ops F)
      → Kept clock settings s (emit_periodic_summaries settings hour day s)
  unfolding emit_periodic_summaries
  summaries-Kept hour day s = update-Kept s _ refl refl (ground arith) (λ a. a)

  written-Kept :
      (now : ℕ) (s : Ops F)
      → Kept clock settings s (write_reports (record s { last_report_ts = now }))
  unfolding write_reports
  written-Kept now s = update-Kept s _ refl refl (ground arith) (λ a. a)

  pub report_written-Kept : (s : Ops F) → Kept clock settings s (write_reports s)
  unfolding write_reports
  report_written-Kept s = update-Kept s _ refl refl (ground arith) (λ a. a)

  report-Kept : (now : ℕ) (s : Ops F) → Kept clock settings s (maybe_write_report settings now s)
  unfolding maybe_write_report
  report-Kept now s =
      either-Kept (ltb now (s.last_report_ts + max 10 settings.ops_report_interval_sec * second)) s
        _ _ (Kept-none s) (written-Kept now s)

  module _ (mono : IsMonotone clock) where
    read-Kept : (s : Ops F) → Kept clock settings s (record s { readings = s.readings + 1 })
    read-Kept s = update-Kept s _ refl refl (ground arith) (λ a. a)

    rules-Kept :
        (s x : Ops F)
        → Kept clock settings s x
        → Kept clock settings s (check_rules clock settings x)
    unfolding check_rules read_clock
    rules-Kept s x a = Kept-both s _ _ mono a (
        Kept-both x _ _ mono (read-Kept x)
          (Raises-Kept _ _ (evaluate-Raises clock settings (clock x.readings) _)))

    pub failed-Kept :
        (symbol stage reason : String) (s : Ops F)
        → Kept clock settings s (record_entry_failed clock settings symbol stage reason s)
    unfolding record_entry_failed
    failed-Kept symbol stage reason s =
        rules-Kept s _ (event-Kept _ s _ refl refl refl (λ a. ground arith))

    pub protection-Kept :
        (symbol : String) (ok : Bool) (s : Ops F)
        → Kept clock settings s (record_protection_result clock settings symbol ok s)
    unfolding record_protection_result count_protection
    protection-Kept symbol true s = rules-Kept s _ (event-Kept _ s _ refl refl refl (λ a. a))
    protection-Kept symbol false s =
        rules-Kept s _ (event-Kept _ s _ refl refl refl (λ a. ground arith))

    pub error-Kept :
        (within : String → String → Bool) (err_name stage : String) (given : Option Bool)
        (s : Ops F)
        → Kept clock settings s (record_error clock within settings err_name stage given s)
    unfolding record_error
    error-Kept within err_name stage given s =
        rules-Kept s _ (event-Kept _ s _ refl refl refl (λ a. a))

    pub orphan-Kept :
        (symbol : String) (status : OrphanStatus) (s : Ops F)
        → Kept clock settings s (record_orphan_status clock settings symbol status s)
    unfolding record_orphan_status
    orphan-Kept symbol status s = Kept-both s _ _ mono (event-Kept _ s s refl refl refl (λ a. a)) (
        Kept-both _ _ _ mono (recovery-Kept status _) (
          if_Kept _ _ _ (
            Raises-Kept _ _ (
              activate-Raises clock settings orphan_unrecoverable settings.operational_suspend_sec
                _))))

    pub expired-Kept :
        (s : Ops F)
        → Kept clock settings s (
            expire_suspensions settings (clock s.readings) (record s { readings = s.readings + 1 }))
    expired-Kept s =
        Kept-both s _ _ mono (read-Kept s)
          (expire-Kept (clock s.readings) _ (mono _ _ (ground arith)))

    pub active-Kept : (s : Ops F) → Kept clock settings s (active_suspensions clock settings s).1
    unfolding active_suspensions read_clock
    active-Kept s = expired-Kept s

    checked-Kept :
        (s : Ops F)
        → Kept clock settings s (
            evaluate_suspension_rules clock settings (clock s.readings) (
              expire_suspensions settings
                (clock s.readings)
                (record s { readings = s.readings + 1 })))
    checked-Kept s =
        Kept-both s _ _ mono (expired-Kept s)
          (Raises-Kept _ _ (evaluate-Raises clock settings (clock s.readings) _))

    pub can_open-Kept :
        (s : Ops F) → Kept clock settings s (can_open_new_entries clock settings s).1
    unfolding can_open_new_entries read_clock
    can_open-Kept s = if_Kept_at _ s _ _ (checked-Kept s)

    pub heartbeat-Kept :
        (beat : Beat) (s : Ops F) → Kept clock settings s (heartbeat clock settings beat s)
    unfolding heartbeat read_clock
    heartbeat-Kept beat s =
        Kept-both s _ _ mono
          (Kept-both s _ _ mono (read-Kept s) (update-Kept _ _ refl refl (ground arith) (λ a. a)))
          (Kept-both _ _ _ mono (polls-Kept mono (clock s.readings) beat.event_count _) (
            Kept-both _ _ _ mono
              (expire-Kept (clock s.readings) _ (
                mono s.readings _
                  (after_next _ _ (polls-Kept mono (clock s.readings) beat.event_count _).later)))
              (Kept-both _ _ _ mono
                (Raises-Kept _ _ (evaluate-Raises clock settings (clock s.readings) _))
                (Kept-both _ _ _ mono (summaries-Kept beat.hour beat.day _)
                  (report-Kept (clock s.readings) _)))))
