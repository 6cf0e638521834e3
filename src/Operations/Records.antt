-- ===== src/Operations/Records.antt =====
-- The `record_*` operations of `OperationalService`: what entries, signals, protections, errors
-- and orphans add to the counters, the events and the rules.
use trading_binance.Base.{
  ℕ, ◌+◌, Bool, true, false, Option, none, some, String, if◌then◌else◌, ◌||◌, ◌&&◌,
}
use trading_binance.Num.{Float, ◌⊕◌}
use trading_binance.Operations.State.{
  orphan_unrecoverable, startup, signal_discarded, signal_alerted, entry_attempt, entry_executed,
  entry_failed, protection_check, error, success, orphan, custom, OpsSettings, Ops, OrphanStatus,
  resumed, unrecoverable, increment, append_bounded,
}
use trading_binance.Operations.Suspension.{
  append_event, read_clock, activate_suspension, evaluate_suspension_rules,
}

abbrev is_resumed : OrphanStatus → Bool
is_resumed resumed = true
is_resumed _ = false

abbrev pub is_unrecoverable : OrphanStatus → Bool
is_unrecoverable unrecoverable = true
is_unrecoverable _ = false

-- `api_related`, or where it is not given what the stage's text says
unfoldable pub is_api_related : (String → String → Bool) → Option Bool → String → Bool
is_api_related within none stage =
    within "api" stage || within "exchange" stage || within "binance" stage
is_api_related within (some related) stage = related

module _ {F : Type 0} where
  unfoldable pub record_startup : OpsSettings → Ops F → Ops F
  record_startup settings s = append_event settings startup s

  unfoldable pub record_signal_detected : Ops F → Ops F
  record_signal_detected s = record s {
    counters = record s.counters { signals_detected = s.counters.signals_detected + 1 };
  }

  unfoldable pub record_signal_discarded : OpsSettings → String → Ops F → Ops F
  record_signal_discarded settings reason s =
      append_event settings (signal_discarded reason) (record s {
        counters = record s.counters {
          signals_discarded = s.counters.signals_discarded + 1;
          signals_rejected = s.counters.signals_rejected + 1;
        };
      })

  unfoldable pub record_signal_alerted : OpsSettings → String → Ops F → Ops F
  record_signal_alerted settings symbol s =
      append_event settings (signal_alerted symbol) (record s {
        counters = record s.counters { signals_alerted = s.counters.signals_alerted + 1 };
      })

  unfoldable pub record_entry_attempt : OpsSettings → String → Ops F → Ops F
  record_entry_attempt settings symbol s = append_event settings (entry_attempt symbol) (record s {
    counters = record s.counters {
      entry_attempts = s.counters.entry_attempts + 1;
      entries_attempted = s.counters.entries_attempted + 1;
    };
  })

  unfoldable pub record_entry_executed : OpsSettings → String → Ops F → Ops F
  record_entry_executed settings symbol s =
      append_event settings (entry_executed symbol) (record s {
        counters = record s.counters { entries_executed = s.counters.entries_executed + 1 };
        consecutive_order_failures = 0;
      })

  -- `{pnl, paper, equity_after}` of a closed trade
  unfoldable pub record_trade_closed : ⦃fl : Float F⦄ → F → Bool → F → Ops F → Ops F
  record_trade_closed ⦃fl = fl⦄ pnl paper equity_after s = record s {
    counters = record s.counters { trades_closed = s.counters.trades_closed + 1 };
    paper_realized_pnl = if paper then s.paper_realized_pnl ⊕ pnl else s.paper_realized_pnl;
    live_realized_pnl = if paper then s.live_realized_pnl else s.live_realized_pnl ⊕ pnl;
    paper_equity_events =
        if paper
        then append_bounded 5_000 s.paper_equity_events (fl.round_to equity_after 8)
        else s.paper_equity_events;
  }

  -- `within part stage` is `part in stage.lower()`; `none` is the empty stage.
  unfoldable pub record_success :
      (String → String → Bool) → OpsSettings → Option String → Ops F → Ops F
  record_success within settings none s = record s { consecutive_error_count = 0 }
  record_success within settings (some stage) s = append_event settings (success stage) (record s {
    consecutive_error_count = 0;
    consecutive_api_errors =
        if within "api" stage || within "exchange" stage then 0 else s.consecutive_api_errors;
  })

  unfoldable pub record_event : OpsSettings → String → Ops F → Ops F
  record_event settings kind s = append_event settings (custom kind) s

  unfoldable pub count_protection : Bool → Ops F → Ops F
  count_protection true s = record s {
    counters = record s.counters { protections_ok = s.counters.protections_ok + 1 };
    consecutive_protection_failures = 0;
  }
  count_protection false s = record s {
    counters = record s.counters {
      protections_failed = s.counters.protections_failed + 1;
      protection_failures_count = s.counters.protection_failures_count + 1;
    };
    consecutive_protection_failures = s.consecutive_protection_failures + 1;
  }

  unfoldable pub count_recovery : OrphanStatus → Ops F → Ops F
  count_recovery status s = record s {
    counters = record s.counters {
      orphan_recoveries =
          if is_resumed status
          then s.counters.orphan_recoveries + 1
          else s.counters.orphan_recoveries;
    };
  }

module _ (clock : ℕ → ℕ) where
  -- `self._evaluate_suspension_rules_locked(time.time())`
  unfoldable pub check_rules : {F : Type 0} → OpsSettings → Ops F → Ops F
  check_rules settings s0 =
      let (now, s) = read_clock clock s0 in evaluate_suspension_rules clock settings now s

  unfoldable pub record_entry_failed :
      {F : Type 0} → OpsSettings → String → String → String → Ops F → Ops F
  record_entry_failed settings symbol stage reason s = check_rules settings (
      append_event settings (entry_failed symbol stage reason) (record s {
        counters = record s.counters {
          entries_failed = s.counters.entries_failed + 1;
          order_failures_count = s.counters.order_failures_count + 1;
        };
        consecutive_order_failures = s.consecutive_order_failures + 1;
      }))

  unfoldable pub record_protection_result :
      {F : Type 0} → OpsSettings → String → Bool → Ops F → Ops F
  record_protection_result settings symbol ok s =
      check_rules settings
        (append_event settings (protection_check symbol ok) (count_protection ok s))

  unfoldable pub record_error :
      {F : Type 0}
      → (String → String → Bool)
      → OpsSettings
      → String
      → String
      → Option Bool
      → Ops F
      → Ops F
  record_error within settings err_name stage given s =
      let api_related = is_api_related within given stage in
      check_rules settings (
        append_event settings (error stage) (record s {
          error_by_type = increment err_name s.error_by_type;
          error_by_stage = increment stage s.error_by_stage;
          counters = record s.counters {
            errors_total = s.counters.errors_total + 1;
            api_errors = if api_related then s.counters.api_errors + 1 else s.counters.api_errors;
          };
          consecutive_error_count = s.consecutive_error_count + 1;
          consecutive_api_errors =
              if api_related then s.consecutive_api_errors + 1 else s.consecutive_api_errors;
        }))

  unfoldable pub record_orphan_status :
      {F : Type 0} → OpsSettings → String → OrphanStatus → Ops F → Ops F
  record_orphan_status settings symbol status s0 =
      let s = count_recovery status (append_event settings (orphan symbol status) s0) in
      if is_unrecoverable status && settings.kill_switch_pause_on_orphan_unrecoverable
      then activate_suspension clock settings orphan_unrecoverable settings.operational_suspend_sec
          s
      else s
