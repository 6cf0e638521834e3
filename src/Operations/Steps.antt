-- ===== src/Operations/Steps.antt =====
-- The operations of `OperationalService` as actions. Every method holds the lock for all of its
-- body, so what the program's threads do to the service is a list of actions.
use trading_binance.Base.{ℕ, Bool, false, Option, String, List, [], ◌∷◌, refl, arith}
use trading_binance.Num.{Float, zero_float}
use trading_binance.Operations.State.{Counters, OrphanStatus, OpsSettings, Ops}
use trading_binance.Operations.Suspension.{can_open_new_entries, active_suspensions}
use trading_binance.Operations.Suspension.Rules.{IsMonotone}
use trading_binance.Operations.Records.{
  record_startup, record_signal_detected, record_signal_discarded, record_signal_alerted,
  record_entry_attempt, record_entry_executed, record_trade_closed, record_success, record_event,
  record_entry_failed, record_protection_result, record_error, record_orphan_status,
}
use trading_binance.Operations.Heartbeat.{Beat, heartbeat, write_reports}
use trading_binance.Operations.Kept.{IsValid, Kept, Kept-none, Kept-both}
use trading_binance.Operations.Kept.Handlers

pub data Action (F : Type 0) : Type 0 where
  started counted_signal : Action F
  discarded alerted attempted executed noted : String → Action F
  failed : String → String → String → Action F
  protected : String → Bool → Action F
  closed : F → Bool → F → Action F
  erred : String → String → Option Bool → Action F
  succeeded : Option String → Action F
  orphaned : String → OrphanStatus → Action F
  beat : Beat → Action F
  asked_gate asked_suspensions forced_report : Action F

-- `__init__`: the counters start at 0.
abbrev pub no_counters : Counters
no_counters = record {
  heartbeat_count = 0;
  open_positions = 0;
  polls = 0;
  polling_cycles = 0;
  signals_detected = 0;
  signals_discarded = 0;
  signals_rejected = 0;
  signals_alerted = 0;
  entry_attempts = 0;
  entries_attempted = 0;
  entries_executed = 0;
  entries_failed = 0;
  order_failures_count = 0;
  protections_ok = 0;
  protections_failed = 0;
  protection_failures_count = 0;
  trades_closed = 0;
  errors_total = 0;
  api_errors = 0;
  orphan_recoveries = 0;
}

-- The reading of the clock at the start is the first.
abbrev pub new_service : {F : Type 0} → ⦃fl : Float F⦄ → Ops F
new_service = record {
  counters = no_counters;
  paper_realized_pnl = zero_float;
  live_realized_pnl = zero_float;
  error_by_type = [];
  error_by_stage = [];
  recent_events = [];
  paper_equity_events = [];
  scheduler_alive = false;
  last_poll_ts = Option.none;
  last_seen_event_count = 0;
  consecutive_error_count = 0;
  consecutive_api_errors = 0;
  consecutive_order_failures = 0;
  consecutive_protection_failures = 0;
  suspensions = [];
  last_report_ts = 0;
  last_hour_bucket = Option.none;
  last_daily_date = Option.none;
  readings = 1;
  reports = 0;
}

module _ {F : Type 0} ⦃fl : Float F⦄ (clock : ℕ → ℕ) (within : String → String → Bool)
    (settings : OpsSettings) where
  unfoldable pub perform : Action F → Ops F → Ops F
  perform started s = record_startup settings s
  perform counted_signal s = record_signal_detected s
  perform (discarded reason) s = record_signal_discarded settings reason s
  perform (alerted symbol) s = record_signal_alerted settings symbol s
  perform (attempted symbol) s = record_entry_attempt settings symbol s
  perform (executed symbol) s = record_entry_executed settings symbol s
  perform (noted kind) s = record_event settings kind s
  perform (failed symbol stage reason) s = record_entry_failed clock settings symbol stage reason s
  perform (protected symbol ok) s = record_protection_result clock settings symbol ok s
  perform (closed pnl paper equity_after) s = record_trade_closed pnl paper equity_after s
  perform (erred err_name stage given) s = record_error clock within settings err_name stage given s
  perform (succeeded stage) s = record_success within settings stage s
  perform (orphaned symbol status) s = record_orphan_status clock settings symbol status s
  perform (beat b) s = heartbeat clock settings b s
  perform asked_gate s = (can_open_new_entries clock settings s).1
  perform asked_suspensions s = (active_suspensions clock settings s).1
  perform forced_report s = write_reports s

  unfoldable pub run : List (Action F) → Ops F → Ops F
  run [] s = s
  run (action ∷ actions) s = run actions (perform action s)

  module _ (mono : IsMonotone clock) where
    perform-Kept : (action : Action F) (s : Ops F) → Kept clock settings s (perform action s)
    unfolding perform
    perform-Kept started s = Handlers.startup-Kept clock settings s
    perform-Kept counted_signal s = Handlers.detected-Kept clock settings s
    perform-Kept (discarded reason) s = Handlers.discarded-Kept clock settings reason s
    perform-Kept (alerted symbol) s = Handlers.alerted-Kept clock settings symbol s
    perform-Kept (attempted symbol) s = Handlers.attempt-Kept clock settings symbol s
    perform-Kept (executed symbol) s = Handlers.executed-Kept clock settings symbol s
    perform-Kept (noted kind) s = Handlers.custom-Kept clock settings kind s
    perform-Kept (failed symbol stage reason) s =
        Handlers.failed-Kept clock settings mono symbol stage reason s
    perform-Kept (protected symbol ok) s = Handlers.protection-Kept clock settings mono symbol ok s
    perform-Kept (closed pnl paper equity_after) s =
        Handlers.closed-Kept clock settings pnl paper equity_after s
    perform-Kept (erred err_name stage given) s =
        Handlers.error-Kept clock settings mono within err_name stage given s
    perform-Kept (succeeded stage) s = Handlers.success-Kept clock settings within stage s
    perform-Kept (orphaned symbol status) s =
        Handlers.orphan-Kept clock settings mono symbol status s
    perform-Kept (beat b) s = Handlers.heartbeat-Kept clock settings mono b s
    perform-Kept asked_gate s = Handlers.can_open-Kept clock settings mono s
    perform-Kept asked_suspensions s = Handlers.active-Kept clock settings mono s
    perform-Kept forced_report s = Handlers.report_written-Kept clock settings s

    pub run-Kept : (actions : List (Action F)) (s : Ops F) → Kept clock settings s (run actions s)
    unfolding run
    run-Kept [] s = Kept-none s
    run-Kept (action ∷ actions) s =
        Kept-both s _ _ mono (perform-Kept action s) (run-Kept actions (perform action s))

    -- After any list of operations on a new service, whatever the threads' order: no reason is
    -- suspended twice, the recent events are within their limit, and each pair of counters that
    -- is kept under two names agrees.
    pub run-IsValid : (actions : List (Action F)) → IsValid settings (run actions new_service)
    run-IsValid actions =
        (run-Kept actions new_service).valid
          record { unique = tt; events = ground arith; aliases = (refl, refl, refl, refl, refl) }
