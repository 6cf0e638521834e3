-- ===== src/Operations/State.antt =====
-- The state of `OperationalService` (services/operational_service.py). Times are whole
-- microseconds, and the settings are not negative, as config.py sees to. The texts of event
-- details, the trace ids and the time stamps of events are left out.
use trading_binance.Base.{
  ℕ, zero, suc, ◌+◌, ◌≤◌, ◌≡◌, refl, sym, ap, ◌∙◌, Bool, true, Option, List, [], ◌∷◌, ◌++◌, String,
  str_eq, length, length-append, drop, ltb, ◌==◌, if◌then◌else◌, arith,
}

eq_of_test : (m n : ℕ) → (m == n) ≡ true → m ≡ n
eq_of_test m n h = ground arith

-- The keys of `_suspensions`.
pub data Reason : Type 0 where
  consecutive_errors api_degraded order_failures protection_failures : Reason
  scheduler_stale orphan_unrecoverable : Reason

abbrev reason_code : Reason → ℕ
reason_code consecutive_errors = 0
reason_code api_degraded = 1
reason_code order_failures = 2
reason_code protection_failures = 3
reason_code scheduler_stale = 4
reason_code orphan_unrecoverable = 5

unfoldable pub same_reason : Reason → Reason → Bool
same_reason a b = reason_code a == reason_code b

reason_of : ℕ → Reason
reason_of zero = consecutive_errors
reason_of (suc zero) = api_degraded
reason_of (suc (suc zero)) = order_failures
reason_of (suc (suc (suc zero))) = protection_failures
reason_of (suc (suc (suc (suc zero)))) = scheduler_stale
reason_of (suc (suc (suc (suc (suc n))))) = orphan_unrecoverable

reason_of-reason_code : (a : Reason) → reason_of (reason_code a) ≡ a
unfolding reason_of
reason_of-reason_code consecutive_errors = refl
reason_of-reason_code api_degraded = refl
reason_of-reason_code order_failures = refl
reason_of-reason_code protection_failures = refl
reason_of-reason_code scheduler_stale = refl
reason_of-reason_code orphan_unrecoverable = refl

pub same_reason_refl : (a : Reason) → same_reason a a ≡ true
unfolding same_reason
same_reason_refl a = ground arith

pub same_reason_eq : (a b : Reason) → same_reason a b ≡ true → a ≡ b
unfolding same_reason
same_reason_eq a b h =
    sym (reason_of-reason_code a)
    ∙ ap reason_of (eq_of_test (reason_code a) (reason_code b) h)
    ∙ reason_of-reason_code b

-- `_suspensions: dict[str, float | None]`; `none` never ends.
abbrev pub Suspensions : Type 0
Suspensions = List (Reason × Option ℕ)

-- The statuses of `record_orphan_status`.
pub data OrphanStatus : Type 0 where
  detected resumed unrecoverable forced_close_submitted : OrphanStatus

pub data Event : Type 0 where
  startup : Event
  signal_discarded : String → Event
  signal_alerted : String → Event
  entry_attempt : String → Event
  entry_executed : String → Event
  entry_failed : String → String → String → Event
  protection_check : String → Bool → Event
  error : String → Event
  success : String → Event
  orphan : String → OrphanStatus → Event
  suspension_on : Reason → Option ℕ → Event
  suspension_off : Reason → Event
  custom : String → Event

-- The keys of `_counters` that count.
pub record Counters : Type 0 where
  pub heartbeat_count : ℕ
  pub open_positions : ℕ
  pub polls : ℕ
  pub polling_cycles : ℕ
  pub signals_detected : ℕ
  pub signals_discarded : ℕ
  pub signals_rejected : ℕ
  pub signals_alerted : ℕ
  pub entry_attempts : ℕ
  pub entries_attempted : ℕ
  pub entries_executed : ℕ
  pub entries_failed : ℕ
  pub order_failures_count : ℕ
  pub protections_ok : ℕ
  pub protections_failed : ℕ
  pub protection_failures_count : ℕ
  pub trades_closed : ℕ
  pub errors_total : ℕ
  pub api_errors : ℕ
  pub orphan_recoveries : ℕ

-- `Settings` of config.py, as far as the service reads it.
pub record OpsSettings : Type 0 where
  pub enable_operational_kill_switches : Bool
  pub kill_switch_max_consecutive_errors : ℕ
  pub kill_switch_max_api_errors : ℕ
  pub kill_switch_max_order_failures : ℕ
  pub kill_switch_max_protection_failures : ℕ
  pub kill_switch_max_scheduler_idle_sec : ℕ
  pub kill_switch_pause_on_orphan_unrecoverable : Bool
  pub operational_suspend_sec : ℕ
  pub ops_report_interval_sec : ℕ
  pub ops_recent_events : ℕ
  pub ops_hourly_summary : Bool
  pub ops_daily_summary : Bool

-- `paper_equity_events` holds the equities; `readings` counts the calls of `time.time()` so far,
-- and `reports` the reports written.
pub record Ops (F : Type 0) : Type 0 where
  pub counters : Counters
  pub paper_realized_pnl : F
  pub live_realized_pnl : F
  pub error_by_type : List (String × ℕ)
  pub error_by_stage : List (String × ℕ)
  pub recent_events : List Event
  pub paper_equity_events : List F
  pub scheduler_alive : Bool
  pub last_poll_ts : Option ℕ
  pub last_seen_event_count : ℕ
  pub consecutive_error_count : ℕ
  pub consecutive_api_errors : ℕ
  pub consecutive_order_failures : ℕ
  pub consecutive_protection_failures : ℕ
  pub suspensions : Suspensions
  pub last_report_ts : ℕ
  pub last_hour_bucket : Option ℕ
  pub last_daily_date : Option ℕ
  pub readings : ℕ
  pub reports : ℕ

abbrev pub second : ℕ
second = 1_000_000

-- `counter[key] += 1`
unfoldable pub increment : String → List (String × ℕ) → List (String × ℕ)
increment key [] = (key, 1) ∷ []
increment key ((other, n) ∷ rest) =
    if str_eq other key then (other, n + 1) ∷ rest else (other, n) ∷ increment key rest

-- `append` of a `deque(maxlen=limit)`
unfoldable pub append_bounded {ℓ} : {A : Type ℓ} → ℕ → List A → A → List A
append_bounded limit items item =
    let longer = items ++ (item ∷ []) in if ltb limit (length longer) then drop 1 longer else longer

-- A deque never grows beyond its limit.
pub length-append_bounded {ℓ} :
    {A : Type ℓ} (limit : ℕ) (items : List A) (item : A)
    → length items ≤ limit
    → length (append_bounded limit items item) ≤ limit
unfolding append_bounded
length-append_bounded limit [] item h = ground arith
length-append_bounded limit (x ∷ xs) item h = ground (arith, length-append xs (item ∷ []))
