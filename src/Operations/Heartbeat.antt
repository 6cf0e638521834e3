-- ===== src/Operations/Heartbeat.antt =====
-- `heartbeat` of `OperationalService`: the polls counted from the scheduler's status, the expiry,
-- the rules, the periodic summaries and the report; and `_compute_health_locked`. What
-- only reports print (durations, the risk snapshot) is left out.
use trading_binance.Base.{
  ℕ, ◌+◌, ◌-◌, ◌*◌, Bool, false, Option, none, some, ltb, max, not, ◌&&◌, ◌==◌, if◌then◌else◌,
}
use trading_binance.Operations.State.{scheduler_stale, OpsSettings, Ops, second}
use trading_binance.Operations.Suspension.{
  is_empty, read_clock, clear_suspension, expire_suspensions, evaluate_suspension_rules, is_stale,
}

-- `key != self._last_hour_bucket`
abbrev is_bucket : Option ℕ → ℕ → Bool
is_bucket none key = false
is_bucket (some old) key = old == key

module _ {F : Type 0} where
  -- the events the scheduler counted since the last heartbeat
  unfoldable pub see_polls : ℕ → ℕ → Ops F → Ops F
  see_polls now event_count s = record s {
    counters = record s.counters {
      polls = s.counters.polls + (event_count - s.last_seen_event_count);
      polling_cycles = s.counters.polling_cycles + (event_count - s.last_seen_event_count);
    };
    last_seen_event_count = event_count;
    last_poll_ts = some now;
  }

  unfoldable pub count_polls : OpsSettings → ℕ → ℕ → Ops F → Ops F
  count_polls settings now event_count s =
      if ltb s.last_seen_event_count event_count
      then clear_suspension settings scheduler_stale (see_polls now event_count s)
      else record s { last_seen_event_count = event_count }

  -- `_maybe_emit_periodic_summaries_locked`; an alert is dropped. `hour` and `day` are the numbers
  -- of the calendar's hour and day that the two calls of `datetime.now` give.
  unfoldable pub emit_periodic_summaries : OpsSettings → ℕ → ℕ → Ops F → Ops F
  emit_periodic_summaries settings hour day s = record s {
    last_hour_bucket =
        if settings.ops_hourly_summary && not (is_bucket s.last_hour_bucket hour)
        then some hour
        else s.last_hour_bucket;
    last_daily_date =
        if settings.ops_daily_summary && not (is_bucket s.last_daily_date day)
        then some day
        else s.last_daily_date;
  }

  -- `_write_reports_locked`, which reads the clock once more
  unfoldable pub write_reports : Ops F → Ops F
  write_reports s = record s { readings = s.readings + 1; reports = s.reports + 1 }

  unfoldable pub maybe_write_report : OpsSettings → ℕ → Ops F → Ops F
  maybe_write_report settings now s =
      if ltb now (s.last_report_ts + max 10 settings.ops_report_interval_sec * second)
      then s
      else write_reports (record s { last_report_ts = now })

pub data Health : Type 0 where
  paused degraded healthy : Health

-- `_compute_health_locked`
unfoldable pub compute_health : {F : Type 0} → OpsSettings → ℕ → Ops F → Health
compute_health settings now s =
    if not (is_empty s.suspensions)
    then paused
    else if not s.scheduler_alive
    then degraded
    else if is_stale settings.kill_switch_max_scheduler_idle_sec s.last_poll_ts now
    then degraded
    else healthy

-- The fields of `stream_status` that the service acts on, and what the calendar says.
pub record Beat : Type 0 where
  pub alive : Bool
  pub event_count : ℕ
  pub open_count : ℕ
  pub hour : ℕ
  pub day : ℕ

module _ (clock : ℕ → ℕ) {F : Type 0} where
  -- The reading of the clock, which comes just before the lock is taken, is part of the step.
  unfoldable pub heartbeat : OpsSettings → Beat → Ops F → Ops F
  heartbeat settings beat s0 =
      let (now, s1) = read_clock clock s0 in
      let s2 = record s1 {
        counters = record s1.counters {
          heartbeat_count = s1.counters.heartbeat_count + 1;
          open_positions = beat.open_count;
        };
        scheduler_alive = beat.alive;
      } in
      let s3 = count_polls settings now beat.event_count s2 in
      let s4 = expire_suspensions settings now s3 in
      let s5 = evaluate_suspension_rules clock settings now s4 in
      maybe_write_report settings now (emit_periodic_summaries settings beat.hour beat.day s5)
