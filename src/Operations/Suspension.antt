-- ===== src/Operations/Suspension.antt =====
-- The suspensions of `OperationalService`: activation, expiry and the rules. `clock n` is the
-- result of the n-th call of `time.time()`.
pub mod Dict
pub mod Bounds
pub mod Raises
pub mod Rules
use trading_binance.Base.{
  ℕ, ◌+◌, ◌*◌, ◌≡◌, Bool, true, false, not, ◌&&◌, ◌||◌, Option, none, some, List, [], ◌∷◌, ltb, leb,
  max, if◌then◌else◌,
}
use trading_binance.Operations.State.{
  Reason, consecutive_errors, api_degraded, order_failures, protection_failures, scheduler_stale,
  orphan_unrecoverable, same_reason, Suspensions, Event, suspension_on, suspension_off, OpsSettings,
  Ops, second, append_bounded,
}

-- `reason in self._suspensions`
unfoldable pub contains : Reason → Suspensions → Bool
contains reason [] = false
contains reason ((other, until) ∷ rest) = same_reason other reason || contains reason rest

-- `self._suspensions.get(reason)`, where the outer `none` is a key that is not there
unfoldable pub lookup : Reason → Suspensions → Option (Option ℕ)
lookup reason [] = none
lookup reason ((other, until) ∷ rest) =
    if same_reason other reason then some until else lookup reason rest

-- `self._suspensions[reason] = until`
unfoldable pub insert : Reason → Option ℕ → Suspensions → Suspensions
insert reason until [] = (reason, until) ∷ []
insert reason until ((other, old) ∷ rest) =
    if same_reason other reason
    then (other, until) ∷ rest
    else (other, old) ∷ insert reason until rest

-- `self._suspensions.pop(reason, None)`
unfoldable pub remove : Reason → Suspensions → Suspensions
remove reason [] = []
remove reason ((other, until) ∷ rest) =
    if same_reason other reason then rest else (other, until) ∷ remove reason rest

-- `len(self._suspensions) == 0`
abbrev pub is_empty : Suspensions → Bool
is_empty [] = true
is_empty (x ∷ xs) = false

module _ {F : Type 0} where
  unfoldable pub append_event : OpsSettings → Event → Ops F → Ops F
  append_event settings event s = record s {
    recent_events = append_bounded (max 5 settings.ops_recent_events) s.recent_events event;
  }

  -- the counter that raised a suspension starts again
  unfoldable pub reset_counter : Reason → Ops F → Ops F
  reset_counter reason s = record s {
    consecutive_error_count =
        if same_reason reason consecutive_errors then 0 else s.consecutive_error_count;
    consecutive_api_errors =
        if same_reason reason api_degraded then 0 else s.consecutive_api_errors;
    consecutive_order_failures =
        if same_reason reason order_failures then 0 else s.consecutive_order_failures;
    consecutive_protection_failures =
        if same_reason reason protection_failures then 0 else s.consecutive_protection_failures;
  }

  unfoldable pub clear_suspension : OpsSettings → Reason → Ops F → Ops F
  clear_suspension settings reason s =
      if contains reason s.suspensions
      then append_event settings (suspension_off reason)
          (reset_counter reason (record s { suspensions = remove reason s.suspensions }))
      else s

  -- the loop over `list(self._suspensions.items())`
  unfoldable pub expire_from : OpsSettings → ℕ → Suspensions → Ops F → Ops F
  expire_from settings now [] s = s
  expire_from settings now ((reason, none) ∷ rest) s = expire_from settings now rest s
  expire_from settings now ((reason, some until) ∷ rest) s =
      expire_from settings now rest
        (if leb until now then clear_suspension settings reason s else s)

  unfoldable pub expire_suspensions : OpsSettings → ℕ → Ops F → Ops F
  expire_suspensions settings now s = expire_from settings now s.suspensions s

-- the end of a suspension that begins now
abbrev pub until_of : ℕ → ℕ → Option ℕ
until_of now duration = if ltb 0 duration then some (now + duration * second) else none

-- whether the suspension that is there outlasts the new one
abbrev pub outlasts : Option (Option ℕ) → Option ℕ → Bool
outlasts none until = false
outlasts (some none) until = true
outlasts (some (some existing)) none = false
outlasts (some (some existing)) (some until) = leb until existing

-- no poll for longer than the limit
abbrev pub is_stale : ℕ → Option ℕ → ℕ → Bool
is_stale limit none now = false
is_stale limit (some polled) now = ltb 0 limit && ltb (polled + limit * second) now

module _ (clock : ℕ → ℕ) where
  -- one call of `time.time()`
  unfoldable pub read_clock : {F : Type 0} → Ops F → ℕ × Ops F
  read_clock s = (clock s.readings, record s { readings = s.readings + 1 })

  unfoldable pub activate_suspension : {F : Type 0} → OpsSettings → Reason → ℕ → Ops F → Ops F
  activate_suspension settings reason duration s0 =
      let (now, s) = read_clock s0 in
      let until = until_of now duration in
      if outlasts (lookup reason s.suspensions) until
      then s
      else append_event settings (suspension_on reason until)
          (record s { suspensions = insert reason until s.suspensions })

  -- one rule: a count that reached its threshold, where there is one
  unfoldable pub apply_rule : {F : Type 0} → OpsSettings → ℕ → ℕ → Reason → Ops F → Ops F
  apply_rule settings threshold count reason s =
      if ltb 0 threshold && leb threshold count
      then activate_suspension settings reason settings.operational_suspend_sec s
      else s

  module _ {F : Type 0} (settings : OpsSettings) where
    unfoldable pub error_rule : Ops F → Ops F
    error_rule s =
        apply_rule settings settings.kill_switch_max_consecutive_errors s.consecutive_error_count
          consecutive_errors s

    unfoldable pub api_rule : Ops F → Ops F
    api_rule s =
        apply_rule settings settings.kill_switch_max_api_errors s.consecutive_api_errors
          api_degraded s

    unfoldable pub order_rule : Ops F → Ops F
    order_rule s =
        apply_rule settings settings.kill_switch_max_order_failures s.consecutive_order_failures
          order_failures s

    unfoldable pub protection_rule : Ops F → Ops F
    protection_rule s =
        apply_rule settings settings.kill_switch_max_protection_failures
          s.consecutive_protection_failures protection_failures s

    unfoldable pub idle_rule : ℕ → Ops F → Ops F
    idle_rule now s =
        if is_stale settings.kill_switch_max_scheduler_idle_sec s.last_poll_ts now
        then activate_suspension settings scheduler_stale settings.operational_suspend_sec s
        else s

    unfoldable pub evaluate_suspension_rules : ℕ → Ops F → Ops F
    evaluate_suspension_rules now s =
        if settings.enable_operational_kill_switches
        then idle_rule now (protection_rule (order_rule (api_rule (error_rule s))))
        else s

  -- `can_open_new_entries`
  unfoldable pub can_open_new_entries : {F : Type 0} → OpsSettings → Ops F → Bool × Ops F
  can_open_new_entries settings s0 =
      let (now, s) = read_clock s0 in
      let checked = evaluate_suspension_rules settings now (expire_suspensions settings now s) in
      if settings.enable_operational_kill_switches
      then (is_empty checked.suspensions, checked)
      else (true, s0)

  -- `active_suspensions`, in the order of the dict
  unfoldable pub active_suspensions : {F : Type 0} → OpsSettings → Ops F → Suspensions × Ops F
  active_suspensions settings s0 =
      let (now, s) = read_clock s0 in
      let expired = expire_suspensions settings now s in (expired.suspensions, expired)
