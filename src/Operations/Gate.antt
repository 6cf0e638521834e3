-- ===== src/Operations/Gate.antt =====
-- `can_open_new_entries`: while a suspension is running no new entry is allowed, whatever else
-- happens to the service.
pub mod Reopen
pub mod Raised
pub mod Always
use trading_binance.Base.{
  ℕ, ◌+◌, ◌*◌, ◌≤◌, ◌<◌, ◌≡◌, Bool, true, false, Option, none, some, String, List, [], ◌∷◌, refl,
  arith, ◌&&◌, if◌then◌else◌, subst, sym, ◌∙◌,
}
use trading_binance.Num.{Float}
use trading_binance.Operations.State.{
  Reason, scheduler_stale, order_failures, orphan_unrecoverable, OrphanStatus, unrecoverable,
  Suspensions, OpsSettings, Ops, same_reason,
}
use trading_binance.Operations.Suspension.{
  lookup, is_empty, read_clock, append_event, expire_suspensions, evaluate_suspension_rules,
  can_open_new_entries, activate_suspension,
}
use trading_binance.Operations.Suspension.Dict.{HeldAt, IsUnique}
use trading_binance.Operations.Suspension.Bounds.{expire-keeps}
use trading_binance.Operations.Suspension.Raises.{Raises, counts}
use trading_binance.Operations.Suspension.Rules.{
  IsMonotone, IsReached, IsBefore, evaluate-Raises, evaluate_holds, activate_holds,
}
use trading_binance.Operations.Records.{
  record_entry_failed, check_rules, record_orphan_status, count_recovery,
}
use trading_binance.Operations.Kept.{IsValid, Kept}
use trading_binance.Operations.Kept.Handlers.{failed-Kept, orphan-Kept}
use trading_binance.Operations.Steps.{Action, run, run-Kept}

held_not_empty : (t : ℕ) (r : Reason) (d : Suspensions) → HeldAt t (lookup r d) → is_empty d ≡ false
unfolding lookup
held_not_empty t r [] h = absurd h
held_not_empty t r (x ∷ d) h = refl

orders_not_stale : same_reason scheduler_stale order_failures ≡ false
unfolding same_reason
orders_not_stale = refl

orphan_not_stale : same_reason scheduler_stale orphan_unrecoverable ≡ false
unfolding same_reason
orphan_not_stale = refl

module _ {F : Type 0} ⦃fl : Float F⦄ (clock : ℕ → ℕ) (within : String → String → Bool)
    (settings : OpsSettings) where
  held_shuts_gate :
      (r : Reason) (s : Ops F)
      → settings.enable_operational_kill_switches ≡ true
      → IsValid settings s
      → HeldAt (clock s.readings) (lookup r s.suspensions)
      → (can_open_new_entries clock settings s).0 ≡ false
  unfolding can_open_new_entries read_clock
  held_shuts_gate r s e v h = shut settings.enable_operational_kill_switches e
    where
      checked : Ops F
      checked =
          evaluate_suspension_rules clock settings (clock s.readings) (
            expire_suspensions settings (clock s.readings) (record s { readings = s.readings + 1 }))

      empty : is_empty checked.suspensions ≡ false
      empty = held_not_empty (clock s.readings) r checked.suspensions (
          (evaluate-Raises clock settings (clock s.readings) _).keeps r (clock s.readings) (
            expire-keeps settings r (clock s.readings) (clock s.readings)
              (record s { readings = s.readings + 1 }) (ground arith) v.unique h))

      shut :
          (b : Bool)
          → b ≡ true
          → (if◌then◌else◌ {A = Bool × Ops F} b (is_empty checked.suspensions, checked) (true, s)).0
            ≡ false
      shut true e = empty
      shut false e = ground arith

  -- A suspension that runs, for any reason but a stale scheduler, refuses new entries until it is
  -- over, whatever operations come before the question, in any order: the clock never goes back,
  -- the switches are enabled, the state is valid, and the suspension ends after the time at which
  -- the question is asked.
  pub suspension_holds :
      (actions : List (Action F)) (r : Reason) (s : Ops F)
      → IsMonotone clock
      → settings.enable_operational_kill_switches ≡ true
      → IsValid settings s
      → same_reason scheduler_stale r ≡ false
      → HeldAt (clock (run clock within settings actions s).readings) (lookup r s.suspensions)
      → (can_open_new_entries clock settings (run clock within settings actions s)).0 ≡ false
  suspension_holds actions r s mono e v differ h =
      held_shuts_gate r _ e (k.valid v)
        (k.held r (clock (run clock within settings actions s).readings) differ (ground arith) v h)
    where
      k : Kept clock settings s (run clock within settings actions s)
      k = run-Kept clock within settings mono actions s

  suspended_until :
      (actions : List (Action F)) (r : Reason) (s s2 : Ops F)
      → IsMonotone clock
      → settings.enable_operational_kill_switches ≡ true
      → IsValid settings s
      → same_reason scheduler_stale r ≡ false
      → s2 ≡ run clock within settings actions s
      → HeldAt (clock s2.readings) (lookup r s.suspensions)
      → (can_open_new_entries clock settings s2).0 ≡ false
  suspended_until actions r s s2 mono e v differ same h =
      subst (λ x. (can_open_new_entries clock settings x).0 ≡ false) (sym same)
        (suspension_holds actions r s mono e v differ
          (subst (λ x. HeldAt (clock x.readings) (lookup r s.suspensions)) same h))

  failed_holds :
      (symbol stage reason : String) (t : ℕ) (s : Ops F)
      → IsMonotone clock
      → settings.enable_operational_kill_switches ≡ true
      → IsReached settings.kill_switch_max_order_failures (s.consecutive_order_failures + 1)
      → IsBefore t (clock s.readings) settings.operational_suspend_sec
      → HeldAt t (
          lookup order_failures
            (record_entry_failed clock settings symbol stage reason s).suspensions)
  unfolding record_entry_failed check_rules read_clock append_event
  failed_holds symbol stage reason t s mono e h b =
      evaluate_holds clock settings (clock s.readings) order_failures t _ mono e h
        (λ p. ground (arith, b p, mono s.readings (s.readings + 1)))

  -- The entry that fails as the configured number in a row closes the gate: from then until the
  -- suspension's seconds are over (for ever, where they are 0) every question is answered with
  -- no, whatever operations come between.
  pub failed_entries_shut_gate :
      (symbol stage reason : String) (actions : List (Action F)) (s s2 : Ops F)
      → IsMonotone clock
      → settings.enable_operational_kill_switches ≡ true
      → IsValid settings s
      → IsReached settings.kill_switch_max_order_failures (s.consecutive_order_failures + 1)
      → s2
        ≡ run clock within settings actions
            (record_entry_failed clock settings symbol stage reason s)
      → IsBefore (clock s2.readings) (clock s.readings) settings.operational_suspend_sec
      → (can_open_new_entries clock settings s2).0 ≡ false
  failed_entries_shut_gate symbol stage reason actions s s2 mono e v h same b =
      suspended_until actions order_failures _ s2 mono e
        ((failed-Kept clock settings mono symbol stage reason s).valid v) orders_not_stale same
        (failed_holds symbol stage reason (clock s2.readings) s mono e h b)

  orphan_holds :
      (symbol : String) (t : ℕ) (s : Ops F)
      → settings.kill_switch_pause_on_orphan_unrecoverable ≡ true
      → IsBefore t (clock s.readings) settings.operational_suspend_sec
      → HeldAt t (
          lookup orphan_unrecoverable
            (record_orphan_status clock settings symbol unrecoverable s).suspensions)
  unfolding record_orphan_status append_event count_recovery
  orphan_holds symbol t s e b =
      suspended settings.kill_switch_pause_on_orphan_unrecoverable _ _ e
        (activate_holds clock settings orphan_unrecoverable settings.operational_suspend_sec t _ b)
    where
      suspended :
          (c : Bool) (x y : Ops F)
          → c ≡ true
          → HeldAt t (lookup orphan_unrecoverable x.suspensions)
          → HeldAt t (lookup orphan_unrecoverable (if c then x else y).suspensions)
      suspended true x y e h = h
      suspended false x y e h = ground arith

  -- An orphan that cannot be recovered closes the gate where the settings say so: from then
  -- until the suspension's seconds are over (for ever, where they are 0) every question is
  -- answered with no, whatever operations come between.
  pub orphan_shuts_gate :
      (symbol : String) (actions : List (Action F)) (s s2 : Ops F)
      → IsMonotone clock
      → settings.enable_operational_kill_switches ≡ true
      → settings.kill_switch_pause_on_orphan_unrecoverable ≡ true
      → IsValid settings s
      → s2
        ≡ run clock within settings actions
            (record_orphan_status clock settings symbol unrecoverable s)
      → IsBefore (clock s2.readings) (clock s.readings) settings.operational_suspend_sec
      → (can_open_new_entries clock settings s2).0 ≡ false
  orphan_shuts_gate symbol actions s s2 mono e p v same b =
      suspended_until actions orphan_unrecoverable _ s2 mono e
        ((orphan-Kept clock settings mono symbol unrecoverable s).valid v) orphan_not_stale same
        (orphan_holds symbol (clock s2.readings) s p b)
