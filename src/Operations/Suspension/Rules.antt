-- ===== src/Operations/Suspension/Rules.antt =====
-- `_evaluate_suspension_rules_locked`: it raises suspensions only, and a count that reached its
-- threshold does raise one.
use trading_binance.Base.{
  ℕ, ◌+◌, ◌*◌, ◌≤◌, ◌<◌, ◌≡◌, refl, ap, Bool, true, false, Option, none, some, arith, leb, ltb,
  Bool-cases, inl, inr, if◌then◌else◌, ◌&&◌,
}
use trading_binance.Operations.State.{
  Reason, consecutive_errors, api_degraded, order_failures, protection_failures, scheduler_stale,
  orphan_unrecoverable, OpsSettings, Ops, second, same_reason_refl,
}
use trading_binance.Operations.Suspension.{
  lookup, append_event, read_clock, until_of, outlasts, activate_suspension, apply_rule,
  evaluate_suspension_rules, error_rule, api_rule, order_rule, protection_rule, idle_rule,
}
use trading_binance.Operations.Suspension.Dict.{HeldAt, lookup-insert}
use trading_binance.Operations.Suspension.Raises.{
  Raises, Raises-none, Raises-both, activate-Raises, rule-Raises, counts, Counts,
}

-- A count reached its threshold, where there is one.
abbrev pub IsReached : ℕ → ℕ → Type 0
IsReached threshold count = (0 < threshold) × (threshold ≤ count)

-- The clock never goes back.
abbrev pub IsMonotone : (ℕ → ℕ) → Type 0
IsMonotone clock = (m n : ℕ) → m ≤ n → clock m ≤ clock n

-- The threshold and the count of a rule; the other reasons have none.
abbrev pub threshold_of : OpsSettings → Reason → ℕ
threshold_of settings consecutive_errors = settings.kill_switch_max_consecutive_errors
threshold_of settings api_degraded = settings.kill_switch_max_api_errors
threshold_of settings order_failures = settings.kill_switch_max_order_failures
threshold_of settings protection_failures = settings.kill_switch_max_protection_failures
threshold_of settings scheduler_stale = 0
threshold_of settings orphan_unrecoverable = 0

abbrev pub count_of : Reason → Counts → ℕ
count_of consecutive_errors c = c.errors
count_of api_degraded c = c.api
count_of order_failures c = c.orders
count_of protection_failures c = c.protections
count_of scheduler_stale c = 0
count_of orphan_unrecoverable c = 0

-- `t` is before the end of a suspension of `duration` seconds from `now`, which has none for 0.
abbrev pub IsBefore : ℕ → ℕ → ℕ → Type 0
IsBefore t now duration = 0 < duration → t < now + duration * second

outlasting_lem :
    (t now duration : ℕ) (old : Option (Option ℕ))
    → IsBefore t now duration
    → outlasts old (until_of now duration) ≡ true
    → HeldAt t old
outlasting_lem t now duration none b e = ground arith
outlasting_lem t now duration (some none) b e = tt
outlasting_lem t now duration (some (some a)) b e = ground arith

new_lem : (t now duration : ℕ) → IsBefore t now duration → HeldAt t (some (until_of now duration))
new_lem t now duration b = ground arith

if_Raises :
    {F : Type 0} {settings : OpsSettings} (b : Bool) (s x : Ops F)
    → Raises settings s x
    → Raises settings s (if b then x else s)
if_Raises true s x h = h
if_Raises false s x h = Raises-none s

module _ (clock : ℕ → ℕ) {F : Type 0} (settings : OpsSettings) where
  -- Activation for `duration` holds until that is over.
  pub activate_holds :
      (k : Reason) (duration t : ℕ) (s : Ops F)
      → IsBefore t (clock s.readings) duration
      → HeldAt t (lookup k (activate_suspension clock settings k duration s).suspensions)
  unfolding activate_suspension append_event read_clock
  activate_holds k duration t s b =
      elim (Bool-cases (outlasts (lookup k s.suspensions) (until_of (clock s.readings) duration))) [
        | inl e ↦ rw (e, activate_suspension) (outlasting_lem t (clock s.readings) duration _ b e)
        | inr e ↦
            rw (e, activate_suspension)
              (rw
                (
                  lookup-insert k k (until_of (clock s.readings) duration) s.suspensions,
                  same_reason_refl k,
                )
                (new_lem t (clock s.readings) duration b))
      ]

  rule_holds :
      (threshold count : ℕ) (k : Reason) (t : ℕ) (s : Ops F)
      → 0 < threshold
      → threshold ≤ count
      → IsBefore t (clock s.readings) settings.operational_suspend_sec
      → HeldAt t (lookup k (apply_rule clock settings threshold count k s).suspensions)
  unfolding apply_rule
  rule_holds threshold count k t s p q b =
      rw (reached, apply_rule) (activate_holds k settings.operational_suspend_sec t s b)
    where
      reached : (ltb 0 threshold && leb threshold count) ≡ true
      reached = ground arith

  idle-Raises : (now : ℕ) (s : Ops F) → Raises settings s (idle_rule clock settings now s)
  unfolding idle_rule
  idle-Raises now s =
      if_Raises _ s _
        (activate-Raises clock settings scheduler_stale settings.operational_suspend_sec s)

  error-Raises : (s : Ops F) → Raises settings s (error_rule clock settings s)
  unfolding error_rule
  error-Raises s = rule-Raises clock settings _ _ _ s

  api-Raises : (s : Ops F) → Raises settings s (api_rule clock settings s)
  unfolding api_rule
  api-Raises s = rule-Raises clock settings _ _ _ s

  order-Raises : (s : Ops F) → Raises settings s (order_rule clock settings s)
  unfolding order_rule
  order-Raises s = rule-Raises clock settings _ _ _ s

  protection-Raises : (s : Ops F) → Raises settings s (protection_rule clock settings s)
  unfolding protection_rule
  protection-Raises s = rule-Raises clock settings _ _ _ s

  before_orders :
      (s : Ops F) → Raises settings s (api_rule clock settings (error_rule clock settings s))
  before_orders s = Raises-both s _ _ (error-Raises s) (api-Raises (error_rule clock settings s))

  after_protections :
      (now : ℕ) (s : Ops F)
      → Raises settings s (idle_rule clock settings now (protection_rule clock settings s))
  after_protections now s =
      Raises-both s _ _ (protection-Raises s) (idle-Raises now (protection_rule clock settings s))

  before_protections :
      (s : Ops F)
      → Raises settings s
          (order_rule clock settings (api_rule clock settings (error_rule clock settings s)))
  before_protections s = Raises-both s _ _ (before_orders s) (order-Raises _)

  pub evaluate-Raises :
      (now : ℕ) (s : Ops F) → Raises settings s (evaluate_suspension_rules clock settings now s)
  unfolding evaluate_suspension_rules
  evaluate-Raises now s =
      if_Raises _ s _ (Raises-both s _ _ (before_protections s) (after_protections now _))

  -- What holds after a rule holds after all of them.
  evaluate_if :
      (now : ℕ) (k : Reason) (t : ℕ) (s : Ops F)
      → settings.enable_operational_kill_switches ≡ true
      → HeldAt t (
          lookup k
            (idle_rule clock settings now (
              protection_rule clock settings (
                order_rule clock settings
                  (api_rule clock settings (error_rule clock settings s))))).suspensions)
      → HeldAt t (lookup k (evaluate_suspension_rules clock settings now s).suspensions)
  unfolding evaluate_suspension_rules
  evaluate_if now k t s e h = go settings.enable_operational_kill_switches e
    where
      go :
          (b : Bool)
          → b ≡ true
          → HeldAt t (
              lookup k
                (if b
                  then idle_rule clock settings now (
                      protection_rule clock settings (
                        order_rule clock settings
                          (api_rule clock settings (error_rule clock settings s))))
                  else s).suspensions)
      go true e = h
      go false e = ground arith

  -- A rule whose count is that of an earlier state holds until the suspension from then is over.
  raised_rule_holds :
      (threshold count count2 : ℕ) (k : Reason) (t : ℕ) (s s2 : Ops F)
      → IsMonotone clock
      → Raises settings s s2
      → count2 ≡ count
      → IsReached threshold count
      → IsBefore t (clock s.readings) settings.operational_suspend_sec
      → HeldAt t (lookup k (apply_rule clock settings threshold count2 k s2).suspensions)
  raised_rule_holds threshold count count2 k t s s2 mono r e (p, q) b =
      rule_holds threshold count2 k t s2 p (ground arith)
        (λ h. ground (arith, b h, mono s.readings s2.readings r.later))

  pub evaluate_holds :
      (now : ℕ) (k : Reason) (t : ℕ) (s : Ops F)
      → IsMonotone clock
      → settings.enable_operational_kill_switches ≡ true
      → IsReached (threshold_of settings k) (count_of k (counts s))
      → IsBefore t (clock s.readings) settings.operational_suspend_sec
      → HeldAt t (lookup k (evaluate_suspension_rules clock settings now s).suspensions)
  unfolding error_rule api_rule order_rule protection_rule
  evaluate_holds now consecutive_errors t s mono e h b = evaluate_if now _ t s e (
      (after_protections now _).keeps _ t (
        (order-Raises _).keeps _ t (
          (api-Raises _).keeps _ t
            (raised_rule_holds _ _ _ consecutive_errors t s s mono (Raises-none s) refl h b))))
  evaluate_holds now api_degraded t s mono e h b = evaluate_if now _ t s e (
      (after_protections now _).keeps _ t (
        (order-Raises _).keeps _ t (
          raised_rule_holds _ _ _ api_degraded t s _ mono (error-Raises s)
            (ap (λ c. c.api) (error-Raises s).same) h b)))
  evaluate_holds now order_failures t s mono e h b = evaluate_if now _ t s e (
      (after_protections now _).keeps _ t (
        raised_rule_holds _ _ _ order_failures t s _ mono (before_orders s)
          (ap (λ c. c.orders) (before_orders s).same) h b))
  evaluate_holds now protection_failures t s mono e h b = evaluate_if now _ t s e (
      (idle-Raises now _).keeps _ t (
        raised_rule_holds _ _ _ protection_failures t s _ mono (before_protections s)
          (ap (λ c. c.protections) (before_protections s).same) h b))
  evaluate_holds now scheduler_stale t s mono e h b = ground arith
  evaluate_holds now orphan_unrecoverable t s mono e h b = ground arith
