-- ===== src/Operations/Gate/Raised.antt =====
-- While the switches are enabled, a count that reached its threshold always has its suspension.
use trading_binance.Base.{
  ℕ, ◌≤◌, ◌≡◌, Bool, true, false, Option, none, some, [], ◌∷◌, arith, leb, ◌&&◌, if◌then◌else◌,
  Bool-cases, inl, inr, subst, sym, ap,
}
use trading_binance.Operations.State.{
  Reason, consecutive_errors, api_degraded, order_failures, protection_failures, scheduler_stale,
  orphan_unrecoverable, Suspensions, OpsSettings, Ops, same_reason, same_reason_eq,
}
use trading_binance.Operations.Suspension.{
  lookup, contains, insert, remove, read_clock, append_event, reset_counter, clear_suspension,
  expire_from, expire_suspensions, until_of, activate_suspension, evaluate_suspension_rules,
}
use trading_binance.Operations.Suspension.Dict.{HeldAt}
use trading_binance.Operations.Suspension.Bounds.{suspensions-clear}
use trading_binance.Operations.Suspension.Raises.{counts, activate-Raises}
use trading_binance.Operations.Suspension.Rules.{
  IsMonotone, IsReached, threshold_of, count_of, evaluate-Raises, evaluate_holds,
}
use trading_binance.Operations.Gate.Reopen.{IsRaised}

held-contains : (t : ℕ) (j : Reason) (d : Suspensions) → HeldAt t (lookup j d) → contains j d ≡ true
unfolding lookup contains
held-contains t j [] h = absurd h
held-contains t j ((k, until) ∷ d) h = ground (arith, held-contains t j d)

contains-insert :
    (k j : Reason) (until : Option ℕ) (d : Suspensions)
    → contains j d ≡ true
    → contains j (insert k until d) ≡ true
unfolding contains insert
contains-insert k j until [] h = ground arith
contains-insert k j until ((i, old) ∷ d) h = ground (arith, contains-insert k j until d)

contains-remove :
    (k j : Reason) (d : Suspensions)
    → same_reason k j ≡ false
    → contains j d ≡ true
    → contains j (remove k d) ≡ true
unfolding contains remove
contains-remove k j [] e h = ground arith
contains-remove k j ((i, old) ∷ d) e h = ground (arith, contains-remove k j d e, same_reason_eq i k)

same-contains :
    (k j : Reason) (d : Suspensions) → same_reason k j ≡ true → contains k d ≡ contains j d
same-contains k j d e = ap (λ i. contains i d) (same_reason_eq k j e)

module _ {F : Type 0} (settings : OpsSettings) where
  pub if-IsRaised :
      (b : Bool) (x y : Ops F)
      → IsRaised settings x
      → IsRaised settings y
      → IsRaised settings (if b then x else y)
  if-IsRaised true x y p q = p
  if-IsRaised false x y p q = q

  -- fewer counts and the same suspensions
  pub lower-IsRaised :
      (s x : Ops F)
      → x.suspensions ≡ s.suspensions
      → ((j : Reason) → count_of j (counts x) ≤ count_of j (counts s))
      → IsRaised settings s
      → IsRaised settings x
  lower-IsRaised s x e le raised j (p, q) =
      subst (λ d. contains j d ≡ true) (sym e) (raised j (p, ground (arith, le j)))

  cleared_count :
      (k j : Reason) (s : Ops F)
      → count_of j (counts (clear_suspension settings k s))
        ≡ (if contains k s.suspensions && same_reason k j then 0 else count_of j (counts s))
  unfolding clear_suspension append_event reset_counter
  cleared_count k consecutive_errors s = ground arith
  cleared_count k api_degraded s = ground arith
  cleared_count k order_failures s = ground arith
  cleared_count k protection_failures s = ground arith
  cleared_count k scheduler_stale s = ground arith
  cleared_count k orphan_unrecoverable s = ground arith

  pub clear-IsRaised :
      (k : Reason) (s : Ops F)
      → IsRaised settings s
      → IsRaised settings (clear_suspension settings k s)
  clear-IsRaised k s raised j (p, q) =
      subst (λ d. contains j d ≡ true) (sym (suspensions-clear settings k s))
        (elim (Bool-cases (same_reason k j)) [
          | inl e ↦ ground (arith, cleared_count k j s, raised j, same-contains k j s.suspensions e)
          | inr e ↦
              contains-remove k j s.suspensions e
                (raised j (p, ground (arith, cleared_count k j s)))
        ])

  expire_from-IsRaised :
      (now : ℕ) (snapshot : Suspensions) (s : Ops F)
      → IsRaised settings s
      → IsRaised settings (expire_from settings now snapshot s)
  unfolding expire_from
  expire_from-IsRaised now [] s raised = raised
  expire_from-IsRaised now ((k, none) ∷ rest) s raised = expire_from-IsRaised now rest s raised
  expire_from-IsRaised now ((k, some until) ∷ rest) s raised = expire_from-IsRaised now rest _ (
      if-IsRaised (leb until now) (clear_suspension settings k s) s (clear-IsRaised k s raised)
        raised)

  pub expire-IsRaised :
      (now : ℕ) (s : Ops F)
      → IsRaised settings s
      → IsRaised settings (expire_suspensions settings now s)
  unfolding expire_suspensions
  expire-IsRaised now s raised = expire_from-IsRaised now s.suspensions s raised

module _ (clock : ℕ → ℕ) {F : Type 0} (settings : OpsSettings) where
  activate-contains :
      (k j : Reason) (duration : ℕ) (s : Ops F)
      → contains j s.suspensions ≡ true
      → contains j (activate_suspension clock settings k duration s).suspensions ≡ true
  unfolding activate_suspension append_event read_clock
  activate-contains k j duration s h =
      ground (arith, contains-insert k j (until_of (clock s.readings) duration) s.suspensions h)

  pub activate-IsRaised :
      (k : Reason) (duration : ℕ) (s : Ops F)
      → IsRaised settings s
      → IsRaised settings (activate_suspension clock settings k duration s)
  activate-IsRaised k duration s raised j h = activate-contains k j duration s (
      raised j (
        subst (λ c. IsReached (threshold_of settings j) (count_of j c))
          (activate-Raises clock settings k duration s).same h))

  -- The rules raise the suspension of each count that reached its threshold.
  pub evaluate-IsRaised :
      (now : ℕ) (s : Ops F)
      → IsMonotone clock
      → settings.enable_operational_kill_switches ≡ true
      → IsRaised settings (evaluate_suspension_rules clock settings now s)
  evaluate-IsRaised now s mono e j h = held-contains 0 j _ (
      evaluate_holds clock settings now j 0 s mono e
        (subst (λ c. IsReached (threshold_of settings j) (count_of j c))
          (evaluate-Raises clock settings now s).same h)
        (λ d. ground arith))
