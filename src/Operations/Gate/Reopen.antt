-- ===== src/Operations/Gate/Reopen.antt =====
-- The suspensions reverse themselves: when all have ended, the next question clears them, the
-- counts that raised them start again, and new entries are allowed.
use trading_binance.Base.{
  ℕ, ◌+◌, ◌≤◌, ◌≡◌, Bool, true, false, Option, none, some, [], ◌∷◌, refl, arith, ltb, leb, ◌&&◌,
  if◌then◌else◌, Bool-cases, inl, inr, subst, sym, ap, ◌∙◌,
}
use trading_binance.Operations.State.{
  Reason, consecutive_errors, api_degraded, order_failures, protection_failures, scheduler_stale,
  orphan_unrecoverable, Suspensions, OpsSettings, Ops, same_reason, same_reason_refl,
}
use trading_binance.Operations.Suspension.{
  contains, is_empty, remove, read_clock, append_event, reset_counter, clear_suspension,
  expire_from, expire_suspensions, apply_rule, error_rule, api_rule, order_rule, protection_rule,
  idle_rule, is_stale, evaluate_suspension_rules, can_open_new_entries,
}
use trading_binance.Operations.Suspension.Bounds.{suspensions-clear}
use trading_binance.Operations.Suspension.Raises.{counts}
use trading_binance.Operations.Suspension.Rules.{IsReached, threshold_of, count_of}

-- Every suspension has an end, and `now` is past it.
abbrev pub AllEnded : ℕ → Suspensions → Type 0
AllEnded now [] = Unit
AllEnded now ((k, none) ∷ d) = ⊥
AllEnded now ((k, some until) ∷ d) = (until ≤ now) × AllEnded now d

remove_head : (k : Reason) (until : Option ℕ) (d : Suspensions) → remove k ((k, until) ∷ d) ≡ d
unfolding remove
remove_head k until d = ground (arith, same_reason_refl k)

if_same {ℓ} : {A : Type ℓ} (b : Bool) (x : A) → (if b then x else x) ≡ x
if_same true x = refl
if_same false x = refl

-- Each count that reached its threshold has its suspension.
abbrev pub IsRaised : {F : Type 0} → OpsSettings → Ops F → Type 0
IsRaised settings s =
    (j : Reason)
    → IsReached (threshold_of settings j) (count_of j (counts s))
    → contains j s.suspensions ≡ true

module _ {F : Type 0} (settings : OpsSettings) where
  clear_first :
      (k : Reason) (until : Option ℕ) (rest : Suspensions) (s : Ops F)
      → s.suspensions ≡ (k, until) ∷ rest
      → (clear_suspension settings k s).suspensions ≡ rest
  clear_first k until rest s e =
      suspensions-clear settings k s ∙ ap (remove k) e ∙ remove_head k until rest

  count-clear :
      (j k : Reason) (until : Option ℕ) (rest : Suspensions) (s : Ops F)
      → s.suspensions ≡ (k, until) ∷ rest
      → count_of j (counts (clear_suspension settings k s))
        ≡ (if same_reason k j then 0 else count_of j (counts s))
  unfolding clear_suspension append_event reset_counter contains
  count-clear consecutive_errors k until rest s e = ground (arith, same_reason_refl k)
  count-clear api_degraded k until rest s e = ground (arith, same_reason_refl k)
  count-clear order_failures k until rest s e = ground (arith, same_reason_refl k)
  count-clear protection_failures k until rest s e = ground (arith, same_reason_refl k)
  count-clear scheduler_stale k until rest s e = ground (arith, same_reason_refl k)
  count-clear orphan_unrecoverable k until rest s e = ground (arith, same_reason_refl k)

  poll-clear :
      (k : Reason) (s : Ops F) → (clear_suspension settings k s).last_poll_ts ≡ s.last_poll_ts
  unfolding clear_suspension append_event reset_counter
  poll-clear k s = ground arith

  record IsExpired (s s2 : Ops F) (d : Suspensions) : Type 0 where
    empty : s2.suspensions ≡ []
    reset :
        (j : Reason) → count_of j (counts s2) ≡ (if contains j d then 0 else count_of j (counts s))
    poll : s2.last_poll_ts ≡ s.last_poll_ts

  IsExpired-more :
      (now : ℕ) (k : Reason) (until : ℕ) (rest : Suspensions) (s s2 : Ops F)
      → s.suspensions ≡ (k, some until) ∷ rest
      → IsExpired (clear_suspension settings k s) s2 rest
      → IsExpired s s2 ((k, some until) ∷ rest)
  unfolding contains
  IsExpired-more now k until rest s s2 e i = record {
    empty = i.empty;
    reset = λ j. ground (arith, i.reset j, count-clear j k (some until) rest s e);
    poll = i.poll ∙ poll-clear k s;
  }

  expire_all :
      (now : ℕ) (d : Suspensions) (s : Ops F)
      → s.suspensions ≡ d
      → AllEnded now d
      → IsExpired s (expire_from settings now d s) d
  unfolding expire_from contains
  expire_all now [] s e h = record { empty = e; reset = λ j. refl; poll = refl }
  expire_all now ((k, none) ∷ rest) s e h = absurd h
  expire_all now ((k, some until) ∷ rest) s e (le, h) =
      rw (due, expire_from)
        (IsExpired-more now k until rest s _ e (
          expire_all now rest (clear_suspension settings k s) (clear_first k (some until) rest s e)
            h))
    where
      due : leb until now ≡ true
      due = ground arith

module _ (clock : ℕ → ℕ) {F : Type 0} (settings : OpsSettings) where
  rule_quiet :
      (threshold count : ℕ) (k : Reason) (s : Ops F)
      → (IsReached threshold count → ⊥)
      → apply_rule clock settings threshold count k s ≡ s
  unfolding apply_rule
  rule_quiet threshold count k s h = rw (unreached, apply_rule) refl
    where
      unreached : (ltb 0 threshold && leb threshold count) ≡ false
      unreached = ground arith

  -- no count reached its threshold
  IsQuiet : Ops F → Type 0
  IsQuiet s = (j : Reason) → IsReached (threshold_of settings j) (count_of j (counts s)) → ⊥

  evaluate_quiet :
      (now : ℕ) (s : Ops F)
      → IsQuiet s
      → is_stale settings.kill_switch_max_scheduler_idle_sec s.last_poll_ts now ≡ false
      → evaluate_suspension_rules clock settings now s ≡ s
  unfolding evaluate_suspension_rules error_rule api_rule order_rule protection_rule idle_rule
      IsQuiet
  evaluate_quiet now s q e =
      rw
        (
          rule_quiet _ _ consecutive_errors s (q consecutive_errors),
          rule_quiet _ _ api_degraded s (q api_degraded),
          rule_quiet _ _ order_failures s (q order_failures),
          rule_quiet _ _ protection_failures s (q protection_failures),
          e,
        )
        (if_same settings.enable_operational_kill_switches s)

  expired-IsQuiet :
      (s s2 : Ops F) → IsRaised settings s → IsExpired settings s s2 s.suspensions → IsQuiet s2
  unfolding IsQuiet
  expired-IsQuiet s s2 raised i j (p, q) = elim (Bool-cases (contains j s.suspensions)) [
    | inl e ↦ ground (arith, i.reset j)
    | inr e ↦ ground (arith, i.reset j, raised j)
  ]

  expired_lem :
      (now : ℕ) (s : Ops F)
      → AllEnded now s.suspensions
      → IsRaised settings s
      → is_stale settings.kill_switch_max_scheduler_idle_sec s.last_poll_ts now ≡ false
      → IsExpired settings s
          (evaluate_suspension_rules clock settings now (expire_suspensions settings now s))
          s.suspensions
  unfolding expire_suspensions
  expired_lem now s ended raised e =
      subst (λ x. IsExpired settings s x s.suspensions)
        (sym (
          evaluate_quiet now _ (expired-IsQuiet s _ raised i) (
            subst (λ p. is_stale settings.kill_switch_max_scheduler_idle_sec p now ≡ false)
              (sym i.poll) e)))
        i
    where
      i : IsExpired settings s (expire_from settings now s.suspensions s) s.suspensions
      i = expire_all settings now s.suspensions s refl ended

  pub gate_reopens :
      (s : Ops F)
      → settings.enable_operational_kill_switches ≡ true
      → AllEnded (clock s.readings) s.suspensions
      → IsRaised settings s
      → is_stale settings.kill_switch_max_scheduler_idle_sec s.last_poll_ts (clock s.readings)
        ≡ false
      → ((can_open_new_entries clock settings s).0 ≡ true)
        × ((can_open_new_entries clock settings s).1.suspensions ≡ [])
        × ((j : Reason)
            → contains j s.suspensions ≡ true
            → count_of j (counts (can_open_new_entries clock settings s).1) ≡ 0)
  unfolding can_open_new_entries read_clock
  gate_reopens s e ended raised fresh = opened settings.enable_operational_kill_switches e
    where
      now : ℕ
      now = clock s.readings

      s1 : Ops F
      s1 = record s { readings = s.readings + 1 }

      checked : Ops F
      checked = evaluate_suspension_rules clock settings now (expire_suspensions settings now s1)

      i : IsExpired settings s1 checked s.suspensions
      i = expired_lem now s1 ended raised fresh

      Opens : Bool × Ops F → Type 0
      Opens (answer, x) =
          (answer ≡ true)
          × (x.suspensions ≡ [])
          × ((j : Reason) → contains j s.suspensions ≡ true → count_of j (counts x) ≡ 0)

      opened :
          (b : Bool)
          → b ≡ true
          → Opens (if b then (is_empty checked.suspensions, checked) else (true, s))
      opened true e = (ap is_empty i.empty, i.empty, λ j h. i.reset j ∙ rw h refl)
      opened false e = ground arith
