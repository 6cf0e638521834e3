-- ===== src/Operations/Kept.antt =====
-- What every operation of `OperationalService` keeps: the invariants of the state, and a running
-- suspension.
pub mod Handlers
use trading_binance.Base.{
  ℕ, ◌+◌, ◌≤◌, ◌<◌, ◌≡◌, refl, sym, ap, subst, ◌∙◌, Bool, true, false, Option, none, some, List,
  arith, leb, ltb, Bool-cases, inl, inr, ◌⊎◌, if◌then◌else◌, length, max, ◌&&◌,
}
use trading_binance.Operations.State.{
  Reason, scheduler_stale, Event, Counters, OpsSettings, Ops, append_bounded, length-append_bounded,
  same_reason,
}
use trading_binance.Operations.Suspension.{
  lookup, append_event, read_clock, remove, clear_suspension, expire_suspensions,
  evaluate_suspension_rules,
}
use trading_binance.Operations.Suspension.Dict.{IsUnique, HeldAt, lookup-remove_ne, remove-IsUnique}
use trading_binance.Operations.Suspension.Bounds.{
  expire-keeps, expire-IsUnique, clear-Clears, expire-Clears, Clears, suspensions-clear,
}
use trading_binance.Operations.Suspension.Raises.{Raises, IsBounded, counts}
use trading_binance.Operations.Suspension.Rules.{IsMonotone, evaluate-Raises}

-- The counters that are kept under two names agree.
abbrev pub IsAliased : Counters → Type 0
IsAliased c =
    (c.polls ≡ c.polling_cycles)
    × (c.signals_discarded ≡ c.signals_rejected)
    × (c.entry_attempts ≡ c.entries_attempted)
    × (c.entries_failed ≡ c.order_failures_count)
    × (c.protections_failed ≡ c.protection_failures_count)

-- No key stands twice, the events are bounded, the counters agree.
pub record IsValid {F : Type 0} (settings : OpsSettings) (s : Ops F) : Type 0 where
  pub unique : IsUnique s.suspensions
  pub events : IsBounded settings s
  pub aliases : IsAliased s.counters

-- A step from `s` to `s2`: the clock goes on, a valid state stays valid, and a suspension that
-- runs until after `t` still does, unless it ends with the next poll, where `t` is not yet past.
pub record Kept {F : Type 0} (clock : ℕ → ℕ) (settings : OpsSettings) (s s2 : Ops F) : Type 0 where
  pub later : s.readings ≤ s2.readings
  pub valid : IsValid settings s → IsValid settings s2
  pub held :
      (r : Reason) (t : ℕ)
      → same_reason scheduler_stale r ≡ false
      → clock s2.readings ≤ t
      → IsValid settings s
      → HeldAt t (lookup r s.suspensions)
      → HeldAt t (lookup r s2.suspensions)

module _ {F : Type 0} {clock : ℕ → ℕ} {settings : OpsSettings} where
  pub Kept-none : (s : Ops F) → Kept clock settings s s
  Kept-none s = record { later = ground arith; valid = λ v. v; held = λ r t e le v h. h }

  pub Kept-both :
      (s s2 s3 : Ops F)
      → IsMonotone clock
      → Kept clock settings s s2
      → Kept clock settings s2 s3
      → Kept clock settings s s3
  Kept-both s s2 s3 mono a b = record {
    later = ground (arith, a.later, b.later);
    valid = λ v. b.valid (a.valid v);
    held = λ r t e le v h.
        b.held r t e le (a.valid v)
          (a.held r t e (ground (arith, mono s2.readings s3.readings b.later)) v h);
  }

  pub Raises-Kept : (s s2 : Ops F) → Raises settings s s2 → Kept clock settings s s2
  Raises-Kept s s2 a = record {
    later = a.later;
    valid = λ v. record {
      unique = a.unique v.unique;
      events = a.bounded v.events;
      aliases = subst IsAliased (sym (ap (λ c. c.all) a.same)) v.aliases;
    };
    held = λ r t e le v h. a.keeps r t h;
  }

  pub if_Kept :
      (b : Bool) (s x : Ops F)
      → Kept clock settings s x
      → Kept clock settings s (if b then x else s)
  if_Kept true s x h = h
  if_Kept false s x h = Kept-none s

  -- a change of the counts alone, and one more event
  pub event-Kept :
      (event : Event) (s x : Ops F)
      → x.suspensions ≡ s.suspensions
      → x.recent_events ≡ s.recent_events
      → x.readings ≡ s.readings
      → (IsAliased s.counters → IsAliased x.counters)
      → Kept clock settings s (append_event settings event x)
  unfolding append_event
  event-Kept event s x d l n a = record {
    later = ground arith;
    valid = λ v. record {
      unique = subst IsUnique (sym d) v.unique;
      events =
          length-append_bounded _ x.recent_events event
            (subst (λ es. length es ≤ max 5 settings.ops_recent_events) (sym l) v.events);
      aliases = a v.aliases;
    };
    held = λ r t e le v h. subst (λ d. HeldAt t (lookup r d)) (sym d) h;
  }

  -- a change of the counts alone
  pub update-Kept :
      (s x : Ops F)
      → x.suspensions ≡ s.suspensions
      → x.recent_events ≡ s.recent_events
      → s.readings ≤ x.readings
      → (IsAliased s.counters → IsAliased x.counters)
      → Kept clock settings s x
  update-Kept s x d l n a = record {
    later = n;
    valid = λ v. record {
      unique = subst IsUnique (sym d) v.unique;
      events = subst (λ es. length es ≤ max 5 settings.ops_recent_events) (sym l) v.events;
      aliases = a v.aliases;
    };
    held = λ r t e le v h. subst (λ d. HeldAt t (lookup r d)) (sym d) h;
  }

  pub expire-Kept :
      (now : ℕ) (s : Ops F)
      → now ≤ clock s.readings
      → Kept clock settings s (expire_suspensions settings now s)
  expire-Kept now s le = record {
    later = ground (arith, c.readings);
    valid = λ v. record {
      unique = expire-IsUnique settings now s v.unique;
      events = c.events v.events;
      aliases = subst IsAliased (sym c.counters) v.aliases;
    };
    held = λ r t e le2 v h. expire-keeps settings r now t s (before t le2) v.unique h;
  }
    where
      c : Clears settings s (expire_suspensions settings now s)
      c = expire-Clears settings now s

      before : (t : ℕ) → clock (expire_suspensions settings now s).readings ≤ t → now ≤ t
      before t h = ground (arith, subst (λ n. clock n ≤ t) c.readings h)

  -- a poll ends the suspension for a stale scheduler only
  pub clear_stale-Kept :
      (s : Ops F) → Kept clock settings s (clear_suspension settings scheduler_stale s)
  clear_stale-Kept s = record {
    later = ground (arith, c.readings);
    valid = λ v. record {
      unique =
          subst IsUnique (sym (suspensions-clear settings scheduler_stale s))
            (remove-IsUnique scheduler_stale s.suspensions v.unique);
      events = c.events v.events;
      aliases = subst IsAliased (sym c.counters) v.aliases;
    };
    held = λ r t e le v h.
        subst (λ d. HeldAt t (lookup r d)) (sym (suspensions-clear settings scheduler_stale s))
          (subst (HeldAt t) (sym (lookup-remove_ne scheduler_stale r s.suspensions e)) h);
  }
    where
      c : Clears settings s (clear_suspension settings scheduler_stale s)
      c = clear-Clears settings scheduler_stale s
