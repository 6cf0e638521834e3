-- ===== src/Operations/Suspension/Raises.antt =====
-- What the suspension rules do to a state: they may add suspensions and events, and nothing else.
use trading_binance.Base.{
  ℕ, ◌+◌, ◌≤◌, ◌≡◌, refl, ◌∙◌, Option, arith, leb, ltb, Bool-cases, inl, inr, length, max, ◌&&◌,
}
use trading_binance.Operations.State.{Reason, Counters, OpsSettings, Ops, length-append_bounded}
use trading_binance.Operations.Suspension.{
  lookup, append_event, read_clock, until_of, outlasts, activate_suspension, apply_rule,
}
use trading_binance.Operations.Suspension.Dict.{IsUnique, HeldAt}
use trading_binance.Operations.Suspension.Bounds.{activate-keeps, activate-IsUnique}

-- The list of recent events is within its limit.
abbrev pub IsBounded : {F : Type 0} → OpsSettings → Ops F → Type 0
IsBounded settings s = length s.recent_events ≤ max 5 settings.ops_recent_events

-- The counts the rules look at, and when the last poll was.
pub record Counts : Type 0 where
  pub errors : ℕ
  pub api : ℕ
  pub orders : ℕ
  pub protections : ℕ
  pub poll : Option ℕ
  pub all : Counters

abbrev pub counts : {F : Type 0} → Ops F → Counts
counts s = record {
  errors = s.consecutive_error_count;
  api = s.consecutive_api_errors;
  orders = s.consecutive_order_failures;
  protections = s.consecutive_protection_failures;
  poll = s.last_poll_ts;
  all = s.counters;
}

pub record Raises {F : Type 0} (settings : OpsSettings) (s s2 : Ops F) : Type 0 where
  pub same : counts s2 ≡ counts s
  pub later : s.readings ≤ s2.readings
  pub bounded : IsBounded settings s → IsBounded settings s2
  pub unique : IsUnique s.suspensions → IsUnique s2.suspensions
  pub keeps :
      (r : Reason) (t : ℕ) → HeldAt t (lookup r s.suspensions) → HeldAt t (lookup r s2.suspensions)

module _ {F : Type 0} {settings : OpsSettings} where
  pub Raises-none : (s : Ops F) → Raises settings s s
  Raises-none s = record {
    same = refl;
    later = ground arith;
    bounded = λ h. h;
    unique = λ h. h;
    keeps = λ r t h. h;
  }

  pub Raises-both :
      (s s2 s3 : Ops F) → Raises settings s s2 → Raises settings s2 s3 → Raises settings s s3
  Raises-both s s2 s3 a b = record {
    same = b.same ∙ a.same;
    later = ground (arith, a.later, b.later);
    bounded = λ h. b.bounded (a.bounded h);
    unique = λ h. b.unique (a.unique h);
    keeps = λ r t h. b.keeps r t (a.keeps r t h);
  }

module _ (clock : ℕ → ℕ) {F : Type 0} (settings : OpsSettings) where
  activate-same :
      (k : Reason) (duration : ℕ) (s : Ops F)
      → counts (activate_suspension clock settings k duration s) ≡ counts s
  unfolding activate_suspension append_event read_clock
  activate-same k duration s =
      elim (Bool-cases (outlasts (lookup k s.suspensions) (until_of (clock s.readings) duration))) [
        | inl e ↦ rw (e, activate_suspension) refl
        | inr e ↦ rw (e, activate_suspension) refl
      ]

  pub activate-later :
      (k : Reason) (duration : ℕ) (s : Ops F)
      → (activate_suspension clock settings k duration s).readings ≡ s.readings + 1
  unfolding activate_suspension append_event read_clock
  activate-later k duration s =
      elim (Bool-cases (outlasts (lookup k s.suspensions) (until_of (clock s.readings) duration))) [
        | inl e ↦ rw (e, activate_suspension) refl
        | inr e ↦ rw (e, activate_suspension) refl
      ]

  activate-IsBounded :
      (k : Reason) (duration : ℕ) (s : Ops F)
      → IsBounded settings s
      → IsBounded settings (activate_suspension clock settings k duration s)
  unfolding activate_suspension append_event read_clock
  activate-IsBounded k duration s h =
      elim (Bool-cases (outlasts (lookup k s.suspensions) (until_of (clock s.readings) duration))) [
        | inl e ↦ rw (e, activate_suspension) h
        | inr e ↦ rw (e, activate_suspension) (length-append_bounded _ s.recent_events _ h)
      ]

  pub activate-Raises :
      (k : Reason) (duration : ℕ) (s : Ops F)
      → Raises settings s (activate_suspension clock settings k duration s)
  activate-Raises k duration s = record {
    same = activate-same k duration s;
    later = ground (arith, activate-later k duration s);
    bounded = activate-IsBounded k duration s;
    unique = activate-IsUnique clock settings k duration s;
    keeps = λ r t. activate-keeps clock settings k r duration t s;
  }

  pub rule-Raises :
      (threshold count : ℕ) (k : Reason) (s : Ops F)
      → Raises settings s (apply_rule clock settings threshold count k s)
  unfolding apply_rule
  rule-Raises threshold count k s = elim (Bool-cases (ltb 0 threshold && leb threshold count)) [
    | inl e ↦ rw (e, apply_rule) (activate-Raises k settings.operational_suspend_sec s)
    | inr e ↦ rw (e, apply_rule) (Raises-none s)
  ]
