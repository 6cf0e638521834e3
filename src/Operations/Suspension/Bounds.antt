-- ===== src/Operations/Suspension/Bounds.antt =====
-- What activation, expiry and the rules keep: a suspension that is running is never shortened, the
-- keys stay distinct, and the rest of the state is left alone.
use trading_binance.Base.{
  ℕ, ◌≤◌, ◌≡◌, refl, sym, ap, subst, ◌∙◌, false, Option, none, some, [], ◌∷◌, arith, leb,
  Bool-cases, inl, inr, if◌then◌else◌, length, max,
}
use trading_binance.Operations.State.{
  Reason, same_reason, same_reason_eq, Suspensions, OpsSettings, Ops, length-append_bounded,
  suspension_off,
}
use trading_binance.Operations.Suspension.{
  lookup, contains, remove, append_event, reset_counter, clear_suspension, expire_from,
  expire_suspensions, read_clock, until_of, outlasts, activate_suspension,
}
use trading_binance.Operations.Suspension.Dict.{
  lookup-insert, lookup-remove_ne, IsUnique, insert-IsUnique, remove-IsUnique, HeldAt, OthersEnd,
  HeldAt-OthersEnd,
}

remove_absent : (k : Reason) (d : Suspensions) → contains k d ≡ false → remove k d ≡ d
unfolding contains remove
remove_absent k [] h = refl
remove_absent k ((i, until) ∷ d) h = ground (arith, remove_absent k d)

HeldAt-le : (now t : ℕ) (entry : Option (Option ℕ)) → now ≤ t → HeldAt t entry → HeldAt now entry
HeldAt-le now t none le h = h
HeldAt-le now t (some none) le h = tt
HeldAt-le now t (some (some until)) le h = ground arith

module _ {F : Type 0} where
  pub suspensions-clear :
      (settings : OpsSettings) (k : Reason) (s : Ops F)
      → (clear_suspension settings k s).suspensions ≡ remove k s.suspensions
  unfolding clear_suspension append_event reset_counter
  suspensions-clear settings k s = ground (arith, remove_absent k s.suspensions)

  -- Expiry at `now` keeps a suspension that is still running, and the distinct keys.
  expire_from-keeps :
      (settings : OpsSettings) (r : Reason) (now : ℕ) (snapshot : Suspensions) (s : Ops F)
      → OthersEnd r now snapshot
      → lookup r (expire_from settings now snapshot s).suspensions ≡ lookup r s.suspensions
  unfolding expire_from
  expire_from-keeps settings r now [] s o = refl
  expire_from-keeps settings r now ((k, none) ∷ rest) s o =
      expire_from-keeps settings r now rest s o
  expire_from-keeps settings r now ((k, some until) ∷ rest) s (ended, o) =
      elim (Bool-cases (leb until now)) [
        | inl e ↦
            rw (e, expire_from)
              (expire_from-keeps settings r now rest (clear_suspension settings k s) o
                ∙ ap (lookup r) (suspensions-clear settings k s)
                ∙ lookup-remove_ne k r s.suspensions (ended e))
        | inr e ↦ rw (e, expire_from) (expire_from-keeps settings r now rest s o)
      ]

  expire_from-IsUnique :
      (settings : OpsSettings) (now : ℕ) (snapshot : Suspensions) (s : Ops F)
      → IsUnique s.suspensions
      → IsUnique (expire_from settings now snapshot s).suspensions
  unfolding expire_from
  expire_from-IsUnique settings now [] s u = u
  expire_from-IsUnique settings now ((k, none) ∷ rest) s u =
      expire_from-IsUnique settings now rest s u
  expire_from-IsUnique settings now ((k, some until) ∷ rest) s u =
      elim (Bool-cases (leb until now)) [
        | inl e ↦
            rw (e, expire_from)
              (expire_from-IsUnique settings now rest (clear_suspension settings k s) (
                subst IsUnique (sym (suspensions-clear settings k s))
                  (remove-IsUnique k s.suspensions u)))
        | inr e ↦ rw (e, expire_from) (expire_from-IsUnique settings now rest s u)
      ]

  pub expire-keeps :
      (settings : OpsSettings) (r : Reason) (now t : ℕ) (s : Ops F)
      → now ≤ t
      → IsUnique s.suspensions
      → HeldAt t (lookup r s.suspensions)
      → HeldAt t (lookup r (expire_suspensions settings now s).suspensions)
  unfolding expire_suspensions
  expire-keeps settings r now t s le u h =
      subst (HeldAt t)
        (sym (
          expire_from-keeps settings r now s.suspensions s
            (HeldAt-OthersEnd r now s.suspensions u (HeldAt-le now t _ le h))))
        h

  pub expire-IsUnique :
      (settings : OpsSettings) (now : ℕ) (s : Ops F)
      → IsUnique s.suspensions
      → IsUnique (expire_suspensions settings now s).suspensions
  unfolding expire_suspensions
  expire-IsUnique settings now s u = expire_from-IsUnique settings now s.suspensions s u

  -- What the clearing of suspensions leaves alone.
  pub record Clears (settings : OpsSettings) (s s2 : Ops F) : Type 0 where
    pub counters : s2.counters ≡ s.counters
    pub readings : s2.readings ≡ s.readings
    pub events :
        length s.recent_events ≤ max 5 settings.ops_recent_events
        → length s2.recent_events ≤ max 5 settings.ops_recent_events

  pub clear-Clears :
      (settings : OpsSettings) (k : Reason) (s : Ops F)
      → Clears settings s (clear_suspension settings k s)
  unfolding clear_suspension append_event reset_counter
  clear-Clears settings k s = record {
    counters = ground arith;
    readings = ground arith;
    events = λ h. ground (
      arith,
      length-append_bounded (max 5 settings.ops_recent_events) s.recent_events (suspension_off k) h,
    );
  }

  Clears-both :
      (settings : OpsSettings) (s s2 s3 : Ops F)
      → Clears settings s s2
      → Clears settings s2 s3
      → Clears settings s s3
  Clears-both settings s s2 s3 a b = record {
    counters = b.counters ∙ a.counters;
    readings = b.readings ∙ a.readings;
    events = λ h. b.events (a.events h);
  }

  expire_from-Clears :
      (settings : OpsSettings) (now : ℕ) (snapshot : Suspensions) (s : Ops F)
      → Clears settings s (expire_from settings now snapshot s)
  unfolding expire_from
  expire_from-Clears settings now [] s = record {
    counters = refl;
    readings = refl;
    events = λ h. h;
  }
  expire_from-Clears settings now ((k, none) ∷ rest) s = expire_from-Clears settings now rest s
  expire_from-Clears settings now ((k, some until) ∷ rest) s = elim (Bool-cases (leb until now)) [
    | inl e ↦
        rw (e, expire_from)
          (Clears-both settings s _ _ (clear-Clears settings k s)
            (expire_from-Clears settings now rest (clear_suspension settings k s)))
    | inr e ↦ rw (e, expire_from) (expire_from-Clears settings now rest s)
  ]

  pub expire-Clears :
      (settings : OpsSettings) (now : ℕ) (s : Ops F)
      → Clears settings s (expire_suspensions settings now s)
  unfolding expire_suspensions
  expire-Clears settings now s = expire_from-Clears settings now s.suspensions s

-- The longer of two ends keeps what either keeps.
outlasts_lem :
    (t : ℕ) (old : Option (Option ℕ)) (until : Option ℕ)
    → outlasts old until ≡ false
    → HeldAt t old
    → HeldAt t (some until)
outlasts_lem t none until e h = absurd h
outlasts_lem t (some none) until e h = cc
outlasts_lem t (some (some a)) none e h = tt
outlasts_lem t (some (some a)) (some b) e h = ground arith

module _ (clock : ℕ → ℕ) {F : Type 0} where
  -- Activation of any reason shortens no suspension that is running.
  pub activate-keeps :
      (settings : OpsSettings) (k r : Reason) (duration t : ℕ) (s : Ops F)
      → HeldAt t (lookup r s.suspensions)
      → HeldAt t (lookup r (activate_suspension clock settings k duration s).suspensions)
  unfolding activate_suspension append_event read_clock
  activate-keeps settings k r duration t s h =
      elim (Bool-cases (outlasts (lookup k s.suspensions) (until_of (clock s.readings) duration))) [
        | inl e ↦ rw (e, activate_suspension) h
        | inr e ↦
            rw (e, activate_suspension)
              (subst (HeldAt t)
                (sym (lookup-insert k r (until_of (clock s.readings) duration) s.suspensions))
                (keeps_entry e))
      ]
    where
      keeps_entry :
          outlasts (lookup k s.suspensions) (until_of (clock s.readings) duration) ≡ false
          → HeldAt t (
              if same_reason k r
              then some (until_of (clock s.readings) duration)
              else lookup r s.suspensions)
      keeps_entry e = elim (Bool-cases (same_reason k r)) [
        | inl same ↦ rw same (
            outlasts_lem t (lookup k s.suspensions) _ e
              (subst (λ j. HeldAt t (lookup j s.suspensions)) (sym (same_reason_eq k r same)) h))
        | inr differ ↦ rw differ h
      ]

  pub activate-IsUnique :
      (settings : OpsSettings) (k : Reason) (duration : ℕ) (s : Ops F)
      → IsUnique s.suspensions
      → IsUnique (activate_suspension clock settings k duration s).suspensions
  unfolding activate_suspension append_event read_clock
  activate-IsUnique settings k duration s u =
      ground (arith, insert-IsUnique k (until_of (clock s.readings) duration) s.suspensions u)
