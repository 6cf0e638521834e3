-- ===== src/Entry/Guarded/Entries.antt =====
-- An entry sends orders only after all of its guards.
use trading_binance.Base.{
  ◌≡◌, refl, sym, ◌∙◌, ap, Bool, true, false, Option, none, some, List, ◌++◌, if◌then◌else◌,
}
use trading_binance.Num.{Float}
use trading_binance.Indicators.{Pandas}
use trading_binance.Py.{Call, answer, exception}
use trading_binance.Sizing.{is_entry_size_valid}
use trading_binance.Flow.Laws.{
  no_command, Does, bind_does, pure_does, ask_does, emit_does, choose_does, weaken_does,
}
use trading_binance.Entry.{Event}
use trading_binance.Entry.Plan.{EntrySettings, Candidate, Market, TradePlan, build_trade_plan}
use trading_binance.Entry.Validate.{
  Validation, is_in_liquidation_zone, validation_of, validate_trade_plan,
}
use trading_binance.Entry.Submit.{Venue}
use trading_binance.Entry.Finalize.{enter_market, execute_plan, execute_candidate}
use trading_binance.Entry.Guarded.Locked.{
  lock_step, lock_after, Frees, frees_append, free_lock, submit_entry-Frees,
}
use trading_binance.Entry.Guarded.{
  finalize-Free, launch-Free, has_command, is_command, is_lock, is_reserved, has_reserved,
  free_command, free_append, later_command, build-Free, enter_roomy, refuse-Free, IsCleared,
}

module _ {F : Type 0} ⦃fl : Float F⦄ (pd : Pandas F) (settings : EntrySettings F) where
  if_ok : (b : Bool) (x y : Validation) → y.ok ≡ false → (if b then x else y).ok ≡ true → b ≡ true
  if_ok true x y h k = refl
  if_ok false x y h k = no_command (sym h ∙ k)

  validation_lem :
      (plan : TradePlan F) (inside : Bool)
      → (validation_of pd settings plan inside).ok ≡ true
      → (inside ≡ false)
        × (is_entry_size_valid plan.qty_l1 plan.entry_price plan.min_qty plan.min_notional ≡ true)
  unfolding validation_of
  validation_lem plan true h = no_command h
  validation_lem plan false h = (refl, if_ok _ _ _ refl h)

  module _ (market : Market F) (venue : Venue F) where
    -- What the validation has seen of a plan that it lets pass.
    abbrev Validates : TradePlan F → List (Event F) → Call Validation → Type 0
    Validates plan es (answer v) =
        (has_reserved es ≡ false)
        × (v.ok ≡ true
            → (is_in_liquidation_zone pd settings plan ≡ answer false)
              × (is_entry_size_valid plan.qty_l1 plan.entry_price plan.min_qty plan.min_notional
                  ≡ true))
    Validates plan es (exception e) = has_reserved es ≡ false

    validates : (plan : TradePlan F) → Does (validate_trade_plan pd settings plan) (Validates plan)
    unfolding validate_trade_plan has_reserved has_command
    validates plan =
        ask_does
          (λ inside e.
            pure_does _
              (refl, λ h. let v = validation_lem plan inside h in (e ∙ ap answer v.0, v.1)))
          (λ x e. refl)

    plan_guarded :
        (plan : TradePlan F)
        → Does
            (execute_plan pd settings market venue (some plan))
            (λ es r. has_command es ≡ true → IsCleared pd settings venue plan)
    unfolding execute_plan
    plan_guarded plan =
        bind_does (validates plan)
          (λ es v h.
            choose_does _
              (λ c. weaken_does (enter_roomy pd settings venue plan market) (λ later r g k.
                let room = g (later_command es later h.0 k) in
                record { free = room.0; gate = room.1; outside = (h.1 c).0; sized = (h.1 c).1 }))
              (λ c. weaken_does (refuse-Free pd settings venue plan _ _) (λ later r f k.
                no_command (sym (free_command (es ++ later) (free_append es later h.0 f)) ∙ k))))
          (λ es x h k. no_command (sym (free_command es h) ∙ k))

    abbrev FromPlan : Option (TradePlan F) → List (Event F) → Type 0
    FromPlan plan es =
        has_command es ≡ true → (p : TradePlan F) × (plan ≡ some p) × IsCleared pd settings venue p

    option_guarded :
        (plan : Option (TradePlan F))
        → Does (execute_plan pd settings market venue plan) (λ es r. FromPlan plan es)
    unfolding execute_plan has_reserved has_command
    option_guarded none = pure_does _ (λ k. no_command k)
    option_guarded (some plan) = weaken_does (plan_guarded plan) (λ es r h k. (plan, refl, h k))

    abbrev Builds : Candidate F → List (Event F) → Call (Option (TradePlan F)) → Type 0
    Builds candidate es r =
        (has_reserved es ≡ false) × (r ≡ (build_trade_plan pd settings candidate market).outcome)

    builds :
        (candidate : Candidate F)
        → Does (build_trade_plan pd settings candidate market) (Builds candidate)
    builds candidate = record { holds = ((build-Free pd settings candidate market).holds, refl) }

    abbrev IsGuarded : Candidate F → List (Event F) → Type 0
    IsGuarded candidate es =
        has_command es ≡ true
        → (plan : TradePlan F) × ((build_trade_plan pd settings candidate market).outcome
            ≡ answer (some plan))
          × IsCleared pd settings venue plan

    guarded :
        (candidate : Candidate F)
        → Does
            (execute_candidate pd settings market venue candidate)
            (λ es r. IsGuarded candidate es)
    unfolding execute_candidate has_reserved has_command is_reserved is_lock is_command
    guarded candidate = emit_does _ _ (
        bind_does (builds candidate)
          (λ es plan h. weaken_does (option_guarded plan) (λ later r g k.
            let c = g (later_command es later h.0 k) in (c.0, sym h.1 ∙ ap answer c.1, c.2)))
          (λ es x h k. no_command (sym (free_command es h.0) ∙ k)))

  module _ (market : Market F) (venue : Venue F) where
    enter-Frees : (plan : TradePlan F) → Does (enter_market pd settings market venue plan) Frees
    unfolding enter_market
    enter-Frees plan =
        bind_does (submit_entry-Frees pd settings venue plan)
          (λ es fill h.
            choose_does _
              (λ c.
                bind_does (finalize-Free pd settings venue plan market fill)
                  (λ es2 context g.
                    weaken_does (launch-Free pd settings venue plan context) (λ later r f.
                      frees_append es (es2 ++ later) h
                        (free_lock false (es2 ++ later) (free_append es2 later g f))))
                  (λ es2 x g. frees_append es es2 h (free_lock false es2 g)))
              (λ c.
                weaken_does (refuse-Free pd settings venue plan _ _)
                  (λ later r f. frees_append es later h (free_lock false later f))))
          (λ es x h. h)

    execute-Frees :
        (plan : Option (TradePlan F)) → Does (execute_plan pd settings market venue plan) Frees
    unfolding execute_plan lock_after
    execute-Frees none = pure_does _ refl
    execute-Frees (some plan) =
        bind_does (validates market venue plan)
          (λ es v h.
            choose_does _
              (λ c.
                weaken_does (enter-Frees plan)
                  (λ later r k. frees_append es later (free_lock false es h.0) k))
              (λ c. weaken_does (refuse-Free pd settings venue plan _ _) (λ later r f.
                frees_append es later (free_lock false es h.0) (free_lock false later f))))
          (λ es x h. free_lock false es h)

    candidate-Frees :
        (candidate : Candidate F)
        → Does (execute_candidate pd settings market venue candidate) Frees
    unfolding execute_candidate lock_after lock_step
    candidate-Frees candidate = emit_does _ _ (
        bind_does (build-Free pd settings candidate market)
          (λ es plan h.
            weaken_does (execute-Frees plan)
              (λ later r k. frees_append es later (free_lock false es h) k))
          (λ es x h. free_lock false es h))

  -- An entry that sends an order to the exchange, or cancels orders, all those of the symbol or one
  -- by its id, has a plan that was built for its candidate; the entry lock was not busy, the
  -- exchange answered the recheck with fewer positions than the maximum and none in the plan's
  -- symbol, the stop is outside the liquidation zone and the size reaches the exchange's minimums.
  -- Each of its orders and cancellations stands between an acquisition of the lock and its release,
  -- the lock is acquired only where it is not held, and it is free at the end.
  pub execute_candidate_guarded :
      (market : Market F) (venue : Venue F) (candidate : Candidate F)
      → has_command (execute_candidate pd settings market venue candidate).events ≡ true
      → ((plan : TradePlan F) × ((build_trade_plan pd settings candidate market).outcome
            ≡ answer (some plan))
          × IsCleared pd settings venue plan)
        × (lock_after (some false) (execute_candidate pd settings market venue candidate).events
            ≡ some false)
  execute_candidate_guarded market venue candidate orders = (
    (guarded market venue candidate).holds orders,
    (candidate-Frees market venue candidate).holds,
  )
