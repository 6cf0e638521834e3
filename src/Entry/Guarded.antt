-- ===== src/Entry/Guarded.antt =====
-- The guards of an order: what the parts of an entry have seen before they send one.
pub mod Entries
pub mod Locked
use trading_binance.Base.{
  ℕ, ◌<◌, ◌≡◌, refl, sym, ◌∙◌, ap, subst, arith, Bool, true, false, ◌||◌, ◌&&◌, String, Option,
  none, some, List, [], ◌∷◌, ◌++◌, leb, if◌then◌else◌,
}
use trading_binance.Num.{Float, ◌≤?◌, zero_float}
use trading_binance.Indicators.{Pandas}
use trading_binance.Py.{Call, answer, exception, Error}
use trading_binance.Sizing.{is_entry_size_valid}
use trading_binance.Positions.Active.{Position, contains_text, count_active_positions}
use trading_binance.Flow.{Flow, ◌>>=◌, pure, ask, emit, send, choose, rescue, finally_do, within}
use trading_binance.Flow.Laws.{
  no_command, Does, bind_does, pure_does, ask_does, emit_does, choose_does, rescue_does,
  rescue_ask_does, rescue_send_does, weaken_does,
}
use trading_binance.Entry.{
  Event, hook, lock_acquired, lock_released, invalidated, orders_cancelled, command,
  monitor_launched, record_error, mark_entry_failed, give_up,
}
use trading_binance.Entry.Plan.{
  EntrySettings, Candidate, Market, TradePlan, round_plan, size_plan, margin_plan, fund_plan,
  balance_plan, build_trade_plan,
}
use trading_binance.Entry.Validate.{
  Validation, is_in_liquidation_zone, validation_of, validate_trade_plan,
}
use trading_binance.Entry.Submit.{
  FillResult, Venue, Attempt, is_full_or_open, is_position_gate_blocked, place_order, attempt_entry,
  submit_entry,
}
use trading_binance.Entry.Finalize.{
  LaunchContext, book_entry, finalize_entry, launch_monitor, launch_if, refuse, enter_market,
  execute_plan, execute_candidate,
}

module _ {F : Type 0} where
  unfoldable pub is_command : Event F → Bool
  is_command (command c) = true
  is_command (orders_cancelled symbol) = true
  is_command _ = false

  unfoldable pub is_lock : Event F → Bool
  is_lock lock_acquired = true
  is_lock lock_released = true
  is_lock _ = false

  unfoldable pub is_reserved : Event F → Bool
  is_reserved e = is_command e || is_lock e

  -- whether an order was sent, or orders were cancelled
  unfoldable pub has_command : List (Event F) → Bool
  has_command [] = false
  has_command (e ∷ es) = is_command e || has_command es

  pub has_command-append :
      (xs ys : List (Event F)) → has_command (xs ++ ys) ≡ (has_command xs || has_command ys)
  unfolding has_command
  has_command-append [] ys = refl
  has_command-append (e ∷ es) ys = ground (arith, has_command-append es ys)

  -- whether the entry lock was used, or an order sent or cancelled
  unfoldable pub has_reserved : List (Event F) → Bool
  has_reserved [] = false
  has_reserved (e ∷ es) = is_reserved e || has_reserved es

  has_reserved-append :
      (xs ys : List (Event F)) → has_reserved (xs ++ ys) ≡ (has_reserved xs || has_reserved ys)
  unfolding has_reserved
  has_reserved-append [] ys = refl
  has_reserved-append (e ∷ es) ys = ground (arith, has_reserved-append es ys)

  -- A part of the flow without orders, and outside the lock.
  abbrev pub Free : {A : Type 0} → List (Event F) → Call A → Type 0
  Free es r = has_reserved es ≡ false

  pub free_command : (es : List (Event F)) → has_reserved es ≡ false → has_command es ≡ false
  unfolding has_reserved is_reserved has_command
  free_command [] h = refl
  free_command (e ∷ es) h = ground (arith, free_command es)

  pub free_append :
      (xs ys : List (Event F))
      → has_reserved xs ≡ false
      → has_reserved ys ≡ false
      → has_reserved (xs ++ ys) ≡ false
  free_append xs ys h k = ground (arith, has_reserved-append xs ys)

  pub later_command :
      (xs ys : List (Event F))
      → has_reserved xs ≡ false
      → has_command (xs ++ ys) ≡ true
      → has_command ys ≡ true
  later_command xs ys h k = ground (arith, has_command-append xs ys, free_command xs h)

  pub earlier_command :
      (xs ys : List (Event F))
      → has_reserved ys ≡ false
      → has_command (xs ++ ys) ≡ true
      → has_command xs ≡ true
  earlier_command xs ys h k = ground (arith, has_command-append xs ys, free_command ys h)

  before_release :
      (es : List (Event F))
      → has_command (es ++ (lock_released ∷ [])) ≡ true
      → has_command es ≡ true
  unfolding has_command is_command
  before_release es k = ground (arith, has_command-append es (lock_released ∷ []))

  pub give_up-Free :
      {A : Type 0} (symbol stage reason : String)
      → Does (give_up {F = F} {A = A} symbol stage reason) Free
  unfolding give_up mark_entry_failed has_reserved has_command is_reserved is_lock is_command
  give_up-Free symbol stage reason = emit_does _ _ (pure_does _ refl)

module _ {F : Type 0} ⦃fl : Float F⦄ (pd : Pandas F) (settings : EntrySettings F) where
  pub build-Free :
      (candidate : Candidate F) (market : Market F)
      → Does (build_trade_plan pd settings candidate market) Free
  unfolding build_trade_plan balance_plan fund_plan margin_plan size_plan round_plan has_reserved
      has_command is_reserved is_lock is_command record_error
  build-Free candidate market =
      ask_does
        (λ atr e.
          choose_does _ (λ c. give_up-Free _ _ _)
            (λ c.
              rescue_ask_does
                (λ a e.
                  ask_does
                    (λ q e.
                      ask_does
                        (λ n e.
                          choose_does _ (λ c. give_up-Free _ _ _)
                            (λ c.
                              ask_does
                                (λ m e.
                                  choose_does _ (λ c. give_up-Free _ _ _)
                                    (λ c.
                                      ask_does
                                        (λ q e.
                                          choose_does _ (λ c. give_up-Free _ _ _)
                                            (λ c. ask_does (λ l e. pure_does _ refl) (λ x e. refl)))
                                        (λ x e. refl)))
                                (λ x e. refl)))
                        (λ x e. refl))
                    (λ x e. refl))
                (λ x e f. emit_does _ _ (give_up-Free _ _ _)) (λ x e f. refl)))
        (λ x e. refl)

  -- What the recheck under the lock has seen.
  pub record Room (venue : Venue F) (symbol : String) : Type 0 where
    pub positions : List (Position F)
    pub answered : venue.positions ≡ answer positions
    pub room : (count_active_positions positions).0 < settings.max_positions
    pub fresh : contains_text symbol (count_active_positions positions).1 ≡ false

  -- What the guards of a plan have seen.
  pub record IsCleared (venue : Venue F) (plan : TradePlan F) : Type 0 where
    pub free : venue.lock_busy ≡ false
    pub gate : Room venue plan.symbol
    pub outside : is_in_liquidation_zone pd settings plan ≡ answer false
    pub sized :
        is_entry_size_valid plan.qty_l1 plan.entry_price plan.min_qty plan.min_notional ≡ true

  room_lem :
      (venue : Venue F) (symbol : String) (ps : List (Position F))
      → venue.positions ≡ answer ps
      → is_full_or_open pd settings symbol (count_active_positions ps) ≡ false
      → Room venue symbol
  unfolding is_full_or_open
  room_lem venue symbol ps e h = record {
    positions = ps;
    answered = e;
    room = ground arith;
    fresh = ground arith;
  }

  module _ (venue : Venue F) (plan : TradePlan F) where
    abbrev GateSays : List (Event F) → Call Bool → Type 0
    GateSays es (answer blocked) =
        (has_reserved es ≡ false) × (blocked ≡ false → Room venue plan.symbol)
    GateSays es (exception e) = has_reserved es ≡ false

    gate_says : Does (is_position_gate_blocked pd settings venue plan.symbol) GateSays
    unfolding is_position_gate_blocked record_error has_reserved has_command is_reserved is_lock
        is_command
    gate_says =
        rescue_ask_does (λ ps e. pure_does _ (refl, λ h. room_lem venue plan.symbol ps e h))
          (λ x e f. emit_does _ _ (pure_does _ (refl, λ h. no_command (sym h)))) (λ x e f. refl)

    -- Orders come only where there is room.
    abbrev Roomy : {A : Type 0} → List (Event F) → Call A → Type 0
    Roomy es r = has_command es ≡ true → Room venue plan.symbol

    roomy : {A : Type 0} (m : Flow (Event F) A) → Room venue plan.symbol → Does m Roomy
    roomy m h = record { holds = λ c. h }

    attempt-Roomy : Does (attempt_entry pd settings venue plan) Roomy
    unfolding attempt_entry has_reserved has_command
    attempt-Roomy =
        bind_does gate_says
          (λ es blocked h.
            choose_does blocked
              (λ c.
                pure_does _
                  (λ k. no_command (sym (free_command _ (free_append es [] h.0 refl)) ∙ k)))
              (λ c. record { holds = λ k. h.1 c }))
          (λ es x h k. no_command (sym (free_command _ h) ∙ k))

    finally-Roomy :
        {A : Type 0} (m : Flow (Event F) A) → Does m Roomy → Does (finally_do lock_released m) Roomy
    unfolding finally_do has_reserved has_command is_reserved is_lock is_command
    finally-Roomy m d = record { holds = λ k. d.holds (before_release m.events k) }

    abbrev pub Submits : {A : Type 0} → List (Event F) → Call A → Type 0
    Submits es r = has_command es ≡ true → (venue.lock_busy ≡ false) × Room venue plan.symbol

    submit_entry_roomy : Does (submit_entry pd settings venue plan) Submits
    unfolding submit_entry has_reserved has_command is_reserved is_lock is_command
    submit_entry_roomy =
        choose_does _ (λ c. pure_does _ (λ k. no_command k))
          (λ c. emit_does _ _ (
            bind_does (finally-Roomy _ attempt-Roomy)
              (λ es a h. pure_does _ (λ k. (c, h (earlier_command es [] refl k))))
              (λ es x h k. (c, h k))))

    pub refuse-Free : (stage reason : String) → Does (refuse pd settings plan stage reason) Free
    unfolding refuse mark_entry_failed has_reserved has_command is_reserved is_lock is_command
    refuse-Free stage reason = emit_does _ _ (pure_does _ refl)

    pub finalize-Free :
        (market : Market F) (fill : FillResult F)
        → Does (finalize_entry pd settings market plan fill) Free
    unfolding finalize_entry book_entry has_reserved has_command is_reserved is_lock is_command
    finalize-Free market fill = emit_does _ _ (
        choose_does _ (λ c. give_up-Free _ _ _)
          (λ c.
            ask_does
              (λ b e.
                ask_does (λ q f. emit_does _ _ (emit_does _ _ (pure_does _ refl))) (λ x f. refl))
              (λ x e. refl)))

    pub launch-Free :
        (context : Option (LaunchContext F)) → Does (launch_if pd settings context) Free
    unfolding launch_if launch_monitor has_reserved has_command is_reserved is_lock is_command emit
    launch-Free none = pure_does _ refl
    launch-Free (some context) =
        bind_does {P = Free} (emit_does _ _ (record { holds = refl }))
          (λ es a h. pure_does _ (free_append es [] h refl)) (λ es x h. h)

    pub enter_roomy :
        (market : Market F) → Does (enter_market pd settings market venue plan) Submits
    unfolding enter_market
    enter_roomy market =
        bind_does submit_entry_roomy
          (λ es fill h.
            choose_does _
              (λ c.
                bind_does (finalize-Free market fill)
                  (λ es2 context g.
                    weaken_does (launch-Free context)
                      (λ later r f k. h (earlier_command es _ (free_append es2 later g f) k)))
                  (λ es2 x g k. h (earlier_command es es2 g k)))
              (λ c.
                weaken_does (refuse-Free _ _) (λ later r f k. h (earlier_command es later f k))))
          (λ es x h. h)
