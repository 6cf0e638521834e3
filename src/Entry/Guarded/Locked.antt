-- ===== src/Entry/Guarded/Locked.antt =====
-- The entry lock: what is sent and cancelled between its acquisition and its release.
use trading_binance.Base.{
  ◌≡◌, refl, ◌∙◌, ap, arith, Bool, true, false, ◌||◌, Option, none, some, List, [], ◌∷◌, ◌++◌, map,
  if◌then◌else◌,
}
use trading_binance.Num.{Float}
use trading_binance.Indicators.{Pandas}
use trading_binance.Py.{Call}
use trading_binance.Flow.{finally_do, within}
use trading_binance.Flow.Laws.{
  Does, bind_does, pure_does, emit_does, choose_does, rescue_does, rescue_ask_does,
  rescue_send_does, weaken_does,
}
use trading_binance.Entry.{
  Event, lock_acquired, lock_released, command, hook, invalidated, orders_cancelled,
  monitor_launched, record_error,
}
use trading_binance.Execution.Entries.{place_entry}
use trading_binance.Entry.Plan.{EntrySettings, TradePlan}
use trading_binance.Entry.Submit.{
  Venue, is_position_gate_blocked, place_order, attempt_entry, submit_entry,
}
use trading_binance.Entry.Guarded.{is_command, is_lock, is_reserved, has_reserved}

module _ {F : Type 0} where
  -- The lock after a call, or `none` where the call does not fit it: an order or a cancellation
  -- without the lock, an acquisition of a lock that is held, a release of one that is not.
  unfoldable pub lock_step : Bool → Event F → Option Bool
  lock_step held lock_acquired = if held then none else some true
  lock_step held lock_released = if held then some false else none
  lock_step held (command c) = if held then some true else none
  lock_step held (orders_cancelled symbol) = if held then some true else none
  lock_step held (hook action) = some held
  lock_step held invalidated = some held
  lock_step held (monitor_launched symbol) = some held

  unfoldable pub lock_after : Option Bool → List (Event F) → Option Bool
  lock_after held [] = held
  lock_after none (e ∷ es) = none
  lock_after (some held) (e ∷ es) = lock_after (lock_step held e) es

  pub lock_after-append :
      (held : Option Bool) (xs ys : List (Event F))
      → lock_after held (xs ++ ys) ≡ lock_after (lock_after held xs) ys
  unfolding lock_after
  lock_after-append held [] ys = refl
  lock_after-append none (e ∷ es) [] = refl
  lock_after-append none (e ∷ es) (y ∷ ys) = refl
  lock_after-append (some held) (e ∷ es) ys = lock_after-append (lock_step held e) es ys

  -- Calls that do not use the lock.
  unfoldable has_lock : List (Event F) → Bool
  has_lock [] = false
  has_lock (e ∷ es) = is_lock e || has_lock es

  has_lock-append : (xs ys : List (Event F)) → has_lock (xs ++ ys) ≡ (has_lock xs || has_lock ys)
  unfolding has_lock
  has_lock-append [] ys = refl
  has_lock-append (e ∷ es) ys = ground (arith, has_lock-append es ys)

  lockless :
      (xs ys : List (Event F))
      → has_lock xs ≡ false
      → has_lock ys ≡ false
      → has_lock (xs ++ ys) ≡ false
  lockless xs ys h k = ground (arith, has_lock-append xs ys)

  step_free : (held : Bool) (e : Event F) → is_reserved e ≡ false → lock_step held e ≡ some held
  unfolding lock_step is_reserved is_command is_lock
  step_free held lock_acquired h = ground arith
  step_free held lock_released h = ground arith
  step_free held (command c) h = ground arith
  step_free held (orders_cancelled symbol) h = ground arith
  step_free held (hook action) h = refl
  step_free held invalidated h = refl
  step_free held (monitor_launched symbol) h = refl

  step_held : (e : Event F) → is_lock e ≡ false → lock_step true e ≡ some true
  unfolding lock_step is_lock
  step_held lock_acquired h = ground arith
  step_held lock_released h = ground arith
  step_held (command c) h = refl
  step_held (orders_cancelled symbol) h = refl
  step_held (hook action) h = refl
  step_held invalidated h = refl
  step_held (monitor_launched symbol) h = refl

  pub free_lock :
      (held : Bool) (es : List (Event F))
      → has_reserved es ≡ false
      → lock_after (some held) es ≡ some held
  unfolding lock_after has_reserved
  free_lock held [] h = refl
  free_lock held (e ∷ es) h =
      ap (λ o. lock_after o es) (step_free held e (ground arith)) ∙ free_lock held es (ground arith)

  held_lock : (es : List (Event F)) → has_lock es ≡ false → lock_after (some true) es ≡ some true
  unfolding lock_after has_lock
  held_lock [] h = refl
  held_lock (e ∷ es) h =
      ap (λ o. lock_after o es) (step_held e (ground arith)) ∙ held_lock es (ground arith)

  commands_lockless :
      {C : Type 0} (f : C → Event F) (cs : List C)
      → ((c : C) → is_lock (f c) ≡ false)
      → has_lock (map f cs) ≡ false
  unfolding has_lock
  commands_lockless f [] h = refl
  commands_lockless f (c ∷ cs) h = ground (arith, h c, commands_lockless f cs h)

  released :
      (es : List (Event F))
      → has_lock es ≡ false
      → lock_after (some true) (es ++ (lock_released ∷ [])) ≡ some false
  unfolding lock_after lock_step
  released es h =
      lock_after-append (some true) es (lock_released ∷ [])
      ∙ ap (λ o. lock_after o (lock_released ∷ [])) (held_lock es h)

  abbrev Lockless : {A : Type 0} → List (Event F) → Call A → Type 0
  Lockless es r = has_lock es ≡ false

  -- The lock is free before and after.
  abbrev pub Frees : {A : Type 0} → List (Event F) → Call A → Type 0
  Frees es r = lock_after (some false) es ≡ some false

  pub frees_append :
      (xs ys : List (Event F))
      → lock_after (some false) xs ≡ some false
      → lock_after (some false) ys ≡ some false
      → lock_after (some false) (xs ++ ys) ≡ some false
  frees_append xs ys h k = lock_after-append (some false) xs ys ∙ ap (λ o. lock_after o ys) h ∙ k

module _ {F : Type 0} ⦃fl : Float F⦄ (pd : Pandas F) (settings : EntrySettings F) (venue : Venue F)
    (plan : TradePlan F) where
  place_order-Lockless : Does (place_order pd settings venue plan) Lockless
  unfolding place_order record_error has_lock is_lock within
  place_order-Lockless =
      let entry =
        place_entry venue.rounder venue.exchange settings.use_limit_only settings.use_paper_trading
          plan.side plan.entry_price plan.qty_l1 in
      emit_does _ _ (
        rescue_does {P = Lockless}
          (record { holds = commands_lockless command entry.events (λ c. refl) })
          (λ es a q. pure_does _ (lockless es [] q refl))
          (λ es x q c. emit_does _ _ (pure_does _ (lockless es _ q refl)))
          (λ es x q c. lockless es [] q refl))

  gate-Lockless : Does (is_position_gate_blocked pd settings venue plan.symbol) Lockless
  unfolding is_position_gate_blocked record_error has_lock is_lock
  gate-Lockless =
      rescue_ask_does (λ ps e. pure_does _ refl) (λ x e f. emit_does _ _ (pure_does _ refl))
        (λ x e f. refl)

  attempt_entry-Lockless : Does (attempt_entry pd settings venue plan) Lockless
  unfolding attempt_entry record_error has_lock is_lock
  attempt_entry-Lockless =
      bind_does gate-Lockless
        (λ es blocked h.
          choose_does _ (λ c. pure_does _ (lockless es [] h refl))
            (λ c.
              rescue_send_does _
                (λ a e. weaken_does place_order-Lockless (λ later r k. lockless es _ h k))
                (λ x e f.
                  emit_does _ _ (weaken_does place_order-Lockless (λ later r k. lockless es _ h k)))
                (λ x e f. lockless es _ h refl)))
        (λ es x h. h)

  -- What is held from the acquisition on is released.
  pub submit_entry-Frees : Does (submit_entry pd settings venue plan) Frees
  unfolding submit_entry lock_after lock_step finally_do
  submit_entry-Frees =
      choose_does _ (λ c. pure_does _ refl)
        (λ c. emit_does _ _ (
          bind_does {P = λ es r. lock_after (some true) es ≡ some false}
            (record {
              holds =
                  released (attempt_entry pd settings venue plan).events
                    attempt_entry-Lockless.holds;
            })
            (λ es a h. pure_does _ (lock_after-append (some true) es [] ∙ h)) (λ es x h. h)))
