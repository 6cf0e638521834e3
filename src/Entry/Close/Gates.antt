-- ===== src/Entry/Close/Gates.antt =====
-- A run of `_on_close` sends orders only after every gate.
use trading_binance.Base.{
  ℕ, ◌<◌, ◌≡◌, refl, sym, ◌∙◌, subst, arith, Bool, true, false, not, ◌&&◌, String, List, [], ◌∷◌,
  ◌++◌, leb, if◌then◌else◌,
}
use trading_binance.Num.{Float}
use trading_binance.Indicators.{Pandas}
use trading_binance.Py.{Call, answer, exception}
use trading_binance.Positions.Active.{Position, count_active_positions}
use trading_binance.Flow.Laws.{
  no_command, Does, bind_does, pure_does, ask_does, emit_does, choose_does, rescue_ask_does,
  weaken_does,
}
use trading_binance.Entry.{Event, record_error}
use trading_binance.Entry.Plan.{EntrySettings, Candidate, Market}
use trading_binance.Entry.Submit.{Venue}
use trading_binance.Entry.Finalize.{execute_candidate}
use trading_binance.Entry.Guarded.{
  is_command, is_lock, is_reserved, has_command, has_reserved, free_command, Free, free_append,
  later_command, earlier_command,
}
use trading_binance.Entry.Close.{
  Block, Gate, Answers, without_positions, record_detected_signals, discard_all, kept_or_discarded,
  filter_signals_by_symbol_limit, live_gate, position_gate, suspend, resolve_execution_gate,
  broadcast_signal_alerts, schedule_followup, execute_best, act_on, act_on_signals,
}

module _ {F : Type 0} where
  detected-Free : (cs : List (Candidate F)) → Does (record_detected_signals cs) Free
  unfolding record_detected_signals has_reserved has_command is_reserved is_lock is_command
  detected-Free [] = pure_does _ refl
  detected-Free (c ∷ cs) = emit_does _ _ (detected-Free cs)

  discard-Free : (cs : List (Candidate F)) → Does (discard_all cs) Free
  unfolding discard_all has_reserved has_command is_reserved is_lock is_command
  discard-Free [] = pure_does _ refl
  discard-Free (c ∷ cs) = emit_does _ _ (discard-Free cs)

  -- What the filter leaves is what has no position.
  abbrev Filters : List (Candidate F) → List (Event F) → Call (List (Candidate F)) → Type 0
  Filters kept es (answer cs) = (has_reserved es ≡ false) × (cs ≡ kept)
  Filters kept es (exception e) = has_reserved es ≡ false

  kept_does : (cs kept : List (Candidate F)) → Does (kept_or_discarded cs kept) (Filters kept)
  unfolding kept_or_discarded has_reserved has_command
  kept_does cs [] =
      bind_does (discard-Free cs) (λ es a h. pure_does _ (free_append es [] h refl, refl))
        (λ es x h. h)
  kept_does cs (c ∷ kept) = pure_does _ (refl, refl)

and_not-false : (a b : Bool) → a ≡ true → (a && not b) ≡ false → b ≡ true
and_not-false a b h k = ground arith

leb-false : (m n : ℕ) → leb m n ≡ false → n < m
leb-false m n h = ground arith

module _ {F : Type 0} ⦃fl : Float F⦄ (pd : Pandas F) (settings : EntrySettings F)
    (reason_text : Block → String) where
  if_open :
      (b : Bool) (x y : Gate)
      → x.allowed ≡ false
      → (if b then x else y).allowed ≡ true
      → (b ≡ false) × (y.allowed ≡ true)
  if_open true x y h k = no_command (sym h ∙ k)
  if_open false x y h k = (refl, k)

  module _ (answers : Answers F) where
    -- What the gate has seen before it asks the operational service.
    record IsRoomy (active : ℕ) : Type 0 where
      pub tradable : answers.can_trade_now ≡ true
      pub first : leb settings.max_positions active ≡ false
      pub positions : List (Position F)
      pub answered : answers.live_snapshot ≡ answer positions
      pub room : (count_active_positions positions).0 < settings.max_positions

    abbrev Gates : (Bool → Type 0) → List (Event F) → Call Gate → Type 0
    Gates P es (answer gate) = (has_reserved es ≡ false) × P gate.allowed
    Gates P es (exception e) = has_reserved es ≡ false

    live_lem :
        (n : ℕ) → (live_gate pd settings reason_text n).allowed ≡ true → n < settings.max_positions
    unfolding live_gate
    live_lem n h = leb-false _ _ (if_open (leb settings.max_positions n) _ _ refl h).0

    position_gate_does :
        (active : ℕ)
        → Does
            (position_gate pd settings reason_text answers
              (leb settings.max_positions active)
              active)
            (Gates (λ allowed. allowed ≡ true → IsRoomy active))
    unfolding position_gate record_error has_reserved has_command is_reserved is_lock is_command
    position_gate_does active =
        choose_does _ (λ c. pure_does _ (refl, λ k. no_command k))
          (λ c.
            choose_does _ (λ d. pure_does _ (refl, λ k. no_command k))
              (λ d.
                rescue_ask_does
                  (λ live e. pure_does _ (
                    refl,
                    λ k. record {
                      tradable = ground arith;
                      first = c;
                      positions = live;
                      answered = e;
                      room = live_lem _ k;
                    },
                  ))
                  (λ x e f. emit_does _ _ (pure_does _ (refl, λ k. no_command k))) (λ x e f. refl)))

    -- What every gate has seen where an entry is tried.
    pub record IsOpen (active : ℕ) : Type 0 where
      pub tradable : answers.can_trade_now ≡ true
      pub operational : answers.ops_allows_entries ≡ true
      pub first : active < settings.max_positions
      pub positions : List (Position F)
      pub answered : answers.live_snapshot ≡ answer positions
      pub room : (count_active_positions positions).0 < settings.max_positions

    suspend_lem :
        (active : ℕ) (gate : Gate)
        → (gate.allowed ≡ true → IsRoomy active)
        → (suspend pd settings reason_text answers.ops_allows_entries gate).allowed ≡ true
        → IsOpen active
    unfolding suspend
    suspend_lem active gate h k =
        let passed = if_open (gate.allowed && not answers.ops_allows_entries) _ gate refl k in
        let roomy = h passed.1 in
        record {
          tradable = roomy.tradable;
          operational = and_not-false gate.allowed _ passed.1 passed.0;
          first = leb-false _ _ roomy.first;
          positions = roomy.positions;
          answered = roomy.answered;
          room = roomy.room;
        }

    gate_does :
        (active : ℕ)
        → Does
            (resolve_execution_gate pd settings reason_text answers
              (leb settings.max_positions active)
              active)
            (Gates (λ allowed. allowed ≡ true → IsOpen active))
    unfolding resolve_execution_gate has_reserved has_command is_reserved is_lock is_command
    gate_does active =
        bind_does (position_gate_does active)
          (λ es gate h.
            emit_does _ _ (pure_does _ (free_append es _ h.0 refl, suspend_lem active gate h.1)))
          (λ es x h. h)

    broadcast-Free :
        (cs : List (Candidate F)) → Does (broadcast_signal_alerts pd settings reason_text cs) Free
    unfolding broadcast_signal_alerts has_reserved has_command is_reserved is_lock is_command
    broadcast-Free [] = pure_does _ refl
    broadcast-Free (c ∷ cs) =
        choose_does _ (λ k. broadcast-Free cs)
          (λ k. ask_does (λ rr e. emit_does _ _ (broadcast-Free cs)) (λ x e. refl))

    followup-Free :
        (cs : List (Candidate F)) → Does (schedule_followup pd settings reason_text cs) Free
    unfolding schedule_followup has_reserved has_command is_reserved is_lock is_command
    followup-Free cs = choose_does _ (λ k. pure_does _ refl) (λ k. emit_does _ _ (pure_does _ refl))

    module _ (market : Candidate F → Market F) (venue : Candidate F → Venue F) where
      -- An order of the run is one of the entry of this candidate.
      abbrev pub Orders : Candidate F → Type 0
      Orders best =
          has_command (execute_candidate pd settings (market best) (venue best) best).events ≡ true

      best_does :
          (best : Candidate F) (cs : List (Candidate F))
          → Does
              (execute_best pd settings reason_text market venue best cs)
              (λ es r. has_command es ≡ true → Orders best)
      unfolding execute_best has_reserved has_command
      best_does best cs =
          bind_does
            {P = λ es r.
              es ≡ (execute_candidate pd settings (market best) (venue best) best).events}
            (record { holds = refl })
            (λ es done h.
              choose_does _
                (λ c. weaken_does (followup-Free cs) (λ later r f k.
                  subst (λ l. has_command l ≡ true) h (earlier_command es later f k)))
                (λ c.
                  pure_does _
                    (λ k. subst (λ l. has_command l ≡ true) h (earlier_command es [] refl k))))
            (λ es x h k. subst (λ l. has_command l ≡ true) h k)

      -- An order comes after the gates, for the first of the candidates.
      abbrev pub Acts : ℕ → List (Candidate F) → List (Event F) → Type 0
      Acts active kept es =
          has_command es ≡ true
          → IsOpen active
            × (best : Candidate F) × (rest : List (Candidate F)) × (kept ≡ best ∷ rest)
            × Orders best

      act_does :
          (active : ℕ) (kept : List (Candidate F))
          → Does
              (act_on pd settings reason_text market venue answers active kept)
              (λ es r. Acts active kept es)
      unfolding act_on has_reserved has_command is_reserved is_lock is_command
      act_does active [] = pure_does _ (λ k. no_command k)
      act_does active (best ∷ rest) =
          bind_does (gate_does active)
            (λ es gate h.
              bind_does (broadcast-Free (best ∷ rest))
                (λ es2 a f.
                  choose_does _
                    (λ c. weaken_does (best_does best _) (λ later r g k. (
                      h.1 c,
                      best,
                      rest,
                      refl,
                      g (later_command es2 later f (later_command es _ h.0 k)),
                    )))
                    (λ c. emit_does _ _ (
                      pure_does _
                        (λ k. no_command (later_command es2 _ f (later_command es _ h.0 k))))))
                (λ es2 x f k.
                  no_command (sym (free_command (es ++ es2) (free_append es es2 h.0 f)) ∙ k)))
            (λ es x h k. no_command (sym (free_command es h) ∙ k))

      pub signals_does :
          (active : ℕ) (symbols : List String) (signals : List (Candidate F))
          → Does
              (act_on_signals pd settings reason_text market venue answers active symbols signals)
              (λ es r. Acts active (without_positions symbols signals) es)
      unfolding act_on_signals has_reserved has_command filter_signals_by_symbol_limit
          without_positions
      signals_does active symbols [] = pure_does _ (λ k. no_command k)
      signals_does active symbols (c ∷ signals) =
          bind_does (detected-Free (c ∷ signals))
            (λ es a f.
              bind_does (kept_does (c ∷ signals) (without_positions symbols (c ∷ signals)))
                (λ es2 kept h. weaken_does (act_does active kept) (λ later r g k.
                  subst
                    (λ l.
                      IsOpen active
                      × (best : Candidate F) × (rest : List (Candidate F)) × (l ≡ best ∷ rest)
                      × Orders best)
                    h.1 (g (later_command es2 later h.0 (later_command es _ f k)))))
                (λ es2 x h k.
                  no_command (sym (free_command (es ++ es2) (free_append es es2 f h)) ∙ k)))
            (λ es x f k. no_command (sym (free_command es f) ∙ k))
