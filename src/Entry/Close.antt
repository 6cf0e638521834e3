-- ===== src/Entry/Close.antt =====
-- `_on_close` and what it calls: from the close of a candle to at most one entry.
pub mod Gates
pub mod Called
use trading_binance.Base.{
  ℕ, ◌-◌, Bool, true, false, not, ◌&&◌, String, Option, none, some, List, [], ◌∷◌, max, length,
  take, leb, ◌==◌, if◌then◌else◌,
}
use trading_binance.Num.{Float, zero_float, lit, ◌⊕◌, ◌⊖◌, ◌⊗◌, ◌<?◌, ◌≤?◌, absolute, max_float}
use trading_binance.Indicators.{Pandas}
use trading_binance.Py.{Call, answer, Error, divide_then}
use trading_binance.Flow.{is_recoverable, Flow, ◌>>=◌, ◌>>◌, pure, ask, emit, choose, rescue}
use trading_binance.Operations.Steps.{counted_signal, discarded, alerted, asked_gate}
use trading_binance.Positions.Active.{Position, contains_text, count_active_positions}
use trading_binance.Strategy.Frame.{Signal}
use trading_binance.Entry.{Event, hook, invalidated, record_error}
use trading_binance.Entry.Plan.{
  EntrySettings, Candidate, Market, by_side, entry_price_with_offset, risk_distance_of,
}
use trading_binance.Entry.Submit.{Venue}
use trading_binance.Entry.Finalize.{execute_candidate}

-- Why a signal is not executed.
pub data Block : Type 0 where
  not_blocked : Block
  too_many_positions : ℕ → Block
  by_risk_manager unverified_positions by_suspension : Block

-- What the gate says: whether to go on, why not, and how many positions there are.
pub record Gate : Type 0 where
  pub allowed : Bool
  pub block : Block
  pub live_count : ℕ

-- The answers that a run meets: the anchor's last close time, if it has a row; the positions of the
-- two looks at the cache; the risk manager and the operational service; and the scan.
pub record Answers (F : Type 0) : Type 0 where
  pub anchor_close : Option ℕ
  pub snapshot : Call (List (Position F))
  pub can_trade_now : Bool
  pub signals : List (Candidate F)
  pub live_snapshot : Call (List (Position F))
  pub ops_allows_entries : Bool

-- whether the close was the last one that was handled
abbrev is_close : Option ℕ → ℕ → Bool
is_close none close_ms = false
is_close (some last) close_ms = last == close_ms

-- `_resolve_interval_close`: the close to handle, and the new `last_close_ms`
unfoldable pub resolve_interval_close : Option ℕ → Option ℕ → Option ℕ × Option ℕ
resolve_interval_close none last = (none, last)
resolve_interval_close (some close_ms) last =
    if is_close last close_ms then (none, last) else (some close_ms, some close_ms)

module _ {F : Type 0} where
  -- the candidates whose symbol has no position
  unfoldable pub without_positions : List String → List (Candidate F) → List (Candidate F)
  without_positions symbols [] = []
  without_positions symbols (c ∷ candidates) =
      if contains_text c.symbol symbols
      then without_positions symbols candidates
      else c ∷ without_positions symbols candidates

  unfoldable pub record_detected_signals : List (Candidate F) → Flow (Event F) (Unit {0})
  record_detected_signals [] = pure tt
  record_detected_signals (c ∷ candidates) = do
    emit (hook counted_signal)
    record_detected_signals candidates

  unfoldable pub discard_all : List (Candidate F) → Flow (Event F) (Unit {0})
  discard_all [] = pure tt
  discard_all (c ∷ candidates) = do
    emit (hook (discarded "per_symbol_limit"))
    discard_all candidates

  unfoldable pub kept_or_discarded :
      List (Candidate F) → List (Candidate F) → Flow (Event F) (List (Candidate F))
  kept_or_discarded candidates [] = discard_all candidates >> pure []
  kept_or_discarded candidates (c ∷ filtered) = pure (c ∷ filtered)

  -- `_filter_signals_by_symbol_limit`
  unfoldable pub filter_signals_by_symbol_limit :
      List String → List (Candidate F) → Flow (Event F) (List (Candidate F))
  filter_signals_by_symbol_limit symbols candidates =
      kept_or_discarded candidates (without_positions symbols candidates)

module _ {F : Type 0} ⦃fl : Float F⦄ (pd : Pandas F) (settings : EntrySettings F)
    (reason_text : Block → String) where
  -- what the count of the second look says
  unfoldable pub live_gate : ℕ → Gate
  live_gate live_count =
      if leb settings.max_positions live_count
      then record {
        allowed = false;
        block = too_many_positions live_count;
        live_count = live_count;
      }
      else record { allowed = true; block = not_blocked; live_count = live_count }

  -- the part of the gate before the operational service is asked
  unfoldable pub position_gate : Answers F → Bool → ℕ → Flow (Event F) Gate
  position_gate answers has_open_position active_positions =
      choose has_open_position
        (pure (record {
          allowed = false;
          block = too_many_positions active_positions;
          live_count = active_positions;
        }))
        (choose (not answers.can_trade_now)
          (pure
            (record { allowed = false; block = by_risk_manager; live_count = active_positions }))
          (rescue is_recoverable (ask answers.live_snapshot)
            (λ live. pure (live_gate (count_active_positions live).0))
            (λ exc.
              record_error "position_gate" exc
              >> pure (record {
                allowed = false;
                block = unverified_positions;
                live_count = active_positions;
              }))))

  unfoldable pub suspend : Bool → Gate → Gate
  suspend ops_allows_entries gate =
      if gate.allowed && not ops_allows_entries
      then record gate { allowed = false; block = by_suspension }
      else gate

  -- `_resolve_execution_gate`
  unfoldable pub resolve_execution_gate : Answers F → Bool → ℕ → Flow (Event F) Gate
  resolve_execution_gate answers has_open_position active_positions = do
    gate ← position_gate answers has_open_position active_positions
    emit (hook asked_gate)
    pure (suspend answers.ops_allows_entries gate)

  -- the ratio that an alert shows
  unfoldable pub alert_ratio : Signal F → F → F → Call F
  alert_ratio signal entry risk_distance =
      let reward = risk_distance ⊗ max_float signal.rr_target (lit 18 1) in
      let sl = by_side signal.side (entry ⊖ risk_distance) (entry ⊕ risk_distance) in
      let tp = by_side signal.side (entry ⊕ reward) (entry ⊖ reward) in
      if fl.eq entry sl
      then answer zero_float
      else divide_then (absolute (tp ⊖ entry)) (absolute (entry ⊖ sl)) (λ rr. answer rr)

  unfoldable pub alert_distance : Signal F → F
  alert_distance signal =
      risk_distance_of pd settings signal.risk_per_unit signal.atr
        (entry_price_with_offset pd settings signal.side signal.price)

  -- `_broadcast_signal_alerts`
  unfoldable pub broadcast_signal_alerts : List (Candidate F) → Flow (Event F) (Unit {0})
  broadcast_signal_alerts [] = pure tt
  broadcast_signal_alerts (c ∷ candidates) =
      choose (alert_distance c.payload ≤? zero_float) (broadcast_signal_alerts candidates) (do
        rr ← ask (
            alert_ratio c.payload
              (entry_price_with_offset pd settings c.payload.side c.payload.price)
              (alert_distance c.payload))
        emit (hook (alerted c.symbol))
        broadcast_signal_alerts candidates)

  -- `valid_signals[: max(1, slots_available)]`
  unfoldable pub slots : ℕ → List (Candidate F) → List (Candidate F)
  slots live_count candidates = take (max 1 (settings.max_positions - live_count)) candidates

  -- `_schedule_followup_if_needed`: whether it starts another run
  unfoldable pub schedule_followup : List (Candidate F) → Flow (Event F) Bool
  schedule_followup candidates =
      choose (leb (length candidates) 1) (pure false) (emit invalidated >> pure true)

  module _ (market : Candidate F → Market F) (venue : Candidate F → Venue F) where
    unfoldable pub execute_best : Candidate F → List (Candidate F) → Flow (Event F) Bool
    execute_best best candidates = do
      done ← execute_candidate pd settings (market best) (venue best) best
      choose done (schedule_followup candidates) (pure false)

    -- from the signals that have no position on
    unfoldable pub act_on : Answers F → ℕ → List (Candidate F) → Flow (Event F) Bool
    act_on answers active_positions [] = pure false
    act_on answers active_positions (best ∷ rest) = do
      gate ←
          resolve_execution_gate answers (leb settings.max_positions active_positions)
            active_positions
      broadcast_signal_alerts (best ∷ rest)
      choose gate.allowed (execute_best best (slots gate.live_count (best ∷ rest)))
          (emit (hook (discarded (reason_text gate.block))) >> pure false)

    -- from the scan on
    unfoldable pub act_on_signals :
        Answers F → ℕ → List String → List (Candidate F) → Flow (Event F) Bool
    act_on_signals answers active_positions symbols [] = pure false
    act_on_signals answers active_positions symbols (c ∷ signals) = do
      record_detected_signals (c ∷ signals)
      filtered ← filter_signals_by_symbol_limit symbols (c ∷ signals)
      act_on answers active_positions filtered

    -- The run for a new close; its value says whether it starts another run, which handles the
    -- same close again.
    unfoldable pub handle_close : Answers F → Flow (Event F) Bool
    handle_close answers =
        rescue is_recoverable (ask answers.snapshot)
          (λ positions.
            let (active_positions, symbols) = count_active_positions positions in
            act_on_signals answers active_positions symbols answers.signals)
          (λ exc. record_error "entry_gate_positions" exc >> pure false)

    -- the `last_close_ms` after a run
    unfoldable pub last_after : Option ℕ → Call Bool → Option ℕ
    last_after last (answer true) = none
    last_after last _ = last

    unfoldable pub run_close : Answers F → Option ℕ → Option ℕ → Flow (Event F) Bool × Option ℕ
    run_close answers none last = (pure false, last)
    run_close answers (some close_ms) last =
        let flow = handle_close answers in (flow, last_after last flow.outcome)

    -- `_on_close`, with the `last_close_ms` of its interval before and after
    unfoldable pub on_close : Answers F → Option ℕ → Flow (Event F) Bool × Option ℕ
    on_close answers last0 =
        let (close, last) = resolve_interval_close answers.anchor_close last0 in
        run_close answers close last
