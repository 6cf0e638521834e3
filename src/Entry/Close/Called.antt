-- ===== src/Entry/Close/Called.antt =====
-- What `_on_close` has seen before an order is sent.
use trading_binance.Base.{
  ℕ, ◌≡◌, refl, sym, ◌∙◌, ap, arith, Bool, true, false, String, Option, none, some, List, [], ◌∷◌,
  if◌then◌else◌,
}
use trading_binance.Num.{Float}
use trading_binance.Indicators.{Pandas}
use trading_binance.Py.{answer}
use trading_binance.Positions.Active.{Position, contains_text, count_active_positions}
use trading_binance.Flow.{pure}
use trading_binance.Flow.Laws.{no_command, Does, pure_does, emit_does, rescue_ask_does, weaken_does}
use trading_binance.Entry.{Event, record_error}
use trading_binance.Entry.Plan.{EntrySettings, Candidate, Market, TradePlan, build_trade_plan}
use trading_binance.Entry.Submit.{Venue}
use trading_binance.Entry.Guarded.{
  is_command, is_lock, is_reserved, has_command, has_reserved, IsCleared,
}
use trading_binance.Entry.Guarded.Entries.{execute_candidate_guarded}
use trading_binance.Entry.Close.{
  Block, Answers, without_positions, handle_close, on_close, run_close, resolve_interval_close,
}
use trading_binance.Entry.Close.Gates.{IsOpen, Acts, signals_does}

head_of : {A : Type 0} → A → List A → A
head_of default [] = default
head_of default (x ∷ xs) = x

head_if :
    {F : Type 0} (symbols : List String) (c best : Candidate F) (rest others : List (Candidate F))
    (b : Bool)
    → contains_text c.symbol symbols ≡ b
    → (if b then others else c ∷ others) ≡ best ∷ rest
    → (others ≡ best ∷ rest → contains_text best.symbol symbols ≡ false)
    → contains_text best.symbol symbols ≡ false
unfolding head_of
head_if symbols c best rest others true h e next = next e
head_if symbols c best rest others false h e next =
    ap (λ x. contains_text (head_of c x).symbol symbols) (sym e) ∙ h

-- The first of the candidates that have no position has none.
head_without :
    {F : Type 0} (symbols : List String) (signals : List (Candidate F)) (best : Candidate F)
    (rest : List (Candidate F))
    → without_positions symbols signals ≡ best ∷ rest
    → contains_text best.symbol symbols ≡ false
unfolding without_positions
head_without symbols [] best rest e = ground arith
head_without symbols (c ∷ signals) best rest e =
    head_if symbols c best rest (without_positions symbols signals) _ refl e
      (λ f. head_without symbols signals best rest f)

module _ {F : Type 0} ⦃fl : Float F⦄ (pd : Pandas F) (settings : EntrySettings F)
    (reason_text : Block → String) (market : Candidate F → Market F)
    (venue : Candidate F → Venue F) where
  -- What a run has seen of the positions, the risk manager, the operational service and the scan,
  -- where it sends an order, and the candidate and the plan of that order.
  pub record IsCalled (answers : Answers F) : Type 0 where
    pub positions : List (Position F)
    pub answered : answers.snapshot ≡ answer positions
    pub gates : IsOpen pd settings reason_text answers (count_active_positions positions).0
    pub best : Candidate F
    pub rest : List (Candidate F)
    pub first : without_positions (count_active_positions positions).1 answers.signals ≡ best ∷ rest
    pub fresh : contains_text best.symbol (count_active_positions positions).1 ≡ false
    pub plan : TradePlan F
    pub built : (build_trade_plan pd settings best (market best)).outcome ≡ answer (some plan)
    pub cleared : IsCleared pd settings (venue best) plan

  called_lem :
      (answers : Answers F) (positions : List (Position F)) (es : List (Event F))
      → answers.snapshot ≡ answer positions
      → Acts pd settings reason_text answers market venue
          (count_active_positions positions).0
          (without_positions (count_active_positions positions).1 answers.signals)
          es
      → has_command es ≡ true
      → IsCalled answers
  called_lem answers positions es e acts k =
      let (gates, best, rest, first, orders) = acts k in
      let (plan, built, cleared) =
        (execute_candidate_guarded pd settings (market best) (venue best) best orders).0 in
      record {
        positions = positions;
        answered = e;
        gates = gates;
        best = best;
        rest = rest;
        first = first;
        fresh = head_without _ answers.signals best rest first;
        plan = plan;
        built = built;
        cleared = cleared;
      }

  handle_does :
      (answers : Answers F)
      → Does
          (handle_close pd settings reason_text market venue answers)
          (λ es r. has_command es ≡ true → IsCalled answers)
  unfolding handle_close record_error has_reserved has_command is_reserved is_lock is_command
  handle_does answers =
      rescue_ask_does
        (λ positions e.
          weaken_does (signals_does pd settings reason_text answers market venue _ _ _)
            (λ es r acts k. called_lem answers positions es e acts k))
        (λ x e f. emit_does _ _ (pure_does _ (λ k. no_command k))) (λ x e f k. no_command k)

  run_does :
      (answers : Answers F) (close last : Option ℕ)
      → has_command (run_close pd settings reason_text market venue answers close last).0.events
        ≡ true
      → IsCalled answers × ((close_ms : ℕ) × (close ≡ some close_ms))
  unfolding run_close pure has_reserved has_command
  run_does answers none last k = no_command k
  run_does answers (some close_ms) last k = ((handle_does answers).holds k, (close_ms, refl))

  -- A run for the close of a candle sends an order only where the close was not handled before,
  -- the risk manager and the operational service allow it, both looks at the positions were
  -- answered and showed fewer than the maximum, and then only for the first signal of the scan
  -- whose symbol has no position, and with a plan that the guards of the entry have cleared.
  pub on_close_guarded :
      (answers : Answers F) (last : Option ℕ)
      → has_command (on_close pd settings reason_text market venue answers last).0.events ≡ true
      → IsCalled answers
        × ((close_ms : ℕ) × ((resolve_interval_close answers.anchor_close last).0 ≡ some close_ms))
  unfolding on_close
  on_close_guarded answers last k = run_does answers _ _ k
