-- ===== src/Scan.antt =====
-- services/signal_service.py: the scan of all symbols at one interval. The stream is a list of each
-- symbol with its frames; the texts of logs are left out.
pub mod Cache
pub mod Sorted
pub mod Returns
pub mod Served
pub mod Sound
mod Tests
use trading_binance.Base.{
  ℕ, Bool, true, false, ◌&&◌, String, str_eq, Option, none, some, List, [], ◌∷◌, ◌++◌, map, length,
  ltb, max, if◌then◌else◌,
}
use trading_binance.Num.{Float, ◌<?◌}
use trading_binance.Indicators.{Pandas, ema, atr_series, rsi}
use trading_binance.Py.{Call, answer, exception, and_then}
use trading_binance.Flow.{Flow, ◌>>=◌, ◌>>◌, pure, ask, emit, choose}
use trading_binance.Operations.Steps.{Action, discarded}
use trading_binance.Positions.Active.{contains_text}
use trading_binance.Strategy.Eval.{Step, value, stop, raised}
use trading_binance.Strategy.Frame.{
  StrategyConfig, Context, plain, with_emas, context_length, Side, buy, sell, Signal,
}
use trading_binance.Strategy.Profile.{parse_interval}
use trading_binance.Strategy.Signals.{MainFrame, column, column_call, evaluate_signal}
use trading_binance.Entry.Plan.{Candidate}
use trading_binance.Scan.Cache.{LastRow, Token, Key, Cached, cached_main, cached_context}

-- What the stream has of a symbol: its frame and that of the context interval, each with its last
-- row.
pub record Feed (F : Type 0) : Type 0 where
  pub symbol : String
  pub main : MainFrame F
  pub main_last : LastRow F
  pub context : Context F
  pub context_last : LastRow F

-- What a scan is called with, but the settings of the strategy and the feeds. The owner is the
-- stream with the signature of the configuration.
pub record ScanArguments : Type 0 where
  pub owner : ℕ
  pub interval : String
  pub context_interval : Option String
  pub block_sell_on_intervals : List String

-- rows of a close and its two averages
unfoldable pub zip_context : {F : Type 0} → List F → List F → List F → List (F × F × F)
zip_context (c ∷ cs) (m ∷ ms) (t ∷ ts) = (c, m, t) ∷ zip_context cs ms ts
zip_context _ _ _ = []

unfoldable pub is_sell : Side → Bool
is_sell buy = false
is_sell sell = true

module _ {F : Type 0} ⦃fl : Float F⦄ (pd : Pandas F) (cfg : StrategyConfig F) where
  -- the assignments of the columns that are missing
  unfoldable pub assign_columns :
      MainFrame F → List F → List F → List F → List F → List F → MainFrame F
  assign_columns df fast mid trend atr rsi_values =
      let volumes = map (λ b. b.volume) df.bars in
      record df {
        ema_fast = some fast;
        ema_mid = some mid;
        ema_trend = some trend;
        atr = some atr;
        atr_avg = some (column df.atr_avg (pd.rolling_mean atr (max 1 cfg.atr_avg_window)));
        avg_vol = some (column df.avg_vol (pd.rolling_mean volumes (max 1 cfg.volume_avg_window)));
        rsi = some rsi_values;
      }

  -- `_ensure_main_indicators`
  unfoldable pub ensure_main_indicators : MainFrame F → Call (MainFrame F)
  ensure_main_indicators df =
      let closes = map (λ b. b.close) df.bars in
      and_then (column_call df.ema_fast (ema pd closes cfg.ema_fast)) λ fast.
        and_then (column_call df.ema_mid (ema pd closes cfg.ema_mid)) λ mid.
          and_then (column_call df.ema_trend (ema pd closes cfg.ema_trend)) λ trend.
            and_then (column_call df.atr (atr_series pd df.bars cfg.atr_period)) λ atr.
              and_then (column_call df.rsi (rsi pd closes cfg.rsi_period))
                λ rsi_values. answer (assign_columns df fast mid trend atr rsi_values)

  -- `_ensure_context_indicators`
  unfoldable pub ensure_context_indicators : Context F → Call (Context F)
  ensure_context_indicators (with_emas rows) = answer (with_emas rows)
  ensure_context_indicators (plain closes) =
      if ltb (length closes) 1
      then answer (plain closes)
      else and_then (ema pd closes cfg.ema_mid) (λ mid.
        and_then (ema pd closes cfg.ema_trend)
          (λ trend. answer (with_emas (zip_context closes mid trend))))

  -- how a call of `evaluate_signal` ends
  unfoldable pub signal_of : Step (Signal F) → Call (Option (Signal F))
  signal_of (value s) = answer (some s)
  signal_of stop = answer none
  signal_of (raised e) = exception e

  unfoldable pub evaluate_as : MainFrame F → Context F → String → Call (Option (Signal F))
  evaluate_as main context interval =
      signal_of (evaluate_signal pd main context cfg (parse_interval interval) none).0

  -- the second pass, for a short of 15 minutes
  unfoldable pub second_pass :
      MainFrame F → Context F → String → Option (Signal F) → Call (Option (Signal F))
  second_pass main context interval (some s) = answer (some s)
  second_pass main context interval none =
      if str_eq interval "15m" then evaluate_as main context "15m_short" else answer none

  module _ (arguments : ScanArguments) where
    -- the frame that is evaluated, and the cache after it
    unfoldable pub main_frame : Feed F → List (Cached F) → Call (MainFrame F × List (Cached F))
    main_frame feed entries =
        cached_main
          (record { owner = arguments.owner; symbol = feed.symbol; interval = arguments.interval })
          (record { rows = length feed.main.bars; last = feed.main_last })
          (ensure_main_indicators feed.main) entries

    -- the frame of the context interval, which the cache gives back where it is empty
    unfoldable pub context_of_interval :
        Feed F → String → List (Cached F) → Call (Context F × List (Cached F))
    context_of_interval feed interval entries =
        if ltb (context_length feed.context) 1
        then answer (feed.context, entries)
        else cached_context
            (record { owner = arguments.owner; symbol = feed.symbol; interval = interval })
            (record { rows = context_length feed.context; last = feed.context_last })
            (ensure_context_indicators feed.context) entries

    -- an empty frame where the interval has no context
    unfoldable pub context_frame :
        Feed F → Option String → List (Cached F) → Call (Context F × List (Cached F))
    context_frame feed none entries = answer (plain [], entries)
    context_frame feed (some interval) entries = context_of_interval feed interval entries

    -- whether the settings do not let the signal pass
    unfoldable pub is_blocked : Signal F → Bool
    is_blocked s =
        contains_text arguments.interval arguments.block_sell_on_intervals && is_sell s.side

    unfoldable pub admit : Feed F → Option (Signal F) → Flow (Action F) (Option (Candidate F))
    admit feed none = pure none
    admit feed (some s) =
        choose (is_blocked s) (do emit (discarded "block_sell_on_interval"); pure none)
          (pure (some (record { symbol = feed.symbol; payload = s })))

    -- the body of the loop over the symbols, with the cache
    unfoldable pub scan_symbol :
        Feed F → List (Cached F) → Flow (Action F) (Option (Candidate F) × List (Cached F))
    scan_symbol feed entries = choose (ltb (length feed.main.bars) 1) (pure (none, entries)) (do
      (main, with_main) ← ask (main_frame feed entries)
      (context, later) ← ask (context_frame feed arguments.context_interval with_main)
      first ← ask (evaluate_as main context arguments.interval)
      signal ← ask (second_pass main context arguments.interval first)
      found ← admit feed signal
      pure (found, later))

    unfoldable pub with_found : Option (Candidate F) → List (Candidate F) → List (Candidate F)
    with_found none rest = rest
    with_found (some c) rest = c ∷ rest

    -- the loop, with its candidates in the order of the symbols
    unfoldable pub scan_symbols :
        List (Feed F) → List (Cached F) → Flow (Action F) (List (Candidate F) × List (Cached F))
    scan_symbols [] entries = pure ([], entries)
    scan_symbols (feed ∷ feeds) entries = do
      (found, with_feed) ← scan_symbol feed entries
      (rest, later) ← scan_symbols feeds with_feed
      pure (with_found found rest, later)

-- `sort(key=…, reverse=True)`, which is stable: a candidate stays before the equal ones after it
unfoldable pub insert_by_score :
    {F : Type 0} → ⦃fl : Float F⦄ → Candidate F → List (Candidate F) → List (Candidate F)
insert_by_score c [] = c ∷ []
insert_by_score c (d ∷ ds) =
    if c.payload.score <? d.payload.score then d ∷ insert_by_score c ds else c ∷ d ∷ ds

unfoldable pub sort_by_score :
    {F : Type 0} → ⦃fl : Float F⦄ → List (Candidate F) → List (Candidate F)
sort_by_score [] = []
sort_by_score (c ∷ cs) = insert_by_score c (sort_by_score cs)

-- `evaluate_interval_signals`, with the cache that it finds and the one that it leaves
unfoldable pub evaluate_interval_signals :
    {F : Type 0}
    → ⦃fl : Float F⦄ → Pandas F
    → StrategyConfig F
    → ScanArguments
    → List (Feed F)
    → List (Cached F)
    → Flow (Action F) (List (Candidate F) × List (Cached F))
evaluate_interval_signals pd cfg arguments feeds entries = do
  (candidates, later) ← scan_symbols pd cfg arguments feeds entries
  pure (sort_by_score candidates, later)
