-- ===== src/Scan/Returns.antt =====
-- The parts of a scan of services/signal_service.py that may raise, and when they return.
use trading_binance.Base.{
  Bool, true, false, String, Option, none, some, List, if◌then◌else◌, str_eq, ltb, length,
}
use trading_binance.Num.{Float, IsFloat}
use trading_binance.Indicators.{Pandas}
use trading_binance.Indicators.Lengths.{IsPandas, atr_answers, rsi_answers}
use trading_binance.Py.{Call}
use trading_binance.Py.Laws.{Returns, answer-Returns, and_then-Returns}
use trading_binance.Strategy.Eval.{Step, value, stop, raised, Rejects}
use trading_binance.Strategy.Eval.Post.{Outcome, Any}
use trading_binance.Strategy.Frame.{
  StrategyConfig, Context, plain, with_emas, context_length, Signal,
}
use trading_binance.Strategy.Profile.{parse_interval}
use trading_binance.Strategy.Signals.{MainFrame}
use trading_binance.Strategy.Signals.Sound.{
  HasPeriods, column-Returns, ema-Returns, evaluate_signal_accounts,
}
use trading_binance.Scan.{
  Feed, ScanArguments, context_of_interval, ensure_main_indicators, ensure_context_indicators,
  main_frame, context_frame, signal_of, evaluate_as, second_pass,
}
use trading_binance.Scan.Cache.{Cached, or_enrich, cached_main, cached_context}

module _ {F : Type 0} ⦃fl : Float F⦄ (laws : IsFloat F) (pd : Pandas F) (columns : IsPandas pd)
    (cfg : StrategyConfig F) where
  signal_of-Returns :
      (step : Step (Signal F)) (r r' : Rejects)
      → Outcome ⊥ Any r (step, r')
      → Returns (signal_of pd cfg step)
  unfolding signal_of
  signal_of-Returns (value s) r r' h = tt
  signal_of-Returns stop r r' h = tt
  signal_of-Returns (raised e) r r' h = h

  if_Returns :
      {A : Type 0} (b : Bool) (x y : Call A) → Returns x → Returns y → Returns (if b then x else y)
  if_Returns true x y h k = h
  if_Returns false x y h k = k

  or_enrich-Returns :
      {A : Type 0} (entries : List (Cached F)) (found : Option A) (enrichment : Call A)
      (store : A → List (Cached F))
      → Returns enrichment
      → Returns (or_enrich entries found enrichment store)
  unfolding or_enrich
  or_enrich-Returns entries (some enriched) enrichment store h = tt
  or_enrich-Returns entries none enrichment store h = and_then-Returns _ _ h λ _. tt

  module _ (periods : HasPeriods cfg) where
    ensure-Returns : (df : MainFrame F) → Returns (ensure_main_indicators pd cfg df)
    unfolding ensure_main_indicators
    ensure-Returns df =
        let (fast, mid, trend, atr, rsi_ok) = periods in
        and_then-Returns _ _
          (column-Returns laws pd columns _ _ (ema-Returns laws pd columns _ _ fast))
          λ _.
            and_then-Returns _ _
              (column-Returns laws pd columns _ _ (ema-Returns laws pd columns _ _ mid))
              λ _.
                and_then-Returns _ _
                  (column-Returns laws pd columns _ _ (ema-Returns laws pd columns _ _ trend))
                  λ _.
                    and_then-Returns _ _
                      (column-Returns laws pd columns _ _
                        (answer-Returns (atr_answers pd df.bars _ columns atr).1))
                      λ _.
                        and_then-Returns _ _
                          (column-Returns laws pd columns _ _
                            (answer-Returns (rsi_answers pd _ _ columns rsi_ok).1))
                          λ _. tt

    ensure_context-Returns :
        (context : Context F) → Returns (ensure_context_indicators pd cfg context)
    unfolding ensure_context_indicators
    ensure_context-Returns (with_emas rows) = tt
    ensure_context-Returns (plain closes) =
        let (fast, mid, trend, atr, rsi_ok) = periods in
        if_Returns (ltb (length closes) 1) _ _ tt (
          and_then-Returns _ _ (ema-Returns laws pd columns _ _ mid)
            λ _. and_then-Returns _ _ (ema-Returns laws pd columns _ _ trend) λ _. tt)

    pub evaluate-Returns :
        (main : MainFrame F) (context : Context F) (interval : String)
        → Returns (evaluate_as pd cfg main context interval)
    unfolding evaluate_as
    evaluate-Returns main context interval = signal_of-Returns _ none _ (
        evaluate_signal_accounts laws pd columns main context cfg (parse_interval interval) none
          periods)

    pub second-Returns :
        (main : MainFrame F) (context : Context F) (interval : String) (first : Option (Signal F))
        → Returns (second_pass pd cfg main context interval first)
    unfolding second_pass
    second-Returns main context interval (some s) = tt
    second-Returns main context interval none =
        if_Returns (str_eq interval "15m") _ _ (evaluate-Returns main context "15m_short") tt

  module _ (arguments : ScanArguments) where
    pub main-Returns :
        HasPeriods cfg
        → (feed : Feed F) (entries : List (Cached F))
        → Returns (main_frame pd cfg arguments feed entries)
    unfolding main_frame cached_main
    main-Returns periods feed entries = or_enrich-Returns _ _ _ _ (ensure-Returns periods feed.main)

    pub context-Returns :
        HasPeriods cfg
        → (feed : Feed F) (interval : Option String) (entries : List (Cached F))
        → Returns (context_frame pd cfg arguments feed interval entries)
    unfolding context_frame context_of_interval cached_context
    context-Returns periods feed none entries = tt
    context-Returns periods feed (some interval) entries =
        if_Returns (ltb (context_length feed.context) 1) _ _ tt
          (or_enrich-Returns _ _ _ _ (ensure_context-Returns periods feed.context))
