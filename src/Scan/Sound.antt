-- ===== src/Scan/Sound.antt =====
-- What a scan returns.
use mathlib.Core.List.{Perm}
use trading_binance.Base.{
  ◌≡◌, refl, arith, true, false, ◌⊎◌, inl, inr, String, Option, none, some, List, [], ◌∷◌, str_eq,
  ℕ, ltb, length, ap, sym, subst, Bool-cases,
}
use trading_binance.Num.{Float, IsFloat}
use trading_binance.Indicators.{Pandas}
use trading_binance.Indicators.Lengths.{IsPandas}
use trading_binance.Py.{Call, answer, exception}
use trading_binance.Py.Laws.{not_exception, answer_injective}
use trading_binance.Flow.Laws.{Does, bind_does, pure_does, ask_does, emit_does, choose_does}
use trading_binance.Strategy.Eval.{Step, value, stop, raised}
use trading_binance.Strategy.Frame.{StrategyConfig, Context, Signal}
use trading_binance.Strategy.Profile.{parse_interval}
use trading_binance.Strategy.Signals.{MainFrame, evaluate_signal}
use trading_binance.Strategy.Signals.Sound.{HasPeriods}
use trading_binance.Entry.Plan.{Candidate}
use trading_binance.Scan.{
  Feed, ScanArguments, main_frame, context_frame, signal_of, evaluate_as, second_pass, is_blocked,
  admit, scan_symbol, with_found, scan_symbols, evaluate_interval_signals,
}
use trading_binance.Scan.Cache.{Cached}
use trading_binance.Scan.Returns.{evaluate-Returns, second-Returns, main-Returns, context-Returns}
use trading_binance.Scan.Sorted.{AllScored, IsDescending, sort-Perm, sort-IsDescending}

module _ {F : Type 0} ⦃fl : Float F⦄ (laws : IsFloat F) (pd : Pandas F) (columns : IsPandas pd)
    (cfg : StrategyConfig F) where
  -- The step that ended in a result of `signal_of`.
  abbrev pub step_of : Option (Signal F) → Step (Signal F)
  step_of none = stop
  step_of (some s) = value s

  signal_of_inverse :
      (step : Step (Signal F)) (found : Option (Signal F))
      → signal_of pd cfg step ≡ answer found
      → step ≡ step_of found
  unfolding signal_of
  signal_of_inverse (value s) found e = ap step_of (answer_injective e)
  signal_of_inverse stop found e = ap step_of (answer_injective e)
  signal_of_inverse (raised x) found e = absurd (not_exception (answer found) x tt (sym e))

  -- How `evaluate_signal` ends.
  abbrev pub Ends : MainFrame F → Context F → String → Option (Signal F) → Type 0
  Ends main context interval found =
      (evaluate_signal pd main context cfg (parse_interval interval) none).0 ≡ step_of found

  -- What the two passes find: the signal of the first, or where it has none and the interval is
  -- "15m", what the pass as "15m_short" has.
  abbrev pub Finds : MainFrame F → Context F → String → Option (Signal F) → Type 0
  Finds main context interval (some s) =
      Ends main context interval (some s)
      ⊎ (Ends main context interval none
          × (str_eq interval "15m" ≡ true)
          × Ends main context "15m_short" (some s))
  Finds main context interval none =
      Ends main context interval none
      × ((str_eq interval "15m" ≡ false) ⊎ Ends main context "15m_short" none)

  second_Finds :
      (main : MainFrame F) (context : Context F) (interval : String) (found : Option (Signal F))
      → Ends main context interval none
      → str_eq interval "15m" ≡ true
      → Ends main context "15m_short" found
      → Finds main context interval found
  second_Finds main context interval (some s) e short f = inr (e, short, f)
  second_Finds main context interval none e short f = (e, inr f)

  passes-Finds :
      (main : MainFrame F) (context : Context F) (interval : String)
      (first found : Option (Signal F))
      → evaluate_as pd cfg main context interval ≡ answer first
      → second_pass pd cfg main context interval first ≡ answer found
      → Finds main context interval found
  unfolding evaluate_as second_pass
  passes-Finds main context interval (some s) found e f =
      subst (λ x. Finds main context interval x) (answer_injective f)
        (inl (signal_of_inverse _ (some s) e))
  passes-Finds main context interval none found e f = elim (Bool-cases (str_eq interval "15m")) [
    | inl short ↦
        second_Finds main context interval found (signal_of_inverse _ none e) short
          (signal_of_inverse _ found (rw short at f))
    | inr other ↦
        subst (λ x. Finds main context interval x) (answer_injective (rw other at f))
          (signal_of_inverse _ none e, inl other)
  ]

  module _ (arguments : ScanArguments) where
    -- The passes have found this, on the frames that the cache gives or the enrichment, with the
    -- cache before the symbol and after it.
    abbrev pub Evaluated : Feed F → List (Cached F) → Option (Signal F) → List (Cached F) → Type 0
    Evaluated feed entries found later =
        (main : MainFrame F) × (context : Context F) × (with_main : List (Cached F)) × (main_frame
            pd cfg arguments feed entries
          ≡ answer (main, with_main))
        × (context_frame pd cfg arguments feed arguments.context_interval with_main
            ≡ answer (context, later))
        × Finds main context arguments.interval found

    abbrev pub IsAdmitted : Feed F → List (Cached F) → Candidate F → List (Cached F) → Type 0
    IsAdmitted feed entries c later =
        (c.symbol ≡ feed.symbol)
        × Evaluated feed entries (some c.payload) later
        × (is_blocked pd cfg arguments c.payload ≡ false)

    -- There are no rows, there is no signal, or the settings block it.
    abbrev pub IsSkipped : Feed F → List (Cached F) → List (Cached F) → Type 0
    IsSkipped feed entries later =
        ((length feed.main.bars ≡ 0) × (later ≡ entries))
        ⊎ (Evaluated feed entries none later
            ⊎ ((s : Signal F) × Evaluated feed entries (some s) later
                × (is_blocked pd cfg arguments s ≡ true)))

    abbrev Admits :
        Feed F → List (Cached F) → Call (Option (Candidate F) × List (Cached F)) → Type 0
    Admits feed entries (answer (none, later)) = IsSkipped feed entries later
    Admits feed entries (answer (some c, later)) = IsAdmitted feed entries c later
    Admits feed entries (exception e) = ⊥

    -- The candidates are those of the symbols that have one, in their order, with the cache going
    -- from each symbol to the next.
    abbrev pub IsFrom :
        List (Feed F) → List (Cached F) → List (Candidate F) → List (Cached F) → Type 0
    IsFrom [] entries cs later = (cs ≡ []) × (later ≡ entries)
    IsFrom (feed ∷ feeds) entries cs later =
        (next : List (Cached F)) × ((IsSkipped feed entries next × IsFrom feeds next cs later)
          ⊎ ((c : Candidate F) × (rest : List (Candidate F)) × (cs ≡ c ∷ rest)
              × IsAdmitted feed entries c next
              × IsFrom feeds next rest later))

    abbrev Keeps : Feed F → List (Cached F) → List (Cached F) → Call (Option (Candidate F)) → Type 0
    Keeps feed entries later (answer found) = Admits feed entries (answer (found, later))
    Keeps feed entries later (exception e) = ⊥

    admit_does :
        (feed : Feed F) (entries later : List (Cached F)) (found : Option (Signal F))
        → Evaluated feed entries found later
        → Does (admit pd cfg arguments feed found) (λ es r. Keeps feed entries later r)
    unfolding admit
    admit_does feed entries later none h = pure_does _ (inr (inl h))
    admit_does feed entries later (some s) h =
        choose_does _ (λ c. emit_does _ _ (pure_does _ (inr (inr (s, h, c)))))
          (λ c. pure_does _ (refl, h, c))

    no_rows : (n : ℕ) → ltb n 1 ≡ true → n ≡ 0
    no_rows n e = ground arith

    scan_symbol_does :
        HasPeriods cfg
        → (feed : Feed F) (entries : List (Cached F))
        → Does (scan_symbol pd cfg arguments feed entries) (λ es r. Admits feed entries r)
    unfolding scan_symbol
    scan_symbol_does periods feed entries =
        choose_does _ (λ c. pure_does _ (inl (no_rows _ c, refl)))
          (λ c.
            ask_does
              (λ (main, with_main) em.
                ask_does
                  (λ (context, later) ec.
                    ask_does
                      (λ first e.
                        ask_does
                          (λ signal f.
                            bind_does {P = λ es r. Keeps feed entries later r}
                              (admit_does feed entries later signal (
                                main,
                                context,
                                with_main,
                                em,
                                ec,
                                passes-Finds main context _ first signal e f,
                              ))
                              (λ es found h. pure_does _ h) (λ es x h. h))
                          (λ x f.
                            not_exception _ x
                              (second-Returns laws pd columns cfg periods main context _ first) f))
                      (λ x e.
                        not_exception _ x
                          (evaluate-Returns laws pd columns cfg periods main context _) e))
                  (λ x e.
                    not_exception _ x
                      (context-Returns laws pd columns cfg arguments periods feed _ with_main) e))
              (λ x e.
                not_exception _ x (main-Returns laws pd columns cfg arguments periods feed entries)
                  e))

    abbrev Scans :
        List (Feed F) → List (Cached F) → Call (List (Candidate F) × List (Cached F)) → Type 0
    Scans feeds entries (answer (cs, later)) = IsFrom feeds entries cs later
    Scans feeds entries (exception e) = ⊥

    found-IsFrom :
        (feed : Feed F) (feeds : List (Feed F)) (entries next later : List (Cached F))
        (found : Option (Candidate F)) (rest : List (Candidate F))
        → Admits feed entries (answer (found, next))
        → IsFrom feeds next rest later
        → IsFrom (feed ∷ feeds) entries (with_found pd cfg arguments found rest) later
    unfolding with_found
    found-IsFrom feed feeds entries next later none rest h from = (next, inl (h, from))
    found-IsFrom feed feeds entries next later (some c) rest h from =
        (next, inr (c, rest, refl, h, from))

    scan_symbols_does :
        HasPeriods cfg
        → (feeds : List (Feed F)) (entries : List (Cached F))
        → Does (scan_symbols pd cfg arguments feeds entries) (λ es r. Scans feeds entries r)
    unfolding scan_symbols
    scan_symbols_does periods [] entries = pure_does _ (refl, refl)
    scan_symbols_does periods (feed ∷ feeds) entries =
        bind_does {P = λ es r. Admits feed entries r} (scan_symbol_does periods feed entries)
          (λ es (found, next) h.
            bind_does {P = λ es r. Scans feeds next r} (scan_symbols_does periods feeds next)
              (λ es2 (rest, later) from.
                pure_does _ (found-IsFrom feed feeds entries next later found rest h from))
              (λ es2 x h. h))
          (λ es x h. h)

    abbrev pub Ranks :
        List (Feed F) → List (Cached F) → Call (List (Candidate F) × List (Cached F)) → Type 0
    Ranks feeds entries (answer (cs, later)) =
        (scanned : List (Candidate F)) × Perm cs scanned
        × IsFrom feeds entries scanned later
        × (AllScored scanned → IsDescending cs)
    Ranks feeds entries (exception e) = ⊥

    -- With periods of at least 1, and whatever the cache holds, a scan raises nothing. Its candidates
    -- are, in another order, those of the symbols that have one: the unblocked signal of
    -- `evaluate_signal`, or on "15m" where that has none, of its pass as "15m_short", each on the
    -- frames that the cache of that moment gives or else the enrichment. A symbol without one has no
    -- rows, no signal of these passes, or one that the settings block. Where the scores are numbers
    -- the candidates come by descending score.
    pub evaluate_interval_signals-Ranks :
        (feeds : List (Feed F)) (entries : List (Cached F))
        → HasPeriods cfg
        → Ranks feeds entries (evaluate_interval_signals pd cfg arguments feeds entries).outcome
    unfolding evaluate_interval_signals
    evaluate_interval_signals-Ranks feeds entries periods =
        (bind_does {P = λ es r. Scans feeds entries r} {Q = λ es r. Ranks feeds entries r}
          (scan_symbols_does periods feeds entries)
          (λ es (cs, later) from.
            pure_does _ (cs, sort-Perm cs, from, λ all. sort-IsDescending laws cs all))
          (λ es x h. h)).holds
