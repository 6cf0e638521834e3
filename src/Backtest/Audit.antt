-- ===== src/Backtest/Audit.antt =====
-- What a backtest reports of its own walk.
use trading_binance.Base.{
  ℕ, zero, suc, ◌+◌, ◌≤◌, ◌≡◌, refl, arith, false, ◌&&◌, String, Option, none, some, List, [], ◌∷◌,
  ◌++◌, length, length-append, ltb, str_eq, Bool-cases, inl, inr,
}
use trading_binance.Num.{Float, IsFloat, lit, ◌<?◌}
use trading_binance.Indicators.{Pandas}
use trading_binance.Indicators.Lengths.{IsPandas}
use trading_binance.Positions.Active.{contains_text}
use trading_binance.Strategy.Eval.{Step, value, stop, raised, Rejects}
use trading_binance.Strategy.Eval.Post.{Outcome, Any}
use trading_binance.Strategy.Frame.{StrategyConfig, Signal}
use trading_binance.Strategy.Signals.{MainFrame}
use trading_binance.Strategy.Signals.Sound.{HasPeriods, evaluate_signal_accounts}
use trading_binance.Scan.{is_sell}
use trading_binance.Backtest.{
  BacktestSettings, ContextRows, Progress, Trade, Found, after_first, after_second, evaluate_at,
  find_signal, count_found, take_signal, trade_of, is_invalid, step_walk, walk, simulate_trades,
}

-- The candle of the first trade, or `n` where there is none.
abbrev first_candle : {F : Type 0} → List (Trade F) → ℕ → ℕ
first_candle [] n = n
first_candle (t ∷ ts) n = t.signal_candle

-- From each trade to the next, and from the last one to `n`, there are `gap` candles.
abbrev pub AreSpaced : {F : Type 0} → ℕ → List (Trade F) → ℕ → Type 0
AreSpaced gap [] n = Unit
AreSpaced gap (t ∷ ts) n = (t.signal_candle + gap ≤ first_candle ts n) × AreSpaced gap ts n

spaced_later :
    {F : Type 0} (gap : ℕ) (ts : List (Trade F)) (n m : ℕ)
    → n ≤ m
    → AreSpaced gap ts n
    → AreSpaced gap ts m
spaced_later gap [] n m le spaced = tt
spaced_later gap (t ∷ []) n m le (h, spaced) = (omega arith, tt)
spaced_later gap (t ∷ u ∷ ts) n m le (h, spaced) = (h, spaced_later gap (u ∷ ts) n m le spaced)

spaced_with :
    {F : Type 0} (gap : ℕ) (ts : List (Trade F)) (t : Trade F) (n : ℕ)
    → t.signal_candle ≡ n
    → AreSpaced gap ts n
    → AreSpaced gap (ts ++ (t ∷ [])) (n + gap)
spaced_with gap [] t n at spaced = (omega (arith, at), tt)
spaced_with gap (u ∷ []) t n at (h, spaced) =
    (omega (arith, at, h), spaced_with gap [] t n at spaced)
spaced_with gap (u ∷ v ∷ ts) t n at (h, spaced) = (h, spaced_with gap (v ∷ ts) t n at spaced)

module _ {F : Type 0} ⦃fl : Float F⦄ (settings : BacktestSettings F) (interval : String) where
  -- A trade that the filters let through.
  abbrev pub IsAdmitted : Trade F → Type 0
  IsAdmitted t =
      ((t.score <? lit 1 0) ≡ false)
      × ((contains_text interval settings.block_sell_on_intervals && is_sell t.side) ≡ false)

  abbrev pub AllAdmitted : List (Trade F) → Type 0
  AllAdmitted [] = Unit
  AllAdmitted (t ∷ ts) = IsAdmitted t × AllAdmitted ts

  admitted_with :
      (ts : List (Trade F)) (t : Trade F)
      → AllAdmitted ts
      → IsAdmitted t
      → AllAdmitted (ts ++ (t ∷ []))
  admitted_with [] t all h = (h, tt)
  admitted_with (u ∷ ts) t (k, all) h = (k, admitted_with ts t all h)

  -- The diagnostics add up, and the trades are those that the filters let through, spaced.
  pub record IsAudited (p : Progress F) : Type 0 where
    pub no_exceptions : p.eval_exceptions ≡ 0
    pub called : p.signals ≤ p.eval_calls
    pub counted : p.skipped_4h_sell + p.skipped_low_score + length p.trades ≤ p.signals
    pub admitted : AllAdmitted p.trades
    pub spaced : AreSpaced settings.skip_after_signal p.trades p.index

  -- A step that adds no trade.
  idle-IsAudited :
      (p : Progress F) (index signals sells lows : ℕ)
      → p.index ≤ index
      → signals ≤ p.eval_calls
      → sells + lows + length p.trades ≤ signals
      → IsAudited p
      → IsAudited (record p {
        index = index;
        signals = signals;
        skipped_4h_sell = sells;
        skipped_low_score = lows;
      })
  idle-IsAudited p index signals sells lows later called counted ok = record {
    no_exceptions = ok.no_exceptions;
    called = called;
    counted = counted;
    admitted = ok.admitted;
    spaced = spaced_later settings.skip_after_signal p.trades p.index index later ok.spaced;
  }

  -- A step that adds one.
  trade-IsAudited :
      (p : Progress F) (t : Trade F)
      → t.signal_candle ≡ p.index
      → p.signals + 1 ≤ p.eval_calls
      → IsAdmitted t
      → IsAudited p
      → IsAudited (record p {
        index = p.index + settings.skip_after_signal;
        signals = p.signals + 1;
        trades = p.trades ++ (t ∷ []);
      })
  trade-IsAudited p t at room admitted ok = record {
    no_exceptions = ok.no_exceptions;
    called = room;
    counted = omega (arith, ok.counted, length-append p.trades (t ∷ []));
    admitted = admitted_with p.trades t ok.admitted admitted;
    spaced = spaced_with settings.skip_after_signal p.trades t p.index at ok.spaced;
  }

module _ {F : Type 0} ⦃fl : Float F⦄ (laws : IsFloat F) (pd : Pandas F) (columns : IsPandas pd)
    (cfg : StrategyConfig F) (settings : BacktestSettings F) (interval : String) (df : MainFrame F)
    (close_ns : List ℕ) (context : Option (ContextRows F)) (periods : HasPeriods cfg) where
  after_second_calm :
      (r : Rejects) (out : Step (Signal F) × Rejects)
      → Outcome ⊥ Any r out
      → (after_second pd cfg settings interval df close_ns context out).exceptions ≡ 0
  unfolding after_second
  after_second_calm r (value s, r') h = refl
  after_second_calm r (stop, r') h = refl
  after_second_calm r (raised e, r') h = elim h [ ]

  after_first_calm :
      (i : ℕ) (r : Rejects) (out : Step (Signal F) × Rejects)
      → Outcome ⊥ Any r out
      → (after_first pd cfg settings interval df close_ns context i out).exceptions ≡ 0
  unfolding after_first evaluate_at
  after_first_calm i r (value s, r') h = refl
  after_first_calm i r (raised e, r') h = elim h [ ]
  after_first_calm i r (stop, r') h =
      let second =
        after_second_calm r'
          (evaluate_at pd cfg settings interval df close_ns context i "15m_short" r')
          (evaluate_signal_accounts laws pd columns _ _ cfg _ r' periods) in
      elim (Bool-cases (str_eq interval "15m")) [ inl e ↦ rw e second | inr e ↦ rw e refl ]

  find_signal_calm :
      (i : ℕ) (r : Rejects)
      → (find_signal pd cfg settings interval df close_ns context i r).exceptions ≡ 0
  unfolding find_signal evaluate_at
  find_signal_calm i r =
      after_first_calm i r _ (evaluate_signal_accounts laws pd columns _ _ cfg _ r periods)

  count_found-IsAudited :
      (found : Found pd cfg settings interval df close_ns context) (p : Progress F)
      → found.exceptions ≡ 0
      → IsAudited settings interval p
      → IsAudited settings interval
          (count_found pd cfg settings interval df close_ns context found p)
  unfolding count_found
  count_found-IsAudited found p calm ok = record {
    no_exceptions = omega (arith, ok.no_exceptions);
    called = omega (arith, ok.called);
    counted = ok.counted;
    admitted = ok.admitted;
    spaced = ok.spaced;
  }

  take_signal-IsAudited :
      (signal : Option (Signal F)) (p : Progress F)
      → p.signals + 1 ≤ p.eval_calls
      → IsAudited settings interval p
      → IsAudited settings interval
          (take_signal pd cfg settings interval df close_ns context signal p)
  unfolding take_signal trade_of
  take_signal-IsAudited none p room ok =
      idle-IsAudited settings interval p _ _ _ _ (omega arith) ok.called ok.counted ok
  take_signal-IsAudited (some s) p room ok =
      elim (Bool-cases
        (contains_text interval settings.block_sell_on_intervals && is_sell s.side)) [
          | inl blocked ↦
              rw (take_signal, blocked)
                (idle-IsAudited settings interval p _ _ _ _ (omega arith) room
                  (omega (arith, ok.counted)) ok)
          | inr free ↦ elim (Bool-cases (s.score <? lit 1 0)) [
            | inl low ↦
                rw (take_signal, free, low)
                  (idle-IsAudited settings interval p _ _ _ _ (omega arith) room
                    (omega (arith, ok.counted)) ok)
            | inr high ↦
                elim (Bool-cases (is_invalid pd cfg settings interval df close_ns context s)) [
                  | inl invalid ↦
                      rw (take_signal, free, high, invalid)
                        (idle-IsAudited settings interval p _ _ _ _ (omega arith) room
                          (omega (arith, ok.counted)) ok)
                  | inr valid ↦
                      rw (take_signal, free, high, valid)
                        (trade-IsAudited settings interval p
                          (trade_of pd cfg settings interval df close_ns context p.index s) refl
                          room (high, free) ok)
                ]
          ]
        ]

  step_walk-IsAudited :
      (p : Progress F)
      → IsAudited settings interval p
      → IsAudited settings interval (step_walk pd cfg settings interval df close_ns context p)
  unfolding step_walk count_found
  step_walk-IsAudited p ok =
      let found = find_signal pd cfg settings interval df close_ns context p.index p.rejects in
      take_signal-IsAudited found.signal
        (count_found pd cfg settings interval df close_ns context found p)
        (omega (arith, ok.called))
        (count_found-IsAudited found p (find_signal_calm p.index p.rejects) ok)

  walk-IsAudited :
      (fuel : ℕ) (p : Progress F)
      → IsAudited settings interval p
      → IsAudited settings interval (walk pd cfg settings interval df close_ns context fuel p)
  unfolding walk
  walk-IsAudited zero p ok = ok
  walk-IsAudited (suc fuel) p ok =
      let rest = walk-IsAudited fuel _ (step_walk-IsAudited p ok) in
      elim (Bool-cases (ltb (p.index + 1) (length df.bars))) [
        | inl more ↦ rw (walk, more) rest
        | inr done ↦ rw (walk, done) ok
      ]

  -- A backtest on any candles, with the strategy's periods at least 1, meets no exception of the
  -- strategy. Its signals are at most the
  -- calls, and the two skip counts with the trades at most the signals. Every trade passed the
  -- filter on the score and the filter on sells, and between the candles of two trades in a row
  -- there are `skip_after_signal` candles or more, as from the last one to where the walk ended.
  pub simulate_trades-IsAudited :
      IsAudited settings interval (simulate_trades pd cfg settings interval df close_ns context)
  unfolding simulate_trades
  simulate_trades-IsAudited = walk-IsAudited _ _ (record {
    no_exceptions = refl;
    called = omega arith;
    counted = omega arith;
    admitted = tt;
    spaced = tt;
  })
