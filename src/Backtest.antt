-- ===== src/Backtest.antt =====
-- backtest/backtest.py: the walk of `_simulate_trades` over the candles of one symbol, whose
-- frame has its columns. What a trade keeps for the CSV file only, and its times, are left out.
pub mod Exit
pub mod Walk
pub mod Audit
mod Tests
use trading_binance.Base.{
  ℕ, zero, suc, ◌+◌, ◌-◌, ◌/◌, ◌*◌, Bool, true, false, ◌&&◌, ◌||◌, String, str_eq, Option, none,
  some, List, [], ◌∷◌, ◌++◌, length, take, drop, ltb, leb, max, min, get_elem?, if◌then◌else◌,
}
use trading_binance.Num.{Float, zero_float, lit, ◌⊕◌, ◌⊖◌, ◌⊗◌, ◌<?◌, ◌≤?◌}
use trading_binance.Indicators.{Pandas, Bar}
use trading_binance.Positions.Active.{contains_text}
use trading_binance.Strategy.Eval.{Step, value, stop, raised, Rejects}
use trading_binance.Strategy.Frame.{
  StrategyConfig, Context, plain, with_emas, Side, buy, sell, Signal,
}
use trading_binance.Strategy.Profile.{parse_interval}
use trading_binance.Strategy.Signals.{MainFrame, evaluate_signal}
use trading_binance.Scan.{ensure_main_indicators, is_sell}
use trading_binance.Entry.Plan.{by_side}

pub data Result : Type 0 where
  win loss timeout : Result

-- How a trade ends: its price, and the candles that it was held.
pub record Closed (F : Type 0) : Type 0 where
  pub result : Result
  pub exit_price : F
  pub candles_held : ℕ

pub record Trade (F : Type 0) : Type 0 where
  pub side : Side
  pub entry_price : F
  pub exit_price : F
  pub stop_price : F
  pub tp_price : F
  pub pnl_usdt : F
  pub result : Result
  pub candles_held : ℕ
  pub score : F
  pub signal_candle : ℕ

-- The constants of the module that the walk reads.
pub record BacktestSettings (F : Type 0) : Type 0 where
  pub margin_per_trade : F
  pub leverage : ℕ
  pub commission_pct : F
  pub max_candles_hold : ℕ
  pub skip_after_signal : ℕ
  pub eval_window_rows : ℕ
  pub context_window_rows : ℕ
  pub block_sell_on_intervals : List String

-- What the walk has so far.
pub record Progress (F : Type 0) : Type 0 where
  pub index : ℕ
  pub trades : List (Trade F)
  pub rejects : Rejects
  pub skipped_4h_sell : ℕ
  pub skipped_low_score : ℕ
  pub eval_calls : ℕ
  pub signals : ℕ
  pub eval_exceptions : ℕ

-- `xs[start:end]`
unfoldable pub slice : {A : Type 0} → ℕ → ℕ → List A → List A
slice start end xs = take (end - start) (drop start xs)

unfoldable pub slice_column : {A : Type 0} → ℕ → ℕ → Option (List A) → Option (List A)
slice_column start end none = none
slice_column start end (some xs) = some (slice start end xs)

-- `df.iloc[start:end]`
unfoldable pub slice_frame : {F : Type 0} → ℕ → ℕ → MainFrame F → MainFrame F
slice_frame start end df = record {
  bars = slice start end df.bars;
  close_times = slice start end df.close_times;
  ema_fast = slice_column start end df.ema_fast;
  ema_mid = slice_column start end df.ema_mid;
  ema_trend = slice_column start end df.ema_trend;
  atr = slice_column start end df.atr;
  atr_avg = slice_column start end df.atr_avg;
  avg_vol = slice_column start end df.avg_vol;
  rsi = slice_column start end df.rsi;
}

-- `searchsorted(cutoff, side="right")` of ascending times
unfoldable pub searchsorted_right : List ℕ → ℕ → ℕ
searchsorted_right [] cutoff = 0
searchsorted_right (t ∷ ts) cutoff = if leb t cutoff then searchsorted_right ts cutoff + 1 else 0

-- The rows of the context, with the times of their closes.
pub record ContextRows (F : Type 0) : Type 0 where
  pub rows : List (F × F × F)
  pub close_ns : List ℕ

module _ {F : Type 0} ⦃fl : Float F⦄ where
  unfoldable pub touches_target : Side → F → Bar F → Bool
  touches_target side tp_price b = by_side side (tp_price ≤? b.high) (b.low ≤? tp_price)

  unfoldable pub touches_stop : Side → F → Bar F → Bool
  touches_stop side stop_price b = by_side side (b.low ≤? stop_price) (stop_price ≤? b.high)

  -- the exit in one candle, where the stop comes first
  unfoldable pub exit_in : Side → F → F → Bar F → ℕ → Option (Closed F)
  exit_in side tp_price stop_price b held =
      if touches_target side tp_price b && touches_stop side stop_price b
      then some (record { result = loss; exit_price = stop_price; candles_held = held })
      else if touches_target side tp_price b
      then some (record { result = win; exit_price = tp_price; candles_held = held })
      else if touches_stop side stop_price b
      then some (record { result = loss; exit_price = stop_price; candles_held = held })
      else none

  -- The loop over the next candles; `last` is the close of the one before and `held` their number.
  unfoldable pub scan_exit : Side → F → F → F → ℕ → List (Bar F) → Closed F
  scan_exit side tp_price stop_price last held [] = record {
    result = timeout;
    exit_price = last;
    candles_held = held;
  }
  scan_exit side tp_price stop_price last held (b ∷ bars) =
      let rest = scan_exit side tp_price stop_price b.close (held + 1) bars in
      elim (exit_in side tp_price stop_price b (held + 1)) [ none ↦ rest | some closed ↦ closed ]

module _ {F : Type 0} ⦃fl : Float F⦄ (pd : Pandas F) (cfg : StrategyConfig F)
    (settings : BacktestSettings F) (interval : String) (df : MainFrame F) (close_ns : List ℕ)
    (context : Option (ContextRows F)) where
  unfoldable pub context_before : ℕ → ContextRows F → Context F
  context_before position rows =
      with_emas (slice (position - settings.context_window_rows) position rows.rows)

  unfoldable pub context_until : Option (ContextRows F) → Option ℕ → Context F
  context_until none cutoff = plain []
  context_until (some rows) none = plain []
  context_until (some rows) (some cutoff) =
      context_before (searchsorted_right rows.close_ns cutoff) rows

  -- one call of `evaluate_signal` on the window that ends with the candle
  unfoldable pub evaluate_at : ℕ → String → Rejects → Step (Signal F) × Rejects
  evaluate_at i as_interval rejects =
      evaluate_signal pd (slice_frame (i + 1 - settings.eval_window_rows) (i + 1) df)
        (context_until context (get_elem? close_ns i)) cfg (parse_interval as_interval) rejects

  -- What the two passes leave: a signal, if there is one, and what they count.
  pub record Found : Type 0 where
    pub signal : Option (Signal F)
    pub rejects : Rejects
    pub exceptions : ℕ

  unfoldable pub after_second : Step (Signal F) × Rejects → Found
  after_second (value s, rejects) = record { signal = some s; rejects = rejects; exceptions = 0 }
  after_second (stop, rejects) = record { signal = none; rejects = rejects; exceptions = 0 }
  after_second (raised e, rejects) = record { signal = none; rejects = rejects; exceptions = 1 }

  unfoldable pub after_first : ℕ → Step (Signal F) × Rejects → Found
  after_first i (value s, rejects) = record { signal = some s; rejects = rejects; exceptions = 0 }
  after_first i (raised e, rejects) = record { signal = none; rejects = rejects; exceptions = 1 }
  after_first i (stop, rejects) =
      if str_eq interval "15m"
      then after_second (evaluate_at i "15m_short" rejects)
      else record { signal = none; rejects = rejects; exceptions = 0 }

  unfoldable pub find_signal : ℕ → Rejects → Found
  find_signal i rejects = after_first i (evaluate_at i interval rejects)

  -- the candles that a trade may be held
  unfoldable pub window_after : ℕ → List (Bar F)
  window_after i = slice (i + 1) (min (i + settings.max_candles_hold + 1) (length df.bars)) df.bars

  unfoldable pub close_of : Option (Bar F) → F
  close_of none = zero_float
  close_of (some b) = b.close

  unfoldable pub trade_of : ℕ → Signal F → Trade F
  trade_of i s =
      let closed =
        scan_exit s.side s.tp_price s.stop_price (close_of (get_elem? df.bars i)) 0
          (window_after i) in
      let qty = fl.quotient (settings.margin_per_trade ⊗ lit settings.leverage 0) s.price in
      let commission = ((qty ⊗ s.price) ⊗ settings.commission_pct) ⊗ lit 2 0 in
      let gross_pnl =
        by_side s.side (closed.exit_price ⊖ s.price) (s.price ⊖ closed.exit_price) ⊗ qty in
      record {
        side = s.side;
        entry_price = fl.round_to s.price 8;
        exit_price = fl.round_to closed.exit_price 8;
        stop_price = fl.round_to s.stop_price 8;
        tp_price = fl.round_to s.tp_price 8;
        pnl_usdt = fl.round_to (gross_pnl ⊖ commission) 4;
        result = closed.result;
        candles_held = closed.candles_held;
        score = s.score;
        signal_candle = i;
      }

  -- whether a price is not positive
  unfoldable pub is_invalid : Signal F → Bool
  is_invalid s =
      (s.price ≤? zero_float) || (s.stop_price ≤? zero_float) || (s.tp_price ≤? zero_float)

  -- the filters and the trade of a signal
  unfoldable pub take_signal : Option (Signal F) → Progress F → Progress F
  take_signal none p = record p { index = p.index + 1 }
  take_signal (some s) p =
      if contains_text interval settings.block_sell_on_intervals && is_sell s.side
      then record p {
        index = p.index + 1;
        signals = p.signals + 1;
        skipped_4h_sell = p.skipped_4h_sell + 1;
      }
      else if s.score <? lit 1 0
      then record p {
        index = p.index + 1;
        signals = p.signals + 1;
        skipped_low_score = p.skipped_low_score + 1;
      }
      else if is_invalid s
      then record p { index = p.index + 1; signals = p.signals + 1 }
      else record p {
        index = p.index + settings.skip_after_signal;
        signals = p.signals + 1;
        trades = p.trades ++ (trade_of p.index s ∷ []);
      }

  -- what the passes count, before the filters
  unfoldable pub count_found : Found → Progress F → Progress F
  count_found found p = record p {
    rejects = found.rejects;
    eval_calls = p.eval_calls + 1;
    eval_exceptions = p.eval_exceptions + found.exceptions;
  }

  -- the body of the loop
  unfoldable pub step_walk : Progress F → Progress F
  step_walk p =
      let found = find_signal p.index p.rejects in take_signal found.signal (count_found found p)

  -- `while i < n - 1`
  unfoldable pub walk : ℕ → Progress F → Progress F
  walk zero p = p
  walk (suc fuel) p =
      let rest = walk fuel (step_walk p) in if ltb (p.index + 1) (length df.bars) then rest else p

  abbrev pub start_walk : Progress F
  start_walk = record {
    index = min 230 (max 20 (length df.bars / 2));
    trades = [];
    rejects = some [];
    skipped_4h_sell = 0;
    skipped_low_score = 0;
    eval_calls = 0;
    signals = 0;
    eval_exceptions = 0;
  }

  -- `_simulate_trades`, on a frame with its columns
  unfoldable pub simulate_trades : Progress F
  simulate_trades = walk (length df.bars) start_walk
