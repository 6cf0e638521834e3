-- ===== src/Backtest/Exit.antt =====
-- How a simulated trade ends.
use trading_binance.Base.{
  Bool-cases, inl, inr, ℕ, ◌+◌, ◌≡◌, ◌∙◌, ap, arith, true, false, List, [], ◌∷◌, ◌++◌, length,
}
use trading_binance.Num.{Float}
use trading_binance.Indicators.{Bar}
use trading_binance.Strategy.Frame.{Side}
use trading_binance.Backtest.{
  win, loss, timeout, Closed, touches_target, touches_stop, exit_in, scan_exit,
}

-- The count of the candles, with one more at the front.
length_shift :
    {A : Type 0} (held : ℕ) (x : A) (xs : List A) → held + 1 + length xs ≡ held + length (x ∷ xs)
length_shift held x xs = omega arith

module _ {F : Type 0} ⦃fl : Float F⦄ (side : Side) (tp_price stop_price : F) where
  -- A candle that reaches neither the target nor the stop.
  abbrev IsCalm : Bar F → Type 0
  IsCalm b = (touches_target side tp_price b ≡ false) × (touches_stop side stop_price b ≡ false)

  abbrev pub AllCalm : List (Bar F) → Type 0
  AllCalm [] = Unit
  AllCalm (b ∷ bars) = IsCalm b × AllCalm bars

  abbrev last_close : F → List (Bar F) → F
  last_close last [] = last
  last_close last (b ∷ bars) = last_close b.close bars

  -- The end of a trade, by the candles that follow it: what the first candle that is not calm
  -- says, at its place, or a timeout at the last close.
  pub data Ends (last : F) (held : ℕ) : List (Bar F) → Closed F → Type 0 where
    stopped :
        (calm : List (Bar F)) (b : Bar F) (rest : List (Bar F)) (n : ℕ)
        → AllCalm calm
        → touches_stop side stop_price b ≡ true
        → n ≡ held + length calm + 1
        → Ends last held
            (calm ++ (b ∷ rest))
            (record { result = loss; exit_price = stop_price; candles_held = n })
    won :
        (calm : List (Bar F)) (b : Bar F) (rest : List (Bar F)) (n : ℕ)
        → AllCalm calm
        → touches_target side tp_price b ≡ true
        → touches_stop side stop_price b ≡ false
        → n ≡ held + length calm + 1
        → Ends last held
            (calm ++ (b ∷ rest))
            (record { result = win; exit_price = tp_price; candles_held = n })
    timed_out :
        (calm : List (Bar F)) (n : ℕ)
        → AllCalm calm
        → n ≡ held + length calm
        → Ends last held calm
            (record { result = timeout; exit_price = last_close last calm; candles_held = n })

  -- One calm candle more at the front.
  later :
      (last : F) (held : ℕ) (b : Bar F) (bars : List (Bar F)) (closed : Closed F)
      → IsCalm b
      → Ends b.close (held + 1) bars closed
      → Ends last held (b ∷ bars) closed
  later last held b bars closed calm (stopped before c rest n quiet touch count) =
      stopped (b ∷ before) c rest n (calm, quiet) touch
        (count ∙ ap (λ k. k + 1) (length_shift held b before))
  later last held b bars closed calm (won before c rest n quiet touch miss count) =
      won (b ∷ before) c rest n (calm, quiet) touch miss
        (count ∙ ap (λ k. k + 1) (length_shift held b before))
  later last held b bars closed calm (timed_out before n quiet count) =
      timed_out (b ∷ before) n (calm, quiet) (count ∙ length_shift held b before)

  -- The loop over the candles after an entry ends as the first candle says that reaches the stop
  -- or the target: with a loss at the stop if it reaches the stop, whether or not it reaches the
  -- target too, else with a win at the target; the number of candles is that candle's place. Where
  -- no candle reaches either, it times out after the last candle, at its close.
  pub scan_exit_lem :
      (last : F) (held : ℕ) (bars : List (Bar F))
      → Ends last held bars (scan_exit side tp_price stop_price last held bars)
  unfolding scan_exit exit_in
  scan_exit_lem last held [] = timed_out [] held tt (omega arith)
  scan_exit_lem last held (b ∷ bars) =
      let rest = scan_exit_lem b.close (held + 1) bars in
      elim (Bool-cases (touches_stop side stop_price b)) [
        | inl stops ↦ elim (Bool-cases (touches_target side tp_price b)) [
          | inl target ↦
              rw (scan_exit, exit_in, stops)
                (rw target (stopped [] b bars (held + 1) tt stops (omega arith)))
          | inr misses ↦
              rw (scan_exit, exit_in, stops)
                (rw misses (stopped [] b bars (held + 1) tt stops (omega arith)))
        ]
        | inr runs ↦ elim (Bool-cases (touches_target side tp_price b)) [
          | inl target ↦
              rw (scan_exit, exit_in, runs)
                (rw target (won [] b bars (held + 1) tt target runs (omega arith)))
          | inr misses ↦
              rw (scan_exit, exit_in, runs)
                (rw misses (later last held b bars _ (misses, runs) rest))
        ]
      ]
