-- ===== src/Indicators/Lengths.antt =====
-- Every indicator column has a value for each row.
use trading_binance.Base.{
  ℕ, ◌≡◌, refl, List, [], ◌∷◌, length, Option, none, some, arith, zero, suc, ap, ◌≤◌, ◌∙◌, sym,
  subst, ◌⊎◌, inl, inr,
}
use trading_binance.Py.{Call, answer, exception, Error, and_then}
use trading_binance.Num.{Float}
use trading_binance.Indicators.{
  Pandas, Bar, ema, ewm_inverse, true_ranges, atr_series, gains, losses, relative_strength, rsi,
}

-- pandas keeps the index of a series, whatever period it takes.
pub record IsPandas {F : Type 0} (pd : Pandas F) : Type 0 where
  pub length_ewm_span :
      (series : List F) (period : ℕ)
      → 1 ≤ period
      → length (pd.ewm_span series period) ≡ length series
  pub length_ewm_alpha :
      (series : List F) (period : ℕ)
      → 1 ≤ period
      → length (pd.ewm_alpha series period) ≡ length series

exception_not_answer : {A : Type 0} {x : Error} {a : A} → exception x ≡ answer a → ⊥
exception_not_answer e = ground arith

abbrev HasLength : {F : Type 0} → ℕ → Call (List F) → Type 0
HasLength n (answer xs) = length xs ≡ n
HasLength n (exception x) = Unit

module _ {F : Type 0} where
  -- A span of at least 1 has an average with a value for each row.
  pub ema_answers :
      (pd : Pandas F) (series : List F) (period : ℕ)
      → IsPandas pd
      → 1 ≤ period
      → (averages : List F) × (ema pd series period ≡ answer averages)
        × (length averages ≡ length series)
  unfolding ema
  ema_answers pd series zero laws pos = absurd (omega (arith, pos))
  ema_answers pd series (suc n) laws pos =
      (pd.ewm_span series (suc n), refl, laws.length_ewm_span series (suc n) (omega arith))

  pub length-ema :
      (pd : Pandas F) (series : List F) (period : ℕ) (averages : List F)
      → IsPandas pd
      → ema pd series period ≡ answer averages
      → length averages ≡ length series
  unfolding ema
  length-ema pd series zero averages laws e = absurd (exception_not_answer e)
  length-ema pd series (suc n) averages laws e =
      subst (λ c. HasLength (length series) c) e (laws.length_ewm_span series (suc n) (omega arith))

  pub ema_raises :
      {X : Type 0} (pd : Pandas F) (series : List F) (period : ℕ) (x : Error)
      → ema pd series period ≡ exception x
      → (1 ≤ period) ⊎ X
      → X
  unfolding ema
  ema_raises pd series zero x e (inl pos) = absurd (omega (arith, pos))
  ema_raises pd series (suc n) x e (inl pos) = absurd (exception_not_answer (sym e))
  ema_raises pd series period x e (inr h) = h

  inverse_answers :
      (pd : Pandas F) (series : List F) (period : ℕ)
      → IsPandas pd
      → 1 ≤ period
      → (averages : List F) × (ewm_inverse pd series period ≡ answer averages)
        × (length averages ≡ length series)
  unfolding ewm_inverse
  inverse_answers pd series zero laws pos = absurd (omega (arith, pos))
  inverse_answers pd series (suc n) laws pos =
      (pd.ewm_alpha series (suc n), refl, laws.length_ewm_alpha series (suc n) (omega arith))

module _ {F : Type 0} ⦃fl : Float F⦄ where
  length-true_ranges :
      (pd : Pandas F) (prev : Option F) (bars : List (Bar F))
      → length (true_ranges pd prev bars) ≡ length bars
  unfolding true_ranges
  length-true_ranges pd prev [] = refl
  length-true_ranges pd prev (b ∷ bars) = ap suc (length-true_ranges pd (some b.close) bars)

  length-gains : (prev : Option F) (series : List F) → length (gains prev series) ≡ length series
  unfolding gains
  length-gains prev [] = refl
  length-gains none (x ∷ xs) = ap suc (length-gains (some x) xs)
  length-gains (some p) (x ∷ xs) = ap suc (length-gains (some x) xs)

  length-losses : (prev : Option F) (series : List F) → length (losses prev series) ≡ length series
  unfolding losses
  length-losses prev [] = refl
  length-losses none (x ∷ xs) = ap suc (length-losses (some x) xs)
  length-losses (some p) (x ∷ xs) = ap suc (length-losses (some x) xs)

  length-relative_strength :
      (gs ls : List F) → length gs ≡ length ls → length (relative_strength gs ls) ≡ length gs
  unfolding relative_strength
  length-relative_strength [] ls h = refl
  length-relative_strength (g ∷ gs) [] h = absurd (omega arith)
  length-relative_strength (g ∷ gs) (l ∷ ls) h =
      ap suc (length-relative_strength gs ls (omega arith))

  -- With a period of at least 1, the ATR and RSI columns have as many values as the frame has rows.
  pub atr_answers :
      (pd : Pandas F) (bars : List (Bar F)) (period : ℕ)
      → IsPandas pd
      → 1 ≤ period
      → (atr : List F) × (atr_series pd bars period ≡ answer atr) × (length atr ≡ length bars)
  unfolding atr_series
  atr_answers pd bars period laws pos =
      let (atr, e, l) = inverse_answers pd (true_ranges pd none bars) period laws pos in
      (atr, e, l ∙ length-true_ranges pd none bars)

  pub rsi_answers :
      (pd : Pandas F) (series : List F) (period : ℕ)
      → IsPandas pd
      → 1 ≤ period
      → (values : List F) × (rsi pd series period ≡ answer values) × (length values ≡ length series)
  unfolding rsi and_then
  rsi_answers pd series period laws pos =
      let (gain, e, l) = inverse_answers pd (gains none series) period laws pos in
      let (loss, f, m) = inverse_answers pd (losses none series) period laws pos in
      (
        relative_strength gain loss,
        rw e (rw f refl),
        omega (
          arith,
          l,
          m,
          length-gains none series,
          length-losses none series,
          length-relative_strength gain loss
              (omega (arith, l, m, length-gains none series, length-losses none series)),
        ),
      )
