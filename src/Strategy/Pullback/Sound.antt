-- ===== src/Strategy/Pullback/Sound.antt =====
-- The tests of the EMA-pullback path do not raise, on candles with positive ATR and volume.
use trading_binance.Base.{◌≡◌, Bool, true, false}
use trading_binance.Num.{Float, IsFloat, zero_float, ◌≤?◌}
use trading_binance.Strategy.Eval.Post.{
  Ensures, Any, bind_ensures, pure_ensures, reject_ensures, reject_if_ensures, stop_if_ensures,
  choose_ensures, divided_ensures, ratio_or_ensures,
}
use trading_binance.Strategy.Frame.{Candle, StrategyConfig}
use trading_binance.Strategy.Profile.{Interval, m15, h1, h4, d1, m15_short, other, Profile}
use trading_binance.Strategy.Pullback.{
  check_trend, check_momentum, volume_penalty, check_extension, check_late_entry, score_penalty,
  confirm_strict, confirm_loose, check_confirmation,
}

module _ {F X : Type 0} ⦃fl : Float F⦄ (laws : IsFloat F) where
  pub check_trend_ensures :
      (strict : Bool) (interval : Interval) (p : Profile F) (cfg : StrategyConfig F) (s : Candle F)
      → (s.atr ≤? zero_float) ≡ false
      → Ensures X (check_trend strict interval p cfg s) Any
  unfolding check_trend
  check_trend_ensures strict interval p cfg s atr = bind_ensures (reject_if_ensures _ _) λ _ _.
      bind_ensures (divided_ensures laws _ _ atr) λ _ _. bind_ensures (reject_if_ensures _ _) λ _ _.
        bind_ensures (reject_if_ensures _ _)
          λ _ _. bind_ensures (reject_if_ensures _ _) λ _ _. pure_ensures _ tt

  pub check_momentum_ensures :
      (strict : Bool) (interval : Interval) (p : Profile F) (s : Candle F) (ema body : F)
      → (s.avg_vol ≤? zero_float) ≡ false
      → Ensures X (check_momentum strict interval p s ema body) Any
  unfolding check_momentum
  check_momentum_ensures strict interval p s ema body vol =
      bind_ensures (reject_if_ensures _ _) λ _ _. bind_ensures (reject_if_ensures _ _) λ _ _.
        bind_ensures (stop_if_ensures _) λ _ _. bind_ensures (reject_if_ensures _ _) λ _ _.
          bind_ensures (reject_if_ensures _ _) λ _ _.
            bind_ensures (divided_ensures laws _ _ vol)
              λ _ _. bind_ensures (reject_if_ensures _ _) λ _ _. pure_ensures _ tt

  volume_penalty_ensures :
      (strict : Bool) (interval : Interval) (p : Profile F) (s : Candle F) (v : F)
      → Ensures X (volume_penalty strict interval p s v) Any
  unfolding volume_penalty
  volume_penalty_ensures true m15 p s v =
      bind_ensures (reject_if_ensures _ _) λ _ _. pure_ensures _ tt
  volume_penalty_ensures _ _ p s v = pure_ensures _ tt

  check_extension_ensures :
      (interval : Interval) (s : Candle F) (spread penalty : F)
      → Ensures X (check_extension interval s spread penalty) Any
  unfolding check_extension
  check_extension_ensures m15 s spread penalty =
      bind_ensures (reject_if_ensures _ _)
        λ _ _. bind_ensures (reject_if_ensures _ _) λ _ _. pure_ensures _ tt
  check_extension_ensures h1 s spread penalty = bind_ensures (reject_if_ensures _ _) λ _ _.
      bind_ensures (reject_if_ensures _ _)
        λ _ _. bind_ensures (reject_if_ensures _ _) λ _ _. pure_ensures _ tt
  check_extension_ensures h4 s spread penalty =
      bind_ensures (reject_if_ensures _ _)
        λ _ _. bind_ensures (reject_if_ensures _ _) λ _ _. pure_ensures _ tt
  check_extension_ensures d1 s spread penalty =
      bind_ensures (reject_if_ensures _ _)
        λ _ _. bind_ensures (reject_if_ensures _ _) λ _ _. pure_ensures _ tt
  check_extension_ensures m15_short s spread penalty = pure_ensures _ tt
  check_extension_ensures other s spread penalty = pure_ensures _ tt

  check_late_entry_ensures :
      (interval : Interval) (p : Profile F) (s : Candle F) (penalty : F)
      → Ensures X (check_late_entry interval p s penalty) Any
  unfolding check_late_entry
  check_late_entry_ensures m15 p s penalty = pure_ensures _ tt
  check_late_entry_ensures _ p s penalty =
      choose_ensures _ (λ _. reject_ensures _) (λ _. pure_ensures _ tt)

  pub score_penalty_ensures :
      (strict : Bool) (interval : Interval) (p : Profile F) (s : Candle F) (spread v : F)
      → Ensures X (score_penalty strict interval p s spread v) Any
  unfolding score_penalty
  score_penalty_ensures strict interval p s spread v =
      bind_ensures (volume_penalty_ensures strict interval p s v) λ penalty _.
        choose_ensures _
          (λ _.
            bind_ensures (check_extension_ensures interval s spread penalty)
              λ more _. check_late_entry_ensures interval p s more)
          (λ _. pure_ensures _ tt)

  confirm_strict_ensures :
      (confirmed : F → Bool) (c : Candle F) → Ensures X (confirm_strict confirmed c) Any
  unfolding confirm_strict
  confirm_strict_ensures confirmed c =
      bind_ensures (ratio_or_ensures laws _ _ _)
        λ _ _. bind_ensures (reject_if_ensures _ _) λ _ _. pure_ensures _ tt

  confirm_loose_ensures : (s c : Candle F) → Ensures X (confirm_loose s c) Any
  unfolding confirm_loose
  confirm_loose_ensures s c = bind_ensures (stop_if_ensures _) λ _ _. pure_ensures _ tt

  pub check_confirmation_ensures :
      (strict : Bool) (interval : Interval) (s c : Candle F)
      → Ensures X (check_confirmation strict interval s c) Any
  unfolding check_confirmation
  check_confirmation_ensures true m15 s c = confirm_strict_ensures _ c
  check_confirmation_ensures true h1 s c = confirm_strict_ensures _ c
  check_confirmation_ensures true h4 s c = confirm_strict_ensures _ c
  check_confirmation_ensures true d1 s c = confirm_strict_ensures _ c
  check_confirmation_ensures _ _ s c = confirm_loose_ensures s c
