-- ===== src/Sizing/Bounds.antt =====
-- Every policy stays within the balance.
use trading_binance.Base.{◌≡◌, refl, false, ◌||◌, inl, inr, arith, Bool-cases, max, Bool, ℕ}
use trading_binance.Num.{
  Float, IsFloat, ◌⊖◌, ◌⊗◌, ◌≼◌, ◌≤?◌, IsNum, lit, zero_float, absolute, min_float, max_float,
}
use trading_binance.Py.{Call, answer, divide_then}
use trading_binance.Sizing.{
  SizingMode, fixed_margin, risk_based, pct_balance, SizingInputs, fixed_margin_to_use,
  pct_balance_margin, risk_based_margin, cap_margin, margin_to_use,
}

not_or-left : (a b : Bool) → (a || b) ≡ false → a ≡ false
not_or-left a b h = ground arith

module _ {F : Type 0} ⦃fl : Float F⦄ (laws : IsFloat F) where
  open laws use {
    le_refl, le_or_lt, le_of_lt, lit_num, num_of_le, num_of_lt, le_trans, le_of_eq, lit_pos,
    not_le_of_lt,
  }

  max_float_nonneg : (x : F) → zero_float ≼ max_float zero_float x
  max_float_nonneg x = ground (arith, le_refl (lit 0 0) (lit_num 0 0), le_of_lt (lit 0 0) x)

  -- A number that is not above the balance caps what `min` lets through, NaN included.
  max_min-le :
      (m a : F) → IsNum a → (a ≤? zero_float) ≡ false → max_float zero_float (min_float m a) ≼ a
  max_min-le m a n p = ground (
    arith,
    le_refl a n,
    num_of_lt (lit 0 0) m,
    le_or_lt m a,
    le_or_lt a (lit 0 0) n (lit_num 0 0),
    le_of_lt (lit 0 0) a,
  )

  -- A divisor that is not at or below zero does not raise.
  divide_then_lem :
      (x y : F) (f : F → Call F)
      → (y ≤? zero_float) ≡ false
      → divide_then x y f ≡ f (fl.quotient x y)
  divide_then_lem x y f h = ground (arith, le_of_eq y zero_float)

  -- The call returns a margin from zero up to the balance.
  record IsWithin (a : F) (r : Call F) : Type 0 where
    margin : F
    returned : r ≡ answer margin
    nonneg : zero_float ≼ margin
    capped : margin ≼ max_float zero_float a

  zero-IsWithin : (a : F) → IsWithin a (answer zero_float)
  zero-IsWithin a = record {
    margin = zero_float;
    returned = refl;
    nonneg = le_refl (lit 0 0) (lit_num 0 0);
    capped = max_float_nonneg a;
  }

  cap-IsWithin :
      (m a : F)
      → IsNum a
      → (a ≤? zero_float) ≡ false
      → IsWithin a (answer (max_float zero_float (min_float m a)))
  cap-IsWithin m a n p = record {
    margin = max_float zero_float (min_float m a);
    returned = refl;
    nonneg = max_float_nonneg _;
    capped = ground (arith, max_min-le m a n p, le_or_lt a (lit 0 0) n (lit_num 0 0));
  }

  fixed_margin-IsWithin :
      (inputs : SizingInputs F)
      → IsNum inputs.available_balance
      → IsWithin inputs.available_balance (answer (fixed_margin_to_use inputs))
  unfolding fixed_margin_to_use
  fixed_margin-IsWithin inputs n = elim (Bool-cases (inputs.available_balance ≤? zero_float)) [
    | inl e ↦ rw e (zero-IsWithin _)
    | inr e ↦ elim (Bool-cases (inputs.fixed_margin_per_trade_usdt ≤? zero_float)) [
      | inl z ↦ rw (e, z) (zero-IsWithin _)
      | inr z ↦ rw (e, z) (cap-IsWithin _ _ n e)
    ]
  ]

  pct_balance-IsWithin :
      (inputs : SizingInputs F)
      → IsNum inputs.available_balance
      → IsWithin inputs.available_balance (answer (pct_balance_margin inputs))
  unfolding pct_balance_margin
  pct_balance-IsWithin inputs n = elim (Bool-cases (inputs.available_balance ≤? zero_float)) [
    | inl e ↦ rw e (zero-IsWithin _)
    | inr e ↦ rw e (cap-IsWithin _ _ n e)
  ]

  leverage_pos : (n : ℕ) → ◌≤?◌ {F = F} (lit (max 1 n) 0) zero_float ≡ false
  leverage_pos n = not_le_of_lt _ _ (lit_pos (max 1 n) 0 (omega arith) (omega arith))

  risk_based-IsWithin :
      (inputs : SizingInputs F)
      → IsNum inputs.available_balance
      → IsWithin inputs.available_balance (risk_based_margin inputs)
  unfolding risk_based_margin cap_margin
  risk_based-IsWithin inputs n =
      let distance = absolute (inputs.entry_price ⊖ inputs.stop_price) in
      let usable = max_float zero_float (inputs.available_balance ⊗ inputs.margin_utilization) in
      let budget = max_float zero_float (usable ⊗ inputs.risk_per_trade_pct) in
      let qty = fl.quotient budget distance in
      elim (Bool-cases
        ((inputs.available_balance ≤? zero_float) || (inputs.entry_price ≤? zero_float))) [
          | inl e ↦ rw e (zero-IsWithin _)
          | inr e ↦ rw e (elim (Bool-cases (distance ≤? zero_float)) [
            | inl d ↦ rw d (zero-IsWithin _)
            | inr d ↦
                rw (d, divide_then_lem budget distance _ d)
                  (elim (Bool-cases (usable ≤? zero_float)) [
                    | inl u ↦ rw u (zero-IsWithin _)
                    | inr u ↦ rw u (elim (Bool-cases (budget ≤? zero_float)) [
                      | inl b ↦ rw b (zero-IsWithin _)
                      | inr b ↦ rw b (elim (Bool-cases (qty ≤? zero_float)) [
                        | inl q ↦ rw q (zero-IsWithin _)
                        | inr q ↦
                            rw (q, divide_then_lem _ _ _ (leverage_pos inputs.leverage))
                              (cap-IsWithin _ _ n (not_or-left _ _ e))
                      ])
                    ])
                  ])
          ])
        ]

  margin_to_use-IsWithin :
      (mode : SizingMode) (inputs : SizingInputs F)
      → IsNum inputs.available_balance
      → IsWithin inputs.available_balance (margin_to_use mode inputs)
  unfolding margin_to_use
  margin_to_use-IsWithin risk_based inputs n = risk_based-IsWithin inputs n
  margin_to_use-IsWithin pct_balance inputs n = pct_balance-IsWithin inputs n
  margin_to_use-IsWithin fixed_margin inputs n = fixed_margin-IsWithin inputs n

  -- Under every policy the sizer returns a margin, never an exception, and the margin lies between
  -- zero and the available balance (zero if the balance is negative), as long as the balance is not
  -- NaN. The other inputs are arbitrary, NaN and infinities included.
  pub margin_to_use_bounds :
      (mode : SizingMode) (inputs : SizingInputs F)
      → IsNum inputs.available_balance
      → (m : F) × (margin_to_use mode inputs ≡ answer m)
        × (zero_float ≼ m)
        × (m ≼ max_float zero_float inputs.available_balance)
  margin_to_use_bounds mode inputs n =
      let w = margin_to_use-IsWithin mode inputs n in (w.margin, w.returned, w.nonneg, w.capped)
