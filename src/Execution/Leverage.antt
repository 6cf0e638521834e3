-- ===== src/Execution/Leverage.antt =====
-- `setup`: the search for a leverage that the exchange accepts. The change of the margin type
-- before it, whose errors are ignored, touches nothing of this.
use trading_binance.Base.{
  ℕ, zero, suc, ◌-◌, ◌≤◌, ◌<◌, ◌≡◌, refl, Bool, false, arith, max, ltb, if◌then◌else◌, ◌⊎◌, inl,
  inr, Bool-cases,
}

-- What the exchange says to `futures_change_leverage`: yes, an error with the code -4028 (the
-- leverage is not allowed), or another error.
pub data Reply : Type 0 where
  accepted not_allowed refused : Reply

-- How `setup` ends: with `self.leverage` changed, with the exchange's error, or, where the first
-- leverage is below 1, without a call.
pub data Setup : Type 0 where
  leverage_set : ℕ → Setup
  error_raised : ℕ → Setup
  not_tried : Setup

-- the body of `while lev >= 1`, on the reply to `lev` and what the loop does with a lower one
abbrev pub on_reply : Reply → ℕ → Setup → Setup
on_reply accepted lev lower = leverage_set lev
on_reply not_allowed lev lower = if ltb 1 lev then lower else error_raised lev
on_reply refused lev lower = error_raised lev

-- The loop with fuel; `lev` is enough, as the next leverage is lower by one or more.
unfoldable pub try_leverage : (ℕ → Reply) → ℕ → ℕ → Setup
try_leverage reply zero lev = not_tried
try_leverage reply (suc fuel) lev =
    let lower = try_leverage reply fuel (max 1 (lev - 5)) in
    if ltb lev 1 then not_tried else on_reply (reply lev) lev lower

unfoldable pub setup : Bool → (ℕ → Reply) → ℕ → Setup
setup paper reply lev = if paper then not_tried else try_leverage reply lev lev

-- What `setup` ends with, from `lev` on.
abbrev pub IsEnd : (ℕ → Reply) → ℕ → Setup → Type 0
IsEnd reply lev (leverage_set l) = (reply l ≡ accepted) × (1 ≤ l) × (l ≤ lev)
IsEnd reply lev (error_raised l) =
    ((reply l ≡ refused) ⊎ ((reply l ≡ not_allowed) × (l ≡ 1))) × (1 ≤ l) × (l ≤ lev)
IsEnd reply lev not_tried = ⊥

lower-IsEnd :
    (reply : ℕ → Reply) (lev : ℕ) (s : Setup)
    → 1 < lev
    → IsEnd reply (max 1 (lev - 5)) s
    → IsEnd reply lev s
lower-IsEnd reply lev (leverage_set l) h (a, b, c) = (a, b, ground arith)
lower-IsEnd reply lev (error_raised l) h (a, b, c) = (a, b, ground arith)
lower-IsEnd reply lev not_tried h e = absurd e

on_reply-IsEnd :
    (reply : ℕ → Reply) (r : Reply) (lev : ℕ) (lower : Setup)
    → reply lev ≡ r
    → 1 ≤ lev
    → (1 < lev → IsEnd reply (max 1 (lev - 5)) lower)
    → IsEnd reply lev (on_reply r lev lower)
on_reply-IsEnd reply accepted lev lower e h rest = (e, h, ground arith)
on_reply-IsEnd reply refused lev lower e h rest = (inl e, h, ground arith)
on_reply-IsEnd reply not_allowed lev lower e h rest = elim (Bool-cases (ltb 1 lev)) [
  | inl more ↦ rw more (lower-IsEnd reply lev lower (ground arith) (rest (ground arith)))
  | inr last ↦ rw last (inr (e, ground arith), h, ground arith)
]

try_leverage-IsEnd :
    (reply : ℕ → Reply) (fuel lev : ℕ)
    → 1 ≤ lev
    → lev ≤ fuel
    → IsEnd reply lev (try_leverage reply fuel lev)
unfolding try_leverage
try_leverage-IsEnd reply zero lev h enough = ground arith
try_leverage-IsEnd reply (suc fuel) lev h enough = rw at_least_one (
    on_reply-IsEnd reply (reply lev) lev (try_leverage reply fuel (max 1 (lev - 5))) refl h
      (λ more. try_leverage-IsEnd reply fuel (max 1 (lev - 5)) (ground arith) (ground arith)))
  where
    at_least_one : ltb lev 1 ≡ false
    at_least_one = ground arith

-- In live mode the search ends, from any leverage of at least 1: with a leverage that is at least
-- 1, at most the configured one, and accepted by the exchange, or with an error of the exchange
-- that is not about a leverage that could still be lowered.
pub setup_ends : (reply : ℕ → Reply) (lev : ℕ) → 1 ≤ lev → IsEnd reply lev (setup false reply lev)
unfolding setup
setup_ends reply lev h = try_leverage-IsEnd reply lev lev h (ground arith)
